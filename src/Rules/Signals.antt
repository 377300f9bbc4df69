-- ===== src/Rules/Signals.antt =====
-- internal/service/newsender.go: what it reads from the text of an address, a name and a subject. A regular
-- expression is a function from its text and a name to the match, empty for none.
use imap_mcp.Prelude.{
  ℕ, ◌+◌, Bool, true, false, not, ◌&&◌, ◌||◌, List, [], ◌∷◌, ◌++◌, Option, none, some, Text, bytes,
  text_eq, contains, is_nil, length, drop, ltb, leb, ◌==◌, if◌then◌else◌,
}
use imap_mcp.Prelude.Bytes.{to_lower, trim_space, has_prefix, index, last_index, text_contains}
use imap_mcp.Mail.{Tried, done, failed, among}
use imap_mcp.Enrichment.Gates.Window.{split_on}
use imap_mcp.Verdict.{fields_from}

unfoldable pub has_suffix : Text → Text → Bool
has_suffix [] p = is_nil p
has_suffix (c ∷ s) p = text_eq (c ∷ s) p || has_suffix s p

-- strings.TrimLeft and TrimRight, with the bytes of a set
unfoldable pub trim_left : List ℕ → Text → Text
unfolding among
trim_left set [] = []
trim_left set (c ∷ s) = let rest = trim_left set s in if among set c then rest else c ∷ s

unfoldable pub trim_right : List ℕ → Text → Text
unfolding among
trim_right set [] = []
trim_right set (c ∷ s) =
    let rest = trim_right set s in if is_nil rest && among set c then [] else c ∷ rest

-- strings.Trim(s, "<>")
unfoldable pub unbracket : Text → Text
unfolding trim_left trim_right
unbracket s = trim_right (bytes "<>") (trim_left (bytes "<>") s)

-- strings.TrimSuffix(s, ">")
unfoldable pub trim_angle : Text → Text
trim_angle [] = []
trim_angle (c ∷ []) = if c == b'>' then [] else c ∷ []
trim_angle (c ∷ d ∷ s) = c ∷ trim_angle (d ∷ s)

unfoldable pub bare_addr : Text → Text
unfolding to_lower trim_space last_index trim_angle
bare_addr addr =
    let low = to_lower (trim_space addr) in
    elim (last_index low (bytes "<")) [ none ↦ low | some i ↦ trim_angle (drop (i + 1) low) ]

unfoldable pub domain_of : Text → Text
unfolding to_lower last_index
domain_of addr = elim (last_index addr (bytes "@")) [
  | none ↦ []
  | some i ↦ to_lower (drop (i + 1) addr)
]

abbrev pub same_org : Text → Text → Bool
same_org d base = text_eq d base || has_suffix d (b'.' ∷ base)

unfoldable pub freemail_domains : List Text
freemail_domains =
    bytes "gmail.com"
    ∷ bytes "googlemail.com"
    ∷ bytes "yahoo.com"
    ∷ bytes "hotmail.com"
    ∷ bytes "outlook.com"
    ∷ bytes "live.com"
    ∷ bytes "msn.com"
    ∷ bytes "aol.com"
    ∷ bytes "icloud.com"
    ∷ bytes "me.com"
    ∷ bytes "mac.com"
    ∷ bytes "proton.me"
    ∷ bytes "protonmail.com"
    ∷ bytes "gmx.com"
    ∷ bytes "mail.com"
    ∷ bytes "yandex.com"
    ∷ bytes "comcast.net"
    ∷ bytes "att.net"
    ∷ bytes "verizon.net"
    ∷ []

unfoldable pub throwaway_tlds : List Text
throwaway_tlds =
    bytes "shop"
    ∷ bytes "pro"
    ∷ bytes "site"
    ∷ bytes "top"
    ∷ bytes "xyz"
    ∷ bytes "click"
    ∷ bytes "online"
    ∷ bytes "store"
    ∷ bytes "buzz"
    ∷ bytes "icu"
    ∷ bytes "rest"
    ∷ bytes "cfd"
    ∷ bytes "sbs"
    ∷ bytes "lol"
    ∷ bytes "mom"
    ∷ bytes "bond"
    ∷ bytes "cyou"
    ∷ bytes "space"
    ∷ bytes "ws"
    ∷ bytes "live"
    ∷ bytes "life"
    ∷ []

-- The expressions of the brands and the domains that may use them
unfoldable pub brands : List (Text × List Text)
brands =
    (bytes "\\b(quickbooks|qbo|intuit)\\b", bytes "intuit.com" ∷ [])
    ∷ (bytes "\\b(social security|ssa\\.gov|ssa)\\b", bytes "ssa.gov" ∷ [])
    ∷ (bytes "\\b(irs|internal reven[ue]+ service)\\b", bytes "irs.gov" ∷ [])
    ∷ (bytes "\\bfederal reserve\\b", bytes "federalreserve.gov" ∷ bytes "frb.org" ∷ [])
    ∷ (bytes "\\bmedicare\\b", bytes "medicare.gov" ∷ bytes "cms.gov" ∷ [])
    ∷ (bytes "\\bstate ?farm", bytes "statefarm.com" ∷ [])
    ∷ (bytes "\\blowe[’']?s\\b", bytes "lowes.com" ∷ [])
    ∷ (bytes "\\bhome depot\\b", bytes "homedepot.com" ∷ [])
    ∷ (bytes "\\bamazon\\b", bytes "amazon.com" ∷ bytes "amazonses.com" ∷ [])
    ∷ (bytes "\\bpaypal\\b", bytes "paypal.com" ∷ [])
    ∷ (bytes "\\b(apple|icloud)\\b", bytes "apple.com" ∷ bytes "icloud.com" ∷ [])
    ∷ (bytes "\\b(microsoft|office ?365)\\b", bytes "microsoft.com" ∷ bytes "office.com" ∷ [])
    ∷ (bytes "\\bnetflix\\b", bytes "netflix.com" ∷ [])
    ∷ (
      bytes "\\b(norton|mcafee|geek squad)\\b",
      bytes "norton.com" ∷ bytes "mcafee.com" ∷ bytes "bestbuy.com" ∷ [],
    )
    ∷ (bytes "\\bdocusign\\b", bytes "docusign.net" ∷ bytes "docusign.com" ∷ [])
    ∷ (bytes "\\b(fedex|dhl|usps)\\b", bytes "fedex.com" ∷ bytes "dhl.com" ∷ bytes "usps.com" ∷ [])
    ∷ (
      bytes "\\b(chase|wells fargo|bank of america|coinbase)\\b",
      bytes "chase.com"
          ∷ bytes "wellsfargo.com"
          ∷ bytes "bankofamerica.com"
          ∷ bytes "coinbase.com"
          ∷ [],
    )
    ∷ (
      bytes "\\b(t-mobile|verizon|at&t)\\b",
      bytes "t-mobile.com"
          ∷ bytes "verizon.com"
          ∷ bytes "verizonwireless.com"
          ∷ bytes "att.com"
          ∷ [],
    )
    ∷ (
      bytes "\\b(cbs|fox) news\\b|\\bcbs\\b",
      bytes "cbs.com" ∷ bytes "cbsnews.com" ∷ bytes "foxnews.com" ∷ [],
    )
    ∷ (
      bytes "\\b(aaa|garmin|mychart|nordvpn|unitedhealthcare)\\b",
      bytes "aaa.com"
          ∷ bytes "garmin.com"
          ∷ bytes "mychart.com"
          ∷ bytes "nordvpn.com"
          ∷ bytes "uhc.com"
          ∷ [],
    )
    ∷ []

-- A Replacer that removes the bytes of a set
unfoldable pub without_bytes : List ℕ → Text → Text
unfolding among
without_bytes set [] = []
without_bytes set (c ∷ s) = let rest = without_bytes set s in if among set c then rest else c ∷ rest

unfoldable pub any_org : Text → List Text → Bool
unfolding has_suffix
any_org domain [] = false
any_org domain (d ∷ domains) = same_org domain d || any_org domain domains

-- The loop over the brands: the first whose expression matches decides
unfoldable pub borrows_brand : (Text → Text → Text) → Text → Text → List (Text × List Text) → Bool
unfolding any_org without_bytes text_contains
borrows_brand find name domain [] = false
borrows_brand find name domain ((re, domains) ∷ others) =
    let rest = borrows_brand find name domain others in
    let word = find re name in
    let bare = without_bytes (bytes " -'") word in
    if is_nil word
    then rest
    else not (any_org domain domains)
      && not (leb 4 (length bare) && text_contains (without_bytes (bytes ".-") domain) bare)

unfoldable pub any_label : Text → List Text → Bool
unfolding text_contains
any_label name [] = false
any_label name (label ∷ labels) = text_contains name label || any_label name labels

abbrev pub panic : Text
panic = bytes "panic: index out of range [0] with length 0"

-- The address that a name shows: strings.Fields of what follows its @, whose element 0 must exist
unfoldable pub shown_address : Text → Tried (Option Text)
unfolding index fields_from trim_right
shown_address name = elim (index name (bytes "@")) [
  | none ↦ done none
  | some i ↦ elim (fields_from [] (drop (i + 1) name ++ bytes " ")) [
    | [] ↦ failed panic
    | word ∷ words ↦ done (some (trim_right (bytes ">)].,;:") word))
  ]
]

abbrev pub other_address : Text → Option Text → Bool
other_address domain shown = elim shown [
  | none ↦ false
  | some s ↦ text_contains s (bytes ".") && not (same_org domain s)
]

-- impersonation, with the owner's labels and domains
unfoldable pub impersonation :
    (Text → Text → Text) → List Text → List Text → Text → Text → Tried Text
unfolding shown_address borrows_brand brands any_label text_contains contains has_suffix
impersonation find labels domains name domain =
    if is_nil name || is_nil domain then done [] else elim (shown_address name) [
      | failed e ↦ failed e
      | done shown ↦ done (
          if other_address domain shown
          then bytes "display name shows another address"
          else if any_label name labels && not (contains domains domain)
          then bytes "display name uses your own domain"
          else if borrows_brand find name domain brands
          then bytes "display name borrows a brand or agency"
          else [])
    ]

abbrev pub fake_reply : Text → Bool
fake_reply subject =
    let s = to_lower (trim_space subject) in
    has_prefix s (bytes "re:")
    || (has_prefix s (bytes "re :") || (has_prefix s (bytes "fwd:") || has_prefix s (bytes "fw:")))

-- The loop of notToOwner
unfoldable pub all_foreign : List Text → Text → List Text → Bool
unfolding contains domain_of freemail_domains
all_foreign own from [] = true
all_foreign own from (r ∷ recipients) =
    not (contains own r || (not (text_eq r from) && not (contains freemail_domains (domain_of r))))
    && all_foreign own from recipients

abbrev pub not_to_owner : List Text → Text → List Text → Bool
not_to_owner own from recipients = is_nil recipients || all_foreign own from recipients

abbrev pub is_digit : ℕ → Bool
is_digit c = leb 48 c && leb c 57

abbrev pub is_letter : ℕ → Bool
is_letter c = (leb 97 c && leb c 122) || (leb 65 c && leb c 90)

unfoldable pub any_byte : (ℕ → Bool) → Text → Bool
any_byte p [] = false
any_byte p (c ∷ s) = p c || any_byte p s

-- The labels of a domain, with the one before as `name`
unfoldable pub is_throwaway : Text → List Text → Bool
unfolding contains throwaway_tlds any_byte
is_throwaway name [] = false
is_throwaway name (tld ∷ []) =
    contains throwaway_tlds tld || (any_byte is_digit name && any_byte is_letter name)
is_throwaway name (label ∷ next ∷ labels) = is_throwaway label (next ∷ labels)

unfoldable pub throwaway_domain : Text → Bool
unfolding is_throwaway split_on
throwaway_domain domain =
    let labels = split_on b'.' domain in ltb 1 (length labels) && is_throwaway [] labels
