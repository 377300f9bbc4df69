-- ===== src/Rules/Gate.antt =====
-- internal/service/newsender.go: the gate of new senders, with recordRuleMoves of
-- internal/service/learn.go. The state database beside the mailbox is a value of type Tables, which only
-- its own statements change; these succeed, as do those that read the cache. A panic is a failure with its
-- text. A hash is the 64 bits of MsgHash.
use imap_mcp.Prelude.{
  ℕ, ◌-◌, ◌*◌, Bool, false, not, ◌&&◌, ◌||◌, List, [], ◌∷◌, ◌++◌, Option, none, some, Text, bytes,
  text_eq, contains, is_nil, length, drop, ltb, leb, ◌==◌, if◌then◌else◌,
}
use imap_mcp.Prelude.Int.{ℤ, pos, negsuc}
use imap_mcp.Prelude.Bytes.{to_lower, trim_space, has_prefix, text_contains}
use imap_mcp.Mail.{Tried, done, failed}
use imap_mcp.Query.{itoa}
use imap_mcp.Enrichment.Gates.Window.{split_on}
use imap_mcp.Rules.Signals.{bare_addr, domain_of, freemail_domains, unbracket}

-- A row of held_messages; `released` says that released_at is set.
pub record Held : Type 0 where
  pub account : Text
  pub hash : ℕ
  pub released : Bool

pub record Sender : Type 0 where
  pub address : Text
  pub domain : Text
  pub sent : ℕ
  pub replied : ℕ
  pub trusted : ℕ
  pub first_seen : Option ℕ

-- A row of message_verdicts: whether the confidence is below the threshold, and how it is printed
pub record StoredVerdict : Type 0 where
  pub account : Text
  pub hash : ℕ
  pub verdict : Text
  pub unsure : Bool
  pub shown : Text

pub record Hall : Type 0 where
  pub account : Text
  pub message_id : Text
  pub hall : Text

pub record Move : Type 0 where
  pub account : Text
  pub hash : ℕ
  pub rule_id : ℕ
  pub dest : Text

-- `outgoing` has the hashes of intel_messages that are outgoing; a cache that is not there has no halls.
pub record Tables : Type 0 where
  pub held : List Held
  pub senders : List Sender
  pub outgoing : List ℕ
  pub verdicts : List StoredVerdict
  pub halls : List Hall
  pub moves : List Move

pub record Envelope : Type 0 where
  pub message_id : Text
  pub from : List (Text × Text)
  pub to : List Text
  pub cc : List Text
  pub reply_to : List Text
  pub in_reply_to : List Text
  pub subject : Text

-- The header fields of headerOf, parsed; all are empty where it fails.
pub record Fields : Type 0 where
  pub references : Text
  pub reference_ids : List Text
  pub list_unsubscribe : Text
  pub list_id : Text
  pub precedence : Text

pub record Fetched : Type 0 where
  pub uid : ℕ
  pub envelope : Option Envelope
  pub fields : Fields

-- What filter knows of a message that it holds
pub record HeldInfo : Type 0 where
  pub uid : ℕ
  pub ref : Text
  pub sender : Text
  pub subject : Text
  pub reasons : List Text
  pub hash : ℕ

-- What the gate is made of: the switch and the counts of the history scan, the owner's addresses, those of
-- the accounts and then the entries of me, SHA-256 cut to 64 bits, and regexp's FindString.
pub record Setup : Type 0 where
  pub is_on : Bool
  pub folders : ℕ
  pub complete : ℕ
  pub account : Text
  pub addresses : List Text
  pub me : List Text
  pub verdict_on : Bool
  pub digest : Text → ℕ
  pub find : Text → Text → Text

-- A text that the owner is known by
pub record Owner : Type 0 where
  pub own : List Text
  pub domains : List Text

unfoldable pub add_address : Text → Owner → Owner
unfolding bare_addr domain_of freemail_domains text_contains contains
add_address raw o =
    let addr = bare_addr raw in
    let d = domain_of addr in
    if not (text_contains addr (bytes "@")) then o else record {
      own = addr ∷ o.own;
      domains = if contains freemail_domains d then o.domains else d ∷ o.domains;
    }

unfoldable pub add_addresses : List Text → Owner → Owner
unfolding add_address
add_addresses [] o = o
add_addresses (a ∷ addresses) o = add_addresses addresses (add_address a o)

unfoldable pub add_entry : Text → Owner → Owner
unfolding has_prefix freemail_domains contains
add_entry e o =
    if has_prefix e (bytes "@")
    then (if contains freemail_domains (drop 1 e)
        then o
        else record o { domains = drop 1 e ∷ o.domains })
    else record o { own = e ∷ o.own }

unfoldable pub add_entries : List Text → Owner → Owner
unfolding add_entry
add_entries [] o = o
add_entries (e ∷ me) o = add_entries me (add_entry e o)

unfoldable pub labels_of : List Text → List Text
unfolding split_on
labels_of [] = []
labels_of (d ∷ domains) =
    let rest = labels_of domains in
    elim (split_on b'.' d) [
      | [] ↦ rest
      | label ∷ labels ↦ if leb 3 (length label) then label ∷ rest else rest
    ]

unfoldable pub owner_of : Setup → Owner
unfolding add_addresses add_entries
owner_of g = add_entries g.me (add_addresses g.addresses (record { own = []; domains = [] }))

abbrev pub window_days : ℤ → ℕ
window_days (pos n) = if n == 0 then 30 else n
window_days (negsuc n) = 30

-- newSenderGate, which gives the cutoff
unfoldable pub cutoff_of : Setup → ℕ → ℤ → Tried ℕ
unfolding itoa
cutoff_of g now days =
    if not g.is_on
    then failed (bytes "new_sender needs the intelligence scan (intelligence.enabled)")
    else if g.folders == 0 || ltb g.complete g.folders
    then failed (
        bytes "new_sender: the history scan of "
        ++ (g.account
            ++ (bytes " is not complete yet ("
                ++ (itoa g.complete
                    ++ (bytes "/" ++ (itoa g.folders ++ bytes " folders); nothing was matched"))))))
    else done (now - window_days days * 86400)

-- MsgHash
unfoldable pub msg_hash : Setup → Text → ℕ
unfolding to_lower trim_space unbracket
msg_hash g id =
    let low = to_lower (unbracket (trim_space id)) in if is_nil low then 0 else g.digest low

unfoldable pub sender_row : Text → List Sender → Option Sender
unfolding text_eq
sender_row addr [] = none
sender_row addr (r ∷ rows) =
    let rest = sender_row addr rows in if text_eq r.address addr then some r else rest

unfoldable pub domain_known : Text → List Sender → Bool
unfolding text_eq
domain_known d [] = false
domain_known d (r ∷ rows) =
    (text_eq r.domain d && (ltb 0 r.sent || ltb 0 r.trusted)) || domain_known d rows

abbrev pub has_history : ℕ → Sender → Bool
has_history cutoff r =
    ltb 0 r.sent
    || (ltb 0 r.replied
        || (ltb 0 r.trusted || (elim r.first_seen [ none ↦ false | some at ↦ ltb at cutoff ])))

unfoldable pub is_new : Setup → Tables → ℕ → Text → Bool
unfolding bare_addr domain_of freemail_domains contains sender_row domain_known owner_of
is_new g t cutoff raw =
    let addr = bare_addr raw in
    let known : Bool = elim (sender_row addr t.senders) [
      | none ↦ false
      | some r ↦ has_history cutoff r
    ] in
    let domain = domain_of addr in
    is_nil addr
    || (not (contains (owner_of g).own addr)
        && (not known
            && (is_nil domain
                || (contains freemail_domains domain || not (domain_known domain t.senders)))))
