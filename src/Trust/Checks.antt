-- ===== src/Trust/Checks.antt =====
-- internal/trust/trust.go: the primitive checks of the gates.
use imap_mcp.Prelude.{
  ℕ, ◌+◌, ◌-◌, ◌*◌, Bool, false, not, ◌&&◌, ◌||◌, List, [], ◌∷◌, ◌++◌, Option, none, some, Text,
  bytes, text_eq, drop, take, is_nil, leb, if◌then◌else◌,
}
use imap_mcp.Prelude.Bytes.{to_lower, trim_space, index, last_index, text_contains}
use imap_mcp.Prelude.Int.{pos, gtb_ℤ, wrap_int64, neg_int64, sub_time}

-- extractAddr
unfoldable pub extract_addr : Text → Text
extract_addr s = elim (last_index s (bytes "<")) [
  | none ↦ trim_space s
  | some lt ↦ elim (index (drop lt s) (bytes ">")) [
    | none ↦ trim_space s
    | some gt ↦ take (gt - 1) (drop (lt + 1) s)
  ]
]

-- the loop of allowlisted
unfoldable pub allow_entry : Text → Text → List Text → Bool
allow_entry addr domain [] = false
allow_entry addr domain (entry ∷ rest) =
    let e = to_lower (trim_space entry) in
    (not (is_nil e) && (if text_contains e (bytes "@") then text_eq e addr else text_eq e domain))
    || allow_entry addr domain rest

-- domain := addr; the part behind the last "@", if there is one
unfoldable pub domain_of : Text → Text
domain_of addr = elim (last_index addr (bytes "@")) [ none ↦ addr | some at ↦ drop (at + 1) addr ]

unfoldable pub allowlisted : Text → List Text → Bool
unfolding allow_entry domain_of
allowlisted from allow =
    let addr = to_lower (trim_space (extract_addr from)) in
    not (is_nil addr) && allow_entry addr (domain_of addr) allow

-- headers[key]
unfoldable pub header : Text → List (Text × Text) → Text
header key [] = []
header key ((k, v) ∷ rest) = if text_eq k key then v else header key rest

unfoldable pub auth_result_pass : List (Text × Text) → Text → Bool
auth_result_pass headers method =
    let ar = header (bytes "authentication-results") headers in
    not (is_nil ar) && text_contains (to_lower ar) (method ++ bytes "=pass")

unfoldable pub capability_allowed : Text → List Text → Bool
capability_allowed verb [] = false
capability_allowed verb (c ∷ caps) =
    text_eq (to_lower (trim_space c)) (to_lower verb)
    || text_eq (trim_space c) (bytes "*")
    || capability_allowed verb caps

-- one digit of hex.DecodeString
unfoldable pub hex_digit : ℕ → Option ℕ
hex_digit c =
    if leb b'0' c && leb c b'9'
    then some (c - 48)
    else if leb b'a' c && leb c b'f'
    then some (c - 87)
    else if leb b'A' c && leb c b'F'
    then some (c - 55)
    else none

unfoldable pub decode_hex : Text → Option Text
unfolding hex_digit
decode_hex [] = some []
decode_hex (c ∷ []) = none
decode_hex (c ∷ d ∷ s) = elim (hex_digit c) [
  | none ↦ none
  | some hi ↦ elim (hex_digit d) [
    | none ↦ none
    | some lo ↦ elim (decode_hex s) [ none ↦ none | some rest ↦ some ((16 * hi + lo) ∷ rest) ]
  ]
]

-- age > time.Duration(window) * time.Minute, as the int64 arithmetic of Evaluate computes it
unfoldable pub is_stale : ℕ → ℕ → ℕ → Bool
unfolding sub_time neg_int64 wrap_int64
is_stale window now ts =
    let age = sub_time now ts in
    let age' = if gtb_ℤ (pos 0) age then neg_int64 age else age in
    gtb_ℤ age' (wrap_int64 (window * 60_000_000_000))
