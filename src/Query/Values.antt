-- ===== src/Query/Values.antt =====
-- internal/query/query.go: coerce, ParseTime and escapeLike, and the errors of Compile.
use imap_mcp.Prelude.{
  ℕ, zero, suc, ◌+◌, ◌-◌, ◌*◌, ◌/◌, ◌^◌, Bool, true, false, ◌&&◌, ◌||◌, [], ◌∷◌, Option, none, some,
  Text, bytes, is_nil, ◌==◌, leb, if◌then◌else◌,
}
use imap_mcp.Prelude.Int.{ℤ, pos, negsuc, wrap_int64}
use imap_mcp.Query.Views.{Kind, text_kind, int_kind, real_kind, bool_kind, time_kind, Field}

-- A float64: its bits, int64(n), and n == float64(int64(n)).
pub record Number : Type 0 where
  pub bits : ℕ
  pub truncated : ℤ
  pub is_whole : Bool

-- A JSON value other than a list; `composite` stands for an object or a list inside a list.
pub data Scalar : Type 0 where
  null : Scalar
  text : Text → Scalar
  number : Number → Scalar
  boolean : Bool → Scalar
  composite : Scalar

-- A bound parameter.
pub data Arg : Type 0 where
  text_arg : Text → Arg
  int_arg : ℤ → Arg
  real_arg : ℕ → Arg

pub data Failure : Type 0 where
  bad_view not_both too_many_filters bad_limit bad_offset : Failure
  unknown_field no_group_by duplicate_column bad_op bad_list bad_value needs_text needs_string
        only_eq :
      Text → Failure
  bad_fn bad_alias no_aggregate needs_numeric bad_order : Text → Failure

pub data Checked {ℓ} (A : Type ℓ) : Type ℓ where
  ok : A → Checked A
  err : Failure → Checked A

infixl 5 ◌>>=◌ ◌>>◌
abbrev pub ◌>>=◌ {ℓ κ} : {A : Type ℓ} {B : Type κ} → Checked A → (A → Checked B) → Checked B
ok a >>= f = f a
err e >>= f = err e

abbrev pub ◌>>◌ {ℓ} : {B : Type ℓ} → Checked (Unit {0}) → Checked B → Checked B
m >> k = m >>= λ _. k

abbrev pub guard : Bool → Failure → Checked (Unit {0})
guard true e = ok tt
guard false e = err e

-- escapeLike: the characters of LIKE stand for themselves behind a backslash
unfoldable pub escape_like : Text → Text
escape_like [] = []
escape_like (c ∷ s) =
    let rest = escape_like s in
    if c == b'\\' || (c == b'%' || c == b'_') then b'\\' ∷ c ∷ rest else c ∷ rest

abbrev pub is_digit : ℕ → Bool
is_digit c = leb b'0' c && leb c b'9'

-- unit, in nanoseconds
unfoldable pub unit_of : ℕ → Option ℕ
unit_of c =
    if c == b'd'
    then some (24 * 3600 * 10 ^ 9)
    else if c == b'h'
    then some (3600 * 10 ^ 9)
    else if c == b'm'
    then some (60 * 10 ^ 9)
    else none

-- the digits and the unit of a relative offset; `left` digits may follow, `n` is their value so far
unfoldable pub relative_tail : ℕ → Bool → ℕ → Text → Option (ℕ × ℕ)
unfolding unit_of
relative_tail left some_digit n [] = none
relative_tail zero some_digit n (c ∷ s) = elim (unit_of c) [
  | none ↦ none
  | some u ↦ if some_digit && is_nil s then some (n, u) else none
]
relative_tail (suc left) some_digit n (c ∷ s) =
    let more = relative_tail left true (n * 10 + (c - b'0')) s in
    let ends : Option (ℕ × ℕ) = elim (unit_of c) [
      | none ↦ none
      | some u ↦ if some_digit && is_nil s then some (n, u) else none
    ] in
    if is_digit c then more else ends

-- relRe.FindStringSubmatch, with the number and the unit
unfoldable pub relative : Text → Option (ℕ × ℕ)
unfolding relative_tail
relative [] = none
relative (c ∷ s) = let tail = relative_tail 5 false 0 s in if c == b'-' then tail else none

-- now.Add(-d).Unix(), for a time of nanoseconds since 1970
unfoldable pub unix_before : ℕ → ℤ → ℤ
unix_before now (pos d) =
    if leb d now then pos ((now - d) / 10 ^ 9) else negsuc ((d - now - 1) / 10 ^ 9)
unix_before now (negsuc d) = pos ((now + d + 1) / 10 ^ 9)

abbrev pub rfc3339 : Text
rfc3339 = bytes "2006-01-02T15:04:05Z07:00"

abbrev pub date_only : Text
date_only = bytes "2006-01-02"

module _ (parse_layout : Text → Text → Option ℤ) where
  -- ParseTime(s, now), then Unix()
  unfoldable pub parse_time : Text → ℕ → Option ℤ
  parse_time s now = elim (relative s) [
    | some nu ↦ some (unix_before now (wrap_int64 (nu.0 * nu.1)))
    | none ↦ elim (parse_layout rfc3339 s) [ some t ↦ some t | none ↦ parse_layout date_only s ]
  ]

  unfoldable pub coerce_kind : Kind → Scalar → ℕ → Option Arg
  coerce_kind text_kind (text s) now = some (text_arg s)
  coerce_kind int_kind (number n) now = if n.is_whole then some (int_arg n.truncated) else none
  coerce_kind real_kind (number n) now = some (real_arg n.bits)
  coerce_kind bool_kind (boolean b) now = some (int_arg (pos (if b then 1 else 0)))
  coerce_kind time_kind (number n) now = some (int_arg n.truncated)
  coerce_kind time_kind (text s) now = elim (parse_time s now) [
    | none ↦ none
    | some t ↦ some (int_arg t)
  ]
  coerce_kind _ _ now = none

  -- coerce
  unfoldable pub coerce : Field → Scalar → ℕ → Checked Arg
  coerce f x now = elim (coerce_kind f.kind x now) [ none ↦ err (bad_value f.name) | some a ↦ ok a ]
