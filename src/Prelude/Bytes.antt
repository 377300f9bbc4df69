-- ===== src/Prelude/Bytes.antt =====
-- What the source uses of Go's package strings, over ASCII bytes.
use imap_mcp.Prelude.Tests.{leb, ◌==◌, if◌then◌else◌}
use imap_mcp.Prelude.Lists.{is_nil}
use imap_mcp.Prelude.Texts.{Text}
use Prim.Native.Nat.{ℕ, suc, ◌+◌}
use mathlib.Core.Bool.{Bool, true, false, ◌&&◌, ◌||◌}
use mathlib.Core.Option.{Option, none, some}
use mathlib.Core.Option
use mathlib.Core.List.{[], ◌∷◌, map}

unfoldable pub lower : ℕ → ℕ
lower c = if leb b'A' c && leb c b'Z' then c + 32 else c

-- strings.ToLower
unfoldable pub to_lower : Text → Text
unfolding lower
to_lower = map lower

abbrev pub is_space : ℕ → Bool
is_space c = c == 32 || (leb 9 c && leb c 13)

unfoldable pub trim_left : Text → Text
trim_left [] = []
trim_left (c ∷ s) = if is_space c then trim_left s else c ∷ s

unfoldable pub trim_right : Text → Text
trim_right [] = []
trim_right (c ∷ s) = let rest = trim_right s in if is_nil rest && is_space c then [] else c ∷ rest

-- strings.TrimSpace
unfoldable pub trim_space : Text → Text
unfolding trim_left trim_right
trim_space s = trim_right (trim_left s)

-- strings.HasPrefix
unfoldable pub has_prefix : Text → Text → Bool
has_prefix s [] = true
has_prefix [] (d ∷ p) = false
has_prefix (c ∷ s) (d ∷ p) = c == d && has_prefix s p

-- strings.Index, with `none` for -1
unfoldable pub index : Text → Text → Option ℕ
unfolding has_prefix
index [] p = if is_nil p then some 0 else none
index (c ∷ s) p =
    let later = Option.map suc (index s p) in if has_prefix (c ∷ s) p then some 0 else later

-- strings.LastIndex, with `none` for -1
unfoldable pub last_index : Text → Text → Option ℕ
unfolding has_prefix
last_index [] p = if is_nil p then some 0 else none
last_index (c ∷ s) p = elim (last_index s p) [
  | some i ↦ some (suc i)
  | none ↦ if has_prefix (c ∷ s) p then some 0 else none
]

-- strings.Contains
unfoldable pub text_contains : Text → Text → Bool
unfolding index
text_contains s p = elim (index s p) [ none ↦ false | some i ↦ true ]
