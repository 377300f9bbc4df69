-- ===== src/Verdict/Fence.antt =====
-- The fence around the body, which the text of the body does not close.
use imap_mcp.Prelude.{
  ℕ, suc, ◌≡◌, refl, ap, false, [], ◌∷◌, ◌++◌, some, Text, bytes, ◌==◌, arith, Bool-cases, inl, inr,
  length, drop,
}
use mathlib.Core.Option
use imap_mcp.Prelude.Bytes.{has_prefix, index}
use imap_mcp.Verdict.{
  angle, escape_from, escape_fence, marker, prompt, opening, preamble, intro, Input,
}

abbrev three : Text
three = angle ∷ angle ∷ angle ∷ []

-- A word without angle brackets and line ends
abbrev IsPlain : Text → Type 0
IsPlain [] = Unit
IsPlain (c ∷ s) = (c == angle ≡ false) × (10 == c ≡ false) × IsPlain s

-- A text with the line behind it
abbrev closed : Text → Text → Text
closed s t = s ++ 10 ∷ t

module _ (t : Text) where
  has_prefix-three : (s : Text) → has_prefix (closed (escape_from 0 s) t) three ≡ false
  unfolding has_prefix escape_from
  has_prefix-three [] = refl
  has_prefix-three (a ∷ []) = ground arith
  has_prefix-three (a ∷ b ∷ []) = ground arith
  has_prefix-three (a ∷ b ∷ c ∷ s) = ground arith

  -- With brackets held back the text begins with one.
  has_prefix-two :
      (q : ℕ) (word : Text)
      → q == angle ≡ false
      → (s : Text) → has_prefix (closed (escape_from 2 s) t) (q ∷ word) ≡ false
  unfolding has_prefix escape_from
  has_prefix-two q word plain [] = ground arith
  has_prefix-two q word plain (c ∷ s) = ground arith

  has_prefix-one :
      (q : ℕ) (word : Text)
      → q == angle ≡ false
      → (s : Text) → has_prefix (closed (escape_from 1 s) t) (q ∷ word) ≡ false
  unfolding has_prefix escape_from
  has_prefix-one q word plain [] = ground arith
  has_prefix-one q word plain (c ∷ s) = let two = has_prefix-two q word plain s in ground arith

  has_prefix-escape :
      (word s : Text)
      → IsPlain word
      → has_prefix (closed (escape_from 0 s) t) (word ++ three) ≡ false
  unfolding has_prefix escape_from
  has_prefix-escape [] s plain = has_prefix-three s
  has_prefix-escape (q ∷ word) [] plain = let line = plain.1 in ground arith
  has_prefix-escape (q ∷ word) (c ∷ s) plain =
      let one = has_prefix-one q (word ++ three) plain.0 s in
      let later = has_prefix-escape word s plain.2 in ground arith

abbrev ending : Text
ending = marker ++ bytes "\n"

-- The first end marker in a text with `n` brackets held back is the one behind it.
abbrev EndsAt : ℕ → Text → Type 0
EndsAt n s = index (closed (escape_from n s) ending) marker ≡ some (suc (length (escape_from n s)))

index_later :
    (c : ℕ) (s : Text) (n : ℕ)
    → has_prefix (c ∷ s) marker ≡ false
    → index s marker ≡ some n
    → index (c ∷ s) marker ≡ some (suc n)
unfolding index
index_later c s n differs found = rw (differs, found) refl

word-IsPlain : IsPlain (bytes "MAIL BODY")
word-IsPlain = (
  refl,
  refl,
  (
    refl,
    refl,
    (
      refl,
      refl,
      (refl, refl, (refl, refl, (refl, refl, (refl, refl, (refl, refl, (refl, refl, tt)))))),
    ),
  ),
)

-- A byte of the text itself begins no end marker.
no_marker : (c : ℕ) (s : Text) → has_prefix (c ∷ closed (escape_from 0 s) ending) marker ≡ false
unfolding has_prefix
no_marker c s =
    let later = has_prefix-escape ending (bytes "MAIL BODY") s word-IsPlain in ground arith

fenced : (s : Text) → EndsAt 0 s × EndsAt 1 s × EndsAt 2 s
unfolding escape_from index has_prefix
fenced [] = (refl, refl, refl)
fenced (c ∷ s) =
    let ih = fenced s in
    let next = index_later c (closed (escape_from 0 s) ending) _ (no_marker c s) ih.0 in
    elim (Bool-cases (c == angle)) [
      | inl bracket ↦ rw bracket (ih.1, ih.2, rw ih.0 refl)
      | inr other ↦
          rw other (
            next,
            ap (Option.map suc) next,
            ap (λ found. Option.map suc (Option.map suc found)) next,
          )
    ]

drop-append : (xs ys zs : Text) → drop (length (xs ++ ys)) (xs ++ (ys ++ zs)) ≡ zs
drop-append [] [] zs = refl
drop-append [] (y ∷ ys) zs = drop-append [] ys zs
drop-append (x ∷ xs) ys zs = drop-append xs ys zs

-- Whatever a message holds, the first end marker behind the opening of the fence is the one that
-- Prompt writes itself, on the line behind the body, so that the whole body stands inside.
pub prompt-fenced :
    (mail : Input)
    → index (drop (length (preamble intro mail ++ opening)) (prompt mail)) marker
      ≡ some (suc (length (escape_fence mail.body)))
unfolding prompt escape_fence
prompt-fenced mail =
    rw (drop-append (preamble intro mail) opening (closed (escape_from 0 mail.body) ending))
      (fenced mail.body).0
