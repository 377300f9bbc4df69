-- ===== src/Verdict/Answers.antt =====
-- What an accepted answer holds.
use imap_mcp.Prelude.{
  ℕ, suc, ◌+◌, ◌-◌, ◌≤◌, ◌≡◌, refl, Bool, true, false, not, ◌&&◌, List, [], ◌∷◌, zero, Text, is_nil,
  contains, length, take, All, ltb, if◌then◌else◌, arith, Bool-cases, Option-cases, inl, inr,
}
use mathlib.Core.Path.{subst}
use imap_mcp.Prelude.Bytes.{to_lower, trim_space}
use imap_mcp.Mail.{Tried, done, failed}
use imap_mcp.Mail.Imap.{Tried-cases}
use imap_mcp.Verdict.{
  Result, verdicts, asks, clamp, default_asks, check, parse, short_reasons, one_line, json_object,
  after_thinking,
}

-- A reason says something, in 160 bytes at most.
abbrev pub IsShort : Text → Type 0
IsShort x = (is_nil x ≡ false) × (length x ≤ 160)

module _ (F : Type 0) (less : F → F → Bool) (nought one : F) where
  pub record IsSound (r : Result F) : Type 0 where
    pub verdict : contains verdicts r.verdict ≡ true
    pub asked : contains asks r.asks ≡ true
    pub above : less r.confidence nought ≡ false
    pub below : less one r.confidence ≡ false
    pub few : length r.reasons ≤ 3
    pub short : All IsShort r.reasons

length-take-le : (n : ℕ) (s : Text) → length (take n s) ≤ n
length-take-le zero s = ground arith
length-take-le (suc n) [] = ground arith
length-take-le (suc n) (c ∷ s) = let ih = length-take-le n s in omega arith

is_nil-take : (s : Text) → is_nil s ≡ false → is_nil (take 160 s) ≡ false
is_nil-take [] filled = filled
is_nil-take (c ∷ s) filled = refl

-- What the loop adds
abbrev cut : Text → Text
cut line = if ltb 160 (length line) then take 160 line else line

cut-IsShort : (line : Text) → is_nil line ≡ false → IsShort (cut line)
cut-IsShort line filled = elim (Bool-cases (ltb 160 (length line))) [
  | inl long ↦ rw long (is_nil-take line filled, length-take-le 160 line)
  | inr fits ↦ rw fits (filled, ground arith)
]

kept : (a b : Bool) → not a && b ≡ true → a ≡ false
kept a b both = ground arith

short_reasons-IsShort : (n : ℕ) (xs : List Text) → All IsShort (short_reasons n xs)
unfolding short_reasons
short_reasons-IsShort n [] = tt
short_reasons-IsShort n (x ∷ xs) = elim (Bool-cases (not (is_nil (one_line x)) && ltb n 3)) [
  | inl keep ↦ rw keep (
    cut-IsShort (one_line x) (kept (is_nil (one_line x)) (ltb n 3) keep),
    short_reasons-IsShort (n + 1) xs,
  )
  | inr skip ↦ rw skip (short_reasons-IsShort n xs)
]

short_reasons-few : (n : ℕ) (xs : List Text) → length (short_reasons n xs) ≤ 3 - n
unfolding short_reasons
short_reasons-few n [] = ground arith
short_reasons-few n (x ∷ xs) =
    let more = short_reasons-few (n + 1) xs in let same = short_reasons-few n xs in ground arith

module _ (F : Type 0) (less : F → F → Bool) (nought one : F)
    (asymmetric : (a b : F) → less a b ≡ true → less b a ≡ false)
    (ordered : less one nought ≡ false) where
  irreflexive : (c : F) → less c c ≡ false
  irreflexive c = elim (Bool-cases (less c c)) [
    | inl under ↦ asymmetric c c under
    | inr over ↦ over
  ]

  clamp-above : (c : F) → less (clamp F less nought one c) nought ≡ false
  clamp-above c =
      let low : F = if less c one then c else one in
      elim (Bool-cases (less nought low)) [
        | inl under ↦ rw under (asymmetric nought low under)
        | inr over ↦ rw over (irreflexive nought)
      ]

  min-below : (c : F) → less one (if less c one then c else one) ≡ false
  min-below c = elim (Bool-cases (less c one)) [
    | inl under ↦ rw under (asymmetric c one under)
    | inr over ↦ rw over (irreflexive one)
  ]

  clamp-below : (c : F) → less one (clamp F less nought one c) ≡ false
  clamp-below c =
      let low : F = if less c one then c else one in
      elim (Bool-cases (less nought low)) [
        | inl under ↦ rw under (min-below c)
        | inr over ↦ rw over ordered
      ]

  -- What is accepted is sound.
  abbrev SoundIfDone : Tried (Result F) → Type 0
  SoundIfDone (failed e) = Unit
  SoundIfDone (done r) = IsSound F less nought one r

  check-SoundIfDone : (r : Result F) → SoundIfDone (check F less nought one r)
  unfolding check
  check-SoundIfDone r = elim (Bool-cases (contains verdicts (to_lower (trim_space r.verdict)))) [
    | inr unknown ↦ rw unknown tt
    | inl known ↦ elim (Bool-cases (contains asks (default_asks (to_lower (trim_space r.asks))))) [
      | inr strange ↦ rw (known, strange) tt
      | inl asked ↦
          rw (known, asked)
            record {
              verdict = known;
              asked = asked;
              above = clamp-above r.confidence;
              below = clamp-below r.confidence;
              few = short_reasons-few 0 r.reasons;
              short = short_reasons-IsShort 0 r.reasons;
            }
    ]
  ]

  parse-SoundIfDone :
      (decode : Text → Tried (Result F)) (raw : Text)
      → SoundIfDone (parse F less nought one decode raw)
  unfolding parse
  parse-SoundIfDone decode raw = elim (Option-cases (json_object (after_thinking raw))) [
    | inl missing ↦ rw (missing, SoundIfDone) tt
    | inr (m, found) ↦ elim (Tried-cases (decode m)) [
      | inl (r, decoded) ↦ rw (found, SoundIfDone, decoded) (check-SoundIfDone r)
      | inr (e, bad) ↦ rw (found, SoundIfDone, bad) tt
    ]
  ]

  -- Whatever the model writes and the decoder reads from it, an answer that Parse accepts names a known verdict
  -- and a known request, has a confidence from 0 to 1, and at most three reasons of 1 to 160
  -- bytes each. The order of confidences is asymmetric and 1 is not below 0.
  pub parse-IsSound :
      (decode : Text → Tried (Result F)) (raw : Text) (r : Result F)
      → parse F less nought one decode raw ≡ done r
      → IsSound F less nought one r
  parse-IsSound decode raw r accepted = subst SoundIfDone accepted (parse-SoundIfDone decode raw)
