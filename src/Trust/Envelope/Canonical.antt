-- ===== src/Trust/Envelope/Canonical.antt =====
-- The lines of a parsed envelope and its canonical form.
use imap_mcp.Prelude.{
  ℕ, ◌≡◌, ◌≢◌, refl, sym, ap, ◌∙◌, List, [], ◌∷◌, ◌++◌, Option, some, Text, bytes, drop, is_nil,
  ◌==◌, arith, All, Bool-cases, Option-cases, inl, inr,
}
use imap_mcp.Prelude.Bytes.{to_lower, trim_space, trim_left, trim_right}
use imap_mcp.Trust.Envelope.{
  Command, Parsed, ok, err, Fields, field, split_lines, cut_colon, read_lines, block_of,
  canonical_envelope, command_of, parse_command,
}

-- The text has no newline.
abbrev pub OneLine : Text → Type 0
OneLine [] = Unit
OneLine (c ∷ s) = (c ≢ 10) × OneLine s

-- A line and what follows it are determined by the text up to its first newline.
split_unique :
    (s t u v : Text) → OneLine s → OneLine t → s ++ 10 ∷ u ≡ t ++ 10 ∷ v → (s ≡ t) × (u ≡ v)
split_unique [] [] u v hs ht e = (refl, cc)
split_unique [] (d ∷ t) u v hs ht e = absurd (ht.0 (cc))
split_unique (c ∷ s) [] u v hs ht e = absurd (hs.0 (cc))
split_unique (c ∷ s) (d ∷ t) u v hs ht e =
    let (same, rest) = split_unique s t u v hs.1 ht.1 (cc) in (cc, rest)

-- The same, at the end of the text.
append_cancel : (s t : Text) → s ++ 10 ∷ [] ≡ t ++ 10 ∷ [] → s ≡ t
append_cancel [] [] e = refl
append_cancel [] (d ∷ []) e = cc
append_cancel [] (d ∷ x ∷ t) e = cc
append_cancel (c ∷ []) [] e = cc
append_cancel (c ∷ x ∷ s) [] e = cc
append_cancel (c ∷ s) (d ∷ t) e = cc (append_cancel s t (cc))

split_lines-OneLine : (s : Text) → All OneLine (split_lines s)
unfolding split_lines
split_lines-OneLine [] = (tt, tt)
split_lines-OneLine (c ∷ s) = elim (Bool-cases (c == 10)) [
  | inl here ↦ rw here (tt, split_lines-OneLine s)
  | inr other ↦ rw other (add c (λ e. ground arith) (split_lines s) (split_lines-OneLine s))
]
  where
    add :
        (c : ℕ)
        → c ≢ 10
        → (ls : List Text) → All OneLine ls
        → All OneLine (elim ls [ [] ↦ (c ∷ []) ∷ [] | line ∷ lines ↦ (c ∷ line) ∷ lines ])
    add c ne [] h = ((ne, tt), tt)
    add c ne (l ∷ ls) h = ((ne, h.0), h.1)

trim_left-OneLine : (s : Text) → OneLine s → OneLine (trim_left s)
unfolding trim_left
trim_left-OneLine [] h = tt
trim_left-OneLine (c ∷ s) h = ground (arith, trim_left-OneLine s h.1)

trim_right-OneLine : (s : Text) → OneLine s → OneLine (trim_right s)
unfolding trim_right
trim_right-OneLine [] h = tt
trim_right-OneLine (c ∷ s) h = ground (arith, trim_right-OneLine s h.1)

trim_space-OneLine : (s : Text) → OneLine s → OneLine (trim_space s)
unfolding trim_space
trim_space-OneLine s h = trim_right-OneLine (trim_left s) (trim_left-OneLine s h)

cut_colon-OneLine : (s k v : Text) → cut_colon s ≡ some (k, v) → OneLine s → OneLine v
unfolding cut_colon
cut_colon-OneLine [] k v e h = cc
cut_colon-OneLine (c ∷ s) k v e h = elim (Bool-cases (c == 58)) [
  | inl here ↦ let e' : s ≡ v = ground arith in rw (← e') h.1
  | inr other ↦ elim (Option-cases (cut_colon s)) [
    | inl missing ↦ absurd (ground arith)
    | inr (kv, found) ↦
        let e' : kv.1 ≡ v = ground arith in rw (← e') (cut_colon-OneLine s kv.0 kv.1 found h.1)
  ]
]

read_lines-OneLine :
    (ls : List Text) (fields out : Fields)
    → read_lines ls fields ≡ ok out
    → All OneLine ls
    → All (λ kv. OneLine kv.1) fields
    → All (λ kv. OneLine kv.1) out
unfolding read_lines
read_lines-OneLine [] fields out e h k = let e' : fields ≡ out = cc in rw (← e') k
read_lines-OneLine (l ∷ ls) fields out e h k = elim (Bool-cases (is_nil (trim_space l))) [
  | inl blank ↦ read_lines-OneLine ls fields out (ground arith) h.1 k
  | inr full ↦ elim (Option-cases (cut_colon (trim_space l))) [
    | inl missing ↦ absurd (ground arith)
    | inr (kv, found) ↦
        read_lines-OneLine ls ((to_lower (trim_space kv.0), trim_space kv.1) ∷ fields) out
          (ground arith) h.1
          (
            trim_space-OneLine kv.1
                (cut_colon-OneLine (trim_space l) kv.0 kv.1 found (trim_space-OneLine l h.0)),
            k,
          )
  ]
]

field-OneLine :
    (key : Text) (fields : Fields) → All (λ kv. OneLine kv.1) fields → OneLine (field key fields)
unfolding field
field-OneLine key [] h = tt
field-OneLine key ((k, v) ∷ rest) h = ground (arith, field-OneLine key rest h.1)

module _ (format_time : ℕ → Text) where
  pub canonical_unique :
      (verb verb' args args' nonce nonce' : Text) (ts ts' : ℕ)
      → OneLine verb
      → OneLine verb'
      → OneLine args
      → OneLine args'
      → OneLine nonce
      → OneLine nonce'
      → canonical_envelope format_time verb args nonce ts
        ≡ canonical_envelope format_time verb' args' nonce' ts'
      → (verb ≡ verb') × (args ≡ args') × (nonce ≡ nonce') × (format_time ts ≡ format_time ts')
  unfolding canonical_envelope
  canonical_unique verb verb' args args' nonce nonce' ts ts' hv hv' ha ha' hn hn' e =
      let (same_verb, e1) = split_unique verb verb' _ _ hv hv' (ap (drop 5) e) in
      let (same_args, e2) = split_unique args args' _ _ ha ha' (ap (drop 5) e1) in
      let (same_nonce, e3) = split_unique nonce nonce' _ _ hn hn' (ap (drop 6) e2) in
      (
        same_verb,
        same_args,
        same_nonce,
        append_cancel (format_time ts) (format_time ts') (ap (drop 3) e3),
      )

module _ (parse_time : Text → Option ℕ) (format_time : ℕ → Text) where
  record IsCanonical (c : Command) : Type 0 where
    verb_line : OneLine c.verb
    args_line : OneLine c.args
    nonce_line : OneLine c.nonce
    raw_eq : c.raw ≡ canonical_envelope format_time c.verb c.args c.nonce c.ts

  command_of-IsCanonical :
      (fields : Fields) (c : Command)
      → All (λ kv. OneLine kv.1) fields
      → command_of parse_time format_time fields ≡ ok c
      → IsCanonical c
  unfolding command_of
  command_of-IsCanonical fields c h e = record {
    verb_line =
        let e' : field (bytes "verb") fields ≡ c.verb = ground arith in
        rw (← e') (field-OneLine (bytes "verb") fields h);
    args_line =
        let e' : field (bytes "args") fields ≡ c.args = ground arith in
        rw (← e') (field-OneLine (bytes "args") fields h);
    nonce_line =
        let e' : field (bytes "nonce") fields ≡ c.nonce = ground arith in
        rw (← e') (field-OneLine (bytes "nonce") fields h);
    raw_eq = ground arith;
  }

  parse_command-IsCanonical :
      (body : Text) (c : Command) → parse_command parse_time format_time body ≡ ok c → IsCanonical c
  unfolding parse_command
  parse_command-IsCanonical body c e = from_block (block_of body) refl
    where
      from_fields :
          (block : Text) (p : Parsed Fields)
          → read_lines (split_lines block) [] ≡ p
          → elim p [ err e ↦ err e | ok fields ↦ command_of parse_time format_time fields ] ≡ ok c
          → IsCanonical c
      from_fields block (err x) q h = cc
      from_fields block (ok fields) q h =
          command_of-IsCanonical fields c
            (read_lines-OneLine (split_lines block) [] fields q (split_lines-OneLine block) tt) h

      from_block : (b : Parsed Text) → block_of body ≡ b → IsCanonical c
      from_block (err x) q = absurd (ground arith)
      from_block (ok block) q =
          from_fields block (read_lines (split_lines block) []) refl (ground arith)

  -- Two parsed envelopes that are signed over the same bytes have the same verb, arguments and nonce,
  -- and times that are written alike: no text can move from one field to the next.
  pub same_raw_same_command :
      (body body' : Text) (c d : Command)
      → parse_command parse_time format_time body ≡ ok c
      → parse_command parse_time format_time body' ≡ ok d
      → c.raw ≡ d.raw
      → (c.verb ≡ d.verb)
        × (c.args ≡ d.args)
        × (c.nonce ≡ d.nonce)
        × (format_time c.ts ≡ format_time d.ts)
  same_raw_same_command body body' c d p q e =
      let hc = parse_command-IsCanonical body c p in
      let hd = parse_command-IsCanonical body' d q in
      canonical_unique format_time c.verb d.verb c.args d.args c.nonce d.nonce c.ts d.ts
        hc.verb_line hd.verb_line hc.args_line hd.args_line hc.nonce_line hd.nonce_line
        (sym hc.raw_eq ∙ e ∙ hd.raw_eq)
