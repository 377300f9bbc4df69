-- ===== src/Inbound/Headers.antt =====
-- Which Authentication-Results header the DKIM and DMARC gates read.
use imap_mcp.Prelude.{
  ℕ, ◌≡◌, refl, ap, List, [], ◌∷◌, ◌++◌, Text, bytes, ◌==◌, text_eq, ◌&&◌, arith, Bool-cases, inl,
  inr,
}
use imap_mcp.Prelude.Bytes.{to_lower, trim_space}
use imap_mcp.Trust.{header}
use imap_mcp.Trust.Envelope.{split_lines, cut_colon}
use imap_mcp.Trust.Envelope.Canonical.{OneLine}
use imap_mcp.Inbound.{
  replace_crlf, Folding, flush, starts_with_byte, fold_line, fold_lines, parse_header_block,
}

replace_crlf-OneLine : (s : Text) → OneLine s → replace_crlf s ≡ s
unfolding replace_crlf
replace_crlf-OneLine [] h = refl
replace_crlf-OneLine (c ∷ []) h = ground arith
replace_crlf-OneLine (c ∷ d ∷ s) h = ground (arith, replace_crlf-OneLine (d ∷ s) h.1)

split_lines-one : (s : Text) → OneLine s → split_lines s ≡ s ∷ []
unfolding split_lines
split_lines-one [] h = refl
split_lines-one (c ∷ s) h = ground (arith, split_lines-one s h.1)

cons_line :
    (c : ℕ) (rest l s : Text) (ls : List Text)
    → split_lines rest ≡ (l ∷ ls) ++ s ∷ []
    → (l' : Text) × (ls' : List Text) × (split_lines (c ∷ rest) ≡ (l' ∷ ls') ++ s ∷ [])
unfolding split_lines
cons_line c rest l s ls e = elim (Bool-cases (c == 10)) [
  | inl here ↦ ([], l ∷ ls, rw here (ap (λ r. [] ∷ r) e))
  | inr other ↦ (c ∷ l, ls, rw (other, e))
]

-- A line behind a newline is the last line, whatever stands before.
last_line :
    (raw s : Text)
    → OneLine s
    → (l : Text) × (ls : List Text) × (split_lines (replace_crlf (raw ++ 10 ∷ s))
        ≡ (l ∷ ls) ++ s ∷ [])
unfolding split_lines replace_crlf
last_line [] s h = ([], [], rw (replace_crlf-OneLine s h, split_lines-one s h))
last_line (c ∷ raw) s h =
    let (l, ls, e) = last_line raw s h in
    elim (Bool-cases (c == 13 && starts_with_byte 10 (raw ++ 10 ∷ s))) [
      | inl dropped ↦ (l, ls, rw dropped e)
      | inr kept ↦
          let (l', ls', e') = cons_line c (replace_crlf (raw ++ 10 ∷ s)) l s ls e in
          (l', ls', rw kept e')
    ]

OneLine-append : (s t : Text) → OneLine s → OneLine t → OneLine (s ++ t)
OneLine-append [] t hs ht = ht
OneLine-append (c ∷ s) t hs ht = (hs.0, OneLine-append s t hs.1 ht)

fold_lines-concat :
    (st : Folding) (ls : List Text) (l : Text)
    → fold_lines st (ls ++ l ∷ []) ≡ fold_line (fold_lines st ls) l
unfolding fold_lines
fold_lines-concat st [] l = refl
fold_lines-concat st (x ∷ ls) l = fold_lines-concat (fold_line st x) ls l

abbrev pub auth_results : Text
auth_results = bytes "Authentication-Results:"

final_line :
    (st : Folding) (value : Text)
    → header (bytes "authentication-results") (flush (fold_line st (auth_results ++ value)))
      ≡ trim_space (trim_space value)
unfolding fold_line flush cut_colon header to_lower text_eq trim_space
final_line st value = refl

-- The gates read the last Authentication-Results header of the block: whatever headers stand before
-- it, a line at the end of the block sets the value.
pub last_header_wins :
    (raw value : Text)
    → OneLine value
    → header
        (bytes "authentication-results")
        (parse_header_block (raw ++ 10 ∷ (auth_results ++ value)))
      ≡ trim_space (trim_space value)
unfolding parse_header_block
last_header_wins raw value h =
    let line = auth_results ++ value in
    let (l, ls, e) = last_line raw line (OneLine-append auth_results value (omega arith) h) in
    let st : Folding = record { key = []; val = []; out = [] } in
    rw (e, fold_lines-concat st (l ∷ ls) line) (final_line (fold_lines st (l ∷ ls)) value)
