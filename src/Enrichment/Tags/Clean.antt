-- ===== src/Enrichment/Tags/Clean.antt =====
-- The tags that an answer can set.
use imap_mcp.Prelude.{
  ◌≡◌, ◌⊎◌, refl, true, false, [], Option, Text, contains, Bool-cases, Option-cases, inl, inr,
}
use imap_mcp.Prelude.Bytes.{to_lower, trim_space}
use imap_mcp.Enrichment.Tags.{
  Classification, EnrichResult, halls, clean_hall, is_template, clean_tag, extracted,
  parse_classification,
}

clean_hall-known : (h : Text) → (clean_hall h ≡ []) ⊎ (contains halls (clean_hall h) ≡ true)
unfolding clean_hall
clean_hall-known h = elim (Bool-cases (contains halls (to_lower (trim_space h)))) [
  | inl e ↦ rw e (inr e)
  | inr e ↦ rw e (inl refl)
]

clean_tag-plain : (t : Text) → (clean_tag t ≡ []) ⊎ (is_template (clean_tag t) ≡ false)
unfolding clean_tag
clean_tag-plain t = elim (Bool-cases (is_template (trim_space t))) [
  | inl e ↦ rw e (inl refl)
  | inr e ↦ rw e (inr e)
]

-- The tags of a result that may be stored: a hall that the prompt offers, and no copied template.
pub record IsClean (r : EnrichResult) : Type 0 where
  pub hall : (r.hall ≡ []) ⊎ (contains halls r.hall ≡ true)
  pub wing : (r.wing ≡ []) ⊎ (is_template r.wing ≡ false)
  pub room : (r.room ≡ []) ⊎ (is_template r.room ≡ false)

-- Whatever the model answers, and whatever the decoder makes of it, the hall of the result is empty or one
-- of those that the prompt offers, and its wing and its room are empty or free of angle brackets, of
-- the words "if unclear", and of the placeholders.
pub parse_classification-IsClean :
    (decode : Text → Option Classification) (raw : Text) (r : EnrichResult)
    → IsClean r
    → IsClean (parse_classification decode raw r)
unfolding parse_classification
parse_classification-IsClean decode raw r h = elim (Option-cases (extracted decode raw)) [
  | inl e ↦ rw (e, parse_classification) h
  | inr (c, e) ↦
      rw (e, parse_classification)
        (record {
          hall = clean_hall-known c.hall;
          wing = clean_tag-plain c.wing;
          room = clean_tag-plain c.room;
        })
]
