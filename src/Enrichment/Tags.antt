-- ===== src/Enrichment/Tags.antt =====
-- internal/enrichment/pipeline.go, from classificationPrompt to CleanTag: the question that the model is
-- asked, and the tags that its answer is allowed to set.
pub mod Clean
use imap_mcp.Prelude.{
  ℕ, suc, ◌+◌, ◌-◌, Bool, true, false, not, ◌&&◌, ◌||◌, List, [], ◌∷◌, ◌++◌, Option, none, some,
  Text, bytes, contains, is_nil, length, take, drop, ◌==◌, ltb, leb, if◌then◌else◌,
}
use imap_mcp.Prelude.Bytes.{to_lower, trim_space, index, last_index, text_contains}

pub record Classification : Type 0 where
  pub hall : Text
  pub wing : Text
  pub room : Text

pub record EnrichResult : Type 0 where
  pub hall : Text
  pub wing : Text
  pub room : Text
  pub embedding : List ℕ

unfoldable pub classification_prompt : Text → Text → Text → Text → Text
classification_prompt subject body from_addr from_name =
    bytes "Classify this email. Respond ONLY with valid JSON, no other text.\n\nEmail:\nFrom: "
    ++ (from_name
        ++ (bytes " <"
            ++ (from_addr
                ++ (bytes ">\nSubject: "
                    ++ (subject
                        ++ (bytes "\nBody (snippet): "
                            ++ (take 300 body
                                ++ bytes
                                    "\n\nRespond with JSON with three string fields:\n- hall: one of transactional, conversation, newsletter, notification, alert, personal\n- wing: the project or context this email belongs to, or \"\" if unclear\n- room: its topic in a few words, or \"\" if unclear\nExample: {\"hall\":\"notification\",\"wing\":\"\",\"room\":\"password reset\"}")))))))

unfoldable pub halls : List Text
halls =
    bytes "transactional"
    ∷ bytes "conversation"
    ∷ bytes "newsletter"
    ∷ bytes "notification"
    ∷ bytes "alert"
    ∷ bytes "personal"
    ∷ []

unfoldable pub clean_hall : Text → Text
unfolding halls to_lower trim_space contains
clean_hall h =
    let cleaned = to_lower (trim_space h) in if contains halls cleaned then cleaned else []

unfoldable pub placeholder_tags : List Text
placeholder_tags =
    bytes "project or context"
    ∷ bytes "project"
    ∷ bytes "context"
    ∷ bytes "topic"
    ∷ bytes "unclear"
    ∷ bytes "none"
    ∷ bytes "n/a"
    ∷ bytes "unknown"
    ∷ bytes "empty string"
    ∷ []

-- strings.ContainsAny(t, "<>")
unfoldable pub has_angle : Text → Bool
has_angle [] = false
has_angle (c ∷ s) = (c == b'<' || c == b'>') || has_angle s

abbrev pub is_template : Text → Bool
is_template t =
    (has_angle t || text_contains (to_lower t) (bytes "if unclear"))
    || contains placeholder_tags (to_lower t)

unfoldable pub clean_tag : Text → Text
unfolding placeholder_tags has_angle to_lower trim_space text_contains contains
clean_tag tag = let t = trim_space tag in if is_template t then [] else t

-- The JSON object in the answer, from its first { to its last }, where it decodes.
unfoldable pub extracted : (Text → Option Classification) → Text → Option Classification
unfolding index last_index
extracted decode raw = elim (index raw (bytes "{")) [
  | none ↦ none
  | some start ↦ elim (last_index raw (bytes "}")) [
    | none ↦ none
    | some end ↦ if leb end start then none else decode (take (end + 1 - start) (drop start raw))
  ]
]

-- The result with the tags of the answer, or as it was.
unfoldable pub parse_classification :
    (Text → Option Classification) → Text → EnrichResult → EnrichResult
unfolding clean_hall clean_tag extracted
parse_classification decode raw result = elim (extracted decode raw) [
  | none ↦ result
  | some c ↦ record result {
    hall = clean_hall c.hall;
    wing = clean_tag c.wing;
    room = clean_tag c.room;
  }
]
