-- ===== src/Enrichment/Providers.antt =====
-- internal/enrichment/providers.go: the calls of a provider, over the answer of its HTTP request.
use imap_mcp.Prelude.{
  ℕ, ◌/◌, Bool, false, not, ◌||◌, List, ◌++◌, Text, bytes, is_nil, ◌==◌, leb, if◌then◌else◌,
}
use imap_mcp.Prelude.Bytes.{trim_space}
use imap_mcp.Query.{itoa}
use imap_mcp.Enrichment.{Answer, answered, refused, Error}

-- What http.Client.Do gives: an error, with whether the context is done, or a status and a body.
pub data Sent : Type 0 where
  failed : Text → Bool → Sent
  responded : ℕ → Text → Sent

-- (*ProviderError).Error
unfoldable pub error_text : Text → ℕ → Text → Text
unfolding itoa
error_text provider status message =
    if not (status == 0)
    then provider ++ (bytes ": HTTP " ++ (itoa status ++ (bytes ": " ++ message)))
    else provider ++ (bytes ": " ++ message)

abbrev pub provider_error : Text → ℕ → Bool → Text → Error
provider_error provider status transient message = record {
  text = error_text provider status message;
  transient = transient;
}

-- `decode` is json.Unmarshal into the answer, with the error's text where it fails.
unfoldable pub post_json {ℓ} : {A : Type ℓ} → (Text → Answer A) → Text → Sent → Answer A
unfolding error_text trim_space
post_json decode provider (failed message cancelled) =
    refused (provider_error provider 0 (not cancelled) message)
post_json decode provider (responded status body) =
    if not (status / 100 == 2)
    then refused
        (provider_error provider status (status == 429 || leb 500 status) (trim_space body))
    else elim (decode body) [
      | answered a ↦ answered a
      | refused e ↦
          refused (provider_error provider status false (bytes "decode response: " ++ e.text))
    ]

-- (*ollamaEmbedder).Embed
unfoldable pub ollama_embed : (Text → Answer (List ℕ)) → Text → Sent → Answer (List ℕ)
unfolding post_json error_text
ollama_embed decode name sent = elim (post_json decode name sent) [
  | refused e ↦ refused e
  | answered vec ↦
      if is_nil vec
      then refused (provider_error name 0 false (bytes "empty embedding"))
      else answered vec
]
