-- ===== src/Enrichment/Gates/Services.antt =====
-- The gates that ask a service.
use imap_mcp.Prelude.{
  ℕ, ◌^◌, ◌<◌, ◌≡◌, refl, Bool, true, false, ◌&&◌, List, [], ◌∷◌, Option, none, some, Text, ◌==◌,
  arith,
}
use imap_mcp.Enrichment.Gates.{
  Model, Reply, Capacity, is_ours, foreign_bytes, ollama_gate, datawatch_gate,
}

-- The models that are all ours hold no foreign bytes.
abbrev pub all_ours : List Text → List Model → Bool
all_ours ours [] = true
all_ours ours (m ∷ ms) = is_ours ours m.name && all_ours ours ms

foreign-none :
    (ours : List Text) (ms : List Model) → all_ours ours ms ≡ true → foreign_bytes ours ms ≡ 0
unfolding foreign_bytes
foreign-none ours [] h = refl
foreign-none ours (m ∷ ms) h = ground (arith, foreign-none ours ms)

-- A reply that is of use: status 200 and a body that decodes.
abbrev pub is_readable {ℓ} : {A : Type ℓ} → Option (Reply A) → Bool
is_readable none = false
is_readable (some reply) =
    reply.status_code == 200 && (elim reply.decoded [ none ↦ false | some a ↦ true ])

-- Ollama does not pause the backfill while all the models that it holds are ours, under any limit that is
-- not negative.
pub own_models-allowed :
    (ours : List Text) (most : ℕ) (ms : List Model)
    → all_ours ours ms ≡ true
    → most < 2 ^ 63
    → (ollama_gate ours most (some (record { status_code = 200; decoded = some ms }))).ok ≡ true
unfolding ollama_gate
own_models-allowed ours most ms all few = ground (arith, foreign-none ours ms all)

-- Neither gate pauses the backfill where it cannot reach its service, or cannot read the answer.
pub unread-allowed :
    (ours watched : List Text) (most : ℕ) (models : Option (Reply (List Model)))
    (capacity : Option (Reply Capacity))
    → is_readable models ≡ false
    → is_readable capacity ≡ false
    → ((ollama_gate ours most models).ok ≡ true) × ((datawatch_gate watched capacity).ok ≡ true)
unfolding ollama_gate datawatch_gate
unread-allowed ours watched most none none h k = (refl, refl)
unread-allowed ours watched most none (some c) h k = (refl, ground arith)
unread-allowed ours watched most (some m) none h k = (ground arith, refl)
unread-allowed ours watched most (some m) (some c) h k = (ground arith, ground arith)
