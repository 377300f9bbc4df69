-- ===== src/Enrichment.antt =====
-- internal/enrichment/pipeline.go: the enrichment queue, its lanes, its retries and its backoff. A row
-- here is a row of enrichment_queue joined with its message: message_id is unique there and a foreign
-- key. SQLite's statements are taken to succeed. The providers, the clock, the JSON decoder and the rate
-- limiter are functions of a call number, so that every call can answer differently; times are
-- nanoseconds, 0 the zero time. Integers of the configuration below 1 act as 1 or as 0, and are natural.
pub mod Blob
pub mod Gates
pub mod Tags
pub mod Batch
pub mod Invariant
pub mod Handled
pub mod Groups
pub mod Lanes
pub mod Selected
pub mod Keys
pub mod Settled
pub mod Potential
pub mod Progress
pub mod Liveness
pub mod Order
pub mod Backoff
pub mod Providers
pub mod Stats
mod Tests
use imap_mcp.Prelude.{
  ℕ, zero, suc, ◌+◌, ◌-◌, ◌*◌, ◌/◌, ◌^◌, min, max, Bool, true, false, not, ◌&&◌, ◌||◌, List, [],
  ◌∷◌, ◌++◌, Option, none, some, Text, bytes, is_nil, length, take, ◌==◌, ltb, leb, if◌then◌else◌,
}
use imap_mcp.Enrichment.Blob.{float32s_to_blob}
use imap_mcp.Enrichment.Gates.{Reason, Gate, ask_all}
use imap_mcp.Enrichment.Tags.{
  EnrichResult, Classification, classification_prompt, parse_classification,
}

pub data Status : Type 0 where
  pending processing done error : Status

abbrev pub lane_new : ℕ
lane_new = 0

abbrev pub lane_backfill : ℕ
lane_backfill = 1

pub record Row : Type 0 where
  pub queue_id : ℕ
  pub message_id : ℕ
  pub lane : ℕ
  pub status : Status
  pub attempts : ℕ
  pub queued_at : ℕ
  pub processed_at : ℕ
  pub last_error : Text
  pub subject : Text
  pub body : Text
  pub from_addr : Text
  pub from_name : Text
  pub enrichment_status : Status
  pub enriched_at : ℕ
  pub enrichment_error : Text
  pub hall : Text
  pub wing : Text
  pub room : Text
  pub vector : List ℕ

pub record Error : Type 0 where
  pub text : Text
  pub transient : Bool

pub data Answer {ℓ} (A : Type ℓ) : Type ℓ where
  answered : A → Answer A
  refused : Error → Answer A

pub record Config : Type 0 where
  pub batch_size : ℕ
  pub max_attempts : ℕ
  pub backoff_max_seconds : ℕ

pub record World : Type 0 where
  pub cfg : Config
  pub clock : ℕ → ℕ
  pub embed : ℕ → Text → Answer (List ℕ)
  pub classify : ℕ → Text → Answer Text
  pub decode : Text → Option Classification
  pub take_backfill : ℕ → ℕ → ℕ → ℕ

pub data Event : Type 0 where
  enrichment_done : ℕ → EnrichResult → Event
  enrichment_error : ℕ → Text → Event

pub record Pipeline : Type 0 where
  pub rows : List Row
  pub gates : List Gate
  pub failures : ℕ
  pub backoff_until : ℕ
  pub paused : Option (Text × Reason)
  pub last_err : Text
  pub calls : ℕ
  pub published : List Event

abbrev pub is_pending : Status → Bool
is_pending s = elim s [ pending ↦ true | _ ↦ false ]

abbrev pub is_processing : Status → Bool
is_processing s = elim s [ processing ↦ true | _ ↦ false ]

-- UPDATE … WHERE …
unfoldable pub update_where : (Row → Bool) → (Row → Row) → List Row → List Row
update_where p f [] = []
update_where p f (r ∷ rows) = (if p r then f r else r) ∷ update_where p f rows

-- WHERE status='pending' AND lane=?
abbrev pub is_waiting : ℕ → Row → Bool
is_waiting lane r = is_pending r.status && r.lane == lane

unfoldable pub waiting : ℕ → List Row → List Row
waiting lane [] = []
waiting lane (r ∷ rows) =
    let rest = waiting lane rows in if is_waiting lane r then r ∷ rest else rest

-- ORDER BY queued_at ASC, id ASC
abbrev pub is_before : Row → Row → Bool
is_before r q =
    ltb r.queued_at q.queued_at || (r.queued_at == q.queued_at && leb r.queue_id q.queue_id)

unfoldable pub insert_queued : Row → List Row → List Row
insert_queued r [] = r ∷ []
insert_queued r (q ∷ rows) =
    let rest = insert_queued r rows in if is_before r q then r ∷ q ∷ rows else q ∷ rest

unfoldable pub sort_queued : List Row → List Row
unfolding insert_queued
sort_queued [] = []
sort_queued (r ∷ rows) = insert_queued r (sort_queued rows)

-- The items are the rows as they were read.
unfoldable pub select_lane : ℕ → ℕ → List Row → List Row
unfolding waiting sort_queued
select_lane lane limit rows = take limit (sort_queued (waiting lane rows))

unfoldable pub embed_text : Row → Text
embed_text it = if is_nil it.body then it.subject else it.subject ++ 10 ∷ take 500 it.body

-- "embed: " and "classify: " before the error of the provider
abbrev pub wrapped : Text → Error → Error
wrapped prefix e = record e { text = prefix ++ e.text }

unfoldable pub enrich : World → ℕ → Row → Answer EnrichResult
unfolding embed_text classification_prompt parse_classification
enrich w n it = elim (w.embed n (embed_text it)) [
  | refused e ↦ refused (wrapped (bytes "embed: ") e)
  | answered vec ↦
      let result : EnrichResult = record { embedding = vec; hall = []; wing = []; room = [] } in
      elim (w.classify n (classification_prompt it.subject it.body it.from_addr it.from_name)) [
        | refused e ↦
            if e.transient then refused (wrapped (bytes "classify: ") e) else answered result
        | answered raw ↦ answered (parse_classification w.decode raw result)
      ]
]

-- COALESCE(NULLIF(new, ''), old)
abbrev pub coalesce : Text → Text → Text
coalesce new old = if is_nil new then old else new

-- WHERE id=?, on enrichment_queue and on messages
abbrev pub of_queue : Row → Row → Bool
of_queue it r = r.queue_id == it.queue_id

abbrev pub of_message : Row → Row → Bool
of_message it r = r.message_id == it.message_id

abbrev pub with_vector : List ℕ → Row → Row
with_vector vec r = record r { vector = float32s_to_blob vec }

abbrev pub with_tags : EnrichResult → Row → Row
with_tags result r = record r {
  hall = coalesce result.hall r.hall;
  wing = coalesce result.wing r.wing;
  room = coalesce result.room r.room;
}

abbrev pub queue_failed : Status → Text → Row → Row
queue_failed s text r = record r { status = s; last_error = text }

abbrev pub message_failed : Text → Row → Row
message_failed text r = record r { enrichment_status = error; enrichment_error = text }

abbrev pub queue_done : ℕ → Row → Row
queue_done now r = record r { status = done; processed_at = now; last_error = [] }

abbrev pub message_done : ℕ → Row → Row
message_done now r = record r { enrichment_status = done; enriched_at = now; enrichment_error = [] }

-- Writing the tags is skipped where all are empty, which changes nothing.
unfoldable pub apply_result : Row → EnrichResult → List Row → List Row
unfolding update_where float32s_to_blob
apply_result it result rows =
    let saved =
      if is_nil result.embedding
      then rows
      else update_where (of_message it) (with_vector result.embedding) rows in
    if is_nil result.hall && is_nil result.wing && is_nil result.room
    then saved
    else update_where (of_message it) (with_tags result) saved

-- The backoff behind the n-th transient failure in a row, in seconds.
unfoldable pub backoff_seconds : Config → ℕ → ℕ
backoff_seconds cfg n = min (2 ^ min (n - 1) 16 * 5) (max cfg.backoff_max_seconds 1)

abbrev pub second : ℕ
second = 1000000000

unfoldable pub back_off : Config → ℕ → Error → Pipeline → Pipeline
unfolding backoff_seconds
back_off cfg now e p =
    if e.transient
    then record p {
      failures = p.failures + 1;
      backoff_until = max p.backoff_until (now + backoff_seconds cfg (p.failures + 1) * second);
      last_err = e.text;
    }
    else record p { last_err = e.text }

unfoldable pub fail_rows : Config → Row → Text → List Row → List Row
unfolding update_where
fail_rows cfg it text rows =
    if leb (max cfg.max_attempts 1) (it.attempts + 1)
    then update_where (of_message it) (message_failed text)
        (update_where (of_queue it) (queue_failed error text) rows)
    else update_where (of_queue it) (queue_failed pending text) rows

unfoldable pub fail : World → Row → Error → Pipeline → Pipeline
unfolding back_off fail_rows
fail w it e p =
    let gave_up = leb (max w.cfg.max_attempts 1) (it.attempts + 1) in
    back_off w.cfg (w.clock p.calls) e (record p {
      rows = fail_rows w.cfg it e.text p.rows;
      calls = p.calls + 1;
      published =
          if gave_up
          then p.published ++ enrichment_error it.message_id e.text ∷ []
          else p.published;
    })

unfoldable pub done_rows : Row → ℕ → List Row → List Row
unfolding update_where
done_rows it now rows =
    update_where (of_message it) (message_done now)
      (update_where (of_queue it) (queue_done now) rows)

unfoldable pub succeed : World → Row → EnrichResult → Pipeline → Pipeline
unfolding apply_result done_rows
succeed w it result p = record p {
  rows = done_rows it (w.clock p.calls / second) (apply_result it result p.rows);
  failures = 0;
  backoff_until = 0;
  calls = p.calls + 1;
  published = p.published ++ enrichment_done it.message_id result ∷ [];
}

-- Whether the item succeeded, and the pipeline behind it.
unfoldable pub settle : World → Row → Answer EnrichResult → Pipeline → Bool × Pipeline
unfolding fail succeed
settle w it (refused e) p = (false, fail w it e p)
settle w it (answered result) p = (true, succeed w it result p)

unfoldable pub handle : World → Row → Pipeline → Bool × Pipeline
unfolding enrich settle
handle w it p = settle w it (enrich w p.calls it) (record p { calls = p.calls + 1 })
