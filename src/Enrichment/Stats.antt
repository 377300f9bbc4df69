-- ===== src/Enrichment/Stats.antt =====
-- internal/enrichment/pipeline.go: Stats, ClassifyWhenIdle and EmbedQuery.
use imap_mcp.Prelude.{
  ℕ, ◌+◌, ◌-◌, ◌/◌, ◌≡◌, Bool, true, false, not, ◌&&◌, ◌||◌, List, [], ◌∷◌, Option, none, some,
  Text, min, length, ◌==◌, leb, if◌then◌else◌, arith, All,
}
use imap_mcp.Prelude.Int.{ℤ, pos, negsuc}
use imap_mcp.Enrichment.{
  Status, pending, processing, done, error, Row, World, Pipeline, Answer, refused, Error, lane_new,
  lane_backfill, second, is_waiting,
}
use imap_mcp.Enrichment.Gates.{Reason}
use imap_mcp.Enrichment.Batch.{backfill_allowed, is_backing_off}

abbrev pub status_eq : Status → Status → Bool
status_eq s t = elim s [
  | pending ↦ (elim t [ pending ↦ true | _ ↦ false ])
  | processing ↦ (elim t [ processing ↦ true | _ ↦ false ])
  | done ↦ (elim t [ done ↦ true | _ ↦ false ])
  | error ↦ (elim t [ error ↦ true | _ ↦ false ])
]

-- SELECT count(*) … WHERE …
unfoldable pub count_rows : (Row → Bool) → List Row → ℕ
count_rows p [] = 0
count_rows p (r ∷ rows) = (if p r then 1 else 0) + count_rows p rows

-- MIN(queued_at) of the pending rows of a lane
unfoldable pub oldest : ℕ → List Row → Option ℕ
oldest lane [] = none
oldest lane (r ∷ rows) =
    let rest = oldest lane rows in
    if is_waiting lane r
    then (elim rest [ none ↦ some r.queued_at | some t ↦ some (min r.queued_at t) ])
    else rest

-- int(now - oldest)
abbrev pub age : ℕ → ℕ → ℤ
age now t = if leb t now then pos (now - t) else negsuc (t - now - 1)

pub record Stats : Type 0 where
  pub pending_new : ℕ
  pub pending_backfill : ℕ
  pub processing : ℕ
  pub done : ℕ
  pub errors : ℕ
  pub done_last_hour : ℕ
  pub oldest_new : Option ℤ
  pub oldest_backfill : Option ℤ
  pub backfill_paused : Option (Text × Reason)
  pub backoff_seconds : ℕ
  pub consecutive_failures : ℕ
  pub last_error : Text

abbrev pub age_of : ℕ → Option ℕ → Option ℤ
age_of now o = elim o [ none ↦ none | some t ↦ some (age now t) ]

abbrev pub has_status : Status → Row → Bool
has_status s r = status_eq r.status s

-- (*Pipeline).Stats at a time
unfoldable pub stats : ℕ → Pipeline → Stats
unfolding count_rows oldest
stats time p = record {
  pending_new = count_rows (is_waiting lane_new) p.rows;
  pending_backfill = count_rows (is_waiting lane_backfill) p.rows;
  processing = count_rows (has_status Status.processing) p.rows;
  done = count_rows (has_status Status.done) p.rows;
  errors = count_rows (has_status error) p.rows;
  done_last_hour =
      count_rows (λ r. has_status Status.done r && leb (time / second - 3600) r.processed_at)
        p.rows;
  oldest_new = age_of (time / second) (oldest lane_new p.rows);
  oldest_backfill = age_of (time / second) (oldest lane_backfill p.rows);
  backfill_paused = p.paused;
  backoff_seconds = (p.backoff_until - time) / second;
  consecutive_failures = p.failures;
  last_error = p.last_err;
}

-- ErrIdleGated
abbrev pub idle_gated : Error
idle_gated = record { text = []; transient = false }

unfoldable pub classify_when_idle : World → Text → Pipeline → Answer Text × Pipeline
unfolding backfill_allowed
classify_when_idle w prompt p =
    let now = w.clock p.calls in
    let p' = record p { calls = p.calls + 1 } in
    let (allowed, q) = backfill_allowed now p' in
    if is_backing_off now p
    then (refused idle_gated, p')
    else if not allowed
    then (refused idle_gated, q)
    else (w.classify q.calls prompt, record q { calls = q.calls + 1 })

-- The rows are those of the two lanes.
abbrev pub InLanes : Row → Type 0
InLanes r = (r.lane == lane_new || r.lane == lane_backfill) ≡ true

-- The counts of the statistics add up to the rows of the queue, when these are of the two lanes.
pub stats-total :
    (time : ℕ) (p : Pipeline)
    → All InLanes p.rows
    → (stats time p).pending_new
        + (stats time p).pending_backfill
        + (stats time p).processing
        + (stats time p).done
        + (stats time p).errors
      ≡ length p.rows
unfolding stats
stats-total time p h = total p.rows h
  where
    total :
        (rows : List Row)
        → All InLanes rows
        → count_rows (is_waiting lane_new) rows
            + count_rows (is_waiting lane_backfill) rows
            + count_rows (has_status Status.processing) rows
            + count_rows (has_status Status.done) rows
            + count_rows (has_status error) rows
          ≡ length rows
    total [] h = omega arith
    total (r ∷ rows) h = ground (arith, total rows h.1)
