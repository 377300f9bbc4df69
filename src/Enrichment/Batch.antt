-- ===== src/Enrichment/Batch.antt =====
-- internal/enrichment/pipeline.go, runOnce and what it calls, Run's requeue and Trigger. The goroutines of
-- a lane run in an order that a schedule gives: any interleaving of the marks of processGroup and of the
-- ends of the items that are running. What a schedule leaves over is started, and then ends in its order.
use imap_mcp.Prelude.{
  ℕ, zero, suc, ◌+◌, ◌-◌, max, Bool, true, false, not, List, [], ◌∷◌, ◌++◌, Option, none, some,
  length, ◌==◌, ltb, if◌then◌else◌,
}
use imap_mcp.Enrichment.{
  Status, Row, World, Pipeline, lane_new, lane_backfill, is_processing, update_where, of_queue,
  select_lane, handle,
}
use imap_mcp.Enrichment.Gates.{ask_all}

abbrev pub marked : Row → Row
marked r = record r { status = Status.processing; attempts = r.attempts + 1 }

-- UPDATE enrichment_queue SET status='processing', attempts=attempts+1 WHERE id=?
unfoldable pub mark_processing : Row → List Row → List Row
unfolding update_where
mark_processing it rows = update_where (of_queue it) marked rows

pub data Turn : Type 0 where
  start : Turn
  finish : ℕ → Turn

-- The items of a lane that wait for their mark, those that run, the pipeline, and the successes.
pub record Group : Type 0 where
  pub todo : List Row
  pub running : List Row
  pub pipeline : Pipeline
  pub ok : ℕ

unfoldable pub start_next : Group → Group
unfolding mark_processing
start_next g = elim g.todo [
  | [] ↦ g
  | it ∷ rest ↦ record g {
    todo = rest;
    running = g.running ++ it ∷ [];
    pipeline = record g.pipeline { rows = mark_processing it g.pipeline.rows };
  }
]

-- The n-th of the running items, and the others.
unfoldable pub pick : ℕ → List Row → Option (Row × List Row)
pick n [] = none
pick zero (it ∷ items) = some (it, items)
pick (suc n) (it ∷ items) = elim (pick n items) [
  | none ↦ none
  | some (picked, others) ↦ some (picked, it ∷ others)
]

unfoldable pub end_item : World → Row → Group → Group
unfolding handle
end_item w it g =
    let (success, p) = handle w it g.pipeline in
    record g { pipeline = p; ok = if success then g.ok + 1 else g.ok }

unfoldable pub finish_at : World → ℕ → Group → Group
unfolding pick end_item
finish_at w n g = elim (pick n g.running) [
  | none ↦ g
  | some (it, others) ↦ end_item w it (record g { running = others })
]

unfoldable pub interleave : World → List Turn → Group → Group
unfolding start_next finish_at
interleave w [] g = g
interleave w (start ∷ turns) g = interleave w turns (start_next g)
interleave w (finish n ∷ turns) g = interleave w turns (finish_at w n g)

unfoldable pub start_all : ℕ → Group → Group
unfolding start_next
start_all zero g = g
start_all (suc n) g = start_all n (start_next g)

-- wg.Wait()
unfoldable pub finish_all : World → ℕ → Group → Group
unfolding finish_at
finish_all w zero g = g
finish_all w (suc n) g = finish_all w n (finish_at w 0 g)

abbrev pub group_of : List Row → Pipeline → Group
group_of items p = record { todo = items; running = []; pipeline = p; ok = 0 }

unfoldable pub process_group : World → List Turn → List Row → Pipeline → ℕ × Pipeline
unfolding interleave start_all finish_all
process_group w turns items p =
    let g = interleave w turns (group_of items p) in
    let h = start_all (length g.todo) g in
    let e = finish_all w (length h.running) h in (e.ok, e.pipeline)

unfoldable pub of_lane : ℕ → List Row → List Row
of_lane lane [] = []
of_lane lane (it ∷ items) =
    let rest = of_lane lane items in if it.lane == lane then it ∷ rest else rest

-- The new-mail lane, to its end, and then the backfill lane; each with its own schedule.
unfoldable pub process : World → List Turn → List Turn → List Row → Pipeline → ℕ × Pipeline
unfolding process_group of_lane
process w turns turns' items p =
    let (n, q) = process_group w turns (of_lane lane_new items) p in
    let (m, r) = process_group w turns' (of_lane lane_backfill items) q in (n + m, r)

abbrev pub is_none {ℓ} : {A : Type ℓ} → Option A → Bool
is_none o = elim o [ none ↦ true | some a ↦ false ]

unfoldable pub backfill_allowed : ℕ → Pipeline → Bool × Pipeline
unfolding ask_all
backfill_allowed now p =
    let (why, gates) = ask_all now p.gates in
    (is_none why, record p { gates = gates; paused = why })

-- How many backfill items may be read, for `room` free places.
unfoldable pub backfill_share : World → ℕ → ℕ → ℕ → Pipeline → ℕ × Pipeline
unfolding backfill_allowed
backfill_share w now forced room p =
    let (allowed, q) = backfill_allowed now p in
    if room == 0
    then (0, p)
    else if not (forced == 0)
    then (room, p)
    else if allowed
    then (w.take_backfill p.calls now room, q)
    else (0, q)

abbrev pub batch_of : World → ℕ → ℕ
batch_of w forced = if forced == 0 then max w.cfg.batch_size 1 else forced

-- The items of a batch, and the pipeline behind the gates.
unfoldable pub select_batch : World → ℕ → ℕ → Pipeline → List Row × Pipeline
unfolding select_lane backfill_share
select_batch w now forced p =
    let items = select_lane lane_new (batch_of w forced) p.rows in
    let (n, q) = backfill_share w now forced (batch_of w forced - length items) p in
    (items ++ select_lane lane_backfill n p.rows, q)

-- p.backoffUntil.Sub(now) > 0
abbrev pub is_backing_off : ℕ → Pipeline → Bool
is_backing_off now p = ltb now p.backoff_until

-- `forced` is 0 for a scheduled batch.
unfoldable pub run_once : World → List Turn → List Turn → ℕ → Pipeline → ℕ × Pipeline
unfolding select_batch process
run_once w turns turns' forced p =
    let now = w.clock p.calls in
    let p' = record p { calls = p.calls + 1 } in
    let (items, q) = select_batch w now forced p' in
    if is_backing_off now p then (0, p') else process w turns turns' items q

-- UPDATE enrichment_queue SET status='pending' WHERE status='processing'
unfoldable pub requeue : List Row → List Row
unfolding update_where
requeue = update_where (λ r. is_processing r.status) (λ r. record r { status = Status.pending })

-- The trigger channel holds one call.
unfoldable pub trigger : ℕ → Option ℕ → Bool × Option ℕ
trigger limit none = (true, some (max limit 1))
trigger limit (some waiting) = (false, some waiting)
