-- ===== src/Enrichment/Settled.antt =====
-- The queue behind a batch.
use mathlib.Core.Path.{subst, subst₂}
use mathlib.Core.List.{append-nil}
use imap_mcp.Prelude.{
  ℕ, ◌+◌, ◌-◌, ◌≡◌, refl, sym, List, [], ◌∷◌, ◌++◌, some, length, All, All-map, ◌==◌, arith,
  Bool-cases, Option-cases, inl, inr,
}
use imap_mcp.Enrichment.{Row, World, Pipeline, select_lane, lane_new, lane_backfill}
use imap_mcp.Enrichment.Batch.{
  Turn, Group, start_next, pick, finish_at, end_item, process_group, process, backfill_share,
  backfill_allowed, select_batch, run_once, is_none, is_backing_off, batch_of,
}
use imap_mcp.Enrichment.Invariant.{
  Good, mark-Good, allowed_attempts, count_key-pick, running_ok-pick, running_ok, count_key,
}
use imap_mcp.Enrichment.Handled.{handle-Good}
use imap_mcp.Enrichment.Gates.{ask_all}
use imap_mcp.Enrichment.Lanes.{picked, of_lane-picked}
use imap_mcp.Enrichment.Selected.{IsSettled, IsIdle, picked-Good}
use imap_mcp.Enrichment.Keys.{count_key-process_group}
use imap_mcp.Enrichment.Groups.{finish_at-none, finish_at-some, process_group-ends}

module _ (w : World) (later : List Row) where
  abbrev pub most : ℕ
  most = allowed_attempts w.cfg

  -- Every row is good, for the items of this group and those of a later one.
  unfoldable pub GoodGroup : Group → Type 0
  GoodGroup g = All (Good most (g.todo ++ later) g.running) g.pipeline.rows

  pub start_next-Good : (g : Group) → GoodGroup g → GoodGroup (start_next g)
  unfolding GoodGroup start_next
  start_next-Good g h = starts g.todo g.running g.pipeline g.ok h
    where
      starts :
          (todo running : List Row) (p : Pipeline) (ok : ℕ)
          → All (Good most (todo ++ later) running) p.rows
          → GoodGroup
              (start_next (record { todo = todo; running = running; pipeline = p; ok = ok }))
      starts [] running p ok h = h
      starts (it ∷ todo) running p ok h = mark-Good most it (todo ++ later) running p.rows h

  pub chosen-Good :
      (n : ℕ) (todo running : List Row) (it : Row) (others : List Row)
      → pick n running ≡ some (it, others)
      → (r : Row) → Good most todo running r
      → Good most todo (it ∷ others) r
  unfolding running_ok count_key
  chosen-Good n todo running it others e r h = ground (
    arith,
    count_key-pick r.queue_id n running it others e,
    running_ok-pick r n running it others e,
  )

  pub finish_at-Good : (n : ℕ) (g : Group) → GoodGroup g → GoodGroup (finish_at w n g)
  unfolding GoodGroup end_item
  finish_at-Good n g h = elim (Option-cases (pick n g.running)) [
    | inl e ↦ subst GoodGroup (sym (finish_at-none w n g e)) h
    | inr ((it, others), e) ↦ subst GoodGroup (sym (finish_at-some w n g it others e)) (
        handle-Good w it (g.todo ++ later) others g.pipeline
          (All-map _ _ g.pipeline.rows (chosen-Good n (g.todo ++ later) g.running it others e) h))
  ]

  pub process_group-Good :
      (turns : List Turn) (items : List Row) (p : Pipeline)
      → All (Good most (items ++ later) []) p.rows
      → All (Good most later []) (process_group w turns items p).1.rows
  unfolding GoodGroup
  process_group-Good turns items p h =
      let (g, good, no_todo, no_running, e) =
        process_group-ends w GoodGroup start_next-Good finish_at-Good turns items p h in
      let settled : All (Good most later []) g.pipeline.rows =
        subst₂ (λ t r. All (Good most (t ++ later) r) g.pipeline.rows) no_todo no_running good in
      subst (λ q. All (Good most later []) q.1.rows) (sym e) settled

pub share-rows :
    (w : World) (now forced room : ℕ) (p : Pipeline)
    → (backfill_share w now forced room p).1.rows ≡ p.rows
unfolding backfill_share backfill_allowed
share-rows w now forced room p =
    let (why, gates) = ask_all now p.gates in
    elim (Bool-cases (room == 0)) [
      | inl e ↦ rw e refl
      | inr e ↦ elim (Bool-cases (forced == 0)) [
        | inr f ↦ rw (e, f) refl
        | inl f ↦ elim (Bool-cases (is_none why)) [
          | inl v ↦ rw (e, f, v) refl
          | inr v ↦ rw (e, f, v) refl
        ]
      ]
    ]

Settled-IsIdle : (most : ℕ) (r : Row) → Good most [] [] r → IsIdle most r
unfolding count_key
Settled-IsIdle most r h = ground arith

lanes-IsSettled :
    (w : World) (turns turns' : List Turn) (n m : ℕ) (p : Pipeline)
    → IsSettled (allowed_attempts w.cfg) p.rows
    → IsSettled
        (allowed_attempts w.cfg)
        (process_group w turns'
          (select_lane lane_backfill m p.rows)
          (process_group w turns (select_lane lane_new n p.rows) p).1).1.rows
lanes-IsSettled w turns turns' n m p h =
    let most : ℕ = allowed_attempts w.cfg in
    let fresh : List Row = select_lane lane_new n p.rows in
    let back : List Row = select_lane lane_backfill m p.rows in
    let q : Pipeline = (process_group w turns fresh p).1 in
    let first : All (Good most back []) q.rows =
      process_group-Good w back turns fresh p (picked-Good most n m p.rows h) in
    let last : All (Good most [] []) (process_group w turns' back q).1.rows =
      process_group-Good w [] turns' back q
        (subst (λ t. All (Good most t []) q.rows) (sym (append-nil back)) first) in
    record {
      keyed = record {
        once = λ k. omega (
          arith,
          count_key-process_group k w turns' back q,
          count_key-process_group k w turns fresh p,
          h.keyed.once k,
        );
      };
      idle = All-map _ _ (process_group w turns' back q).1.rows (Settled-IsIdle most) last;
    }

pub process-IsSettled :
    (w : World) (turns turns' : List Turn) (n m : ℕ) (p : Pipeline)
    → IsSettled (allowed_attempts w.cfg) p.rows
    → IsSettled (allowed_attempts w.cfg) (process w turns turns' (picked n m p.rows) p).1.rows
unfolding process
process-IsSettled w turns turns' n m p h =
    let (fresh, back) = of_lane-picked n m p.rows in
    subst₂
      (λ x y.
        IsSettled (allowed_attempts w.cfg)
          (process_group w turns' y (process_group w turns x p).1).1.rows)
      (sym fresh) (sym back) (lanes-IsSettled w turns turns' n m p h)

-- A batch keeps a settled queue settled: if before it no id is used twice, no row is in processing, every
-- pending row has attempts left, an error has used up all of them, and a done row has used one at least
-- and no more than there are, then all this holds again behind it, whatever the providers answer, the
-- gates say and the clock reads, and in whatever order its goroutines run.
pub run_once-IsSettled :
    (w : World) (turns turns' : List Turn) (forced : ℕ) (p : Pipeline)
    → IsSettled (allowed_attempts w.cfg) p.rows
    → IsSettled (allowed_attempts w.cfg) (run_once w turns turns' forced p).1.rows
unfolding run_once select_batch
run_once-IsSettled w turns turns' forced p h =
    let now : ℕ = w.clock p.calls in
    let p' : Pipeline = record p { calls = p.calls + 1 } in
    let n : ℕ = batch_of w forced in
    let room : ℕ = n - length (select_lane lane_new n p.rows) in
    let share : ℕ × Pipeline = backfill_share w now forced room p' in
    let kept : share.1.rows ≡ p.rows = share-rows w now forced room p' in
    elim (Bool-cases (is_backing_off now p)) [
      | inl e ↦ rw e h
      | inr e ↦
          let after =
            process-IsSettled w turns turns' n share.0 share.1
              (subst (IsSettled (allowed_attempts w.cfg)) (sym kept) h) in
          rw e (
            subst
              (λ rows.
                IsSettled (allowed_attempts w.cfg)
                  (process w turns turns' (picked n share.0 rows) share.1).1.rows)
              kept after)
    ]
