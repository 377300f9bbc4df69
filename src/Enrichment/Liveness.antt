-- ===== src/Enrichment/Liveness.antt =====
-- A sequence of batches, scheduled or triggered, and the new mail that they leave.
use mathlib.Core.Path.{subst, subst₂}
use mathlib.Core.List.{append-nil}
use imap_mcp.Prelude.{
  ℕ, zero, suc, ◌+◌, ◌-◌, ◌≤◌, ◌≡◌, refl, sym, Bool, true, false, List, [], ◌∷◌, ◌++◌, All, length,
  take, ltb, if◌then◌else◌, arith, Bool-cases, inl, inr,
}
use imap_mcp.Enrichment.{
  Row, World, Pipeline, is_waiting, is_before, select_lane, waiting, insert_queued, sort_queued,
  lane_new, lane_backfill,
}
use imap_mcp.Enrichment.Batch.{
  Turn, process_group, process, run_once, select_batch, is_backing_off, backfill_share, batch_of,
}
use imap_mcp.Enrichment.Invariant.{Good, allowed_attempts, count_key}
use imap_mcp.Enrichment.Lanes.{picked, of_lane-picked}
use imap_mcp.Enrichment.Selected.{IsSettled, IsIdle, picked-Good, counted}
use imap_mcp.Enrichment.Settled.{process_group-Good, share-rows, run_once-IsSettled}
use imap_mcp.Enrichment.Potential.{potential}
use imap_mcp.Enrichment.Progress.{process_group-le, process_group-lt}

module _ (P : Row → Type 0) where
  All-waiting :
      (lane : ℕ) (rows : List Row)
      → All P rows
      → All (λ r. (r.lane ≡ lane) × P r) (waiting lane rows)
  unfolding waiting
  All-waiting lane [] h = tt
  All-waiting lane (r ∷ rows) h =
      let rest = All-waiting lane rows h.1 in
      elim (Bool-cases (is_waiting lane r)) [
        | inl e ↦ rw e ((ground arith, h.0), rest)
        | inr e ↦ rw e rest
      ]

  All-insert : (r : Row) (rows : List Row) → P r → All P rows → All P (insert_queued r rows)
  unfolding insert_queued
  All-insert r [] p h = (p, tt)
  All-insert r (q ∷ rows) p h = elim (Bool-cases (is_before r q)) [
    | inl e ↦ rw e (p, h)
    | inr e ↦ rw e (h.0, All-insert r rows p h.1)
  ]

  All-sort : (rows : List Row) → All P rows → All P (sort_queued rows)
  unfolding sort_queued
  All-sort [] h = tt
  All-sort (r ∷ rows) h = All-insert r (sort_queued rows) h.0 (All-sort rows h.1)

  All-take : (n : ℕ) (rows : List Row) → All P rows → All P (take n rows)
  All-take zero rows h = tt
  All-take (suc n) [] h = tt
  All-take (suc n) (r ∷ rows) h = (h.0, All-take n rows h.1)

All-select :
    (P : Row → Type 0) (lane n : ℕ) (rows : List Row)
    → All P rows
    → All (λ r. (r.lane ≡ lane) × P r) (select_lane lane n rows)
unfolding select_lane
All-select P lane n rows h =
    All-take _ n (sort_queued (waiting lane rows))
      (All-sort _ (waiting lane rows) (All-waiting P lane rows h))

length-insert : (r : Row) (rows : List Row) → length (insert_queued r rows) ≡ suc (length rows)
unfolding insert_queued
length-insert r [] = refl
length-insert r (q ∷ rows) = ground (arith, length-insert r rows)

length-sort : (rows : List Row) → length (sort_queued rows) ≡ length rows
unfolding sort_queued
length-sort [] = refl
length-sort (r ∷ rows) = omega (arith, length-insert r (sort_queued rows), length-sort rows)

take-some : (n : ℕ) (rows : List Row) → 1 ≤ n → 1 ≤ length rows → 1 ≤ length (take n rows)
take-some zero rows h k = absurd (omega arith)
take-some (suc n) [] h k = absurd (omega arith)
take-some (suc n) (r ∷ rows) h k = omega arith

-- A lane that has attempts left has rows that wait.
waiting-some :
    (lane most : ℕ) (rows : List Row)
    → All (IsIdle most) rows
    → 1 ≤ potential lane most rows
    → 1 ≤ length (waiting lane rows)
unfolding potential waiting
waiting-some lane most [] h k = absurd (omega arith)
waiting-some lane most (r ∷ rows) h k = ground (arith, waiting-some lane most rows h.1)

waiting-none :
    (lane most : ℕ) (rows : List Row)
    → All (IsIdle most) rows
    → potential lane most rows ≡ 0
    → waiting lane rows ≡ []
unfolding potential waiting
waiting-none lane most [] h k = refl
waiting-none lane most (r ∷ rows) h k = ground (arith, waiting-none lane most rows h.1)

module _ (w : World) where
  abbrev most : ℕ
  most = allowed_attempts w.cfg

  abbrev left : Pipeline → ℕ
  left p = potential lane_new most p.rows

  lanes-left :
      (turns turns' : List Turn) (n m : ℕ) (p : Pipeline)
      → IsSettled most p.rows
      → left
            (process_group w turns'
              (select_lane lane_backfill m p.rows)
              (process_group w turns (select_lane lane_new n p.rows) p).1).1
          + length (select_lane lane_new n p.rows)
        ≤ left p
  lanes-left turns turns' n m p h =
      let fresh : List Row = select_lane lane_new n p.rows in
      let back : List Row = select_lane lane_backfill m p.rows in
      let q : Pipeline = (process_group w turns fresh p).1 in
      let good : All (Good most (fresh ++ back) []) p.rows = picked-Good most n m p.rows h in
      let after : All (Good most back []) q.rows = process_group-Good w back turns fresh p good in
      let taken =
        process_group-lt w lane_new back turns fresh p good
          (All-select (λ r. 1 ≤ count_key r.queue_id p.rows) lane_new n p.rows (counted p.rows)) in
      let kept =
        process_group-le w lane_new [] turns' back q
          (subst (λ t. All (Good most t []) q.rows) (sym (append-nil back)) after) in
      omega (arith, taken, kept)

  process-left :
      (turns turns' : List Turn) (n m : ℕ) (p : Pipeline)
      → IsSettled most p.rows
      → left (process w turns turns' (picked n m p.rows) p).1
          + length (select_lane lane_new n p.rows)
        ≤ left p
  unfolding process
  process-left turns turns' n m p h =
      let (fresh, back) = of_lane-picked n m p.rows in
      subst₂
        (λ x y.
          left (process_group w turns' y (process_group w turns x p).1).1
            + length (select_lane lane_new n p.rows)
          ≤ left p)
        (sym fresh) (sym back) (lanes-left turns turns' n m p h)

  -- The items that a batch reads from the new lane: none in a backoff.
  abbrev served : ℕ → Pipeline → ℕ
  served forced p =
      if is_backing_off (w.clock p.calls) p
      then 0
      else length (select_lane lane_new (batch_of w forced) p.rows)

  run_once-left :
      (turns turns' : List Turn) (forced : ℕ) (p : Pipeline)
      → IsSettled most p.rows
      → left (run_once w turns turns' forced p).1 + served forced p ≤ left p
  unfolding run_once select_batch
  run_once-left turns turns' forced p h =
      let now : ℕ = w.clock p.calls in
      let p' : Pipeline = record p { calls = p.calls + 1 } in
      let n : ℕ = batch_of w forced in
      let room : ℕ = n - length (select_lane lane_new n p.rows) in
      let share : ℕ × Pipeline = backfill_share w now forced room p' in
      let kept : share.1.rows ≡ p.rows = share-rows w now forced room p' in
      elim (Bool-cases (is_backing_off now p)) [
        | inl e ↦ rw e (omega arith)
        | inr e ↦
            let after =
              process-left turns turns' n share.0 share.1 (subst (IsSettled most) (sym kept) h) in
            rw e (
              subst
                (λ rows.
                  left (process w turns turns' (picked n share.0 rows) share.1).1
                    + length (select_lane lane_new n rows)
                  ≤ potential lane_new most rows)
                kept after)
      ]

  -- Outside a backoff, a batch takes an attempt at least, if there is one.
  served-some :
      (forced : ℕ) (p : Pipeline)
      → IsSettled most p.rows
      → is_backing_off (w.clock p.calls) p ≡ false
      → 1 ≤ left p
      → 1 ≤ served forced p
  unfolding select_lane
  served-some forced p h e some =
      let waits = waiting-some lane_new most p.rows h.idle some in
      rw e (
        take-some (batch_of w forced) (sort_queued (waiting lane_new p.rows)) (ground arith)
          (omega (arith, waits, length-sort (waiting lane_new p.rows))))

-- A call of runOnce: the schedules of its lanes, and the limit of a trigger, 0 for the ticker.
pub record Call : Type 0 where
  pub turns : List Turn
  pub turns' : List Turn
  pub forced : ℕ

unfoldable pub serve : World → List Call → Pipeline → Pipeline
unfolding run_once
serve w [] p = p
serve w (c ∷ calls) p = serve w calls (run_once w c.turns c.turns' c.forced p).1

-- The calls that do not fall into a backoff.
unfoldable pub effective : World → List Call → Pipeline → ℕ
unfolding run_once
effective w [] p = 0
effective w (c ∷ calls) p =
    (if is_backing_off (w.clock p.calls) p then 0 else 1)
    + effective w calls (run_once w c.turns c.turns' c.forced p).1

serve-IsSettled :
    (w : World) (calls : List Call) (p : Pipeline)
    → IsSettled (allowed_attempts w.cfg) p.rows
    → IsSettled (allowed_attempts w.cfg) (serve w calls p).rows
unfolding serve
serve-IsSettled w [] p h = h
serve-IsSettled w (c ∷ calls) p h =
    serve-IsSettled w calls _ (run_once-IsSettled w c.turns c.turns' c.forced p h)

fewer :
    (b : Bool) (l n s e : ℕ)
    → n + s ≤ l
    → (b ≡ false → 1 ≤ l → 1 ≤ s)
    → l ≤ (if b then 0 else 1) + e
    → n ≤ e
fewer true l n s e h k few = omega arith
fewer false l n s e h k few = elim (Bool-cases (ltb 0 l)) [
  | inl some ↦ let one : 1 ≤ s = k refl (ground arith) in omega arith
  | inr none ↦ ground arith
]

serve-left :
    (w : World) (calls : List Call) (p : Pipeline)
    → IsSettled (allowed_attempts w.cfg) p.rows
    → potential lane_new (allowed_attempts w.cfg) p.rows ≤ effective w calls p
    → potential lane_new (allowed_attempts w.cfg) (serve w calls p).rows ≡ 0
unfolding serve effective
serve-left w [] p h few = omega arith
serve-left w (c ∷ calls) p h few =
    let next : Pipeline = (run_once w c.turns c.turns' c.forced p).1 in
    let settled = run_once-IsSettled w c.turns c.turns' c.forced p h in
    let less = run_once-left w c.turns c.turns' c.forced p h in
    serve-left w calls next settled (
      fewer (is_backing_off (w.clock p.calls) p) _ _ (served w c.forced p) _ less
        (served-some w c.forced p h) few)

-- New mail is not starved. Start from a settled queue (no id twice, no row in processing, attempts left
-- for every pending row, none left for an error, and from one to all of them used by a done row), and
-- queue nothing meanwhile: once as many batches as the pending new messages have attempts left, taken
-- together, have begun outside a backoff, no new message is pending, whatever the gates and the rate
-- limit say, the providers answer, and the schedules and triggers are.
pub new_mail-served :
    (w : World) (calls : List Call) (p : Pipeline)
    → IsSettled (allowed_attempts w.cfg) p.rows
    → potential lane_new (allowed_attempts w.cfg) p.rows ≤ effective w calls p
    → waiting lane_new (serve w calls p).rows ≡ []
new_mail-served w calls p h few =
    waiting-none lane_new (allowed_attempts w.cfg) (serve w calls p).rows
      (serve-IsSettled w calls p h).idle (serve-left w calls p h few)
