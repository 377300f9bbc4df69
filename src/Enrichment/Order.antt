-- ===== src/Enrichment/Order.antt =====
-- Which items a batch reads.
use imap_mcp.Prelude.{
  ℕ, zero, suc, ◌-◌, ◌≤◌, ◌<◌, ◌≡◌, ◌⊎◌, refl, ap, ◌∙◌, List, [], ◌∷◌, none, length, take, ◌==◌,
  arith, Bool-cases, Option-cases, inl, inr, length-append,
}
use imap_mcp.Enrichment.{
  Row, World, Pipeline, select_lane, waiting, sort_queued, lane_new, lane_backfill,
}
use imap_mcp.Enrichment.Gates.{ask_all}
use imap_mcp.Enrichment.Batch.{
  of_lane, select_batch, backfill_share, backfill_allowed, batch_of, is_none,
}
use imap_mcp.Enrichment.Lanes.{of_lane-picked}

length-take : (n : ℕ) (rows : List Row) → length (take n rows) ≤ n
length-take zero rows = omega arith
length-take (suc n) [] = omega arith
length-take (suc n) (r ∷ rows) = omega (arith, length-take n rows)

take-short : (n : ℕ) (rows : List Row) → length (take n rows) < n → take n rows ≡ rows
take-short zero rows h = absurd (omega arith)
take-short (suc n) [] h = refl
take-short (suc n) (r ∷ rows) h = ap (λ t. r ∷ t) (take-short n rows (omega arith))

-- A share is read from the backfill where there is room, and where the batch is forced or no gate
-- refuses.
share-open :
    (w : World) (now forced room : ℕ) (p : Pipeline)
    → 1 ≤ (backfill_share w now forced room p).0
    → (1 ≤ room) × ((1 ≤ forced) ⊎ ((ask_all now p.gates).0 ≡ none))
unfolding backfill_share backfill_allowed
share-open w now forced room p h = elim (Bool-cases (room == 0)) [
  | inl full ↦
      let e : (backfill_share w now forced room p).0 ≡ 0 = rw full refl in absurd (omega (arith, e))
  | inr free ↦ (
    ground arith,
    elim (Bool-cases (forced == 0)) [
      | inr f ↦ inl (ground arith)
      | inl f ↦ elim (Option-cases (ask_all now p.gates).0) [
        | inl fine ↦ inr fine
        | inr (why, e) ↦
            let closed : (backfill_share w now forced room p).0 ≡ 0 = rw (free, f, e) refl in
            absurd (omega (arith, closed))
      ]
    ],
  )
]

share-within :
    (w : World) (now forced room : ℕ) (p : Pipeline)
    → ((call time want : ℕ) → w.take_backfill call time want ≤ want)
    → (backfill_share w now forced room p).0 ≤ room
unfolding backfill_share backfill_allowed
share-within w now forced room p limited = elim (Bool-cases (room == 0)) [
  | inl full ↦ rw full (omega arith)
  | inr free ↦ elim (Bool-cases (forced == 0)) [
    | inr f ↦ rw (free, f) (omega arith)
    | inl f ↦ elim (Bool-cases (is_none (ask_all now p.gates).0)) [
      | inl v ↦ rw (free, f, v) (limited p.calls now room)
      | inr v ↦ rw (free, f, v) (omega arith)
    ]
  ]
]

-- A batch reads from the backfill only behind all the new mail that waits, in its order, and only if it
-- is forced or every gate allows it.
pub backfill_last :
    (w : World) (now forced : ℕ) (p : Pipeline)
    → 1 ≤ length (of_lane lane_backfill (select_batch w now forced p).0)
    → (of_lane lane_new (select_batch w now forced p).0 ≡ sort_queued (waiting lane_new p.rows))
      × ((1 ≤ forced) ⊎ ((ask_all now p.gates).0 ≡ none))
unfolding select_batch select_lane
backfill_last w now forced p served =
    let n : ℕ = batch_of w forced in
    let room : ℕ = n - length (select_lane lane_new n p.rows) in
    let m : ℕ = (backfill_share w now forced room p).0 in
    let (new_lane, backfill_lane) = of_lane-picked n m p.rows in
    let short = length-take m (sort_queued (waiting lane_backfill p.rows)) in
    let ready =
      share-open w now forced room p (omega (arith, short, served, ap length backfill_lane)) in
    (
      new_lane ∙ take-short n (sort_queued (waiting lane_new p.rows)) (omega (arith, ready.0)),
      ready.1,
    )

-- A batch is within its size, forced or configured, if the rate limit gives no more than it is asked for.
pub batch-bound :
    (w : World) (now forced : ℕ) (p : Pipeline)
    → ((call time want : ℕ) → w.take_backfill call time want ≤ want)
    → length (select_batch w now forced p).0 ≤ batch_of w forced
unfolding select_batch select_lane
batch-bound w now forced p limited =
    let n : ℕ = batch_of w forced in
    let fresh : List Row = select_lane lane_new n p.rows in
    let room : ℕ = n - length fresh in
    let m : ℕ = (backfill_share w now forced room p).0 in
    omega (
      arith,
      length-append fresh (select_lane lane_backfill m p.rows),
      length-take m (sort_queued (waiting lane_backfill p.rows)),
      share-within w now forced room p limited,
      length-take n (sort_queued (waiting lane_new p.rows)),
    )
