-- ===== src/Enrichment/Lanes.antt =====
-- The items of a batch by lane.
use mathlib.Core.List.{append-nil}
use imap_mcp.Prelude.{
  ℕ, zero, suc, ◌≡◌, refl, ◌∙◌, ◌≢◌, Bool, true, ◌&&◌, List, [], ◌∷◌, ◌++◌, take, ◌==◌, arith,
}
use imap_mcp.Enrichment.{
  Row, lane_new, lane_backfill, waiting, insert_queued, sort_queued, select_lane,
}
use imap_mcp.Enrichment.Batch.{of_lane}

-- All the items are of the lane.
unfoldable lanes_ok : ℕ → List Row → Bool
lanes_ok lane [] = true
lanes_ok lane (it ∷ items) = it.lane == lane && lanes_ok lane items

lanes_ok-waiting : (lane : ℕ) (rows : List Row) → lanes_ok lane (waiting lane rows) ≡ true
unfolding lanes_ok waiting
lanes_ok-waiting lane [] = refl
lanes_ok-waiting lane (r ∷ rows) = ground (arith, lanes_ok-waiting lane rows)

lanes_ok-insert :
    (lane : ℕ) (q : Row) (rows : List Row)
    → lanes_ok lane (insert_queued q rows) ≡ lanes_ok lane (q ∷ rows)
unfolding lanes_ok insert_queued
lanes_ok-insert lane q [] = refl
lanes_ok-insert lane q (x ∷ rows) = ground (arith, lanes_ok-insert lane q rows)

lanes_ok-sort : (lane : ℕ) (rows : List Row) → lanes_ok lane (sort_queued rows) ≡ lanes_ok lane rows
unfolding lanes_ok sort_queued
lanes_ok-sort lane [] = refl
lanes_ok-sort lane (q ∷ rows) =
    ground (arith, lanes_ok-insert lane q (sort_queued rows), lanes_ok-sort lane rows)

lanes_ok-take :
    (lane n : ℕ) (rows : List Row) → lanes_ok lane rows ≡ true → lanes_ok lane (take n rows) ≡ true
unfolding lanes_ok
lanes_ok-take lane zero rows h = refl
lanes_ok-take lane (suc n) [] h = refl
lanes_ok-take lane (suc n) (q ∷ rows) h = ground (arith, lanes_ok-take lane n rows)

lanes_ok-select : (lane n : ℕ) (rows : List Row) → lanes_ok lane (select_lane lane n rows) ≡ true
unfolding select_lane
lanes_ok-select lane n rows =
    lanes_ok-take lane n (sort_queued (waiting lane rows))
      (lanes_ok-sort lane (waiting lane rows) ∙ lanes_ok-waiting lane rows)

of_lane-append :
    (lane : ℕ) (xs ys : List Row) → of_lane lane (xs ++ ys) ≡ of_lane lane xs ++ of_lane lane ys
unfolding of_lane
of_lane-append lane [] ys = refl
of_lane-append lane (x ∷ xs) ys = ground (arith, of_lane-append lane xs ys)

of_lane-same : (lane : ℕ) (xs : List Row) → lanes_ok lane xs ≡ true → of_lane lane xs ≡ xs
unfolding of_lane lanes_ok
of_lane-same lane [] h = refl
of_lane-same lane (x ∷ xs) h = ground (arith, of_lane-same lane xs)

of_lane-other :
    (lane other : ℕ) (xs : List Row)
    → ◌≢◌ lane other
    → lanes_ok other xs ≡ true
    → of_lane lane xs ≡ []
unfolding of_lane lanes_ok
of_lane-other lane other [] d h = refl
of_lane-other lane other (x ∷ xs) d h = ground (arith, of_lane-other lane other xs)

-- What a batch reads: at most n new items, and at most m of the backfill.
abbrev pub picked : ℕ → ℕ → List Row → List Row
picked n m rows = select_lane lane_new n rows ++ select_lane lane_backfill m rows

pub of_lane-picked :
    (n m : ℕ) (rows : List Row)
    → (of_lane lane_new (picked n m rows) ≡ select_lane lane_new n rows)
      × (of_lane lane_backfill (picked n m rows) ≡ select_lane lane_backfill m rows)
of_lane-picked n m rows =
    let xs : List Row = select_lane lane_new n rows in
    let ys : List Row = select_lane lane_backfill m rows in
    let x = lanes_ok-select lane_new n rows in
    let y = lanes_ok-select lane_backfill m rows in
    (
      of_lane-append lane_new xs ys
          ∙ rw
              (
                of_lane-same lane_new xs x,
                of_lane-other lane_new lane_backfill ys (λ e. omega arith) y,
              )
              (append-nil xs),
      of_lane-append lane_backfill xs ys
          ∙ rw (of_lane-other lane_backfill lane_new xs (λ e. omega arith) x)
              (of_lane-same lane_backfill ys y),
    )
