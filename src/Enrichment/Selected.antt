-- ===== src/Enrichment/Selected.antt =====
-- The items of a batch, as the rows of the queue they were read from.
use imap_mcp.Prelude.{
  ℕ, zero, suc, ◌+◌, ◌≤◌, ◌≡◌, refl, ◌∙◌, Bool, true, false, not, ◌&&◌, ◌||◌, List, [], ◌∷◌, ◌++◌,
  take, All, All-map, ◌==◌, arith,
}
use imap_mcp.Enrichment.{
  Row, lane_new, lane_backfill, is_pending, is_processing, waiting, insert_queued, sort_queued,
  select_lane,
}
use imap_mcp.Enrichment.Lanes.{picked}
use imap_mcp.Enrichment.Invariant.{
  Good, attempts_ok, count_key, count_key-append, todo_ok, running_ok,
}

-- id INTEGER PRIMARY KEY
pub record IsKeyed (rows : List Row) : Type 0 where
  pub once : (k : ℕ) → count_key k rows ≤ 1

-- Rows of the same id read alike.
unfoldable reads : Row → List Row → Bool
reads r [] = true
reads r (q ∷ rows) =
    (not (q.queue_id == r.queue_id)
      || ((not (is_pending q.status) || is_pending r.status)
          && (q.attempts == r.attempts && q.lane == r.lane)))
    && reads r rows

reads-absent : (r : Row) (rows : List Row) → count_key r.queue_id rows ≡ 0 → reads r rows ≡ true
unfolding reads count_key
reads-absent r [] e = refl
reads-absent r (q ∷ rows) e = ground (arith, reads-absent r rows)

pub counted : (rows : List Row) → All (λ r. 1 ≤ count_key r.queue_id rows) rows
unfolding count_key
counted [] = tt
counted (r ∷ rows) = (
  ground arith,
  All-map _ _ rows (λ q (h : 1 ≤ count_key q.queue_id rows). ground arith) (counted rows),
)

All-zip {ℓ κ μ} :
    {A : Type ℓ} (P : A → Type κ) (Q : A → Type μ) (xs : List A)
    → All P xs
    → All Q xs
    → All (λ x. P x × Q x) xs
All-zip P Q [] h k = tt
All-zip P Q (x ∷ xs) h k = ((h.0, k.0), All-zip P Q xs h.1 k.1)

reads-cons :
    (q : Row) (rows : List Row)
    → ((k : ℕ) → count_key k (q ∷ rows) ≤ 1)
    → (r : Row) → (1 ≤ count_key r.queue_id rows) × (reads r rows ≡ true)
    → reads r (q ∷ rows) ≡ true
unfolding reads count_key
reads-cons q rows h r k = ground (arith, h r.queue_id)

keyed-reads :
    (rows : List Row) → ((k : ℕ) → count_key k rows ≤ 1) → All (λ r. reads r rows ≡ true) rows
unfolding count_key reads
keyed-reads [] h = tt
keyed-reads (q ∷ rows) h =
    let small : (k : ℕ) → count_key k rows ≤ 1 = λ k. ground (arith, h k) in
    (
      ground (arith, h q.queue_id, reads-absent q rows),
      All-map _ _ rows (reads-cons q rows h)
          (All-zip _ _ rows (counted rows) (keyed-reads rows small)),
    )

-- What holds of the rows that wait holds of those that are read.
todo_ok-insert :
    (r q : Row) (rows : List Row) → todo_ok r (insert_queued q rows) ≡ todo_ok r (q ∷ rows)
unfolding todo_ok insert_queued
todo_ok-insert r q [] = refl
todo_ok-insert r q (x ∷ rows) = ground (arith, todo_ok-insert r q rows)

todo_ok-sort : (r : Row) (rows : List Row) → todo_ok r (sort_queued rows) ≡ todo_ok r rows
unfolding todo_ok sort_queued
todo_ok-sort r [] = refl
todo_ok-sort r (q ∷ rows) =
    ground (arith, todo_ok-insert r q (sort_queued rows), todo_ok-sort r rows)

todo_ok-take :
    (r : Row) (n : ℕ) (rows : List Row) → todo_ok r rows ≡ true → todo_ok r (take n rows) ≡ true
unfolding todo_ok
todo_ok-take r zero rows h = refl
todo_ok-take r (suc n) [] h = refl
todo_ok-take r (suc n) (q ∷ rows) h = ground (arith, todo_ok-take r n rows)

todo_ok-append :
    (r : Row) (xs ys : List Row) → todo_ok r (xs ++ ys) ≡ (todo_ok r xs && todo_ok r ys)
unfolding todo_ok
todo_ok-append r [] ys = refl
todo_ok-append r (x ∷ xs) ys = ground (arith, todo_ok-append r xs ys)

reads-waiting :
    (r : Row) (lane : ℕ) (rows : List Row)
    → reads r rows ≡ true
    → todo_ok r (waiting lane rows) ≡ true
unfolding reads waiting todo_ok
reads-waiting r lane [] h = refl
reads-waiting r lane (q ∷ rows) h = ground (arith, reads-waiting r lane rows)

todo_ok-select :
    (r : Row) (lane n : ℕ) (rows : List Row)
    → reads r rows ≡ true
    → todo_ok r (select_lane lane n rows) ≡ true
unfolding select_lane
todo_ok-select r lane n rows h =
    todo_ok-take r n (sort_queued (waiting lane rows))
      (todo_ok-sort r (waiting lane rows) ∙ reads-waiting r lane rows h)

count_key-insert :
    (k : ℕ) (q : Row) (rows : List Row)
    → count_key k (insert_queued q rows) ≡ count_key k (q ∷ rows)
unfolding count_key insert_queued
count_key-insert k q [] = refl
count_key-insert k q (x ∷ rows) = ground (arith, count_key-insert k q rows)

count_key-sort : (k : ℕ) (rows : List Row) → count_key k (sort_queued rows) ≡ count_key k rows
unfolding count_key sort_queued
count_key-sort k [] = refl
count_key-sort k (q ∷ rows) =
    ground (arith, count_key-insert k q (sort_queued rows), count_key-sort k rows)

count_key-take : (k n : ℕ) (rows : List Row) → count_key k (take n rows) ≤ count_key k rows
unfolding count_key
count_key-take k zero rows = omega arith
count_key-take k (suc n) [] = omega arith
count_key-take k (suc n) (q ∷ rows) = omega (arith, count_key-take k n rows)

count_key-waiting :
    (k : ℕ) (rows : List Row)
    → count_key k (waiting lane_new rows) + count_key k (waiting lane_backfill rows)
      ≤ count_key k rows
unfolding count_key waiting
count_key-waiting k [] = omega arith
count_key-waiting k (q ∷ rows) = ground (arith, count_key-waiting k rows)

count_key-select :
    (k lane n : ℕ) (rows : List Row)
    → count_key k (select_lane lane n rows) ≤ count_key k (waiting lane rows)
unfolding select_lane
count_key-select k lane n rows = omega (
  arith,
  count_key-take k n (sort_queued (waiting lane rows)),
  count_key-sort k (waiting lane rows),
)

-- The rows between two batches: keyed, their attempts in order, and none in processing.
abbrev pub IsIdle : ℕ → Row → Type 0
IsIdle most r = (attempts_ok most r ≡ true) × (is_processing r.status ≡ false)

pub record IsSettled (most : ℕ) (rows : List Row) : Type 0 where
  pub keyed : IsKeyed rows
  pub idle : All (IsIdle most) rows

one-Good :
    (most n m : ℕ) (rows : List Row)
    → ((k : ℕ) → count_key k rows ≤ 1)
    → (r : Row) → (reads r rows ≡ true) × IsIdle most r
    → Good most (picked n m rows) [] r
unfolding running_ok count_key
one-Good most n m rows once r h =
    let xs : List Row = select_lane lane_new n rows in
    let ys : List Row = select_lane lane_backfill m rows in
    ground (
      arith,
      h.0,
      h.1.0,
      h.1.1,
      todo_ok-append r xs ys,
      todo_ok-select r lane_new n rows h.0,
      todo_ok-select r lane_backfill m rows h.0,
      count_key-append r.queue_id xs ys,
      count_key-select r.queue_id lane_new n rows,
      count_key-select r.queue_id lane_backfill m rows,
      count_key-waiting r.queue_id rows,
      once r.queue_id,
    )

pub picked-Good :
    (most n m : ℕ) (rows : List Row)
    → IsSettled most rows
    → All (Good most (picked n m rows) []) rows
picked-Good most n m rows h =
    All-map _ _ rows (one-Good most n m rows h.keyed.once)
      (All-zip _ _ rows (keyed-reads rows h.keyed.once) h.idle)
