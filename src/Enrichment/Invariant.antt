-- ===== src/Enrichment/Invariant.antt =====
-- The rows of the queue while a group of items is processed.
use imap_mcp.Prelude.{
  ℕ, zero, suc, ◌+◌, ◌≤◌, ◌≡◌, refl, max, Bool, true, false, not, ◌&&◌, ◌||◌, List, [], ◌∷◌, ◌++◌,
  some, All, ◌==◌, ltb, leb, if◌then◌else◌, arith, Bool-cases, Option-cases, inl, inr,
}
use imap_mcp.Enrichment.{
  pending, processing, done, error, Row, Config, is_pending, is_processing, of_queue, update_where,
}
use imap_mcp.Enrichment.Batch.{marked, mark_processing, pick}

unfoldable pub count_key : ℕ → List Row → ℕ
count_key k [] = 0
count_key k (it ∷ items) = (if it.queue_id == k then 1 else 0) + count_key k items

-- A waiting item reads as its row.
unfoldable pub todo_ok : Row → List Row → Bool
todo_ok r [] = true
todo_ok r (it ∷ items) =
    (not (it.queue_id == r.queue_id)
      || (is_pending r.status && (it.attempts == r.attempts && it.lane == r.lane)))
    && todo_ok r items

-- The row of a running item has been marked.
unfoldable pub running_ok : Row → List Row → Bool
running_ok r [] = true
running_ok r (it ∷ items) =
    (not (it.queue_id == r.queue_id) || (is_processing r.status && it.attempts + 1 == r.attempts))
    && running_ok r items

abbrev pub allowed_attempts : Config → ℕ
allowed_attempts cfg = max cfg.max_attempts 1

-- A pending row has attempts left, an error has used them up.
abbrev pub attempts_ok : ℕ → Row → Bool
attempts_ok most r = elim r.status [
  | pending ↦ ltb r.attempts most
  | processing ↦ ltb 0 r.attempts && leb r.attempts most
  | done ↦ ltb 0 r.attempts && leb r.attempts most
  | error ↦ r.attempts == most
]

-- A row in processing belongs to a running item, and no row has two items.
abbrev pub Good : ℕ → List Row → List Row → Row → Type 0
Good most todo running r =
    (attempts_ok most r ≡ true)
    × (todo_ok r todo ≡ true)
    × (running_ok r running ≡ true)
    × (count_key r.queue_id todo + count_key r.queue_id running ≤ 1)
    × ((not (is_processing r.status) || ltb 0 (count_key r.queue_id running)) ≡ true)

pub All-update :
    (P Q : Row → Type 0) (p : Row → Bool) (f : Row → Row) (rows : List Row)
    → ((r : Row) → P r → p r ≡ true → Q (f r))
    → ((r : Row) → P r → p r ≡ false → Q r)
    → All P rows
    → All Q (update_where p f rows)
unfolding update_where
All-update P Q p f [] hit miss h = tt
All-update P Q p f (r ∷ rows) hit miss h =
    let rest = All-update P Q p f rows hit miss h.1 in
    elim (Bool-cases (p r)) [ inl e ↦ rw e (hit r h.0 e, rest) | inr e ↦ rw e (miss r h.0 e, rest) ]

pub count_key-append :
    (k : ℕ) (xs ys : List Row) → count_key k (xs ++ ys) ≡ count_key k xs + count_key k ys
unfolding count_key
count_key-append k [] ys = omega arith
count_key-append k (x ∷ xs) ys = omega (arith, count_key-append k xs ys)

running_ok-append :
    (r : Row) (xs ys : List Row) → running_ok r (xs ++ ys) ≡ (running_ok r xs && running_ok r ys)
unfolding running_ok
running_ok-append r [] ys = refl
running_ok-append r (x ∷ xs) ys = ground (arith, running_ok-append r xs ys)

-- With no item of its key waiting or running, what the lists say of a row is void.
pub todo_ok-absent :
    (r q : Row) (items : List Row)
    → q.queue_id ≡ r.queue_id
    → count_key r.queue_id items ≡ 0
    → todo_ok q items ≡ true
unfolding todo_ok count_key
todo_ok-absent r q [] e h = refl
todo_ok-absent r q (it ∷ items) e h = ground (arith, todo_ok-absent r q items e)

pub running_ok-absent :
    (r q : Row) (items : List Row)
    → q.queue_id ≡ r.queue_id
    → count_key r.queue_id items ≡ 0
    → running_ok q items ≡ true
unfolding running_ok count_key
running_ok-absent r q [] e h = refl
running_ok-absent r q (it ∷ items) e h = ground (arith, running_ok-absent r q items e)

mark-hit :
    (most : ℕ) (it : Row) (todo running : List Row) (r : Row)
    → Good most (it ∷ todo) running r
    → (r.queue_id == it.queue_id) ≡ true
    → Good most todo (running ++ it ∷ []) (marked r)
unfolding todo_ok running_ok count_key
mark-hit most it todo running r h e = ground (
  arith,
  count_key-append r.queue_id running (it ∷ []),
  running_ok-append (marked r) running (it ∷ []),
  todo_ok-absent r (marked r) todo refl,
  running_ok-absent r (marked r) running refl,
)

mark-miss :
    (most : ℕ) (it : Row) (todo running : List Row) (r : Row)
    → Good most (it ∷ todo) running r
    → (r.queue_id == it.queue_id) ≡ false
    → Good most todo (running ++ it ∷ []) r
unfolding todo_ok running_ok count_key
mark-miss most it todo running r h e =
    ground
      (arith, count_key-append r.queue_id running (it ∷ []), running_ok-append r running (it ∷ []))

-- The mark of the next item keeps every row good.
pub mark-Good :
    (most : ℕ) (it : Row) (todo running rows : List Row)
    → All (Good most (it ∷ todo) running) rows
    → All (Good most todo (running ++ it ∷ [])) (mark_processing it rows)
unfolding mark_processing
mark-Good most it todo running rows h =
    All-update (Good most (it ∷ todo) running) (Good most todo (running ++ it ∷ [])) (of_queue it)
      marked rows (mark-hit most it todo running) (mark-miss most it todo running) h

pub count_key-pick :
    (k n : ℕ) (items : List Row) (it : Row) (others : List Row)
    → pick n items ≡ some (it, others)
    → count_key k items ≡ (if it.queue_id == k then 1 else 0) + count_key k others
unfolding pick count_key
count_key-pick k n [] it others e = cc
count_key-pick k zero (x ∷ items) it others e = ground arith
count_key-pick k (suc n) (x ∷ items) it others e = elim (Option-cases (pick n items)) [
  | inl missing ↦ ground arith
  | inr ((q, rest), found) ↦ ground (arith, count_key-pick k n items q rest found)
]

pub running_ok-pick :
    (r : Row) (n : ℕ) (items : List Row) (it : Row) (others : List Row)
    → pick n items ≡ some (it, others)
    → running_ok r items ≡ running_ok r (it ∷ others)
unfolding pick running_ok
running_ok-pick r n [] it others e = cc
running_ok-pick r zero (x ∷ items) it others e = ground arith
running_ok-pick r (suc n) (x ∷ items) it others e = elim (Option-cases (pick n items)) [
  | inl missing ↦ ground arith
  | inr ((q, rest), found) ↦ ground (arith, running_ok-pick r n items q rest found)
]
