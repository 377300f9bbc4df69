-- ===== src/Enrichment/Potential.antt =====
-- The attempts that the rows of a lane have left, and what the steps of a batch take of them.
use imap_mcp.Prelude.{
  ℕ, ◌+◌, ◌-◌, ◌/◌, ◌≤◌, ◌≡◌, refl, Bool, true, ◌&&◌, ◌||◌, List, [], ◌∷◌, Text, All, ◌==◌,
  if◌then◌else◌, arith, Bool-cases, inl, inr,
}
use imap_mcp.Enrichment.{
  Row, World, Pipeline, Config, Answer, answered, refused, pending, error, is_pending,
  is_processing, update_where, apply_result, fail_rows, done_rows, fail, succeed, back_off, settle,
  second, of_queue, of_message, with_vector, with_tags, queue_failed, message_failed, queue_done,
  message_done,
}
use imap_mcp.Enrichment.Tags.{EnrichResult}
use imap_mcp.Enrichment.Batch.{mark_processing, marked}
use imap_mcp.Enrichment.Invariant.{Good, allowed_attempts, count_key, todo_ok, running_ok}
use imap_mcp.Enrichment.Handled.{Before, apply_result-keeps, apply_result-same}

abbrev pub weight : ℕ → ℕ → Row → ℕ
weight lane most r =
    if r.lane == lane && (is_pending r.status || is_processing r.status)
    then most - r.attempts
    else 0

unfoldable pub potential : ℕ → ℕ → List Row → ℕ
potential lane most [] = 0
potential lane most (r ∷ rows) = weight lane most r + potential lane most rows

module _ (lane most : ℕ) where
  update-le :
      (P : Row → Type 0) (p : Row → Bool) (f : Row → Row) (rows : List Row)
      → ((r : Row) → P r → p r ≡ true → weight lane most (f r) ≤ weight lane most r)
      → All P rows
      → potential lane most (update_where p f rows) ≤ potential lane most rows
  unfolding potential update_where
  update-le P p f [] g h = omega arith
  update-le P p f (r ∷ rows) g h =
      let rest = update-le P p f rows g h.1 in
      elim (Bool-cases (p r)) [
        | inl e ↦ rw e (omega (arith, g r h.0 e, rest))
        | inr e ↦ rw e (omega (arith, rest))
      ]

  -- The same, where each of the rows of an id has one attempt less.
  update-lt :
      (P : Row → Type 0) (it : Row) (f : Row → Row) (rows : List Row)
      → ((r : Row) → P r → of_queue it r ≡ true → weight lane most (f r) + 1 ≤ weight lane most r)
      → All P rows
      → potential lane most (update_where (of_queue it) f rows) + count_key it.queue_id rows
        ≤ potential lane most rows
  unfolding potential update_where count_key
  update-lt P it f [] g h = omega arith
  update-lt P it f (r ∷ rows) g h =
      let rest = update-lt P it f rows g h.1 in
      elim (Bool-cases (of_queue it r)) [
        | inl e ↦ rw e (omega (arith, g r h.0 e, rest))
        | inr e ↦ rw e (omega (arith, rest))
      ]

  mark-weight :
      (it : Row) (todo running : List Row) (r : Row)
      → Good most (it ∷ todo) running r
      → of_queue it r ≡ true
      → weight lane most (marked r) ≤ weight lane most r
  unfolding todo_ok
  mark-weight it todo running r h e = ground arith

  mark-weight-lt :
      (it : Row) (todo running : List Row)
      → it.lane ≡ lane
      → (r : Row) → Good most (it ∷ todo) running r
      → of_queue it r ≡ true
      → weight lane most (marked r) + 1 ≤ weight lane most r
  unfolding todo_ok
  mark-weight-lt it todo running e r h k = ground arith

  pub mark-le :
      (it : Row) (todo running rows : List Row)
      → All (Good most (it ∷ todo) running) rows
      → potential lane most (mark_processing it rows) ≤ potential lane most rows
  unfolding mark_processing
  mark-le it todo running rows h =
      update-le (Good most (it ∷ todo) running) (of_queue it) marked rows
        (mark-weight it todo running) h

  pub mark-lt :
      (it : Row) (todo running rows : List Row)
      → it.lane ≡ lane
      → All (Good most (it ∷ todo) running) rows
      → potential lane most (mark_processing it rows) + count_key it.queue_id rows
        ≤ potential lane most rows
  unfolding mark_processing
  mark-lt it todo running rows e h =
      update-lt (Good most (it ∷ todo) running) it marked rows (mark-weight-lt it todo running e) h

  message-same :
      (it : Row) (f : Row → Row) (rows : List Row)
      → ((r : Row) → weight lane most (f r) ≡ weight lane most r)
      → potential lane most (update_where (of_message it) f rows) ≡ potential lane most rows
  unfolding potential update_where
  message-same it f [] g = refl
  message-same it f (r ∷ rows) g =
      let rest = message-same it f rows g in
      elim (Bool-cases (of_message it r)) [
        | inl e ↦ rw e (omega (arith, g r, rest))
        | inr e ↦ rw e (omega (arith, rest))
      ]

module _ (lane : ℕ) (cfg : Config) (it : Row) (todo others : List Row) where
  abbrev most : ℕ
  most = allowed_attempts cfg

  end-weight :
      (r : Row)
      → Before cfg it todo others r
      → of_queue it r ≡ true
      → (weight lane most (queue_failed error [] r) ≤ weight lane most r)
        × (weight lane most (queue_failed pending [] r) ≤ weight lane most r)
  unfolding running_ok
  end-weight r h e = ground arith

  failed-le :
      (text : Text) (rows : List Row)
      → All (Before cfg it todo others) rows
      → potential lane most (fail_rows cfg it text rows) ≤ potential lane most rows
  unfolding fail_rows
  failed-le text rows h = ground (
    arith,
    update-le lane most (Before cfg it todo others) (of_queue it) (queue_failed error text) rows
        (λ r g e. (end-weight r g e).0) h,
    update-le lane most (Before cfg it todo others) (of_queue it) (queue_failed pending text) rows
        (λ r g e. (end-weight r g e).1) h,
    message-same lane most it (message_failed text)
        (update_where (of_queue it) (queue_failed error text) rows) (λ r. refl),
  )

  done-le :
      (now : ℕ) (rows : List Row)
      → All (Before cfg it todo others) rows
      → potential lane most (done_rows it now rows) ≤ potential lane most rows
  unfolding done_rows
  done-le now rows h = omega (
    arith,
    update-le lane most (Before cfg it todo others) (of_queue it) (queue_done now) rows
        (λ r g e. (end-weight r g e).0) h,
    message-same lane most it (message_done now) (update_where (of_queue it) (queue_done now) rows)
        (λ r. refl),
  )

  applied-same :
      (result : EnrichResult) (rows : List Row)
      → potential lane most (apply_result it result rows) ≡ potential lane most rows
  applied-same result rows =
      apply_result-same (potential lane most) it result rows
        (λ q. message-same lane most it (with_vector result.embedding) q (λ r. refl))
        (λ q. message-same lane most it (with_tags result) q (λ r. refl))

module _ (lane : ℕ) (w : World) (it : Row) (todo others : List Row) where
  pub settle-le :
      (a : Answer EnrichResult) (p : Pipeline)
      → All (Before w.cfg it todo others) p.rows
      → potential lane (allowed_attempts w.cfg) (settle w it a p).1.rows
        ≤ potential lane (allowed_attempts w.cfg) p.rows
  unfolding settle fail succeed back_off todo_ok running_ok
  settle-le (refused e) p h = elim (Bool-cases e.transient) [
    | inl t ↦ rw t (failed-le lane w.cfg it todo others e.text p.rows h)
    | inr t ↦ rw t (failed-le lane w.cfg it todo others e.text p.rows h)
  ]
  settle-le (answered result) p h =
      let kept =
        apply_result-keeps it (Before w.cfg it todo others) result p.rows (λ r g. g) (λ r g. g) h in
      omega (
        arith,
        done-le lane w.cfg it todo others (w.clock p.calls / second) (apply_result it result p.rows)
            kept,
        applied-same lane w.cfg it todo others result p.rows,
      )
