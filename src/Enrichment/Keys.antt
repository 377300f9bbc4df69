-- ===== src/Enrichment/Keys.antt =====
-- Nothing that a batch does changes an id.
use mathlib.Core.Path.{subst}
use imap_mcp.Prelude.{
  ℕ, ◌/◌, ◌≡◌, refl, sym, ◌∙◌, Bool, List, [], ◌∷◌, Text, Option-cases, Bool-cases, inl, inr, arith,
}
use imap_mcp.Enrichment.{
  Row, World, Pipeline, Answer, Config, answered, refused, update_where, apply_result, fail_rows,
  done_rows, fail, succeed, back_off, settle, handle, enrich, second, of_queue, of_message,
  with_vector, with_tags, queue_failed, message_failed, queue_done, message_done, pending, error,
}
use imap_mcp.Enrichment.Tags.{EnrichResult}
use imap_mcp.Enrichment.Batch.{
  Turn, Group, start_next, finish_at, end_item, pick, mark_processing, marked, process_group,
}
use imap_mcp.Enrichment.Invariant.{count_key}
use imap_mcp.Enrichment.Handled.{apply_result-same}
use imap_mcp.Enrichment.Groups.{finish_at-none, finish_at-some, process_group-ends}

module _ (k : ℕ) where
  pub count_key-update :
      (p : Row → Bool) (f : Row → Row) (rows : List Row)
      → ((r : Row) → (f r).queue_id ≡ r.queue_id)
      → count_key k (update_where p f rows) ≡ count_key k rows
  unfolding count_key update_where
  count_key-update p f [] h = refl
  count_key-update p f (r ∷ rows) h = ground (arith, h r, count_key-update p f rows h)

  count_key-apply_result :
      (it : Row) (result : EnrichResult) (rows : List Row)
      → count_key k (apply_result it result rows) ≡ count_key k rows
  count_key-apply_result it result rows =
      apply_result-same (count_key k) it result rows
        (λ q. count_key-update (of_message it) (with_vector result.embedding) q (λ r. refl))
        (λ q. count_key-update (of_message it) (with_tags result) q (λ r. refl))

  count_key-done_rows :
      (it : Row) (now : ℕ) (rows : List Row)
      → count_key k (done_rows it now rows) ≡ count_key k rows
  unfolding done_rows
  count_key-done_rows it now rows =
      count_key-update (of_message it) (message_done now) _ (λ r. refl)
      ∙ count_key-update (of_queue it) (queue_done now) rows (λ r. refl)

  count_key-fail_rows :
      (cfg : Config) (it : Row) (text : Text) (rows : List Row)
      → count_key k (fail_rows cfg it text rows) ≡ count_key k rows
  unfolding fail_rows
  count_key-fail_rows cfg it text rows = ground (
    arith,
    count_key-update (of_queue it) (queue_failed error text) rows (λ r. refl),
    count_key-update (of_queue it) (queue_failed pending text) rows (λ r. refl),
    count_key-update (of_message it) (message_failed text)
        (update_where (of_queue it) (queue_failed error text) rows) (λ r. refl),
  )

  pub count_key-settle :
      (w : World) (it : Row) (a : Answer EnrichResult) (p : Pipeline)
      → count_key k (settle w it a p).1.rows ≡ count_key k p.rows
  unfolding settle fail succeed back_off
  count_key-settle w it (refused e) p = elim (Bool-cases e.transient) [
    | inl t ↦ rw t (count_key-fail_rows w.cfg it e.text p.rows)
    | inr t ↦ rw t (count_key-fail_rows w.cfg it e.text p.rows)
  ]
  count_key-settle w it (answered result) p =
      count_key-done_rows it (w.clock p.calls / second) (apply_result it result p.rows)
      ∙ count_key-apply_result it result p.rows

  pub finish_at-kept :
      (w : World) (i : ℕ) (g : Group)
      → count_key k (finish_at w i g).pipeline.rows ≡ count_key k g.pipeline.rows
  unfolding end_item handle
  finish_at-kept w i g = elim (Option-cases (pick i g.running)) [
    | inl e ↦ rw (finish_at-none w i g e) refl
    | inr ((it, others), e) ↦
        rw (finish_at-some w i g it others e)
          (count_key-settle w it (enrich w g.pipeline.calls it) _)
  ]

  module _ (w : World) (n : ℕ) where
    Kept : Group → Type 0
    Kept g = count_key k g.pipeline.rows ≡ n

    start_next-Kept : (g : Group) → Kept g → Kept (start_next g)
    unfolding Kept start_next mark_processing
    start_next-Kept g h = starts g.todo g.running g.pipeline g.ok h
      where
        starts :
            (todo running : List Row) (p : Pipeline) (ok : ℕ)
            → count_key k p.rows ≡ n
            → Kept (start_next (record { todo = todo; running = running; pipeline = p; ok = ok }))
        starts [] running p ok h = h
        starts (it ∷ todo) running p ok h =
            count_key-update (of_queue it) marked p.rows (λ r. refl) ∙ h

    finish_at-Kept : (i : ℕ) (g : Group) → Kept g → Kept (finish_at w i g)
    unfolding Kept
    finish_at-Kept i g h = finish_at-kept w i g ∙ h

    process_group-kept :
        (turns : List Turn) (items : List Row) (p : Pipeline)
        → count_key k p.rows ≡ n
        → count_key k (process_group w turns items p).1.rows ≡ n
    unfolding Kept
    process_group-kept turns items p h =
        let (g, kept, no_todo, no_running, e) =
          process_group-ends w Kept start_next-Kept finish_at-Kept turns items p h in
        subst (λ q. count_key k q.1.rows ≡ n) (sym e) kept

  pub count_key-process_group :
      (w : World) (turns : List Turn) (items : List Row) (p : Pipeline)
      → count_key k (process_group w turns items p).1.rows ≡ count_key k p.rows
  count_key-process_group w turns items p = process_group-kept w _ turns items p refl
