-- ===== src/Enrichment/Progress.antt =====
-- What a batch takes of the attempts that the rows of a lane have left.
use mathlib.Core.Path.{subst}
use imap_mcp.Prelude.{
  ℕ, ◌+◌, ◌≤◌, ◌≡◌, refl, sym, ap, ◌∙◌, List, [], ◌∷◌, ◌++◌, All, All-map, length, arith,
  Option-cases, inl, inr,
}
use imap_mcp.Enrichment.{Row, World, Pipeline, enrich, handle, of_queue}
use imap_mcp.Enrichment.Batch.{
  Turn, Group, start_next, finish_at, end_item, pick, mark_processing, marked, process_group,
}
use imap_mcp.Enrichment.Invariant.{Good, allowed_attempts, count_key}
use imap_mcp.Enrichment.Groups.{finish_at-none, finish_at-some, process_group-ends}
use imap_mcp.Enrichment.Keys.{count_key-update, finish_at-kept}
use imap_mcp.Enrichment.Potential.{potential, mark-le, mark-lt, settle-le}
use imap_mcp.Enrichment.Settled.{GoodGroup, start_next-Good, chosen-Good, finish_at-Good}

module _ (w : World) (lane : ℕ) (later : List Row) where
  abbrev most : ℕ
  most = allowed_attempts w.cfg

  abbrev left : Group → ℕ
  left g = potential lane most g.pipeline.rows

  finish_at-left : (i : ℕ) (g : Group) → GoodGroup w later g → left (finish_at w i g) ≤ left g
  unfolding GoodGroup end_item handle
  finish_at-left i g h = elim (Option-cases (pick i g.running)) [
    | inl e ↦ rw (finish_at-none w i g e) (omega arith)
    | inr ((it, others), e) ↦
        let before =
          All-map _ _ g.pipeline.rows
            (chosen-Good w later i (g.todo ++ later) g.running it others e) h in
        rw (finish_at-some w i g it others e) (
          settle-le lane w it (g.todo ++ later) others (enrich w g.pipeline.calls it)
            (record g.pipeline { calls = g.pipeline.calls + 1 }) before)
  ]

  module _ (total : ℕ) where
    record Bounded (g : Group) : Type 0 where
      good : GoodGroup w later g
      spent : left g ≤ total

    start_next-Bounded : (g : Group) → Bounded g → Bounded (start_next g)
    unfolding start_next GoodGroup
    start_next-Bounded g h = record {
      good = start_next-Good w later g h.good;
      spent = starts g.todo g.running g.pipeline g.ok h.good h.spent;
    }
      where
        starts :
            (todo running : List Row) (p : Pipeline) (ok : ℕ)
            → All (Good most (todo ++ later) running) p.rows
            → potential lane most p.rows ≤ total
            → left (start_next (record { todo = todo; running = running; pipeline = p; ok = ok }))
              ≤ total
        starts [] running p ok good spent = spent
        starts (it ∷ todo) running p ok good spent =
            omega (arith, mark-le lane most it (todo ++ later) running p.rows good)

    finish_at-Bounded : (i : ℕ) (g : Group) → Bounded g → Bounded (finish_at w i g)
    finish_at-Bounded i g h = record {
      good = finish_at-Good w later i g h.good;
      spent = omega (arith, finish_at-left i g h.good, h.spent);
    }

  -- No group adds to the attempts that are left.
  pub process_group-le :
      (turns : List Turn) (items : List Row) (p : Pipeline)
      → All (Good most (items ++ later) []) p.rows
      → potential lane most (process_group w turns items p).1.rows ≤ potential lane most p.rows
  unfolding GoodGroup
  process_group-le turns items p h =
      let total : ℕ = potential lane most p.rows in
      let (g, b, no_todo, no_running, e) =
        process_group-ends w (Bounded total) (start_next-Bounded total) (finish_at-Bounded total)
          turns items p (record { good = h; spent = omega arith }) in
      rw e b.spent

  module _ (rows : List Row) (n : ℕ) where
    abbrev Present : Row → Type 0
    Present it = (it.lane ≡ lane) × (1 ≤ count_key it.queue_id rows)

    -- The waiting items have their rows, and the others have taken an attempt each.
    record Served (g : Group) : Type 0 where
      good : GoodGroup w later g
      same : (k : ℕ) → count_key k g.pipeline.rows ≡ count_key k rows
      present : All Present g.todo
      spent : left g + n ≤ potential lane most rows + length g.todo

    start_next-Served : (g : Group) → Served g → Served (start_next g)
    unfolding start_next GoodGroup mark_processing
    start_next-Served g h = starts g.todo g.running g.pipeline g.ok h.good h.same h.present h.spent
      where
        starts :
            (todo running : List Row) (p : Pipeline) (ok : ℕ)
            → All (Good most (todo ++ later) running) p.rows
            → ((k : ℕ) → count_key k p.rows ≡ count_key k rows)
            → All Present todo
            → potential lane most p.rows + n ≤ potential lane most rows + length todo
            → Served (start_next (record { todo = todo; running = running; pipeline = p; ok = ok }))
        starts [] running p ok good same present spent = record {
          good = good;
          same = same;
          present = present;
          spent = spent;
        }
        starts (it ∷ todo) running p ok good same present spent = record {
          good =
              start_next-Good w later
                (record { todo = it ∷ todo; running = running; pipeline = p; ok = ok }) good;
          same = λ k. count_key-update k (of_queue it) marked p.rows (λ r. refl) ∙ same k;
          present = present.1;
          spent = omega (
            arith,
            mark-lt lane most it (todo ++ later) running p.rows present.0.0 good,
            same it.queue_id,
            present.0.1,
          );
        }

    finish_at-todo : (i : ℕ) (g : Group) → (finish_at w i g).todo ≡ g.todo
    unfolding end_item
    finish_at-todo i g = elim (Option-cases (pick i g.running)) [
      | inl e ↦ rw (finish_at-none w i g e) refl
      | inr ((it, others), e) ↦ rw (finish_at-some w i g it others e) refl
    ]

    finish_at-Served : (i : ℕ) (g : Group) → Served g → Served (finish_at w i g)
    finish_at-Served i g h = record {
      good = finish_at-Good w later i g h.good;
      same = λ k. finish_at-kept k w i g ∙ h.same k;
      present = subst (All Present) (sym (finish_at-todo i g)) h.present;
      spent = omega (arith, finish_at-left i g h.good, h.spent, ap length (finish_at-todo i g));
    }

  -- The group of a lane takes an attempt for each of its items.
  pub process_group-lt :
      (turns : List Turn) (items : List Row) (p : Pipeline)
      → All (Good most (items ++ later) []) p.rows
      → All (Present p.rows (length items)) items
      → potential lane most (process_group w turns items p).1.rows + length items
        ≤ potential lane most p.rows
  unfolding GoodGroup
  process_group-lt turns items p h present =
      let n : ℕ = length items in
      let (g, s, no_todo, no_running, e) =
        process_group-ends w (Served p.rows n) (start_next-Served p.rows n)
          (finish_at-Served p.rows n) turns items p
          (record { good = h; same = λ k. refl; present = present; spent = omega arith }) in
      rw e (omega (arith, s.spent, ap length no_todo))
