-- ===== src/Enrichment/Groups.antt =====
-- What every step of a group keeps, its end keeps, whatever the schedule.
use imap_mcp.Prelude.{
  ℕ, zero, suc, ◌-◌, ◌≡◌, refl, ◌∙◌, List, [], ◌∷◌, none, some, length, arith, Option-cases, inl,
  inr,
}
use imap_mcp.Enrichment.{Row, World, Pipeline}
use imap_mcp.Enrichment.Batch.{
  Turn, start, finish, Group, start_next, pick, finish_at, end_item, interleave, start_all,
  finish_all, group_of, process_group,
}

length-nil : (xs : List Row) → length xs ≡ 0 → xs ≡ []
length-nil [] e = refl
length-nil (x ∷ xs) e = absurd (omega arith)

start_next-todo : (g : Group) → length (start_next g).todo ≡ length g.todo - 1
unfolding start_next
start_next-todo g = ground arith

start_all-todo : (n : ℕ) (g : Group) → length (start_all n g).todo ≡ length g.todo - n
unfolding start_all
start_all-todo zero g = omega arith
start_all-todo (suc n) g = omega (arith, start_all-todo n (start_next g), start_next-todo g)

length-pick :
    (n : ℕ) (items : List Row) (it : Row) (others : List Row)
    → pick n items ≡ some (it, others)
    → length items ≡ suc (length others)
unfolding pick
length-pick n [] it others e = cc
length-pick zero (x ∷ items) it others e = ground arith
length-pick (suc n) (x ∷ items) it others e = elim (Option-cases (pick n items)) [
  | inl missing ↦ ground arith
  | inr ((q, rest), found) ↦ ground (arith, length-pick n items q rest found)
]

module _ (w : World) where
  finish_at-lists :
      (g : Group)
      → (length (finish_at w 0 g).running ≡ length g.running - 1)
        × ((finish_at w 0 g).todo ≡ g.todo)
  unfolding finish_at end_item pick
  finish_at-lists g = lists g.todo g.running g.pipeline g.ok
    where
      lists :
          (todo running : List Row) (p : Pipeline) (ok : ℕ)
          → let g : Group = record { todo = todo; running = running; pipeline = p; ok = ok } in
            (length (finish_at w 0 g).running ≡ length g.running - 1)
            × ((finish_at w 0 g).todo ≡ g.todo)
      lists todo [] p ok = (omega arith, refl)
      lists todo (it ∷ running) p ok = (omega arith, refl)

  pub finish_at-none : (n : ℕ) (g : Group) → pick n g.running ≡ none → finish_at w n g ≡ g
  unfolding finish_at
  finish_at-none n g e = rw (e, finish_at) refl

  pub finish_at-some :
      (n : ℕ) (g : Group) (it : Row) (others : List Row)
      → pick n g.running ≡ some (it, others)
      → finish_at w n g ≡ end_item w it (record g { running = others })
  unfolding finish_at
  finish_at-some n g it others e = rw (e, finish_at) refl

  finish_all-todo : (n : ℕ) (g : Group) → (finish_all w n g).todo ≡ g.todo
  unfolding finish_all
  finish_all-todo zero g = refl
  finish_all-todo (suc n) g = finish_all-todo n (finish_at w 0 g) ∙ (finish_at-lists g).1

  finish_all-running :
      (n : ℕ) (g : Group) → length (finish_all w n g).running ≡ length g.running - n
  unfolding finish_all
  finish_all-running zero g = omega arith
  finish_all-running (suc n) g =
      omega (arith, finish_all-running n (finish_at w 0 g), (finish_at-lists g).0)

module _ (w : World) (I : Group → Type 0) (starts : (g : Group) → I g → I (start_next g))
    (ends : (n : ℕ) (g : Group) → I g → I (finish_at w n g)) where
  interleave-keeps : (turns : List Turn) (g : Group) → I g → I (interleave w turns g)
  unfolding interleave
  interleave-keeps [] g h = h
  interleave-keeps (start ∷ turns) g h = interleave-keeps turns (start_next g) (starts g h)
  interleave-keeps (finish n ∷ turns) g h = interleave-keeps turns (finish_at w n g) (ends n g h)

  start_all-keeps : (n : ℕ) (g : Group) → I g → I (start_all n g)
  unfolding start_all
  start_all-keeps zero g h = h
  start_all-keeps (suc n) g h = start_all-keeps n (start_next g) (starts g h)

  finish_all-keeps : (n : ℕ) (g : Group) → I g → I (finish_all w n g)
  unfolding finish_all
  finish_all-keeps zero g h = h
  finish_all-keeps (suc n) g h = finish_all-keeps n (finish_at w 0 g) (ends 0 g h)

  -- The group at its end: no item waits or runs.
  pub process_group-ends :
      (turns : List Turn) (items : List Row) (p : Pipeline)
      → I (group_of items p)
      → (g : Group) × I g
        × (g.todo ≡ [])
        × (g.running ≡ [])
        × (process_group w turns items p ≡ (g.ok, g.pipeline))
  unfolding process_group
  process_group-ends turns items p h =
      let g : Group = interleave w turns (group_of items p) in
      let s : Group = start_all (length g.todo) g in
      let e : Group = finish_all w (length s.running) s in
      (
        e,
        finish_all-keeps (length s.running) s
            (start_all-keeps (length g.todo) g (interleave-keeps turns (group_of items p) h)),
        finish_all-todo w (length s.running) s
            ∙ length-nil s.todo (omega (arith, start_all-todo (length g.todo) g)),
        length-nil e.running (omega (arith, finish_all-running w (length s.running) s)),
        refl,
      )
