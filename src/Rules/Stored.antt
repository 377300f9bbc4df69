-- ===== src/Rules/Stored.antt =====
-- The stored rules, whatever operations have led to them.
use imap_mcp.Prelude.{
  ℕ, ◌+◌, ◌≡◌, refl, ◌∙◌, true, [], ◌∷◌, All, All-append, ◌==◌, Bool-cases, Option-cases, inl, inr,
}
use imap_mcp.Rules.{
  Rule, Table, validate_rule, has_name, has_other, has_id, with_priority, create, edited,
  create_rule, update_rule, delete_rule, increment_run,
}
use imap_mcp.Rules.Keys.{
  names_ok, ids_ok, Valid, names_ok-snoc, ids_ok-snoc, ids_ok-update, All-update_at,
  names_ok-update, names_ok-kept, names_ok-without, ids_ok-without, All-without,
}

-- Every rule is one that ValidateRule accepts, no two have a name or an id in common, and the next id is
-- above them all.
pub record IsValid (t : Table) : Type 0 where
  pub valid : All Valid t.rules
  pub names : names_ok t.rules ≡ true
  pub ids : ids_ok t.next_id t.rules ≡ true

abbrev pub stored : Rule → ℕ → Rule
stored r id = record (with_priority r) { id = id; run_count = 0 }

stored-Valid : (r : Rule) (id : ℕ) → Valid r → Valid (stored r id)
unfolding validate_rule
stored-Valid r id h = h

edited-Valid : (r q : Rule) → Valid r → Valid (edited r q)
unfolding validate_rule
edited-Valid r q h = h

run-Valid : (n : ℕ) (r : Rule) → Valid r → Valid (record r { run_count = r.run_count + n })
unfolding validate_rule
run-Valid n r h = h

create_rule-IsValid : (r : Rule) (t : Table) → IsValid t → IsValid (create_rule r t).1
unfolding create_rule create
create_rule-IsValid r t h = elim (Option-cases (validate_rule r)) [
  | inr (e, p) ↦ rw (p, create_rule) h
  | inl ok ↦ elim (Bool-cases (has_name r.name t.rules)) [
    | inl used ↦ rw (ok, used, create_rule) h
    | inr free ↦
        rw (ok, free, create_rule)
          (record {
            valid =
                All-append Valid t.rules (stored r t.next_id ∷ []) h.valid
                  (stored-Valid r t.next_id ok, tt);
            names = names_ok-snoc t.rules (stored r t.next_id) h.names free;
            ids = ids_ok-snoc t.next_id t.rules (stored r t.next_id) refl h.ids;
          })
  ]
]

update_rule-IsValid : (r : Rule) (t : Table) → IsValid t → IsValid (update_rule r t).1
unfolding update_rule
update_rule-IsValid r t h = elim (Option-cases (validate_rule r)) [
  | inr (e, p) ↦ rw (p, update_rule) h
  | inl ok ↦ elim (Bool-cases (has_id r.id t.rules)) [
    | inr gone ↦ rw (ok, gone, update_rule) h
    | inl there ↦ elim (Bool-cases (has_other r.id r.name t.rules)) [
      | inl used ↦ rw (ok, there, used, update_rule) h
      | inr free ↦
          rw (ok, there, free, update_rule)
            (record {
              valid = All-update_at r.id (edited r) t.rules (λ q v. edited-Valid r q ok) h.valid;
              names = names_ok-update t.next_id r.id r t.rules h.names h.ids free;
              ids = ids_ok-update t.next_id r.id (edited r) t.rules (λ q. refl) ∙ h.ids;
            })
    ]
  ]
]

delete_rule-IsValid : (id : ℕ) (t : Table) → IsValid t → IsValid (delete_rule id t).1
unfolding delete_rule
delete_rule-IsValid id t h = elim (Bool-cases (id == 0)) [
  | inl none_given ↦ rw (none_given, delete_rule) h
  | inr given ↦ elim (Bool-cases (has_id id t.rules)) [
    | inr gone ↦ rw (given, gone, delete_rule) h
    | inl there ↦
        rw (given, there, delete_rule)
          (record {
            valid = All-without id t.rules h.valid;
            names = names_ok-without id t.rules h.names;
            ids = ids_ok-without t.next_id id t.rules h.ids;
          })
  ]
]

increment_run-IsValid : (id n : ℕ) (t : Table) → IsValid t → IsValid (increment_run id n t)
unfolding increment_run
increment_run-IsValid id n t h = record {
  valid = All-update_at id _ t.rules (run-Valid n) h.valid;
  names = names_ok-kept id _ t.rules (λ q. refl) ∙ h.names;
  ids = ids_ok-update t.next_id id _ t.rules (λ q. refl) ∙ h.ids;
}

-- The operations of the service, in any order, whether they are accepted or refused, and the runs.
pub data Reachable : Table → Type 0 where
  empty : Reachable (record { rules = []; next_id = 1 })
  created : {t : Table} → Reachable t → (r : Rule) → Reachable (create_rule r t).1
  updated : {t : Table} → Reachable t → (r : Rule) → Reachable (update_rule r t).1
  deleted : {t : Table} → Reachable t → (id : ℕ) → Reachable (delete_rule id t).1
  ran : {t : Table} → Reachable t → (id n : ℕ) → Reachable (increment_run id n t)

-- Whatever operations have led to the stored rules: each is one that ValidateRule accepts, no two share
-- a name or an id, and the next id is above them all.
pub reachable-IsValid : {t : Table} → Reachable t → IsValid t
unfolding names_ok ids_ok
reachable-IsValid empty = record { valid = tt; names = refl; ids = refl }
reachable-IsValid (created {t} h r) = create_rule-IsValid r t (reachable-IsValid h)
reachable-IsValid (updated {t} h r) = update_rule-IsValid r t (reachable-IsValid h)
reachable-IsValid (deleted {t} h id) = delete_rule-IsValid id t (reachable-IsValid h)
reachable-IsValid (ran {t} h id n) = increment_run-IsValid id n t (reachable-IsValid h)
