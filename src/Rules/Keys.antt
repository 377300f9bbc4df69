-- ===== src/Rules/Keys.antt =====
-- The names and the ids of the stored rules, and what an update or a deletion makes of them.
use imap_mcp.Prelude.{
  ℕ, ◌+◌, ◌≡◌, refl, Bool, true, false, not, ◌&&◌, ◌||◌, List, [], ◌∷◌, ◌++◌, none, Text, text_eq,
  All, text_eq_sym, ltb, ◌==◌, arith, Bool-cases, inl, inr,
}
use imap_mcp.Rules.{Rule, validate_rule, has_name, has_other, has_id, update_at, edited, without}

unfoldable pub names_ok : List Rule → Bool
names_ok [] = true
names_ok (r ∷ rules) = not (has_name r.name rules) && names_ok rules

unfoldable pub ids_ok : ℕ → List Rule → Bool
ids_ok next [] = true
ids_ok next (r ∷ rules) = ltb r.id next && (not (has_id r.id rules) && ids_ok next rules)

abbrev pub Valid : Rule → Type 0
Valid r = validate_rule r ≡ none

has_name-append :
    (n : Text) (xs ys : List Rule) → has_name n (xs ++ ys) ≡ (has_name n xs || has_name n ys)
unfolding has_name
has_name-append n [] ys = refl
has_name-append n (x ∷ xs) ys = ground (arith, has_name-append n xs ys)

has_id-append : (n : ℕ) (xs ys : List Rule) → has_id n (xs ++ ys) ≡ (has_id n xs || has_id n ys)
unfolding has_id
has_id-append n [] ys = refl
has_id-append n (x ∷ xs) ys = ground (arith, has_id-append n xs ys)

pub names_ok-snoc :
    (rules : List Rule) (r : Rule)
    → names_ok rules ≡ true
    → has_name r.name rules ≡ false
    → names_ok (rules ++ r ∷ []) ≡ true
unfolding names_ok has_name
names_ok-snoc [] r h n = refl
names_ok-snoc (q ∷ rules) r h n =
    let rest = names_ok-snoc rules r in
    ground (arith, rest, has_name-append q.name rules (r ∷ []), text_eq_sym q.name r.name)

pub has_id-below :
    (next : ℕ) (rules : List Rule) → ids_ok next rules ≡ true → has_id next rules ≡ false
unfolding ids_ok has_id
has_id-below next [] h = refl
has_id-below next (r ∷ rules) h = ground (arith, has_id-below next rules)

pub ids_ok-snoc :
    (next : ℕ) (rules : List Rule) (r : Rule)
    → r.id ≡ next
    → ids_ok next rules ≡ true
    → ids_ok (next + 1) (rules ++ r ∷ []) ≡ true
unfolding ids_ok has_id
ids_ok-snoc next [] r e h = ground arith
ids_ok-snoc next (q ∷ rules) r e h =
    let rest = ids_ok-snoc next rules r e in ground (arith, rest, has_id-append q.id rules (r ∷ []))

has_id-update :
    (n id : ℕ) (f : Rule → Rule) (rules : List Rule)
    → ((r : Rule) → (f r).id ≡ r.id)
    → has_id n (update_at id f rules) ≡ has_id n rules
unfolding has_id update_at
has_id-update n id f [] h = refl
has_id-update n id f (r ∷ rules) h = ground (arith, h r, has_id-update n id f rules h)

pub ids_ok-update :
    (next id : ℕ) (f : Rule → Rule) (rules : List Rule)
    → ((r : Rule) → (f r).id ≡ r.id)
    → ids_ok next (update_at id f rules) ≡ ids_ok next rules
unfolding ids_ok update_at
ids_ok-update next id f [] h = refl
ids_ok-update next id f (r ∷ rules) h =
    ground (arith, h r, has_id-update r.id id f rules h, ids_ok-update next id f rules h)

pub All-update_at :
    (id : ℕ) (f : Rule → Rule) (rules : List Rule)
    → ((r : Rule) → Valid r → Valid (f r))
    → All Valid rules
    → All Valid (update_at id f rules)
unfolding update_at
All-update_at id f [] g h = tt
All-update_at id f (r ∷ rules) g h =
    let rest = All-update_at id f rules g h.1 in
    elim (Bool-cases (r.id == id)) [ inl e ↦ rw e (g r h.0, rest) | inr e ↦ rw e (h.0, rest) ]

update_at-absent :
    (id : ℕ) (f : Rule → Rule) (rules : List Rule)
    → has_id id rules ≡ false
    → update_at id f rules ≡ rules
unfolding has_id update_at
update_at-absent id f [] h = refl
update_at-absent id f (r ∷ rules) h = ground (arith, update_at-absent id f rules)

-- A name of the updated rules is one that was there, or the new one.
has_name-update :
    (n : Text) (id : ℕ) (new : Rule) (rules : List Rule)
    → (not (has_name n (update_at id (edited new) rules))
        || (has_name n rules || text_eq new.name n))
      ≡ true
unfolding has_name update_at
has_name-update n id new [] = refl
has_name-update n id new (r ∷ rules) = ground (arith, has_name-update n id new rules)

has_other-absent :
    (id : ℕ) (n : Text) (rules : List Rule)
    → has_id id rules ≡ false
    → has_other id n rules ≡ has_name n rules
unfolding has_id has_other has_name
has_other-absent id n [] h = refl
has_other-absent id n (r ∷ rules) h = ground (arith, has_other-absent id n rules)

pub names_ok-update :
    (next id : ℕ) (new : Rule) (rules : List Rule)
    → names_ok rules ≡ true
    → ids_ok next rules ≡ true
    → has_other id new.name rules ≡ false
    → names_ok (update_at id (edited new) rules) ≡ true
unfolding names_ok ids_ok has_other update_at
names_ok-update next id new [] n i o = refl
names_ok-update next id new (r ∷ rules) n i o = elim (Bool-cases (r.id == id)) [
  | inl same ↦
      let e : r.id ≡ id = ground arith in
      let gone : has_id id rules ≡ false = rw (← e) (ground arith) in
      let tail : update_at id (edited new) rules ≡ rules =
        update_at-absent id (edited new) rules gone in
      rw (same, tail) (ground (arith, has_other-absent id new.name rules gone))
  | inr differ ↦
      let rest = names_ok-update next id new rules in
      rw differ
        (ground (arith, rest, has_name-update r.name id new rules, text_eq_sym r.name new.name))
]

has_name-without :
    (n : Text) (id : ℕ) (rules : List Rule)
    → (not (has_name n (without id rules)) || has_name n rules) ≡ true
unfolding has_name without
has_name-without n id [] = refl
has_name-without n id (r ∷ rules) = ground (arith, has_name-without n id rules)

has_id-without :
    (n id : ℕ) (rules : List Rule) → (not (has_id n (without id rules)) || has_id n rules) ≡ true
unfolding has_id without
has_id-without n id [] = refl
has_id-without n id (r ∷ rules) = ground (arith, has_id-without n id rules)

pub names_ok-without :
    (id : ℕ) (rules : List Rule) → names_ok rules ≡ true → names_ok (without id rules) ≡ true
unfolding names_ok without
names_ok-without id [] h = refl
names_ok-without id (r ∷ rules) h =
    ground (arith, names_ok-without id rules, has_name-without r.name id rules)

pub ids_ok-without :
    (next id : ℕ) (rules : List Rule)
    → ids_ok next rules ≡ true
    → ids_ok next (without id rules) ≡ true
unfolding ids_ok without
ids_ok-without next id [] h = refl
ids_ok-without next id (r ∷ rules) h =
    ground (arith, ids_ok-without next id rules, has_id-without r.id id rules)

pub All-without : (id : ℕ) (rules : List Rule) → All Valid rules → All Valid (without id rules)
unfolding without
All-without id [] h = tt
All-without id (r ∷ rules) h =
    let rest = All-without id rules h.1 in
    elim (Bool-cases (r.id == id)) [ inl e ↦ rw e rest | inr e ↦ rw e (h.0, rest) ]

-- An update that keeps the names keeps what is said of them.
has_name-kept :
    (n : Text) (id : ℕ) (f : Rule → Rule) (rules : List Rule)
    → ((r : Rule) → (f r).name ≡ r.name)
    → has_name n (update_at id f rules) ≡ has_name n rules
unfolding has_name update_at
has_name-kept n id f [] h = refl
has_name-kept n id f (r ∷ rules) h = ground (arith, h r, has_name-kept n id f rules h)

pub names_ok-kept :
    (id : ℕ) (f : Rule → Rule) (rules : List Rule)
    → ((r : Rule) → (f r).name ≡ r.name)
    → names_ok (update_at id f rules) ≡ names_ok rules
unfolding names_ok update_at
names_ok-kept id f [] h = refl
names_ok-kept id f (r ∷ rules) h =
    ground (arith, h r, has_name-kept r.name id f rules h, names_ok-kept id f rules h)
