-- ===== src/Query/Selected.antt =====
-- The columns that a compiled query returns.
use mathlib.Core.List.{append_assoc, append-nil}
use imap_mcp.Prelude.{
  ◌≡◌, refl, ap, ◌∙◌, sym, Bool, true, false, List, [], ◌∷◌, ◌++◌, Text, contains, distinct,
  distinct-snoc, arith, Bool-cases, Option-cases, inl, inr,
}
use imap_mcp.Query.Views.{View, field_in}
use imap_mcp.Query.Values.{ok}
use imap_mcp.Query.Columns.{
  Aggregate, Column, names_of, add_column, field_column, field_columns, aggregate_columns,
  compile_agg,
}
use imap_mcp.Query.Marks.{Checked-cases}

names_of-append : (cs ds : List Column) → names_of (cs ++ ds) ≡ names_of cs ++ names_of ds
names_of-append [] ds = refl
names_of-append (c ∷ cs) ds = ap (λ r. c.name ∷ r) (names_of-append cs ds)

add_column-ok :
    (cols more : List Column) (col : Column)
    → add_column cols col ≡ ok more
    → (names_of more ≡ names_of cols ++ col.name ∷ []) × (contains (names_of cols) col.name ≡ false)
unfolding add_column
add_column-ok cols more col e = elim (Bool-cases (contains (names_of cols) col.name)) [
  | inl twice ↦ absurd (ground arith)
  | inr once ↦
      let e' : cols ++ col ∷ [] ≡ more = ground arith in
      (rw (← e') (names_of-append cols (col ∷ [])), once)
]

field_column-name :
    (grouped : Bool) (v : View) (name : Text) (col : Column)
    → field_column grouped v name ≡ ok col
    → col.name ≡ name
unfolding field_column
field_column-name grouped v name col e = elim (Option-cases (field_in v.fields name)) [
  | inl missing ↦ absurd (ground arith)
  | inr (f, found) ↦ ground arith
]

-- The columns are named as they were asked for, in that order.
pub field_columns-names :
    (grouped : Bool) (v : View) (names : List Text) (cols out : List Column)
    → field_columns grouped v names cols ≡ ok out
    → names_of out ≡ names_of cols ++ names
unfolding field_columns
field_columns-names grouped v [] cols out e =
    let e' : cols ≡ out = ground arith in rw (← e') (sym (append-nil (names_of cols)))
field_columns-names grouped v (name ∷ names) cols out e =
    elim (Checked-cases (field_column grouped v name)) [
      | inr (x, bad) ↦ absurd (ground arith)
      | inl (col, got) ↦ elim (Checked-cases (add_column cols col)) [
        | inr (x, bad) ↦ absurd (ground arith)
        | inl (more, added) ↦
            let named = (add_column-ok cols more col added).0 in
            field_columns-names grouped v names more out (ground arith)
            ∙ rw (named, field_column-name grouped v name col got)
                (append_assoc (names_of cols) (name ∷ []) names)
      ]
    ]

pub field_columns-distinct :
    (grouped : Bool) (v : View) (names : List Text) (cols out : List Column)
    → distinct (names_of cols) ≡ true
    → field_columns grouped v names cols ≡ ok out
    → distinct (names_of out) ≡ true
unfolding field_columns
field_columns-distinct grouped v [] cols out h e = let e' : cols ≡ out = ground arith in rw (← e') h
field_columns-distinct grouped v (name ∷ names) cols out h e =
    elim (Checked-cases (field_column grouped v name)) [
      | inr (x, bad) ↦ absurd (ground arith)
      | inl (col, got) ↦ elim (Checked-cases (add_column cols col)) [
        | inr (x, bad) ↦ absurd (ground arith)
        | inl (more, added) ↦
            let (named, once) = add_column-ok cols more col added in
            field_columns-distinct grouped v names more out
              (rw named (ground (arith, distinct-snoc (names_of cols) col.name, h, once)))
              (ground arith)
      ]
    ]

pub aggregate_columns-distinct :
    (v : View) (aggs : List Aggregate) (cols out : List Column)
    → distinct (names_of cols) ≡ true
    → aggregate_columns v aggs cols ≡ ok out
    → distinct (names_of out) ≡ true
unfolding aggregate_columns
aggregate_columns-distinct v [] cols out h e = let e' : cols ≡ out = ground arith in rw (← e') h
aggregate_columns-distinct v (a ∷ aggs) cols out h e = elim (Checked-cases (compile_agg v a)) [
  | inr (x, bad) ↦ absurd (ground arith)
  | inl (col, got) ↦ elim (Checked-cases (add_column cols col)) [
    | inr (x, bad) ↦ absurd (ground arith)
    | inl (more, added) ↦
        let (named, once) = add_column-ok cols more col added in
        aggregate_columns-distinct v aggs more out
          (rw named (ground (arith, distinct-snoc (names_of cols) col.name, h, once)))
          (ground arith)
  ]
]
