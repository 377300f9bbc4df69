-- ===== src/Query/ColumnMarks.antt =====
-- The placeholders of the expressions of the columns.
use imap_mcp.Prelude.{
  ◌+◌, ◌≡◌, refl, ap, Bool, true, List, [], ◌∷◌, ◌++◌, Text, bytes, text_eq, text_eq_iff, contains,
  ◌==◌, arith, Bool-cases, Option-cases, inl, inr,
}
use imap_mcp.Query.{exprs_of}
use imap_mcp.Query.Views.{View, Field, field_in}
use imap_mcp.Query.Values.{Checked, ok, err}
use imap_mcp.Query.Columns.{
  Aggregate, Column, fns, add_column, field_column, field_columns, aggregate_columns,
  aggregate_column, aggregated, compile_agg,
}
use imap_mcp.Query.Marks.{
  marks_in, total_marks, marks_in-append, IsClean, marks_in-field, Checked-cases,
}

total_marks-append : (ss ts : List Text) → total_marks (ss ++ ts) ≡ total_marks ss + total_marks ts
unfolding total_marks
total_marks-append [] ts = omega arith
total_marks-append (s ∷ ss) ts = omega (arith, total_marks-append ss ts)

exprs_of-append : (cs ds : List Column) → exprs_of (cs ++ ds) ≡ exprs_of cs ++ exprs_of ds
exprs_of-append [] ds = refl
exprs_of-append (c ∷ cs) ds = ap (λ r. c.expr ∷ r) (exprs_of-append cs ds)

-- No expression of the columns has a placeholder.
abbrev pub clean_columns : Checked (List Column) → Bool
clean_columns (ok cols) = total_marks (exprs_of cols) == 0
clean_columns (err x) = true

abbrev clean_column : Checked Column → Bool
clean_column (ok c) = marks_in c.expr == 0
clean_column (err x) = true

add_column-clean :
    (cols : List Column) (col : Column)
    → total_marks (exprs_of cols) ≡ 0
    → marks_in col.expr ≡ 0
    → clean_columns (add_column cols col) ≡ true
unfolding add_column total_marks
add_column-clean cols col h k = ground (
  arith,
  total_marks-append (exprs_of cols) (exprs_of (col ∷ [])),
  ap total_marks (exprs_of-append cols (col ∷ [])),
)

marks_in-among :
    (names : List Text) (fn : Text)
    → total_marks names ≡ 0
    → contains names fn ≡ true
    → marks_in fn ≡ 0
unfolding contains total_marks
marks_in-among [] fn h e = absurd (ground arith)
marks_in-among (name ∷ names) fn h e = elim (Bool-cases (text_eq name fn)) [
  | inl this ↦ rw (← (text_eq_iff name fn).0 this) (omega (arith, h))
  | inr next ↦ marks_in-among names fn (omega (arith, h)) (ground arith)
]

aggregate_column-clean :
    (a : Aggregate) (f : Field)
    → marks_in f.expr ≡ 0
    → marks_in a.fn ≡ 0
    → clean_column (aggregate_column a f) ≡ true
unfolding aggregate_column marks_in
aggregate_column-clean a f clean fn_clean =
    let closed = f.expr ++ bytes ")" in
    ground (
      arith,
      clean,
      fn_clean,
      marks_in-append f.expr (bytes ")"),
      marks_in-append a.fn (bytes "(" ++ closed),
      marks_in-append (bytes "count(") closed,
      marks_in-append (bytes "DISTINCT ") closed,
    )

compile_agg-clean : (v : View) (a : Aggregate) → IsClean v → clean_column (compile_agg v a) ≡ true
unfolding compile_agg aggregated marks_in total_marks
compile_agg-clean v a clean = elim (Bool-cases (contains fns a.fn)) [
  | inr unknown ↦ ground arith
  | inl known ↦
      let fn_clean = marks_in-among fns a.fn refl known in
      elim (Option-cases (field_in v.fields a.field)) [
        | inl missing ↦ ground arith
        | inr (f, found) ↦
            ground
              (arith, aggregate_column-clean a f (marks_in-field v a.field f clean found) fn_clean)
      ]
]

field_column-clean :
    (grouped : Bool) (v : View) (name : Text)
    → IsClean v
    → clean_column (field_column grouped v name) ≡ true
unfolding field_column
field_column-clean grouped v name clean = elim (Option-cases (field_in v.fields name)) [
  | inl missing ↦ ground arith
  | inr (f, found) ↦ ground (arith, marks_in-field v name f clean found)
]

pub field_columns-clean :
    (grouped : Bool) (v : View) (names : List Text) (cols : List Column)
    → IsClean v
    → total_marks (exprs_of cols) ≡ 0
    → clean_columns (field_columns grouped v names cols) ≡ true
unfolding field_columns
field_columns-clean grouped v [] cols clean h = ground arith
field_columns-clean grouped v (name ∷ names) cols clean h =
    elim (Checked-cases (field_column grouped v name)) [
      | inr (x, bad) ↦ ground arith
      | inl (col, got) ↦ elim (Checked-cases (add_column cols col)) [
        | inr (x, bad) ↦ ground arith
        | inl (more, added) ↦
            let k : clean_columns (add_column cols col) ≡ true =
              add_column-clean cols col h
                (ground (arith, field_column-clean grouped v name clean)) in
            ground (arith, field_columns-clean grouped v names more clean (ground (arith, k)))
      ]
    ]

pub aggregate_columns-clean :
    (v : View) (aggs : List Aggregate) (cols : List Column)
    → IsClean v
    → total_marks (exprs_of cols) ≡ 0
    → clean_columns (aggregate_columns v aggs cols) ≡ true
unfolding aggregate_columns
aggregate_columns-clean v [] cols clean h = ground arith
aggregate_columns-clean v (a ∷ aggs) cols clean h = elim (Checked-cases (compile_agg v a)) [
  | inr (x, bad) ↦ ground arith
  | inl (col, got) ↦ elim (Checked-cases (add_column cols col)) [
    | inr (x, bad) ↦ ground arith
    | inl (more, added) ↦
        let k : clean_columns (add_column cols col) ≡ true =
          add_column-clean cols col h (ground (arith, compile_agg-clean v a clean)) in
        ground (arith, aggregate_columns-clean v aggs more clean (ground (arith, k)))
  ]
]
