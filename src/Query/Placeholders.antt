-- ===== src/Query/Placeholders.antt =====
-- The placeholders of the statement and its bound arguments, counted.
use imap_mcp.Prelude.{
  ℕ, ◌+◌, ◌≡◌, refl, Bool, true, false, ◌&&◌, List, [], ◌∷◌, ◌++◌, Option, Text, bytes, is_nil,
  length, length-append, ◌==◌, if◌then◌else◌, arith, Option-cases, inl, inr,
}
use imap_mcp.Prelude.Int.{ℤ, pos}
use imap_mcp.Query.{
  limit_of, Order, Query, Compiled, itoa, exprs_of, clause, statement, position, compile_order,
  compile_filters, compile_columns, grouped_columns, plain_columns, compile_view, compile,
  count_all,
}
use imap_mcp.Query.Views.{View, view_in, views}
use imap_mcp.Query.Values.{int_arg, Checked, ok, err}
use imap_mcp.Query.Filters.{join}
use imap_mcp.Query.Columns.{Column, names_of, field_columns, aggregate_columns, default_names}
use imap_mcp.Query.Marks.{
  marks_in, total_marks, marks_in-append, marks_in-join, marks_in-clause, marks_in-itoa, IsClean,
  view_in-IsClean, Checked-cases,
}
use imap_mcp.Query.FilterMarks.{filters-balanced}
use imap_mcp.Query.ColumnMarks.{field_columns-clean, aggregate_columns-clean}

-- The two lists of columns that a statement selects and groups by.
abbrev clean_pair : Checked (List Column × List Column) → Bool
clean_pair (ok r) = total_marks (exprs_of r.0) == 0 && total_marks (exprs_of r.1) == 0
clean_pair (err x) = true

grouped-clean : (v : View) (q : Query) → IsClean v → clean_pair (grouped_columns v q) ≡ true
unfolding grouped_columns total_marks
grouped-clean v q clean = elim (Checked-cases (field_columns true v q.group_by [])) [
  | inr (x, bad) ↦ ground arith
  | inl (group, got) ↦
      let aggs = if is_nil q.aggregate then count_all ∷ [] else q.aggregate in
      let h : total_marks (exprs_of group) ≡ 0 =
        ground (arith, field_columns-clean true v q.group_by [] clean refl) in
      elim (Checked-cases (aggregate_columns v aggs group)) [
        | inr (x, bad) ↦ ground arith
        | inl (cols, more) ↦ ground (arith, aggregate_columns-clean v aggs group clean h)
      ]
]

plain-clean : (v : View) (q : Query) → IsClean v → clean_pair (plain_columns v q) ≡ true
unfolding plain_columns total_marks
plain-clean v q clean =
    let names = if is_nil q.fields then default_names v.fields else q.fields in
    elim (Checked-cases (field_columns false v names [])) [
      | inr (x, bad) ↦ ground arith
      | inl (cols, got) ↦ ground (arith, field_columns-clean false v names [] clean refl)
    ]

compile_columns-clean : (v : View) (q : Query) → IsClean v → clean_pair (compile_columns v q) ≡ true
unfolding compile_columns
compile_columns-clean v q clean = ground (arith, grouped-clean v q clean, plain-clean v q clean)

order-clean :
    (cols : List Column) (os : List Order) (order : List Text)
    → compile_order cols os ≡ ok order
    → total_marks order ≡ 0
unfolding compile_order total_marks marks_in
order-clean cols [] order e = let e' : [] ≡ order = ground arith in rw (← e') refl
order-clean cols (o ∷ os) order e = elim (Option-cases (position o.field (names_of cols))) [
  | inl missing ↦ absurd (ground arith)
  | inr (i, found) ↦ elim (Checked-cases (compile_order cols os)) [
    | inr (x, bad) ↦ absurd (ground arith)
    | inl (rest, more) ↦
        let dir = if o.desc then bytes "DESC" else bytes "ASC" in
        let e' : ((itoa (i + 1) ++ (bytes " " ++ dir)) ∷ rest) ≡ order = ground arith in
        rw (← e') (
          ground (
            arith,
            order-clean cols os rest more,
            marks_in-append (itoa (i + 1)) (bytes " " ++ dir),
            marks_in-itoa (i + 1),
          ))
  ]
]

marks_in-statement :
    (v : View) (sel conditions group order : List Text)
    → marks_in v.from ≡ 0
    → marks_in (statement v sel conditions group order)
      ≡ total_marks sel + total_marks conditions + total_marks group + total_marks order + 2
unfolding statement marks_in
marks_in-statement v sel conditions group order clean =
    let wheres = clause (bytes " WHERE ") (bytes " AND ") conditions in
    let groups = clause (bytes " GROUP BY ") (bytes ", ") group in
    let orders = clause (bytes " ORDER BY ") (bytes ", ") order in
    let t3 = orders ++ bytes " LIMIT ? OFFSET ?" in
    let t2 = groups ++ t3 in
    let t1 = wheres ++ t2 in
    omega (
      arith,
      clean,
      marks_in-append (bytes "SELECT ")
          (join (bytes ", ") sel ++ (bytes " FROM " ++ (v.from ++ t1))),
      marks_in-append (join (bytes ", ") sel) (bytes " FROM " ++ (v.from ++ t1)),
      marks_in-append (bytes " FROM ") (v.from ++ t1),
      marks_in-append v.from t1,
      marks_in-append wheres t2,
      marks_in-append groups t3,
      marks_in-append orders (bytes " LIMIT ? OFFSET ?"),
      marks_in-join (bytes ", ") sel refl,
      marks_in-clause (bytes " WHERE ") (bytes " AND ") conditions refl refl,
      marks_in-clause (bytes " GROUP BY ") (bytes ", ") group refl refl,
      marks_in-clause (bytes " ORDER BY ") (bytes ", ") order refl refl,
    )

module _ (parse_layout : Text → Text → Option ℤ) where
  compile_view-marks :
      (v : View) (q : Query) (now : ℕ) (c : Compiled)
      → IsClean v
      → compile_view parse_layout v q now ≡ ok c
      → marks_in c.sql ≡ length c.args
  unfolding compile_view
  compile_view-marks v q now c clean e = elim (Checked-cases (compile_columns v q)) [
    | inr (x, bad) ↦ absurd (ground arith)
    | inl (cols, got) ↦ elim (Checked-cases (compile_filters parse_layout v q.where_all now)) [
      | inr (x, bad) ↦ absurd (ground arith)
      | inl (conditions, filtered) ↦ elim (Checked-cases (compile_order cols.1 q.order_by)) [
        | inr (x, bad) ↦ absurd (ground arith)
        | inl (order, ordered) ↦
            let tail = int_arg (pos (limit_of q.limit + 1)) ∷ int_arg q.offset ∷ [] in
            let s : c.sql ≡ statement v (exprs_of cols.1) conditions.0 (exprs_of cols.0) order =
              ground arith in
            let a : c.args ≡ conditions.1 ++ tail = ground arith in
            rw (s, a)
              (ground (
                arith,
                marks_in-statement v (exprs_of cols.1) conditions.0 (exprs_of cols.0) order clean.0,
                compile_columns-clean v q clean,
                order-clean cols.1 q.order_by order ordered,
                filters-balanced parse_layout v q.where_all now conditions clean filtered,
                length-append conditions.1 tail,
              ))
      ]
    ]
  ]

  -- The SQL of a compiled query has exactly as many placeholders as there are bound arguments, whatever
  -- text the query holds.
  pub compile-marks :
      (q : Query) (now : ℕ) (c : Compiled)
      → compile parse_layout q now ≡ ok c
      → marks_in c.sql ≡ length c.args
  unfolding compile
  compile-marks q now c e = elim (Option-cases (view_in views q.view)) [
    | inl missing ↦ absurd (ground arith)
    | inr (v, found) ↦ compile_view-marks v q now c (view_in-IsClean q.view v found) (ground arith)
  ]
