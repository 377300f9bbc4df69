-- ===== src/Query/FilterMarks.antt =====
-- The placeholders of a filter.
use imap_mcp.Prelude.{
  ℕ, ◌≡◌, refl, Bool, true, List, [], ◌∷◌, ◌++◌, Option, Text, bytes, text_eq, length,
  length-append, ◌==◌, if◌then◌else◌, arith, Option-cases, inl, inr,
}
use imap_mcp.Prelude.Int.{ℤ}
use imap_mcp.Query.{compile_filters}
use imap_mcp.Query.Views.{View, Field, field_in}
use imap_mcp.Query.Values.{Arg, Checked, ok, err, coerce}
use imap_mcp.Query.Filters.{
  Value, Filter, CompiledFilter, compile_filter, field_filter, in_filter, like_filter,
  compare_filter, sql_op, scalar_of, list_of, coerce_all, join, marks,
}
use imap_mcp.Query.Marks.{
  marks_in, total_marks, marks_in-append, marks_in-join, total_marks-marks, IsClean, marks_in-field,
  Checked-cases,
}

marks_in-sql_op : (op : Text) → marks_in (sql_op op) ≡ 0
unfolding sql_op marks_in
marks_in-sql_op op = ground arith

-- The SQL of a filter has a placeholder for each argument.
abbrev balanced : Checked CompiledFilter → Bool
balanced (ok c) = marks_in c.sql == length c.args
balanced (err x) = true

module _ (f : Field) (op : Text) (value : Value) (clean : marks_in f.expr ≡ 0) where
  like-balanced : balanced (like_filter f op value) ≡ true
  unfolding like_filter marks_in
  like-balanced = ground (arith, marks_in-append f.expr (bytes " LIKE ? ESCAPE '\\'"))

  module _ (parse_layout : Text → Text → Option ℤ) (now : ℕ) where
    compare-balanced : balanced (compare_filter parse_layout f op value now) ≡ true
    unfolding compare_filter marks_in
    compare-balanced =
        let sign = sql_op op in
        elim (Checked-cases (coerce parse_layout f (scalar_of value) now)) [
          | inl (a, got) ↦ ground (
            arith,
            marks_in-append f.expr (bytes " " ++ (sign ++ bytes " ?")),
            marks_in-append sign (bytes " ?"),
            marks_in-sql_op op,
          )
          | inr (x, bad) ↦ ground arith
        ]

    in-balanced : balanced (in_filter parse_layout f op value now) ≡ true
    unfolding in_filter marks_in
    in-balanced = elim (Checked-cases (coerce_all parse_layout f (list_of value) now)) [
      | inl (args, got) ↦
          let list = join (bytes ", ") (marks args) in
          let negation = if text_eq op (bytes "nin") then bytes "NOT " else [] in
          let tail = bytes "IN (" ++ (list ++ bytes ")") in
          ground (
            arith,
            marks_in-append f.expr (bytes " " ++ (negation ++ tail)),
            marks_in-append negation tail,
            marks_in-append (bytes "IN (") (list ++ bytes ")"),
            marks_in-append list (bytes ")"),
            marks_in-join (bytes ", ") (marks args) refl,
            total_marks-marks args,
          )
      | inr (x, bad) ↦ ground arith
    ]

    field-balanced : balanced (field_filter parse_layout f op value now) ≡ true
    unfolding field_filter marks_in
    field-balanced = ground (
      arith,
      like-balanced,
      compare-balanced,
      in-balanced,
      marks_in-append f.expr (bytes " IS NULL"),
      marks_in-append f.expr (bytes " IS NOT NULL"),
    )

module _ (parse_layout : Text → Text → Option ℤ) where
  filter-balanced :
      (v : View) (flt : Filter) (now : ℕ)
      → IsClean v
      → balanced (compile_filter parse_layout v flt now) ≡ true
  unfolding compile_filter
  filter-balanced v flt now clean = elim (Option-cases (field_in v.fields flt.field)) [
    | inl missing ↦ ground arith
    | inr (f, found) ↦ ground (
      arith,
      field-balanced f flt.op flt.value (marks_in-field v flt.field f clean found) parse_layout now,
    )
  ]

  -- All the filters together.
  pub filters-balanced :
      (v : View) (flts : List Filter) (now : ℕ) (r : List Text × List Arg)
      → IsClean v
      → compile_filters parse_layout v flts now ≡ ok r
      → total_marks r.0 ≡ length r.1
  unfolding compile_filters total_marks
  filters-balanced v [] now r clean e = let e' : ([], []) ≡ r = ground arith in rw (← e') refl
  filters-balanced v (flt ∷ flts) now r clean e =
      elim (Checked-cases (compile_filter parse_layout v flt now)) [
        | inr (x, bad) ↦ absurd (ground arith)
        | inl (c, got) ↦ elim (Checked-cases (compile_filters parse_layout v flts now)) [
          | inr (x, bad) ↦ absurd (ground arith)
          | inl (rest, more) ↦
              let e' : (c.sql ∷ rest.0, c.args ++ rest.1) ≡ r = ground arith in
              rw (← e') (
                ground (
                  arith,
                  filter-balanced v flt now clean,
                  length-append c.args rest.1,
                  filters-balanced v flts now rest clean more,
                ))
        ]
      ]
