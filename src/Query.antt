-- ===== src/Query.antt =====
-- internal/query/query.go: the JSON query language, compiled to SQL with bound arguments. A float64
-- of the JSON decoder is what the code reads of it: its bits, its int64 conversion, and whether that
-- conversion is exact. Parallel slices are one list of columns. time.Parse is the parameter
-- `parse_layout`, which gives Unix seconds.
pub mod Views
pub mod Values
pub mod Filters
pub mod Columns
pub mod Marks
pub mod FilterMarks
pub mod ColumnMarks
pub mod Placeholders
pub mod Selected
pub mod Results
mod Tests
use imap_mcp.Prelude.{
  ℕ, zero, suc, ◌+◌, ◌/◌, ◌%◌, Bool, true, false, not, ◌&&◌, ◌||◌, List, [], ◌∷◌, ◌++◌, Option,
  none, some, Text, bytes, text_eq, is_nil, length, ltb, leb, if◌then◌else◌,
}
use imap_mcp.Prelude.Int.{ℤ, pos, negsuc}
use imap_mcp.Query.Views.{View, views, view_in}
use imap_mcp.Query.Values.{
  Arg, int_arg, Checked, ok, err, ◌>>=◌, ◌>>◌, guard, bad_view, not_both, too_many_filters,
  bad_order, bad_limit, bad_offset,
}
use imap_mcp.Query.Filters.{Filter, CompiledFilter, compile_filter, join}
use imap_mcp.Query.Columns.{
  Aggregate, Column, names_of, field_columns, aggregate_columns, default_names,
}

pub record Order : Type 0 where
  pub field : Text
  pub desc : Bool

pub record Query : Type 0 where
  pub view : Text
  pub fields : List Text
  pub where_all : List Filter
  pub group_by : List Text
  pub aggregate : List Aggregate
  pub order_by : List Order
  pub limit : ℤ
  pub offset : ℤ

pub record Compiled : Type 0 where
  pub sql : Text
  pub args : List Arg
  pub columns : List Column
  pub limit : ℕ

abbrev pub default_limit : ℕ
default_limit = 100

abbrev pub max_limit : ℕ
max_limit = 1000

abbrev pub max_filters : ℕ
max_filters = 32

-- strconv.Itoa of a number that is not negative; `fuel` bounds the digits
unfoldable pub digits : ℕ → ℕ → Text
digits zero n = []
digits (suc fuel) n =
    let front = digits fuel (n / 10) in
    if ltb n 10 then (b'0' + n) ∷ [] else front ++ (b'0' + n % 10) ∷ []

unfoldable pub itoa : ℕ → Text
unfolding digits
itoa n = digits (suc n) n

-- len(q.GroupBy) > 0 || len(q.Aggregate) > 0
abbrev pub is_grouped : Query → Bool
is_grouped q = not (is_nil q.group_by) || not (is_nil q.aggregate)

abbrev pub count_all : Aggregate
count_all = record { fn = bytes "count"; field = []; as_name = [] }

-- the columns of a grouped query, and how many of them it groups by
unfoldable pub grouped_columns : View → Query → Checked (List Column × List Column)
grouped_columns v q = do
  group ← field_columns true v q.group_by []
  cols ← aggregate_columns v (if is_nil q.aggregate then count_all ∷ [] else q.aggregate) group
  ok (group, cols)

unfoldable pub plain_columns : View → Query → Checked (List Column × List Column)
plain_columns v q = do
  cols ← field_columns false v (if is_nil q.fields then default_names v.fields else q.fields) []
  ok ([], cols)

unfoldable pub compile_columns : View → Query → Checked (List Column × List Column)
compile_columns v q = do
  guard (not (is_grouped q && not (is_nil q.fields))) not_both
  if is_grouped q then grouped_columns v q else plain_columns v q

-- slices.Index, with `none` for -1
unfoldable pub position : Text → List Text → Option ℕ
position name [] = none
position name (n ∷ ns) = elim (text_eq n name) [
  | true ↦ some 0
  | false ↦ elim (position name ns) [ none ↦ none | some i ↦ some (suc i) ]
]

unfoldable pub compile_order : List Column → List Order → Checked (List Text)
compile_order cols [] = ok []
compile_order cols (o ∷ os) = elim (position o.field (names_of cols)) [
  | none ↦ err (bad_order o.field)
  | some i ↦ do
    rest ← compile_order cols os
    ok ((itoa (i + 1) ++ (bytes " " ++ (if o.desc then bytes "DESC" else bytes "ASC"))) ∷ rest)
]

-- c.Limit
unfoldable pub limit_of : ℤ → ℕ
limit_of (pos zero) = default_limit
limit_of (pos (suc n)) = suc n
limit_of (negsuc n) = default_limit

abbrev pub is_negative : ℤ → Bool
is_negative (pos n) = false
is_negative (negsuc n) = true

abbrev pub exprs_of : List Column → List Text
exprs_of [] = []
exprs_of (c ∷ cs) = c.expr ∷ exprs_of cs

-- a clause, if the list is not empty
unfoldable pub clause : Text → Text → List Text → Text
clause keyword sep parts = if is_nil parts then [] else keyword ++ join sep parts

-- the statement that the builder writes
unfoldable pub statement : View → List Text → List Text → List Text → List Text → Text
statement v sel conditions group order =
    bytes "SELECT "
    ++ (join (bytes ", ") sel
        ++ (bytes " FROM "
            ++ (v.from
                ++ (clause (bytes " WHERE ") (bytes " AND ") conditions
                    ++ (clause (bytes " GROUP BY ") (bytes ", ") group
                        ++ (clause (bytes " ORDER BY ") (bytes ", ") order
                            ++ bytes " LIMIT ? OFFSET ?"))))))

module _ (parse_layout : Text → Text → Option ℤ) where
  -- where and c.Args
  unfoldable pub compile_filters : View → List Filter → ℕ → Checked (List Text × List Arg)
  compile_filters v [] now = ok ([], [])
  compile_filters v (flt ∷ flts) now = do
    c ← compile_filter parse_layout v flt now
    rest ← compile_filters v flts now
    ok (c.sql ∷ rest.0, c.args ++ rest.1)

  unfoldable pub compile_view : View → Query → ℕ → Checked Compiled
  compile_view v q now = do
    cols ← compile_columns v q
    guard (leb (length q.where_all) max_filters) too_many_filters
    conditions ← compile_filters v q.where_all now
    order ← compile_order cols.1 q.order_by
    let limit = limit_of q.limit
    guard (leb limit max_limit) bad_limit
    guard (not (is_negative q.offset)) bad_offset
    ok (record {
      sql = statement v (exprs_of cols.1) conditions.0 (exprs_of cols.0) order;
      args = conditions.1 ++ int_arg (pos (limit + 1)) ∷ int_arg q.offset ∷ [];
      columns = cols.1;
      limit = limit;
    })

  -- Compile
  unfoldable pub compile : Query → ℕ → Checked Compiled
  compile q now = elim (view_in views q.view) [
    | none ↦ err bad_view
    | some v ↦ compile_view v q now
  ]
