-- ===== src/Query/Columns.antt =====
-- internal/query/query.go: the columns of a statement, the first part of Compile, and compileAgg.
use imap_mcp.Prelude.{
  ℕ, Bool, true, false, not, ◌&&◌, ◌||◌, List, [], ◌∷◌, ◌++◌, none, some, Text, bytes, text_eq,
  contains, is_nil, length, leb, ◌==◌, if◌then◌else◌,
}
use imap_mcp.Query.Views.{Kind, int_kind, real_kind, bool_kind, View, Field, field_in}
use imap_mcp.Query.Values.{
  unknown_field, no_group_by, duplicate_column, bad_fn, bad_alias, no_aggregate, needs_numeric,
  Checked, ok, err, ◌>>=◌, ◌>>◌, guard, is_digit,
}

pub record Aggregate : Type 0 where
  pub fn : Text
  pub field : Text
  pub as_name : Text

-- one entry of sel, c.Columns and c.Kinds
pub record Column : Type 0 where
  pub name : Text
  pub expr : Text
  pub kind : Kind

abbrev pub fns : List Text
fns =
    bytes "count"
    ∷ bytes "count_distinct"
    ∷ bytes "min"
    ∷ bytes "max"
    ∷ bytes "sum"
    ∷ bytes "avg"
    ∷ []

abbrev is_lower : ℕ → Bool
is_lower c = leb b'a' c && leb c b'z'

abbrev is_alias_byte : ℕ → Bool
is_alias_byte c = is_lower c || (is_digit c || c == b'_')

unfoldable pub all_alias_bytes : Text → Bool
all_alias_bytes [] = true
all_alias_bytes (c ∷ s) = is_alias_byte c && all_alias_bytes s

-- aliasRe.MatchString
unfoldable pub is_alias : Text → Bool
unfolding all_alias_bytes
is_alias [] = false
is_alias (c ∷ s) = is_lower c && (all_alias_bytes s && leb (length s) 39)

unfoldable pub alias_of : Aggregate → Text
alias_of a =
    if not (is_nil a.as_name)
    then a.as_name
    else if is_nil a.field
    then a.fn
    else a.fn ++ b'_' ∷ a.field

abbrev pub is_numeric : Kind → Bool
is_numeric int_kind = true
is_numeric real_kind = true
is_numeric bool_kind = true
is_numeric _ = false

abbrev pub is_real : Kind → Bool
is_real real_kind = true
is_real _ = false

-- fn(expr)
abbrev call : Text → Text → Text
call fn expr = fn ++ (bytes "(" ++ (expr ++ bytes ")"))

-- the switch of compileAgg
unfoldable pub aggregate_column : Aggregate → Field → Checked Column
aggregate_column a f =
    let alias = alias_of a in
    if text_eq a.fn (bytes "count") || text_eq a.fn (bytes "count_distinct")
    then ok (record {
      name = alias;
      expr =
          bytes "count("
          ++ ((if text_eq a.fn (bytes "count") then [] else bytes "DISTINCT ")
              ++ (f.expr ++ bytes ")"));
      kind = int_kind;
    })
    else if text_eq a.fn (bytes "min") || text_eq a.fn (bytes "max")
    then ok (record { name = alias; expr = call a.fn f.expr; kind = f.kind })
    else do
      guard (is_numeric f.kind) (needs_numeric a.field)
      ok (record {
        name = alias;
        expr = call a.fn f.expr;
        kind = if text_eq a.fn (bytes "sum") && not (is_real f.kind) then int_kind else real_kind;
      })

unfoldable pub aggregated : View → Aggregate → Checked Column
aggregated v a = elim (field_in v.fields a.field) [
  | none ↦ err (unknown_field a.field)
  | some f ↦ do
    guard (not f.is_body || (text_eq a.fn (bytes "count") || text_eq a.fn (bytes "count_distinct")))
        (no_aggregate a.field)
    aggregate_column a f
]

unfoldable pub compile_agg : View → Aggregate → Checked Column
compile_agg v a = do
  guard (contains fns a.fn) (bad_fn a.fn)
  guard (is_alias (alias_of a)) (bad_alias (alias_of a))
  if text_eq a.fn (bytes "count") && is_nil a.field
      then ok (record { name = alias_of a; expr = bytes "count(*)"; kind = int_kind })
      else aggregated v a

abbrev pub column_of : Field → Column
column_of f = record { name = f.name; expr = f.expr; kind = f.kind }

abbrev pub names_of : List Column → List Text
names_of [] = []
names_of (c ∷ cs) = c.name ∷ names_of cs

-- c.Columns with one more column, which must have a new name
unfoldable pub add_column : List Column → Column → Checked (List Column)
add_column cols col = do
  guard (not (contains (names_of cols) col.name)) (duplicate_column col.name)
  ok (cols ++ col ∷ [])

-- the columns of the named fields; `grouped` for those of group_by
unfoldable pub field_column : Bool → View → Text → Checked Column
field_column grouped v name = elim (field_in v.fields name) [
  | none ↦ err (unknown_field name)
  | some f ↦ do
    guard (not (grouped && f.is_body)) (no_group_by name)
    ok (record { name = name; expr = f.expr; kind = f.kind })
]

unfoldable pub field_columns : Bool → View → List Text → List Column → Checked (List Column)
field_columns grouped v [] cols = ok cols
field_columns grouped v (name ∷ names) cols = do
  col ← field_column grouped v name
  more ← add_column cols col
  field_columns grouped v names more

unfoldable pub aggregate_columns : View → List Aggregate → List Column → Checked (List Column)
aggregate_columns v [] cols = ok cols
aggregate_columns v (a ∷ aggs) cols = do
  col ← compile_agg v a
  more ← add_column cols col
  aggregate_columns v aggs more

-- the fields that a query without any gets
unfoldable pub default_names : List Field → List Text
default_names [] = []
default_names (f ∷ fs) = let rest = default_names fs in if f.is_default then f.name ∷ rest else rest
