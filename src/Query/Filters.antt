-- ===== src/Query/Filters.antt =====
-- internal/query/query.go: compileFilter.
use imap_mcp.Prelude.{
  ℕ, Bool, true, false, not, ◌&&◌, ◌||◌, List, [], ◌∷◌, ◌++◌, Option, none, some, Text, bytes,
  text_eq, contains, is_nil, length, leb, if◌then◌else◌,
}
use imap_mcp.Prelude.Int.{ℤ}
use imap_mcp.Query.Views.{Kind, text_kind, bool_kind, View, Field, field_in}
use imap_mcp.Query.Values.{
  Scalar, text, Arg, text_arg, unknown_field, bad_op, bad_list, needs_text, needs_string, only_eq,
  Checked, ok, err, ◌>>=◌, ◌>>◌, guard, escape_like, coerce,
}

-- Filter.Value
pub data Value : Type 0 where
  single : Scalar → Value
  many : List Scalar → Value

pub record Filter : Type 0 where
  pub field : Text
  pub op : Text
  pub value : Value

pub record CompiledFilter : Type 0 where
  pub sql : Text
  pub args : List Arg

abbrev pub ops : List Text
ops =
    bytes "eq"
    ∷ bytes "ne"
    ∷ bytes "in"
    ∷ bytes "nin"
    ∷ bytes "lt"
    ∷ bytes "lte"
    ∷ bytes "gt"
    ∷ bytes "gte"
    ∷ bytes "contains"
    ∷ bytes "prefix"
    ∷ bytes "is_null"
    ∷ bytes "not_null"
    ∷ []

abbrev pub max_in_values : ℕ
max_in_values = 500

-- strings.Join
unfoldable pub join : Text → List Text → Text
join sep [] = []
join sep (s ∷ ss) = let rest = join sep ss in if is_nil ss then s else s ++ (sep ++ rest)

-- a "?" for each argument
unfoldable pub marks : List Arg → List Text
marks [] = []
marks (a ∷ args) = bytes "?" ∷ marks args

abbrev pub is_text : Kind → Bool
is_text text_kind = true
is_text _ = false

abbrev pub is_bool : Kind → Bool
is_bool bool_kind = true
is_bool _ = false

-- flt.Value.(string), the empty text for another value
unfoldable pub text_of : Value → Text
text_of (single (text s)) = s
text_of _ = []

-- flt.Value.([]any), the empty list for another value
unfoldable pub list_of : Value → List Scalar
list_of (single x) = []
list_of (many xs) = xs

-- the value that coerce gets; it refuses a list
unfoldable pub scalar_of : Value → Scalar
scalar_of (single x) = x
scalar_of (many xs) = Scalar.composite

-- the operator of SQL
unfoldable pub sql_op : Text → Text
sql_op op =
    if text_eq op (bytes "eq")
    then bytes "="
    else if text_eq op (bytes "ne")
    then bytes "!="
    else if text_eq op (bytes "lt")
    then bytes "<"
    else if text_eq op (bytes "lte")
    then bytes "<="
    else if text_eq op (bytes "gt")
    then bytes ">"
    else bytes ">="

unfoldable pub like_filter : Field → Text → Value → Checked CompiledFilter
like_filter f op value = do
  guard (is_text f.kind) (needs_text f.name)
  let s = text_of value
  guard (not (is_nil s)) (needs_string f.name)
  let pat = escape_like s ++ bytes "%"
  ok (record {
    sql = f.expr ++ bytes " LIKE ? ESCAPE '\\'";
    args = text_arg (if text_eq op (bytes "contains") then bytes "%" ++ pat else pat) ∷ [];
  })

module _ (parse_layout : Text → Text → Option ℤ) where
  unfoldable pub coerce_all : Field → List Scalar → ℕ → Checked (List Arg)
  coerce_all f [] now = ok []
  coerce_all f (x ∷ xs) now = do
    a ← coerce parse_layout f x now
    args ← coerce_all f xs now
    ok (a ∷ args)

  unfoldable pub in_filter : Field → Text → Value → ℕ → Checked CompiledFilter
  in_filter f op value now = do
    let vals = list_of value
    guard (not (is_nil vals) && leb (length vals) max_in_values) (bad_list f.name)
    args ← coerce_all f vals now
    ok (record {
      sql =
          f.expr
          ++ (bytes " "
              ++ ((if text_eq op (bytes "nin") then bytes "NOT " else [])
                  ++ (bytes "IN (" ++ (join (bytes ", ") (marks args) ++ bytes ")"))));
      args = args;
    })

  unfoldable pub compare_filter : Field → Text → Value → ℕ → Checked CompiledFilter
  compare_filter f op value now = do
    a ← coerce parse_layout f (scalar_of value) now
    let sign = sql_op op
    guard (not (is_bool f.kind) || (text_eq sign (bytes "=") || text_eq sign (bytes "!=")))
        (only_eq f.name)
    ok (record { sql = f.expr ++ (bytes " " ++ (sign ++ bytes " ?")); args = a ∷ [] })

  -- the switch over the operator
  unfoldable pub field_filter : Field → Text → Value → ℕ → Checked CompiledFilter
  field_filter f op value now =
      if text_eq op (bytes "is_null")
      then ok (record { sql = f.expr ++ bytes " IS NULL"; args = [] })
      else if text_eq op (bytes "not_null")
      then ok (record { sql = f.expr ++ bytes " IS NOT NULL"; args = [] })
      else if text_eq op (bytes "in") || text_eq op (bytes "nin")
      then in_filter f op value now
      else if text_eq op (bytes "contains") || text_eq op (bytes "prefix")
      then like_filter f op value
      else compare_filter f op value now

  unfoldable pub compile_filter : View → Filter → ℕ → Checked CompiledFilter
  compile_filter v flt now = elim (field_in v.fields flt.field) [
    | none ↦ err (unknown_field flt.field)
    | some f ↦ do guard (contains ops flt.op) (bad_op flt.op); field_filter f flt.op flt.value now
  ]
