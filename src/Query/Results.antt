-- ===== src/Query/Results.antt =====
-- What a compiled query returns: which columns, how many rows, and when a body.
use imap_mcp.Prelude.{
  ℕ, zero, suc, ◌≤◌, ◌≡◌, refl, ap, ◌∙◌, Bool, true, false, not, ◌&&◌, List, [], ◌∷◌, Option, none,
  some, Text, text_eq, text_eq_iff, contains, distinct, is_nil, leb, if◌then◌else◌, arith,
  Bool-cases, Option-cases, inl, inr,
}
use imap_mcp.Prelude.Int.{ℤ, pos, negsuc}
use imap_mcp.Query.{
  Query, Compiled, is_grouped, limit_of, compile_order, compile_filters, compile_columns,
  grouped_columns, plain_columns, compile_view, compile, count_all, max_limit,
}
use imap_mcp.Query.Views.{View, Field, view_in, views, field_in}
use imap_mcp.Query.Values.{ok}
use imap_mcp.Query.Columns.{Column, names_of, field_columns, aggregate_columns, default_names}
use imap_mcp.Query.Marks.{Checked-cases}
use imap_mcp.Query.Selected.{
  field_columns-names, field_columns-distinct, aggregate_columns-distinct,
}

limit_of-positive : (l : ℤ) → 1 ≤ limit_of l
unfolding limit_of
limit_of-positive (pos zero) = omega arith
limit_of-positive (pos (suc n)) = omega arith
limit_of-positive (negsuc n) = omega arith

grouped-names :
    (v : View) (q : Query) (r : List Column × List Column)
    → grouped_columns v q ≡ ok r
    → (names_of r.0 ≡ q.group_by) × (distinct (names_of r.1) ≡ true)
unfolding grouped_columns
grouped-names v q r e = elim (Checked-cases (field_columns true v q.group_by [])) [
  | inr (x, bad) ↦ absurd (ground arith)
  | inl (group, got) ↦
      let aggs = if is_nil q.aggregate then count_all ∷ [] else q.aggregate in
      elim (Checked-cases (aggregate_columns v aggs group)) [
        | inr (x, bad) ↦ absurd (ground arith)
        | inl (cols, more) ↦
            let e' : (group, cols) ≡ r = ground arith in
            rw (← e') (
              field_columns-names true v q.group_by [] group got,
              aggregate_columns-distinct v aggs group cols
                  (field_columns-distinct true v q.group_by [] group refl got) more,
            )
      ]
]

plain-names :
    (v : View) (q : Query) (r : List Column × List Column)
    → plain_columns v q ≡ ok r
    → (names_of r.1 ≡ (if is_nil q.fields then default_names v.fields else q.fields))
      × (distinct (names_of r.1) ≡ true)
unfolding plain_columns
plain-names v q r e =
    let names = if is_nil q.fields then default_names v.fields else q.fields in
    elim (Checked-cases (field_columns false v names [])) [
      | inr (x, bad) ↦ absurd (ground arith)
      | inl (cols, got) ↦
          let e' : ([], cols) ≡ r = ground arith in
          rw (← e') (
            field_columns-names false v names [] cols got,
            field_columns-distinct false v names [] cols refl got,
          )
    ]

-- The field of that name has the content of a message.
abbrev pub is_body_name : List Field → Text → Bool
is_body_name fs name = elim (field_in fs name) [ none ↦ false | some f ↦ f.is_body ]

abbrev no_default_body : List Field → List Field → Bool
no_default_body all [] = true
no_default_body all (f ∷ fs) =
    not (f.is_default && is_body_name all f.name) && no_default_body all fs

abbrev no_default_bodies : List View → Bool
no_default_bodies [] = true
no_default_bodies (v ∷ vs) = no_default_body v.fields v.fields && no_default_bodies vs

views_default_none : no_default_bodies views ≡ true
unfolding field_in text_eq
views_default_none = refl

in_views :
    (vs : List View) (name : Text) (v : View)
    → no_default_bodies vs ≡ true
    → view_in vs name ≡ some v
    → no_default_body v.fields v.fields ≡ true
unfolding view_in
in_views [] name v h e = absurd (ground arith)
in_views (w ∷ vs) name v h e = elim (Bool-cases (text_eq w.name name)) [
  | inl this ↦ let e' : w ≡ v = ground arith in rw (← e') (ground arith)
  | inr next ↦ in_views vs name v (ground arith) (ground arith)
]

default-not-body :
    (all fs : List Field) (name : Text)
    → no_default_body all fs ≡ true
    → is_body_name all name ≡ true
    → contains (default_names fs) name ≡ false
unfolding default_names contains
default-not-body all [] name h body = refl
default-not-body all (f ∷ fs) name h body = elim (Bool-cases (text_eq f.name name)) [
  | inl this ↦
      let here : is_body_name all f.name ≡ true =
        ap (is_body_name all) ((text_eq_iff f.name name).0 this) ∙ body in
      ground (arith, here, default-not-body all fs name (ground arith) body)
  | inr next ↦ ground (arith, default-not-body all fs name (ground arith) body)
]

by_fields :
    (fields defaults : List Text) (name : Text)
    → contains defaults name ≡ false
    → contains (if is_nil fields then defaults else fields) name ≡ contains fields name
unfolding contains
by_fields [] defaults name h = h
by_fields (f ∷ fields) defaults name h = refl

module _ (parse_layout : Text → Text → Option ℤ) where
  -- What a compilation that succeeds has done.
  record Compilation (q : Query) (c : Compiled) : Type 0 where
    view : View
    found : view_in views q.view ≡ some view
    group : List Column
    columns : compile_columns view q ≡ ok (group, c.columns)
    limited : c.limit ≡ limit_of q.limit
    bounded : leb c.limit max_limit ≡ true

  compile-Compilation :
      (q : Query) (now : ℕ) (c : Compiled) → compile parse_layout q now ≡ ok c → Compilation q c
  unfolding compile compile_view
  compile-Compilation q now c e = elim (Option-cases (view_in views q.view)) [
    | inl missing ↦ absurd (ground arith)
    | inr (v, found) ↦ elim (Checked-cases (compile_columns v q)) [
      | inr (x, bad) ↦ absurd (ground arith)
      | inl (cols, got) ↦ elim (Checked-cases (compile_filters parse_layout v q.where_all now)) [
        | inr (x, bad) ↦ absurd (ground arith)
        | inl (conditions, filtered) ↦ elim (Checked-cases (compile_order cols.1 q.order_by)) [
          | inr (x, bad) ↦ absurd (ground arith)
          | inl (order, ordered) ↦
              let same : cols.1 ≡ c.columns = ground arith in
              record {
                view = v;
                found = found;
                group = cols.0;
                columns = got ∙ ap (λ cs. ok (cols.0, cs)) same;
                limited = ground arith;
                bounded = ground arith;
              }
        ]
      ]
    ]
  ]

  -- A compiled query returns columns of different names and asks for between one and 1,000 rows.
  pub compile-bounds :
      (q : Query) (now : ℕ) (c : Compiled)
      → compile parse_layout q now ≡ ok c
      → (distinct (names_of c.columns) ≡ true) × (1 ≤ c.limit) × (c.limit ≤ 1000)
  unfolding compile_columns
  compile-bounds q now c e =
      let k = compile-Compilation q now c e in
      let r : List Column × List Column = (k.group, c.columns) in
      let d : distinct (names_of c.columns) ≡ true = elim (Bool-cases (is_grouped q)) [
        | inl grouped ↦ (grouped-names k.view q r (ground (arith, k.columns))).1
        | inr plain ↦ (plain-names k.view q r (ground (arith, k.columns))).1
      ] in
      (d, ground (arith, k.limited, limit_of-positive q.limit), ground (arith, k.bounded))

  -- A query that names fields returns exactly these, in their order; a query that names none and does
  -- not group returns the default fields of the view.
  pub compile-names :
      (q : Query) (now : ℕ) (c : Compiled) (v : View)
      → compile parse_layout q now ≡ ok c
      → view_in views q.view ≡ some v
      → is_grouped q ≡ false
      → names_of c.columns ≡ (if is_nil q.fields then default_names v.fields else q.fields)
  unfolding compile_columns
  compile-names q now c v e found plain =
      let k = compile-Compilation q now c e in
      let same : k.view ≡ v = ground (arith, k.found) in
      rw (← same) (plain-names k.view q (k.group, c.columns) (ground (arith, k.columns))).0

  -- A query that does not group returns a body if and only if its fields name it.
  pub body_named :
      (q : Query) (now : ℕ) (c : Compiled) (v : View) (name : Text)
      → compile parse_layout q now ≡ ok c
      → view_in views q.view ≡ some v
      → is_grouped q ≡ false
      → is_body_name v.fields name ≡ true
      → contains (names_of c.columns) name ≡ contains q.fields name
  body_named q now c v name e found plain body =
      let none_by_default : contains (default_names v.fields) name ≡ false =
        default-not-body v.fields v.fields name (in_views views q.view v views_default_none found)
          body in
      ap (λ names. contains names name) (compile-names q now c v e found plain)
      ∙ by_fields q.fields (default_names v.fields) name none_by_default
