-- ===== src/Mcp/Calls.antt =====
-- What scopeMiddleware lets through, and what tools/list shows.
use imap_mcp.Prelude.{
  ◌≡◌, refl, ◌↔◌, Bool, true, false, ◌&&◌, List, [], ◌∷◌, Option, none, some, Text, text_eq, is_nil,
  contains, arith, ◌⊎◌, inl, inr, text_eq_refl, text_eq_iff, Bool-cases, Option-cases, ap, ◌∙◌,
}
use imap_mcp.HttpAuth.{Scope, Principal, has, parse_scope}
use imap_mcp.Mcp.{
  Call, ToolResult, no_mapping, requires, result, tool_scope, tool_scopes, scope_in, arg_scope,
  check_args, scope_middleware, shown, scope_filter,
}

-- The tool behind the middleware.
abbrev pub tool : Option Principal → Call → ToolResult (Option Principal × Call)
tool p call = result (p, call)

is_nil-eq : (s : Text) → is_nil s ≡ true → s ≡ []
is_nil-eq [] h = refl
is_nil-eq (c ∷ s) h = cc

check_args_sound :
    (p q : Option Principal) (call run : Call)
    → check_args tool p call ≡ result (q, run)
    → ((arg_scope call.name call.args ≡ []) ⊎ (has p (arg_scope call.name call.args) ≡ true))
      × (p ≡ q)
      × (call ≡ run)
unfolding check_args
check_args_sound p q call run e = elim (Bool-cases (is_nil (arg_scope call.name call.args))) [
  | inl nothing ↦ (inl (is_nil-eq _ nothing), ground arith, ground arith)
  | inr something ↦ (inr (ground arith), ground arith, ground arith)
]

-- A tool runs exactly when it is in the scope table, the caller holds its scope, and the caller
-- holds the scope that the arguments add, if they add one. It gets the caller and the call unchanged.
pub scope_middleware_iff :
    (p q : Option Principal) (call run : Call)
    → (scope_middleware tool p call ≡ result (q, run)) ↔ (
        (scope : Scope) × (tool_scope call.name ≡ some scope)
        × (has p scope ≡ true)
        × ((arg_scope call.name call.args ≡ []) ⊎ (has p (arg_scope call.name call.args) ≡ true))
        × (p ≡ q)
        × (call ≡ run))
unfolding scope_middleware check_args
scope_middleware_iff p q call run = (forward, backward)
  where
    forward :
        scope_middleware tool p call ≡ result (q, run)
        → (scope : Scope) × (tool_scope call.name ≡ some scope)
          × (has p scope ≡ true)
          × ((arg_scope call.name call.args ≡ []) ⊎ (has p (arg_scope call.name call.args) ≡ true))
          × (p ≡ q)
          × (call ≡ run)
    forward e = elim (Option-cases (tool_scope call.name)) [
      | inl missing ↦ absurd (ground arith)
      | inr (s, found) ↦
          let held : has p s ≡ true = ground arith in
          let (extra, same_p, same_call) = check_args_sound p q call run (ground arith) in
          (s, found, held, extra, same_p, same_call)
    ]

    backward :
        ((scope : Scope) × (tool_scope call.name ≡ some scope)
          × (has p scope ≡ true)
          × ((arg_scope call.name call.args ≡ []) ⊎ (has p (arg_scope call.name call.args) ≡ true))
          × (p ≡ q)
          × (call ≡ run))
        → scope_middleware tool p call ≡ result (q, run)
    backward (s, found, held, inl nothing, same_p, same_call) =
        rw (← same_p, ← same_call) (ground arith)
    backward (s, found, held, inr extra, same_p, same_call) =
        rw (← same_p, ← same_call) (ground arith)

shown-filter :
    (p : Option Principal) (name : Text) (all : List Text)
    → contains all name ≡ true
    → contains (scope_filter p all) name ≡ false
    → shown p name ≡ false
unfolding scope_filter contains
shown-filter p name [] h hidden = cc
shown-filter p name (t ∷ ts) h hidden = elim (Bool-cases (text_eq t name)) [
  | inl same ↦
      rw (← (text_eq_iff t name).0 same)
        (ground (arith, text_eq_refl t, (text_eq_iff t name).0 same))
  | inr other ↦ ground (arith, shown-filter p name ts)
]

-- A tool that tools/list hides is forbidden whatever its arguments are.
pub hidden_is_forbidden :
    (p : Option Principal) (all : List Text) (call : Call)
    → contains all call.name ≡ true
    → contains (scope_filter p all) call.name ≡ false
    → (scope_middleware tool p call ≡ no_mapping)
      ⊎ ((scope : Scope) × (tool_scope call.name ≡ some scope)
          × (scope_middleware tool p call ≡ requires scope))
unfolding scope_middleware
hidden_is_forbidden p all call h hidden =
    let unshown : shown p call.name ≡ false = shown-filter p call.name all h hidden in
    elim (Option-cases (tool_scope call.name)) [
      | inl missing ↦ inl (ground arith)
      | inr (s, found) ↦ inr (s, found, unfold shown in ground arith)
    ]

abbrev is_scope : Scope → Bool
is_scope s = elim (parse_scope s) [ none ↦ false | some t ↦ text_eq t s ]

abbrev all_parse : List (Text × Scope) → Bool
all_parse [] = true
all_parse ((tool, s) ∷ rest) = is_scope s && all_parse rest

table_parses : all_parse tool_scopes ≡ true
unfolding parse_scope text_eq
table_parses = refl

is_scope-parses : (s : Scope) → is_scope s ≡ true → parse_scope s ≡ some s
is_scope-parses s h = elim (Option-cases (parse_scope s)) [
  | inl missing ↦ absurd (ground arith)
  | inr (t, found) ↦ found ∙ ap some ((text_eq_iff t s).0 (ground arith))
]

scope_in-parses :
    (name : Text) (s : Scope) (table : List (Text × Scope))
    → all_parse table ≡ true
    → scope_in name table ≡ some s
    → parse_scope s ≡ some s
unfolding scope_in
scope_in-parses name s [] ok h = cc
scope_in-parses name s ((tool, t) ∷ rest) ok h = elim (Bool-cases (text_eq tool name)) [
  | inl same ↦ is_scope-parses s (let e : t ≡ s = ground arith in rw (← e) (ground arith))
  | inr other ↦ scope_in-parses name s rest (ground arith) (ground arith)
]

-- Every scope of the table can be granted to a token.
pub tool_scope-parses :
    (name : Text) (s : Scope) → tool_scope name ≡ some s → parse_scope s ≡ some s
unfolding tool_scope
tool_scope-parses name s h = scope_in-parses name s tool_scopes table_parses h
