-- ===== src/HttpAuth.antt =====
-- internal/httpauth/httpauth.go: scoped bearer tokens, and the middleware that checks them.
-- A map from scopes to true is the list of its keys, a set of open paths the list of its paths. The
-- digest of crypto/sha256 is the parameter `sha256`. A response is a denial with its status code,
-- or what the handler behind the middleware returns.
pub mod Tokens
pub mod Access
mod Tests
use imap_mcp.Prelude.{
  ℕ, Bool, true, false, not, ◌||◌, List, [], ◌∷◌, ◌++◌, Option, none, some, Text, bytes, text_eq,
  contains, length, take, drop, leb, if◌then◌else◌, is_nil,
}
use imap_mcp.Prelude.Bytes.{to_lower, trim_space}

abbrev pub Scope : Type 0
Scope = Text

abbrev pub scope_read : Scope
scope_read = bytes "read"

abbrev pub scope_write : Scope
scope_write = bytes "write"

abbrev pub scope_send : Scope
scope_send = bytes "send"

abbrev pub scope_admin : Scope
scope_admin = bytes "admin"

abbrev pub scope_unsubscribe : Scope
scope_unsubscribe = bytes "unsubscribe"

abbrev pub all_scopes : List Scope
all_scopes = scope_read ∷ scope_write ∷ scope_send ∷ scope_admin ∷ scope_unsubscribe ∷ []

parse_scope_in : List Scope → Text → Option Scope
parse_scope_in [] s = none
parse_scope_in (sc ∷ rest) s = if text_eq sc s then some sc else parse_scope_in rest s

-- ParseScope, with `none` for its error
unfoldable pub parse_scope : Text → Option Scope
unfolding parse_scope_in
parse_scope = parse_scope_in all_scopes

pub record Token : Type 0 where
  pub name : Text
  pub value : Text
  pub scopes : List Scope

pub record Principal : Type 0 where
  pub name : Text
  pub scopes : List Scope

-- (*Principal).Has, which a nil principal does not pass
unfoldable pub has : Option Principal → Scope → Bool
has none s = false
has (some p) s = contains p.scopes s

pub record Entry : Type 0 where
  pub hash : Text
  pub principal : Principal

pub record Authenticator : Type 0 where
  pub entries : List Entry
  pub open_paths : List Text

pub data Failure : Type 0 where
  no_tokens : Failure
  duplicate_name : Text → Failure
  reused_value : Text → Text → Failure

pub data Result {ℓ} (A : Type ℓ) : Type ℓ where
  ok : A → Result A
  err : Failure → Result A

-- for _, s := range t.Scopes { p.scopes[s] = true }
unfoldable pub grant : List Scope → List Scope → List Scope
grant [] held = held
grant (s ∷ ss) held = grant ss (if contains held s then held else s ∷ held)

unfoldable pub principal_of : Token → Principal
unfolding grant
principal_of t = record { name = t.name; scopes = grant t.scopes [] }

-- The name of the first entry that has the hash already.
unfoldable pub reuses : Text → List Entry → Option Text
reuses h [] = none
reuses h (e ∷ es) = if text_eq e.hash h then some e.principal.name else reuses h es

-- the loop of lookup: every entry is compared, and the last match is kept
unfoldable pub lookup_in : Text → List Entry → Option Principal → Option Principal
lookup_in h [] found = found
lookup_in h (e ∷ es) found = lookup_in h es (if text_eq h e.hash then some e.principal else found)

module _ (sha256 : Text → Text) where
  unfoldable pub entry_of : Token → Entry
  unfolding principal_of
  entry_of t = record { hash = sha256 t.value; principal = principal_of t }

  -- the loop of New, over the names and the entries so far
  unfoldable pub add_tokens : List Token → List Text → List Entry → Result (List Entry)
  unfolding entry_of reuses
  add_tokens [] names entries = ok entries
  add_tokens (t ∷ ts) names entries =
      let rest = add_tokens ts (t.name ∷ names) (entries ++ entry_of t ∷ []) in
      if contains names t.name
      then err (duplicate_name t.name)
      else elim (reuses (sha256 t.value) entries) [
        | some other ↦ err (reused_value t.name other)
        | none ↦ rest
      ]

  unfoldable pub new : List Token → List Text → Result Authenticator
  unfolding add_tokens
  new tokens open_paths = if is_nil tokens then err no_tokens else elim (add_tokens tokens [] []) [
    | err e ↦ err e
    | ok entries ↦ ok (record { entries = entries; open_paths = open_paths })
  ]

  unfoldable pub lookup : Authenticator → Text → Option Principal
  unfolding lookup_in
  lookup a presented = lookup_in (sha256 presented) a.entries none

pub record Request : Type 0 where
  pub path : Text
  pub authorization : Text

abbrev pub bearer_prefix : Text
bearer_prefix = bytes "bearer "

unfoldable pub bearer : Request → Option Text
unfolding to_lower trim_space
bearer r =
    let h = r.authorization in
    if leb (length h) (length bearer_prefix)
      || not (text_eq (to_lower (take (length bearer_prefix) h)) bearer_prefix)
    then none
    else some (trim_space (drop (length bearer_prefix) h))

pub data Response {ℓ} (A : Type ℓ) : Type ℓ where
  denied : ℕ → Response A
  handled : A → Response A

-- A handler takes the principal that the request's context carries.
abbrev pub Handler {ℓ} : Type ℓ → Type ℓ
Handler A = Option Principal → Request → Response A

module _ {ℓ} {A : Type ℓ} (sha256 : Text → Text) where
  authenticate : Authenticator → Handler A → Handler A
  authenticate a next ctx r = elim (bearer r) [
    | none ↦ denied 401
    | some tok ↦ elim (lookup sha256 a tok) [ none ↦ denied 401 | some p ↦ next (some p) r ]
  ]

  -- (*Authenticator).Middleware; `none` is the nil Authenticator
  unfoldable pub middleware : Option Authenticator → Handler A → Handler A
  unfolding authenticate
  middleware none next ctx r = next ctx r
  middleware (some a) next ctx r =
      if contains a.open_paths r.path then next ctx r else authenticate a next ctx r

module _ {ℓ} {A : Type ℓ} where
  -- (*Authenticator).RequireScope
  unfoldable pub require_scope : Option Authenticator → Scope → Handler A → Handler A
  unfolding has
  require_scope none scope next ctx r = next ctx r
  require_scope (some a) scope next ctx r = if has ctx scope then next ctx r else denied 403
