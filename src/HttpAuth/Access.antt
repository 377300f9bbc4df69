-- ===== src/HttpAuth/Access.antt =====
-- Middleware and RequireScope over an authenticator that New built: who reaches a handler.
use imap_mcp.Prelude.{
  ◌≡◌, true, false, List, [], Option, none, some, Text, contains, arith, Option-cases, inl, inr,
}
use imap_mcp.HttpAuth.{
  Scope, Token, Principal, Authenticator, ok, principal_of, new, Request, bearer, handled, Handler,
  has, middleware, require_scope,
}
use imap_mcp.HttpAuth.Tokens.{token_for, lookup-new, open_paths-new, contains-grant}

-- The handler behind the middleware, which answers with the principal that it was given.
abbrev pub endpoint : Handler (Option Principal)
endpoint ctx r = handled ctx

module _ (sha256 : Text → Text) where
  -- A bearer token of the request whose digest is that of a configured token that holds the scope.
  pub record Grants (tokens : List Token) (scope : Scope) (r : Request) (t : Token) : Type 0 where
    pub presented : Text
    pub carried : bearer r ≡ some presented
    pub known : token_for sha256 (sha256 presented) tokens ≡ some t
    pub scoped : contains t.scopes scope ≡ true

  has-principal_of : (t : Token) (s : Scope) → has (some (principal_of t)) s ≡ contains t.scopes s
  unfolding has principal_of contains
  has-principal_of t s = ground (arith, contains-grant t.scopes [] s)

  module _ (tokens : List Token) (open_paths : List Text) (a : Authenticator)
      (built : new sha256 tokens open_paths ≡ ok a) (scope : Scope) (r : Request)
      (guarded : contains open_paths r.path ≡ false) where
    -- Behind Middleware and RequireScope, on a path that is not open, the handler runs with the
    -- principal of every configured token that the request carries and that holds the scope.
    pub access_complete :
        (t : Token)
        → Grants tokens scope r t
        → middleware sha256 (some a) (require_scope (some a) scope endpoint) none r
          ≡ handled (some (principal_of t))
    unfolding middleware require_scope
    access_complete t g = ground (
      arith,
      g.carried,
      g.known,
      g.scoped,
      has-principal_of t scope,
      lookup-new sha256 tokens open_paths a g.presented built,
      open_paths-new sha256 tokens open_paths a built,
    )

    -- Behind Middleware and RequireScope, on a path that is not open, the handler runs for no request
    -- but one that carries a configured token that holds the scope, and the principal it is given is
    -- that token's.
    pub access_sound :
        (ctx : Option Principal)
        → middleware sha256 (some a) (require_scope (some a) scope endpoint) none r ≡ handled ctx
        → (t : Token) × Grants tokens scope r t × (ctx ≡ some (principal_of t))
    unfolding middleware require_scope
    access_sound ctx e = elim (Option-cases (bearer r)) [
      | inl missing ↦ absurd (ground (arith, open_paths-new sha256 tokens open_paths a built))
      | inr (tok, carried) ↦ elim (Option-cases (token_for sha256 (sha256 tok) tokens)) [
        | inl unknown ↦ absurd (
            ground (
              arith,
              open_paths-new sha256 tokens open_paths a built,
              lookup-new sha256 tokens open_paths a tok built,
            ))
        | inr (t, known) ↦ (
          t,
          record {
            presented = tok;
            carried = carried;
            known = known;
            scoped = ground (
              arith,
              open_paths-new sha256 tokens open_paths a built,
              lookup-new sha256 tokens open_paths a tok built,
              has-principal_of t scope,
            );
          },
          ground (
            arith,
            open_paths-new sha256 tokens open_paths a built,
            lookup-new sha256 tokens open_paths a tok built,
          ),
        )
      ]
    ]
