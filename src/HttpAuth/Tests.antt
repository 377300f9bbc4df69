-- ===== src/HttpAuth/Tests.antt =====
-- Runs of the authenticator, and its theorems at concrete tokens. The digest is the text itself.
use imap_mcp.Prelude.{◌≡◌, refl, false, List, [], ◌∷◌, none, some, Text, bytes, contains, text_eq}
use imap_mcp.Prelude.Bytes.{to_lower, trim_space}
use imap_mcp.HttpAuth.{
  Token, Authenticator, Request, denied, handled, ok, err, duplicate_name, scope_read, scope_send,
  principal_of, new, bearer, middleware, require_scope,
}
use imap_mcp.HttpAuth.Access.{Grants, endpoint, access_complete, access_sound}

abbrev digest : Text → Text
digest s = s

abbrev reader : Token
reader = record { name = bytes "reader"; value = bytes "t1"; scopes = scope_read ∷ [] }

abbrev mailer : Token
mailer = record { name = bytes "mailer"; value = bytes "t2"; scopes = scope_read ∷ scope_send ∷ [] }

abbrev tokens : List Token
tokens = reader ∷ mailer ∷ []

abbrev open_paths : List Text
open_paths = bytes "/api/health" ∷ []

abbrev built : Authenticator
built = record {
  entries =
      record {
        hash = bytes "t1";
        principal = record { name = bytes "reader"; scopes = scope_read ∷ [] };
      }
      ∷ record {
        hash = bytes "t2";
        principal = record { name = bytes "mailer"; scopes = scope_send ∷ scope_read ∷ [] };
      }
      ∷ [];
  open_paths = open_paths;
}

built_ok : new digest tokens open_paths ≡ ok built
unfolding new text_eq contains
built_ok = refl

same_name : new digest (reader ∷ reader ∷ []) [] ≡ err (duplicate_name (bytes "reader"))
unfolding new text_eq contains
same_name = refl

abbrev ask : Request
ask = record { path = bytes "/api/send"; authorization = bytes "Bearer  t2 " }

bearer_runs : bearer ask ≡ some (bytes "t2")
unfolding bearer text_eq to_lower trim_space
bearer_runs = refl

no_token :
    middleware digest
      (some built)
      (require_scope (some built) scope_send endpoint)
      none
      (record { path = bytes "/api/send"; authorization = [] })
    ≡ denied 401
unfolding middleware bearer contains text_eq
no_token = refl

mailer_sends : Grants digest tokens scope_send ask mailer
unfolding bearer text_eq to_lower trim_space contains
mailer_sends = record { presented = bytes "t2"; carried = refl; known = refl; scoped = refl }

guarded : contains open_paths ask.path ≡ false
unfolding contains text_eq
guarded = refl

access_complete_example :
    middleware digest (some built) (require_scope (some built) scope_send endpoint) none ask
    ≡ handled (some (principal_of mailer))
access_complete_example =
    access_complete digest tokens open_paths built built_ok scope_send ask guarded mailer
      mailer_sends

access_sound_example :
    (t : Token) × Grants digest tokens scope_send ask t
    × (some (principal_of mailer) ≡ some (principal_of t))
access_sound_example =
    access_sound digest tokens open_paths built built_ok scope_send ask guarded
      (some (principal_of mailer)) access_complete_example
