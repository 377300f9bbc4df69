-- ===== src/Mcp/Tests.antt =====
-- Runs of the scope middleware, and its theorems at concrete calls.
use imap_mcp.Prelude.{
  ◌≡◌, refl, true, false, List, [], ◌∷◌, Option, none, some, Text, bytes, contains, text_eq, ◌↔◌,
  ◌⊎◌,
}
use imap_mcp.HttpAuth.{Principal, Scope, has, scope_read, scope_write, scope_admin}
use imap_mcp.Mcp.{
  Call, text, requires, requires_with_args, result, tool_scope, arg_scope, scope_middleware,
  scope_filter, shown,
}
use imap_mcp.Mcp.Calls.{tool, scope_middleware_iff}

abbrev reader : Option Principal
reader = some (record { name = bytes "reader"; scopes = scope_read ∷ [] })

abbrev listing : Call
listing = record { name = bytes "get_attachments"; args = [] }

abbrev download : Call
download = record { name = bytes "get_attachments"; args = (bytes "part", text (bytes "2")) ∷ [] }

abbrev sync : Call
sync = record { name = bytes "sync_account"; args = [] }

calls :
    (scope_middleware tool reader listing ≡ result (reader, listing))
    × (scope_middleware tool reader download ≡ requires_with_args scope_write)
    × (scope_middleware tool reader sync ≡ requires scope_admin)
    × (scope_middleware tool none listing ≡ requires scope_read)
unfolding scope_middleware tool_scope arg_scope has contains text_eq
calls = (refl, refl, refl, refl)

scope_middleware_iff_example :
    (scope_middleware tool reader download ≡ result (reader, download)) ↔ (
      (scope : Scope) × (tool_scope download.name ≡ some scope)
      × (has reader scope ≡ true)
      × ((arg_scope download.name download.args ≡ [])
          ⊎ (has reader (arg_scope download.name download.args) ≡ true))
      × (reader ≡ reader)
      × (download ≡ download))
scope_middleware_iff_example = scope_middleware_iff reader reader download download

abbrev all_tools : List Text
all_tools = bytes "sync_account" ∷ bytes "get_attachments" ∷ []

listed : contains all_tools sync.name ≡ true
unfolding contains text_eq
listed = refl

hidden : contains (scope_filter reader all_tools) sync.name ≡ false
unfolding contains text_eq scope_filter shown tool_scope has
hidden = refl

sync_is_admin : tool_scope sync.name ≡ some scope_admin
unfolding tool_scope text_eq
sync_is_admin = refl
