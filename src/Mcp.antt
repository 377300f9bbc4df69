-- ===== src/Mcp.antt =====
-- internal/mcp/scopes.go: the scope that each MCP tool needs, the middleware that checks it, and the
-- filter of tools/list. The arguments of a call are the entries of its JSON object.
pub mod Calls
mod Tests
use imap_mcp.Prelude.{
  ℕ, Bool, true, false, not, ◌&&◌, List, [], ◌∷◌, Option, none, some, Text, bytes, text_eq, is_nil,
  if◌then◌else◌,
}
use imap_mcp.HttpAuth.{
  Scope, scope_read, scope_write, scope_send, scope_admin, scope_unsubscribe, Principal, has,
}

abbrev pub tool_scopes : List (Text × Scope)
tool_scopes =
    (bytes "list_accounts", scope_read)
    ∷ (bytes "list_folders", scope_read)
    ∷ (bytes "list_messages", scope_read)
    ∷ (bytes "get_message", scope_read)
    ∷ (bytes "get_thread", scope_read)
    ∷ (bytes "get_headers", scope_read)
    ∷ (bytes "get_attachments", scope_read)
    ∷ (bytes "search_messages", scope_read)
    ∷ (bytes "cross_account_search", scope_read)
    ∷ (bytes "semantic_search", scope_read)
    ∷ (bytes "summarize_folder", scope_read)
    ∷ (bytes "detect_subscriptions", scope_read)
    ∷ (bytes "get_sender_history", scope_read)
    ∷ (bytes "get_sender_profile", scope_read)
    ∷ (bytes "kg_query", scope_read)
    ∷ (bytes "get_anomalies", scope_read)
    ∷ (bytes "needs_reply", scope_read)
    ∷ (bytes "awaiting_reply", scope_read)
    ∷ (bytes "enrichment_status", scope_read)
    ∷ (bytes "top_senders", scope_read)
    ∷ (bytes "list_rules", scope_read)
    ∷ (bytes "suggest_rules", scope_read)
    ∷ (bytes "suggest_identities", scope_read)
    ∷ (bytes "setup_check", scope_read)
    ∷ (bytes "verdict_eval_results", scope_read)
    ∷ (bytes "list_rule_packs", scope_read)
    ∷ (bytes "read_file", scope_read)
    ∷ (bytes "list_files", scope_read)
    ∷ (bytes "list_unsubscribes", scope_read)
    ∷ (bytes "held_senders", scope_read)
    ∷ (bytes "create_folder", scope_write)
    ∷ (bytes "delete_folder", scope_write)
    ∷ (bytes "label_message", scope_write)
    ∷ (bytes "label_bulk", scope_write)
    ∷ (bytes "empty_trash", scope_write)
    ∷ (bytes "move_message", scope_write)
    ∷ (bytes "copy_message", scope_write)
    ∷ (bytes "delete_message", scope_write)
    ∷ (bytes "set_flags", scope_write)
    ∷ (bytes "append_message", scope_write)
    ∷ (bytes "move_bulk", scope_write)
    ∷ (bytes "flag_bulk", scope_write)
    ∷ (bytes "purge_sender", scope_write)
    ∷ (bytes "create_rule", scope_write)
    ∷ (bytes "delete_rule", scope_write)
    ∷ (bytes "run_rules", scope_write)
    ∷ (bytes "dismiss_suggestion", scope_write)
    ∷ (bytes "confirm_identity", scope_write)
    ∷ (bytes "reject_identity", scope_write)
    ∷ (bytes "import_rule_pack", scope_write)
    ∷ (bytes "resolve_anomaly", scope_write)
    ∷ (bytes "dismiss_reply", scope_write)
    ∷ (bytes "screen_senders", scope_write)
    ∷ (bytes "export_message", scope_write)
    ∷ (bytes "write_file", scope_write)
    ∷ (bytes "delete_file", scope_write)
    ∷ (bytes "send_message", scope_send)
    ∷ (bytes "unsubscribe", scope_unsubscribe)
    ∷ (bytes "sync_account", scope_admin)
    ∷ (bytes "trigger_enrichment", scope_admin)
    ∷ (bytes "cache_sweep", scope_admin)
    ∷ (bytes "verdict_eval", scope_admin)
    ∷ []

-- toolScopes[name]
unfoldable pub scope_in : Text → List (Text × Scope) → Option Scope
scope_in name [] = none
scope_in name ((tool, s) ∷ rest) = if text_eq tool name then some s else scope_in name rest

unfoldable pub tool_scope : Text → Option Scope
unfolding scope_in
tool_scope name = scope_in name tool_scopes

pub data Value : Type 0 where
  text : Text → Value
  other : Value

abbrev pub Args : Type 0
Args = List (Text × Value)

-- s, _ := args[key].(string)
unfoldable pub text_arg : Text → Args → Text
text_arg key [] = []
text_arg key ((k, v) ∷ rest) =
    if text_eq k key then elim v [ text s ↦ s | other ↦ [] ] else text_arg key rest

-- argScopes: the scope that the arguments add, or the empty one
unfoldable pub arg_scope : Text → Args → Scope
unfolding text_arg
arg_scope name args =
    if text_eq name (bytes "get_attachments")
    then if is_nil (text_arg (bytes "part") args) then [] else scope_write
    else if text_eq name (bytes "unsubscribe")
    then if is_nil (text_arg (bytes "archive_to") args) then [] else scope_write
    else []

pub record Call : Type 0 where
  pub name : Text
  pub args : Args

pub data ToolResult {ℓ} (A : Type ℓ) : Type ℓ where
  no_mapping : ToolResult A
  requires : Scope → ToolResult A
  requires_with_args : Scope → ToolResult A
  result : A → ToolResult A

module _ {ℓ} {A : Type ℓ} where
  -- the part of scopeMiddleware behind the tool's own scope
  unfoldable pub check_args :
      (Option Principal → Call → ToolResult A) → Option Principal → Call → ToolResult A
  check_args next p call =
      let need = arg_scope call.name call.args in
      if not (is_nil need) && not (has p need) then requires_with_args need else next p call

  unfoldable pub scope_middleware :
      (Option Principal → Call → ToolResult A) → Option Principal → Call → ToolResult A
  unfolding check_args
  scope_middleware next p call = elim (tool_scope call.name) [
    | none ↦ no_mapping
    | some scope ↦ if has p scope then check_args next p call else requires scope
  ]

-- s, ok := toolScopes[t.Name]; ok && p.Has(s)
unfoldable pub shown : Option Principal → Text → Bool
shown p name = elim (tool_scope name) [ none ↦ false | some s ↦ has p s ]

unfoldable pub scope_filter : Option Principal → List Text → List Text
unfolding shown
scope_filter p [] = []
scope_filter p (t ∷ ts) = let rest = scope_filter p ts in if shown p t then t ∷ rest else rest
