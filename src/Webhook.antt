-- ===== src/Webhook.antt =====
-- internal/webhook/webhook.go: which events a webhook may subscribe to, and what a delivery carries.
-- The event payload is the list of the entries of its JSON object; a map that the code builds is the
-- list of its entries in the order of their insertion.
pub mod Outbox
pub mod Dispatch
pub mod Backoff
pub mod Potential
pub mod Termination
pub mod Lifecycle
pub mod Rows
pub mod Attempts
pub mod Privacy
mod Tests
use imap_mcp.Prelude.{
  ℕ, Bool, true, false, not, ◌&&◌, ◌||◌, List, [], ◌∷◌, ◌++◌, Option, none, some, Text, bytes,
  text_eq, contains, is_nil, ◌==◌, if◌then◌else◌,
}

abbrev pub event_test : Text
event_test = bytes "webhook.test"

-- Events
abbrev pub deliverable : List Text
deliverable =
    bytes "message.synced"
    ∷ bytes "message.updated"
    ∷ bytes "message.deleted"
    ∷ bytes "folder.synced"
    ∷ bytes "sync.complete"
    ∷ bytes "sync.error"
    ∷ bytes "cache.cleaned"
    ∷ bytes "enrichment.done"
    ∷ bytes "enrichment.error"
    ∷ bytes "anomaly.detected"
    ∷ bytes "rule.fired"
    ∷ bytes "hold.digest"
    ∷ bytes "rule.suggested"
    ∷ bytes "unsubscribe.done"
    ∷ bytes "screener.decided"
    ∷ bytes "account.connected"
    ∷ bytes "account.error"
    ∷ bytes "account.disconnected"
    ∷ []

abbrev pub any_event : Text
any_event = bytes "*"

unfoldable pub all_known : List Text → Bool
all_known [] = true
all_known (e ∷ es) = (text_eq e any_event || contains deliverable e) && all_known es

-- ValidateEvents, without the text of its error
unfoldable pub validate_events : List Text → Bool
unfolding all_known
validate_events events = not (is_nil events) && all_known events

-- Subscribed
unfoldable pub subscribed : List Text → Text → Bool
subscribed events event =
    if text_eq event event_test
    then true
    else contains events event || (contains events any_event && contains deliverable event)

-- A value of a JSON object, down to what Metadata reads of it.
pub data Value : Type 0 where
  null : Value
  text : Text → Value
  other : ℕ → Value

abbrev pub Entries : Type 0
Entries = List (Text × Value)

-- The payload of an event: none, an error text, or an object.
pub data Payload : Type 0 where
  nothing : Payload
  message : Text → Payload
  object : Entries → Payload

-- asMap
unfoldable pub as_map : Payload → Option Entries
as_map nothing = none
as_map (message s) = none
as_map (object es) = some es

-- v, ok := m[k]
unfoldable pub entry : Text → Entries → Option Value
entry k [] = none
entry k (kv ∷ es) = if text_eq kv.0 k then some kv.1 else entry k es

-- m[k] = v
unfoldable pub set_entry : Text → Value → Entries → Entries
set_entry k v [] = (k, v) ∷ []
set_entry k v (kv ∷ es) =
    let rest = set_entry k v es in if text_eq kv.0 k then (k, v) ∷ es else kv ∷ rest

abbrev pub metadata_keys : List Text
metadata_keys =
    bytes "folder"
    ∷ bytes "uid"
    ∷ bytes "id"
    ∷ bytes "message_id"
    ∷ bytes "rule_id"
    ∷ bytes "action"
    ∷ bytes "matched"
    ∷ bytes "flags"
    ∷ bytes "anomaly_id"
    ∷ bytes "kind"
    ∷ bytes "new"
    ∷ bytes "cached"
    ∷ bytes "removed"
    ∷ bytes "flags_updated"
    ∷ bytes "rebuilt"
    ∷ bytes "type"
    ∷ bytes "severity"
    ∷ bytes "suggested"
    ∷ bytes "created"
    ∷ bytes "approved"
    ∷ bytes "blocked"
    ∷ bytes "moved"
    ∷ bytes "via"
    ∷ bytes "method"
    ∷ bytes "status"
    ∷ bytes "status_code"
    ∷ bytes "archived"
    ∷ bytes "held"
    ∷ bytes "waiting"
    ∷ []

abbrev pub is_null : Value → Bool
is_null null = true
is_null _ = false

-- v == "" || v == nil
abbrev pub is_blank : Value → Bool
is_blank null = true
is_blank (text s) = is_nil s
is_blank (other n) = false

-- the loop over metadataKeys
unfoldable pub copy_keys : List Text → Entries → Entries → Entries
copy_keys [] m out = out
copy_keys (k ∷ ks) m out = elim (entry k m) [
  | none ↦ copy_keys ks m out
  | some v ↦
      let kept = copy_keys ks m (set_entry k v out) in
      let skipped = copy_keys ks m out in if is_null v then skipped else kept
]

-- The stand-in for the value true.
abbrev pub true_value : Value
true_value = other 1

-- Metadata, over the entries of the payload; the empty list stands for nil
unfoldable pub metadata_of : Entries → Entries
metadata_of m =
    let out = copy_keys metadata_keys m [] in
    let out' : Entries = elim (entry (bytes "MessageID") m) [
      | none ↦ out
      | some v ↦ set_entry (bytes "message_id") v out
    ] in
    elim (entry (bytes "error") m) [
      | none ↦ out'
      | some v ↦ if is_blank v then out' else set_entry (bytes "failed") true_value out'
    ]

unfoldable pub metadata : Payload → Entries
metadata p = elim (as_map p) [ none ↦ metadata_of [] | some m ↦ metadata_of m ]

abbrev pub payload_metadata : Text
payload_metadata = bytes "metadata"

abbrev pub payload_full : Text
payload_full = bytes "full"

-- strings.Split(s, ",")
unfoldable pub split_commas : Text → List Text
split_commas [] = [] ∷ []
split_commas (c ∷ s) = elim (split_commas s) [
  | [] ↦ (c ∷ []) ∷ []
  | l ∷ ls ↦ if c == b',' then [] ∷ l ∷ ls else (c ∷ l) ∷ ls
]

-- the loop over the fields that a webhook lists
unfoldable pub pick : List Text → Entries → Entries → Entries
pick [] full out = out
pick (f ∷ fs) full out = elim (entry f full) [
  | none ↦ pick fs full out
  | some v ↦ pick fs full (set_entry f v out)
]

-- Shape with payload "full"
unfoldable pub full_shape : Payload → Entries
full_shape nothing = []
full_shape (message s) = if is_nil s then [] else (bytes "error", text s) ∷ []
full_shape (object es) = es

-- Shape
unfoldable pub shape : Payload → Text → Entries
shape p setting =
    let listed : Entries = elim (as_map p) [
      | none ↦ []
      | some m ↦ pick (split_commas setting) m []
    ] in
    if is_nil setting || text_eq setting payload_metadata
    then metadata p
    else if text_eq setting payload_full
    then full_shape p
    else listed
