-- ===== src/Webhook/Privacy.antt =====
-- What leaves the process by a webhook: which events, and which keys of a payload.
use imap_mcp.Prelude.{
  ◌≡◌, refl, Bool, true, false, ◌&&◌, ◌||◌, List, [], ◌∷◌, none, some, Text, bytes, text_eq,
  text_eq_iff, contains, is_nil, arith, Bool-cases, Option-cases, inl, inr,
}
use imap_mcp.Webhook.{
  event_test, deliverable, any_event, all_known, validate_events, subscribed, Entries, Value, entry,
  set_entry, metadata_keys, copy_keys, metadata_of, metadata, Payload, as_map, true_value, shape,
  payload_metadata,
}

first : (a b : Bool) → (a && b) ≡ true → a ≡ true
first a b h = ground arith

second : (a b : Bool) → (a && b) ≡ true → b ≡ true
second a b h = ground arith

contains-cons :
    (e : Text) (es : List Text) (event : Text)
    → contains (e ∷ es) event ≡ true
    → text_eq e event ≡ false
    → contains es event ≡ true
unfolding contains
contains-cons e es event h k = ground arith

nothing_in : (event : Text) → contains [] event ≡ true → ⊥
unfolding contains
nothing_in event k = ground arith

known :
    (es : List Text) (event : Text)
    → all_known es ≡ true
    → contains es event ≡ true
    → (text_eq event any_event || contains deliverable event) ≡ true
unfolding all_known
known [] event h k = absurd (nothing_in event k)
known (e ∷ es) event h k = elim (Bool-cases (text_eq e event)) [
  | inl this ↦
      rw (← (text_eq_iff e event).0 this)
        (first (text_eq e any_event || contains deliverable e) (all_known es) h)
  | inr next ↦
      known es event (second (text_eq e any_event || contains deliverable e) (all_known es) h)
        (contains-cons e es event k next)
]

-- A webhook whose subscription was validated gets only deliverable events and the test ping. An event
-- named "*" does not exist.
pub subscribed-deliverable :
    (events : List Text) (event : Text)
    → validate_events events ≡ true
    → text_eq event any_event ≡ false
    → subscribed events event ≡ true
    → (text_eq event event_test || contains deliverable event) ≡ true
unfolding validate_events subscribed
subscribed-deliverable events event valid named h = elim (Bool-cases (contains events event)) [
  | inl listed ↦ ground (arith, known events event (ground arith) listed)
  | inr unlisted ↦ ground arith
]

-- Every key of the entries is one of the list.
unfoldable pub keys_among : List Text → Entries → Bool
keys_among keys [] = true
keys_among keys (kv ∷ es) = contains keys kv.0 && keys_among keys es

keys_among-set_entry :
    (keys : List Text) (k : Text) (v : Value) (es : Entries)
    → contains keys k ≡ true
    → keys_among keys es ≡ true
    → keys_among keys (set_entry k v es) ≡ true
unfolding set_entry keys_among
keys_among-set_entry keys k v [] h g = ground arith
keys_among-set_entry keys k v (kv ∷ es) h g = ground (arith, keys_among-set_entry keys k v es h)

abbrev all_in : List Text → List Text → Bool
all_in keys [] = true
all_in keys (k ∷ ks) = contains keys k && all_in keys ks

copy_keys-among :
    (keys ks : List Text) (m out : Entries)
    → all_in keys ks ≡ true
    → keys_among keys out ≡ true
    → keys_among keys (copy_keys ks m out) ≡ true
unfolding copy_keys
copy_keys-among keys [] m out h g = g
copy_keys-among keys (k ∷ ks) m out h g = elim (Option-cases (entry k m)) [
  | inl missing ↦ ground (arith, copy_keys-among keys ks m out (ground arith) g)
  | inr (v, found) ↦
      let set = keys_among-set_entry keys k v out (ground arith) g in
      ground (
        arith,
        copy_keys-among keys ks m out (ground arith) g,
        copy_keys-among keys ks m (set_entry k v out) (ground arith) set,
      )
]

-- The keys that a delivery of the setting "metadata" may have.
abbrev pub allowed_keys : List Text
allowed_keys = bytes "failed" ∷ metadata_keys

allowed : all_in allowed_keys metadata_keys ≡ true
unfolding contains text_eq
allowed = refl

key_ok :
    (contains allowed_keys (bytes "message_id") ≡ true)
    × (contains allowed_keys (bytes "failed") ≡ true)
unfolding contains text_eq
key_ok = (refl, refl)

metadata_of-among : (m : Entries) → keys_among allowed_keys (metadata_of m) ≡ true
unfolding metadata_of keys_among
metadata_of-among m =
    let out = copy_keys metadata_keys m [] in
    let out' : Entries = elim (entry (bytes "MessageID") m) [
      | none ↦ out
      | some v ↦ set_entry (bytes "message_id") v out
    ] in
    let h : keys_among allowed_keys out ≡ true =
      copy_keys-among allowed_keys metadata_keys m [] allowed refl in
    let h' : keys_among allowed_keys out' ≡ true =
      elim (Option-cases (entry (bytes "MessageID") m)) [
        | inl missing ↦ ground arith
        | inr (v, found) ↦
            ground (arith, keys_among-set_entry allowed_keys (bytes "message_id") v out key_ok.0 h)
      ] in
    elim (Option-cases (entry (bytes "error") m)) [
      | inl missing ↦ ground arith
      | inr (v, found) ↦
          ground
            (arith, keys_among-set_entry allowed_keys (bytes "failed") true_value out' key_ok.1 h')
    ]

metadata-among : (p : Payload) → keys_among allowed_keys (metadata p) ≡ true
unfolding metadata
metadata-among p = elim (Option-cases (as_map p)) [
  | inl missing ↦ ground (arith, metadata_of-among [])
  | inr (m, found) ↦ ground (arith, metadata_of-among m)
]

-- A delivery with the payload setting "metadata", or with none, carries only the allowlisted keys and
-- "failed", whatever the event holds.
pub shape-among :
    (p : Payload) (setting : Text)
    → (is_nil setting || text_eq setting payload_metadata) ≡ true
    → keys_among allowed_keys (shape p setting) ≡ true
unfolding shape
shape-among p setting h = ground (arith, metadata-among p)
