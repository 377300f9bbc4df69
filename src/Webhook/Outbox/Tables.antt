-- ===== src/Webhook/Outbox/Tables.antt =====
-- internal/db/webhooks.go: the rows of the two tables, and what the statements read and change in them.
use imap_mcp.Prelude.{
  ℕ, Bool, true, false, ◌&&◌, ◌||◌, List, [], ◌∷◌, Option, none, some, Text, text_eq, ◌==◌, leb,
  if◌then◌else◌,
}

pub data Status : Type 0 where
  pending delivered failed : Status

pub record Webhook : Type 0 where
  pub id : ℕ
  pub url : Text
  pub events : List Text
  pub active : Bool
  pub last_fired : ℕ
  pub fail_count : ℕ
  pub payload : Text
  pub secret : Text

pub record Delivery : Type 0 where
  pub id : ℕ
  pub webhook_id : ℕ
  pub delivery_id : Text
  pub event : Text
  pub payload : Text
  pub status : Status
  pub attempts : ℕ
  pub next_attempt : ℕ
  pub last_status : ℕ
  pub last_error : Text
  pub done_at : ℕ

pub record Outbox : Type 0 where
  pub hooks : List Webhook
  pub deliveries : List Delivery
  pub next_hook : ℕ
  pub next_delivery : ℕ

unfoldable pub active_of : List Webhook → List Webhook
active_of [] = []
active_of (w ∷ ws) = let rest = active_of ws in if w.active then w ∷ rest else rest

unfoldable pub find_hook : ℕ → List Webhook → Option Webhook
find_hook id [] = none
find_hook id (w ∷ ws) = if w.id == id then some w else find_hook id ws

unfoldable pub drop_hook : ℕ → List Webhook → List Webhook
drop_hook id [] = []
drop_hook id (w ∷ ws) = let rest = drop_hook id ws in if w.id == id then rest else w ∷ rest

unfoldable pub drop_deliveries : (Delivery → Bool) → List Delivery → List Delivery
drop_deliveries p [] = []
drop_deliveries p (d ∷ ds) = let rest = drop_deliveries p ds in if p d then rest else d ∷ rest

-- UPDATE webhooks SET … WHERE id = ?
unfoldable pub update_hook : ℕ → (Webhook → Webhook) → List Webhook → List Webhook
update_hook id f [] = []
update_hook id f (w ∷ ws) = (if w.id == id then f w else w) ∷ update_hook id f ws

-- UPDATE webhook_deliveries SET … WHERE id = ?
unfoldable pub update_delivery : ℕ → (Delivery → Delivery) → List Delivery → List Delivery
update_delivery id f [] = []
update_delivery id f (d ∷ ds) = (if d.id == id then f d else d) ∷ update_delivery id f ds

unfoldable pub has_delivery_id : Text → List Delivery → Bool
has_delivery_id s [] = false
has_delivery_id s (d ∷ ds) = text_eq d.delivery_id s || has_delivery_id s ds

abbrev pub is_pending : Status → Bool
is_pending pending = true
is_pending _ = false

abbrev pub is_active : ℕ → List Webhook → Bool
is_active id ws = elim (find_hook id ws) [ none ↦ false | some w ↦ w.active ]

-- the WHERE of Due
abbrev pub is_due : List Webhook → ℕ → Delivery → Bool
is_due ws now d = is_pending d.status && (leb d.next_attempt now && is_active d.webhook_id ws)

unfoldable pub due_of : List Webhook → ℕ → List Delivery → List Delivery
unfolding find_hook
due_of ws now [] = []
due_of ws now (d ∷ ds) = let rest = due_of ws now ds in if is_due ws now d then d ∷ rest else rest
