-- ===== src/Webhook/Lifecycle.antt =====
-- The life of the outbox as steps: the operations of the repository and single attempts of the
-- dispatcher, in any order.
use imap_mcp.Prelude.{
  ℕ, ◌≡◌, Bool, true, not, ◌&&◌, ◌||◌, List, [], ◌∷◌, Option, some, Text, ltb, leb, ◌==◌,
}
use imap_mcp.Webhook.Outbox.{
  pending, delivered, failed, Webhook, Delivery, Outbox, create, delete_hook, set_active, enqueue,
  prune, is_pending,
}
use imap_mcp.Webhook.Dispatch.{disable_after, max_attempts, Run, deliver}

-- An active webhook has had less than 100 failures in a row.
abbrev pub hook_ok : Webhook → Bool
hook_ok w = not w.active || ltb w.fail_count disable_after

unfoldable pub hooks_ok : List Webhook → Bool
hooks_ok [] = true
hooks_ok (w ∷ ws) = hook_ok w && hooks_ok ws

-- A pending delivery has attempts left, a failed one has used them up, a delivered one took no more.
abbrev pub delivery_ok : Delivery → Bool
delivery_ok d = elim d.status [
  | pending ↦ ltb d.attempts max_attempts
  | delivered ↦ leb d.attempts max_attempts
  | failed ↦ d.attempts == max_attempts
]

unfoldable pub deliveries_ok : List Delivery → Bool
deliveries_ok [] = true
deliveries_ok (d ∷ ds) = delivery_ok d && deliveries_ok ds

-- The rows of a delivery's id stand as the dispatcher loaded it.
unfoldable pub is_current : Delivery → List Delivery → Bool
is_current d [] = true
is_current d (x ∷ xs) =
    (not (x.id == d.id) || (is_pending x.status && x.attempts == d.attempts)) && is_current d xs

pub data Step (send : Webhook → Delivery → ℕ → Option ℕ) (clock : ℕ → ℕ) (b : Outbox)
    : Outbox → Type 0 where
  created :
      (url : Text) (events : List Text) (secret payload : Text)
      → Step send clock b (create url events secret payload b).1
  deleted : (id : ℕ) (b' : Outbox) → delete_hook id b ≡ some b' → Step send clock b b'
  switched :
      (id : ℕ) (active : Bool) (b' : Outbox)
      → set_active id active b ≡ some b'
      → Step send clock b b'
  enqueued :
      (hook : ℕ) (delivery event payload : Text) (now : ℕ) (b' : Outbox)
      → enqueue hook delivery event payload now b ≡ some b'
      → Step send clock b b'
  pruned :
      (delivered_before failed_before : ℕ)
      → Step send clock b (prune delivered_before failed_before b)
  attempted :
      (w : Webhook) (d : Delivery) (r : Run)
      → r.box ≡ b
      → is_current d b.deliveries ≡ true
      → Step send clock b (deliver send clock w d r).1.box

abbrev pub empty : Outbox
empty = record { hooks = []; deliveries = []; next_hook = 1; next_delivery = 1 }

pub data Reachable (send : Webhook → Delivery → ℕ → Option ℕ) (clock : ℕ → ℕ)
    : Outbox → Type 0 where
  start : Reachable send clock empty
  next : {b b' : Outbox} → Reachable send clock b → Step send clock b b' → Reachable send clock b'
