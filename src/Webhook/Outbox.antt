-- ===== src/Webhook/Outbox.antt =====
-- internal/db/webhooks.go: the webhooks and their outbox, over tables as lists of rows in the order
-- of their ids. SQLite's statements are taken to succeed unless a constraint or a missing row stops
-- them. Times are Unix seconds; created_at is left out.
mod Tables
unfoldable pub use Tables.{
  active_of, find_hook, drop_hook, drop_deliveries, update_hook, update_delivery, has_delivery_id,
  is_pending, is_active, is_due, due_of,
}
pub use Tables.{Status, pending, delivered, failed, Webhook, Delivery, Outbox}
use imap_mcp.Prelude.{
  ℕ, ◌+◌, Bool, true, false, ◌&&◌, ◌||◌, List, [], ◌∷◌, ◌++◌, Option, none, some, Text, text_eq,
  take, ◌==◌, ltb, leb, if◌then◌else◌,
}

-- (*WebhookRepo).Create
unfoldable pub create : Text → List Text → Text → Text → Outbox → ℕ × Outbox
create url events secret payload b = (
  b.next_hook,
  record b {
    hooks =
        b.hooks
        ++ record {
          id = b.next_hook;
          url = url;
          events = events;
          active = true;
          last_fired = 0;
          fail_count = 0;
          payload = payload;
          secret = secret;
        }
          ∷ [];
    next_hook = b.next_hook + 1;
  },
)

-- (*WebhookRepo).Active
unfoldable pub active_hooks : Outbox → List Webhook
unfolding active_of
active_hooks b = active_of b.hooks

-- (*WebhookRepo).Get, with `none` for ErrWebhookNotFound
unfoldable pub get : ℕ → Outbox → Option Webhook
unfolding find_hook
get id b = find_hook id b.hooks

-- (*WebhookRepo).Delete, and the cascade
unfoldable pub delete_hook : ℕ → Outbox → Option Outbox
unfolding find_hook drop_hook drop_deliveries
delete_hook id b = elim (find_hook id b.hooks) [
  | none ↦ none
  | some w ↦ some (record b {
    hooks = drop_hook id b.hooks;
    deliveries = drop_deliveries (λ d. d.webhook_id == id) b.deliveries;
  })
]

-- (*WebhookRepo).SetActive
unfoldable pub set_active : ℕ → Bool → Outbox → Option Outbox
unfolding find_hook update_hook
set_active id active b = elim (find_hook id b.hooks) [
  | none ↦ none
  | some w ↦ some (record b {
    hooks =
        update_hook id
          (λ w.
            if active
            then record w { active = true; fail_count = 0 }
            else record w { active = false })
          b.hooks;
  })
]

-- (*WebhookRepo).Enqueue, with `none` where the foreign key or the unique delivery id stops it
unfoldable pub enqueue : ℕ → Text → Text → Text → ℕ → Outbox → Option Outbox
unfolding find_hook has_delivery_id
enqueue webhook_id delivery_id event payload now b =
    let added : Option Outbox = some (record b {
      deliveries =
          b.deliveries
          ++ record {
            id = b.next_delivery;
            webhook_id = webhook_id;
            delivery_id = delivery_id;
            event = event;
            payload = payload;
            status = pending;
            attempts = 0;
            next_attempt = now;
            last_status = 0;
            last_error = [];
            done_at = 0;
          }
            ∷ [];
      next_delivery = b.next_delivery + 1;
    }) in
    elim (find_hook webhook_id b.hooks) [
      | none ↦ none
      | some w ↦ if has_delivery_id delivery_id b.deliveries then none else added
    ]

-- (*WebhookRepo).Due
unfoldable pub due : ℕ → ℕ → Outbox → List Delivery
unfolding due_of
due now limit b = take limit (due_of b.hooks now b.deliveries)

-- (*WebhookRepo).Delivered
unfoldable pub mark_delivered : Delivery → ℕ → ℕ → Outbox → Outbox
unfolding update_hook update_delivery
mark_delivered d status now b = record b {
  deliveries =
      update_delivery d.id
        (λ r. record r {
          status = delivered;
          attempts = r.attempts + 1;
          last_status = status;
          last_error = [];
          done_at = now;
        })
        b.deliveries;
  hooks = update_hook d.webhook_id (λ w. record w { last_fired = now; fail_count = 0 }) b.hooks;
}

-- the UPDATE of a failed attempt; with `next` none the delivery is given up
unfoldable pub record_failure : ℕ → Text → Option ℕ → ℕ → Delivery → Delivery
record_failure status msg none now r = record r {
  status = failed;
  attempts = r.attempts + 1;
  last_status = status;
  last_error = msg;
  done_at = now;
}
record_failure status msg (some next) now r = record r {
  attempts = r.attempts + 1;
  last_status = status;
  last_error = msg;
  next_attempt = next;
}

-- fail_count + 1, and active = 0 once that reaches disableAfter
unfoldable pub count_failure : ℕ → Webhook → Webhook
count_failure disable_after w =
    let fails = w.fail_count + 1 in
    if ltb 0 disable_after && leb disable_after fails
    then record w { fail_count = fails; active = false }
    else record w { fail_count = fails }

-- (*WebhookRepo).Failed, with `none` for its error, which rolls the attempt back
unfoldable pub mark_failed :
    Delivery → ℕ → Text → Option ℕ → ℕ → ℕ → Outbox → Option ((ℕ × Bool) × Outbox)
unfolding find_hook update_hook update_delivery record_failure count_failure
mark_failed d status msg next now disable_after b = elim (find_hook d.webhook_id b.hooks) [
  | none ↦ none
  | some w ↦
      let fails = w.fail_count + 1 in
      some (
        (fails, ltb 0 disable_after && leb disable_after fails),
        record b {
          deliveries = update_delivery d.id (record_failure status msg next now) b.deliveries;
          hooks = update_hook d.webhook_id (count_failure disable_after) b.hooks;
        },
      )
]

-- the WHERE of Prune
abbrev pub is_old : ℕ → ℕ → Delivery → Bool
is_old delivered_before failed_before d = elim d.status [
  | pending ↦ false
  | delivered ↦ ltb d.done_at delivered_before
  | failed ↦ ltb d.done_at failed_before
]

-- (*WebhookRepo).Prune
unfoldable pub prune : ℕ → ℕ → Outbox → Outbox
unfolding drop_deliveries
prune delivered_before failed_before b = record b {
  deliveries = drop_deliveries (is_old delivered_before failed_before) b.deliveries;
}
