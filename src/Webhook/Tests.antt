-- ===== src/Webhook/Tests.antt =====
-- Runs of the dispatcher, and the theorems of the webhooks at concrete values.
use imap_mcp.Prelude.{
  ℕ, ◌*◌, ◌<◌, ◌≡◌, refl, true, false, List, [], ◌∷◌, Option, some, Text, bytes, text_eq, contains,
  arith,
}
use imap_mcp.Webhook.{
  any_event, validate_events, subscribed, shape, object, Value, text, payload_metadata, metadata,
  metadata_of, copy_keys, entry, set_entry, as_map,
}
use imap_mcp.Webhook.Outbox.{
  Outbox, create, enqueue, find_hook, has_delivery_id, Webhook, Delivery, pending,
}
use imap_mcp.Webhook.Lifecycle.{
  deliveries_ok, hooks_ok, is_current, empty, Reachable, next, created, enqueued, attempted,
}
use imap_mcp.Webhook.Attempts.{reachable-ok}
use imap_mcp.Webhook.Dispatch.{deliver, backoff, double_backoff, Run, run_once}
use imap_mcp.Webhook.Potential.{potential}
use imap_mcp.Webhook.Termination.{run_once-ends}

backoff_runs : (backoff 1 ≡ 30) × (backoff 3 ≡ 120) × (backoff 9 ≡ 3600)
unfolding backoff double_backoff
backoff_runs = (refl, refl, refl)

abbrev events : List Text
events = any_event ∷ []

valid : validate_events events ≡ true
unfolding validate_events text_eq contains
valid = refl

takes : subscribed events (bytes "rule.fired") ≡ true
unfolding subscribed text_eq contains
takes = refl

no_star : text_eq (bytes "rule.fired") any_event ≡ false
unfolding text_eq
no_star = refl

abbrev failing : List (Text × Value)
failing =
    (bytes "subject", text (bytes "hello"))
    ∷ (bytes "error", text (bytes "no route"))
    ∷ (bytes "uid", text (bytes "7"))
    ∷ []

shaped :
    shape (object failing) payload_metadata
    ≡ (bytes "uid", text (bytes "7")) ∷ (bytes "failed", Value.other 1) ∷ []
unfolding shape metadata metadata_of copy_keys entry set_entry as_map text_eq
shaped = refl

abbrev hook : Webhook
hook = record {
  id = 1;
  url = bytes "https://example.org";
  events = events;
  active = true;
  last_fired = 0;
  fail_count = 0;
  payload = payload_metadata;
  secret = bytes "s";
}

abbrev waiting : Delivery
waiting = record {
  id = 1;
  webhook_id = 1;
  delivery_id = bytes "d1";
  event = bytes "rule.fired";
  payload = [];
  status = pending;
  attempts = 10;
  next_attempt = 0;
  last_status = 0;
  last_error = [];
  done_at = 0;
}

abbrev start : Run
start = record {
  box = record { hooks = hook ∷ []; deliveries = waiting ∷ []; next_hook = 2; next_delivery = 2 };
  reads = 0;
  events = [];
  total = 0;
}

-- A receiver that answers 500, and a clock that runs by an hour.
abbrev failing_send : Webhook → Delivery → ℕ → Option ℕ
failing_send w d now = some 500

abbrev hours : ℕ → ℕ
hours n = n * 3600

few : potential start.box.deliveries < 4
unfolding potential
few = omega arith

run_once-ends_example : (r : Run) × (run_once failing_send hours (λ n. false) 4 start ≡ some r)
run_once-ends_example = run_once-ends failing_send hours (λ n. false) 4 start few

-- A webhook is created, a delivery enqueued, and attempted once.
abbrev hooked : Outbox
hooked = (create (bytes "https://example.org") events (bytes "s") payload_metadata empty).1

abbrev queued : Delivery
queued = record waiting { attempts = 0 }

abbrev filled : Outbox
filled = record hooked { deliveries = queued ∷ []; next_delivery = 2 }

enqueues : enqueue 1 (bytes "d1") (bytes "rule.fired") [] 0 hooked ≡ some filled
unfolding enqueue create find_hook has_delivery_id
enqueues = refl

abbrev loaded : Run
loaded = record { box = filled; reads = 0; events = []; total = 0 }

current : is_current queued filled.deliveries ≡ true
unfolding is_current
current = refl

path : Reachable failing_send hours (deliver failing_send hours hook queued loaded).1.box
path =
    next
      (next
        (next Reachable.start
          (created (bytes "https://example.org") events (bytes "s") payload_metadata))
        (enqueued 1 (bytes "d1") (bytes "rule.fired") [] 0 filled enqueues))
      (attempted hook queued loaded refl current)

reachable-ok_example :
    (let box = (deliver failing_send hours hook queued loaded).1.box in
      (deliveries_ok box.deliveries ≡ true) × (hooks_ok box.hooks ≡ true))
reachable-ok_example =
    reachable-ok failing_send hours (deliver failing_send hours hook queued loaded).1.box path
