-- ===== src/Webhook/Attempts.antt =====
-- The attempts of a delivery and the failures of a webhook, along the steps of the outbox.
use imap_mcp.Prelude.{
  ℕ, ◌+◌, ◌≡◌, refl, Bool, true, false, ◌&&◌, List, [], ◌∷◌, ◌++◌, Option, some, Text, ltb, ◌==◌,
  if◌then◌else◌, arith, Bool-cases, Option-cases, inl, inr,
}
use imap_mcp.Webhook.Outbox.{
  pending, delivered, Webhook, Delivery, Outbox, create, delete_hook, set_active, enqueue, prune,
  is_pending, find_hook, drop_hook, drop_deliveries, update_hook, record_failure, count_failure,
  mark_delivered, mark_failed, is_old,
}
use imap_mcp.Webhook.Dispatch.{
  disable_after, max_attempts, next_try, Run, answer_of, give_up_or_retry, deliver,
}
use imap_mcp.Webhook.Termination.{Answer-cases}
use imap_mcp.Webhook.Lifecycle.{
  hook_ok, hooks_ok, delivery_ok, deliveries_ok, is_current, Step, created, deleted, switched,
  enqueued, pruned, attempted, Reachable, start, next,
}
use imap_mcp.Webhook.Rows.{
  hooks_ok-append, deliveries_ok-append, hooks_ok-drop, deliveries_ok-drop, hooks_ok-update,
  deliveries_ok-update,
}

abbrev sound : Outbox → Bool
sound b = hooks_ok b.hooks && deliveries_ok b.deliveries

create-sound :
    (url : Text) (events : List Text) (secret payload : Text) (b : Outbox)
    → sound b ≡ true
    → sound (create url events secret payload b).1 ≡ true
unfolding create hooks_ok
create-sound url events secret payload b h =
    let w : Webhook = record {
      id = b.next_hook;
      url = url;
      events = events;
      active = true;
      last_fired = 0;
      fail_count = 0;
      payload = payload;
      secret = secret;
    } in
    ground (arith, hooks_ok-append b.hooks (w ∷ []))

delete-sound :
    (id : ℕ) (b b' : Outbox) → delete_hook id b ≡ some b' → sound b ≡ true → sound b' ≡ true
unfolding delete_hook
delete-sound id b b' e h = elim (Option-cases (find_hook id b.hooks)) [
  | inl missing ↦ absurd (ground arith)
  | inr (w, found) ↦
      let owned : Delivery → Bool = λ d. d.webhook_id == id in
      let after : Outbox = record b {
        hooks = drop_hook id b.hooks;
        deliveries = drop_deliveries owned b.deliveries;
      } in
      let e' : after ≡ b' = ground arith in
      rw (← e') (ground (arith, hooks_ok-drop id b.hooks, deliveries_ok-drop owned b.deliveries))
]

set_active-sound :
    (id : ℕ) (active : Bool) (b b' : Outbox)
    → set_active id active b ≡ some b'
    → sound b ≡ true
    → sound b' ≡ true
unfolding set_active
set_active-sound id active b b' e h = elim (Option-cases (find_hook id b.hooks)) [
  | inl missing ↦ absurd (ground arith)
  | inr (w, found) ↦
      let f : Webhook → Webhook = λ w.
        if active
        then record w { active = true; fail_count = 0 }
        else record w { active = false } in
      let after : Outbox = record b { hooks = update_hook id f b.hooks } in
      let e' : after ≡ b' = ground arith in
      rw (← e') (ground (arith, hooks_ok-update id f b.hooks (λ w k. ground arith)))
]

enqueue-sound :
    (hook : ℕ) (delivery event payload : Text) (now : ℕ) (b b' : Outbox)
    → enqueue hook delivery event payload now b ≡ some b'
    → sound b ≡ true
    → sound b' ≡ true
unfolding enqueue deliveries_ok
enqueue-sound hook delivery event payload now b b' e h =
    elim (Option-cases (find_hook hook b.hooks)) [
      | inl missing ↦ absurd (ground arith)
      | inr (w, found) ↦
          let d : Delivery = record {
            id = b.next_delivery;
            webhook_id = hook;
            delivery_id = delivery;
            event = event;
            payload = payload;
            status = pending;
            attempts = 0;
            next_attempt = now;
            last_status = 0;
            last_error = [];
            done_at = 0;
          } in
          let after : Outbox = record b {
            deliveries = b.deliveries ++ d ∷ [];
            next_delivery = b.next_delivery + 1;
          } in
          let e' : after ≡ b' = ground arith in
          rw (← e') (ground (arith, deliveries_ok-append b.deliveries (d ∷ [])))
    ]

prune-sound : (x y : ℕ) (b : Outbox) → sound b ≡ true → sound (prune x y b) ≡ true
unfolding prune
prune-sound x y b h = ground (arith, deliveries_ok-drop (is_old x y) b.deliveries)

failure-ok :
    (status : ℕ) (msg : Text) (now now' n : ℕ) (x : Delivery)
    → is_pending x.status ≡ true
    → x.attempts ≡ n
    → delivery_ok x ≡ true
    → delivery_ok (record_failure status msg (next_try n now') now x) ≡ true
unfolding record_failure next_try
failure-ok status msg now now' n x waiting e h = elim (Bool-cases (ltb (n + 1) max_attempts)) [
  | inl again ↦ ground arith
  | inr last ↦ ground arith
]

count-ok : (w : Webhook) → hook_ok w ≡ true → hook_ok (count_failure disable_after w) ≡ true
unfolding count_failure
count-ok w h = ground arith

delivered-sound :
    (d : Delivery) (status now : ℕ) (b : Outbox)
    → is_current d b.deliveries ≡ true
    → sound b ≡ true
    → sound (mark_delivered d status now b) ≡ true
unfolding mark_delivered
delivered-sound d status now b c h =
    let fired : Webhook → Webhook = λ w. record w { last_fired = now; fail_count = 0 } in
    let done : Delivery → Delivery = λ r. record r {
      status = delivered;
      attempts = r.attempts + 1;
      last_status = status;
      last_error = [];
      done_at = now;
    } in
    ground (
      arith,
      hooks_ok-update d.webhook_id fired b.hooks (λ w k. ground arith),
      deliveries_ok-update d done b.deliveries (λ x p e k. ground arith) c,
    )

module _ (send : Webhook → Delivery → ℕ → Option ℕ) (clock : ℕ → ℕ) where
  retry-sound :
      (w : Webhook) (d : Delivery) (status : ℕ) (msg : Text) (now : ℕ) (r : Run)
      → is_current d r.box.deliveries ≡ true
      → sound r.box ≡ true
      → sound (give_up_or_retry send clock w d status msg now r).1.box ≡ true
  unfolding give_up_or_retry mark_failed
  retry-sound w d status msg now r c h = elim (Option-cases (find_hook d.webhook_id r.box.hooks)) [
    | inl missing ↦ ground arith
    | inr (hook, found) ↦ ground (
      arith,
      hooks_ok-update d.webhook_id (count_failure disable_after) r.box.hooks count-ok,
      deliveries_ok-update d (record_failure status msg (next_try d.attempts now) now)
          r.box.deliveries (λ x p e k. failure-ok status msg now now d.attempts x p e k) c,
    )
  ]

  attempt-sound :
      (w : Webhook) (d : Delivery) (r : Run)
      → is_current d r.box.deliveries ≡ true
      → sound r.box ≡ true
      → sound (deliver send clock w d r).1.box ≡ true
  unfolding deliver
  attempt-sound w d r c h = elim (Answer-cases (answer_of (send w d (clock r.reads)))) [
    | inl (status, e) ↦ ground (arith, delivered-sound d status (clock (r.reads + 1)) r.box c h)
    | inr (status, msg, e) ↦ ground (arith, retry-sound w d status msg (clock r.reads) r c h)
  ]

  step-sound : {b b' : Outbox} → Step send clock b b' → sound b ≡ true → sound b' ≡ true
  step-sound {b} (created url events secret payload) h = create-sound url events secret payload b h
  step-sound {b} (deleted id b' e) h = delete-sound id b b' e h
  step-sound {b} (switched id active b' e) h = set_active-sound id active b b' e h
  step-sound {b} (enqueued hook delivery event payload now b' e) h =
      enqueue-sound hook delivery event payload now b b' e h
  step-sound {b} (pruned x y) h = prune-sound x y b h
  step-sound {b} (attempted w d r e c) h = attempt-sound w d r (rw e c) (rw e h)

  reachable-sound : {b : Outbox} → Reachable send clock b → sound b ≡ true
  unfolding hooks_ok deliveries_ok
  reachable-sound start = refl
  reachable-sound (next path step) = step-sound step (reachable-sound path)

  -- Whatever operations and attempts have led to an outbox: a pending delivery has had less than 12
  -- attempts, a failed one exactly 12, and a delivered one at most 12; and no active webhook has failed
  -- 100 times in a row. An attempt is made for a row that stands as the dispatcher loaded it.
  pub reachable-ok :
      (b : Outbox)
      → Reachable send clock b
      → (deliveries_ok b.deliveries ≡ true) × (hooks_ok b.hooks ≡ true)
  reachable-ok b path = let h = reachable-sound path in (ground (arith, h), ground (arith, h))
