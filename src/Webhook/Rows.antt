-- ===== src/Webhook/Rows.antt =====
-- What the changes of the rows do to the checks of an outbox.
use imap_mcp.Prelude.{ℕ, ◌≡◌, refl, Bool, true, ◌&&◌, List, [], ◌∷◌, ◌++◌, arith}
use imap_mcp.Webhook.Outbox.{
  Webhook, Delivery, is_pending, drop_hook, drop_deliveries, update_hook, update_delivery,
}
use imap_mcp.Webhook.Lifecycle.{hook_ok, hooks_ok, delivery_ok, deliveries_ok, is_current}

pub hooks_ok-append : (xs ys : List Webhook) → hooks_ok (xs ++ ys) ≡ (hooks_ok xs && hooks_ok ys)
unfolding hooks_ok
hooks_ok-append [] ys = refl
hooks_ok-append (x ∷ xs) ys = ground (arith, hooks_ok-append xs ys)

pub deliveries_ok-append :
    (xs ys : List Delivery) → deliveries_ok (xs ++ ys) ≡ (deliveries_ok xs && deliveries_ok ys)
unfolding deliveries_ok
deliveries_ok-append [] ys = refl
deliveries_ok-append (x ∷ xs) ys = ground (arith, deliveries_ok-append xs ys)

pub hooks_ok-drop :
    (id : ℕ) (ws : List Webhook) → hooks_ok ws ≡ true → hooks_ok (drop_hook id ws) ≡ true
unfolding hooks_ok drop_hook
hooks_ok-drop id [] h = refl
hooks_ok-drop id (w ∷ ws) h = ground (arith, hooks_ok-drop id ws)

pub deliveries_ok-drop :
    (p : Delivery → Bool) (ds : List Delivery)
    → deliveries_ok ds ≡ true
    → deliveries_ok (drop_deliveries p ds) ≡ true
unfolding deliveries_ok drop_deliveries
deliveries_ok-drop p [] h = refl
deliveries_ok-drop p (d ∷ ds) h = ground (arith, deliveries_ok-drop p ds)

pub hooks_ok-update :
    (id : ℕ) (f : Webhook → Webhook) (ws : List Webhook)
    → ((w : Webhook) → hook_ok w ≡ true → hook_ok (f w) ≡ true)
    → hooks_ok ws ≡ true
    → hooks_ok (update_hook id f ws) ≡ true
unfolding hooks_ok update_hook
hooks_ok-update id f [] k h = refl
hooks_ok-update id f (w ∷ ws) k h = ground (arith, k w, hooks_ok-update id f ws k)

pub deliveries_ok-update :
    (d : Delivery) (f : Delivery → Delivery) (ds : List Delivery)
    → ((x : Delivery)
        → is_pending x.status ≡ true
        → x.attempts ≡ d.attempts
        → delivery_ok x ≡ true
        → delivery_ok (f x) ≡ true)
    → is_current d ds ≡ true
    → deliveries_ok ds ≡ true
    → deliveries_ok (update_delivery d.id f ds) ≡ true
unfolding deliveries_ok update_delivery is_current
deliveries_ok-update d f [] k c h = refl
deliveries_ok-update d f (x ∷ ds) k c h = ground (arith, k x, deliveries_ok-update d f ds k)
