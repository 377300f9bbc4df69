-- ===== src/Webhook/Potential.antt =====
-- The attempts that the pending deliveries have left, and what the updates of a delivery do to them.
use imap_mcp.Prelude.{
  ℕ, ◌+◌, ◌-◌, ◌≤◌, ◌<◌, ◌≡◌, ap, true, List, [], ◌∷◌, Option, none, some, Text, if◌then◌else◌,
  arith, Bool-cases, inl, inr,
}
use imap_mcp.Webhook.Outbox.{
  Webhook, Delivery, is_pending, is_due, due_of, update_delivery, record_failure,
}
use imap_mcp.Webhook.Dispatch.{max_attempts, next_try}

-- The attempts that a delivery has left, one more while it is pending.
abbrev pub left_of : Delivery → ℕ
left_of d = if is_pending d.status then 1 + (max_attempts - d.attempts) else 0

unfoldable pub potential : List Delivery → ℕ
potential [] = 0
potential (d ∷ ds) = left_of d + potential ds

-- An update that never raises what is left.
pub update-le :
    (id : ℕ) (f : Delivery → Delivery) (ds : List Delivery)
    → ((d : Delivery) → left_of (f d) ≤ left_of d)
    → potential (update_delivery id f ds) ≤ potential ds
unfolding update_delivery potential
update-le id f [] h = omega arith
update-le id f (d ∷ ds) h = ground (arith, h d, update-le id f ds h)

-- An update that lowers what is left of the first due delivery.
pub update-lt :
    (ws : List Webhook) (now : ℕ) (f : Delivery → Delivery) (ds : List Delivery) (d : Delivery)
    (rest : List Delivery)
    → ((e : Delivery) → left_of (f e) ≤ left_of e)
    → left_of (f d) < left_of d
    → due_of ws now ds ≡ d ∷ rest
    → potential (update_delivery d.id f ds) < potential ds
unfolding due_of update_delivery potential
update-lt ws now f [] d rest h k e = absurd (ground arith)
update-lt ws now f (x ∷ ds) d rest h k e = elim (Bool-cases (is_due ws now x)) [
  | inr later ↦ ground (arith, h x, update-lt ws now f ds d rest h k (ground arith))
  | inl here ↦
      let same : x ≡ d = ground arith in
      let less : left_of (f x) < left_of x = rw same k in
      let id : x.id ≡ d.id = ap (λ y. y.id) same in ground (arith, less, id, update-le d.id f ds h)
]

-- The first due delivery is pending, and its webhook is there and active.
pub due-first :
    (ws : List Webhook) (now : ℕ) (ds : List Delivery) (d : Delivery) (rest : List Delivery)
    → due_of ws now ds ≡ d ∷ rest
    → is_due ws now d ≡ true
unfolding due_of
due-first ws now [] d rest e = absurd (ground arith)
due-first ws now (x ∷ ds) d rest e = elim (Bool-cases (is_due ws now x)) [
  | inr later ↦ due-first ws now ds d rest (ground arith)
  | inl here ↦ let same : x ≡ d = ground arith in rw (← same) here
]

pub failure-le :
    (status : ℕ) (msg : Text) (next : Option ℕ) (now : ℕ) (d : Delivery)
    → left_of (record_failure status msg next now d) ≤ left_of d
unfolding record_failure
failure-le status msg none now d = ground arith
failure-le status msg (some t) now d = ground arith

pub failure-lt :
    (status : ℕ) (msg : Text) (now now' : ℕ) (d : Delivery)
    → is_pending d.status ≡ true
    → left_of (record_failure status msg (next_try d.attempts now') now d) < left_of d
unfolding record_failure next_try
failure-lt status msg now now' d h = ground arith
