-- ===== src/Webhook/Dispatch.antt =====
-- internal/webhook/dispatch.go: the backoff, one delivery attempt, and RunOnce. `send` is the HTTP
-- client: the status code of the answer, or none when the request failed. `clock n` is the n-th
-- reading of the clock, and `done n` tells whether the context is done before the n-th batch.
use imap_mcp.Prelude.{
  ℕ, zero, suc, ◌+◌, ◌-◌, ◌*◌, Bool, true, false, ◌||◌, List, [], ◌∷◌, ◌++◌, Option, none, some,
  Text, bytes, length, ltb, min, if◌then◌else◌, is_nil,
}
use imap_mcp.Webhook.Outbox.{
  Webhook, Delivery, Outbox, due, get, find_hook, mark_delivered, mark_failed,
}

abbrev pub max_attempts : ℕ
max_attempts = 12

-- in seconds
abbrev pub base_backoff : ℕ
base_backoff = 30

abbrev pub max_backoff : ℕ
max_backoff = 3600

abbrev pub disable_after : ℕ
disable_after = 100

abbrev pub batch_size : ℕ
batch_size = 50

-- the loop of Backoff, with the rounds that i < attempt leaves
unfoldable pub double_backoff : ℕ → ℕ → ℕ
double_backoff zero d = d
double_backoff (suc left) d =
    let more = double_backoff left (d * 2) in if ltb d max_backoff then more else d

-- Backoff
unfoldable pub backoff : ℕ → ℕ
unfolding double_backoff
backoff attempt = min (double_backoff (attempt - 1) base_backoff) max_backoff

-- What an attempt came to: a 2xx answer, another answer, or no answer.
pub data Answer : Type 0 where
  accepted : ℕ → Answer
  refused : ℕ → Text → Answer

pub data Event : Type 0 where
  webhook_delivered : ℕ → Text → Event
  webhook_failed : ℕ → Text → ℕ → Bool → Event

-- the end of post
unfoldable pub answer_of : Option ℕ → Answer
answer_of none = refused 0 (bytes "request failed")
answer_of (some code) =
    if ltb code 200 || ltb 299 code then refused code (bytes "HTTP error") else accepted code

-- next: the time of the retry, or none when the attempts are used up
unfoldable pub next_try : ℕ → ℕ → Option ℕ
unfolding backoff
next_try attempts now =
    if ltb (attempts + 1) max_attempts then some (now + backoff (attempts + 1)) else none

-- The state of RunOnce: the outbox, the readings of the clock, the published events, and `total`.
pub record Run : Type 0 where
  pub box : Outbox
  pub reads : ℕ
  pub events : List Event
  pub total : ℕ

abbrev pub is_none {ℓ} : {A : Type ℓ} → Option A → Bool
is_none none = true
is_none (some a) = false

-- the local copies of the webhooks of a batch, the newest first
unfoldable pub cached_hook : ℕ → List Webhook → Option Webhook
unfolding find_hook
cached_hook id hooks = find_hook id hooks

module _ (send : Webhook → Delivery → ℕ → Option ℕ) (clock : ℕ → ℕ) where
  -- what deliver does behind a failed attempt, and whether it disabled the webhook
  unfoldable pub give_up_or_retry : Webhook → Delivery → ℕ → Text → ℕ → Run → Bool × Run
  give_up_or_retry w d status msg now r =
      let next = next_try d.attempts now in
      let (fails, disabled, box) : ℕ × Bool × Outbox =
        elim (mark_failed d status msg next now disable_after r.box) [
          | none ↦ (0, false, r.box)
          | some out ↦ (out.0.0, out.0.1, out.1)
        ] in
      (
        disabled,
        record r {
          box = box;
          reads = r.reads + 1;
          events =
              if is_none next || disabled
              then r.events ++ webhook_failed w.id d.delivery_id fails disabled ∷ []
              else r.events;
        },
      )

  -- (*Dispatcher).deliver
  unfoldable pub deliver : Webhook → Delivery → Run → Bool × Run
  deliver w d r =
      let now = clock r.reads in
      elim (answer_of (send w d now)) [
        | accepted status ↦ (
          false,
          record r {
            box = mark_delivered d status (clock (r.reads + 1)) r.box;
            reads = r.reads + 2;
            events = r.events ++ webhook_delivered w.id d.delivery_id ∷ [];
          },
        )
        | refused status msg ↦ give_up_or_retry w d status msg now r
      ]

  -- the loop over a batch
  unfoldable pub deliver_all : List Delivery → List Webhook → Run → Run
  deliver_all [] hooks r = r
  deliver_all (d ∷ ds) hooks r =
      let attempt : Webhook → List Webhook → Run = λ w known.
        let (disabled, r') = deliver w d r in
        let known' = if disabled then record w { active = false } ∷ known else known in
        if w.active
        then deliver_all ds known' (record r' { total = r'.total + 1 })
        else deliver_all ds known r in
      elim (cached_hook d.webhook_id hooks) [
        | some w ↦ attempt w hooks
        | none ↦ elim (get d.webhook_id r.box) [
          | none ↦ deliver_all ds hooks r
          | some w ↦ attempt w (w ∷ hooks)
        ]
      ]

  -- RunOnce; `fuel` bounds the batches, and none stands for a loop that goes on
  unfoldable pub run_once : (ℕ → Bool) → ℕ → Run → Option Run
  run_once cancelled zero r = none
  run_once cancelled (suc fuel) r =
      let batch = due (clock r.reads) batch_size r.box in
      let r' = deliver_all batch [] (record r { reads = r.reads + 1 }) in
      let more = run_once cancelled fuel r' in
      if cancelled r.reads
      then some r
      else if is_nil batch
      then some (record r { reads = r.reads + 1 })
      else if ltb (length batch) batch_size
      then some r'
      else more
