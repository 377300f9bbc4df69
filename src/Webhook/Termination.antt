-- ===== src/Webhook/Termination.antt =====
-- The batches of RunOnce, and the attempts that they use up.
use imap_mcp.Prelude.{
  ℕ, zero, suc, ◌+◌, ◌≤◌, ◌<◌, ◌≡◌, ◌⊎◌, refl, Bool, true, false, List, [], ◌∷◌, Option, some, Text,
  length, take, ltb, if◌then◌else◌, arith, Bool-cases, Option-cases, inl, inr,
}
use imap_mcp.Webhook.Outbox.{
  Status, Webhook, Delivery, Outbox, is_pending, is_due, due_of, due, find_hook, get,
  record_failure, mark_delivered, mark_failed,
}
use imap_mcp.Webhook.Dispatch.{
  batch_size, next_try, answer_of, Answer, accepted, refused, Run, cached_hook, give_up_or_retry,
  deliver, deliver_all, run_once,
}
use imap_mcp.Webhook.Potential.{potential, update-le, update-lt, due-first, failure-le, failure-lt}

pub Answer-cases :
    (a : Answer)
    → ((status : ℕ) × (a ≡ accepted status))
      ⊎ ((status : ℕ) × (msg : Text) × (a ≡ refused status msg))
Answer-cases (accepted status) = inl (status, refl)
Answer-cases (refused status msg) = inr (status, msg, refl)

List-cases {ℓ} : {A : Type ℓ} (xs : List A) → (xs ≡ []) ⊎ ((y : A) × (ys : List A) × (xs ≡ y ∷ ys))
List-cases [] = inl refl
List-cases (y ∷ ys) = inr (y, ys, refl)

abbrev potential_of : Run → ℕ
potential_of r = potential r.box.deliveries

mark_delivered-le :
    (d : Delivery) (status now : ℕ) (b : Outbox)
    → potential (mark_delivered d status now b).deliveries ≤ potential b.deliveries
unfolding mark_delivered
mark_delivered-le d status now b = update-le d.id _ b.deliveries (λ e. omega arith)

module _ (send : Webhook → Delivery → ℕ → Option ℕ) (clock : ℕ → ℕ) where
  retry-le :
      (w : Webhook) (d : Delivery) (status : ℕ) (msg : Text) (now : ℕ) (r : Run)
      → potential_of (give_up_or_retry send clock w d status msg now r).1 ≤ potential_of r
  unfolding give_up_or_retry mark_failed
  retry-le w d status msg now r = elim (Option-cases (find_hook d.webhook_id r.box.hooks)) [
    | inl missing ↦ ground arith
    | inr (hook, found) ↦ ground (
      arith,
      update-le d.id (record_failure status msg (next_try d.attempts now) now) r.box.deliveries
          (failure-le status msg (next_try d.attempts now) now),
    )
  ]

  deliver-le :
      (w : Webhook) (d : Delivery) (r : Run)
      → potential_of (deliver send clock w d r).1 ≤ potential_of r
  unfolding deliver
  deliver-le w d r = elim (Answer-cases (answer_of (send w d (clock r.reads)))) [
    | inl (status, e) ↦ ground (arith, mark_delivered-le d status (clock (r.reads + 1)) r.box)
    | inr (status, msg, e) ↦ ground (arith, retry-le w d status msg (clock r.reads) r)
  ]

  retry-lt :
      (w : Webhook) (d : Delivery) (rest : List Delivery) (status : ℕ) (msg : Text) (now' now : ℕ)
      (r : Run)
      → due_of r.box.hooks now' r.box.deliveries ≡ d ∷ rest
      → find_hook d.webhook_id r.box.hooks ≡ some w
      → potential_of (give_up_or_retry send clock w d status msg now r).1 < potential_of r
  unfolding give_up_or_retry mark_failed
  retry-lt w d rest status msg now' now r e found =
      let waiting : is_pending d.status ≡ true =
        ground (arith, due-first r.box.hooks now' r.box.deliveries d rest e) in
      let less =
        update-lt r.box.hooks now' (record_failure status msg (next_try d.attempts now) now)
          r.box.deliveries d rest (failure-le status msg (next_try d.attempts now) now)
          (failure-lt status msg now now d waiting) e in
      ground (arith, less)

  deliver-lt :
      (w : Webhook) (d : Delivery) (rest : List Delivery) (now : ℕ) (r : Run)
      → due_of r.box.hooks now r.box.deliveries ≡ d ∷ rest
      → find_hook d.webhook_id r.box.hooks ≡ some w
      → potential_of (deliver send clock w d r).1 < potential_of r
  unfolding deliver mark_delivered
  deliver-lt w d rest now r e found = elim (Answer-cases (answer_of (send w d (clock r.reads)))) [
    | inl (status, got) ↦
        let waiting : is_pending d.status ≡ true =
          ground (arith, due-first r.box.hooks now r.box.deliveries d rest e) in
        let f : Delivery → Delivery = λ x. record x {
          status = Status.delivered;
          attempts = x.attempts + 1;
          last_status = status;
          last_error = [];
          done_at = clock (r.reads + 1);
        } in
        let less =
          update-lt r.box.hooks now f r.box.deliveries d rest (λ x. omega arith)
            (ground (arith, waiting)) e in
        ground (arith, less)
    | inr (status, msg, got) ↦
        ground (arith, retry-lt w d rest status msg now (clock r.reads) r e found)
  ]

  -- The local copies of the webhooks behind an attempt.
  abbrev copies : Webhook → Delivery → List Webhook → Run → List Webhook
  copies w d hooks r =
      if (deliver send clock w d r).0 then record w { active = false } ∷ hooks else hooks

  -- What an attempt leaves, counted in `total`.
  abbrev attempted : Webhook → Delivery → Run → Run
  attempted w d r = let r' = (deliver send clock w d r).1 in record r' { total = r'.total + 1 }

  deliver_all-le :
      (ds : List Delivery) (hooks : List Webhook) (r : Run)
      → potential_of (deliver_all send clock ds hooks r) ≤ potential_of r
  unfolding deliver_all
  deliver_all-le [] hooks r = omega arith
  deliver_all-le (d ∷ ds) hooks r = elim (Option-cases (cached_hook d.webhook_id hooks)) [
    | inr (w, known) ↦ ground (
      arith,
      deliver-le w d r,
      deliver_all-le ds (copies w d hooks r) (attempted w d r),
      deliver_all-le ds hooks r,
    )
    | inl new ↦ elim (Option-cases (get d.webhook_id r.box)) [
      | inl missing ↦ ground (arith, deliver_all-le ds hooks r)
      | inr (w, found) ↦ ground (
        arith,
        deliver-le w d r,
        deliver_all-le ds (copies w d (w ∷ hooks) r) (attempted w d r),
        deliver_all-le ds (w ∷ hooks) r,
      )
    ]
  ]

  -- A batch that is not empty uses up an attempt.
  batch-lt :
      (d : Delivery) (rest ds : List Delivery) (now : ℕ) (r : Run)
      → due_of r.box.hooks now r.box.deliveries ≡ d ∷ rest
      → potential_of (deliver_all send clock (d ∷ ds) [] r) < potential_of r
  unfolding deliver_all cached_hook get find_hook
  batch-lt d rest ds now r e =
      let is : is_due r.box.hooks now d ≡ true =
        due-first r.box.hooks now r.box.deliveries d rest e in
      elim (Option-cases (find_hook d.webhook_id r.box.hooks)) [
        | inl missing ↦ absurd (ground arith)
        | inr (w, found) ↦ ground (
          arith,
          deliver-lt w d rest now r e found,
          deliver_all-le ds (copies w d (w ∷ []) r) (attempted w d r),
        )
      ]

  -- RunOnce ends, whatever the receivers answer, however the clock runs, and whenever the context is
  -- done. Count, for each pending delivery, one and its attempts left of 12: any number of batches above
  -- the sum is enough.
  pub run_once-ends :
      (cancelled : ℕ → Bool) (fuel : ℕ) (r : Run)
      → potential r.box.deliveries < fuel
      → (r' : Run) × (run_once send clock cancelled fuel r ≡ some r')
  unfolding run_once due
  run_once-ends cancelled zero r h = absurd (omega arith)
  run_once-ends cancelled (suc fuel) r h =
      let counted : Run = record r { reads = r.reads + 1 } in
      let batch = due (clock r.reads) batch_size r.box in
      let after = deliver_all send clock batch [] counted in
      elim (Bool-cases (cancelled r.reads)) [
        | inl stopped ↦ (r, ground arith)
        | inr going ↦ elim (List-cases (due_of r.box.hooks (clock r.reads) r.box.deliveries)) [
          | inl none_due ↦ (counted, ground arith)
          | inr (d, rest, some_due) ↦ elim (Bool-cases (ltb (length batch) batch_size)) [
            | inl short ↦ (after, ground arith)
            | inr full ↦
                let less : potential after.box.deliveries < potential r.box.deliveries =
                  ground (arith, batch-lt d rest (take 49 rest) (clock r.reads) counted some_due) in
                let (last, ends) = run_once-ends cancelled fuel after (omega (arith, less, h)) in
                (last, ground (arith, ends))
          ]
        ]
      ]
