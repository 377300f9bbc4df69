-- ===== src/Enrichment/Handled.antt =====
-- The rows of the queue behind the end of an item.
use imap_mcp.Prelude.{
  ℕ, ◌+◌, ◌/◌, ◌≡◌, refl, ◌∙◌, Bool, true, false, not, ◌&&◌, List, ◌∷◌, Text, is_nil, All, ◌==◌,
  leb, if◌then◌else◌, arith, Bool-cases, inl, inr,
}
use imap_mcp.Enrichment.{
  Status, pending, processing, done, error, Row, World, Config, Answer, answered, refused, Pipeline,
  of_queue, of_message, with_vector, with_tags, queue_failed, message_failed, queue_done,
  message_done, update_where, apply_result, fail_rows, done_rows, enrich, fail, succeed, settle,
  handle, back_off, second,
}
use imap_mcp.Enrichment.Tags.{EnrichResult}
use imap_mcp.Enrichment.Invariant.{
  Good, All-update, allowed_attempts, count_key, todo_ok, running_ok, todo_ok-absent,
  running_ok-absent,
}

settled : Status → Row → Row
settled s r = record r { status = s }

-- A status that the end of the item may give to its row.
abbrev may_end : Config → Row → Status → Bool
may_end cfg it s = elim s [
  | pending ↦ not (leb (allowed_attempts cfg) (it.attempts + 1))
  | processing ↦ false
  | done ↦ true
  | error ↦ leb (allowed_attempts cfg) (it.attempts + 1)
]

end-hit :
    (cfg : Config) (it : Row) (todo others : List Row) (s : Status) (r : Row)
    → may_end cfg it s ≡ true
    → Good (allowed_attempts cfg) todo (it ∷ others) r
    → (r.queue_id == it.queue_id) ≡ true
    → Good (allowed_attempts cfg) todo others (settled s r)
unfolding todo_ok running_ok count_key settled
end-hit cfg it todo others s r m h e =
    ground (
      arith,
      todo_ok-absent r (settled s r) todo refl,
      running_ok-absent r (settled s r) others refl,
    )

end-miss :
    (most : ℕ) (it : Row) (todo others : List Row) (r : Row)
    → Good most todo (it ∷ others) r
    → (r.queue_id == it.queue_id) ≡ false
    → Good most todo others r
unfolding todo_ok running_ok count_key
end-miss most it todo others r h e = ground arith

-- What no update of the message changes, the result leaves alone.
pub apply_result-same {ℓ} :
    {A : Type ℓ} (m : List Row → A) (it : Row) (result : EnrichResult) (rows : List Row)
    → ((q : List Row) → m (update_where (of_message it) (with_vector result.embedding) q) ≡ m q)
    → ((q : List Row) → m (update_where (of_message it) (with_tags result) q) ≡ m q)
    → m (apply_result it result rows) ≡ m rows
unfolding apply_result
apply_result-same m it result rows f g =
    let saved : List Row =
      if is_nil result.embedding
      then rows
      else update_where (of_message it) (with_vector result.embedding) rows in
    let kept : m saved ≡ m rows = elim (Bool-cases (is_nil result.embedding)) [
      | inl e ↦ rw e refl
      | inr e ↦ rw e (f rows)
    ] in
    elim (Bool-cases (is_nil result.hall && is_nil result.wing && is_nil result.room)) [
      | inl e ↦ rw e kept
      | inr e ↦ rw e (g saved ∙ kept)
    ]

module _ (it : Row) (P : Row → Type 0) where
  -- What depends on no column of the message holds on.
  message-keeps :
      (f : Row → Row) (rows : List Row)
      → ((r : Row) → P r → P (f r))
      → All P rows
      → All P (update_where (of_message it) f rows)
  message-keeps f rows g h = All-update P P (of_message it) f rows (λ r p e. g r p) (λ r p e. p) h

  pub apply_result-keeps :
      (result : EnrichResult) (rows : List Row)
      → ((r : Row) → P r → P (with_vector result.embedding r))
      → ((r : Row) → P r → P (with_tags result r))
      → All P rows
      → All P (apply_result it result rows)
  unfolding apply_result
  apply_result-keeps result rows f g h =
      let saved : List Row =
        if is_nil result.embedding
        then rows
        else update_where (of_message it) (with_vector result.embedding) rows in
      let first : All P saved = elim (Bool-cases (is_nil result.embedding)) [
        | inl e ↦ rw e h
        | inr e ↦ rw e (message-keeps (with_vector result.embedding) rows f h)
      ] in
      elim (Bool-cases (is_nil result.hall && is_nil result.wing && is_nil result.room)) [
        | inl e ↦ rw e first
        | inr e ↦ rw e (message-keeps (with_tags result) saved g first)
      ]

module _ (cfg : Config) (it : Row) (todo others : List Row) where
  abbrev pub Before : Row → Type 0
  Before = Good (allowed_attempts cfg) todo (it ∷ others)

  abbrev pub After : Row → Type 0
  After = Good (allowed_attempts cfg) todo others

  pub fail_rows-Good :
      (text : Text) (rows : List Row) → All Before rows → All After (fail_rows cfg it text rows)
  unfolding fail_rows settled todo_ok running_ok
  fail_rows-Good text rows h = elim (Bool-cases (leb (allowed_attempts cfg) (it.attempts + 1))) [
    | inl last ↦ rw last (
        message-keeps it After (message_failed text) _ (λ r g. g)
          (All-update Before After (of_queue it) (queue_failed error text) rows
            (λ r g e. end-hit cfg it todo others error r last g e)
            (end-miss (allowed_attempts cfg) it todo others) h))
    | inr more ↦ rw more (
        All-update Before After (of_queue it) (queue_failed pending text) rows
          (λ r g e. end-hit cfg it todo others pending r (ground arith) g e)
          (end-miss (allowed_attempts cfg) it todo others) h)
  ]

  pub done_rows-Good :
      (now : ℕ) (rows : List Row) → All Before rows → All After (done_rows it now rows)
  unfolding done_rows settled todo_ok running_ok
  done_rows-Good now rows h =
      message-keeps it After (message_done now) _ (λ r g. g)
        (All-update Before After (of_queue it) (queue_done now) rows
          (λ r g e. end-hit cfg it todo others done r refl g e)
          (end-miss (allowed_attempts cfg) it todo others) h)

module _ (w : World) (it : Row) (todo others : List Row) where
  -- The end of a running item keeps every row good.
  settle-Good :
      (a : Answer EnrichResult) (p : Pipeline)
      → All (Before w.cfg it todo others) p.rows
      → All (After w.cfg it todo others) (settle w it a p).1.rows
  unfolding settle fail succeed back_off todo_ok running_ok
  settle-Good (refused e) p h = elim (Bool-cases e.transient) [
    | inl t ↦ rw t (fail_rows-Good w.cfg it todo others e.text p.rows h)
    | inr t ↦ rw t (fail_rows-Good w.cfg it todo others e.text p.rows h)
  ]
  settle-Good (answered result) p h =
      done_rows-Good w.cfg it todo others (w.clock p.calls / second) (apply_result it result p.rows)
        (apply_result-keeps it (Before w.cfg it todo others) result p.rows (λ r g. g) (λ r g. g) h)

  pub handle-Good :
      (p : Pipeline)
      → All (Before w.cfg it todo others) p.rows
      → All (After w.cfg it todo others) (handle w it p).1.rows
  unfolding handle
  handle-Good p h = settle-Good (enrich w p.calls it) _ h
