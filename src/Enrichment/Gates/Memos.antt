-- ===== src/Enrichment/Gates/Memos.antt =====
-- The verdicts of a cachedGate.
use mathlib.Core.Path.{subst}
use imap_mcp.Prelude.{
  ℕ, ◌+◌, ◌≤◌, ◌<◌, ◌≡◌, ◌⊎◌, refl, true, false, List, [], ◌∷◌, some, arith, Bool-cases, inl, inr,
  if◌then◌else◌,
}
use imap_mcp.Prelude.Int.{max_int64, sub_time}
use imap_mcp.Enrichment.Gates.{Gate, Memo, Verdict, ask, is_fresh}

-- A memo that has been filled holds what the gate said at its time.
pub record IsFaithful (m : Memo) (allow : ℕ → Verdict) : Type 0 where
  pub filled : (m.at ≡ 0) ⊎ (m.verdict ≡ allow m.at)
  pub short : m.ttl ≤ max_int64

abbrev pub gate_of : (ℕ → Verdict) → Memo → Gate
gate_of allow m = record { name = []; allow = allow; memo = some m }

fresh-recent :
    (now : ℕ) (m : Memo)
    → m.ttl ≤ max_int64
    → is_fresh now m ≡ true
    → (1 ≤ m.at) × (now < m.at + m.ttl)
unfolding sub_time
fresh-recent now m h e = ground arith

ask-fresh :
    (now : ℕ) (allow : ℕ → Verdict) (m : Memo)
    → is_fresh now m ≡ true
    → ask now (gate_of allow m) ≡ (m.verdict, gate_of allow m)
unfolding ask
ask-fresh now allow m e = rw e refl

abbrev filled_at : ℕ → (ℕ → Verdict) → Memo → Memo
filled_at now allow m = record m { at = now; verdict = allow now }

ask-stale :
    (now : ℕ) (allow : ℕ → Verdict) (m : Memo)
    → is_fresh now m ≡ false
    → ask now (gate_of allow m) ≡ (allow now, gate_of allow (filled_at now allow m))
unfolding ask
ask-stale now allow m e = rw e refl

-- A verdict that the gate gives now, or gave at a time from which less than the ttl has passed.
pub record Recent (allow : ℕ → Verdict) (ttl now : ℕ) (v : Verdict) : Type 0 where
  pub said_at : ℕ
  pub said : v ≡ allow said_at
  pub recent : (said_at ≡ now) ⊎ (now < said_at + ttl)

ask-Recent :
    (allow : ℕ → Verdict) (m : Memo) (now : ℕ)
    → IsFaithful m allow
    → Recent allow m.ttl now (ask now (gate_of allow m)).0
ask-Recent allow m now h = elim (Bool-cases (is_fresh now m)) [
  | inr e ↦ rw (ask-stale now allow m e) (record { said_at = now; said = refl; recent = inl refl })
  | inl e ↦
      let (set, near) = fresh-recent now m h.short e in
      rw (ask-fresh now allow m e) (elim h.filled [
        | inl zero_time ↦ absurd (omega (arith, set, zero_time))
        | inr said ↦ record { said_at = m.at; said = said; recent = inr near }
      ])
]

-- The memo behind a call.
next : ℕ → (ℕ → Verdict) → Memo → Memo
next now allow m = if is_fresh now m then m else filled_at now allow m

ask-next :
    (now : ℕ) (allow : ℕ → Verdict) (m : Memo)
    → (ask now (gate_of allow m)).1 ≡ gate_of allow (next now allow m)
unfolding next
ask-next now allow m = elim (Bool-cases (is_fresh now m)) [
  | inl e ↦ rw (ask-fresh now allow m e, e) refl
  | inr e ↦ rw (ask-stale now allow m e, e) refl
]

-- The gate behind calls at the times, in their order.
unfoldable pub asked : List ℕ → Gate → Gate
unfolding ask
asked [] g = g
asked (t ∷ times) g = asked times (ask t g).1

next-IsFaithful :
    (now : ℕ) (allow : ℕ → Verdict) (m : Memo)
    → IsFaithful m allow
    → IsFaithful (next now allow m) allow
unfolding next
next-IsFaithful now allow m h = elim (Bool-cases (is_fresh now m)) [
  | inl e ↦ rw e h
  | inr e ↦ rw e (record { filled = inr refl; short = h.short })
]

next-ttl : (now : ℕ) (allow : ℕ → Verdict) (m : Memo) → (next now allow m).ttl ≡ m.ttl
unfolding next
next-ttl now allow m = ground arith

-- A gate that starts with an empty memo answers, after calls at any times, what it says at the time of
-- the call, or said at a time from which less than the ttl has passed.
pub asked-Recent :
    (allow : ℕ → Verdict) (times : List ℕ) (m : Memo) (now : ℕ)
    → IsFaithful m allow
    → Recent allow m.ttl now (ask now (asked times (gate_of allow m))).0
unfolding asked
asked-Recent allow [] m now h = ask-Recent allow m now h
asked-Recent allow (t ∷ times) m now h =
    let rest = asked-Recent allow times (next t allow m) now (next-IsFaithful t allow m h) in
    rw (ask-next t allow m) (
      subst (λ ttl. Recent allow ttl now (ask now (asked times (gate_of allow (next t allow m)))).0)
        (next-ttl t allow m) rest)
