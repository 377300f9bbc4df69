-- ===== src/Webhook/Backoff.antt =====
-- The backoff in closed form, and its bounds.
use native.Mathlib.Nat.{mul_assoc}
use imap_mcp.Prelude.{
  ℕ, zero, suc, ◌-◌, ◌*◌, ◌^◌, ◌≤◌, ◌≡◌, ap, ◌∙◌, sym, ltb, min, arith, Bool-cases, inl, inr,
}
use imap_mcp.Webhook.Dispatch.{double_backoff, backoff, max_backoff}

twice : (k : ℕ) → 2 ^ suc k ≡ 2 * 2 ^ k
twice k = omega arith

positive : (k : ℕ) → 1 ≤ 2 ^ k
positive zero = omega arith
positive (suc k) = omega (arith, twice k, positive k)

scaled : (d n : ℕ) → 1 ≤ n → d ≤ d * n
scaled zero n h = omega arith
scaled (suc d) n h = omega (arith, scaled d n h)

double-closed :
    (left d : ℕ) → min (double_backoff left d) max_backoff ≡ min (d * 2 ^ left) max_backoff
unfolding double_backoff
double-closed zero d = omega arith
double-closed (suc left) d = elim (Bool-cases (ltb d max_backoff)) [
  | inl small ↦
      let e : d * 2 * 2 ^ left ≡ d * 2 ^ suc left =
        mul_assoc d 2 (2 ^ left) ∙ ap (λ x. d * x) (sym (twice left)) in
      ground (arith, double-closed left (d * 2), e)
  | inr large ↦ ground (arith, scaled d (2 ^ suc left) (positive (suc left)))
]

double-bound : (left d : ℕ) → d ≤ double_backoff left d
unfolding double_backoff
double-bound zero d = omega arith
double-bound (suc left) d = ground (arith, double-bound left (d * 2))

-- The delay before retry n is half a minute doubled n - 1 times, up to an hour: never less than half a
-- minute, never more than an hour.
pub backoff-closed :
    (attempt : ℕ)
    → (backoff attempt ≡ min (30 * 2 ^ (attempt - 1)) 3600)
      × (30 ≤ backoff attempt)
      × (backoff attempt ≤ 3600)
unfolding backoff
backoff-closed attempt =
    (double-closed (attempt - 1) 30, omega (arith, double-bound (attempt - 1) 30), omega arith)
