-- ===== src/Trust/Freshness.antt =====
-- The freshness window of Evaluate, in the int64 arithmetic of time.Duration.
use imap_mcp.Prelude.{ℕ, ◌+◌, ◌*◌, ◌≤◌, ◌<◌, ◌^◌, ◌≡◌, ◌↔◌, ◌⊎◌, true, false, arith}
use imap_mcp.Prelude.Int.{max_int64}
use imap_mcp.Trust.{is_stale}

abbrev pub minute : ℕ
minute = 60_000_000_000

-- For a window of at most 153722867 minutes, and a command time less than 2^63 nanoseconds from now,
-- a command is stale exactly when its time lies more than the window before or after the clock.
pub is_stale_iff :
    (window now ts : ℕ)
    → window ≤ 153722867
    → now ≤ ts + max_int64
    → ts ≤ now + max_int64
    → (is_stale window now ts ≡ true)
      ↔ ((ts + window * minute < now) ⊎ (now + window * minute < ts))
unfolding is_stale
is_stale_iff window now ts small near near' = ground arith

-- For a window of at most 153722867 minutes, a command whose time lies 2^63 nanoseconds (292 years) or
-- more ahead is not stale: its age is the least int64, whose negation is itself.
pub far_future_is_fresh :
    (window now ts : ℕ) → window ≤ 153722867 → now + 2 ^ 63 ≤ ts → is_stale window now ts ≡ false
unfolding is_stale
far_future_is_fresh window now ts small far = ground arith
