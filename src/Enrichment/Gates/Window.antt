-- ===== src/Enrichment/Gates/Window.antt =====
-- internal/config/config.go, ParseWindow, and the gate of the window on the circle of the day.
-- `clock` is time.Parse("15:04", …): the hour and the minute of a text.
use imap_mcp.Prelude.{
  ℕ, ◌+◌, ◌-◌, ◌*◌, ◌%◌, ◌<◌, ◌≡◌, ◌≢◌, List, [], ◌∷◌, Option, none, some, Text, is_nil, ltb, ◌==◌,
  if◌then◌else◌, Bool-cases, Option-cases, inl, inr, arith,
}
use imap_mcp.Prelude.Bytes.{trim_space}
use imap_mcp.Enrichment.Gates.{window_gate}

pub data Window : Type 0 where
  no_window bad_window : Window
  window : ℕ → ℕ → Window

-- strings.Split(s, sep), for a separator of one byte
unfoldable pub split_on : ℕ → Text → List Text
split_on sep [] = [] ∷ []
split_on sep (c ∷ s) = elim (split_on sep s) [
  | [] ↦ []
  | part ∷ parts ↦ if c == sep then [] ∷ part ∷ parts else (c ∷ part) ∷ parts
]

abbrev pub minute_of : ℕ × ℕ → ℕ
minute_of t = t.0 * 60 + t.1

unfoldable pub window_of : Option (ℕ × ℕ) → Option (ℕ × ℕ) → Window
window_of (some s) (some e) =
    if minute_of s == minute_of e then bad_window else window (minute_of s) (minute_of e)
window_of none e = bad_window
window_of (some s) none = bad_window

unfoldable pub parts_window : (Text → Option (ℕ × ℕ)) → List Text → Window
unfolding window_of trim_space
parts_window clock (from ∷ to ∷ []) = window_of (clock (trim_space from)) (clock (trim_space to))
parts_window clock _ = bad_window

unfoldable pub parse_window : (Text → Option (ℕ × ℕ)) → Text → Window
unfolding parts_window split_on trim_space
parse_window clock w =
    if is_nil (trim_space w) then no_window else parts_window clock (split_on b'-' w)

abbrev pub day : ℕ
day = 1440

-- The minutes from `a` to `b` around the clock.
abbrev pub minutes_from : ℕ → ℕ → ℕ
minutes_from a b = (b + day - a) % day

pub window-circular :
    (start end m : ℕ)
    → start < day
    → end < day
    → m < day
    → (window_gate start end m).ok ≡ ltb (minutes_from start m) (minutes_from start end)
unfolding window_gate
window-circular start end m hs he hm = ground arith

module _ (clock : Text → Option (ℕ × ℕ))
    (in_day : (t : Text) (h m : ℕ) → clock t ≡ some (h, m) → (h < 24) × (m < 60)) where
  abbrev Ordered : ℕ → ℕ → Type 0
  Ordered start end = (start < day) × (end < day) × (start ≢ end)

  of-Ordered :
      (s e : Text) (start end : ℕ)
      → window_of (clock s) (clock e) ≡ window start end
      → Ordered start end
  unfolding window_of
  of-Ordered s e start end p = elim (Option-cases (clock s)) [
    | inl no_start ↦ ground arith
    | inr ((h, m), from) ↦ elim (Option-cases (clock e)) [
      | inl no_end ↦ ground arith
      | inr ((h', m'), to) ↦ ground (arith, in_day s h m from, in_day e h' m' to)
    ]
  ]

  parts-Ordered :
      (parts : List Text) (start end : ℕ)
      → parts_window clock parts ≡ window start end
      → Ordered start end
  unfolding parts_window
  parts-Ordered [] start end p = ground arith
  parts-Ordered (a ∷ []) start end p = ground arith
  parts-Ordered (a ∷ b ∷ []) start end p = of-Ordered (trim_space a) (trim_space b) start end p
  parts-Ordered (a ∷ b ∷ c ∷ parts) start end p = ground arith

  -- The gate of a window that ParseWindow accepts allows the backfill at exactly the minutes of the day
  -- that come, counted round the clock from its start, before its end, whether or not it wraps around
  -- midnight; if the clock's texts have hours below 24 and minutes below 60.
  pub parsed-circular :
      (w : Text) (start end m : ℕ)
      → parse_window clock w ≡ window start end
      → m < day
      → (window_gate start end m).ok ≡ ltb (minutes_from start m) (minutes_from start end)
  unfolding parse_window
  parsed-circular w start end m p h = elim (Bool-cases (is_nil (trim_space w))) [
    | inl blank ↦ ground arith
    | inr some_text ↦
        let (lo, hi, differ) = parts-Ordered (split_on b'-' w) start end (ground arith) in
        window-circular start end m lo hi h
  ]
