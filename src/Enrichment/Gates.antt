-- ===== src/Enrichment/Gates.antt =====
-- internal/enrichment/gates.go: the gates that pause the backfill lane. A reason is kept as what its
-- text prints. An int64 or an int is its 64 bits.
pub mod Window
pub mod Memos
pub mod Services
use imap_mcp.Prelude.{
  ℕ, ◌+◌, ◌*◌, ◌%◌, ◌/◌, ◌^◌, Bool, true, false, not, ◌&&◌, ◌||◌, List, [], ◌∷◌, ◌++◌, Option, none,
  some, Text, bytes, text_eq, contains, ◌==◌, ltb, leb, if◌then◌else◌,
}
use imap_mcp.Prelude.Int.{ℤ, pos, gtb_ℤ, sub_time}

pub data Reason : Type 0 where
  empty ollama_unreachable ollama_unreadable datawatch_unreachable : Reason
  datawatch_unreadable : ℕ → Reason
  outside_window : ℕ → ℕ → Reason
  foreign_models : List Text → ℕ → Reason
  pool_full : Text → ℕ → ℕ → Reason
  work_waiting : Text → Reason

pub record Verdict : Type 0 where
  pub ok : Bool
  pub reason : Reason

abbrev pub allowed : Verdict
allowed = record { ok = true; reason = empty }

abbrev pub refused : Reason → Verdict
refused why = record { ok = false; reason = why }

-- windowGate.Allow at a minute of the day
unfoldable pub window_gate : ℕ → ℕ → ℕ → Verdict
window_gate start end m =
    let plain = leb start m && ltb m end in
    let wrapped = leb start m || ltb m end in
    if (if ltb end start then wrapped else plain)
    then allowed
    else refused (outside_window start end)

-- a < b on the int64 of two patterns
abbrev pub lt_int64 : ℕ → ℕ → Bool
lt_int64 a b = ltb ((a + 2 ^ 63) % 2 ^ 64) ((b + 2 ^ 63) % 2 ^ 64)

-- strings.TrimSuffix
unfoldable pub trim_suffix : Text → Text → Text
trim_suffix [] suffix = []
trim_suffix (c ∷ s) suffix =
    let rest = trim_suffix s suffix in if text_eq (c ∷ s) suffix then [] else c ∷ rest

unfoldable pub base_model : Text → Text
unfolding trim_suffix
base_model name = trim_suffix name (bytes ":latest")

-- slices.ContainsFunc(g.ours, …)
unfoldable pub is_ours : List Text → Text → Bool
unfolding base_model
is_ours [] name = false
is_ours (o ∷ ours) name = text_eq (base_model o) (base_model name) || is_ours ours name

pub record Model : Type 0 where
  pub name : Text
  pub size : ℕ
  pub size_vram : ℕ

-- An answer of a service: none, or its status and its body, where it decodes.
pub record Reply {ℓ} (A : Type ℓ) : Type ℓ where
  pub status_code : ℕ
  pub decoded : Option A

-- The bytes of the models that are not ours.
unfoldable pub foreign_bytes : List Text → List Model → ℕ
unfolding is_ours
foreign_bytes ours [] = 0
foreign_bytes ours (m ∷ ms) =
    let rest = foreign_bytes ours ms in
    if is_ours ours m.name
    then rest
    else (rest + (if m.size_vram == 0 then m.size else m.size_vram)) % 2 ^ 64

unfoldable pub foreign_names : List Text → List Model → List Text
unfolding is_ours
foreign_names ours [] = []
foreign_names ours (m ∷ ms) =
    let rest = foreign_names ours ms in if is_ours ours m.name then rest else m.name ∷ rest

-- ollamaGate.Allow, behind the answer of /api/ps
unfoldable pub ollama_gate : List Text → ℕ → Option (Reply (List Model)) → Verdict
unfolding foreign_bytes foreign_names
ollama_gate ours max_foreign none = record { ok = true; reason = ollama_unreachable }
ollama_gate ours max_foreign (some reply) = elim reply.decoded [
  | none ↦ record { ok = true; reason = ollama_unreadable }
  | some ms ↦
      if not (reply.status_code == 200)
      then record { ok = true; reason = ollama_unreadable }
      else if lt_int64 max_foreign (foreign_bytes ours ms)
      then refused (foreign_models (foreign_names ours ms) (foreign_bytes ours ms))
      else allowed
]

pub record Pool : Type 0 where
  pub name : Text
  pub limit : ℕ
  pub external : ℕ
  pub held : ℕ

pub record Capacity : Type 0 where
  pub pools : List Pool
  pub waiting : List (List Text)

abbrev pub is_full : Pool → Bool
is_full p = lt_int64 0 p.limit && not (lt_int64 ((p.held + p.external) % 2 ^ 64) p.limit)

unfoldable pub full_pool : List Text → List Pool → Option Pool
full_pool watched [] = none
full_pool watched (p ∷ ps) =
    let rest = full_pool watched ps in if contains watched p.name && is_full p then some p else rest

unfoldable pub watched_of : List Text → List Text → Option Text
watched_of watched [] = none
watched_of watched (n ∷ names) =
    let rest = watched_of watched names in if contains watched n then some n else rest

unfoldable pub waiting_pool : List Text → List (List Text) → Option Text
unfolding watched_of
waiting_pool watched [] = none
waiting_pool watched (names ∷ rest) = elim (watched_of watched names) [
  | some n ↦ some n
  | none ↦ waiting_pool watched rest
]

-- datawatchGate.Allow, behind the answer of /api/capacity
unfoldable pub datawatch_gate : List Text → Option (Reply Capacity) → Verdict
unfolding full_pool waiting_pool
datawatch_gate watched none = record { ok = true; reason = datawatch_unreachable }
datawatch_gate watched (some reply) = elim reply.decoded [
  | none ↦ record { ok = true; reason = datawatch_unreadable reply.status_code }
  | some c ↦
      if not (reply.status_code == 200)
      then record { ok = true; reason = datawatch_unreadable reply.status_code }
      else elim (full_pool watched c.pools) [
        | some p ↦ refused (pool_full p.name ((p.held + p.external) % 2 ^ 64) p.limit)
        | none ↦ elim (waiting_pool watched c.waiting) [
          | some n ↦ refused (work_waiting n)
          | none ↦ allowed
        ]
      ]
]

-- A gate as the pipeline holds it: its Allow at a time, and the memo of a cachedGate.
pub record Memo : Type 0 where
  pub ttl : ℕ
  pub at : ℕ
  pub verdict : Verdict

pub record Gate : Type 0 where
  pub name : Text
  pub allow : ℕ → Verdict
  pub memo : Option Memo

-- !c.at.IsZero() && now.Sub(c.at) < c.ttl
abbrev pub is_fresh : ℕ → Memo → Bool
is_fresh now m = not (m.at == 0) && gtb_ℤ (pos m.ttl) (sub_time now m.at)

-- Allow of a plain gate, or of a cachedGate
unfoldable pub ask : ℕ → Gate → Verdict × Gate
unfolding sub_time
ask now g = elim g.memo [
  | none ↦ (g.allow now, g)
  | some m ↦
      if is_fresh now m
      then (m.verdict, g)
      else (g.allow now, record g { memo = some (record m { at = now; verdict = g.allow now }) })
]

-- backfillAllowed: the reason of the first refusal, and the gates behind the calls
unfoldable pub ask_all : ℕ → List Gate → Option (Text × Reason) × List Gate
unfolding ask
ask_all now [] = (none, [])
ask_all now (g ∷ gs) =
    let (v, g') = ask now g in
    let (why, rest) = ask_all now gs in
    if v.ok then (why, g' ∷ rest) else (some (g.name, v.reason), g' ∷ gs)
