-- ===== src/Trust/Nonces.antt =====
-- internal/db/nonces.go: the table of the nonces that were seen. `fault` stands for a database that
-- answers no statement; `clock` is SQLite's unixepoch().
use imap_mcp.Prelude.{
  ℕ, ◌-◌, ◌≡◌, ◌≢◌, Bool, true, false, not, ◌&&◌, ◌||◌, List, [], ◌∷◌, Option, none, some, Text,
  text_eq, text_eq_refl, ltb, arith, if◌then◌else◌,
}
use imap_mcp.Trust.{fresh, used, broken, Store}

pub record NonceRow : Type 0 where
  pub account : Text
  pub nonce : Text
  pub seen_at : ℕ

pub record NonceTable : Type 0 where
  pub rows : List NonceRow
  pub clock : ℕ
  pub fault : Bool

-- SELECT 1 FROM inbound_nonces WHERE account = ? AND nonce = ?
unfoldable pub recorded : Text → Text → List NonceRow → Bool
recorded account nonce [] = false
recorded account nonce (r ∷ rows) =
    (text_eq r.account account && text_eq r.nonce nonce) || recorded account nonce rows

-- INSERT, with `none` for an error: the primary key is (account, nonce)
unfoldable pub insert_nonce : Text → Text → NonceTable → Option NonceTable
insert_nonce account nonce t =
    if t.fault || recorded account nonce t.rows
    then none
    else some (record t {
      rows = record { account = account; nonce = nonce; seen_at = t.clock } ∷ t.rows;
    })

-- (*NonceRepo).SeenOrRecord
unfoldable pub seen_or_record : Store NonceTable
seen_or_record account nonce ts t = elim (insert_nonce account nonce t) [
  | some t' ↦ (fresh, t')
  | none ↦ if not t.fault && recorded account nonce t.rows then (used, t) else (broken, t)
]

-- DELETE FROM inbound_nonces WHERE seen_at < ?
unfoldable pub delete_before : ℕ → List NonceRow → List NonceRow
delete_before cutoff [] = []
delete_before cutoff (r ∷ rows) =
    let rest = delete_before cutoff rows in if ltb r.seen_at cutoff then rest else r ∷ rest

-- (*NonceRepo).PruneNonces, of the records older than `age`; a fault leaves the table as it is
unfoldable pub prune_nonces : ℕ → NonceTable → NonceTable
unfolding delete_before
prune_nonces age t = if t.fault then t else record t { rows = delete_before (t.clock - age) t.rows }

-- What a nonce store promises, over a predicate for "recorded" that only it can make true.
pub record IsNonceStore {S : Type 0} (f : Store S) (Recorded : Text → Text → S → Type 0)
    : Type 0 where
  pub records : (a n : Text) (ts : ℕ) (s : S) → (f a n ts s).0 ≡ fresh → Recorded a n (f a n ts s).1
  pub remembers : (a n : Text) (ts : ℕ) (s : S) → Recorded a n s → (f a n ts s).0 ≢ fresh
  pub keeps : (a n b m : Text) (ts : ℕ) (s : S) → Recorded a n s → Recorded a n (f b m ts s).1

abbrev pub InTable : Text → Text → NonceTable → Type 0
InTable a n t = recorded a n t.rows ≡ true

-- SeenOrRecord keeps the promise of a nonce store: a nonce that it reports as fresh is recorded from
-- then on, a recorded nonce is never fresh again, and no call for another nonce forgets it.
pub seen_or_record-IsNonceStore : IsNonceStore seen_or_record InTable
unfolding seen_or_record insert_nonce recorded
seen_or_record-IsNonceStore = record {
  records = λ a n ts s h. ground (arith, text_eq_refl a, text_eq_refl n);
  remembers = λ a n ts s h. ground arith;
  keeps = λ a n b m ts s h. ground arith;
}
