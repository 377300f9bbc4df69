-- ===== src/Cache/Rows.antt =====
-- What the operations of the cache do to the rows of a folder.
use imap_mcp.Prelude.{
  ℕ, zero, suc, ◌+◌, ◌≤◌, ◌≡◌, refl, ap, ◌∙◌, Bool, true, false, not, ◌&&◌, ◌||◌, List, [], ◌∷◌,
  ◌++◌, Text, text_eq, text_eq_iff, text_eq_sym, length, length-drop, take, drop, ◌==◌, arith,
  take-append-drop, Bool-cases, inl, inr,
}
use imap_mcp.Cache.{
  Row, Cache, CachedMessage, in_folder, at_key, delete_where, count_where, uids_in, cached_uids,
  insert, row_of, set_flags, update_flags, mem, among, delete_batches, delete_uids, delete_folder,
}

-- The folder caches a row with the UID.
unfoldable pub has_row : Text → Text → ℕ → List Row → Bool
has_row account folder uid [] = false
has_row account folder uid (r ∷ rows) =
    at_key account folder uid r || has_row account folder uid rows

pub has_row-append :
    (a f : Text) (u : ℕ) (xs ys : List Row)
    → has_row a f u (xs ++ ys) ≡ (has_row a f u xs || has_row a f u ys)
unfolding has_row
has_row-append a f u [] ys = refl
has_row-append a f u (r ∷ xs) ys = ground (arith, has_row-append a f u xs ys)

pub mem-append : (u : ℕ) (xs ys : List ℕ) → mem u (xs ++ ys) ≡ (mem u xs || mem u ys)
unfolding mem
mem-append u [] ys = refl
mem-append u (x ∷ xs) ys = ground (arith, mem-append u xs ys)

key-in_folder :
    (a f b g : Text) (r : Row)
    → in_folder a f r ≡ true
    → in_folder b g r ≡ (text_eq a b && text_eq f g)
key-in_folder a f b g r h =
    let same_account : r.account ≡ a = (text_eq_iff r.account a).0 (ground arith) in
    let same_folder : r.folder ≡ f = (text_eq_iff r.folder f).0 (ground arith) in
    cc (ap (λ x. text_eq x b) same_account, ap (λ x. text_eq x g) same_folder)

key-among :
    (a f b g : Text) (u : ℕ) (uids : List ℕ) (r : Row)
    → at_key a f u r ≡ true
    → among b g uids r ≡ ((text_eq a b && text_eq f g) && mem u uids)
key-among a f b g u uids r h =
    let same_uid : r.uid ≡ u = ground arith in
    cc (key-in_folder a f b g r (ground arith), ap (λ x. mem x uids) same_uid)

-- A statement that deletes by key, folder and UID leaves every other row.
has_row-delete_among :
    (a f b g : Text) (u : ℕ) (uids : List ℕ) (rows : List Row)
    → has_row a f u (delete_where (among b g uids) rows)
      ≡ (has_row a f u rows && not ((text_eq a b && text_eq f g) && mem u uids))
unfolding has_row delete_where
has_row-delete_among a f b g u uids [] = refl
has_row-delete_among a f b g u uids (r ∷ rows) = elim (Bool-cases (at_key a f u r)) [
  | inl here ↦
      ground (arith, key-among a f b g u uids r here, has_row-delete_among a f b g u uids rows)
  | inr other ↦ ground (arith, has_row-delete_among a f b g u uids rows)
]

both_gone : (h k m n : Bool) → ((h && not (k && m)) && not (k && n)) ≡ (h && not (k && (m || n)))
both_gone h k m n = ground arith

both_batches :
    (a f b g : Text) (u : ℕ) (batch rest uids : List ℕ) (rows : List Row)
    → batch ++ rest ≡ uids
    → (has_row a f u (delete_where (among b g batch) rows)
        && not ((text_eq a b && text_eq f g) && mem u rest))
      ≡ (has_row a f u rows && not ((text_eq a b && text_eq f g) && mem u uids))
both_batches a f b g u batch rest uids rows e =
    rw (← e, has_row-delete_among, mem-append)
      (both_gone (has_row a f u rows) (text_eq a b && text_eq f g) (mem u batch) (mem u rest))

-- DeleteUIDs deletes exactly the rows of the folder whose UID is listed, however many batches it takes.
pub has_row-delete_batches :
    (fuel : ℕ) (a f b g : Text) (u : ℕ) (uids : List ℕ) (n : ℕ) (rows : List Row)
    → length uids ≤ fuel
    → has_row a f u (delete_batches fuel b g uids (n, rows)).1
      ≡ (has_row a f u rows && not ((text_eq a b && text_eq f g) && mem u uids))
unfolding delete_batches mem
has_row-delete_batches zero a f b g u [] n rows h = ground arith
has_row-delete_batches zero a f b g u (x ∷ uids) n rows h = absurd (omega arith)
has_row-delete_batches (suc fuel) a f b g u [] n rows h = ground arith
has_row-delete_batches (suc fuel) a f b g u (x ∷ uids) n rows h =
    let batch = take 500 (x ∷ uids) in
    let rest = drop 500 (x ∷ uids) in
    has_row-delete_batches fuel a f b g u rest (n + count_where (among b g batch) rows)
      (delete_where (among b g batch) rows) (omega (arith, length-drop 500 (x ∷ uids)))
    ∙ both_batches a f b g u batch rest (x ∷ uids) rows (take-append-drop 500 (x ∷ uids))

-- DeleteUIDs removes exactly the listed UIDs of its folder, however many batches of 500 they take.
pub has_row-delete_uids :
    (a f b g : Text) (u : ℕ) (uids : List ℕ) (c : Cache)
    → has_row a f u (delete_uids b g uids c).1.messages
      ≡ (has_row a f u c.messages && not ((text_eq a b && text_eq f g) && mem u uids))
unfolding delete_uids
has_row-delete_uids a f b g u uids c =
    has_row-delete_batches (length uids) a f b g u uids 0 c.messages (omega arith)

has_row-delete_in :
    (a f b g : Text) (u : ℕ) (rows : List Row)
    → has_row a f u (delete_where (in_folder b g) rows)
      ≡ (has_row a f u rows && not (text_eq a b && text_eq f g))
unfolding has_row delete_where
has_row-delete_in a f b g u [] = refl
has_row-delete_in a f b g u (r ∷ rows) = elim (Bool-cases (at_key a f u r)) [
  | inl here ↦
      ground (arith, key-in_folder a f b g r (ground arith), has_row-delete_in a f b g u rows)
  | inr other ↦ ground (arith, has_row-delete_in a f b g u rows)
]

pub has_row-delete_folder :
    (a f b g : Text) (u : ℕ) (c : Cache)
    → has_row a f u (delete_folder b g c).1.messages
      ≡ (has_row a f u c.messages && not (text_eq a b && text_eq f g))
unfolding delete_folder
has_row-delete_folder a f b g u c = has_row-delete_in a f b g u c.messages

has_row-delete_key :
    (a f b g : Text) (u v : ℕ) (rows : List Row)
    → has_row a f u (delete_where (at_key b g v) rows)
      ≡ (has_row a f u rows && not ((text_eq a b && text_eq f g) && u == v))
unfolding has_row delete_where
has_row-delete_key a f b g u v [] = refl
has_row-delete_key a f b g u v (r ∷ rows) = elim (Bool-cases (at_key a f u r)) [
  | inl here ↦
      let same_uid : r.uid ≡ u = ground arith in
      ground (
        arith,
        key-in_folder a f b g r (ground arith),
        ap (λ (x : ℕ). x == v) same_uid,
        has_row-delete_key a f b g u v rows,
      )
  | inr other ↦ ground (arith, has_row-delete_key a f b g u v rows)
]

-- Insert adds the key of its message and no other.
pub has_row-insert :
    (a f : Text) (u : ℕ) (m : CachedMessage) (c : Cache)
    → has_row a f u (insert m c).1.messages
      ≡ (has_row a f u c.messages || ((text_eq a m.account && text_eq f m.folder) && u == m.uid))
unfolding insert row_of has_row
has_row-insert a f u m c =
    has_row-append a f u (delete_where (at_key m.account m.folder m.uid) c.messages) _
    ∙ ground (
      arith,
      has_row-delete_key a f m.account m.folder u m.uid c.messages,
      text_eq_sym a m.account,
      text_eq_sym f m.folder,
    )

has_row-set_flags :
    (a f b g : Text) (u v : ℕ) (flags : List Text) (rows : List Row)
    → has_row a f u (set_flags b g v flags rows) ≡ has_row a f u rows
unfolding set_flags has_row
has_row-set_flags a f b g u v flags [] = refl
has_row-set_flags a f b g u v flags (r ∷ rows) =
    ground (arith, has_row-set_flags a f b g u v flags rows)

-- UpdateFlags changes no key.
pub has_row-update_flags :
    (a f b g : Text) (u v : ℕ) (flags : List Text) (c : Cache)
    → has_row a f u (update_flags b g v flags c).1.messages ≡ has_row a f u c.messages
unfolding update_flags
has_row-update_flags a f b g u v flags c = has_row-set_flags a f b g u v flags c.messages

-- The keys that CachedUIDs returns.
abbrev pub uids_of : List (ℕ × List Text) → List ℕ
uids_of [] = []
uids_of ((u, flags) ∷ rest) = u ∷ uids_of rest

mem-uids_in :
    (a f : Text) (u : ℕ) (rows : List Row) → mem u (uids_of (uids_in a f rows)) ≡ has_row a f u rows
unfolding uids_in has_row mem
mem-uids_in a f u [] = refl
mem-uids_in a f u (r ∷ rows) = ground (arith, mem-uids_in a f u rows)

pub mem-cached_uids :
    (a f : Text) (u : ℕ) (c : Cache)
    → mem u (uids_of (cached_uids a f c)) ≡ has_row a f u c.messages
unfolding cached_uids
mem-cached_uids a f u c = mem-uids_in a f u c.messages
