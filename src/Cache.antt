-- ===== src/Cache.antt =====
-- internal/db/cache.go: the message cache and its sync state, over tables as lists of rows. SQLite's
-- statements are taken to succeed. A row of enrichment_queue is the `lane` of its message, since
-- message_id is unique there and cascades (internal/db/schema.go). The columns that no operation of
-- the cache reads back (subject, addresses, bodies, attachments, sizes) are left out.
pub mod Rows
pub mod Prune
pub mod Queue
mod Tests
use imap_mcp.Prelude.{
  ℕ, zero, suc, ◌+◌, ◌-◌, Bool, true, false, not, ◌&&◌, ◌||◌, List, [], ◌∷◌, ◌++◌, Option, none,
  some, Text, text_eq, contains, is_nil, length, take, drop, ◌==◌, ltb, leb, if◌then◌else◌,
}

pub data Status : Type 0 where
  pending duplicate error : Status

pub record Row : Type 0 where
  pub id : ℕ
  pub account : Text
  pub folder : Text
  pub uid : ℕ
  pub message_id : Text
  pub flags : List Text
  pub internal_date : ℕ
  pub status : Status
  pub lane : Option ℕ

pub record FolderSyncState : Type 0 where
  pub uid_validity : ℕ
  pub highest_modseq : ℕ

pub record SyncRow : Type 0 where
  pub account : Text
  pub folder : Text
  pub state : FolderSyncState

pub record Cache : Type 0 where
  pub messages : List Row
  pub sync_state : List SyncRow
  pub next_id : ℕ

pub record CachedMessage : Type 0 where
  pub account : Text
  pub folder : Text
  pub uid : ℕ
  pub message_id : Text
  pub flags : List Text
  pub internal_date : ℕ
  pub backfill : Bool

abbrev pub in_folder : Text → Text → Row → Bool
in_folder account folder r = text_eq r.account account && text_eq r.folder folder

-- WHERE account=? AND folder=? AND uid=?
abbrev pub at_key : Text → Text → ℕ → Row → Bool
at_key account folder uid r = in_folder account folder r && r.uid == uid

-- DELETE FROM messages WHERE …
unfoldable pub delete_where : (Row → Bool) → List Row → List Row
delete_where p [] = []
delete_where p (r ∷ rows) = let rest = delete_where p rows in if p r then rest else r ∷ rest

-- SELECT count(*) FROM messages WHERE …, which is also RowsAffected of the DELETE
unfoldable pub count_where : (Row → Bool) → List Row → ℕ
count_where p [] = 0
count_where p (r ∷ rows) = (if p r then 1 else 0) + count_where p rows

abbrev pub zero_state : FolderSyncState
zero_state = record { uid_validity = 0; highest_modseq = 0 }

abbrev pub state_at : Text → Text → SyncRow → Bool
state_at account folder r = text_eq r.account account && text_eq r.folder folder

unfoldable pub find_state : Text → Text → List SyncRow → FolderSyncState
find_state account folder [] = zero_state
find_state account folder (r ∷ rows) =
    if state_at account folder r then r.state else find_state account folder rows

-- (*SyncRepo).Get
unfoldable pub get_state : Text → Text → Cache → FolderSyncState
unfolding find_state
get_state account folder c = find_state account folder c.sync_state

unfoldable pub put_row : Text → Text → FolderSyncState → List SyncRow → List SyncRow
put_row account folder st [] = record { account = account; folder = folder; state = st } ∷ []
put_row account folder st (r ∷ rows) =
    let rest = put_row account folder st rows in
    if state_at account folder r then record r { state = st } ∷ rows else r ∷ rest

-- (*SyncRepo).Put: INSERT … ON CONFLICT DO UPDATE
unfoldable pub put_state : Text → Text → FolderSyncState → Cache → Cache
unfolding put_row
put_state account folder st c = record c { sync_state = put_row account folder st c.sync_state }

unfoldable pub uids_in : Text → Text → List Row → List (ℕ × List Text)
uids_in account folder [] = []
uids_in account folder (r ∷ rows) =
    let rest = uids_in account folder rows in
    if in_folder account folder r then (r.uid, r.flags) ∷ rest else rest

-- (*MessageRepo).CachedUIDs
unfoldable pub cached_uids : Text → Text → Cache → List (ℕ × List Text)
unfolding uids_in
cached_uids account folder c = uids_in account folder c.messages

abbrev pub is_queued : Row → Bool
is_queued r = elim r.lane [ none ↦ false | some l ↦ true ]

-- Another cached copy of the message is queued for enrichment.
abbrev pub queued_copy : CachedMessage → Row → Bool
queued_copy m r =
    (text_eq r.message_id m.message_id && is_queued r) && not (at_key m.account m.folder m.uid r)

pub record InsertResult : Type 0 where
  pub id : ℕ
  pub queued : Bool

-- SELECT count(*) … > 0, for a message that has a Message-ID
unfoldable pub is_dup : CachedMessage → List Row → Bool
is_dup m rows = not (is_nil m.message_id) && ltb 0 (count_where (queued_copy m) rows)

-- the inserted row, and the entry of the queue if it is no duplicate
unfoldable pub row_of : CachedMessage → ℕ → Bool → Row
row_of m id dup = record {
  id = id;
  account = m.account;
  folder = m.folder;
  uid = m.uid;
  message_id = m.message_id;
  flags = m.flags;
  internal_date = m.internal_date;
  status = if dup then duplicate else pending;
  lane = if dup then none else some (if m.backfill then 1 else 0);
}

-- (*MessageRepo).Insert
unfoldable pub insert : CachedMessage → Cache → InsertResult × Cache
insert m c =
    let dup = is_dup m c.messages in
    (
      record { id = c.next_id; queued = not dup },
      record c {
        messages =
            delete_where (at_key m.account m.folder m.uid) c.messages
            ++ row_of m c.next_id dup ∷ [];
        next_id = c.next_id + 1;
      },
    )

unfoldable pub set_flags : Text → Text → ℕ → List Text → List Row → List Row
set_flags account folder uid flags [] = []
set_flags account folder uid flags (r ∷ rows) =
    (if at_key account folder uid r then record r { flags = flags } else r)
    ∷ set_flags account folder uid flags rows

-- (*MessageRepo).UpdateFlags
unfoldable pub update_flags : Text → Text → ℕ → List Text → Cache → Bool × Cache
unfolding set_flags count_where
update_flags account folder uid flags c = (
  ltb 0 (count_where (at_key account folder uid) c.messages),
  record c { messages = set_flags account folder uid flags c.messages },
)

unfoldable pub mem : ℕ → List ℕ → Bool
mem u [] = false
mem u (x ∷ xs) = x == u || mem u xs

-- WHERE account=? AND folder=? AND uid IN (…)
abbrev pub among : Text → Text → List ℕ → Row → Bool
among account folder uids r = in_folder account folder r && mem r.uid uids

-- (*MessageRepo).DeleteUIDs, in batches of 500; `fuel` bounds the batches
unfoldable pub delete_batches : ℕ → Text → Text → List ℕ → ℕ × List Row → ℕ × List Row
unfolding delete_where count_where
delete_batches zero account folder uids st = st
delete_batches (suc fuel) account folder uids (total, rows) =
    let batch = among account folder (take 500 uids) in
    let next =
      delete_batches fuel account folder (drop 500 uids)
        (total + count_where batch rows, delete_where batch rows) in
    if is_nil uids then (total, rows) else next

unfoldable pub delete_uids : Text → Text → List ℕ → Cache → ℕ × Cache
unfolding delete_batches
delete_uids account folder uids c =
    let (total, rows) = delete_batches (length uids) account folder uids (0, c.messages) in
    (total, record c { messages = rows })

-- (*MessageRepo).DeleteFolder
unfoldable pub delete_folder : Text → Text → Cache → ℕ × Cache
unfolding delete_where count_where
delete_folder account folder c = (
  count_where (in_folder account folder) c.messages,
  record c { messages = delete_where (in_folder account folder) c.messages },
)

unfoldable pub delete_state : (Text → Text → Bool) → List SyncRow → List SyncRow
delete_state p [] = []
delete_state p (r ∷ rows) =
    let rest = delete_state p rows in if p r.account r.folder then rest else r ∷ rest

-- pruneWhere, which deletes the messages and the sync state of each folder that `drop` selects
unfoldable pub prune_where : (Text → Text → Bool) → Cache → Cache
unfolding delete_where delete_state
prune_where drop c = record c {
  messages = delete_where (λ r. drop r.account r.folder) c.messages;
  sync_state = delete_state drop c.sync_state;
}

-- (*MessageRepo).PruneFolders
unfoldable pub prune_folders : Text → List Text → Cache → Cache
unfolding prune_where
prune_folders account keep = prune_where (λ a f. text_eq a account && not (contains keep f))

-- (*MessageRepo).PruneAccounts
unfoldable pub prune_accounts : List Text → Cache → Cache
unfolding prune_where
prune_accounts keep = prune_where (λ a f. not (contains keep a))
