-- ===== src/Sync.antt =====
-- internal/sync/syncer.go and source.go: one sync cycle of a folder and of an account, over the
-- cache of internal/db/cache.go. The mailbox is the record `Source` of the answers that the server
-- gives in the cycle, with `none` for an error. Time is UTC, in seconds.
pub mod Cycle
pub mod Contents
pub mod Exact
pub mod Mirror
pub mod Invariant
pub mod Safety
pub mod Account
pub mod Isolation
pub mod Selection
pub mod Settled
mod Tests
use imap_mcp.Prelude.{
  ℕ, zero, suc, ◌+◌, ◌-◌, ◌*◌, ◌/◌, Bool, true, false, not, ◌&&◌, ◌||◌, List, [], ◌∷◌, ◌++◌, map,
  Option, none, some, Text, bytes, text_eq, contains, is_nil, length, take, drop, ◌==◌, ltb, leb,
  max, if◌then◌else◌,
}
use imap_mcp.Prelude.Bytes.{to_lower, has_prefix}
use imap_mcp.Cache.{
  Cache, CachedMessage, FolderSyncState, zero_state, InsertResult, get_state, put_state,
  cached_uids, insert, update_flags, delete_uids, delete_folder, mem, prune_folders,
}

pub record Mailbox : Type 0 where
  pub name : Text
  pub attrs : List Text

pub record FolderStatus : Type 0 where
  pub uid_validity : ℕ
  pub highest_modseq : ℕ
  pub cond_store : Bool

-- A fetched message; the envelope is read down to its Message-ID.
pub record Fetched : Type 0 where
  pub uid : ℕ
  pub flags : List Text
  pub internal_date : ℕ
  pub message_id : Text

pub record FlagUpdate : Type 0 where
  pub uid : ℕ
  pub flags : List Text

-- Source; every answer may depend on what was asked
pub record Source : Type 0 where
  pub folders : Option (List Mailbox)
  pub status : Text → Option FolderStatus
  pub search_since : Text → ℕ → ℕ → Bool → Option (List ℕ)
  pub fetch : Text → ℕ → List ℕ → ℕ → Option (List Fetched)
  pub flags : Text → ℕ → List ℕ → ℕ → Option (List FlagUpdate)

pub record FolderStats : Type 0 where
  pub account : Text
  pub folder : Text
  pub window_days : ℕ
  pub cached : ℕ
  pub new : ℕ
  pub removed : ℕ
  pub flags_done : ℕ
  pub cond_store : Bool
  pub rebuilt : Bool

pub data Event : Type 0 where
  message_deleted : Text → Text → ℕ → Event
  message_updated : Text → Text → ℕ → List Text → Event
  message_synced : Text → Text → ℕ → ℕ → Bool → Event
  folder_synced : Text → FolderStats → Event
  sync_complete : Text → Event

-- What a cycle works on: the cache, the counters and the published events.
pub record Work : Type 0 where
  pub cache : Cache
  pub stats : FolderStats
  pub events : List Event

-- A step that returned nil, or one that returned an error, with what it had done by then.
pub data Outcome : Type 0 where
  done : Work → Outcome
  failed : Work → Outcome

abbrev pub work_of : Outcome → Work
work_of (done w) = w
work_of (failed w) = w

infixl 5 ◌>>=◌
abbrev pub ◌>>=◌ : Outcome → (Work → Outcome) → Outcome
done w >>= f = f w
failed w >>= f = failed w

abbrev pub fetch_batch : ℕ
fetch_batch = 25

pub record Settings : Type 0 where
  pub keep_flagged : Bool
  pub max_message_mb : ℕ

-- y, m, d of now - window days, at midnight
unfoldable pub window_start : ℕ → ℕ → ℕ
window_start now days = (now / 86400 - days) * 86400

-- prevMax
unfoldable pub max_uid : List (ℕ × List Text) → ℕ
max_uid [] = 0
max_uid ((u, flags) ∷ rest) = max u (max_uid rest)

unfoldable pub has_uid : ℕ → List (ℕ × List Text) → Bool
has_uid u [] = false
has_uid u ((v, flags) ∷ rest) = v == u || has_uid u rest

-- cached[uid], the empty list for a missing key
unfoldable pub flags_of : ℕ → List (ℕ × List Text) → List Text
flags_of u [] = []
flags_of u ((v, flags) ∷ rest) = if v == u then flags else flags_of u rest

-- the UIDs of the server that are cached, and those that are not
unfoldable pub existing_of : List (ℕ × List Text) → List ℕ → List ℕ
existing_of cached [] = []
existing_of cached (u ∷ server) =
    let rest = existing_of cached server in if has_uid u cached then u ∷ rest else rest

unfoldable pub fresh_of : List (ℕ × List Text) → List ℕ → List ℕ
fresh_of cached [] = []
fresh_of cached (u ∷ server) =
    let rest = fresh_of cached server in if has_uid u cached then rest else u ∷ rest

-- the cached UIDs that the server no longer has
unfoldable pub gone_of : List ℕ → List (ℕ × List Text) → List ℕ
gone_of server [] = []
gone_of server ((u, flags) ∷ rest) =
    let later = gone_of server rest in if mem u server then later else u ∷ later

-- slices.SortFunc, highest first
unfoldable pub insert_desc : ℕ → List ℕ → List ℕ
insert_desc u [] = u ∷ []
insert_desc u (v ∷ vs) = let rest = insert_desc u vs in if ltb u v then v ∷ rest else u ∷ v ∷ vs

unfoldable pub sort_desc : List ℕ → List ℕ
unfolding insert_desc
sort_desc [] = []
sort_desc (u ∷ us) = insert_desc u (sort_desc us)

-- the order of strings, and slices.Sort over it
unfoldable pub text_le : Text → Text → Bool
text_le [] t = true
text_le (c ∷ s) [] = false
text_le (c ∷ s) (d ∷ t) = ltb c d || (c == d && text_le s t)

unfoldable pub insert_text : Text → List Text → List Text
unfolding text_le
insert_text x [] = x ∷ []
insert_text x (y ∷ ys) = let rest = insert_text x ys in if text_le x y then x ∷ y ∷ ys else y ∷ rest

unfoldable pub sort_texts : List Text → List Text
unfolding insert_text
sort_texts [] = []
sort_texts (x ∷ xs) = insert_text x (sort_texts xs)

unfoldable pub texts_eq : List Text → List Text → Bool
texts_eq [] [] = true
texts_eq (x ∷ xs) (y ∷ ys) = text_eq x y && texts_eq xs ys
texts_eq _ _ = false

unfoldable pub same_flags : List Text → List Text → Bool
unfolding sort_texts texts_eq
same_flags a b = length a == length b && texts_eq (sort_texts a) (sort_texts b)

-- toCached, and the lane of the message
unfoldable pub to_cached : Text → Text → Bool → Fetched → CachedMessage
to_cached account folder backfill f = record {
  account = account;
  folder = folder;
  uid = f.uid;
  message_id = f.message_id;
  flags = f.flags;
  internal_date = f.internal_date;
  backfill = backfill;
}

abbrev pub add_event : Event → Work → Work
add_event e w = record w { events = w.events ++ e ∷ [] }

unfoldable pub deleted_events : Text → Text → List ℕ → List Event
deleted_events account folder [] = []
deleted_events account folder (u ∷ us) =
    message_deleted account folder u ∷ deleted_events account folder us
