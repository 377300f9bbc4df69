-- ===== src/Sync/Tests.antt =====
-- A cycle of a folder that gains a message and loses one, and the theorems of the cycle there.
use imap_mcp.Prelude.{
  contains, ℕ, ◌≡◌, refl, ap, Bool, true, false, List, [], ◌∷◌, Option, none, some, Text, bytes,
  text_eq, arith,
}
use imap_mcp.Cache.{
  prune_folders, prune_where, delete_where, delete_state, insert, is_dup, row_of, put_state,
  put_row, Row, pending, mem, cached_uids, uids_in, delete_uids, delete_batches, get_state,
  find_state, count_where,
}
use imap_mcp.Cache.Queue.{IsOnce}
use imap_mcp.Sync.{
  max_uid, window_start, to_cached, Source, Fetched, Settings, Work, done, work_of, existing_of,
  fresh_of, gone_of, has_uid, sort_desc, insert_desc,
}
use imap_mcp.Sync.Cycle.{
  sync_folder, sync_window, rebuild, remove_gone, apply_flags, fetch_loop, store_batch,
  store_message, finish,
}
use imap_mcp.Sync.Account.{
  SyncOptions, State, sync_account, sync_entries, sync_entry, resolve_folder, named_folder,
  attr_folder, has_attr, sync_folders, prune_stale, window_days, days_of,
}
use imap_mcp.Sync.Isolation.{other_accounts, sync_account-others}
use imap_mcp.Sync.Settled.{Settled, sync_account-mirrors}
use imap_mcp.Sync.Selection.{resolved, sync_account-resolved}
use imap_mcp.Prelude.Bytes.{to_lower, lower, has_prefix}
use imap_mcp.Cache.Rows.{has_row}
use imap_mcp.Sync.Contents.{IsExact, uids}
use imap_mcp.Sync.Mirror.{Mirrors, sync_folder-Mirrors}
use imap_mcp.Sync.Safety.{sync_folder-IsOnce}

unfoldable messages_of : List ℕ → List Fetched
messages_of [] = []
messages_of (u ∷ us) =
    record { uid = u; flags = []; internal_date = 0; message_id = bytes "m" } ∷ messages_of us

abbrev server : Source
server = record {
  folders = some (record { name = bytes "INBOX"; attrs = [] } ∷ []);
  status = λ folder. some (record { uid_validity = 7; highest_modseq = 0; cond_store = false });
  search_since = λ folder validity since keep_flagged. some (3 ∷ 5 ∷ []);
  fetch = λ folder validity batch size. some (messages_of batch);
  flags = λ folder validity us since. some [];
}

uids-messages_of : (us : List ℕ) → uids (messages_of us) ≡ us
unfolding messages_of
uids-messages_of [] = refl
uids-messages_of (u ∷ us) = ap (λ r. u ∷ r) (uids-messages_of us)

server-IsExact : IsExact server
server-IsExact folder validity batch size msgs e u =
    let same : messages_of batch ≡ msgs = ground arith in
    rw (← same) (ap (mem u) (uids-messages_of batch))

abbrev settings : Settings
settings = record { keep_flagged = true; max_message_mb = 10 }

abbrev row : ℕ → Text → ℕ → Option ℕ → Row
row id folder uid lane = record {
  id = id;
  account = bytes "work";
  folder = folder;
  uid = uid;
  message_id = bytes "a";
  flags = [];
  internal_date = 0;
  status = pending;
  lane = lane;
}

abbrev start : Work
start = record {
  cache = record {
    messages =
        row 1 (bytes "INBOX") 3 (some 0)
        ∷ row 2 (bytes "INBOX") 4 none
        ∷ row 3 (bytes "Old") 9 none
        ∷ [];
    sync_state = [];
    next_id = 4;
  };
  stats = record {
    account = bytes "work";
    folder = bytes "INBOX";
    window_days = 30;
    cached = 0;
    new = 0;
    removed = 0;
    flags_done = 0;
    cond_store = false;
    rebuilt = false;
  };
  events = [];
}

abbrev never : List ℕ → Bool
never fresh = false

abbrev after : Work
after = work_of (sync_folder server settings never 100 start)

succeeds : sync_folder server settings never 100 start ≡ done after
unfolding sync_folder sync_window rebuild remove_gone apply_flags fetch_loop store_batch
    store_message finish messages_of cached_uids uids_in existing_of fresh_of gone_of has_uid
    sort_desc insert_desc delete_uids delete_batches mem get_state find_state text_eq
succeeds = refl

sync_folder-Mirrors_example : Mirrors server settings never server-IsExact 100 start after
sync_folder-Mirrors_example =
    sync_folder-Mirrors server settings never server-IsExact 100 start after succeeds

start-IsOnce : IsOnce start.cache.messages
unfolding count_where
start-IsOnce = record { once = λ mid named. ground arith }

sync_folder-IsOnce_example : IsOnce after.cache.messages
sync_folder-IsOnce_example = sync_folder-IsOnce server settings never 100 start start-IsOnce

abbrev options : SyncOptions
options = record { folders = []; window_days = 0; folder_window_days = [] }

abbrev running : List Text → Bool
running rest = false

abbrev final_of : Option State → State
final_of none = record { cache = start.cache; seen = []; reports = []; events = [] }
final_of (some st) = st

abbrev account_sync : Option State
account_sync =
    sync_account server settings none options running (λ name. never) 100 (bytes "work") start.cache

abbrev final : State
final = final_of account_sync

account_synced : account_sync ≡ some final
unfolding sync_account
account_synced = refl

-- INBOX is synced, \Sent is not there.
reported : final.seen ≡ bytes "INBOX" ∷ []
unfolding sync_account sync_entries sync_entry resolve_folder named_folder attr_folder has_attr
    sync_folders has_prefix to_lower lower text_eq contains prune_stale
reported = refl

elsewhere : text_eq (bytes "home") (bytes "work") ≡ false
unfolding text_eq
elsewhere = refl

-- A test that unfolds this runs the sync of an account.
cycle_runs : Unit {0}
unfolding sync_account sync_entries sync_entry resolve_folder named_folder attr_folder has_attr
    sync_folders has_prefix to_lower lower text_eq contains prune_stale prune_folders prune_where
    delete_where delete_state has_row window_days days_of sync_folder sync_window rebuild
    remove_gone apply_flags fetch_loop store_batch store_message finish messages_of cached_uids
    uids_in existing_of fresh_of gone_of has_uid sort_desc insert_desc delete_uids delete_batches
    mem get_state find_state insert is_dup row_of count_where to_cached put_state put_row max_uid
    window_start
cycle_runs = tt

inbox_kept : has_row (bytes "work") (bytes "INBOX") 5 final.cache.messages ≡ true
unfolding cycle_runs
inbox_kept = refl

sync_account-others_example :
    other_accounts (bytes "work") final.cache.messages
    ≡ other_accounts (bytes "work") start.cache.messages
sync_account-others_example =
    sync_account-others server settings none options running (λ name. never) 100 (bytes "work")
      start.cache final account_synced

sync_account-resolved_example :
    contains
      (resolved (record { name = bytes "INBOX"; attrs = [] } ∷ []) (sync_folders none options))
      (bytes "INBOX")
    ≡ true
sync_account-resolved_example =
    sync_account-resolved server settings none options running (λ name. never) 100 (bytes "work")
      start.cache final (record { name = bytes "INBOX"; attrs = [] } ∷ []) (bytes "INBOX") 5
      (λ rest. refl) refl account_synced inbox_kept

sync_account-mirrors_example :
    Settled server settings none options running (λ name. never) 100 (bytes "work") final
sync_account-mirrors_example =
    sync_account-mirrors server settings none options running (λ name. never) 100 (bytes "work")
      server-IsExact start.cache final account_synced
