-- ===== src/Sync/Account.antt =====
-- internal/sync/syncer.go: syncAccount, with resolveFolder of internal/sync/source.go and the folder
-- list and the windows of internal/config/config.go. `stopped` tells, for the entries that are still to
-- be synced, whether the context is done by then; a context that is done stops the pruning as well.
use imap_mcp.Prelude.{
  ℕ, Bool, true, false, not, ◌&&◌, ◌||◌, List, [], ◌∷◌, ◌++◌, Option, none, some, Text, bytes,
  text_eq, contains, is_nil, ltb, if◌then◌else◌,
}
use imap_mcp.Prelude.Bytes.{to_lower, has_prefix}
use imap_mcp.Cache.{Cache, prune_folders}
use imap_mcp.Sync.{
  Mailbox, Source, FolderStats, Event, folder_synced, sync_complete, Outcome, done, failed, work_of,
  Settings,
}
use imap_mcp.Sync.Cycle.{sync_folder}

-- strings.EqualFold
abbrev equal_fold : Text → Text → Bool
equal_fold s t = text_eq (to_lower s) (to_lower t)

abbrev pub inbox : Text
inbox = bytes "INBOX"

unfoldable pub named_folder : Text → List Mailbox → Option Text
named_folder entry [] = none
named_folder entry (f ∷ fs) =
    if text_eq f.name entry || (equal_fold entry inbox && equal_fold f.name inbox)
    then some f.name
    else named_folder entry fs

unfoldable pub has_attr : Text → List Text → Bool
has_attr entry [] = false
has_attr entry (a ∷ attrs) = equal_fold a entry || has_attr entry attrs

unfoldable pub attr_folder : Text → List Mailbox → Option Text
unfolding has_attr
attr_folder entry [] = none
attr_folder entry (f ∷ fs) = if has_attr entry f.attrs then some f.name else attr_folder entry fs

-- resolveFolder
unfoldable pub resolve_folder : Text → List Mailbox → Option Text
resolve_folder entry folders =
    if not (has_prefix entry (bytes "\\"))
    then named_folder entry folders
    else attr_folder entry folders

-- AccountSyncConfig and the same fields of SyncConfig; a negative number of days counts as 0
pub record SyncOptions : Type 0 where
  pub folders : List Text
  pub window_days : ℕ
  pub folder_window_days : List (Text × ℕ)

-- FolderWindowDays[folder]
unfoldable pub days_of : Text → List (Text × ℕ) → ℕ
days_of folder [] = 0
days_of folder ((f, d) ∷ rest) = if text_eq f folder then d else days_of folder rest

-- (*Config).SyncFolders
unfoldable pub sync_folders : Option SyncOptions → SyncOptions → List Text
sync_folders own shared =
    let common = if is_nil shared.folders then inbox ∷ bytes "\\Sent" ∷ [] else shared.folders in
    elim own [ none ↦ common | some o ↦ if is_nil o.folders then common else o.folders ]

-- (*Config).WindowDays
unfoldable pub window_days : Option SyncOptions → SyncOptions → Text → ℕ
window_days own shared folder =
    let global = if ltb 0 shared.window_days then shared.window_days else 30 in
    let by_folder = days_of folder shared.folder_window_days in
    elim own [
      | none ↦ if ltb 0 by_folder then by_folder else global
      | some o ↦
          let d = days_of folder o.folder_window_days in
          if ltb 0 d
          then d
          else if ltb 0 by_folder
          then by_folder
          else if ltb 0 o.window_days
          then o.window_days
          else global
    ]

-- What s.record keeps of an entry.
pub data Report : Type 0 where
  not_found : Text → Report
  synced broken : Text → FolderStats → Report

-- The cache, the mailboxes that were synced, and what was recorded and published.
pub record State : Type 0 where
  pub cache : Cache
  pub seen : List Text
  pub reports : List Report
  pub events : List Event

abbrev pub fresh_stats : Text → Text → ℕ → FolderStats
fresh_stats account folder days = record {
  account = account;
  folder = folder;
  window_days = days;
  cached = 0;
  new = 0;
  removed = 0;
  flags_done = 0;
  cond_store = false;
  rebuilt = false;
}

unfoldable pub report_of : Text → Outcome → Report
report_of entry (done w) = synced entry w.stats
report_of entry (failed w) = broken entry w.stats

module _ (src : Source) (settings : Settings) (own : Option SyncOptions) (shared : SyncOptions)
    (stopped : List Text → Bool) (cancelled : Text → List ℕ → Bool) (now : ℕ) (account : Text) where
  -- The cycle of a mailbox, from the cache as it stands.
  abbrev pub cycle : Text → Text → State → Outcome
  cycle entry name st = sync_folder src settings (cancelled name) now (record {
    cache = st.cache;
    stats = fresh_stats account name (window_days own shared entry);
    events = st.events;
  })

  -- the body of the loop over the entries
  unfoldable pub sync_entry : List Mailbox → Text → State → State
  unfolding report_of
  sync_entry folders entry st = elim (resolve_folder entry folders) [
    | none ↦ record st { reports = st.reports ++ not_found entry ∷ [] }
    | some name ↦
        let out = cycle entry name st in
        if contains st.seen name then st else record {
          cache = (work_of out).cache;
          seen = name ∷ st.seen;
          reports = st.reports ++ report_of entry out ∷ [];
          events = (work_of out).events ++ folder_synced account (work_of out).stats ∷ [];
        }
  ]

  -- the loop; the flag is set when the context was done before the last entry
  unfoldable pub sync_entries : List Mailbox → List Text → State → Bool × State
  sync_entries folders [] st =
      (false, record st { events = st.events ++ sync_complete account ∷ [] })
  sync_entries folders (entry ∷ entries) st =
      let rest = sync_entries folders entries (sync_entry folders entry st) in
      if stopped (entry ∷ entries) then (true, st) else rest

  -- the deferred PruneFolders
  unfoldable pub prune_stale : Bool × State → State
  prune_stale (early, st) =
      if early || stopped []
      then st
      else record st { cache = prune_folders account st.seen st.cache }

  -- syncAccount, with `none` for an error of Folders
  unfoldable pub sync_account : Cache → Option State
  sync_account c = elim src.folders [
    | none ↦ none
    | some folders ↦ some (
        prune_stale (
          sync_entries folders (sync_folders own shared)
            (record { cache = c; seen = []; reports = []; events = [] })))
  ]
