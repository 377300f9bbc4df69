-- ===== src/Sync/Cycle.antt =====
-- internal/sync/syncer.go: syncFolder. `cancelled` tells, for the UIDs that are still to be fetched,
-- whether the context is done by then. The Source is asked at most once for each answer.
use imap_mcp.Prelude.{
  ℕ, zero, suc, ◌+◌, ◌*◌, ◌^◌, Bool, true, not, ◌&&◌, ◌||◌, List, [], ◌∷◌, ◌++◌, none, some, Text,
  is_nil, length, take, drop, ◌==◌, ltb, leb, if◌then◌else◌,
}
use imap_mcp.Cache.{
  FolderSyncState, zero_state, get_state, put_state, cached_uids, insert, update_flags, delete_uids,
  delete_folder,
}
use imap_mcp.Sync.{
  Source, FolderStatus, Fetched, FlagUpdate, message_updated, message_synced, Work, Outcome, done,
  failed, ◌>>=◌, fetch_batch, Settings, window_start, max_uid, flags_of, existing_of, fresh_of,
  gone_of, sort_desc, same_flags, to_cached, add_event, deleted_events,
}

-- Gone: expunged, moved, or aged out of the window. Cache only.
unfoldable pub remove_gone : List ℕ → List (ℕ × List Text) → Work → Work
remove_gone server cached w =
    let gone = gone_of server cached in
    let st = w.stats in
    let (n, c) = delete_uids st.account st.folder gone w.cache in
    if is_nil gone then w else record w {
      cache = c;
      stats = record st { removed = n };
      events = w.events ++ deleted_events st.account st.folder gone;
    }

-- the body of the loop over the flag updates
unfoldable pub apply_flag : List (ℕ × List Text) → FlagUpdate → Work → Work
apply_flag cached up w =
    let st = w.stats in
    let (ok, c) = update_flags st.account st.folder up.uid up.flags w.cache in
    if same_flags (flags_of up.uid cached) up.flags
    then w
    else if ok
    then add_event (message_updated st.account st.folder up.uid up.flags)
        (record w { cache = c; stats = record st { flags_done = st.flags_done + 1 } })
    else record w { cache = c }

unfoldable pub apply_flags : List (ℕ × List Text) → List FlagUpdate → Work → Work
apply_flags cached [] w = w
apply_flags cached (up ∷ ups) w = apply_flags cached ups (apply_flag cached up w)

-- the body of the loop over a fetched batch
unfoldable pub store_message : Bool → ℕ → Fetched → Work → Work
store_message had_state prev_max f w =
    let st = w.stats in
    let backfill = not had_state || leb f.uid prev_max in
    let (res, c) = insert (to_cached st.account st.folder backfill f) w.cache in
    add_event (message_synced st.account st.folder f.uid res.id res.queued)
      (record w { cache = c; stats = record st { new = st.new + 1 } })

unfoldable pub store_batch : Bool → ℕ → List Fetched → Work → Work
store_batch had_state prev_max [] w = w
store_batch had_state prev_max (f ∷ fs) w =
    store_batch had_state prev_max fs (store_message had_state prev_max f w)

module _ (src : Source) (settings : Settings) (cancelled : List ℕ → Bool) where
  -- the loop over the batches of new mail; `fuel` bounds the rounds
  unfoldable pub fetch_loop : ℕ → Bool → ℕ → ℕ → List ℕ → Work → Outcome
  fetch_loop zero had_state prev_max validity fresh w = done w
  fetch_loop (suc fuel) had_state prev_max validity fresh w =
      let batch = take fetch_batch fresh in
      let next : Outcome =
        elim (src.fetch w.stats.folder validity batch (settings.max_message_mb * 2 ^ 20)) [
          | none ↦ failed w
          | some msgs ↦
              fetch_loop fuel had_state prev_max validity (drop fetch_batch fresh)
                (store_batch had_state prev_max msgs w)
        ] in
      if is_nil fresh then done w else if cancelled fresh then failed w else next

  -- the counters and the sync state at the end of the cycle
  unfoldable pub finish : FolderStatus → List ℕ → Work → Outcome
  finish status existing w =
      let st = w.stats in
      done (record w {
        cache =
            put_state st.account st.folder
              (record {
                uid_validity = status.uid_validity;
                highest_modseq = status.highest_modseq;
              })
              w.cache;
        stats = record st { cached = length existing + st.new };
      })

  -- the cycle behind the search, with the UIDs of the server
  unfoldable pub sync_window : FolderStatus → FolderSyncState → List ℕ → Work → Outcome
  sync_window status prev server w =
      let cached = cached_uids w.stats.account w.stats.folder w.cache in
      let existing = existing_of cached server in
      let fresh = fresh_of cached server in
      let had_state = not (prev.uid_validity == 0) in
      let changed_since =
        if status.cond_store && ltb 0 prev.highest_modseq then prev.highest_modseq else 0 in
      let w' = remove_gone server cached w in
      elim (src.flags w.stats.folder status.uid_validity existing changed_since) [
        | none ↦ failed w'
        | some ups ↦
            fetch_loop (length fresh) had_state (max_uid cached) status.uid_validity
              (sort_desc fresh) (apply_flags cached ups w')
            >>= finish status existing
      ]

  -- prev, and what is dropped when the UIDVALIDITY has changed
  abbrev pub is_rebuilt : FolderStatus → FolderSyncState → Bool
  is_rebuilt status prev =
      not (prev.uid_validity == 0) && not (prev.uid_validity == status.uid_validity)

  unfoldable pub rebuild : FolderStatus → FolderSyncState → Work → FolderSyncState × Work
  rebuild status prev w =
      let st = w.stats in
      if is_rebuilt status prev
      then (
        zero_state,
        record w {
          cache = (delete_folder st.account st.folder w.cache).1;
          stats = record st { rebuilt = true };
        },
      )
      else (prev, w)

  unfoldable pub sync_folder : ℕ → Work → Outcome
  sync_folder now w = elim (src.status w.stats.folder) [
    | none ↦ failed w
    | some status ↦
        let w1 : Work = record w { stats = record w.stats { cond_store = status.cond_store } } in
        let (prev, w2) = rebuild status (get_state w.stats.account w.stats.folder w.cache) w1 in
        elim (src.search_since w.stats.folder status.uid_validity
          (window_start now w.stats.window_days) settings.keep_flagged) [
            | none ↦ failed w2
            | some server ↦ sync_window status prev server w2
          ]
  ]
