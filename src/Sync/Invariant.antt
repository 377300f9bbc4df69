-- ===== src/Sync/Invariant.antt =====
-- Properties of the cached rows along a whole cycle, on success and on error.
use mathlib.Core.Path.{subst}
use imap_mcp.Prelude.{
  sym, ℕ, zero, suc, ◌*◌, ◌^◌, ◌≡◌, Bool, not, ◌&&◌, List, [], ◌∷◌, Text, is_nil, length, take,
  drop, ◌==◌, ltb, if◌then◌else◌, Bool-cases, Option-cases, inl, inr, arith,
}
use imap_mcp.Cache.{
  Row, Cache, CachedMessage, FolderSyncState, cached_uids, get_state, put_state, insert,
  update_flags, delete_uids, delete_folder,
}
use imap_mcp.Sync.{
  Source, FolderStatus, Fetched, FlagUpdate, Work, Outcome, done, failed, work_of, ◌>>=◌, Settings,
  fetch_batch, to_cached, existing_of, fresh_of, gone_of, sort_desc, max_uid, window_start,
  same_flags, flags_of,
}
use imap_mcp.Sync.Cycle.{
  remove_gone, apply_flag, apply_flags, store_message, store_batch, fetch_loop, finish, sync_window,
  rebuild, is_rebuilt, sync_folder,
}

-- A property of rows, for the account and the folder of a cycle.
pub record IsKept (P : Text → Text → List Row → Type 0) : Type 0 where
  pub by_delete_uids :
      (a f : Text) (us : List ℕ) (c : Cache)
      → P a f c.messages
      → P a f (delete_uids a f us c).1.messages
  pub by_update_flags :
      (a f : Text) (u : ℕ) (flags : List Text) (c : Cache)
      → P a f c.messages
      → P a f (update_flags a f u flags c).1.messages
  pub by_insert :
      (m : CachedMessage) (c : Cache)
      → P m.account m.folder c.messages
      → P m.account m.folder (insert m c).1.messages
  pub by_delete_folder :
      (a f : Text) (c : Cache) → P a f c.messages → P a f (delete_folder a f c).1.messages

module _ (P : Text → Text → List Row → Type 0) (kept : IsKept P) where
  abbrev pub At : Work → Type 0
  At w = P w.stats.account w.stats.folder w.cache.messages

  remove_gone-At :
      (server : List ℕ) (cached : List (ℕ × List Text)) (w : Work)
      → At w
      → At (remove_gone server cached w)
  unfolding remove_gone
  remove_gone-At server cached w h = elim (Bool-cases (is_nil (gone_of server cached))) [
    | inl nothing ↦ rw nothing h
    | inr gone ↦
        rw gone
          (kept.by_delete_uids w.stats.account w.stats.folder (gone_of server cached) w.cache h)
  ]

  apply_flag-At :
      (cached : List (ℕ × List Text)) (up : FlagUpdate) (w : Work)
      → At w
      → At (apply_flag cached up w)
  unfolding apply_flag
  apply_flag-At cached up w h =
      let st = w.stats in
      let r = update_flags st.account st.folder up.uid up.flags w.cache in
      let later = kept.by_update_flags st.account st.folder up.uid up.flags w.cache h in
      elim (Bool-cases (same_flags (flags_of up.uid cached) up.flags)) [
        | inl same ↦ rw same h
        | inr changed ↦ elim (Bool-cases r.0) [
          | inl found ↦ rw (changed, found) later
          | inr missing ↦ rw (changed, missing) later
        ]
      ]

  apply_flags-At :
      (cached : List (ℕ × List Text)) (ups : List FlagUpdate) (w : Work)
      → At w
      → At (apply_flags cached ups w)
  unfolding apply_flags
  apply_flags-At cached [] w h = h
  apply_flags-At cached (up ∷ ups) w h =
      apply_flags-At cached ups (apply_flag cached up w) (apply_flag-At cached up w h)

  store_batch-At :
      (had : Bool) (top : ℕ) (xs : List Fetched) (w : Work) → At w → At (store_batch had top xs w)
  unfolding store_batch store_message to_cached
  store_batch-At had top [] w h = h
  store_batch-At had top (x ∷ xs) w h =
      store_batch-At had top xs (store_message had top x w) (kept.by_insert _ w.cache h)

  module _ (src : Source) (settings : Settings) (cancelled : List ℕ → Bool) where
    fetch_loop-At :
        (fuel : ℕ) (had : Bool) (top validity : ℕ) (fresh : List ℕ) (w : Work)
        → At w
        → At (work_of (fetch_loop src settings cancelled fuel had top validity fresh w))
    unfolding fetch_loop
    fetch_loop-At zero had top validity fresh w h = h
    fetch_loop-At (suc fuel) had top validity fresh w h =
        let batch = take fetch_batch fresh in
        let size = settings.max_message_mb * 2 ^ 20 in
        elim (Bool-cases (is_nil fresh)) [
          | inl nothing ↦ rw nothing h
          | inr more ↦ elim (Bool-cases (cancelled fresh)) [
            | inl stopped ↦ rw (more, stopped) h
            | inr going ↦ elim (Option-cases (src.fetch w.stats.folder validity batch size)) [
              | inl broken ↦ rw (more, going, broken) h
              | inr (msgs, got) ↦
                  rw (more, going, got)
                    (fetch_loop-At fuel had top validity (drop fetch_batch fresh)
                      (store_batch had top msgs w) (store_batch-At had top msgs w h))
            ]
          ]
        ]

    finish-At :
        (status : FolderStatus) (existing : List ℕ) (m : Outcome)
        → At (work_of m)
        → At (work_of (m >>= finish src settings cancelled status existing))
    unfolding finish put_state
    finish-At status existing (done w) h = h
    finish-At status existing (failed w) h = h

    sync_window-At :
        (status : FolderStatus) (prev : FolderSyncState) (server : List ℕ) (w : Work)
        → At w
        → At (work_of (sync_window src settings cancelled status prev server w))
    unfolding sync_window
    sync_window-At status prev server w h =
        let cached = cached_uids w.stats.account w.stats.folder w.cache in
        let existing = existing_of cached server in
        let fresh = fresh_of cached server in
        let changed_since =
          if status.cond_store && ltb 0 prev.highest_modseq then prev.highest_modseq else 0 in
        let w1 = remove_gone server cached w in
        let h1 = remove_gone-At server cached w h in
        elim (Option-cases (src.flags w.stats.folder status.uid_validity existing changed_since)) [
          | inl broken ↦
              let e : sync_window src settings cancelled status prev server w ≡ failed w1 =
                ground arith in
              subst (λ o. At (work_of o)) (sym e) h1
          | inr (ups, got) ↦
              let fetched =
                fetch_loop src settings cancelled (length fresh) (not (prev.uid_validity == 0))
                  (max_uid cached) status.uid_validity (sort_desc fresh)
                  (apply_flags cached ups w1) in
              let e : sync_window src settings cancelled status prev server w
                  ≡ (fetched >>= finish src settings cancelled status existing) =
                ground arith in
              subst (λ o. At (work_of o)) (sym e)
                (finish-At status existing fetched (
                  fetch_loop-At (length fresh) (not (prev.uid_validity == 0)) (max_uid cached)
                    status.uid_validity (sort_desc fresh) (apply_flags cached ups w1)
                    (apply_flags-At cached ups w1 h1)))
        ]

    rebuild-At :
        (status : FolderStatus) (prev : FolderSyncState) (w : Work)
        → At w
        → At (rebuild src settings cancelled status prev w).1
    unfolding rebuild
    rebuild-At status prev w h = elim (Bool-cases (is_rebuilt src settings cancelled status prev)) [
      | inl changed ↦ rw changed (kept.by_delete_folder w.stats.account w.stats.folder w.cache h)
      | inr same ↦ rw same h
    ]

    pub sync_folder-At :
        (now : ℕ) (w : Work) → At w → At (work_of (sync_folder src settings cancelled now w))
    unfolding sync_folder
    sync_folder-At now w h = elim (Option-cases (src.status w.stats.folder)) [
      | inl broken ↦
          let e : sync_folder src settings cancelled now w ≡ failed w = ground arith in
          subst (λ o. At (work_of o)) (sym e) h
      | inr (status, reported) ↦
          let w1 : Work = record w { stats = record w.stats { cond_store = status.cond_store } } in
          let prev = get_state w.stats.account w.stats.folder w.cache in
          let r = rebuild src settings cancelled status prev w1 in
          let h1 = rebuild-At status prev w1 h in
          elim (Option-cases (
            src.search_since w.stats.folder status.uid_validity
              (window_start now w.stats.window_days) settings.keep_flagged)) [
                | inl broken ↦
                    let e : sync_folder src settings cancelled now w ≡ failed r.1 = ground arith in
                    subst (λ o. At (work_of o)) (sym e) h1
                | inr (server, searched) ↦
                    let e : sync_folder src settings cancelled now w
                        ≡ sync_window src settings cancelled status r.0 server r.1 =
                      ground arith in
                    subst (λ o. At (work_of o)) (sym e) (sync_window-At status r.0 server r.1 h1)
              ]
    ]
