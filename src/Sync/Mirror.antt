-- ===== src/Sync/Mirror.antt =====
-- The cache of a folder after its cycle, against the server.
use mathlib.Core.Path.{subst₂}
use imap_mcp.Prelude.{
  ℕ, ◌≡◌, ap, ◌∙◌, Bool, true, false, not, ◌&&◌, ◌||◌, List, some, Text, text_eq, text_eq_refl,
  arith, Option-cases, inl, inr,
}
use imap_mcp.Cache.{mem, cached_uids, FolderSyncState, get_state}
use imap_mcp.Cache.Rows.{has_row, mem-cached_uids, has_row-delete_folder}
use imap_mcp.Sync.{Source, FolderStatus, Work, done, Settings, window_start}
use imap_mcp.Sync.Cycle.{sync_window, rebuild, sync_folder}
use imap_mcp.Sync.Contents.{mine, SameFolder, IsExact, mem-gone_of, has_uid-uids_of, mem-fresh_of}
use imap_mcp.Sync.Exact.{sync_window-rows}

-- gone and fresh together turn what was cached into what the server has.
balance :
    (cached server : Bool)
    → ((cached && not (cached && not server)) || (server && not cached)) ≡ server
balance cached server = ground arith

untouched : (p g n m : Bool) → m ≡ false → ((p && not (m && g)) || (m && n)) ≡ p
untouched p g n m e = ground arith

module _ (src : Source) (settings : Settings) (cancelled : List ℕ → Bool)
    (exact : IsExact src) where
  sync_window-mirrors :
      (status : FolderStatus) (prev : FolderSyncState) (server : List ℕ) (w w' : Work)
      → sync_window src settings cancelled status prev server w ≡ done w'
      → (u : ℕ) → has_row w.stats.account w.stats.folder u w'.cache.messages ≡ mem u server
  sync_window-mirrors status prev server w w' e u =
      let a = w.stats.account in
      let f = w.stats.folder in
      let cached = cached_uids a f w.cache in
      let own : mine a f w ≡ true = ground (arith, text_eq_refl a, text_eq_refl f) in
      let was = mem-cached_uids a f u w.cache in
      sync_window-rows src settings cancelled exact status prev server w w' e a f u
      ∙ rw
          (
            own,
            mem-gone_of u server cached,
            mem-fresh_of u cached server,
            has_uid-uids_of u cached,
            was,
          )
          (balance (has_row a f u w.cache.messages) (mem u server))

  rebuild-folder :
      (status : FolderStatus) (prev : FolderSyncState) (w : Work)
      → SameFolder w (rebuild src settings cancelled status prev w).1
  unfolding rebuild
  rebuild-folder status prev w = ground arith

  rebuild-rows :
      (status : FolderStatus) (prev : FolderSyncState) (w : Work) (a f : Text) (u : ℕ)
      → mine a f w ≡ false
      → has_row a f u (rebuild src settings cancelled status prev w).1.cache.messages
        ≡ has_row a f u w.cache.messages
  unfolding rebuild
  rebuild-rows status prev w a f u other =
      ground (arith, has_row-delete_folder a f w.stats.account w.stats.folder u w.cache)

  -- What the cycle of a folder promises when it returns no error: the server reported its status and
  -- answered the search from the start of the window, the folder caches exactly the UIDs that the
  -- search found, and the rows of every other folder are those from before.
  pub record Mirrors (now : ℕ) (w w' : Work) : Type 0 where
    pub status : FolderStatus
    pub server : List ℕ
    pub reported : src.status w.stats.folder ≡ some status
    pub searched :
        src.search_since w.stats.folder status.uid_validity
          (window_start now w.stats.window_days)
          settings.keep_flagged
        ≡ some server
    pub mirrored :
        (u : ℕ) → has_row w.stats.account w.stats.folder u w'.cache.messages ≡ mem u server
    pub others :
        (a f : Text) (u : ℕ)
        → mine a f w ≡ false
        → has_row a f u w'.cache.messages ≡ has_row a f u w.cache.messages

  -- When the cycle of a folder returns no error, and the server answers every fetch for exactly the
  -- UIDs that were asked, the folder caches exactly the UIDs that the search from the start of the
  -- window found, and no row of another folder has come or gone.
  pub sync_folder-Mirrors :
      (now : ℕ) (w w' : Work)
      → sync_folder src settings cancelled now w ≡ done w'
      → Mirrors now w w'
  unfolding sync_folder
  sync_folder-Mirrors now w w' e = elim (Option-cases (src.status w.stats.folder)) [
    | inl broken ↦ absurd (ground arith)
    | inr (status, reported) ↦
        let w1 : Work = record w { stats = record w.stats { cond_store = status.cond_store } } in
        let prev = get_state w.stats.account w.stats.folder w.cache in
        let r = rebuild src settings cancelled status prev w1 in
        let (acct, fold) = rebuild-folder status prev w1 in
        elim (Option-cases (
          src.search_since w.stats.folder status.uid_validity (window_start now w.stats.window_days)
            settings.keep_flagged)) [
              | inl broken ↦ absurd (ground arith)
              | inr (server, searched) ↦
                  let ends : sync_window src settings cancelled status r.0 server r.1 ≡ done w' =
                    ground arith in
                  record {
                    status = status;
                    server = server;
                    reported = reported;
                    searched = searched;
                    mirrored = λ u.
                        subst₂ (λ a f. has_row a f u w'.cache.messages ≡ mem u server) acct fold
                          (sync_window-mirrors status r.0 server r.1 w' ends u);
                    others = λ a f u other.
                        let other' : mine a f r.1 ≡ false =
                          cc (ap (text_eq a) acct, ap (text_eq f) fold, other) in
                        sync_window-rows src settings cancelled exact status r.0 server r.1 w' ends
                          a f u
                        ∙ untouched (has_row a f u r.1.cache.messages) _ _ (mine a f r.1) other'
                        ∙ rebuild-rows status prev w1 a f u other;
                  }
            ]
  ]
