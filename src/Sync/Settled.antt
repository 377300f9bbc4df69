-- ===== src/Sync/Settled.antt =====
-- The reports of the sync of an account, against its cache at the end.
use mathlib.Core.Path.{subst}
use imap_mcp.Prelude.{
  ℕ, ◌≡◌, refl, ap, ◌∙◌, sym, Bool, true, false, ◌||◌, List, [], ◌∷◌, ◌++◌, Option, some, Text,
  text_eq, text_eq_iff, contains, arith, Bool-cases, Option-cases, inl, inr, All, All-append,
  All-map,
}
use imap_mcp.Cache.{Cache, mem, prune_folders}
use imap_mcp.Cache.Rows.{has_row}
use imap_mcp.Cache.Prune.{has_row-prune_folders}
use imap_mcp.Sync.{
  folder_synced, Mailbox, Source, FolderStatus, Work, Outcome, done, failed, work_of, Settings,
  window_start,
}
use imap_mcp.Sync.Contents.{IsExact}
use imap_mcp.Sync.Mirror.{sync_folder-Mirrors}
use imap_mcp.Sync.Safety.{sync_folder-outside, sync_folder-stats}
use imap_mcp.Sync.Isolation.{has_row-outside}
use imap_mcp.Sync.Account.{
  SyncOptions, State, Report, not_found, synced, broken, report_of, resolve_folder, cycle,
  fresh_stats, window_days, sync_entry, sync_entries, prune_stale, sync_account, sync_folders,
}

module _ (src : Source) (settings : Settings) (own : Option SyncOptions) (shared : SyncOptions)
    (stopped : List Text → Bool) (cancelled : Text → List ℕ → Bool) (now : ℕ) (account : Text) where
  -- The folder caches exactly the UIDs that the server gave for the search from that time on.
  pub record IsMirrored (c : Cache) (folder : Text) (since : ℕ) : Type 0 where
    pub status : FolderStatus
    pub server : List ℕ
    pub reported : src.status folder ≡ some status
    pub searched :
        src.search_since folder status.uid_validity since settings.keep_flagged ≡ some server
    pub mirrored : (u : ℕ) → has_row account folder u c.messages ≡ mem u server

  IsMirrored-same :
      (c c' : Cache) (folder : Text) (since : ℕ)
      → ((u : ℕ) → has_row account folder u c'.messages ≡ has_row account folder u c.messages)
      → IsMirrored c folder since
      → IsMirrored c' folder since
  IsMirrored-same c c' folder since same m = record {
    status = m.status;
    server = m.server;
    reported = m.reported;
    searched = m.searched;
    mirrored = λ u. same u ∙ m.mirrored u;
  }

  -- What a report promises about the state.
  abbrev pub Holds : State → Report → Type 0
  Holds st (not_found entry) = Unit
  Holds st (broken entry s) = Unit
  Holds st (synced entry s) =
      (contains st.seen s.folder ≡ true)
      × IsMirrored st.cache s.folder (window_start now (window_days own shared entry))

  -- Every report holds.
  abbrev pub Settled : State → Type 0
  Settled st = All (Holds st) st.reports

  pruned :
      (st : State) (r : Report)
      → Holds st r
      → Holds (record st { cache = prune_folders account st.seen st.cache }) r
  pruned st (not_found entry) h = tt
  pruned st (broken entry s) h = tt
  pruned st (synced entry s) (held, m) = (
    held,
    IsMirrored-same st.cache (prune_folders account st.seen st.cache) s.folder
        (window_start now (window_days own shared entry))
        (λ u. ground (arith, has_row-prune_folders account st.seen st.cache account s.folder u)) m,
  )

  -- A cycle of another folder keeps it.
  Holds-next :
      (st st' : State) (name : Text)
      → ((g : Text) (u : ℕ)
          → text_eq g name ≡ false
          → has_row account g u st'.cache.messages ≡ has_row account g u st.cache.messages)
      → st'.seen ≡ name ∷ st.seen
      → contains st.seen name ≡ false
      → (r : Report) → Holds st r
      → Holds st' r
  unfolding contains
  Holds-next st st' name same seen unseen (not_found entry) h = tt
  Holds-next st st' name same seen unseen (broken entry s) h = tt
  Holds-next st st' name same seen unseen (synced entry s) (held, m) =
      elim (Bool-cases (text_eq s.folder name)) [
        | inl this ↦
            let e : contains st.seen s.folder ≡ contains st.seen name =
              ap (contains st.seen) ((text_eq_iff s.folder name).0 this) in
            absurd (ground arith)
        | inr other ↦ (
          rw seen (ground arith),
          IsMirrored-same st.cache st'.cache s.folder
              (window_start now (window_days own shared entry)) (λ u. same s.folder u other) m,
        )
      ]

  module _ (exact : IsExact src) where
    -- The report of a cycle holds of the state that the cycle leaves.
    report-Holds :
        (entry name : Text) (st : State) (st' : State) (out : Outcome)
        → cycle src settings own shared stopped cancelled now account entry name st ≡ out
        → st'.cache ≡ (work_of out).cache
        → st'.seen ≡ name ∷ st.seen
        → Holds st' (report_of entry out)
    unfolding report_of contains
    report-Holds entry name st st' (failed w') e c seen = tt
    report-Holds entry name st st' (done w') e c seen =
        let w : Work = record {
          cache = st.cache;
          stats = fresh_stats account name (window_days own shared entry);
          events = st.events;
        } in
        let m = sync_folder-Mirrors src settings (cancelled name) exact now w w' e in
        let stats = (sync_folder-stats src settings (cancelled name) now w).1 in
        let folder : name ≡ w'.stats.folder = sym stats ∙ ap (λ o. (work_of o).stats.folder) e in
        let here : IsMirrored w'.cache name (window_start now (window_days own shared entry)) =
          record {
            status = m.status;
            server = m.server;
            reported = m.reported;
            searched = m.searched;
            mirrored = m.mirrored;
          } in
        (
          rw seen (ground (arith, (text_eq_iff name w'.stats.folder).1 folder)),
          rw c (
              subst (λ f. IsMirrored w'.cache f (window_start now (window_days own shared entry)))
                folder here),
        )

    entry-Settled :
        (folders : List Mailbox) (entry : Text) (st : State)
        → Settled st
        → Settled
            (sync_entry src settings own shared stopped cancelled now account folders entry st)
    unfolding sync_entry
    entry-Settled folders entry st h = elim (Option-cases (resolve_folder entry folders)) [
      | inl missing ↦
          let after : State = record st { reports = st.reports ++ not_found entry ∷ [] } in
          let e : sync_entry src settings own shared stopped cancelled now account folders entry st
              ≡ after =
            ground arith in
          subst Settled (sym e)
            (All-append (Holds after) st.reports (not_found entry ∷ []) h (tt, tt))
      | inr (name, found) ↦ elim (Bool-cases (contains st.seen name)) [
        | inl again ↦
            let e : sync_entry src settings own shared stopped cancelled now account folders entry
                  st
                ≡ st =
              ground arith in
            subst Settled (sym e) h
        | inr new ↦
            let out = cycle src settings own shared stopped cancelled now account entry name st in
            let after : State = record {
              cache = (work_of out).cache;
              seen = name ∷ st.seen;
              reports = st.reports ++ report_of entry out ∷ [];
              events = (work_of out).events ++ folder_synced account (work_of out).stats ∷ [];
            } in
            let e : sync_entry src settings own shared stopped cancelled now account folders entry
                  st
                ≡ after =
              ground arith in
            let w : Work = record {
              cache = st.cache;
              stats = fresh_stats account name (window_days own shared entry);
              events = st.events;
            } in
            let same : (g : Text) (u : ℕ)
                → text_eq g name ≡ false
                → has_row account g u after.cache.messages ≡ has_row account g u st.cache.messages =
              λ g u other.
                sym (has_row-outside account name account g u after.cache.messages (ground arith))
                ∙ ap (has_row account g u) (sync_folder-outside src settings (cancelled name) now w)
                ∙ has_row-outside account name account g u st.cache.messages (ground arith) in
            subst Settled (sym e) (
              All-append (Holds after) st.reports (report_of entry out ∷ [])
                (All-map (Holds st) (Holds after) st.reports
                  (Holds-next st after name same refl new) h)
                (report-Holds entry name st after out refl refl refl, tt))
      ]
    ]

    entries-Settled :
        (folders : List Mailbox) (entries : List Text) (st : State)
        → Settled st
        → Settled
            (sync_entries src settings own shared stopped cancelled now account folders entries
              st).1
    unfolding sync_entries
    entries-Settled folders [] st h = h
    entries-Settled folders (entry ∷ entries) st h =
        let st' =
          sync_entry src settings own shared stopped cancelled now account folders entry st in
        elim (Bool-cases (stopped (entry ∷ entries))) [
          | inl early ↦ rw early h
          | inr going ↦
              rw going (entries-Settled folders entries st' (entry-Settled folders entry st h))
        ]

    prune-Settled :
        (r : Bool × State)
        → Settled r.1
        → Settled (prune_stale src settings own shared stopped cancelled now account r)
    unfolding prune_stale
    prune-Settled (early, st) h = elim (Bool-cases (early || stopped [])) [
      | inl over ↦ rw over h
      | inr normal ↦
          let after : State = record st { cache = prune_folders account st.seen st.cache } in
          rw normal (All-map (Holds st) (Holds after) st.reports (pruned st) h)
    ]

    -- When the sync of an account ends, every folder that it reports as synced without an error caches
    -- exactly the UIDs that the server gave for the search from the start of the window of its entry,
    -- whatever the later cycles and the pruning did, if the server answers every fetch for exactly the
    -- UIDs that were asked.
    pub sync_account-mirrors :
        (c : Cache) (st : State)
        → sync_account src settings own shared stopped cancelled now account c ≡ some st
        → Settled st
    unfolding sync_account
    sync_account-mirrors c st e = elim (Option-cases src.folders) [
      | inl refused ↦ absurd (ground arith)
      | inr (folders, listed) ↦
          let first : State = record { cache = c; seen = []; reports = []; events = [] } in
          let r =
            sync_entries src settings own shared stopped cancelled now account folders
              (sync_folders own shared) first in
          let same : prune_stale src settings own shared stopped cancelled now account r ≡ st =
            ground arith in
          subst Settled same
            (prune-Settled r (entries-Settled folders (sync_folders own shared) first tt))
    ]
