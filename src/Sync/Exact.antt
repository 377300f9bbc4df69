-- ===== src/Sync/Exact.antt =====
-- The rows that the steps of a cycle add and remove.
use imap_mcp.Prelude.{
  ℕ, zero, suc, ◌*◌, ◌^◌, ◌≤◌, ◌≡◌, refl, ap, ◌∙◌, sym, Bool, not, ◌&&◌, ◌||◌, List, [], ◌∷◌, ◌++◌,
  some, Text, text_eq, length, length-drop, take, drop, take-append-drop, ◌==◌, ltb, if◌then◌else◌,
  arith, Option-cases, inl, inr,
}
use imap_mcp.Cache.{mem, cached_uids, FolderSyncState, put_state}
use imap_mcp.Cache.Rows.{has_row, mem-append}
use imap_mcp.Sync.{
  Source, FolderStatus, Fetched, Work, Outcome, done, failed, ◌>>=◌, fetch_batch, Settings,
  existing_of, fresh_of, gone_of, sort_desc, max_uid,
}
use imap_mcp.Sync.Cycle.{remove_gone, apply_flags, store_batch, fetch_loop, finish, sync_window}
use imap_mcp.Sync.Contents.{
  mine, SameFolder, IsExact, mem-sort_desc, length-sort_desc, remove_gone-folder, rows-remove_gone,
  apply_flags-folder, rows-apply_flags, store_batch-folder, rows-store_batch,
}

-- The second state has the rows of the first one and the listed UIDs in the folder of the cycle.
record Adds (us : List ℕ) (w w' : Work) : Type 0 where
  rows :
      (a f : Text) (u : ℕ)
      → has_row a f u w'.cache.messages
        ≡ (has_row a f u w.cache.messages || (mine a f w && mem u us))
  folder : SameFolder w w'

Adds-nil : (w w' : Work) → Outcome.done w ≡ done w' → Adds [] w w'
unfolding mem
Adds-nil w w' e =
    let same : w ≡ w' = ground arith in
    rw (← same) (record { rows = λ a f u. ground arith; folder = (refl, refl) })

both_add : (p m b r t : Bool) → t ≡ (b || r) → ((p || (m && b)) || (m && r)) ≡ (p || (m && t))
both_add p m b r t e = ground arith

Adds-trans :
    (us vs all : List ℕ) (w w' w'' : Work)
    → us ++ vs ≡ all
    → Adds us w w'
    → Adds vs w' w''
    → Adds all w w''
Adds-trans us vs all w w' w'' e first second =
    let (acct, fold) = first.folder in
    let (acct', fold') = second.folder in
    record {
      rows = λ a f u.
          let here : mine a f w' ≡ mine a f w = cc (ap (text_eq a) acct, ap (text_eq f) fold) in
          second.rows a f u
          ∙ rw (here, first.rows a f u)
              (both_add (has_row a f u w.cache.messages) (mine a f w) (mem u us) (mem u vs)
                (mem u all) (ap (mem u) (sym e) ∙ mem-append u us vs));
      folder = (acct' ∙ acct, fold' ∙ fold);
    }

module _ (src : Source) (settings : Settings) (cancelled : List ℕ → Bool)
    (exact : IsExact src) where
  store_batch-Adds :
      (had : Bool) (top : ℕ) (folder : Text) (validity size : ℕ) (batch : List ℕ)
      (msgs : List Fetched) (w : Work)
      → src.fetch folder validity batch size ≡ some msgs
      → Adds batch w (store_batch had top msgs w)
  store_batch-Adds had top folder validity size batch msgs w e = record {
    rows = λ a f u.
        rw (← exact folder validity batch size msgs e u) (rows-store_batch a f u had top msgs w);
    folder = store_batch-folder had top msgs w;
  }

  -- With enough fuel a loop that ends without an error has fetched everything.
  fetch_loop-Adds :
      (fuel : ℕ) (had : Bool) (top validity : ℕ) (fresh : List ℕ) (w w' : Work)
      → length fresh ≤ fuel
      → fetch_loop src settings cancelled fuel had top validity fresh w ≡ done w'
      → Adds fresh w w'
  unfolding fetch_loop
  fetch_loop-Adds zero had top validity [] w w' h e = Adds-nil w w' e
  fetch_loop-Adds zero had top validity (x ∷ fresh) w w' h e = absurd (omega arith)
  fetch_loop-Adds (suc fuel) had top validity [] w w' h e = Adds-nil w w' e
  fetch_loop-Adds (suc fuel) had top validity (x ∷ fresh) w w' h e =
      let batch = take fetch_batch (x ∷ fresh) in
      let rest = drop fetch_batch (x ∷ fresh) in
      let size = settings.max_message_mb * 2 ^ 20 in
      elim (Option-cases (src.fetch w.stats.folder validity batch size)) [
        | inl broken ↦ absurd (ground arith)
        | inr (msgs, got) ↦
            Adds-trans batch rest (x ∷ fresh) w (store_batch had top msgs w) w'
              (take-append-drop fetch_batch (x ∷ fresh))
              (store_batch-Adds had top w.stats.folder validity size batch msgs w got)
              (fetch_loop-Adds fuel had top validity rest (store_batch had top msgs w) w'
                (omega (arith, length-drop fetch_batch (x ∷ fresh))) (ground arith))
      ]

  bind-done :
      (m : Outcome) (k : Work → Outcome) (w : Work)
      → (m >>= k) ≡ done w
      → (w1 : Work) × (m ≡ done w1) × (k w1 ≡ done w)
  bind-done (done w1) k w e = (w1, refl, e)
  bind-done (failed w1) k w e = cc

  finish-rows :
      (status : FolderStatus) (existing : List ℕ) (w w' : Work)
      → finish src settings cancelled status existing w ≡ done w'
      → (w'.cache.messages ≡ w.cache.messages) × SameFolder w w'
  unfolding finish put_state
  finish-rows status existing w w' e = ground arith

  -- What a cycle behind the search does to the rows of any folder.
  pub sync_window-rows :
      (status : FolderStatus) (prev : FolderSyncState) (server : List ℕ) (w w' : Work)
      → sync_window src settings cancelled status prev server w ≡ done w'
      → (a f : Text) (u : ℕ)
      → has_row a f u w'.cache.messages ≡ (
          (has_row a f u w.cache.messages
            && not (
                mine a f w
                && mem u (gone_of server (cached_uids w.stats.account w.stats.folder w.cache))))
          || (mine a f w
              && mem u (fresh_of (cached_uids w.stats.account w.stats.folder w.cache) server)))
  unfolding sync_window
  sync_window-rows status prev server w w' e a f u =
      let cached = cached_uids w.stats.account w.stats.folder w.cache in
      let existing = existing_of cached server in
      let fresh = fresh_of cached server in
      let changed_since =
        if status.cond_store && ltb 0 prev.highest_modseq then prev.highest_modseq else 0 in
      let w1 = remove_gone server cached w in
      elim (Option-cases (src.flags w.stats.folder status.uid_validity existing changed_since)) [
        | inl broken ↦ absurd (ground arith)
        | inr (ups, got) ↦
            let w2 = apply_flags cached ups w1 in
            let (w3, fetched, finished) =
              bind-done
                (fetch_loop src settings cancelled (length fresh) (not (prev.uid_validity == 0))
                  (max_uid cached) status.uid_validity (sort_desc fresh) w2)
                (finish src settings cancelled status existing) w' (ground arith) in
            let added =
              fetch_loop-Adds (length fresh) (not (prev.uid_validity == 0)) (max_uid cached)
                status.uid_validity (sort_desc fresh) w2 w3 (omega (arith, length-sort_desc fresh))
                fetched in
            let (acct1, fold1) = remove_gone-folder server cached w in
            let (acct2, fold2) = apply_flags-folder cached ups w1 in
            let here : mine a f w2 ≡ mine a f w =
              cc (ap (text_eq a) (acct2 ∙ acct1), ap (text_eq f) (fold2 ∙ fold1)) in
            ap (has_row a f u) (finish-rows status existing w3 w' finished).0
            ∙ added.rows a f u
            ∙ rw (
              here,
              mem-sort_desc u fresh,
              rows-apply_flags a f u cached ups w1,
              rows-remove_gone a f u server cached w,
            )
      ]
