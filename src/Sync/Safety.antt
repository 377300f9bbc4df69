-- ===== src/Sync/Safety.antt =====
-- The enrichment queue and the other folders along a cycle, on success and on error.
use mathlib.Core.Path.{subst₂}
use imap_mcp.Prelude.{
  ℕ, ◌+◌, ◌≤◌, ◌≡◌, refl, ap, ◌∙◌, Bool, false, List, [], ◌∷◌, ◌++◌, Text, text_eq_refl, arith,
  take, drop, zero, suc,
}
use imap_mcp.Cache.{
  Row, CachedMessage, in_folder, at_key, among, delete_where, count_where, set_flags,
  delete_batches, insert, row_of, is_dup, update_flags, delete_uids, delete_folder,
}
use imap_mcp.Cache.Queue.{IsOnce, queued_as, insert-IsOnce, count_where-delete-le}
use imap_mcp.Sync.{Source, Settings, Work, work_of}
use imap_mcp.Sync.Cycle.{sync_folder}
use imap_mcp.Sync.Invariant.{IsKept, sync_folder-At}

-- Deletions and flag updates never queue a message.
IsOnce-le :
    (rows rows' : List Row)
    → ((mid : Text) → count_where (queued_as mid) rows' ≤ count_where (queued_as mid) rows)
    → IsOnce rows
    → IsOnce rows'
IsOnce-le rows rows' less h = record {
  once = λ mid named. omega (arith, less mid, h.once mid named);
}

count-set_flags :
    (mid a f : Text) (u : ℕ) (flags : List Text) (rows : List Row)
    → count_where (queued_as mid) (set_flags a f u flags rows) ≡ count_where (queued_as mid) rows
unfolding count_where set_flags
count-set_flags mid a f u flags [] = refl
count-set_flags mid a f u flags (r ∷ rows) = ground (arith, count-set_flags mid a f u flags rows)

count-delete_batches :
    (fuel : ℕ) (mid a f : Text) (us : List ℕ) (total : ℕ) (rows : List Row)
    → count_where (queued_as mid) (delete_batches fuel a f us (total, rows)).1
      ≤ count_where (queued_as mid) rows
unfolding delete_batches
count-delete_batches zero mid a f us total rows = omega arith
count-delete_batches (suc fuel) mid a f us total rows =
    let batch = among a f (take 500 us) in
    ground (
      arith,
      count-delete_batches fuel mid a f (drop 500 us) (total + count_where batch rows)
          (delete_where batch rows),
      count_where-delete-le (queued_as mid) batch rows,
    )

IsOnce-IsKept : IsKept (λ a f rows. IsOnce rows)
unfolding delete_uids update_flags delete_folder
IsOnce-IsKept = record {
  by_delete_uids =
      λ a f us c. IsOnce-le c.messages _ (λ mid. count-delete_batches _ mid a f us 0 c.messages);
  by_update_flags = λ a f u flags c.
      IsOnce-le c.messages _ (λ mid. omega (arith, count-set_flags mid a f u flags c.messages));
  by_insert = insert-IsOnce;
  by_delete_folder = λ a f c.
      IsOnce-le c.messages _
        (λ mid. count_where-delete-le (queued_as mid) (in_folder a f) c.messages);
}

-- If no Message-ID is queued for enrichment twice, none is after a folder cycle, whatever the server
-- answers, and whether the cycle succeeds, fails or is cancelled between two batches.
pub sync_folder-IsOnce :
    (src : Source) (settings : Settings) (cancelled : List ℕ → Bool) (now : ℕ) (w : Work)
    → IsOnce w.cache.messages
    → IsOnce (work_of (sync_folder src settings cancelled now w)).cache.messages
sync_folder-IsOnce src settings cancelled =
    sync_folder-At (λ a f rows. IsOnce rows) IsOnce-IsKept src settings cancelled

-- The rows outside a folder.
abbrev pub outside : Text → Text → List Row → List Row
outside a f rows = delete_where (in_folder a f) rows

outside-append :
    (a f : Text) (xs ys : List Row) → outside a f (xs ++ ys) ≡ outside a f xs ++ outside a f ys
unfolding delete_where
outside-append a f [] ys = refl
outside-append a f (r ∷ xs) ys = ground (arith, outside-append a f xs ys)

outside-delete :
    (a f : Text) (k : Row → Bool) (rows : List Row)
    → ((r : Row) → in_folder a f r ≡ false → k r ≡ false)
    → outside a f (delete_where k rows) ≡ outside a f rows
unfolding delete_where
outside-delete a f k [] h = refl
outside-delete a f k (r ∷ rows) h = ground (arith, h r, outside-delete a f k rows h)

outside-set_flags :
    (a f : Text) (u : ℕ) (flags : List Text) (rows : List Row)
    → outside a f (set_flags a f u flags rows) ≡ outside a f rows
unfolding delete_where set_flags
outside-set_flags a f u flags [] = refl
outside-set_flags a f u flags (r ∷ rows) = ground (arith, outside-set_flags a f u flags rows)

outside-delete_batches :
    (fuel : ℕ) (a f : Text) (us : List ℕ) (total : ℕ) (rows : List Row)
    → outside a f (delete_batches fuel a f us (total, rows)).1 ≡ outside a f rows
unfolding delete_batches
outside-delete_batches zero a f us total rows = refl
outside-delete_batches (suc fuel) a f us total rows =
    let batch = among a f (take 500 us) in
    ground (
      arith,
      outside-delete_batches fuel a f (drop 500 us) (total + count_where batch rows)
          (delete_where batch rows),
      outside-delete a f batch rows (λ r other. ground arith),
    )

outside-row_of :
    (m : CachedMessage) (id : ℕ) (dup : Bool)
    → outside m.account m.folder (row_of m id dup ∷ []) ≡ []
unfolding delete_where row_of
outside-row_of m id dup = ground (arith, text_eq_refl m.account, text_eq_refl m.folder)

append-nil : (xs : List Row) → xs ++ [] ≡ xs
append-nil [] = refl
append-nil (x ∷ xs) = ap (λ r. x ∷ r) (append-nil xs)

-- The account and the folder of a cycle, with the rows outside them.
abbrev Keeps : Text → Text → List Row → Text → Text → List Row → Type 0
Keeps a0 f0 rest a f rows = (a ≡ a0) × (f ≡ f0) × (outside a f rows ≡ rest)

Keeps-IsKept : (a0 f0 : Text) (rest : List Row) → IsKept (Keeps a0 f0 rest)
unfolding delete_uids update_flags delete_folder insert
Keeps-IsKept a0 f0 rest = record {
  by_delete_uids =
      λ a f us c (ha, hf, h). (ha, hf, outside-delete_batches _ a f us 0 c.messages ∙ h);
  by_update_flags =
      λ a f u flags c (ha, hf, h). (ha, hf, outside-set_flags a f u flags c.messages ∙ h);
  by_insert = λ m c (ha, hf, h).
      let key = at_key m.account m.folder m.uid in
      (
        ha,
        hf,
        outside-append m.account m.folder (delete_where key c.messages) _
            ∙ rw
                (
                  outside-row_of m c.next_id (is_dup m c.messages),
                  outside-delete m.account m.folder key c.messages (λ r other. ground arith),
                  h,
                )
                (append-nil rest),
      );
  by_delete_folder = λ a f c (ha, hf, h).
      (ha, hf, outside-delete a f (in_folder a f) c.messages (λ r other. other) ∙ h);
}

-- The rows outside the folder of a cycle, in their order and with all they hold, are the same after it,
-- whatever the server answers, and whether the cycle succeeds, fails or is cancelled.
pub sync_folder-outside :
    (src : Source) (settings : Settings) (cancelled : List ℕ → Bool) (now : ℕ) (w : Work)
    → outside w.stats.account w.stats.folder
        (work_of (sync_folder src settings cancelled now w)).cache.messages
      ≡ outside w.stats.account w.stats.folder w.cache.messages
sync_folder-outside src settings cancelled now w =
    let a0 = w.stats.account in
    let f0 = w.stats.folder in
    let rest = outside a0 f0 w.cache.messages in
    let w' = work_of (sync_folder src settings cancelled now w) in
    let (ha, hf, h) =
      sync_folder-At (Keeps a0 f0 rest) (Keeps-IsKept a0 f0 rest) src settings cancelled now w
        (refl, refl, refl) in
    subst₂ (λ a f. outside a f w'.cache.messages ≡ rest) ha hf h

-- A cycle works for the folder that it was called for.
pub sync_folder-stats :
    (src : Source) (settings : Settings) (cancelled : List ℕ → Bool) (now : ℕ) (w : Work)
    → ((work_of (sync_folder src settings cancelled now w)).stats.account ≡ w.stats.account)
      × ((work_of (sync_folder src settings cancelled now w)).stats.folder ≡ w.stats.folder)
sync_folder-stats src settings cancelled now w =
    let a0 = w.stats.account in
    let f0 = w.stats.folder in
    let rest = outside a0 f0 w.cache.messages in
    let (ha, hf, h) =
      sync_folder-At (Keeps a0 f0 rest) (Keeps-IsKept a0 f0 rest) src settings cancelled now w
        (refl, refl, refl) in
    (ha, hf)
