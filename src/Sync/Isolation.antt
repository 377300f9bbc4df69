-- ===== src/Sync/Isolation.antt =====
-- What the sync of an account leaves in the cache.
use imap_mcp.Prelude.{
  not, contains, ◌&&◌, ℕ, ◌≡◌, refl, ap, ◌∙◌, sym, Bool, false, List, [], ◌∷◌, Option, some, Text,
  text_eq, text_eq_iff, arith, Bool-cases, Option-cases, inl, inr,
}
use imap_mcp.Cache.{Row, Cache, at_key, delete_where, prune_folders}
use imap_mcp.Cache.Rows.{has_row}
use imap_mcp.Sync.{Mailbox, Source, Work, work_of, Settings}
use imap_mcp.Sync.Cycle.{sync_folder}
use imap_mcp.Sync.Safety.{outside, sync_folder-outside}
use imap_mcp.Sync.Account.{
  SyncOptions, State, resolve_folder, fresh_stats, window_days, sync_entry, sync_entries,
  prune_stale, sync_account, sync_folders,
}

-- The rows of every other folder are outside of a folder.
pub has_row-outside :
    (a f b g : Text) (u : ℕ) (rows : List Row)
    → (text_eq b a && text_eq g f) ≡ false
    → has_row b g u (outside a f rows) ≡ has_row b g u rows
unfolding has_row delete_where
has_row-outside a f b g u [] h = refl
has_row-outside a f b g u (r ∷ rows) h = elim (Bool-cases (at_key b g u r)) [
  | inl here ↦
      let same_account : r.account ≡ b = (text_eq_iff r.account b).0 (ground arith) in
      let same_folder : r.folder ≡ g = (text_eq_iff r.folder g).0 (ground arith) in
      let account : text_eq r.account a ≡ text_eq b a = ap (λ x. text_eq x a) same_account in
      let folder : text_eq r.folder f ≡ text_eq g f = ap (λ x. text_eq x f) same_folder in
      ground (arith, account, folder, has_row-outside a f b g u rows h)
  | inr there ↦ ground (arith, has_row-outside a f b g u rows h)
]

-- The rows of every account but one, in their order and with all they hold
abbrev pub other_accounts : Text → List Row → List Row
other_accounts account rows = delete_where (λ r. text_eq r.account account) rows

other_accounts-outside :
    (account folder : Text) (rows : List Row)
    → other_accounts account (outside account folder rows) ≡ other_accounts account rows
unfolding delete_where
other_accounts-outside account folder [] = refl
other_accounts-outside account folder (r ∷ rows) =
    ground (arith, other_accounts-outside account folder rows)

other_accounts-pruned :
    (account : Text) (keep : List Text) (rows : List Row)
    → other_accounts account
        (delete_where (λ r. text_eq r.account account && not (contains keep r.folder)) rows)
      ≡ other_accounts account rows
unfolding delete_where
other_accounts-pruned account keep [] = refl
other_accounts-pruned account keep (r ∷ rows) =
    ground (arith, other_accounts-pruned account keep rows)

module _ (src : Source) (settings : Settings) (own : Option SyncOptions) (shared : SyncOptions)
    (stopped : List Text → Bool) (cancelled : Text → List ℕ → Bool) (now : ℕ) (account : Text) where
  entry-others :
      (folders : List Mailbox) (entry : Text) (st : State)
      → other_accounts account
          (sync_entry src settings own shared stopped cancelled now account folders entry
            st).cache.messages
        ≡ other_accounts account st.cache.messages
  unfolding sync_entry
  entry-others folders entry st = elim (Option-cases (resolve_folder entry folders)) [
    | inl missing ↦ ground arith
    | inr (name, found) ↦
        let w : Work = record {
          cache = st.cache;
          stats = fresh_stats account name (window_days own shared entry);
          events = st.events;
        } in
        let after = (work_of (sync_folder src settings (cancelled name) now w)).cache.messages in
        let same : other_accounts account after ≡ other_accounts account st.cache.messages =
          sym (other_accounts-outside account name after)
          ∙ ap (other_accounts account) (sync_folder-outside src settings (cancelled name) now w)
          ∙ other_accounts-outside account name st.cache.messages in
        ground (arith, same)
  ]

  entries-others :
      (folders : List Mailbox) (entries : List Text) (st : State)
      → other_accounts account
          (sync_entries src settings own shared stopped cancelled now account folders entries
            st).1.cache.messages
        ≡ other_accounts account st.cache.messages
  unfolding sync_entries
  entries-others folders [] st = refl
  entries-others folders (entry ∷ entries) st =
      let st' = sync_entry src settings own shared stopped cancelled now account folders entry st in
      ground (arith, entries-others folders entries st', entry-others folders entry st)

  stale-others :
      (r : Bool × State)
      → other_accounts account
          (prune_stale src settings own shared stopped cancelled now account r).cache.messages
        ≡ other_accounts account r.1.cache.messages
  unfolding prune_stale prune_folders
  stale-others (early, st) = ground (arith, other_accounts-pruned account st.seen st.cache.messages)

  -- The sync of an account whose server lists its folders leaves the rows of all other accounts as
  -- they were, in their order and with all that they hold, whatever else the server answers and
  -- whenever the context is done.
  pub sync_account-others :
      (c : Cache) (st : State)
      → sync_account src settings own shared stopped cancelled now account c ≡ some st
      → other_accounts account st.cache.messages ≡ other_accounts account c.messages
  unfolding sync_account
  sync_account-others c st e = elim (Option-cases src.folders) [
    | inl broken ↦ absurd (ground arith)
    | inr (folders, listed) ↦
        let first : State = record { cache = c; seen = []; reports = []; events = [] } in
        let r =
          sync_entries src settings own shared stopped cancelled now account folders
            (sync_folders own shared) first in
        let same : prune_stale src settings own shared stopped cancelled now account r ≡ st =
          ground arith in
        rw (← same) (stale-others r ∙ entries-others folders (sync_folders own shared) first)
  ]
