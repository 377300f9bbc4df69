-- ===== src/Sync/Selection.antt =====
-- Which folders of an account the cache holds after a sync.
use imap_mcp.Prelude.{
  ℕ, ◌≡◌, refl, ap, ◌∙◌, Bool, true, false, ◌||◌, List, [], ◌∷◌, Option, none, some, Text, text_eq,
  text_eq_iff, text_eq_refl, contains, arith, Bool-cases, Option-cases, inl, inr,
}
use imap_mcp.Cache.{Cache, prune_folders}
use imap_mcp.Cache.Rows.{has_row}
use imap_mcp.Cache.Prune.{has_row-prune_folders}
use imap_mcp.Sync.{Mailbox, Source, Settings}
use imap_mcp.Sync.Account.{
  SyncOptions, State, resolve_folder, sync_entry, sync_entries, prune_stale, sync_account,
  sync_folders,
}

-- The mailboxes that the entries name.
abbrev pub resolved : List Mailbox → List Text → List Text
resolved folders [] = []
resolved folders (entry ∷ entries) = elim (resolve_folder entry folders) [
  | none ↦ resolved folders entries
  | some name ↦ name ∷ resolved folders entries
]

none_seen : (g : Text) → contains [] g ≡ false
unfolding contains
none_seen g = refl

module _ (src : Source) (settings : Settings) (own : Option SyncOptions) (shared : SyncOptions)
    (stopped : List Text → Bool) (cancelled : Text → List ℕ → Bool) (now : ℕ) (account : Text) where
  entry-seen :
      (folders : List Mailbox) (entry : Text) (entries : List Text) (st : State) (g : Text)
      → (contains
            (sync_entry src settings own shared stopped cancelled now account folders entry st).seen
            g
          || contains (resolved folders entries) g)
        ≡ (contains st.seen g || contains (resolved folders (entry ∷ entries)) g)
  unfolding sync_entry contains
  entry-seen folders entry entries st g = elim (Option-cases (resolve_folder entry folders)) [
    | inl missing ↦ ground arith
    | inr (name, found) ↦ elim (Bool-cases (text_eq name g)) [
      | inl this ↦
          let e : contains st.seen name ≡ contains st.seen g =
            ap (contains st.seen) ((text_eq_iff name g).0 this) in
          ground (arith, e)
      | inr other ↦ ground arith
    ]
  ]

  -- Without a cancellation, the mailboxes seen are those that the entries name.
  entries-seen :
      (folders : List Mailbox) (entries : List Text) (st : State) (g : Text)
      → ((rest : List Text) → stopped rest ≡ false)
      → contains
          (sync_entries src settings own shared stopped cancelled now account folders entries
            st).1.seen
          g
        ≡ (contains st.seen g || contains (resolved folders entries) g)
  unfolding sync_entries contains
  entries-seen folders [] st g never = ground arith
  entries-seen folders (entry ∷ entries) st g never =
      let st' = sync_entry src settings own shared stopped cancelled now account folders entry st in
      ground (
        arith,
        never (entry ∷ entries),
        entries-seen folders entries st' g never,
        entry-seen folders entry entries st g,
      )

  entries-early :
      (folders : List Mailbox) (entries : List Text) (st : State)
      → ((rest : List Text) → stopped rest ≡ false)
      → (sync_entries src settings own shared stopped cancelled now account folders entries st).0
        ≡ false
  unfolding sync_entries
  entries-early folders [] st never = refl
  entries-early folders (entry ∷ entries) st never =
      let st' = sync_entry src settings own shared stopped cancelled now account folders entry st in
      ground (arith, never (entry ∷ entries), entries-early folders entries st' never)

  -- After the sync of an account that is not cancelled, the cache holds no row of the account outside
  -- the mailboxes that its configured entries name on the server.
  pub sync_account-resolved :
      (c : Cache) (st : State) (folders : List Mailbox) (g : Text) (u : ℕ)
      → ((rest : List Text) → stopped rest ≡ false)
      → src.folders ≡ some folders
      → sync_account src settings own shared stopped cancelled now account c ≡ some st
      → has_row account g u st.cache.messages ≡ true
      → contains (resolved folders (sync_folders own shared)) g ≡ true
  unfolding sync_account prune_stale
  sync_account-resolved c st folders g u never listed e h =
      let first : State = record { cache = c; seen = []; reports = []; events = [] } in
      let r =
        sync_entries src settings own shared stopped cancelled now account folders
          (sync_folders own shared) first in
      let early = entries-early folders (sync_folders own shared) first never in
      let seen = entries-seen folders (sync_folders own shared) first g never in
      let after : Cache = prune_folders account r.1.seen r.1.cache in
      let same : after ≡ st.cache = ground (arith, never []) in
      let kept : has_row account g u after.messages ≡ true =
        ap (λ x. has_row account g u x.messages) same ∙ h in
      ground (
        arith,
        kept,
        has_row-prune_folders account r.1.seen r.1.cache account g u,
        text_eq_refl account,
        seen,
        none_seen g,
      )
