-- ===== src/Cache/Prune.antt =====
-- What the pruning of folders and accounts leaves.
use imap_mcp.Prelude.{
  ℕ, ◌≡◌, refl, ◌∙◌, Bool, not, ◌&&◌, List, [], ◌∷◌, Text, text_eq, text_eq_iff, contains, arith,
  Bool-cases, inl, inr,
}
use imap_mcp.Cache.{Row, Cache, at_key, delete_where, prune_folders, prune_accounts}
use imap_mcp.Cache.Rows.{has_row}

has_row-delete_drop :
    (drop : Text → Text → Bool) (a f : Text) (u : ℕ) (rows : List Row)
    → has_row a f u (delete_where (λ r. drop r.account r.folder) rows)
      ≡ (has_row a f u rows && not (drop a f))
unfolding has_row delete_where
has_row-delete_drop drop a f u [] = refl
has_row-delete_drop drop a f u (r ∷ rows) = elim (Bool-cases (at_key a f u r)) [
  | inl here ↦
      let same_account : r.account ≡ a = (text_eq_iff r.account a).0 (ground arith) in
      let same_folder : r.folder ≡ f = (text_eq_iff r.folder f).0 (ground arith) in
      let e : drop r.account r.folder ≡ drop a f = cc in
      ground (arith, e, has_row-delete_drop drop a f u rows)
  | inr other ↦ ground (arith, has_row-delete_drop drop a f u rows)
]

-- PruneFolders keeps, of the account, exactly the rows of the folders to keep, and every row of every
-- other account.
pub has_row-prune_folders :
    (account : Text) (keep : List Text) (c : Cache) (a f : Text) (u : ℕ)
    → has_row a f u (prune_folders account keep c).messages
      ≡ (has_row a f u c.messages && not (text_eq a account && not (contains keep f)))
unfolding prune_folders
has_row-prune_folders account keep c a f u =
    has_row-delete_drop (λ a f. text_eq a account && not (contains keep f)) a f u c.messages

-- PruneAccounts keeps exactly the rows of the accounts to keep.
pub has_row-prune_accounts :
    (keep : List Text) (c : Cache) (a f : Text) (u : ℕ)
    → has_row a f u (prune_accounts keep c).messages ≡ (has_row a f u c.messages && contains keep a)
unfolding prune_accounts
has_row-prune_accounts keep c a f u =
    has_row-delete_drop (λ a f. not (contains keep a)) a f u c.messages ∙ ground arith
