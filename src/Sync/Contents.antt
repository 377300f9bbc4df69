-- ===== src/Sync/Contents.antt =====
-- Which UIDs a folder caches after a cycle.
use imap_mcp.Prelude.{
  ℕ, suc, ◌≡◌, refl, ap, ◌∙◌, Bool, true, false, not, ◌&&◌, ◌||◌, List, [], ◌∷◌, some, Text,
  text_eq, is_nil, length, ◌==◌, arith, Bool-cases, inl, inr,
}
use imap_mcp.Cache.{mem}
use imap_mcp.Cache.Rows.{
  has_row, has_row-delete_uids, has_row-insert, has_row-update_flags, uids_of,
}
use imap_mcp.Sync.{
  Source, Fetched, FlagUpdate, Work, has_uid, fresh_of, gone_of, insert_desc, sort_desc, to_cached,
}
use imap_mcp.Sync.Cycle.{remove_gone, apply_flag, apply_flags, store_message, store_batch}

-- The folder that a cycle is about.
abbrev pub mine : Text → Text → Work → Bool
mine a f w = text_eq a w.stats.account && text_eq f w.stats.folder

-- A step stays with the account and the folder of its cycle.
abbrev pub SameFolder : Work → Work → Type 0
SameFolder w w' = (w'.stats.account ≡ w.stats.account) × (w'.stats.folder ≡ w.stats.folder)

pub mem-gone_of :
    (u : ℕ) (server : List ℕ) (cached : List (ℕ × List Text))
    → mem u (gone_of server cached) ≡ (mem u (uids_of cached) && not (mem u server))
unfolding gone_of mem
mem-gone_of u server [] = refl
mem-gone_of u server ((v, flags) ∷ rest) = elim (Bool-cases (v == u)) [
  | inl same ↦
      let e : v ≡ u = ground arith in
      ground (arith, mem-gone_of u server rest, ap (λ x. mem x server) e)
  | inr other ↦ ground (arith, mem-gone_of u server rest)
]

pub has_uid-uids_of :
    (u : ℕ) (cached : List (ℕ × List Text)) → has_uid u cached ≡ mem u (uids_of cached)
unfolding has_uid mem
has_uid-uids_of u [] = refl
has_uid-uids_of u ((v, flags) ∷ rest) = ground (arith, has_uid-uids_of u rest)

pub mem-fresh_of :
    (u : ℕ) (cached : List (ℕ × List Text)) (server : List ℕ)
    → mem u (fresh_of cached server) ≡ (mem u server && not (has_uid u cached))
unfolding fresh_of mem
mem-fresh_of u cached [] = refl
mem-fresh_of u cached (v ∷ server) = elim (Bool-cases (v == u)) [
  | inl same ↦
      let e : v ≡ u = ground arith in
      ground (arith, mem-fresh_of u cached server, ap (λ x. has_uid x cached) e)
  | inr other ↦ ground (arith, mem-fresh_of u cached server)
]

mem-insert_desc : (u v : ℕ) (vs : List ℕ) → mem u (insert_desc v vs) ≡ (v == u || mem u vs)
unfolding insert_desc mem
mem-insert_desc u v [] = refl
mem-insert_desc u v (x ∷ vs) = ground (arith, mem-insert_desc u v vs)

pub mem-sort_desc : (u : ℕ) (us : List ℕ) → mem u (sort_desc us) ≡ mem u us
unfolding sort_desc mem
mem-sort_desc u [] = refl
mem-sort_desc u (v ∷ us) = ground (arith, mem-sort_desc u us, mem-insert_desc u v (sort_desc us))

length-insert_desc : (v : ℕ) (vs : List ℕ) → length (insert_desc v vs) ≡ suc (length vs)
unfolding insert_desc
length-insert_desc v [] = refl
length-insert_desc v (x ∷ vs) = ground (arith, length-insert_desc v vs)

pub length-sort_desc : (us : List ℕ) → length (sort_desc us) ≡ length us
unfolding sort_desc
length-sort_desc [] = refl
length-sort_desc (v ∷ us) = omega (arith, length-sort_desc us, length-insert_desc v (sort_desc us))

pub remove_gone-folder :
    (server : List ℕ) (cached : List (ℕ × List Text)) (w : Work)
    → SameFolder w (remove_gone server cached w)
unfolding remove_gone
remove_gone-folder server cached w = ground arith

pub is_nil-mem : (u : ℕ) (us : List ℕ) → is_nil us ≡ true → mem u us ≡ false
unfolding mem
is_nil-mem u [] h = refl
is_nil-mem u (v ∷ us) h = cc

pub rows-remove_gone :
    (a f : Text) (u : ℕ) (server : List ℕ) (cached : List (ℕ × List Text)) (w : Work)
    → has_row a f u (remove_gone server cached w).cache.messages
      ≡ (has_row a f u w.cache.messages && not (mine a f w && mem u (gone_of server cached)))
unfolding remove_gone
rows-remove_gone a f u server cached w = elim (Bool-cases (is_nil (gone_of server cached))) [
  | inl nothing ↦ ground (arith, is_nil-mem u (gone_of server cached) nothing)
  | inr some_gone ↦ ground (
    arith,
    has_row-delete_uids a f w.stats.account w.stats.folder u (gone_of server cached) w.cache,
  )
]

apply_flag-folder :
    (cached : List (ℕ × List Text)) (up : FlagUpdate) (w : Work)
    → SameFolder w (apply_flag cached up w)
unfolding apply_flag
apply_flag-folder cached up w = ground arith

rows-apply_flag :
    (a f : Text) (u : ℕ) (cached : List (ℕ × List Text)) (up : FlagUpdate) (w : Work)
    → has_row a f u (apply_flag cached up w).cache.messages ≡ has_row a f u w.cache.messages
unfolding apply_flag
rows-apply_flag a f u cached up w =
    ground
      (arith, has_row-update_flags a f w.stats.account w.stats.folder u up.uid up.flags w.cache)

pub apply_flags-folder :
    (cached : List (ℕ × List Text)) (ups : List FlagUpdate) (w : Work)
    → SameFolder w (apply_flags cached ups w)
unfolding apply_flags
apply_flags-folder cached [] w = (refl, refl)
apply_flags-folder cached (up ∷ ups) w =
    let (acct, fold) = apply_flags-folder cached ups (apply_flag cached up w) in
    let (acct', fold') = apply_flag-folder cached up w in (acct ∙ acct', fold ∙ fold')

pub rows-apply_flags :
    (a f : Text) (u : ℕ) (cached : List (ℕ × List Text)) (ups : List FlagUpdate) (w : Work)
    → has_row a f u (apply_flags cached ups w).cache.messages ≡ has_row a f u w.cache.messages
unfolding apply_flags
rows-apply_flags a f u cached [] w = refl
rows-apply_flags a f u cached (up ∷ ups) w =
    rows-apply_flags a f u cached ups (apply_flag cached up w) ∙ rows-apply_flag a f u cached up w

abbrev pub uids : List Fetched → List ℕ
uids [] = []
uids (x ∷ xs) = x.uid ∷ uids xs

store_message-folder :
    (had : Bool) (top : ℕ) (x : Fetched) (w : Work) → SameFolder w (store_message had top x w)
unfolding store_message
store_message-folder had top x w = (refl, refl)

rows-store_message :
    (a f : Text) (u : ℕ) (had : Bool) (top : ℕ) (x : Fetched) (w : Work)
    → has_row a f u (store_message had top x w).cache.messages
      ≡ (has_row a f u w.cache.messages || (mine a f w && u == x.uid))
unfolding store_message to_cached
rows-store_message a f u had top x w = has_row-insert a f u _ w.cache

pub store_batch-folder :
    (had : Bool) (top : ℕ) (xs : List Fetched) (w : Work) → SameFolder w (store_batch had top xs w)
unfolding store_batch
store_batch-folder had top [] w = (refl, refl)
store_batch-folder had top (x ∷ xs) w =
    let (acct, fold) = store_batch-folder had top xs (store_message had top x w) in
    let (acct', fold') = store_message-folder had top x w in (acct ∙ acct', fold ∙ fold')

pub rows-store_batch :
    (a f : Text) (u : ℕ) (had : Bool) (top : ℕ) (xs : List Fetched) (w : Work)
    → has_row a f u (store_batch had top xs w).cache.messages
      ≡ (has_row a f u w.cache.messages || (mine a f w && mem u (uids xs)))
unfolding store_batch mem
rows-store_batch a f u had top [] w = ground arith
rows-store_batch a f u had top (x ∷ xs) w =
    let (acct, fold) = store_message-folder had top x w in
    ground (
      arith,
      rows-store_batch a f u had top xs (store_message had top x w),
      rows-store_message a f u had top x w,
      ap (text_eq a) acct,
      ap (text_eq f) fold,
    )

-- What the server has to do: a fetch that succeeds answers for exactly the UIDs that were asked.
abbrev pub IsExact : Source → Type 0
IsExact src =
    (folder : Text) (validity : ℕ) (batch : List ℕ) (size : ℕ) (msgs : List Fetched)
    → src.fetch folder validity batch size ≡ some msgs
    → (u : ℕ) → mem u (uids msgs) ≡ mem u batch
