-- ===== src/Inbound/Watcher/Mailboxes.antt =====
-- What the servers show, and what IMAP documents of the calls of the watcher.
use imap_mcp.Prelude.{
  ℕ, suc, ◌≡◌, Bool, true, false, ◌&&◌, List, [], ◌∷◌, Option, some, Text, text_eq, text_eq_iff,
  ◌==◌, if◌then◌else◌, arith,
}
use imap_mcp.Mail.{done, among}
use imap_mcp.Inbound.{has_envelope}
use imap_mcp.Inbound.Watcher.{Server, Fetched, Handled, body_of}

-- What a state shows: the message at a UID of a folder of an account, whether it is marked \Seen, and
-- the folder that is selected on the account's connection. `canon` is the server's name of a folder.
pub record View (S : Type 0) : Type 0 where
  pub msg : S → Text → Text → ℕ → Option Fetched
  pub seen : S → Text → Text → ℕ → Bool
  pub opened : S → Text → Text
  pub canon : Text → Text → Text

abbrev pub holds_command : Fetched → Bool
holds_command m = has_envelope (body_of [] m.parts)

module _ {S : Type 0} (v : View S) where
  -- A message at the place stays there, with the same mark. New mail may come meanwhile.
  abbrev pub Kept : Text → Text → ℕ → S → S → Type 0
  Kept a f u s t =
      (m : Fetched)
      → v.msg s a f u ≡ some m
      → (v.msg t a f u ≡ some m) × (v.seen t a f u ≡ v.seen s a f u)

-- RFC 3501, where no other client changes the mailboxes: the calls keep what is there, BODY.PEEK
-- included, and a STORE changes no message but the one that it names, whether it succeeds or not; a
-- SELECT that succeeds opens the folder; a FETCH gives the message at the UID; a SEARCH for unseen
-- messages lists none that is marked.
pub record IsPolled {S : Type 0} (c : Server S) (v : View S) : Type 0 where
  pub resolve-keeps : (b : Text) (s : S) (a f : Text) (u : ℕ) → Kept v a f u s (c.resolve b s).1
  pub select-keeps : (b g : Text) (s : S) (a f : Text) (u : ℕ) → Kept v a f u s (c.select b g s).1
  pub select-opens :
      (b g : Text) (s : S) (n : ℕ)
      → (c.select b g s).0 ≡ done n
      → v.opened (c.select b g s).1 b ≡ v.canon b g
  pub search-keeps :
      (b : Text) (s : S) (a f : Text) (u : ℕ) → Kept v a f u s (c.search_unseen b s).1
  pub search-opened : (b : Text) (s : S) → v.opened (c.search_unseen b s).1 b ≡ v.opened s b
  pub search-unseen :
      (b : Text) (s : S) (uids : List ℕ) (u : ℕ)
      → (c.search_unseen b s).0 ≡ done uids
      → v.seen s b (v.opened s b) u ≡ true
      → among uids u ≡ false
  pub fetch-keeps :
      (b : Text) (w : ℕ) (s : S) (a f : Text) (u : ℕ) → Kept v a f u s (c.fetch b w s).1
  pub fetch-opened : (b : Text) (w : ℕ) (s : S) → v.opened (c.fetch b w s).1 b ≡ v.opened s b
  pub fetch-reads :
      (b : Text) (w : ℕ) (s : S) (m m' : Fetched) (rest : List Fetched)
      → (c.fetch b w s).0 ≡ done (m' ∷ rest)
      → v.msg s b (v.opened s b) w ≡ some m
      → m' ≡ m
  pub store-keeps :
      (b : Text) (w : ℕ) (s : S) (a f : Text) (u : ℕ)
      → ¬ ((b ≡ a) × (v.opened s b ≡ f) × (w ≡ u))
      → Kept v a f u s (c.store_seen b w s).1
  pub store-opened : (b : Text) (w : ℕ) (s : S) → v.opened (c.store_seen b w s).1 b ≡ v.opened s b

module _ {S : Type 0} (v : View S) (a f : Text) (u : ℕ) where
  abbrev pub is_at : Text → Text → ℕ → Bool
  is_at account folder uid = text_eq account a && (text_eq (v.canon account folder) f && uid == u)

  -- How often the message at the place was processed
  abbrev pub times : List Handled → ℕ
  times [] = 0
  times (h ∷ hs) = if is_at h.account h.folder h.uid then suc (times hs) else times hs

  pub is_at-place :
      (account folder : Text) (uid : ℕ)
      → is_at account folder uid ≡ true
      → (account ≡ a) × (v.canon account folder ≡ f) × (uid ≡ u)
  is_at-place account folder uid there =
      let same_account = text_eq_iff account a in
      let same_folder = text_eq_iff (v.canon account folder) f in ground arith
