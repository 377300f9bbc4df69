-- ===== src/Mail/Imap.antt =====
-- What IMAP documents of the calls of a client.
use imap_mcp.Prelude.{
  ℕ, ◌≡◌, ◌≢◌, ◌⊎◌, refl, true, false, List, [], ◌∷◌, Option, some, Text, contains, inl, inr,
}
use imap_mcp.Mail.{Client, Tried, done, failed, Criteria, any_message, among, deleted_flag}

-- What a state shows: the flags of the message at a UID of a folder, and the selected folder. `canon` is
-- the server's name of a folder, since INBOX is written in any case.
pub record View (S : Type 0) : Type 0 where
  pub msg : S → Text → ℕ → Option (List Text)
  pub folder : S → Text
  pub canon : Text → Text

module _ {S : Type 0} (v : View S) where
  -- The message at the place, if there is one, is there with the same flags.
  abbrev pub Kept : Text → ℕ → S → S → Type 0
  Kept f u s t = (flags : List Text) → v.msg s f u ≡ some flags → v.msg t f u ≡ some flags

  -- The place is not among those that a call is given.
  abbrev pub Other : List ℕ → Text → ℕ → S → Type 0
  Other set f u s = (v.folder s ≢ f) ⊎ (among set u ≡ false)

abbrev pub with_deleted : Criteria
with_deleted = record any_message { flag = deleted_flag ∷ [] }

-- RFC 3501, 4315 and 6851, where no other client changes the mailbox meanwhile: calls that are given
-- UIDs change no message but those, whether they succeed or not; copies and readings change none; an
-- EXPUNGE removes none that is not marked; a search for the mark finds every message that has it.
pub record IsImap {S : Type 0} (c : Client S) (v : View S) : Type 0 where
  pub select-keeps : (name : Text) (s : S) (f : Text) (u : ℕ) → Kept v f u s (c.select name s).1
  pub select-opens :
      (name : Text) (s : S) (n : ℕ)
      → (c.select name s).0 ≡ done n
      → v.folder (c.select name s).1 ≡ v.canon name
  pub search-keeps : (q : Criteria) (s : S) (f : Text) (u : ℕ) → Kept v f u s (c.search q s).1
  pub search-folder : (q : Criteria) (s : S) → v.folder (c.search q s).1 ≡ v.folder s
  pub search-finds :
      (s : S) (uids : List ℕ) (u : ℕ) (flags : List Text)
      → (c.search with_deleted s).0 ≡ done uids
      → v.msg s (v.folder s) u ≡ some flags
      → contains flags deleted_flag ≡ true
      → among uids u ≡ true
  pub fetch-keeps : (set : List ℕ) (s : S) (f : Text) (u : ℕ) → Kept v f u s (c.fetch_ids set s).1
  pub fetch-folder : (set : List ℕ) (s : S) → v.folder (c.fetch_ids set s).1 ≡ v.folder s
  pub list-keeps : (s : S) (f : Text) (u : ℕ) → Kept v f u s (c.list_boxes s).1
  pub list-folder : (s : S) → v.folder (c.list_boxes s).1 ≡ v.folder s
  pub add-keeps :
      (set : List ℕ) (add : List Text) (s : S) (f : Text) (u : ℕ)
      → Other v set f u s
      → Kept v f u s (c.store_add set add s).1
  pub add-folder :
      (set : List ℕ) (add : List Text) (s : S) → v.folder (c.store_add set add s).1 ≡ v.folder s
  pub del-keeps :
      (set : List ℕ) (del : List Text) (s : S) (f : Text) (u : ℕ)
      → Other v set f u s
      → Kept v f u s (c.store_del set del s).1
  pub move-keeps :
      (set : List ℕ) (dest : Text) (s : S) (f : Text) (u : ℕ)
      → Other v set f u s
      → Kept v f u s (c.move set dest s).1
  pub move-folder :
      (set : List ℕ) (dest : Text) (s : S) → v.folder (c.move set dest s).1 ≡ v.folder s
  pub copy-keeps :
      (set : List ℕ) (dest : Text) (s : S) (f : Text) (u : ℕ) → Kept v f u s (c.copy set dest s).1
  pub copy-folder :
      (set : List ℕ) (dest : Text) (s : S) → v.folder (c.copy set dest s).1 ≡ v.folder s
  pub uid_expunge-keeps :
      (set : List ℕ) (s : S) (f : Text) (u : ℕ)
      → Other v set f u s
      → Kept v f u s (c.uid_expunge set s).1
  pub uid_expunge-folder : (set : List ℕ) (s : S) → v.folder (c.uid_expunge set s).1 ≡ v.folder s
  pub expunge-keeps :
      (s : S) (f : Text) (u : ℕ) (flags : List Text)
      → (v.folder s ≢ f) ⊎ (contains flags deleted_flag ≡ false)
      → v.msg s f u ≡ some flags
      → v.msg (c.expunge s).1 f u ≡ some flags
  pub expunge-folder : (s : S) → v.folder (c.expunge s).1 ≡ v.folder s

pub Tried-cases {ℓ} :
    {A : Type ℓ} (r : Tried A) → ((a : A) × (r ≡ done a)) ⊎ ((e : Text) × (r ≡ failed e))
Tried-cases (done a) = inl (a, refl)
Tried-cases (failed e) = inr (e, refl)
