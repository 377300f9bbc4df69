-- ===== src/Mail.antt =====
-- internal/service/mail.go: the operations on the messages of a mailbox, over the calls of go-imap's
-- client. A client works on a state `S` of the connection and of the server behind it, which it alone
-- knows; each of its calls gives its result and the state that it leaves. An account is resolved before.
pub mod Imap
pub mod Safety
pub mod Operations
pub mod Pages
mod Tests
use imap_mcp.Prelude.{
  ℕ, ◌+◌, ◌-◌, ◌^◌, min, Bool, true, false, not, ◌&&◌, ◌||◌, List, [], ◌∷◌, ◌++◌, Option, none,
  some, Text, bytes, is_nil, ◌==◌, ltb, leb, if◌then◌else◌,
}
use imap_mcp.Prelude.Bytes.{trim_space, has_prefix}
use imap_mcp.Enrichment.Gates.Window.{split_on}

pub data Tried {ℓ} (A : Type ℓ) : Type ℓ where
  done : A → Tried A
  failed : Text → Tried A

-- What the operations ask a search for: some headers, a text, and times, or the flag \Deleted.
pub record Criteria : Type 0 where
  pub header : List (Text × Text)
  pub body : List Text
  pub before : Option ℕ
  pub since : Option ℕ
  pub flag : List Text

abbrev pub any_message : Criteria
any_message = record { header = []; body = []; before = none; since = none; flag = [] }

pub record Mailbox : Type 0 where
  pub name : Text
  pub attrs : List Text

-- The calls of the client; `has_move` and `has_uidplus` are the capabilities, IMAP4rev2 included.
pub record Client (S : Type 0) : Type 0 where
  pub has_move : S → Bool
  pub has_uidplus : S → Bool
  pub select : Text → S → Tried ℕ × S
  pub search : Criteria → S → Tried (List ℕ) × S
  pub fetch_ids : List ℕ → S → Tried (List (Option Text)) × S
  pub list_boxes : S → Tried (List Mailbox) × S
  pub store_add : List ℕ → List Text → S → Tried Bool × S
  pub store_del : List ℕ → List Text → S → Tried Bool × S
  pub move : List ℕ → Text → S → Tried Bool × S
  pub copy : List ℕ → Text → S → Tried Bool × S
  pub uid_expunge : List ℕ → S → Tried Bool × S
  pub expunge : S → Tried Bool × S

unfoldable pub among : List ℕ → ℕ → Bool
among [] u = false
among (v ∷ set) u = v == u || among set u

-- !set.Contains(u) for no uid of the list
unfoldable pub all_among : List ℕ → List ℕ → Bool
unfolding among
all_among set [] = true
all_among set (u ∷ uids) = among set u && all_among set uids

abbrev pub deleted_flag : Text
deleted_flag = bytes "\\Deleted"

abbrev pub refuses : Text
refuses =
    bytes
      "server lacks UIDPLUS and other messages are already \\Deleted; refusing a folder-wide EXPUNGE (messages remain marked \\Deleted)"

-- The result with a text before its error.
abbrev pub named {ℓ} : {A : Type ℓ} → Text → Tried A → Tried A
named prefix r = elim r [ done a ↦ done a | failed e ↦ failed (prefix ++ e) ]

module _ {S : Type 0} (c : Client S) where
  -- The rest of DeleteUIDs on a server without UIDPLUS
  unfoldable pub expunge_only : List ℕ → S → Tried Bool × S
  unfolding all_among
  expunge_only set s =
      let (found, s') = c.search (record any_message { flag = deleted_flag ∷ [] }) s in
      elim found [
        | failed e ↦ (failed (bytes "check other deleted messages: " ++ e), s')
        | done uids ↦ if all_among set uids then c.expunge s' else (failed refuses, s')
      ]

  unfoldable pub delete_uids : List ℕ → S → Tried Bool × S
  unfolding expunge_only
  delete_uids set s =
      let (marked, s') = c.store_add set (deleted_flag ∷ []) s in
      elim marked [
        | failed e ↦ (failed (bytes "mark deleted: " ++ e), s')
        | done ok ↦ if c.has_uidplus s' then c.uid_expunge set s' else expunge_only set s'
      ]

  unfoldable pub move_uids : List ℕ → Text → S → Tried Bool × S
  unfolding delete_uids
  move_uids set dest s =
      let (copied, s') = c.copy set dest s in
      let (deleted, s'') = delete_uids set s' in
      if c.has_move s then c.move set dest s else elim copied [
        | failed e ↦ (failed (bytes "copy: " ++ e), s')
        | done ok ↦ (named (bytes "remove originals after copy: ") deleted, s'')
      ]

abbrev pub backslashed : Text → Text
backslashed f = if has_prefix f (b'\\' ∷ []) then f else b'\\' ∷ f

unfoldable pub flags_of : List Text → List Text
unfolding trim_space has_prefix
flags_of [] = []
flags_of (part ∷ parts) =
    let rest = flags_of parts in
    let f = trim_space part in if is_nil f then rest else backslashed f ∷ rest

-- ParseFlags
unfoldable pub parse_flags : Text → List Text
unfolding flags_of split_on
parse_flags s = flags_of (split_on b',' s)

abbrev pub trash_folders : List Text
trash_folders = bytes "Trash" ∷ bytes "[Gmail]/Trash" ∷ []

pub data Outcome {ℓ} (A : Type ℓ) : Type ℓ where
  fine : A → Outcome A
  invalid not_found upstream : Text → Outcome A

-- The result of a call, with the kind of its error.
abbrev pub as_upstream {ℓ} : {A : Type ℓ} → Text → Tried A → Outcome A
as_upstream what r = elim r [ done a ↦ fine a | failed e ↦ upstream (what ++ e) ]

pub record DeleteResult : Type 0 where
  pub permanent : Bool
  pub trash : Text
  pub marked : Bool

module _ {S : Type 0} (c : Client S) where
  -- The calls behind the selection of a folder.
  abbrev pub selected {ℓ} : {A : Type ℓ} → Text → (S → Outcome A × S) → S → Outcome A × S
  selected folder next s =
      let (opened, s') = c.select folder s in
      elim opened [ failed e ↦ (not_found e, s') | done total ↦ next s' ]

  unfoldable pub move_selected : ℕ → Text → S → Outcome Bool × S
  unfolding move_uids
  move_selected uid dest t =
      let (r, t') = move_uids c (uid ∷ []) dest t in (as_upstream (bytes "move failed") r, t')

  unfoldable pub move_message : Text → ℕ → Text → S → Outcome Bool × S
  unfolding move_selected
  move_message folder uid dest s =
      if is_nil folder || uid == 0 || is_nil dest
      then (invalid (bytes "folder, uid, and destination are required"), s)
      else selected folder (move_selected uid dest) s

  unfoldable pub copy_selected : ℕ → Text → S → Outcome Bool × S
  copy_selected uid dest t =
      let (r, t') = c.copy (uid ∷ []) dest t in (as_upstream (bytes "copy") r, t')

  unfoldable pub copy_message : Text → ℕ → Text → S → Outcome Bool × S
  unfolding copy_selected
  copy_message folder uid dest s =
      if is_nil folder || uid == 0 || is_nil dest
      then (invalid (bytes "folder, uid, and destination are required"), s)
      else selected folder (copy_selected uid dest) s

  -- The folders that a message is moved to, the first that takes it, and the mark otherwise.
  unfoldable pub to_trash : List Text → ℕ → S → Outcome DeleteResult × S
  unfolding move_uids
  to_trash [] uid s =
      let (marked, s') = c.store_add (uid ∷ []) (deleted_flag ∷ []) s in
      elim marked [
        | failed e ↦ (upstream (bytes "mark deleted" ++ e), s')
        | done ok ↦ (fine (record { permanent = false; trash = []; marked = true }), s')
      ]
  to_trash (trash ∷ others) uid s =
      let (moved, s') = move_uids c (uid ∷ []) trash s in
      let rest = to_trash others uid s' in
      elim moved [
        | done ok ↦ (fine (record { permanent = false; trash = trash; marked = false }), s')
        | failed e ↦ rest
      ]

  unfoldable pub delete_selected : ℕ → Bool → S → Outcome DeleteResult × S
  unfolding delete_uids to_trash
  delete_selected uid permanent t =
      let (r, t') = delete_uids c (uid ∷ []) t in
      let outcome : Outcome DeleteResult = elim r [
        | failed e ↦ upstream (bytes "permanent delete" ++ e)
        | done ok ↦ fine (record { permanent = true; trash = []; marked = false })
      ] in
      if permanent then (outcome, t') else to_trash trash_folders uid t

  unfoldable pub delete_message : Text → ℕ → Bool → S → Outcome DeleteResult × S
  unfolding delete_selected
  delete_message folder uid permanent s =
      if is_nil folder || uid == 0
      then (invalid (bytes "folder and uid are required"), s)
      else selected folder (delete_selected uid permanent) s

  unfoldable pub remove_flags : ℕ → Text → S → Outcome Bool × S
  unfolding parse_flags
  remove_flags uid remove t =
      let (r, t') = c.store_del (uid ∷ []) (parse_flags remove) t in
      if is_nil remove then (fine true, t) else (as_upstream (bytes "remove flags") r, t')

  unfoldable pub flag_selected : ℕ → Text → Text → S → Outcome Bool × S
  unfolding parse_flags remove_flags
  flag_selected uid add remove t =
      let (r, t') = c.store_add (uid ∷ []) (parse_flags add) t in
      if is_nil add then remove_flags uid remove t else elim r [
        | failed e ↦ (upstream (bytes "add flags" ++ e), t')
        | done ok ↦ remove_flags uid remove t'
      ]

  unfoldable pub set_flags : Text → ℕ → Text → Text → S → Outcome Bool × S
  unfolding flag_selected
  set_flags folder uid add remove s =
      if is_nil folder || uid == 0
      then (invalid (bytes "folder and uid are required"), s)
      else if is_nil add && is_nil remove
      then (invalid (bytes "add or remove is required"), s)
      else selected folder (flag_selected uid add remove) s
