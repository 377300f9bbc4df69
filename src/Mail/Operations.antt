-- ===== src/Mail/Operations.antt =====
-- The operations on one message of a folder.
use imap_mcp.Prelude.{
  ℕ, ◌≡◌, ◌≢◌, ◌⊎◌, Bool, true, false, ◌&&◌, ◌||◌, List, [], ◌∷◌, some, Text, bytes, is_nil, ◌==◌,
  if◌then◌else◌, arith, Bool-cases, inl, inr,
}
use imap_mcp.Mail.{
  Client, among, deleted_flag, move_uids, move_message, copy_message, move_selected, copy_selected,
  delete_selected, flag_selected, to_trash, trash_folders, delete_message, remove_flags, set_flags,
  selected, parse_flags, Outcome, invalid,
}
use imap_mcp.Mail.Imap.{View, Kept, Other, IsImap, Tried-cases}
use imap_mcp.Mail.Safety.{Other-moved, delete_uids-Kept, move_uids-Kept, move_uids-folder}

module _ {S : Type 0} (c : Client S) (v : View S) (laws : IsImap c v) (f : Text) (u : ℕ) where
  -- The place is not the one of the UID in the folder.
  abbrev pub Outside : Text → ℕ → Type 0
  Outside name uid = (v.canon name ≢ f) ⊎ (uid ≢ u)

  -- A call on the UID in the selected folder.
  abbrev Safe {ℓ} : {A : Type ℓ} → ℕ → (S → Outcome A × S) → Type 0
  Safe uid next = (t : S) → Other v (uid ∷ []) f u t → Kept v f u t (next t).1

  Other-of :
      (name : Text) (uid : ℕ) (t : S)
      → v.folder t ≡ v.canon name
      → Outside name uid
      → Other v (uid ∷ []) f u t
  unfolding among
  Other-of name uid t e (inl away) = inl (rw e away)
  Other-of name uid t e (inr differ) = inr (ground arith)

  selected-Kept {ℓ} :
      {A : Type ℓ} (name : Text) (uid : ℕ) (next : S → Outcome A × S) (s : S)
      → Outside name uid
      → Safe uid next
      → Kept v f u s (selected c name next s).1
  selected-Kept name uid next s outside safe flags here =
      let t : S = (c.select name s).1 in
      let still : v.msg t f u ≡ some flags = laws.select-keeps name s f u flags here in
      elim (Tried-cases (c.select name s).0) [
        | inr (e, p) ↦ rw (p, selected) still
        | inl (n, p) ↦
            rw (p, selected)
              (safe t (Other-of name uid t (laws.select-opens name s n p) outside) flags still)
      ]

  move_selected-Kept : (uid : ℕ) (dest : Text) → Safe uid (move_selected c uid dest)
  unfolding move_selected
  move_selected-Kept uid dest t other = move_uids-Kept c v laws (uid ∷ []) dest t f u other

  copy_selected-Kept : (uid : ℕ) (dest : Text) → Safe uid (copy_selected c uid dest)
  unfolding copy_selected
  copy_selected-Kept uid dest t other = laws.copy-keeps (uid ∷ []) dest t f u

  to_trash-Kept : (folders : List Text) (uid : ℕ) → Safe uid (to_trash c folders uid)
  unfolding to_trash
  to_trash-Kept [] uid t other flags here =
      let still = laws.add-keeps (uid ∷ []) (deleted_flag ∷ []) t f u other flags here in
      elim (Tried-cases (c.store_add (uid ∷ []) (deleted_flag ∷ []) t).0) [
        | inr (e, p) ↦ rw (p, to_trash) still
        | inl (ok, p) ↦ rw (p, to_trash) still
      ]
  to_trash-Kept (trash ∷ others) uid t other flags here =
      let t' : S = (move_uids c (uid ∷ []) trash t).1 in
      let still = move_uids-Kept c v laws (uid ∷ []) trash t f u other flags here in
      let other' =
        Other-moved c v laws (uid ∷ []) f u t t' (move_uids-folder c v laws (uid ∷ []) trash t)
          other in
      elim (Tried-cases (move_uids c (uid ∷ []) trash t).0) [
        | inl (ok, p) ↦ rw (p, to_trash) still
        | inr (e, p) ↦ rw (p, to_trash) (to_trash-Kept others uid t' other' flags still)
      ]

  delete_selected-Kept : (uid : ℕ) (permanent : Bool) → Safe uid (delete_selected c uid permanent)
  unfolding delete_selected
  delete_selected-Kept uid true t other = delete_uids-Kept c v laws (uid ∷ []) t f u other
  delete_selected-Kept uid false t other = to_trash-Kept trash_folders uid t other

  remove_flags-Kept : (uid : ℕ) (remove : Text) → Safe uid (remove_flags c uid remove)
  unfolding remove_flags
  remove_flags-Kept uid remove t other flags here = elim (Bool-cases (is_nil remove)) [
    | inl blank ↦ rw (blank, remove_flags) here
    | inr some_flag ↦
        rw (some_flag, remove_flags)
          (laws.del-keeps (uid ∷ []) (parse_flags remove) t f u other flags here)
  ]

  flag_selected-Kept : (uid : ℕ) (add remove : Text) → Safe uid (flag_selected c uid add remove)
  unfolding flag_selected
  flag_selected-Kept uid add remove t other flags here =
      let t' : S = (c.store_add (uid ∷ []) (parse_flags add) t).1 in
      let still = laws.add-keeps (uid ∷ []) (parse_flags add) t f u other flags here in
      let other' =
        Other-moved c v laws (uid ∷ []) f u t t' (laws.add-folder (uid ∷ []) (parse_flags add) t)
          other in
      elim (Bool-cases (is_nil add)) [
        | inl blank ↦ rw (blank, flag_selected) (remove_flags-Kept uid remove t other flags here)
        | inr some_flag ↦ elim (Tried-cases (c.store_add (uid ∷ []) (parse_flags add) t).0) [
          | inr (e, p) ↦ rw (some_flag, p, flag_selected) still
          | inl (ok, p) ↦
              rw (some_flag, p, flag_selected) (remove_flags-Kept uid remove t' other' flags still)
        ]
      ]

  -- A guard in front of the selection.
  guarded-Kept {ℓ} :
      {A : Type ℓ} (bad : Bool) (refusal : Outcome A) (name : Text) (uid : ℕ)
      (next : S → Outcome A × S) (s : S)
      → Outside name uid
      → Safe uid next
      → Kept v f u s (if bad then (refusal, s) else selected c name next s).1
  guarded-Kept true refusal name uid next s outside safe flags here = here
  guarded-Kept false refusal name uid next s outside safe flags here =
      selected-Kept name uid next s outside safe flags here

  -- Moving, copying, deleting (for good or into the trash) and flagging a message changes no other one:
  -- whatever is asked, and wherever the operation fails, every message that is not the one of that UID
  -- in that folder is still in its place, with the same flags.
  pub operations-Kept :
      (name : Text) (uid : ℕ) (dest add remove : Text) (permanent : Bool) (s : S)
      → Outside name uid
      → Kept v f u s (move_message c name uid dest s).1
        × Kept v f u s (copy_message c name uid dest s).1
        × Kept v f u s (delete_message c name uid permanent s).1
        × Kept v f u s (set_flags c name uid add remove s).1
  unfolding move_message copy_message delete_message set_flags
  operations-Kept name uid dest add remove permanent s outside = (
    guarded-Kept _ _ name uid (move_selected c uid dest) s outside (move_selected-Kept uid dest),
    guarded-Kept _ _ name uid (copy_selected c uid dest) s outside (copy_selected-Kept uid dest),
    guarded-Kept _ _ name uid (delete_selected c uid permanent) s outside
        (delete_selected-Kept uid permanent),
    flagged,
  )
    where
      flagged : Kept v f u s (set_flags c name uid add remove s).1
      flagged flags here = elim (Bool-cases (is_nil name || uid == 0)) [
        | inl bad ↦ rw (bad, set_flags) here
        | inr good ↦
            rw (good, set_flags)
              (guarded-Kept (is_nil add && is_nil remove)
                (invalid (bytes "add or remove is required")) name uid
                (flag_selected c uid add remove) s outside (flag_selected-Kept uid add remove) flags
                here)
      ]
