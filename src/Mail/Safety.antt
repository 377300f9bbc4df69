-- ===== src/Mail/Safety.antt =====
-- What DeleteUIDs and MoveUIDs leave alone.
use imap_mcp.Prelude.{
  ℕ, ◌≡◌, ◌≢◌, ◌⊎◌, ◌∙◌, true, false, List, [], ◌∷◌, some, Text, contains, text_eq, text_eq_iff,
  ◌==◌, arith, Bool-cases, inl, inr,
}
use imap_mcp.Mail.Imap.{View, Kept, Other, IsImap, with_deleted, Tried-cases}
use imap_mcp.Mail.{
  Client, done, failed, among, all_among, deleted_flag, expunge_only, delete_uids, move_uids,
}

all_among-among :
    (set uids : List ℕ) (u : ℕ)
    → all_among set uids ≡ true
    → among uids u ≡ true
    → among set u ≡ true
unfolding all_among among
all_among-among set [] u h k = cc
all_among-among set (x ∷ uids) u h k = elim (Bool-cases (x == u)) [
  | inl same ↦ let e : x ≡ u = ground arith in rw (← e) (ground arith)
  | inr differ ↦ ground (arith, all_among-among set uids u)
]

module _ {S : Type 0} (c : Client S) (v : View S) (laws : IsImap c v) where
  pub Other-moved :
      (set : List ℕ) (f : Text) (u : ℕ) (s t : S)
      → v.folder t ≡ v.folder s
      → Other v set f u s
      → Other v set f u t
  Other-moved set f u s t e (inl away) = inl (rw e away)
  Other-moved set f u s t e (inr free) = inr free

  elsewhere :
      (f : Text) (flags : List Text) (s t : S)
      → v.folder t ≡ v.folder s
      → (v.folder s ≢ f) ⊎ (contains flags deleted_flag ≡ false)
      → (v.folder t ≢ f) ⊎ (contains flags deleted_flag ≡ false)
  elsewhere f flags s t e (inl away) = inl (rw e away)
  elsewhere f flags s t e (inr plain) = inr plain

  -- A message at the selected folder outside the set is not marked, if the search found none outside it.
  unmarked :
      (set uids : List ℕ) (s : S) (f : Text) (u : ℕ) (flags : List Text)
      → (c.search with_deleted s).0 ≡ done uids
      → all_among set uids ≡ true
      → v.msg s f u ≡ some flags
      → Other v set f u s
      → (v.folder s ≢ f) ⊎ (contains flags deleted_flag ≡ false)
  unmarked set uids s f u flags p own here (inl away) = inl away
  unmarked set uids s f u flags p own here (inr free) = elim (Bool-cases (text_eq (v.folder s) f)) [
    | inr differ ↦ inl (λ e. absurd (ground (arith, e, text_eq_iff (v.folder s) f)))
    | inl same ↦ elim (Bool-cases (contains flags deleted_flag)) [
      | inr plain ↦ inr plain
      | inl marked ↦
          let e : v.folder s ≡ f = (text_eq_iff (v.folder s) f).0 same in
          let found = laws.search-finds s uids u flags p (rw e here) marked in
          absurd (ground (arith, all_among-among set uids u own found))
    ]
  ]

  expunge_only-Kept :
      (set : List ℕ) (s : S) (f : Text) (u : ℕ)
      → Other v set f u s
      → Kept v f u s (expunge_only c set s).1
  unfolding expunge_only
  expunge_only-Kept set s f u other flags here =
      let t : S = (c.search with_deleted s).1 in
      let same : v.folder t ≡ v.folder s = laws.search-folder with_deleted s in
      let still : v.msg t f u ≡ some flags = laws.search-keeps with_deleted s f u flags here in
      elim (Tried-cases (c.search with_deleted s).0) [
        | inr (e, p) ↦ rw (p, expunge_only) still
        | inl (uids, p) ↦ elim (Bool-cases (all_among set uids)) [
          | inr some_other ↦ rw (p, some_other, expunge_only) still
          | inl own ↦
              rw (p, own, expunge_only)
                (laws.expunge-keeps t f u flags
                  (elsewhere f flags s t same (unmarked set uids s f u flags p own here other))
                  still)
        ]
      ]

  -- DeleteUIDs changes no message but those it is given, on every branch, with or without UIDPLUS, and
  -- whether or not it succeeds: no other message is removed, not even one that is marked as deleted.
  pub delete_uids-Kept :
      (set : List ℕ) (s : S) (f : Text) (u : ℕ)
      → Other v set f u s
      → Kept v f u s (delete_uids c set s).1
  unfolding delete_uids
  delete_uids-Kept set s f u other flags here =
      let t : S = (c.store_add set (deleted_flag ∷ []) s).1 in
      let same : v.folder t ≡ v.folder s = laws.add-folder set (deleted_flag ∷ []) s in
      let still : v.msg t f u ≡ some flags =
        laws.add-keeps set (deleted_flag ∷ []) s f u other flags here in
      let other' = Other-moved set f u s t same other in
      elim (Tried-cases (c.store_add set (deleted_flag ∷ []) s).0) [
        | inr (e, p) ↦ rw (p, delete_uids) still
        | inl (ok, p) ↦ elim (Bool-cases (c.has_uidplus t)) [
          | inl plus ↦
              rw (p, plus, delete_uids) (laws.uid_expunge-keeps set t f u other' flags still)
          | inr plain ↦ rw (p, plain, delete_uids) (expunge_only-Kept set t f u other' flags still)
        ]
      ]

  -- MoveUIDs changes no message but those it is given either, whether it moves or copies and deletes.
  pub move_uids-Kept :
      (set : List ℕ) (dest : Text) (s : S) (f : Text) (u : ℕ)
      → Other v set f u s
      → Kept v f u s (move_uids c set dest s).1
  unfolding move_uids
  move_uids-Kept set dest s f u other flags here = elim (Bool-cases (c.has_move s)) [
    | inl native ↦ rw native (laws.move-keeps set dest s f u other flags here)
    | inr plain ↦
        let t : S = (c.copy set dest s).1 in
        let still : v.msg t f u ≡ some flags = laws.copy-keeps set dest s f u flags here in
        let other' = Other-moved set f u s t (laws.copy-folder set dest s) other in
        elim (Tried-cases (c.copy set dest s).0) [
          | inr (e, p) ↦ rw (plain, p, move_uids) still
          | inl (ok, p) ↦ rw (plain, p, move_uids) (delete_uids-Kept set t f u other' flags still)
        ]
  ]

  expunge_only-folder : (set : List ℕ) (s : S) → v.folder (expunge_only c set s).1 ≡ v.folder s
  unfolding expunge_only
  expunge_only-folder set s =
      let same = laws.search-folder with_deleted s in
      elim (Tried-cases (c.search with_deleted s).0) [
        | inr (e, p) ↦ rw (p, expunge_only) same
        | inl (uids, p) ↦ elim (Bool-cases (all_among set uids)) [
          | inr some_other ↦ rw (p, some_other, expunge_only) same
          | inl own ↦ rw (p, own, expunge_only) (laws.expunge-folder _ ∙ same)
        ]
      ]

  delete_uids-folder : (set : List ℕ) (s : S) → v.folder (delete_uids c set s).1 ≡ v.folder s
  unfolding delete_uids
  delete_uids-folder set s =
      let same = laws.add-folder set (deleted_flag ∷ []) s in
      elim (Tried-cases (c.store_add set (deleted_flag ∷ []) s).0) [
        | inr (e, p) ↦ rw (p, delete_uids) same
        | inl (ok, p) ↦
            elim (Bool-cases (c.has_uidplus (c.store_add set (deleted_flag ∷ []) s).1)) [
              | inl plus ↦ rw (p, plus, delete_uids) (laws.uid_expunge-folder set _ ∙ same)
              | inr plain ↦ rw (p, plain, delete_uids) (expunge_only-folder set _ ∙ same)
            ]
      ]

  pub move_uids-folder :
      (set : List ℕ) (dest : Text) (s : S) → v.folder (move_uids c set dest s).1 ≡ v.folder s
  unfolding move_uids
  move_uids-folder set dest s =
      let same = laws.copy-folder set dest s in
      elim (Bool-cases (c.has_move s)) [
        | inl native ↦ rw native (laws.move-folder set dest s)
        | inr plain ↦ elim (Tried-cases (c.copy set dest s).0) [
          | inr (e, p) ↦ rw (plain, p, move_uids) same
          | inl (ok, p) ↦ rw (plain, p, move_uids) (delete_uids-folder set _ ∙ same)
        ]
      ]

  -- Without MOVE, MoveUIDs removes nothing, and changes no message at all, when the copy fails.
  pub move_uids-uncopied :
      (set : List ℕ) (dest e : Text) (s : S) (f : Text) (u : ℕ)
      → c.has_move s ≡ false
      → (c.copy set dest s).0 ≡ failed e
      → Kept v f u s (move_uids c set dest s).1
  unfolding move_uids
  move_uids-uncopied set dest e s f u plain p flags here =
      rw (plain, p, move_uids) (laws.copy-keeps set dest s f u flags here)
