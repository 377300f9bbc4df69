-- ===== src/Rules/Safety.antt =====
-- What a run of a rule leaves alone.
use imap_mcp.Prelude.{
  ℕ, ◌≡◌, ◌≢◌, ◌⊎◌, refl, ◌∙◌, false, List, [], ◌∷◌, Text, bytes, text_eq, Bool-cases, inl, inr,
}
use imap_mcp.Mail.{Tried, done, failed, among, parse_flags}
use imap_mcp.Mail.Imap.{View, Kept, Other, IsImap, Tried-cases}
use imap_mcp.Mail.Safety.{Other-moved, move_uids-Kept, move_uids-folder}
use imap_mcp.Rules.{Rule, Action}
use imap_mcp.Rules.Run.{
  World, resolve_trash, into_trash, apply_action, apply_actions, act, act_on, recorded, moved_ids,
  any_mover, folder_of, matches, in_folder, apply_rule,
}
use imap_mcp.Rules.Dry.{IsBeside, matches-Read}
use imap_mcp.Rules.Gate.{HeldInfo}

module _ {S : Type 0} (w : World S) (v : View S) (laws : IsImap w.client v) (f : Text) (u : ℕ) where
  -- The message at the place is kept, and the folder is the same.
  abbrev KeptHere : S → S → Type 0
  KeptHere s t = Kept v f u s t × (v.folder t ≡ v.folder s)

  resolve_trash-KeptHere : (s : S) → KeptHere s (resolve_trash w s).1
  unfolding resolve_trash
  resolve_trash-KeptHere s = elim (Tried-cases (w.client.list_boxes s).0) [
    | inl (boxes, p) ↦ rw (p, resolve_trash) (laws.list-keeps s f u, laws.list-folder s)
    | inr (e, p) ↦ rw (p, resolve_trash) (laws.list-keeps s f u, laws.list-folder s)
  ]

  into_trash-KeptHere :
      (uids : List ℕ) (trash : Tried Text) (s : S)
      → Other v uids f u s
      → KeptHere s (into_trash w uids trash s).1
  unfolding into_trash
  into_trash-KeptHere uids (failed e) s other = (λ flags h. h, refl)
  into_trash-KeptHere uids (done trash) s other = (
    move_uids-Kept w.client v laws uids trash s f u other,
    move_uids-folder w.client v laws uids trash s,
  )

  apply_action-KeptHere :
      (uids : List ℕ) (a : Action) (s : S)
      → Other v uids f u s
      → KeptHere s (apply_action w uids a s).1
  unfolding apply_action
  apply_action-KeptHere uids a s other = elim (Bool-cases (text_eq a.kind (bytes "trash"))) [
    | inl e ↦
        let one = resolve_trash-KeptHere s in
        let t : S = (resolve_trash w s).1 in
        let two =
          into_trash-KeptHere uids (resolve_trash w s).0 t
            (Other-moved w.client v laws uids f u s t one.1 other) in
        rw e (λ flags h. two.0 flags (one.0 flags h), two.1 ∙ one.1)
    | inr e ↦ elim (Bool-cases (text_eq a.kind (bytes "move"))) [
      | inl m ↦
          rw (e, m)
            (
              move_uids-Kept w.client v laws uids a.dest s f u other,
              move_uids-folder w.client v laws uids a.dest s,
            )
      | inr m ↦ elim (Bool-cases (text_eq a.kind (bytes "flag"))) [
        | inl g ↦
            rw (e, m, g)
              (
                laws.add-keeps uids (parse_flags a.flags) s f u other,
                laws.add-folder uids (parse_flags a.flags) s,
              )
        | inr g ↦ elim (Bool-cases (text_eq a.kind (bytes "seen"))) [
          | inl d ↦
              rw (e, m, g, d)
                (
                  laws.add-keeps uids (bytes "\\Seen" ∷ []) s f u other,
                  laws.add-folder uids (bytes "\\Seen" ∷ []) s,
                )
          | inr d ↦ rw (e, m, g, d) (λ flags h. h, refl)
        ]
      ]
    ]
  ]

  apply_actions-Kept :
      (uids : List ℕ) (actions : List Action) (s : S)
      → Other v uids f u s
      → Kept v f u s (apply_actions w uids actions s).1
  unfolding apply_actions
  apply_actions-Kept uids [] s other flags h = h
  apply_actions-Kept uids (a ∷ actions) s other flags h =
      let one = apply_action-KeptHere uids a s other in
      let t : S = (apply_action w uids a s).1 in
      let rest =
        apply_actions-Kept uids actions t (Other-moved w.client v laws uids f u s t one.1 other) in
      elim (Tried-cases (apply_action w uids a s).0) [
        | inr (e, p) ↦ rw (p, apply_actions) (one.0 flags h)
        | inl (ok, p) ↦ rw (p, apply_actions) (rest flags (one.0 flags h))
      ]

  moved_ids-KeptHere : (r : Rule) (uids : List ℕ) (s : S) → KeptHere s (moved_ids w r uids s).1
  unfolding moved_ids
  moved_ids-KeptHere r uids s = elim (Bool-cases (any_mover r.actions)) [
    | inl e ↦ rw (e, moved_ids) (laws.fetch-keeps uids s f u, laws.fetch-folder uids s)
    | inr e ↦ rw (e, moved_ids) (λ flags h. h, refl)
  ]

  -- The message is in another folder, or no match of the search.
  abbrev Unmatched : Tried (List ℕ × List HeldInfo) → S → Type 0
  Unmatched found s =
      (v.folder s ≢ f)
      ⊎ ((uids : List ℕ) (info : List HeldInfo) → found ≡ done (uids, info) → among uids u ≡ false)

  Other-of :
      (uids : List ℕ) (info : List HeldInfo) (s : S)
      → Unmatched (done (uids, info)) s
      → Other v uids f u s
  Other-of uids info s (inl away) = inl away
  Other-of uids info s (inr free) = inr (free uids info refl)

  module _ (beside : IsBeside w v) where
    act-Kept :
        (r : Rule) (uids : List ℕ) (info : List HeldInfo) (moved : Tried (List Text)) (s : S)
        → Other v uids f u s
        → Kept v f u s (act w r uids info moved s).1
    unfolding act recorded
    act-Kept r uids info (failed e) s other flags h = h
    act-Kept r uids info (done moved) s other flags h =
        let kept = apply_actions-Kept uids r.actions s other flags h in
        elim (Tried-cases (apply_actions w uids r.actions s).0) [
          | inr (e, p) ↦ rw (p, act) kept
          | inl (ok, p) ↦
              rw (p, act) (beside.put-keeps _ (apply_actions w uids r.actions s).1 f u flags kept)
        ]

    act_on-Kept :
        (r : Rule) (found : Tried (List ℕ × List HeldInfo)) (s : S)
        → Unmatched found s
        → Kept v f u s (act_on w r false found s).1
    unfolding act_on
    act_on-Kept r (failed e) s un flags h = h
    act_on-Kept r (done ([], info)) s un flags h = h
    act_on-Kept r (done (x ∷ uids, info)) s un flags h =
        let one = moved_ids-KeptHere r (x ∷ uids) s in
        let t : S = (moved_ids w r (x ∷ uids) s).1 in
        act-Kept r (x ∷ uids) info (moved_ids w r (x ∷ uids) s).0 t
          (Other-moved w.client v laws (x ∷ uids) f u s t one.1 (Other-of (x ∷ uids) info s un))
          flags (one.0 flags h)

    in_folder-Kept :
        (r : Rule) (n : ℕ) (s : S)
        → Unmatched (matches w r false s).0 s
        → Kept v f u s (in_folder w r false (done n) s).1
    unfolding in_folder
    in_folder-Kept r n s un flags h =
        let read = matches-Read w v laws beside r false s in
        let t : S = (matches w r false s).1 in
        let there : Unmatched (matches w r false s).0 t = elim un [
          | inl away ↦ inl (rw read.1 away)
          | inr free ↦ inr free
        ] in
        act_on-Kept r (matches w r false s).0 t there flags (read.0 f u flags h)

    -- On a server that does what IMAP documents, a run of a rule, whatever it does to its matches and
    -- wherever it fails, with all that the gate of new senders reads and writes, changes no message of
    -- another folder, and no message of its folder that its search, behind the gate, did not find: each
    -- is still in its place, with the same flags.
    pub apply_rule-Kept :
        (r : Rule) (s : S)
        → (v.canon (folder_of r.conditions) ≢ f)
          ⊎ ((uids : List ℕ) (info : List HeldInfo)
              → (matches w r false (w.client.select (folder_of r.conditions) s).1).0
                ≡ done (uids, info)
              → among uids u ≡ false)
        → Kept v f u s (apply_rule w r false s).1
    unfolding apply_rule
    apply_rule-Kept r s un flags h =
        let t : S = (w.client.select (folder_of r.conditions) s).1 in
        let still = laws.select-keeps (folder_of r.conditions) s f u flags h in
        elim (Tried-cases (w.client.select (folder_of r.conditions) s).0) [
          | inr (e, p) ↦ rw (p, in_folder) still
          | inl (n, p) ↦
              let opened = laws.select-opens (folder_of r.conditions) s n p in
              let there : Unmatched (matches w r false t).0 t = elim un [
                | inl away ↦ inl (rw opened away)
                | inr free ↦ inr free
              ] in
              rw p (in_folder-Kept r n t there flags still)
        ]
