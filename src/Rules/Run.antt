-- ===== src/Rules/Run.antt =====
-- internal/service/rules.go, from TestRule on: the runs of the rules, over the client of a mailbox and the
-- state database beside it. The account is resolved before, to one client; the preview of a hold and what
-- follows a full run (learning, digests) are left out.
use imap_mcp.Prelude.{
  ℕ, ◌*◌, ◌-◌, Bool, true, false, not, ◌&&◌, ◌||◌, List, [], ◌∷◌, ◌++◌, Option, none, some, Text,
  bytes, text_eq, is_nil, length, ltb, ◌==◌, if◌then◌else◌,
}
use imap_mcp.Rules.Signals.{has_suffix}
use imap_mcp.Rules.Gate.{Tables, Setup, Fetched, HeldInfo, cutoff_of}
use imap_mcp.Rules.Filter.{release_all, keep, uids_of, record_held, record_moves}
use imap_mcp.Prelude.Int.{ℤ, pos, negsuc}
use imap_mcp.Mail.{Client, Tried, done, failed, Criteria, Mailbox, move_uids, parse_flags}
use imap_mcp.Rules.{
  Conditions, Action, Rule, Table, list_rules, increment_run, get_rule, is_positive,
}

-- The client of the mailbox; the FETCH of filter, with its Peek; the state database, kept beside it; what the
-- gate is made of; and the time.
pub record World (S : Type 0) : Type 0 where
  pub client : Client S
  pub fetch_senders : Bool → List ℕ → S → Tried (List Fetched) × S
  pub tables : S → Tables
  pub put : Tables → S → S
  pub setup : Setup
  pub now : ℕ

abbrev pub day : ℕ
day = 86400

abbrev pub magnitude : ℤ → ℕ
magnitude (pos n) = n
magnitude (negsuc n) = 0

-- The criteria of a rule, but for the cutoff of its gate
unfoldable pub criteria_of : ℕ → Conditions → Criteria
criteria_of now c = record {
  header =
      (if is_nil c.from then [] else (bytes "From", c.from) ∷ [])
      ++ (if is_nil c.subject then [] else (bytes "Subject", c.subject) ∷ []);
  body = if is_nil c.text then [] else c.text ∷ [];
  before =
      if is_positive c.older_than_days
      then some (now - magnitude c.older_than_days * day)
      else none;
  since = none;
  flag = [];
}

abbrev pub folder_of : Conditions → Text
folder_of c = if is_nil c.folder then bytes "INBOX" else c.folder

abbrev pub is_trash_name : Text → Bool
is_trash_name n =
    text_eq n (bytes "[Gmail]/Trash")
    || (text_eq n (bytes "Trash") || has_suffix n (bytes "/Trash"))

unfoldable pub has_attr : Text → List Text → Bool
has_attr a [] = false
has_attr a (b ∷ attrs) = text_eq b a || has_attr a attrs

-- The loop of ResolveTrash: the first mailbox with the attribute, else the last with a usual name
unfoldable pub trash_among : Text → List Mailbox → Text
unfolding has_attr has_suffix
trash_among found [] = found
trash_among found (b ∷ boxes) =
    let rest = trash_among (if is_trash_name b.name then b.name else found) boxes in
    if has_attr (bytes "\\Trash") b.attrs then b.name else rest

unfoldable pub named_ids : List (Option Text) → List Text
named_ids [] = []
named_ids (none ∷ ids) = named_ids ids
named_ids (some id ∷ ids) = let rest = named_ids ids in if is_nil id then rest else id ∷ rest

abbrev pub is_mover : Action → Bool
is_mover a = text_eq a.kind (bytes "trash") || text_eq a.kind (bytes "move")

unfoldable pub any_mover : List Action → Bool
any_mover [] = false
any_mover (a ∷ actions) = is_mover a || any_mover actions

abbrev pub prefixed {ℓ} : {A : Type ℓ} → Text → Tried A → Tried A
prefixed prefix r = elim r [ done a ↦ done a | failed e ↦ failed (prefix ++ e) ]

-- A count, and the error of the run if there is one
abbrev pub Counted : Type 0
Counted = ℕ × Option Text

module _ {S : Type 0} (w : World S) where
  unfoldable pub resolve_trash : S → Tried Text × S
  unfolding trash_among
  resolve_trash s =
      let (boxes, s') = w.client.list_boxes s in
      elim boxes [
        | failed e ↦ (failed e, s')
        | done found ↦
            let name = trash_among [] found in
            (if is_nil name then failed (bytes "no \\Trash mailbox found") else done name, s')
      ]

  unfoldable pub into_trash : List ℕ → Tried Text → S → Tried Bool × S
  unfolding move_uids
  into_trash uids (failed e) s = (failed (bytes "resolve trash: " ++ e), s)
  into_trash uids (done trash) s =
      let (r, s') = move_uids w.client uids trash s in (prefixed (bytes "move to trash: ") r, s')

  unfoldable pub apply_action : List ℕ → Action → S → Tried Bool × S
  unfolding resolve_trash into_trash move_uids parse_flags
  apply_action uids a s =
      let (trash, s') = resolve_trash s in
      let (moved, t) = move_uids w.client uids a.dest s in
      let (flagged, t') = w.client.store_add uids (parse_flags a.flags) s in
      let (seen, t'') = w.client.store_add uids (bytes "\\Seen" ∷ []) s in
      if text_eq a.kind (bytes "trash")
      then into_trash uids trash s'
      else if text_eq a.kind (bytes "move")
      then (prefixed (bytes "move to " ++ (a.dest ++ bytes ": ")) moved, t)
      else if text_eq a.kind (bytes "flag")
      then (prefixed (bytes "flag: ") flagged, t')
      else if text_eq a.kind (bytes "seen")
      then (prefixed (bytes "mark seen: ") seen, t'')
      else (failed (bytes "unknown action " ++ a.kind), s)

  -- In their order, up to the first error
  unfoldable pub apply_actions : List ℕ → List Action → S → Tried Bool × S
  unfolding apply_action
  apply_actions uids [] s = (done true, s)
  apply_actions uids (a ∷ actions) s =
      let (r, s') = apply_action uids a s in
      let rest = apply_actions uids actions s' in
      elim r [ failed e ↦ (failed e, s') | done ok ↦ rest ]

  -- The destination that recordRuleMoves stores
  abbrev pub dest_of : Rule → Text
  dest_of r = elim r.actions [ [] ↦ [] | a ∷ others ↦ a.dest ]

  -- recordRuleMoves and the gate's record, behind the actions
  unfoldable pub recorded : Rule → List HeldInfo → List Text → S → S
  unfolding record_moves record_held
  recorded r info moved s =
      let t = record_moves w.setup r.id (dest_of r) moved (w.tables s) in
      w.put (if r.conditions.new_sender then record_held w.setup info t else t) s

  unfoldable pub act : Rule → List ℕ → List HeldInfo → Tried (List Text) → S → Counted × S
  unfolding apply_actions recorded
  act r uids info (failed e) s = ((length uids, some (bytes "read message ids: " ++ e)), s)
  act r uids info (done moved) s =
      let (acted, s') = apply_actions uids r.actions s in
      elim acted [
        | failed e ↦ ((length uids, some e), s')
        | done ok ↦ ((length uids, none), recorded r info moved s')
      ]

  -- The messages that are moved, read before the move
  unfoldable pub moved_ids : Rule → List ℕ → S → Tried (List Text) × S
  unfolding any_mover named_ids
  moved_ids r uids s =
      let (ids, s') = w.client.fetch_ids uids s in
      if any_mover r.actions
      then (elim ids [ failed e ↦ failed e | done l ↦ done (named_ids l) ], s')
      else (done [], s)

  unfoldable pub act_on : Rule → Bool → Tried (List ℕ × List HeldInfo) → S → Counted × S
  unfolding act moved_ids
  act_on r dry_run (failed e) s = ((0, some e), s)
  act_on r dry_run (done (uids, info)) s =
      let (ids, s') = moved_ids r uids s in
      if is_nil uids || dry_run then ((length uids, none), s) else act r uids info ids s'

  -- The two passes of filter over what it has fetched
  unfoldable pub filtered : ℕ → Bool → Tried (List Fetched) → S → Tried (List ℕ × List HeldInfo) × S
  unfolding release_all keep uids_of
  filtered cutoff dry_run (failed e) s = (failed (bytes "fetch senders: " ++ e), s)
  filtered cutoff dry_run (done msgs) s =
      let (by, t) = release_all w.setup w.now dry_run msgs [] (w.tables s) in
      (
        elim (keep w.setup cutoff by t msgs) [
          | failed e ↦ failed e
          | done info ↦ done (uids_of info, info)
        ],
        w.put t s,
      )

  unfoldable pub filter : ℕ → List ℕ → Bool → S → Tried (List ℕ × List HeldInfo) × S
  unfolding filtered
  filter cutoff uids dry_run s =
      let (msgs, t) = w.fetch_senders true uids s in
      if is_nil uids then (done ([], []), s) else filtered cutoff dry_run msgs t

  -- What the search gives, behind the gate where the rule has one, with its cutoff
  unfoldable pub gated : Option ℕ → Bool → Tried (List ℕ) → S → Tried (List ℕ × List HeldInfo) × S
  unfolding filter
  gated gate dry_run (failed e) s = (failed (bytes "search: " ++ e), s)
  gated (some cutoff) dry_run (done uids) s = filter cutoff uids dry_run s
  gated none dry_run (done uids) s = (done (uids, []), s)

  unfoldable pub match_with :
      Bool → Bool → Tried ℕ → Criteria → S → Tried (List ℕ × List HeldInfo) × S
  unfolding gated
  match_with false dry_run cutoff q s =
      let (found, t) = w.client.search q s in gated none dry_run found t
  match_with true dry_run (failed e) q s = (failed e, s)
  match_with true dry_run (done cutoff) q s =
      let (found, t) = w.client.search (record q { since = some cutoff }) s in
      gated (some cutoff) dry_run found t

  -- The matches of a rule in the selected folder
  unfoldable pub matches : Rule → Bool → S → Tried (List ℕ × List HeldInfo) × S
  unfolding criteria_of match_with cutoff_of
  matches r dry_run s =
      match_with r.conditions.new_sender dry_run
        (cutoff_of w.setup w.now r.conditions.new_sender_days) (criteria_of w.now r.conditions) s

  unfoldable pub in_folder : Rule → Bool → Tried ℕ → S → Counted × S
  unfolding act_on matches
  in_folder r dry_run (failed e) s =
      ((0, some (bytes "select " ++ (folder_of r.conditions ++ (bytes ": " ++ e)))), s)
  in_folder r dry_run (done n) s = let (uids, t) = matches r dry_run s in act_on r dry_run uids t

  unfoldable pub apply_rule : Rule → Bool → S → Counted × S
  unfolding in_folder
  apply_rule r dry_run s =
      let (opened, s') = w.client.select (folder_of r.conditions) s in in_folder r dry_run opened s'

pub record RuleRunResult : Type 0 where
  pub id : ℕ
  pub name : Text
  pub matched : ℕ
  pub action : Text
  pub error : Option Text

pub record Fired : Type 0 where
  pub rule_id : ℕ
  pub action : Text
  pub matched : ℕ

pub record State (S : Type 0) : Type 0 where
  pub server : S
  pub table : Table
  pub results : List RuleRunResult
  pub fired : List Fired

abbrev pub action_of : Rule → Text
action_of r = elim r.actions [ [] ↦ [] | a ∷ others ↦ a.kind ]

-- What RunActiveRules skips
abbrev pub is_skipped : ℕ → Rule → Bool
is_skipped only_id r =
    (not r.active && only_id == 0) || (not (only_id == 0) && not (r.id == only_id))

module _ {S : Type 0} (w : World S) where
  unfoldable pub run_rule : Bool → Rule → State S → State S
  unfolding apply_rule increment_run
  run_rule dry_run r st =
      let ((n, err), s) = apply_rule w r dry_run st.server in
      let counts = not dry_run && ltb 0 n && (elim err [ none ↦ true | some e ↦ false ]) in
      record {
        server = s;
        table = if counts then increment_run r.id n st.table else st.table;
        results =
            st.results
            ++ record { id = r.id; name = r.name; matched = n; action = action_of r; error = err }
              ∷ [];
        fired =
            if counts
            then st.fired ++ record { rule_id = r.id; action = action_of r; matched = n } ∷ []
            else st.fired;
      }

  unfoldable pub run_rules : ℕ → Bool → List Rule → State S → State S
  unfolding run_rule
  run_rules only_id dry_run [] st = st
  run_rules only_id dry_run (r ∷ rules) st =
      run_rules only_id dry_run rules (if is_skipped only_id r then st else run_rule dry_run r st)

  -- RunActiveRules, but for the learning and the digests that follow a full run
  unfoldable pub run_active_rules : ℕ → Bool → State S → State S
  unfolding run_rules list_rules
  run_active_rules only_id dry_run st = run_rules only_id dry_run (list_rules st.table.rules) st

  unfoldable pub test_rule : ℕ → State S → Option RuleRunResult × S
  unfolding apply_rule get_rule
  test_rule id st = elim (get_rule id st.table) [
    | none ↦ (none, st.server)
    | some r ↦
        let ((n, err), s) = apply_rule w r true st.server in
        (
          some
              (record { id = r.id; name = r.name; matched = n; action = action_of r; error = err }),
          s,
        )
  ]
