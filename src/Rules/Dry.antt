-- ===== src/Rules/Dry.antt =====
-- What a dry run leaves alone.
use imap_mcp.Prelude.{
  ℕ, ◌≡◌, refl, ◌∙◌, Bool, true, false, List, [], ◌∷◌, Option, none, some, ◌==◌, arith, Text,
  Bool-cases, inl, inr,
}
use imap_mcp.Mail.{Tried, done, failed, Criteria}
use imap_mcp.Mail.Imap.{View, Kept, IsImap}
use imap_mcp.Rules.{Rule, list_rules}
use imap_mcp.Rules.Gate.{Tables, Setup, Fetched, Envelope, HeldInfo, cutoff_of, msg_hash}
use imap_mcp.Rules.Filter.{release_one, release_all, released, sender_of}
use imap_mcp.Rules.Run.{
  World, State, criteria_of, folder_of, matches, filtered, filter, gated, match_with, act_on,
  in_folder, apply_rule, run_rule, run_rules, run_active_rules, is_skipped,
}

-- The mailbox and the state database stand side by side: writing the tables changes no message and not the
-- selected folder, and gives the tables that were written; reading the mailbox changes no table; and the
-- FETCH of the gate, which asks for BODY.PEEK, changes no message (RFC 3501).
pub record IsBeside {S : Type 0} (w : World S) (v : View S) : Type 0 where
  pub put-keeps : (t : Tables) (s : S) (f : Text) (u : ℕ) → Kept v f u s (w.put t s)
  pub put-folder : (t : Tables) (s : S) → v.folder (w.put t s) ≡ v.folder s
  pub put-tables : (t : Tables) (s : S) → w.tables (w.put t s) ≡ t
  pub fetch-keeps :
      (uids : List ℕ) (s : S) (f : Text) (u : ℕ) → Kept v f u s (w.fetch_senders true uids s).1
  pub fetch-folder : (uids : List ℕ) (s : S) → v.folder (w.fetch_senders true uids s).1 ≡ v.folder s
  pub fetch-tables : (uids : List ℕ) (s : S) → w.tables (w.fetch_senders true uids s).1 ≡ w.tables s
  pub select-tables : (name : Text) (s : S) → w.tables (w.client.select name s).1 ≡ w.tables s
  pub search-tables : (q : Criteria) (s : S) → w.tables (w.client.search q s).1 ≡ w.tables s

released-dry :
    (g : Setup) (now h : ℕ) (from : Text) (t : Tables) → (released g now h from true t).1 ≡ t
unfolding released
released-dry g now h from t = ground arith

release_one-dry :
    (g : Setup) (now : ℕ) (env : Option Envelope) (by : List Text) (t : Tables)
    → (release_one g now true env by t).1 ≡ t
unfolding release_one
release_one-dry g now none by t = refl
release_one-dry g now (some env) by t =
    let h = msg_hash g env.message_id in
    elim (Bool-cases (h == 0)) [
      | inl blank ↦ rw blank refl
      | inr filled ↦ rw filled (released-dry g now h (sender_of env) t)
    ]

-- In a dry run the first pass of the gate writes nothing.
release_all-dry :
    (g : Setup) (now : ℕ) (msgs : List Fetched) (by : List Text) (t : Tables)
    → (release_all g now true msgs by t).1 ≡ t
unfolding release_all
release_all-dry g now [] by t = refl
release_all-dry g now (m ∷ msgs) by t =
    let (by', t') = release_one g now true m.envelope by t in
    release_all-dry g now msgs by' t' ∙ release_one-dry g now m.envelope by t

module _ {S : Type 0} (w : World S) (v : View S) (laws : IsImap w.client v)
    (beside : IsBeside w v) where
  -- What a reading may do to the state.
  abbrev pub Read : S → S → Type 0
  Read s t = ((f : Text) (u : ℕ) → Kept v f u s t) × (v.folder t ≡ v.folder s)

  pub search-Read : (q : Criteria) (s : S) → Read s (w.client.search q s).1
  search-Read q s = (laws.search-keeps q s, laws.search-folder q s)

  trans-Read : (s t r : S) → Read s t → Read t r → Read s r
  trans-Read s t r one two = (λ f u flags h. two.0 f u flags (one.0 f u flags h), two.1 ∙ one.1)

  filtered-Read :
      (cutoff : ℕ) (dry_run : Bool) (msgs : Tried (List Fetched)) (s : S)
      → Read s (filtered w cutoff dry_run msgs s).1
  unfolding filtered
  filtered-Read cutoff dry_run (failed e) s = (λ f u flags h. h, refl)
  filtered-Read cutoff dry_run (done msgs) s =
      let t : Tables = (release_all w.setup w.now dry_run msgs [] (w.tables s)).1 in
      (beside.put-keeps t s, beside.put-folder t s)

  filter-Read :
      (cutoff : ℕ) (uids : List ℕ) (dry_run : Bool) (s : S)
      → Read s (filter w cutoff uids dry_run s).1
  unfolding filter
  filter-Read cutoff [] dry_run s = (λ f u flags h. h, refl)
  filter-Read cutoff (x ∷ uids) dry_run s =
      let (msgs, t) = w.fetch_senders true (x ∷ uids) s in
      trans-Read s t _ (beside.fetch-keeps (x ∷ uids) s, beside.fetch-folder (x ∷ uids) s)
        (filtered-Read cutoff dry_run msgs t)

  gated-Read :
      (gate : Option ℕ) (dry_run : Bool) (found : Tried (List ℕ)) (s : S)
      → Read s (gated w gate dry_run found s).1
  unfolding gated
  gated-Read gate dry_run (failed e) s = (λ f u flags h. h, refl)
  gated-Read (some cutoff) dry_run (done uids) s = filter-Read cutoff uids dry_run s
  gated-Read none dry_run (done uids) s = (λ f u flags h. h, refl)

  searched-Read :
      (gate : Option ℕ) (dry_run : Bool) (q : Criteria) (s : S)
      → Read s (gated w gate dry_run (w.client.search q s).0 (w.client.search q s).1).1
  searched-Read gate dry_run q s =
      trans-Read s (w.client.search q s).1 _ (search-Read q s)
        (gated-Read gate dry_run (w.client.search q s).0 (w.client.search q s).1)

  match_with-Read :
      (fresh dry_run : Bool) (cutoff : Tried ℕ) (q : Criteria) (s : S)
      → Read s (match_with w fresh dry_run cutoff q s).1
  unfolding match_with
  match_with-Read false dry_run cutoff q s = searched-Read none dry_run q s
  match_with-Read true dry_run (failed e) q s = (λ f u flags h. h, refl)
  match_with-Read true dry_run (done cutoff) q s =
      searched-Read (some cutoff) dry_run (record q { since = some cutoff }) s

  pub matches-Read : (r : Rule) (dry_run : Bool) (s : S) → Read s (matches w r dry_run s).1
  unfolding matches
  matches-Read r dry_run s =
      match_with-Read r.conditions.new_sender dry_run
        (cutoff_of w.setup w.now r.conditions.new_sender_days) (criteria_of w.now r.conditions) s

  -- The tables behind a dry run of the gate
  filtered-tables :
      (cutoff : ℕ) (msgs : Tried (List Fetched)) (s : S)
      → w.tables (filtered w cutoff true msgs s).1 ≡ w.tables s
  unfolding filtered
  filtered-tables cutoff (failed e) s = refl
  filtered-tables cutoff (done msgs) s =
      beside.put-tables _ s ∙ release_all-dry w.setup w.now msgs [] (w.tables s)

  gated-tables :
      (gate : Option ℕ) (found : Tried (List ℕ)) (s : S)
      → w.tables (gated w gate true found s).1 ≡ w.tables s
  unfolding gated filter
  gated-tables gate (failed e) s = refl
  gated-tables none (done uids) s = refl
  gated-tables (some cutoff) (done []) s = refl
  gated-tables (some cutoff) (done (x ∷ uids)) s =
      let (msgs, t) = w.fetch_senders true (x ∷ uids) s in
      filtered-tables cutoff msgs t ∙ beside.fetch-tables (x ∷ uids) s

  match_with-tables :
      (fresh : Bool) (cutoff : Tried ℕ) (q : Criteria) (s : S)
      → w.tables (match_with w fresh true cutoff q s).1 ≡ w.tables s
  unfolding match_with
  match_with-tables false cutoff q s =
      gated-tables none (w.client.search q s).0 _ ∙ beside.search-tables q s
  match_with-tables true (failed e) q s = refl
  match_with-tables true (done cutoff) q s =
      let q' : Criteria = record q { since = some cutoff } in
      gated-tables (some cutoff) (w.client.search q' s).0 _ ∙ beside.search-tables q' s

  act_on-dry :
      (r : Rule) (found : Tried (List ℕ × List HeldInfo)) (s : S) → (act_on w r true found s).1 ≡ s
  unfolding act_on
  act_on-dry r (failed e) s = refl
  act_on-dry r (done ([], info)) s = refl
  act_on-dry r (done (u ∷ uids, info)) s = refl

  -- Every message with its flags, and the state database
  abbrev pub Same : S → S → Type 0
  Same s t = ((f : Text) (u : ℕ) → Kept v f u s t) × (w.tables t ≡ w.tables s)

  in_folder-dry : (r : Rule) (opened : Tried ℕ) (s : S) → Same s (in_folder w r true opened s).1
  unfolding in_folder matches
  in_folder-dry r (failed e) s = (λ f u flags h. h, refl)
  in_folder-dry r (done n) s = rw (act_on-dry r (matches w r true s).0 (matches w r true s).1) (
    (matches-Read r true s).0,
    match_with-tables r.conditions.new_sender (cutoff_of w.setup w.now r.conditions.new_sender_days)
        (criteria_of w.now r.conditions) s,
  )

  apply_rule-dry : (r : Rule) (s : S) → Same s (apply_rule w r true s).1
  unfolding apply_rule
  apply_rule-dry r s =
      let name = folder_of r.conditions in
      let one = in_folder-dry r (w.client.select name s).0 (w.client.select name s).1 in
      (
        λ f u flags h. one.0 f u flags (laws.select-keeps name s f u flags h),
        one.1 ∙ beside.select-tables name s,
      )

  -- What a dry run leaves: the rules, their counts, the events, every message with its flags, and the
  -- state database.
  pub record Untouched (st st' : State S) : Type 0 where
    pub table : st'.table ≡ st.table
    pub fired : st'.fired ≡ st.fired
    pub same : Same st.server st'.server

  run_rule-dry : (r : Rule) (st : State S) → Untouched st (run_rule w true r st)
  unfolding run_rule
  run_rule-dry r st = record { table = refl; fired = refl; same = apply_rule-dry r st.server }

  run_rules-dry :
      (only_id : ℕ) (rules : List Rule) (st : State S)
      → Untouched st (run_rules w only_id true rules st)
  unfolding run_rules
  run_rules-dry only_id [] st = record {
    table = refl;
    fired = refl;
    same = (λ f u flags h. h, refl);
  }
  run_rules-dry only_id (r ∷ rules) st = elim (Bool-cases (is_skipped only_id r)) [
    | inl e ↦ rw e (run_rules-dry only_id rules st)
    | inr e ↦
        let one = run_rule-dry r st in
        let rest = run_rules-dry only_id rules (run_rule w true r st) in
        rw e (record {
          table = rest.table ∙ one.table;
          fired = rest.fired ∙ one.fired;
          same = (
            λ f u flags h. rest.same.0 f u flags (one.same.0 f u flags h),
            rest.same.1 ∙ one.same.1,
          );
        })
  ]

  -- A dry run of the rules, of all active ones or of one by its id, changes no rule, no count and no
  -- message, fires no event, and writes nothing to the state database, the gate of new senders included,
  -- which releases nobody; whatever a server that does what IMAP documents answers, and whether or not
  -- it fails.
  pub run_active_rules-dry :
      (only_id : ℕ) (st : State S) → Untouched st (run_active_rules w only_id true st)
  unfolding run_active_rules
  run_active_rules-dry only_id st = run_rules-dry only_id (list_rules st.table.rules) st
