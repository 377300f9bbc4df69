-- ===== src/Rules/Tests.antt =====
-- The rules on a server of one folder, and their theorems on it.
use imap_mcp.Prelude.{
  length, ◌+◌, ℕ, ◌≡◌, refl, inl, inr, Bool, true, false, List, [], ◌∷◌, Option, none, some, Text,
  bytes, text_eq, if◌then◌else◌, ◌==◌, ◌&&◌, contains, arith, text_eq_iff, Bool-cases, sym,
}
use imap_mcp.Prelude.Bytes.{trim_space, trim_left, trim_right}
use imap_mcp.Prelude.Int.{pos}
use imap_mcp.Mail.{Client, done, failed, any_message, among, deleted_flag}
use imap_mcp.Mail.Imap.{View, Kept, IsImap, Other}
use imap_mcp.Rules.{
  Rule, Table, create_rule, validate_rule, actions_error, action_error, update_rule, increment_run,
}
use imap_mcp.Rules.Signals.{shown_address, panic}
use imap_mcp.Rules.Gate.{Tables, Fetched, Setup, HeldInfo}
use imap_mcp.Rules.Run.{
  World, State, in_folder, criteria_of, apply_rule, matches, match_with, gated, run_active_rules,
}
use imap_mcp.Rules.Stored.{IsValid, created, updated, ran, empty, reachable-IsValid}
use imap_mcp.Rules.Dry.{IsBeside, Untouched, run_active_rules-dry}
use imap_mcp.Rules.Safety.{apply_rule-Kept}
use imap_mcp.Rules.Matching.{aged, negative_age-matches_all}

-- The message 1 is in INBOX until it is moved, and the message 2 stays there.
abbrev inbox : Text
inbox = bytes "INBOX"

-- The mailbox, which says whether message 1 is there, and the state database beside it
abbrev Site : Type 0
Site = Bool × Tables

abbrev client : Client Site
client = record {
  has_move = λ s. true;
  has_uidplus = λ s. false;
  select = λ name s. (done 2, s);
  search = λ q s. (done (if s.0 then 1 ∷ [] else []), s);
  fetch_ids = λ set s. (done [], s);
  list_boxes = λ s. (done [], s);
  store_add = λ set add s. (failed (bytes "NO"), s);
  store_del = λ set del s. (failed (bytes "NO"), s);
  move = λ set dest s. (done true, if among set 1 then (false, s.1) else s);
  copy = λ set dest s. (failed (bytes "NO"), s);
  uid_expunge = λ set s. (failed (bytes "NO"), s);
  expunge = λ s. (failed (bytes "NO"), s);
}

shown : Bool → Text → ℕ → Option (List Text)
shown s f u =
    if text_eq f inbox
    then (if u == 2 then some [] else if s && u == 1 then some [] else none)
    else none

abbrev view : View Site
view = record { msg = λ s f u. shown s.0 f u; folder = λ s. inbox; canon = λ name. inbox }

move-keeps :
    (set : List ℕ) (s : Site) (f : Text) (u : ℕ)
    → Other view set f u s
    → Kept view f u s (if among set 1 then (false, s.1) else s)
unfolding shown
move-keeps set s f u other flags h = elim (Bool-cases (u == 1)) [
  | inr differ ↦ ground arith
  | inl same ↦
      let e : u ≡ 1 = ground arith in
      elim other [
        | inl away ↦
            let there : f ≡ inbox = ground (arith, text_eq_iff f inbox) in absurd (away (sym there))
        | inr free ↦ let out : among set 1 ≡ false = rw (← e) free in rw out h
      ]
]

search-finds :
    (s : Bool) (uids : List ℕ) (u : ℕ) (flags : List Text)
    → done (if s then 1 ∷ [] else []) ≡ done uids
    → shown s inbox u ≡ some flags
    → contains flags deleted_flag ≡ true
    → among uids u ≡ true
unfolding shown contains
search-finds s uids u flags e h marked =
    let bare : flags ≡ [] = ground arith in
    let none_marked : contains flags deleted_flag ≡ false = rw bare refl in absurd (ground arith)

client-IsImap : IsImap client view
client-IsImap = record {
  select-keeps = λ name s f u flags h. h;
  select-opens = λ name s n e. refl;
  search-keeps = λ q s f u flags h. h;
  search-folder = λ q s. refl;
  search-finds = λ s uids u flags e h marked. search-finds s.0 uids u flags e h marked;
  fetch-keeps = λ set s f u flags h. h;
  fetch-folder = λ set s. refl;
  list-keeps = λ s f u flags h. h;
  list-folder = λ s. refl;
  add-keeps = λ set add s f u other flags h. h;
  add-folder = λ set add s. refl;
  del-keeps = λ set del s f u other flags h. h;
  move-keeps = λ set dest. move-keeps set;
  move-folder = λ set dest s. refl;
  copy-keeps = λ set dest s f u flags h. h;
  copy-folder = λ set dest s. refl;
  uid_expunge-keeps = λ set s f u other flags h. h;
  uid_expunge-folder = λ set s. refl;
  expunge-keeps = λ s f u flags other h. h;
  expunge-folder = λ s. refl;
}

abbrev no_tables : Tables
no_tables = record {
  held = record { account = bytes "work"; hash = 4; released = false } ∷ [];
  senders = [];
  outgoing = [];
  verdicts = [];
  halls = [];
  moves = [];
}

abbrev stranger : Fetched
stranger = record {
  uid = 1;
  envelope = some (record {
    message_id = bytes "<abc>";
    from = (bytes "Eve", bytes "eve@x.org") ∷ [];
    to = [];
    cc = [];
    reply_to = [];
    in_reply_to = [];
    subject = bytes "Re: invoice";
  });
  fields = record {
    references = [];
    reference_ids = [];
    list_unsubscribe = [];
    list_id = [];
    precedence = [];
  };
}

-- The digest of an id is its length and 1.
abbrev setup : Setup
setup = record {
  is_on = true;
  folders = 1;
  complete = 1;
  account = bytes "work";
  addresses = bytes "me@own.org" ∷ [];
  me = [];
  verdict_on = false;
  digest = λ id. length id + 1;
  find = λ re name. [];
}

abbrev world : World Site
world = record {
  client = client;
  fetch_senders = λ peek uids s. (done (stranger ∷ []), s);
  tables = λ s. s.1;
  put = λ t s. (s.0, t);
  setup = setup;
  now = 9000000;
}

world-IsBeside : IsBeside world view
world-IsBeside = record {
  put-keeps = λ t s f u flags h. h;
  put-folder = λ t s. refl;
  put-tables = λ t s. refl;
  fetch-keeps = λ uids s f u flags h. h;
  fetch-folder = λ uids s. refl;
  fetch-tables = λ uids s. refl;
  select-tables = λ name s. refl;
  search-tables = λ q s. refl;
}

abbrev rule : Rule
rule = record {
  id = 0;
  name = bytes "old";
  description = [];
  conditions = aged [] [] 0;
  actions = record { kind = bytes "move"; dest = bytes "Old"; flags = [] } ∷ [];
  active = true;
  priority = pos 0;
  run_count = 0;
}

abbrev table : Table
table = (create_rule rule (record { rules = []; next_id = 1 })).1

reachable-IsValid_example : IsValid (increment_run 1 3 (update_rule rule table).1)
reachable-IsValid_example = reachable-IsValid (ran (updated (created empty rule) rule) 1 3)

-- A rule for new senders
abbrev new_rule : Rule
new_rule = record rule { conditions = record (aged [] [] 0) { new_sender = true } }

abbrev state : State Site
state = record {
  server = (true, no_tables);
  table = record { rules = record new_rule { id = 1 } ∷ []; next_id = 2 };
  results = [];
  fired = [];
}

run_active_rules-dry_example :
    Untouched world view client-IsImap world-IsBeside state (run_active_rules world 0 true state)
run_active_rules-dry_example = run_active_rules-dry world view client-IsImap world-IsBeside 0 state

-- The message was held and is back in the folder: its sender is released, and it is left there.
released_back : (apply_rule world new_rule false (true, no_tables)).1.0 ≡ true
unfolding apply_rule in_folder
released_back = refl

-- At the first time it is held: it is moved, and remembered.
abbrev unheld : Tables
unheld = record no_tables { held = [] }

held_once :
    ((apply_rule world new_rule false (true, unheld)).1.0 ≡ false)
    × ((apply_rule world new_rule false (true, unheld)).1.1.held ≡ no_tables.held)
unfolding apply_rule
held_once = (refl, refl)

-- A name that ends in @ shows no address, and there is no first field.
nameless : shown_address (bytes "eve@") ≡ failed panic
unfolding shown_address
nameless = refl

unfound :
    (uids : List ℕ) (info : List HeldInfo)
    → (matches world rule false (client.select inbox (true, no_tables)).1).0 ≡ done (uids, info)
    → among uids 2 ≡ false
unfolding matches match_with gated among
unfound uids info e = let one : uids ≡ 1 ∷ [] = ground arith in rw one refl

apply_rule-Kept_example :
    Kept view inbox 2 (true, no_tables) (apply_rule world rule false (true, no_tables)).1
apply_rule-Kept_example =
    apply_rule-Kept world view client-IsImap inbox 2 world-IsBeside rule (true, no_tables)
      (inr unfound)

negative_age-matches_all_example :
    (validate_rule rule ≡ none) × (criteria_of 9 rule.conditions ≡ any_message)
unfolding trim_space trim_left trim_right actions_error action_error text_eq
negative_age-matches_all_example = negative_age-matches_all rule [] [] 0 9 refl refl refl refl
