-- ===== src/Rules/Filter.antt =====
-- internal/service/newsender.go: the messages that the gate holds, and what it writes of them.
use imap_mcp.Prelude.{
  ℕ, Bool, true, false, not, ◌&&◌, ◌||◌, List, [], ◌∷◌, Option, none, some, Text, text_eq, contains,
  is_nil, ◌==◌, if◌then◌else◌,
}
use imap_mcp.Mail.{Tried, done, failed}
use imap_mcp.Rules.Signals.{bare_addr, domain_of, unbracket}
use imap_mcp.Rules.Gate.{
  Held, Sender, Move, Tables, Envelope, Fetched, HeldInfo, Setup, msg_hash, is_new,
}
use imap_mcp.Rules.Scores.{judge}

abbrev pub sender_of : Envelope → Text
sender_of env = elim env.from [ [] ↦ [] | sender ∷ others ↦ bare_addr sender.1 ]

abbrev pub is_held : Text → ℕ → Held → Bool
is_held account h r = text_eq r.account account && r.hash == h

unfoldable pub any_held : Text → ℕ → List Held → Bool
unfolding text_eq
any_held account h [] = false
any_held account h (r ∷ rows) = (is_held account h r && not r.released) || any_held account h rows

unfoldable pub release_rows : Text → ℕ → List Held → List Held
unfolding text_eq
release_rows account h [] = []
release_rows account h (r ∷ rows) =
    (if is_held account h r then record r { released = true } else r) ∷ release_rows account h rows

-- INSERT INTO senders … ON CONFLICT(address) DO UPDATE SET trusted = 1
unfoldable pub trust : Text → ℕ → List Sender → List Sender
unfolding text_eq domain_of
trust addr now [] =
    record {
      address = addr;
      domain = domain_of addr;
      sent = 0;
      replied = 0;
      trusted = 1;
      first_seen = some now;
    }
    ∷ []
trust addr now (r ∷ rows) =
    let rest = trust addr now rows in
    if text_eq r.address addr then record r { trusted = 1 } ∷ rows else r ∷ rest

-- The writes of released
unfoldable pub release : Setup → ℕ → ℕ → Text → Tables → Tables
unfolding release_rows trust
release g now h from t = record t {
  held = release_rows g.account h t.held;
  senders = if is_nil from then t.senders else trust from now t.senders;
}

-- released
unfoldable pub released : Setup → ℕ → ℕ → Text → Bool → Tables → Bool × Tables
unfolding any_held release
released g now h from dry_run t =
    let n = any_held g.account h t.held in
    if not n || dry_run then (n, t) else (true, release g now h from t)

-- One message of the first pass: `by` are the senders that are released.
unfoldable pub release_one :
    Setup → ℕ → Bool → Option Envelope → List Text → Tables → List Text × Tables
unfolding released msg_hash bare_addr
release_one g now dry_run none by t = (by, t)
release_one g now dry_run (some env) by t =
    let h = msg_hash g env.message_id in
    let (back, t') = released g now h (sender_of env) dry_run t in
    (if not (h == 0) && back then sender_of env ∷ by else by, if h == 0 then t else t')

-- The first pass
unfoldable pub release_all :
    Setup → ℕ → Bool → List Fetched → List Text → Tables → List Text × Tables
unfolding release_one
release_all g now dry_run [] by t = (by, t)
release_all g now dry_run (m ∷ msgs) by t =
    let (by', t') = release_one g now dry_run m.envelope by t in
    release_all g now dry_run msgs by' t'

abbrev pub info_of : Setup → ℕ → Envelope → List Text → HeldInfo
info_of g uid env reasons = record {
  uid = uid;
  ref = unbracket env.message_id;
  sender = sender_of env;
  subject = env.subject;
  reasons = reasons;
  hash = msg_hash g env.message_id;
}

-- The second pass, up to the first error
unfoldable pub keep : Setup → ℕ → List Text → Tables → List Fetched → Tried (List HeldInfo)
unfolding contains is_new judge bare_addr
keep g cutoff by t [] = done []
keep g cutoff by t (m ∷ msgs) =
    let rest = keep g cutoff by t msgs in
    elim m.envelope [
      | none ↦ rest
      | some env ↦
          if contains by (sender_of env) || not (is_new g t cutoff (sender_of env))
          then rest
          else elim (judge g t env m.fields (sender_of env)) [
            | failed e ↦ failed e
            | done none ↦ rest
            | done (some reasons) ↦ elim rest [
              | failed e ↦ failed e
              | done others ↦ done (info_of g m.uid env reasons ∷ others)
            ]
          ]
    ]

-- INSERT INTO held_messages … ON CONFLICT(account, msg_hash) DO UPDATE SET … released_at = NULL
unfoldable pub hold : Text → ℕ → List Held → List Held
unfolding text_eq
hold account h [] = record { account = account; hash = h; released = false } ∷ []
hold account h (r ∷ rows) =
    let rest = hold account h rows in
    if is_held account h r then record r { released = false } ∷ rows else r ∷ rest

unfoldable pub uids_of : List HeldInfo → List ℕ
uids_of [] = []
uids_of (i ∷ info) = i.uid ∷ uids_of info

-- record
unfoldable pub record_held : Setup → List HeldInfo → Tables → Tables
unfolding hold
record_held g [] t = t
record_held g (i ∷ info) t =
    record_held g info (if i.hash == 0 then t else record t { held = hold g.account i.hash t.held })

unfoldable pub moved_row : Move → List Move → List Move
unfolding text_eq
moved_row m [] = m ∷ []
moved_row m (r ∷ rows) =
    let rest = moved_row m rows in
    if text_eq r.account m.account && r.hash == m.hash then m ∷ rows else r ∷ rest

-- recordRuleMoves, with the destination of the first action
unfoldable pub record_moves : Setup → ℕ → Text → List Text → Tables → Tables
unfolding msg_hash moved_row
record_moves g rule_id dest [] t = t
record_moves g rule_id dest (id ∷ ids) t =
    let h = msg_hash g id in
    record_moves g rule_id dest ids (
      if h == 0 then t else record t {
        moves =
            moved_row (record { account = g.account; hash = h; rule_id = rule_id; dest = dest })
              t.moves;
      })
