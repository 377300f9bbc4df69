-- ===== src/Inbound/Watcher.antt =====
-- internal/inbound/watcher.go: the polls of the watch folders. The servers behind the pool of connections
-- are a state `S`, which each call changes; every call names the account whose connection it uses.
pub mod Mailboxes
pub mod Intact
pub mod Untouched
pub mod Once
pub mod Repeats
mod Tests
use imap_mcp.Prelude.{
  ℕ, zero, suc, Bool, true, false, List, [], ◌∷◌, ◌++◌, Option, none, some, Text, bytes, is_nil,
  length, if◌then◌else◌,
}
use imap_mcp.Trust.{Account, Outcome, Store}
use imap_mcp.Mail.{Tried, done, failed}
use imap_mcp.Inbound.{Event, build_message, has_envelope, process}

-- A body section by its specifier; `other_part` has another one, or no Section.
pub data Part : Type 0 where
  header_part text_part : Text → Part
  other_part : Part

-- What a fetch gives; no envelope has no From.
pub record Fetched : Type 0 where
  pub from : List Text
  pub parts : List Part

-- An account with its Inbound.WatchFolder
pub record Watched : Type 0 where
  pub account : Account
  pub watch_folder : Text

pub record Server (S : Type 0) : Type 0 where
  pub resolve : Text → S → Tried Bool × S
  pub select : Text → Text → S → Tried ℕ × S
  pub search_unseen : Text → S → Tried (List ℕ) × S
  pub fetch : Text → ℕ → S → Tried (List Fetched) × S
  pub store_seen : Text → ℕ → S → Tried Bool × S

-- A message that was processed, as the log names it
pub record Handled : Type 0 where
  pub account : Text
  pub folder : Text
  pub uid : ℕ
  pub outcome : Outcome

pub record Watch (S N : Type 0) : Type 0 where
  pub server : S
  pub nonces : N
  pub events : List Event
  pub handled : List Handled

abbrev pub sender_of : List Text → Text
sender_of [] = []
sender_of (addr ∷ from) = addr

-- rawHeaders and body: the last section of each kind
unfoldable pub raw_headers_of : Text → List Part → Text
raw_headers_of raw [] = raw
raw_headers_of raw (header_part s ∷ parts) = raw_headers_of s parts
raw_headers_of raw (text_part s ∷ parts) = raw_headers_of raw parts
raw_headers_of raw (other_part ∷ parts) = raw_headers_of raw parts

unfoldable pub body_of : Text → List Part → Text
body_of body [] = body
body_of body (header_part s ∷ parts) = body_of body parts
body_of body (text_part s ∷ parts) = body_of s parts
body_of body (other_part ∷ parts) = body_of body parts

abbrev pub folder_of : Watched → Text
folder_of acct = if is_nil acct.watch_folder then bytes "INBOX" else acct.watch_folder

abbrev pub is_enabled : Watched → Bool
is_enabled acct = elim acct.account.inbound [ none ↦ false | some inb ↦ inb.enabled ]

-- (*Watcher).Accounts
unfoldable pub accounts : List Watched → List Text
accounts [] = []
accounts (acct ∷ cfg) =
    let names = accounts cfg in if is_enabled acct then acct.account.name ∷ names else names

module _ (hmac_sha256 : Text → Text → Text) (parse_time : Text → Option ℕ) (format_time : ℕ → Text)
    {N : Type 0} (store : Option (Store N)) {S : Type 0} (c : Server S) (clock : ℕ → ℕ) where
  -- Process, and the mark, whose error is ignored
  unfoldable pub handle : Watched → ℕ → Fetched → Watch S N → Watch S N
  unfolding raw_headers_of body_of
  handle acct uid m w =
      let body = body_of [] m.parts in
      let msg = build_message (sender_of m.from) (raw_headers_of [] m.parts) body in
      let (events, o, nonces) =
        process hmac_sha256 parse_time format_time store acct.account msg (clock (length w.handled))
          w.nonces in
      let (marked, server) = c.store_seen acct.account.name uid w.server in
      if has_envelope body
      then record {
        server = server;
        nonces = nonces;
        events = w.events ++ events;
        handled =
            record { account = acct.account.name; folder = folder_of acct; uid = uid; outcome = o }
            ∷ w.handled;
      }
      else w

  unfoldable pub fetched : Watched → ℕ → Tried (List Fetched) → Watch S N → Watch S N
  unfolding handle
  fetched acct uid (failed e) w = w
  fetched acct uid (done []) w = w
  fetched acct uid (done (m ∷ msgs)) w = handle acct uid m w

  -- The loop over the UIDs
  unfoldable pub poll_uids : Watched → List ℕ → Watch S N → Watch S N
  unfolding fetched
  poll_uids acct [] w = w
  poll_uids acct (uid ∷ uids) w =
      let (msgs, server) = c.fetch acct.account.name uid w.server in
      poll_uids acct uids (fetched acct uid msgs (record w { server = server }))

  unfoldable pub found : Watched → Tried (List ℕ) → Watch S N → Option Text × Watch S N
  unfolding poll_uids
  found acct (failed e) w = (some e, w)
  found acct (done uids) w = (none, poll_uids acct uids w)

  unfoldable pub selected : Watched → Tried ℕ → Watch S N → Option Text × Watch S N
  unfolding found
  selected acct (failed e) w = (some e, w)
  selected acct (done n) w =
      let (uids, server) = c.search_unseen acct.account.name w.server in
      found acct uids (record w { server = server })

  unfoldable pub resolved : Watched → Tried Bool → Watch S N → Option Text × Watch S N
  unfolding selected
  resolved acct (failed e) w = (some e, w)
  resolved acct (done conn) w =
      let (n, server) = c.select acct.account.name (folder_of acct) w.server in
      selected acct n (record w { server = server })

  unfoldable pub poll_account : Watched → Watch S N → Option Text × Watch S N
  unfolding resolved
  poll_account acct w =
      let (conn, server) = c.resolve acct.account.name w.server in
      resolved acct conn (record w { server = server })

  -- An error is logged, and the next account is polled.
  unfoldable pub poll_all : List Watched → Watch S N → Watch S N
  unfolding poll_account
  poll_all [] w = w
  poll_all (acct ∷ cfg) w = poll_all cfg (if is_enabled acct then (poll_account acct w).1 else w)

  -- The loop of Run, where the ticker fires `ticks` times before the context is done
  unfoldable pub poll_ticks : List Watched → ℕ → Watch S N → Watch S N
  unfolding poll_all
  poll_ticks cfg zero w = poll_all cfg w
  poll_ticks cfg (suc ticks) w = poll_ticks cfg ticks (poll_all cfg w)

  unfoldable pub run : List Watched → ℕ → Watch S N → Watch S N
  unfolding accounts poll_ticks
  run cfg ticks w = if is_nil (accounts cfg) then w else poll_ticks cfg ticks w
