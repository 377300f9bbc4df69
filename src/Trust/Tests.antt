-- ===== src/Trust/Tests.antt =====
-- Runs of the gates, and their theorems at concrete messages. The HMAC is the concatenation of the
-- secret and the text, and a time is written as a text of as many marks.
use imap_mcp.Prelude.{
  ℕ, zero, suc, ◌≡◌, ◌≢◌, refl, true, false, [], ◌∷◌, ◌++◌, Option, none, some, Text, bytes,
  text_eq, arith,
}
use imap_mcp.Prelude.Bytes.{to_lower, trim_space, index, last_index, text_contains}
use imap_mcp.Trust.Envelope.{
  Command, ok, parse_command, env_begin, env_end, block_of, read_lines, command_of, split_lines,
  cut_colon, field, canonical_envelope,
}
use imap_mcp.Trust.{
  Gates, Inbound, Account, Message, Verified, Gate, triggered, allowlisted, auth_result_pass,
  allow_entry, domain_of, extract_addr, header, capability_allowed, hmac_gate, dkim_gate,
  dmarc_gate, allowlist_gate, pgp_gate, window_gate, nonce_answer, nonce_gate, stateless_gates,
  decide, evaluate_command, evaluate_inbound, evaluate, is_stale,
}
use imap_mcp.Trust.Authority.{IsAuthorized, evaluate_sound, evaluate_complete}
use imap_mcp.Trust.Nonces.{
  NonceTable, seen_or_record, insert_nonce, recorded, InTable, seen_or_record-IsNonceStore,
}
use imap_mcp.Trust.Replay.{deliver, no_replay}
use imap_mcp.Trust.Freshness.{far_future_is_fresh}
use imap_mcp.Trust.Default.{is_gated, validate_inbound, is_vouched, default_deny}
use imap_mcp.Trust.Envelope.Canonical.{same_raw_same_command}

abbrev mac : Text → Text → Text
mac secret raw = secret ++ raw

abbrev marks : ℕ → Text
marks zero = []
marks (suc n) = b'1' ∷ marks n

abbrev no_time : Text → Option ℕ
no_time s = none

-- A test that unfolds this runs Evaluate.
runs : Unit {0}
unfolding evaluate evaluate_inbound evaluate_command decide stateless_gates nonce_gate nonce_answer
    allowlist_gate dkim_gate dmarc_gate hmac_gate pgp_gate window_gate allowlisted allow_entry
    domain_of extract_addr header auth_result_pass capability_allowed parse_command block_of
    read_lines command_of split_lines cut_colon field canonical_envelope to_lower trim_space index
    last_index text_contains text_eq seen_or_record insert_nonce recorded deliver
runs = tt

abbrev body : Text
body = env_begin ++ (bytes "\nverb: ping\nargs: {}\nnonce: n1\n" ++ env_end)

abbrev gates : Gates
gates = record {
  allowlist = bytes "Example.com" ∷ [];
  require_dkim = true;
  require_dmarc = false;
  hmac_secret = [];
  replay_window_minutes = 0;
  require_pgp = false;
}

abbrev config : Inbound
config = record { enabled = true; gates = gates; capabilities = bytes "ping" ∷ [] }

abbrev account : Account
account = record { name = bytes "work"; inbound = some config }

abbrev message : Message
message = record {
  from = bytes "Ann <ann@example.com>";
  headers = (bytes "authentication-results", bytes "mx; DKIM=pass") ∷ [];
  body = body;
}

abbrev empty : NonceTable
empty = record { rows = []; clock = 100; fault = false }

abbrev command : Command
command = record {
  verb = bytes "ping";
  args = bytes "{}";
  nonce = bytes "n1";
  ts = 0;
  hmac = [];
  raw = bytes "verb:ping\nargs:{}\nnonce:n1\nts:\n";
}

abbrev verified : Verified
verified = record {
  account = bytes "work";
  from = bytes "Ann <ann@example.com>";
  command = command;
  gates = Gate.allowlist ∷ Gate.dkim ∷ Gate.replay ∷ [];
}

parses : parse_command no_time marks body ≡ ok command
unfolding runs
parses = refl

triggers :
    (evaluate mac no_time marks (some seen_or_record) (some account) message 0 empty).0.verified
    ≡ some verified
unfolding runs
triggers = refl

evaluate_sound_example :
    IsAuthorized mac
      (parse_command no_time marks)
      (some seen_or_record)
      account
      message
      0
      empty
      verified
evaluate_sound_example =
    evaluate_sound mac no_time marks (some seen_or_record) account message 0 empty verified triggers

evaluate_complete_example :
    triggered (evaluate mac no_time marks (some seen_or_record) (some account) message 0 empty).0
    ≡ true
evaluate_complete_example =
    evaluate_complete mac no_time marks (some seen_or_record) account message 0 empty verified
      evaluate_sound_example

-- the same command, over another nonce
abbrev message2 : Message
message2 = record {
  from = bytes "ann@example.com";
  headers = (bytes "authentication-results", bytes "mx; dkim=pass") ∷ [];
  body = env_begin ++ (bytes "\nverb: ping\nargs: {}\nnonce: n2\n" ++ env_end);
}

abbrev command2 : Command
command2 = record {
  verb = bytes "ping";
  args = bytes "{}";
  nonce = bytes "n2";
  ts = 0;
  hmac = [];
  raw = bytes "verb:ping\nargs:{}\nnonce:n2\nts:\n";
}

abbrev verified2 : Verified
verified2 = record {
  account = bytes "work";
  from = bytes "ann@example.com";
  command = command2;
  gates = Gate.allowlist ∷ Gate.dkim ∷ Gate.replay ∷ [];
}

triggers2 :
    (evaluate mac no_time marks (some seen_or_record) (some account) message2 0 (
      deliver mac no_time marks seen_or_record []
        (evaluate mac no_time marks
          (some seen_or_record)
          (some account)
          message
          0
          empty).1)).0.verified
    ≡ some verified2
unfolding runs
triggers2 = refl

no_replay_example : ◌≢◌ {A = Text} command2.nonce command.nonce
no_replay_example =
    no_replay mac no_time marks seen_or_record InTable seen_or_record-IsNonceStore account account
      message message2 0 0 empty verified verified2 [] refl triggers triggers2

-- the message once more, which the nonce stops
replayed :
    triggered
      (evaluate mac no_time marks
        (some seen_or_record)
        (some account)
        message
        0
        (evaluate mac no_time marks (some seen_or_record) (some account) message 0 empty).1).0
    ≡ false
unfolding runs
replayed = refl

far_future_is_fresh_example : is_stale 10 0 9_223_372_036_854_775_808 ≡ false
far_future_is_fresh_example =
    far_future_is_fresh 10 0 9_223_372_036_854_775_808 (omega arith) (omega arith)

valid : validate_inbound account ≡ true
unfolding validate_inbound is_gated
valid = refl

default_deny_example :
    (inb : Inbound) × (account.inbound ≡ some inb)
    × (is_vouched mac inb.gates message verified.command ≡ true)
default_deny_example =
    default_deny mac no_time marks (some seen_or_record) account message 0 empty verified valid
      triggers

same_raw_same_command_example :
    (command.verb ≡ command.verb)
    × (command.args ≡ command.args)
    × (command.nonce ≡ command.nonce)
    × (marks command.ts ≡ marks command.ts)
same_raw_same_command_example =
    same_raw_same_command no_time marks body body command command parses parses refl
