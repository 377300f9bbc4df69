-- ===== src/Inbound/Tests.antt =====
-- Runs of the header parser and of Process, and their theorems at concrete messages.
use imap_mcp.Prelude.{
  ◌≡◌, refl, true, false, [], ◌∷◌, ◌++◌, Option, none, some, Text, bytes, ℕ, text_eq,
}
use imap_mcp.Prelude.Bytes.{to_lower, trim_space, text_contains, index}
use imap_mcp.Trust.{
  Gates, Account, Message, Verified, Gate, Store, fresh, auth_result_pass, evaluate,
  evaluate_inbound, evaluate_command, decide, stateless_gates, nonce_gate, nonce_answer,
  allowlist_gate, dkim_gate, dmarc_gate, hmac_gate, pgp_gate, window_gate, capability_allowed,
}
use imap_mcp.Trust.Envelope.{
  env_begin, env_end, parse_command, split_lines, cut_colon, block_of, read_lines, command_of,
  field, canonical_envelope,
}
use imap_mcp.Trust.Authority.{IsAuthorized}
use imap_mcp.Inbound.{inbound_command, parse_header_block, has_envelope, process}
use imap_mcp.Inbound.Headers.{auth_results}
use imap_mcp.Inbound.Publish.{forged, forged_results_pass, process_sound}

folds :
    parse_header_block (bytes "From: Ann\r\n x\r\nTo: bob\r\n")
    ≡ (bytes "to", bytes "bob") ∷ (bytes "from", bytes "Ann x") ∷ []
unfolding parse_header_block split_lines cut_colon to_lower trim_space
folds = refl

abbrev raw : Text
raw = bytes "Authentication-Results: mx; dkim=fail; dmarc=fail"

forged_results_pass_example :
    (auth_result_pass (parse_header_block (raw ++ 10 ∷ (auth_results ++ forged))) (bytes "dkim")
      ≡ true)
    × (auth_result_pass (parse_header_block (raw ++ 10 ∷ (auth_results ++ forged))) (bytes "dmarc")
        ≡ true)
forged_results_pass_example = forged_results_pass raw

abbrev mac : Text → Text → Text
mac secret text = secret ++ text

abbrev no_time : Text → Option ℕ
no_time s = none

abbrev blank : ℕ → Text
blank n = []

-- A store that remembers nothing.
abbrev forgetful : Store ℕ
forgetful account nonce ts s = (fresh, s)

abbrev no_gates : Gates
no_gates = record {
  allowlist = [];
  require_dkim = false;
  require_dmarc = false;
  hmac_secret = [];
  replay_window_minutes = 0;
  require_pgp = false;
}

abbrev account : Account
account = record {
  name = bytes "work";
  inbound = some (record { enabled = true; gates = no_gates; capabilities = bytes "*" ∷ [] });
}

abbrev command : Message
command = record {
  from = [];
  headers = [];
  body = env_begin ++ (bytes "\nverb: ping\nnonce: n1\n" ++ env_end);
}

abbrev verified : Verified
verified = record {
  account = bytes "work";
  from = [];
  command = record {
    verb = bytes "ping";
    args = [];
    nonce = bytes "n1";
    ts = 0;
    hmac = [];
    raw = bytes "verb:ping\nargs:\nnonce:n1\nts:\n";
  };
  gates = Gate.replay ∷ [];
}

published :
    (process mac no_time blank (some forgetful) account command 0 7).0
    ≡ inbound_command (bytes "work") verified ∷ []
unfolding process evaluate evaluate_inbound evaluate_command decide stateless_gates nonce_gate
    nonce_answer allowlist_gate dkim_gate dmarc_gate hmac_gate pgp_gate window_gate
    capability_allowed parse_command block_of read_lines command_of split_lines cut_colon field
    canonical_envelope to_lower trim_space index text_eq
published = refl

process_sound_example :
    (bytes "work" ≡ account.name)
    × IsAuthorized mac (parse_command no_time blank) (some forgetful) account command 0 7 verified
process_sound_example =
    process_sound mac no_time blank (some forgetful) account command 0 7 (bytes "work") verified
      published

abbrev ordinary : Message
ordinary = record { from = []; headers = []; body = bytes "hello" }

no_envelope_there : has_envelope ordinary.body ≡ false
unfolding has_envelope text_contains index
no_envelope_there = refl
