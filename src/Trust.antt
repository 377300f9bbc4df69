-- ===== src/Trust.antt =====
-- internal/trust/trust.go: the gates of the inbound command channel, in the order of Evaluate.
-- The configuration is that of internal/config/config.go. HMAC-SHA256 of crypto/hmac is the
-- parameter `hmac_sha256`, the clock is an argument, and a map is the list of its entries.
pub mod Envelope
mod Checks
pub mod Gating
pub mod Authority
pub mod Nonces
pub mod Freshness
pub mod Default
mod Tests
pub mod Replay
use imap_mcp.Prelude.{
  ℕ, ◌+◌, ◌-◌, ◌*◌, Bool, true, false, not, ◌&&◌, ◌||◌, List, [], ◌∷◌, ◌++◌, Option, none, some,
  Text, bytes, text_eq, drop, take, is_nil, leb, ltb, ◌==◌, if◌then◌else◌,
}
use imap_mcp.Prelude.Bytes.{to_lower, trim_space, index, last_index, text_contains}
use imap_mcp.Prelude.Int.{ℤ, pos, negsuc, gtb_ℤ, wrap_int64, neg_int64, sub_time}
unfoldable pub use Checks.{
  extract_addr, allow_entry, domain_of, allowlisted, header, auth_result_pass, capability_allowed,
  hex_digit, decode_hex, is_stale,
}
use imap_mcp.Trust.Envelope.{Command, EnvelopeError, Parsed, ok, err, parse_command}

pub record Gates : Type 0 where
  pub allowlist : List Text
  pub require_dkim : Bool
  pub require_dmarc : Bool
  pub hmac_secret : Text
  pub replay_window_minutes : ℕ
  pub require_pgp : Bool

pub record Inbound : Type 0 where
  pub enabled : Bool
  pub gates : Gates
  pub capabilities : List Text

pub record Account : Type 0 where
  pub name : Text
  pub inbound : Option Inbound

pub record Message : Type 0 where
  pub from : Text
  pub headers : List (Text × Text)
  pub body : Text

pub data Gate : Type 0 where
  inbound envelope allowlist dkim dmarc hmac pgp replay capability : Gate

pub data Reason : Type 0 where
  not_enabled : Reason
  no_command : EnvelopeError → Reason
  not_in_allowlist no_dkim_pass no_dmarc_pass missing_hmac hmac_mismatch not_implemented : Reason
  outside_window missing_nonce nonce_store_error nonce_used verb_not_listed : Reason

pub record Verified : Type 0 where
  pub account : Text
  pub from : Text
  pub command : Command
  pub gates : List Gate

-- Result; a failed gate is kept with its reason, the newest first
pub record Outcome : Type 0 where
  pub verified : Option Verified
  pub passed : List Gate
  pub failed : List (Gate × Reason)

abbrev pub triggered : Outcome → Bool
triggered o = elim o.verified [ none ↦ false | some v ↦ true ]

abbrev pub fail : Gate → Reason → Outcome → Outcome
fail g why o = record o { failed = (g, why) ∷ o.failed }

abbrev pub pass : Gate → Outcome → Outcome
pass g o = record o { passed = o.passed ++ g ∷ [] }

abbrev pub start : Outcome
start = record { verified = none; passed = []; failed = [] }

-- The answer of a nonce store: already recorded, recorded now, or an error.
pub data Seen : Type 0 where
  fresh used broken : Seen

-- `if`s of Evaluate, one function for each gate
unfoldable pub allowlist_gate : Gates → Message → Outcome → Outcome
allowlist_gate g msg o =
    if is_nil g.allowlist
    then o
    else if allowlisted msg.from g.allowlist
    then pass allowlist o
    else fail allowlist not_in_allowlist o

unfoldable pub dkim_gate : Gates → Message → Outcome → Outcome
dkim_gate g msg o =
    if g.require_dkim
    then if auth_result_pass msg.headers (bytes "dkim")
      then pass dkim o
      else fail dkim no_dkim_pass o
    else o

unfoldable pub dmarc_gate : Gates → Message → Outcome → Outcome
dmarc_gate g msg o =
    if g.require_dmarc
    then if auth_result_pass msg.headers (bytes "dmarc")
      then pass dmarc o
      else fail dmarc no_dmarc_pass o
    else o

unfoldable pub pgp_gate : Gates → Outcome → Outcome
pgp_gate g o = if g.require_pgp then fail pgp not_implemented o else o

unfoldable pub window_gate : Gates → ℕ → Command → Outcome → Outcome
window_gate g now cmd o =
    if ltb 0 g.replay_window_minutes && is_stale g.replay_window_minutes now cmd.ts
    then fail replay outside_window o
    else o

-- What the store answers, on the outcome.
unfoldable pub nonce_answer : Seen → Outcome → Outcome
nonce_answer fresh o = pass replay o
nonce_answer used o = fail replay nonce_used o
nonce_answer broken o = fail replay nonce_store_error o

-- (NonceStore).SeenOrRecord over the state of the store
abbrev pub Store : Type 0 → Type 0
Store S = Text → Text → ℕ → S → Seen × S

-- default-deny and capability scoping, the end of Evaluate
unfoldable pub decide : Account → Inbound → Message → Command → Outcome → Outcome
decide acct inb msg cmd o =
    if not (is_nil o.failed)
    then o
    else if capability_allowed cmd.verb inb.capabilities
    then record o {
      verified =
          some (record { account = acct.name; from = msg.from; command = cmd; gates = o.passed });
    }
    else fail capability verb_not_listed o

module _ (hmac_sha256 : Text → Text → Text) where
  unfoldable pub verify_hmac : Text → Text → Text → Bool
  verify_hmac secret raw got = elim (decode_hex (trim_space got)) [
    | none ↦ false
    | some b ↦ text_eq (hmac_sha256 secret raw) b
  ]

  unfoldable pub hmac_gate : Gates → Command → Outcome → Outcome
  hmac_gate g cmd o =
      if is_nil g.hmac_secret
      then o
      else if is_nil cmd.hmac
      then fail hmac missing_hmac o
      else if verify_hmac g.hmac_secret cmd.raw cmd.hmac
      then pass hmac o
      else fail hmac hmac_mismatch o

  -- the gates that do not touch the nonce store
  unfoldable pub stateless_gates : Gates → Message → ℕ → Command → Outcome
  stateless_gates g msg now cmd = window_gate g now cmd (
      pgp_gate g
        (hmac_gate g cmd (dmarc_gate g msg (dkim_gate g msg (allowlist_gate g msg start)))))

  module _ {S : Type 0} where
    -- The nonce gate; `none` is a Verifier without a store.
    unfoldable pub nonce_gate : Option (Store S) → Account → Command → Outcome → S → Outcome × S
    nonce_gate nonces acct cmd o s =
        if is_nil cmd.nonce then (fail replay missing_nonce o, s) else elim nonces [
          | none ↦ (o, s)
          | some seen_or_record ↦
              let (answer, s') = seen_or_record acct.name cmd.nonce cmd.ts s in
              (nonce_answer answer o, s')
        ]

    -- Evaluate behind the checks of the configuration and of the envelope
    unfoldable pub evaluate_command :
        Option (Store S) → Account → Inbound → Message → ℕ → Command → S → Outcome × S
    evaluate_command nonces acct inb msg now cmd s =
        let (o, s') = nonce_gate nonces acct cmd (stateless_gates inb.gates msg now cmd) s in
        (decide acct inb msg cmd o, s')

    module _ (parse_time : Text → Option ℕ) (format_time : ℕ → Text) where
      unfoldable pub evaluate_inbound :
          Option (Store S) → Account → Inbound → Message → ℕ → S → Outcome × S
      evaluate_inbound nonces acct inb msg now s =
          if inb.enabled
          then elim (parse_command parse_time format_time msg.body) [
            | err e ↦ (fail envelope (no_command e) start, s)
            | ok cmd ↦ evaluate_command nonces acct inb msg now cmd s
          ]
          else (fail Gate.inbound not_enabled start, s)

      -- (*Verifier).Evaluate; `none` is the nil account
      unfoldable pub evaluate : Option (Store S) → Option Account → Message → ℕ → S → Outcome × S
      evaluate store none msg now s = (fail Gate.inbound not_enabled start, s)
      evaluate store (some acct) msg now s = elim acct.inbound [
        | none ↦ (fail Gate.inbound not_enabled start, s)
        | some inb ↦ evaluate_inbound store acct inb msg now s
      ]
