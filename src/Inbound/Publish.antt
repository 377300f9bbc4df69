-- ===== src/Inbound/Publish.antt =====
-- What Process publishes, and what a forged header does to the DKIM and DMARC gates.
use imap_mcp.Prelude.{
  ℕ, ◌≡◌, true, false, [], ◌∷◌, ◌++◌, Option, some, Text, bytes, Option-cases, Bool-cases, inl, inr,
  arith,
}
use imap_mcp.Prelude.Bytes.{text_contains, index, to_lower, trim_space}
use imap_mcp.Trust.Envelope.{err, block_of, no_envelope, env_begin, parse_command}
use imap_mcp.Trust.{
  Account, Message, Outcome, Verified, Store, auth_result_pass, evaluate, evaluate_inbound,
}
use imap_mcp.Trust.Authority.{IsAuthorized, evaluate_sound}
use imap_mcp.Inbound.{inbound_command, parse_header_block, has_envelope, publish, process}
use imap_mcp.Inbound.Headers.{auth_results, last_header_wins}

abbrev pub forged : Text
forged = bytes " mx.example; dkim=pass; dmarc=pass"

-- A sender who ends the header block with an Authentication-Results line of its own passes the DKIM
-- and the DMARC gate, whatever the receiving server wrote above it.
pub forged_results_pass :
    (raw : Text)
    → (auth_result_pass (parse_header_block (raw ++ 10 ∷ (auth_results ++ forged))) (bytes "dkim")
        ≡ true)
      × (auth_result_pass
            (parse_header_block (raw ++ 10 ∷ (auth_results ++ forged)))
            (bytes "dmarc")
          ≡ true)
unfolding auth_result_pass text_contains index to_lower trim_space
forged_results_pass raw = let e = last_header_wins raw forged (omega arith) in (rw e, rw e)

publish_sound :
    (account body : Text) (o : Outcome) (name : Text) (v : Verified)
    → publish account body o ≡ inbound_command name v ∷ []
    → (name ≡ account) × (o.verified ≡ some v)
unfolding publish
publish_sound account body o name v e = ground arith

unparsed :
    (parse_time : Text → Option ℕ) (format_time : ℕ → Text) (body : Text)
    → has_envelope body ≡ false
    → parse_command parse_time format_time body ≡ err no_envelope
unfolding has_envelope text_contains parse_command block_of
unparsed parse_time format_time body h = elim (Option-cases (index body env_begin)) [
  | inl missing ↦ ground arith
  | inr (i, found) ↦ absurd (ground arith)
]

module _ (hmac_sha256 : Text → Text → Text) (parse_time : Text → Option ℕ) (format_time : ℕ → Text)
    {S : Type 0} (store : Option (Store S)) (acct : Account) (msg : Message) (now : ℕ) (s : S) where
  -- A published command event carries a command that every required gate vouches for.
  pub process_sound :
      (name : Text) (v : Verified)
      → (process hmac_sha256 parse_time format_time store acct msg now s).0
        ≡ inbound_command name v ∷ []
      → (name ≡ acct.name)
        × IsAuthorized hmac_sha256 (parse_command parse_time format_time) store acct msg now s v
  unfolding process
  process_sound name v e =
      let o = (evaluate hmac_sha256 parse_time format_time store (some acct) msg now s).0 in
      let (same, found) = publish_sound acct.name msg.body o name v e in
      (same, evaluate_sound hmac_sha256 parse_time format_time store acct msg now s v found)

  -- A message with no envelope publishes nothing, not even a rejection, and leaves the nonces alone.
  pub process_silent :
      has_envelope msg.body ≡ false
      → ((process hmac_sha256 parse_time format_time store acct msg now s).0 ≡ [])
        × ((process hmac_sha256 parse_time format_time store acct msg now s).2 ≡ s)
  unfolding process publish evaluate evaluate_inbound
  process_silent h = elim (Option-cases acct.inbound) [
    | inl missing ↦ (rw (missing, h), rw missing)
    | inr (inb, configured) ↦ elim (Bool-cases inb.enabled) [
      | inl enabled ↦
          let refused = unparsed parse_time format_time msg.body h in
          (simp (configured, enabled, refused, h), simp (configured, enabled, refused))
      | inr disabled ↦ (simp (configured, disabled, h), simp (configured, disabled))
    ]
  ]
