-- ===== src/Trust/Default.antt =====
-- Default deny: the check of internal/config/config.go that an enabled command channel has a gate,
-- and what it means for Evaluate.
use imap_mcp.Prelude.{
  ℕ, ◌≡◌, Bool, true, not, ◌&&◌, ◌||◌, Option, some, none, Text, bytes, is_nil, arith,
}
use imap_mcp.Trust.Envelope.{Command}
use imap_mcp.Trust.{
  Gates, Inbound, Account, Message, Store, Verified, evaluate, allowlisted, auth_result_pass,
  verify_hmac,
}
use imap_mcp.Trust.Gating.{Passes}
use imap_mcp.Trust.Authority.{evaluate_sound}

-- the condition on g in validate, negated
unfoldable pub is_gated : Gates → Bool
is_gated g =
    not (is_nil g.allowlist)
    || (g.require_dkim || (g.require_dmarc || (not (is_nil g.hmac_secret) || g.require_pgp)))

-- what validate accepts of an account's inbound section
unfoldable pub validate_inbound : Account → Bool
unfolding is_gated
validate_inbound acct = elim acct.inbound [
  | none ↦ true
  | some inb ↦ not inb.enabled || is_gated inb.gates
]

module _ (hmac_sha256 : Text → Text → Text) where
  -- A gate other than the replay gate vouches for the message or its command.
  unfoldable pub is_vouched : Gates → Message → Command → Bool
  is_vouched g msg cmd =
      (not (is_nil g.allowlist) && allowlisted msg.from g.allowlist)
      || ((g.require_dkim && auth_result_pass msg.headers (bytes "dkim"))
          || ((g.require_dmarc && auth_result_pass msg.headers (bytes "dmarc"))
              || (not (is_nil g.hmac_secret)
                  && verify_hmac hmac_sha256 g.hmac_secret cmd.raw cmd.hmac)))

  is_vouched-Passes :
      (g : Gates) (msg : Message) (now : ℕ) (cmd : Command)
      → is_gated g ≡ true
      → Passes hmac_sha256 g msg now cmd
      → is_vouched g msg cmd ≡ true
  unfolding is_gated is_vouched
  is_vouched-Passes g msg now cmd gated p =
      ground (arith, p.sender, p.dkim_pass, p.dmarc_pass, p.signature, p.no_pgp)

  -- An account that validate accepts never triggers a command that no gate vouches for: the sender is
  -- on the allowlist, or DKIM or DMARC passed, or the HMAC of the command is right.
  pub default_deny :
      (parse_time : Text → Option ℕ) (format_time : ℕ → Text) {S : Type 0}
      (store : Option (Store S)) (acct : Account) (msg : Message) (now : ℕ) (s : S) (v : Verified)
      → validate_inbound acct ≡ true
      → (evaluate hmac_sha256 parse_time format_time store (some acct) msg now s).0.verified
        ≡ some v
      → (inb : Inbound) × (acct.inbound ≡ some inb) × (is_vouched inb.gates msg v.command ≡ true)
  unfolding validate_inbound
  default_deny parse_time format_time store acct msg now s v valid e =
      let a = evaluate_sound hmac_sha256 parse_time format_time store acct msg now s v e in
      (
        a.inbound,
        a.configured,
        is_vouched-Passes a.inbound.gates msg now v.command
            (ground (arith, a.configured, a.enabled)) a.passes,
      )
