-- ===== src/Trust/Authority.antt =====
-- What Evaluate asks of a command before it triggers.
use mathlib.Core.Path.{subst}
use imap_mcp.Prelude.{
  ℕ, ◌≡◌, refl, ◌∙◌, ◌⊎◌, ap, sym, true, false, Option, none, some, Text, is_nil, arith, Bool-cases,
  Option-cases, inl, inr,
}
use imap_mcp.Trust.Envelope.{Command, EnvelopeError, Parsed, ok, err, parse_command}
use imap_mcp.Trust.{
  Inbound, Account, Message, Verified, Store, triggered, capability_allowed, stateless_gates,
  nonce_gate, decide, evaluate_command, evaluate_inbound, evaluate,
}
use imap_mcp.Trust.Gating.{
  Passes, IsFresh, gates_ok, decide_sound, stateless_gates-failed, stateless_gates-verified,
  gates_ok_iff, nonce_gate-failed, nonce_gate-verified,
}

pub Parsed-cases :
    (p : Parsed Command) → ((x : EnvelopeError) × (p ≡ err x)) ⊎ ((c : Command) × (p ≡ ok c))
Parsed-cases (err x) = inl (x, refl)
Parsed-cases (ok c) = inr (c, refl)

module _ (hmac_sha256 : Text → Text → Text) {S : Type 0} where
  -- What the verified command of an outcome says of the message.
  pub record IsAuthorized (parse : Text → Parsed Command) (store : Option (Store S))
      (acct : Account) (msg : Message) (now : ℕ) (s : S) (v : Verified) : Type 0 where
    pub inbound : Inbound
    pub configured : acct.inbound ≡ some inbound
    pub enabled : inbound.enabled ≡ true
    pub parsed : parse msg.body ≡ ok v.command
    pub passes : Passes hmac_sha256 inbound.gates msg now v.command
    pub has_nonce : is_nil v.command.nonce ≡ false
    pub unused : IsFresh hmac_sha256 store acct v.command s
    pub capable : capability_allowed v.command.verb inbound.capabilities ≡ true
    pub account : v.account ≡ acct.name
    pub from : v.from ≡ msg.from

  module _ (store : Option (Store S)) (acct : Account) (inb : Inbound) (msg : Message) (now : ℕ)
      (cmd : Command) (s : S) where
    command_sound :
        (v : Verified)
        → (evaluate_command hmac_sha256 store acct inb msg now cmd s).0.verified ≡ some v
        → Passes hmac_sha256 inb.gates msg now cmd
          × (is_nil cmd.nonce ≡ false)
          × IsFresh hmac_sha256 store acct cmd s
          × (capability_allowed cmd.verb inb.capabilities ≡ true)
          × (v.command ≡ cmd)
          × (v.account ≡ acct.name)
          × (v.from ≡ msg.from)
    unfolding evaluate_command
    command_sound v e =
        let o = stateless_gates hmac_sha256 inb.gates msg now cmd in
        let o' = (nonce_gate hmac_sha256 store acct cmd o s).0 in
        let blank : o'.verified ≡ none =
          nonce_gate-verified hmac_sha256 store acct cmd o s
          ∙ stateless_gates-verified hmac_sha256 inb.gates msg now cmd in
        let (clean, capable, same, account, from) = decide_sound acct inb msg cmd o' v blank e in
        let (clean', has_nonce, unused) =
          (nonce_gate-failed hmac_sha256 store acct cmd o s).0 clean in
        let open_gates : gates_ok hmac_sha256 inb.gates msg now cmd ≡ true =
          sym (stateless_gates-failed hmac_sha256 inb.gates msg now cmd) ∙ clean' in
        (
          (gates_ok_iff hmac_sha256 inb.gates msg now cmd).0 open_gates,
          has_nonce,
          unused,
          capable,
          same,
          account,
          from,
        )

    command_complete :
        Passes hmac_sha256 inb.gates msg now cmd
        → is_nil cmd.nonce ≡ false
        → IsFresh hmac_sha256 store acct cmd s
        → capability_allowed cmd.verb inb.capabilities ≡ true
        → triggered (evaluate_command hmac_sha256 store acct inb msg now cmd s).0 ≡ true
    unfolding evaluate_command decide
    command_complete p has_nonce unused capable =
        let o = stateless_gates hmac_sha256 inb.gates msg now cmd in
        let clean : is_nil o.failed ≡ true =
          stateless_gates-failed hmac_sha256 inb.gates msg now cmd
          ∙ (gates_ok_iff hmac_sha256 inb.gates msg now cmd).1 p in
        let clean' : is_nil (nonce_gate hmac_sha256 store acct cmd o s).0.failed ≡ true =
          (nonce_gate-failed hmac_sha256 store acct cmd o s).1 (clean, has_nonce, unused) in
        ground arith

  module _ (parse_time : Text → Option ℕ) (format_time : ℕ → Text) (store : Option (Store S))
      (acct : Account) (msg : Message) (now : ℕ) (s : S) where
    -- When Evaluate hands out a verified command, inbound is enabled for the account, the command is
    -- the envelope of the message, every gate that the account requires passes, the command has a
    -- nonce that the store had not seen, and the account lists its verb.
    pub evaluate_sound :
        (v : Verified)
        → (evaluate hmac_sha256 parse_time format_time store (some acct) msg now s).0.verified
          ≡ some v
        → IsAuthorized (parse_command parse_time format_time) store acct msg now s v
    unfolding evaluate evaluate_inbound
    evaluate_sound v e = elim (Option-cases acct.inbound) [
      | inl missing ↦ absurd (ground arith)
      | inr (inb, configured) ↦ elim (Bool-cases inb.enabled) [
        | inl enabled ↦ elim (Parsed-cases (parse_command parse_time format_time msg.body)) [
          | inl (x, refused) ↦ absurd (ground arith)
          | inr (cmd, parsed) ↦
              let (passes, has_nonce, unused, capable, same, account, from) =
                command_sound store acct inb msg now cmd s v (ground arith) in
              record {
                inbound = inb;
                configured = configured;
                enabled = enabled;
                parsed = parsed ∙ ap ok (sym same);
                passes = subst (Passes hmac_sha256 inb.gates msg now) (sym same) passes;
                has_nonce = rw same has_nonce;
                unused = subst (λ c. IsFresh hmac_sha256 store acct c s) (sym same) unused;
                capable = rw same capable;
                account = account;
                from = from;
              }
        ]
        | inr disabled ↦ absurd (ground arith)
      ]
    ]

    -- Evaluate triggers for every command that it may hand out: inbound enabled, the envelope of the
    -- message, every required gate passed, an unused nonce, and a listed verb are enough.
    pub evaluate_complete :
        (v : Verified)
        → IsAuthorized (parse_command parse_time format_time) store acct msg now s v
        → triggered (evaluate hmac_sha256 parse_time format_time store (some acct) msg now s).0
          ≡ true
    unfolding evaluate evaluate_inbound
    evaluate_complete v a = ground (
      arith,
      a.configured,
      a.enabled,
      a.parsed,
      command_complete store acct a.inbound msg now v.command s a.passes a.has_nonce a.unused
          a.capable,
    )
