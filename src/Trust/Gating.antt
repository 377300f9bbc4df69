-- ===== src/Trust/Gating.antt =====
-- What each gate adds to the failures of an outcome.
use imap_mcp.Prelude.{
  ℕ, ◌≡◌, refl, ◌↔◌, ◌⊎◌, Bool, true, false, not, ◌&&◌, ◌||◌, Option, none, some, Text, bytes,
  is_nil, ltb, arith,
}
use imap_mcp.Trust.Envelope.{Command}
use imap_mcp.Trust.{
  Gates, Inbound, Account, Message, Outcome, Verified, Seen, fresh, used, broken, Store,
  allowlisted, auth_result_pass, capability_allowed, verify_hmac, is_stale, allowlist_gate,
  dkim_gate, dmarc_gate, hmac_gate, pgp_gate, window_gate, stateless_gates, nonce_gate,
  nonce_answer, decide,
}

pub decide_sound :
    (acct : Account) (inb : Inbound) (msg : Message) (cmd : Command) (o : Outcome) (v : Verified)
    → o.verified ≡ none
    → (decide acct inb msg cmd o).verified ≡ some v
    → (is_nil o.failed ≡ true)
      × (capability_allowed cmd.verb inb.capabilities ≡ true)
      × (v.command ≡ cmd)
      × (v.account ≡ acct.name)
      × (v.from ≡ msg.from)
unfolding decide
decide_sound acct inb msg cmd o v e h = ground arith

nonce_answer-failed :
    (a : Seen) (o : Outcome)
    → (is_nil (nonce_answer a o).failed ≡ true) ↔ ((is_nil o.failed ≡ true) × (a ≡ fresh))
unfolding nonce_answer
nonce_answer-failed fresh o = ground arith
nonce_answer-failed used o = ground arith
nonce_answer-failed broken o = ground arith

nonce_answer-verified : (a : Seen) (o : Outcome) → (nonce_answer a o).verified ≡ o.verified
unfolding nonce_answer
nonce_answer-verified fresh o = refl
nonce_answer-verified used o = refl
nonce_answer-verified broken o = refl

module _ (hmac_sha256 : Text → Text → Text) where
  -- Every gate that the configuration requires holds of the message and its command.
  pub record Passes (g : Gates) (msg : Message) (now : ℕ) (cmd : Command) : Type 0 where
    pub sender : (is_nil g.allowlist ≡ true) ⊎ (allowlisted msg.from g.allowlist ≡ true)
    pub dkim_pass : (g.require_dkim ≡ false) ⊎ (auth_result_pass msg.headers (bytes "dkim") ≡ true)
    pub dmarc_pass :
        (g.require_dmarc ≡ false) ⊎ (auth_result_pass msg.headers (bytes "dmarc") ≡ true)
    pub signature :
        (is_nil g.hmac_secret ≡ true)
        ⊎ ((is_nil cmd.hmac ≡ false)
            × (verify_hmac hmac_sha256 g.hmac_secret cmd.raw cmd.hmac ≡ true))
    pub no_pgp : g.require_pgp ≡ false
    pub timely :
        (g.replay_window_minutes ≡ 0) ⊎ (is_stale g.replay_window_minutes now cmd.ts ≡ false)

  abbrev pub window_ok : Gates → ℕ → Command → Bool
  window_ok g now cmd =
      not (ltb 0 g.replay_window_minutes && is_stale g.replay_window_minutes now cmd.ts)

  abbrev pub hmac_ok : Gates → Command → Bool
  hmac_ok g cmd =
      is_nil g.hmac_secret
      || (not (is_nil cmd.hmac) && verify_hmac hmac_sha256 g.hmac_secret cmd.raw cmd.hmac)

  module _ (g : Gates) (msg : Message) (now : ℕ) (cmd : Command) (o : Outcome) where
    allowlist_gate-failed :
        is_nil (allowlist_gate g msg o).failed
        ≡ (is_nil o.failed && (is_nil g.allowlist || allowlisted msg.from g.allowlist))
    unfolding allowlist_gate
    allowlist_gate-failed = ground arith

    allowlist_gate-verified : (allowlist_gate g msg o).verified ≡ o.verified
    unfolding allowlist_gate
    allowlist_gate-verified = ground arith

    dkim_gate-failed :
        is_nil (dkim_gate g msg o).failed
        ≡ (is_nil o.failed && (not g.require_dkim || auth_result_pass msg.headers (bytes "dkim")))
    unfolding dkim_gate
    dkim_gate-failed = ground arith

    dkim_gate-verified : (dkim_gate g msg o).verified ≡ o.verified
    unfolding dkim_gate
    dkim_gate-verified = ground arith

    dmarc_gate-failed :
        is_nil (dmarc_gate g msg o).failed
        ≡ (is_nil o.failed && (not g.require_dmarc || auth_result_pass msg.headers (bytes "dmarc")))
    unfolding dmarc_gate
    dmarc_gate-failed = ground arith

    dmarc_gate-verified : (dmarc_gate g msg o).verified ≡ o.verified
    unfolding dmarc_gate
    dmarc_gate-verified = ground arith

    hmac_gate-failed :
        is_nil (hmac_gate hmac_sha256 g cmd o).failed ≡ (is_nil o.failed && hmac_ok g cmd)
    unfolding hmac_gate
    hmac_gate-failed = ground arith

    hmac_gate-verified : (hmac_gate hmac_sha256 g cmd o).verified ≡ o.verified
    unfolding hmac_gate
    hmac_gate-verified = ground arith

    pgp_gate-failed : is_nil (pgp_gate g o).failed ≡ (is_nil o.failed && not g.require_pgp)
    unfolding pgp_gate
    pgp_gate-failed = ground arith

    pgp_gate-verified : (pgp_gate g o).verified ≡ o.verified
    unfolding pgp_gate
    pgp_gate-verified = ground arith

    window_gate-failed :
        is_nil (window_gate g now cmd o).failed ≡ (is_nil o.failed && window_ok g now cmd)
    unfolding window_gate
    window_gate-failed = ground arith

    window_gate-verified : (window_gate g now cmd o).verified ≡ o.verified
    unfolding window_gate
    window_gate-verified = ground arith

  abbrev pub gates_ok : Gates → Message → ℕ → Command → Bool
  gates_ok g msg now cmd =
      (((((is_nil g.allowlist || allowlisted msg.from g.allowlist)
              && (not g.require_dkim || auth_result_pass msg.headers (bytes "dkim")))
            && (not g.require_dmarc || auth_result_pass msg.headers (bytes "dmarc")))
          && hmac_ok g cmd)
        && not g.require_pgp)
      && window_ok g now cmd

  pub stateless_gates-failed :
      (g : Gates) (msg : Message) (now : ℕ) (cmd : Command)
      → is_nil (stateless_gates hmac_sha256 g msg now cmd).failed ≡ gates_ok g msg now cmd
  unfolding stateless_gates
  stateless_gates-failed g msg now cmd = simp (
    window_gate-failed, pgp_gate-failed, hmac_gate-failed, dmarc_gate-failed, dkim_gate-failed,
    allowlist_gate-failed,
  )

  pub gates_ok_iff :
      (g : Gates) (msg : Message) (now : ℕ) (cmd : Command)
      → (gates_ok g msg now cmd ≡ true) ↔ Passes g msg now cmd
  gates_ok_iff g msg now cmd = (forward, backward)
    where
      forward : gates_ok g msg now cmd ≡ true → Passes g msg now cmd
      forward h = record {
        sender = ground arith;
        dkim_pass = ground arith;
        dmarc_pass = ground arith;
        signature = ground arith;
        no_pgp = ground arith;
        timely = ground arith;
      }

      backward : Passes g msg now cmd → gates_ok g msg now cmd ≡ true
      backward p = ground arith

  pub stateless_gates-verified :
      (g : Gates) (msg : Message) (now : ℕ) (cmd : Command)
      → (stateless_gates hmac_sha256 g msg now cmd).verified ≡ none
  unfolding stateless_gates
  stateless_gates-verified g msg now cmd = simp (
    window_gate-verified, pgp_gate-verified, hmac_gate-verified, dmarc_gate-verified,
    dkim_gate-verified, allowlist_gate-verified,
  )

  module _ {S : Type 0} where
    -- The store has not seen the nonce; a verifier without a store accepts every nonce.
    abbrev pub IsFresh : Option (Store S) → Account → Command → S → Type 0
    IsFresh none acct cmd s = Unit
    IsFresh (some seen_or_record) acct cmd s =
        (seen_or_record acct.name cmd.nonce cmd.ts s).0 ≡ fresh

    pub nonce_gate-failed :
        (store : Option (Store S)) (acct : Account) (cmd : Command) (o : Outcome) (s : S)
        → (is_nil (nonce_gate hmac_sha256 store acct cmd o s).0.failed ≡ true)
          ↔ ((is_nil o.failed ≡ true) × (is_nil cmd.nonce ≡ false) × IsFresh store acct cmd s)
    unfolding nonce_gate
    nonce_gate-failed none acct cmd o s = ground arith
    nonce_gate-failed (some f) acct cmd o s =
        ground (arith, nonce_answer-failed (f acct.name cmd.nonce cmd.ts s).0 o)

    pub nonce_gate-verified :
        (store : Option (Store S)) (acct : Account) (cmd : Command) (o : Outcome) (s : S)
        → (nonce_gate hmac_sha256 store acct cmd o s).0.verified ≡ o.verified
    unfolding nonce_gate
    nonce_gate-verified none acct cmd o s = ground arith
    nonce_gate-verified (some f) acct cmd o s =
        ground (arith, nonce_answer-verified (f acct.name cmd.nonce cmd.ts s).0 o)
