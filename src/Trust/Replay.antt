-- ===== src/Trust/Replay.antt =====
-- Deliveries evaluated one after another, and what becomes of their nonces.
use mathlib.Core.Path.{subst₂}
use imap_mcp.Prelude.{
  ℕ, ◌≡◌, ◌≢◌, sym, List, [], ◌∷◌, Option, none, some, Text, is_nil, Bool-cases, Option-cases, inl,
  inr,
}
use imap_mcp.Trust.Envelope.{Command, parse_command}
use imap_mcp.Trust.{
  Account, Message, Outcome, Verified, Store, stateless_gates, nonce_gate, evaluate_command,
  evaluate_inbound, evaluate,
}
use imap_mcp.Trust.Authority.{evaluate_sound, Parsed-cases}
use imap_mcp.Trust.Nonces.{IsNonceStore}

pub record Delivery : Type 0 where
  pub account : Option Account
  pub message : Message
  pub at : ℕ

module _ (hmac_sha256 : Text → Text → Text) (parse_time : Text → Option ℕ) (format_time : ℕ → Text)
    {S : Type 0} (f : Store S) where
  -- The deliveries, evaluated one after another.
  unfoldable pub deliver : List Delivery → S → S
  deliver [] s = s
  deliver (d ∷ ds) s =
      deliver ds (evaluate hmac_sha256 parse_time format_time (some f) d.account d.message d.at s).1

  module _ (Recorded : Text → Text → S → Type 0) (lawful : IsNonceStore f Recorded) where
    nonce_gate-keeps :
        (acct : Account) (cmd : Command) (o : Outcome) (s : S) (a n : Text)
        → Recorded a n s
        → Recorded a n (nonce_gate hmac_sha256 (some f) acct cmd o s).1
    unfolding nonce_gate
    nonce_gate-keeps acct cmd o s a n h = elim (Bool-cases (is_nil cmd.nonce)) [
      | inl missing ↦ rw missing h
      | inr given ↦ rw given (lawful.keeps a n acct.name cmd.nonce cmd.ts s h)
    ]

    evaluate-keeps :
        (acct : Option Account) (msg : Message) (now : ℕ) (s : S) (a n : Text)
        → Recorded a n s
        → Recorded a n (evaluate hmac_sha256 parse_time format_time (some f) acct msg now s).1
    unfolding evaluate evaluate_inbound evaluate_command
    evaluate-keeps none msg now s a n h = h
    evaluate-keeps (some acct) msg now s a n h = elim (Option-cases acct.inbound) [
      | inl missing ↦ rw missing h
      | inr (inb, configured) ↦ elim (Bool-cases inb.enabled) [
        | inl enabled ↦ elim (Parsed-cases (parse_command parse_time format_time msg.body)) [
          | inl (x, refused) ↦ rw (configured, enabled, refused) h
          | inr (cmd, parsed) ↦
              simp (configured, enabled, parsed)
                (nonce_gate-keeps acct cmd (stateless_gates hmac_sha256 inb.gates msg now cmd) s a n
                  h)
        ]
        | inr disabled ↦ rw (configured, disabled) h
      ]
    ]

    evaluate-records :
        (acct : Account) (msg : Message) (now : ℕ) (s : S) (v : Verified)
        → (evaluate hmac_sha256 parse_time format_time (some f) (some acct) msg now s).0.verified
          ≡ some v
        → Recorded acct.name v.command.nonce
            (evaluate hmac_sha256 parse_time format_time (some f) (some acct) msg now s).1
    unfolding evaluate evaluate_inbound evaluate_command nonce_gate
    evaluate-records acct msg now s v e =
        let w = evaluate_sound hmac_sha256 parse_time format_time (some f) acct msg now s v e in
        rw (w.configured, w.enabled, w.parsed, w.has_nonce)
          (lawful.records acct.name v.command.nonce v.command.ts s w.unused)

    deliver-keeps :
        (ds : List Delivery) (s : S) (a n : Text) → Recorded a n s → Recorded a n (deliver ds s)
    unfolding deliver
    deliver-keeps [] s a n h = h
    deliver-keeps (d ∷ ds) s a n h =
        deliver-keeps ds _ a n (evaluate-keeps d.account d.message d.at s a n h)

    -- With a nonce store that keeps its promise, once a command has triggered, no later message triggers a command of the same account with the
    -- same nonce, whatever messages of whatever accounts are delivered in between.
    pub no_replay :
        (acct acct' : Account) (msg msg' : Message) (now now' : ℕ) (s : S) (v v' : Verified)
        (between : List Delivery)
        → acct'.name ≡ acct.name
        → (evaluate hmac_sha256 parse_time format_time (some f) (some acct) msg now s).0.verified
          ≡ some v
        → (evaluate hmac_sha256 parse_time format_time (some f) (some acct') msg' now' (
            deliver between
              (evaluate hmac_sha256 parse_time format_time
                (some f)
                (some acct)
                msg
                now
                s).1)).0.verified
          ≡ some v'
        → v'.command.nonce ≢ v.command.nonce
    no_replay acct acct' msg msg' now now' s v v' between same_account first second same_nonce =
        let s1 = (evaluate hmac_sha256 parse_time format_time (some f) (some acct) msg now s).1 in
        let s2 = deliver between s1 in
        let kept : Recorded acct.name v.command.nonce s2 =
          deliver-keeps between s1 acct.name v.command.nonce
            (evaluate-records acct msg now s v first) in
        let w =
          evaluate_sound hmac_sha256 parse_time format_time (some f) acct' msg' now' s2 v' second in
        lawful.remembers acct'.name v'.command.nonce v'.command.ts s2
          (subst₂ (λ a n. Recorded a n s2) (sym same_account) (sym same_nonce) kept) w.unused
