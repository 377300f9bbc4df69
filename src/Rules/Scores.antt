-- ===== src/Rules/Scores.antt =====
-- internal/service/newsender.go: how the gate judges the message of a new sender.
use imap_mcp.Prelude.{
  ℕ, ◌+◌, Bool, true, false, not, ◌&&◌, ◌||◌, List, [], ◌∷◌, ◌++◌, Option, none, some, Text, bytes,
  text_eq, contains, is_nil, ltb, leb, ◌==◌, if◌then◌else◌,
}
use imap_mcp.Prelude.Bytes.{to_lower, trim_space, text_contains}
use imap_mcp.Mail.{Tried, done, failed, among}
use imap_mcp.Rules.Signals.{
  bare_addr, domain_of, same_org, impersonation, fake_reply, not_to_owner, throwaway_domain,
  unbracket,
}
use imap_mcp.Rules.Gate.{
  StoredVerdict, Hall, Tables, Envelope, Fields, Setup, owner_of, labels_of, msg_hash, sender_row,
}

-- The ids that the message answers: is one of them the owner's?
unfoldable pub answers_owner : Setup → Tables → List Text → Bool
unfolding msg_hash among
answers_owner g t [] = false
answers_owner g t (id ∷ ids) =
    let h = msg_hash g id in (not (h == 0) && among t.outgoing h) || answers_owner g t ids

unfoldable pub recipients_of : List Text → List Text
unfolding bare_addr domain_of text_contains
recipients_of [] = []
recipients_of (raw ∷ addrs) =
    let rest = recipients_of addrs in
    let addr = bare_addr raw in
    if text_contains addr (bytes "@") && not (is_nil (domain_of addr)) then addr ∷ rest else rest

unfoldable pub copies_known : Setup → Tables → Text → List Text → Bool
unfolding contains owner_of sender_row text_eq
copies_known g t from [] = false
copies_known g t from (r ∷ recipients) =
    let written : Bool = elim (sender_row r t.senders) [ none ↦ false | some s ↦ ltb 0 s.sent ] in
    (not (contains (owner_of g).own r || text_eq r from) && written)
    || copies_known g t from recipients

unfoldable pub any_within : Text → List Text → Bool
unfolding text_contains
any_within s [] = false
any_within s (a ∷ addrs) = text_contains s a || any_within s addrs

-- Signs of a real contact, or the score with its reasons
pub record Score : Type 0 where
  pub real : Bool
  pub score : ℕ
  pub reasons : List Text

abbrev pub sign : Bool → ℕ → Text → Score → Score
sign b n why s = if b then record s { score = s.score + n; reasons = s.reasons ++ why ∷ [] } else s

abbrev pub other_reply : Text → List Text → Bool
other_reply domain addrs = elim addrs [
  | [] ↦ false
  | raw ∷ others ↦
      let rd = domain_of (bare_addr raw) in
      not (is_nil rd)
      && (not (is_nil domain) && (not (same_org rd domain) && not (same_org domain rd)))
]

abbrev pub name_of : List (Text × Text) → Text
name_of [] = []
name_of (sender ∷ from) = to_lower sender.0

abbrev pub is_bulk : Fields → Bool
is_bulk h =
    let p = to_lower h.precedence in
    not (is_nil h.list_unsubscribe)
    || (not (is_nil h.list_id)
        || (text_eq p (bytes "bulk") || (text_eq p (bytes "list") || text_eq p (bytes "junk"))))

unfoldable pub signals : Setup → Tables → Envelope → Fields → Text → Tried Score
unfolding answers_owner recipients_of copies_known any_within impersonation throwaway_domain
    owner_of labels_of domain_of
signals g t env h from =
    let recipients = recipients_of (env.to ++ env.cc) in
    let o = owner_of g in
    let domain = domain_of from in
    if answers_owner g t (env.in_reply_to ++ h.reference_ids) || copies_known g t from recipients
    then done (record { real = true; score = 0; reasons = [] })
    else elim (impersonation g.find (labels_of o.domains) o.domains (name_of env.from) domain) [
      | failed e ↦ failed e
      | done why ↦ done (
          sign (other_reply domain env.reply_to) 1 (bytes "replies go to another domain") (
            sign (any_within (to_lower env.subject) o.own) 1 (bytes "your address in the subject") (
              sign (throwaway_domain domain) 1 (bytes "throwaway-looking domain") (
                sign (is_bulk h) 1 (bytes "bulk mail you never signed up for") (
                  sign (not_to_owner o.own from recipients) 1 (bytes "not addressed to you") (
                    sign (fake_reply env.subject && (is_nil env.in_reply_to && is_nil h.references))
                      2 (bytes "pretends to reply to a conversation that never happened")
                      (sign (not (is_nil why)) 2 why
                        (record { real = false; score = 0; reasons = [] }))))))))
    ]

unfoldable pub verdict_of : Setup → ℕ → List StoredVerdict → Option StoredVerdict
unfolding text_eq
verdict_of g h [] = none
verdict_of g h (r ∷ rows) =
    let rest = verdict_of g h rows in
    if text_eq r.account g.account && r.hash == h then some r else rest

-- verdict, where no hash finds nothing
unfoldable pub verdict_for : Setup → Tables → Text → Option StoredVerdict
unfolding msg_hash verdict_of
verdict_for g t id =
    let h = msg_hash g id in let row = verdict_of g h t.verdicts in if h == 0 then none else row

unfoldable pub hall_row : Text → Text → List Hall → Text
unfolding text_eq
hall_row account id [] = []
hall_row account id (r ∷ rows) =
    let rest = hall_row account id rows in
    if text_eq r.account account
      && ((text_eq r.message_id id || text_eq r.message_id (bytes "<" ++ (id ++ bytes ">")))
          && not (is_nil r.hall))
    then r.hall
    else rest

unfoldable pub valid_halls : List Text
valid_halls =
    bytes "transactional"
    ∷ bytes "conversation"
    ∷ bytes "newsletter"
    ∷ bytes "notification"
    ∷ bytes "alert"
    ∷ bytes "personal"
    ∷ []

unfoldable pub hall_of : Setup → Tables → Text → Text
unfolding unbracket hall_row to_lower trim_space contains valid_halls
hall_of g t message_id =
    let id = unbracket message_id in
    let h = unbracket (to_lower (trim_space (hall_row g.account id t.halls))) in
    if is_nil id || not (contains valid_halls h) then [] else h

-- What the verdict model says of a score below the threshold; `none` lets the message stay.
unfoldable pub by_verdict : Score → Option StoredVerdict → Option (List Text)
unfolding text_eq
by_verdict s none = none
by_verdict s (some v) =
    let why = bytes "model: " ++ (v.verdict ++ (bytes " (" ++ (v.shown ++ bytes ")"))) in
    let scam = text_eq v.verdict (bytes "scam") in
    if v.unsure
    then none
    else if s.score == 1 && (scam || text_eq v.verdict (bytes "bulk"))
    then some (s.reasons ++ why ∷ [])
    else if s.score == 0 && scam
    then some (why ∷ [])
    else none

-- judge: the reasons to hold the message, if it is held
unfoldable pub judged : Setup → Tables → Text → Score → Option (List Text)
unfolding by_verdict verdict_for hall_of text_eq
judged g t id s =
    let hall = hall_of g t id in
    if s.real
    then none
    else if leb 2 s.score
    then some s.reasons
    else if g.verdict_on
    then by_verdict s (verdict_for g t id)
    else if s.score == 0
    then none
    else if is_nil hall || (text_eq hall (bytes "conversation") || text_eq hall (bytes "personal"))
    then none
    else some (s.reasons ++ (bytes "classified as " ++ hall) ∷ [])

unfoldable pub judge : Setup → Tables → Envelope → Fields → Text → Tried (Option (List Text))
unfolding signals judged
judge g t env h from = elim (signals g t env h from) [
  | failed e ↦ failed e
  | done s ↦ done (judged g t env.message_id s)
]
