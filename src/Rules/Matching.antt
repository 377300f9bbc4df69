-- ===== src/Rules/Matching.antt =====
-- What a rule matches that has an age below zero as its only condition.
use imap_mcp.Prelude.{ℕ, ◌≡◌, refl, false, [], none, Text, is_nil}
use imap_mcp.Prelude.Bytes.{trim_space}
use imap_mcp.Prelude.Int.{pos, negsuc}
use imap_mcp.Mail.{any_message}
use imap_mcp.Rules.{Conditions, Rule, validate_rule, actions_error, conditions_error}
use imap_mcp.Rules.Run.{criteria_of}

-- Conditions that ask only for an age of -(n + 1) days.
abbrev pub aged : Text → Text → ℕ → Conditions
aged account folder n = record {
  account = account;
  folder = folder;
  from = [];
  subject = [];
  text = [];
  older_than_days = negsuc n;
  new_sender = false;
  new_sender_days = pos 0;
}

-- A rule whose only condition is an age below zero is accepted, if its name and its actions are, and its
-- search asks for nothing: it matches every message of its folder.
pub negative_age-matches_all :
    (r : Rule) (account folder : Text) (n now : ℕ)
    → is_nil (trim_space r.name) ≡ false
    → is_nil r.actions ≡ false
    → actions_error r.actions ≡ none
    → r.conditions ≡ aged account folder n
    → (validate_rule r ≡ none) × (criteria_of now r.conditions ≡ any_message)
unfolding validate_rule conditions_error criteria_of
negative_age-matches_all r account folder n now named acts fine e =
    (rw (named, acts, fine) (rw e refl), rw e refl)
