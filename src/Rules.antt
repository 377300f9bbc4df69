-- ===== src/Rules.antt =====
-- internal/db/rules.go and the first half of internal/service/rules.go: the rules as they are stored,
-- validated and changed. A rule's conditions and actions are stored as JSON, which is taken to give them
-- back; SQLite's statements fail only where a name is used twice.
pub mod Signals
pub mod Gate
pub mod Scores
pub mod Filter
pub mod Run
pub mod Keys
pub mod Stored
pub mod Dry
pub mod Safety
pub mod Matching
mod Tests
use imap_mcp.Prelude.{
  ℕ, ◌+◌, ◌≡◌, Bool, true, false, not, ◌&&◌, ◌||◌, List, [], ◌∷◌, ◌++◌, Option, none, some, Text,
  bytes, text_eq, is_nil, ◌==◌, leb, if◌then◌else◌,
}
use imap_mcp.Prelude.Bytes.{trim_space}
use imap_mcp.Prelude.Int.{ℤ, pos, negsuc, gtb_ℤ}
use imap_mcp.Mail.{Outcome, fine, invalid, not_found}

pub record Conditions : Type 0 where
  pub account : Text
  pub folder : Text
  pub from : Text
  pub subject : Text
  pub text : Text
  pub older_than_days : ℤ
  pub new_sender : Bool
  pub new_sender_days : ℤ

pub record Action : Type 0 where
  pub kind : Text
  pub dest : Text
  pub flags : Text

pub record Rule : Type 0 where
  pub id : ℕ
  pub name : Text
  pub description : Text
  pub conditions : Conditions
  pub actions : List Action
  pub active : Bool
  pub priority : ℤ
  pub run_count : ℕ

pub record Table : Type 0 where
  pub rules : List Rule
  pub next_id : ℕ

abbrev pub is_zero : ℤ → Bool
is_zero (pos n) = n == 0
is_zero (negsuc n) = false

abbrev pub is_positive : ℤ → Bool
is_positive a = gtb_ℤ a (pos 0)

abbrev pub is_negative : ℤ → Bool
is_negative a = gtb_ℤ (pos 0) a

-- The error of an action, if it has one.
unfoldable pub action_error : Action → Option Text
action_error a =
    if text_eq a.kind (bytes "trash") || text_eq a.kind (bytes "seen")
    then none
    else if text_eq a.kind (bytes "move")
    then (if is_nil a.dest then some (bytes "action=move requires dest") else none)
    else if text_eq a.kind (bytes "flag")
    then (if is_nil a.flags then some (bytes "action=flag requires flags") else none)
    else some (bytes "unknown action " ++ a.kind)

unfoldable pub actions_error : List Action → Option Text
unfolding action_error
actions_error [] = none
actions_error (a ∷ actions) =
    let rest = actions_error actions in elim (action_error a) [ some e ↦ some e | none ↦ rest ]

abbrev pub is_unconditional : Conditions → Bool
is_unconditional c =
    is_nil c.from
    && (is_nil c.subject && (is_nil c.text && (is_zero c.older_than_days && not c.new_sender)))

unfoldable pub conditions_error : Conditions → Option Text
conditions_error c =
    if is_unconditional c
    then some (
        bytes
          "a rule needs at least one condition (from, subject, text, older_than_days, or new_sender)")
    else if is_negative c.new_sender_days || (is_positive c.new_sender_days && not c.new_sender)
    then some (bytes "new_sender_days needs new_sender and must be positive")
    else none

-- ValidateRule, with `none` for nil
unfoldable pub validate_rule : Rule → Option Text
unfolding actions_error conditions_error trim_space
validate_rule r =
    if is_nil (trim_space r.name)
    then some (bytes "name is required")
    else if is_nil r.actions
    then some (bytes "an action (trash|move|flag|seen) is required")
    else elim (actions_error r.actions) [ some e ↦ some e | none ↦ conditions_error r.conditions ]

-- if rule.Priority == 0 { rule.Priority = 100 }
abbrev pub with_priority : Rule → Rule
with_priority r = record r { priority = if is_zero r.priority then pos 100 else r.priority }

unfoldable pub has_name : Text → List Rule → Bool
has_name name [] = false
has_name name (r ∷ rules) = text_eq r.name name || has_name name rules

-- name TEXT NOT NULL UNIQUE, for a row of another id
unfoldable pub has_other : ℕ → Text → List Rule → Bool
has_other id name [] = false
has_other id name (r ∷ rules) = (not (r.id == id) && text_eq r.name name) || has_other id name rules

unfoldable pub has_id : ℕ → List Rule → Bool
has_id id [] = false
has_id id (r ∷ rules) = r.id == id || has_id id rules

-- (*RuleRepo).Create: `none` where the name is used
unfoldable pub create : Rule → Table → Option (ℕ × Table)
unfolding has_name
create r t =
    if has_name r.name t.rules
    then none
    else some (
      t.next_id,
      record {
        rules = t.rules ++ record (with_priority r) { id = t.next_id; run_count = 0 } ∷ [];
        next_id = t.next_id + 1;
      },
    )

-- UPDATE … WHERE id = ?
unfoldable pub update_at : ℕ → (Rule → Rule) → List Rule → List Rule
update_at id f [] = []
update_at id f (r ∷ rules) = (if r.id == id then f r else r) ∷ update_at id f rules

abbrev pub edited : Rule → Rule → Rule
edited new old = record (with_priority new) { id = old.id; run_count = old.run_count }

abbrev pub unknown : Text
unknown = bytes "rule not found"

abbrev pub used_name : Text → Text
used_name name = bytes "a rule named " ++ (name ++ bytes " already exists")

-- (*Service).CreateRule
unfoldable pub create_rule : Rule → Table → Outcome ℕ × Table
unfolding validate_rule create
create_rule r t = elim (validate_rule r) [
  | some e ↦ (invalid e, t)
  | none ↦ elim (create r t) [
    | none ↦ (invalid (used_name r.name), t)
    | some (id, t') ↦ (fine id, t')
  ]
]

-- (*RuleRepo).Update and (*Service).UpdateRule
unfoldable pub update_rule : Rule → Table → Outcome Bool × Table
unfolding validate_rule update_at has_other has_id
update_rule r t = elim (validate_rule r) [
  | some e ↦ (invalid e, t)
  | none ↦
      if not (has_id r.id t.rules)
      then (not_found unknown, t)
      else if has_other r.id r.name t.rules
      then (invalid (used_name r.name), t)
      else (fine true, record t { rules = update_at r.id (edited r) t.rules })
]

unfoldable pub without : ℕ → List Rule → List Rule
without id [] = []
without id (r ∷ rules) = let rest = without id rules in if r.id == id then rest else r ∷ rest

-- (*RuleRepo).Delete and (*Service).DeleteRule; what was learned of the rule is another table.
unfoldable pub delete_rule : ℕ → Table → Outcome Bool × Table
unfolding has_id without
delete_rule id t =
    if id == 0
    then (invalid (bytes "id is required"), t)
    else if not (has_id id t.rules)
    then (not_found unknown, t)
    else (fine true, record t { rules = without id t.rules })

-- ORDER BY priority, id
abbrev pub is_before : Rule → Rule → Bool
is_before r q = gtb_ℤ q.priority r.priority || (not (gtb_ℤ r.priority q.priority) && leb r.id q.id)

unfoldable pub insert_rule : Rule → List Rule → List Rule
insert_rule r [] = r ∷ []
insert_rule r (q ∷ rules) =
    let rest = insert_rule r rules in if is_before r q then r ∷ q ∷ rules else q ∷ rest

-- (*RuleRepo).List
unfoldable pub list_rules : List Rule → List Rule
unfolding insert_rule
list_rules [] = []
list_rules (r ∷ rules) = insert_rule r (list_rules rules)

unfoldable pub find_rule : ℕ → List Rule → Option Rule
find_rule id [] = none
find_rule id (r ∷ rules) = let rest = find_rule id rules in if r.id == id then some r else rest

-- (*RuleRepo).Get
unfoldable pub get_rule : ℕ → Table → Option Rule
unfolding find_rule list_rules
get_rule id t = find_rule id (list_rules t.rules)

-- (*RuleRepo).IncrementRun
unfoldable pub increment_run : ℕ → ℕ → Table → Table
unfolding update_at
increment_run id n t = record t {
  rules = update_at id (λ r. record r { run_count = r.run_count + n }) t.rules;
}
