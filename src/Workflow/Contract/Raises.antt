-- ===== src/Workflow/Contract/Raises.antt =====
-- When listing the values that a rule allows raises a KeyError.
use team_flow.Prelude.{
  ◌≡◌, ◌↔◌, refl, arith, String, Bool, true, not, ◌&&◌, none, List, [], ◌∷◌, any, is_some, Dict,
  lookup,
}
use team_flow.Workflow.Definition.{Definition, Rule, task_option_definitions}
use team_flow.Workflow.Contract.{allowed_for, rule_allowed_values}

-- The field has values of its own and is no option column.
abbrev pub is_unlisted : Dict (List String) → Dict (List String) → String → Bool
is_unlisted explicit options field =
    is_some (lookup explicit field) && not (is_some (lookup options field))

allowed_for-none :
    (explicit options : Dict (List String)) (fields : List String)
    → is_some (allowed_for explicit options fields)
      ≡ not (any (is_unlisted explicit options) fields)
unfolding allowed_for
allowed_for-none explicit options [] = refl
allowed_for-none explicit options (field ∷ fields) =
    ground (arith, allowed_for-none explicit options fields)

-- Listing the values that a rule allows raises a KeyError exactly when a writable field of the rule
-- has values of its own and is no option column of the card.
pub rule_allowed_values-none :
    (d : Definition) (rule : Rule)
    → rule_allowed_values d rule ≡ none
      ↔ any (is_unlisted rule.field_values (task_option_definitions d)) rule.writable_fields ≡ true
unfolding rule_allowed_values
rule_allowed_values-none d rule = (
  λ e.
      ground (
        arith,
        allowed_for-none rule.field_values (task_option_definitions d) rule.writable_fields,
      ),
  λ e.
      ground (
        arith,
        allowed_for-none rule.field_values (task_option_definitions d) rule.writable_fields,
      ),
)
