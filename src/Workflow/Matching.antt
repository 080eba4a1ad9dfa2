-- ===== src/Workflow/Matching.antt =====
-- core/workflow_rule_validation.py, `matching_applied_rule`: whether a card already shows the
-- result of an action, so that a repeated call writes nothing.
pub mod Reached
use team_flow.Prelude.{
  String, Bool, true, false, not, ◌&&◌, Option, none, some, List, [], ◌∷◌, subset, is_empty, all,
  is_some, if◌then◌else◌, Dict, keys,
}
use team_flow.Workflow.Value.{Value, get, value_is, same_value}
use team_flow.Workflow.Definition.{Rule, Definition, Assignment, Task}
use team_flow.Workflow.Contract.{rule_actor_allowed}
use team_flow.Workflow.Rules.{action_patch, rule_values_allowed}

-- A rule, None, or the KeyError of `action_patch`.
pub data Match : Type 0 where
  matched : Rule → Match
  unmatched : Match
  raised : Match

-- all(same_value(task.get(field), value) for field, value in expected.items())
abbrev pub holds_all : Task → Dict Value → Bool
holds_all task [] = true
holds_all task ((field, value) ∷ rest) = same_value (get task field) value && holds_all task rest

-- rule.get("to") and task.get("status") == rule["to"]
unfoldable pub has_reached : Option String → Value → Bool
has_reached none status = false
has_reached (some String.[]) status = false
has_reached (some (String.◌∷◌ c s)) status = value_is status (String.◌∷◌ c s)

-- The tests of the first loop that come before the patch.
unfoldable pub may_have_applied : Assignment → Definition → Task → Dict Value → Rule → Bool
may_have_applied a d task payload rule =
    has_reached rule.to (get task "status")
    && rule_actor_allowed a d rule (some task)
    && subset (keys payload) rule.writable_fields
    && rule_values_allowed rule payload

unfoldable pub match_reached : Assignment → Definition → Task → Dict Value → List Rule → Match
match_reached a d task payload [] = unmatched
match_reached a d task payload (rule ∷ rules) =
    let rest = match_reached a d task payload rules in
    let compared : Match = elim (action_patch a rule payload) [
      | none ↦ raised
      | some expected ↦ if holds_all task expected then matched rule else rest
    ] in
    if may_have_applied a d task payload rule then compared else rest

-- The second loop, for rules that change no state.
unfoldable pub match_unmoved : Assignment → Definition → Task → Dict Value → List Rule → Match
match_unmoved a d task payload [] = unmatched
match_unmoved a d task payload (rule ∷ rules) =
    let rest = match_unmoved a d task payload rules in
    if rule_actor_allowed a d rule (some task)
      && subset (keys payload) rule.writable_fields
      && holds_all task payload
    then matched rule
    else rest

unfoldable pub matching_applied_rule :
    Assignment → Definition → List Rule → Task → Dict Value → Match
matching_applied_rule a d rules task payload = elim (match_reached a d task payload rules) [
  | matched rule ↦ matched rule
  | raised ↦ raised
  | unmatched ↦
      if not (is_empty rules) && all (λ (r : Rule). not (is_some r.to)) rules
      then match_unmoved a d task payload rules
      else unmatched
]
