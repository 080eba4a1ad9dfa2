-- ===== src/Workflow/Lifecycle.antt =====
-- core/workflow_lifecycle.py: what an action does to a card, decided before anything is written.
pub mod Codes
pub mod Offers
pub mod Permits
pub mod Retry
use team_flow.Prelude.{
  String, Bool, true, false, not, ◌&&◌, Option, none, some, List, [], ◌∷◌, ◌++◌, ◌==◌, elem, subset,
  is_empty, is_some, filter, find?, if◌then◌else◌, Dict, lookup, put, keys, sorted_set,
}
use team_flow.Workflow.Value.{Value, null, text, list, object, get, value_in, value_is, truthy}
use team_flow.Workflow.Definition.{Rule, Action, TaskType, Definition, Assignment, Task}
use team_flow.Workflow.Contract.{rule_actor_allowed}
use team_flow.Workflow.Responses.{
  WorkflowError, workflow_error, names, facts, permission, validation, business_rule,
  permission_denied, invalid_fields, invalid_value, confirmation_required, invalid_option,
  invalid_state,
}
use team_flow.Workflow.Rules.{
  accepted, refused, key_error, rule_values_allowed, action_patch, merged_allowed_values,
  validate_rule,
}
use team_flow.Workflow.Matching.{matched, unmatched, raised, matching_applied_rule}

-- An error to answer with; the rule, the patch and `already_applied`; or a KeyError.
pub data Prepared : Type 0 where
  failed : WorkflowError → Prepared
  prepared : Rule → Dict Value → Bool → Prepared
  raises : Prepared

-- provided_fields
unfoldable pub provided_fields : Dict Value → Dict Value
provided_fields [] = []
provided_fields ((key, value) ∷ fields) =
    let rest = provided_fields fields in
    elim value [
      | null ↦ rest
      | text s ↦ if s == "" then rest else (key, text s) ∷ rest
      | list xs ↦ (key, list xs) ∷ rest
      | object o ↦ (key, object o) ∷ rest
    ]

-- The patch of a rule that has been chosen, once it is validated.
unfoldable pub prepare_rule :
    Assignment → Definition → String → Rule → Option Task → Dict Value → List String → Prepared
prepare_rule a d action_key rule task payload runtime_facts =
    elim (validate_rule a d action_key rule task payload runtime_facts) [
      | refused e ↦ failed e
      | key_error ↦ raises
      | accepted ↦ elim (action_patch a rule payload) [
        | none ↦ raises
        | some patch ↦ prepared rule patch false
      ]
    ]

-- The role that the task's type stands for, where none is given.
unfoldable pub with_default_role : Definition → Dict Value → Dict Value
with_default_role d payload =
    if not (truthy (get payload "role")) && truthy (get payload "type")
    then elim (find? (λ (t : TaskType). value_is (get payload "type") t.key) d.task_types) [
      | none ↦ payload
      | some t ↦ put payload "role" (text t.default_role)
    ]
    else payload

abbrev pub first_rule : Option Action → Option Rule
first_rule none = none
first_rule (some action) = elim action.rules [ [] ↦ none | rule ∷ rules ↦ some rule ]

unfoldable pub prepare_create_action : Assignment → Definition → Dict Value → Prepared
prepare_create_action a d payload =
    let filled = with_default_role d (provided_fields payload) in
    elim (first_rule (lookup d.lifecycle.actions "create")) [
      | none ↦ raises
      | some rule ↦ prepare_rule a d "create" rule none filled []
    ]

abbrev pub from_status : Task → Rule → Bool
from_status task rule = value_in (get task "status") rule.from_states

-- {state for rule in rules for state in rule.get("from", [])}
unfoldable pub all_sources : List Rule → List String
all_sources [] = []
all_sources (rule ∷ rules) = rule.from_states ++ all_sources rules

unfoldable pub all_writable : List Rule → List String
all_writable [] = []
all_writable (rule ∷ rules) = rule.writable_fields ++ all_writable rules

unfoldable pub rule_keys : List Rule → List String
rule_keys [] = []
rule_keys (rule ∷ rules) = rule.key ∷ rule_keys rules

-- The rules that `variant` selects.
abbrev pub variant_rules : Option String → List Rule → List Rule
variant_rules none rules = rules
variant_rules (some variant) rules = filter (λ (r : Rule). r.key == variant) rules

abbrev pub confirmation_missing : Action → Bool → Bool
confirmation_missing action confirmed = action.confirmation_required && not confirmed

module _ (a : Assignment) (d : Definition) (action_key : String) (task : Task)
    (payload : Dict Value) (variant : Option String) (runtime_facts : List String) where
  -- Of the rules whose values fit, the first is validated and applied.
  unfoldable pub choose_rule : List Rule → List Rule → Prepared
  choose_rule writable_rules [] = failed (
      workflow_error a d action_key variant (some task) validation invalid_value
        (names (merged_allowed_values writable_rules)))
  choose_rule writable_rules (rule ∷ rules) =
      prepare_rule a d action_key rule (some task) payload runtime_facts

  unfoldable pub choose_writable : List Rule → Prepared
  choose_writable actor_rules =
      let writable_rules =
        filter (λ (r : Rule). subset (keys payload) r.writable_fields) actor_rules in
      let allowed_fields = sorted_set (all_writable actor_rules) in
      if is_empty writable_rules
      then failed (
          workflow_error a d action_key variant (some task) validation invalid_fields (
            names (
              (
                "invalid_fields",
                sorted_set (filter (λ f. not (elem f allowed_fields)) (keys payload)),
              )
              ∷ ("allowed_fields", allowed_fields)
              ∷ [])))
      else choose_rule writable_rules
          (filter (λ (r : Rule). rule_values_allowed r payload) writable_rules)

  unfoldable pub choose_actor : List Rule → Prepared
  choose_actor source_rules =
      let actor_rules = filter (λ (r : Rule). rule_actor_allowed a d r (some task)) source_rules in
      if is_empty actor_rules
      then failed (
          workflow_error a d action_key variant (some task) permission permission_denied (
            facts (
              ("agent_role", text a.role_key)
              ∷ ("task_role", get task "role")
              ∷ ("task_agent_id", get task "agent_id")
              ∷ [])))
      else choose_writable actor_rules

  unfoldable pub choose_source : List Rule → Prepared
  choose_source rules =
      let source_rules = filter (from_status task) rules in
      if is_empty source_rules
      then failed (
          workflow_error a d action_key variant (some task) business_rule invalid_state
            (names (("allowed_from", sorted_set (all_sources rules)) ∷ [])))
      else choose_actor source_rules

  unfoldable pub choose : List Rule → Prepared
  choose rules = elim (matching_applied_rule a d rules task payload) [
    | matched rule ↦ prepared rule [] true
    | raised ↦ raises
    | unmatched ↦ choose_source rules
  ]

  -- `variant` names no rule of the action.
  unfoldable pub no_such_variant : List Rule → WorkflowError
  no_such_variant rules =
      workflow_error a d action_key variant (some task) validation invalid_option (
        names (
          (
            "allowed_options",
            rule_keys (
                filter (λ (r : Rule). from_status task r && rule_actor_allowed a d r (some task))
                  rules),
          )
          ∷ []))

  unfoldable pub prepare_action : Bool → Action → Prepared
  prepare_action confirmed action =
      let rules = variant_rules variant action.rules in
      if confirmation_missing action confirmed
      then failed (
          workflow_error a d action_key variant (some task) business_rule confirmation_required
            (names (("required", "confirmed" ∷ []) ∷ [])))
      else if is_some variant && is_empty rules
      then failed (no_such_variant action.rules)
      else choose rules

  unfoldable pub prepare_existing_action : Bool → Prepared
  prepare_existing_action confirmed = elim (lookup d.lifecycle.actions action_key) [
    | none ↦ raises
    | some action ↦ prepare_action confirmed action
  ]
