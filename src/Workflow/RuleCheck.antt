-- ===== src/Workflow/RuleCheck.antt =====
-- core/workflow_validation.py, `_validate_action_rule` and `_field_list`: the conditions that a
-- rule of a definition has to meet before it is ever used. The tests of JSON types are the types
-- of `Rule`; a fault stands for the ValueError.
pub mod Protected
use team_flow.Prelude.{
  String, Bool, true, false, not, ◌&&◌, ◌||◌, Option, none, some, List, [], ◌∷◌, ◌==◌, elem, all,
  any, is_empty, is_blank, is_some, filter, map, if◌then◌else◌, Dict, lookup, keys,
}
use team_flow.Workflow.Value.{Value, text, value_in}
use team_flow.Workflow.Definition.{Rule, priorities}
use team_flow.Workflow.Rules.{delivery_managed_fields}

abbrev pub task_field_keys : List String
task_field_keys =
    "title" ∷ "task_id" ∷ "status" ∷ "type" ∷ "priority" ∷ "role" ∷ "agent" ∷ "agent_id"
    ∷ "description" ∷ "context" ∷ "acceptance_criteria" ∷ "dependencies" ∷ "progress"
    ∷ "next_action" ∷ "result_evidence" ∷ "blocked_reason" ∷ "waiting_on" ∷ "delivery_mode"
    ∷ "target_branch" ∷ "base_sha" ∷ "candidate_sha" ∷ "verified_sha" ∷ "promoted_sha"
    ∷ "delivery_resources" ∷ []

-- field in DIRECTLY_WRITABLE_FIELDS
abbrev pub directly_writable : String → Bool
directly_writable field =
    elem field task_field_keys
    && not (elem field ("task_id" ∷ "status" ∷ "agent" ∷ "agent_id" ∷ []))
    && not (elem field delivery_managed_fields)

-- field in CLEARABLE_FIELDS
abbrev pub clearable : String → Bool
clearable field =
    elem field task_field_keys
    && not (elem field ("task_id" ∷ "status" ∷ "title" ∷ []))
    && not (elem field delivery_managed_fields)

abbrev pub workflow_actors : List String
workflow_actors = "coordinator" ∷ "task_role" ∷ "assigned_agent" ∷ []

abbrev pub workflow_guards : List String
workflow_guards = "executor_unavailable" ∷ "execution_stopped" ∷ []

-- action_key in WORKFLOW_GUARD_ACTIONS[guard]
abbrev pub guard_supported : String → String → Bool
guard_supported action_key guard =
    guard == "executor_unavailable" && action_key == "route"
    || guard == "execution_stopped" && elem action_key ("route" ∷ "cancel" ∷ [])

-- ACTOR_FIELD_BINDINGS.get(field) == source
abbrev pub actor_binding : String → String → Bool
actor_binding field source =
    field == "agent" && source == "agent_name" || field == "agent_id" && source == "agent_id"

-- len(set(xs)) != len(xs)
pub repeats : List String → Bool
repeats [] = false
repeats (x ∷ xs) = elem x xs || repeats xs

pub data RuleFault : Type 0 where
  actors roles from_states leaves_terminal create_initial update_moves transition field_list
        writable_protected input_not_writable clear_protected default_unknown default_protected
        prefixes actor_field option_value field_value guard guard_unsupported :
      RuleFault

-- The keys of the definition that a rule's values have to be among.
pub record Vocabulary : Type 0 where
  pub states : List String
  pub roles : List String
  pub task_types : List String
  pub waiting_targets : List String
  pub initial_state : String
  pub terminal_states : List String

pub option_values : Vocabulary → Dict (List String)
option_values v =
    ("status", v.states)
    ∷ ("role", v.roles)
    ∷ ("type", v.task_types)
    ∷ ("priority", priorities)
    ∷ ("waiting_on", v.waiting_targets)
    ∷ []

-- `_field_list`: an unknown or repeated field
pub bad_fields : List String → Bool
unfolding repeats
bad_fields fields = any (λ f. not (elem f task_field_keys)) fields || repeats fields

pub bad_subset : List String → List String → Bool
unfolding repeats
bad_subset xs known = any (λ x. not (elem x known)) xs || repeats xs

-- any(field in option_values and value not in option_values[field] for field, value in mapping)
pub bad_options : Dict (List String) → Dict Value → Bool
bad_options options [] = false
bad_options options ((field, value) ∷ mapping) =
    elim (lookup options field) [ none ↦ false | some allowed ↦ not (value_in value allowed) ]
    || bad_options options mapping

pub bad_prefixes : Rule → Dict String → Bool
bad_prefixes rule [] = false
bad_prefixes rule ((field, prefix) ∷ rest) =
    not (elem field rule.writable_fields) || is_blank prefix || bad_prefixes rule rest

pub bad_bindings : Dict String → Bool
bad_bindings [] = false
bad_bindings ((field, source) ∷ rest) = not (actor_binding field source) || bad_bindings rest

pub bad_values : Dict (List String) → Rule → Dict (List String) → Bool
bad_values options rule [] = false
bad_values options rule ((field, values) ∷ rest) =
    not (elem field rule.writable_fields)
    || is_empty values
    || any (λ v. v == "") values
    || elim (lookup options field) [
      | none ↦ false
      | some allowed ↦ any (λ v. not (elem v allowed)) values
    ]
    || bad_values options rule rest

-- rule.get("to") in states
abbrev pub target_in : Option String → List String → Bool
target_in none states = false
target_in (some to) states = elem to states

-- What is wrong with the states of a rule, by the action that it belongs to.
pub transition_fault : Vocabulary → String → Rule → Option RuleFault
transition_fault v action_key rule =
    if action_key == "create"
    then if not (is_empty rule.from_states) || not (target_in rule.to (v.initial_state ∷ []))
      then some create_initial
      else none
    else if action_key == "update"
    then if is_empty rule.from_states || is_some rule.to then some update_moves else none
    else if is_empty rule.from_states || not (target_in rule.to v.states)
    then some transition
    else none

pub mapping_fault : Rule → Option RuleFault
unfolding bad_prefixes bad_bindings
mapping_fault rule =
    if any (λ f. not (elem f task_field_keys)) (keys rule.defaults)
    then some default_unknown
    else if any (λ f. not (directly_writable f)) (keys rule.defaults)
    then some default_protected
    else if any (λ f. not (elem f task_field_keys)) (keys rule.fixed_fields)
    then some default_unknown
    else if any (λ f. not (directly_writable f)) (keys rule.fixed_fields)
    then some default_protected
    else if bad_prefixes rule rule.field_prefixes
    then some prefixes
    else if bad_bindings rule.actor_fields
    then some actor_field
    else none

pub field_fault : Rule → Option RuleFault
unfolding bad_fields
field_fault rule =
    if bad_fields rule.writable_fields
    then some field_list
    else if any (λ f. not (directly_writable f)) rule.writable_fields
    then some writable_protected
    else if bad_fields rule.required_inputs
    then some field_list
    else if any (λ f. not (elem f rule.writable_fields)) rule.required_inputs
    then some input_not_writable
    else if bad_fields rule.required_task_fields
    then some field_list
    else if bad_fields rule.clear_fields
    then some field_list
    else if any (λ f. not (clearable f)) rule.clear_fields
    then some clear_protected
    else none

pub value_fault : Vocabulary → String → Rule → Option RuleFault
unfolding option_values bad_options bad_values bad_subset
value_fault v action_key rule =
    if bad_options (option_values v) rule.defaults
    then some option_value
    else if bad_options (option_values v) rule.fixed_fields
    then some option_value
    else if bad_values (option_values v) rule rule.field_values
    then some field_value
    else if bad_subset rule.guards workflow_guards
    then some guard
    else if any (λ g. not (guard_supported action_key g)) rule.guards
    then some guard_unsupported
    else none

pub shape_fault : Vocabulary → Rule → Option RuleFault
unfolding bad_subset
shape_fault v rule =
    if is_empty rule.actors || bad_subset rule.actors workflow_actors
    then some actors
    else if bad_subset rule.roles v.roles
    then some roles
    else if bad_subset rule.from_states v.states
    then some from_states
    else if any (λ s. elem s v.terminal_states) rule.from_states
    then some leaves_terminal
    else none

-- The first fault, if there is one.
infixr 25 ◌orelse◌
abbrev pub ◌orelse◌ : Option RuleFault → Option RuleFault → Option RuleFault
none orelse later = later
some fault orelse later = some fault

unfoldable pub validate_action_rule : Vocabulary → String → Rule → Option RuleFault
unfolding shape_fault transition_fault field_fault mapping_fault value_fault
validate_action_rule v action_key rule =
    shape_fault v rule
    orelse transition_fault v action_key rule
    orelse field_fault rule
    orelse mapping_fault rule
    orelse value_fault v action_key rule
