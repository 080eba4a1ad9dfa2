-- ===== src/Workflow/Contract.antt =====
-- core/workflow_contract.py: who may use a rule, what fields a transition asks for, and the
-- actions that a card offers to an agent. The display names are left out of the answers.
pub mod Raises
use team_flow.Prelude.{
  String, Bool, not, ◌&&◌, ◌||◌, Option, none, some, List, [], ◌∷◌, ◌++◌, map, ◌==◌, elem, is_empty,
  any, find?, filter, if◌then◌else◌, Dict, lookup,
}
use mathlib.Core.Option
use team_flow.Workflow.Value.{Value, null, text, get, value_is}
use team_flow.Workflow.Repr.{as_text}
use team_flow.Workflow.Definition.{
  State, Rule, Action, RuntimeAction, Definition, Assignment, Task, task_option_definitions,
}

abbrev pub action_to_tool : Dict String
action_to_tool =
    ("create", "create_task")
    ∷ ("update", "update_task")
    ∷ ("route", "route_task")
    ∷ ("claim", "claim_task")
    ∷ ("submit", "submit_task")
    ∷ ("block", "block_task")
    ∷ ("review", "review_task")
    ∷ ("cancel", "cancel_task")
    ∷ ("stop_execution", "stop_task_execution")
    ∷ []

abbrev pub variant_actions : List String
variant_actions = "submit" ∷ "review" ∷ []

-- bool(rule.get("roles")) and assignment["role_key"] not in rule["roles"], negated
unfoldable pub in_scope : Assignment → List String → Bool
in_scope a roles = is_empty roles || elem a.role_key roles

-- One round of the loop in `rule_actor_allowed`.
unfoldable pub actor_matches : Assignment → Definition → Option Task → String → Bool
actor_matches a d none actor = actor == "coordinator" && a.role_key == d.coordinator_role
actor_matches a d (some task) actor =
    actor == "coordinator" && a.role_key == d.coordinator_role
    || actor == "task_role" && value_is (get task "role") a.role_key
    || actor == "assigned_agent" && value_is (get task "agent_id") a.agent_id

-- `rule_actor_allowed`, for the `actors` and `roles` of a rule or a runtime action.
unfoldable pub actors_allowed :
    Assignment → Definition → List String → List String → Option Task → Bool
actors_allowed a d actors roles task = in_scope a roles && any (actor_matches a d task) actors

unfoldable pub rule_actor_allowed : Assignment → Definition → Rule → Option Task → Bool
rule_actor_allowed a d rule task = actors_allowed a d rule.actors rule.roles task

unfoldable pub runtime_action_actor_allowed : Assignment → Definition → RuntimeAction → Task → Bool
runtime_action_actor_allowed a d action task =
    in_scope a action.roles && actors_allowed a d action.actors action.roles (some task)

unfoldable pub role_matches : Assignment → Definition → String → Bool
role_matches a d actor =
    elem actor ("task_role" ∷ "assigned_agent" ∷ [])
    || actor == "coordinator" && a.role_key == d.coordinator_role

unfoldable pub rule_role_applicable : Assignment → Definition → Rule → Bool
rule_role_applicable a d rule = in_scope a rule.roles && any (role_matches a d) rule.actors

unfoldable pub runtime_action_role_applicable : Assignment → Definition → RuntimeAction → Bool
runtime_action_role_applicable a d action =
    in_scope a action.roles && any (role_matches a d) action.actors

-- list(dict.fromkeys(xs)): the first of each
unfoldable pub dedupe : List String → List String
dedupe [] = []
dedupe (x ∷ xs) = x ∷ filter (λ y. not (y == x)) (dedupe xs)

-- rule.get("to") or status
abbrev pub state_key : Option String → Value → Value
state_key none status = status
state_key (some String.[]) status = status
state_key (some (String.◌∷◌ c s)) status = text (String.◌∷◌ c s)

abbrev pub find_state : Definition → Value → Option State
find_state d key = find? (λ (s : State). value_is key s.key) d.lifecycle.states

abbrev pub state_fields : Option State → List String
state_fields none = []
state_fields (some s) = s.required_fields

abbrev pub task_status : Option Task → Value
task_status none = null
task_status (some task) = get task "status"

unfoldable pub required_task_fields : Definition → Rule → Option Task → List String
required_task_fields d rule task = dedupe (
    rule.required_task_fields ++ state_fields (find_state d (state_key rule.to (task_status task))))

-- One field of the comprehension. The default `options[field]` of `explicit.get` is read first, so
-- a field that has values of its own and is no option column raises a KeyError: `none`.
unfoldable pub allowed_for :
    Dict (List String) → Dict (List String) → List String → Option (Dict (List String))
allowed_for explicit options [] = some []
allowed_for explicit options (field ∷ fields) =
    let rest = allowed_for explicit options fields in
    elim (lookup options field) [
      | some values ↦
          let chosen : List String = elim (lookup explicit field) [
            | some own ↦ own
            | none ↦ values
          ] in
          Option.map (λ (d : Dict (List String)). (field, chosen) ∷ d) rest
      | none ↦ elim (lookup explicit field) [ some own ↦ none | none ↦ rest ]
    ]

unfoldable pub rule_allowed_values : Definition → Rule → Option (Dict (List String))
rule_allowed_values d rule =
    allowed_for rule.field_values (task_option_definitions d) rule.writable_fields

-- `tool` and `allowed_values` are `none` where the source raises a KeyError.
pub record AvailableAction : Type 0 where
  pub action : String
  pub tool : Option String
  pub option : Option String
  pub to : Option String
  pub required_fields : List String
  pub required_task_fields : List String
  pub writable_fields : List String
  pub allowed_values : Option (Dict (List String))
  pub confirmation_required : Bool
  pub preconditions : List String
  pub runtime_facts : List String

unfoldable pub rule_option : String → Rule → Option String
rule_option action_key rule = if elem action_key variant_actions then some rule.key else none

unfoldable pub offer : Assignment → Definition → Task → String → Action → Rule → AvailableAction
offer a d task action_key action rule = record {
  action = action_key;
  tool = lookup action_to_tool action_key;
  option = rule_option action_key rule;
  to = rule.to;
  required_fields = rule.required_inputs;
  required_task_fields = required_task_fields d rule (some task);
  writable_fields = rule.writable_fields;
  allowed_values = rule_allowed_values d rule;
  confirmation_required = action.confirmation_required;
  preconditions = rule.guards;
  runtime_facts = [];
}

-- The two tests of the inner loop.
unfoldable pub is_offered : Assignment → Definition → Task → Rule → Bool
is_offered a d task rule =
    elem (as_text (get task "status")) rule.from_states && rule_actor_allowed a d rule (some task)

unfoldable pub rule_offers : Assignment → Definition → Task → Dict Action → List AvailableAction
rule_offers a d task [] = []
rule_offers a d task ((action_key, action) ∷ actions) =
    let rest = rule_offers a d task actions in
    if action_key == "create"
    then rest
    else map (offer a d task action_key action) (filter (is_offered a d task) action.rules) ++ rest

unfoldable pub runtime_offers :
    Assignment → Definition → Task → Dict RuntimeAction → List AvailableAction
runtime_offers a d task [] = []
runtime_offers a d task ((action_key, action) ∷ actions) =
    let rest = runtime_offers a d task actions in
    if elem (as_text (get task "status")) action.states
      && runtime_action_actor_allowed a d action task
    then record {
      action = action_key;
      tool = lookup action_to_tool action_key;
      option = none;
      to = none;
      required_fields = action.required_inputs;
      required_task_fields = action.required_task_fields;
      writable_fields = [];
      allowed_values = some [];
      confirmation_required = action.confirmation_required;
      preconditions = [];
      runtime_facts = action.produces;
    }
      ∷ rest
    else rest

unfoldable pub available_task_actions : Assignment → Definition → Task → List AvailableAction
available_task_actions a d task =
    rule_offers a d task d.lifecycle.actions ++ runtime_offers a d task d.runtime_actions
