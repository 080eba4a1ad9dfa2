-- ===== src/Workflow/Definition.antt =====
-- workflows/*/workflow.json as core/workflow.py loads it, after its shape has been checked:
-- display labels, colours and prose are left out, an absent list or object is empty, and `from`
-- is `from_states`. Also the `assignment` that core/agent_runtime.py hands to every tool, and the
-- option keys of `task_option_definitions`.
use team_flow.Prelude.{
  String, Bool, Option, none, some, List, [], ◌∷◌, map, ◌==◌, if◌then◌else◌, Dict,
}
use team_flow.Workflow.Value.{Value}

pub record State : Type 0 where
  pub key : String
  pub dispatch : String
  pub required_fields : List String

pub record Role : Type 0 where
  pub key : String
  pub allow_multiple : Bool

pub record TaskType : Type 0 where
  pub key : String
  pub default_role : String

pub record Rule : Type 0 where
  pub key : String
  pub actors : List String
  pub roles : List String
  pub from_states : List String
  pub to : Option String
  pub writable_fields : List String
  pub required_inputs : List String
  pub required_task_fields : List String
  pub defaults : Dict Value
  pub fixed_fields : Dict Value
  pub clear_fields : List String
  pub field_values : Dict (List String)
  pub field_prefixes : Dict String
  pub actor_fields : Dict String
  pub guards : List String

pub record Action : Type 0 where
  pub confirmation_required : Bool
  pub rules : List Rule

pub record RuntimeAction : Type 0 where
  pub actors : List String
  pub roles : List String
  pub states : List String
  pub required_inputs : List String
  pub required_task_fields : List String
  pub confirmation_required : Bool
  pub produces : List String

pub record Lifecycle : Type 0 where
  pub initial_state : String
  pub terminal_states : List String
  pub completion_states : List String
  pub states : List State
  pub actions : Dict Action

pub record Definition : Type 0 where
  pub key : String
  pub coordinator_role : String
  pub roles : List Role
  pub task_types : List TaskType
  pub waiting_targets : List String
  pub lifecycle : Lifecycle
  pub runtime_actions : Dict RuntimeAction

pub record Assignment : Type 0 where
  pub workspace_root : String
  pub workflow_key : String
  pub role_key : String
  pub agent_id : String
  pub agent_name : String

-- assignment[source]; `none` stands for the KeyError.
unfoldable pub assignment_get : Assignment → String → Option String
assignment_get a source =
    if source == "workspace_root"
    then some a.workspace_root
    else if source == "workflow_key"
    then some a.workflow_key
    else if source == "role_key"
    then some a.role_key
    else if source == "agent_id"
    then some a.agent_id
    else if source == "agent_name"
    then some a.agent_name
    else none

-- A card, by field key.
abbrev pub Task : Type 0
Task = Dict Value

abbrev pub priorities : List String
priorities = "P0" ∷ "P1" ∷ "P2" ∷ "P3" ∷ []

abbrev pub delivery_modes : List String
delivery_modes = "standard" ∷ "repository" ∷ []

-- The option keys of each select column.
unfoldable pub task_option_definitions : Definition → Dict (List String)
task_option_definitions d =
    ("status", map (λ (s : State). s.key) d.lifecycle.states)
    ∷ ("type", map (λ (t : TaskType). t.key) d.task_types)
    ∷ ("priority", priorities)
    ∷ ("role", map (λ (r : Role). r.key) d.roles)
    ∷ ("waiting_on", d.waiting_targets)
    ∷ ("delivery_mode", delivery_modes)
    ∷ []
