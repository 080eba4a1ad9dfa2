-- ===== src/Examples/General.antt =====
-- The data of the runs: the claim and the cancellation of workflows/general-task/workflow.json, an
-- executor's assignment and a card that is ready.
use team_flow.Prelude.{String, true, false, some, List, [], ◌∷◌, Dict}
use team_flow.Workflow.Value.{Value, null, text}
use team_flow.Workflow.Definition.{State, Rule, Action, Definition, Assignment, Task}

abbrev pub claim_rule : Rule
claim_rule = record {
  key = "claim";
  actors = "task_role" ∷ [];
  roles = [];
  from_states = "ready" ∷ [];
  to = some "in_progress";
  writable_fields = [];
  required_inputs = [];
  required_task_fields = "type" ∷ "priority" ∷ "role" ∷ [];
  defaults = [];
  fixed_fields = [];
  clear_fields = [];
  field_values = [];
  field_prefixes = [];
  actor_fields = ("agent", "agent_name") ∷ ("agent_id", "agent_id") ∷ [];
  guards = [];
}

abbrev pub cancel_rule : Rule
cancel_rule = record {
  key = "cancel";
  actors = "coordinator" ∷ [];
  roles = [];
  from_states = "ready" ∷ "in_progress" ∷ [];
  to = some "canceled";
  writable_fields = "result_evidence" ∷ [];
  required_inputs = "result_evidence" ∷ [];
  required_task_fields = "result_evidence" ∷ [];
  defaults = [];
  fixed_fields = [];
  clear_fields = "blocked_reason" ∷ "waiting_on" ∷ [];
  field_values = [];
  field_prefixes = [];
  actor_fields = [];
  guards = [];
}

abbrev pub actions : Dict Action
actions =
    ("claim", record { confirmation_required = false; rules = claim_rule ∷ [] })
    ∷ ("cancel", record { confirmation_required = true; rules = cancel_rule ∷ [] })
    ∷ []

abbrev state : String → List String → State
state key fields = record { key = key; dispatch = "none"; required_fields = fields }

abbrev pub general : Definition
general = record {
  key = "general-task";
  coordinator_role = "owner";
  roles =
      record { key = "owner"; allow_multiple = false }
      ∷ record { key = "executor"; allow_multiple = true }
      ∷ [];
  task_types = record { key = "task"; default_role = "executor" } ∷ [];
  waiting_targets = "owner" ∷ [];
  lifecycle = record {
    initial_state = "ready";
    terminal_states = "canceled" ∷ [];
    completion_states = "canceled" ∷ [];
    states =
        state "ready" ("title" ∷ [])
        ∷ state "in_progress" ("title" ∷ "agent_id" ∷ [])
        ∷ state "canceled" ("result_evidence" ∷ [])
        ∷ [];
    actions = actions;
  };
  runtime_actions = [];
}

abbrev pub executor : Assignment
executor = record {
  workspace_root = "/work";
  workflow_key = "general-task";
  role_key = "executor";
  agent_id = "a-1";
  agent_name = "Ada";
}

abbrev pub owner : Assignment
owner = record executor { role_key = "owner" }

abbrev pub ready_card : Task
ready_card =
    ("title", text "Write the notes")
    ∷ ("status", text "ready")
    ∷ ("type", text "task")
    ∷ ("priority", text "P1")
    ∷ ("role", text "executor")
    ∷ []

abbrev pub claim_patch : Dict Value
claim_patch = ("agent", text "Ada") ∷ ("agent_id", text "a-1") ∷ ("status", text "in_progress") ∷ []

abbrev pub cancel_payload : Dict Value
cancel_payload = ("result_evidence", text "No longer needed") ∷ []

abbrev pub cancel_patch : Dict Value
cancel_patch =
    ("result_evidence", text "No longer needed")
    ∷ ("blocked_reason", null)
    ∷ ("waiting_on", null)
    ∷ ("status", text "canceled")
    ∷ []
