-- ===== src/Examples/Stopping.antt =====
-- The coordinator stops an execution, as workflows/general-task/workflow.json allows.
use team_flow.Prelude.{◌≡◌, refl, String, true, some, [], ◌∷◌, Dict, lookup}
use team_flow.Prelude
use team_flow.Workflow.Value.{Value, text, blank}
use team_flow.Workflow.Definition.{RuntimeAction, Definition, Task}
use team_flow.Workflow.Contract.{
  action_to_tool, in_scope, actor_matches, actors_allowed, runtime_action_actor_allowed,
}
use team_flow.Workflow.RuntimeAction.{
  allowed, missing_inputs, missing_task_fields, check_fields, check_action, prepare_runtime_action,
}
use team_flow.Workflow.RuntimeAction.Allows.{Allows, prepare_runtime_action-iff_Allows}
use team_flow.Examples.General.{general, owner}

abbrev stop : RuntimeAction
stop = record {
  actors = "coordinator" ∷ [];
  roles = [];
  states = "in_progress" ∷ [];
  required_inputs = "reason" ∷ [];
  required_task_fields = "agent_id" ∷ [];
  confirmation_required = true;
  produces = "execution_stopped" ∷ [];
}

abbrev stoppable : Definition
stoppable = record general { runtime_actions = ("stop_execution", stop) ∷ [] }

abbrev running_card : Task
running_card = ("status", text "in_progress") ∷ ("agent_id", text "a-1") ∷ []

abbrev reason : Dict Value
reason = ("reason", text "It loops") ∷ []

stop_allowed :
    prepare_runtime_action owner stoppable "stop_execution" running_card reason true
    ≡ allowed (lookup action_to_tool "stop_execution") ("execution_stopped" ∷ [])
unfolding prepare_runtime_action check_action check_fields missing_inputs missing_task_fields
    runtime_action_actor_allowed actors_allowed in_scope actor_matches blank Prelude.is_blank
stop_allowed = refl

prepare_runtime_action-iff_Allows_example :
    Allows owner stoppable "stop_execution" running_card reason true ("execution_stopped" ∷ [])
prepare_runtime_action-iff_Allows_example =
    (prepare_runtime_action-iff_Allows owner stoppable "stop_execution" running_card reason true
        ("execution_stopped" ∷ [])).0
      stop_allowed
