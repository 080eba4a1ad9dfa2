-- ===== src/Workflow/RuntimeAction.antt =====
-- core/workflow_runtime.py, `prepare_runtime_action`: whether an agent may stop an execution. The
-- answer's `tool` is `none` where the source raises a KeyError.
pub mod Allows
use team_flow.Prelude.{
  String, Bool, true, false, not, ◌&&◌, Option, none, some, List, [], ◌∷◌, elem, is_empty, filter,
  if◌then◌else◌, Dict, lookup,
}
use team_flow.Workflow.Value.{Value, get, value_in, blank}
use team_flow.Workflow.Definition.{RuntimeAction, Definition, Assignment, Task}
use team_flow.Workflow.Contract.{action_to_tool, runtime_action_actor_allowed}
use team_flow.Workflow.Responses.{
  WorkflowError, workflow_error, Category, ErrorCode, Details, names, permission, validation,
  business_rule, permission_denied, missing_fields, task_not_ready, confirmation_required,
  invalid_state, unsupported_action,
}

pub data RuntimePrepared : Type 0 where
  refused : WorkflowError → RuntimePrepared
  allowed : Option String → List String → RuntimePrepared

module _ (a : Assignment) (d : Definition) (action_key : String) (task : Task)
    (payload : Dict Value) where
  unfoldable pub refuse : Category → ErrorCode → Details → RuntimePrepared
  refuse category code details =
      refused (workflow_error a d action_key none (some task) category code details)

  unfoldable pub missing_inputs : RuntimeAction → List String
  missing_inputs action = filter (λ f. blank (get payload f)) action.required_inputs

  unfoldable pub missing_task_fields : RuntimeAction → List String
  missing_task_fields action = filter (λ f. blank (get task f)) action.required_task_fields

  unfoldable pub check_fields : RuntimeAction → RuntimePrepared
  check_fields action =
      if not (is_empty (missing_inputs action))
      then refuse validation missing_fields (names (("missing_fields", missing_inputs action) ∷ []))
      else if not (is_empty (missing_task_fields action))
      then refuse business_rule task_not_ready
          (names (("missing_task_fields", missing_task_fields action) ∷ []))
      else allowed (lookup action_to_tool action_key) action.produces

  unfoldable pub check_action : Bool → RuntimeAction → RuntimePrepared
  check_action confirmed action =
      if action.confirmation_required && not confirmed
      then refuse business_rule confirmation_required (names (("required", "confirmed" ∷ []) ∷ []))
      else if not (value_in (get task "status") action.states)
      then refuse business_rule invalid_state (names (("allowed_states", action.states) ∷ []))
      else if not (runtime_action_actor_allowed a d action task)
      then refuse permission permission_denied (names [])
      else check_fields action

  unfoldable pub prepare_runtime_action : Bool → RuntimePrepared
  prepare_runtime_action confirmed = elim (lookup d.runtime_actions action_key) [
    | none ↦ refuse validation unsupported_action (names [])
    | some action ↦ check_action confirmed action
  ]
