-- ===== src/Workflow/Responses.antt =====
-- core/workflow_responses.py: what a refused and what a successful action answers. The message text
-- is left out, with what only the message reads; `details` keeps the data.
use team_flow.Prelude.{
  String, Bool, true, false, not, Option, none, some, List, [], ◌∷◌, ◌++◌, filter, if◌then◌else◌,
  Dict, lookup, keys, sorted_set,
}
use team_flow.Workflow.Value.{Value, null, get, same_value}
use team_flow.Workflow.Definition.{Rule, Definition, Assignment, Task}
use team_flow.Workflow.Contract.{
  AvailableAction, action_to_tool, rule_option, available_task_actions,
}
use team_flow.Delivery.Gate.{Gate}

pub data Category : Type 0 where
  permission validation business_rule conflict : Category

pub data ErrorCode : Type 0 where
  permission_denied invalid_fields missing_fields invalid_value task_not_ready precondition_failed
        confirmation_required invalid_option invalid_state unsupported_action task_changed
        write_not_visible delivery_incomplete fields_required invalid_delivery
        invalid_delivery_mode :
      ErrorCode

-- `changed` are fields with the expected and the current state; `given` repeats the input.
pub data Details : Type 0 where
  names : Dict (List String) → Details
  rejected : Dict (Value × List String) → Details
  facts : Dict Value → Details
  changed : List String → Value → Value → Details
  incomplete : Gate → Details
  given : Details

pub record WorkflowError : Type 0 where
  pub category : Category
  pub code : ErrorCode
  pub retryable : Bool
  pub attempted_action : String
  pub attempted_option : Option String
  pub record_id : Value
  pub task_id : Value
  pub current_state : Value
  pub details : Details
  pub available_actions : List AvailableAction

-- task.get(field) if task else None
unfoldable pub task_field : Option Task → String → Value
task_field none field = null
task_field (some task) field = get task field

unfoldable pub offered_to : Assignment → Definition → Option Task → List AvailableAction
offered_to a d none = []
offered_to a d (some []) = []
offered_to a d (some (field ∷ task)) = available_task_actions a d (field ∷ task)

unfoldable pub workflow_error :
    Assignment
    → Definition
    → String
    → Option String
    → Option Task
    → Category
    → ErrorCode
    → Details
    → WorkflowError
workflow_error a d action_key variant task category code details = record {
  category = category;
  code = code;
  retryable = false;
  attempted_action = action_key;
  attempted_option = variant;
  record_id = task_field task "record_id";
  task_id = task_field task "task_id";
  current_state = task_field task "status";
  details = details;
  available_actions = offered_to a d task;
}

unfoldable pub input_error : Assignment → Definition → String → ErrorCode → Details → WorkflowError
input_error a d action_key code details =
    workflow_error a d action_key none none validation code details

-- {field for field in set(expected) | set(current) if not same_value(…)}
unfoldable pub changed_fields : Task → Task → List String
changed_fields expected current =
    filter (λ f. not (same_value (get expected f) (get current f))) (keys expected ++ keys current)

unfoldable pub task_changed_error :
    Assignment → Definition → String → Option String → Task → Task → WorkflowError
task_changed_error a d action_key variant expected current =
    record (workflow_error a d action_key variant (some current) conflict task_changed (
      changed (sorted_set (changed_fields expected current)) (get expected "status")
        (get current "status"))) { retryable = true }

unfoldable pub pending_fields : Dict Value → Task → List String
pending_fields [] current = []
pending_fields ((field, value) ∷ patch) current =
    let rest = pending_fields patch current in
    if same_value (get current field) value then rest else field ∷ rest

unfoldable pub write_not_visible_error :
    Assignment → Definition → String → Option String → Dict Value → Task → WorkflowError
write_not_visible_error a d action_key variant patch current =
    record (workflow_error a d action_key variant (some current) conflict write_not_visible (
      changed (sorted_set (pending_fields patch current)) (get patch "status")
        (get current "status"))) { retryable = true }

unfoldable pub delivery_incomplete_error :
    Assignment → Definition → String → Option String → Task → Gate → WorkflowError
delivery_incomplete_error a d action_key variant task blocked =
    record (workflow_error a d action_key variant (some task) business_rule delivery_incomplete
      (incomplete blocked)) { retryable = true }

-- `tool` is `none` where the source raises a KeyError; `before` is None for a task that is created.
pub record Success : Type 0 where
  pub action : String
  pub tool : Option String
  pub option : Option String
  pub already_applied : Bool
  pub from_state : Value
  pub to_state : Value
  pub task : Task
  pub available_actions : List AvailableAction

unfoldable pub action_success :
    Assignment → Definition → String → Rule → Option Task → Task → Bool → Success
action_success a d action_key rule before task already_applied = record {
  action = action_key;
  tool = lookup action_to_tool action_key;
  option = rule_option action_key rule;
  already_applied = already_applied;
  from_state = task_field before "status";
  to_state = get task "status";
  task = task;
  available_actions = available_task_actions a d task;
}
