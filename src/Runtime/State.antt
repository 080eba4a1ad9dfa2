-- ===== src/Runtime/State.antt =====
-- core/tool_runtime.py: the state of `ToolRuntime`, and what it calls and does not decide. `S` is the
-- state of all that, `A` a call's arguments, `R` what a result says besides. Calls that take
-- the same lock follow one another, and the locks are left out; `stop_task_execution` has a lock of its
-- own, so that such a call can overlap one that changes a card, which is left out too. Times are milliseconds.
use team_flow.Prelude.{
  ℕ, String, Bool, true, not, ◌&&◌, Option, none, some, List, [], ◌∷◌, ◌==◌, elem, filter,
  if◌then◌else◌, Dict,
}
use team_flow.Workflow.Definition.{Assignment, Task}

abbrev pub mutating_tool_names : List String
mutating_tool_names =
    "create_task" ∷ "update_task" ∷ "route_task" ∷ "claim_task" ∷ "submit_task" ∷ "block_task"
    ∷ "review_task" ∷ "cancel_task" ∷ []

abbrev pub runtime_tool_names : List String
runtime_tool_names = "stop_task_execution" ∷ []

abbrev pub read_only_tool_names : List String
read_only_tool_names = "get_assignment" ∷ "list_tasks" ∷ "list_available_tasks" ∷ "get_task" ∷ []

abbrev pub handoff_tool_names : List String
handoff_tool_names =
    "route_task" ∷ "submit_task" ∷ "block_task" ∷ "review_task" ∷ "cancel_task" ∷ []

abbrev pub is_tool : String → Bool
is_tool name =
    if elem name read_only_tool_names
    then true
    else if elem name mutating_tool_names
    then true
    else elem name runtime_tool_names

-- `turn_id` is "" for None.
pub record Grant : Type 0 where
  pub invocation_id : String
  pub session_id : String
  pub turn_id : String
  pub tool_name : String
  pub input_hash : String
  pub assignment : Assignment
  pub expires_at : ℕ

-- `task` is nothing where it is no object, and `turn_control` the action of that object.
pub record ToolResult (R : Type 0) : Type 0 where
  pub ok : Bool
  pub task : Option Task
  pub turn_control : Option String
  pub content : R

pub record Cached (R : Type 0) : Type 0 where
  pub session_id : String
  pub tool_name : String
  pub input_hash : String
  pub result : ToolResult R
  pub expires_at : ℕ

pub record ClosedTurn : Type 0 where
  pub session_id : String
  pub turn_id : String
  pub expires_at : ℕ

pub record ToolRuntime (R : Type 0) : Type 0 where
  pub grants : Dict Grant
  pub results : Dict (Cached R)
  pub closed_turns : List ClosedTurn

abbrev pub is_turn : String → String → ClosedTurn → Bool
is_turn session_id turn_id t = t.session_id == session_id && t.turn_id == turn_id

-- self.closed_turns.get((session_id, turn_id))
unfoldable pub closed_until : String → String → List ClosedTurn → Option ℕ
closed_until session_id turn_id [] = none
closed_until session_id turn_id (t ∷ turns) =
    if is_turn session_id turn_id t
    then some t.expires_at
    else closed_until session_id turn_id turns

-- self.closed_turns[(session_id, turn_id)] = expires_at
unfoldable pub close_turn : String → String → ℕ → List ClosedTurn → List ClosedTurn
close_turn session_id turn_id expires_at turns =
    record { session_id = session_id; turn_id = turn_id; expires_at = expires_at }
    ∷ filter (λ t. not (is_turn session_id turn_id t)) turns

-- What the runtime is built on. `none` stands for what is missing, and for an exception where the
-- call is one that may raise; a `false` is an exception of a call that answers nothing.
pub record Host (S A R : Type 0) : Type 0 where
  pub monotonic : S → ℕ
  pub token_urlsafe : S → String × S
  pub tool_input_hash : A → String
  pub assignment_context : String → Option String → S → Option Assignment
  pub workspace_active : String → S → Bool
  pub workspace_enabled : String → S → Bool
  pub find_agent_assignment : String → String → S → Option Assignment
  pub invoke_tool : Assignment → String → A → String → S → Option (ToolResult R) × S
  pub sync_task_activity :
      Assignment → String → ToolResult R → String → Option String → S → Bool × S
  pub delivery_record_id : Assignment → String → S → Option String
  pub acknowledge_delivery : String → String → String → String → S → Bool × S

-- The ValueErrors; their prose is left out.
pub data Fault : Type 0 where
  invocation_id_required unsupported_tool unregistered_session turn_closed authorization_expired
        other_invocation other_tool arguments_changed other_call workspace_disabled
        assignment_changed :
      Fault
