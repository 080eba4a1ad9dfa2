-- ===== src/Queue/Tables.antt =====
-- core/migrations/017 to 024: the tables that the queue of deliveries stands on, as lists of rows in
-- the order of their rowids. A column that may be NULL is an Option; JSON columns hold the objects
-- that they encode. Times are seconds. Prompts, `last_error`, `stop_reason` and `routing_note`, which
-- are prose, are left out.
use team_flow.Prelude.{ℕ, String, Bool, true, false, Option, none, some, List, ◌==◌, if◌then◌else◌}
use team_flow.Workflow.Definition.{Task}

pub data Status : Type 0 where
  pending retry processing waiting_permission waiting_session completed failed canceled : Status

abbrev pub is_processing : Status → Bool
is_processing processing = true
is_processing _ = false

-- status IN ('pending', 'retry')
abbrev pub is_open : Status → Bool
is_open pending = true
is_open retry = true
is_open _ = false

-- status = ?
abbrev pub status_eq : Status → Status → Bool
status_eq pending pending = true
status_eq retry retry = true
status_eq processing processing = true
status_eq waiting_permission waiting_permission = true
status_eq waiting_session waiting_session = true
status_eq completed completed = true
status_eq failed failed = true
status_eq canceled canceled = true
status_eq _ _ = false

pub record Delivery : Type 0 where
  pub id : ℕ
  pub event_key : String
  pub agent_id : String
  pub assignment_revision : ℕ
  pub harness_type : String
  pub session_id : String
  pub status : Status
  pub attempts : ℕ
  pub turn_id : Option String
  pub turn_status : Option String
  pub client_message_id : Option String
  pub next_attempt_at : Option ℕ
  pub created_at : ℕ
  pub started_at : Option ℕ
  pub completed_at : Option ℕ
  pub delivered_at : Option ℕ

pub record DeliveryTurn : Type 0 where
  pub delivery_id : ℕ
  pub turn_id : String
  pub created_at : ℕ
  pub acknowledged_at : Option ℕ

-- `is_active` is state = 'active', and otherwise it is 'stopped'.
pub record Execution : Type 0 where
  pub record_id : String
  pub agent_id : String
  pub session_id : String
  pub turn_id : Option String
  pub is_active : Bool
  pub stop_status : Option String
  pub stopped_by_agent_id : Option String
  pub updated_at : ℕ
  pub stopped_at : Option ℕ

pub record TaskEvent : Type 0 where
  pub event_key : String
  pub board_id : String
  pub workflow_id : String
  pub table_id : String
  pub record_id : String
  pub source_event_id : Option String
  pub event_type : String
  pub before : Option Task
  pub after : Option Task
  pub routing_status : String
  pub routed_at : Option ℕ
  pub created_at : ℕ

pub record TaskState : Type 0 where
  pub board_id : String
  pub table_id : String
  pub record_id : String
  pub status : Option String
  pub snapshot : Task
  pub updated_at : ℕ

pub record Agent : Type 0 where
  pub id : String
  pub workspace_id : String
  pub workflow_id : String
  pub role_key : String
  pub assignment_revision : ℕ
  pub harness_type : String
  pub session_id : String
  pub created_at : ℕ

pub record Store : Type 0 where
  pub deliveries : List Delivery
  pub turns : List DeliveryTurn
  pub executions : List Execution
  pub events : List TaskEvent
  pub states : List TaskState
  pub agents : List Agent

-- column = ?
abbrev pub text_is : Option String → String → Bool
text_is none s = false
text_is (some t) s = t == s

-- x or None, for a text that may be NULL
abbrev pub nonempty : Option String → Option String
nonempty none = none
nonempty (some s) = if s == "" then none else some s
