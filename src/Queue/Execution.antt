-- ===== src/Queue/Execution.antt =====
-- core/task_delivery_execution.py: the execution of a card that a delivery has started, which a later
-- turn may continue.
use team_flow.Prelude.{
  ℕ, String, Bool, true, false, ◌&&◌, ◌||◌, Option, none, some, List, [], ◌==◌, elem, leb, nat_beq,
  if◌then◌else◌, lookup, find?, update_rows, rowcount,
}
use team_flow.Workflow.Value.{get}
use team_flow.Workflow.Repr.{as_text}
use team_flow.Workflow.Definition.{Definition, Task}
use team_flow.Queue.Tables.{Delivery, Execution, TaskEvent, TaskState, Store, text_is, nonempty}
use team_flow.Queue.Dispatch.{same_card}

abbrev pub has_id : ℕ → Delivery → Bool
has_id id d = nat_beq d.id id

-- The event of a delivery, by its primary key.
abbrev pub event_of : Store → Delivery → Option TaskEvent
event_of store d = find? (λ (e : TaskEvent). e.event_key == d.event_key) store.events

abbrev pub execution_of : Store → TaskEvent → Option Execution
execution_of store event =
    find? (λ (x : Execution). x.record_id == event.record_id) store.executions

pub record Continuation : Type 0 where
  pub record_id : String
  pub agent_id : String
  pub session_id : String
  pub turn_id : String
  pub task : Task

-- The states that stop_execution applies to.
abbrev pub execution_states : Definition → List String
execution_states definition = elim (lookup definition.runtime_actions "stop_execution") [
  | none ↦ []
  | some a ↦ a.states
]

abbrev pub status_in : Option String → List String → Bool
status_in none xs = false
status_in (some s) xs = elem s xs

-- snapshot_confirms_execution or snapshot_predates_execution
unfoldable pub snapshot_allows : Definition → Delivery → Execution → Option TaskState → Bool
unfolding as_text
snapshot_allows definition d x none = true
snapshot_allows definition d x (some row) =
    let agent_id = as_text (get row.snapshot "agent_id") in
    status_in row.status (execution_states definition) && (agent_id == "" || agent_id == d.agent_id)
    || leb row.updated_at x.updated_at

abbrev pub snapshot_of : Option TaskState → Task
snapshot_of none = []
snapshot_of (some row) = row.snapshot

-- The execution is that of the delivery's agent and session, in the turn that is expected.
abbrev pub execution_fits : Delivery → Option String → Execution → Bool
execution_fits d expected x = elim (nonempty expected) [
  | none ↦ false
  | some turn ↦
      x.is_active
      && x.agent_id == d.agent_id
      && x.session_id == d.session_id
      && text_is x.turn_id turn
]

-- turn_id if turn_id is not None else row["delivery_turn_id"]
abbrev pub expected_turn : Delivery → Option String → Option String
expected_turn d none = d.turn_id
expected_turn d (some turn) = some turn

abbrev pub text_of : Option String → String
text_of none = ""
text_of (some s) = s

unfoldable pub continuation_of :
    Definition → Store → Option String → Delivery → TaskEvent → Execution → Option Continuation
unfolding snapshot_allows
continuation_of definition store turn_id d event x =
    let row = find? (same_card event) store.states in
    if execution_fits d (expected_turn d turn_id) x && snapshot_allows definition d x row
    then some (record {
      record_id = event.record_id;
      agent_id = x.agent_id;
      session_id = x.session_id;
      turn_id = text_of x.turn_id;
      task = snapshot_of row;
    })
    else none

unfoldable pub active_delivery_execution_in :
    Definition → Store → ℕ → Option String → Option Continuation
unfolding continuation_of
active_delivery_execution_in definition store delivery_id turn_id =
    elim (find? (has_id delivery_id) store.deliveries) [
      | none ↦ none
      | some d ↦ elim (event_of store d) [
        | none ↦ none
        | some event ↦ elim (execution_of store event) [
          | none ↦ none
          | some x ↦ continuation_of definition store turn_id d event x
        ]
      ]
    ]

-- WHERE record_id = ? AND agent_id = ? AND session_id = ? AND turn_id = ? AND state = 'active'
abbrev pub is_execution_of : Delivery → TaskEvent → String → Execution → Bool
is_execution_of d event turn_id x =
    x.record_id == event.record_id
    && x.agent_id == d.agent_id
    && x.session_id == d.session_id
    && text_is x.turn_id turn_id
    && x.is_active

-- The executions and the rowcount; `none` where the delivery or its event is gone.
unfoldable pub update_execution : Store → ℕ → String → (Execution → Execution) → Option (Store × ℕ)
update_execution store delivery_id turn_id f = elim (find? (has_id delivery_id) store.deliveries) [
  | none ↦ none
  | some d ↦ elim (event_of store d) [
    | none ↦ none
    | some event ↦
        let q = is_execution_of d event turn_id in
        some (
          record store { executions = update_rows q f store.executions },
          rowcount q store.executions,
        )
  ]
]

-- `none` is a ValueError.
unfoldable pub rebind_active_delivery_execution : Store → ℕ → String → String → ℕ → Option Store
unfolding update_execution
rebind_active_delivery_execution store delivery_id previous_turn_id turn_id timestamp =
    elim (update_execution store delivery_id previous_turn_id
      (λ (x : Execution). record x { turn_id = some turn_id; updated_at = timestamp })) [
        | none ↦ none
        | some (next, n) ↦ if nat_beq n 1 then some next else none
      ]

abbrev pub stopped : ℕ → Execution → Execution
stopped timestamp x = record x {
  is_active = false;
  stop_status = some "continuation_exhausted";
  updated_at = timestamp;
  stopped_at = some timestamp;
}

unfoldable pub stop_active_delivery_execution : Store → ℕ → String → ℕ → Store × Bool
unfolding update_execution
stop_active_delivery_execution store delivery_id turn_id timestamp =
    elim (update_execution store delivery_id turn_id (stopped timestamp)) [
      | none ↦ (store, false)
      | some (next, n) ↦ (next, nat_beq n 1)
    ]
