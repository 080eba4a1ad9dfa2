-- ===== src/Queue/Dispatch.antt =====
-- core/task_routing.py: which events of a card call for an agent, whether an event still does, and
-- the role that it calls for. `load_workflow` gives the `definition`.
use Prim.Native.String.{◌++◌ as append}
use team_flow.Prelude.{
  ℕ, String, Bool, false, not, ◌&&◌, ◌||◌, Option, none, some, List, [], ◌∷◌, ◌++◌, ◌==◌, any, suc,
  ltb, nat_beq, if◌then◌else◌, Dict, lookup, put, find?, find_last?, update_rows,
}
use team_flow.Workflow.Value.{null, text, get, value_is, value_eq}
use team_flow.Workflow.Repr.{as_text}
use team_flow.Workflow.Definition.{State, Definition, Task}
use team_flow.Queue.Tables.{Delivery, pending, TaskEvent, TaskState, Agent, Store, nonempty}

-- The first state of that key.
unfoldable pub task_dispatch_target : Definition → Task → Option String
unfolding as_text
task_dispatch_target definition task =
    elim (find? (λ (s : State). value_is (get task "status") s.key) definition.lifecycle.states) [
      | none ↦ none
      | some s ↦
          if s.dispatch == "none"
          then none
          else if s.dispatch == "task_role"
          then nonempty (some (as_text (get task "role")))
          else some definition.coordinator_role
    ]

-- `none` is the key None.
unfoldable pub target_role : Definition → Option String → Task → Option String
unfolding task_dispatch_target
target_role definition none task = task_dispatch_target definition (put task "status" null)
target_role definition (some key) task =
    task_dispatch_target definition (put task "status" (text key))

unfoldable pub entered : String → String
entered key = append key "_entered"

unfoldable pub updated_event : String → String
updated_event key = append key "_updated"

unfoldable pub collect_actionable : Dict String → List State → Dict String
unfolding entered
collect_actionable d [] = d
collect_actionable d (s ∷ states) =
    collect_actionable (if s.dispatch == "none" then d else put d s.key (entered s.key)) states

unfoldable pub actionable_states : Definition → Dict String
unfolding collect_actionable
actionable_states definition = collect_actionable [] definition.lifecycle.states

unfoldable pub collect_dispatch : Dict State → List State → Dict State
collect_dispatch d [] = d
collect_dispatch d (s ∷ states) =
    collect_dispatch (if s.dispatch == "none" then d else put d s.key s) states

unfoldable pub dispatch_states : Definition → Dict State
unfolding collect_dispatch
dispatch_states definition = collect_dispatch [] definition.lifecycle.states

-- A JSON column that is NULL reads as {}.
abbrev pub loaded : Option Task → Task
loaded none = []
loaded (some task) = task

abbrev pub role_changed : TaskEvent → Bool
role_changed event =
    not (value_eq (get (loaded event.before) "role") (get (loaded event.after) "role"))

unfoldable pub dispatch_event_state : Dict State → TaskEvent → Option State
unfolding entered updated_event value_eq
dispatch_event_state [] event = none
dispatch_event_state ((key, s) ∷ states) event =
    if event.event_type == entered key
    then some s
    else if not (event.event_type == updated_event key) || not (s.dispatch == "task_role")
    then dispatch_event_state states event
    else if role_changed event
    then some s
    else dispatch_event_state states event

abbrev pub same_card : TaskEvent → TaskState → Bool
same_card event s =
    s.board_id == event.board_id && s.table_id == event.table_id && s.record_id == event.record_id

abbrev pub same_record : TaskEvent → TaskEvent → Bool
same_record event e =
    e.board_id == event.board_id && e.table_id == event.table_id && e.record_id == event.record_id

-- The dict that `current_dispatch` answers with.
pub record Current : Type 0 where
  pub state : State
  pub event : TaskEvent
  pub task : Task

abbrev pub event_state_is : Dict State → String → TaskEvent → Bool
event_state_is states key candidate = elim (dispatch_event_state states candidate) [
  | none ↦ false
  | some s ↦ s.key == key
]

-- What the query for the candidates and the search among them ask of an event.
unfoldable pub triggers : Dict State → State → TaskEvent → TaskEvent → Bool
unfolding dispatch_event_state entered updated_event
triggers states s event candidate =
    same_record event candidate
    && (candidate.event_type == entered s.key || candidate.event_type == updated_event s.key)
    && event_state_is states s.key candidate

-- The newest trigger, for the state that the card is in.
unfoldable pub current_in : Store → TaskEvent → Dict State → TaskState → State → Option Current
unfolding triggers
current_in store event states row s = elim (find_last? (triggers states s event) store.events) [
  | none ↦ none
  | some trigger ↦ some (record { state = s; event = trigger; task = row.snapshot })
]

unfoldable pub current_dispatch : Store → TaskEvent → Dict State → Option Current
unfolding current_in
current_dispatch store event states = elim (find? (same_card event) store.states) [
  | none ↦ none
  | some row ↦ elim row.status [
    | none ↦ none
    | some key ↦ elim (lookup states key) [
      | none ↦ none
      | some s ↦ current_in store event states row s
    ]
  ]
]

-- Its answer is the event itself.
abbrev pub is_current_of : TaskEvent → Option Current → Bool
is_current_of event none = false
is_current_of event (some current) = current.event.event_key == event.event_key

unfoldable pub finish_routing : Store → String → String → ℕ → Store
finish_routing store event_key status timestamp = record store {
  events =
      update_rows (λ (e : TaskEvent). e.event_key == event_key)
        (λ (e : TaskEvent). record e { routing_status = status; routed_at = some timestamp })
        store.events;
}

unfoldable pub current_task_status : Store → TaskEvent → Option String
current_task_status store event = elim (find? (same_card event) store.states) [
  | none ↦ none
  | some row ↦ nonempty row.status
]

-- UNIQUE (event_key, agent_id, assignment_revision)
abbrev pub is_delivery_of : TaskEvent → Agent → Delivery → Bool
is_delivery_of event agent d =
    d.event_key == event.event_key
    && d.agent_id == agent.id
    && nat_beq d.assignment_revision agent.assignment_revision

-- AUTOINCREMENT: a new row takes an id above all that were given, here above all in the table.
abbrev pub next_id : List Delivery → ℕ
next_id [] = 1
next_id (d ∷ ds) = let n = next_id ds in if ltb d.id n then n else suc d.id

abbrev pub new_delivery : Store → TaskEvent → Agent → ℕ → Delivery
new_delivery store event agent timestamp = record {
  id = next_id store.deliveries;
  event_key = event.event_key;
  agent_id = agent.id;
  assignment_revision = agent.assignment_revision;
  harness_type = agent.harness_type;
  session_id = agent.session_id;
  status = pending;
  attempts = 0;
  turn_id = none;
  turn_status = none;
  client_message_id = none;
  next_attempt_at = none;
  created_at = timestamp;
  started_at = none;
  completed_at = none;
  delivered_at = none;
}

-- INSERT OR IGNORE, with its rowcount
unfoldable pub insert_delivery : Store → TaskEvent → Agent → ℕ → Store × ℕ
insert_delivery store event agent timestamp =
    if any (is_delivery_of event agent) store.deliveries then (store, 0) else (
      record store {
        deliveries = store.deliveries ++ new_delivery store event agent timestamp ∷ [];
      },
      1,
    )
