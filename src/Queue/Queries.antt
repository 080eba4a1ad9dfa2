-- ===== src/Queue/Queries.antt =====
-- core/task_delivery_store.py, the queries: what is due for reconciliation, which card a turn is about,
-- and whether a turn may still go on.
use team_flow.Prelude.{
  ℕ, String, Bool, true, false, not, ◌&&◌, ◌||◌, Option, none, some, List, [], ◌∷◌, ◌==◌, any,
  filter, is_some, leb, text_lt, sorted_set, if◌then◌else◌, find?, map, order_by,
}
use team_flow.Workflow.Definition.{Definition, Task}
use team_flow.Queue.Tables.{is_processing, Delivery, TaskEvent, Agent, Store, text_is, nonempty}
use team_flow.Queue.Dispatch.{dispatch_states, current_dispatch, is_current_of, same_card, loaded}
use team_flow.Queue.Execution.{text_of, has_id, event_of, active_delivery_execution_in}
use team_flow.Queue.Finish.{Answer, answered, raised}
use team_flow.Queue.Claim.{is_due, agent_of}
use team_flow.Queue.Recover.{time_lt}
use team_flow.Queue.Turns.{is_turn_row, first_row, mark_task_delivery_turn_started}

-- A row with what the query joins to it.
pub record Processing : Type 0 where
  pub delivery : Delivery
  pub event : TaskEvent
  pub task : Task
  pub agent : Option Agent

-- COALESCE(state.snapshot_json, event.after_json)
abbrev pub task_of : Store → TaskEvent → Task
task_of store event = elim (find? (same_card event) store.states) [
  | none ↦ loaded event.after
  | some row ↦ row.snapshot
]

unfoldable pub processing_rows : Store → List Delivery → List Processing
processing_rows store [] = []
processing_rows store (d ∷ ds) =
    let rest = processing_rows store ds in
    elim (event_of store d) [
      | none ↦ rest
      | some event ↦
          record {
            delivery = d;
            event = event;
            task = task_of store event;
            agent = agent_of store d;
          }
          ∷ rest
    ]

abbrev pub started_before : Processing → Processing → Bool
started_before a b =
    let x = a.delivery in
    let y = b.delivery in
    time_lt x.started_at y.started_at
    || not (time_lt y.started_at x.started_at)
      && (text_lt x.event_key y.event_key
          || x.event_key == y.event_key && not (text_lt y.agent_id x.agent_id))

abbrev pub is_reconcilable : ℕ → Delivery → Bool
is_reconcilable timestamp d =
    is_processing d.status
    && (is_some d.turn_id || is_some d.client_message_id)
    && is_due timestamp d.next_attempt_at

unfoldable pub due_processing_task_deliveries : ℕ → Store → List Processing
unfolding processing_rows order_by text_lt
due_processing_task_deliveries timestamp store =
    order_by started_before
      (processing_rows store (filter (is_reconcilable timestamp) store.deliveries))

unfoldable pub processing_task_delivery : ℕ → Store → Option Processing
unfolding processing_rows
processing_task_delivery delivery_id store = first_row (
    processing_rows store
      (filter (λ (d : Delivery). has_id delivery_id d && is_processing d.status) store.deliveries))

-- A set, here in order and without the empty text.
unfoldable pub processing_task_delivery_sessions : Store → List String
unfolding sorted_set
processing_task_delivery_sessions store = sorted_set (
    filter (λ s. not (s == ""))
      (map (λ (d : Delivery). d.session_id)
        (filter (λ (d : Delivery). is_processing d.status) store.deliveries)))

-- The delivery has the turn, or had it before.
abbrev pub has_turn : Store → String → Delivery → Bool
has_turn store turn_id d = text_is d.turn_id turn_id || any (is_turn_row d.id turn_id) store.turns

-- ORDER BY started_at DESC, id DESC
abbrev pub started_later : Delivery → Delivery → Bool
started_later a b =
    time_lt b.started_at a.started_at || not (time_lt a.started_at b.started_at) && leb b.id a.id

abbrev pub session_is : Option String → Delivery → Bool
session_is none d = true
session_is (some session_id) d = d.session_id == session_id

unfoldable pub task_delivery_for_turn_in : Store → String → String → Option String → Option Delivery
unfolding order_by
task_delivery_for_turn_in store turn_id agent_id session_id = first_row (
    order_by started_later (
      filter
        (λ (d : Delivery).
          has_turn store turn_id d
          && d.agent_id == agent_id
          && session_is session_id d
          && is_some (event_of store d))
        store.deliveries))

unfoldable pub task_delivery_record_id : Store → String → String → Option String
unfolding task_delivery_for_turn_in
task_delivery_record_id store turn_id agent_id =
    elim (task_delivery_for_turn_in store turn_id agent_id none) [
      | none ↦ none
      | some d ↦ elim (event_of store d) [ none ↦ none | some event ↦ some event.record_id ]
    ]

module _ (definition : Definition) where
  unfoldable pub task_delivery_has_active_execution : Store → ℕ → Option String → Bool
  unfolding active_delivery_execution_in
  task_delivery_has_active_execution store delivery_id turn_id =
      is_some (active_delivery_execution_in definition store delivery_id turn_id)

  unfoldable pub event_is_current : Store → Option TaskEvent → Bool
  unfolding dispatch_states current_dispatch
  event_is_current store none = false
  event_is_current store (some event) =
      is_current_of event (current_dispatch store event (dispatch_states definition))

  unfoldable pub task_delivery_is_current : Store → ℕ → Bool
  unfolding event_is_current
  task_delivery_is_current store delivery_id = elim (find? (has_id delivery_id) store.deliveries) [
    | none ↦ false
    | some d ↦ event_is_current store (event_of store d)
  ]

  -- `task_delivery_turn_is_current` for a delivery that the turn is known of. `none` is None, also
  -- where there is no such delivery.
  unfoldable pub turn_is_current : Store → String → Option Delivery → Option Bool
  unfolding task_delivery_has_active_execution task_delivery_is_current
  turn_is_current store turn_id none = none
  turn_is_current store turn_id (some d) =
      if not (text_of d.turn_id == turn_id)
      then some false
      else if task_delivery_has_active_execution store d.id (some turn_id)
      then some true
      else some (is_processing d.status && task_delivery_is_current store d.id)

  -- The delivery that stands in the client's queue for the session.
  abbrev pub is_queued_in : String → String → Delivery → Bool
  is_queued_in agent_id session_id d =
      is_processing d.status
      && (text_is d.turn_status "queueing" || text_is d.turn_status "queued")
      && d.agent_id == agent_id
      && d.session_id == session_id
      && is_some d.client_message_id

  unfoldable pub queued_delivery : Store → String → String → Option Delivery
  unfolding order_by
  queued_delivery store agent_id session_id =
      first_row
        (order_by started_later (filter (is_queued_in agent_id session_id) store.deliveries))

  abbrev pub message_text : Delivery → String
  message_text d = elim d.client_message_id [ none ↦ "" | some m ↦ m ]

  abbrev pub after_start : Store → Answer → Store
  after_start store (answered b next) = next
  after_start store raised = store

  module _ (timestamp clock soon : ℕ) (turn_id agent_id : String) where
    -- The queued delivery's turn has started: the client's message is that of the turn.
    unfoldable pub start_queued : Store → Delivery → Store
    unfolding task_delivery_has_active_execution mark_task_delivery_turn_started
    start_queued store d =
        let previous = nonempty d.turn_id in
        let rebind = is_some previous && task_delivery_has_active_execution store d.id previous in
        after_start store (
          mark_task_delivery_turn_started timestamp clock soon d.id turn_id
            (if rebind then previous else none) rebind store)

    abbrev pub queued_is_current : Store → Delivery → Bool
    queued_is_current store d =
        task_delivery_is_current store d.id
        || is_some (nonempty d.turn_id)
          && task_delivery_has_active_execution store d.id (nonempty d.turn_id)

    -- `turn_of` is turn_id_for_client_message.
    unfoldable pub queued_turn_is_current :
        (String → String → Option String) → String → Store → Option Delivery → Store × Option Bool
    unfolding start_queued turn_is_current task_delivery_for_turn_in
    queued_turn_is_current turn_of session_id store none = (store, none)
    queued_turn_is_current turn_of session_id store (some d) =
        if not (queued_is_current store d)
        then (store, some false)
        else if not (text_is (turn_of session_id (message_text d)) turn_id)
        then (store, none)
        else (let next = start_queued store d in
            (
              next,
              turn_is_current next turn_id
                  (task_delivery_for_turn_in next turn_id agent_id (some session_id)),
            ))

    abbrev pub look_in_queue :
        Option String → Option (String → String → Option String) → Store → Store × Option Bool
    look_in_queue session_id turn_of store = elim (nonempty session_id) [
      | none ↦ (store, none)
      | some session ↦ elim turn_of [
        | none ↦ (store, none)
        | some f ↦ queued_turn_is_current f session store (queued_delivery store agent_id session)
      ]
    ]

    unfoldable pub task_delivery_turn_is_current :
        Option String → Option (String → String → Option String) → Store → Store × Option Bool
    unfolding queued_delivery queued_turn_is_current turn_is_current task_delivery_for_turn_in
    task_delivery_turn_is_current session_id turn_of store =
        let found = task_delivery_for_turn_in store turn_id agent_id session_id in
        elim found [
          | none ↦ look_in_queue session_id turn_of store
          | some d ↦ (store, turn_is_current store turn_id (some d))
        ]
