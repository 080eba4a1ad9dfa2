-- ===== src/Queue/Turns.antt =====
-- core/task_delivery_store.py, the turns of a delivery: `mark_task_delivery_turn_started`, the marks
-- of the client's queue, and `acknowledge_task_delivery_turn`.
use team_flow.Prelude.{
  ℕ, String, Bool, true, false, ◌&&◌, ◌||◌, Option, none, some, List, [], ◌∷◌, ◌++◌, ◌==◌, any,
  filter, is_some, length, nat_beq, ltb, if◌then◌else◌, find?, update_rows, rowcount, order_by,
}
use team_flow.Workflow.Value.{options_eq}
use team_flow.Queue.Tables.{is_processing, Delivery, DeliveryTurn, TaskEvent, Store, text_is}
use team_flow.Queue.Execution.{has_id, rebind_active_delivery_execution}
use team_flow.Queue.Finish.{Answer, answered, raised, update_deliveries}

-- (? IS NULL OR turn_id = ?)
abbrev pub follows : Option String → Delivery → Bool
follows none d = true
follows (some turn) d = text_is d.turn_id turn

abbrev pub may_start : ℕ → Option String → Delivery → Bool
may_start delivery_id previous_turn_id d =
    has_id delivery_id d && is_processing d.status && follows previous_turn_id d

abbrev pub started : String → ℕ → ℕ → Delivery → Delivery
started turn_id timestamp soon d = record d {
  turn_id = some turn_id;
  turn_status = some "inProgress";
  started_at = some timestamp;
  next_attempt_at = some soon;
}

abbrev pub is_turn_row : ℕ → String → DeliveryTurn → Bool
is_turn_row delivery_id turn_id t = nat_beq t.delivery_id delivery_id && t.turn_id == turn_id

-- INSERT OR IGNORE, with PRIMARY KEY (delivery_id, turn_id)
abbrev pub add_turn : ℕ → String → ℕ → List DeliveryTurn → List DeliveryTurn
add_turn delivery_id turn_id timestamp turns =
    if any (is_turn_row delivery_id turn_id) turns
    then turns
    else turns
      ++ record {
        delivery_id = delivery_id;
        turn_id = turn_id;
        created_at = timestamp;
        acknowledged_at = none;
      }
        ∷ []

-- The execution first, where it has to be bound to the new turn; `none` is a ValueError. `clock` is
-- the `now()` of the rebinding.
unfoldable pub rebound : ℕ → ℕ → String → Option String → Bool → Store → Option Store
unfolding rebind_active_delivery_execution
rebound clock delivery_id turn_id previous_turn_id require_execution_rebind store =
    if require_execution_rebind
    then elim previous_turn_id [
      | none ↦ none
      | some turn ↦
          if turn == ""
          then none
          else rebind_active_delivery_execution store delivery_id turn turn_id clock
    ]
    else some store

unfoldable pub start_turn : ℕ → ℕ → ℕ → String → Option String → Store → Answer
start_turn timestamp soon delivery_id turn_id previous_turn_id store =
    let p = may_start delivery_id previous_turn_id in
    let next = update_deliveries p (started turn_id timestamp soon) store in
    if nat_beq (rowcount p store.deliveries) 1
    then answered true (record next { turns = add_turn delivery_id turn_id timestamp next.turns })
    else raised

unfoldable pub mark_task_delivery_turn_started :
    ℕ → ℕ → ℕ → ℕ → String → Option String → Bool → Store → Answer
unfolding rebound start_turn
mark_task_delivery_turn_started timestamp clock soon delivery_id turn_id previous_turn_id
      require_execution_rebind store =
    elim (rebound clock delivery_id turn_id previous_turn_id require_execution_rebind store) [
      | none ↦ raised
      | some next ↦ start_turn timestamp soon delivery_id turn_id previous_turn_id next
    ]

-- (? IS NULL AND turn_id IS NULL) OR (? IS NOT NULL AND turn_id = ?)
abbrev pub at_turn : Option String → Delivery → Bool
at_turn none d = options_eq d.turn_id none
at_turn (some turn) d = text_is d.turn_id turn

abbrev pub may_queue : ℕ → Option String → Delivery → Bool
may_queue delivery_id previous_turn_id d =
    has_id delivery_id d && is_processing d.status && at_turn previous_turn_id d

unfoldable pub mark_task_delivery_queue_state : ℕ → ℕ → String → Option String → Store → Answer
mark_task_delivery_queue_state soon delivery_id turn_status previous_turn_id store =
    let p = may_queue delivery_id previous_turn_id in
    if nat_beq (rowcount p store.deliveries) 1
    then answered true (
        update_deliveries p
          (λ (d : Delivery). record d {
            turn_status = some turn_status;
            next_attempt_at = some soon;
          })
          store)
    else raised

unfoldable pub mark_task_delivery_queueing : ℕ → ℕ → Option String → Store → Answer
unfolding mark_task_delivery_queue_state
mark_task_delivery_queueing soon delivery_id previous_turn_id store =
    mark_task_delivery_queue_state soon delivery_id "queueing" previous_turn_id store

unfoldable pub mark_task_delivery_queued : ℕ → ℕ → Option String → Store → Answer
unfolding mark_task_delivery_queue_state
mark_task_delivery_queued soon delivery_id previous_turn_id store =
    mark_task_delivery_queue_state soon delivery_id "queued" previous_turn_id store

unfoldable pub clear_task_delivery_queueing : ℕ → Option String → Store → Store
clear_task_delivery_queueing delivery_id previous_turn_id store =
    update_deliveries
      (λ (d : Delivery).
        may_queue delivery_id previous_turn_id d && text_is d.turn_status "queueing")
      (λ (d : Delivery). record d { turn_status = none }) store

unfoldable pub task_delivery_turn_count : ℕ → Store → ℕ
task_delivery_turn_count delivery_id store =
    length (filter (λ (t : DeliveryTurn). nat_beq t.delivery_id delivery_id) store.turns)

-- The delivery that the turn is of: the one with the greatest id, of those that the query finds.
abbrev pub in_turn : Store → String → String → String → Delivery → Bool
in_turn store turn_id agent_id record_id d =
    is_processing d.status
    && text_is d.turn_id turn_id
    && d.agent_id == agent_id
    && any (λ (e : TaskEvent). e.event_key == d.event_key && e.record_id == record_id) store.events

abbrev pub later_id : Delivery → Delivery → Bool
later_id a b = ltb b.id a.id

abbrev pub first_row {ℓ} : {A : Type ℓ} → List A → Option A
first_row [] = none
first_row (x ∷ xs) = some x

-- COALESCE(acknowledged_at, ?)
abbrev pub acknowledge_row : ℕ → DeliveryTurn → DeliveryTurn
acknowledge_row timestamp t = elim t.acknowledged_at [
  | none ↦ record t { acknowledged_at = some timestamp }
  | some at ↦ t
]

unfoldable pub acknowledge_found : ℕ → String → Option Delivery → Store → Store × Bool
acknowledge_found timestamp turn_id none store = (store, false)
acknowledge_found timestamp turn_id (some d) store =
    let p = is_turn_row d.id turn_id in
    (
      record store { turns = update_rows p (acknowledge_row timestamp) store.turns },
      nat_beq (rowcount p store.turns) 1,
    )

unfoldable pub acknowledge_task_delivery_turn : ℕ → String → String → String → Store → Store × Bool
unfolding acknowledge_found order_by
acknowledge_task_delivery_turn timestamp turn_id agent_id record_id store =
    if turn_id == "" || agent_id == "" || record_id == ""
    then (store, false)
    else acknowledge_found timestamp turn_id
        (first_row
          (order_by later_id (filter (in_turn store turn_id agent_id record_id) store.deliveries)))
        store

unfoldable pub task_delivery_turn_acknowledged : ℕ → String → Store → Bool
task_delivery_turn_acknowledged delivery_id turn_id store =
    if turn_id == "" then false else elim (find? (is_turn_row delivery_id turn_id) store.turns) [
      | none ↦ false
      | some t ↦ is_some t.acknowledged_at
    ]
