-- ===== src/Queue/Claim.antt =====
-- core/task_delivery_store.py, `claim_task_deliveries`: the deliveries that are handed to sessions now.
-- The answer of `uuid4` for a row is a parameter.
pub mod Cases
pub mod Rows
pub mod Reasons
pub mod Handed
pub mod First
use team_flow.Prelude.{
  ℕ, suc, ◌+◌, ◌*◌, String, Bool, true, false, not, ◌&&◌, ◌||◌, Option, none, some, List, [], ◌∷◌,
  ◌++◌, ◌==◌, elem, map, filter, length, leb, ltb, nat_beq, text_lt, take, if◌then◌else◌, Dict,
  find?, update_rows, rowcount, order_by,
}
use team_flow.Workflow.Definition.{State, Definition, Task}
use team_flow.Queue.Tables.{
  Status, retry, processing, canceled, is_processing, is_open, status_eq, Delivery, TaskEvent,
  Agent, Store, nonempty,
}
use team_flow.Queue.Dispatch.{Current, target_role, dispatch_states, current_dispatch}
use team_flow.Queue.Execution.{Continuation, event_of, active_delivery_execution_in}

-- A row of the joined query. The board's state of the card, which it has besides, is not read.
pub record Candidate : Type 0 where
  pub delivery : Delivery
  pub event : TaskEvent
  pub agent : Agent

-- next_attempt_at IS NULL OR next_attempt_at <= ?
abbrev pub is_due : ℕ → Option ℕ → Bool
is_due timestamp none = true
is_due timestamp (some t) = leb t timestamp

abbrev pub is_ready : ℕ → Delivery → Bool
is_ready timestamp d = is_open d.status && is_due timestamp d.next_attempt_at

abbrev pub agent_of : Store → Delivery → Option Agent
agent_of store d = find? (λ (a : Agent). a.id == d.agent_id) store.agents

-- JOIN task_events, JOIN agents
unfoldable pub join_rows : Store → List Delivery → List Candidate
join_rows store [] = []
join_rows store (d ∷ ds) =
    let rest = join_rows store ds in
    elim (event_of store d) [
      | none ↦ rest
      | some event ↦ elim (agent_of store d) [
        | none ↦ rest
        | some agent ↦ record { delivery = d; event = event; agent = agent } ∷ rest
      ]
    ]

-- ORDER BY created_at, event_key, agent_id
abbrev pub comes_before : Candidate → Candidate → Bool
comes_before a b =
    ltb a.delivery.created_at b.delivery.created_at
    || nat_beq a.delivery.created_at b.delivery.created_at
      && (text_lt a.delivery.event_key b.delivery.event_key
          || a.delivery.event_key == b.delivery.event_key
            && not (text_lt b.delivery.agent_id a.delivery.agent_id))

-- LIMIT max(limit * 4, limit)
unfoldable pub candidates : ℕ → ℕ → Store → List Candidate
unfolding join_rows order_by text_lt
candidates timestamp limit store =
    take (limit * 4)
      (order_by comes_before (join_rows store (filter (is_ready timestamp) store.deliveries)))

-- What is handed out: the row with its new attempts and message, and what it carries on.
pub record Claimed : Type 0 where
  pub delivery : Delivery
  pub task : Task
  pub continuation_turn_id : Option String

pub record Claiming : Type 0 where
  pub deliveries : List Delivery
  pub reserved : List String
  pub claimed : List Claimed

pub data Verdict : Type 0 where
  cancels skips : Verdict
  claims : Task → Option String → Verdict

abbrev pub same_pair : Delivery → Delivery → Bool
same_pair d e = e.event_key == d.event_key && e.agent_id == d.agent_id

abbrev pub canceled_at : ℕ → Delivery → Delivery
canceled_at timestamp e = record e { status = canceled; completed_at = some timestamp }

abbrev pub role_is : Option String → String → Bool
role_is none key = false
role_is (some role) key = role == key

-- str(row["client_message_id"] or ""), or a new one
abbrev pub message_of : (Delivery → String) → Delivery → String
message_of uuid4 d = elim (nonempty d.client_message_id) [
  | none ↦ uuid4 d
  | some message ↦ elim d.turn_id [ none ↦ message | some turn ↦ uuid4 d ]
]

abbrev pub claimed_row : ℕ → String → Option String → Delivery → Delivery
claimed_row timestamp message continuation e = record e {
  status = processing;
  attempts = suc e.attempts;
  turn_id = elim continuation [ none ↦ none | some turn ↦ e.turn_id ];
  turn_status = none;
  next_attempt_at = none;
  started_at = some timestamp;
  completed_at = none;
  client_message_id = some message;
}

-- str(row["session_id"]) in reserved_sessions
abbrev pub unless_reserved : List String → Delivery → Verdict → Verdict
unless_reserved reserved d v = if elem d.session_id reserved then skips else v

-- Both statements name the row by its event and agent.
abbrev pub is_open_row : Delivery → Delivery → Bool
is_open_row d e = same_pair d e && is_open e.status

abbrev pub is_ready_row : ℕ → Delivery → Delivery → Bool
is_ready_row timestamp d e = same_pair d e && is_ready timestamp e

abbrev pub cancel_row : ℕ → Delivery → Claiming → Claiming
cancel_row timestamp d c = record c {
  deliveries = update_rows (is_open_row d) (canceled_at timestamp) c.deliveries;
}

abbrev pub claimed_item : (Delivery → String) → Delivery → Task → Option String → Claimed
claimed_item uuid4 d task continuation = record {
  delivery = record d { attempts = suc d.attempts; client_message_id = some (message_of uuid4 d) };
  task = task;
  continuation_turn_id = continuation;
}

-- The item counts as claimed where just one row was updated.
unfoldable pub take_row :
    (Delivery → String) → ℕ → Delivery → Task → Option String → Claiming → Claiming
take_row uuid4 timestamp d task continuation c =
    let p = is_ready_row timestamp d in
    let next = record c {
      deliveries =
          update_rows p (claimed_row timestamp (message_of uuid4 d) continuation) c.deliveries;
    } in
    if nat_beq (rowcount p c.deliveries) 1
    then record next {
      reserved = d.session_id ∷ c.reserved;
      claimed = c.claimed ++ claimed_item uuid4 d task continuation ∷ [];
    }
    else next

-- A claim is what makes the loop stop, at its limit.
abbrev pub is_full : ℕ → Claiming → Claiming → Bool
is_full limit c next =
    ltb (length c.claimed) (length next.claimed) && leb limit (length next.claimed)

-- The sessions that have a delivery in process are reserved, besides those that are excluded.
abbrev pub busy_sessions : Store → List String
busy_sessions store =
    map (λ (d : Delivery). d.session_id)
      (filter (λ (d : Delivery). is_processing d.status) store.deliveries)

abbrev pub first_claiming : Store → List String → Claiming
first_claiming store excluded = record {
  deliveries = store.deliveries;
  reserved = busy_sessions store ++ excluded;
  claimed = [];
}

module _ (definition : Definition) (store : Store) where
  -- The row carries on the turn of an active execution, which only a retry may.
  unfoldable pub continuation_in : List Delivery → Delivery → Option Continuation
  unfolding active_delivery_execution_in
  continuation_in deliveries d = elim (nonempty d.turn_id) [
    | none ↦ none
    | some turn ↦
        if status_eq d.status retry
        then active_delivery_execution_in definition (record store { deliveries = deliveries }) d.id
            (some turn)
        else none
  ]

  abbrev pub judge_current : List String → Candidate → Option Current → Verdict
  judge_current reserved row none = cancels
  judge_current reserved row (some current) =
      if not (current.event.event_key == row.delivery.event_key)
      then cancels
      else if role_is (target_role definition (some current.state.key) current.task)
          row.agent.role_key
      then unless_reserved reserved row.delivery (claims current.task none)
      else cancels

  unfoldable pub judge : Claiming → Candidate → Verdict
  unfolding continuation_in current_dispatch dispatch_states target_role
  judge c row = elim (continuation_in c.deliveries row.delivery) [
    | some k ↦ unless_reserved c.reserved row.delivery (claims k.task (some k.turn_id))
    | none ↦
        judge_current c.reserved row (current_dispatch store row.event (dispatch_states definition))
  ]

module _ (definition : Definition) (uuid4 : Delivery → String) (timestamp limit : ℕ)
    (store : Store) where
  unfoldable pub claim_row : Candidate → Claiming → Claiming
  unfolding judge take_row
  claim_row row c = elim (judge definition store c row) [
    | cancels ↦ cancel_row timestamp row.delivery c
    | skips ↦ c
    | claims task continuation ↦ take_row uuid4 timestamp row.delivery task continuation c
  ]

  unfoldable pub claim_rows : List Candidate → Claiming → Claiming
  unfolding claim_row
  claim_rows [] c = c
  claim_rows (row ∷ rows) c = elim (is_full limit c (claim_row row c)) [
    | true ↦ claim_row row c
    | false ↦ claim_rows rows (claim_row row c)
  ]

  unfoldable pub claim_task_deliveries : List String → Store × List Claimed
  unfolding claim_rows candidates
  claim_task_deliveries excluded =
      let end = claim_rows (candidates timestamp limit store) (first_claiming store excluded) in
      (record store { deliveries = end.deliveries }, end.claimed)
