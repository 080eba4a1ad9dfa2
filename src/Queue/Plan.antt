-- ===== src/Queue/Plan.antt =====
-- core/task_delivery_planner.py: deliveries for the events that have come in, and for cards that wait
-- in a state while a new agent has registered. `workspace_id_for_root` gives the `workspace_id`.
pub mod Kept
pub mod Called
pub mod Advances
pub mod Settles
use team_flow.Prelude.{
  ℕ, suc, ◌+◌, String, Bool, false, not, ◌&&◌, ◌||◌, Option, none, some, List, [], ◌∷◌, ◌++◌, ◌==◌,
  any, filter, elem, ltb, nat_beq, text_lt, if◌then◌else◌, lookup, order_by,
}
use team_flow.Workflow.Definition.{State, Definition, Task}
use team_flow.Queue.Tables.{is_processing, Delivery, TaskEvent, TaskState, Agent, Store, nonempty}
use team_flow.Queue.Dispatch.{
  Current, target_role, actionable_states, dispatch_states, dispatch_event_state, current_dispatch,
  finish_routing, insert_delivery, loaded, same_record, is_current_of,
}
use team_flow.Queue.Finish.{update_deliveries}

pub record Outcome : Type 0 where
  pub source_event_id : Option String
  pub event_type : String
  pub record_id : String
  pub task : Task
  pub result : String
  pub target : Option String

pub record Plan : Type 0 where
  pub store : Store
  pub routed : ℕ
  pub waiting : ℕ
  pub ignored : ℕ
  pub deliveries : ℕ
  pub outcomes : List Outcome

-- turn_status IN ('queueing', 'queued')
abbrev pub is_queued_status : Option String → Bool
is_queued_status none = false
is_queued_status (some s) = elem s ("queueing" ∷ "queued" ∷ [])

abbrev pub is_queued_for : Store → TaskEvent → Delivery → Bool
is_queued_for store event d =
    is_processing d.status
    && is_queued_status d.turn_status
    && any (λ (e : TaskEvent). e.event_key == d.event_key && same_record event e) store.events

-- A delivery of the card that stands in the client's queue is looked at again at once.
unfoldable pub wake_queued : TaskEvent → Store → Store
wake_queued event store =
    update_deliveries (is_queued_for store event)
      (λ (d : Delivery). record d { next_attempt_at = none }) store

-- event["after_json"] or event["before_json"] or "{}"
abbrev pub event_task : TaskEvent → Task
event_task event = elim event.after [ some task ↦ task | none ↦ loaded event.before ]

abbrev pub agent_before : Agent → Agent → Bool
agent_before a b =
    ltb a.created_at b.created_at || nat_beq a.created_at b.created_at && not (text_lt b.id a.id)

-- The task of the dispatch that is current, where there is one.
abbrev pub current_task : Option Current → Task → Task
current_task none task = task
current_task (some current) task = current.task

module _ (definition : Definition) (workspace_id : String) (timestamp : ℕ) where
  abbrev pub is_agent_for : TaskEvent → String → Agent → Bool
  is_agent_for event role a =
      a.workspace_id == workspace_id && a.workflow_id == event.workflow_id && a.role_key == role

  -- The registered agents of a role.
  unfoldable pub agents_for : Store → TaskEvent → String → List Agent
  unfolding order_by text_lt
  agents_for store event role =
      order_by agent_before (filter (is_agent_for event role) store.agents)

  unfoldable pub insert_deliveries : TaskEvent → List Agent → Store × ℕ → Store × ℕ
  unfolding insert_delivery
  insert_deliveries event [] c = c
  insert_deliveries event (a ∷ agents) (store, n) =
      let (next, m) = insert_delivery store event a timestamp in
      insert_deliveries event agents (next, n + m)

  abbrev pub outcome_of : TaskEvent → Task → String → Option String → Outcome
  outcome_of event task result target = record {
    source_event_id = event.source_event_id;
    event_type = event.event_type;
    record_id = event.record_id;
    task = task;
    result = result;
    target = target;
  }

  unfoldable pub ignore_event : TaskEvent → Task → Plan → Plan
  unfolding finish_routing
  ignore_event event task p = record p {
    store = finish_routing p.store event.event_key "ignored" timestamp;
    ignored = suc p.ignored;
    outcomes = p.outcomes ++ outcome_of event task "not-required" none ∷ [];
  }

  unfoldable pub route_event : TaskEvent → Task → String → List Agent → Plan → Plan
  unfolding insert_deliveries finish_routing
  route_event event task role agents p =
      let (store, n) = insert_deliveries event agents (p.store, p.deliveries) in
      record p {
        store = finish_routing store event.event_key "routed" timestamp;
        routed = suc p.routed;
        deliveries = n;
        outcomes = p.outcomes ++ outcome_of event task "routed" (some role) ∷ [];
      }

  -- To the role's agents, if there are any.
  unfoldable pub send_event : TaskEvent → Task → Option String → Plan → Plan
  unfolding ignore_event route_event agents_for
  send_event event task none p = ignore_event event task p
  send_event event task (some role) p = elim (agents_for p.store event role) [
    | [] ↦ record p {
      waiting = suc p.waiting;
      outcomes = p.outcomes ++ outcome_of event task "waiting" (some role) ∷ [];
    }
    | a ∷ agents ↦ route_event event task role (a ∷ agents) p
  ]

  abbrev pub key_of : Option State → Option String
  key_of none = none
  key_of (some s) = some s.key

  unfoldable pub plan_event : TaskEvent → Plan → Plan
  unfolding wake_queued dispatch_states dispatch_event_state current_dispatch send_event target_role
  plan_event event before =
      let p = record before { store = wake_queued event before.store } in
      let states = dispatch_states definition in
      let s = dispatch_event_state states event in
      elim s [
        | none ↦
            send_event event (event_task event)
              (nonempty (target_role definition none (event_task event))) p
        | some state ↦
            let current = current_dispatch p.store event states in
            let task = current_task current (event_task event) in
            if is_current_of event current
            then send_event event task (nonempty (target_role definition (some state.key) task)) p
            else ignore_event event task p
      ]

  unfoldable pub plan_events : List TaskEvent → Plan → Plan
  unfolding plan_event
  plan_events [] p = p
  plan_events (event ∷ events) p = plan_events events (plan_event event p)

  -- ORDER BY created_at, event_key
  abbrev pub event_before : TaskEvent → TaskEvent → Bool
  event_before a b =
      ltb a.created_at b.created_at
      || nat_beq a.created_at b.created_at && not (text_lt b.event_key a.event_key)

  unfoldable pub pending_events : Store → List TaskEvent
  unfolding order_by text_lt
  pending_events store =
      order_by event_before (filter (λ (e : TaskEvent). e.routing_status == "pending") store.events)

  abbrev pub no_plan : Store → Plan
  no_plan store = record {
    store = store;
    routed = 0;
    waiting = 0;
    ignored = 0;
    deliveries = 0;
    outcomes = [];
  }

  unfoldable pub prepare_task_deliveries : Store → Plan
  unfolding plan_events pending_events
  prepare_task_deliveries store = plan_events (pending_events store) (no_plan store)

  -- ORDER BY created_at DESC, rowid DESC LIMIT 1
  unfoldable pub newest : List TaskEvent → Option TaskEvent
  newest [] = none
  newest (e ∷ events) = elim (newest events) [
    | none ↦ some e
    | some f ↦ if ltb f.created_at e.created_at then some e else some f
  ]

  abbrev pub is_entry_of : TaskState → String → TaskEvent → Bool
  is_entry_of row event_type e =
      e.board_id == row.board_id
      && e.table_id == row.table_id
      && e.record_id == row.record_id
      && e.event_type == event_type

  -- A card's own state and its newest entry into it.
  unfoldable pub catch_up : TaskState → String → String → Store × ℕ → Store × ℕ
  unfolding newest target_role insert_deliveries agents_for
  catch_up row key event_type (store, n) =
      elim (newest (filter (is_entry_of row event_type) store.events)) [
        | none ↦ (store, n)
        | some event ↦ elim (nonempty (target_role definition (some key) row.snapshot)) [
          | none ↦ (store, n)
          | some role ↦ insert_deliveries event (agents_for store event role) (store, n)
        ]
      ]

  unfoldable pub catch_up_card : TaskState → Store × ℕ → Store × ℕ
  unfolding catch_up actionable_states
  catch_up_card row c = elim row.status [
    | none ↦ c
    | some key ↦ elim (lookup (actionable_states definition) key) [
      | none ↦ c
      | some event_type ↦ catch_up row key event_type c
    ]
  ]

  unfoldable pub catch_up_cards : List TaskState → Store × ℕ → Store × ℕ
  unfolding catch_up_card
  catch_up_cards [] c = c
  catch_up_cards (row ∷ rows) c = catch_up_cards rows (catch_up_card row c)

  unfoldable pub prepare_agent_catchup_deliveries : Store → Store × ℕ
  unfolding catch_up_cards
  prepare_agent_catchup_deliveries store = catch_up_cards store.states (store, 0)
