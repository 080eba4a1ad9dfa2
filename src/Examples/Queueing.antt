-- ===== src/Examples/Queueing.antt =====
-- A card becomes ready, and its event is delivered to the session of an executor.
use team_flow.Prelude.{
  ℕ, ◌≡◌, ◌⊎◌, refl, arith, String, Bool, true, false, none, some, List, [], ◌∷◌, any, all, Memᴰ,
  Rowwise, All, Pairwise,
}
use team_flow.Workflow.Value.{text, options_eq}
use team_flow.Workflow.Definition.{State, Definition}
use team_flow.Queue.Tables.{
  pending, retry, processing, is_processing, Delivery, TaskEvent, TaskState, Agent, Store,
}
use team_flow.Queue.Dispatch.{Current, current_dispatch, dispatch_states, target_role}
use team_flow.Queue.Finish.{answered, finish_task_delivery, fail_claimed_task_delivery}
use team_flow.Queue.Finish.Backoff.{finish_task_delivery-waits}
use team_flow.Queue.Finish.Stops.{Failed, fail_claimed_task_delivery-answers}
use team_flow.Queue.Waiting.{
  mark_task_delivery_waiting_for_session, resume_task_deliveries_waiting_for_session,
}
use team_flow.Queue.Waiting.Resumed.{SamePlace, resume-waiting}
use team_flow.Queue.Claim.{
  Claimed, Candidate, claim_task_deliveries, candidates, claimed_item, is_ready,
}
use team_flow.Queue.Claim.Reasons.{Handed}
use team_flow.Queue.Claim.Handed.{in_hand, OtherSession, claim_task_deliveries-Handed}
use team_flow.Queue.Claim.First.{claim_task_deliveries-first}
use team_flow.Queue.Plan.{prepare_task_deliveries, pending_events}
use team_flow.Queue.Plan.Advances.{Settled}
use team_flow.Queue.Plan.Settles.{prepare_task_deliveries-Settled}
use team_flow.Queue.Calls.{Call, claiming, awaiting_session, resuming_session, step, run}
use team_flow.Queue.Machine.Updates.{Follows}
use team_flow.Queue.Machine.Steps.{Becomes, step-Follows, run-Becomes}
use team_flow.Queue.Exclusive.{Exclusive}
use team_flow.Queue.Exclusive.Loop.{run-Exclusive}
use team_flow.Examples.General.{general}

abbrev ready : State
ready = record { key = "ready"; dispatch = "task_role"; required_fields = [] }

abbrev dispatching : Definition
dispatching = record general { lifecycle = record general.lifecycle { states = ready ∷ [] } }

abbrev card_ready : TaskEvent
card_ready = record {
  event_key = "event-1";
  board_id = "board";
  workflow_id = "general-task";
  table_id = "table";
  record_id = "rec-1";
  source_event_id = none;
  event_type = "ready_entered";
  before = none;
  after = some (("role", text "executor") ∷ []);
  routing_status = "routed";
  routed_at = some 10;
  created_at = 9;
}

abbrev card_state : TaskState
card_state = record {
  board_id = "board";
  table_id = "table";
  record_id = "rec-1";
  status = some "ready";
  snapshot = ("role", text "executor") ∷ [];
  updated_at = 9;
}

abbrev ada : Agent
ada = record {
  id = "a-1";
  workspace_id = "work";
  workflow_id = "general-task";
  role_key = "executor";
  assignment_revision = 1;
  harness_type = "codex";
  session_id = "session-1";
  created_at = 1;
}

abbrev delivery : Delivery
delivery = record {
  id = 1;
  event_key = "event-1";
  agent_id = "a-1";
  assignment_revision = 1;
  harness_type = "codex";
  session_id = "session-1";
  status = pending;
  attempts = 0;
  turn_id = none;
  turn_status = none;
  client_message_id = none;
  next_attempt_at = none;
  created_at = 10;
  started_at = none;
  completed_at = none;
  delivered_at = none;
}

abbrev one_delivery : Store
one_delivery = record {
  deliveries = delivery ∷ [];
  turns = [];
  executions = [];
  events = card_ready ∷ [];
  states = card_state ∷ [];
  agents = ada ∷ [];
}

abbrev first_message : Delivery → String
first_message d = "message-1"

abbrev claim : Call
claim = claiming first_message 11 100 []

step-Follows_example : Follows claim one_delivery (step dispatching claim one_delivery)
step-Follows_example = step-Follows dispatching claim one_delivery

abbrev until_waiting : List Call
until_waiting = claim ∷ awaiting_session 1 false ∷ resuming_session "session-1" ∷ claim ∷ []

run-Becomes_example :
    Rowwise Becomes one_delivery.deliveries (run dispatching until_waiting one_delivery).deliveries
run-Becomes_example = run-Becomes dispatching until_waiting one_delivery refl

run-Exclusive_example : Exclusive (run dispatching until_waiting one_delivery).deliveries
run-Exclusive_example = run-Exclusive dispatching until_waiting one_delivery (tt, tt)

claim_task_deliveries-Handed_example :
    let out = claim_task_deliveries dispatching first_message 11 100 one_delivery [] in
    All
      (λ item.
        Handed dispatching first_message 11 100 [] one_delivery item
        × (any (in_hand item) out.0.deliveries ≡ true))
      out.1
    × Pairwise OtherSession out.1
claim_task_deliveries-Handed_example =
    claim_task_deliveries-Handed dispatching first_message 11 100 [] one_delivery

abbrev candidate : Candidate
candidate = record { delivery = delivery; event = card_ready; agent = ada }

abbrev current : Current
current = record { state = ready; event = card_ready; task = card_state.snapshot }

claim_task_deliveries-first_example :
    (rest : List Claimed) × ((claim_task_deliveries dispatching first_message 11 100 one_delivery
        []).1
      ≡ claimed_item first_message delivery current.task none ∷ rest)
unfolding candidates current_dispatch target_role dispatch_states
claim_task_deliveries-first_example =
    claim_task_deliveries-first dispatching first_message 11 100 [] one_delivery candidate []
      current (tt, tt) refl refl refl refl refl refl

finish_task_delivery-waits_example :
    (is_ready 20 (record delivery { status = retry; attempts = 3; next_attempt_at = some 28 })
      ≡ false)
    × (is_ready 80 (record delivery { status = retry; attempts = 3; next_attempt_at = some 28 })
        ≡ true)
unfolding finish_task_delivery
finish_task_delivery-waits_example =
    finish_task_delivery-waits 20 20 1 none true false
      (record one_delivery { deliveries = record delivery { attempts = 3 } ∷ [] })
      (record delivery { status = retry; attempts = 3; next_attempt_at = some 28 }) 20 80
      (Memᴰ.head refl) refl (omega arith) (omega arith)

-- The session works on the card.
abbrev working : Store
working = record one_delivery {
  deliveries = record delivery { status = processing; turn_id = some "turn-1" } ∷ [];
  executions =
      record {
        record_id = "rec-1";
        agent_id = "a-1";
        session_id = "session-1";
        turn_id = some "turn-1";
        is_active = true;
        stop_status = none;
        stopped_by_agent_id = none;
        updated_at = 12;
        stopped_at = none;
      }
      ∷ [];
}

fail_claimed_task_delivery-answers_example :
    (fail_claimed_task_delivery 20 20 1 "turn-1" "failed" working ≡ answered false working)
    ⊎ ((next : Store) × (fail_claimed_task_delivery 20 20 1 "turn-1" "failed" working
          ≡ answered true next)
        × Failed 1 "turn-1" "failed" 20 working next)
fail_claimed_task_delivery-answers_example =
    fail_claimed_task_delivery-answers 20 20 1 "turn-1" "failed" working
      (record { deliveries = (tt, tt); events = (tt, tt); executions = (tt, tt) })

resume-waiting_example :
    (e : Delivery) × Memᴰ e
      (resume_task_deliveries_waiting_for_session "session-1"
        (mark_task_delivery_waiting_for_session 1 true working)).deliveries
    × SamePlace (record delivery { status = processing; turn_id = some "turn-1" }) e
    × ((t : ℕ) → is_ready t e ≡ true)
unfolding options_eq
resume-waiting_example =
    resume-waiting working 1 true (record delivery { status = processing; turn_id = some "turn-1" })
      (Memᴰ.head refl) refl

-- Two deliveries of one event to one agent, from before and after its session was replaced: both are
-- put in process, and neither is handed out.
abbrev two_revisions : Store
two_revisions = record one_delivery {
  deliveries =
      record delivery { status = retry; session_id = "session-0" }
      ∷ record delivery { id = 2; assignment_revision = 2 }
      ∷ [];
}

all_in_process : List Delivery → Bool
all_in_process ds = all (λ (d : Delivery). is_processing d.status) ds

two_revisions_test :
    let out = claim_task_deliveries dispatching first_message 11 100 two_revisions [] in
    (out.1 ≡ []) × (all_in_process out.0.deliveries ≡ true)
unfolding claim_task_deliveries all_in_process
two_revisions_test = (refl, refl)

-- The event as it comes in.
abbrev incoming : Store
incoming = record one_delivery {
  deliveries = [];
  events = record card_ready { routing_status = "pending"; routed_at = none } ∷ [];
}

prepare_task_deliveries-Settled_example :
    All
      (Settled dispatching "work" 10 incoming
        (prepare_task_deliveries dispatching "work" 10 incoming))
      (pending_events dispatching "work" 10 incoming)
prepare_task_deliveries-Settled_example =
    prepare_task_deliveries-Settled dispatching "work" 10 incoming

prepare_task_deliveries_test :
    (prepare_task_deliveries dispatching "work" 10 incoming).store.deliveries ≡ delivery ∷ []
unfolding prepare_task_deliveries
prepare_task_deliveries_test = refl
