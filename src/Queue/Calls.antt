-- ===== src/Queue/Calls.antt =====
-- The calls by which the queue changes, with the times and the choices that come from outside, and
-- any sequence of them. A call that raises leaves the tables as they are.
use team_flow.Prelude.{ℕ, String, Bool, Option, List, [], ◌∷◌}
use team_flow.Workflow.Definition.{Definition}
use team_flow.Queue.Tables.{Status, Delivery, Store}
use team_flow.Queue.Finish.{
  Outcome, Answer, answered, raised, finish_task_delivery, fail_claimed_task_delivery,
  cancel_task_delivery, cancel_reconciled_task_delivery,
}
use team_flow.Queue.Waiting.{
  recover_task_deliveries, mark_task_delivery_waiting_for_permission,
  mark_task_delivery_waiting_for_session, resume_task_deliveries_waiting_for_session,
  resume_task_deliveries_waiting_for_permission, defer_task_delivery_reconciliation,
}
use team_flow.Queue.Turns.{
  mark_task_delivery_turn_started, mark_task_delivery_queueing, mark_task_delivery_queued,
  clear_task_delivery_queueing, acknowledge_task_delivery_turn,
}
use team_flow.Queue.Claim.{claim_task_deliveries}
use team_flow.Queue.Recover.{recover_retryable_failed_task_deliveries}

pub data Call : Type 0 where
  recovering : (timestamp : ℕ) → Call
  retrying_failed : (timestamp max_turn_attempts : ℕ) → Call
  claiming : (uuid4 : Delivery → String) (timestamp limit : ℕ) (excluded : List String) → Call
  finishing :
      (timestamp clock delivery_id : ℕ) (result : Option Outcome) (error retry reset : Bool) → Call
  failing : (timestamp clock delivery_id : ℕ) (turn_id turn_status : String) → Call
  awaiting_permission : (delivery_id : ℕ) (continuation : Bool) → Call
  awaiting_session : (delivery_id : ℕ) (continuation : Bool) → Call
  resuming_session : (session_id : String) → Call
  resuming_permission : Call
  starting_turn :
      (timestamp clock soon delivery_id : ℕ) (turn_id : String) (previous_turn_id : Option String)
      (require_execution_rebind : Bool)
      → Call
  queueing : (soon delivery_id : ℕ) (previous_turn_id : Option String) → Call
  queued : (soon delivery_id : ℕ) (previous_turn_id : Option String) → Call
  clearing_queueing : (delivery_id : ℕ) (previous_turn_id : Option String) → Call
  acknowledging : (timestamp : ℕ) (turn_id agent_id record_id : String) → Call
  deferring : (soon delivery_id : ℕ) → Call
  canceling : (timestamp delivery_id : ℕ) → Call
  canceling_reconciled :
      (timestamp clock delivery_id : ℕ) (status : Status) (turn_id turn_status : Option String)
      (new_turn_status : String) (allow_stop : Bool)
      → Call

abbrev pub after : Store → Answer → Store
after store (answered b next) = next
after store raised = store

module _ (definition : Definition) where
  unfoldable pub step : Call → Store → Store
  unfolding recover_task_deliveries recover_retryable_failed_task_deliveries claim_task_deliveries
      finish_task_delivery fail_claimed_task_delivery mark_task_delivery_waiting_for_permission
      mark_task_delivery_waiting_for_session resume_task_deliveries_waiting_for_session
      resume_task_deliveries_waiting_for_permission mark_task_delivery_turn_started
      mark_task_delivery_queueing mark_task_delivery_queued clear_task_delivery_queueing
      acknowledge_task_delivery_turn defer_task_delivery_reconciliation cancel_task_delivery
      cancel_reconciled_task_delivery
  step (recovering timestamp) store = recover_task_deliveries timestamp store
  step (retrying_failed timestamp max_turn_attempts) store =
      (recover_retryable_failed_task_deliveries definition timestamp max_turn_attempts store).0
  step (claiming uuid4 timestamp limit excluded) store =
      (claim_task_deliveries definition uuid4 timestamp limit store excluded).0
  step (finishing timestamp clock delivery_id result error retry reset) store =
      finish_task_delivery timestamp clock delivery_id result error retry reset store
  step (failing timestamp clock delivery_id turn_id turn_status) store =
      after store (fail_claimed_task_delivery timestamp clock delivery_id turn_id turn_status store)
  step (awaiting_permission delivery_id continuation) store =
      mark_task_delivery_waiting_for_permission delivery_id continuation store
  step (awaiting_session delivery_id continuation) store =
      mark_task_delivery_waiting_for_session delivery_id continuation store
  step (resuming_session session_id) store =
      resume_task_deliveries_waiting_for_session session_id store
  step resuming_permission store = (resume_task_deliveries_waiting_for_permission store).0
  step
        (starting_turn timestamp clock soon delivery_id turn_id previous_turn_id
          require_execution_rebind)
        store =
      after store (
        mark_task_delivery_turn_started timestamp clock soon delivery_id turn_id previous_turn_id
          require_execution_rebind store)
  step (queueing soon delivery_id previous_turn_id) store =
      after store (mark_task_delivery_queueing soon delivery_id previous_turn_id store)
  step (queued soon delivery_id previous_turn_id) store =
      after store (mark_task_delivery_queued soon delivery_id previous_turn_id store)
  step (clearing_queueing delivery_id previous_turn_id) store =
      clear_task_delivery_queueing delivery_id previous_turn_id store
  step (acknowledging timestamp turn_id agent_id record_id) store =
      (acknowledge_task_delivery_turn timestamp turn_id agent_id record_id store).0
  step (deferring soon delivery_id) store =
      defer_task_delivery_reconciliation soon delivery_id store
  step (canceling timestamp delivery_id) store = cancel_task_delivery timestamp delivery_id store
  step
        (canceling_reconciled timestamp clock delivery_id status turn_id turn_status new_turn_status
          allow_stop)
        store =
      (cancel_reconciled_task_delivery timestamp clock delivery_id status turn_id turn_status
        new_turn_status allow_stop store).0

  unfoldable pub run : List Call → Store → Store
  unfolding step
  run [] store = store
  run (call ∷ calls) store = run calls (step call store)
