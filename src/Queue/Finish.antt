-- ===== src/Queue/Finish.antt =====
-- core/task_delivery_store.py, how a delivery ends: `finish_task_delivery`,
-- `fail_claimed_task_delivery`, `cancel_task_delivery`, `cancel_reconciled_task_delivery`, `_retry_at`.
-- `timestamp` is `now()`, `clock` the later `datetime.now`.
pub mod Backoff
pub mod Stops
use team_flow.Prelude.{
  ℕ, ◌+◌, ◌^◌, min, String, Bool, true, false, not, ◌&&◌, ◌||◌, Option, none, some, List, ◌==◌, any,
  nat_beq, if◌then◌else◌, find?, update_rows, rowcount,
}
use team_flow.Workflow.Value.{options_eq}
use team_flow.Queue.Tables.{
  Status, retry, completed, failed, canceled, is_processing, status_eq, Delivery, Execution,
  TaskEvent, Store, text_is, nonempty,
}
use team_flow.Queue.Execution.{has_id, event_of, is_execution_of, stop_active_delivery_execution}

abbrev pub update_deliveries : (Delivery → Bool) → (Delivery → Delivery) → Store → Store
update_deliveries p f store = record store { deliveries = update_rows p f store.deliveries }

-- The parts of the harness's answer that are looked at.
pub record Outcome : Type 0 where
  pub ok : Option Bool
  pub status : Option String

abbrev pub attempts_of : Option Delivery → ℕ
attempts_of none = 1
attempts_of (some d) = d.attempts

unfoldable pub retry_delay : ℕ → ℕ
retry_delay attempts = min 60 (2 ^ min attempts 6)

unfoldable pub retry_at : Store → ℕ → ℕ → ℕ
unfolding retry_delay
retry_at store delivery_id clock =
    clock + retry_delay (attempts_of (find? (has_id delivery_id) store.deliveries))

-- (result or {}).get("ok", True)
abbrev pub outcome_ok : Option Outcome → Bool
outcome_ok none = true
outcome_ok (some result) = elim result.ok [ none ↦ true | some b ↦ b ]

-- COALESCE((result or {}).get("status"), turn_status)
abbrev pub outcome_status : Option Outcome → Option String → Option String
outcome_status none turn_status = turn_status
outcome_status (some result) turn_status = elim result.status [
  | none ↦ turn_status
  | some s ↦ some s
]

abbrev pub keep_message : Bool → Option String → Option String
keep_message reset message = if reset then none else message

abbrev pub ended : Status → ℕ → Option Outcome → Bool → Delivery → Delivery
ended status timestamp result reset d = record d {
  status = status;
  turn_status = outcome_status result d.turn_status;
  next_attempt_at = none;
  completed_at = some timestamp;
  delivered_at = if status_eq status completed then some timestamp else none;
  client_message_id = keep_message reset d.client_message_id;
}

abbrev pub retried : ℕ → Option Outcome → Bool → Delivery → Delivery
retried at result reset d = record d {
  status = retry;
  turn_status = outcome_status result d.turn_status;
  next_attempt_at = some at;
  completed_at = none;
  delivered_at = none;
  client_message_id = keep_message reset d.client_message_id;
}

-- `error` says whether one is given.
unfoldable pub finish_task_delivery :
    ℕ → ℕ → ℕ → Option Outcome → Bool → Bool → Bool → Store → Store
unfolding retry_at
finish_task_delivery timestamp clock delivery_id result error retry_wanted reset store =
    update_deliveries (has_id delivery_id)
      (if retry_wanted
        then retried (retry_at store delivery_id clock) result reset
        else ended (if not error && outcome_ok result then completed else failed) timestamp result
            reset)
      store

-- EXISTS: an active execution of the delivery's card, agent, session and turn.
abbrev pub runs_as : Delivery → TaskEvent → Execution → Bool
runs_as d e x =
    x.record_id == e.record_id
    && x.agent_id == d.agent_id
    && x.session_id == d.session_id
    && (elim d.turn_id [ none ↦ false | some turn ↦ text_is x.turn_id turn ])
    && x.is_active

abbrev pub has_running : Store → Delivery → Bool
has_running store d =
    any (λ (e : TaskEvent). e.event_key == d.event_key && any (runs_as d e) store.executions)
      store.events

abbrev pub is_claimed : Store → ℕ → String → Delivery → Bool
is_claimed store delivery_id turn_id d =
    has_id delivery_id d
    && is_processing d.status
    && text_is d.turn_id turn_id
    && has_running store d

abbrev pub failed_claim : String → ℕ → Delivery → Delivery
failed_claim turn_status timestamp d = record d {
  status = failed;
  turn_status = some turn_status;
  next_attempt_at = none;
  completed_at = some timestamp;
  delivered_at = none;
}

-- What a transaction answers: a RuntimeError or ValueError rolls it back.
pub data Answer : Type 0 where
  answered : Bool → Store → Answer
  raised : Answer

abbrev pub stop_or_raise : Store × Bool → Answer
stop_or_raise (store, true) = answered true store
stop_or_raise (store, false) = raised

unfoldable pub fail_claimed_task_delivery : ℕ → ℕ → ℕ → String → String → Store → Answer
unfolding stop_active_delivery_execution
fail_claimed_task_delivery timestamp clock delivery_id turn_id turn_status store =
    let p = is_claimed store delivery_id turn_id in
    if nat_beq (rowcount p store.deliveries) 1
    then stop_or_raise (
        stop_active_delivery_execution
          (update_deliveries p (failed_claim turn_status timestamp) store) delivery_id turn_id
          clock)
    else answered false store

abbrev pub unstarted : ℕ → Delivery → Bool
unstarted delivery_id d =
    has_id delivery_id d && is_processing d.status && options_eq d.turn_id none

unfoldable pub cancel_task_delivery : ℕ → ℕ → Store → Store
cancel_task_delivery timestamp delivery_id store =
    update_deliveries (unstarted delivery_id)
      (λ (d : Delivery). record d { status = canceled; completed_at = some timestamp }) store

-- EXISTS: an active execution of the delivery's card, agent and session, in any turn.
abbrev pub runs_for : Delivery → TaskEvent → Execution → Bool
runs_for d e x =
    x.record_id == e.record_id
    && x.agent_id == d.agent_id
    && x.session_id == d.session_id
    && x.is_active

abbrev pub has_active : Store → Delivery → Bool
has_active store d =
    any (λ (e : TaskEvent). e.event_key == d.event_key && any (runs_for d e) store.executions)
      store.events

abbrev pub is_expected : Status → Option String → Option String → Delivery → Bool
is_expected status turn_id turn_status d =
    status_eq d.status status
    && options_eq d.turn_id turn_id
    && options_eq d.turn_status turn_status

abbrev pub may_cancel : ℕ → Status → Option String → Option String → Bool → Store → Delivery → Bool
may_cancel delivery_id status turn_id turn_status allow_stop store d =
    has_id delivery_id d
    && is_expected status turn_id turn_status d
    && (allow_stop || not (has_active store d))

abbrev pub canceled_as : String → ℕ → Delivery → Delivery
canceled_as turn_status timestamp d = record d {
  status = canceled;
  turn_status = some turn_status;
  next_attempt_at = none;
  completed_at = some timestamp;
}

unfoldable pub cancel_reconciled_task_delivery :
    ℕ → ℕ → ℕ → Status → Option String → Option String → String → Bool → Store → Store × Bool
unfolding stop_active_delivery_execution
cancel_reconciled_task_delivery timestamp clock delivery_id status turn_id expected_status
      turn_status allow_stop store =
    let p = may_cancel delivery_id status turn_id expected_status allow_stop store in
    let next = update_deliveries p (canceled_as turn_status timestamp) store in
    if nat_beq (rowcount p store.deliveries) 1
    then (
      elim (if allow_stop then nonempty turn_id else none) [
        | none ↦ next
        | some turn ↦ (stop_active_delivery_execution next delivery_id turn clock).0
      ],
      true,
    )
    else (store, false)
