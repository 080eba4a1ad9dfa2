-- ===== src/Queue/Waiting.antt =====
-- core/task_delivery_store.py, the deliveries that wait for a permission or for a session, that are
-- put off, and that are taken up again after a restart. `soon` is five seconds from now.
pub mod Resumed
use team_flow.Prelude.{
  ℕ, String, Bool, true, false, not, ◌&&◌, ◌||◌, Option, none, some, List, [], ◌∷◌, ◌==◌, any, map,
  filter, sorted_set, is_some, if◌then◌else◌, rowcount,
}
use team_flow.Workflow.Value.{options_eq}
use team_flow.Queue.Tables.{
  Status, pending, retry, waiting_permission, waiting_session, is_processing, status_eq, Delivery,
  Store,
}
use team_flow.Queue.Execution.{has_id}
use team_flow.Queue.Finish.{update_deliveries}

-- The statement that resets, and the one that puts the others up for reconciliation.
abbrev pub unsent : Delivery → Bool
unsent d =
    is_processing d.status && options_eq d.turn_id none && options_eq d.client_message_id none

abbrev pub sent : Delivery → Bool
sent d = is_processing d.status && (is_some d.turn_id || is_some d.client_message_id)

-- COALESCE(next_attempt_at, ?)
abbrev pub at_least : ℕ → Option ℕ → Option ℕ
at_least timestamp none = some timestamp
at_least timestamp (some t) = some t

abbrev pub unclaimed : Delivery → Delivery
unclaimed d = record d { status = pending; started_at = none; next_attempt_at = none }

abbrev pub put_up : ℕ → Delivery → Delivery
put_up timestamp d = record d { next_attempt_at = at_least timestamp d.next_attempt_at }

unfoldable pub recover_task_deliveries : ℕ → Store → Store
recover_task_deliveries timestamp store =
    update_deliveries sent (put_up timestamp) (update_deliveries unsent unclaimed store)

abbrev pub may_wait : ℕ → Bool → Delivery → Bool
may_wait delivery_id continuation d =
    has_id delivery_id d && is_processing d.status && (options_eq d.turn_id none || continuation)

abbrev pub parked : Status → Delivery → Delivery
parked status d = record d {
  status = status;
  next_attempt_at = none;
  started_at = none;
  completed_at = none;
  delivered_at = none;
}

unfoldable pub mark_task_delivery_waiting_for_permission : ℕ → Bool → Store → Store
mark_task_delivery_waiting_for_permission delivery_id continuation store =
    update_deliveries (may_wait delivery_id continuation) (parked waiting_permission) store

unfoldable pub mark_task_delivery_waiting_for_session : ℕ → Bool → Store → Store
mark_task_delivery_waiting_for_session delivery_id continuation store =
    update_deliveries (may_wait delivery_id continuation) (parked waiting_session) store

abbrev pub has_status : Status → Delivery → Bool
has_status status d = status_eq d.status status

-- SELECT DISTINCT … ORDER BY
unfoldable pub task_delivery_sessions_waiting_for_owner : Store → List String
unfolding sorted_set
task_delivery_sessions_waiting_for_owner store =
    sorted_set
      (map (λ (d : Delivery). d.session_id) (filter (has_status waiting_session) store.deliveries))

abbrev pub unparked : Delivery → Delivery
unparked d = record d { status = retry; next_attempt_at = none }

abbrev pub awaits_session : String → Delivery → Bool
awaits_session session_id d = has_status waiting_session d && d.session_id == session_id

unfoldable pub resume_task_deliveries_waiting_for_session : String → Store → Store
resume_task_deliveries_waiting_for_session session_id store =
    update_deliveries (awaits_session session_id) unparked store

unfoldable pub has_task_deliveries_waiting_for_permission : Store → Bool
has_task_deliveries_waiting_for_permission store =
    any (has_status waiting_permission) store.deliveries

unfoldable pub resume_task_deliveries_waiting_for_permission : Store → Store × ℕ
resume_task_deliveries_waiting_for_permission store = (
  update_deliveries (has_status waiting_permission) unparked store,
  rowcount (has_status waiting_permission) store.deliveries,
)

abbrev pub is_running : ℕ → Delivery → Bool
is_running delivery_id d = has_id delivery_id d && is_processing d.status

unfoldable pub defer_task_delivery_reconciliation : ℕ → ℕ → Store → Store
defer_task_delivery_reconciliation soon delivery_id store =
    update_deliveries (is_running delivery_id)
      (λ (d : Delivery). record d { next_attempt_at = some soon }) store
