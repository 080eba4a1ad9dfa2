-- ===== src/Queue/Recover.antt =====
-- core/task_delivery_store.py, `recover_retryable_failed_task_deliveries`: the failed deliveries that
-- are tried again, or canceled where their card needs them no more.
use team_flow.Prelude.{
  ℕ, ◌+◌, String, Bool, true, false, not, ◌&&◌, ◌||◌, Option, none, some, List, [], ◌∷◌, elem,
  filter, is_some, leb, ltb, if◌then◌else◌, rowcount, order_by,
}
use team_flow.Workflow.Definition.{Definition}
use team_flow.Queue.Tables.{retry, failed, canceled, status_eq, Delivery, Store, nonempty}
use team_flow.Queue.Dispatch.{dispatch_states, current_dispatch, is_current_of}
use team_flow.Queue.Execution.{
  has_id, event_of, active_delivery_execution_in, stop_active_delivery_execution,
}
use team_flow.Queue.Finish.{update_deliveries}
use team_flow.Queue.Waiting.{at_least}
use team_flow.Queue.Turns.{task_delivery_turn_count}

abbrev pub retryable_turn_statuses : List String
retryable_turn_statuses = "interrupted" ∷ "cancelled" ∷ "canceled" ∷ "unconfirmed" ∷ []

abbrev pub is_retryable : Delivery → Bool
is_retryable d = elim d.turn_status [
  | none ↦ false
  | some s ↦ status_eq d.status failed && elem s retryable_turn_statuses
]

-- a < b, where NULL comes first
abbrev pub time_lt : Option ℕ → Option ℕ → Bool
time_lt none none = false
time_lt none (some t) = true
time_lt (some s) none = false
time_lt (some s) (some t) = ltb s t

-- ORDER BY completed_at, id
abbrev pub failed_before : Delivery → Delivery → Bool
failed_before a b =
    time_lt a.completed_at b.completed_at
    || not (time_lt b.completed_at a.completed_at) && leb a.id b.id

-- WHERE id = ? AND status = 'failed'
abbrev pub is_failed_row : ℕ → Delivery → Bool
is_failed_row delivery_id d = has_id delivery_id d && status_eq d.status failed

abbrev pub retried_row : Delivery → Delivery
retried_row d = record d {
  status = retry;
  next_attempt_at = none;
  completed_at = none;
  delivered_at = none;
}

abbrev pub given_up : ℕ → Delivery → Delivery
given_up timestamp d = record d {
  status = canceled;
  next_attempt_at = none;
  completed_at = at_least timestamp d.completed_at;
}

module _ (definition : Definition) (timestamp max_turn_attempts : ℕ) where
  -- Its event, where it is known, is still the one that the card's state calls for.
  unfoldable pub needs_delivery : Store → Delivery → Bool
  unfolding dispatch_states current_dispatch
  needs_delivery store d = elim (event_of store d) [
    | none ↦ false
    | some event ↦ is_current_of event (current_dispatch store event (dispatch_states definition))
  ]

  unfoldable pub stop_its_execution : Delivery → Store → Store
  unfolding stop_active_delivery_execution
  stop_its_execution d store = elim (nonempty d.turn_id) [
    | none ↦ store
    | some turn ↦ (stop_active_delivery_execution store d.id turn timestamp).0
  ]

  unfoldable pub may_retry : Store → Delivery → Bool
  unfolding active_delivery_execution_in task_delivery_turn_count
  may_retry store d =
      ltb (task_delivery_turn_count d.id store) max_turn_attempts
      && not (is_some (active_delivery_execution_in definition store d.id (nonempty d.turn_id)))

  unfoldable pub recover_row : Delivery → Store × ℕ → Store × ℕ
  unfolding needs_delivery stop_its_execution may_retry
  recover_row d (store, recovered) =
      if not (needs_delivery store d)
      then (
        update_deliveries (is_failed_row d.id) (given_up timestamp) (stop_its_execution d store),
        recovered,
      )
      else if may_retry store d
      then (
        update_deliveries (is_failed_row d.id) retried_row store,
        recovered + rowcount (is_failed_row d.id) store.deliveries,
      )
      else (store, recovered)

  unfoldable pub recover_rows : List Delivery → Store × ℕ → Store × ℕ
  unfolding recover_row
  recover_rows [] c = c
  recover_rows (d ∷ ds) c = recover_rows ds (recover_row d c)

  unfoldable pub recover_retryable_failed_task_deliveries : Store → Store × ℕ
  unfolding recover_rows order_by
  recover_retryable_failed_task_deliveries store =
      recover_rows (order_by failed_before (filter is_retryable store.deliveries)) (store, 0)
