-- ===== src/Queue/Machine/Updates.antt =====
-- The state machine and the calls of core/task_delivery_store.py that are statements on the
-- deliveries alone.
use team_flow.Prelude.{
  ℕ, ◌≡◌, inl, inr, refl, sym, ap, ◌∙◌, arith, String, Bool, true, false, Option, none, some,
  Bool-cases, Option-cases, if◌then◌else◌, update_rows, Rowwise, rowcount, nat_beq, find?,
}
use team_flow.Queue.Tables.{Store, Execution}
use team_flow.Queue.Execution.{
  update_execution, stop_active_delivery_execution, rebind_active_delivery_execution, event_of,
  has_id, is_execution_of, stopped,
}
use team_flow.Queue.Finish.{Outcome, finish_task_delivery, cancel_task_delivery}
use team_flow.Queue.Waiting.{
  recover_task_deliveries, mark_task_delivery_waiting_for_permission,
  mark_task_delivery_waiting_for_session, resume_task_deliveries_waiting_for_session,
  resume_task_deliveries_waiting_for_permission, defer_task_delivery_reconciliation, unsent,
  unclaimed,
}
use team_flow.Queue.Turns.{clear_task_delivery_queueing}
use team_flow.Queue.Calls.{
  Call, recovering, finishing, awaiting_permission, awaiting_session, resuming_session,
  resuming_permission, clearing_queueing, deferring, canceling,
}
use team_flow.Queue.Machine.{
  may_move, Tracks, Tracks-rows_trans, update_rows-Tracks, status_eq_refl,
}

abbrev pub Follows : Call → Store → Store → Type 0
Follows call store next = Rowwise (Tracks (may_move call)) store.deliveries next.deliveries

pub awaiting_permission-Follows :
    (id : ℕ) (continuation : Bool) (store : Store)
    → Follows
        (awaiting_permission id continuation)
        store
        (mark_task_delivery_waiting_for_permission id continuation store)
unfolding mark_task_delivery_waiting_for_permission
awaiting_permission-Follows id continuation store =
    update_rows-Tracks _ _ _ store.deliveries λ d h. (refl, refl, refl, refl, ground arith)

pub awaiting_session-Follows :
    (id : ℕ) (continuation : Bool) (store : Store)
    → Follows
        (awaiting_session id continuation)
        store
        (mark_task_delivery_waiting_for_session id continuation store)
unfolding mark_task_delivery_waiting_for_session
awaiting_session-Follows id continuation store =
    update_rows-Tracks _ _ _ store.deliveries λ d h. (refl, refl, refl, refl, ground arith)

pub resuming_session-Follows :
    (session_id : String) (store : Store)
    → Follows
        (resuming_session session_id)
        store
        (resume_task_deliveries_waiting_for_session session_id store)
unfolding resume_task_deliveries_waiting_for_session
resuming_session-Follows session_id store =
    update_rows-Tracks _ _ _ store.deliveries λ d h. (refl, refl, refl, refl, ground arith)

pub resuming_permission-Follows :
    (store : Store)
    → Follows resuming_permission store (resume_task_deliveries_waiting_for_permission store).0
unfolding resume_task_deliveries_waiting_for_permission
resuming_permission-Follows store =
    update_rows-Tracks _ _ _ store.deliveries λ d h. (refl, refl, refl, refl, ground arith)

pub deferring-Follows :
    (soon id : ℕ) (store : Store)
    → Follows (deferring soon id) store (defer_task_delivery_reconciliation soon id store)
unfolding defer_task_delivery_reconciliation
deferring-Follows soon id store =
    update_rows-Tracks _ _ _ store.deliveries
      λ d h. (refl, refl, refl, refl, ground (arith, status_eq_refl d.status))

pub canceling-Follows :
    (timestamp id : ℕ) (store : Store)
    → Follows (canceling timestamp id) store (cancel_task_delivery timestamp id store)
unfolding cancel_task_delivery
canceling-Follows timestamp id store =
    update_rows-Tracks _ _ _ store.deliveries λ d h. (refl, refl, refl, refl, ground arith)

pub clearing_queueing-Follows :
    (id : ℕ) (previous : Option String) (store : Store)
    → Follows (clearing_queueing id previous) store (clear_task_delivery_queueing id previous store)
unfolding clear_task_delivery_queueing
clearing_queueing-Follows id previous store =
    update_rows-Tracks _ _ _ store.deliveries
      λ d h. (refl, refl, refl, refl, ground (arith, status_eq_refl d.status))

pub recovering-Follows :
    (timestamp : ℕ) (store : Store)
    → Follows (recovering timestamp) store (recover_task_deliveries timestamp store)
unfolding recover_task_deliveries
recovering-Follows timestamp store =
    Tracks-rows_trans (may_move (recovering timestamp)) (λ s t u h k. ground arith) store.deliveries
      (update_rows unsent unclaimed store.deliveries) _
      (update_rows-Tracks _ _ _ store.deliveries λ d h. (refl, refl, refl, refl, ground arith))
      (update_rows-Tracks _ _ _ (update_rows unsent unclaimed store.deliveries)
        λ d h. (refl, refl, refl, refl, ground (arith, status_eq_refl d.status)))

pub finishing-Follows :
    (timestamp clock id : ℕ) (result : Option Outcome) (error again reset : Bool) (store : Store)
    → Follows
        (finishing timestamp clock id result error again reset)
        store
        (finish_task_delivery timestamp clock id result error again reset store)
unfolding finish_task_delivery
finishing-Follows timestamp clock id result error true reset store =
    update_rows-Tracks _ _ _ store.deliveries λ d h. (refl, refl, refl, refl, ground arith)
finishing-Follows timestamp clock id result error false reset store =
    update_rows-Tracks _ _ _ store.deliveries λ d h. (refl, refl, refl, refl, ground arith)

-- Stopping or rebinding an execution leaves the deliveries alone.
module _ (store : Store) (id : ℕ) (turn : String) where
  update_execution-deliveries :
      (f : Execution → Execution) {c : Store × ℕ}
      → update_execution store id turn f ≡ some c
      → c.0.deliveries ≡ store.deliveries
  unfolding update_execution
  update_execution-deliveries f {c} h = elim (Option-cases (find? (has_id id) store.deliveries)) [
    | inl e ↦ let q : none ≡ some c = rw (update_execution, e) at h in cc
    | inr (d, e) ↦ elim (Option-cases (event_of store d)) [
      | inl q ↦ let r : none ≡ some c = rw (update_execution, e, q) at h in cc
      | inr (event, q) ↦
          let r : some (
            record store {
              executions = update_rows (is_execution_of d event turn) f store.executions;
            },
            rowcount (is_execution_of d event turn) store.executions,
          )
              ≡ some c =
            rw (update_execution, e, q) at h in
          ap
            (λ (o : Option (Store × ℕ)). elim o [
              | none ↦ store.deliveries
              | some w ↦ w.0.deliveries
            ])
            (sym r)
    ]
  ]

  pub stop-deliveries :
      (clock : ℕ)
      → (stop_active_delivery_execution store id turn clock).0.deliveries ≡ store.deliveries
  unfolding stop_active_delivery_execution
  stop-deliveries clock = elim (Option-cases (update_execution store id turn (stopped clock))) [
    | inl e ↦ rw (stop_active_delivery_execution, e) refl
    | inr (c, e) ↦
        rw (stop_active_delivery_execution, e) (update_execution-deliveries (stopped clock) e)
  ]

  pub rebind-deliveries :
      (new : String) (clock : ℕ) {next : Store}
      → rebind_active_delivery_execution store id turn new clock ≡ some next
      → next.deliveries ≡ store.deliveries
  unfolding rebind_active_delivery_execution
  rebind-deliveries new clock {next} h =
      let f = λ (x : Execution). record x { turn_id = some new; updated_at = clock } in
      elim (Option-cases (update_execution store id turn f)) [
        | inl e ↦ let q : none ≡ some next = rw (rebind_active_delivery_execution, e) at h in cc
        | inr (c, e) ↦
            let same = update_execution-deliveries f e in
            let q : (if nat_beq c.1 1 then some c.0 else none) ≡ some next =
              rw (rebind_active_delivery_execution, e) at h in
            elim (Bool-cases (nat_beq c.1 1)) [
              | inl b ↦
                  let r : some c.0 ≡ some next = rw b at q in
                  let t : c.0 ≡ next = ground arith in
                  ap (λ (x : Store). x.deliveries) (sym t) ∙ same
              | inr b ↦ let r : none ≡ some next = rw b at q in cc
            ]
      ]
