-- ===== src/Queue/Machine/Steps.antt =====
-- The state machine and any call of core/task_delivery_store.py, and what a sequence of calls can make
-- of a delivery.
use team_flow.Prelude.{
  ◌≡◌, refl, arith, Bool, true, false, not, ◌||◌, List, [], ◌∷◌, Rowwise, all, Rowwise-refl,
  Rowwise-trans, Rowwise-map, ◌∙◌, and-left, and-right,
}
use team_flow.Workflow.Definition.{Definition}
use team_flow.Queue.Tables.{
  Status, pending, retry, processing, waiting_permission, waiting_session, completed, failed,
  canceled, status_eq, Delivery, Store,
}
use team_flow.Queue.Calls.{
  Call, recovering, retrying_failed, claiming, finishing, failing, awaiting_permission,
  awaiting_session, resuming_session, resuming_permission, starting_turn, queueing, queued,
  clearing_queueing, acknowledging, deferring, canceling, canceling_reconciled, step, run,
}
use team_flow.Queue.Machine.{may_move, Tracks}
use team_flow.Queue.Machine.Updates.{
  Follows, recovering-Follows, finishing-Follows, awaiting_permission-Follows,
  awaiting_session-Follows, resuming_session-Follows, resuming_permission-Follows,
  clearing_queueing-Follows, deferring-Follows, canceling-Follows,
}
use team_flow.Queue.Machine.Answers.{
  failing-Follows, starting_turn-Follows, queueing-Follows, queued-Follows, acknowledging-Follows,
  canceling_reconciled-Follows,
}
use team_flow.Queue.Machine.Loops.{claiming-Follows, retrying_failed-Follows}

-- A call adds and removes no delivery, changes none's id, event, agent or session, and moves the status
-- of each only along the edges that the state machine has for that call.
pub step-Follows :
    (definition : Definition) (call : Call) (store : Store)
    → Follows call store (step definition call store)
unfolding step
step-Follows definition (recovering timestamp) store = recovering-Follows timestamp store
step-Follows definition (retrying_failed timestamp limit) store =
    retrying_failed-Follows definition timestamp limit store
step-Follows definition (claiming uuid4 timestamp limit excluded) store =
    claiming-Follows definition uuid4 timestamp limit excluded store
step-Follows definition (finishing timestamp clock id result error again reset) store =
    finishing-Follows timestamp clock id result error again reset store
step-Follows definition (failing timestamp clock id turn status) store =
    failing-Follows timestamp clock id turn status store
step-Follows definition (awaiting_permission id continuation) store =
    awaiting_permission-Follows id continuation store
step-Follows definition (awaiting_session id continuation) store =
    awaiting_session-Follows id continuation store
step-Follows definition (resuming_session session) store = resuming_session-Follows session store
step-Follows definition resuming_permission store = resuming_permission-Follows store
step-Follows definition (starting_turn timestamp clock soon id turn previous rebind) store =
    starting_turn-Follows timestamp clock soon id turn previous rebind store
step-Follows definition (queueing soon id previous) store = queueing-Follows soon id previous store
step-Follows definition (queued soon id previous) store = queued-Follows soon id previous store
step-Follows definition (clearing_queueing id previous) store =
    clearing_queueing-Follows id previous store
step-Follows definition (acknowledging timestamp turn agent record_id) store =
    acknowledging-Follows timestamp turn agent record_id store
step-Follows definition (deferring soon id) store = deferring-Follows soon id store
step-Follows definition (canceling timestamp id) store = canceling-Follows timestamp id store
step-Follows definition (canceling_reconciled timestamp clock id status turn was now allow) store =
    canceling_reconciled-Follows timestamp clock id status turn was now allow store

-- A call other than `finish_task_delivery`.
abbrev pub is_other : Call → Bool
is_other (finishing _ _ _ _ _ _ _) = false
is_other _ = true

-- What a delivery can become without `finish_task_delivery`.
abbrev pub may_become : Status → Status → Bool
may_become canceled t = status_eq t canceled
may_become completed t = status_eq t completed || status_eq t canceled
may_become _ t = not (status_eq t completed)

abbrev pub Becomes : Delivery → Delivery → Type 0
Becomes d e = (e.id ≡ d.id) × (may_become d.status e.status ≡ true)

becomes_of_moves :
    (call : Call) (s t : Status)
    → is_other call ≡ true
    → (status_eq s t || may_move call s t) ≡ true
    → may_become s t ≡ true
becomes_of_moves call pending t o h = ground arith
becomes_of_moves call retry t o h = ground arith
becomes_of_moves call processing t o h = ground arith
becomes_of_moves call waiting_permission t o h = ground arith
becomes_of_moves call waiting_session t o h = ground arith
becomes_of_moves call completed t o h = ground arith
becomes_of_moves call failed t o h = ground arith
becomes_of_moves call canceled t o h = ground arith

becomes_trans :
    (s t u : Status) → may_become s t ≡ true → may_become t u ≡ true → may_become s u ≡ true
becomes_trans pending t u h k = ground arith
becomes_trans retry t u h k = ground arith
becomes_trans processing t u h k = ground arith
becomes_trans waiting_permission t u h k = ground arith
becomes_trans waiting_session t u h k = ground arith
becomes_trans completed t u h k = ground arith
becomes_trans failed t u h k = ground arith
becomes_trans canceled t u h k = ground arith

becomes_same : (s : Status) → may_become s s ≡ true
becomes_same pending = refl
becomes_same retry = refl
becomes_same processing = refl
becomes_same waiting_permission = refl
becomes_same waiting_session = refl
becomes_same completed = refl
becomes_same failed = refl
becomes_same canceled = refl

Becomes-trans : (d e f : Delivery) → Becomes d e → Becomes e f → Becomes d f
Becomes-trans d e f h k = (k.0 ∙ h.0, becomes_trans d.status e.status f.status h.1 k.1)

Becomes-refl : (d : Delivery) → Becomes d d
Becomes-refl d = (refl, becomes_same d.status)

-- Over any sequence of calls other than `finish_task_delivery`, no delivery is added or removed, none
-- becomes completed that was not, a completed one stays so or is canceled, and a canceled one stays.
pub run-Becomes :
    (definition : Definition) (calls : List Call) (store : Store)
    → all is_other calls ≡ true
    → Rowwise Becomes store.deliveries (run definition calls store).deliveries
unfolding run
run-Becomes definition [] store o = Rowwise-refl Becomes store.deliveries Becomes-refl
run-Becomes definition (call ∷ calls) store o =
    let next = step definition call store in
    Rowwise-trans Becomes store.deliveries next.deliveries _ Becomes-trans
      (Rowwise-map (Tracks (may_move call)) Becomes store.deliveries next.deliveries
        (λ d e h. (h.0, becomes_of_moves call d.status e.status (and-left _ _ o) h.4))
        (step-Follows definition call store))
      (run-Becomes definition calls next (and-right _ _ o))
