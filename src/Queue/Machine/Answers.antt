-- ===== src/Queue/Machine/Answers.antt =====
-- The state machine and the calls of core/task_delivery_store.py that may raise, or that change other
-- tables besides.
use team_flow.Prelude.{
  ℕ, ◌≡◌, inl, inr, refl, arith, String, Bool, true, false, ◌||◌, Option, none, some, List, ◌==◌,
  Bool-cases, Option-cases, if◌then◌else◌, Rowwise, rowcount, nat_beq,
}
use team_flow.Queue.Tables.{Status, Delivery, Store, nonempty}
use team_flow.Queue.Execution.{stop_active_delivery_execution}
use team_flow.Queue.Finish.{
  fail_claimed_task_delivery, cancel_reconciled_task_delivery, is_claimed, failed_claim,
  update_deliveries, stop_or_raise, may_cancel, canceled_as,
}
use team_flow.Queue.Turns.{
  mark_task_delivery_turn_started, mark_task_delivery_queueing, mark_task_delivery_queued,
  mark_task_delivery_queue_state, rebound, start_turn, may_start, started, may_queue,
  acknowledge_task_delivery_turn, acknowledge_found,
}
use team_flow.Queue.Calls.{
  Call, failing, starting_turn, queueing, queued, acknowledging, canceling_reconciled, after,
}
use team_flow.Queue.Machine.{may_move, Tracks, Tracks-rows, update_rows-Tracks, status_eq_refl}
use team_flow.Queue.Machine.Updates.{Follows, stop-deliveries, rebind-deliveries}

-- From the deliveries alone.
abbrev pub Leads : Call → List Delivery → List Delivery → Type 0
Leads call = Rowwise (Tracks (may_move call))

after-stop_or_raise :
    (call : Call) (store : Store) (c : Store × Bool)
    → Leads call store.deliveries c.0.deliveries
    → Follows call store (after store (stop_or_raise c))
after-stop_or_raise call store (next, true) h = h
after-stop_or_raise call store (next, false) h = Tracks-rows (may_move call) store.deliveries

pub failing-Follows :
    (timestamp clock id : ℕ) (turn status : String) (store : Store)
    → Follows
        (failing timestamp clock id turn status)
        store
        (after store (fail_claimed_task_delivery timestamp clock id turn status store))
unfolding fail_claimed_task_delivery
failing-Follows timestamp clock id turn status store =
    let call = failing timestamp clock id turn status in
    let p = is_claimed store id turn in
    let next = update_deliveries p (failed_claim status timestamp) store in
    elim (Bool-cases (nat_beq (rowcount p store.deliveries) 1)) [
      | inl e ↦
          rw (fail_claimed_task_delivery, e)
            (after-stop_or_raise call store (stop_active_delivery_execution next id turn clock) (
              rw (stop-deliveries next id turn clock) (
                update_rows-Tracks (may_move call) p (failed_claim status timestamp)
                  store.deliveries λ d h. (refl, refl, refl, refl, ground arith))))
      | inr e ↦ rw (fail_claimed_task_delivery, e) (Tracks-rows (may_move call) store.deliveries)
    ]

start_turn-Follows :
    (call : Call) (timestamp soon id : ℕ) (turn : String) (previous : Option String)
    (store next : Store)
    → next.deliveries ≡ store.deliveries
    → Follows call store (after store (start_turn timestamp soon id turn previous next))
unfolding start_turn
start_turn-Follows call timestamp soon id turn previous store next same =
    let p = may_start id previous in
    elim (Bool-cases (nat_beq (rowcount p next.deliveries) 1)) [
      | inl e ↦
          rw (start_turn, e, same)
            (update_rows-Tracks (may_move call) p (started turn timestamp soon) store.deliveries
              λ d h. (refl, refl, refl, refl, ground (arith, status_eq_refl d.status)))
      | inr e ↦ rw (start_turn, e) (Tracks-rows (may_move call) store.deliveries)
    ]

pub rebound-deliveries :
    (clock id : ℕ) (turn : String) (previous : Option String) (rebind : Bool) (store next : Store)
    → rebound clock id turn previous rebind store ≡ some next
    → next.deliveries ≡ store.deliveries
unfolding rebound
rebound-deliveries clock id turn previous false store next h =
    let q : store ≡ next = ground arith in rw q refl
rebound-deliveries clock id turn none true store next h = cc
rebound-deliveries clock id turn (some previous) true store next h =
    rebind-deliveries store id previous turn clock {next = next} (ground arith)

pub starting_turn-Follows :
    (timestamp clock soon id : ℕ) (turn : String) (previous : Option String) (rebind : Bool)
    (store : Store)
    → Follows (starting_turn timestamp clock soon id turn previous rebind) store (
        after store
          (mark_task_delivery_turn_started timestamp clock soon id turn previous rebind store))
unfolding mark_task_delivery_turn_started
starting_turn-Follows timestamp clock soon id turn previous rebind store =
    let call = starting_turn timestamp clock soon id turn previous rebind in
    elim (Option-cases (rebound clock id turn previous rebind store)) [
      | inl e ↦
          rw (mark_task_delivery_turn_started, e) (Tracks-rows (may_move call) store.deliveries)
      | inr (next, e) ↦
          rw (mark_task_delivery_turn_started, e)
            (start_turn-Follows call timestamp soon id turn previous store next
              (rebound-deliveries clock id turn previous rebind store next e))
    ]

queue_state-Follows :
    (call : Call) (soon id : ℕ) (status : String) (previous : Option String) (store : Store)
    → Follows call store
        (after store (mark_task_delivery_queue_state soon id status previous store))
unfolding mark_task_delivery_queue_state
queue_state-Follows call soon id status previous store =
    let p = may_queue id previous in
    elim (Bool-cases (nat_beq (rowcount p store.deliveries) 1)) [
      | inl e ↦
          rw (mark_task_delivery_queue_state, e)
            (update_rows-Tracks (may_move call) p _ store.deliveries
              λ d h. (refl, refl, refl, refl, ground (arith, status_eq_refl d.status)))
      | inr e ↦
          rw (mark_task_delivery_queue_state, e) (Tracks-rows (may_move call) store.deliveries)
    ]

pub queueing-Follows :
    (soon id : ℕ) (previous : Option String) (store : Store)
    → Follows
        (queueing soon id previous)
        store
        (after store (mark_task_delivery_queueing soon id previous store))
unfolding mark_task_delivery_queueing
queueing-Follows soon id previous store =
    queue_state-Follows (queueing soon id previous) soon id "queueing" previous store

pub queued-Follows :
    (soon id : ℕ) (previous : Option String) (store : Store)
    → Follows
        (queued soon id previous)
        store
        (after store (mark_task_delivery_queued soon id previous store))
unfolding mark_task_delivery_queued
queued-Follows soon id previous store =
    queue_state-Follows (queued soon id previous) soon id "queued" previous store

acknowledge_found-deliveries :
    (timestamp : ℕ) (turn : String) (found : Option Delivery) (store : Store)
    → (acknowledge_found timestamp turn found store).0.deliveries ≡ store.deliveries
unfolding acknowledge_found
acknowledge_found-deliveries timestamp turn none store = refl
acknowledge_found-deliveries timestamp turn (some d) store = refl

pub acknowledging-Follows :
    (timestamp : ℕ) (turn agent record_id : String) (store : Store)
    → Follows
        (acknowledging timestamp turn agent record_id)
        store
        (acknowledge_task_delivery_turn timestamp turn agent record_id store).0
unfolding acknowledge_task_delivery_turn
acknowledging-Follows timestamp turn agent record_id store =
    let call = acknowledging timestamp turn agent record_id in
    elim (Bool-cases (turn == "" || agent == "" || record_id == "")) [
      | inl e ↦
          rw (acknowledge_task_delivery_turn, e) (Tracks-rows (may_move call) store.deliveries)
      | inr e ↦
          rw (acknowledge_task_delivery_turn, e, acknowledge_found-deliveries)
            (Tracks-rows (may_move call) store.deliveries)
    ]

pub canceling_reconciled-Follows :
    (timestamp clock id : ℕ) (status : Status) (turn was : Option String) (now : String)
    (allow : Bool) (store : Store)
    → Follows
        (canceling_reconciled timestamp clock id status turn was now allow)
        store
        (cancel_reconciled_task_delivery timestamp clock id status turn was now allow store).0
unfolding cancel_reconciled_task_delivery
canceling_reconciled-Follows timestamp clock id status turn was now allow store =
    let call = canceling_reconciled timestamp clock id status turn was now allow in
    let p = may_cancel id status turn was allow store in
    let next = update_deliveries p (canceled_as now timestamp) store in
    let tracked =
      update_rows-Tracks (may_move call) p (canceled_as now timestamp) store.deliveries
        λ d h. (refl, refl, refl, refl, ground arith) in
    elim (Bool-cases (nat_beq (rowcount p store.deliveries) 1)) [
      | inl e ↦ elim (Option-cases (if allow then nonempty turn else none)) [
        | inl q ↦ rw (cancel_reconciled_task_delivery, e, q) tracked
        | inr (t, q) ↦
            rw (cancel_reconciled_task_delivery, e, q)
              (rw (stop-deliveries next id t clock) tracked)
      ]
      | inr e ↦
          rw (cancel_reconciled_task_delivery, e) (Tracks-rows (may_move call) store.deliveries)
    ]
