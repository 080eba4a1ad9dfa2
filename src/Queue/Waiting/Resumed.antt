-- ===== src/Queue/Waiting/Resumed.antt =====
-- core/task_delivery_store.py, `mark_task_delivery_waiting_for_session` followed by
-- `resume_task_deliveries_waiting_for_session`.
use team_flow.Prelude.{
  ℕ, ◌≡◌, refl, subst, Bool, true, Memᴰ, eq_refl, update_rows, updated, update_rows-mem,
}
use team_flow.Queue.Tables.{waiting_session, Delivery, Store}
use team_flow.Queue.Waiting.{
  may_wait, parked, unparked, awaits_session, mark_task_delivery_waiting_for_session,
  resume_task_deliveries_waiting_for_session,
}
use team_flow.Queue.Claim.{is_ready}

-- What is left of the place that the delivery had in the queue.
abbrev pub SamePlace : Delivery → Delivery → Type 0
SamePlace d e =
    (e.id ≡ d.id)
    × (e.event_key ≡ d.event_key)
    × (e.agent_id ≡ d.agent_id)
    × (e.session_id ≡ d.session_id)
    × (e.attempts ≡ d.attempts)
    × (e.turn_id ≡ d.turn_id)
    × (e.client_message_id ≡ d.client_message_id)
    × (e.created_at ≡ d.created_at)

-- A delivery in process that may wait, once it has been put to wait for its session and that has been
-- resumed, can be claimed at any time, with the turn, message, attempts and place that it had.
pub resume-waiting :
    (store : Store) (id : ℕ) (continuation : Bool) (d : Delivery)
    → Memᴰ d store.deliveries
    → may_wait id continuation d ≡ true
    → (e : Delivery) × Memᴰ e
        (resume_task_deliveries_waiting_for_session d.session_id
          (mark_task_delivery_waiting_for_session id continuation store)).deliveries
      × SamePlace d e
      × ((t : ℕ) → is_ready t e ≡ true)
unfolding resume_task_deliveries_waiting_for_session mark_task_delivery_waiting_for_session
resume-waiting store id continuation d m w =
    let wait = may_wait id continuation in
    let park = parked waiting_session in
    let awaits = awaits_session d.session_id in
    let parked_d : updated wait park d ≡ park d = rw w refl in
    let resumed : updated awaits unparked (park d) ≡ unparked (park d) =
      rw (eq_refl d.session_id) refl in
    let there =
      update_rows-mem awaits unparked (update_rows wait park store.deliveries)
        (update_rows-mem wait park store.deliveries m) in
    let rows = update_rows awaits unparked (update_rows wait park store.deliveries) in
    (
      unparked (park d),
      subst (λ (e : Delivery). Memᴰ e rows) resumed
          (subst (λ (e : Delivery). Memᴰ (updated awaits unparked e) rows) parked_d there),
      (refl, refl, refl, refl, refl, refl, refl, refl),
      λ t. refl,
    )
