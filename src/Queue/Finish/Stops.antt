-- ===== src/Queue/Finish/Stops.antt =====
-- core/task_delivery_store.py, `fail_claimed_task_delivery`, and the execution that it stops.
use team_flow.Prelude.{
  ℕ, ◌≡◌, ◌⊎◌, inl, inr, refl, sym, ap, ◌∙◌, arith, String, Bool, true, false, ◌&&◌, ◌||◌, Option,
  none, some, List, [], ◌∷◌, ◌==◌, eq_iff, any, Bool-cases, nat_beq, find?, update_rows, updated,
  rowcount, Pairwise, Pairwise-map, rowcount_one, Memᴰ, any-witness, rowcount-witness, rowcount-mem,
  find?-only, find?-update_rows, and-left, and-right,
}
use team_flow.Queue.Tables.{is_processing, Delivery, Execution, TaskEvent, Store, text_is}
use team_flow.Queue.Execution.{
  has_id, event_of, is_execution_of, update_execution, stop_active_delivery_execution, stopped,
}
use team_flow.Queue.Finish.{
  answered, fail_claimed_task_delivery, is_claimed, failed_claim, update_deliveries, runs_as,
}

-- The primary keys of the tables.
pub record Keyed (store : Store) : Type 0 where
  pub deliveries : Pairwise (λ (d e : Delivery). nat_beq d.id e.id ≡ false) store.deliveries
  pub events : Pairwise (λ (e f : TaskEvent). (e.event_key == f.event_key) ≡ false) store.events
  pub executions :
      Pairwise (λ (x y : Execution). (x.record_id == y.record_id) ≡ false) store.executions

-- The condition names a row, its event and an execution of it that is running.
claimed-witness :
    (store : Store) (id : ℕ) (turn : String) (d : Delivery)
    → is_claimed store id turn d ≡ true
    → (e : TaskEvent) × (x : Execution) × Memᴰ e store.events
      × ((e.event_key == d.event_key) ≡ true)
      × Memᴰ x store.executions
      × (is_execution_of d e turn x ≡ true)
claimed-witness store id turn d h =
    let running = and-right _ _ h in
    let found = any-witness _ store.events running in
    let e = found.0 in
    let ran = any-witness (runs_as d e) store.executions (and-right _ _ found.2) in
    let x = ran.0 in (e, x, found.1, and-left _ _ found.2, ran.1, same_turn d.turn_id e x own ran.2)
  where
    own : text_is d.turn_id turn ≡ true
    own =
        and-right (has_id id d && is_processing d.status) (text_is d.turn_id turn) (and-left _ _ h)

    same_turn :
        (t : Option String) (e : TaskEvent) (x : Execution)
        → text_is t turn ≡ true
        → runs_as (record d { turn_id = t }) e x ≡ true
        → is_execution_of d e turn x ≡ true
    same_turn none e x k r = cc
    same_turn (some t) e x k r = let q : t ≡ turn = (eq_iff t turn).0 k in rw (sym q) r

-- The same row, found again after the statement.
module _ (store : Store) (keyed : Keyed store) (id : ℕ) (turn status : String) (timestamp : ℕ)
    (d : Delivery) (m : Memᴰ d store.deliveries) (claimed : is_claimed store id turn d ≡ true) where
  abbrev failed_store : Store
  failed_store = update_deliveries (is_claimed store id turn) (failed_claim status timestamp) store

  updated-failed :
      updated (is_claimed store id turn) (failed_claim status timestamp) d
      ≡ failed_claim status timestamp d
  updated-failed = rw claimed refl

  find-failed : find? (has_id id) failed_store.deliveries ≡ some (failed_claim status timestamp d)
  find-failed =
      find?-update_rows (is_claimed store id turn) (failed_claim status timestamp) (has_id id)
        store.deliveries (λ y. refl)
        (find?-only (has_id id) store.deliveries
          (Pairwise-map (λ (y z : Delivery). nat_beq y.id z.id ≡ false) _ store.deliveries
            (λ y z k. ground arith) keyed.deliveries)
          m (and-left _ _ (and-left _ _ (and-left _ _ claimed))))
      ∙ ap some updated-failed

  module _ (e : TaskEvent) (x : Execution) (me : Memᴰ e store.events)
      (named : (e.event_key == d.event_key) ≡ true) (mx : Memᴰ x store.executions)
      (fits : is_execution_of d e turn x ≡ true) where
    event_of-failed : event_of failed_store (failed_claim status timestamp d) ≡ some e
    event_of-failed =
        find?-only (λ (f : TaskEvent). f.event_key == d.event_key) store.events
          (Pairwise-map (λ (y z : TaskEvent). (y.event_key == z.event_key) ≡ false) _ store.events
            (λ y z k. ground (
              arith,
              eq_iff y.event_key d.event_key,
              eq_iff z.event_key d.event_key,
              eq_iff y.event_key z.event_key,
            ))
            keyed.events)
          me named

    one_execution : rowcount (is_execution_of d e turn) store.executions ≡ 1
    one_execution =
        elim (rowcount_one (is_execution_of d e turn) store.executions (
          Pairwise-map (λ (y z : Execution). (y.record_id == z.record_id) ≡ false) _
            store.executions
            (λ y z k. ground (
              arith,
              eq_iff y.record_id e.record_id,
              eq_iff z.record_id e.record_id,
              eq_iff y.record_id z.record_id,
            ))
            keyed.executions)) [
              | inl z ↦
                  absurd (
                    omega (arith, rowcount-mem (is_execution_of d e turn) store.executions mx fits))
              | inr o ↦ o
            ]

    abbrev stopped_store : ℕ → Store
    stopped_store clock = record failed_store {
      executions = update_rows (is_execution_of d e turn) (stopped clock) store.executions;
    }

    stop-failed :
        (clock : ℕ)
        → stop_active_delivery_execution failed_store id turn clock ≡ (stopped_store clock, true)
    unfolding stop_active_delivery_execution update_execution
    stop-failed clock =
        rw
          (
            stop_active_delivery_execution, update_execution, find-failed, event_of-failed,
            one_execution,
          )
          refl

either : (b : Bool) → b ≡ false → (b || false) ≡ false
either b h = ground arith

-- A stopped execution is none that the statement would stop.
none_running :
    (d : Delivery) (e : TaskEvent) (turn : String) (clock : ℕ) (xs : List Execution)
    → any (is_execution_of d e turn) (update_rows (is_execution_of d e turn) (stopped clock) xs)
      ≡ false
none_running d e turn clock [] = refl
none_running d e turn clock (x ∷ xs) =
    let rest = none_running d e turn clock xs in
    elim (Bool-cases (is_execution_of d e turn x)) [
      | inl h ↦ rw (h, rest) (ground arith)
      | inr h ↦ rw (h, rest) (either (is_execution_of d e turn x) h)
    ]

-- The delivery has failed, and its execution, which was running, is stopped.
abbrev pub Failed : ℕ → String → String → ℕ → Store → Store → Type 0
Failed id turn status timestamp store next =
    (d : Delivery) × (e : TaskEvent) × (x : Execution) × Memᴰ d store.deliveries
    × (find? (has_id id) next.deliveries ≡ some (failed_claim status timestamp d))
    × (event_of store d ≡ some e)
    × Memᴰ x store.executions
    × (is_execution_of d e turn x ≡ true)
    × (any (is_execution_of d e turn) next.executions ≡ false)

-- With the tables' primary keys, failing a claimed delivery never raises: either nothing is changed,
-- or the delivery has failed and its execution, which was running in that turn, is running no more.
pub fail_claimed_task_delivery-answers :
    (timestamp clock id : ℕ) (turn status : String) (store : Store)
    → Keyed store
    → (fail_claimed_task_delivery timestamp clock id turn status store ≡ answered false store)
      ⊎ ((next : Store) × (fail_claimed_task_delivery timestamp clock id turn status store
            ≡ answered true next)
          × Failed id turn status timestamp store next)
unfolding fail_claimed_task_delivery
fail_claimed_task_delivery-answers timestamp clock id turn status store keyed =
    let p = is_claimed store id turn in
    elim (Bool-cases (nat_beq (rowcount p store.deliveries) 1)) [
      | inr e ↦ inl (rw (fail_claimed_task_delivery, e) refl)
      | inl e ↦
          let (d, m, c) = rowcount-witness p store.deliveries (ground arith) in
          let (ev, x, me, named, mx, fits) = claimed-witness store id turn d c in
          let ok =
            stop-failed store keyed id turn status timestamp d m c ev x me named mx fits clock in
          inr (
            stopped_store store keyed id turn status timestamp d m c ev x me named mx fits clock,
            rw (fail_claimed_task_delivery, e, ok) refl,
            (
              d,
              ev,
              x,
              m,
              find-failed store keyed id turn status timestamp d m c,
              event_of-failed store keyed id turn status timestamp d m c ev x me named mx fits,
              mx,
              fits,
              none_running d ev turn clock store.executions,
            ),
          )
    ]
