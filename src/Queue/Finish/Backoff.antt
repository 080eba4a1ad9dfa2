-- ===== src/Queue/Finish/Backoff.antt =====
-- core/task_delivery_store.py, `finish_task_delivery` with `retry`, and the wait until the delivery may be claimed again.
use team_flow.Prelude.{
  ℕ, suc, zero, ◌+◌, ◌^◌, ◌≤◌, ◌≡◌, arith, min, inl, inr, Bool, true, false, Option, Bool-cases,
  leb, find?, All, All-of_mem, All-mem, Memᴰ, update_rows-All,
}
use team_flow.Queue.Tables.{Delivery, Store}
use team_flow.Queue.Execution.{has_id}
use team_flow.Queue.Finish.{
  Outcome, retry_delay, retry_at, finish_task_delivery, attempts_of, retried,
}
use team_flow.Queue.Claim.{is_ready}

power_pos : (n : ℕ) → 1 ≤ 2 ^ n
power_pos zero = omega arith
power_pos (suc n) = omega (arith, power_pos n)

retry_delay-bounds : (attempts : ℕ) → (1 ≤ retry_delay attempts) × (retry_delay attempts ≤ 60)
unfolding retry_delay
retry_delay-bounds attempts = omega (arith, power_pos (min attempts 6))

leb-true : (a b : ℕ) → a ≤ b → leb a b ≡ true
leb-true a b h = ground arith

leb-false : (a b : ℕ) → suc b ≤ a → leb a b ≡ false
leb-false a b h = ground arith

-- The wait of a retry, from the time that it is decided at.
Backoff : ℕ → ℕ → Delivery → Type 0
Backoff clock delivery_id d =
    has_id delivery_id d ≡ true
    → ((t : ℕ) → t ≤ clock → is_ready t d ≡ false)
      × ((t : ℕ) → clock + 60 ≤ t → is_ready t d ≡ true)

every_row-Backoff :
    (timestamp clock delivery_id : ℕ) (result : Option Outcome) (error reset : Bool) (store : Store)
    → All
        (Backoff clock delivery_id)
        (finish_task_delivery timestamp clock delivery_id result error true reset store).deliveries
unfolding finish_task_delivery retry_at Backoff
every_row-Backoff timestamp clock delivery_id result error reset store =
    let attempts = attempts_of (find? (has_id delivery_id) store.deliveries) in
    let f = retried (clock + retry_delay attempts) result reset in
    let bounds = retry_delay-bounds attempts in
    update_rows-All (has_id delivery_id) f (λ d. Unit) (Backoff clock delivery_id) store.deliveries
      (λ d _. elim (Bool-cases (has_id delivery_id d)) [
        | inl e ↦ rw e λ _. (
          λ t h. leb-false (clock + retry_delay attempts) t (omega arith),
          λ t h. leb-true (clock + retry_delay attempts) t (omega arith),
        )
        | inr e ↦ rw e λ h. let z : ⊥ = ground arith in absurd z
      ])
      (All-of_mem (λ d. Unit) store.deliveries λ d m. tt)

-- A delivery that is to be tried again is claimed neither at once nor before a second has passed, and
-- can be claimed again after a minute, however often it has been tried.
pub finish_task_delivery-waits :
    (timestamp clock delivery_id : ℕ) (result : Option Outcome) (error reset : Bool) (store : Store)
    (d : Delivery) (soon late : ℕ)
    → Memᴰ d
        (finish_task_delivery timestamp clock delivery_id result error true reset store).deliveries
    → d.id ≡ delivery_id
    → soon ≤ clock
    → clock + 60 ≤ late
    → (is_ready soon d ≡ false) × (is_ready late d ≡ true)
unfolding Backoff
finish_task_delivery-waits timestamp clock delivery_id result error reset store d soon late m i h
      k =
    let waits =
      All-mem (Backoff clock delivery_id) _
        (every_row-Backoff timestamp clock delivery_id result error reset store) m (ground arith) in
    (waits.0 soon h, waits.1 late k)
