-- ===== src/Tools/Visible/Bounded.antt =====
-- The wait for a write to show ends, and tells the truth.
use team_flow.Prelude.{
  ℕ, zero, suc, ◌+◌, ◌*◌, ◌≤◌, ◌≡◌, ◌≢◌, min, String, false, ◌==◌, ltb, arith, Bool-cases,
  Option-cases, inl, inr, Dict,
}
use team_flow.Workflow.Value.{Value, get}
use team_flow.Workflow.Repr.{as_text}
use team_flow.Workflow.Definition.{Task}
use team_flow.Workflow.Matching.{holds_all}
use team_flow.Tools.World.{World}
use team_flow.Tools.Visible.{
  out_of_fuel, poll, poll_fuel, visible_write, write_visibility_initial_delay,
  write_visibility_timeout, write_visibility_max_delay,
}

-- `time.monotonic` and `time.sleep`: the clock does not go back, and a sleep lasts as long as asked.
pub record IsClock {S : Type 0} (w : World S) : Type 0 where
  pub sleeps : (delay : ℕ) (s : S) → w.monotonic s + delay ≤ w.monotonic (w.sleep delay s)
  pub reads :
      (record_id : String) (s : S) → w.monotonic s ≤ w.monotonic (w.get_lark_task record_id s).1

module _ {S : Type 0} (w : World S) (patch : Dict Value) (record_id : String) (deadline : ℕ) where
  -- One round of the loop, that does not go on to another.
  poll_round :
      (fuel delay : ℕ) (latest : Task) (s : S)
      → let t = (w.get_lark_task record_id (w.sleep delay s)).1 in
        ((task : Task)
          → (w.monotonic s ≤ deadline)
          → (poll w patch fuel record_id deadline
              (min (delay * 2) write_visibility_max_delay)
              task
              t).0
            ≢ out_of_fuel)
        → (poll w patch (suc fuel) record_id deadline delay latest s).0 ≢ out_of_fuel
  unfolding poll
  poll_round fuel delay latest s next r =
      elim (Option-cases (w.get_lark_task record_id (w.sleep delay s)).0) [
        | inl e ↦ ground arith
        | inr (task, e) ↦ ground (arith, next task)
      ]

  poll_late :
      (fuel delay : ℕ) (latest : Task) (s : S)
      → deadline ≤ w.monotonic s
      → (poll w patch (suc fuel) record_id deadline delay latest s).0 ≢ out_of_fuel
  unfolding poll
  poll_late fuel delay latest s h r =
      let late : ltb (w.monotonic s) deadline ≡ false = ground arith in ground arith

  module _ (clock : IsClock w) where
    -- With the longest delay every round takes a second off.
    poll_seconds :
        (fuel : ℕ) (latest : Task) (s : S)
        → deadline ≤ w.monotonic s + 1000 * fuel
        → (poll w patch (suc fuel) record_id deadline 1000 latest s).0 ≢ out_of_fuel
    poll_seconds zero latest s h = poll_late 0 1000 latest s (omega arith)
    poll_seconds (suc fuel) latest s h = poll_round (suc fuel) 1000 latest s (λ task early.
        poll_seconds fuel task (w.get_lark_task record_id (w.sleep 1000 s)).1
          (omega (arith, clock.sleeps 1000 s, clock.reads record_id (w.sleep 1000 s))))

    -- The two shorter delays first.
    poll_ends :
        (latest : Task) (s : S)
        → deadline ≤ w.monotonic s + write_visibility_timeout
        → (poll w patch poll_fuel record_id deadline write_visibility_initial_delay latest s).0
          ≢ out_of_fuel
    poll_ends latest s h =
        let t = (w.get_lark_task record_id (w.sleep 250 s)).1 in
        let u = (w.get_lark_task record_id (w.sleep 500 t)).1 in
        poll_round 12 250 latest s (λ task early. poll_round 11 500 task t (λ task' early'.
          poll_seconds 10 task' u (
            omega (
              arith,
              clock.sleeps 250 s,
              clock.reads record_id (w.sleep 250 s),
              clock.sleeps 500 t,
              clock.reads record_id (w.sleep 500 t),
            ))))

module _ {S : Type 0} (w : World S) (clock : IsClock w) (patch : Dict Value) where
  -- On a clock that does not go back the wait for a write ends: it takes twelve rereads at most.
  pub visible_write_ends :
      (written : Task) (s : S) → (visible_write w patch written s).0 ≢ out_of_fuel
  unfolding visible_write
  visible_write_ends written s r = elim (Bool-cases (holds_all written patch)) [
    | inl e ↦ ground arith
    | inr e ↦ elim (Bool-cases (as_text (get written "record_id") == "")) [
      | inl f ↦ ground arith
      | inr f ↦
          poll_ends w patch (as_text (get written "record_id"))
            (w.monotonic s + write_visibility_timeout) clock written s (omega arith) (ground arith)
    ]
  ]
