-- ===== src/Tools/Visible/Honest.antt =====
-- The wait for a write only reads the board, and says that the write shows only if it does.
use team_flow.Prelude.{
  ℕ, zero, suc, ◌≡◌, refl, min, ◌*◌, String, true, ◌==◌, ltb, arith, Bool-cases, Option-cases, inl,
  inr, Dict, ◌+◌,
}
use team_flow.Workflow.Value.{Value, get}
use team_flow.Workflow.Repr.{as_text}
use team_flow.Workflow.Definition.{Task}
use team_flow.Workflow.Matching.{holds_all}
use team_flow.Tools.World.{World, Reads, still, read, wait, Reads-trans}
use team_flow.Tools.Visible.{
  Visible, seen, poll, poll_fuel, visible_write, write_visibility_initial_delay,
  write_visibility_timeout, write_visibility_max_delay,
}

module _ {S : Type 0} (w : World S) (patch : Dict Value) where
  -- From `s` only reads, and a card that is seen to show the patch does so.
  abbrev pub Honest : S → Visible × S → Type 0
  Honest s r = Reads w s r.1 × ((task : Task) → r.0 ≡ seen task true → holds_all task patch ≡ true)

  module _ (record_id : String) (deadline : ℕ) where
    poll-Honest :
        (fuel delay : ℕ) (latest : Task) (s : S)
        → Honest s (poll w patch fuel record_id deadline delay latest s)
    unfolding poll
    poll-Honest zero delay latest s = (still, λ task e. absurd (ground arith))
    poll-Honest (suc fuel) delay latest s = elim (Bool-cases (ltb (w.monotonic s) deadline)) [
      | inr e ↦ rw (e, poll) (still, λ task q. absurd (ground arith))
      | inl e ↦
          rw (e, poll)
            (let t = (w.get_lark_task record_id (w.sleep delay s)).1 in
              let once : Reads w s t = read record_id (wait delay still refl) refl in
              elim (Option-cases (w.get_lark_task record_id (w.sleep delay s)).0) [
                | inl f ↦ rw (f, poll) (once, λ task q. absurd (ground arith))
                | inr (found, f) ↦
                    rw (f, poll)
                      (elim (Bool-cases (holds_all found patch)) [
                        | inl g ↦ rw (g, poll) (once, λ task q. ground arith)
                        | inr g ↦
                            rw (g, poll)
                              (let (later, shown) =
                                  poll-Honest fuel (min (delay * 2) write_visibility_max_delay)
                                    found t in
                                (Reads-trans w once later, shown))
                      ])
              ])
    ]

  pub visible_write-Honest : (written : Task) (s : S) → Honest s (visible_write w patch written s)
  unfolding visible_write
  visible_write-Honest written s = elim (Bool-cases (holds_all written patch)) [
    | inl e ↦ rw e (still, λ task q. ground arith)
    | inr e ↦ rw e (elim (Bool-cases (as_text (get written "record_id") == "")) [
      | inl f ↦ rw f (still, λ task q. absurd (ground arith))
      | inr f ↦ rw f (
          poll-Honest (as_text (get written "record_id")) (w.monotonic s + write_visibility_timeout)
            poll_fuel write_visibility_initial_delay written s)
    ])
  ]
