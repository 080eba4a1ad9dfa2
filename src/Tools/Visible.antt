-- ===== src/Tools/Visible.antt =====
-- core/teamflow_tools.py, `_visible_write` and `_patch_visible`: a write counts once it can be read.
pub mod Bounded
pub mod Honest
use team_flow.Prelude.{
  ℕ, zero, suc, ◌+◌, ◌*◌, min, String, Bool, true, false, not, Option, none, some, ◌==◌, ltb,
  if◌then◌else◌, Dict,
}
use team_flow.Workflow.Value.{Value, get}
use team_flow.Workflow.Repr.{as_text}
use team_flow.Workflow.Definition.{Task}
use team_flow.Workflow.Matching.{holds_all}
use team_flow.Tools.World.{World}

abbrev pub write_visibility_timeout : ℕ
write_visibility_timeout = 10000

abbrev pub write_visibility_initial_delay : ℕ
write_visibility_initial_delay = 250

abbrev pub write_visibility_max_delay : ℕ
write_visibility_max_delay = 1000

-- The delays are 250, 500 and then 1000 ms, so that twelve rounds pass the ten seconds.
abbrev pub poll_fuel : ℕ
poll_fuel = 13

-- The card and whether it shows the patch; a read that raises; or no fuel left.
pub data Visible : Type 0 where
  seen : Task → Bool → Visible
  read_raised : Visible
  out_of_fuel : Visible

module _ {S : Type 0} (w : World S) (patch : Dict Value) where
  -- The `while` loop.
  unfoldable pub poll : ℕ → String → ℕ → ℕ → Task → S → Visible × S
  poll zero record_id deadline delay latest s = (out_of_fuel, s)
  poll (suc fuel) record_id deadline delay latest s = elim (ltb (w.monotonic s) deadline) [
    | false ↦ (seen latest false, s)
    | true ↦
        let (answer, t) = w.get_lark_task record_id (w.sleep delay s) in
        elim answer [
          | none ↦ (read_raised, t)
          | some task ↦ elim (holds_all task patch) [
            | true ↦ (seen task true, t)
            | false ↦
                poll fuel record_id deadline (min (delay * 2) write_visibility_max_delay) task t
          ]
        ]
  ]

  unfoldable pub visible_write : Task → S → Visible × S
  visible_write written s =
      let record_id = as_text (get written "record_id") in
      if holds_all written patch
      then (seen written true, s)
      else if record_id == ""
      then (seen written false, s)
      else poll poll_fuel record_id (w.monotonic s + write_visibility_timeout)
          write_visibility_initial_delay written s
