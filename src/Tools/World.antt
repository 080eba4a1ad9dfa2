-- ===== src/Tools/World.antt =====
-- What the tools call and do not decide: the Lark board, git, the files, the clock. `S` is the state
-- of all that; a call may change it. A board call that raises has no card. Times are milliseconds.
use team_flow.Prelude.{ℕ, ◌≡◌, String, Bool, Option, Dict}
use team_flow.Workflow.Value.{Value}
use team_flow.Workflow.Definition.{Task}
use team_flow.Delivery.Git.{Git}
use team_flow.Delivery.Gate.{Files}
use team_flow.Delivery.Resources.{Json}

pub record World (S : Type 0) : Type 0 where
  pub get_lark_task : String → S → Option Task × S
  pub upsert_lark_task : Option String → Dict Value → S → Option Task × S
  pub sleep : ℕ → S → S
  pub monotonic : S → ℕ
  pub git : S → Git
  -- `none` stands for the ValueError of unreadable settings.
  pub version_control_enabled : S → Option Bool
  pub files : Files
  pub json : Json

module _ {S : Type 0} (w : World S) where
  -- From one state to another by reading the board and by waiting: nothing is written.
  pub data Reads (s : S) : S → Type 0 where
    still : Reads s s
    read :
        {t u : S} (record_id : String) → Reads s t → u ≡ (w.get_lark_task record_id t).1 → Reads s u
    wait : {t u : S} (delay : ℕ) → Reads s t → u ≡ w.sleep delay t → Reads s u

  pub Reads-trans : {s t u : S} → Reads s t → Reads t u → Reads s u
  Reads-trans a still = a
  Reads-trans a (read r b e) = read r (Reads-trans a b) e
  Reads-trans a (wait d b e) = wait d (Reads-trans a b) e
