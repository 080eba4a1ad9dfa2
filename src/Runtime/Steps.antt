-- ===== src/Runtime/Steps.antt =====
-- The runtime over time: calls are granted, take their grants and proceed, in any order, while the
-- rest of the world goes on. Between two checks of one call others may come, so that taking a grant
-- and proceeding are two steps.
pub mod Later
pub mod Keeping
pub mod Kept
pub mod Remembers
pub mod Untouched
use team_flow.Prelude.{ℕ, ◌≡◌, ◌≤◌, refl, String, Option, Bool}
use team_flow.Workflow.Definition.{Assignment}
use team_flow.Runtime.State.{ToolResult, ToolRuntime, Host}
use team_flow.Runtime.Authorize.{Asking, authorize}
use team_flow.Runtime.Admit.{Call}
use team_flow.Runtime.Invoke.{pop_grant, proceed}

-- The clock does not go back while something is called.
pub record IsClock {S A R : Type 0} (h : Host S A R) : Type 0 where
  pub tokens : (s : S) → h.monotonic s ≤ h.monotonic (h.token_urlsafe s).1
  pub tools :
      (a : Assignment) (tool_name : String) (arguments : A) (invocation_id : String) (s : S)
      → h.monotonic s ≤ h.monotonic (h.invoke_tool a tool_name arguments invocation_id s).1
  pub syncs :
      (a : Assignment) (tool_name : String) (result : ToolResult R) (session_id : String)
      (turn_id : Option String) (s : S)
      → h.monotonic s ≤ h.monotonic (h.sync_task_activity a tool_name result session_id turn_id s).1
  pub acknowledgements :
      (workspace turn_id agent_id record_id : String) (s : S)
      → h.monotonic s
        ≤ h.monotonic (h.acknowledge_delivery workspace turn_id agent_id record_id s).1

module _ {S A R : Type 0} (h : Host S A R) where
  pub data Steps (c : ToolRuntime R × S) : ToolRuntime R × S → Type 0 where
    start : Steps c c
    authorizing :
        {c₁ c₂ : ToolRuntime R × S} (asking : Asking A)
        → Steps c c₁
        → c₂ ≡ (authorize h asking c₁).1
        → Steps c c₂
    taking :
        {rt : ToolRuntime R} {s : S} {c₂ : ToolRuntime R × S} (token : String)
        → Steps c (rt, s)
        → c₂ ≡ (pop_grant token rt, s)
        → Steps c c₂
    proceeding :
        {c₁ c₂ : ToolRuntime R × S} (call : Call A) (current : Assignment)
        → Steps c c₁
        → c₂ ≡ (proceed h call current c₁).1
        → Steps c c₂
    elapsing :
        {rt : ToolRuntime R} {s t : S}
        → Steps c (rt, s)
        → h.monotonic s ≤ h.monotonic t
        → Steps c (rt, t)
