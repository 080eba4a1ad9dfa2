-- ===== src/Runtime/Admit.antt =====
-- core/tool_runtime.py: the checks before a granted call runs, `_cached_result`, `_validate_turn_open`,
-- `_validate_workspace` and `_current_assignment`.
use team_flow.Prelude.{
  String, Bool, true, not, ◌||◌, none, some, ◌==◌, elem, ltb, if◌then◌else◌, lookup,
}
use team_flow.Workflow.Definition.{Assignment}
use team_flow.Runtime.State.{
  Grant, ToolResult, ToolRuntime, closed_until, Host, Fault, turn_closed, other_call,
  workspace_disabled, assignment_changed, read_only_tool_names,
}

-- A call of `invoke` whose grant has been taken.
pub record Call (A : Type 0) : Type 0 where
  pub invocation_id : String
  pub grant : Grant
  pub tool_name : String
  pub arguments : A

-- A result, a ValueError, or an exception of what is called.
pub data Reply (R : Type 0) : Type 0 where
  replied : ToolResult R → Reply R
  rejected : Fault → Reply R
  raised : Reply R

-- Whether a call may run: it is answered already, or it runs as the assignment.
pub data Admission (R : Type 0) : Type 0 where
  settled : Reply R → Admission R
  admitted : Assignment → Admission R

-- `_cached_result` is None, a result, or the ValueError.
pub data CacheLookup (R : Type 0) : Type 0 where
  miss : CacheLookup R
  hit : ToolResult R → CacheLookup R
  mismatch : CacheLookup R

module _ {S A R : Type 0} (h : Host S A R) where
  unfoldable pub cached_result : Call A → ToolRuntime R → CacheLookup R
  cached_result call rt = elim (lookup rt.results call.invocation_id) [
    | none ↦ miss
    | some cached ↦
        if not (cached.session_id == call.grant.session_id)
          || not (cached.tool_name == call.tool_name)
          || not (cached.input_hash == call.grant.input_hash)
        then mismatch
        else hit cached.result
  ]

  -- `_validate_turn_open` passes.
  unfoldable pub turn_open : Call A → ToolRuntime R → S → Bool
  turn_open call rt s =
      if elem call.tool_name read_only_tool_names || call.grant.turn_id == ""
      then true
      else elim (closed_until call.grant.session_id call.grant.turn_id rt.closed_turns) [
        | none ↦ true
        | some until ↦ not (ltb (h.monotonic s) until)
      ]

  abbrev pub workspace_of : Call A → String
  workspace_of call = call.grant.assignment.workspace_root

  -- `_current_assignment`
  unfoldable pub current_assignment : Call A → S → Admission R
  current_assignment call s =
      elim (h.find_agent_assignment (workspace_of call) call.grant.session_id s) [
        | none ↦ settled (rejected assignment_changed)
        | some current ↦
            if not (current.agent_id == call.grant.assignment.agent_id)
            then settled (rejected assignment_changed)
            else admitted current
      ]

  unfoldable pub admit_new : Call A → ToolRuntime R × S → Admission R
  admit_new call (rt, s) =
      if not (turn_open call rt s)
      then settled (rejected turn_closed)
      else if not (h.workspace_active (workspace_of call) s)
          || not (h.workspace_enabled (workspace_of call) s)
      then settled (rejected workspace_disabled)
      else current_assignment call s

  -- The checks that are made before a call and, once it holds the lock, again.
  unfoldable pub admit : Call A → ToolRuntime R × S → Admission R
  admit call (rt, s) = elim (cached_result call rt) [
    | hit result ↦ settled (replied result)
    | mismatch ↦ settled (rejected other_call)
    | miss ↦ admit_new call (rt, s)
  ]
