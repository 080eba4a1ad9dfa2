-- ===== src/Runtime/Invoke.antt =====
-- core/tool_runtime.py, `invoke`: a granted call runs, once.
use team_flow.Prelude.{
  String, Bool, not, ◌||◌, Option, none, some, ◌==◌, elem, filter, ltb, if◌then◌else◌, lookup,
}
use team_flow.Workflow.Definition.{Assignment}
use team_flow.Runtime.State.{
  Grant, ToolRuntime, Host, Fault, authorization_expired, other_invocation, other_tool,
  arguments_changed, mutating_tool_names, runtime_tool_names,
}
use team_flow.Runtime.Admit.{Call, Reply, rejected, Admission, settled, admitted, admit}
use team_flow.Runtime.Execute.{execute}

abbrev pub pop_grant : {R : Type 0} → String → ToolRuntime R → ToolRuntime R
pop_grant token rt = record rt {
  grants = filter (λ (e : String × Grant). not (e.0 == token)) rt.grants;
}

module _ {S A R : Type 0} (h : Host S A R) where
  unfoldable pub validate_grant : Grant → String → String → A → S → Option Fault
  validate_grant g invocation_id tool_name arguments s =
      if not (ltb (h.monotonic s) g.expires_at)
      then some authorization_expired
      else if not (g.invocation_id == invocation_id)
      then some other_invocation
      else if not (g.tool_name == tool_name)
      then some other_tool
      else if not (g.input_hash == h.tool_input_hash arguments)
      then some arguments_changed
      else none

  abbrev pub takes_lock : Call A → Bool
  takes_lock call =
      elem call.tool_name runtime_tool_names || elem call.tool_name mutating_tool_names

  unfoldable pub execute_admitted :
      Call A → Admission R → ToolRuntime R × S → Reply R × (ToolRuntime R × S)
  execute_admitted call (settled reply) c = (reply, c)
  execute_admitted call (admitted current) c = execute h call current c

  -- What a call does once it holds the lock, if its tool takes one: its checks and its run are one step,
  -- as they are for calls that take the same lock.
  unfoldable pub proceed : Call A → Assignment → ToolRuntime R × S → Reply R × (ToolRuntime R × S)
  proceed call current c =
      if takes_lock call then execute_admitted call (admit h call c) c else execute h call current c

  unfoldable pub enter_call :
      Call A → Admission R → ToolRuntime R × S → Reply R × (ToolRuntime R × S)
  enter_call call (settled reply) c = (reply, c)
  enter_call call (admitted current) c = proceed call current c

  unfoldable pub invoke :
      String → String → String → A → ToolRuntime R × S → Reply R × (ToolRuntime R × S)
  invoke invocation_id token tool_name arguments (rt, s) =
      let left = pop_grant token rt in
      elim (lookup rt.grants token) [
        | none ↦ (rejected authorization_expired, (left, s))
        | some g ↦ elim (validate_grant g invocation_id tool_name arguments s) [
          | some fault ↦ (rejected fault, (left, s))
          | none ↦
              let call : Call A = record {
                invocation_id = invocation_id;
                grant = g;
                tool_name = tool_name;
                arguments = arguments;
              } in
              enter_call call (admit h call (left, s)) (left, s)
        ]
      ]
