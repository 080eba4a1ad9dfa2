-- ===== src/Runtime/Steps/Untouched.antt =====
-- A call that runs leaves the grants alone, and a grant that is taken is gone.
use team_flow.Prelude.{
  ◌≡◌, refl, arith, String, Bool, true, false, not, ◌||◌, Option, none, some, ◌==◌, Bool-cases, inl,
  inr, [], ◌∷◌, filter, lookup, Dict,
}
use team_flow.Workflow.Definition.{Assignment}
use team_flow.Runtime.State.{Grant, ToolResult, ToolRuntime, Host}
use team_flow.Runtime.Admit.{Call, Admission, settled, admitted, admit}
use team_flow.Runtime.Execute.{
  cache_result, asks_to_end, seal_turn_if_requested, keep_result, finish_runtime, acknowledge,
  sync_and_keep, apply_turn_control, finish_mutating, finish_reading, run_tool, execute,
  turn_or_none,
}
use team_flow.Runtime.Invoke.{takes_lock, execute_admitted, proceed, enter_call}

module _ {S A R : Type 0} (h : Host S A R) where
  -- A call of a tool leaves the grants alone.
  seal-grants :
      (call : Call A) (r : ToolResult R) (rt : ToolRuntime R) (s : S)
      → (seal_turn_if_requested h call r (rt, s)).0.grants ≡ rt.grants
  unfolding seal_turn_if_requested
  seal-grants call r rt s =
      elim (Bool-cases (not r.ok || not (asks_to_end h r) || call.grant.turn_id == "")) [
        | inl e ↦ rw e refl
        | inr e ↦ rw e refl
      ]

  keep_result-grants :
      (call : Call A) (r : ToolResult R) (rt : ToolRuntime R) (s : S)
      → (keep_result h call r (rt, s)).1.0.grants ≡ rt.grants
  unfolding keep_result cache_result
  keep_result-grants call r rt s =
      let c = cache_result h call r (rt, s) in seal-grants call r c.0 c.1

  sync_and_keep-grants :
      (call : Call A) (current : Assignment) (acknowledges : Bool) (rt : ToolRuntime R)
      (x : ToolResult R) (s : S)
      → (sync_and_keep h call current acknowledges rt x s).1.0.grants ≡ rt.grants
  unfolding sync_and_keep
  sync_and_keep-grants call current acknowledges rt x s =
      let turn = turn_or_none h call in
      let sync = h.sync_task_activity current call.tool_name x call.grant.session_id turn s in
      let u = (acknowledge h call current x sync.1).1 in
      ground (arith, keep_result-grants call x rt sync.1, keep_result-grants call x rt u)

  finish_runtime-grants :
      (call : Call A) (rt : ToolRuntime R) (p : Option (ToolResult R) × S)
      → (finish_runtime h call rt p).1.0.grants ≡ rt.grants
  unfolding finish_runtime
  finish_runtime-grants call rt (none, t) = refl
  finish_runtime-grants call rt (some x, t) = keep_result-grants call x rt t

  finish_mutating-grants :
      (call : Call A) (current : Assignment) (rt : ToolRuntime R) (p : Option (ToolResult R) × S)
      → (finish_mutating h call current rt p).1.0.grants ≡ rt.grants
  unfolding finish_mutating
  finish_mutating-grants call current rt (none, t) = refl
  finish_mutating-grants call current rt (some x, t) =
      sync_and_keep-grants call current true rt (apply_turn_control h call x t) t

  finish_reading-grants :
      (call : Call A) (current : Assignment) (rt : ToolRuntime R) (p : Option (ToolResult R) × S)
      → (finish_reading h call current rt p).1.0.grants ≡ rt.grants
  unfolding finish_reading
  finish_reading-grants call current rt (none, t) = refl
  finish_reading-grants call current rt (some x, t) = sync_and_keep-grants call current false rt x t

  execute-grants :
      (call : Call A) (current : Assignment) (c : ToolRuntime R × S)
      → (execute h call current c).1.0.grants ≡ c.0.grants
  unfolding execute
  execute-grants call current (rt, s) =
      let ran = run_tool h call current s in
      ground (
        arith,
        finish_runtime-grants call rt ran,
        finish_mutating-grants call current rt ran,
        finish_reading-grants call current rt ran,
      )

  execute_admitted-grants :
      (call : Call A) (m : Admission R) (c : ToolRuntime R × S)
      → (execute_admitted h call m c).1.0.grants ≡ c.0.grants
  unfolding execute_admitted
  execute_admitted-grants call (settled reply) c = refl
  execute_admitted-grants call (admitted current) c = execute-grants call current c

  pub proceed-grants :
      (call : Call A) (current : Assignment) (c : ToolRuntime R × S)
      → (proceed h call current c).1.0.grants ≡ c.0.grants
  unfolding proceed
  proceed-grants call current c = elim (Bool-cases (takes_lock h call)) [
    | inl e ↦ rw (e, proceed) (execute_admitted-grants call (admit h call c) c)
    | inr e ↦ rw (e, proceed) (execute-grants call current c)
  ]

  pub enter_call-grants :
      (call : Call A) (m : Admission R) (c : ToolRuntime R × S)
      → (enter_call h call m c).1.0.grants ≡ c.0.grants
  unfolding enter_call
  enter_call-grants call (settled reply) c = refl
  enter_call-grants call (admitted current) c = proceed-grants call current c

pub lookup-filter :
    (p : String × Grant → Bool) (d : Dict Grant) (k : String)
    → lookup d k ≡ none
    → lookup (filter p d) k ≡ none
lookup-filter p [] k e = refl
lookup-filter p ((j, g) ∷ d) k e = ground (arith, lookup-filter p d k)

pub lookup-popped :
    (d : Dict Grant) (k : String)
    → lookup (filter (λ (e : String × Grant). not (e.0 == k)) d) k ≡ none
lookup-popped [] k = refl
lookup-popped ((j, g) ∷ d) k = ground (arith, lookup-popped d k)
