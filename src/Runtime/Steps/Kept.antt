-- ===== src/Runtime/Steps/Kept.antt =====
-- Every step of the runtime keeps what has not expired.
use team_flow.Prelude.{
  ◌≤◌, true, false, Option, none, some, ◌==◌, elem, Bool-cases, Option-cases, inl, inr,
}
use team_flow.Workflow.Definition.{Assignment}
use team_flow.Runtime.State.{
  mutating_tool_names, runtime_tool_names, ToolResult, ToolRuntime, Host, is_tool,
}
use team_flow.Runtime.Authorize.{Asking, purge, short_name, refuses_turn, grant_call, authorize}
use team_flow.Runtime.Admit.{Call, Admission, settled, admitted, admit}
use team_flow.Runtime.Execute.{
  finish_runtime, apply_turn_control, finish_mutating, finish_reading, run_tool, execute,
}
use team_flow.Runtime.Invoke.{takes_lock, execute_admitted, proceed}
use team_flow.Runtime.Steps.{IsClock, Steps, start, authorizing, taking, proceeding, elapsing}
use team_flow.Runtime.Steps.Later.{
  Later, Later-refl, Later-trans, Later-world, Later-grants, Later-purge,
}
use team_flow.Runtime.Steps.Keeping.{Later-keep_result, Later-sync_and_keep}

module _ {S A R : Type 0} (h : Host S A R) where
  module _ (clock : IsClock h) where
    finish_runtime-Later :
        (call : Call A) (rt : ToolRuntime R) (s : S) (p : Option (ToolResult R) × S)
        → h.monotonic s ≤ h.monotonic p.1
        → Later h (rt, s) (finish_runtime h call rt p).1
    unfolding finish_runtime
    finish_runtime-Later call rt s (none, t) m = Later-world h rt s t m
    finish_runtime-Later call rt s (some result, t) m =
        Later-trans h (Later-world h rt s t m) (Later-keep_result h call result rt t)

    finish_mutating-Later :
        (call : Call A) (current : Assignment) (rt : ToolRuntime R) (s : S)
        (p : Option (ToolResult R) × S)
        → h.monotonic s ≤ h.monotonic p.1
        → Later h (rt, s) (finish_mutating h call current rt p).1
    unfolding finish_mutating
    finish_mutating-Later call current rt s (none, t) m = Later-world h rt s t m
    finish_mutating-Later call current rt s (some result, t) m =
        Later-trans h (Later-world h rt s t m)
          (Later-sync_and_keep h clock call current true rt (apply_turn_control h call result t) t)

    finish_reading-Later :
        (call : Call A) (current : Assignment) (rt : ToolRuntime R) (s : S)
        (p : Option (ToolResult R) × S)
        → h.monotonic s ≤ h.monotonic p.1
        → Later h (rt, s) (finish_reading h call current rt p).1
    unfolding finish_reading
    finish_reading-Later call current rt s (none, t) m = Later-world h rt s t m
    finish_reading-Later call current rt s (some result, t) m =
        Later-trans h (Later-world h rt s t m)
          (Later-sync_and_keep h clock call current false rt result t)

    Later-execute :
        (call : Call A) (current : Assignment) (c : ToolRuntime R × S)
        → Later h c (execute h call current c).1
    unfolding execute
    Later-execute call current (rt, s) =
        let ran = run_tool h call current s in
        let m = clock.tools current call.tool_name call.arguments call.invocation_id s in
        elim (Bool-cases (elem call.tool_name runtime_tool_names)) [
          | inl e ↦ rw (e, execute) (finish_runtime-Later call rt s ran m)
          | inr e ↦ elim (Bool-cases (elem call.tool_name mutating_tool_names)) [
            | inl f ↦ rw (e, execute, f) (finish_mutating-Later call current rt s ran m)
            | inr f ↦ rw (e, execute, f) (finish_reading-Later call current rt s ran m)
          ]
        ]

    execute_admitted-Later :
        (call : Call A) (m : Admission R) (c : ToolRuntime R × S)
        → Later h c (execute_admitted h call m c).1
    unfolding execute_admitted
    execute_admitted-Later call (settled reply) c = Later-refl h c
    execute_admitted-Later call (admitted current) c = Later-execute call current c

    pub Later-proceed :
        (call : Call A) (current : Assignment) (c : ToolRuntime R × S)
        → Later h c (proceed h call current c).1
    unfolding proceed
    Later-proceed call current c = elim (Bool-cases (takes_lock h call)) [
      | inl e ↦ rw (e, proceed) (execute_admitted-Later call (admit h call c) c)
      | inr e ↦ rw (e, proceed) (Later-execute call current c)
    ]

    Later-grant_call :
        (asking : Asking A) (assignment : Assignment) (rt : ToolRuntime R) (s : S)
        → Later h (rt, s) (grant_call h asking assignment (rt, s)).1
    unfolding grant_call
    Later-grant_call asking assignment rt s =
        let t = (h.token_urlsafe s).1 in
        let left = purge (h.monotonic t) rt in
        let purged : Later h (rt, s) (left, t) =
          Later-trans h (Later-world h rt s t (clock.tokens s)) (Later-purge h rt t) in
        elim (Bool-cases (
          refuses_turn left asking.invocation_id asking.session_id asking.turn_id
            (short_name asking.tool_name))) [
              | inl e ↦ rw e purged
              | inr e ↦ rw e (Later-trans h purged (Later-grants h left _ t))
            ]

    Later-authorize :
        (asking : Asking A) (c : ToolRuntime R × S) → Later h c (authorize h asking c).1
    unfolding authorize
    Later-authorize asking (rt, s) = elim (Bool-cases (asking.invocation_id == "")) [
      | inl e ↦ rw (e, authorize) (Later-refl h (rt, s))
      | inr e ↦ elim (Bool-cases (is_tool (short_name asking.tool_name))) [
        | inr f ↦ rw (e, authorize, f) (Later-refl h (rt, s))
        | inl f ↦ elim (Option-cases (h.assignment_context asking.session_id asking.cwd s)) [
          | inl g ↦ rw (e, authorize, f, g) (Later-refl h (rt, s))
          | inr (assignment, g) ↦ rw (e, authorize, f, g) (Later-grant_call asking assignment rt s)
        ]
      ]
    ]

    -- Whatever is done, what has not expired is kept.
    pub Steps-Later : {c c' : ToolRuntime R × S} → Steps h c c' → Later h c c'
    Steps-Later start = Later-refl h _
    Steps-Later (authorizing {c₁} asking m e) =
        Later-trans h (Steps-Later m) (rw e (Later-authorize asking c₁))
    Steps-Later (taking {rt} {s} token m e) =
        Later-trans h (Steps-Later m) (rw e (Later-grants h rt _ s))
    Steps-Later (proceeding {c₁} call current m e) =
        Later-trans h (Steps-Later m) (rw e (Later-proceed call current c₁))
    Steps-Later (elapsing {rt} {s} {t} m e) = Later-trans h (Steps-Later m) (Later-world h rt s t e)
