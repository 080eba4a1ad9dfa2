-- ===== src/Runtime/Steps/Remembers.antt =====
-- What the runtime remembers of a call that has replied.
use team_flow.Prelude.{
  ◌+◌, ◌≡◌, refl, sym, ap, ◌∙◌, subst, arith, eq_refl, Bool, true, false, not, ◌||◌, Option, none,
  some, ◌==◌, elem, Bool-cases, inl, inr, Dict, lookup, put, lookup-put_self,
}
use team_flow.Workflow.Definition.{Assignment}
use team_flow.Runtime.State.{
  mutating_tool_names, runtime_tool_names, ToolResult, Cached, ToolRuntime, Host, closed_until,
  close_turn,
}
use team_flow.Runtime.Admit.{Call, replied}
use team_flow.Runtime.Execute.{
  result_time, closing_time, cache_entry, cache_result, asks_to_end, seal_turn_if_requested,
  keep_result, finish_runtime, acknowledge, sync_and_keep, apply_turn_control, finish_mutating,
  finish_reading, run_tool, execute, turn_or_none,
}
use team_flow.Runtime.Steps.Later.{KeepsResult, KeepsClosed}

module _ {S A R : Type 0} (h : Host S A R) where
  -- A run that replies ends by keeping its result.
  abbrev pub Ends : Call A → ToolResult R → ToolRuntime R × S → Type 0
  Ends call r c₁ =
      (rt : ToolRuntime R) × (s : S) × (seal_turn_if_requested h call r
          (cache_result h call r (rt, s))
        ≡ c₁)

  module _ (call : Call A) (r : ToolResult R) (c₁ : ToolRuntime R × S) where
    keep_result-Ends :
        (x : ToolResult R) (rt : ToolRuntime R) (s : S)
        → keep_result h call x (rt, s) ≡ (replied r, c₁)
        → Ends call r c₁
    unfolding keep_result
    keep_result-Ends x rt s e =
        let same : x ≡ r = ground arith in
        (
          rt,
          s,
          subst (λ y. seal_turn_if_requested h call y (cache_result h call y (rt, s)) ≡ c₁) same
              (ground arith),
        )

    finish_runtime-Ends :
        (rt : ToolRuntime R) (p : Option (ToolResult R) × S)
        → finish_runtime h call rt p ≡ (replied r, c₁)
        → Ends call r c₁
    unfolding finish_runtime
    finish_runtime-Ends rt (none, t) e = absurd (ground arith)
    finish_runtime-Ends rt (some x, t) e = keep_result-Ends x rt t e

    sync_and_keep-Ends :
        (current : Assignment) (acknowledges : Bool) (rt : ToolRuntime R) (x : ToolResult R) (s : S)
        → sync_and_keep h call current acknowledges rt x s ≡ (replied r, c₁)
        → Ends call r c₁
    unfolding sync_and_keep
    sync_and_keep-Ends current acknowledges rt x s e =
        let turn = turn_or_none h call in
        let sync = h.sync_task_activity current call.tool_name x call.grant.session_id turn s in
        let u = (acknowledge h call current x sync.1).1 in
        elim (Bool-cases sync.0) [
          | inr f ↦ absurd (ground arith)
          | inl f ↦ elim (Bool-cases acknowledges) [
            | inr g ↦ keep_result-Ends x rt sync.1 (ground arith)
            | inl g ↦ elim (Bool-cases (acknowledge h call current x sync.1).0) [
              | inr k ↦ absurd (ground arith)
              | inl k ↦ keep_result-Ends x rt u (ground arith)
            ]
          ]
        ]

    finish_mutating-Ends :
        (current : Assignment) (rt : ToolRuntime R) (p : Option (ToolResult R) × S)
        → finish_mutating h call current rt p ≡ (replied r, c₁)
        → Ends call r c₁
    unfolding finish_mutating
    finish_mutating-Ends current rt (none, t) e = absurd (ground arith)
    finish_mutating-Ends current rt (some x, t) e =
        sync_and_keep-Ends current true rt (apply_turn_control h call x t) t e

    finish_reading-Ends :
        (current : Assignment) (rt : ToolRuntime R) (p : Option (ToolResult R) × S)
        → finish_reading h call current rt p ≡ (replied r, c₁)
        → Ends call r c₁
    unfolding finish_reading
    finish_reading-Ends current rt (none, t) e = absurd (ground arith)
    finish_reading-Ends current rt (some x, t) e = sync_and_keep-Ends current false rt x t e

    pub execute-Ends :
        (current : Assignment) (c : ToolRuntime R × S)
        → execute h call current c ≡ (replied r, c₁)
        → Ends call r c₁
    unfolding execute
    execute-Ends current (rt, s) e =
        let ran = run_tool h call current s in
        elim (Bool-cases (elem call.tool_name runtime_tool_names)) [
          | inl f ↦ finish_runtime-Ends rt ran (ground arith)
          | inr f ↦ elim (Bool-cases (elem call.tool_name mutating_tool_names)) [
            | inl g ↦ finish_mutating-Ends current rt ran (ground arith)
            | inr g ↦ finish_reading-Ends current rt ran (ground arith)
          ]
        ]

    -- Sealing a turn changes neither the time nor the results.
    seal_frame :
        (rt : ToolRuntime R) (s : S)
        → ((seal_turn_if_requested h call r (rt, s)).1 ≡ s)
          × ((seal_turn_if_requested h call r (rt, s)).0.results ≡ rt.results)
    unfolding seal_turn_if_requested
    seal_frame rt s =
        elim (Bool-cases (not r.ok || not (asks_to_end h r) || call.grant.turn_id == "")) [
          | inl e ↦ rw e (refl, refl)
          | inr e ↦ rw e (refl, refl)
        ]

    pub Ends-KeepsResult :
        Ends call r c₁ → KeepsResult h call.invocation_id (h.monotonic c₁.1 + result_time) c₁
    unfolding cache_result
    Ends-KeepsResult (rt, s, e) =
        let entry = cache_entry h call r s in
        let kept = put rt.results call.invocation_id entry in
        let (same_time, same_results) = seal_frame (record rt { results = kept }) s in
        let at_s : c₁.1 ≡ s = sym (ap (λ (c : ToolRuntime R × S). c.1) e) ∙ same_time in
        let results : c₁.0.results ≡ kept =
          sym (ap (λ (c : ToolRuntime R × S). c.0.results) e) ∙ same_results in
        (
          omega arith,
          inl (
            entry,
            ap (λ (d : Dict (Cached R)). lookup d call.invocation_id) results
                ∙ lookup-put_self rt.results call.invocation_id entry,
            rw at_s (omega arith),
          ),
        )

    pub Ends-KeepsClosed :
        Ends call r c₁
        → r.ok ≡ true
        → asks_to_end h r ≡ true
        → (call.grant.turn_id == "") ≡ false
        → KeepsClosed h call.grant.session_id call.grant.turn_id
            (h.monotonic c₁.1 + closing_time)
            c₁
    unfolding cache_result seal_turn_if_requested closed_until close_turn
    Ends-KeepsClosed (rt, s, e) ok asks turn =
        subst
          (λ (c : ToolRuntime R × S).
            KeepsClosed h call.grant.session_id call.grant.turn_id (h.monotonic c.1 + closing_time)
              c)
          e
          (rw (ok, seal_turn_if_requested)
            (rw asks (
              rw turn (
                omega arith,
                inl (
                  h.monotonic s + closing_time,
                  ground (arith, eq_refl call.grant.session_id, eq_refl call.grant.turn_id),
                  omega arith,
                ),
              ))))
