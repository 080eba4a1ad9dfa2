-- ===== src/Runtime/Once.antt =====
-- core/tool_runtime.py: results that are kept, and turns that are closed, over any sequence of calls.
use team_flow.Prelude.{
  ℕ, ◌+◌, ◌≡◌, ◌<◌, ◌⊎◌, refl, arith, true, false, not, ◌||◌, none, some, ◌==◌, ltb, elem,
  Bool-cases, Option-cases, inl, inr, if◌then◌else◌, lookup,
}
use team_flow.Workflow.Definition.{Assignment}
use team_flow.Runtime.State.{
  read_only_tool_names, ToolResult, Cached, ToolRuntime, Host, closed_until, other_call,
  turn_closed,
}
use team_flow.Runtime.Admit.{
  Call, Reply, replied, rejected, admit, admit_new, cached_result, turn_open,
}
use team_flow.Runtime.Execute.{result_time, closing_time, asks_to_end, execute}
use team_flow.Runtime.Invoke.{takes_lock, execute_admitted, proceed}
use team_flow.Runtime.Steps.{IsClock, Steps}
use team_flow.Runtime.Steps.Kept.{Steps-Later}
use team_flow.Runtime.Steps.Remembers.{execute-Ends, Ends-KeepsResult, Ends-KeepsClosed}

module _ {S A R : Type 0} (h : Host S A R) where
  -- The answer to a call for whose invocation the result `cached` is kept.
  abbrev pub answer_from : Call A → Cached R → Reply R
  answer_from call cached =
      if not (cached.session_id == call.grant.session_id)
        || not (cached.tool_name == call.tool_name)
        || not (cached.input_hash == call.grant.input_hash)
      then rejected other_call
      else replied cached.result

  -- A call of a tool that takes a lock, whose invocation has a result, answers from it and does
  -- nothing.
  proceed_kept :
      (call : Call A) (current : Assignment) (rt : ToolRuntime R) (s : S) {cached : Cached R}
      → takes_lock h call ≡ true
      → lookup rt.results call.invocation_id ≡ some cached
      → proceed h call current (rt, s) ≡ (answer_from call cached, (rt, s))
  unfolding proceed execute_admitted admit cached_result
  proceed_kept call current rt s {cached} lock l =
      rw (lock, proceed)
        (rw (l, admit, cached_result)
          (elim (Bool-cases (
            not (cached.session_id == call.grant.session_id)
            || not (cached.tool_name == call.tool_name)
            || not (cached.input_hash == call.grant.input_hash))) [
              | inl e ↦ rw e refl
              | inr e ↦ rw e refl
            ]))

  -- A call in a closed turn that has no result is refused and does nothing.
  proceed_closed :
      (call : Call A) (current : Assignment) (rt : ToolRuntime R) (s : S) {until : ℕ}
      → takes_lock h call ≡ true
      → elem call.tool_name read_only_tool_names ≡ false
      → (call.grant.turn_id == "") ≡ false
      → closed_until call.grant.session_id call.grant.turn_id rt.closed_turns ≡ some until
      → ltb (h.monotonic s) until ≡ true
      → lookup rt.results call.invocation_id ≡ none
      → proceed h call current (rt, s) ≡ (rejected turn_closed, (rt, s))
  unfolding proceed execute_admitted admit cached_result admit_new turn_open
  proceed_closed call current rt s lock reads turn l early absent =
      rw (lock, proceed)
        (rw (absent, admit, cached_result)
          (rw (reads, admit_new, turn_open) (rw turn (rw l (rw early refl)))))

  module _ (clock : IsClock h) (call : Call A) (current : Assignment) (c : ToolRuntime R × S)
      {r : ToolResult R} {c₁ c₂ : ToolRuntime R × S} where
    -- A call that has run and replied does not run again for five minutes, whatever happens in
    -- between: a further call with its invocation id, of a tool that changes something, is answered
    -- from the result that is kept or refused, and does nothing.
    pub execute_once :
        execute h call current c ≡ (replied r, c₁)
        → Steps h c₁ c₂
        → h.monotonic c₂.1 < h.monotonic c₁.1 + result_time
        → (again : Call A) (assignment : Assignment) → again.invocation_id ≡ call.invocation_id
        → takes_lock h again ≡ true
        → (cached : Cached R) × (lookup c₂.0.results call.invocation_id ≡ some cached)
          × (proceed h again assignment c₂ ≡ (answer_from again cached, c₂))
    execute_once ran steps early again assignment same lock =
        let kept = Ends-KeepsResult h call r c₁ (execute-Ends h call r c₁ current c ran) in
        let later = Steps-Later h clock steps in
        elim (later.results call.invocation_id (h.monotonic c₁.1 + result_time) kept).1 [
          | inr past ↦ absurd (omega arith)
          | inl (cached, l, m) ↦ (
            cached,
            l,
            proceed_kept again assignment c₂.0 c₂.1 {cached = cached} lock (rw same l),
          )
        ]

    -- Once a call has ended its turn, no call of that turn, of a tool that changes something, runs
    -- for an hour, whatever happens in between: it is refused, or answered from a result that is
    -- kept for its invocation, and does nothing.
    pub execute_closes_turn :
        execute h call current c ≡ (replied r, c₁)
        → r.ok ≡ true
        → asks_to_end h r ≡ true
        → (call.grant.turn_id == "") ≡ false
        → Steps h c₁ c₂
        → h.monotonic c₂.1 < h.monotonic c₁.1 + closing_time
        → (next : Call A) (assignment : Assignment) → next.grant.session_id ≡ call.grant.session_id
        → next.grant.turn_id ≡ call.grant.turn_id
        → takes_lock h next ≡ true
        → elem next.tool_name read_only_tool_names ≡ false
        → (proceed h next assignment c₂ ≡ (rejected turn_closed, c₂))
          ⊎ ((cached : Cached R) × (lookup c₂.0.results next.invocation_id ≡ some cached)
              × (proceed h next assignment c₂ ≡ (answer_from next cached, c₂)))
    execute_closes_turn ran ok asks turn steps early next assignment session same lock reads =
        let kept =
          Ends-KeepsClosed h call r c₁ (execute-Ends h call r c₁ current c ran) ok asks turn in
        let later = Steps-Later h clock steps in
        let e = h.monotonic c₁.1 + closing_time in
        elim (later.turns call.grant.session_id call.grant.turn_id e kept).1 [
          | inr past ↦ absurd (omega arith)
          | inl (until, l, m) ↦ elim (Option-cases (lookup c₂.0.results next.invocation_id)) [
            | inr (cached, f) ↦ inr (cached, f, proceed_kept next assignment c₂.0 c₂.1 lock f)
            | inl absent ↦ inl (
                proceed_closed next assignment c₂.0 c₂.1 {until = until} lock reads (rw same turn)
                  (rw session (rw same l)) (ground arith) absent)
          ]
        ]
