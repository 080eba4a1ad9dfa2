-- ===== src/Runtime/Execute.antt =====
-- core/tool_runtime.py: a call of a tool and what follows it, up to `cache_result` and
-- `_seal_turn_if_requested`.
use team_flow.Prelude.{
  ℕ, ◌+◌, String, Bool, true, false, not, ◌||◌, Option, none, some, ◌==◌, elem, if◌then◌else◌, put,
}
use team_flow.Workflow.Value.{get}
use team_flow.Workflow.Repr.{as_text}
use team_flow.Workflow.Definition.{Assignment, Task}
use team_flow.Runtime.State.{
  ToolResult, Cached, ToolRuntime, close_turn, Host, mutating_tool_names, runtime_tool_names,
  handoff_tool_names,
}
use team_flow.Runtime.Admit.{Call, Reply, replied, raised}

abbrev pub result_time : ℕ
result_time = 300000

abbrev pub closing_time : ℕ
closing_time = 3600000

module _ {S A R : Type 0} (h : Host S A R) where
  -- The entry that `cache_result` writes.
  abbrev pub cache_entry : Call A → ToolResult R → S → Cached R
  cache_entry call result s = record {
    session_id = call.grant.session_id;
    tool_name = call.tool_name;
    input_hash = call.grant.input_hash;
    result = result;
    expires_at = h.monotonic s + result_time;
  }

  unfoldable pub cache_result : Call A → ToolResult R → ToolRuntime R × S → ToolRuntime R × S
  cache_result call result (rt, s) =
      (record rt { results = put rt.results call.invocation_id (cache_entry call result s) }, s)

  abbrev pub asks_to_end : ToolResult R → Bool
  asks_to_end result = elim result.turn_control [
    | none ↦ false
    | some action ↦ action == "end_turn"
  ]

  unfoldable pub seal_turn_if_requested :
      Call A → ToolResult R → ToolRuntime R × S → ToolRuntime R × S
  seal_turn_if_requested call result (rt, s) =
      if not result.ok || not (asks_to_end result) || call.grant.turn_id == "" then (rt, s) else (
        record rt {
          closed_turns =
              close_turn call.grant.session_id call.grant.turn_id (h.monotonic s + closing_time)
                rt.closed_turns;
        },
        s,
      )

  -- str(task.get("record_id") or ""), of the result's task
  abbrev pub result_record_id : Task → String
  result_record_id task = as_text (get task "record_id")

  abbrev pub is_delivered : Call A → Task → S → Bool
  is_delivered call task s =
      elim (h.delivery_record_id call.grant.assignment call.grant.turn_id s) [
        | none ↦ false
        | some record_id ↦ record_id == result_record_id task
      ]

  unfoldable pub apply_turn_control : Call A → ToolResult R → S → ToolResult R
  apply_turn_control call result s = elim result.task [
    | none ↦ result
    | some task ↦
        if not (elem call.tool_name handoff_tool_names)
          || not result.ok
          || call.grant.turn_id == ""
          || not (is_delivered call task s)
        then result
        else record result { turn_control = some "end_turn" }
  ]

  unfoldable pub acknowledge : Call A → Assignment → ToolResult R → S → Bool × S
  acknowledge call current result s = elim result.task [
    | none ↦ (true, s)
    | some task ↦
        if not result.ok || call.grant.turn_id == ""
        then (true, s)
        else h.acknowledge_delivery current.workspace_root call.grant.turn_id current.agent_id
            (result_record_id task) s
  ]

  -- str(authorized.get("turn_id") or "") or None
  abbrev pub turn_or_none : Call A → Option String
  turn_or_none call = if call.grant.turn_id == "" then none else some call.grant.turn_id

  unfoldable pub keep_result :
      Call A → ToolResult R → ToolRuntime R × S → Reply R × (ToolRuntime R × S)
  keep_result call result c =
      (replied result, seal_turn_if_requested call result (cache_result call result c))

  -- What follows a tool that has run.
  unfoldable pub finish_runtime :
      Call A → ToolRuntime R → Option (ToolResult R) × S → Reply R × (ToolRuntime R × S)
  finish_runtime call rt (none, s) = (raised, (rt, s))
  finish_runtime call rt (some result, s) = keep_result call result (rt, s)

  unfoldable pub sync_and_keep :
      Call A → Assignment → Bool → ToolRuntime R → ToolResult R → S → Reply R × (ToolRuntime R × S)
  sync_and_keep call current acknowledges rt result s =
      let (synced, t) =
        h.sync_task_activity current call.tool_name result call.grant.session_id (turn_or_none call)
          s in
      let (acknowledged, u) = acknowledge call current result t in
      if not synced
      then (raised, (rt, t))
      else if not acknowledges
      then keep_result call result (rt, t)
      else if not acknowledged
      then (raised, (rt, u))
      else keep_result call result (rt, u)

  unfoldable pub finish_mutating :
      Call A
      → Assignment
      → ToolRuntime R
      → Option (ToolResult R) × S
      → Reply R × (ToolRuntime R × S)
  finish_mutating call current rt (none, s) = (raised, (rt, s))
  finish_mutating call current rt (some result, s) =
      sync_and_keep call current true rt (apply_turn_control call result s) s

  unfoldable pub finish_reading :
      Call A
      → Assignment
      → ToolRuntime R
      → Option (ToolResult R) × S
      → Reply R × (ToolRuntime R × S)
  finish_reading call current rt (none, s) = (raised, (rt, s))
  finish_reading call current rt (some result, s) = sync_and_keep call current false rt result s

  abbrev pub run_tool : Call A → Assignment → S → Option (ToolResult R) × S
  run_tool call current s = h.invoke_tool current call.tool_name call.arguments call.invocation_id s

  -- The call of the tool and what follows it.
  unfoldable pub execute : Call A → Assignment → ToolRuntime R × S → Reply R × (ToolRuntime R × S)
  execute call current (rt, s) =
      if elem call.tool_name runtime_tool_names
      then finish_runtime call rt (run_tool call current s)
      else if elem call.tool_name mutating_tool_names
      then finish_mutating call current rt (run_tool call current s)
      else finish_reading call current rt (run_tool call current s)
