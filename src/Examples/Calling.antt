-- ===== src/Examples/Calling.antt =====
-- A session whose agent submits a card: the call runs once and ends the turn.
use team_flow.Prelude.{
  ℕ, zero, suc, ◌+◌, ◌≡◌, ◌≤◌, ◌⊎◌, refl, arith, String, true, false, none, some, [], ◌∷◌, ◌==◌,
  lookup,
}
use team_flow.Workflow.Value.{text}
use team_flow.Workflow.Repr.{as_text}
use team_flow.Runtime.State.{
  Grant, ToolResult, Cached, ToolRuntime, Host, close_turn, closed_until, turn_closed,
  authorization_expired,
}
use team_flow.Runtime.Authorize.{
  Asking, granted, authorize, grant_call, purge, refuses_turn, short_name, after_last,
}
use team_flow.Runtime.Admit.{
  Call, replied, rejected, admit, admit_new, cached_result, turn_open, current_assignment,
}
use team_flow.Runtime.Execute.{
  cache_result, seal_turn_if_requested, keep_result, acknowledge, sync_and_keep, apply_turn_control,
  finish_mutating, execute,
}
use team_flow.Runtime.Invoke.{invoke, validate_grant, enter_call, proceed, execute_admitted}
use team_flow.Runtime.Steps.{IsClock, Steps, start, elapsing}
use team_flow.Runtime.Once.{answer_from, execute_once, execute_closes_turn}
use team_flow.Runtime.Grants.{GrantFits, invoke-GrantFits, invoke_once}
use team_flow.Examples.General.{executor}

-- The state is the time. The first token differs from the later ones.
abbrev submitted : ToolResult ℕ
submitted = record {
  ok = true;
  task = some (("record_id", text "rec-1") ∷ []);
  turn_control = none;
  content = 7;
}

abbrev next_token : ℕ → String
next_token zero = "first"
next_token (suc s) = "later"

abbrev host : Host ℕ String ℕ
host = record {
  monotonic = λ s. s;
  token_urlsafe = λ s. (next_token s, s + 1);
  tool_input_hash = λ arguments. arguments;
  assignment_context = λ session_id cwd s. some executor;
  workspace_active = λ workspace s. true;
  workspace_enabled = λ workspace s. true;
  find_agent_assignment = λ workspace session_id s. some executor;
  invoke_tool = λ a tool_name arguments invocation_id s. (some submitted, s);
  sync_task_activity = λ a tool_name result session_id turn_id s. (true, s);
  delivery_record_id = λ a turn_id s. some "rec-1";
  acknowledge_delivery = λ workspace turn_id agent_id record_id s. (true, s);
}

host-IsClock : IsClock host
host-IsClock = record {
  tokens = λ s. omega arith;
  tools = λ a tool_name arguments invocation_id s. omega arith;
  syncs = λ a tool_name result session_id turn_id s. omega arith;
  acknowledgements = λ workspace turn_id agent_id record_id s. omega arith;
}

abbrev grant : Grant
grant = record {
  invocation_id = "i-1";
  session_id = "s-1";
  turn_id = "turn-1";
  tool_name = "submit_task";
  input_hash = "{}";
  assignment = executor;
  expires_at = 60001;
}

abbrev asking : Asking String
asking = record {
  invocation_id = "i-1";
  session_id = "s-1";
  cwd = none;
  turn_id = "turn-1";
  tool_name = "mcp__teamflow__submit_task";
  tool_input = "{}";
}

abbrev nothing_yet : ToolRuntime ℕ
nothing_yet = record { grants = []; results = []; closed_turns = [] }

abbrev before_call : ToolRuntime ℕ × ℕ
before_call = (record nothing_yet { grants = ("first", grant) ∷ [] }, 1)

authorized : authorize host asking (nothing_yet, 0) ≡ (granted "first", before_call)
unfolding authorize grant_call purge refuses_turn short_name after_last closed_until
authorized = refl

abbrev ended : ToolResult ℕ
ended = record submitted { turn_control = some "end_turn" }

abbrev kept : Cached ℕ
kept = record {
  session_id = "s-1";
  tool_name = "submit_task";
  input_hash = "{}";
  result = ended;
  expires_at = 300001;
}

abbrev after_call : ToolRuntime ℕ × ℕ
after_call = (
  record {
    grants = [];
    results = ("i-1", kept) ∷ [];
    closed_turns = record { session_id = "s-1"; turn_id = "turn-1"; expires_at = 3600001 } ∷ [];
  },
  1,
)

abbrev call : Call String
call = record { invocation_id = "i-1"; grant = grant; tool_name = "submit_task"; arguments = "{}" }

executed : execute host call executor (nothing_yet, 1) ≡ (replied ended, after_call)
unfolding execute finish_mutating apply_turn_control as_text sync_and_keep acknowledge keep_result
    cache_result seal_turn_if_requested close_turn
executed = refl

invoked : invoke host "i-1" "first" "submit_task" "{}" before_call ≡ (replied ended, after_call)
unfolding invoke validate_grant enter_call proceed execute_admitted admit admit_new cached_result
    turn_open closed_until current_assignment execute finish_mutating apply_turn_control as_text
    sync_and_keep acknowledge keep_result cache_result seal_turn_if_requested close_turn
invoked = refl

-- A minute later.
abbrev much_later : ToolRuntime ℕ × ℕ
much_later = (after_call.0, 60001)

waited : Steps host after_call much_later
waited = elapsing {rt = after_call.0} {s = 1} {t = 60001} start (omega arith)

execute_once_example :
    (cached : Cached ℕ) × (lookup after_call.0.results "i-1" ≡ some cached)
    × (proceed host call executor much_later ≡ (answer_from host call cached, much_later))
execute_once_example =
    execute_once host host-IsClock call executor (nothing_yet, 1) executed waited (omega arith) call
      executor refl refl

abbrev next_call : Call String
next_call = record call { invocation_id = "i-2"; tool_name = "claim_task" }

execute_closes_turn_example :
    (proceed host next_call executor much_later ≡ (rejected turn_closed, much_later))
    ⊎ ((cached : Cached ℕ) × (lookup after_call.0.results "i-2" ≡ some cached)
        × (proceed host next_call executor much_later
            ≡ (answer_from host next_call cached, much_later)))
execute_closes_turn_example =
    execute_closes_turn host host-IsClock call executor (nothing_yet, 1) executed refl refl refl
      waited (omega arith) next_call executor refl refl refl refl

invoke-GrantFits_example :
    (g : Grant) × (lookup before_call.0.grants "first" ≡ some g)
    × GrantFits host "i-1" "submit_task" "{}" g 1
invoke-GrantFits_example =
    invoke-GrantFits host "i-1" "first" "submit_task" "{}" before_call invoked

tokens_differ : (s : ℕ) → 1 ≤ s → ((host.token_urlsafe s).0 == "first") ≡ false
tokens_differ zero m = absurd (omega arith)
tokens_differ (suc s) m = refl

abbrev invoked_once : ToolRuntime ℕ × ℕ
invoked_once = (invoke host "i-1" "first" "submit_task" "{}" before_call).1

invoke_once_example :
    ((invoke host "i-1" "first" "submit_task" "{}" invoked_once).0 ≡ rejected authorization_expired)
    × ((invoke host "i-1" "first" "submit_task" "{}" invoked_once).1.1 ≡ invoked_once.1)
invoke_once_example =
    invoke_once host host-IsClock "first" before_call tokens_differ "i-1" "submit_task" "{}" start
      "i-1" "submit_task" "{}"
