-- ===== src/Runtime/Authorize.antt =====
-- core/tool_runtime.py, `authorize`: a call is granted before it runs.
use team_flow.Prelude.{
  ℕ, ◌+◌, String, Bool, not, ◌&&◌, Option, none, some, ◌==◌, elem, starts_with, is_some, filter,
  ltb, if◌then◌else◌, lookup, put,
}
use team_flow.Workflow.Definition.{Assignment}
use team_flow.Runtime.State.{
  Grant, Cached, ClosedTurn, ToolRuntime, closed_until, Host, Fault, invocation_id_required,
  unsupported_tool, unregistered_session, turn_closed, read_only_tool_names, is_tool,
}

abbrev pub drop_two : String → String
drop_two String.[] = ""
drop_two (String.◌∷◌ c String.[]) = ""
drop_two (String.◌∷◌ c (String.◌∷◌ d s)) = s

-- What follows the last "__", if there is one.
unfoldable pub after_last : String → Option String
after_last String.[] = none
after_last (String.◌∷◌ c s) =
    let later = after_last s in
    elim later [
      | some name ↦ some name
      | none ↦ if starts_with (String.◌∷◌ c s) "__" then some (drop_two (String.◌∷◌ c s)) else none
    ]

-- tool_name.rsplit("__", 1)[-1]
unfoldable pub short_name : String → String
short_name tool_name = elim (after_last tool_name) [ none ↦ tool_name | some name ↦ name ]

abbrev pub grant_time : ℕ
grant_time = 60000

module _ {R : Type 0} where
  -- What has expired is forgotten.
  unfoldable pub purge : ℕ → ToolRuntime R → ToolRuntime R
  purge timestamp rt = record {
    grants = filter (λ (e : String × Grant). ltb timestamp e.1.expires_at) rt.grants;
    results = filter (λ (e : String × Cached R). ltb timestamp e.1.expires_at) rt.results;
    closed_turns = filter (λ (t : ClosedTurn). ltb timestamp t.expires_at) rt.closed_turns;
  }

  unfoldable pub refuses_turn : ToolRuntime R → String → String → String → String → Bool
  refuses_turn rt invocation_id session_id turn_id name =
      not (turn_id == "")
      && not (elem name read_only_tool_names)
      && is_some (closed_until session_id turn_id rt.closed_turns)
      && not (is_some (lookup rt.results invocation_id))

-- The arguments of `authorize`; `turn_id` is "" for None.
pub record Asking (A : Type 0) : Type 0 where
  pub invocation_id : String
  pub session_id : String
  pub cwd : Option String
  pub turn_id : String
  pub tool_name : String
  pub tool_input : A

pub data Authorized : Type 0 where
  granted : String → Authorized
  denied : Fault → Authorized

module _ {S A R : Type 0} (h : Host S A R) where
  abbrev pub new_grant : Asking A → Assignment → ℕ → Grant
  new_grant asking assignment now = record {
    invocation_id = asking.invocation_id;
    session_id = asking.session_id;
    turn_id = asking.turn_id;
    tool_name = short_name asking.tool_name;
    input_hash = h.tool_input_hash asking.tool_input;
    assignment = assignment;
    expires_at = now + grant_time;
  }

  unfoldable pub grant_call :
      Asking A → Assignment → ToolRuntime R × S → Authorized × (ToolRuntime R × S)
  grant_call asking assignment (rt, s) =
      let name = short_name asking.tool_name in
      let (token, t) = h.token_urlsafe s in
      let now = h.monotonic t in
      let left = purge now rt in
      if refuses_turn left asking.invocation_id asking.session_id asking.turn_id name
      then (denied turn_closed, (left, t))
      else (
        granted token,
        (record left { grants = put left.grants token (new_grant asking assignment now) }, t),
      )

  unfoldable pub authorize : Asking A → ToolRuntime R × S → Authorized × (ToolRuntime R × S)
  authorize asking (rt, s) =
      if asking.invocation_id == ""
      then (denied invocation_id_required, (rt, s))
      else if not (is_tool (short_name asking.tool_name))
      then (denied unsupported_tool, (rt, s))
      else elim (h.assignment_context asking.session_id asking.cwd s) [
        | none ↦ (denied unregistered_session, (rt, s))
        | some assignment ↦ grant_call asking assignment (rt, s)
      ]
