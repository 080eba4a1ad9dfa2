-- ===== src/Runtime/Grants.antt =====
-- A call runs by a grant for exactly that call, and a grant serves once.
use team_flow.Prelude.{
  ℕ, ◌≡◌, ◌≤◌, ◌<◌, refl, ◌∙◌, arith, String, false, not, none, some, ◌==◌, ltb, Bool-cases,
  Option-cases, inl, inr, eq_iff, lookup, lookup-put,
}
use team_flow.Workflow.Definition.{Assignment}
use team_flow.Runtime.State.{is_tool, Grant, ToolResult, ToolRuntime, Host, authorization_expired}
use team_flow.Runtime.Authorize.{
  Asking, purge, short_name, refuses_turn, new_grant, grant_call, authorize,
}
use team_flow.Runtime.Admit.{Call, replied, rejected, Admission, settled, admitted, admit}
use team_flow.Runtime.Invoke.{pop_grant, enter_call, validate_grant, invoke}
use team_flow.Runtime.Steps.{IsClock, Steps, start, authorizing, taking, proceeding, elapsing}
use team_flow.Runtime.Steps.Kept.{Later-proceed, Steps-Later}
use team_flow.Runtime.Steps.Untouched.{
  lookup-filter, lookup-popped, proceed-grants, enter_call-grants,
}

-- The call is the one that the grant was given for, and the grant has not expired.
pub record GrantFits {S A R : Type 0} (h : Host S A R) (invocation_id tool_name : String)
    (arguments : A) (g : Grant) (s : S) : Type 0 where
  pub unexpired : h.monotonic s < g.expires_at
  pub same_invocation : g.invocation_id ≡ invocation_id
  pub same_tool : g.tool_name ≡ tool_name
  pub same_arguments : g.input_hash ≡ h.tool_input_hash arguments

module _ {S A R : Type 0} (h : Host S A R) where
  validate_grant-GrantFits :
      (g : Grant) (invocation_id tool_name : String) (arguments : A) (s : S)
      → validate_grant h g invocation_id tool_name arguments s ≡ none
      → GrantFits h invocation_id tool_name arguments g s
  unfolding validate_grant
  validate_grant-GrantFits g invocation_id tool_name arguments s e = record {
    unexpired = ground arith;
    same_invocation = (eq_iff g.invocation_id invocation_id).0 (ground arith);
    same_tool = (eq_iff g.tool_name tool_name).0 (ground arith);
    same_arguments = (eq_iff g.input_hash (h.tool_input_hash arguments)).0 (ground arith);
  }

  -- A call that replies has taken a grant that was given for its invocation, its tool and its
  -- arguments, and that had not expired.
  pub invoke-GrantFits :
      (invocation_id token tool_name : String) (arguments : A) (c : ToolRuntime R × S)
      {r : ToolResult R} {c₁ : ToolRuntime R × S}
      → invoke h invocation_id token tool_name arguments c ≡ (replied r, c₁)
      → (g : Grant) × (lookup c.0.grants token ≡ some g)
        × GrantFits h invocation_id tool_name arguments g c.1
  unfolding invoke
  invoke-GrantFits invocation_id token tool_name arguments (rt, s) e =
      elim (Option-cases (lookup rt.grants token)) [
        | inl f ↦ absurd (ground arith)
        | inr (g, f) ↦
            elim (Option-cases (validate_grant h g invocation_id tool_name arguments s)) [
              | inr (fault, k) ↦ absurd (ground arith)
              | inl k ↦ (g, f, validate_grant-GrantFits g invocation_id tool_name arguments s k)
            ]
      ]

  -- No grant has this token.
  abbrev Spent : String → ToolRuntime R × S → Type 0
  Spent token c = lookup c.0.grants token ≡ none

  invoke-Spent :
      (invocation_id token tool_name : String) (arguments : A) (c : ToolRuntime R × S)
      → Spent token (invoke h invocation_id token tool_name arguments c).1
  unfolding invoke
  invoke-Spent invocation_id token tool_name arguments (rt, s) =
      let gone = lookup-popped rt.grants token in
      elim (Option-cases (lookup rt.grants token)) [
        | inl f ↦ rw (f, invoke) gone
        | inr (g, f) ↦
            elim (Option-cases (validate_grant h g invocation_id tool_name arguments s)) [
              | inr (fault, k) ↦ rw (f, invoke, k) gone
              | inl k ↦
                  let call : Call A = record {
                    invocation_id = invocation_id;
                    grant = g;
                    tool_name = tool_name;
                    arguments = arguments;
                  } in
                  let left : ToolRuntime R × S = (pop_grant token rt, s) in
                  rw (f, invoke, k) (rw (enter_call-grants h call (admit h call left) left) gone)
            ]
      ]

  -- A spent token is refused, and nothing happens.
  refuses_used_token :
      (invocation_id token tool_name : String) (arguments : A) (c : ToolRuntime R × S)
      → Spent token c
      → ((invoke h invocation_id token tool_name arguments c).0 ≡ rejected authorization_expired)
        × ((invoke h invocation_id token tool_name arguments c).1.1 ≡ c.1)
  unfolding invoke
  refuses_used_token invocation_id token tool_name arguments (rt, s) e = rw (e, invoke) (refl, refl)

  module _ (clock : IsClock h) (token : String) (now : ℕ)
      (fresh : (s : S) → now ≤ h.monotonic s → ((h.token_urlsafe s).0 == token) ≡ false) where
    grant_call-Spent :
        (asking : Asking A) (assignment : Assignment) (rt : ToolRuntime R) (s : S)
        → now ≤ h.monotonic s
        → Spent token (rt, s)
        → Spent token (grant_call h asking assignment (rt, s)).1
    unfolding grant_call purge
    grant_call-Spent asking assignment rt s m e =
        let other = fresh s m in
        let new = (h.token_urlsafe s).0 in
        let t = h.monotonic (h.token_urlsafe s).1 in
        let left = purge t rt in
        let gone : lookup left.grants token ≡ none =
          lookup-filter (λ (x : String × Grant). ltb t x.1.expires_at) rt.grants token e in
        elim (Bool-cases (
          refuses_turn left asking.invocation_id asking.session_id asking.turn_id
            (short_name asking.tool_name))) [
              | inl f ↦ rw f gone
              | inr f ↦ rw f (
                  lookup-put left.grants new token (new_grant h asking assignment t)
                  ∙ rw other gone)
            ]

    authorize-Spent :
        (asking : Asking A) (c : ToolRuntime R × S)
        → now ≤ h.monotonic c.1
        → Spent token c
        → Spent token (authorize h asking c).1
    unfolding authorize
    authorize-Spent asking (rt, s) m e = elim (Bool-cases (asking.invocation_id == "")) [
      | inl f ↦ rw (f, authorize) e
      | inr f ↦ elim (Bool-cases (is_tool (short_name asking.tool_name))) [
        | inr g ↦ rw (f, authorize, g) e
        | inl g ↦ elim (Option-cases (h.assignment_context asking.session_id asking.cwd s)) [
          | inl k ↦ rw (f, authorize, g, k) e
          | inr (assignment, k) ↦
              rw (f, authorize, g, k) (grant_call-Spent asking assignment rt s m e)
        ]
      ]
    ]

    Steps-Spent :
        {c c' : ToolRuntime R × S}
        → now ≤ h.monotonic c.1
        → Spent token c
        → Steps h c c'
        → Spent token c'
    Steps-Spent m e start = e
    Steps-Spent m e (authorizing {c₁} asking steps q) =
        let later = (Steps-Later h clock steps).time in
        rw q (authorize-Spent asking c₁ (omega arith) (Steps-Spent m e steps))
    Steps-Spent m e (taking {rt} {s} other steps q) = rw q (
        lookup-filter (λ (x : String × Grant). not (x.0 == other)) rt.grants token
          (Steps-Spent m e steps))
    Steps-Spent m e (proceeding {c₁} call current steps q) =
        rw q (rw (proceed-grants h call current c₁) (Steps-Spent m e steps))
    Steps-Spent m e (elapsing {rt} {s} {t} steps q) = Steps-Spent m e steps

  enter_call_time :
      (clock : IsClock h) (call : Call A) (m : Admission R) (c : ToolRuntime R × S)
      → h.monotonic c.1 ≤ h.monotonic (enter_call h call m c).1.1
  unfolding enter_call
  enter_call_time clock call (settled reply) c = omega arith
  enter_call_time clock call (admitted current) c = (Later-proceed h clock call current c).time

  invoke_time :
      (clock : IsClock h) (invocation_id token tool_name : String) (arguments : A)
      (c : ToolRuntime R × S)
      → h.monotonic c.1 ≤ h.monotonic (invoke h invocation_id token tool_name arguments c).1.1
  unfolding invoke
  invoke_time clock invocation_id token tool_name arguments (rt, s) =
      elim (Option-cases (lookup rt.grants token)) [
        | inl f ↦ rw (f, invoke) (omega arith)
        | inr (g, f) ↦
            elim (Option-cases (validate_grant h g invocation_id tool_name arguments s)) [
              | inr (fault, k) ↦ rw (f, invoke, k) (omega arith)
              | inl k ↦
                  let call : Call A = record {
                    invocation_id = invocation_id;
                    grant = g;
                    tool_name = tool_name;
                    arguments = arguments;
                  } in
                  let left : ToolRuntime R × S = (pop_grant token rt, s) in
                  rw (f, invoke, k) (enter_call_time clock call (admit h call left) left)
            ]
      ]

  -- A token that a call has used is refused ever after, whatever happens in between, and nothing is
  -- called, provided that the clock does not go back and no later token is the same.
  pub invoke_once :
      (clock : IsClock h) (token : String) (c : ToolRuntime R × S)
      (fresh : (s : S) → h.monotonic c.1 ≤ h.monotonic s → ((h.token_urlsafe s).0 == token) ≡ false)
      (invocation_id tool_name : String) (arguments : A) {c₂ : ToolRuntime R × S}
      → Steps h (invoke h invocation_id token tool_name arguments c).1 c₂
      → (again other_tool : String) (other : A)
      → ((invoke h again token other_tool other c₂).0 ≡ rejected authorization_expired)
        × ((invoke h again token other_tool other c₂).1.1 ≡ c₂.1)
  invoke_once clock token c fresh invocation_id tool_name arguments {c₂} steps again other_tool
        other =
      refuses_used_token again token other_tool other c₂ (
        Steps-Spent clock token (h.monotonic c.1) fresh
          (invoke_time clock invocation_id token tool_name arguments c)
          (invoke-Spent invocation_id token tool_name arguments c) steps)
