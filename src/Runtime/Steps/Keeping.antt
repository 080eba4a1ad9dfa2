-- ===== src/Runtime/Steps/Keeping.antt =====
-- What follows a tool that has run keeps what has not expired.
use team_flow.Prelude.{
  ℕ, ◌+◌, ◌≡◌, ◌≤◌, refl, arith, String, Bool, not, ◌&&◌, ◌||◌, some, List, ◌==◌, Bool-cases,
  Option-cases, inl, inr, if◌then◌else◌, lookup-put,
}
use team_flow.Workflow.Definition.{Assignment}
use team_flow.Runtime.State.{ToolResult, ClosedTurn, ToolRuntime, Host, closed_until, close_turn}
use team_flow.Runtime.Admit.{Call}
use team_flow.Runtime.Execute.{
  closing_time, cache_entry, cache_result, asks_to_end, seal_turn_if_requested, keep_result,
  acknowledge, sync_and_keep, result_record_id, turn_or_none,
}
use team_flow.Runtime.Steps.{IsClock}
use team_flow.Runtime.Steps.Later.{Later, Later-refl, Later-trans, Later-world, closed_until-filter}

module _ {S A R : Type 0} (h : Host S A R) where
  Later-cache_result :
      (call : Call A) (result : ToolResult R) (rt : ToolRuntime R) (s : S)
      → Later h (rt, s) (cache_result h call result (rt, s))
  unfolding cache_result
  Later-cache_result call result rt s = record {
    time = omega arith;
    results = λ id e (b, k). (
      b,
      elim (Bool-cases (call.invocation_id == id)) [
        | inl same ↦
            let entry = cache_entry h call result s in
            inl (entry, rw (lookup-put rt.results call.invocation_id id entry) (rw same refl), b)
        | inr other ↦ elim k [
          | inr past ↦ inr past
          | inl (cached, l, m) ↦ inl (
            cached,
            rw (lookup-put rt.results call.invocation_id id (cache_entry h call result s))
                (rw other l),
            m,
          )
        ]
      ],
    );
    turns = λ x y e k. k;
  }

  closed_until-close_turn :
      (s t s' t' : String) (until : ℕ) (turns : List ClosedTurn)
      → closed_until s' t' (close_turn s t until turns)
        ≡ (if s == s' && t == t' then some until else closed_until s' t' turns)
  unfolding closed_until close_turn
  closed_until-close_turn s t s' t' until turns = elim (Bool-cases (s == s' && t == t')) [
    | inl e ↦ rw e refl
    | inr e ↦ rw e (closed_until-filter s t s' t' turns e)
  ]

  Later-seal :
      (call : Call A) (result : ToolResult R) (c : ToolRuntime R × S)
      → Later h c (seal_turn_if_requested h call result c)
  unfolding seal_turn_if_requested
  Later-seal call result (rt, s) =
      elim (Bool-cases (not result.ok || not (asks_to_end h result) || call.grant.turn_id == "")) [
        | inl e ↦ rw e (Later-refl h (rt, s))
        | inr e ↦ rw e (record {
          time = omega arith;
          results = λ id e k. k;
          turns = λ x y e (b, k). (
            b,
            elim (Bool-cases (call.grant.session_id == x && call.grant.turn_id == y)) [
              | inl same ↦ inl (until, rw (closed x y) (rw same refl), b)
              | inr other ↦ elim k [
                | inr past ↦ inr past
                | inl (kept, l, m) ↦ inl (kept, rw (closed x y) (rw other l), m)
              ]
            ],
          );
        })
      ]
    where
      until : ℕ
      until = h.monotonic s + closing_time

      closed :
          (x y : String)
          → closed_until x y
              (close_turn call.grant.session_id call.grant.turn_id until rt.closed_turns)
            ≡ (if call.grant.session_id == x && call.grant.turn_id == y
                then some until
                else closed_until x y rt.closed_turns)
      closed x y =
          closed_until-close_turn call.grant.session_id call.grant.turn_id x y until rt.closed_turns

  pub Later-keep_result :
      (call : Call A) (result : ToolResult R) (rt : ToolRuntime R) (s : S)
      → Later h (rt, s) (keep_result h call result (rt, s)).1
  unfolding keep_result
  Later-keep_result call result rt s =
      Later-trans h (Later-cache_result call result rt s)
        (Later-seal call result (cache_result h call result (rt, s)))

  module _ (clock : IsClock h) where
    acknowledge_time :
        (call : Call A) (current : Assignment) (result : ToolResult R) (s : S)
        → h.monotonic s ≤ h.monotonic (acknowledge h call current result s).1
    unfolding acknowledge
    acknowledge_time call current result s = elim (Option-cases result.task) [
      | inl e ↦ rw e (omega arith)
      | inr (task, e) ↦ rw e (elim (Bool-cases (not result.ok || call.grant.turn_id == "")) [
        | inl f ↦ rw f (omega arith)
        | inr f ↦ rw f (
            clock.acknowledgements current.workspace_root call.grant.turn_id current.agent_id
              (result_record_id h task) s)
      ])
    ]

    pub Later-sync_and_keep :
        (call : Call A) (current : Assignment) (acknowledges : Bool) (rt : ToolRuntime R)
        (result : ToolResult R) (s : S)
        → Later h (rt, s) (sync_and_keep h call current acknowledges rt result s).1
    unfolding sync_and_keep
    Later-sync_and_keep call current acknowledges rt result s =
        let turn = turn_or_none h call in
        let sync =
          h.sync_task_activity current call.tool_name result call.grant.session_id turn s in
        let u = (acknowledge h call current result sync.1).1 in
        let to_sync : Later h (rt, s) (rt, sync.1) =
          Later-world h rt s sync.1
            (clock.syncs current call.tool_name result call.grant.session_id turn s) in
        let to_end : Later h (rt, s) (rt, u) =
          Later-trans h to_sync
            (Later-world h rt sync.1 u (acknowledge_time call current result sync.1)) in
        elim (Bool-cases sync.0) [
          | inr e ↦ rw (e, sync_and_keep) to_sync
          | inl e ↦ elim (Bool-cases acknowledges) [
            | inr f ↦
                rw (e, sync_and_keep, f)
                  (Later-trans h to_sync (Later-keep_result call result rt sync.1))
            | inl f ↦ elim (Bool-cases (acknowledge h call current result sync.1).0) [
              | inr g ↦ rw (e, sync_and_keep, f, g) to_end
              | inl g ↦
                  rw (e, sync_and_keep, f, g)
                    (Later-trans h to_end (Later-keep_result call result rt u))
            ]
          ]
        ]
