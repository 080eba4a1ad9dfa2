-- ===== src/Queue/Claim/First.antt =====
-- core/task_delivery_store.py, `claim_task_deliveries`: the row that comes first.
use team_flow.Prelude.{
  ℕ, ◌≡◌, inl, inr, refl, ap, arith, String, true, false, none, some, List, [], ◌∷◌, ◌++◌, ◌==◌,
  eq_refl, elem, Memᴰ, Bool-cases, rowcount, rowcount-mem, nat_beq, and-left, All-mem,
}
use team_flow.Workflow.Definition.{Definition}
use team_flow.Queue.Tables.{Delivery, Store, nonempty}
use team_flow.Queue.Dispatch.{Current, target_role, dispatch_states, current_dispatch}
use team_flow.Queue.Claim.{
  Candidate, Claimed, Claiming, claims, judge, continuation_in, take_row, claim_row, claim_rows,
  claim_task_deliveries, candidates, first_claiming, busy_sessions, claimed_item, role_is,
  is_ready_row, is_full,
}
use team_flow.Queue.Claim.Cases.{claim_row_cases, claim_rows-keeps}
use team_flow.Queue.Claim.Rows.{IsCandidate, candidates-All}
use team_flow.Queue.Exclusive.{Exclusive, pair-rowcount}

module _ (definition : Definition) (uuid4 : Delivery → String) (timestamp limit : ℕ)
    (excluded : List String) (store : Store) where
  abbrev StartsWith : Claimed → Claiming → Type 0
  StartsWith item c = (rest : List Claimed) × (c.claimed ≡ item ∷ rest)

  -- What has been claimed stays in front.
  claim_row-StartsWith :
      (item : Claimed) (row : Candidate) (c : Claiming)
      → StartsWith item c
      → StartsWith item (claim_row definition uuid4 timestamp limit store row c)
  unfolding take_row
  claim_row-StartsWith item row c h =
      claim_row_cases definition uuid4 timestamp limit store (StartsWith item) row c h h
        λ task turn j.
          elim (Bool-cases
            (nat_beq (rowcount (is_ready_row timestamp row.delivery) c.deliveries) 1)) [
              | inl e ↦
                  rw (take_row, e)
                    (
                      h.0 ++ claimed_item uuid4 row.delivery task turn ∷ [],
                      ap
                          (λ (xs : List Claimed).
                            xs ++ claimed_item uuid4 row.delivery task turn ∷ [])
                          h.1,
                    )
              | inr e ↦ rw (take_row, e) h
            ]

  abbrev first : Claiming
  first = first_claiming store excluded

  module _ (row : Candidate) (rows : List Candidate) (current : Current)
      (sound : Exclusive store.deliveries) (at_head : candidates timestamp limit store ≡ row ∷ rows)
      (no_turn : nonempty row.delivery.turn_id ≡ none)
      (is_current : current_dispatch store row.event (dispatch_states definition) ≡ some current)
      (same_event : (current.event.event_key == row.delivery.event_key) ≡ true)
      (same_role : role_is
          (target_role definition (some current.state.key) current.task)
          row.agent.role_key
        ≡ true)
      (is_free : elem row.delivery.session_id (busy_sessions store ++ excluded) ≡ false) where
    judged : judge definition store first row ≡ claims current.task none
    unfolding judge continuation_in
    judged = rw (judge, continuation_in, no_turn, is_current, same_event, same_role, is_free) refl

    row-IsCandidate : IsCandidate timestamp store row
    row-IsCandidate =
        All-mem (IsCandidate timestamp store) (candidates timestamp limit store)
          (candidates-All timestamp limit store) (rw at_head (Memᴰ.head refl))

    one_row : rowcount (is_ready_row timestamp row.delivery) store.deliveries ≡ 1
    one_row =
        let p = is_ready_row timestamp row.delivery in
        let is = row-IsCandidate in
        let own : p row.delivery ≡ true =
          ground (arith, is.1, eq_refl row.delivery.event_key, eq_refl row.delivery.agent_id) in
        elim (pair-rowcount row.delivery p store.deliveries (λ e q. and-left _ _ q) sound) [
          | inl z ↦ absurd (omega (arith, rowcount-mem p store.deliveries is.0 own))
          | inr o ↦ o
        ]

    first_row :
        StartsWith
          (claimed_item uuid4 row.delivery current.task none)
          (claim_row definition uuid4 timestamp limit store row first)
    unfolding claim_row take_row
    first_row = rw (claim_row, judged, take_row, one_row) ([], refl)

    -- The row that comes first is handed out, first of all, where it carries on no turn, its event is
    -- the one that its card's state calls for, its agent has the role, and its session is neither
    -- excluded nor busy; provided that no two deliveries are of one event and one agent.
    pub claim_task_deliveries-first :
        (rest : List Claimed) × ((claim_task_deliveries definition uuid4 timestamp limit store
            excluded).1
          ≡ claimed_item uuid4 row.delivery current.task none ∷ rest)
    unfolding claim_task_deliveries claim_rows
    claim_task_deliveries-first =
        let item = claimed_item uuid4 row.delivery current.task none in
        let next = claim_row definition uuid4 timestamp limit store row first in
        elim (Bool-cases (is_full limit first next)) [
          | inl e ↦ rw (claim_task_deliveries, at_head, claim_rows, e) first_row
          | inr e ↦
              rw (claim_task_deliveries, at_head, claim_rows, e)
                (claim_rows-keeps definition uuid4 timestamp limit store (StartsWith item) rows next
                  (λ r c m h. claim_row-StartsWith item r c h) first_row)
        ]
