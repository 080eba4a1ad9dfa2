-- ===== src/Queue/Claim/Reasons.antt =====
-- core/task_delivery_store.py, `claim_task_deliveries`: why it hands a delivery out.
use team_flow.Prelude.{
  ℕ, ◌≡◌, ◌⊎◌, inl, inr, refl, arith, String, true, false, Option, none, some, List, ◌++◌, ◌==◌,
  elem, Bool-cases, Option-cases,
}
use team_flow.Workflow.Definition.{Definition, Task}
use team_flow.Queue.Tables.{Delivery, Store}
use team_flow.Queue.Dispatch.{Current, target_role, dispatch_states, current_dispatch}
use team_flow.Queue.Execution.{Continuation}
use team_flow.Queue.Claim.{
  Candidate, Claimed, Claiming, skips, cancels, claims, judge, judge_current, unless_reserved,
  continuation_in, busy_sessions, claimed_item, role_is,
}
use team_flow.Queue.Calls.{claiming}
use team_flow.Queue.Machine.Answers.{Leads}
use team_flow.Queue.Claim.Rows.{IsCandidate}

module _ (definition : Definition) (uuid4 : Delivery → String) (timestamp limit : ℕ)
    (excluded : List String) (store : Store) where
  -- The row carries on an execution that is active. `ds` are the deliveries at that point: those of
  -- the store, some of which this claim has put in process or canceled.
  abbrev pub CarriesOn : Candidate → Task → Option String → Type 0
  CarriesOn row task turn =
      (ds : List Delivery) × Leads (claiming uuid4 timestamp limit excluded) store.deliveries ds
      × (k : Continuation) × (continuation_in definition store ds row.delivery ≡ some k)
      × (task ≡ k.task)
      × (turn ≡ some k.turn_id)

  -- The row's event is the one that the card's state calls for, and the agent has the role.
  abbrev pub IsCalledFor : Candidate → Task → Option String → Type 0
  IsCalledFor row task turn =
      (current : Current) × (current_dispatch store row.event (dispatch_states definition)
        ≡ some current)
      × ((current.event.event_key == row.delivery.event_key) ≡ true)
      × (role_is (target_role definition (some current.state.key) current.task) row.agent.role_key
          ≡ true)
      × (task ≡ current.task)
      × (turn ≡ none)

  abbrev pub Handed : Claimed → Type 0
  Handed item =
      (row : Candidate) × IsCandidate timestamp store row
      × (elem row.delivery.session_id (busy_sessions store ++ excluded) ≡ false)
      × (item ≡ claimed_item uuid4 row.delivery item.task item.continuation_turn_id)
      × (CarriesOn row item.task item.continuation_turn_id
          ⊎ IsCalledFor row item.task item.continuation_turn_id)

  -- Why a row is claimed.
  unless-claims :
      (reserved : List String) (d : Delivery) (t task : Task) (u turn : Option String)
      → unless_reserved reserved d (claims t u) ≡ claims task turn
      → (elem d.session_id reserved ≡ false) × (task ≡ t) × (turn ≡ u)
  unless-claims reserved d t task u turn h = elim (Bool-cases (elem d.session_id reserved)) [
    | inl e ↦ let q : skips ≡ claims task turn = rw e at h in absurd (ground arith)
    | inr e ↦ let q : claims t u ≡ claims task turn = rw e at h in (e, ground arith, ground arith)
  ]

  judge_current-claims :
      (reserved : List String) (row : Candidate) (o : Option Current) (task : Task)
      (turn : Option String)
      → current_dispatch store row.event (dispatch_states definition) ≡ o
      → judge_current definition store reserved row o ≡ claims task turn
      → (elem row.delivery.session_id reserved ≡ false) × IsCalledFor row task turn
  judge_current-claims reserved row none task turn q h = cc
  judge_current-claims reserved row (some current) task turn q h =
      elim (Bool-cases (current.event.event_key == row.delivery.event_key)) [
        | inr e ↦ let z : cancels ≡ claims task turn = rw e at h in absurd (ground arith)
        | inl e ↦
            elim (Bool-cases (
              role_is (target_role definition (some current.state.key) current.task)
                row.agent.role_key)) [
                  | inr k ↦
                      let z : cancels ≡ claims task turn = rw (e, k) at h in absurd (ground arith)
                  | inl k ↦
                      let r =
                        unless-claims reserved row.delivery current.task task none turn
                          (rw (e, k) at h) in
                      (r.0, (current, q, e, k, r.1, r.2))
                ]
      ]

  pub judge-claims :
      (c : Claiming) (row : Candidate) (task : Task) (turn : Option String)
      → Leads (claiming uuid4 timestamp limit excluded) store.deliveries c.deliveries
      → judge definition store c row ≡ claims task turn
      → (elem row.delivery.session_id c.reserved ≡ false)
        × (CarriesOn row task turn ⊎ IsCalledFor row task turn)
  unfolding judge
  judge-claims c row task turn leads h =
      elim (Option-cases (continuation_in definition store c.deliveries row.delivery)) [
        | inl e ↦
            let r =
              judge_current-claims c.reserved row
                (current_dispatch store row.event (dispatch_states definition)) task turn refl
                (rw (judge, e) at h) in
            (r.0, inr r.1)
        | inr (k, e) ↦
            let r =
              unless-claims c.reserved row.delivery k.task task (some k.turn_id) turn
                (rw (judge, e) at h) in
            (r.0, inl (c.deliveries, leads, k, e, r.1, r.2))
      ]
