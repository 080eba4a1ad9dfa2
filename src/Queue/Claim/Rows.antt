-- ===== src/Queue/Claim/Rows.antt =====
-- The rows of the query of `claim_task_deliveries`: deliveries that are ready, with their events and
-- agents.
use team_flow.Prelude.{
  ℕ, ◌≡◌, inl, inr, true, some, List, [], ◌∷◌, Memᴰ, Option-cases, All, All-of_mem, All-take,
  All-order_by, filter, mem-filter, order_by, ◌*◌,
}
use team_flow.Queue.Tables.{Delivery, Store}
use team_flow.Queue.Execution.{event_of}
use team_flow.Queue.Claim.{Candidate, agent_of, is_ready, join_rows, comes_before, candidates}

abbrev pub IsCandidate : ℕ → Store → Candidate → Type 0
IsCandidate timestamp store row =
    Memᴰ row.delivery store.deliveries
    × (is_ready timestamp row.delivery ≡ true)
    × (event_of store row.delivery ≡ some row.event)
    × (agent_of store row.delivery ≡ some row.agent)

join_rows-All :
    (timestamp : ℕ) (store : Store) (ds : List Delivery)
    → All (λ d. Memᴰ d store.deliveries × (is_ready timestamp d ≡ true)) ds
    → All (IsCandidate timestamp store) (join_rows store ds)
unfolding join_rows
join_rows-All timestamp store [] a = tt
join_rows-All timestamp store (d ∷ ds) a =
    let rest = join_rows-All timestamp store ds a.1 in
    elim (Option-cases (event_of store d)) [
      | inl e ↦ rw (join_rows, e) rest
      | inr (event, e) ↦ elim (Option-cases (agent_of store d)) [
        | inl q ↦ rw (join_rows, e, q) rest
        | inr (agent, q) ↦ rw (join_rows, e, q) ((a.0.0, a.0.1, e, q), rest)
      ]
    ]

pub candidates-All :
    (timestamp limit : ℕ) (store : Store)
    → All (IsCandidate timestamp store) (candidates timestamp limit store)
unfolding candidates
candidates-All timestamp limit store =
    let ready = filter (is_ready timestamp) store.deliveries in
    All-take (IsCandidate timestamp store) (limit * 4)
      (order_by comes_before (join_rows store ready))
      (All-order_by (IsCandidate timestamp store) comes_before (join_rows store ready) (
        join_rows-All timestamp store ready
          (All-of_mem _ ready λ d m. mem-filter (is_ready timestamp) store.deliveries m)))
