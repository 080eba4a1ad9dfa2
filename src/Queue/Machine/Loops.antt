-- ===== src/Queue/Machine/Loops.antt =====
-- The state machine and the two calls that go through many rows one by one, of
-- core/task_delivery_store.py.
use team_flow.Prelude.{
  ℕ, ◌≡◌, inl, inr, refl, arith, String, not, Option, List, [], ◌∷◌, Bool-cases, Option-cases,
  rowcount, nat_beq, filter, order_by,
}
use team_flow.Workflow.Definition.{Definition, Task}
use team_flow.Queue.Tables.{Delivery, Store, nonempty}
use team_flow.Queue.Claim.{
  Candidate, Claiming, cancel_row, take_row, claim_row, claim_task_deliveries, candidates,
  first_claiming, is_ready_row, message_of, claimed_row,
}
use team_flow.Queue.Claim.Cases.{claim_row_cases, claim_rows-keeps}
use team_flow.Queue.Recover.{
  needs_delivery, stop_its_execution, may_retry, recover_row, recover_rows, is_failed_row, given_up,
  retried_row, recover_retryable_failed_task_deliveries, failed_before, is_retryable,
}
use team_flow.Queue.Calls.{Call, retrying_failed, claiming}
use team_flow.Queue.Machine.{may_move, Tracks-rows, Tracks-rows_trans, update_rows-Tracks}
use team_flow.Queue.Machine.Updates.{Follows, stop-deliveries}
use team_flow.Queue.Machine.Answers.{Leads}

module _ (definition : Definition) (uuid4 : Delivery → String) (timestamp limit : ℕ)
    (excluded : List String) (store : Store) where
  abbrev the_claim : Call
  the_claim = claiming uuid4 timestamp limit excluded

  pub Leads-trans :
      (ds es fs : List Delivery)
      → Leads the_claim ds es
      → Leads the_claim es fs
      → Leads the_claim ds fs
  Leads-trans = Tracks-rows_trans (may_move the_claim) (λ s t u h k. ground arith)

  pub take_row-Leads :
      (d : Delivery) (task : Task) (continuation : Option String) (c : Claiming)
      → Leads the_claim c.deliveries (take_row uuid4 timestamp d task continuation c).deliveries
  unfolding take_row
  take_row-Leads d task continuation c =
      let p = is_ready_row timestamp d in
      let tracked =
        update_rows-Tracks (may_move the_claim) p
          (claimed_row timestamp (message_of uuid4 d) continuation) c.deliveries
          λ e h. (refl, refl, refl, refl, ground arith) in
      elim (Bool-cases (nat_beq (rowcount p c.deliveries) 1)) [
        | inl e ↦ rw (take_row, e) tracked
        | inr e ↦ rw (take_row, e) tracked
      ]

  pub cancel_row-Leads :
      (d : Delivery) (c : Claiming)
      → Leads the_claim c.deliveries (cancel_row timestamp d c).deliveries
  cancel_row-Leads d c =
      update_rows-Tracks (may_move the_claim) _ _ c.deliveries
        λ e q. (refl, refl, refl, refl, ground arith)

  pub claim_row-Leads :
      (row : Candidate) (c : Claiming)
      → Leads the_claim store.deliveries c.deliveries
      → Leads the_claim store.deliveries
          (claim_row definition uuid4 timestamp limit store row c).deliveries
  claim_row-Leads row c h =
      claim_row_cases definition uuid4 timestamp limit store
        (λ next. Leads the_claim store.deliveries next.deliveries) row c
        (Leads-trans store.deliveries c.deliveries _ h (cancel_row-Leads row.delivery c)) h
        λ task continuation _.
          Leads-trans store.deliveries c.deliveries _ h
            (take_row-Leads row.delivery task continuation c)

  pub claiming-Follows :
      Follows the_claim store
        (claim_task_deliveries definition uuid4 timestamp limit store excluded).0
  unfolding claim_task_deliveries
  claiming-Follows =
      claim_rows-keeps definition uuid4 timestamp limit store
        (λ c. Leads the_claim store.deliveries c.deliveries) (candidates timestamp limit store)
        (first_claiming store excluded) (λ row c m h. claim_row-Leads row c h)
        (Tracks-rows (may_move the_claim) store.deliveries)

module _ (definition : Definition) (timestamp limit : ℕ) where
  abbrev the_retry : Call
  the_retry = retrying_failed timestamp limit

  stop_its_execution-deliveries :
      (d : Delivery) (store : Store)
      → (stop_its_execution definition timestamp limit d store).deliveries ≡ store.deliveries
  unfolding stop_its_execution
  stop_its_execution-deliveries d store = elim (Option-cases (nonempty d.turn_id)) [
    | inl e ↦ rw (stop_its_execution, e) refl
    | inr (turn, e) ↦ rw (stop_its_execution, e) (stop-deliveries store d.id turn timestamp)
  ]

  recover_row-Leads :
      (d : Delivery) (c : Store × ℕ)
      → Leads the_retry c.0.deliveries (recover_row definition timestamp limit d c).0.deliveries
  unfolding recover_row
  recover_row-Leads d (store, n) =
      elim (Bool-cases (not (needs_delivery definition timestamp limit store d))) [
        | inl e ↦
            rw (recover_row, e, stop_its_execution-deliveries d store)
              (update_rows-Tracks (may_move the_retry) (is_failed_row d.id) (given_up timestamp)
                store.deliveries λ e h. (refl, refl, refl, refl, ground arith))
        | inr e ↦ elim (Bool-cases (may_retry definition timestamp limit store d)) [
          | inl q ↦
              rw (recover_row, e, q)
                (update_rows-Tracks (may_move the_retry) (is_failed_row d.id) retried_row
                  store.deliveries λ e h. (refl, refl, refl, refl, ground arith))
          | inr q ↦ rw (recover_row, e, q) (Tracks-rows (may_move the_retry) store.deliveries)
        ]
      ]

  recover_rows-Leads :
      (ds : List Delivery) (c : Store × ℕ)
      → Leads the_retry c.0.deliveries (recover_rows definition timestamp limit ds c).0.deliveries
  unfolding recover_rows
  recover_rows-Leads [] c = Tracks-rows (may_move the_retry) c.0.deliveries
  recover_rows-Leads (d ∷ ds) c =
      let next = recover_row definition timestamp limit d c in
      Tracks-rows_trans (may_move the_retry) (λ s t u h k. ground arith) c.0.deliveries
        next.0.deliveries _ (recover_row-Leads d c) (recover_rows-Leads ds next)

  pub retrying_failed-Follows :
      (store : Store)
      → Follows the_retry store
          (recover_retryable_failed_task_deliveries definition timestamp limit store).0
  unfolding recover_retryable_failed_task_deliveries
  retrying_failed-Follows store =
      recover_rows-Leads (order_by failed_before (filter is_retryable store.deliveries)) (store, 0)
