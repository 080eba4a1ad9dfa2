-- ===== src/Queue/Plan/Settles.antt =====
-- core/task_delivery_planner.py, `prepare_task_deliveries`: what becomes of an event.
use team_flow.Prelude.{ℕ, String, List, [], ◌∷◌, All}
use team_flow.Workflow.Definition.{Definition}
use team_flow.Queue.Tables.{TaskEvent, Store}
use team_flow.Queue.Plan.{
  Plan, plan_event, plan_events, pending_events, prepare_task_deliveries, no_plan,
}
use team_flow.Queue.Plan.Kept.{Kept, Kept-refl, Kept-trans}
use team_flow.Queue.Plan.Advances.{Settled, Onward, Onward-Settled, plan_event-Advances}

module _ (definition : Definition) (workspace_id : String) (timestamp : ℕ) where
  plan_events-Onward :
      (store : Store) (events : List TaskEvent) (p : Plan)
      → Kept store p.store
      → Onward definition workspace_id timestamp p
          (plan_events definition workspace_id timestamp events p)
  unfolding plan_events
  plan_events-Onward store [] p kept = (Kept-refl p.store, λ o m. m)
  plan_events-Onward store (event ∷ events) p kept =
      let next = plan_event definition workspace_id timestamp event p in
      let one = (plan_event-Advances definition workspace_id timestamp store event p kept).0 in
      let rest =
        plan_events-Onward store events next (Kept-trans store p.store next.store kept one.0) in
      (Kept-trans p.store next.store _ one.0 rest.0, λ o m. rest.1 o (one.1 o m))

  plan_events-Settled :
      (store : Store) (events : List TaskEvent) (p : Plan)
      → Kept store p.store
      → All
          (Settled definition workspace_id timestamp store
            (plan_events definition workspace_id timestamp events p))
          events
  unfolding plan_events
  plan_events-Settled store [] p kept = tt
  plan_events-Settled store (event ∷ events) p kept =
      let next = plan_event definition workspace_id timestamp event p in
      let one = plan_event-Advances definition workspace_id timestamp store event p kept in
      let then_kept = Kept-trans store p.store next.store kept one.0.0 in
      (
        Onward-Settled definition workspace_id timestamp store next
            (plan_events definition workspace_id timestamp events next) event
            (plan_events-Onward store events next then_kept) one.1,
        plan_events-Settled store events next then_kept,
      )

  -- Every event that is pending gets an outcome, which names the role that the event calls for, on the
  -- board as it was before: it calls for nobody, as one that is no longer current does, and is
  -- pending no more; or no agent is registered for that role; or each of the role's agents has a
  -- delivery of the event, and it is pending no more.
  pub prepare_task_deliveries-Settled :
      (store : Store)
      → All
          (Settled definition workspace_id timestamp store
            (prepare_task_deliveries definition workspace_id timestamp store))
          (pending_events definition workspace_id timestamp store)
  unfolding prepare_task_deliveries
  prepare_task_deliveries-Settled store =
      plan_events-Settled store (pending_events definition workspace_id timestamp store)
        (no_plan definition workspace_id timestamp store) (Kept-refl store)
