-- ===== src/Queue/Plan/Advances.antt =====
-- core/task_delivery_planner.py, `prepare_task_deliveries`: one event.
use team_flow.Prelude.{
  ℕ, ◌≡◌, ◌≢◌, ◌⊎◌, ◌∙◌, sym, subst, inl, inr, refl, String, true, Option, none, some, List, [],
  ◌∷◌, any, Bool-cases, Option-cases, All, All-map, Memᴰ, mem_more, mem_last, List-cases,
}
use team_flow.Workflow.Definition.{Definition, Task}
use team_flow.Queue.Tables.{TaskEvent, Agent, Store, nonempty}
use team_flow.Queue.Dispatch.{
  is_delivery_of, dispatch_event_state, dispatch_states, current_dispatch, is_current_of,
  target_role,
}
use team_flow.Queue.Plan.{
  Outcome, Plan, wake_queued, insert_deliveries, agents_for, ignore_event, route_event, send_event,
  plan_event, outcome_of, event_task, current_task,
}
use team_flow.Queue.Plan.Kept.{
  NotPending, Kept, Kept-refl, Kept-trans, Kept-wake_queued, Kept-finish_routing,
  finish_routing-settles, Kept-insert_deliveries, insert_deliveries-All,
}
use team_flow.Queue.Plan.Called.{
  dispatched, CallsFor, CallsFor-Kept, is_current_of-dispatched, is_current_of-other,
}

module _ (definition : Definition) (workspace_id : String) (timestamp : ℕ) where
  -- No agent is to be notified.
  abbrev pub IsIgnored : Store → TaskEvent → Outcome → Type 0
  IsIgnored s event o =
      (o.result ≡ "not-required") × (o.target ≡ none) × All (NotPending event.event_key) s.events

  -- The role has no agent yet.
  abbrev pub IsWaiting : Store → TaskEvent → Outcome → Type 0
  IsWaiting s event o =
      (role : String) × (o.target ≡ some role)
      × (o.result ≡ "waiting")
      × (agents_for definition workspace_id timestamp s event role ≡ [])

  -- Every agent of the role has a delivery of the event.
  abbrev pub IsRouted : Store → TaskEvent → Outcome → Type 0
  IsRouted s event o =
      (role : String) × (o.target ≡ some role)
      × (o.result ≡ "routed")
      × All (λ a. any (is_delivery_of event a) s.deliveries ≡ true)
          (agents_for definition workspace_id timestamp s event role)
      × All (NotPending event.event_key) s.events

  abbrev pub Settled : Store → Plan → TaskEvent → Type 0
  Settled store p event =
      (o : Outcome) × Memᴰ o p.outcomes
      × (o.record_id ≡ event.record_id)
      × (o.event_type ≡ event.event_type)
      × CallsFor definition store event o.target
      × (IsIgnored p.store event o ⊎ (IsWaiting p.store event o ⊎ IsRouted p.store event o))

  abbrev pub Onward : Plan → Plan → Type 0
  Onward p q = Kept p.store q.store × ((o : Outcome) → Memᴰ o p.outcomes → Memᴰ o q.outcomes)

  agents_for-Kept :
      (s t : Store) (event : TaskEvent) (role : String)
      → Kept s t
      → agents_for definition workspace_id timestamp t event role
        ≡ agents_for definition workspace_id timestamp s event role
  unfolding agents_for
  agents_for-Kept s t event role k = rw k.agents refl

  pub Onward-Settled :
      (store : Store) (p q : Plan) (event : TaskEvent)
      → Onward p q
      → Settled store p event
      → Settled store q event
  Onward-Settled store p q event w (o, m, r, t, c, inl h) =
      (o, w.1 o m, r, t, c, inl (h.0, h.1, w.0.settled event.event_key h.2))
  Onward-Settled store p q event w (o, m, r, t, c, inr (inl h)) = (
    o,
    w.1 o m,
    r,
    t,
    c,
    inr (inl (h.0, h.1, h.2, agents_for-Kept p.store q.store event h.0 w.0 ∙ h.3)),
  )
  Onward-Settled store p q event w (o, m, r, t, c, inr (inr h)) = (
    o,
    w.1 o m,
    r,
    t,
    c,
    inr (
        inr (
          h.0,
          h.1,
          h.2,
          subst (All (λ a. any (is_delivery_of event a) q.store.deliveries ≡ true))
              (sym (agents_for-Kept p.store q.store event h.0 w.0))
              (All-map _ _ _ (λ a d. w.0.deliveries event a d) h.3),
          w.0.settled event.event_key h.4,
        )),
  )

  -- One event is settled, and what was before is kept.
  abbrev pub Advances : Store → TaskEvent → Plan → Plan → Type 0
  Advances store event p q = Onward p q × Settled store q event

  ignore-Advances :
      (store : Store) (event : TaskEvent) (task : Task) (p : Plan)
      → CallsFor definition store event none
      → Advances store event p (ignore_event definition workspace_id timestamp event task p)
  unfolding ignore_event
  ignore-Advances store event task p calls = (
    (
      Kept-finish_routing p.store event.event_key "ignored" timestamp refl,
      λ o m. mem_more p.outcomes _ m,
    ),
    (
      outcome_of definition workspace_id timestamp event task "not-required" none,
      mem_last p.outcomes _,
      refl,
      refl,
      calls,
      inl (refl, refl, finish_routing-settles p.store event.event_key "ignored" timestamp refl),
    ),
  )

  route-Advances :
      (store : Store) (event : TaskEvent) (task : Task) (role : String) (agents : List Agent)
      (p : Plan)
      → CallsFor definition store event (some role)
      → agents_for definition workspace_id timestamp p.store event role ≡ agents
      → Advances store event p
          (route_event definition workspace_id timestamp event task role agents p)
  unfolding route_event
  route-Advances store event task role agents p calls q =
      let c =
        insert_deliveries definition workspace_id timestamp event agents (p.store, p.deliveries) in
      let inserted =
        Kept-insert_deliveries definition workspace_id timestamp event agents
          (p.store, p.deliveries) in
      let finished = Kept-finish_routing c.0 event.event_key "routed" timestamp refl in
      let all = Kept-trans p.store c.0 _ inserted finished in
      (
        (all, λ o m. mem_more p.outcomes _ m),
        (
          outcome_of definition workspace_id timestamp event task "routed" (some role),
          mem_last p.outcomes _,
          refl,
          refl,
          calls,
          inr (
              inr (
                role,
                refl,
                refl,
                subst (All _) (sym (agents_for-Kept p.store _ event role all ∙ q)) (
                    All-map _ _ agents (λ a d. finished.deliveries event a d)
                      (insert_deliveries-All definition workspace_id timestamp event agents
                        (p.store, p.deliveries))),
                finish_routing-settles c.0 event.event_key "routed" timestamp refl,
              )),
        ),
      )

  send-Advances :
      (store : Store) (event : TaskEvent) (task : Task) (target : Option String) (p : Plan)
      → CallsFor definition store event target
      → Advances store event p (send_event definition workspace_id timestamp event task target p)
  unfolding send_event
  send-Advances store event task none p calls = ignore-Advances store event task p calls
  send-Advances store event task (some role) p calls =
      elim (List-cases (agents_for definition workspace_id timestamp p.store event role)) [
        | inl e ↦
            rw (send_event, e)
              (
                (Kept-refl p.store, λ o m. mem_more p.outcomes _ m),
                (
                  outcome_of definition workspace_id timestamp event task "waiting" (some role),
                  mem_last p.outcomes _,
                  refl,
                  refl,
                  calls,
                  inr (inl (role, refl, refl, e)),
                ),
              )
        | inr (a, agents, e) ↦
            rw (send_event, e) (route-Advances store event task role (a ∷ agents) p calls e)
      ]

  pub plan_event-Advances :
      (store : Store) (event : TaskEvent) (p : Plan)
      → Kept store p.store
      → Advances store event p (plan_event definition workspace_id timestamp event p)
  unfolding plan_event
  plan_event-Advances store event p kept =
      let woken : Plan = record p { store = wake_queued event p.store } in
      let unmoved = Kept-trans store p.store woken.store kept (Kept-wake_queued event p.store) in
      let wake : (q : Plan) → Advances store event woken q → Advances store event p q = λ q h. (
        (Kept-trans p.store woken.store q.store (Kept-wake_queued event p.store) h.0.0, h.0.1),
        h.1,
      ) in
      let planned = plan_event definition workspace_id timestamp event p in
      let send : (task : Task) (target : Option String)
          → planned ≡ send_event definition workspace_id timestamp event task target woken
          → CallsFor definition woken.store event target
          → Advances store event p planned =
        λ task target same c. subst (Advances store event p) (sym same) (
          wake (send_event definition workspace_id timestamp event task target woken) (
            send-Advances store event task target woken
              (CallsFor-Kept definition store woken.store event target unmoved c))) in
      let states = dispatch_states definition in
      let current = current_dispatch woken.store event states in
      let task = current_task current (event_task event) in
      elim (Option-cases (dispatch_event_state states event)) [
        | inl e ↦
            send (event_task event) (nonempty (target_role definition none (event_task event)))
              (rw (plan_event, e) refl) (inl (e, refl))
        | inr (state, e) ↦ elim (Bool-cases (is_current_of event current)) [
          | inl k ↦
              let met = is_current_of-dispatched event current (event_task event) k in
              send task (nonempty (target_role definition (some state.key) task))
                (rw (plan_event, e, k) refl) (inr (inl (state, task, e, met, refl)))
          | inr k ↦
              let ignored = ignore_event definition workspace_id timestamp event task woken in
              let same : planned ≡ ignored = rw (plan_event, e, k) refl in
              let unmet : (x : Task) → dispatched current ≢ some (event.event_key, x) =
                λ x. is_current_of-other event current x k in
              subst (Advances store event p) (sym same) (
                wake ignored (
                  ignore-Advances store event task woken (
                    CallsFor-Kept definition store woken.store event none unmoved
                      (inr (inr (state, e, unmet, refl))))))
        ]
      ]
