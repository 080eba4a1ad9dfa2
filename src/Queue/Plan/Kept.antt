-- ===== src/Queue/Plan/Kept.antt =====
-- core/task_delivery_planner.py: what planning an event leaves of the plan so far.
use team_flow.Prelude.{
  ℕ, ◌+◌, ◌≡◌, ◌∙◌, inl, inr, refl, arith, String, true, false, ◌&&◌, none, some, All-of_mem, List,
  [], ◌∷◌, ◌==◌, any, eq_refl, Bool-cases, All, update_rows, map, Bool, update_rows-All, any_same,
  any_more, any_last,
}
use team_flow.Queue.Tables.{Delivery, TaskEvent, Agent, Store}
use team_flow.Queue.Dispatch.{is_delivery_of, finish_routing, insert_delivery, new_delivery}
use team_flow.Workflow.Definition.{Definition}
use team_flow.Queue.Plan.{wake_queued, insert_deliveries, is_queued_for}

abbrev pub NotPending : String → TaskEvent → Type 0
NotPending key e = (e.event_key == key && e.routing_status == "pending") ≡ false

-- An event without what becomes of it.
abbrev pub unrouted : TaskEvent → TaskEvent
unrouted e = record e { routing_status = ""; routed_at = none }

pub record Kept (s t : Store) : Type 0 where
  pub agents : t.agents ≡ s.agents
  pub states : t.states ≡ s.states
  pub events : map unrouted t.events ≡ map unrouted s.events
  pub deliveries :
      (e : TaskEvent) (a : Agent)
      → any (is_delivery_of e a) s.deliveries ≡ true
      → any (is_delivery_of e a) t.deliveries ≡ true
  pub settled : (key : String) → All (NotPending key) s.events → All (NotPending key) t.events

pub Kept-refl : (s : Store) → Kept s s
Kept-refl s = record {
  agents = refl;
  states = refl;
  events = refl;
  deliveries = λ e a h. h;
  settled = λ key h. h;
}

pub Kept-trans : (s t u : Store) → Kept s t → Kept t u → Kept s u
Kept-trans s t u h k = record {
  agents = k.agents ∙ h.agents;
  states = k.states ∙ h.states;
  events = k.events ∙ h.events;
  deliveries = λ e a q. k.deliveries e a (h.deliveries e a q);
  settled = λ key q. k.settled key (h.settled key q);
}

pub Kept-wake_queued : (event : TaskEvent) (s : Store) → Kept s (wake_queued event s)
unfolding wake_queued
Kept-wake_queued event s = record {
  agents = refl;
  states = refl;
  events = refl;
  deliveries = λ e a h.
      any_same (is_queued_for s event) (λ (d : Delivery). record d { next_attempt_at = none })
        (is_delivery_of e a) s.deliveries (λ d. refl)
      ∙ h;
  settled = λ key h. h;
}

map-update_rows :
    {A : Type 0} (g : A → A) (p : A → Bool) (f : A → A) (xs : List A)
    → ((x : A) → g (f x) ≡ g x)
    → map g (update_rows p f xs) ≡ map g xs
map-update_rows g p f [] h = refl
map-update_rows g p f (x ∷ xs) h = elim (Bool-cases (p x)) [
  | inl e ↦ rw e (rw (h x, map-update_rows g p f xs h) refl)
  | inr e ↦ rw e (rw (map-update_rows g p f xs h) refl)
]

pub Kept-finish_routing :
    (s : Store) (key status : String) (timestamp : ℕ)
    → (status == "pending") ≡ false
    → Kept s (finish_routing s key status timestamp)
unfolding finish_routing
Kept-finish_routing s key status timestamp h = record {
  agents = refl;
  states = refl;
  events =
      map-update_rows unrouted (λ (e : TaskEvent). e.event_key == key)
        (λ (e : TaskEvent). record e { routing_status = status; routed_at = some timestamp })
        s.events (λ e. refl);
  deliveries = λ e a q. q;
  settled = λ k q.
      update_rows-All (λ (e : TaskEvent). e.event_key == key)
        (λ (e : TaskEvent). record e { routing_status = status; routed_at = some timestamp })
        (NotPending k) (NotPending k) s.events
        (λ e n. elim (Bool-cases (e.event_key == key)) [
          | inl g ↦ rw g (ground arith)
          | inr g ↦ rw g n
        ])
        q;
}

-- The event itself is settled then.
pub finish_routing-settles :
    (s : Store) (key status : String) (timestamp : ℕ)
    → (status == "pending") ≡ false
    → All (NotPending key) (finish_routing s key status timestamp).events
unfolding finish_routing
finish_routing-settles s key status timestamp h =
    update_rows-All (λ (e : TaskEvent). e.event_key == key)
      (λ (e : TaskEvent). record e { routing_status = status; routed_at = some timestamp })
      (λ e. Unit) (NotPending key) s.events
      (λ e n. elim (Bool-cases (e.event_key == key)) [
        | inl g ↦ rw g (ground arith)
        | inr g ↦ rw g (ground arith)
      ])
      (All-of_mem (λ e. Unit) s.events λ e m. tt)

pub Kept-insert_delivery :
    (s : Store) (event : TaskEvent) (a : Agent) (timestamp : ℕ)
    → Kept s (insert_delivery s event a timestamp).0
unfolding insert_delivery
Kept-insert_delivery s event a timestamp =
    elim (Bool-cases (any (is_delivery_of event a) s.deliveries)) [
      | inl e ↦ rw (insert_delivery, e) (Kept-refl s)
      | inr e ↦
          rw (insert_delivery, e)
            (record {
              agents = refl;
              states = refl;
              events = refl;
              deliveries = λ f b h. any_more (is_delivery_of f b) s.deliveries _ h;
              settled = λ key h. h;
            })
    ]

insert_delivery-delivers :
    (s : Store) (event : TaskEvent) (a : Agent) (timestamp : ℕ)
    → any (is_delivery_of event a) (insert_delivery s event a timestamp).0.deliveries ≡ true
unfolding insert_delivery
insert_delivery-delivers s event a timestamp =
    elim (Bool-cases (any (is_delivery_of event a) s.deliveries)) [
      | inl e ↦ rw (insert_delivery, e) e
      | inr e ↦
          rw (insert_delivery, e)
            (any_last (is_delivery_of event a) s.deliveries (new_delivery s event a timestamp)
              (ground (arith, eq_refl event.event_key, eq_refl a.id)))
    ]

module _ (definition : Definition) (workspace_id : String) (timestamp : ℕ) (event : TaskEvent) where
  pub Kept-insert_deliveries :
      (agents : List Agent) (c : Store × ℕ)
      → Kept c.0 (insert_deliveries definition workspace_id timestamp event agents c).0
  unfolding insert_deliveries
  Kept-insert_deliveries [] c = Kept-refl c.0
  Kept-insert_deliveries (a ∷ agents) (s, n) =
      let next = insert_delivery s event a timestamp in
      Kept-trans s next.0 _ (Kept-insert_delivery s event a timestamp)
        (Kept-insert_deliveries agents (next.0, n + next.1))

  -- Every agent of the list has a delivery of the event.
  pub insert_deliveries-All :
      (agents : List Agent) (c : Store × ℕ)
      → All
          (λ a.
            any
              (is_delivery_of event a)
              (insert_deliveries definition workspace_id timestamp event agents c).0.deliveries
            ≡ true)
          agents
  unfolding insert_deliveries
  insert_deliveries-All [] c = tt
  insert_deliveries-All (a ∷ agents) (s, n) =
      let next = insert_delivery s event a timestamp in
      (
        (Kept-insert_deliveries agents (next.0, n + next.1)).deliveries event a
            (insert_delivery-delivers s event a timestamp),
        insert_deliveries-All agents (next.0, n + next.1),
      )
