-- ===== src/Queue/Plan/Called.antt =====
-- core/task_delivery_planner.py, `prepare_task_deliveries`: whom an event calls for, which planning other
-- events leaves as it is.
use team_flow.Prelude.{
  ◌≡◌, ◌≢◌, ◌⊎◌, ◌∙◌, refl, sym, ap, inl, inr, arith, String, Bool, true, false, ◌&&◌, ◌||◌, Option,
  none, some, List, [], ◌∷◌, ◌==◌, eq_iff, map, Bool-cases, Option-cases, Dict, lookup, find?,
  find_last?,
}
use mathlib.Core.Option
use team_flow.Workflow.Definition.{State, Definition, Task}
use team_flow.Queue.Tables.{TaskEvent, TaskState, Store, nonempty}
use team_flow.Queue.Dispatch.{
  Current, entered, updated_event, dispatch_event_state, dispatch_states, triggers, current_in,
  current_dispatch, same_card, same_record, is_current_of, target_role,
}
use team_flow.Queue.Plan.{event_task, current_task}
use team_flow.Queue.Plan.Kept.{unrouted, Kept}

-- The key of the event that a dispatch answers, and its task.
abbrev pub dispatched : Option Current → Option (String × Task)
dispatched none = none
dispatched (some c) = some (c.event.event_key, c.task)

-- Whom an event calls for on a board: an event that is no dispatch the role that its own task names
-- without a status; a dispatch that is current the role of its state, by the task on the board; and
-- a dispatch that is not current nobody.
abbrev pub CallsFor : Definition → Store → TaskEvent → Option String → Type 0
CallsFor definition store event target =
    let states = dispatch_states definition in
    let current = dispatched (current_dispatch store event states) in
    ((dispatch_event_state states event ≡ none)
      × (target ≡ nonempty (target_role definition none (event_task event))))
    ⊎ (((state : State) × (task : Task) × (dispatch_event_state states event ≡ some state)
          × (current ≡ some (event.event_key, task))
          × (target ≡ nonempty (target_role definition (some state.key) task)))
        ⊎ ((state : State) × (dispatch_event_state states event ≡ some state)
            × ((task : Task) → current ≢ some (event.event_key, task))
            × (target ≡ none)))

dispatch_event_state-unrouted :
    (states : Dict State) (e : TaskEvent)
    → dispatch_event_state states (unrouted e) ≡ dispatch_event_state states e
unfolding dispatch_event_state
dispatch_event_state-unrouted [] e = refl
dispatch_event_state-unrouted ((key, s) ∷ states) e =
    rw (dispatch_event_state-unrouted states e) refl

triggers-unrouted :
    (states : Dict State) (s : State) (event e : TaskEvent)
    → triggers states s event (unrouted e) ≡ triggers states s event e
unfolding triggers
triggers-unrouted states s event e =
    ap
      (λ (m : Option State).
        same_record event e
        && (e.event_type == entered s.key || e.event_type == updated_event s.key)
        && elim m [ none ↦ false | some x ↦ x.key == s.key ])
      (dispatch_event_state-unrouted states e)

find_last-map :
    {A : Type 0} (p : A → Bool) (f : A → A) (xs : List A)
    → ((x : A) → p (f x) ≡ p x)
    → find_last? p (map f xs) ≡ Option.map f (find_last? p xs)
find_last-map p f [] h = refl
find_last-map p f (x ∷ xs) h = elim (Option-cases (find_last? p xs)) [
  | inr (y, e) ↦ rw (find_last-map p f xs h) (rw e refl)
  | inl e ↦ elim (Bool-cases (p x)) [
    | inl q ↦ rw (find_last-map p f xs h) (rw e (rw (h x) (rw q refl)))
    | inr q ↦ rw (find_last-map p f xs h) (rw e (rw (h x) (rw q refl)))
  ]
]

abbrev keyed : Task → Option TaskEvent → Option (String × Task)
keyed task none = none
keyed task (some e) = some (e.event_key, task)

keyed-unrouted :
    (task : Task) (m : Option TaskEvent) → keyed task (Option.map unrouted m) ≡ keyed task m
keyed-unrouted task none = refl
keyed-unrouted task (some e) = refl

dispatched-current_in :
    (store : Store) (event : TaskEvent) (states : Dict State) (row : TaskState) (s : State)
    → dispatched (current_in store event states row s)
      ≡ keyed row.snapshot (find_last? (triggers states s event) (map unrouted store.events))
unfolding current_in
dispatched-current_in store event states row s =
    opened (find_last? (triggers states s event) store.events)
    ∙ sym (keyed-unrouted row.snapshot (find_last? (triggers states s event) store.events))
    ∙ ap (keyed row.snapshot) (
        sym (
          find_last-map (triggers states s event) unrouted store.events
            (triggers-unrouted states s event)))
  where
    opened :
        (m : Option TaskEvent)
        → dispatched (elim m [
          | none ↦ none
          | some trigger ↦ some (record { state = s; event = trigger; task = row.snapshot })
        ])
          ≡ keyed row.snapshot m
    opened none = refl
    opened (some e) = refl

-- What is current stays so while events are routed.
pub dispatched-Kept :
    (s t : Store) (event : TaskEvent) (states : Dict State)
    → Kept s t
    → dispatched (current_dispatch t event states) ≡ dispatched (current_dispatch s event states)
unfolding current_dispatch
dispatched-Kept s t event states k =
    rw (k.states, current_dispatch) (opened (find? (same_card event) s.states))
  where
    same :
        (row : TaskState) (x : State)
        → dispatched (current_in t event states row x)
          ≡ dispatched (current_in s event states row x)
    same row x =
        dispatched-current_in t event states row x
        ∙ ap (λ (es : List TaskEvent). keyed row.snapshot (find_last? (triggers states x event) es))
            k.events
        ∙ sym (dispatched-current_in s event states row x)

    stated :
        (row : TaskState) (m : Option State)
        → dispatched (elim m [ none ↦ none | some x ↦ current_in t event states row x ])
          ≡ dispatched (elim m [ none ↦ none | some x ↦ current_in s event states row x ])
    stated row none = refl
    stated row (some x) = same row x

    keyed_by :
        (row : TaskState) (m : Option String)
        → dispatched (elim m [
          | none ↦ none
          | some key ↦ elim (lookup states key) [
            | none ↦ none
            | some x ↦ current_in t event states row x
          ]
        ])
          ≡ dispatched (elim m [
            | none ↦ none
            | some key ↦ elim (lookup states key) [
              | none ↦ none
              | some x ↦ current_in s event states row x
            ]
          ])
    keyed_by row none = refl
    keyed_by row (some key) = stated row (lookup states key)

    opened :
        (m : Option TaskState)
        → dispatched (elim m [
          | none ↦ none
          | some row ↦ elim row.status [
            | none ↦ none
            | some key ↦ elim (lookup states key) [
              | none ↦ none
              | some x ↦ current_in t event states row x
            ]
          ]
        ])
          ≡ dispatched (elim m [
            | none ↦ none
            | some row ↦ elim row.status [
              | none ↦ none
              | some key ↦ elim (lookup states key) [
                | none ↦ none
                | some x ↦ current_in s event states row x
              ]
            ]
          ])
    opened none = refl
    opened (some row) = keyed_by row row.status

pub CallsFor-Kept :
    (definition : Definition) (s t : Store) (event : TaskEvent) (target : Option String)
    → Kept s t
    → CallsFor definition t event target
    → CallsFor definition s event target
CallsFor-Kept definition s t event target k (inl h) = inl h
CallsFor-Kept definition s t event target k (inr (inl (state, task, e, c, h))) =
    inr
      (inl (state, task, e, sym (dispatched-Kept s t event (dispatch_states definition) k) ∙ c, h))
CallsFor-Kept definition s t event target k (inr (inr (state, e, c, h))) = inr (
    inr (
      state,
      e,
      λ task q. c task (dispatched-Kept s t event (dispatch_states definition) k ∙ q),
      h,
    ))

-- The two answers of `is_current_of`.
pub is_current_of-dispatched :
    (event : TaskEvent) (m : Option Current) (task : Task)
    → is_current_of event m ≡ true
    → dispatched m ≡ some (event.event_key, current_task m task)
is_current_of-dispatched event none task h = cc
is_current_of-dispatched event (some c) task h =
    ap (λ (key : String). some (key, c.task)) ((eq_iff c.event.event_key event.event_key).0 h)

pub is_current_of-other :
    (event : TaskEvent) (m : Option Current) (task : Task)
    → is_current_of event m ≡ false
    → dispatched m ≢ some (event.event_key, task)
is_current_of-other event none task h q = cc
is_current_of-other event (some c) task h q =
    let same : (c.event.event_key == event.event_key) ≡ true =
      (eq_iff c.event.event_key event.event_key).1 (ground arith) in
    cc
