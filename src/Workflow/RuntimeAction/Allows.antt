-- ===== src/Workflow/RuntimeAction/Allows.antt =====
-- When a runtime action is let through.
use team_flow.Prelude.{
  ◌≡◌, ◌↔◌, ◌⊎◌, refl, ap, arith, String, Bool, true, false, not, ◌&&◌, some, List, [], ◌∷◌, Memᴰ,
  elem, any, Dict, lookup, Option-cases, Bool-cases, inl, inr, ◌==◌, eq_iff, any-mem, none_pass,
  empty_of_none_pass,
}
use team_flow.Workflow.Value.{Value, null, text, list, object, get, value_in, value_is, blank}
use team_flow.Workflow.Definition.{RuntimeAction, Definition, Assignment, Task}
use team_flow.Workflow.Contract.{
  action_to_tool, in_scope, actor_matches, actors_allowed, runtime_action_actor_allowed,
}
use team_flow.Workflow.RuntimeAction.{
  refuse, allowed, missing_inputs, missing_task_fields, check_fields, check_action,
  prepare_runtime_action,
}

value_is-text : (v : Value) (s : String) → value_is v s ≡ true → v ≡ text s
value_is-text null s h = cc
value_is-text (text t) s h = ap (λ x. text x) ((eq_iff t s).0 h)
value_is-text (list xs) s h = cc
value_is-text (object o) s h = cc

value_is-same : (v : Value) (s : String) → v ≡ text s → value_is v s ≡ true
value_is-same v s h = rw h ((eq_iff s s).1 refl)

value_in-text :
    (v : Value) (xs : List String)
    → value_in v xs ≡ true
    → (s : String) × (v ≡ text s) × (elem s xs ≡ true)
value_in-text null xs h = cc
value_in-text (text t) xs h = (t, refl, h)
value_in-text (list ys) xs h = cc
value_in-text (object o) xs h = cc

value_in-same :
    (v : Value) (xs : List String)
    → (s : String) × (v ≡ text s) × (elem s xs ≡ true)
    → value_in v xs ≡ true
value_in-same v xs (s, e, m) = rw e m

mem-any :
    (p : String → Bool) (xs : List String)
    → any p xs ≡ true
    → (x : String) × Memᴰ x xs × (p x ≡ true)
mem-any p [] h = cc
mem-any p (y ∷ ys) h = elim (Bool-cases (p y)) [
  | inl e ↦ (y, Memᴰ.head refl, e)
  | inr e ↦ let (x, m, g) = mem-any p ys (ground arith) in (x, Memᴰ.tail m, g)
]

module _ (a : Assignment) (d : Definition) (task : Task) where
  -- The agent is the actor of that name, for this card.
  abbrev pub Acts : String → Type 0
  Acts actor =
      ((actor ≡ "coordinator") × (a.role_key ≡ d.coordinator_role))
      ⊎ (((actor ≡ "task_role") × (get task "role" ≡ text a.role_key))
          ⊎ ((actor ≡ "assigned_agent") × (get task "agent_id" ≡ text a.agent_id)))

  -- It is one of the actors, and in the scope of the roles, if there are any.
  abbrev pub MayAct : RuntimeAction → Type 0
  MayAct action =
      ((action.roles ≡ []) ⊎ (elem a.role_key action.roles ≡ true))
      × ((actor : String) × Memᴰ actor action.actors × Acts actor)

  actor_matches-iff_Acts :
      (actor : String) → actor_matches a d (some task) actor ≡ true ↔ Acts actor
  unfolding actor_matches
  actor_matches-iff_Acts actor = (
    λ h. elim (Bool-cases (actor == "coordinator" && a.role_key == d.coordinator_role)) [
      | inl e ↦ inl (
        (eq_iff actor "coordinator").0 (ground arith),
        (eq_iff a.role_key d.coordinator_role).0 (ground arith),
      )
      | inr e ↦ elim (Bool-cases (actor == "task_role" && value_is (get task "role") a.role_key)) [
        | inl f ↦ inr (
            inl (
              (eq_iff actor "task_role").0 (ground arith),
              value_is-text (get task "role") a.role_key (ground arith),
            ))
        | inr f ↦ inr (
            inr (
              (eq_iff actor "assigned_agent").0 (ground arith),
              value_is-text (get task "agent_id") a.agent_id (ground arith),
            ))
      ]
    ],
    λ h. elim h [
      | inl (e, f) ↦
          ground
            (arith, (eq_iff actor "coordinator").1 e, (eq_iff a.role_key d.coordinator_role).1 f)
      | inr (inl (e, f)) ↦
          ground
            (arith, (eq_iff actor "task_role").1 e, value_is-same (get task "role") a.role_key f)
      | inr (inr (e, f)) ↦ ground (
        arith,
        (eq_iff actor "assigned_agent").1 e,
        value_is-same (get task "agent_id") a.agent_id f,
      )
    ],
  )

  in_scope_iff :
      (roles : List String)
      → in_scope a roles ≡ true ↔ (roles ≡ []) ⊎ (elem a.role_key roles ≡ true)
  unfolding in_scope
  in_scope_iff [] = (λ h. inl refl, λ h. refl)
  in_scope_iff (r ∷ roles) = (λ h. inr h, λ h. elim h [ inl e ↦ absurd (ground arith) | inr e ↦ e ])

  actor_allowed-iff_MayAct :
      (action : RuntimeAction) → runtime_action_actor_allowed a d action task ≡ true ↔ MayAct action
  unfolding runtime_action_actor_allowed actors_allowed
  actor_allowed-iff_MayAct action = (
    λ h.
        let (actor, m, e) = mem-any (actor_matches a d (some task)) action.actors (ground arith) in
        (
          (in_scope_iff action.roles).0 (ground arith),
          (actor, m, (actor_matches-iff_Acts actor).0 e),
        ),
    λ (scope, (actor, m, acts)).
        let s : in_scope a action.roles ≡ true = (in_scope_iff action.roles).1 scope in
        let e : any (actor_matches a d (some task)) action.actors ≡ true =
          any-mem (actor_matches a d (some task)) action.actors m
            ((actor_matches-iff_Acts actor).1 acts) in
        ground arith,
  )

module _ (a : Assignment) (d : Definition) (action_key : String) (task : Task)
    (payload : Dict Value) (confirmed : Bool) where
  -- The definition has the action, it is confirmed where that is required, the card is in one of its
  -- states, the agent may use it, and nothing that it needs is missing.
  pub record Allows (facts : List String) : Type 0 where
    pub action : RuntimeAction
    pub installed : lookup d.runtime_actions action_key ≡ some action
    pub confirmation : action.confirmation_required ≡ true → confirmed ≡ true
    pub state :
        (status : String) × (get task "status" ≡ text status) × (elem status action.states ≡ true)
    pub actor : MayAct a d task action
    pub inputs :
        (field : String)
        → elem field action.required_inputs ≡ true
        → blank (get payload field) ≡ false
    pub fields :
        (field : String)
        → elem field action.required_task_fields ≡ true
        → blank (get task field) ≡ false
    pub produces : facts ≡ action.produces

  -- A runtime action is let through, with the facts that it produces, exactly when the definition has
  -- it, it is confirmed where that is required, the card is in one of its states, the agent is in
  -- the scope of its roles and is one of its actors, and no input and no field of the card that it
  -- needs is blank.
  pub prepare_runtime_action-iff_Allows :
      (facts : List String)
      → prepare_runtime_action a d action_key task payload confirmed
          ≡ allowed (lookup action_to_tool action_key) facts
        ↔ Allows facts
  unfolding prepare_runtime_action check_action check_fields refuse missing_inputs
      missing_task_fields
  prepare_runtime_action-iff_Allows facts = (
    λ e. elim (Option-cases (lookup d.runtime_actions action_key)) [
      | inl f ↦ absurd (ground arith)
      | inr (action, f) ↦ record {
        action = action;
        installed = f;
        confirmation = λ c. ground arith;
        state = value_in-text (get task "status") action.states (ground arith);
        actor = (actor_allowed-iff_MayAct a d task action).0 (ground arith);
        inputs = λ field m.
            none_pass (λ f. blank (get payload f)) action.required_inputs field (ground arith) m;
        fields = λ field m.
            none_pass (λ f. blank (get task f)) action.required_task_fields field (ground arith) m;
        produces = ground arith;
      }
    ],
    λ h.
        let state = value_in-same (get task "status") h.action.states h.state in
        let actor = (actor_allowed-iff_MayAct a d task h.action).1 h.actor in
        let inputs =
          empty_of_none_pass (λ f. blank (get payload f)) h.action.required_inputs h.inputs in
        let fields =
          empty_of_none_pass (λ f. blank (get task f)) h.action.required_task_fields h.fields in
        let agreed : (h.action.confirmation_required && not confirmed) ≡ false =
          unasked h.action.confirmation_required h.confirmation in
        rw (h.installed, prepare_runtime_action)
          (rw (agreed, check_action)
            (rw state (rw actor (rw (inputs, check_fields) (rw fields (rw h.produces refl)))))),
  )
    where
      unasked : (b : Bool) → (b ≡ true → confirmed ≡ true) → (b && not confirmed) ≡ false
      unasked true c = rw (c refl) refl
      unasked false c = refl
