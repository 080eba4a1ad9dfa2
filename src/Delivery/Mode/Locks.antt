-- ===== src/Delivery/Mode/Locks.antt =====
-- What holds of the delivery mode that `resolve_transition_mode` settles on.
use team_flow.Prelude.{
  String, ◌≡◌, ◌≢◌, ◌⊎◌, sym, ◌∙◌, refl, Bool, true, false, not, ◌&&◌, Option, none, some, ◌==◌,
  elem, eq_iff, arith, Bool-cases, inl, inr,
}
use team_flow.Workflow.Definition.{Definition, Task, delivery_modes}
use team_flow.Delivery.Mode.{
  chosen, mode_of, requested_mode, in_initial, carries_forward, resolve_transition_mode,
}

-- The mode that a card has afterwards.
abbrev pub mode_after : Task → Option String → String
mode_after task none = mode_of task
mode_after task (some mode) = mode

module _ (enabled : Bool) (d : Definition) (task : Task) (request target_state : Option String)
    (action_key : String) {written : Option String} where
  -- A mode that is set stays as it is once the card has left the initial state.
  pub resolve_transition_mode-locked :
      resolve_transition_mode enabled d task request target_state action_key ≡ chosen written
      → (mode_of task == "") ≡ false
      → in_initial d task ≡ false
      → written ≡ none
  unfolding resolve_transition_mode
  resolve_transition_mode-locked h s i = ground (
    arith,
    eq_iff (requested_mode request) (mode_of task),
    eq_iff (mode_of task) (requested_mode request),
  )

standard_ne : ◌≢◌ {A = String} "standard" "repository"
standard_ne e = ground (arith, eq_iff "standard" "repository")

repository_kept :
    (requested current : String)
    → requested ≡ "repository"
    → (requested == "repository" && not (current == "repository")) ≡ false
    → current ≡ "repository"
repository_kept requested current e h =
    ground (arith, eq_iff requested "repository", eq_iff current "repository")

module _ (d : Definition) (task : Task) (request target_state : Option String)
    (action_key : String) where
  carried_mode :
      (enabled : Bool) (written : Option String)
      → resolve_transition_mode enabled d task request target_state action_key ≡ chosen written
      → carries_forward action_key target_state ≡ true
      → elem (mode_after task written) delivery_modes ≡ true
  unfolding resolve_transition_mode
  carried_mode enabled none h s = ground (arith, eq_iff (requested_mode request) (mode_of task))
  carried_mode enabled (some mode) h s = elim (Bool-cases (requested_mode request == "")) [
    | inl e ↦ let q : mode ≡ "standard" = ground arith in rw q refl
    | inr e ↦ let q : mode ≡ requested_mode request = ground arith in rw q (ground arith)
  ]

  -- A card that is carried forward, by any action but cancel, has one of the two modes.
  pub resolve_transition_mode-known :
      (enabled : Bool) {written : Option String}
      → resolve_transition_mode enabled d task request target_state action_key ≡ chosen written
      → carries_forward action_key target_state ≡ true
      → elem (mode_after task written) delivery_modes ≡ true
  resolve_transition_mode-known enabled {written} h s = carried_mode enabled written h s

  unset_disabled :
      {written : Option String}
      → resolve_transition_mode false d task request target_state action_key ≡ chosen written
      → (requested_mode request == "") ≡ true
      → (written ≡ none) ⊎ (written ≡ some "standard")
  unfolding resolve_transition_mode
  unset_disabled h e = ground arith

  requested_disabled :
      {written : Option String}
      → resolve_transition_mode false d task request target_state action_key ≡ chosen written
      → (requested_mode request == "") ≡ false
      → (written ≡ none)
        ⊎ ((written ≡ some (requested_mode request))
            × ((requested_mode request == "repository" && not (mode_of task == "repository"))
                ≡ false))
  unfolding resolve_transition_mode
  requested_disabled h e = ground arith

  disabled_mode :
      (written : Option String)
      → resolve_transition_mode false d task request target_state action_key ≡ chosen written
      → mode_after task written ≡ "repository"
      → mode_of task ≡ "repository"
  disabled_mode none h s = s
  disabled_mode (some mode) h s = elim (Bool-cases (requested_mode request == "")) [
    | inl e ↦ elim (unset_disabled h e) [
      | inl q ↦ absurd (ground arith)
      | inr q ↦ let named : mode ≡ "standard" = ground arith in absurd (standard_ne (sym named ∙ s))
    ]
    | inr e ↦ elim (requested_disabled h e) [
      | inl q ↦ absurd (ground arith)
      | inr (q, r) ↦
          let named : mode ≡ requested_mode request = ground arith in
          repository_kept (requested_mode request) (mode_of task) (sym named ∙ s) r
    ]
  ]

  -- Where version control is switched off, no card is moved to repository delivery.
  pub resolve_transition_mode-disabled :
      {written : Option String}
      → resolve_transition_mode false d task request target_state action_key ≡ chosen written
      → mode_after task written ≡ "repository"
      → mode_of task ≡ "repository"
  resolve_transition_mode-disabled {written} h s = disabled_mode written h s
