-- ===== src/Delivery/Apply/Pinning.antt =====
-- What an action leaves at the fields of the patch, and what a claim pins.
use mathlib.Core.Bool.{false≢true}
use team_flow.Prelude.{
  sym, ◌&&◌, keys, Distinct, String, ◌≡◌, refl, ◌∙◌, ap, Bool, true, false, Option, some, ◌==◌,
  elem, inl, inr, if◌then◌else◌, Dict, lookup, update,
}
use team_flow.Workflow.Value.{Value, text, get}
use team_flow.Workflow.Definition.{Definition, Task, Rule}
use team_flow.Delivery.Git.{Git, known, branch_sha}
use team_flow.Delivery.Mode.{mode_of}
use team_flow.Delivery.Resources.{Json}
use team_flow.Delivery.Gate.{Files, agent_sha_fields}
use team_flow.Delivery.Input.{Delivery}
use team_flow.Delivery.Apply.{record_shas, put_mode}
use team_flow.Delivery.Apply.Fields.{
  is_unpinned, put_mode-Distinct, declared-Distinct, get-update, lookup-record_resources,
  lookup-put_mode,
}
use team_flow.Delivery.Apply.Commits.{lookup-record_shas, sha_or}
use team_flow.Delivery.Apply.Stages.{Stages, lookup-pinned, pinning_cases}

-- A claim pins where the card, as the patch leaves it, is in repository mode and lacks the target
-- branch or the baseline.
abbrev pub must_pin : String → Task → Dict Value → Option String → Bool
must_pin action_key task patch mode =
    action_key == "claim" && is_unpinned (update task (put_mode patch mode)) (update task patch)

module _ (git : Git) (files : Files) (json : Json) (enabled : Bool) (workspace : String)
    (d : Definition) (rule : Rule) (patch : Dict Value) (action_key : String) (task : Task)
    (delivery : Delivery) where
  abbrev repo : String
  repo = files.resolve (files.expanduser workspace)

  module _ {result : Dict Value}
      (s : Stages git files json enabled workspace d rule patch action_key task delivery
        result) where
    pub lookup-result :
        (field : String)
        → ("target_branch" == field) ≡ false
        → ("base_sha" == field) ≡ false
        → lookup result field ≡ lookup s.declared field
    lookup-result field t b =
        ap (λ (x : Dict Value). lookup x field) s.made
        ∙ elim (pinning_cases git files json enabled workspace d rule patch action_key task delivery
            s.declared s.pinning) [
              | inl (kept, e) ↦ ap (λ (x : Dict Value). lookup (update s.declared x) field) e
              | inr (sha, must, found, e) ↦
                  ap (λ (x : Dict Value). lookup (update s.declared x) field) e
                  ∙ lookup-pinned git files json enabled workspace d rule patch action_key task
                      delivery s.declared sha field
                  ∙ rw b (rw t refl)
            ]

    pub lookup-unsent :
        (field : String)
        → ("delivery_resources" == field) ≡ false
        → elem field agent_sha_fields ≡ false
        → lookup s.declared field ≡ lookup (put_mode patch s.mode) field
    lookup-unsent field r n =
        lookup-record_resources json task
          (record_shas (put_mode patch s.mode) delivery.fields agent_sha_fields) delivery.resources
          field s.declaring r
        ∙ lookup-record_shas (put_mode patch s.mode) delivery.fields agent_sha_fields field
        ∙ rw n refl

    pub lookup-declared :
        (field : String)
        → ("delivery_mode" == field) ≡ false
        → ("delivery_resources" == field) ≡ false
        → lookup s.declared field ≡ (
            if elem field agent_sha_fields
            then sha_or (lookup delivery.fields field) (lookup patch field)
            else lookup patch field)
    lookup-declared field m r =
        lookup-record_resources json task
          (record_shas (put_mode patch s.mode) delivery.fields agent_sha_fields) delivery.resources
          field s.declaring r
        ∙ lookup-record_shas (put_mode patch s.mode) delivery.fields agent_sha_fields field
        ∙ ap
            (λ (x : Option Value).
              if elem field agent_sha_fields then sha_or (lookup delivery.fields field) x else x)
            (lookup-put_mode patch s.mode field m)

    -- The declared patch has the same to pin as the rule's patch with the mode.
    must_pin_declared :
        Distinct (keys patch)
        → must_pin action_key task patch s.mode
          ≡ (action_key == "claim" && is_unpinned (update task s.declared) (update task s.declared))
    unfolding mode_of
    must_pin_declared u =
        let v =
          declared-Distinct json task patch s.mode delivery.fields agent_sha_fields
            delivery.resources s.declaring u in
        let w = put_mode-Distinct patch s.mode u in
        let mode : get (update task (put_mode patch s.mode)) "delivery_mode"
            ≡ get (update task s.declared) "delivery_mode" =
          get-update task (put_mode patch s.mode) s.declared "delivery_mode" w v
            (sym (lookup-unsent "delivery_mode" refl refl)) in
        let same : (field : String)
            → ("delivery_mode" == field) ≡ false
            → ("delivery_resources" == field) ≡ false
            → elem field agent_sha_fields ≡ false
            → get (update task patch) field ≡ get (update task s.declared) field =
          λ field m r n.
            get-update task patch s.declared field u v
              (sym (lookup-unsent field r n ∙ lookup-put_mode patch s.mode field m)) in
        rw mode
          (rw (same "target_branch" refl refl refl) (rw (same "base_sha" refl refl refl) refl))

    pub Stages-unpinned :
        Distinct (keys patch)
        → must_pin action_key task patch s.mode ≡ false
        → (lookup result "target_branch" ≡ lookup patch "target_branch")
          × (lookup result "base_sha" ≡ lookup patch "base_sha")
    Stages-unpinned u h =
        elim (pinning_cases git files json enabled workspace d rule patch action_key task delivery
          s.declared s.pinning) [
            | inl (none_must, e) ↦
                let kept = s.made ∙ ap (λ (x : Dict Value). update s.declared x) e in
                (
                  ap (λ (x : Dict Value). lookup x "target_branch") kept
                      ∙ lookup-declared "target_branch" refl refl,
                  ap (λ (x : Dict Value). lookup x "base_sha") kept
                      ∙ lookup-declared "base_sha" refl refl,
                )
            | inr (sha, must, found, e) ↦ absurd (false≢true (sym h ∙ must_pin_declared u ∙ must))
          ]

    pub Stages-pinning :
        Distinct (keys patch)
        → must_pin action_key task patch s.mode ≡ true
        → (sha : String) × (branch_sha git workspace "main" ≡ known (some sha))
          × (lookup result "target_branch" ≡ some (text "main"))
          × (lookup result "base_sha" ≡ some (text sha))
    Stages-pinning u h =
        elim (pinning_cases git files json enabled workspace d rule patch action_key task delivery
          s.declared s.pinning) [
            | inl (none_must, e) ↦
                absurd (false≢true (sym none_must ∙ sym (must_pin_declared u) ∙ h))
            | inr (sha, must, found, e) ↦
                let made = s.made ∙ ap (λ (x : Dict Value). update s.declared x) e in
                (
                  sha,
                  found,
                  ap (λ (x : Dict Value). lookup x "target_branch") made
                      ∙ lookup-pinned git files json enabled workspace d rule patch action_key task
                          delivery s.declared sha "target_branch",
                  ap (λ (x : Dict Value). lookup x "base_sha") made
                      ∙ lookup-pinned git files json enabled workspace d rule patch action_key task
                          delivery s.declared sha "base_sha",
                )
          ]
