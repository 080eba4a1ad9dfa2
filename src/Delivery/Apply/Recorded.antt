-- ===== src/Delivery/Apply/Recorded.antt =====
-- What an action records of a delivery.
use team_flow.Prelude.{
  ◌⊎◌, keys, Distinct, String, ◌≡◌, refl, ◌∙◌, ap, Bool, true, false, Option, none, some, subst,
  ◌==◌, elem, arith, inl, inr, Dict, lookup, lookup-put_self,
}
use team_flow.Workflow.Value.{Value, text}
use team_flow.Workflow.Definition.{Definition, Task, Rule}
use team_flow.Workflow.Rules.{delivery_managed_fields}
use team_flow.Delivery.Git.{Git, known, commit_exists, branch_sha}
use team_flow.Delivery.Mode.{chosen, mode_of, resolve_transition_mode}
use team_flow.Delivery.Resources.{Json}
use team_flow.Delivery.Gate.{Files, agent_sha_fields}
use team_flow.Delivery.Input.{Delivery}
use team_flow.Delivery.Apply.{
  applied, reject_repository_only_input, put_mode, mode_or_current, apply_delivery,
}
use team_flow.Delivery.Apply.Fields.{differs, differs_managed}
use team_flow.Delivery.Apply.Commits.{
  verify_supplied_shas-commits, reject_repository_only_input-none,
}
use team_flow.Delivery.Apply.Stages.{Stages, apply_delivery-Stages}
use team_flow.Delivery.Apply.Pinning.{
  must_pin, lookup-result, lookup-unsent, lookup-declared, Stages-unpinned, Stages-pinning,
}

-- What an action's patch says once a delivery has been recorded; `mode` is the mode that is written.
pub record Recorded (git : Git) (repo workspace : String) (patch : Dict Value) (action_key : String)
    (task : Task) (delivery : Delivery) (mode : Option String) (result : Dict Value) : Type 0 where
  pub repository_only :
      (current : String)
      → (mode ≡ some current) ⊎ ((mode ≡ none) × (mode_of task ≡ current))
      → (current == "repository") ≡ false
      → ((field : String)
          → elem field agent_sha_fields ≡ true
          → lookup delivery.fields field ≡ none)
        × (delivery.resources ≡ none)
  pub commits :
      (field sha : String)
      → elem field agent_sha_fields ≡ true
      → lookup delivery.fields field ≡ some sha
      → (commit_exists git repo sha ≡ known true) × (lookup result field ≡ some (text sha))
  pub others :
      (field : String)
      → elem field delivery_managed_fields ≡ false
      → lookup result field ≡ lookup patch field
  pub moded : (m : String) → mode ≡ some m → lookup result "delivery_mode" ≡ some (text m)
  pub unmoded : mode ≡ none → lookup result "delivery_mode" ≡ lookup patch "delivery_mode"
  pub unpinned :
      must_pin action_key task patch mode ≡ false
      → (lookup result "target_branch" ≡ lookup patch "target_branch")
        × (lookup result "base_sha" ≡ lookup patch "base_sha")
  pub pinning :
      must_pin action_key task patch mode ≡ true
      → (sha : String) × (branch_sha git workspace "main" ≡ known (some sha))
        × (lookup result "target_branch" ≡ some (text "main"))
        × (lookup result "base_sha" ≡ some (text sha))

settled_mode :
    (task : Task) (mode : Option String) (current : String)
    → (mode ≡ some current) ⊎ ((mode ≡ none) × (mode_of task ≡ current))
    → mode_or_current task mode ≡ current
settled_mode task mode current (inl e) = ap (λ m. mode_or_current task m) e
settled_mode task mode current (inr (e, f)) = ap (λ m. mode_or_current task m) e ∙ f

module _ (git : Git) (files : Files) (json : Json) (enabled : Bool) (workspace : String)
    (d : Definition) (rule : Rule) (patch : Dict Value) (action_key : String) (task : Task)
    (delivery : Delivery) where
  abbrev repo : String
  repo = files.resolve (files.expanduser workspace)

  module _ {result : Dict Value}
      (s : Stages git files json enabled workspace d rule patch action_key task delivery
        result) where
    Stages-Recorded :
        Distinct (keys patch)
        → Recorded git repo workspace patch action_key task delivery s.mode result
    Stages-Recorded u = record {
      repository_only = λ current is m.
          reject_repository_only_input-none current delivery
            (subst (λ x. reject_repository_only_input x delivery ≡ applied tt)
              (settled_mode task s.mode current is) s.admitted)
            m;
      commits = λ field sha m l. (
        verify_supplied_shas-commits git repo delivery field sha s.verified m l,
        lookup-result git files json enabled workspace d rule patch action_key task delivery s field
              (differs agent_sha_fields "target_branch" field m refl)
              (differs agent_sha_fields "base_sha" field m refl)
            ∙ lookup-declared git files json enabled workspace d rule patch action_key task delivery
                s field (differs agent_sha_fields "delivery_mode" field m refl)
                (differs agent_sha_fields "delivery_resources" field m refl)
            ∙ rw m (rw l refl),
      );
      others = λ field n.
          lookup-result git files json enabled workspace d rule patch action_key task delivery s
            field (differs_managed "target_branch" field refl n)
            (differs_managed "base_sha" field refl n)
          ∙ lookup-declared git files json enabled workspace d rule patch action_key task delivery s
              field (differs_managed "delivery_mode" field refl n)
              (differs_managed "delivery_resources" field refl n)
          ∙ rw (unsent field n) refl;
      moded = λ m h.
          put_moded
          ∙ ap (λ x. lookup (put_mode patch x) "delivery_mode") h
          ∙ lookup-put_self patch "delivery_mode" (text m);
      unmoded = λ h. put_moded ∙ ap (λ x. lookup (put_mode patch x) "delivery_mode") h;
      unpinned =
          Stages-unpinned git files json enabled workspace d rule patch action_key task delivery s
            u;
      pinning =
          Stages-pinning git files json enabled workspace d rule patch action_key task delivery s u;
    }
      where
        unsent :
            (field : String)
            → elem field delivery_managed_fields ≡ false
            → elem field agent_sha_fields ≡ false
        unsent field n = ground arith

        put_moded : lookup result "delivery_mode" ≡ lookup (put_mode patch s.mode) "delivery_mode"
        put_moded =
            lookup-result git files json enabled workspace d rule patch action_key task delivery s
              "delivery_mode" refl refl
            ∙ lookup-unsent git files json enabled workspace d rule patch action_key task delivery s
                "delivery_mode" refl refl

  -- An action that records a delivery has settled the mode, which it writes if it
  -- is to change. A card that is not delivered through the
  -- repository gets neither commits nor resources. Each commit that is recorded is one of the
  -- repository. Fields that are not about the delivery are left as the rule's patch has them. A claim
  -- of a card that the patch leaves in repository mode, but without target branch or baseline, pins
  -- both: the branch is main and the baseline its commit at that moment. In every other case both
  -- are as in the rule's patch. No key of that patch is repeated, as in every dict.
  pub apply_delivery-Recorded :
      {result : Dict Value}
      → Distinct (keys patch)
      → apply_delivery git files json enabled workspace d rule patch action_key task delivery
        ≡ applied result
      → (mode : Option String) × (resolve_transition_mode enabled d task
            (lookup delivery.fields "delivery_mode")
            rule.to
            action_key
          ≡ chosen mode)
        × Recorded git repo workspace patch action_key task delivery mode result
  apply_delivery-Recorded u h =
      let s =
        apply_delivery-Stages git files json enabled workspace d rule patch action_key task delivery
          h in
      (s.mode, s.moded, Stages-Recorded s u)
