-- ===== src/Delivery/Apply/Stages.antt =====
-- The steps of `_apply_delivery` that has succeeded.
use team_flow.Prelude.{
  String, ◌≡◌, Bool, true, false, refl, ◌&&◌, ◌⊎◌, Option, some, [], ◌==◌, arith, Bool-cases, inl,
  inr, if◌then◌else◌, Dict, lookup, put, update, lookup-put,
}
use team_flow.Workflow.Value.{Value, text}
use team_flow.Workflow.Definition.{Definition, Task, Rule}
use team_flow.Delivery.Git.{Git, known, branch_sha}
use team_flow.Delivery.Mode.{chosen, resolve_transition_mode}
use team_flow.Delivery.Resources.{Json}
use team_flow.Delivery.Gate.{Files, agent_sha_fields}
use team_flow.Delivery.Input.{Delivery}
use team_flow.Delivery.Apply.{
  applied, reject_repository_only_input, verify_supplied_shas, claim_baseline, record_shas,
  put_mode, record_resources, mode_or_current, settled, apply_delivery,
}
use team_flow.Delivery.Apply.Fields.{settled-applied, pinned, is_unpinned, claim_baseline_cases}
use team_flow.Delivery.Apply.Commits.{bind-applied}

module _ (git : Git) (files : Files) (json : Json) (enabled : Bool) (workspace : String)
    (d : Definition) (rule : Rule) (patch : Dict Value) (action_key : String) (task : Task)
    (delivery : Delivery) where
  abbrev pub repo : String
  repo = files.resolve (files.expanduser workspace)

  pub record Stages (result : Dict Value) : Type 0 where
    pub mode : Option String
    pub moded :
        resolve_transition_mode enabled d task
          (lookup delivery.fields "delivery_mode")
          rule.to
          action_key
        ≡ chosen mode
    pub admitted : reject_repository_only_input (mode_or_current task mode) delivery ≡ applied tt
    pub verified : verify_supplied_shas git repo delivery ≡ applied tt
    pub declared : Dict Value
    pub declaring :
        record_resources json task
          (record_shas (put_mode patch mode) delivery.fields agent_sha_fields)
          delivery.resources
        ≡ applied declared
    pub baseline : Dict Value
    pub pinning :
        (if action_key == "claim"
          then claim_baseline git workspace (update task declared)
          else applied [])
        ≡ applied baseline
    pub made : result ≡ update declared baseline

  pub apply_delivery-Stages :
      {result : Dict Value}
      → apply_delivery git files json enabled workspace d rule patch action_key task delivery
        ≡ applied result
      → Stages result
  unfolding apply_delivery
  apply_delivery-Stages h =
      let (mode, e₁, h₁) =
        bind-applied
          (settled (
            resolve_transition_mode enabled d task (lookup delivery.fields "delivery_mode") rule.to
              action_key))
          _ h in
      let (u, e₂, h₂) =
        bind-applied (reject_repository_only_input (mode_or_current task mode) delivery) _ h₁ in
      let (v, e₃, h₃) = bind-applied (verify_supplied_shas git repo delivery) _ h₂ in
      let (declared, e₄, h₄) =
        bind-applied
          (record_resources json task
            (record_shas (put_mode patch mode) delivery.fields agent_sha_fields) delivery.resources)
          _ h₃ in
      let (baseline, e₅, h₅) =
        bind-applied
          (if action_key == "claim"
            then claim_baseline git workspace (update task declared)
            else applied [])
          _ h₄ in
      record {
        mode = mode;
        moded = settled-applied _ e₁;
        admitted = e₂;
        verified = e₃;
        declared = declared;
        declaring = e₄;
        baseline = baseline;
        pinning = e₅;
        made = ground arith;
      }

  pub lookup-pinned :
      (declared : Dict Value) (sha field : String)
      → lookup (update declared (pinned sha)) field ≡ (
          if "base_sha" == field
          then some (text sha)
          else if "target_branch" == field
          then some (text "main")
          else lookup declared field)
  lookup-pinned declared sha field = ground (
    arith,
    lookup-put (put declared "target_branch" (text "main")) "base_sha" field (text sha),
    lookup-put declared "target_branch" field (text "main"),
  )

  -- What the claim of a card pins, or that nothing is pinned.
  pub pinning_cases :
      (declared : Dict Value) {baseline : Dict Value}
      → (if action_key == "claim"
          then claim_baseline git workspace (update task declared)
          else applied [])
        ≡ applied baseline
      → (((action_key == "claim" && is_unpinned (update task declared) (update task declared))
            ≡ false)
          × (baseline ≡ []))
        ⊎ ((sha : String) × ((action_key == "claim"
                && is_unpinned (update task declared) (update task declared))
              ≡ true)
            × (branch_sha git workspace "main" ≡ known (some sha))
            × (baseline ≡ pinned sha))
  pinning_cases declared h = elim (Bool-cases (action_key == "claim")) [
    | inr e ↦ inl (rw e refl, ground arith)
    | inl e ↦ elim (claim_baseline_cases git workspace (update task declared) (rw e at h)) [
      | inl (f, made) ↦ inl (ground arith, made)
      | inr (sha, unpinned, found, made) ↦ inr (sha, ground arith, found, made)
    ]
  ]
