-- ===== src/Workflow/Rules/Accepts.antt =====
-- What `validate_rule` guarantees when it raises no objection.
use team_flow.Prelude.{
  String, ◌≡◌, refl, true, false, not, ◌||◌, Option, some, List, [], ◌∷◌, elem, is_empty, filter,
  arith, Option-cases, inl, inr, Dict, update, keys, none_pass, empty_of_none_pass,
}
use team_flow.Workflow.Value.{Value, get, blank}
use team_flow.Workflow.Definition.{Rule, Definition, Assignment, Task}
use team_flow.Workflow.Contract.{rule_actor_allowed, required_task_fields}
use team_flow.Workflow.Rules.{
  accepted, delivery_managed_fields, rule_values_allowed, action_patch, invalid_option_values,
  task_or_empty, blank_fields, invalid_payload, validate_patch, validate_rule,
}

-- Each field of `fields` is filled in.
abbrev pub Filled : Dict Value → List String → Type 0
Filled d fields = (f : String) → elem f fields ≡ true → blank (get d f) ≡ false

-- What holds of a payload, the patch that the rule makes of it, and the card.
pub record Accepts (a : Assignment) (d : Definition) (rule : Rule) (task : Option Task)
    (payload : Dict Value) (runtime_facts : List String) (patch : Dict Value) : Type 0 where
  pub actor : rule_actor_allowed a d rule task ≡ true
  pub writable :
      (f : String)
      → elem f (keys payload) ≡ true
      → (elem f rule.writable_fields ≡ true) × (elem f delivery_managed_fields ≡ false)
  pub inputs : Filled payload rule.required_inputs
  pub values : rule_values_allowed rule payload ≡ true
  pub options : invalid_option_values d patch ≡ []
  pub ready :
      let merged = update (task_or_empty task) patch in
      Filled merged (required_task_fields d rule (some merged))
  pub guards : (g : String) → elem g rule.guards ≡ true → elem g runtime_facts ≡ true

is_empty-nil {ℓ} : {A : Type ℓ} (xs : List A) → is_empty xs ≡ true → xs ≡ []
is_empty-nil [] h = refl
is_empty-nil (x ∷ xs) h = cc

module _ (a : Assignment) (d : Definition) (action_key : String) (rule : Rule) (task : Option Task)
    (payload : Dict Value) (runtime_facts : List String) where
  patch_checks :
      (patch : Dict Value)
      → validate_patch a d action_key rule task patch runtime_facts ≡ accepted
      → let merged = update (task_or_empty task) patch in
        (is_empty (invalid_option_values d patch) ≡ true)
        × (is_empty (blank_fields merged (required_task_fields d rule (some merged))) ≡ true)
        × (is_empty (filter (λ g. not (elem g runtime_facts)) rule.guards) ≡ true)
  unfolding validate_patch
  patch_checks patch h = ground arith

  rule_checks :
      validate_rule a d action_key rule task payload runtime_facts ≡ accepted
      → (patch : Dict Value) × (action_patch a rule payload ≡ some patch)
        × (validate_patch a d action_key rule task patch runtime_facts ≡ accepted)
        × (rule_actor_allowed a d rule task ≡ true)
        × (is_empty (invalid_payload rule payload) ≡ true)
        × (is_empty (blank_fields payload rule.required_inputs) ≡ true)
        × (rule_values_allowed rule payload ≡ true)
  unfolding validate_rule
  rule_checks h = elim (Option-cases (action_patch a rule payload)) [
    | inl e ↦ absurd (ground arith)
    | inr (patch, e) ↦
        (patch, e, ground arith, ground arith, ground arith, ground arith, ground arith)
  ]

  -- No objection means that every check holds, of the very patch that is then written.
  pub validate_rule-Accepts :
      validate_rule a d action_key rule task payload runtime_facts ≡ accepted
      → (patch : Dict Value) × (action_patch a rule payload ≡ some patch)
        × Accepts a d rule task payload runtime_facts patch
  validate_rule-Accepts h =
      let (patch, made, checked, actor, fields, inputs, values) = rule_checks h in
      let (options, ready, guards) = patch_checks patch checked in
      let merged : Dict Value = update (task_or_empty task) patch in
      (
        patch,
        made,
        record {
          actor = actor;
          writable = λ f m.
              let e =
                none_pass (λ g. not (elem g rule.writable_fields) || elem g delivery_managed_fields)
                  (keys payload) f (unfold invalid_payload in fields) m in
              (ground arith, ground arith);
          inputs = λ f m. none_pass (λ g. blank (get payload g)) rule.required_inputs f inputs m;
          values = values;
          options = is_empty-nil _ options;
          ready = λ f m. none_pass (λ g. blank (get merged g)) _ f ready m;
          guards = λ g m.
              let e = none_pass (λ x. not (elem x runtime_facts)) rule.guards g guards m in
              ground arith;
        },
      )

  -- Conversely, where every check holds there is no objection.
  pub Accepts-validate_rule :
      (patch : Dict Value)
      → action_patch a rule payload ≡ some patch
      → Accepts a d rule task payload runtime_facts patch
      → validate_rule a d action_key rule task payload runtime_facts ≡ accepted
  unfolding validate_rule validate_patch
  Accepts-validate_rule patch made h =
      let merged : Dict Value = update (task_or_empty task) patch in
      let fields : is_empty (invalid_payload rule payload) ≡ true =
        unfold invalid_payload in
        empty_of_none_pass _ (keys payload) (λ f m. let e = h.writable f m in ground arith) in
      let inputs : is_empty (blank_fields payload rule.required_inputs) ≡ true =
        empty_of_none_pass _ rule.required_inputs h.inputs in
      let ready : is_empty (blank_fields merged (required_task_fields d rule (some merged)))
          ≡ true =
        empty_of_none_pass _ (required_task_fields d rule (some merged)) h.ready in
      let guards : is_empty (filter (λ g. not (elem g runtime_facts)) rule.guards) ≡ true =
        empty_of_none_pass _ rule.guards (λ g m. let e = h.guards g m in ground arith) in
      rw (made, h.actor, fields, inputs, h.values, h.options, ready, guards) refl
