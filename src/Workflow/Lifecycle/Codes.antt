-- ===== src/Workflow/Lifecycle/Codes.antt =====
-- Which errors are left once an action's rule is known to fit the card and the agent.
use team_flow.Prelude.{
  String, ◌≡◌, refl, Bool, true, false, Option, some, List, [], ◌∷◌, Memᴰ, is_empty, filter, arith,
  Bool-cases, Option-cases, inl, inr, Dict, keys, mem-filter, filter-mem, filter-is_empty, subset,
}
use team_flow.Workflow.Value.{Value}
use team_flow.Workflow.Definition.{Rule, Definition, Assignment, Task}
use team_flow.Workflow.Contract.{rule_actor_allowed}
use team_flow.Workflow.Responses.{
  ErrorCode, WorkflowError, workflow_error, invalid_fields, missing_fields, invalid_value,
  task_not_ready, precondition_failed,
}
use team_flow.Workflow.Rules.{
  refused, action_patch, validate_patch, validate_rule, rule_values_allowed,
}
use team_flow.Workflow.Lifecycle.{
  failed, prepare_rule, from_status, choose_rule, choose_writable, choose_actor, choose_source,
}

-- An objection to the payload or to the card's contents, not to the action as such.
abbrev pub about_contents : ErrorCode → Bool
about_contents invalid_fields = true
about_contents missing_fields = true
about_contents invalid_value = true
about_contents task_not_ready = true
about_contents precondition_failed = true
about_contents _ = false

module _ (a : Assignment) (d : Definition) (action_key : String) (task : Task)
    (payload : Dict Value) (runtime_facts : List String) {e : WorkflowError} where
  validate_patch_code :
      (rule : Rule) (patch : Dict Value)
      → validate_patch a d action_key rule (some task) patch runtime_facts ≡ refused e
      → about_contents e.code ≡ true
  unfolding validate_patch workflow_error
  validate_patch_code rule patch h = ground arith

  validate_rule_code :
      (rule : Rule)
      → rule_actor_allowed a d rule (some task) ≡ true
      → validate_rule a d action_key rule (some task) payload runtime_facts ≡ refused e
      → about_contents e.code ≡ true
  unfolding validate_rule workflow_error
  validate_rule_code rule actor h = elim (Option-cases (action_patch a rule payload)) [
    | inl n ↦ ground arith
    | inr (patch, n) ↦ ground (arith, validate_patch_code rule patch)
  ]

  prepare_rule_code :
      (rule : Rule)
      → rule_actor_allowed a d rule (some task) ≡ true
      → prepare_rule a d action_key rule (some task) payload runtime_facts ≡ failed e
      → about_contents e.code ≡ true
  unfolding prepare_rule
  prepare_rule_code rule actor h = elim (Option-cases (action_patch a rule payload)) [
    | inl n ↦ ground (arith, validate_rule_code rule actor)
    | inr (patch, n) ↦ ground (arith, validate_rule_code rule actor)
  ]

  module _ (variant : Option String) where
    choose_rule_code :
        (writable_rules rules : List Rule)
        → ((r : Rule) → Memᴰ r rules → rule_actor_allowed a d r (some task) ≡ true)
        → choose_rule a d action_key task payload variant runtime_facts writable_rules rules
          ≡ failed e
        → about_contents e.code ≡ true
    unfolding choose_rule workflow_error
    choose_rule_code ws [] actors h = ground arith
    choose_rule_code ws (r ∷ rs) actors h = prepare_rule_code r (actors r (Memᴰ.head refl)) h

    choose_writable_code :
        (actor_rules : List Rule)
        → ((r : Rule) → Memᴰ r actor_rules → rule_actor_allowed a d r (some task) ≡ true)
        → choose_writable a d action_key task payload variant runtime_facts actor_rules ≡ failed e
        → about_contents e.code ≡ true
    unfolding choose_writable workflow_error
    choose_writable_code actor_rules actors h =
        let fits = λ (r : Rule). subset (keys payload) r.writable_fields in
        let takes = λ (r : Rule). rule_values_allowed r payload in
        elim (Bool-cases (is_empty (filter fits actor_rules))) [
          | inl n ↦ ground arith
          | inr n ↦
              choose_rule_code (filter fits actor_rules) (filter takes (filter fits actor_rules))
                (λ r m.
                  actors r
                    (mem-filter fits actor_rules
                      (mem-filter takes (filter fits actor_rules) m).0).0)
                (ground arith)
        ]

    pub choose_source_code :
        (rules : List Rule) {rule : Rule}
        → Memᴰ rule rules
        → from_status task rule ≡ true
        → rule_actor_allowed a d rule (some task) ≡ true
        → choose_source a d action_key task payload variant runtime_facts rules ≡ failed e
        → about_contents e.code ≡ true
    unfolding choose_source choose_actor
    choose_source_code rules m source actor h =
        let allowed = λ (r : Rule). rule_actor_allowed a d r (some task) in
        let leaves = filter-mem (from_status task) rules m source in
        let some_source = filter-is_empty (from_status task) rules m source in
        let some_actor = filter-is_empty allowed (filter (from_status task) rules) leaves actor in
        choose_writable_code (filter allowed (filter (from_status task) rules))
          (λ r n. (mem-filter allowed (filter (from_status task) rules) n).1) (ground arith)
