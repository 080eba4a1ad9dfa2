-- ===== src/Workflow/Lifecycle/Permits.antt =====
-- What `prepare_existing_action` guarantees of the change that it lets through.
use team_flow.Prelude.{
  String, ◌≡◌, refl, sym, subst, Bool, true, false, Option, none, some, List, [], ◌∷◌, Memᴰ, filter,
  arith, Option-cases, inl, inr, ◌==◌, eq_iff, Dict, lookup, keys, mem-filter, subset,
}
use team_flow.Workflow.Value.{Value, get, value_in}
use team_flow.Workflow.Definition.{Rule, Action, Definition, Assignment, Task}
use team_flow.Workflow.Contract.{rule_actor_allowed}
use team_flow.Workflow.Rules.{
  Verdict, accepted, refused, key_error, action_patch, rule_values_allowed,
}
use team_flow.Workflow.Rules.Accepts.{Accepts, validate_rule-Accepts}
use team_flow.Workflow.Lifecycle.{
  Prepared, prepared, failed, raises, prepare_rule, from_status, variant_rules, choose_rule,
  choose_writable, choose_actor, choose_source, choose, prepare_action, prepare_existing_action,
}

-- The transition that an answer `prepared rule patch false` stands for.
pub record Permits (a : Assignment) (d : Definition) (action_key : String) (task : Task)
    (payload : Dict Value) (variant : Option String) (runtime_facts : List String)
    (confirmed : Bool) (rule : Rule) (patch : Dict Value) : Type 0 where
  pub action : Action
  pub installed : lookup d.lifecycle.actions action_key ≡ some action
  pub listed : Memᴰ rule action.rules
  pub asked : (v : String) → variant ≡ some v → rule.key ≡ v
  pub source : value_in (get task "status") rule.from_states ≡ true
  pub confirmation : action.confirmation_required ≡ true → confirmed ≡ true
  pub made : action_patch a rule payload ≡ some patch
  pub accepts : Accepts a d rule (some task) payload runtime_facts patch

mem-variant_rules :
    (variant : Option String) (rules : List Rule) {rule : Rule}
    → Memᴰ rule (variant_rules variant rules)
    → Memᴰ rule rules × ((v : String) → variant ≡ some v → rule.key ≡ v)
mem-variant_rules none rules m = (m, λ v e. cc)
mem-variant_rules (some w) rules {rule} m =
    let (listed, same) = mem-filter (λ (r : Rule). r.key == w) rules m in
    (listed, λ v e. let q : rule.key ≡ w = (eq_iff rule.key w).0 same in ground arith)

verdict_accepted :
    (v : Verdict) (next : Prepared) {rule : Rule} {patch : Dict Value}
    → Prepared.prepared rule patch false
      ≡ elim v [ refused e ↦ failed e | key_error ↦ raises | accepted ↦ next ]
    → (v ≡ accepted) × (next ≡ prepared rule patch false)
verdict_accepted accepted next h = (refl, cc)
verdict_accepted (refused e) next h = absurd (ground arith)
verdict_accepted key_error next h = absurd (ground arith)

module _ (a : Assignment) (d : Definition) (action_key : String) (task : Task)
    (payload : Dict Value) (runtime_facts : List String) where
  -- The rule has produced its patch and passed its checks.
  abbrev Chosen : Rule → Dict Value → Type 0
  Chosen rule patch =
      (action_patch a rule payload ≡ some patch)
      × Accepts a d rule (some task) payload runtime_facts patch

  prepare_rule-Chosen :
      (r : Rule) {rule : Rule} {patch : Dict Value}
      → prepare_rule a d action_key r (some task) payload runtime_facts ≡ prepared rule patch false
      → (rule ≡ r) × Chosen r patch
  unfolding prepare_rule
  prepare_rule-Chosen r {rule} {patch} h =
      let (passed, next) = verdict_accepted _ _ (sym h) in
      let (p, made, ok) =
        validate_rule-Accepts a d action_key r (some task) payload runtime_facts passed in
      let same : (rule ≡ r) × (p ≡ patch) = ground arith in
      (same.0, subst (λ q. Chosen r q) same.1 (made, ok))

  module _ (variant : Option String) {rule : Rule} {patch : Dict Value} where
    choose_rule-Chosen :
        (writable_rules rules : List Rule)
        → choose_rule a d action_key task payload variant runtime_facts writable_rules rules
          ≡ prepared rule patch false
        → Memᴰ rule rules × Chosen rule patch
    unfolding choose_rule
    choose_rule-Chosen ws [] h = absurd (ground arith)
    choose_rule-Chosen ws (r ∷ rs) h =
        let (same, chosen) = prepare_rule-Chosen r h in
        (Memᴰ.head same, subst (λ q. Chosen q patch) (sym same) chosen)

    choose_source-Chosen :
        (rules : List Rule)
        → choose_source a d action_key task payload variant runtime_facts rules
          ≡ prepared rule patch false
        → Memᴰ rule rules × (from_status task rule ≡ true) × Chosen rule patch
    unfolding choose_source choose_actor choose_writable
    choose_source-Chosen rules h =
        let source_rules = filter (from_status task) rules in
        let actor_rules =
          filter (λ (r : Rule). rule_actor_allowed a d r (some task)) source_rules in
        let writable_rules =
          filter (λ (r : Rule). subset (keys payload) r.writable_fields) actor_rules in
        let value_rules = filter (λ (r : Rule). rule_values_allowed r payload) writable_rules in
        let (m₄, chosen) = choose_rule-Chosen writable_rules value_rules (ground arith) in
        let m₃ = mem-filter (λ (r : Rule). rule_values_allowed r payload) writable_rules m₄ in
        let m₂ =
          mem-filter (λ (r : Rule). subset (keys payload) r.writable_fields) actor_rules m₃.0 in
        let m₁ =
          mem-filter (λ (r : Rule). rule_actor_allowed a d r (some task)) source_rules m₂.0 in
        let (listed, source) = mem-filter (from_status task) rules m₁.0 in (listed, source, chosen)

    choose-Chosen :
        (rules : List Rule)
        → choose a d action_key task payload variant runtime_facts rules ≡ prepared rule patch false
        → Memᴰ rule rules × (from_status task rule ≡ true) × Chosen rule patch
    unfolding choose
    choose-Chosen rules h = choose_source-Chosen rules (ground arith)

    -- A transition that is let through is one of the action's rules, of the variant asked for; it
    -- leaves the card's state, is confirmed where that is required, is open to the agent, and its
    -- payload, patch, resulting card and guards pass every check.
    pub prepare_existing_action-Permits :
        (confirmed : Bool)
        → prepare_existing_action a d action_key task payload variant runtime_facts confirmed
          ≡ prepared rule patch false
        → Permits a d action_key task payload variant runtime_facts confirmed rule patch
    unfolding prepare_existing_action prepare_action
    prepare_existing_action-Permits confirmed h =
        elim (Option-cases (lookup d.lifecycle.actions action_key)) [
          | inl e ↦ absurd (ground arith)
          | inr (action, e) ↦
              let rules = variant_rules variant action.rules in
              let chosen : choose a d action_key task payload variant runtime_facts rules
                  ≡ prepared rule patch false =
                ground arith in
              let (m, source, pair) = choose-Chosen rules chosen in
              let (made, ok) = pair in
              let (listed, asked) = mem-variant_rules variant action.rules m in
              record {
                action = action;
                installed = e;
                listed = listed;
                asked = asked;
                source = source;
                confirmation = ground arith;
                made = made;
                accepts = ok;
              }
        ]
