-- ===== src/Workflow/Lifecycle/Retry.antt =====
-- A repeated call of an action that has been applied.
use team_flow.Prelude.{
  String, ◌≡◌, refl, subst, Bool, true, false, Option, none, some, List, [], ◌∷◌, Memᴰ, is_empty,
  is_some, arith, ◌==◌, eq_iff, eq_refl, Dict, lookup, keys, update, lookup-update, filter-mem,
  mem-filter, filter-is_empty, subset, subset_of_elem, Distinct,
}
use team_flow.Workflow.Value.{Value, text, get}
use team_flow.Workflow.Definition.{Rule, Action, Definition, Assignment, Task}
use team_flow.Workflow.Contract.{rule_actor_allowed}
use team_flow.Workflow.Rules.{action_patch}
use team_flow.Workflow.Rules.Patch.{action_patch_status, action_patch-Distinct}
use team_flow.Workflow.Matching.{
  matched, holds_all, has_reached, may_have_applied, matching_applied_rule,
}
use team_flow.Workflow.Matching.Reached.{holds_all_of_lookup, matching_applied_rule-finds}
use team_flow.Workflow.Lifecycle.{
  prepared, variant_rules, confirmation_missing, choose, prepare_action, prepare_existing_action,
}
use team_flow.Workflow.Lifecycle.Permits.{Permits, prepare_existing_action-Permits}

variant_rules-mem :
    (variant : Option String) (rules : List Rule) {rule : Rule}
    → Memᴰ rule rules
    → ((v : String) → variant ≡ some v → rule.key ≡ v)
    → Memᴰ rule (variant_rules variant rules) × (is_empty (variant_rules variant rules) ≡ false)
variant_rules-mem none (x ∷ rules) m same = (m, refl)
variant_rules-mem none [] m same = elim m [ ]
variant_rules-mem (some w) rules {rule} m same =
    let e : (rule.key == w) ≡ true = (eq_iff rule.key w).1 (same w refl) in
    (
      filter-mem (λ (r : Rule). r.key == w) rules m e,
      filter-is_empty (λ (r : Rule). r.key == w) rules m e,
    )

variant_rules_listed :
    (variant : Option String) (rules : List Rule) {rule : Rule}
    → Memᴰ rule (variant_rules variant rules)
    → Memᴰ rule rules
variant_rules_listed none rules m = m
variant_rules_listed (some w) rules m = (mem-filter (λ (r : Rule). r.key == w) rules m).0

reached_of_status :
    (to : Option String) (state : String) (task : Task)
    → to ≡ some state
    → (state == "") ≡ false
    → lookup task "status" ≡ some (text state)
    → has_reached to (get task "status") ≡ true
unfolding has_reached
reached_of_status to String.[] task t s h = absurd (ground arith)
reached_of_status to (String.◌∷◌ c r) task t s h = rw t (ground (arith, eq_refl (String.◌∷◌ c r)))

module _ (a : Assignment) (d : Definition) (action_key : String) (task : Task)
    (payload : Dict Value) (variant : Option String) (runtime_facts : List String)
    (confirmed : Bool) {rule : Rule} {patch : Dict Value}
    (permitted : Permits a d action_key task payload variant runtime_facts confirmed rule
      patch) where
  abbrev written : Task
  written = update task patch

  may_have_applied-written :
      (state : String)
      → rule.to ≡ some state
      → (state == "") ≡ false
      → Distinct (keys rule.defaults)
      → rule_actor_allowed a d rule (some written) ≡ true
      → may_have_applied a d written payload rule ≡ true
  unfolding may_have_applied
  may_have_applied-written state t s u actor =
      let moved : lookup written "status" ≡ some (text state) =
        lookup-update task patch "status" (action_patch-Distinct a rule payload permitted.made u)
          (action_patch_status a rule payload state permitted.made t s) in
      let reached = reached_of_status rule.to state written t s moved in
      let fields : subset (keys payload) rule.writable_fields ≡ true =
        subset_of_elem (keys payload) rule.writable_fields
          (λ f m. (permitted.accepts.writable f m).0) in
      rw (reached, actor, fields, permitted.accepts.values) refl

  written-holds_all : Distinct (keys rule.defaults) → holds_all written patch ≡ true
  written-holds_all u =
      let distinct = action_patch-Distinct a rule payload permitted.made u in
      holds_all_of_lookup written patch distinct (λ j v e. lookup-update task patch j distinct e)

-- What stays to be done once the result has been recognised.
prepare_recognised :
    (a : Assignment) (d : Definition) (action_key : String) (task : Task) (payload : Dict Value)
    (variant : Option String) (runtime_facts : List String) (confirmed : Bool) (action : Action)
    (r : Rule)
    → lookup d.lifecycle.actions action_key ≡ some action
    → confirmation_missing action confirmed ≡ false
    → is_empty (variant_rules variant action.rules) ≡ false
    → matching_applied_rule a d (variant_rules variant action.rules) task payload ≡ matched r
    → prepare_existing_action a d action_key task payload variant runtime_facts confirmed
      ≡ prepared r [] true
unfolding prepare_existing_action prepare_action choose
prepare_recognised a d action_key task payload variant runtime_facts confirmed action r i c e m =
    rw (i, prepare_existing_action) (ground arith)

-- A transition that has been let through, and is asked for once more of the card with its patch: it is
-- answered as applied already, with an empty patch. The rule must have a target state and still
-- admit the agent on the changed card, and no rule of the action may ask for an actor field that an
-- assignment lacks.
pub prepare_existing_action-retry :
    (a : Assignment) (d : Definition) (action_key : String) (task : Task) (payload : Dict Value)
    (variant : Option String) (runtime_facts later_facts : List String) (confirmed : Bool)
    (action : Action) (rule : Rule) (patch : Dict Value) (state : String)
    → lookup d.lifecycle.actions action_key ≡ some action
    → prepare_existing_action a d action_key task payload variant runtime_facts confirmed
      ≡ prepared rule patch false
    → rule.to ≡ some state
    → (state == "") ≡ false
    → Distinct (keys rule.defaults)
    → ((r : Rule) → Memᴰ r action.rules → is_some (action_patch a r payload) ≡ true)
    → rule_actor_allowed a d rule (some (update task patch)) ≡ true
    → (r : Rule) × (prepare_existing_action a d action_key
          (update task patch)
          payload
          variant
          later_facts
          confirmed
        ≡ prepared r [] true)
prepare_existing_action-retry a d action_key task payload variant runtime_facts later_facts
      confirmed action rule patch state i h t s u known actor =
    let permitted =
      prepare_existing_action-Permits a d action_key task payload runtime_facts variant confirmed
        h in
    let same : permitted.action ≡ action = ground arith in
    let rules = variant_rules variant action.rules in
    let listed : Memᴰ rule action.rules =
      subst (λ (x : Action). Memᴰ rule x.rules) same permitted.listed in
    let (m, some_rule) = variant_rules-mem variant action.rules listed permitted.asked in
    let (r, found) =
      matching_applied_rule-finds a d (update task patch) payload rules m
        (λ x n. known x (variant_rules_listed variant action.rules n))
        (may_have_applied-written a d action_key task payload variant runtime_facts confirmed
          permitted state t s u actor)
        permitted.made
        (written-holds_all a d action_key task payload variant runtime_facts confirmed permitted
          u) in
    let agreed : confirmation_missing action confirmed ≡ false =
      ground (arith, permitted.confirmation) in
    (
      r,
      prepare_recognised a d action_key (update task patch) payload variant later_facts confirmed
          action r i agreed some_rule found,
    )
