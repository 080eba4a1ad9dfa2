-- ===== src/Workflow/RuleCheck/Protected.antt =====
-- What a rule that passes the check can never do to a card.
use mathlib.Core.Bool.{false≢true}
use team_flow.Prelude.{
  sym, ap, ◌∙◌, String, ◌≡◌, refl, Bool, true, false, not, Option, none, some, List, [], ◌∷◌, ◌==◌,
  eq_iff, elem, any, arith, all, all-mem, elem-mem, Bool-cases, inl, inr, ◌⊎◌, Dict, lookup, put,
  keys, is_some,
}
use team_flow.Workflow.Value.{Value, text}
use team_flow.Workflow.Definition.{Rule, Definition, Assignment, Task, assignment_get}
use team_flow.Workflow.Rules.{delivery_managed_fields, bind_actor, action_patch}
use team_flow.Workflow.Rules.Accepts.{Accepts}
use team_flow.Workflow.Rules.Patch.{action_patch_untouched, filled}
use team_flow.Workflow.RuleCheck.{
  Vocabulary, RuleFault, ◌orelse◌, shape_fault, transition_fault, value_fault, directly_writable,
  clearable, actor_binding, bad_bindings, mapping_fault, field_fault, validate_action_rule,
}

-- The fields that no rule writes: what TeamFlow itself records, and the automatic number.
abbrev pub protected_fields : List String
protected_fields = "task_id" ∷ delivery_managed_fields

any_fails :
    (p : String → Bool) (xs : List String) (x : String)
    → any p xs ≡ false
    → p x ≡ true
    → elem x xs ≡ false
any_fails p [] x h t = refl
any_fails p (y ∷ ys) x h t = elim (Bool-cases (x == y)) [
  | inl e ↦ let q : x ≡ y = (eq_iff x y).0 e in absurd (ground arith)
  | inr e ↦ ground (arith, any_fails p ys x)
]

bindings_known :
    (bindings : Dict String) (x : String)
    → bad_bindings bindings ≡ false
    → (x == "agent") ≡ false
    → (x == "agent_id") ≡ false
    → elem x (keys bindings) ≡ false
unfolding bad_bindings
bindings_known [] x h a i = refl
bindings_known ((field, source) ∷ rest) x h a i = ground (
  arith,
  bindings_known rest x,
  eq_iff x field,
  eq_iff x "agent",
  eq_iff x "agent_id",
  eq_iff field "agent",
  eq_iff field "agent_id",
)

-- A test that passes at each of some texts, as evaluation shows, passes at any text among them.
tested :
    (p : String → Bool) (xs : List String) (x : String)
    → all p xs ≡ true
    → elem x xs ≡ true
    → p x ≡ true
tested p xs x h m = all-mem p xs h (elem-mem xs m)

not-true : (b : Bool) → not b ≡ true → b ≡ false
not-true b h = ground arith

fails_on_protected :
    (p : String → Bool) (x : String)
    → all (λ y. not (p y)) protected_fields ≡ true
    → elem x protected_fields ≡ true
    → p x ≡ false
fails_on_protected p x h m = not-true (p x) (tested (λ y. not (p y)) protected_fields x h m)

-- The parts of the check that bear on what a rule writes.
record Writes (rule : Rule) : Type 0 where
  fields : any (λ f. not (directly_writable f)) rule.writable_fields ≡ false
  cleared : any (λ f. not (clearable f)) rule.clear_fields ≡ false
  defaults : any (λ f. not (directly_writable f)) (keys rule.defaults) ≡ false
  fixed : any (λ f. not (directly_writable f)) (keys rule.fixed_fields) ≡ false
  bindings : bad_bindings rule.actor_fields ≡ false

orelse-none : (x y : Option RuleFault) → (x orelse y) ≡ none → (x ≡ none) × (y ≡ none)
orelse-none none y h = (refl, h)
orelse-none (some fault) y h = absurd (ground arith)

-- The faults, looked for one group after the other.
pub validate_action_rule-parts :
    (v : Vocabulary) (action_key : String) (rule : Rule)
    → validate_action_rule v action_key rule ≡ none
    → (shape_fault v rule ≡ none)
      × (transition_fault v action_key rule ≡ none)
      × (field_fault rule ≡ none)
      × (mapping_fault rule ≡ none)
      × (value_fault v action_key rule ≡ none)
unfolding validate_action_rule
validate_action_rule-parts v action_key rule h =
    let (shape, r₁) = orelse-none (shape_fault v rule) _ h in
    let (transition, r₂) = orelse-none (transition_fault v action_key rule) _ r₁ in
    let (fields, r₃) = orelse-none (field_fault rule) _ r₂ in
    let (mappings, values) = orelse-none (mapping_fault rule) _ r₃ in
    (shape, transition, fields, mappings, values)

fields-Writes : (rule : Rule) → field_fault rule ≡ none → mapping_fault rule ≡ none → Writes rule
unfolding field_fault mapping_fault
fields-Writes rule f m = ground arith

validate_action_rule-Writes :
    (v : Vocabulary) (action_key : String) (rule : Rule)
    → validate_action_rule v action_key rule ≡ none
    → Writes rule
validate_action_rule-Writes v action_key rule h =
    let parts = validate_action_rule-parts v action_key rule h in fields-Writes rule parts.2 parts.3

binding_source :
    (field source : String)
    → actor_binding field source ≡ true
    → ((source == "agent_name") ≡ true) ⊎ ((source == "agent_id") ≡ true)
binding_source field source h = ground arith

binding_known :
    (a : Assignment) (field source : String)
    → actor_binding field source ≡ true
    → (value : String) × (assignment_get a source ≡ some value)
unfolding assignment_get
binding_known a field source h = elim (binding_source field source h) [
  | inl e ↦ (a.agent_name, rw ((eq_iff source "agent_name").0 e) refl)
  | inr e ↦ (a.agent_id, rw ((eq_iff source "agent_id").0 e) refl)
]

bind_actor_known :
    (a : Assignment) (patch : Dict Value) (bindings : Dict String)
    → bad_bindings bindings ≡ false
    → is_some (bind_actor a patch bindings) ≡ true
unfolding bad_bindings bind_actor
bind_actor_known a patch [] h = refl
bind_actor_known a patch ((field, source) ∷ rest) h =
    let (value, e) = binding_known a field source (ground arith) in
    rw (e, is_some) (bind_actor_known a (put patch field (text value)) rest (ground arith))

-- A rule that passes the check makes a patch of every payload: it names no actor field that an
-- assignment lacks.
pub validated-action_patch :
    (v : Vocabulary) (action_key : String) (a : Assignment) (rule : Rule) (payload : Dict Value)
    → validate_action_rule v action_key rule ≡ none
    → is_some (action_patch a rule payload) ≡ true
unfolding action_patch
validated-action_patch v action_key a rule payload h =
    let w = validate_action_rule-Writes v action_key rule h in
    ground (arith, bind_actor_known a (filled rule payload) rule.actor_fields, w.bindings)

-- Where the payload has been accepted too, the patch leaves every field alone that TeamFlow
-- records by itself: the automatic number, the delivery mode, the branch, the commits and the
-- declared resources.
pub validated-protects :
    (v : Vocabulary) (action_key : String) (a : Assignment) (d : Definition) (rule : Rule)
    (task : Option Task) (payload : Dict Value) (runtime_facts : List String) (patch : Dict Value)
    (field : String)
    → validate_action_rule v action_key rule ≡ none
    → action_patch a rule payload ≡ some patch
    → Accepts a d rule task payload runtime_facts patch
    → elem field protected_fields ≡ true
    → lookup patch field ≡ none
validated-protects v action_key a d rule task payload runtime_facts patch field h made ok m =
    let w = validate_action_rule-Writes v action_key rule h in
    let direct : directly_writable field ≡ false =
      fails_on_protected directly_writable field refl m in
    let hidden : clearable field ≡ false = fails_on_protected clearable field refl m in
    let agent = fails_on_protected (λ y. y == "agent") field refl m in
    let agent_id = fails_on_protected (λ y. y == "agent_id") field refl m in
    let status = fails_on_protected (λ y. y == "status") field refl m in
    let unwritten : elem field rule.writable_fields ≡ false =
      any_fails (λ f. not (directly_writable f)) rule.writable_fields field w.fields
        (ap not direct) in
    let unsent : elem field (keys payload) ≡ false = elim (Bool-cases (elem field (keys payload))) [
      | inl e ↦
          let (allowed, free) = ok.writable field e in absurd (false≢true (sym unwritten ∙ allowed))
      | inr e ↦ e
    ] in
    action_patch_untouched a rule payload field made status unsent
      (any_fails (λ f. not (directly_writable f)) (keys rule.defaults) field w.defaults
        (ap not direct))
      (any_fails (λ f. not (directly_writable f)) (keys rule.fixed_fields) field w.fixed
        (ap not direct))
      (bindings_known rule.actor_fields field w.bindings agent agent_id)
      (any_fails (λ f. not (clearable f)) rule.clear_fields field w.cleared (ap not hidden))
