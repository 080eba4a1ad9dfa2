-- ===== src/Workflow/Rules.antt =====
-- core/workflow_rule_validation.py: the checks that a rule makes of a card and a payload, and the
-- patch that it writes. Payloads hold texts and None, as the tools' signatures say.
pub mod Accepts
pub mod Patch
use Prim.Native.String.{◌++◌ as append}
use team_flow.Prelude.{
  String, Bool, true, not, ◌&&◌, ◌||◌, Option, none, some, List, [], ◌∷◌, ◌++◌, elem, is_empty,
  filter, if◌then◌else◌, Dict, lookup, put, update, keys, put_each, sorted_set, starts_with,
}
use team_flow.Workflow.Value.{Value, null, text, get, value_in, blank}
use team_flow.Workflow.Repr.{as_text}
use team_flow.Workflow.Definition.{
  Rule, Definition, Assignment, Task, assignment_get, task_option_definitions,
}
use team_flow.Workflow.Contract.{rule_actor_allowed, required_task_fields}
use team_flow.Workflow.Responses.{
  WorkflowError, workflow_error, names, rejected, permission, validation, business_rule,
  permission_denied, invalid_fields, missing_fields, invalid_value, task_not_ready,
  precondition_failed,
}

-- DELIVERY_MANAGED_FIELDS of core/workflow_validation.py
abbrev pub delivery_managed_fields : List String
delivery_managed_fields =
    "delivery_mode" ∷ "target_branch" ∷ "base_sha" ∷ "candidate_sha" ∷ "verified_sha"
    ∷ "promoted_sha" ∷ "delivery_resources" ∷ []

unfoldable pub values_allowed : Dict (List String) → Dict Value → Bool
values_allowed [] payload = true
values_allowed ((field, values) ∷ rest) payload =
    (not (elem field (keys payload)) || value_in (get payload field) values)
    && values_allowed rest payload

unfoldable pub rule_values_allowed : Rule → Dict Value → Bool
rule_values_allowed rule payload = values_allowed rule.field_values payload

-- The loop over `field_prefixes`.
unfoldable pub add_prefix : Dict Value → String → String → Dict Value
add_prefix patch field prefix =
    let value = get patch field in
    if not (blank value) && not (starts_with (as_text value) prefix)
    then put patch field (text (append prefix (as_text value)))
    else patch

unfoldable pub add_prefixes : Dict Value → Dict String → Dict Value
add_prefixes patch [] = patch
add_prefixes patch ((field, prefix) ∷ rest) = add_prefixes (add_prefix patch field prefix) rest

-- The loop over `actor_fields`; `none` stands for the KeyError of `assignment[source]`.
unfoldable pub bind_actor : Assignment → Dict Value → Dict String → Option (Dict Value)
bind_actor a patch [] = some patch
bind_actor a patch ((field, source) ∷ rest) = elim (assignment_get a source) [
  | none ↦ none
  | some value ↦ bind_actor a (put patch field (text value)) rest
]

-- if rule.get("to"): patch["status"] = rule["to"]
unfoldable pub set_status : Dict Value → Option String → Dict Value
set_status patch none = patch
set_status patch (some String.[]) = patch
set_status patch (some (String.◌∷◌ c s)) = put patch "status" (text (String.◌∷◌ c s))

unfoldable pub action_patch : Assignment → Rule → Dict Value → Option (Dict Value)
action_patch a rule payload =
    let filled = update (update rule.defaults payload) rule.fixed_fields in
    elim (bind_actor a (add_prefixes filled rule.field_prefixes) rule.actor_fields) [
      | none ↦ none
      | some patch ↦ some (set_status (put_each patch rule.clear_fields null) rule.to)
    ]

unfoldable pub invalid_options : Dict (List String) → Dict Value → Dict (Value × List String)
invalid_options [] patch = []
invalid_options ((field, allowed) ∷ options) patch =
    let rest = invalid_options options patch in
    let value = get patch field in
    if blank value || value_in value allowed
    then rest
    else (field, (value, sorted_set allowed)) ∷ rest

unfoldable pub invalid_option_values : Definition → Dict Value → Dict (Value × List String)
invalid_option_values d patch = invalid_options (task_option_definitions d) patch

-- merged.setdefault(field, set()).update(values), for each field of each rule
unfoldable pub merge_values : Dict (List String) → Dict (List String) → Dict (List String)
merge_values merged [] = merged
merge_values merged ((field, values) ∷ rest) =
    let before : List String = elim (lookup merged field) [ none ↦ [] | some old ↦ old ] in
    merge_values (put merged field (before ++ values)) rest

unfoldable pub merge_rules : Dict (List String) → List Rule → Dict (List String)
merge_rules merged [] = merged
merge_rules merged (rule ∷ rules) = merge_rules (merge_values merged rule.field_values) rules

unfoldable pub sort_values : Dict (List String) → Dict (List String)
sort_values [] = []
sort_values ((field, values) ∷ rest) = (field, sorted_set values) ∷ sort_values rest

unfoldable pub merged_allowed_values : List Rule → Dict (List String)
merged_allowed_values rules = sort_values (merge_rules [] rules)

-- The error that `validate_rule` returns, none of it, or the KeyError of `action_patch`.
pub data Verdict : Type 0 where
  accepted : Verdict
  refused : WorkflowError → Verdict
  key_error : Verdict

abbrev pub blank_fields : Dict Value → List String → List String
blank_fields d fields = filter (λ f. blank (get d f)) fields

abbrev pub task_or_empty : Option Task → Task
task_or_empty none = []
task_or_empty (some task) = task

unfoldable pub invalid_payload : Rule → Dict Value → List String
invalid_payload rule payload =
    filter (λ f. not (elem f rule.writable_fields) || elem f delivery_managed_fields) (keys payload)

-- The checks that follow once the patch is known.
unfoldable pub validate_patch :
    Assignment → Definition → String → Rule → Option Task → Dict Value → List String → Verdict
validate_patch a d action_key rule task patch runtime_facts =
    let invalid_values = invalid_option_values d patch in
    let merged = update (task_or_empty task) patch in
    let missing_task_fields = blank_fields merged (required_task_fields d rule (some merged)) in
    let missing_guards = filter (λ g. not (elem g runtime_facts)) rule.guards in
    if not (is_empty invalid_values)
    then refused (
        workflow_error a d action_key (some rule.key) task validation invalid_value
          (rejected invalid_values))
    else if not (is_empty missing_task_fields)
    then refused (
        workflow_error a d action_key (some rule.key) task business_rule task_not_ready
          (names (("missing_task_fields", missing_task_fields) ∷ [])))
    else if not (is_empty missing_guards)
    then refused (
        workflow_error a d action_key (some rule.key) task business_rule precondition_failed
          (names (("missing_preconditions", missing_guards) ∷ [])))
    else accepted

unfoldable pub validate_rule :
    Assignment → Definition → String → Rule → Option Task → Dict Value → List String → Verdict
validate_rule a d action_key rule task payload runtime_facts =
    let missing_inputs = blank_fields payload rule.required_inputs in
    let checked : Verdict = elim (action_patch a rule payload) [
      | none ↦ key_error
      | some patch ↦ validate_patch a d action_key rule task patch runtime_facts
    ] in
    if not (rule_actor_allowed a d rule task)
    then refused
        (workflow_error a d action_key (some rule.key) task permission permission_denied (names []))
    else if not (is_empty (invalid_payload rule payload))
    then refused (
        workflow_error a d action_key (some rule.key) task validation invalid_fields
          (names (("invalid_fields", sorted_set (invalid_payload rule payload)) ∷ [])))
    else if not (is_empty missing_inputs)
    then refused (
        workflow_error a d action_key (some rule.key) task validation missing_fields
          (names (("missing_fields", missing_inputs) ∷ [])))
    else if not (rule_values_allowed rule payload)
    then refused (
        workflow_error a d action_key (some rule.key) task validation invalid_value
          (names (merged_allowed_values (rule ∷ []))))
    else checked
