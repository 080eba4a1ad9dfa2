-- ===== src/Examples/Actions.antt =====
-- Runs of the claim and the cancellation.
use team_flow.Prelude.{
  ◌≡◌, ◌↔◌, any, refl, true, false, none, some, [], ◌∷◌, is_some, lookup, update, Memᴰ, Dict,
}
use team_flow.Prelude
use team_flow.Workflow.Value.{Value, null, text, blank}
use team_flow.Workflow.Repr.{as_text}
use team_flow.Workflow.Definition.{Rule, assignment_get, task_option_definitions}
use team_flow.Workflow.Contract.{
  AvailableAction, offer, rule_option, rule_offers, is_offered, in_scope, actor_matches,
  actors_allowed, rule_actor_allowed, dedupe, required_task_fields, rule_allowed_values,
}
use team_flow.Workflow.Contract.Raises.{is_unlisted, rule_allowed_values-none}
use team_flow.Workflow.Rules.{
  accepted, values_allowed, rule_values_allowed, add_prefixes, bind_actor, set_status, action_patch,
  invalid_options, invalid_option_values, invalid_payload, validate_patch, validate_rule,
}
use team_flow.Workflow.Matching.{
  has_reached, may_have_applied, match_reached, match_unmoved, matching_applied_rule,
}
use team_flow.Workflow.Lifecycle.{
  all_writable, failed, prepared, prepare_rule, choose_rule, choose_writable, choose_actor,
  choose_source, choose, prepare_action, prepare_existing_action,
}
use team_flow.Workflow.Responses.{WorkflowError, workflow_error, validation, invalid_fields, names}
use team_flow.Workflow.Lifecycle.Permits.{Permits, prepare_existing_action-Permits}
use team_flow.Workflow.Lifecycle.Retry.{prepare_existing_action-retry}
use team_flow.Workflow.Lifecycle.Codes.{about_contents}
use team_flow.Workflow.Lifecycle.Offers.{rule_offers_taken}
use team_flow.Workflow.Rules.Accepts.{Accepts, validate_rule-Accepts, Accepts-validate_rule}
use team_flow.Workflow.Rules.Patch.{
  action_patch_untouched, action_patch_cleared, action_patch_status,
}
use team_flow.Workflow.RuleCheck.{Vocabulary, validate_action_rule}
use team_flow.Workflow.RuleCheck.Protected.{validated-protects, validated-action_patch}
use team_flow.Examples.General.{
  actions, claim_rule, cancel_rule, general, executor, owner, ready_card, claim_patch,
  cancel_payload, cancel_patch,
}

claim_made : action_patch executor claim_rule [] ≡ some claim_patch
unfolding action_patch add_prefixes bind_actor set_status assignment_get
claim_made = refl

claim_accepted :
    validate_rule executor general "claim" claim_rule (some ready_card) [] [] ≡ accepted
unfolding validate_rule validate_patch action_patch add_prefixes bind_actor set_status
    assignment_get rule_actor_allowed actors_allowed in_scope actor_matches invalid_payload
    rule_values_allowed values_allowed invalid_option_values invalid_options task_option_definitions
    blank required_task_fields dedupe Prelude.is_blank
claim_accepted = refl

pub claim_prepared :
    prepare_existing_action executor general "claim" ready_card [] none [] false
    ≡ prepared claim_rule claim_patch false
unfolding prepare_existing_action prepare_action choose choose_source choose_actor choose_writable
    choose_rule prepare_rule matching_applied_rule match_reached match_unmoved may_have_applied
    has_reached rule_actor_allowed actors_allowed in_scope actor_matches rule_values_allowed
    values_allowed validate_rule validate_patch action_patch add_prefixes bind_actor set_status
    assignment_get invalid_payload invalid_option_values invalid_options task_option_definitions
    blank required_task_fields dedupe Prelude.is_blank
claim_prepared = refl

claim-Permits : Permits executor general "claim" ready_card [] none [] false claim_rule claim_patch
claim-Permits =
    prepare_existing_action-Permits executor general "claim" ready_card [] [] none false
      claim_prepared

prepare_existing_action-Permits_example :
    Permits executor general "claim" ready_card [] none [] false claim_rule claim_patch
prepare_existing_action-Permits_example =
    prepare_existing_action-Permits executor general "claim" ready_card [] [] none false
      claim_prepared

abbrev vocabulary : Vocabulary
vocabulary = record {
  states = "ready" ∷ "in_progress" ∷ "canceled" ∷ [];
  roles = "owner" ∷ "executor" ∷ [];
  task_types = "task" ∷ [];
  waiting_targets = "owner" ∷ [];
  initial_state = "ready";
  terminal_states = "canceled" ∷ [];
}

claim_valid : validate_action_rule vocabulary "claim" claim_rule ≡ none
unfolding validate_action_rule
claim_valid = refl

validated-protects_example : lookup claim_patch "base_sha" ≡ none
validated-protects_example =
    validated-protects vocabulary "claim" executor general claim_rule (some ready_card) [] []
      claim_patch "base_sha" claim_valid claim_made claim-Permits.accepts refl

validated-action_patch_example : is_some (action_patch executor claim_rule []) ≡ true
validated-action_patch_example =
    validated-action_patch vocabulary "claim" executor claim_rule [] claim_valid

pub claim_known :
    (r : Rule) → Memᴰ r (claim_rule ∷ []) → is_some (action_patch executor r []) ≡ true
claim_known r (Memᴰ.head e) = rw e (rw claim_made refl)
claim_known r (Memᴰ.tail m) = elim m [ ]

pub claimed_actor :
    rule_actor_allowed executor general claim_rule (some (update ready_card claim_patch)) ≡ true
unfolding rule_actor_allowed actors_allowed in_scope actor_matches
claimed_actor = refl

prepare_existing_action-retry_example :
    (r : Rule) × (prepare_existing_action executor general "claim"
        (update ready_card claim_patch)
        []
        none
        []
        false
      ≡ prepared r [] true)
prepare_existing_action-retry_example =
    prepare_existing_action-retry executor general "claim" ready_card [] none [] [] false
      (record { confirmation_required = false; rules = claim_rule ∷ [] }) claim_rule claim_patch
      "in_progress" refl claim_prepared refl refl tt claim_known claimed_actor

abbrev claim_offer : AvailableAction
claim_offer =
    offer executor general ready_card "claim"
      (record { confirmation_required = false; rules = claim_rule ∷ [] }) claim_rule

claim_offered : Memᴰ claim_offer (rule_offers executor general ready_card actions)
unfolding rule_offers is_offered rule_actor_allowed actors_allowed in_scope actor_matches as_text
claim_offered = Memᴰ.head refl

abbrev title_refused : WorkflowError
title_refused =
    workflow_error executor general "claim" none (some ready_card) validation invalid_fields
      (names (("invalid_fields", "title" ∷ []) ∷ ("allowed_fields", []) ∷ []))

title_fails :
    prepare_existing_action executor general claim_offer.action ready_card
      (("title", text "Other") ∷ [])
      claim_offer.option
      []
      true
    ≡ failed title_refused
unfolding offer rule_option prepare_existing_action prepare_action choose choose_source choose_actor
    choose_writable all_writable matching_applied_rule match_reached match_unmoved may_have_applied
    has_reached rule_actor_allowed actors_allowed in_scope actor_matches rule_values_allowed
    values_allowed Prelude.sorted_set
title_fails = refl

rule_offers_taken_example : about_contents title_refused.code ≡ true
rule_offers_taken_example =
    rule_offers_taken executor general ready_card claim_offer (("title", text "Other") ∷ []) []
      "ready" title_refused (refl, (refl, tt)) refl claim_offered title_fails

validate_rule-Accepts_example :
    (patch : Dict Value) × (action_patch executor claim_rule [] ≡ some patch)
    × Accepts executor general claim_rule (some ready_card) [] [] patch
validate_rule-Accepts_example =
    validate_rule-Accepts executor general "claim" claim_rule (some ready_card) [] [] claim_accepted

Accepts-validate_rule_example :
    validate_rule executor general "claim" claim_rule (some ready_card) [] [] ≡ accepted
Accepts-validate_rule_example =
    Accepts-validate_rule executor general "claim" claim_rule (some ready_card) [] [] claim_patch
      claim_made claim-Permits.accepts

cancel_made : action_patch owner cancel_rule cancel_payload ≡ some cancel_patch
unfolding action_patch add_prefixes bind_actor set_status assignment_get
cancel_made = refl

action_patch_untouched_example : lookup cancel_patch "priority" ≡ none
action_patch_untouched_example =
    action_patch_untouched owner cancel_rule cancel_payload "priority" cancel_made refl refl refl
      refl refl refl

action_patch_cleared_example : lookup cancel_patch "waiting_on" ≡ some null
action_patch_cleared_example =
    action_patch_cleared owner cancel_rule cancel_payload "waiting_on" cancel_made refl refl

action_patch_status_example : lookup cancel_patch "status" ≡ some (text "canceled")
action_patch_status_example =
    action_patch_status owner cancel_rule cancel_payload "canceled" cancel_made refl refl

-- A rule that passes the validation and restricts a text column.
abbrev worded_rule : Rule
worded_rule = record claim_rule {
  writable_fields = "progress" ∷ [];
  field_values = ("progress", "half" ∷ []) ∷ [];
}

worded_valid : validate_action_rule vocabulary "claim" worded_rule ≡ none
unfolding validate_action_rule
worded_valid = refl

rule_allowed_values-none_example :
    rule_allowed_values general worded_rule ≡ none
    ↔ any (is_unlisted worded_rule.field_values (task_option_definitions general)) ("progress" ∷ [])
      ≡ true
rule_allowed_values-none_example = rule_allowed_values-none general worded_rule

worded_raises : rule_allowed_values general worded_rule ≡ none
worded_raises =
    (rule_allowed_values-none general worded_rule).1 (unfold task_option_definitions in refl)
