-- ===== src/Examples/Working.antt =====
-- A board of one card, on which the card is claimed and another is created.
use team_flow.Prelude.{
  ℕ, ◌+◌, ◌≤◌, ◌≡◌, ◌≢◌, ◌⊎◌, refl, arith, String, true, false, not, Option, none, some, List, [],
  ◌∷◌, ◌==◌, Dict, update, strip, elem, is_empty, lookup, ap, inr, inl,
}
use team_flow.Prelude
use team_flow.Workflow.Value.{Value, text, fields_eq, same_value, value_eq, blank}
use team_flow.Workflow.Repr.{as_text}
use team_flow.Workflow.Definition.{Rule, Task, assignment_get, task_option_definitions}
use team_flow.Workflow.Contract.{
  in_scope, actor_matches, actors_allowed, rule_actor_allowed, dedupe, required_task_fields,
}
use team_flow.Workflow.Rules.{
  values_allowed, rule_values_allowed, add_prefixes, bind_actor, set_status, action_patch,
  invalid_options, invalid_option_values, invalid_payload, validate_patch, validate_rule,
}
use team_flow.Workflow.Matching.{
  has_reached, may_have_applied, match_reached, match_unmoved, matching_applied_rule,
}
use team_flow.Workflow.Lifecycle.{
  prepare_rule, choose_rule, choose_writable, choose_actor, choose_source, choose, prepare_action,
  prepare_existing_action,
}
use team_flow.Delivery.Git.{
  ensure_repository, commit_exists, branch_sha, object_id_length, is_object_id, names_commit,
}
use team_flow.Delivery.Mode.{chosen, mode_of, resolve_transition_mode}
use team_flow.Delivery.Gate.{completion_failure}
use team_flow.Delivery.Input.{
  Given, no_delivery, supplied, Delivery, normal, normalize_delivery_input, normalize_fields,
  normalize_shas, normalize_mode, normalize_resources,
}
use team_flow.Delivery.Input.Clean.{IsClean, normalize_delivery_input-IsClean}
use team_flow.Delivery.Apply.{
  applied, apply_delivery, reject_repository_only_input, verify_supplied_shas, confirm_commits,
  missing_commits, record_shas, record_resources, claim_baseline,
}
use team_flow.Delivery.Apply.Recorded.{Recorded, apply_delivery-Recorded}
use team_flow.Tools.World.{World}
use team_flow.Tools.Visible.{visible_write, out_of_fuel}
use team_flow.Tools.Visible.Bounded.{IsClock, visible_write_ends}
use team_flow.Tools.Execute.{
  Call, Outcome, execute_existing_action, run_action, check_current, decide, carry_out,
  delivered_patch, reread, pass_gate, write, report,
}
use team_flow.Tools.Execute.Overwrites.{Unwritten}
use team_flow.Tools.Execute.Writes.{Carried, execute_existing_action_writes}
use team_flow.Tools.Execute.Retried.{recognised, execute_existing_action_retry}
use team_flow.Examples.Actions.{claim_prepared, claim_known, claimed_actor}
use team_flow.Tools.Actions.{NewTask, create_task}
use team_flow.Tools.Actions.Created.{Uncreated, Creates, create_task_writes}
use team_flow.Examples.General.{claim_rule, claim_patch, executor, owner, general, ready_card}
use team_flow.Examples.Delivering.{git, files, json, candidate}

-- The time, and the card.
abbrev Board : Type 0
Board = ℕ × Task

abbrev world : World Board
world = record {
  get_lark_task = λ record_id s. (some s.1, s);
  upsert_lark_task = λ record_id patch s. (some (update s.1 patch), (s.0, update s.1 patch));
  sleep = λ delay s. (s.0 + delay, s.1);
  monotonic = λ s. s.0;
  git = λ s. git;
  version_control_enabled = λ s. some true;
  files = files;
  json = json;
}

world-IsClock : IsClock world
world-IsClock = record { sleeps = λ delay s. omega arith; reads = λ record_id s. omega arith }

abbrev mode_card : Task
mode_card = ("record_id", text "rec-1") ∷ ("delivery_mode", text "standard") ∷ ready_card

abbrev claim_call : Call
claim_call = record {
  action_key = "claim";
  record_id = "rec-1";
  payload = [];
  variant = none;
  delivery = no_delivery;
  confirmed = true;
  runtime_facts = [];
  current_task = some mode_card;
}

abbrev after_claim : Outcome × Board
after_claim = execute_existing_action world executor general claim_call (0, mode_card)

named : (strip "rec-1" == "") ≡ false
unfolding Prelude.strip
named = refl

execute_existing_action_writes_example :
    Unwritten world executor general claim_call (0, mode_card) after_claim
    ⊎ Carried world executor general claim_call (strip "rec-1") (0, mode_card) after_claim
execute_existing_action_writes_example =
    execute_existing_action_writes world executor general claim_call (0, mode_card)

-- The claim, once more.
abbrev second_call : Call
second_call = record claim_call { confirmed = false; current_task = none }

execute_existing_action_retry_example :
    (r : Rule) × (execute_existing_action world executor general second_call
        (5, update ready_card claim_patch)
      ≡ (
        recognised world executor general second_call r (update ready_card claim_patch),
        (5, update ready_card claim_patch),
      ))
execute_existing_action_retry_example =
    execute_existing_action_retry world executor general second_call ready_card []
      (record { confirmation_required = false; rules = claim_rule ∷ [] }) claim_rule claim_patch
      "in_progress" (5, update ready_card claim_patch) (5, update ready_card claim_patch) refl
      claim_prepared refl refl tt claim_known claimed_actor named refl tt refl

visible_write_ends_example :
    (visible_write world claim_patch mode_card (0, mode_card)).0 ≢ out_of_fuel
visible_write_ends_example =
    visible_write_ends world world-IsClock claim_patch mode_card (0, mode_card)

abbrev new_task : NewTask
new_task = record {
  title = "Write the notes";
  task_type = some "task";
  priority = some "P1";
  role = none;
  description = none;
  context = none;
  acceptance_criteria = none;
  dependencies = none;
  delivery_mode = some "standard";
}

create_task_writes_example :
    let r = create_task world owner general new_task (0, []) in
    Uncreated world owner general (0, []) r ⊎ Creates world owner general new_task (0, []) r
create_task_writes_example = create_task_writes world owner general new_task (0, [])

abbrev given_delivery : Dict Given
given_delivery = ("candidate_sha", record { shown = candidate; members = none }) ∷ []

abbrev candidate_delivery : Delivery
candidate_delivery = record { fields = ("candidate_sha", candidate) ∷ []; resources = none }

normalized :
    normalize_delivery_input files "/work" (supplied given_delivery) ≡ normal candidate_delivery
unfolding normalize_delivery_input normalize_fields normalize_shas normalize_mode
    normalize_resources is_object_id object_id_length Prelude.strip
normalized = refl

normalize_delivery_input-IsClean_example : IsClean given_delivery candidate_delivery
normalize_delivery_input-IsClean_example =
    normalize_delivery_input-IsClean files "/work" given_delivery candidate_delivery normalized

abbrev repository_card : Task
repository_card = ("delivery_mode", text "repository") ∷ ready_card

abbrev recorded_patch : Dict Value
recorded_patch =
    ("candidate_sha", text candidate)
    ∷ ("target_branch", text "main")
    ∷ ("base_sha", text candidate)
    ∷ []

recorded_claim :
    apply_delivery git files json true "/work" general claim_rule [] "claim" repository_card
      candidate_delivery
    ≡ applied recorded_patch
unfolding apply_delivery resolve_transition_mode mode_of as_text Prelude.strip
    reject_repository_only_input Prelude.sorted_set verify_supplied_shas ensure_repository
    confirm_commits missing_commits commit_exists is_object_id object_id_length names_commit
    record_shas record_resources claim_baseline branch_sha
recorded_claim = refl

apply_delivery-Recorded_example :
    (mode : Option String) × (resolve_transition_mode true general repository_card none
        (some "in_progress")
        "claim"
      ≡ chosen mode)
    × Recorded git "/work" "/work" [] "claim" repository_card candidate_delivery mode recorded_patch
apply_delivery-Recorded_example =
    apply_delivery-Recorded git files json true "/work" general claim_rule [] "claim"
      repository_card candidate_delivery tt recorded_claim

claimed : after_claim.1 ≡ (0, update mode_card claim_patch)
unfolding execute_existing_action run_action check_current decide carry_out delivered_patch reread
    pass_gate write report visible_write fields_eq same_value value_eq normalize_delivery_input
    prepare_existing_action prepare_action choose choose_source choose_actor choose_writable
    choose_rule prepare_rule matching_applied_rule match_reached match_unmoved may_have_applied
    has_reached rule_actor_allowed actors_allowed in_scope actor_matches rule_values_allowed
    values_allowed validate_rule validate_patch action_patch add_prefixes bind_actor set_status
    assignment_get invalid_payload invalid_option_values invalid_options task_option_definitions
    blank required_task_fields dedupe Prelude.is_blank Prelude.strip apply_delivery
    resolve_transition_mode mode_of as_text reject_repository_only_input Prelude.sorted_set
    verify_supplied_shas record_shas record_resources claim_baseline completion_failure
claimed = refl
