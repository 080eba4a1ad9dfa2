-- ===== src/Tools/Execute.antt =====
-- core/teamflow_tools.py, `_execute_existing_action` and the tools that call it: the whole path of an
-- action on a card, from the first read of the board to the answer. The board, git and the clock are
-- the parameter `w`, whose state every step hands on.
pub mod Overwrites
pub mod Writes
pub mod Retried
use team_flow.Prelude.{
  String, Bool, true, false, not, ◌&&◌, Option, none, some, List, [], ◌∷◌, ◌==◌, strip, is_empty,
  if◌then◌else◌, Dict,
}
use team_flow.Workflow.Value.{Value, text, fields_eq}
use team_flow.Workflow.Definition.{Rule, Definition, Assignment, Task}
use team_flow.Workflow.Responses.{
  WorkflowError, Success, input_error, invalid_delivery, given, fields_required, names,
  task_changed_error, write_not_visible_error, delivery_incomplete_error, action_success,
}
use team_flow.Workflow.Lifecycle.{
  Prepared, prepared, failed, raises, prepare_existing_action, provided_fields,
}
use team_flow.Delivery.Input.{
  DeliveryInput, no_delivery, not_an_object, supplied, Delivery, normal, input_fault,
  normalize_delivery_input,
}
use team_flow.Delivery.Apply.{
  Applied, applied, mode_error, repository_only, unknown_commits, git_unconfirmed, bad_resources,
  no_target_branch, git_raised, apply_delivery,
}
use team_flow.Delivery.Gate.{completion_failure}
use team_flow.Tools.World.{World}
use team_flow.Tools.Visible.{Visible, seen, read_raised, out_of_fuel, visible_write}

-- `ok` is false or true.
pub data Answer : Type 0 where
  refused : WorkflowError → Answer
  succeeded : Success → Answer

-- An answer; an exception that goes to the caller; or a wait that ran out of fuel.
pub data Outcome : Type 0 where
  answered : Answer → Outcome
  exception : Outcome
  unfinished : Outcome

-- What a call of `_execute_existing_action` is given besides the assignment. `current_task` is the
-- card that the caller looked at.
pub record Call : Type 0 where
  pub action_key : String
  pub record_id : String
  pub payload : Dict Value
  pub variant : Option String
  pub delivery : DeliveryInput
  pub confirmed : Bool
  pub runtime_facts : List String
  pub current_task : Option Task

-- Every failure of `_apply_delivery` is a ValueError.
abbrev pub applied_or_none : {A : Type 0} → Applied A → Option A
applied_or_none (applied a) = some a
applied_or_none (mode_error e) = none
applied_or_none (repository_only e) = none
applied_or_none (unknown_commits e) = none
applied_or_none git_unconfirmed = none
applied_or_none bad_resources = none
applied_or_none no_target_branch = none
applied_or_none git_raised = none

-- not delivery
abbrev pub says_nothing : Delivery → Bool
says_nothing delivery =
    is_empty delivery.fields && elim delivery.resources [ none ↦ true | some r ↦ false ]

module _ {S : Type 0} (w : World S) (a : Assignment) (d : Definition) (call : Call) where
  -- The patch with what the delivery adds, or the ValueError.
  unfoldable pub delivered_patch : S → Rule → Dict Value → Task → Delivery → Option (Dict Value)
  delivered_patch s rule patch task delivery = elim (w.version_control_enabled s) [
    | none ↦ none
    | some enabled ↦ applied_or_none (
        apply_delivery (w.git s) w.files w.json enabled a.workspace_root d rule patch
          call.action_key task delivery)
  ]

  abbrev pub refuse_delivery : WorkflowError
  refuse_delivery = input_error a d call.action_key invalid_delivery given

  unfoldable pub report : Rule → Dict Value → Task → Visible × S → Outcome × S
  report rule patch task (visible, s) = elim visible [
    | read_raised ↦ (exception, s)
    | out_of_fuel ↦ (unfinished, s)
    | seen written shown ↦ (
      answered (
          if shown
          then succeeded (action_success a d call.action_key rule (some task) written false)
          else refused (write_not_visible_error a d call.action_key call.variant patch written)),
      s,
    )
  ]

  module _ (record_id : String) where
    unfoldable pub write : Rule → Dict Value → Task → S → Outcome × S
    write rule patch task s =
        let (answer, t) = w.upsert_lark_task (some record_id) patch s in
        elim answer [
          | none ↦ (exception, t)
          | some written ↦ report rule patch task (visible_write w patch written t)
        ]

    unfoldable pub pass_gate : Rule → Dict Value → Task → Task → S → Outcome × S
    pass_gate rule patch task latest s =
        elim (completion_failure (w.git s) w.files w.json a.workspace_root d latest patch) [
          | some blocked ↦ (
            answered (
                refused
                  (delivery_incomplete_error a d call.action_key call.variant latest blocked)),
            s,
          )
          | none ↦ write rule patch task s
        ]

    unfoldable pub reread : Rule → Dict Value → Task → S → Outcome × S
    reread rule patch task s =
        let (answer, t) = w.get_lark_task record_id s in
        elim answer [
          | none ↦ (exception, t)
          | some latest ↦
              if not (fields_eq latest task)
              then (
                answered
                    (refused (task_changed_error a d call.action_key call.variant task latest)),
                t,
              )
              else pass_gate rule patch task latest t
        ]

    unfoldable pub carry_out : Prepared → Delivery → Task → S → Outcome × S
    carry_out (failed e) delivery task s = (answered (refused e), s)
    carry_out raises delivery task s = (exception, s)
    carry_out (prepared rule patch already_applied) delivery task s =
        if already_applied && says_nothing delivery
        then (
          answered (succeeded (action_success a d call.action_key rule (some task) task true)),
          s,
        )
        else elim (delivered_patch s rule patch task delivery) [
          | none ↦ (answered (refused refuse_delivery), s)
          | some whole ↦ reread rule whole task s
        ]

    unfoldable pub decide : Task → S → Outcome × S
    decide task s = elim (normalize_delivery_input w.files a.workspace_root call.delivery) [
      | input_fault e ↦ (answered (refused refuse_delivery), s)
      | normal delivery ↦
          carry_out
            (prepare_existing_action a d call.action_key task call.payload call.variant
              call.runtime_facts call.confirmed)
            delivery task s
    ]

    -- current_task is not None and current_task != task
    unfoldable pub check_current : Option Task → Task → S → Outcome × S
    check_current none task s = decide task s
    check_current (some current) task s =
        if not (fields_eq current task)
        then (
          answered (refused (task_changed_error a d call.action_key call.variant current task)),
          s,
        )
        else decide task s

    unfoldable pub run_action : S → Outcome × S
    run_action s =
        let (answer, t) = w.get_lark_task record_id s in
        elim answer [ none ↦ (exception, t) | some task ↦ check_current call.current_task task t ]

  unfoldable pub execute_existing_action : S → Outcome × S
  execute_existing_action s =
      let record_id = strip call.record_id in
      if record_id == "" then (exception, s) else run_action record_id s
