-- ===== src/Tools/Actions.antt =====
-- core/teamflow_tools.py, `create_task` to `cancel_task`: the tools that change cards. The invocation
-- id only marks the write for the board and is left out.
pub mod Created
use team_flow.Prelude.{
  String, Bool, true, false, not, ◌&&◌, Option, none, some, List, [], ◌∷◌, ◌==◌, is_empty,
  if◌then◌else◌, Dict, put,
}
use team_flow.Workflow.Value.{Value, null, text}
use team_flow.Workflow.Definition.{Rule, Definition, Assignment, Task}
use team_flow.Workflow.Responses.{
  input_error, fields_required, invalid_delivery_mode, given, names, write_not_visible_error,
  action_success,
}
use team_flow.Workflow.Lifecycle.{
  Prepared, prepared, failed, raises, prepare_create_action, provided_fields,
}
use team_flow.Delivery.Mode.{Mode, chosen, value_error, resolve_create_mode}
use team_flow.Delivery.Input.{DeliveryInput, no_delivery, not_an_object, supplied}
use team_flow.Tools.World.{World}
use team_flow.Tools.Visible.{Visible, seen, read_raised, out_of_fuel, visible_write}
use team_flow.Tools.Execute.{
  refused, succeeded, Outcome, answered, exception, unfinished, Call, execute_existing_action,
}

-- An argument that may be None.
abbrev pub optional : Option String → Value
optional none = null
optional (some s) = text s

-- The arguments of `create_task`.
pub record NewTask : Type 0 where
  pub title : String
  pub task_type : Option String
  pub priority : Option String
  pub role : Option String
  pub description : Option String
  pub context : Option String
  pub acceptance_criteria : Option String
  pub dependencies : Option String
  pub delivery_mode : Option String

unfoldable pub create_payload : NewTask → Dict Value
create_payload n =
    ("title", text n.title)
    ∷ ("type", optional n.task_type)
    ∷ ("priority", optional n.priority)
    ∷ ("role", optional n.role)
    ∷ ("description", optional n.description)
    ∷ ("context", optional n.context)
    ∷ ("acceptance_criteria", optional n.acceptance_criteria)
    ∷ ("dependencies", optional n.dependencies)
    ∷ []

-- if mode: prepared["patch"]["delivery_mode"] = mode
abbrev pub with_mode : Dict Value → String → Dict Value
with_mode patch mode = if mode == "" then patch else put patch "delivery_mode" (text mode)

-- The mode of a new card, or the ValueError.
unfoldable pub create_mode : Option Bool → Option String → Option String
create_mode none requested = none
create_mode (some enabled) requested = elim (resolve_create_mode enabled requested) [
  | value_error e ↦ none
  | chosen mode ↦ some mode
]

-- not delivery, where an input that is no object is taken to be a nonempty one
abbrev pub gives_nothing : DeliveryInput → Bool
gives_nothing no_delivery = true
gives_nothing not_an_object = false
gives_nothing (supplied d) = is_empty d

-- fields if isinstance(fields, dict) else {}
abbrev pub fields_or_empty : Option (Dict Value) → Dict Value
fields_or_empty none = []
fields_or_empty (some fields) = fields

module _ {S : Type 0} (w : World S) (a : Assignment) (d : Definition) where
  unfoldable pub report_created : Rule → Dict Value → Visible × S → Outcome × S
  report_created rule patch (visible, s) = elim visible [
    | read_raised ↦ (exception, s)
    | out_of_fuel ↦ (unfinished, s)
    | seen written shown ↦ (
      answered (
          if shown
          then succeeded (action_success a d "create" rule none written false)
          else refused (write_not_visible_error a d "create" none patch written)),
      s,
    )
  ]

  unfoldable pub create_card : Rule → Dict Value → S → Outcome × S
  create_card rule patch s =
      let (answer, t) = w.upsert_lark_task none patch s in
      elim answer [
        | none ↦ (exception, t)
        | some written ↦ report_created rule patch (visible_write w patch written t)
      ]

  unfoldable pub create_prepared : Prepared → String → S → Outcome × S
  create_prepared (failed e) mode s = (answered (refused e), s)
  create_prepared raises mode s = (exception, s)
  create_prepared (prepared rule patch already_applied) mode s =
      create_card rule (with_mode patch mode) s

  unfoldable pub create_task : NewTask → S → Outcome × S
  create_task n s = elim (create_mode (w.version_control_enabled s) n.delivery_mode) [
    | none ↦ (answered (refused (input_error a d "create" invalid_delivery_mode given)), s)
    | some mode ↦ create_prepared (prepare_create_action a d (create_payload n)) mode s
  ]

  unfoldable pub update_task : String → Option (Dict Value) → DeliveryInput → S → Outcome × S
  update_task record_id fields delivery s =
      if is_empty (fields_or_empty fields) && gives_nothing delivery
      then (
        answered (
            refused (
              input_error a d "update" fields_required
                (names (("required", "fields" ∷ "delivery" ∷ []) ∷ [])))),
        s,
      )
      else execute_existing_action w a d
          (record {
            action_key = "update";
            record_id = record_id;
            payload = fields_or_empty fields;
            variant = none;
            delivery = delivery;
            confirmed = true;
            runtime_facts = [];
            current_task = none;
          })
          s

  unfoldable pub route_task : String → String → List String → Option Task → S → Outcome × S
  route_task record_id role runtime_facts current_task = execute_existing_action w a d (record {
    action_key = "route";
    record_id = record_id;
    payload = ("role", text role) ∷ [];
    variant = none;
    delivery = no_delivery;
    confirmed = true;
    runtime_facts = runtime_facts;
    current_task = current_task;
  })

  unfoldable pub claim_task : String → S → Outcome × S
  claim_task record_id = execute_existing_action w a d (record {
    action_key = "claim";
    record_id = record_id;
    payload = [];
    variant = none;
    delivery = no_delivery;
    confirmed = true;
    runtime_facts = [];
    current_task = none;
  })

  unfoldable pub submit_task :
      String → String → String → Option String → Option String → DeliveryInput → S → Outcome × S
  submit_task record_id outcome result_evidence progress next_action delivery =
      execute_existing_action w a d (record {
        action_key = "submit";
        record_id = record_id;
        payload = provided_fields (
            ("result_evidence", text result_evidence)
            ∷ ("progress", optional progress)
            ∷ ("next_action", optional next_action)
            ∷ []);
        variant = some outcome;
        delivery = delivery;
        confirmed = true;
        runtime_facts = [];
        current_task = none;
      })

  unfoldable pub block_task : String → String → String → String → Option String → S → Outcome × S
  block_task record_id waiting_on blocked_reason next_action progress =
      execute_existing_action w a d (record {
        action_key = "block";
        record_id = record_id;
        payload = provided_fields (
            ("waiting_on", text waiting_on)
            ∷ ("blocked_reason", text blocked_reason)
            ∷ ("next_action", text next_action)
            ∷ ("progress", optional progress)
            ∷ []);
        variant = none;
        delivery = no_delivery;
        confirmed = true;
        runtime_facts = [];
        current_task = none;
      })

  unfoldable pub review_task :
      String → String → String → Option String → Option String → S → Outcome × S
  review_task record_id decision result_evidence role next_action =
      execute_existing_action w a d (record {
        action_key = "review";
        record_id = record_id;
        payload = provided_fields (
            ("result_evidence", text result_evidence)
            ∷ ("role", optional role)
            ∷ ("next_action", optional next_action)
            ∷ []);
        variant = some decision;
        delivery = no_delivery;
        confirmed = true;
        runtime_facts = [];
        current_task = none;
      })

  unfoldable pub cancel_task : String → String → Bool → List String → Option Task → S → Outcome × S
  cancel_task record_id result_evidence confirmed runtime_facts current_task =
      execute_existing_action w a d (record {
        action_key = "cancel";
        record_id = record_id;
        payload = ("result_evidence", text result_evidence) ∷ [];
        variant = none;
        delivery = no_delivery;
        confirmed = confirmed;
        runtime_facts = runtime_facts;
        current_task = current_task;
      })
