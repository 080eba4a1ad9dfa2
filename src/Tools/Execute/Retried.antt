-- ===== src/Tools/Execute/Retried.antt =====
-- core/teamflow_tools.py, `_execute_existing_action` once more, for an action that has been applied.
use team_flow.Prelude.{
  ◌≡◌, ◌∙◌, ap, refl, String, true, false, Option, none, some, List, [], Memᴰ, ◌==◌, is_some, strip,
  keys, Distinct, Dict, lookup, update,
}
use team_flow.Workflow.Value.{Value}
use team_flow.Workflow.Definition.{Rule, Action, Definition, Assignment, Task}
use team_flow.Workflow.Contract.{rule_actor_allowed}
use team_flow.Workflow.Rules.{action_patch}
use team_flow.Workflow.Responses.{action_success}
use team_flow.Workflow.Lifecycle.{prepared, prepare_existing_action}
use team_flow.Workflow.Lifecycle.Retry.{prepare_existing_action-retry}
use team_flow.Delivery.Input.{no_delivery, normalize_delivery_input}
use team_flow.Tools.World.{World}
use team_flow.Tools.Execute.{
  Outcome, answered, exception, succeeded, Call, carry_out, decide, check_current, run_action,
  execute_existing_action,
}
use team_flow.Tools.Execute.Writes.{AsSeen}

module _ {S : Type 0} (w : World S) (a : Assignment) (d : Definition) (call : Call) where
  -- The answer that the result is there already.
  abbrev pub recognised : Rule → Task → Outcome
  recognised rule task =
      answered (succeeded (action_success a d call.action_key rule (some task) task true))

  decide-recognised :
      (record_id : String) (task : Task) (rule : Rule) (s : S)
      → call.delivery ≡ no_delivery
      → prepare_existing_action a d call.action_key task call.payload call.variant
          call.runtime_facts call.confirmed
        ≡ prepared rule [] true
      → decide w a d call record_id task s ≡ (recognised rule task, s)
  unfolding decide carry_out normalize_delivery_input
  decide-recognised record_id task rule s e h = rw (e, decide) (rw (h, carry_out) refl)

  check_current_seen :
      (record_id : String) (seen : Option Task) (task : Task) (s : S)
      → AsSeen seen task
      → check_current w a d call record_id seen task s ≡ decide w a d call record_id task s
  unfolding check_current
  check_current_seen record_id none task s same = refl
  check_current_seen record_id (some current) task s same = rw (same, check_current) refl

  run_recognised :
      (task : Task) (rule : Rule) (s t : S)
      → (strip call.record_id == "") ≡ false
      → w.get_lark_task (strip call.record_id) s ≡ (some task, t)
      → AsSeen call.current_task task
      → call.delivery ≡ no_delivery
      → prepare_existing_action a d call.action_key task call.payload call.variant
          call.runtime_facts call.confirmed
        ≡ prepared rule [] true
      → execute_existing_action w a d call s ≡ (recognised rule task, t)
  unfolding execute_existing_action run_action
  run_recognised task rule s t named looked seen e h =
      rw (named, execute_existing_action)
        (ap
            (λ (m : Option Task × S). elim m.0 [
              | none ↦ (exception, m.1)
              | some x ↦ check_current w a d call (strip call.record_id) call.current_task x m.1
            ])
            looked
          ∙ check_current_seen (strip call.record_id) call.current_task task t seen
          ∙ decide-recognised (strip call.record_id) task rule t e h)

  -- A call of an action that has been let through and written, made once more without a delivery: it
  -- reads the card and succeeds, and writes nothing. The card read is the one with the patch, and
  -- the caller, if it looked at a card, saw that one. The rule must have a target state and still
  -- admit the agent on the changed card, and no rule of the action may ask for an actor field that
  -- an assignment lacks.
  pub execute_existing_action_retry :
      (task : Task) (earlier_facts : List String) (action : Action) (rule : Rule)
      (patch : Dict Value) (state : String) (s t : S)
      → lookup d.lifecycle.actions call.action_key ≡ some action
      → prepare_existing_action a d call.action_key task call.payload call.variant earlier_facts
          call.confirmed
        ≡ prepared rule patch false
      → rule.to ≡ some state
      → (state == "") ≡ false
      → Distinct (keys rule.defaults)
      → ((r : Rule) → Memᴰ r action.rules → is_some (action_patch a r call.payload) ≡ true)
      → rule_actor_allowed a d rule (some (update task patch)) ≡ true
      → (strip call.record_id == "") ≡ false
      → w.get_lark_task (strip call.record_id) s ≡ (some (update task patch), t)
      → AsSeen call.current_task (update task patch)
      → call.delivery ≡ no_delivery
      → (r : Rule) × (execute_existing_action w a d call s ≡ (recognised r (update task patch), t))
  execute_existing_action_retry task earlier_facts action rule patch state s t i h to named u known
        actor id looked seen e =
      let (r, again) =
        prepare_existing_action-retry a d call.action_key task call.payload call.variant
          earlier_facts call.runtime_facts call.confirmed action rule patch state i h to named u
          known actor in
      (r, run_recognised (update task patch) r s t id looked seen e again)
