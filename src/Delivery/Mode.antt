-- ===== src/Delivery/Mode.antt =====
-- core/delivery.py, `mode_of` to `resolve_transition_mode`: how a task's delivery mode is chosen.
-- `enabled` is the workspace's version_control switch, which is read from a file.
pub mod Locks
use team_flow.Prelude.{
  String, Bool, true, false, not, ◌&&◌, ◌||◌, Option, none, some, List, [], ◌∷◌, ◌==◌, elem, strip,
  is_some, if◌then◌else◌,
}
use team_flow.Workflow.Value.{get}
use team_flow.Workflow.Repr.{as_text}
use team_flow.Workflow.Definition.{Definition, Task, delivery_modes}

-- A result or the ValueError; its prose is left out.
pub data ModeFault : Type 0 where
  unreadable_mode invalid_mode version_control_disabled mode_locked mode_unset : ModeFault

pub data Mode (A : Type 0) : Type 0 where
  chosen : A → Mode A
  value_error : ModeFault → Mode A

unfoldable pub mode_of : Task → String
mode_of task = strip (as_text (get task "delivery_mode"))

-- str(requested or "").strip()
abbrev pub requested_mode : Option String → String
requested_mode none = ""
requested_mode (some s) = strip s

unfoldable pub resolve_create_mode : Bool → Option String → Mode String
resolve_create_mode enabled requested =
    let mode = requested_mode requested in
    if mode == ""
    then chosen (if enabled then "" else "standard")
    else if not (elem mode delivery_modes)
    then value_error invalid_mode
    else if mode == "repository" && not enabled
    then value_error version_control_disabled
    else chosen mode

abbrev pub in_initial : Definition → Task → Bool
in_initial d task = as_text (get task "status") == d.lifecycle.initial_state

abbrev pub carries_forward : String → Option String → Bool
carries_forward action_key target_state = not (action_key == "cancel") && is_some target_state

unfoldable pub resolve_transition_mode :
    Bool → Definition → Task → Option String → Option String → String → Mode (Option String)
resolve_transition_mode enabled d task request target_state action_key =
    let current = mode_of task in
    let requested = requested_mode request in
    if not (current == "")
      && not (elem current delivery_modes)
      && carries_forward action_key target_state
    then value_error unreadable_mode
    else if not (requested == "")
    then if not (elem requested delivery_modes)
      then value_error invalid_mode
      else if requested == "repository" && not enabled && not (current == "repository")
      then value_error version_control_disabled
      else if not (current == "") && not (current == requested) && not (in_initial d task)
      then value_error mode_locked
      else chosen (if requested == current then none else some requested)
    else if not (current == "")
    then chosen none
    else if not enabled
    then chosen (some "standard")
    else if carries_forward action_key target_state
    then value_error mode_unset
    else chosen none
