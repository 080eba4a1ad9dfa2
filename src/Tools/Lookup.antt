-- ===== src/Tools/Lookup.antt =====
-- core/teamflow_tools.py, `get_task`: one card, by its record or by its task id. `get_lark_task` is the
-- board's card of a record, or nothing where reading it raises; `tasks` are the board's cards.
pub mod Unique
use team_flow.Prelude.{
  String, Bool, true, false, not, ◌&&◌, Option, none, some, List, [], ◌∷◌, map, ◌==◌, strip, filter,
  if◌then◌else◌,
}
use team_flow.Workflow.Value.{Value, get}
use team_flow.Workflow.Definition.{Definition, Assignment, Task}
use team_flow.Workflow.Contract.{AvailableAction, available_task_actions}
use team_flow.Tools.Listing.{same_task_id}

pub data Lookup : Type 0 where
  task_reference_required : List String → Lookup
  task_not_found : String → Lookup
  task_id_not_unique : String → List Value → Lookup
  read_raised : Lookup
  found : Task → List AvailableAction → Lookup

-- str(value or "").strip()
abbrev pub reference : Option String → String
reference none = ""
reference (some s) = strip s

-- [key for key, value in … if value]
unfoldable pub provided : String → String → List String
provided record_id task_id =
    let rest : List String = if task_id == "" then [] else "task_id" ∷ [] in
    if record_id == "" then rest else "record_id" ∷ rest

module _ (casefold : String → String) (a : Assignment) (d : Definition)
    (get_lark_task : String → Option Task) (tasks : List Task) where
  abbrev pub found_task : Task → Lookup
  found_task task = found task (available_task_actions a d task)

  abbrev pub matches_of : String → List Task
  matches_of task_id = filter (λ t. same_task_id casefold (get t "task_id") task_id) tasks

  unfoldable pub by_record : String → Lookup
  by_record record_id = elim (get_lark_task record_id) [
    | none ↦ read_raised
    | some task ↦ found_task task
  ]

  unfoldable pub single : String → List Task → Lookup
  single task_id [] = task_not_found task_id
  single task_id (task ∷ []) = found_task task
  single task_id (task ∷ other ∷ rest) =
      task_id_not_unique task_id (map (λ (t : Task). get t "record_id") (task ∷ other ∷ rest))

  unfoldable pub get_task : Option String → Option String → Lookup
  get_task wanted_record wanted_task =
      let record_id = reference wanted_record in
      let task_id = reference wanted_task in
      if record_id == ""
      then if task_id == ""
        then task_reference_required (provided record_id task_id)
        else single task_id (matches_of task_id)
      else if task_id == ""
      then by_record record_id
      else task_reference_required (provided record_id task_id)
