-- ===== src/Tools/Listing.antt =====
-- core/teamflow_tools.py, `list_tasks` and `_board_tasks`: the coordinator reads the board page by
-- page. The board is the parameter `list_lark_tasks`, from an offset to at most 200 cards and whether
-- there are more, and does not change while it is read; `tasks` are its cards. `casefold` is Python's.
-- The message prose is left out.
pub mod Window
pub mod Pages
use team_flow.Prelude.{
  ℕ, zero, suc, ◌+◌, String, Bool, true, false, not, ◌&&◌, ◌||◌, Option, none, some, List, [], ◌∷◌,
  map, ◌++◌, length, is_empty, ◌==◌, elem, strip, leb, ltb, nat_beq, is_some, if◌then◌else◌, Dict,
}
use team_flow.Workflow.Value.{Value, get, value_is}
use team_flow.Workflow.Repr.{as_text}
use team_flow.Workflow.Definition.{State, Role, Definition, Assignment, Task}

abbrev pub Pages : Type 0
Pages = ℕ → List Task × Bool

-- The generator's cards, or `none` where the fuel runs out.
unfoldable pub board_tasks : Pages → ℕ → ℕ → Option (List Task)
board_tasks list_lark_tasks zero source_offset = none
board_tasks list_lark_tasks (suc fuel) source_offset =
    let (tasks, has_more) = list_lark_tasks source_offset in
    let rest = board_tasks list_lark_tasks fuel (source_offset + length tasks) in
    if not has_more || is_empty tasks
    then some tasks
    else elim rest [ none ↦ none | some later ↦ some (tasks ++ later) ]

-- An integer argument.
pub data Number : Type 0 where
  natural : ℕ → Number
  negative : ℕ → Number

pub data ReadError : Type 0 where
  coordinator_required : String → String → ReadError
  invalid_status : List String → String → ReadError
  invalid_role : List String → String → ReadError
  invalid_pagination : Number → Number → ReadError

pub record Listing : Type 0 where
  pub tasks : List Task
  pub has_more : Bool

pub data ListAnswer : Type 0 where
  read_error : ReadError → ListAnswer
  listed : Listing → ListAnswer

-- str(value or "").strip() or None
unfoldable pub filter_text : Option String → Option String
filter_text none = none
filter_text (some s) = if strip s == "" then none else some (strip s)

abbrev pub summary_fields : List String
summary_fields =
    "record_id" ∷ "task_id" ∷ "title" ∷ "priority" ∷ "type" ∷ "status" ∷ "role" ∷ "agent"
    ∷ "agent_id" ∷ "delivery_mode" ∷ []

unfoldable pub task_summary : Task → Task
task_summary task = map (λ (f : String). (f, get task f)) summary_fields

unfoldable pub same_task_id : (String → String) → Value → String → Bool
same_task_id casefold value expected = casefold (strip (as_text value)) == casefold (strip expected)

-- No filter, or one that the text passes.
abbrev pub passes : (String → Bool) → Option String → Bool
passes test none = true
passes test (some s) = test s

unfoldable pub is_wanted :
    (String → String) → Option String → Option String → Option String → Task → Bool
is_wanted casefold status role task_id task =
    passes (λ s. value_is (get task "status") s) status
    && passes (λ s. value_is (get task "role") s) role
    && passes (λ s. same_task_id casefold (get task "task_id") s) task_id

module _ (wanted : Task → Bool) (limit offset : ℕ) where
  -- The loop, with what has been skipped and how many cards have been taken.
  unfoldable pub list_from : ℕ → ℕ → List Task → Listing
  list_from skipped count [] = record { tasks = []; has_more = false }
  list_from skipped count (task ∷ tasks) = elim (wanted task) [
    | false ↦ list_from skipped count tasks
    | true ↦ elim (ltb skipped offset) [
      | true ↦ list_from (suc skipped) count tasks
      | false ↦ elim (nat_beq count limit) [
        | true ↦ record { tasks = []; has_more = true }
        | false ↦
            let rest = list_from skipped (suc count) tasks in
            record { tasks = task_summary task ∷ rest.tasks; has_more = rest.has_more }
      ]
    ]
  ]

-- 1 <= limit <= 200
abbrev pub fits_limit : Number → Bool
fits_limit (natural n) = leb 1 n && leb n 200
fits_limit (negative n) = false

unfoldable pub list_page : (Task → Bool) → Number → Number → List Task → ListAnswer
list_page wanted (natural limit) (natural offset) tasks =
    if not (fits_limit (natural limit))
    then read_error (invalid_pagination (natural limit) (natural offset))
    else listed (list_from wanted limit offset 0 0 tasks)
list_page wanted limit offset tasks = read_error (invalid_pagination limit offset)

-- The filter names none of the allowed values.
abbrev pub unknown_filter : Option String → List String → Option String
unknown_filter none values = none
unknown_filter (some s) values = if elem s values then none else some s

abbrev pub state_keys : Definition → List String
state_keys d = map (λ (s : State). s.key) d.lifecycle.states

abbrev pub role_keys : Definition → List String
role_keys d = map (λ (r : Role). r.key) d.roles

unfoldable pub list_tasks :
    (String → String)
    → Assignment
    → Definition
    → Option String
    → Option String
    → Option String
    → Number
    → Number
    → List Task
    → ListAnswer
list_tasks casefold a d status role task_id limit offset tasks =
    if not (a.role_key == d.coordinator_role)
    then read_error (coordinator_required d.coordinator_role a.role_key)
    else elim (unknown_filter (filter_text status) (state_keys d)) [
      | some s ↦ read_error (invalid_status (state_keys d) s)
      | none ↦ elim (unknown_filter (filter_text role) (role_keys d)) [
        | some r ↦ read_error (invalid_role (role_keys d) r)
        | none ↦
            list_page
              (is_wanted casefold (filter_text status) (filter_text role) (filter_text task_id))
              limit offset tasks
      ]
    ]
