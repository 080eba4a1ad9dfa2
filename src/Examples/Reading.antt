-- ===== src/Examples/Reading.antt =====
-- The owner reads a board of two cards, one card to a page.
use team_flow.Prelude.{
  ℕ, ◌+◌, ◌≡◌, ◌≤◌, refl, String, true, Option, none, some, List, [], ◌∷◌, ltb, length, take, drop,
  filter,
}
use team_flow.Prelude
use team_flow.Workflow.Definition.{Task}
use team_flow.Workflow.Value.{text}
use team_flow.Tools.Listing.{
  Pages, Listing, natural, listed, filter_text, task_summary, is_wanted, same_task_id, list_from,
  list_page, list_tasks, board_tasks,
}
use team_flow.Tools.Listing.Window.{window, list_tasks-window}
use team_flow.Tools.Listing.Pages.{IsBoard, board_tasks-all}
use team_flow.Workflow.Repr.{as_text}
use team_flow.Workflow.Contract.{available_task_actions, runtime_offers, rule_offers, is_offered}
use team_flow.Tools.Lookup.{found, single, get_task}
use team_flow.Tools.Lookup.Unique.{AskedFor, get_task-iff_AskedFor}
use team_flow.Examples.General.{executor, general, owner, ready_card}

abbrev cards : List Task
cards = ready_card ∷ (("status", text "canceled") ∷ []) ∷ ready_card ∷ []

abbrev pages : Pages
pages offset = (take 200 (drop offset cards), ltb (offset + 200) (length cards))

pages-IsBoard : IsBoard cards pages
pages-IsBoard = record { cards = λ offset. refl; more = λ offset. refl }

board_tasks-all_example : board_tasks pages 4 0 ≡ some cards
board_tasks-all_example = board_tasks-all cards pages pages-IsBoard

abbrev same : String → String
same s = s

abbrev first_page : Listing
first_page = record { tasks = task_summary ready_card ∷ []; has_more = true }

reading :
    list_tasks same owner general (some " ready ") none none (natural 1) (natural 0) cards
    ≡ listed first_page
unfolding list_tasks filter_text list_page list_from is_wanted Prelude.strip
reading = refl

list_tasks-window_example :
    ◌≡◌ {A = String} "owner" "owner"
    × (1 ≤ 1)
    × (1 ≤ 200)
    × (first_page
        ≡ window 0 1 (
            filter
              (is_wanted same (filter_text (some " ready ")) (filter_text none) (filter_text none))
              cards))
list_tasks-window_example =
    list_tasks-window same owner general (some " ready ") none none 1 0 cards reading

abbrev numbered_card : Task
numbered_card = ("record_id", text "rec-1") ∷ ("task_id", text "T-1") ∷ []

abbrev no_record : String → Option Task
no_record record_id = none

looked_up :
    get_task same executor general no_record (ready_card ∷ numbered_card ∷ []) none (some "T-1")
    ≡ found numbered_card []
unfolding get_task single same_task_id as_text available_task_actions runtime_offers rule_offers
    is_offered Prelude.strip
looked_up = refl

get_task-iff_AskedFor_example :
    AskedFor same executor general no_record
      (ready_card ∷ numbered_card ∷ [])
      none
      (some "T-1")
      numbered_card
    × ([] ≡ available_task_actions executor general numbered_card)
get_task-iff_AskedFor_example =
    (get_task-iff_AskedFor same executor general no_record (ready_card ∷ numbered_card ∷ []) none
        (some "T-1") numbered_card []).0
      looked_up
