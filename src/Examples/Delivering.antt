-- ===== src/Examples/Delivering.antt =====
-- A repository of two commits, and a card that is delivered through it.
use team_flow.Prelude.{
  ℕ, String, ◌≡◌, refl, Bool, true, false, Option, none, some, List, [], ◌∷◌, ◌==◌, elem,
  if◌then◌else◌, Dict, update,
}
use team_flow.Prelude
use team_flow.Workflow.Value.{Value, text}
use team_flow.Workflow.Repr.{as_text}
use team_flow.Workflow.Definition.{Task}
use team_flow.Delivery.Git.{
  Git, known, is_object_id, ensure_repository, object_id_length, names_commit, commit_exists,
  branch_sha, branch_exists, is_ancestor, fast_forwarded_to, chain_forward, worktree_paths,
  stripped_lines, splitlines,
}
use team_flow.Delivery.Git.History.{Promoted, fast_forwarded_to-Promoted}
use team_flow.Delivery.Mode.{chosen, mode_of, in_initial, resolve_transition_mode}
use team_flow.Delivery.Mode.Locks.{
  mode_after, resolve_transition_mode-locked, resolve_transition_mode-known,
  resolve_transition_mode-disabled,
}
use team_flow.Delivery.Resources.{
  Json, json_object, array, item, Resources, parsed, parse_resources, append_resources,
  parse_members, parse_kind, strip_items,
}
use team_flow.Delivery.Resources.Appends.{Grown, append_resources-grows}
use team_flow.Delivery.Gate.{
  Files, completion_failure, probe, gate_of, check_sha, check_shas, check_base, check_target,
  live_branches, live_worktrees, is_live, worktree_location, parsed_or_none, disagreement,
}
use team_flow.Delivery.Gate.Delivered.{Delivered, completion_failure-Delivered}
use team_flow.Examples.General.{general}

abbrev pub candidate : String
candidate = "aaaaaaaaaaaaaaaaaaaaaaaaaaaaaaaaaaaaaaaa"

abbrev base : String
base = "bbbbbbbbbbbbbbbbbbbbbbbbbbbbbbbbbbbbbbbb"

abbrev second : List String → String
second [] = ""
second (x ∷ []) = ""
second (x ∷ y ∷ rest) = y

abbrev answer : ℕ → String → Option (ℕ × String)
answer code output = some (code, output)

abbrev git_answer : String → String → Option (ℕ × String)
git_answer command option =
    if command == "rev-parse"
    then if option == "--git-dir"
      then answer 0 ".git\n"
      else if option == "--show-object-format"
      then answer 0 "sha1\n"
      else answer 0 "aaaaaaaaaaaaaaaaaaaaaaaaaaaaaaaaaaaaaaaa\n"
    else if command == "cat-file"
    then answer 0 "commit\n"
    else if command == "merge-base"
    then answer 0 ""
    else if command == "reflog"
    then answer 0
        "aaaaaaaaaaaaaaaaaaaaaaaaaaaaaaaaaaaaaaaa\nbbbbbbbbbbbbbbbbbbbbbbbbbbbbbbbbbbbbbbbb\n"
    else if command == "show-ref"
    then answer 1 ""
    else answer 0 "worktree /work"

abbrev pub git : Git
git repo [] = none
git repo (command ∷ options) = git_answer command (second (command ∷ options))

abbrev pub files : Files
files = record {
  expanduser = λ path. path;
  is_absolute = λ path. true;
  join = λ root path. path;
  resolve = λ path. path;
  exists = λ path. false;
}

abbrev pub json : Json
json = record {
  loads = λ raw. some (json_object (("branches", array (item " task-1 " ∷ [])) ∷ []));
  dumps = λ r. "{}";
}

abbrev delivered_card : Task
delivered_card =
    ("status", text "in_progress")
    ∷ ("delivery_mode", text "repository")
    ∷ ("candidate_sha", text candidate)
    ∷ ("verified_sha", text candidate)
    ∷ ("promoted_sha", text candidate)
    ∷ ("base_sha", text base)
    ∷ ("delivery_resources", text "{\"branches\": [\" task-1 \"]}")
    ∷ []

abbrev completion : Dict Value
completion = ("status", text "canceled") ∷ []

passes : completion_failure git files json "/work" general delivered_card completion ≡ none
unfolding completion_failure mode_of as_text gate_of probe ensure_repository check_shas check_sha
    commit_exists is_object_id object_id_length names_commit Prelude.strip check_base is_ancestor
    branch_sha check_target fast_forwarded_to chain_forward parse_resources Prelude.is_blank
    parse_members parse_kind strip_items parsed_or_none live_branches branch_exists worktree_paths
    live_worktrees is_live worktree_location disagreement
passes = refl

completing : elem (as_text (text "canceled")) ("canceled" ∷ []) ≡ true
unfolding as_text
completing = refl

in_repository : mode_of (update delivered_card completion) ≡ "repository"
unfolding mode_of as_text Prelude.strip
in_repository = refl

completion_failure-Delivered_example :
    Delivered git files json "/work" (update delivered_card completion)
completion_failure-Delivered_example =
    completion_failure-Delivered git files json "/work" general delivered_card completion passes
      completing in_repository

forwarded : fast_forwarded_to git "/work" "main" candidate ≡ known true
unfolding fast_forwarded_to chain_forward is_ancestor Prelude.strip
forwarded = refl

fast_forwarded_to-Promoted_example :
    (output : String) × (git "/work"
        ("reflog" ∷ "show" ∷ "--no-abbrev" ∷ "--format=%H" ∷ "refs/heads/main" ∷ [])
      ≡ some (0, output))
    × Promoted git "/work" candidate (stripped_lines (splitlines output))
fast_forwarded_to-Promoted_example =
    fast_forwarded_to-Promoted git "/work" "main" candidate forwarded

read_resources :
    parse_resources json "{}" ≡ parsed (record { branches = "task-1" ∷ []; worktrees = [] })
unfolding parse_resources Prelude.is_blank parse_members parse_kind strip_items Prelude.strip
read_resources = refl

append_resources-grows_example :
    (after : Resources) × (append_resources json "{}"
        (record { branches = "task-2" ∷ []; worktrees = [] })
      ≡ parsed (json.dumps after))
    × Grown ("task-1" ∷ []) ("task-2" ∷ []) after.branches
    × Grown [] [] after.worktrees
append_resources-grows_example =
    append_resources-grows json "{}" (record { branches = "task-1" ∷ []; worktrees = [] })
      (record { branches = "task-2" ∷ []; worktrees = [] }) read_resources

abbrev locked_card : Task
locked_card = ("status", text "in_progress") ∷ ("delivery_mode", text "repository") ∷ []

unchanged :
    resolve_transition_mode false general locked_card (some "repository") (some "canceled") "review"
    ≡ chosen none
unfolding resolve_transition_mode mode_of as_text Prelude.strip
unchanged = refl

locked_mode : mode_of locked_card ≡ "repository"
unfolding mode_of as_text Prelude.strip
locked_mode = refl

is_set : (mode_of locked_card == "") ≡ false
is_set = rw locked_mode refl

has_left : in_initial general locked_card ≡ false
unfolding as_text
has_left = refl

resolve_transition_mode-locked_example : ◌≡◌ {A = Option String} none none
resolve_transition_mode-locked_example =
    resolve_transition_mode-locked false general locked_card (some "repository") (some "canceled")
      "review" unchanged is_set has_left

resolve_transition_mode-known_example :
    elem (mode_after locked_card none) ("standard" ∷ "repository" ∷ []) ≡ true
resolve_transition_mode-known_example =
    resolve_transition_mode-known general locked_card (some "repository") (some "canceled") "review"
      false unchanged refl

resolve_transition_mode-disabled_example : mode_of locked_card ≡ "repository"
resolve_transition_mode-disabled_example =
    resolve_transition_mode-disabled general locked_card (some "repository") (some "canceled")
      "review" unchanged locked_mode
