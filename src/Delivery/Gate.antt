-- ===== src/Delivery/Gate.antt =====
-- core/delivery.py, `completion_failure`: the facts about the repository that have to hold before a
-- task delivered through it may enter a completion state. A failure is its `check`; what the
-- answer shows of the current and the expected value is left out. `files` is pathlib, a parameter.
-- The column delivery_resources holds a text or None.
pub mod Delivered
pub mod Holds
use team_flow.Prelude.{
  String, Bool, true, false, not, ◌&&◌, ◌||◌, Option, none, some, List, [], ◌∷◌, ◌++◌, ◌==◌, elem,
  all, nat_beq, length, is_empty, strip, if◌then◌else◌, Dict, lookup, update,
}
use team_flow.Workflow.Value.{Value, get}
use team_flow.Workflow.Repr.{as_text}
use team_flow.Workflow.Definition.{Definition, Task, delivery_modes}
use team_flow.Delivery.Git.{
  Git, Fact, known, git_fact_error, ◌>>=◌, ensure_repository, commit_exists, branch_sha,
  branch_exists, is_ancestor, fast_forwarded_to, worktree_paths,
}
use team_flow.Delivery.Mode.{mode_of}
use team_flow.Delivery.Resources.{
  Json, Resources, Parsed, parsed, invalid, no_resources, parse_resources,
}

pub record Files : Type 0 where
  pub expanduser : String → String
  pub is_absolute : String → Bool
  pub join : String → String → String
  pub resolve : String → String
  pub exists : String → Bool

pub record Gate : Type 0 where
  pub failures : List String
  pub leftover_branches : List String
  pub leftover_worktrees : List String

abbrev pub agent_sha_fields : List String
agent_sha_fields = "candidate_sha" ∷ "verified_sha" ∷ "promoted_sha" ∷ []

unfoldable pub gate_failure : String → Gate
gate_failure check = record {
  failures = check ∷ [];
  leftover_branches = [];
  leftover_worktrees = [];
}

-- str(merged.get(field) or "").strip()
abbrev pub recorded : Task → String → String
recorded merged field = strip (as_text (get merged field))

unfoldable pub worktree_location : Files → String → String → String
worktree_location files repo path =
    let declared = files.expanduser path in
    if files.is_absolute declared
    then files.resolve declared
    else files.resolve (files.join repo declared)

-- The fields that fail and those that are resolved.
abbrev pub Shas : Type 0
Shas = List String × Dict String

abbrev pub same_texts : Dict String → Bool
same_texts [] = true
same_texts ((f, x) ∷ rest) = all (λ (p : String × String). p.1 == x) rest

-- The test that the three commits are one.
unfoldable pub disagreement : Dict String → List String
disagreement resolved =
    if nat_beq (length resolved) 3 && not (same_texts resolved)
    then "verified_candidate" ∷ []
    else []

-- [check] if leftover else []
abbrev pub leftover : String → List String → List String
leftover check [] = []
leftover check (x ∷ xs) = check ∷ []

unfoldable pub parsed_or_none : Parsed Resources → Resources × List String
parsed_or_none (parsed resources) = (resources, [])
parsed_or_none invalid = (no_resources, "delivery_resources" ∷ [])

module _ (git : Git) (files : Files) (json : Json) (repo : String) (merged : Task) where
  unfoldable pub check_sha : String → Fact Shas
  check_sha field =
      let value = recorded merged field in
      if value == "" then known (field ∷ [], []) else do
        found ← commit_exists git repo value
        known (if found then ([], (field, value) ∷ []) else (field ∷ [], []))

  unfoldable pub check_shas : List String → Fact Shas
  check_shas [] = known ([], [])
  check_shas (field ∷ fields) =
      let rest = check_shas fields in
      do
        (failed, resolved) ← check_sha field
        (later, others) ← rest
        known (failed ++ later, resolved ++ others)

  unfoldable pub check_base : Option String → Fact (List String)
  check_base candidate =
      let base = recorded merged "base_sha" in
      if base == "" then known ("base_sha" ∷ []) else do
        found ← commit_exists git repo base
        if not found then known ("base_sha" ∷ []) else elim candidate [
          | none ↦ known []
          | some sha ↦ do
            ancestor ← is_ancestor git repo base sha
            known (if ancestor then [] else "base_ancestry" ∷ [])
        ]

  unfoldable pub check_target : Option String → Option String → Fact (List String)
  check_target none head = known []
  check_target (some sha) none = known ("target_branch" ∷ [])
  check_target (some sha) (some tip) = do
    contained ← is_ancestor git repo sha tip
    if not contained then known ("target_branch" ∷ []) else do
      forward ← fast_forwarded_to git repo "main" sha
      known (if forward then [] else "fast_forward" ∷ [])

  unfoldable pub live_branches : List String → Fact (List String)
  live_branches [] = known []
  live_branches (name ∷ names) =
      let rest = live_branches names in
      do
        found ← branch_exists git repo name
        later ← rest
        known (if found then name ∷ later else later)

  -- _worktree_location(repo, path) in registered or Path(_worktree_location(repo, path)).exists()
  unfoldable pub is_live : List String → String → Bool
  is_live registered path =
      elem (worktree_location files repo path) registered
      || files.exists (worktree_location files repo path)

  unfoldable pub live_worktrees : List String → List String → List String
  live_worktrees registered [] = []
  live_worktrees registered (path ∷ paths) =
      let rest = live_worktrees registered paths in
      if is_live registered path then path ∷ rest else rest

  -- The body of the `try`.
  unfoldable pub probe : Fact Gate
  probe = do
    unit ← ensure_repository git repo
    (failed, resolved) ← check_shas agent_sha_fields
    base ← check_base (lookup resolved "candidate_sha")
    head ← branch_sha git repo "main"
    target ← check_target (lookup resolved "candidate_sha") head
    let declared = parsed_or_none (parse_resources json (as_text (get merged "delivery_resources")))
    branches ← live_branches declared.0.branches
    registered ← worktree_paths git repo files.resolve
    let worktrees = live_worktrees registered declared.0.worktrees
    known (record {
      failures =
          failed
          ++ disagreement resolved
          ++ base
          ++ target
          ++ declared.1
          ++ leftover "declared_branches" branches
          ++ leftover "declared_worktrees" worktrees;
      leftover_branches = branches;
      leftover_worktrees = worktrees;
    })

-- A probe that cannot answer fails the gate.
unfoldable pub gate_of : Fact Gate → Option Gate
gate_of git_fact_error = some (gate_failure "git_probe")
gate_of (known gate) = if is_empty gate.failures then none else some gate

unfoldable pub completion_failure :
    Git → Files → Json → String → Definition → Task → Dict Value → Option Gate
completion_failure git files json workspace d task patch =
    let merged = update task patch in
    let mode = mode_of merged in
    let repo = files.resolve (files.expanduser workspace) in
    if not (elem (as_text (get patch "status")) d.lifecycle.completion_states)
    then none
    else if not (mode == "") && not (elem mode delivery_modes)
    then some (gate_failure "delivery_mode")
    else if not (mode == "repository")
    then none
    else gate_of (probe git files json repo merged)
