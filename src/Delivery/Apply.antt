-- ===== src/Delivery/Apply.antt =====
-- core/teamflow_tools.py, `_apply_delivery`, with `reject_repository_only_input`,
-- `verify_supplied_shas` and `claim_baseline` of core/delivery.py: what a delivery adds to the patch
-- of a rule.
pub mod Commits
pub mod Fields
pub mod Stages
pub mod Pinning
pub mod Recorded
use team_flow.Prelude.{
  String, Bool, not, ◌&&◌, Option, none, some, List, [], ◌∷◌, ◌++◌, ◌==◌, elem, is_some, is_empty,
  if◌then◌else◌, Dict, lookup, update, put, keys, filter, sorted_set,
}
use team_flow.Workflow.Value.{Value, text, get}
use team_flow.Workflow.Repr.{as_text}
use team_flow.Workflow.Definition.{Definition, Task, Rule}
use team_flow.Delivery.Git.{
  Git, Fact, known, git_fact_error, ensure_repository, commit_exists, branch_sha,
}
use team_flow.Delivery.Mode.{Mode, ModeFault, chosen, value_error, mode_of, resolve_transition_mode}
use team_flow.Delivery.Resources.{Json, Resources, parsed, invalid, append_resources}
use team_flow.Delivery.Gate.{Files, agent_sha_fields, recorded}
use team_flow.Delivery.Input.{Delivery}

-- A result, or a ValueError, which a GitFactError is too.
pub data Applied (A : Type 0) : Type 0 where
  applied : A → Applied A
  mode_error : ModeFault → Applied A
  repository_only : List String → Applied A
  unknown_commits : List String → Applied A
  git_unconfirmed : Applied A
  bad_resources : Applied A
  no_target_branch : Applied A
  git_raised : Applied A

infixl 5 ◌>>=◌
abbrev pub ◌>>=◌ : {A B : Type 0} → Applied A → (A → Applied B) → Applied B
applied a >>= f = f a
mode_error e >>= f = mode_error e
repository_only e >>= f = repository_only e
unknown_commits e >>= f = unknown_commits e
git_unconfirmed >>= f = git_unconfirmed
bad_resources >>= f = bad_resources
no_target_branch >>= f = no_target_branch
git_raised >>= f = git_raised

infixl 5 ◌>>◌
abbrev pub ◌>>◌ : {A B : Type 0} → Applied A → Applied B → Applied B
m >> n = m >>= λ _. n

-- set(delivery) & {*AGENT_SHA_FIELDS, "resources"}
abbrev pub supplied_fields : Delivery → List String
supplied_fields delivery =
    filter (λ f. elem f agent_sha_fields) (keys delivery.fields)
    ++ elim delivery.resources [ none ↦ [] | some r ↦ "resources" ∷ [] ]

unfoldable pub reject_repository_only_input : String → Delivery → Applied (Unit {0})
reject_repository_only_input mode delivery =
    let supplied = sorted_set (supplied_fields delivery) in
    if mode == "repository"
    then applied tt
    else if not (is_empty supplied)
    then repository_only supplied
    else applied tt

module _ (git : Git) (repo : String) (delivery : Delivery) where
  -- [field for field, sha in supplied.items() if not commit_exists(repo, sha)]
  unfoldable pub missing_commits : List String → Fact (List String)
  missing_commits [] = known []
  missing_commits (field ∷ fields) =
      let rest = missing_commits fields in
      elim (lookup delivery.fields field) [
        | none ↦ rest
        | some sha ↦ elim (commit_exists git repo sha) [
          | git_fact_error ↦ git_fact_error
          | known found ↦ elim rest [
            | git_fact_error ↦ git_fact_error
            | known later ↦ known (if found then later else field ∷ later)
          ]
        ]
      ]

  unfoldable pub confirm_commits : Applied (Unit {0})
  confirm_commits = elim (missing_commits agent_sha_fields) [
    | git_fact_error ↦ git_unconfirmed
    | known missing ↦
        if not (is_empty missing) then unknown_commits (sorted_set missing) else applied tt
  ]

  unfoldable pub verify_supplied_shas : Applied (Unit {0})
  verify_supplied_shas =
      if is_empty (filter (λ f. is_some (lookup delivery.fields f)) agent_sha_fields)
      then applied tt
      else elim (ensure_repository git repo) [
        | git_fact_error ↦ git_unconfirmed
        | known u ↦ confirm_commits
      ]

unfoldable pub claim_baseline : Git → String → Task → Applied (Dict Value)
claim_baseline git workspace task =
    if not (mode_of task == "repository")
    then applied []
    else if not (recorded task "target_branch" == "") && not (recorded task "base_sha" == "")
    then applied []
    else elim (branch_sha git workspace "main") [
      | git_fact_error ↦ git_raised
      | known none ↦ no_target_branch
      | known (some sha) ↦ applied (("target_branch", text "main") ∷ ("base_sha", text sha) ∷ [])
    ]

-- if field in delivery: patch[field] = delivery[field]
unfoldable pub record_shas : Dict Value → Dict String → List String → Dict Value
record_shas patch fields [] = patch
record_shas patch fields (field ∷ rest) =
    record_shas
      (elim (lookup fields field) [ none ↦ patch | some sha ↦ put patch field (text sha) ]) fields
      rest

abbrev pub put_mode : Dict Value → Option String → Dict Value
put_mode patch none = patch
put_mode patch (some mode) = put patch "delivery_mode" (text mode)

unfoldable pub record_resources : Json → Task → Dict Value → Option Resources → Applied (Dict Value)
record_resources json task patch none = applied patch
record_resources json task patch (some added) =
    elim (append_resources json (as_text (get task "delivery_resources")) added) [
      | invalid ↦ bad_resources
      | parsed column ↦ applied (put patch "delivery_resources" (text column))
    ]

-- mode or mode_of(task)
abbrev pub mode_or_current : Task → Option String → String
mode_or_current task none = mode_of task
mode_or_current task (some mode) = mode

abbrev pub settled : {A : Type 0} → Mode A → Applied A
settled (chosen a) = applied a
settled (value_error e) = mode_error e

-- `files` finds the repository for `verify_supplied_shas`; the baseline is read in the workspace.
unfoldable pub apply_delivery :
    Git
    → Files
    → Json
    → Bool
    → String
    → Definition
    → Rule
    → Dict Value
    → String
    → Task
    → Delivery
    → Applied (Dict Value)
apply_delivery git files json enabled workspace d rule patch action_key task delivery = do
  mode ← settled (
      resolve_transition_mode enabled d task (lookup delivery.fields "delivery_mode") rule.to
        action_key)
  reject_repository_only_input (mode_or_current task mode) delivery
  verify_supplied_shas git (files.resolve (files.expanduser workspace)) delivery
  declared ←
      record_resources json task
        (record_shas (put_mode patch mode) delivery.fields agent_sha_fields) delivery.resources
  baseline ←
      if action_key == "claim"
      then claim_baseline git workspace (update task declared)
      else applied []
  applied (update declared baseline)
