-- ===== src/Delivery/Gate/Delivered.antt =====
-- The completion gate as a whole: a task delivered through the repository that is let through.
use team_flow.Prelude.{
  String, ◌≡◌, refl, sym, ◌∙◌, ap, Bool, true, false, Option, none, some, List, [], ◌∷◌, ◌++◌, elem,
  is_empty, arith, eq_iff, Dict, lookup, update,
}
use team_flow.Workflow.Value.{Value, get}
use team_flow.Workflow.Repr.{as_text}
use team_flow.Workflow.Definition.{Definition, Task}
use team_flow.Delivery.Git.{
  Git, Fact, known, git_fact_error, ensure_repository, commit_exists, branch_sha, branch_exists,
  is_ancestor, fast_forwarded_to, worktree_paths, bind-known,
}
use team_flow.Delivery.Mode.{mode_of}
use team_flow.Delivery.Resources.{Json, Resources, Parsed, parsed, invalid, parse_resources}
use team_flow.Delivery.Gate.{
  Files, Gate, Shas, agent_sha_fields, recorded, disagreement, check_shas, check_base, check_target,
  live_branches, is_live, live_worktrees, leftover, parsed_or_none, probe, gate_of,
  completion_failure,
}
use team_flow.Delivery.Gate.Holds.{
  append-left, append-right, leftover_none, check_shas-passed, check_base-passed,
  check_target-passed, live_branches-none, live_worktrees-none,
}

-- The three recorded commits are one, built on the pinned baseline; the target branch holds it and
-- was fast-forwarded onto it; nothing that the card declares is left over.
pub record Delivered (git : Git) (files : Files) (json : Json) (repo : String) (merged : Task)
    : Type 0 where
  pub sha : String
  pub candidate : recorded merged "candidate_sha" ≡ sha
  pub verified : recorded merged "verified_sha" ≡ sha
  pub promoted : recorded merged "promoted_sha" ≡ sha
  pub commit : commit_exists git repo sha ≡ known true
  pub baseline : commit_exists git repo (recorded merged "base_sha") ≡ known true
  pub ancestry : is_ancestor git repo (recorded merged "base_sha") sha ≡ known true
  pub tip : String
  pub head : branch_sha git repo "main" ≡ known (some tip)
  pub contained : is_ancestor git repo sha tip ≡ known true
  pub forwarded : fast_forwarded_to git repo "main" sha ≡ known true
  pub resources : Resources
  pub declared : parse_resources json (as_text (get merged "delivery_resources")) ≡ parsed resources
  pub deleted :
      (name : String)
      → elem name resources.branches ≡ true
      → branch_exists git repo name ≡ known false
  pub registered : List String
  pub listed : worktree_paths git repo files.resolve ≡ known registered
  pub removed :
      (path : String)
      → elem path resources.worktrees ≡ true
      → is_live git files json repo merged registered path ≡ false

disagreement-none :
    (f₁ f₂ f₃ c v p : String)
    → disagreement ((f₁, c) ∷ (f₂, v) ∷ (f₃, p) ∷ []) ≡ []
    → (v ≡ c) × (p ≡ c)
unfolding disagreement
disagreement-none f₁ f₂ f₃ c v p h = ground (arith, eq_iff v c, eq_iff p c)

parsed_or_none-passed :
    (p : Parsed Resources) → (parsed_or_none p).1 ≡ [] → p ≡ parsed (parsed_or_none p).0
unfolding parsed_or_none
parsed_or_none-passed (parsed r) h = refl
parsed_or_none-passed invalid h = absurd (ground arith)

abbrev is_failed : Gate → Bool
is_failed gate = is_empty gate.failures

nothing : (xs : List String) → is_empty xs ≡ true → xs ≡ []
nothing [] h = refl
nothing (x ∷ xs) h = absurd (ground arith)

known_injective : {A : Type 0} {x y : A} → known x ≡ known y → x ≡ y
known_injective h = ground arith

-- The answers that a probe was made of, and that nothing was found wrong in them.
record Steps (git : Git) (files : Files) (json : Json) (repo : String) (merged : Task)
    : Type 0 where
  shas : Shas
  looked_up : check_shas git files json repo merged agent_sha_fields ≡ known shas
  base : List String
  based : check_base git files json repo merged (lookup shas.1 "candidate_sha") ≡ known base
  head : Option String
  headed : branch_sha git repo "main" ≡ known head
  target : List String
  targeted :
      check_target git files json repo merged (lookup shas.1 "candidate_sha") head ≡ known target
  declared : Resources × List String
  parse :
      parsed_or_none (parse_resources json (as_text (get merged "delivery_resources"))) ≡ declared
  branches : List String
  live : live_branches git files json repo merged declared.0.branches ≡ known branches
  registered : List String
  listed : worktree_paths git repo files.resolve ≡ known registered
  clean :
      shas.0
        ++ disagreement shas.1
        ++ base
        ++ target
        ++ declared.1
        ++ leftover "declared_branches" branches
        ++ leftover "declared_worktrees"
            (live_worktrees git files json repo merged registered declared.0.worktrees)
      ≡ []

module _ (git : Git) (files : Files) (json : Json) (repo : String) (merged : Task) where
  probe-Steps :
      {gate : Gate}
      → probe git files json repo merged ≡ known gate
      → is_empty gate.failures ≡ true
      → Steps git files json repo merged
  unfolding probe
  probe-Steps {gate} h z =
      let (u, e₀, h₀) = bind-known (ensure_repository git repo) _ h in
      let (shas, e₁, h₁) =
        bind-known (check_shas git files json repo merged agent_sha_fields) _ h₀ in
      let (base, e₂, h₂) =
        bind-known (check_base git files json repo merged (lookup shas.1 "candidate_sha")) _ h₁ in
      let (head, e₃, h₃) = bind-known (branch_sha git repo "main") _ h₂ in
      let (target, e₄, h₄) =
        bind-known (check_target git files json repo merged (lookup shas.1 "candidate_sha") head) _
          h₃ in
      let declared =
        parsed_or_none (parse_resources json (as_text (get merged "delivery_resources"))) in
      let (branches, e₅, h₅) =
        bind-known (live_branches git files json repo merged declared.0.branches) _ h₄ in
      let (registered, e₆, h₆) = bind-known (worktree_paths git repo files.resolve) _ h₅ in
      record {
        shas = shas;
        looked_up = e₁;
        base = base;
        based = e₂;
        head = head;
        headed = e₃;
        target = target;
        targeted = e₄;
        declared = declared;
        parse = refl;
        branches = branches;
        live = e₅;
        registered = registered;
        listed = e₆;
        clean = nothing _ (ap is_failed (known_injective h₆) ∙ z);
      }

  Steps-Delivered : Steps git files json repo merged → Delivered git files json repo merged
  Steps-Delivered s =
      let sha = recorded merged "candidate_sha" in
      let worktrees =
        live_worktrees git files json repo merged s.registered s.declared.0.worktrees in
      let named = leftover "declared_branches" s.branches in
      let before_target = s.shas.0 ++ disagreement s.shas.1 ++ s.base in
      let parts = before_target ++ s.target ++ s.declared.1 in
      let p₆ = append-left (parts ++ named) _ s.clean in
      let p₅ = append-left parts named p₆ in
      let p₄ = append-left (before_target ++ s.target) s.declared.1 p₅ in
      let p₃ = append-left before_target s.target p₄ in
      let p₂ = append-left (s.shas.0 ++ disagreement s.shas.1) s.base p₃ in
      let no_sha : s.shas ≡ ([], s.shas.1) =
        ap (λ (x : List String). (x, s.shas.1)) (append-left s.shas.0 (disagreement s.shas.1) p₂) in
      let (found, resolved) =
        check_shas-passed git files json repo merged agent_sha_fields
          (s.looked_up ∙ ap known no_sha) in
      let candidate : some sha ≡ lookup s.shas.1 "candidate_sha" =
        ap (λ (x : Dict String). lookup x "candidate_sha") (sym resolved) in
      let (same_verified, same_promoted) =
        disagreement-none _ _ _ _ _ _
          (ap disagreement (sym resolved) ∙ append-right s.shas.0 (disagreement s.shas.1) p₂) in
      let (baseline, ancestry) = check_base-passed git files json repo merged sha (
        ap (λ c. check_base git files json repo merged c) candidate
        ∙ s.based
        ∙ ap known (append-right (s.shas.0 ++ disagreement s.shas.1) s.base p₃)) in
      let (tip, headed, contained, forwarded) =
        check_target-passed git files json repo merged sha s.head (
          ap (λ c. check_target git files json repo merged c s.head) candidate
          ∙ s.targeted
          ∙ ap known (append-right before_target s.target p₄)) in
      let readable =
        ap (λ (x : Resources × List String). x.1) s.parse
        ∙ append-right (before_target ++ s.target) s.declared.1 p₅ in
      record {
        sha = sha;
        candidate = refl;
        verified = same_verified;
        promoted = same_promoted;
        commit = found.0;
        baseline = baseline;
        ancestry = ancestry;
        tip = tip;
        head = s.headed ∙ ap known headed;
        contained = contained;
        forwarded = forwarded;
        resources = s.declared.0;
        declared =
            parsed_or_none-passed (parse_resources json (as_text (get merged "delivery_resources")))
              readable
            ∙ ap (λ (x : Resources × List String). parsed x.0) s.parse;
        deleted = live_branches-none git files json repo merged s.declared.0.branches (
            s.live
            ∙ ap known
                (leftover_none "declared_branches" s.branches (append-right parts named p₆)));
        registered = s.registered;
        listed = s.listed;
        removed =
            live_worktrees-none git files json repo merged s.registered s.declared.0.worktrees (
              leftover_none "declared_worktrees" worktrees
                (append-right (parts ++ named) _ s.clean));
      }

gate_of-none :
    (f : Fact Gate)
    → gate_of f ≡ none
    → (gate : Gate) × (f ≡ known gate) × (is_empty gate.failures ≡ true)
unfolding gate_of
gate_of-none git_fact_error h = absurd (ground arith)
gate_of-none (known gate) h = (gate, refl, ground arith)

-- A card in repository mode enters a completion state only if every fact holds that the delivery
-- is about: one commit, recorded three times, built on the pinned baseline and fast-forwarded onto
-- the target branch, with no declared branch or worktree left. A git call that fails lets nothing
-- through.
pub completion_failure-Delivered :
    (git : Git) (files : Files) (json : Json) (workspace : String) (d : Definition) (task : Task)
    (patch : Dict Value)
    → completion_failure git files json workspace d task patch ≡ none
    → elem (as_text (get patch "status")) d.lifecycle.completion_states ≡ true
    → mode_of (update task patch) ≡ "repository"
    → Delivered git files json (files.resolve (files.expanduser workspace)) (update task patch)
unfolding completion_failure
completion_failure-Delivered git files json workspace d task patch h c m =
    let merged = update task patch in
    let repo = files.resolve (files.expanduser workspace) in
    let (gate, e, z) = gate_of-none (probe git files json repo merged) (rw m at (rw c at h)) in
    Steps-Delivered git files json repo merged (probe-Steps git files json repo merged e z)
