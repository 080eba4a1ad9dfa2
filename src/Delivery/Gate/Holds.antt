-- ===== src/Delivery/Gate/Holds.antt =====
-- What is known of the repository once `completion_failure` lets a task through.
use team_flow.Prelude.{
  String, ◌≡◌, refl, sym, ◌∙◌, ap, Bool, true, false, Option, none, some, List, [], ◌∷◌, ◌++◌, ◌==◌,
  elem, arith, eq_iff, if◌then◌else◌, Bool-cases, All, map, inl, inr, Dict,
}
use team_flow.Workflow.Definition.{Task}
use team_flow.Delivery.Git.{
  Git, Fact, known, git_fact_error, ◌>>=◌, commit_exists, branch_exists, is_ancestor,
  fast_forwarded_to, bind-known,
}
use team_flow.Delivery.Resources.{Json}
use team_flow.Delivery.Gate.{
  Files, Shas, recorded, check_sha, check_shas, check_base, check_target, live_branches, is_live,
  live_worktrees, leftover,
}

pub append-left : (xs ys : List String) → xs ++ ys ≡ [] → xs ≡ []
append-left [] ys h = refl
append-left (x ∷ xs) ys h = absurd (ground arith)

pub append-right : (xs ys : List String) → xs ++ ys ≡ [] → ys ≡ []
append-right [] ys h = h
append-right (x ∷ xs) ys h = absurd (ground arith)

if_passed : (b : Bool) (check : String) → (if b then [] else check ∷ []) ≡ [] → b ≡ true
if_passed b check h = ground arith

pub leftover_none : (check : String) (xs : List String) → leftover check xs ≡ [] → xs ≡ []
leftover_none check [] h = refl
leftover_none check (x ∷ xs) h = absurd (ground arith)

abbrev shas : Shas → Fact Shas
shas x = known x

-- A field whose commit is looked up, and found.
sha_passed :
    (m : Fact Bool) (field value : String) {resolved : Dict String}
    → (m >>= λ found. shas (if found then ([], (field, value) ∷ []) else (field ∷ [], [])))
      ≡ known ([], resolved)
    → (m ≡ known true) × (resolved ≡ (field, value) ∷ [])
sha_passed (known true) field value h = ground arith
sha_passed (known false) field value h = absurd (ground arith)
sha_passed git_fact_error field value h = absurd (ground arith)

module _ (git : Git) (files : Files) (json : Json) (repo : String) (merged : Task) where
  check_sha-passed :
      (field : String) {resolved : Dict String}
      → check_sha git files json repo merged field ≡ known ([], resolved)
      → (commit_exists git repo (recorded merged field) ≡ known true)
        × (resolved ≡ (field, recorded merged field) ∷ [])
  unfolding check_sha
  check_sha-passed field h = elim (Bool-cases (recorded merged field == "")) [
    | inl e ↦ absurd (ground arith)
    | inr e ↦
        sha_passed (commit_exists git repo (recorded merged field)) field (recorded merged field)
          (rw e at h)
  ]

  -- Each of the fields holds a commit of the repository.
  pub check_shas-passed :
      (fields : List String) {resolved : Dict String}
      → check_shas git files json repo merged fields ≡ known ([], resolved)
      → All (λ f. commit_exists git repo (recorded merged f) ≡ known true) fields
        × (resolved ≡ map (λ f. (f, recorded merged f)) fields)
  unfolding check_shas
  check_shas-passed [] h = (tt, ground arith)
  check_shas-passed (field ∷ fields) {resolved} h =
      let (one, e, h₁) = bind-known (check_sha git files json repo merged field) _ h in
      let (more, f, h₂) = bind-known (check_shas git files json repo merged fields) _ h₁ in
      let both : (one.0 ++ more.0 ≡ []) × (one.1 ++ more.1 ≡ resolved) = ground arith in
      let here : one ≡ ([], one.1) =
        ap (λ (x : List String). (x, one.1)) (append-left one.0 more.0 both.0) in
      let there : more ≡ ([], more.1) =
        ap (λ (x : List String). (x, more.1)) (append-right one.0 more.0 both.0) in
      let (found, q) = check_sha-passed field (e ∙ ap known here) in
      let (rest, r) = check_shas-passed fields (f ∙ ap known there) in
      (
        (found, rest),
        sym both.1 ∙ ap (λ x. x ++ more.1) q ∙ ap (λ x. (field, recorded merged field) ∷ x) r,
      )

  pub check_base-passed :
      (sha : String)
      → check_base git files json repo merged (some sha) ≡ known []
      → (commit_exists git repo (recorded merged "base_sha") ≡ known true)
        × (is_ancestor git repo (recorded merged "base_sha") sha ≡ known true)
  unfolding check_base
  check_base-passed sha h = elim (Bool-cases (recorded merged "base_sha" == "")) [
    | inl e ↦ absurd (ground arith)
    | inr e ↦
        let (found, f, h₁) =
          bind-known (commit_exists git repo (recorded merged "base_sha")) _ (rw e at h) in
        let here : found ≡ true = ground arith in
        let (ancestor, g, h₂) =
          bind-known (is_ancestor git repo (recorded merged "base_sha") sha) _ (rw here at h₁) in
        let there : ancestor ≡ true = ground arith in (f ∙ ap known here, g ∙ ap known there)
  ]

  pub check_target-passed :
      (sha : String) (head : Option String)
      → check_target git files json repo merged (some sha) head ≡ known []
      → (tip : String) × (head ≡ some tip)
        × (is_ancestor git repo sha tip ≡ known true)
        × (fast_forwarded_to git repo "main" sha ≡ known true)
  unfolding check_target
  check_target-passed sha none h = absurd (ground arith)
  check_target-passed sha (some tip) h =
      let (contained, f, h₁) = bind-known (is_ancestor git repo sha tip) _ h in
      let here : contained ≡ true = ground arith in
      let (forward, g, h₂) = bind-known (fast_forwarded_to git repo "main" sha) _ (rw here at h₁) in
      let there : forward ≡ true = ground arith in
      (tip, refl, f ∙ ap known here, g ∙ ap known there)

  pub live_branches-none :
      (names : List String)
      → live_branches git files json repo merged names ≡ known []
      → (name : String) → elem name names ≡ true
      → branch_exists git repo name ≡ known false
  unfolding live_branches
  live_branches-none [] h name m = absurd (ground arith)
  live_branches-none (x ∷ names) h name m =
      let (found, f, h₁) = bind-known (branch_exists git repo x) _ h in
      let (later, g, h₂) = bind-known (live_branches git files json repo merged names) _ h₁ in
      let both : (found ≡ false) × (later ≡ []) = ground arith in
      elim (Bool-cases (name == x)) [
        | inl e ↦
            let q : name ≡ x = (eq_iff name x).0 e in
            ap (λ (n : String). branch_exists git repo n) q ∙ f ∙ ap known both.0
        | inr e ↦ live_branches-none names (g ∙ ap known both.1) name (ground arith)
      ]

  pub live_worktrees-none :
      (registered paths : List String)
      → live_worktrees git files json repo merged registered paths ≡ []
      → (path : String) → elem path paths ≡ true
      → is_live git files json repo merged registered path ≡ false
  unfolding live_worktrees
  live_worktrees-none registered [] h path m = absurd (ground arith)
  live_worktrees-none registered (x ∷ paths) h path m = elim (Bool-cases (path == x)) [
    | inl e ↦ let q : path ≡ x = (eq_iff path x).0 e in rw q (ground arith)
    | inr e ↦ live_worktrees-none registered paths (ground arith) path (ground arith)
  ]
