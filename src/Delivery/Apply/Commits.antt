-- ===== src/Delivery/Apply/Commits.antt =====
-- What the steps of `apply_delivery` check and write.
use mathlib.Core.Bool.{false≢true}
use team_flow.Prelude.{
  keys, elem-lookup, ◌++◌, String, ◌≡◌, refl, sym, ◌∙◌, ap, subst, Bool, true, false, not, ◌||◌,
  Option, none, some, List, [], ◌∷◌, ◌==◌, elem, is_empty, is_some, filter, arith, eq_iff, eq_refl,
  Bool-cases, Option-cases, inl, inr, if◌then◌else◌, Dict, lookup, put, lookup-put, none_pass,
  is_empty-sorted_set, sorted_set,
}
use team_flow.Workflow.Value.{Value, text}
use team_flow.Delivery.Git.{Git, Fact, known, git_fact_error, ensure_repository, commit_exists}
use team_flow.Delivery.Gate.{agent_sha_fields}
use team_flow.Delivery.Resources.{Resources}
use team_flow.Delivery.Input.{Delivery}
use team_flow.Delivery.Apply.{
  Applied, applied, ◌>>=◌, supplied_fields, reject_repository_only_input, missing_commits,
  confirm_commits, verify_supplied_shas, record_shas,
}

pub bind-applied :
    {A B : Type 0} (m : Applied A) (f : A → Applied B) {b : B}
    → (m >>= f) ≡ applied b
    → (a : A) × (m ≡ applied a) × (f a ≡ applied b)
bind-applied (applied a) f h = (a, refl, h)
bind-applied (Applied.mode_error e) f h = absurd (ground arith)
bind-applied (Applied.repository_only e) f h = absurd (ground arith)
bind-applied (Applied.unknown_commits e) f h = absurd (ground arith)
bind-applied Applied.git_unconfirmed f h = absurd (ground arith)
bind-applied Applied.bad_resources f h = absurd (ground arith)
bind-applied Applied.no_target_branch f h = absurd (ground arith)
bind-applied Applied.git_raised f h = absurd (ground arith)

-- The value of a field that `record_shas` goes over.
abbrev pub sha_or : Option String → Option Value → Option Value
sha_or none before = before
sha_or (some sha) before = some (text sha)

lookup-record_sha :
    (patch : Dict Value) (given : Option String) (field j : String)
    → lookup (elim given [ none ↦ patch | some sha ↦ put patch field (text sha) ]) j
      ≡ (if field == j then sha_or given (lookup patch j) else lookup patch j)
lookup-record_sha patch none field j = ground arith
lookup-record_sha patch (some sha) field j = lookup-put patch field j (text sha)

sha_or-sha_or :
    (given : Option String) (before : Option Value)
    → sha_or given (sha_or given before) ≡ sha_or given before
sha_or-sha_or none before = refl
sha_or-sha_or (some sha) before = refl

abbrev noted : Bool → Option String → Option Value → Option Value
noted among given before = if among then sha_or given before else before

noted_here :
    (among : Bool) (field j : String) (given : String → Option String) (before : Option Value)
    → j ≡ field
    → noted among (given j) (if field == j then sha_or (given field) before else before)
      ≡ noted (j == field || among) (given j) before
noted_here among field j given before here =
    rw here (rw (eq_refl field) (ground (arith, sha_or-sha_or (given field) before)))

pub lookup-record_shas :
    (patch : Dict Value) (given : Dict String) (fields : List String) (j : String)
    → lookup (record_shas patch given fields) j
      ≡ (if elem j fields then sha_or (lookup given j) (lookup patch j) else lookup patch j)
unfolding record_shas
lookup-record_shas patch given [] j = refl
lookup-record_shas patch given (field ∷ fields) j =
    let next : Dict Value = elim (lookup given field) [
      | none ↦ patch
      | some sha ↦ put patch field (text sha)
    ] in
    let one = lookup-record_sha patch (lookup given field) field j in
    lookup-record_shas next given fields j
    ∙ ap (noted (elem j fields) (lookup given j)) one
    ∙ elim (Bool-cases (j == field)) [
      | inl e ↦
          let here : j ≡ field = (eq_iff j field).0 e in
          noted_here (elem j fields) field j (λ x. lookup given x) (lookup patch j) here
      | inr e ↦ ground (arith, eq_iff field j, eq_iff j field)
    ]

commits_step :
    (m : Fact Bool) (rest : Fact (List String)) (x : String)
    → elim m [
      | git_fact_error ↦ git_fact_error
      | known found ↦ elim rest [
        | git_fact_error ↦ git_fact_error
        | known later ↦ known (if found then later else x ∷ later)
      ]
    ]
      ≡ known []
    → (m ≡ known true) × (rest ≡ known [])
commits_step (known true) (known later) x h = (refl, h)
commits_step (known false) (known later) x h = absurd (ground arith)
commits_step (known found) git_fact_error x h = absurd (ground arith)
commits_step git_fact_error rest x h = absurd (ground arith)

confirmed :
    (repository : Fact (Unit {0})) (m : Fact (List String))
    → elim repository [
      | git_fact_error ↦ Applied.git_unconfirmed
      | known u ↦ elim m [
        | git_fact_error ↦ Applied.git_unconfirmed
        | known missing ↦
            if not (is_empty missing)
            then Applied.unknown_commits (sorted_set missing)
            else applied tt
      ]
    ]
      ≡ applied tt
    → (missing : List String) × (m ≡ known missing) × (missing ≡ [])
confirmed (known u) (known []) h = ([], refl, refl)
confirmed (known u) (known (x ∷ missing)) h = absurd (ground arith)
confirmed (known u) git_fact_error h = absurd (ground arith)
confirmed git_fact_error m h = absurd (ground arith)

module _ (git : Git) (repo : String) (delivery : Delivery) where
  missing_commits-none :
      (fields : List String) (field sha : String)
      → missing_commits git repo delivery fields ≡ known []
      → elem field fields ≡ true
      → lookup delivery.fields field ≡ some sha
      → commit_exists git repo sha ≡ known true
  unfolding missing_commits
  missing_commits-none [] field sha h m l = absurd (ground arith)
  missing_commits-none (x ∷ fields) field sha h m l =
      elim (Option-cases (lookup delivery.fields x)) [
        | inl e ↦ elim (Bool-cases (field == x)) [
          | inl same ↦
              let here : field ≡ x = (eq_iff field x).0 same in
              absurd (ground (arith, subst (λ y. lookup delivery.fields y ≡ some sha) here l))
          | inr differs ↦ missing_commits-none fields field sha (ground arith) (ground arith) l
        ]
        | inr (given, e) ↦
            let (found, rest) =
              commits_step (commit_exists git repo given) (missing_commits git repo delivery fields)
                x (ground arith) in
            elim (Bool-cases (field == x)) [
              | inl same ↦
                  let here : field ≡ x = (eq_iff field x).0 same in
                  let own : sha ≡ given =
                    ground (arith, subst (λ y. lookup delivery.fields y ≡ some sha) here l) in
                  rw own found
              | inr differs ↦ missing_commits-none fields field sha rest (ground arith) l
            ]
      ]

  -- Each of the commits that a delivery names is a commit of the repository.
  pub verify_supplied_shas-commits :
      (field sha : String)
      → verify_supplied_shas git repo delivery ≡ applied tt
      → elem field agent_sha_fields ≡ true
      → lookup delivery.fields field ≡ some sha
      → commit_exists git repo sha ≡ known true
  unfolding verify_supplied_shas confirm_commits
  verify_supplied_shas-commits field sha h m l =
      elim (Bool-cases
        (is_empty (filter (λ f. is_some (lookup delivery.fields f)) agent_sha_fields))) [
          | inl e ↦
              let q =
                none_pass (λ f. is_some (lookup delivery.fields f)) agent_sha_fields field e m in
              absurd (ground arith)
          | inr e ↦
              let (missing, looked, nothing) =
                confirmed (ensure_repository git repo)
                  (missing_commits git repo delivery agent_sha_fields) (rw e at h) in
              missing_commits-none agent_sha_fields field sha (looked ∙ ap known nothing) m l
        ]

nothing_supplied :
    (xs : List String) (resources : Option Resources)
    → is_empty (xs ++ elim resources [ none ↦ [] | some r ↦ "resources" ∷ [] ]) ≡ true
    → (is_empty xs ≡ true) × (resources ≡ none)
nothing_supplied [] none h = (refl, refl)
nothing_supplied [] (some r) h = cc
nothing_supplied (x ∷ xs) resources h = cc

-- Only repository delivery takes commits and resources.
pub reject_repository_only_input-none :
    (mode : String) (delivery : Delivery)
    → reject_repository_only_input mode delivery ≡ applied tt
    → (mode == "repository") ≡ false
    → ((field : String) → elem field agent_sha_fields ≡ true → lookup delivery.fields field ≡ none)
      × (delivery.resources ≡ none)
unfolding reject_repository_only_input
reject_repository_only_input-none mode delivery h m =
    let empty : is_empty (supplied_fields delivery) ≡ true =
      sym (is_empty-sorted_set (supplied_fields delivery)) ∙ ground arith in
    let (unsent, undeclared) =
      nothing_supplied (filter (λ f. elem f agent_sha_fields) (keys delivery.fields))
        delivery.resources empty in
    (
      λ field n. elim (Option-cases (lookup delivery.fields field)) [
        | inl e ↦ e
        | inr (sha, e) ↦ absurd (
            false≢true (
              sym (
                none_pass (λ f. elem f agent_sha_fields) (keys delivery.fields) field unsent
                  (elem-lookup delivery.fields field e))
              ∙ n))
      ],
      undeclared,
    )
