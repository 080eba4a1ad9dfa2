-- ===== src/Delivery/Apply/Fields.antt =====
-- What the steps of `_apply_delivery` leave at each field, and when a claim pins a baseline.
use mathlib.Core.Bool.{false≢true}
use team_flow.Prelude.{
  String, ◌≡◌, refl, sym, ◌∙◌, subst, true, false, not, ◌&&◌, ◌||◌, ◌⊎◌, Option, none, some, List,
  [], ◌∷◌, ◌==◌, elem, arith, eq_iff, Bool-cases, inl, inr, Dict, lookup, put, lookup-put, Bool, ap,
  keys, update, Distinct, put-Distinct, lookup-update, lookup-update_absent, Option-cases,
}
use team_flow.Workflow.Value.{Value, null, text, get}
use team_flow.Workflow.Repr.{as_text}
use team_flow.Workflow.Definition.{Task}
use team_flow.Workflow.Rules.{delivery_managed_fields}
use team_flow.Delivery.Git.{Git, Fact, known, git_fact_error, branch_sha}
use team_flow.Delivery.Mode.{Mode, chosen, value_error, mode_of}
use team_flow.Delivery.Resources.{Json, Resources, Parsed, parsed, invalid, append_resources}
use team_flow.Delivery.Gate.{recorded}
use team_flow.Delivery.Apply.{
  Applied, applied, claim_baseline, put_mode, record_shas, record_resources, settled,
}

pub settled-applied : {A : Type 0} (m : Mode A) {a : A} → settled m ≡ applied a → m ≡ chosen a
settled-applied (chosen a) h = ground arith
settled-applied (value_error e) h = absurd (ground arith)

pub lookup-record_resources :
    (json : Json) (task : Task) (patch : Dict Value) (added : Option Resources)
    {declared : Dict Value} (field : String)
    → record_resources json task patch added ≡ applied declared
    → ("delivery_resources" == field) ≡ false
    → lookup declared field ≡ lookup patch field
unfolding record_resources
lookup-record_resources json task patch none field h d = ground arith
lookup-record_resources json task patch (some added) {declared} field h d =
    grown (append_resources json (as_text (get task "delivery_resources")) added) h
  where
    grown :
        (column : Parsed String)
        → elim column [
          | invalid ↦ Applied.bad_resources
          | parsed c ↦ applied (put patch "delivery_resources" (text c))
        ]
          ≡ applied declared
        → lookup declared field ≡ lookup patch field
    grown invalid e = absurd (ground arith)
    grown (parsed c) e = ground (arith, lookup-put patch "delivery_resources" field (text c))

pub lookup-put_mode :
    (patch : Dict Value) (mode : Option String) (field : String)
    → ("delivery_mode" == field) ≡ false
    → lookup (put_mode patch mode) field ≡ lookup patch field
lookup-put_mode patch none field d = refl
lookup-put_mode patch (some mode) field d =
    ground (arith, lookup-put patch "delivery_mode" field (text mode))

abbrev pub pinned : String → Dict Value
pinned sha = ("target_branch", text "main") ∷ ("base_sha", text sha) ∷ []

-- A card in repository mode that has not both of them.
abbrev pub is_unpinned : Task → Task → Bool
is_unpinned moded task =
    mode_of moded == "repository"
    && (recorded task "target_branch" == "" || recorded task "base_sha" == "")

-- The baseline of a claim.
pub claim_baseline_cases :
    (git : Git) (workspace : String) (task : Task) {baseline : Dict Value}
    → claim_baseline git workspace task ≡ applied baseline
    → ((is_unpinned task task ≡ false) × (baseline ≡ []))
      ⊎ ((sha : String) × (is_unpinned task task ≡ true)
          × (branch_sha git workspace "main" ≡ known (some sha))
          × (baseline ≡ pinned sha))
unfolding claim_baseline
claim_baseline_cases git workspace task {baseline} h =
    elim (Bool-cases (mode_of task == "repository")) [
      | inr e ↦ inl (rw e refl, ground arith)
      | inl e ↦
          elim (Bool-cases
            (not (recorded task "target_branch" == "") && not (recorded task "base_sha" == ""))) [
              | inl f ↦ inl (ground arith, ground arith)
              | inr f ↦
                  let (sha, found, made) =
                    read (branch_sha git workspace "main") (rw f at (rw e at h)) in
                  inr (sha, ground arith, found, made)
            ]
    ]
  where
    read :
        (m : Fact (Option String))
        → elim m [
          | git_fact_error ↦ Applied.git_raised
          | known none ↦ Applied.no_target_branch
          | known (some sha) ↦ applied (pinned sha)
        ]
          ≡ applied baseline
        → (sha : String) × (m ≡ known (some sha)) × (baseline ≡ pinned sha)
    read git_fact_error e = absurd (ground arith)
    read (known none) e = absurd (ground arith)
    read (known (some sha)) e = (sha, refl, ground arith)

pub put_mode-Distinct :
    (patch : Dict Value) (mode : Option String)
    → Distinct (keys patch)
    → Distinct (keys (put_mode patch mode))
put_mode-Distinct patch none u = u
put_mode-Distinct patch (some mode) u = put-Distinct patch "delivery_mode" (text mode) u

record_shas-Distinct :
    (patch : Dict Value) (given : Dict String) (fields : List String)
    → Distinct (keys patch)
    → Distinct (keys (record_shas patch given fields))
unfolding record_shas
record_shas-Distinct patch given [] u = u
record_shas-Distinct patch given (field ∷ rest) u =
    record_shas-Distinct
      (elim (lookup given field) [ none ↦ patch | some sha ↦ put patch field (text sha) ]) given
      rest (once (lookup given field))
  where
    once :
        (m : Option String)
        → Distinct (keys (elim m [ none ↦ patch | some sha ↦ put patch field (text sha) ]))
    once none = u
    once (some sha) = put-Distinct patch field (text sha) u

record_resources-Distinct :
    (json : Json) (task : Task) (patch : Dict Value) (added : Option Resources)
    {declared : Dict Value}
    → record_resources json task patch added ≡ applied declared
    → Distinct (keys patch)
    → Distinct (keys declared)
unfolding record_resources
record_resources-Distinct json task patch none {declared} h u =
    let same : patch ≡ declared = ground arith in
    subst (λ (x : Dict Value). Distinct (keys x)) same u
record_resources-Distinct json task patch (some added) {declared} h u =
    grown (append_resources json (as_text (get task "delivery_resources")) added) h
  where
    grown :
        (column : Parsed String)
        → elim column [
          | invalid ↦ Applied.bad_resources
          | parsed c ↦ applied (put patch "delivery_resources" (text c))
        ]
          ≡ applied declared
        → Distinct (keys declared)
    grown invalid e = absurd (ground arith)
    grown (parsed c) e =
        let same : put patch "delivery_resources" (text c) ≡ declared = ground arith in
        subst (λ (x : Dict Value). Distinct (keys x)) same
          (put-Distinct patch "delivery_resources" (text c) u)

-- Every key of the declared patch stays a single one.
pub declared-Distinct :
    (json : Json) (task : Task) (patch : Dict Value) (mode : Option String) (given : Dict String)
    (fields : List String) (added : Option Resources) {declared : Dict Value}
    → record_resources json task (record_shas (put_mode patch mode) given fields) added
      ≡ applied declared
    → Distinct (keys patch)
    → Distinct (keys declared)
declared-Distinct json task patch mode given fields added h u =
    record_resources-Distinct json task (record_shas (put_mode patch mode) given fields) added h
      (record_shas-Distinct (put_mode patch mode) given fields (put_mode-Distinct patch mode u))

-- What an update leaves at a key hangs only on what it has there.
pub get-update :
    (task m n : Dict Value) (j : String)
    → Distinct (keys m)
    → Distinct (keys n)
    → lookup m j ≡ lookup n j
    → get (update task m) j ≡ get (update task n) j
get-update task m n j u v h =
    ap (λ (x : Option Value). elim x [ none ↦ null | some w ↦ w ])
      (elim (Option-cases (lookup m j)) [
        | inl e ↦
            lookup-update_absent task m j (missing m e)
            ∙ sym (lookup-update_absent task n j (missing n (sym h ∙ e)))
        | inr (w, e) ↦ lookup-update task m j u e ∙ sym (lookup-update task n j v (sym h ∙ e))
      ])
  where
    missing : (d : Dict Value) → lookup d j ≡ none → elem j (keys d) ≡ false
    missing [] e = refl
    missing ((k, w) ∷ d) e = ground (arith, missing d, eq_iff j k, eq_iff k j)

-- A text that is in the list is none that is not.
pub differs :
    (xs : List String) (x y : String) → elem y xs ≡ true → elem x xs ≡ false → (x == y) ≡ false
differs xs x y m n = elim (Bool-cases (x == y)) [
  | inr e ↦ e
  | inl e ↦ absurd (false≢true (sym n ∙ subst (λ z. elem z xs ≡ true) (sym ((eq_iff x y).0 e)) m))
]

pub differs_managed :
    (x field : String)
    → elem x delivery_managed_fields ≡ true
    → elem field delivery_managed_fields ≡ false
    → (x == field) ≡ false
differs_managed x field m n = elim (Bool-cases (x == field)) [
  | inr e ↦ e
  | inl e ↦ absurd (
      false≢true
        (sym n ∙ subst (λ z. elem z delivery_managed_fields ≡ true) ((eq_iff x field).0 e) m))
]
