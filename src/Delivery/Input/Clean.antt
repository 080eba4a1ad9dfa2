-- ===== src/Delivery/Input/Clean.antt =====
-- What holds of a delivery that has been normalized.
use mathlib.Core.Bool.{false≢true}
use team_flow.Prelude.{
  String, ◌≡◌, eq_refl, subst, refl, ◌∙◌, ap, sym, true, false, not, Option, none, some, List, [],
  ◌∷◌, ◌==◌, elem, strip, is_empty, arith, eq_iff, Bool-cases, Option-cases, inl, inr, Dict, lookup,
  keys, none_pass,
}
use team_flow.Delivery.Git.{is_object_id}
use team_flow.Delivery.Gate.{Files, agent_sha_fields}
use team_flow.Delivery.Input.{
  Given, supplied, Delivery, Normal, normal, input_fault, ◌>>=◌, delivery_fields, unknown_keys,
  normalize_shas, normalize_mode, normalize_resources, normalize_fields, normalize_delivery_input,
}

pub bind-normal :
    {A B : Type 0} (m : Normal A) (f : A → Normal B) {b : B}
    → (m >>= f) ≡ normal b
    → (a : A) × (m ≡ normal a) × (f a ≡ normal b)
bind-normal (normal a) f h = (a, refl, h)
bind-normal (input_fault e) f h = absurd (ground arith)

-- A commit that a normalized delivery holds is one of the three, and the text of a full commit id,
-- which is the input's own, stripped.
abbrev pub IsCommitOf : Dict Given → List String → String → String → Type 0
IsCommitOf d fields field sha =
    (elem field fields ≡ true)
    × (is_object_id sha ≡ true)
    × ((given : Given) × (lookup d field ≡ some given) × (sha ≡ strip given.shown))

-- How the loop goes on after one field: it is passed over, or its commit is noted.
data Noted (d : Dict Given) (field : String) (fields : List String) (shas : Dict String)
    : Type 0 where
  passed_over :
      ((given : Given) → lookup d field ≡ some given → (strip given.shown == "") ≡ true)
      → normalize_shas d fields ≡ normal shas
      → Noted d field fields shas
  noted :
      (given : Given) (later : Dict String)
      → lookup d field ≡ some given
      → is_object_id (strip given.shown) ≡ true
      → normalize_shas d fields ≡ normal later
      → shas ≡ (field, strip given.shown) ∷ later
      → Noted d field fields shas

module _ (d : Dict Given) where
  note_commit :
      (field : String) (fields : List String) (given : Given) {shas : Dict String}
      → lookup d field ≡ some given
      → (strip given.shown == "") ≡ false
      → normalize_shas d (field ∷ fields) ≡ normal shas
      → Noted d field fields shas
  unfolding normalize_shas
  note_commit field fields given {shas} e b h =
      elim (Bool-cases (is_object_id (strip given.shown))) [
        | inr w ↦ absurd (ground arith)
        | inl w ↦
            let noting : (normalize_shas d fields >>= λ later.
            normal ((field, strip given.shown) ∷ later))
                ≡ normal shas =
              ground arith in
            let (later, f, g) = bind-normal (normalize_shas d fields) _ noting in
            noted given later e w f (ground arith)
      ]

  normalize_shas-Noted :
      (field : String) (fields : List String) {shas : Dict String}
      → normalize_shas d (field ∷ fields) ≡ normal shas
      → Noted d field fields shas
  unfolding normalize_shas
  normalize_shas-Noted field fields h = elim (Option-cases (lookup d field)) [
    | inl e ↦ passed_over (λ given f. absurd (ground arith)) (ground arith)
    | inr (given, e) ↦ elim (Bool-cases (strip given.shown == "")) [
      | inl b ↦
          passed_over (λ other f. let q : other ≡ given = ground arith in rw q b) (ground arith)
      | inr b ↦ note_commit field fields given e b h
    ]
  ]

  normalize_shas-IsCommitOf :
      (fields : List String) (shas : Dict String) (field sha : String)
      → normalize_shas d fields ≡ normal shas
      → lookup shas field ≡ some sha
      → IsCommitOf d fields field sha
  normalize_shas-IsCommitOf [] shas field sha h l = unfold normalize_shas in absurd (ground arith)
  normalize_shas-IsCommitOf (x ∷ fields) shas field sha h l =
      elim (normalize_shas-Noted x fields h) [
        | passed_over skip rest ↦
            let (m, id, own) = normalize_shas-IsCommitOf fields shas field sha rest l in
            (ground arith, id, own)
        | noted given later e w rest made ↦ elim (Bool-cases (x == field)) [
          | inl same ↦
              let own : sha ≡ strip given.shown = ground arith in
              let here : x ≡ field = (eq_iff x field).0 same in
              (
                ground (arith, eq_refl field),
                rw own w,
                (given, subst (λ f. lookup d f ≡ some given) here e, own),
              )
          | inr other ↦
              let found : lookup later field ≡ some sha = ground arith in
              let (m, id, own) = normalize_shas-IsCommitOf fields later field sha rest found in
              (ground arith, id, own)
        ]
      ]

  -- A commit that is given, not blank, and one of the fields is kept.
  normalize_shas-keeps :
      (fields : List String) (shas : Dict String) (field : String) (given : Given)
      → normalize_shas d fields ≡ normal shas
      → elem field fields ≡ true
      → lookup d field ≡ some given
      → (strip given.shown == "") ≡ false
      → lookup shas field ≡ some (strip given.shown)
  normalize_shas-keeps [] shas field given h m e b = absurd (ground arith)
  normalize_shas-keeps (x ∷ fields) shas field given h m e b =
      elim (normalize_shas-Noted x fields h) [
        | passed_over skip rest ↦ elim (Bool-cases (field == x)) [
          | inl same ↦
              let here : field ≡ x = (eq_iff field x).0 same in
              let blank = skip given (subst (λ f. lookup d f ≡ some given) here e) in
              absurd (ground arith)
          | inr other ↦ normalize_shas-keeps fields shas field given rest (ground arith) e b
        ]
        | noted other later f w rest made ↦ elim (Bool-cases (field == x)) [
          | inl same ↦
              let here : field ≡ x = (eq_iff field x).0 same in
              let own : given ≡ other = cc (subst (λ y. lookup d y ≡ some given) here e) in
              rw made (ground (arith, eq_iff x field))
          | inr differs ↦
              let kept = normalize_shas-keeps fields later field given rest (ground arith) e b in
              rw made (ground (arith, eq_iff x field, eq_iff field x))
        ]
      ]

-- What a normalized delivery says, and where it has it from.
pub record IsClean (d : Dict Given) (delivery : Delivery) : Type 0 where
  pub known : (field : String) → elem field (keys d) ≡ true → elem field delivery_fields ≡ true
  pub only :
      (field text : String)
      → lookup delivery.fields field ≡ some text
      → elem field ("delivery_mode" ∷ agent_sha_fields) ≡ true
  pub commits :
      (field sha : String)
      → elem field agent_sha_fields ≡ true
      → lookup delivery.fields field ≡ some sha
      → IsCommitOf d agent_sha_fields field sha
  pub kept :
      (field : String) (given : Given)
      → elem field agent_sha_fields ≡ true
      → lookup d field ≡ some given
      → (strip given.shown == "") ≡ false
      → lookup delivery.fields field ≡ some (strip given.shown)

not_mode :
    (field : String) → elem field agent_sha_fields ≡ true → ("delivery_mode" == field) ≡ false
not_mode field m = elim (Bool-cases ("delivery_mode" == field)) [
  | inr e ↦ e
  | inl e ↦
      let here : "delivery_mode" ≡ field = (eq_iff "delivery_mode" field).0 e in
      absurd (false≢true (subst (λ f. elem f agent_sha_fields ≡ true) (sym here) m))
]

lookup-normalize_mode :
    (mode : Option Given) (shas : Dict String) (field : String)
    → ("delivery_mode" == field) ≡ false
    → lookup (normalize_mode mode shas) field ≡ lookup shas field
unfolding normalize_mode
lookup-normalize_mode none shas field h = refl
lookup-normalize_mode (some mode) shas field h = rw h

normalize_fields_parts :
    (files : Files) (workspace : String) (d : Dict Given) {delivery : Delivery}
    → normalize_fields files workspace d ≡ normal delivery
    → (shas : Dict String) × (normalize_shas d agent_sha_fields ≡ normal shas)
      × (delivery.fields ≡ normalize_mode (lookup d "delivery_mode") shas)
unfolding normalize_fields
normalize_fields_parts files workspace d h =
    let (shas, e, h₁) = bind-normal (normalize_shas d agent_sha_fields) _ h in
    let (resources, f, h₂) =
      bind-normal (normalize_resources files workspace (lookup d "resources")) _ h₁ in
    (shas, e, ground arith)

normalize_fields-IsClean :
    (files : Files) (workspace : String) (d : Dict Given) (delivery : Delivery)
    → ((field : String) → elem field (keys d) ≡ true → elem field delivery_fields ≡ true)
    → normalize_fields files workspace d ≡ normal delivery
    → IsClean d delivery
normalize_fields-IsClean files workspace d delivery known h =
    let (shas, e, made) = normalize_fields_parts files workspace d h in
    let at : (field : String)
        → ("delivery_mode" == field) ≡ false
        → lookup delivery.fields field ≡ lookup shas field =
      λ field differs.
        ap (λ (x : Dict String). lookup x field) made
        ∙ lookup-normalize_mode (lookup d "delivery_mode") shas field differs in
    record {
      known = known;
      only = λ field text l. elim (Bool-cases ("delivery_mode" == field)) [
        | inl same ↦ ground (arith, eq_iff field "delivery_mode", eq_iff "delivery_mode" field)
        | inr differs ↦
            let (m, id, own) =
              normalize_shas-IsCommitOf d agent_sha_fields shas field text e
                (sym (at field differs) ∙ l) in
            ground arith
      ];
      commits = λ field sha m l.
          normalize_shas-IsCommitOf d agent_sha_fields shas field sha e
            (sym (at field (not_mode field m)) ∙ l);
      kept = λ field given m l b.
          at field (not_mode field m)
          ∙ normalize_shas-keeps d agent_sha_fields shas field given e m l b;
    }

-- A delivery that is accepted names known fields only, so never one that TeamFlow sets. It holds,
-- besides the mode, exactly the commits that are given and not blank, each the text of a full
-- commit id.
pub normalize_delivery_input-IsClean :
    (files : Files) (workspace : String) (d : Dict Given) (delivery : Delivery)
    → normalize_delivery_input files workspace (supplied d) ≡ normal delivery
    → IsClean d delivery
unfolding normalize_delivery_input
normalize_delivery_input-IsClean files workspace d delivery h =
    elim (Bool-cases (is_empty (unknown_keys d delivery_fields))) [
      | inr e ↦ absurd (ground arith)
      | inl e ↦
          normalize_fields-IsClean files workspace d delivery
            (λ field m.
              let q = none_pass (λ f. not (elem f delivery_fields)) (keys d) field e m in
              ground arith)
            (ground arith)
    ]
