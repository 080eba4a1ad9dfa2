-- ===== src/Tools/Lookup/Unique.antt =====
-- The card that `get_task` finds is the one that was asked for.
use team_flow.Prelude.{
  ◌≡◌, ◌↔◌, ◌⊎◌, refl, sym, ap, ◌∙◌, arith, String, Bool, true, false, Option, some, List, [], ◌∷◌,
  ◌++◌, ◌==◌, strip, filter, All, Bool-cases, Option-cases, inl, inr,
}
use team_flow.Workflow.Value.{get}
use team_flow.Workflow.Repr.{as_text}
use team_flow.Workflow.Definition.{Definition, Assignment, Task}
use team_flow.Workflow.Contract.{AvailableAction, available_task_actions}
use team_flow.Tools.Listing.{same_task_id}
use team_flow.Tools.Lookup.{found, reference, matches_of, by_record, single, get_task}

module _ {A : Type 0} (p : A → Bool) where
  -- The list has one element that passes, at one place.
  pub record OnlyPass (xs : List A) (x : A) : Type 0 where
    pub before : List A
    pub after : List A
    pub split : xs ≡ before ++ x ∷ after
    pub passing : p x ≡ true
    pub none_before : All (λ y. p y ≡ false) before
    pub none_after : All (λ y. p y ≡ false) after

  filter-none : (xs : List A) → filter p xs ≡ [] → All (λ y. p y ≡ false) xs
  filter-none [] h = tt
  filter-none (y ∷ ys) h = elim (Bool-cases (p y)) [
    | inl e ↦ absurd (ground arith)
    | inr e ↦ (e, filter-none ys (ground arith))
  ]

  none-filter : (xs : List A) → All (λ y. p y ≡ false) xs → filter p xs ≡ []
  none-filter [] n = refl
  none-filter (y ∷ ys) n = rw n.0 (none-filter ys n.1)

  filter-OnlyPass : (xs : List A) (x : A) → filter p xs ≡ x ∷ [] → OnlyPass xs x
  filter-OnlyPass [] x h = absurd (ground arith)
  filter-OnlyPass (y ∷ ys) x h = elim (Bool-cases (p y)) [
    | inl e ↦
        let same : y ≡ x = ground arith in
        let rest : filter p ys ≡ [] = ground arith in
        record {
          before = [];
          after = ys;
          split = ap (λ (z : A). z ∷ ys) same;
          passing = ap p (sym same) ∙ e;
          none_before = tt;
          none_after = filter-none ys rest;
        }
    | inr e ↦
        let o = filter-OnlyPass ys x (rw e at h) in
        record {
          before = y ∷ o.before;
          after = o.after;
          split = ap (λ (zs : List A). y ∷ zs) o.split;
          passing = o.passing;
          none_before = (e, o.none_before);
          none_after = o.none_after;
        }
  ]

  filter-split :
      (before after : List A) (x : A)
      → All (λ y. p y ≡ false) before
      → p x ≡ true
      → All (λ y. p y ≡ false) after
      → filter p (before ++ x ∷ after) ≡ x ∷ []
  filter-split [] after x n h m = rw h (ap (λ (ys : List A). x ∷ ys) (none-filter after m))
  filter-split (y ∷ before) after x n h m = rw n.0 (filter-split before after x n.1 h m)

  OnlyPass-filter : (xs : List A) (x : A) → OnlyPass xs x → filter p xs ≡ x ∷ []
  OnlyPass-filter xs x o =
      ap (λ (ys : List A). filter p ys) o.split
      ∙ filter-split o.before o.after x o.none_before o.passing o.none_after

module _ (casefold : String → String) (a : Assignment) (d : Definition)
    (get_lark_task : String → Option Task) (tasks : List Task) where
  -- The card's task id and the one asked for are equal without blanks around them, and by casefold.
  abbrev pub has_id : String → Task → Bool
  has_id task_id card = casefold (strip (as_text (get card "task_id"))) == casefold (strip task_id)

  -- The card of the record, if only that was given; or the only card of the task id, if only that was.
  abbrev pub AskedFor : Option String → Option String → Task → Type 0
  AskedFor r t card =
      (((reference t == "") ≡ true)
        × ((reference r == "") ≡ false)
        × (get_lark_task (reference r) ≡ some card))
      ⊎ (((reference r == "") ≡ true)
          × ((reference t == "") ≡ false)
          × OnlyPass (has_id (reference t)) tasks card)

  single-found :
      (task_id : String) (cards : List Task) {card : Task} {actions : List AvailableAction}
      → single casefold a d get_lark_task tasks task_id cards ≡ found card actions
      → (cards ≡ card ∷ []) × (actions ≡ available_task_actions a d card)
  unfolding single
  single-found task_id [] h = absurd (ground arith)
  single-found task_id (x ∷ []) {card} h =
      let same : x ≡ card = ground arith in (ap (λ (y : Task). y ∷ []) same, ground arith)
  single-found task_id (x ∷ y ∷ rest) h = absurd (ground arith)

  matches_of-has_id :
      (task_id : String)
      → matches_of casefold a d get_lark_task tasks task_id ≡ filter (has_id task_id) tasks
  unfolding same_task_id
  matches_of-has_id task_id = refl

  get_task-found :
      (r t : Option String) {card : Task} {actions : List AvailableAction}
      → get_task casefold a d get_lark_task tasks r t ≡ found card actions
      → AskedFor r t card × (actions ≡ available_task_actions a d card)
  unfolding get_task by_record
  get_task-found r t {card} {actions} h = elim (Bool-cases (reference r == "")) [
    | inl e ↦ elim (Bool-cases (reference t == "")) [
      | inl f ↦ absurd (ground arith)
      | inr f ↦
          let (only, offers) =
            single-found (reference t) (matches_of casefold a d get_lark_task tasks (reference t))
              {card = card} {actions = actions} (ground arith) in
          let passing = sym (matches_of-has_id (reference t)) ∙ only in
          (inr (e, f, filter-OnlyPass (has_id (reference t)) tasks card passing), offers)
    ]
    | inr e ↦ elim (Bool-cases (reference t == "")) [
      | inr f ↦ absurd (ground arith)
      | inl f ↦ elim (Option-cases (get_lark_task (reference r))) [
        | inl g ↦ absurd (ground arith)
        | inr (x, g) ↦
            let same : x ≡ card = ground arith in
            (inl (f, e, g ∙ ap (λ (y : Task). some y) same), ground arith)
      ]
    ]
  ]

  get_task-finds :
      (r t : Option String) (card : Task)
      → AskedFor r t card
      → get_task casefold a d get_lark_task tasks r t ≡ found card (available_task_actions a d card)
  unfolding get_task by_record single
  get_task-finds r t card (inl (f, e, g)) = rw (e, get_task) (rw f (rw (g, by_record) refl))
  get_task-finds r t card (inr (e, f, only)) =
      let one : matches_of casefold a d get_lark_task tasks (reference t) ≡ card ∷ [] =
        matches_of-has_id (reference t) ∙ OnlyPass-filter (has_id (reference t)) tasks card only in
      rw (e, get_task) (rw f (rw (one, single) refl))

  -- `get_task` finds a card exactly when just one of the two references is given and the card is the
  -- card of that record, or the board's only card with that task id, blanks around it and its case
  -- aside; and the actions are exactly those that the card offers.
  pub get_task-iff_AskedFor :
      (r t : Option String) (card : Task) (actions : List AvailableAction)
      → get_task casefold a d get_lark_task tasks r t ≡ found card actions
        ↔ AskedFor r t card × (actions ≡ available_task_actions a d card)
  get_task-iff_AskedFor r t card actions = (
    λ h. get_task-found r t h,
    λ (asked, offers). get_task-finds r t card asked ∙ ap (λ x. found card x) (sym offers),
  )
