-- ===== src/Delivery/Resources/Appends.antt =====
-- Declared resources are only ever added to.
use team_flow.Prelude.{
  String, ◌≡◌, refl, not, ◌&&◌, ◌||◌, List, [], ◌∷◌, ◌++◌, ◌==◌, elem, map, strip, arith, eq_iff,
  Bool-cases, inl, inr,
}
use team_flow.Delivery.Resources.{
  Json, Resources, parsed, add_item, add_items, added_to, append_resources, parse_resources,
}
use mathlib.Core.List.{append_assoc, append-nil}
use team_flow.Prelude.{sym, ap, ◌∙◌}

elem-snoc : (xs : List String) (v x : String) → elem x (xs ++ (v ∷ [])) ≡ (elem x xs || x == v)
elem-snoc [] v x = ground arith
elem-snoc (y ∷ xs) v x = ground (arith, elem-snoc xs v x)

module _ (json : Json) where
  elem-add_item :
      (items : List String) (new x : String)
      → elem x (add_item json items new) ≡ (elem x items || not (x == "") && x == strip new)
  unfolding add_item
  elem-add_item items new x = ground (
    arith,
    elem-snoc items (strip new) x,
    eq_iff x (strip new),
    eq_iff x "",
    eq_iff (strip new) "",
  )

  elem-add_items :
      (items added : List String) (x : String)
      → elem x (add_items json items added)
        ≡ (elem x items || not (x == "") && elem x (map strip added))
  unfolding add_items
  elem-add_items items [] x = ground arith
  elem-add_items items (new ∷ added) x =
      ground (arith, elem-add_items (add_item json items new) added x, elem-add_item items new x)

-- `after` starts with all of `before` and holds besides them what is added and not blank.
pub record Grown (before added after : List String) : Type 0 where
  pub kept : (rest : List String) × (after ≡ before ++ rest)
  pub members :
      (x : String) → elem x after ≡ (elem x before || not (x == "") && elem x (map strip added))

module _ (json : Json) where
  add_item-kept :
      (items : List String) (new : String)
      → (rest : List String) × (add_item json items new ≡ items ++ rest)
  unfolding add_item
  add_item-kept items new = elim (Bool-cases (strip new == "" || elem (strip new) items)) [
    | inl e ↦ ([], rw e (sym (append-nil items)))
    | inr e ↦ (strip new ∷ [], rw e refl)
  ]

  add_items-kept :
      (items added : List String)
      → (rest : List String) × (add_items json items added ≡ items ++ rest)
  unfolding add_items
  add_items-kept items [] = ([], sym (append-nil items))
  add_items-kept items (new ∷ added) =
      let (one, e) = add_item-kept items new in
      let (rest, f) = add_items-kept (add_item json items new) added in
      (one ++ rest, f ∙ ap (λ (xs : List String). xs ++ rest) e ∙ append_assoc items one rest)

  grown : (items added : List String) → Grown items added (add_items json items added)
  grown items added = record {
    kept = add_items-kept items added;
    members = elem-add_items json items added;
  }

  -- Declaring resources keeps all that a card declared before, in order and in front, and adds
  -- exactly the given names, stripped, that are not blank. The column is readable.
  pub append_resources-grows :
      (current : String) (before added : Resources)
      → parse_resources json current ≡ parsed before
      → (after : Resources) × (append_resources json current added ≡ parsed (json.dumps after))
        × Grown before.branches added.branches after.branches
        × Grown before.worktrees added.worktrees after.worktrees
  unfolding added_to append_resources add_items
  append_resources-grows current before added h = (
    added_to json before added,
    rw (h, append_resources) refl,
    grown before.branches added.branches,
    grown before.worktrees added.worktrees,
  )
