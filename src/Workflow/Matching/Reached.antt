-- ===== src/Workflow/Matching/Reached.antt =====
-- When `matching_applied_rule` recognises a result.
use team_flow.Prelude.{
  String, ◌≡◌, ◌∙◌, refl, true, some, List, [], ◌∷◌, Memᴰ, is_some, arith, eq_iff, eq_refl,
  Option-cases, inl, inr, ◌⊎◌, Dict, lookup, keys, Distinct, elem-lookup,
}
use team_flow.Workflow.Value.{Value, same_value_refl}
use team_flow.Workflow.Definition.{Rule, Definition, Assignment, Task}
use team_flow.Workflow.Rules.{action_patch}
use team_flow.Workflow.Matching.{
  matched, holds_all, may_have_applied, match_reached, matching_applied_rule,
}

-- A card that holds every value of a patch has the patch's result.
pub holds_all_of_lookup :
    (task m : Dict Value)
    → Distinct (keys m)
    → ((j : String) (v : Value) → lookup m j ≡ some v → lookup task j ≡ some v)
    → holds_all task m ≡ true
holds_all_of_lookup task [] u h = refl
holds_all_of_lookup task ((k, v) ∷ m) u h =
    let here : lookup task k ≡ some v = h k v (ground (arith, eq_refl k)) in
    let rest : holds_all task m ≡ true =
      holds_all_of_lookup task m u.1
        (λ j w e. h j w (ground (arith, eq_iff k j, elem-lookup m j {v = w}))) in
    ground (arith, same_value_refl v)

module _ (a : Assignment) (d : Definition) (task : Task) (payload : Dict Value) where
  -- Without a KeyError the first rule is found or passed over.
  match_reached_head :
      (x : Rule) (xs : List Rule)
      → is_some (action_patch a x payload) ≡ true
      → (match_reached a d task payload (x ∷ xs) ≡ match_reached a d task payload xs)
        ⊎ (match_reached a d task payload (x ∷ xs) ≡ matched x)
  unfolding match_reached
  match_reached_head x xs k = elim (Option-cases (action_patch a x payload)) [
    | inl e ↦ absurd (ground arith)
    | inr (patch, e) ↦ ground arith
  ]

  -- A rule whose tests pass and whose result the card shows is found, or one before it.
  pub match_reached-finds :
      (rules : List Rule) {rule : Rule} {patch : Dict Value}
      → Memᴰ rule rules
      → ((r : Rule) → Memᴰ r rules → is_some (action_patch a r payload) ≡ true)
      → may_have_applied a d task payload rule ≡ true
      → action_patch a rule payload ≡ some patch
      → holds_all task patch ≡ true
      → (r : Rule) × (match_reached a d task payload rules ≡ matched r)
  unfolding match_reached
  match_reached-finds [] m known t made shown = elim m [ ]
  match_reached-finds (x ∷ xs) {patch} (Memᴰ.head e) known t made shown =
      let t' : may_have_applied a d task payload x ≡ true = cc in
      let made' : action_patch a x payload ≡ some patch = cc in (x, ground arith)
  match_reached-finds (x ∷ xs) (Memᴰ.tail m) known t made shown =
      let (r, found) = match_reached-finds xs m (λ s n. known s (Memᴰ.tail n)) t made shown in
      elim (match_reached_head x xs (known x (Memᴰ.head refl))) [
        | inl skipped ↦ (r, skipped ∙ found)
        | inr first ↦ (x, first)
      ]

  pub matching_applied_rule-finds :
      (rules : List Rule) {rule : Rule} {patch : Dict Value}
      → Memᴰ rule rules
      → ((r : Rule) → Memᴰ r rules → is_some (action_patch a r payload) ≡ true)
      → may_have_applied a d task payload rule ≡ true
      → action_patch a rule payload ≡ some patch
      → holds_all task patch ≡ true
      → (r : Rule) × (matching_applied_rule a d rules task payload ≡ matched r)
  unfolding matching_applied_rule
  matching_applied_rule-finds rules m known t made shown =
      let (r, found) = match_reached-finds rules m known t made shown in (r, ground arith)
