-- ===== src/Workflow/Rules/Patch.antt =====
-- What `action_patch` writes, field by field.
use team_flow.Prelude.{
  String, ◌≡◌, refl, sym, ap, ◌∙◌, subst, lookup-put_self, true, false, Option, none, some, [], ◌∷◌,
  elem, arith, Option-cases, inl, inr, ◌==◌, eq_iff, Dict, lookup, put, update, keys, put_each,
  lookup-put, lookup-update_absent, lookup-absent, lookup-put_each, Distinct, put-Distinct,
  update-Distinct, put_each-Distinct,
}
use Prim.Native.String.{◌++◌ as append}
use mathlib.Core.Option.{some-injective}
use team_flow.Workflow.Repr.{as_text}
use team_flow.Workflow.Value.{Value, null, text, get, blank}
use team_flow.Workflow.Definition.{Rule, Assignment, assignment_get}
use team_flow.Workflow.Rules.{add_prefix, add_prefixes, bind_actor, set_status, action_patch}

lookup-add_prefix :
    (patch : Dict Value) (field prefix j : String)
    → lookup patch j ≡ none
    → lookup (add_prefix patch field prefix) j ≡ none
unfolding add_prefix blank
lookup-add_prefix patch field prefix j h = ground (
  arith,
  eq_iff field j,
  lookup-put patch field j (text (append prefix (as_text (get patch field)))),
)

lookup-add_prefixes :
    (patch : Dict Value) (prefixes : Dict String) (j : String)
    → lookup patch j ≡ none
    → lookup (add_prefixes patch prefixes) j ≡ none
unfolding add_prefixes
lookup-add_prefixes patch [] j h = h
lookup-add_prefixes patch ((field, prefix) ∷ rest) j h =
    lookup-add_prefixes (add_prefix patch field prefix) rest j
      (lookup-add_prefix patch field prefix j h)

-- A key that no binding names keeps its value.
lookup-bind_actor :
    (a : Assignment) (patch : Dict Value) (bindings : Dict String) (j : String) {bound : Dict Value}
    → elem j (keys bindings) ≡ false
    → bind_actor a patch bindings ≡ some bound
    → lookup bound j ≡ lookup patch j
unfolding bind_actor
lookup-bind_actor a patch [] j m h =
    ap (λ (d : Dict Value). lookup d j) (some-injective _ _ (sym h))
lookup-bind_actor a patch ((field, source) ∷ rest) j {bound} m h =
    elim (Option-cases (assignment_get a source)) [
      | inl e ↦ absurd (ground arith)
      | inr (value, e) ↦ ground (
        arith,
        lookup-bind_actor a (put patch field (text value)) rest j {bound = bound},
        lookup-put patch field j (text value),
        eq_iff j field,
        eq_iff field j,
      )
    ]

lookup-set_status :
    (patch : Dict Value) (to : Option String) (j : String)
    → (j == "status") ≡ false
    → lookup (set_status patch to) j ≡ lookup patch j
unfolding set_status
lookup-set_status patch none j h = refl
lookup-set_status patch (some String.[]) j h = refl
lookup-set_status patch (some (String.◌∷◌ c s)) j h = ground (
  arith,
  lookup-put patch "status" j (text (String.◌∷◌ c s)),
  eq_iff j "status",
  eq_iff "status" j,
)

add_prefixes-Distinct :
    (patch : Dict Value) (prefixes : Dict String)
    → Distinct (keys patch)
    → Distinct (keys (add_prefixes patch prefixes))
unfolding add_prefixes add_prefix
add_prefixes-Distinct patch [] u = u
add_prefixes-Distinct patch ((field, prefix) ∷ rest) u =
    add_prefixes-Distinct (add_prefix patch field prefix) rest (once u)
  where
    once : Distinct (keys patch) → Distinct (keys (add_prefix patch field prefix))
    once v =
        ground (arith, put-Distinct patch field (text (append prefix (as_text (get patch field)))))

bind_actor-Distinct :
    (a : Assignment) (patch : Dict Value) (bindings : Dict String) {bound : Dict Value}
    → Distinct (keys patch)
    → bind_actor a patch bindings ≡ some bound
    → Distinct (keys bound)
unfolding bind_actor
bind_actor-Distinct a patch [] u h = subst (λ d. Distinct (keys d)) (some-injective _ _ h) u
bind_actor-Distinct a patch ((field, source) ∷ rest) u h =
    elim (Option-cases (assignment_get a source)) [
      | inl e ↦ absurd (ground arith)
      | inr (value, e) ↦
          bind_actor-Distinct a (put patch field (text value)) rest
            (put-Distinct patch field (text value) u) (ground arith)
    ]

set_status-Distinct :
    (patch : Dict Value) (to : Option String)
    → Distinct (keys patch)
    → Distinct (keys (set_status patch to))
unfolding set_status
set_status-Distinct patch none u = u
set_status-Distinct patch (some String.[]) u = u
set_status-Distinct patch (some (String.◌∷◌ c s)) u =
    put-Distinct patch "status" (text (String.◌∷◌ c s)) u

-- The patch before its actor fields are bound.
abbrev pub filled : Rule → Dict Value → Dict Value
filled rule payload =
    add_prefixes (update (update rule.defaults payload) rule.fixed_fields) rule.field_prefixes

module _ (a : Assignment) (rule : Rule) (payload : Dict Value) {patch : Dict Value} where
  -- The stages of the patch.
  action_patch_stages :
      action_patch a rule payload ≡ some patch
      → (bound : Dict Value) × (bind_actor a (filled rule payload) rule.actor_fields ≡ some bound)
        × (patch ≡ set_status (put_each bound rule.clear_fields null) rule.to)
  unfolding action_patch
  action_patch_stages h =
      elim (Option-cases (bind_actor a (filled rule payload) rule.actor_fields)) [
        | inl e ↦ absurd (ground arith)
        | inr (bound, e) ↦ (bound, e, ground arith)
      ]

  -- A field that neither the payload nor any part of the rule names is not written.
  pub action_patch_untouched :
      (j : String)
      → action_patch a rule payload ≡ some patch
      → (j == "status") ≡ false
      → elem j (keys payload) ≡ false
      → elem j (keys rule.defaults) ≡ false
      → elem j (keys rule.fixed_fields) ≡ false
      → elem j (keys rule.actor_fields) ≡ false
      → elem j rule.clear_fields ≡ false
      → lookup patch j ≡ none
  action_patch_untouched j h s p d f b c =
      let (bound, e, q) = action_patch_stages h in
      let started : lookup (update (update rule.defaults payload) rule.fixed_fields) j ≡ none =
        lookup-update_absent (update rule.defaults payload) rule.fixed_fields j f
        ∙ lookup-update_absent rule.defaults payload j p
        ∙ lookup-absent rule.defaults j d in
      lookup_of q
      ∙ lookup-set_status (put_each bound rule.clear_fields null) rule.to j s
      ∙ lookup-put_each bound rule.clear_fields j null
      ∙ rw c (lookup-bind_actor a (filled rule payload) rule.actor_fields j b e)
      ∙ lookup-add_prefixes _ rule.field_prefixes j started
    where
      lookup_of : {d e : Dict Value} → d ≡ e → lookup d j ≡ lookup e j
      lookup_of q = ap (λ (d : Dict Value). lookup d j) q

  -- Every field that the rule clears is None in the patch.
  pub action_patch_cleared :
      (j : String)
      → action_patch a rule payload ≡ some patch
      → (j == "status") ≡ false
      → elem j rule.clear_fields ≡ true
      → lookup patch j ≡ some null
  action_patch_cleared j h s c =
      let (bound, e, q) = action_patch_stages h in
      ap (λ (d : Dict Value). lookup d j) q
      ∙ lookup-set_status (put_each bound rule.clear_fields null) rule.to j s
      ∙ lookup-put_each bound rule.clear_fields j null
      ∙ rw c

  -- The patch moves the card to the rule's target, if the rule has one.
  pub action_patch_status :
      (state : String)
      → action_patch a rule payload ≡ some patch
      → rule.to ≡ some state
      → (state == "") ≡ false
      → lookup patch "status" ≡ some (text state)
  action_patch_status String.[] h t s = absurd (ground arith)
  action_patch_status (String.◌∷◌ c r) h t s =
      let (bound, e, q) = action_patch_stages h in
      rw q (
        rw t (
          unfold set_status in
          lookup-put_self (put_each bound rule.clear_fields null) "status" (text (String.◌∷◌ c r))))

  pub action_patch-Distinct :
      action_patch a rule payload ≡ some patch
      → Distinct (keys rule.defaults)
      → Distinct (keys patch)
  action_patch-Distinct h u =
      let (bound, e, q) = action_patch_stages h in
      subst (λ d. Distinct (keys d)) (sym q)
        (set_status-Distinct _ rule.to (
          put_each-Distinct bound rule.clear_fields null (
            bind_actor-Distinct a (filled rule payload) rule.actor_fields
              (add_prefixes-Distinct _ rule.field_prefixes
                (update-Distinct _ rule.fixed_fields (update-Distinct rule.defaults payload u)))
              e)))
