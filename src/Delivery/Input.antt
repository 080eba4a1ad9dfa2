-- ===== src/Delivery/Input.antt =====
-- core/delivery.py, `normalize_delivery_input` and `normalize_resource_input`: what an agent may say
-- about the delivery of a task. A value of the input is what the code looks at of it: the text
-- `str(value or "")`, and its members if it is an object. `files` is pathlib, a parameter.
pub mod Cases
pub mod Clean
use team_flow.Prelude.{
  String, Bool, not, Option, none, some, List, [], ◌∷◌, ◌==◌, elem, strip, is_empty, filter,
  if◌then◌else◌, Dict, lookup, keys, sorted_set,
}
use team_flow.Delivery.Git.{is_object_id}
use team_flow.Delivery.Gate.{Files, agent_sha_fields}
use team_flow.Delivery.Resources.{Resources, Item, item, other_item, Member, array, other_member}

pub record Given : Type 0 where
  pub shown : String
  pub members : Option (Dict Member)

pub data DeliveryInput : Type 0 where
  no_delivery : DeliveryInput
  not_an_object : DeliveryInput
  supplied : Dict Given → DeliveryInput

-- A delivery once it is normalized: its texts by field, and its resources.
pub record Delivery : Type 0 where
  pub fields : Dict String
  pub resources : Option Resources

-- A result or the ValueError; its prose is left out.
pub data InputFault : Type 0 where
  delivery_not_object resources_not_object : InputFault
  set_by_team_flow unknown_fields unknown_kinds : List String → InputFault
  not_an_object_id not_text_array : String → InputFault

pub data Normal (A : Type 0) : Type 0 where
  normal : A → Normal A
  input_fault : InputFault → Normal A

infixl 5 ◌>>=◌
abbrev pub ◌>>=◌ : {A B : Type 0} → Normal A → (A → Normal B) → Normal B
normal a >>= f = f a
input_fault e >>= f = input_fault e

abbrev pub delivery_fields : List String
delivery_fields =
    "delivery_mode" ∷ "candidate_sha" ∷ "verified_sha" ∷ "promoted_sha" ∷ "resources" ∷ []

abbrev pub system_fields : List String
system_fields = "target_branch" ∷ "base_sha" ∷ []

abbrev pub resource_kinds : List String
resource_kinds = "branches" ∷ "worktrees" ∷ []

-- set(d) - known
abbrev pub unknown_keys {ℓ} : {V : Type ℓ} → Dict V → List String → List String
unknown_keys d known = filter (λ f. not (elem f known)) (keys d)

-- The items of one kind, stripped, without the blank ones. `place` is what becomes of an item.
unfoldable pub clean_items : (String → String) → String → List Item → Normal (List String)
clean_items place kind [] = normal []
clean_items place kind (other_item ∷ items) = input_fault (not_text_array kind)
clean_items place kind (item s ∷ items) = do
  rest ← clean_items place kind items
  normal (if strip s == "" then rest else place (strip s) ∷ rest)

unfoldable pub clean_kind : (String → String) → Dict Member → String → Normal (List String)
clean_kind place d kind = elim (lookup d kind) [
  | none ↦ normal []
  | some m ↦ elim m [
    | other_member ↦ input_fault (not_text_array kind)
    | array items ↦ clean_items place kind items
  ]
]

-- The loop over AGENT_SHA_FIELDS.
unfoldable pub normalize_shas : Dict Given → List String → Normal (Dict String)
normalize_shas d [] = normal []
normalize_shas d (field ∷ fields) =
    let rest = normalize_shas d fields in
    elim (lookup d field) [
      | none ↦ rest
      | some value ↦
          if strip value.shown == ""
          then rest
          else if not (is_object_id (strip value.shown))
          then input_fault (not_an_object_id field)
          else rest >>= λ later. normal ((field, strip value.shown) ∷ later)
    ]

unfoldable pub normalize_mode : Option Given → Dict String → Dict String
normalize_mode none later = later
normalize_mode (some mode) later = ("delivery_mode", mode.shown) ∷ later

-- The fields that only TeamFlow sets are named first.
unfoldable pub unknown_fault : List String → InputFault
unknown_fault unknown =
    let overridden = filter (λ f. elem f system_fields) unknown in
    if not (is_empty overridden)
    then set_by_team_flow (sorted_set overridden)
    else unknown_fields (sorted_set unknown)

module _ (files : Files) (workspace : String) where
  -- (root / value).resolve() or Path(value).resolve()
  unfoldable pub worktree_path : String → String
  worktree_path value =
      if files.is_absolute value
      then files.resolve value
      else files.resolve (files.join (files.resolve (files.expanduser workspace)) value)

  unfoldable pub clean_members : Dict Member → Normal Resources
  clean_members d = do
    branches ← clean_kind (λ value. value) d "branches"
    worktrees ← clean_kind worktree_path d "worktrees"
    normal (record { branches = branches; worktrees = worktrees })

  unfoldable pub normalize_resource_input : Given → Normal Resources
  normalize_resource_input resources = elim resources.members [
    | none ↦ input_fault resources_not_object
    | some d ↦
        if not (is_empty (unknown_keys d resource_kinds))
        then input_fault (unknown_kinds (sorted_set (unknown_keys d resource_kinds)))
        else clean_members d
  ]

  unfoldable pub normalize_resources : Option Given → Normal (Option Resources)
  normalize_resources none = normal none
  normalize_resources (some given) = do
    resources ← normalize_resource_input given
    normal (some resources)

  unfoldable pub normalize_fields : Dict Given → Normal Delivery
  normalize_fields d = do
    shas ← normalize_shas d agent_sha_fields
    resources ← normalize_resources (lookup d "resources")
    normal
        (record { fields = normalize_mode (lookup d "delivery_mode") shas; resources = resources })

  unfoldable pub normalize_delivery_input : DeliveryInput → Normal Delivery
  normalize_delivery_input no_delivery = normal (record { fields = []; resources = none })
  normalize_delivery_input not_an_object = input_fault delivery_not_object
  normalize_delivery_input (supplied d) =
      if not (is_empty (unknown_keys d delivery_fields))
      then input_fault (unknown_fault (unknown_keys d delivery_fields))
      else normalize_fields d
