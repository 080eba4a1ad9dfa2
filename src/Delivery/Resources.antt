-- ===== src/Delivery/Resources.antt =====
-- core/delivery.py, `parse_resources` to `append_resources`: the branches and worktrees that a card
-- declares, as the JSON text of one column. `json` is a parameter: `loads` answers with the parts
-- of the value that the code looks at, or with nothing where the text is not JSON.
pub mod Appends
use team_flow.Prelude.{
  String, Bool, ◌||◌, Option, none, some, List, [], ◌∷◌, ◌++◌, ◌==◌, elem, is_blank, strip,
  if◌then◌else◌, Dict, lookup,
}

pub data Item : Type 0 where
  item : String → Item
  other_item : Item

pub data Member : Type 0 where
  array : List Item → Member
  other_member : Member

pub data JsonValue : Type 0 where
  json_object : Dict Member → JsonValue
  other_value : JsonValue

pub record Resources : Type 0 where
  pub branches : List String
  pub worktrees : List String

pub record Json : Type 0 where
  pub loads : String → Option JsonValue
  pub dumps : Resources → String

pub data Parsed (A : Type 0) : Type 0 where
  parsed : A → Parsed A
  invalid : Parsed A

abbrev pub no_resources : Resources
no_resources = record { branches = []; worktrees = [] }

-- [item.strip() for item in values if item.strip()], where every item is a text
unfoldable pub strip_items : List Item → Parsed (List String)
strip_items [] = parsed []
strip_items (other_item ∷ items) = invalid
strip_items (item s ∷ items) = elim (strip_items items) [
  | invalid ↦ invalid
  | parsed rest ↦ parsed (if strip s == "" then rest else strip s ∷ rest)
]

unfoldable pub parse_kind : Dict Member → String → Parsed (List String)
parse_kind d kind = elim (lookup d kind) [
  | none ↦ parsed []
  | some m ↦ elim m [ other_member ↦ invalid | array items ↦ strip_items items ]
]

unfoldable pub parse_members : Dict Member → Parsed Resources
parse_members d = elim (parse_kind d "branches") [
  | invalid ↦ invalid
  | parsed branches ↦ elim (parse_kind d "worktrees") [
    | invalid ↦ invalid
    | parsed worktrees ↦ parsed (record { branches = branches; worktrees = worktrees })
  ]
]

module _ (json : Json) where
  unfoldable pub parse_resources : String → Parsed Resources
  parse_resources raw = if is_blank raw then parsed no_resources else elim (json.loads raw) [
    | none ↦ invalid
    | some value ↦ elim value [ other_value ↦ invalid | json_object d ↦ parse_members d ]
  ]

  -- One round of the inner loop of `append_resources`.
  unfoldable pub add_item : List String → String → List String
  add_item items new =
      let value = strip new in
      if value == "" || elem value items then items else items ++ (value ∷ [])

  unfoldable pub add_items : List String → List String → List String
  add_items items [] = items
  add_items items (new ∷ added) = add_items (add_item items new) added

  unfoldable pub added_to : Resources → Resources → Resources
  added_to resources added = record {
    branches = add_items resources.branches added.branches;
    worktrees = add_items resources.worktrees added.worktrees;
  }

  unfoldable pub append_resources : String → Resources → Parsed String
  append_resources current added = elim (parse_resources current) [
    | invalid ↦ invalid
    | parsed resources ↦ parsed (json.dumps (added_to resources added))
  ]
