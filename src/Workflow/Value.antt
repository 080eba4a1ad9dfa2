-- ===== src/Workflow/Value.antt =====
-- core/workflow.py, `blank` and `same_value`: the values that a card's fields hold. A value is
-- None, a text, a list of texts or a flat object; a card's columns are texts, selects and one
-- automatic number, which arrive as these.
use team_flow.Prelude.{
  String, ◌≡◌, refl, Bool, true, false, ◌&&◌, ◌||◌, Option, none, some, List, [], ◌∷◌, ◌++◌, arith,
  ◌==◌, eq_refl, elem, is_blank, all, is_empty, Dict, lookup, keys,
}

pub data Value : Type 0 where
  null : Value
  text : String → Value
  list : List String → Value
  object : Dict String → Value

-- d.get(k)
abbrev pub get : Dict Value → String → Value
get d k = elim (lookup d k) [ none ↦ null | some v ↦ v ]

-- value in xs, for a list or a set xs of texts
abbrev pub value_in : Value → List String → Bool
value_in (text s) xs = elem s xs
value_in _ xs = false

-- s == value, for a text s
abbrev pub value_is : Value → String → Bool
value_is (text t) s = t == s
value_is _ s = false

-- bool(value)
abbrev pub truthy : Value → Bool
truthy null = false
truthy (text String.[]) = false
truthy (text (String.◌∷◌ c s)) = true
truthy (list []) = false
truthy (list (x ∷ xs)) = true
truthy (object []) = false
truthy (object (x ∷ xs)) = true

pub lists_eq : List String → List String → Bool
lists_eq [] [] = true
lists_eq (x ∷ xs) (y ∷ ys) = x == y && lists_eq xs ys
lists_eq _ _ = false

unfoldable pub options_eq : Option String → Option String → Bool
options_eq none none = true
options_eq (some x) (some y) = x == y
options_eq _ _ = false

-- a == b. Two objects are equal if they agree at each other's keys.
unfoldable pub value_eq : Value → Value → Bool
unfolding lists_eq options_eq
value_eq null null = true
value_eq (text s) (text t) = s == t
value_eq (list xs) (list ys) = lists_eq xs ys
value_eq (object d) (object e) = all (λ k. options_eq (lookup d k) (lookup e k)) (keys d ++ keys e)
value_eq _ _ = false

unfoldable pub blank : Value → Bool
blank null = true
blank (text s) = is_blank s
blank (list xs) = is_empty xs
blank (object d) = is_empty d

unfoldable pub same_value : Value → Value → Bool
same_value current expected = blank current && blank expected || value_eq current expected

lists_eq_refl : (xs : List String) → lists_eq xs xs ≡ true
unfolding lists_eq
lists_eq_refl [] = refl
lists_eq_refl (x ∷ xs) = ground (arith, eq_refl x, lists_eq_refl xs)

options_eq_refl : (o : Option String) → options_eq o o ≡ true
unfolding options_eq
options_eq_refl none = refl
options_eq_refl (some x) = eq_refl x

all-options_eq :
    (d : Dict String) (ks : List String) → all (λ k. options_eq (lookup d k) (lookup d k)) ks ≡ true
all-options_eq d [] = refl
all-options_eq d (k ∷ ks) = ground (arith, options_eq_refl (lookup d k), all-options_eq d ks)

pub value_eq_refl : (v : Value) → value_eq v v ≡ true
unfolding value_eq
value_eq_refl null = refl
value_eq_refl (text s) = eq_refl s
value_eq_refl (list xs) = lists_eq_refl xs
value_eq_refl (object d) = all-options_eq d (keys d ++ keys d)

-- A field holds the value that was just written to it.
pub same_value_refl : (v : Value) → same_value v v ≡ true
unfolding same_value
same_value_refl v = ground (arith, value_eq_refl v)

-- a == b for two optional values of a dictionary
abbrev pub entries_eq : Option Value → Option Value → Bool
entries_eq none none = true
entries_eq (some v) (some w) = value_eq v w
entries_eq _ _ = false

-- a == b for two dictionaries: they agree at each other's keys.
unfoldable pub fields_eq : Dict Value → Dict Value → Bool
fields_eq d e = all (λ k. entries_eq (lookup d k) (lookup e k)) (keys d ++ keys e)
