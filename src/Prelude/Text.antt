-- ===== src/Prelude/Text.antt =====
-- Python's `str`: `strip`, `in`, `sorted(set(…))`, over the native texts.
use Prim.Native.Nat.{Ordering}
use Prim.Native.Char.{Char, code}
use Prim.Native.String.{String, compare as compare_text}
use mathlib.Core.Path.{◌≡◌, refl}
use mathlib.Core.Bool.{Bool, true, false, ◌&&◌, ◌||◌}
use mathlib.Core.Logic.{inl, inr}
use mathlib.Core.List.{List, [], ◌∷◌, Memᴰ}
use native.Mathlib.Omega.{arith}
use text.Mathlib.TextEquality.{eq_iff}
use text.Mathlib.TextPositions.{eq_refl}
use team_flow.Prelude.Tests.{leb, nat_beq, if◌then◌else◌, Bool-cases}
use team_flow.Prelude.Lists.{is_empty, filter}
pub use text.Mathlib.Text.{◌==◌, starts_with}

-- x in xs, for a list or a set of texts
abbrev pub elem : String → List String → Bool
elem x [] = false
elem x (y ∷ ys) = x == y || elem x ys

-- set(xs) <= set(ys)
abbrev pub subset : List String → List String → Bool
subset [] ys = true
subset (x ∷ xs) ys = elem x ys && subset xs ys

-- str.isspace, on one character
unfoldable pub is_space : Char → Bool
is_space ch =
    let c = code ch in
    leb 9 c && leb c 13
    || leb 28 c && leb c 32
    || nat_beq c 133
    || nat_beq c 160
    || nat_beq c 5760
    || leb 8192 c && leb c 8202
    || nat_beq c 8232
    || nat_beq c 8233
    || nat_beq c 8239
    || nat_beq c 8287
    || nat_beq c 12288

unfoldable pub lstrip : String → String
lstrip String.[] = String.[]
lstrip (String.◌∷◌ c s) = if is_space c then lstrip s else String.◌∷◌ c s

-- The character `c` in front of the text `s` that has been stripped on its right.
unfoldable pub strip_cons : Char → String → String
strip_cons c String.[] = if is_space c then String.[] else String.◌∷◌ c String.[]
strip_cons c (String.◌∷◌ d s) = String.◌∷◌ c (String.◌∷◌ d s)

unfoldable pub rstrip : String → String
rstrip String.[] = String.[]
rstrip (String.◌∷◌ c s) = strip_cons c (rstrip s)

unfoldable pub strip : String → String
unfolding is_space lstrip rstrip strip_cons
strip s = rstrip (lstrip s)

-- not s.strip()
unfoldable pub is_blank : String → Bool
unfolding strip
is_blank s = strip s == ""

-- a < b, by code points
unfoldable pub text_lt : String → String → Bool
text_lt s t = elim (compare_text s t) [ Ordering.lt ↦ true | _ ↦ false ]

unfoldable pub insert_sorted : String → List String → List String
insert_sorted x [] = x ∷ []
insert_sorted x (y ∷ ys) =
    if x == y then y ∷ ys else if text_lt x y then x ∷ y ∷ ys else y ∷ insert_sorted x ys

-- sorted(set(xs))
unfoldable pub sorted_set : List String → List String
unfolding insert_sorted text_lt
sorted_set [] = []
sorted_set (x ∷ xs) = insert_sorted x (sorted_set xs)

strip_test : strip " a b \n" ≡ "a b"
unfolding strip
strip_test = refl

sorted_set_test : sorted_set ("b" ∷ "a" ∷ "b" ∷ []) ≡ "a" ∷ "b" ∷ []
unfolding sorted_set
sorted_set_test = refl

-- Membership as a test and as a derivation agree.
pub elem-mem : {x : String} (xs : List String) → elem x xs ≡ true → Memᴰ x xs
elem-mem [] h = cc
elem-mem {x} (y ∷ ys) h = elim (Bool-cases (x == y)) [
  | inl e ↦ Memᴰ.head ((eq_iff x y).0 e)
  | inr e ↦ Memᴰ.tail (elem-mem ys (ground arith))
]

pub mem-elem : {x : String} (xs : List String) → Memᴰ x xs → elem x xs ≡ true
mem-elem [] m = elim m [ ]
mem-elem {x} (y ∷ ys) (Memᴰ.head e) = let q : (x == y) ≡ true = (eq_iff x y).1 e in ground arith
mem-elem {x} (y ∷ ys) (Memᴰ.tail m) = ground (arith, mem-elem ys m)

module _ (p : String → Bool) where
  -- A comprehension with no result: its test fails at every element, and conversely.
  pub none_pass :
      (xs : List String) (x : String)
      → is_empty (filter p xs) ≡ true
      → elem x xs ≡ true
      → p x ≡ false
  none_pass [] x h m = cc
  none_pass (y ∷ ys) x h m = elim (Bool-cases (x == y)) [
    | inl e ↦ let q : x ≡ y = (eq_iff x y).0 e in rw q (ground arith)
    | inr e ↦ none_pass ys x (ground arith) (ground arith)
  ]

  pub empty_of_none_pass :
      (xs : List String)
      → ((x : String) → elem x xs ≡ true → p x ≡ false)
      → is_empty (filter p xs) ≡ true
  empty_of_none_pass [] h = refl
  empty_of_none_pass (y ∷ ys) h =
      let here : p y ≡ false = h y (ground (arith, eq_refl y)) in
      rw here (empty_of_none_pass ys (λ x m. h x (ground arith)))

pub subset-elem :
    (xs ys : List String) (x : String) → subset xs ys ≡ true → elem x xs ≡ true → elem x ys ≡ true
subset-elem [] ys x h m = cc
subset-elem (z ∷ zs) ys x h m = elim (Bool-cases (x == z)) [
  | inl e ↦ let q : x ≡ z = (eq_iff x z).0 e in rw q (ground arith)
  | inr e ↦ subset-elem zs ys x (ground arith) (ground arith)
]

pub subset_of_elem :
    (xs ys : List String)
    → ((x : String) → elem x xs ≡ true → elem x ys ≡ true)
    → subset xs ys ≡ true
subset_of_elem [] ys h = refl
subset_of_elem (z ∷ zs) ys h =
    let here : elem z ys ≡ true = h z (ground (arith, eq_refl z)) in
    rw here (subset_of_elem zs ys (λ x m. h x (ground arith)))

insert_sorted-nonempty : (x : String) (ys : List String) → is_empty (insert_sorted x ys) ≡ false
unfolding insert_sorted
insert_sorted-nonempty x [] = refl
insert_sorted-nonempty x (y ∷ ys) = ground arith

pub is_empty-sorted_set : (xs : List String) → is_empty (sorted_set xs) ≡ is_empty xs
unfolding sorted_set
is_empty-sorted_set [] = refl
is_empty-sorted_set (x ∷ xs) = insert_sorted-nonempty x (sorted_set xs)
