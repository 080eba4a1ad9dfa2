-- ===== src/Prelude/Lists.antt =====
-- Python's comprehensions, `any`, `all` and `next` over lists, measured by native numbers.
use Prim.Native.Nat.{zero, ℕ, suc}
use mathlib.Core.Path.{◌≡◌, refl}
use mathlib.Core.Logic.{◌⊎◌, inl, inr}
use mathlib.Core.Bool.{Bool, true, false, not, ◌&&◌, ◌||◌}
use mathlib.Core.Option.{Option, none, some}
use mathlib.Core.List.{List, [], ◌∷◌, Memᴰ}
use mathlib.Core.List.Memᴰ
use native.Mathlib.Omega.{arith}
use team_flow.Prelude.Tests.{if◌then◌else◌, Bool-cases}

module _ {ℓ} {A : Type ℓ} where
  -- The first `n`, and what follows them.
  abbrev pub take : ℕ → List A → List A
  take zero xs = []
  take (suc n) [] = []
  take (suc n) (x ∷ xs) = x ∷ take n xs

  abbrev pub drop : ℕ → List A → List A
  drop zero xs = xs
  drop (suc n) [] = []
  drop (suc n) (x ∷ xs) = drop n xs

  abbrev pub length : List A → ℕ
  length [] = 0
  length (x ∷ xs) = suc (length xs)

  abbrev pub is_empty : List A → Bool
  is_empty [] = true
  is_empty (x ∷ xs) = false

  abbrev pub all : (A → Bool) → List A → Bool
  all p [] = true
  all p (x ∷ xs) = p x && all p xs

  abbrev pub any : (A → Bool) → List A → Bool
  any p [] = false
  any p (x ∷ xs) = p x || any p xs

  -- [x for x in xs if p(x)]
  abbrev pub filter : (A → Bool) → List A → List A
  filter p [] = []
  filter p (x ∷ xs) = let rest = filter p xs in if p x then x ∷ rest else rest

  -- next((x for x in xs if p(x)), None)
  abbrev pub find? : (A → Bool) → List A → Option A
  find? p [] = none
  find? p (x ∷ xs) = if p x then some x else find? p xs

  -- A predicate on every element; it computes to a tuple.
  abbrev pub All {κ} : (A → Type κ) → List A → Type κ
  All P [] = Unit
  All P (x ∷ xs) = P x × All P xs

module _ {ℓ} {A : Type ℓ} where
  pub mem-filter :
      (p : A → Bool) (xs : List A) {x : A} → Memᴰ x (filter p xs) → Memᴰ x xs × (p x ≡ true)
  mem-filter p [] m = elim m [ ]
  mem-filter p (y ∷ ys) {x} m = elim (Bool-cases (p y)) [
    | inl e ↦
        let here : Memᴰ x (y ∷ filter p ys) = rw e at m in
        elim (Memᴰ.cases_cons here) [
          | inl q ↦ (Memᴰ.head q, cc)
          | inr r ↦ (Memᴰ.tail (mem-filter p ys r).0, (mem-filter p ys r).1)
        ]
    | inr e ↦
        let rest : Memᴰ x (filter p ys) = rw e at m in
        (Memᴰ.tail (mem-filter p ys rest).0, (mem-filter p ys rest).1)
  ]

  pub find?-mem :
      (p : A → Bool) (xs : List A) {x : A} → find? p xs ≡ some x → Memᴰ x xs × (p x ≡ true)
  find?-mem p [] h = cc
  find?-mem p (y ∷ ys) {x} h = elim (Bool-cases (p y)) [
    | inl e ↦ let q : x ≡ y = ground arith in (Memᴰ.head q, cc)
    | inr e ↦
        let r : find? p ys ≡ some x = ground arith in
        (Memᴰ.tail (find?-mem p ys r).0, (find?-mem p ys r).1)
  ]

  pub all-mem : (p : A → Bool) (xs : List A) {x : A} → all p xs ≡ true → Memᴰ x xs → p x ≡ true
  all-mem p [] h m = elim m [ ]
  all-mem p (y ∷ ys) h (Memᴰ.head e) = let q : p y ≡ true = ground arith in cc
  all-mem p (y ∷ ys) h (Memᴰ.tail m) = all-mem p ys (ground arith) m

  pub any-mem : (p : A → Bool) (xs : List A) {x : A} → Memᴰ x xs → p x ≡ true → any p xs ≡ true
  any-mem p [] m h = elim m [ ]
  any-mem p (y ∷ ys) (Memᴰ.head e) h = let q : p y ≡ true = cc in ground arith
  any-mem p (y ∷ ys) (Memᴰ.tail m) h = ground (arith, any-mem p ys m h)

  pub filter-is_empty :
      (p : A → Bool) (xs : List A) {x : A} → Memᴰ x xs → p x ≡ true → is_empty (filter p xs) ≡ false
  filter-is_empty p [] m h = elim m [ ]
  filter-is_empty p (y ∷ ys) (Memᴰ.head e) h = let q : p y ≡ true = cc in ground arith
  filter-is_empty p (y ∷ ys) (Memᴰ.tail m) h = ground (arith, filter-is_empty p ys m h)

  -- Nothing passes the filter exactly when the test fails everywhere.
  pub all-filter : (p : A → Bool) (xs : List A) → filter p xs ≡ [] → all (λ x. not (p x)) xs ≡ true
  all-filter p [] h = refl
  all-filter p (y ∷ ys) h = ground (arith, all-filter p ys)

module _ {ℓ} {A : Type ℓ} where
  pub filter-mem :
      (p : A → Bool) (xs : List A) {x : A} → Memᴰ x xs → p x ≡ true → Memᴰ x (filter p xs)
  filter-mem p [] m h = elim m [ ]
  filter-mem p (y ∷ ys) (Memᴰ.head e) h = let q : p y ≡ true = cc in rw q (Memᴰ.head e)
  filter-mem p (y ∷ ys) (Memᴰ.tail m) h = elim (Bool-cases (p y)) [
    | inl e ↦ rw e (Memᴰ.tail (filter-mem p ys m h))
    | inr e ↦ rw e (filter-mem p ys m h)
  ]

  pub List-cases : (xs : List A) → (xs ≡ []) ⊎ ((x : A) × (rest : List A) × (xs ≡ x ∷ rest))
  List-cases [] = inl refl
  List-cases (x ∷ rest) = inr (x, rest, refl)
