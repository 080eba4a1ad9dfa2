-- ===== src/Prelude/Rows/Appended.antt =====
-- Rows that are appended, and rows that a statement leaves in place.
use mathlib.Core.Path.{◌≡◌, refl, ap, subst}
use mathlib.Core.Logic.{inl, inr}
use mathlib.Core.Bool.{Bool, true, false}
use mathlib.Core.List.{List, [], ◌∷◌, ◌++◌, Memᴰ}
use native.Mathlib.Omega.{arith}
use team_flow.Prelude.Tests.{Bool-cases}
use team_flow.Prelude.Lists.{All, any}
use team_flow.Prelude.Rows.{update_rows, updated, Pairwise}

module _ {ℓ} {A : Type ℓ} where
  pub All-snoc {κ} : (P : A → Type κ) (xs : List A) (y : A) → All P xs → P y → All P (xs ++ y ∷ [])
  All-snoc P [] y a h = (h, tt)
  All-snoc P (x ∷ xs) y a h = (a.0, All-snoc P xs y a.1 h)

  pub Pairwise-snoc :
      (R : A → A → Type 0) (xs : List A) (y : A)
      → Pairwise R xs
      → All (λ x. R x y) xs
      → Pairwise R (xs ++ y ∷ [])
  Pairwise-snoc R [] y r a = (tt, tt)
  Pairwise-snoc R (x ∷ xs) y r a = (All-snoc (R x) xs y r.0 a.0, Pairwise-snoc R xs y r.1 a.1)

  module _ (p : A → Bool) (f : A → A) (q : A → Bool) where
    -- A row that the statement does not select stays.
    pub any_kept :
        (xs : List A)
        → ((x : A) → q x ≡ true → p x ≡ false)
        → any q xs ≡ true
        → any q (update_rows p f xs) ≡ true
    any_kept [] keeps h = h
    any_kept (x ∷ xs) keeps h = elim (Bool-cases (q x)) [
      | inl e ↦ let k = keeps x e in rw (k, e) refl
      | inr e ↦
          let rest = any_kept xs keeps (ground arith) in
          rw rest (ground (arith, Bool-cases (q (updated p f x))))
    ]

    -- One that it selects becomes what it is set to.
    pub any_set :
        (xs : List A) {x : A}
        → Memᴰ x xs
        → p x ≡ true
        → q (f x) ≡ true
        → any q (update_rows p f xs) ≡ true
    any_set [] m h k = elim m [ ]
    any_set (y ∷ ys) (Memᴰ.head e) h k =
        let a : p y ≡ true = subst (λ z. p z ≡ true) e h in
        let b : q (f y) ≡ true = subst (λ z. q (f z) ≡ true) e k in rw (a, b) refl
    any_set (y ∷ ys) (Memᴰ.tail m) h k =
        let rest = any_set ys m h k in rw rest (ground (arith, Bool-cases (q (updated p f y))))

  pub update_rows-mem :
      (p : A → Bool) (f : A → A) (xs : List A) {x : A}
      → Memᴰ x xs
      → Memᴰ (updated p f x) (update_rows p f xs)
  update_rows-mem p f [] m = elim m [ ]
  update_rows-mem p f (y ∷ ys) (Memᴰ.head e) = Memᴰ.head (ap (updated p f) e)
  update_rows-mem p f (y ∷ ys) (Memᴰ.tail m) = Memᴰ.tail (update_rows-mem p f ys m)

  pub any_same :
      (p : A → Bool) (f : A → A) (q : A → Bool) (xs : List A)
      → ((x : A) → q (f x) ≡ q x)
      → any q (update_rows p f xs) ≡ any q xs
  any_same p f q [] keeps = refl
  any_same p f q (x ∷ xs) keeps = elim (Bool-cases (p x)) [
    | inl e ↦ rw (e, keeps x, any_same p f q xs keeps) refl
    | inr e ↦ rw (e, any_same p f q xs keeps) refl
  ]

  pub any_more : (q : A → Bool) (xs ys : List A) → any q xs ≡ true → any q (xs ++ ys) ≡ true
  any_more q [] ys h = cc
  any_more q (x ∷ xs) ys h = elim (Bool-cases (q x)) [
    | inl e ↦ rw e refl
    | inr e ↦ let r : any q xs ≡ true = ground arith in rw e (any_more q xs ys r)
  ]

  pub any_last : (q : A → Bool) (xs : List A) (y : A) → q y ≡ true → any q (xs ++ y ∷ []) ≡ true
  any_last q [] y h = ground arith
  any_last q (x ∷ xs) y h = rw (any_last q xs y h) (ground (arith, Bool-cases (q x)))

  pub mem_more : (xs ys : List A) {x : A} → Memᴰ x xs → Memᴰ x (xs ++ ys)
  mem_more [] ys m = elim m [ ]
  mem_more (z ∷ xs) ys (Memᴰ.head e) = Memᴰ.head e
  mem_more (z ∷ xs) ys (Memᴰ.tail m) = Memᴰ.tail (mem_more xs ys m)

  pub mem_last : (xs : List A) (y : A) → Memᴰ y (xs ++ y ∷ [])
  mem_last [] y = Memᴰ.head refl
  mem_last (x ∷ xs) y = Memᴰ.tail (mem_last xs y)
