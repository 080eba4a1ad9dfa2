-- ===== src/Prelude/Rows/Keys.antt =====
-- Rows that a key tells apart: what a search finds, and how many rows a statement counts.
use Prim.Native.Nat.{◌≤◌}
use mathlib.Core.Path.{◌≡◌, refl, sym, ap, subst}
use mathlib.Core.Logic.{inl, inr}
use mathlib.Core.Bool.{Bool, true, false, ◌&&◌}
use mathlib.Core.Option.{some}
use mathlib.Core.List.{List, [], ◌∷◌, Memᴰ}
use native.Mathlib.Omega.{arith}
use team_flow.Prelude.Tests.{Bool-cases}
use team_flow.Prelude.Lists.{any, find?}
use team_flow.Prelude.Rows.{update_rows, updated, rowcount, Pairwise, All-mem}

module _ {ℓ} {A : Type ℓ} where
  pub any-witness :
      (p : A → Bool) (xs : List A) → any p xs ≡ true → (x : A) × Memᴰ x xs × (p x ≡ true)
  any-witness p [] h = cc
  any-witness p (x ∷ xs) h = elim (Bool-cases (p x)) [
    | inl e ↦ (x, Memᴰ.head refl, e)
    | inr e ↦ let r = any-witness p xs (ground arith) in (r.0, Memᴰ.tail r.1, r.2)
  ]

  pub rowcount-witness :
      (p : A → Bool) (xs : List A) → 1 ≤ rowcount p xs → (x : A) × Memᴰ x xs × (p x ≡ true)
  rowcount-witness p [] h = absurd (omega arith)
  rowcount-witness p (x ∷ xs) h = elim (Bool-cases (p x)) [
    | inl e ↦ (x, Memᴰ.head refl, e)
    | inr e ↦ let r = rowcount-witness p xs (ground arith) in (r.0, Memᴰ.tail r.1, r.2)
  ]

  pub rowcount-mem :
      (p : A → Bool) (xs : List A) {x : A} → Memᴰ x xs → p x ≡ true → 1 ≤ rowcount p xs
  rowcount-mem p [] m h = elim m [ ]
  rowcount-mem p (y ∷ ys) (Memᴰ.head q) h =
      let e : p y ≡ true = subst (λ z. p z ≡ true) q h in ground arith
  rowcount-mem p (y ∷ ys) (Memᴰ.tail m) h =
      let r = rowcount-mem p ys m h in ground (arith, Bool-cases (p y))

  -- The search finds the row, where no two rows pass.
  pub find?-only :
      (p : A → Bool) (xs : List A) {x : A}
      → Pairwise (λ y z. (p y && p z) ≡ false) xs
      → Memᴰ x xs
      → p x ≡ true
      → find? p xs ≡ some x
  find?-only p [] u m h = elim m [ ]
  find?-only p (y ∷ ys) {x} u (Memᴰ.head q) h =
      let e : p y ≡ true = subst (λ z. p z ≡ true) q h in rw (e, q) refl
  find?-only p (y ∷ ys) u (Memᴰ.tail m) h =
      let a = All-mem (λ z. (p y && p z) ≡ false) ys u.0 m in
      let e : p y ≡ false = ground arith in rw e (find?-only p ys u.1 m h)

  -- A statement that keeps what the search looks at.
  pub find?-update_rows :
      (p : A → Bool) (f : A → A) (q : A → Bool) (xs : List A) {x : A}
      → ((y : A) → q (f y) ≡ q y)
      → find? q xs ≡ some x
      → find? q (update_rows p f xs) ≡ some (updated p f x)
  find?-update_rows p f q [] keeps h = cc
  find?-update_rows p f q (y ∷ ys) {x} keeps h =
      let same : q (updated p f y) ≡ q y = updated-keeps y in
      elim (Bool-cases (q y)) [
        | inl e ↦
            let k : q (updated p f y) ≡ true = rw (sym same) at e in
            let z : some y ≡ some x = rw e at h in
            let w : y ≡ x = ground arith in rw k (ap (λ v. some (updated p f v)) w)
        | inr e ↦
            let k : q (updated p f y) ≡ false = rw (sym same) at e in
            let z : find? q ys ≡ some x = rw e at h in rw k (find?-update_rows p f q ys keeps z)
      ]
    where
      updated-keeps : (y : A) → q (updated p f y) ≡ q y
      updated-keeps y = elim (Bool-cases (p y)) [ inl e ↦ rw e (keeps y) | inr e ↦ rw e refl ]
