-- ===== src/Prelude/Rows.antt =====
-- SQL over a table as the list of its rows: `UPDATE`, `ORDER BY` and what holds of every two rows.
pub mod Keys
pub mod Appended
use Prim.Native.Nat.{ℕ, zero, suc}
use mathlib.Core.Path.{◌≡◌, refl, sym, subst}
use mathlib.Core.Logic.{◌⊎◌, inl, inr}
use mathlib.Core.Bool.{Bool, true, false, ◌&&◌}
use mathlib.Core.Option.{Option, none, some}
use mathlib.Core.List.{List, [], ◌∷◌, Memᴰ}
use mathlib.Core.List.Memᴰ
use native.Mathlib.Omega.{arith}
use team_flow.Prelude.Tests.{if◌then◌else◌, Bool-cases}
use team_flow.Prelude.Lists.{All, length, take}

module _ {ℓ} {A : Type ℓ} where
  -- UPDATE … SET f WHERE p
  abbrev pub update_rows : (A → Bool) → (A → A) → List A → List A
  update_rows p f [] = []
  update_rows p f (x ∷ xs) = (if p x then f x else x) ∷ update_rows p f xs

  -- cursor.rowcount of that statement
  abbrev pub rowcount : (A → Bool) → List A → ℕ
  rowcount p [] = 0
  rowcount p (x ∷ xs) = let n = rowcount p xs in if p x then suc n else n

  -- The last row that passes: next((x for x in reversed(xs) if p(x)), None)
  abbrev pub find_last? : (A → Bool) → List A → Option A
  find_last? p [] = none
  find_last? p (x ∷ xs) = elim (find_last? p xs) [
    | some y ↦ some y
    | none ↦ if p x then some x else none
  ]

  -- ORDER BY, where `before x y` says that `x` may stand in front of `y`
  unfoldable pub insert_row : (A → A → Bool) → A → List A → List A
  insert_row before x [] = x ∷ []
  insert_row before x (y ∷ ys) =
      let rest = insert_row before x ys in if before x y then x ∷ y ∷ ys else y ∷ rest

  unfoldable pub order_by : (A → A → Bool) → List A → List A
  unfolding insert_row
  order_by before [] = []
  order_by before (x ∷ xs) = insert_row before x (order_by before xs)

  -- Every two rows, at different places.
  abbrev pub Pairwise {κ} : (A → A → Type κ) → List A → Type κ
  Pairwise R [] = Unit
  Pairwise R (x ∷ xs) = All (R x) xs × Pairwise R xs

  -- The rows of two tables, place by place.
  abbrev pub Rowwise : (A → A → Type 0) → List A → List A → Type 0
  Rowwise R [] [] = Unit
  Rowwise R (x ∷ xs) (y ∷ ys) = R x y × Rowwise R xs ys
  Rowwise R _ _ = ⊥

module _ {ℓ} {A : Type ℓ} where
  pub All-mem {κ} : (P : A → Type κ) (xs : List A) {x : A} → All P xs → Memᴰ x xs → P x
  All-mem P [] a m = elim m [ ]
  All-mem P (y ∷ ys) a (Memᴰ.head e) = subst P (sym e) a.0
  All-mem P (y ∷ ys) a (Memᴰ.tail m) = All-mem P ys a.1 m

  pub All-of_mem {κ} : (P : A → Type κ) (xs : List A) → ((x : A) → Memᴰ x xs → P x) → All P xs
  All-of_mem P [] h = tt
  All-of_mem P (y ∷ ys) h = (h y (Memᴰ.head refl), All-of_mem P ys (λ x m. h x (Memᴰ.tail m)))

  pub All-map : (P Q : A → Type 0) (xs : List A) → ((x : A) → P x → Q x) → All P xs → All Q xs
  All-map P Q [] h a = tt
  All-map P Q (x ∷ xs) h a = (h x a.0, All-map P Q xs h a.1)

  pub All-take : (P : A → Type 0) (n : ℕ) (xs : List A) → All P xs → All P (take n xs)
  All-take P zero xs a = tt
  All-take P (suc n) [] a = tt
  All-take P (suc n) (x ∷ xs) a = (a.0, All-take P n xs a.1)

  All-insert_row :
      (P : A → Type 0) (before : A → A → Bool) (x : A) (ys : List A)
      → P x
      → All P ys
      → All P (insert_row before x ys)
  unfolding insert_row
  All-insert_row P before x [] h a = (h, tt)
  All-insert_row P before x (y ∷ ys) h a = elim (Bool-cases (before x y)) [
    | inl e ↦ rw (insert_row, e) (h, a)
    | inr e ↦ rw (insert_row, e) (a.0, All-insert_row P before x ys h a.1)
  ]

  pub All-order_by :
      (P : A → Type 0) (before : A → A → Bool) (xs : List A) → All P xs → All P (order_by before xs)
  unfolding order_by
  All-order_by P before [] a = tt
  All-order_by P before (x ∷ xs) a =
      All-insert_row P before x (order_by before xs) a.0 (All-order_by P before xs a.1)

  pub All-both : (P Q : A → Type 0) (xs : List A) → All P xs → All Q xs → All (λ x. P x × Q x) xs
  All-both P Q [] a b = tt
  All-both P Q (x ∷ xs) a b = ((a.0, b.0), All-both P Q xs a.1 b.1)

  pub Rowwise-refl : (R : A → A → Type 0) (xs : List A) → ((x : A) → R x x) → Rowwise R xs xs
  Rowwise-refl R [] h = tt
  Rowwise-refl R (x ∷ xs) h = (h x, Rowwise-refl R xs h)

  pub Rowwise-trans :
      (R : A → A → Type 0) (xs ys zs : List A)
      → ((x y z : A) → R x y → R y z → R x z)
      → Rowwise R xs ys
      → Rowwise R ys zs
      → Rowwise R xs zs
  Rowwise-trans R [] [] [] h r t = tt
  Rowwise-trans R [] [] (z ∷ zs) h r t = t
  Rowwise-trans R [] (y ∷ ys) zs h r t = absurd r
  Rowwise-trans R (x ∷ xs) [] zs h r t = absurd r
  Rowwise-trans R (x ∷ xs) (y ∷ ys) [] h r t = t
  Rowwise-trans R (x ∷ xs) (y ∷ ys) (z ∷ zs) h r t =
      (h x y z r.0 t.0, Rowwise-trans R xs ys zs h r.1 t.1)

  pub Rowwise-map :
      (R T : A → A → Type 0) (xs ys : List A)
      → ((x y : A) → R x y → T x y)
      → Rowwise R xs ys
      → Rowwise T xs ys
  Rowwise-map R T [] [] h r = tt
  Rowwise-map R T [] (y ∷ ys) h r = r
  Rowwise-map R T (x ∷ xs) [] h r = r
  Rowwise-map R T (x ∷ xs) (y ∷ ys) h r = (h x y r.0, Rowwise-map R T xs ys h r.1)

  -- A relation that the rows' changes keep holds of every two rows of the new table.
  pub Rowwise-All :
      (R : A → A → Type 0) (P Q : A → Type 0) (xs ys : List A)
      → ((x y : A) → R x y → P x → Q y)
      → Rowwise R xs ys
      → All P xs
      → All Q ys
  Rowwise-All R P Q [] [] h r a = tt
  Rowwise-All R P Q [] (y ∷ ys) h r a = absurd r
  Rowwise-All R P Q (x ∷ xs) [] h r a = absurd r
  Rowwise-All R P Q (x ∷ xs) (y ∷ ys) h r a = (h x y r.0 a.0, Rowwise-All R P Q xs ys h r.1 a.1)

  pub Rowwise-Pairwise :
      (R S T : A → A → Type 0) (xs ys : List A)
      → ((x x' y y' : A) → R x x' → R y y' → S x y → T x' y')
      → Rowwise R xs ys
      → Pairwise S xs
      → Pairwise T ys
  Rowwise-Pairwise R S T [] [] h r a = tt
  Rowwise-Pairwise R S T [] (y ∷ ys) h r a = absurd r
  Rowwise-Pairwise R S T (x ∷ xs) [] h r a = absurd r
  Rowwise-Pairwise R S T (x ∷ xs) (y ∷ ys) h r a = (
    Rowwise-All R (S x) (T y) xs ys (λ z z' q s. h x y z z' r.0 q s) r.1 a.0,
    Rowwise-Pairwise R S T xs ys h r.1 a.1,
  )

  -- What the rows of a table satisfy, the rows of the updated one satisfy in turn.
  module _ (p : A → Bool) (f : A → A) where
    abbrev pub updated : A → A
    updated x = if p x then f x else x

    pub update_rows-All :
        (P Q : A → Type 0) (xs : List A)
        → ((x : A) → P x → Q (updated x))
        → All P xs
        → All Q (update_rows p f xs)
    update_rows-All P Q [] h a = tt
    update_rows-All P Q (x ∷ xs) h a = (h x a.0, update_rows-All P Q xs h a.1)

    pub update_rows-Pairwise :
        (P : A → Type 0) (R T : A → A → Type 0) (xs : List A)
        → ((x y : A) → P x → P y → R x y → T (updated x) (updated y))
        → All P xs
        → Pairwise R xs
        → Pairwise T (update_rows p f xs)
    update_rows-Pairwise P R T [] h a r = tt
    update_rows-Pairwise P R T (x ∷ xs) h a r = (
      update_rows-All (λ y. P y × R x y) (T (updated x)) xs (λ y q. h x y a.0 q.0 q.1)
          (All-both P (R x) xs a.1 r.0),
      update_rows-Pairwise P R T xs h a.1 r.1,
    )

    pub update_rows-Rowwise :
        (R : A → A → Type 0) (xs : List A)
        → ((x : A) → R x (updated x))
        → Rowwise R xs (update_rows p f xs)
    update_rows-Rowwise R [] h = tt
    update_rows-Rowwise R (x ∷ xs) h = (h x, update_rows-Rowwise R xs h)

    pub update_rows-none : (xs : List A) → rowcount p xs ≡ 0 → update_rows p f xs ≡ xs
    update_rows-none [] h = refl
    update_rows-none (x ∷ xs) h = elim (Bool-cases (p x)) [
      | inl e ↦ let q : suc (rowcount p xs) ≡ 0 = rw e at h in ground arith
      | inr e ↦ let q : rowcount p xs ≡ 0 = rw e at h in rw (e, update_rows-none xs q) refl
    ]

  pub Pairwise-map :
      (R T : A → A → Type 0) (xs : List A)
      → ((x y : A) → R x y → T x y)
      → Pairwise R xs
      → Pairwise T xs
  Pairwise-map R T [] h a = tt
  Pairwise-map R T (x ∷ xs) h a = (All-map (R x) (T x) xs (h x) a.0, Pairwise-map R T xs h a.1)

  -- A statement that fits no two rows updates at most one.
  rowcount_zero : (p : A → Bool) (xs : List A) → All (λ x. p x ≡ false) xs → rowcount p xs ≡ 0
  rowcount_zero p [] a = refl
  rowcount_zero p (x ∷ xs) a = ground (arith, rowcount_zero p xs)

  pub rowcount_one :
      (p : A → Bool) (xs : List A)
      → Pairwise (λ x y. (p x && p y) ≡ false) xs
      → (rowcount p xs ≡ 0) ⊎ (rowcount p xs ≡ 1)
  rowcount_one p [] a = inl refl
  rowcount_one p (x ∷ xs) a = elim (Bool-cases (p x)) [
    | inl e ↦
        let r : rowcount p xs ≡ 0 =
          rowcount_zero p xs
            (All-map (λ y. (p x && p y) ≡ false) (λ y. p y ≡ false) xs (λ y q. ground arith) a.0) in
        inr (ground arith)
    | inr e ↦ rw e (rowcount_one p xs a.1)
  ]
