-- ===== src/Prelude/Assoc.antt =====
-- Python's `dict` with text keys: an association list in insertion order.
use Prim.Native.String.{String}
use mathlib.Core.Path.{◌≡◌, refl}
use mathlib.Core.Logic.{inl, inr}
use mathlib.Core.Bool.{true, false, ◌||◌}
use mathlib.Core.Option.{Option, none, some}
use mathlib.Core.List.{List, [], ◌∷◌}
use native.Mathlib.Omega.{arith}
use text.Mathlib.TextEquality.{eq_iff}
use text.Mathlib.TextPositions.{eq_refl}
use team_flow.Prelude.Tests.{if◌then◌else◌, Bool-cases}
use team_flow.Prelude.Text.{◌==◌, elem}

abbrev pub Dict {ℓ} : Type ℓ → Type ℓ
Dict V = List (String × V)

module _ {ℓ} {V : Type ℓ} where
  -- d.get(k)
  abbrev pub lookup : Dict V → String → Option V
  lookup [] k = none
  lookup ((j, v) ∷ d) k = if j == k then some v else lookup d k

  -- d[k] = v
  abbrev pub put : Dict V → String → V → Dict V
  put [] k v = (k, v) ∷ []
  put ((j, w) ∷ d) k v = if j == k then (j, v) ∷ d else (j, w) ∷ put d k v

  -- d.update(m), {**d, **m}
  abbrev pub update : Dict V → Dict V → Dict V
  update d [] = d
  update d ((k, v) ∷ m) = update (put d k v) m

  abbrev pub keys : Dict V → List String
  keys [] = []
  keys ((k, v) ∷ d) = k ∷ keys d

  -- for k in ks: d[k] = v
  abbrev pub put_each : Dict V → List String → V → Dict V
  put_each d [] v = d
  put_each d (k ∷ ks) v = put_each (put d k v) ks v

-- No key is repeated, as in every `dict`.
abbrev pub Distinct : List String → Type 0
Distinct [] = Unit
Distinct (k ∷ ks) = (elem k ks ≡ false) × Distinct ks

module _ {ℓ} {V : Type ℓ} where
  pub lookup-put :
      (d : Dict V) (k j : String) (v : V)
      → lookup (put d k v) j ≡ (if k == j then some v else lookup d j)
  lookup-put [] k j v = refl
  lookup-put ((i, w) ∷ d) k j v =
      ground (arith, lookup-put d k j v, eq_iff i k, eq_iff k j, eq_iff i j)

  pub lookup-put_self : (d : Dict V) (k : String) (v : V) → lookup (put d k v) k ≡ some v
  lookup-put_self d k v = ground (arith, lookup-put d k k v, eq_refl k)

  pub lookup-put_ne :
      (d : Dict V) (k j : String) (v : V) → (k == j) ≡ false → lookup (put d k v) j ≡ lookup d j
  lookup-put_ne d k j v h = ground (arith, lookup-put d k j v)

  -- A key that the update does not mention keeps its value.
  pub lookup-update_absent :
      (d m : Dict V) (j : String) → elem j (keys m) ≡ false → lookup (update d m) j ≡ lookup d j
  lookup-update_absent d [] j h = refl
  lookup-update_absent d ((k, v) ∷ m) j h =
      ground
        (arith, lookup-update_absent (put d k v) m j, lookup-put d k j v, eq_iff j k, eq_iff k j)

  pub elem-lookup : (m : Dict V) (j : String) {v : V} → lookup m j ≡ some v → elem j (keys m) ≡ true
  elem-lookup [] j h = cc
  elem-lookup ((k, w) ∷ m) j {v} h = ground (arith, elem-lookup m j {v = v}, eq_iff j k, eq_iff k j)

  pub lookup-absent : (m : Dict V) (j : String) → elem j (keys m) ≡ false → lookup m j ≡ none
  lookup-absent [] j h = refl
  lookup-absent ((k, v) ∷ m) j h = ground (arith, lookup-absent m j, eq_iff j k, eq_iff k j)

  -- A key of the update takes its value.
  pub lookup-update :
      (d m : Dict V) (j : String) {v : V}
      → Distinct (keys m)
      → lookup m j ≡ some v
      → lookup (update d m) j ≡ some v
  lookup-update d [] j u h = cc
  lookup-update d ((k, w) ∷ m) j {v} u h = elim (Bool-cases (k == j)) [
    | inl e ↦ ground (arith, lookup-update_absent (put d k w) m j, lookup-put d k j w, eq_iff k j)
    | inr e ↦ lookup-update (put d k w) m j u.1 (ground arith)
  ]

  pub elem-keys-put :
      (d : Dict V) (k j : String) (v : V) → elem j (keys (put d k v)) ≡ (j == k || elem j (keys d))
  elem-keys-put [] k j v = ground arith
  elem-keys-put ((i, w) ∷ d) k j v =
      ground (arith, elem-keys-put d k j v, eq_iff i k, eq_iff j k, eq_iff j i)

  pub put-Distinct :
      (d : Dict V) (k : String) (v : V) → Distinct (keys d) → Distinct (keys (put d k v))
  put-Distinct [] k v u = (refl, tt)
  put-Distinct ((i, w) ∷ d) k v u =
      ground (arith, put-Distinct d k v, elem-keys-put d k i v, eq_iff i k)

  pub update-Distinct : (d m : Dict V) → Distinct (keys d) → Distinct (keys (update d m))
  update-Distinct d [] u = u
  update-Distinct d ((k, v) ∷ m) u = update-Distinct (put d k v) m (put-Distinct d k v u)

  -- A key outside `ks` keeps its value, and one inside takes `v`.
  pub lookup-put_each :
      (d : Dict V) (ks : List String) (j : String) (v : V)
      → lookup (put_each d ks v) j ≡ (if elem j ks then some v else lookup d j)
  lookup-put_each d [] j v = refl
  lookup-put_each d (k ∷ ks) j v =
      ground (arith, lookup-put_each (put d k v) ks j v, lookup-put d k j v, eq_iff j k, eq_iff k j)

  pub put_each-Distinct :
      (d : Dict V) (ks : List String) (v : V)
      → Distinct (keys d)
      → Distinct (keys (put_each d ks v))
  put_each-Distinct d [] v u = u
  put_each-Distinct d (k ∷ ks) v u = put_each-Distinct (put d k v) ks v (put-Distinct d k v u)
