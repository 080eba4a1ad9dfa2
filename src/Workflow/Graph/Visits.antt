-- ===== src/Workflow/Graph/Visits.antt =====
-- What one round of the search does: what it notes, what goes on waiting, and how much is left.
use team_flow.Prelude.{
  ℕ, ◌+◌, ◌≤◌, ◌<◌, String, ◌≡◌, true, false, not, List, [], ◌∷◌, ◌⊎◌, inl, inr, elem, length,
  filter, arith, Bool-cases, ◌==◌, eq_iff, eq_refl,
}
use team_flow.Workflow.Graph.{Search, visit, visit_all}

-- How many of `states` have not been noted.
pub missing : List String → List String → ℕ
missing states seen = length (filter (λ x. not (elem x seen)) states)

missing-cons_le :
    (states seen : List String) (t : String) → missing states (t ∷ seen) ≤ missing states seen
unfolding missing
missing-cons_le [] seen t = omega arith
missing-cons_le (x ∷ xs) seen t = ground (arith, missing-cons_le xs seen t)

missing-cons_lt :
    (states seen : List String) (t : String)
    → elem t states ≡ true
    → elem t seen ≡ false
    → missing states (t ∷ seen) < missing states seen
unfolding missing
missing-cons_lt [] seen t m new = cc
missing-cons_lt (x ∷ xs) seen t m new = elim (Bool-cases (t == x)) [
  | inl e ↦ let q : t ≡ x = (eq_iff t x).0 e in ground (arith, missing-cons_le xs seen t, eq_refl t)
  | inr e ↦ ground (arith, missing-cons_lt xs seen t, eq_iff x t, eq_iff t x)
]

pub missing-le : (states seen : List String) → missing states seen ≤ length states
unfolding missing
missing-le [] seen = omega arith
missing-le (x ∷ xs) seen = ground (arith, missing-le xs seen)

-- The states still to be handled: each round of the loop takes one away.
unfoldable pub measure : List String → Search → ℕ
measure states s = length s.pending + missing states s.reachable

module _ (states : List String) where
  visit-measure :
      (s : Search) (t : String)
      → elem t states ≡ true
      → measure states (visit s t) ≤ measure states s
  unfolding measure visit
  visit-measure s t m = ground (arith, missing-cons_lt states s.reachable t)

  pub visit_all-measure :
      (s : Search) (ts : List String)
      → ((t : String) → elem t ts ≡ true → elem t states ≡ true)
      → measure states (visit_all s ts) ≤ measure states s
  unfolding visit_all
  visit_all-measure s [] h = omega arith
  visit_all-measure s (t ∷ ts) h = omega (
    arith,
    visit-measure s t (h t (ground (arith, eq_refl t))),
    visit_all-measure (visit s t) ts (λ x m. h x (ground arith)),
  )

pub visit_all_keeps :
    (s : Search) (ts : List String) (x : String)
    → elem x s.reachable ≡ true
    → elem x (visit_all s ts).reachable ≡ true
unfolding visit_all visit
visit_all_keeps s [] x h = h
visit_all_keeps s (t ∷ ts) x h = visit_all_keeps (visit s t) ts x (ground arith)

pub visit_all_pending :
    (s : Search) (ts : List String) (x : String)
    → elem x s.pending ≡ true
    → elem x (visit_all s ts).pending ≡ true
unfolding visit_all visit
visit_all_pending s [] x h = h
visit_all_pending s (t ∷ ts) x h = visit_all_pending (visit s t) ts x (ground arith)

pub visit_all_covers :
    (s : Search) (ts : List String) (x : String)
    → elem x ts ≡ true
    → elem x (visit_all s ts).reachable ≡ true
unfolding visit_all
visit_all_covers s [] x h = cc
visit_all_covers s (t ∷ ts) x h = elim (Bool-cases (x == t)) [
  | inl e ↦ visit_all_keeps (visit s t) ts x (unfold visit in ground (arith, eq_iff x t))
  | inr e ↦ visit_all_covers (visit s t) ts x (ground arith)
]

pub visit_all_noted :
    (s : Search) (ts : List String)
    → ((x : String) → elem x s.pending ≡ true → elem x s.reachable ≡ true)
    → (x : String) → elem x (visit_all s ts).pending ≡ true
    → elem x (visit_all s ts).reachable ≡ true
unfolding visit_all visit
visit_all_noted s [] h x m = h x m
visit_all_noted s (t ∷ ts) h x m = visit_all_noted (visit s t) ts (λ y n. ground (arith, h y)) x m

visit_new :
    (s : Search) (t x : String)
    → elem x (visit s t).reachable ≡ true
    → elem x s.reachable ≡ false
    → ((x == t) ≡ true) × (elem x (visit s t).pending ≡ true)
unfolding visit
visit_new s t x h fresh = ground arith

-- What is noted was noted before, or is a destination that waits.
pub visit_all_new :
    (s : Search) (ts : List String) (x : String)
    → elem x (visit_all s ts).reachable ≡ true
    → (elem x s.reachable ≡ true) ⊎ ((elem x ts ≡ true) × (elem x (visit_all s ts).pending ≡ true))
unfolding visit_all
visit_all_new s [] x h = inl h
visit_all_new s (t ∷ ts) x h = elim (visit_all_new (visit s t) ts x h) [
  | inl old ↦ elim (Bool-cases (elem x s.reachable)) [
    | inl before ↦ inl before
    | inr fresh ↦
        let (here, waits) = visit_new s t x old fresh in
        inr (ground arith, visit_all_pending (visit s t) ts x waits)
  ]
  | inr (m, p) ↦ inr (ground arith, p)
]
