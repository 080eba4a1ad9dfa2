-- ===== src/Workflow/Graph/Reachability.antt =====
-- The search finds the states that can be reached, and no others.
use team_flow.Prelude.{
  ℕ, zero, suc, ◌+◌, ◌≤◌, String, ◌≡◌, refl, sym, subst, ap, ◌↔◌, List-cases, true, false, List, [],
  ◌∷◌, inl, inr, elem, length, arith, Bool-cases, ◌==◌, eq_iff, eq_refl,
}
use team_flow.Workflow.Graph.Visits.{
  measure, missing-le, visit_all-measure, visit_all_keeps, visit_all_pending, visit_all_covers,
  visit_all_noted, visit_all_new,
}
use team_flow.Workflow.Graph.{Search, visit, visit_all, explore, reachable_states}

-- A walk from one of the roots along `targets`.
pub data Reach (targets : String → List String) (roots : List String) : String → Type 0 where
  root : {x : String} → elem x roots ≡ true → Reach targets roots x
  step : {x y : String} → Reach targets roots x → elem y (targets x) ≡ true → Reach targets roots y

module _ (targets : String → List String) where
  -- Whatever waits has been noted, and everything noted has a walk.
  record IsSound (roots : List String) (s : Search) : Type 0 where
    noted : (x : String) → elem x s.pending ≡ true → elem x s.reachable ≡ true
    walks : (x : String) → elem x s.reachable ≡ true → Reach targets roots x

  -- What no longer waits has all its destinations noted.
  abbrev IsHandled : Search → Type 0
  IsHandled s =
      (x y : String)
      → elem x s.reachable ≡ true
      → elem x s.pending ≡ false
      → elem y (targets x) ≡ true
      → elem y s.reachable ≡ true

  module _ (roots : List String) (s : Search) (u : String) (rest : List String)
      (waiting : s.pending ≡ u ∷ rest) where
    abbrev popped : Search
    popped = record s { pending = rest }

    round-IsSound : IsSound roots s → IsSound roots (visit_all popped (targets u))
    round-IsSound i = record {
      noted = visit_all_noted popped (targets u) (λ x m. i.noted x (rw waiting (ground arith)));
      walks = λ x m. elim (visit_all_new popped (targets u) x m) [
        | inl old ↦ i.walks x old
        | inr (edge, waits) ↦
            step (i.walks u (i.noted u (rw waiting (ground (arith, eq_refl u))))) edge
      ];
    }

    -- A state that waits is the one that was taken, or goes on waiting.
    gone :
        (x : String)
        → (x == u) ≡ false
        → elem x (visit_all popped (targets u)).pending ≡ false
        → elem x s.pending ≡ false
    gone x q p = elim (Bool-cases (elem x s.pending)) [
      | inl w ↦
          let there : elem x (u ∷ rest) ≡ true = rw waiting at w in
          absurd (ground (arith, visit_all_pending popped (targets u) x))
      | inr w ↦ w
    ]

    round-IsHandled : IsHandled s → IsHandled (visit_all popped (targets u))
    round-IsHandled i x y m p e = elim (visit_all_new popped (targets u) x m) [
      | inr (edge, waits) ↦ absurd (ground arith)
      | inl old ↦ elim (Bool-cases (x == u)) [
        | inl q ↦
            visit_all_covers popped (targets u) y
              (subst (λ z. elem y (targets z) ≡ true) ((eq_iff x u).0 q) e)
        | inr q ↦ visit_all_keeps popped (targets u) y (i x y old (gone x q p) e)
      ]
    ]

  module _ (states roots : List String)
      (closed : (x y : String)
        → elem x states ≡ true
        → elem y (targets x) ≡ true
        → elem y states ≡ true) where
    -- Everything that waits is a state.
    abbrev InStates : Search → Type 0
    InStates s = (x : String) → elem x s.pending ≡ true → elem x states ≡ true

    visit_all-InStates :
        (s : Search) (ts : List String)
        → ((t : String) → elem t ts ≡ true → elem t states ≡ true)
        → InStates s
        → InStates (visit_all s ts)
    unfolding visit_all visit
    visit_all-InStates s [] h i = i
    visit_all-InStates s (t ∷ ts) h i =
        visit_all-InStates (visit s t) ts (λ x m. h x (ground arith))
          (λ x m. elim (Bool-cases (x == t)) [
            | inl e ↦ h x (ground arith)
            | inr e ↦ i x (ground arith)
          ])

    -- The search is over, with every walk and nothing else noted.
    abbrev IsDone : Search → Type 0
    IsDone s = IsSound roots s × IsHandled s × (s.pending ≡ [])

    explore_done : (fuel : ℕ) (s : Search) → s.pending ≡ [] → explore targets fuel s ≡ s
    unfolding explore
    explore_done zero s e = refl
    explore_done (suc fuel) s e = ground arith

    explore_more :
        (fuel : ℕ) (s : Search) (u : String) (rest : List String)
        → s.pending ≡ u ∷ rest
        → explore targets (suc fuel) s
          ≡ explore targets fuel (visit_all (record s { pending = rest }) (targets u))
    unfolding explore
    explore_more fuel s u rest e = ground arith

    -- With fuel for every state that may still have to be handled, the loop ends with none waiting.
    explore-IsDone :
        (fuel : ℕ) (s : Search)
        → measure states s ≤ fuel
        → InStates s
        → IsSound roots s
        → IsHandled s
        → IsDone (explore targets fuel s)
    explore-IsDone zero s m i sound handled = elim (List-cases s.pending) [
      | inl e ↦ subst IsDone (sym (explore_done zero s e)) (sound, handled, e)
      | inr (u, rest, e) ↦
          absurd (unfold measure in omega (arith, ap (λ (l : List String). length l) e))
    ]
    explore-IsDone (suc fuel) s m i sound handled = elim (List-cases s.pending) [
      | inl e ↦ subst IsDone (sym (explore_done (suc fuel) s e)) (sound, handled, e)
      | inr (u, rest, e) ↦
          let popped : Search = record s { pending = rest } in
          let state : elem u states ≡ true = i u (rw e (ground (arith, eq_refl u))) in
          subst IsDone (sym (explore_more fuel s u rest e)) (
            explore-IsDone fuel (visit_all popped (targets u))
              (unfold measure in
                omega (
                  arith,
                  ap (λ (l : List String). length l) e,
                  visit_all-measure states popped (targets u) (λ y edge. closed u y state edge),
                ))
              (visit_all-InStates popped (targets u) (λ y edge. closed u y state edge)
                (λ x w. i x (rw e (ground arith))))
              (round-IsSound roots s u rest e sound) (round-IsHandled roots s u rest e handled))
    ]

  IsDone-covers :
      (roots : List String) (s : Search)
      → IsHandled s
      → s.pending ≡ []
      → ((x : String) → elem x roots ≡ true → elem x s.reachable ≡ true)
      → {x : String} → Reach targets roots x
      → elem x s.reachable ≡ true
  IsDone-covers roots s h e r (root m) = r _ m
  IsDone-covers roots s h e r (step {x} {y} w edge) =
      h x y (IsDone-covers roots s h e r w) (rw e refl) edge

-- What is noted stays noted.
explore_keeps :
    (targets : String → List String) (fuel : ℕ) (s : Search) (x : String)
    → elem x s.reachable ≡ true
    → elem x (explore targets fuel s).reachable ≡ true
unfolding explore
explore_keeps targets zero s x h = h
explore_keeps targets (suc fuel) s x h = elim (List-cases s.pending) [
  | inl e ↦ ground arith
  | inr (u, rest, e) ↦ ground (
    arith,
    visit_all_keeps (record s { pending = rest }) (targets u) x,
    explore_keeps targets fuel (visit_all (record s { pending = rest }) (targets u)) x,
  )
]

module _ (targets : String → List String) (states roots : List String)
    (started : (x : String) → elem x roots ≡ true → elem x states ≡ true)
    (closed : (x y : String)
      → elem x states ≡ true
      → elem y (targets x) ≡ true
      → elem y states ≡ true) where
  -- A state is in the answer exactly when a walk leads to it from a root. The roots are states, and
  -- so is every destination of a state.
  pub reachable_states-iff_Reach :
      (x : String) → (elem x (reachable_states targets states roots) ≡ true) ↔ Reach targets roots x
  unfolding reachable_states
  reachable_states-iff_Reach x =
      let start : Search = record { reachable = roots; pending = roots } in
      let fuel = length roots + length states in
      let (sound, handled, done) =
        explore-IsDone targets states roots closed fuel start
          (unfold measure in omega (arith, missing-le states roots)) started
          (record { noted = λ y m. m; walks = λ y m. root m })
          (λ y z m p e. absurd (ground arith)) in
      (
        sound.walks x,
        λ w.
            IsDone-covers targets roots _ handled done (λ y m. explore_keeps targets fuel start y m)
              w,
      )
