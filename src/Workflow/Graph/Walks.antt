-- ===== src/Workflow/Graph/Walks.antt =====
-- What the graph check means for a lifecycle: its states can be reached and left.
use team_flow.Prelude.{
  String, ◌≡◌, ◌∙◌, refl, sym, subst, ◌↔◌, Bool, true, not, ◌&&◌, none, List, [], ◌∷◌, inl, inr,
  elem, is_empty, filter, arith, Bool-cases, ◌==◌, eq_iff, eq_refl, Dict, keys, Distinct, none_pass,
  empty_of_none_pass, is_empty-sorted_set,
}
use team_flow.Workflow.Definition.{Action}
use team_flow.Workflow.Graph.{
  targets_in, action_edges, no_edges, reverse_all, difference, reachable_states,
  validate_state_graph,
}
use team_flow.Workflow.Graph.Reachability.{Reach, root, step, reachable_states-iff_Reach}
use team_flow.Workflow.Graph.Paths.{
  moves, elem-action_edges, elem-no_edges, elem-reverse_all, mentions-elem, action_edges-Distinct,
  keys-no_edges,
}

-- A sequence of transitions of the rules.
pub data Walk (actions : Dict Action) (x : String) : String → Type 0 where
  here : Walk actions x x
  next : {y z : String} → Walk actions x y → moves actions y z ≡ true → Walk actions x z

Walk-cons :
    {actions : Dict Action} {x y z : String}
    → moves actions x y ≡ true
    → Walk actions y z
    → Walk actions x z
Walk-cons m here = next here m
Walk-cons m (next w n) = next (Walk-cons m w) n

module _ (states : List String) (actions : Dict Action) where
  abbrev edges : Dict (List String)
  edges = action_edges (no_edges states) actions

  abbrev reverse : Dict (List String)
  reverse = reverse_all (no_edges states) edges

  edge-moves : (x y : String) → elem y (targets_in edges x) ≡ moves actions x y
  edge-moves x y =
      ground (arith, elem-action_edges (no_edges states) actions x y, elem-no_edges states x y)

  reverse-moves :
      Distinct states → (x y : String) → elem x (targets_in reverse y) ≡ moves actions x y
  reverse-moves u x y =
      let distinct : Distinct (keys edges) =
        action_edges-Distinct (no_edges states) actions (rw (keys-no_edges states) u) in
      ground (
        arith,
        elem-reverse_all (no_edges states) edges x y,
        elem-no_edges states y x,
        mentions-elem edges x y distinct,
        edge-moves x y,
      )

  Walk-of_Reach : {x y : String} → Reach (targets_in edges) (x ∷ []) y → Walk actions x y
  Walk-of_Reach {x} (root {x = y} m) =
      let q : y ≡ x = (eq_iff y x).0 (ground arith) in subst (λ z. Walk actions x z) (sym q) here
  Walk-of_Reach (step {x = y} {y = z} r e) = next (Walk-of_Reach r) (sym (edge-moves y z) ∙ e)

  Reach-of_Walk : {x y : String} → Walk actions x y → Reach (targets_in edges) (x ∷ []) y
  Reach-of_Walk {x} here = root (ground (arith, eq_refl x))
  Reach-of_Walk (next {y} {z} w m) = step (Reach-of_Walk w) (edge-moves y z ∙ m)

  module _ (terminal_states : List String) (distinct : Distinct states) where
    -- A terminal state that the state leads to.
    abbrev Ends : String → Type 0
    Ends x = (t : String) × (elem t terminal_states ≡ true) × Walk actions x t

    Ends-of_Reach : {x : String} → Reach (targets_in reverse) terminal_states x → Ends x
    Ends-of_Reach (root {x} m) = (x, m, here)
    Ends-of_Reach (step {x} {y} r e) =
        let (t, m, w) = Ends-of_Reach r in
        (t, m, Walk-cons (sym (reverse-moves distinct y x) ∙ e) w)

    Reach-of_Walk_back :
        {x y : String}
        → Walk actions x y
        → Reach (targets_in reverse) terminal_states y
        → Reach (targets_in reverse) terminal_states x
    Reach-of_Walk_back here r = r
    Reach-of_Walk_back (next {y} {z} w m) r =
        Reach-of_Walk_back w (step r (reverse-moves distinct y z ∙ m))

-- sorted(xs - ys) is empty exactly when every `x` is among `ys`.
difference-subset :
    (xs ys : List String)
    → is_empty (difference xs ys) ≡ true
    → (x : String) → elem x xs ≡ true
    → elem x ys ≡ true
difference-subset xs ys h x m =
    let e = none_pass (λ z. not (elem z ys)) xs x (rw is_empty-sorted_set at h) m in ground arith

subset-difference :
    (xs ys : List String)
    → ((x : String) → elem x xs ≡ true → elem x ys ≡ true)
    → is_empty (difference xs ys) ≡ true
subset-difference xs ys h =
    rw is_empty-sorted_set
      (empty_of_none_pass (λ z. not (elem z ys)) xs (λ x m. let e = h x m in ground arith))

elem-filter :
    (p : String → Bool) (xs : List String) (x : String) → elem x (filter p xs) ≡ (elem x xs && p x)
elem-filter p [] x = refl
elem-filter p (y ∷ ys) x = elim (Bool-cases (x == y)) [
  | inl e ↦ let q : x ≡ y = (eq_iff x y).0 e in rw q (ground (arith, elem-filter p ys y, eq_refl y))
  | inr e ↦ ground (arith, elem-filter p ys x)
]

-- The lifecycle is connected: every state can be reached, and leads to a terminal state.
pub record IsConnected (states : List String) (actions : Dict Action) (initial_state : String)
    (terminal_states : List String) : Type 0 where
  pub reached : (s : String) → elem s states ≡ true → Walk actions initial_state s
  pub left :
      (s : String)
      → elem s states ≡ true
      → (t : String) × (elem t terminal_states ≡ true) × Walk actions s t

module _ (states : List String) (actions : Dict Action) (initial_state : String)
    (terminal_states : List String) (distinct : Distinct states)
    (initial : elem initial_state states ≡ true)
    (terminal : (t : String) → elem t terminal_states ≡ true → elem t states ≡ true)
    (known : (x y : String)
      → moves actions x y ≡ true
      → (elem x states ≡ true) × (elem y states ≡ true)) where
  found : List String
  found = reachable_states (targets_in (edges states actions)) states (initial_state ∷ [])

  terminating : List String
  terminating = reachable_states (targets_in (reverse states actions)) states terminal_states

  found-iff_Walk : (s : String) → (elem s found ≡ true) ↔ Walk actions initial_state s
  unfolding found
  found-iff_Walk s =
      let e =
        reachable_states-iff_Reach (targets_in (edges states actions)) states (initial_state ∷ [])
          (λ x m.
            let q : x ≡ initial_state = (eq_iff x initial_state).0 (ground arith) in rw q initial)
          (λ x y m n. (known x y (sym (edge-moves states actions x y) ∙ n)).1) s in
      (λ m. Walk-of_Reach states actions (e.0 m), λ w. e.1 (Reach-of_Walk states actions w))

  terminating-iff_Ends :
      (s : String) → (elem s terminating ≡ true) ↔ Ends states actions terminal_states distinct s
  unfolding terminating
  terminating-iff_Ends s =
      let e =
        reachable_states-iff_Reach (targets_in (reverse states actions)) states terminal_states
          terminal (λ x y m n. (known y x (sym (reverse-moves states actions distinct y x) ∙ n)).0)
          s in
      (
        λ m. Ends-of_Reach states actions terminal_states distinct (e.0 m),
        λ (t, m, w). e.1 (Reach-of_Walk_back states actions terminal_states distinct w (root m)),
      )

  graph_checks : (validate_state_graph states actions initial_state terminal_states ≡ none) ↔ (
      (is_empty (difference states found) ≡ true)
      × (is_empty (difference (filter (λ s. not (elem s terminal_states)) states) terminating)
          ≡ true))
  unfolding validate_state_graph found terminating
  graph_checks = (λ h. ground arith, λ h. ground arith)

  -- The check passes exactly when every state can be reached from the initial one and leads to a
  -- terminal one, by transitions of the rules. The states are distinct and hold the initial, the
  -- terminal and every transition's states.
  pub validate_state_graph-iff_IsConnected :
      (validate_state_graph states actions initial_state terminal_states ≡ none)
      ↔ IsConnected states actions initial_state terminal_states
  validate_state_graph-iff_IsConnected = (
    λ h.
        let (all_found, all_end) = graph_checks.0 h in
        record {
          reached = λ s m. (found-iff_Walk s).0 (difference-subset states found all_found s m);
          left = λ s m. elim (Bool-cases (elem s terminal_states)) [
            | inl e ↦ (s, e, here)
            | inr e ↦ (terminating-iff_Ends s).0 (
                difference-subset (filter (λ x. not (elem x terminal_states)) states) terminating
                  all_end s
                  (ground (arith, elem-filter (λ x. not (elem x terminal_states)) states s)))
          ];
        },
    λ c. graph_checks.1 (
      subset-difference states found (λ s m. (found-iff_Walk s).1 (c.reached s m)),
      subset-difference (filter (λ x. not (elem x terminal_states)) states) terminating (λ s m.
          (terminating-iff_Ends s).1
            (c.left s (ground (arith, elem-filter (λ x. not (elem x terminal_states)) states s)))),
    ),
  )
