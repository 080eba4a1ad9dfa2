-- ===== src/Examples/Graphs.antt =====
-- The graph check on the states of the claim and the cancellation.
use team_flow.Prelude.{
  String, ◌≡◌, refl, ◌↔◌, true, List, [], ◌∷◌, none, if◌then◌else◌, elem, arith, ◌==◌,
}
use team_flow.Workflow.Graph.{reachable_states, validate_state_graph}
use team_flow.Workflow.Graph.Paths.{moves}
use team_flow.Workflow.Graph.Reachability.{Reach, reachable_states-iff_Reach}
use team_flow.Workflow.Graph.Walks.{IsConnected, validate_state_graph-iff_IsConnected}
use team_flow.Examples.General.{actions}

abbrev states : List String
states = "ready" ∷ "in_progress" ∷ "canceled" ∷ []

abbrev ends : List String
ends = "canceled" ∷ []

ends_known : (t : String) → elem t ends ≡ true → elem t states ≡ true
ends_known t h = ground arith

moves_known :
    (x y : String) → moves actions x y ≡ true → (elem x states ≡ true) × (elem y states ≡ true)
moves_known x y h = ground arith

validate_state_graph-iff_IsConnected_example :
    (validate_state_graph states actions "ready" ends ≡ none)
    ↔ IsConnected states actions "ready" ends
validate_state_graph-iff_IsConnected_example =
    validate_state_graph-iff_IsConnected states actions "ready" ends (refl, (refl, (refl, tt))) refl
      ends_known moves_known

-- From "ready" to "in_progress", and from there to "canceled".
abbrev targets : String → List String
targets x =
    if x == "ready" then "in_progress" ∷ [] else if x == "in_progress" then "canceled" ∷ [] else []

started : (x : String) → elem x ("ready" ∷ []) ≡ true → elem x states ≡ true
started x h = ground arith

closed : (x y : String) → elem x states ≡ true → elem y (targets x) ≡ true → elem y states ≡ true
closed x y m h = ground arith

reachable_states-iff_Reach_example :
    (elem "canceled" (reachable_states targets states ("ready" ∷ [])) ≡ true)
    ↔ Reach targets ("ready" ∷ []) "canceled"
reachable_states-iff_Reach_example =
    reachable_states-iff_Reach targets states ("ready" ∷ []) started closed "canceled"
