-- ===== src/Workflow/Graph.antt =====
-- core/workflow_validation.py, `_validate_state_graph` and `_reachable_states`: whether every state
-- of a lifecycle can be reached and left. A Python set is a list here, whose order no answer
-- depends on, and the stack `pending` has its top in front.
pub mod Visits
pub mod Reachability
pub mod Paths
pub mod Walks
use team_flow.Prelude.{
  ℕ, zero, suc, ◌+◌, String, Bool, true, false, not, ◌&&◌, Option, none, some, List, [], ◌∷◌, ◌++◌,
  elem, length, is_empty, filter, if◌then◌else◌, Dict, lookup, put, keys, sorted_set,
}
use team_flow.Workflow.Definition.{Rule, Action}

pub record Search : Type 0 where
  pub reachable : List String
  pub pending : List String

-- The body of the `for` loop: a destination is noted once.
pub visit : Search → String → Search
visit s destination =
    if elem destination s.reachable
    then s
    else record { reachable = destination ∷ s.reachable; pending = destination ∷ s.pending }

pub visit_all : Search → List String → Search
visit_all s [] = s
visit_all s (destination ∷ rest) = visit_all (visit s destination) rest

module _ (targets : String → List String) where
  -- The `while` loop; out of fuel it stops with states still pending.
  pub explore : ℕ → Search → Search
  explore zero s = s
  explore (suc fuel) s = elim s.pending [
    | [] ↦ s
    | state ∷ rest ↦ explore fuel (visit_all (record s { pending = rest }) (targets state))
  ]

  -- Each state enters `pending` once, so its number, and that of the roots, is fuel enough.
  pub reachable_states : List String → List String → List String
  unfolding explore visit_all visit
  reachable_states states roots =
      (explore (length roots + length states)
        (record { reachable = roots; pending = roots })).reachable

-- edges[state]
abbrev pub targets_in : Dict (List String) → String → List String
targets_in edges state = elim (lookup edges state) [ none ↦ [] | some found ↦ found ]

-- edges[source].add(destination), for each source; sources have been checked to be states.
pub add_edges : Dict (List String) → List String → String → Dict (List String)
add_edges edges [] destination = edges
add_edges edges (source ∷ sources) destination =
    add_edges (put edges source (destination ∷ targets_in edges source)) sources destination

-- The target of a rule, which every rule but `update`'s has been checked to have.
pub edges_to : Dict (List String) → Option String → List String → Dict (List String)
unfolding add_edges
edges_to edges none sources = edges
edges_to edges (some destination) sources = add_edges edges sources destination

pub rule_edges : Dict (List String) → List Rule → Dict (List String)
unfolding edges_to
rule_edges edges [] = edges
rule_edges edges (rule ∷ rules) = rule_edges (edges_to edges rule.to rule.from_states) rules

pub action_edges : Dict (List String) → Dict Action → Dict (List String)
unfolding rule_edges
action_edges edges [] = edges
action_edges edges ((action_key, action) ∷ actions) =
    action_edges
      (if elem action_key ("create" ∷ "update" ∷ []) then edges else rule_edges edges action.rules)
      actions

-- {state: set() for state in states}
pub no_edges : List String → Dict (List String)
no_edges [] = []
no_edges (state ∷ states) = (state, []) ∷ no_edges states

-- for destination in destinations: reverse_edges[destination].add(source)
pub reverse_from : Dict (List String) → String → List String → Dict (List String)
reverse_from reverse source [] = reverse
reverse_from reverse source (destination ∷ rest) =
    reverse_from (put reverse destination (source ∷ targets_in reverse destination)) source rest

pub reverse_all : Dict (List String) → Dict (List String) → Dict (List String)
unfolding reverse_from
reverse_all reverse [] = reverse
reverse_all reverse ((source, destinations) ∷ edges) =
    reverse_all (reverse_from reverse source destinations) edges

-- The two errors, with the states that they list.
pub data GraphFault : Type 0 where
  unreachable : List String → GraphFault
  nonterminating : List String → GraphFault

-- sorted(xs - ys)
abbrev pub difference : List String → List String → List String
difference xs ys = sorted_set (filter (λ x. not (elem x ys)) xs)

unfoldable pub validate_state_graph :
    List String → Dict Action → String → List String → Option GraphFault
unfolding reachable_states action_edges no_edges reverse_all
validate_state_graph states actions initial_state terminal_states =
    let edges = action_edges (no_edges states) actions in
    let unreached =
      difference states (reachable_states (targets_in edges) states (initial_state ∷ [])) in
    let reverse = reverse_all (no_edges states) edges in
    let terminating = reachable_states (targets_in reverse) states terminal_states in
    let stuck = difference (filter (λ s. not (elem s terminal_states)) states) terminating in
    if not (is_empty unreached)
    then some (unreachable unreached)
    else if not (is_empty stuck)
    then some (nonterminating stuck)
    else none
