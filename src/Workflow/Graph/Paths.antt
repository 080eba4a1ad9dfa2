-- ===== src/Workflow/Graph/Paths.antt =====
-- The edges that the graph check builds are the transitions that the rules allow.
use team_flow.Prelude.{
  String, ◌≡◌, refl, ap, Bool, false, not, ◌&&◌, ◌||◌, Option, none, some, List, [], ◌∷◌, inl, inr,
  elem, any, arith, Bool-cases, ◌==◌, eq_iff, Dict, put, keys, lookup-put, Distinct, put-Distinct,
}
use team_flow.Workflow.Definition.{Rule, Action}
use team_flow.Workflow.Graph.{
  targets_in, add_edges, edges_to, rule_edges, action_edges, no_edges, reverse_from, reverse_all,
}

abbrev leads_to : Option String → String → Bool
leads_to none y = false
leads_to (some to) y = y == to

-- The rule moves a card from state `x` to state `y`.
abbrev pub rule_moves : String → String → Rule → Bool
rule_moves x y rule = elem x rule.from_states && leads_to rule.to y

-- Some action other than `create` and `update` does.
abbrev pub moves : Dict Action → String → String → Bool
moves [] x y = false
moves ((action_key, action) ∷ actions) x y =
    not (elem action_key ("create" ∷ "update" ∷ [])) && any (rule_moves x y) action.rules
    || moves actions x y

elem-add_edges :
    (edges : Dict (List String)) (sources : List String) (destination x y : String)
    → elem y (targets_in (add_edges edges sources destination) x)
      ≡ (elem x sources && y == destination || elem y (targets_in edges x))
unfolding add_edges
elem-add_edges edges [] destination x y = refl
elem-add_edges edges (source ∷ sources) destination x y = ground (
  arith,
  elem-add_edges (put edges source (destination ∷ targets_in edges source)) sources destination x y,
  lookup-put edges source x (destination ∷ targets_in edges source),
  eq_iff source x,
  eq_iff x source,
)

elem-edges_to :
    (edges : Dict (List String)) (to : Option String) (sources : List String) (x y : String)
    → elem y (targets_in (edges_to edges to sources) x)
      ≡ (elem x sources && leads_to to y || elem y (targets_in edges x))
unfolding edges_to
elem-edges_to edges none sources x y = ground arith
elem-edges_to edges (some to) sources x y = elem-add_edges edges sources to x y

elem-rule_edges :
    (edges : Dict (List String)) (rules : List Rule) (x y : String)
    → elem y (targets_in (rule_edges edges rules) x)
      ≡ (any (rule_moves x y) rules || elem y (targets_in edges x))
unfolding rule_edges
elem-rule_edges edges [] x y = refl
elem-rule_edges edges (rule ∷ rules) x y = ground (
  arith,
  elem-rule_edges (edges_to edges rule.to rule.from_states) rules x y,
  elem-edges_to edges rule.to rule.from_states x y,
)

pub elem-action_edges :
    (edges : Dict (List String)) (actions : Dict Action) (x y : String)
    → elem y (targets_in (action_edges edges actions) x)
      ≡ (moves actions x y || elem y (targets_in edges x))
unfolding action_edges
elem-action_edges edges [] x y = refl
elem-action_edges edges ((action_key, action) ∷ actions) x y =
    elim (Bool-cases (elem action_key ("create" ∷ "update" ∷ []))) [
      | inl e ↦ ground (arith, elem-action_edges edges actions x y)
      | inr e ↦ ground (
        arith,
        elem-action_edges (rule_edges edges action.rules) actions x y,
        elem-rule_edges edges action.rules x y,
      )
    ]

pub elem-no_edges :
    (states : List String) (x y : String) → elem y (targets_in (no_edges states) x) ≡ false
unfolding no_edges
elem-no_edges [] x y = refl
elem-no_edges (state ∷ states) x y = ground (arith, elem-no_edges states x y)

-- `x` has an edge to `y` in one of the entries.
abbrev pub mentions : Dict (List String) → String → String → Bool
mentions [] x y = false
mentions ((source, destinations) ∷ edges) x y =
    source == x && elem y destinations || mentions edges x y

elem-reverse_from :
    (reverse : Dict (List String)) (source : String) (destinations : List String) (x y : String)
    → elem x (targets_in (reverse_from reverse source destinations) y)
      ≡ (source == x && elem y destinations || elem x (targets_in reverse y))
unfolding reverse_from
elem-reverse_from reverse source [] x y = ground arith
elem-reverse_from reverse source (destination ∷ rest) x y = ground (
  arith,
  elem-reverse_from (put reverse destination (source ∷ targets_in reverse destination)) source rest
      x y,
  lookup-put reverse destination y (source ∷ targets_in reverse destination),
  eq_iff destination y,
  eq_iff y destination,
  eq_iff source x,
  eq_iff x source,
)

pub elem-reverse_all :
    (reverse edges : Dict (List String)) (x y : String)
    → elem x (targets_in (reverse_all reverse edges) y)
      ≡ (mentions edges x y || elem x (targets_in reverse y))
unfolding reverse_all
elem-reverse_all reverse [] x y = refl
elem-reverse_all reverse ((source, destinations) ∷ edges) x y = ground (
  arith,
  elem-reverse_all (reverse_from reverse source destinations) edges x y,
  elem-reverse_from reverse source destinations x y,
)

mentions-absent :
    (edges : Dict (List String)) (x y : String)
    → elem x (keys edges) ≡ false
    → mentions edges x y ≡ false
mentions-absent [] x y h = refl
mentions-absent ((source, destinations) ∷ edges) x y h =
    ground (arith, mentions-absent edges x y, eq_iff x source, eq_iff source x)

pub mentions-elem :
    (edges : Dict (List String)) (x y : String)
    → Distinct (keys edges)
    → mentions edges x y ≡ elem y (targets_in edges x)
mentions-elem [] x y u = refl
mentions-elem ((source, destinations) ∷ edges) x y u =
    ground (arith, mentions-elem edges x y, mentions-absent edges x y, eq_iff source x)

add_edges-Distinct :
    (edges : Dict (List String)) (sources : List String) (destination : String)
    → Distinct (keys edges)
    → Distinct (keys (add_edges edges sources destination))
unfolding add_edges
add_edges-Distinct edges [] destination u = u
add_edges-Distinct edges (source ∷ sources) destination u =
    add_edges-Distinct (put edges source (destination ∷ targets_in edges source)) sources
      destination (put-Distinct edges source (destination ∷ targets_in edges source) u)

rule_edges-Distinct :
    (edges : Dict (List String)) (rules : List Rule)
    → Distinct (keys edges)
    → Distinct (keys (rule_edges edges rules))
unfolding rule_edges
rule_edges-Distinct edges [] u = u
rule_edges-Distinct edges (rule ∷ rules) u =
    rule_edges-Distinct (edges_to edges rule.to rule.from_states) rules (one rule.to)
  where
    one : (to : Option String) → Distinct (keys (edges_to edges to rule.from_states))
    one none = u
    one (some to) = add_edges-Distinct edges rule.from_states to u

pub action_edges-Distinct :
    (edges : Dict (List String)) (actions : Dict Action)
    → Distinct (keys edges)
    → Distinct (keys (action_edges edges actions))
unfolding action_edges
action_edges-Distinct edges [] u = u
action_edges-Distinct edges ((action_key, action) ∷ actions) u =
    elim (Bool-cases (elem action_key ("create" ∷ "update" ∷ []))) [
      | inl e ↦ rw e (action_edges-Distinct edges actions u)
      | inr e ↦ rw e (
          action_edges-Distinct (rule_edges edges action.rules) actions
            (rule_edges-Distinct edges action.rules u))
    ]

pub keys-no_edges : (states : List String) → keys (no_edges states) ≡ states
unfolding no_edges
keys-no_edges [] = refl
keys-no_edges (state ∷ states) = ap (λ (l : List String). state ∷ l) (keys-no_edges states)
