-- ===== src/Workflow/Lifecycle/Offers.antt =====
-- The actions that a card offers are the ones that the engine does not turn away.
use team_flow.Prelude.{
  String, ◌≡◌, refl, ap, true, false, ◌&&◌, Option, some, List, [], ◌∷◌, ◌++◌, Memᴰ, elem, is_empty,
  is_some, filter, map, arith, Bool-cases, inl, inr, ◌==◌, eq_iff, eq_refl, Dict, lookup, keys,
  Distinct, mem-filter, filter-mem, filter-is_empty, elem-lookup, and-left, and-right,
}
use mathlib.Core.List.Memᴰ
use team_flow.Workflow.Value.{Value, text, get}
use team_flow.Workflow.Repr.{as_text}
use team_flow.Workflow.Definition.{Rule, Action, Definition, Assignment, Task}
use team_flow.Workflow.Contract.{
  AvailableAction, rule_actor_allowed, offer, is_offered, rule_offers, rule_option, variant_actions,
}
use team_flow.Workflow.Responses.{WorkflowError}
use team_flow.Workflow.Lifecycle.{
  failed, from_status, variant_rules, choose_source, choose, prepare_action,
  prepare_existing_action,
}
use team_flow.Workflow.Lifecycle.Codes.{about_contents, choose_source_code}

-- What an offered entry says about the definition.
record IsOffer (a : Assignment) (d : Definition) (task : Task) (actions : Dict Action)
    (x : AvailableAction) : Type 0 where
  action : Action
  rule : Rule
  action_key : String
  installed : lookup actions action_key ≡ some action
  existing : (action_key == "create") ≡ false
  listed : Memᴰ rule action.rules
  open_to : is_offered a d task rule ≡ true
  shown : x ≡ offer a d task action_key action rule

mem-map-offer :
    (a : Assignment) (d : Definition) (task : Task) (action_key : String) (action : Action)
    (rules : List Rule) {x : AvailableAction}
    → Memᴰ x (map (offer a d task action_key action) rules)
    → (rule : Rule) × Memᴰ rule rules × (x ≡ offer a d task action_key action rule)
mem-map-offer a d task action_key action [] m = elim m [ ]
mem-map-offer a d task action_key action (r ∷ rs) (Memᴰ.head e) = (r, Memᴰ.head refl, e)
mem-map-offer a d task action_key action (r ∷ rs) (Memᴰ.tail m) =
    let (rule, n, e) = mem-map-offer a d task action_key action rs m in (rule, Memᴰ.tail n, e)

IsOffer-cons :
    (a : Assignment) (d : Definition) (task : Task) (key : String) (first : Action)
    (actions : Dict Action) {x : AvailableAction}
    → elem key (keys actions) ≡ false
    → IsOffer a d task actions x
    → IsOffer a d task ((key, first) ∷ actions) x
IsOffer-cons a d task key first actions fresh o = record {
  action = o.action;
  rule = o.rule;
  action_key = o.action_key;
  installed = ground (
    arith,
    o.installed,
    elem-lookup actions o.action_key {v = o.action},
    eq_iff key o.action_key,
  );
  existing = o.existing;
  listed = o.listed;
  open_to = o.open_to;
  shown = o.shown;
}

rule_offers-IsOffer :
    (a : Assignment) (d : Definition) (task : Task) (actions : Dict Action) {x : AvailableAction}
    → Distinct (keys actions)
    → Memᴰ x (rule_offers a d task actions)
    → IsOffer a d task actions x
unfolding rule_offers
rule_offers-IsOffer a d task [] u m = elim m [ ]
rule_offers-IsOffer a d task ((key, action) ∷ actions) {x} u m =
    elim (Bool-cases (key == "create")) [
      | inl e ↦
          let rest : Memᴰ x (rule_offers a d task actions) = rw e at m in
          IsOffer-cons a d task key action actions u.0
            (rule_offers-IsOffer a d task actions u.1 rest)
      | inr e ↦
          let here : Memᴰ x (
              map (offer a d task key action) (filter (is_offered a d task) action.rules)
              ++ rule_offers a d task actions) =
            rw e at m in
          elim (Memᴰ.append_cases
            (map (offer a d task key action) (filter (is_offered a d task) action.rules)) here) [
              | inl n ↦
                  let (rule, listed, shown) = mem-map-offer a d task key action _ n in
                  let (member, offered) = mem-filter (is_offered a d task) action.rules listed in
                  record {
                    action = action;
                    rule = rule;
                    action_key = key;
                    installed = ground (arith, eq_refl key);
                    existing = e;
                    listed = member;
                    open_to = offered;
                    shown = shown;
                  }
              | inr n ↦
                  IsOffer-cons a d task key action actions u.0
                    (rule_offers-IsOffer a d task actions u.1 n)
            ]
    ]

variant_rules-offered :
    (key : String) (rule : Rule) (rules : List Rule)
    → Memᴰ rule rules
    → Memᴰ rule (variant_rules (rule_option key rule) rules)
      × ((is_some (rule_option key rule) && is_empty (variant_rules (rule_option key rule) rules))
          ≡ false)
unfolding rule_option
variant_rules-offered key rule rules m = elim (Bool-cases (elem key variant_actions)) [
  | inl e ↦
      let same = λ (r : Rule). r.key == rule.key in
      rw e (
        filter-mem same rules m (eq_refl rule.key),
        filter-is_empty same rules m (eq_refl rule.key),
      )
  | inr e ↦ rw e (m, refl)
]

-- What is left of `prepare_existing_action` for an installed action, confirmed, with a known variant.
prepare_existing_action_choose :
    (a : Assignment) (d : Definition) (action_key : String) (task : Task) (payload : Dict Value)
    (variant : Option String) (runtime_facts : List String) (action : Action) {e : WorkflowError}
    → lookup d.lifecycle.actions action_key ≡ some action
    → (is_some variant && is_empty (variant_rules variant action.rules)) ≡ false
    → prepare_existing_action a d action_key task payload variant runtime_facts true ≡ failed e
    → choose_source a d action_key task payload variant runtime_facts
        (variant_rules variant action.rules)
      ≡ failed e
unfolding prepare_existing_action prepare_action choose
prepare_existing_action_choose a d action_key task payload variant runtime_facts action {e} i v h =
    let rules = variant_rules variant action.rules in
    let h' : prepare_action a d action_key task payload variant runtime_facts true action
        ≡ failed e =
      ground arith in
    ground arith

offer_named :
    (a : Assignment) (d : Definition) (task : Task) (action_key : String) (action : Action)
    (rule : Rule) {x : AvailableAction}
    → x ≡ offer a d task action_key action rule
    → (x.action ≡ action_key) × (x.option ≡ rule_option action_key rule)
unfolding offer
offer_named a d task action_key action rule e =
    (ap (λ (y : AvailableAction). y.action) e, ap (λ (y : AvailableAction). y.option) e)

offered_tests :
    (a : Assignment) (d : Definition) (task : Task) (rule : Rule) (status : String)
    → get task "status" ≡ text status
    → is_offered a d task rule ≡ true
    → (from_status task rule ≡ true) × (rule_actor_allowed a d rule (some task) ≡ true)
unfolding is_offered as_text
offered_tests a d task rule status s h =
    let both : (elem status rule.from_states && rule_actor_allowed a d rule (some task)) ≡ true =
      rw s at h in
    (rw s (and-left _ _ both), and-right _ _ both)

-- Taking up what a rule offers for a card, with the option that it names and with confirmation, is
-- never refused for the card's state, the agent's role, the option or a missing confirmation: an error can only be
-- about the fields that are sent, the fields of the card or the runtime's facts. The card's status
-- is a text, and no action is installed twice.
pub rule_offers_taken :
    (a : Assignment) (d : Definition) (task : Task) (x : AvailableAction) (payload : Dict Value)
    (runtime_facts : List String) (status : String) (e : WorkflowError)
    → Distinct (keys d.lifecycle.actions)
    → get task "status" ≡ text status
    → Memᴰ x (rule_offers a d task d.lifecycle.actions)
    → prepare_existing_action a d x.action task payload x.option runtime_facts true ≡ failed e
    → about_contents e.code ≡ true
rule_offers_taken a d task x payload runtime_facts status e u s m h =
    let o = rule_offers-IsOffer a d task d.lifecycle.actions u m in
    let option = rule_option o.action_key o.rule in
    let (listed, chosen) = variant_rules-offered o.action_key o.rule o.action.rules o.listed in
    let named : (x.action ≡ o.action_key) × (x.option ≡ option) =
      offer_named a d task o.action_key o.action o.rule o.shown in
    let h' : prepare_existing_action a d o.action_key task payload option runtime_facts true
        ≡ failed e =
      rw named.0 at (rw named.1 at h) in
    let (source, actor) = offered_tests a d task o.rule status s o.open_to in
    choose_source_code a d o.action_key task payload runtime_facts option
      (variant_rules option o.action.rules) listed source actor
      (prepare_existing_action_choose a d o.action_key task payload option runtime_facts o.action
        o.installed chosen h')
