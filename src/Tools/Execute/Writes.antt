-- ===== src/Tools/Execute/Writes.antt =====
-- What a run of `_execute_existing_action` does to the board: nothing, or one write of a change that
-- was let through, to a card that is still the one it was decided on.
use team_flow.Prelude.{
  ◌≡◌, ◌⊎◌, sym, refl, String, Bool, true, false, ◌&&◌, Option, none, some, ◌==◌, strip, arith,
  Bool-cases, Option-cases, inl, inr, Dict,
}
use team_flow.Workflow.Value.{Value, fields_eq}
use team_flow.Workflow.Definition.{Rule, Definition, Assignment, Task}
use team_flow.Workflow.Responses.{action_success}
use team_flow.Workflow.Lifecycle.{Prepared, prepared, failed, raises, prepare_existing_action}
use team_flow.Workflow.Lifecycle.Permits.{Permits, prepare_existing_action-Permits}
use team_flow.Delivery.Input.{Delivery, normal, normalize_delivery_input}
use team_flow.Delivery.Input.Cases.{normal_cases}
use team_flow.Tools.World.{World, Reads, still, read, Reads-trans}
use team_flow.Tools.Execute.Overwrites.{Unwritten, Overwrites, reread_writes}
use team_flow.Tools.Execute.{
  Outcome, Call, delivered_patch, says_nothing, carry_out, decide, check_current, run_action,
  execute_existing_action,
}

-- The card is the one that the caller looked at, if there was one.
abbrev pub AsSeen : Option Task → Task → Type 0
AsSeen none task = Unit
AsSeen (some current) task = fields_eq current task ≡ true

module _ {S : Type 0} (w : World S) (a : Assignment) (d : Definition) (call : Call) where
  -- What is written to `task`, which was read just before the state `u`, is a change that was let
  -- through, with what the delivery adds to it.
  pub record Decided (record_id : String) (task : Task) (u : S) (r : Outcome × S) : Type 0 where
    pub rule : Rule
    pub base : Dict Value
    pub already_applied : Bool
    pub decision :
        prepare_existing_action a d call.action_key task call.payload call.variant
          call.runtime_facts call.confirmed
        ≡ prepared rule base already_applied
    pub permits :
        already_applied ≡ false
        → Permits a d call.action_key task call.payload call.variant call.runtime_facts
            call.confirmed rule base
    pub delivery : Delivery
    pub clean : normalize_delivery_input w.files a.workspace_root call.delivery ≡ normal delivery
    pub patch : Dict Value
    pub delivered : delivered_patch w a d call u rule base task delivery ≡ some patch
    pub overwrites : Overwrites w a d call record_id patch task u r

  -- The whole way of a change that is written, from the state `s`.
  pub record Carried (record_id : String) (s : S) (r : Outcome × S) : Type 0 where
    pub task : Task
    pub u : S
    pub looked : w.get_lark_task record_id s ≡ (some task, u)
    pub expected : AsSeen call.current_task task
    pub decided : Decided record_id task u r

  module _ (record_id : String) where
    carry_out_writes :
        (m : Prepared) (delivery : Delivery) (task : Task) (u : S)
        → m
          ≡ prepare_existing_action a d call.action_key task call.payload call.variant
              call.runtime_facts call.confirmed
        → normalize_delivery_input w.files a.workspace_root call.delivery ≡ normal delivery
        → let r = carry_out w a d call record_id m delivery task u in
          Unwritten w a d call u r ⊎ Decided record_id task u r
    unfolding carry_out action_success
    carry_out_writes (failed x) delivery task u h clean = inl (still, tt)
    carry_out_writes raises delivery task u h clean = inl (still, tt)
    carry_out_writes (prepared rule base already) delivery task u h clean =
        elim (Bool-cases (already && says_nothing delivery)) [
          | inl e ↦ rw e (inl (still, refl))
          | inr e ↦ elim (Option-cases (delivered_patch w a d call u rule base task delivery)) [
            | inl f ↦ rw (e, f) (inl (still, tt))
            | inr (patch, f) ↦
                rw (e, f)
                  (elim (reread_writes w a d call record_id rule patch task u) [
                    | inl unwritten ↦ inl unwritten
                    | inr overwrites ↦ inr (record {
                      rule = rule;
                      base = base;
                      already_applied = already;
                      decision = sym h;
                      permits = λ q.
                          prepare_existing_action-Permits a d call.action_key task call.payload
                            call.runtime_facts call.variant call.confirmed (ground arith);
                      delivery = delivery;
                      clean = clean;
                      patch = patch;
                      delivered = f;
                      overwrites = overwrites;
                    })
                  ])
          ]
        ]

    decide_writes :
        (task : Task) (u : S)
        → let r = decide w a d call record_id task u in
          Unwritten w a d call u r ⊎ Decided record_id task u r
    unfolding decide
    decide_writes task u =
        elim (normal_cases (normalize_delivery_input w.files a.workspace_root call.delivery)) [
          | inl (fault, e) ↦ rw (e, decide) (inl (still, tt))
          | inr (delivery, e) ↦
              rw (e, decide)
                (carry_out_writes
                  (prepare_existing_action a d call.action_key task call.payload call.variant
                    call.runtime_facts call.confirmed)
                  delivery task u refl e)
        ]

    check_current_writes :
        (asked : Option Task) (task : Task) (u : S)
        → let r = check_current w a d call record_id asked task u in
          Unwritten w a d call u r ⊎ AsSeen asked task × Decided record_id task u r
    unfolding check_current
    check_current_writes none task u = elim (decide_writes task u) [
      | inl unwritten ↦ inl unwritten
      | inr decided ↦ inr (tt, decided)
    ]
    check_current_writes (some current) task u = elim (Bool-cases (fields_eq current task)) [
      | inr e ↦ rw e (inl (still, tt))
      | inl e ↦ rw e (elim (decide_writes task u) [
        | inl unwritten ↦ inl unwritten
        | inr decided ↦ inr (refl, decided)
      ])
    ]

    run_action_writes :
        (s : S)
        → let r = run_action w a d call record_id s in
          Unwritten w a d call s r ⊎ Carried record_id s r
    unfolding run_action
    run_action_writes s =
        let u = (w.get_lark_task record_id s).1 in
        let once : Reads w s u = read record_id still refl in
        elim (Option-cases (w.get_lark_task record_id s).0) [
          | inl e ↦ rw (e, run_action) (inl (once, tt))
          | inr (task, e) ↦
              rw (e, run_action)
                (elim (check_current_writes call.current_task task u) [
                  | inl unwritten ↦ inl (Reads-trans w once unwritten.0, unwritten.1)
                  | inr (expected, decided) ↦ inr (record {
                    task = task;
                    u = u;
                    looked = ground arith;
                    expected = expected;
                    decided = decided;
                  })
                ])
        ]

  -- A run of an action only reads the board, and then its success says that the action was applied
  -- already; or it writes the card once. What it writes is a change that was let through with what
  -- the delivery adds to it, to a card that a second read shows unchanged, that is the card the
  -- caller looked at, and that passes the completion gate. After that it only reads, and its success
  -- shows every field of the change.
  pub execute_existing_action_writes :
      (s : S)
      → let r = execute_existing_action w a d call s in
        Unwritten w a d call s r ⊎ Carried (strip call.record_id) s r
  unfolding execute_existing_action
  execute_existing_action_writes s = elim (Bool-cases (strip call.record_id == "")) [
    | inl e ↦ rw e (inl (still, tt))
    | inr e ↦ rw e (run_action_writes (strip call.record_id) s)
  ]
