-- ===== src/Tools/Actions/Created.antt =====
-- What a run of `create_task` does to the board: nothing, or one write of a new card.
use team_flow.Prelude.{
  ◌≡◌, ◌⊎◌, refl, String, Bool, true, false, none, some, Option-cases, inl, inr, Dict,
}
use team_flow.Workflow.Value.{Value}
use team_flow.Workflow.Definition.{Rule, Definition, Assignment}
use team_flow.Workflow.Responses.{Success, action_success}
use team_flow.Workflow.Matching.{holds_all}
use team_flow.Workflow.Lifecycle.{Prepared, prepared, failed, raises, prepare_create_action}
use team_flow.Tools.World.{World, Reads, still}
use team_flow.Tools.Visible.{Visible, seen, read_raised, out_of_fuel, visible_write}
use team_flow.Tools.Visible.Honest.{Honest, visible_write-Honest}
use team_flow.Tools.Execute.{Outcome}
use team_flow.Tools.Execute.Overwrites.{OnSuccess}
use team_flow.Tools.Actions.{
  NewTask, create_payload, with_mode, create_mode, report_created, create_card, create_prepared,
  create_task,
}

module _ {S : Type 0} (w : World S) (a : Assignment) (d : Definition) where
  -- The board is as it was, and there is no success.
  abbrev pub Uncreated : S → Outcome × S → Type 0
  Uncreated s r = (r.1 ≡ s) × OnSuccess (λ x. true ≡ false) r.0

  -- The patch is written to a new card, then the board is only read; a success shows the patch.
  abbrev pub CreatedFrom : Dict Value → S → Outcome × S → Type 0
  CreatedFrom patch s r =
      Reads w (w.upsert_lark_task none patch s).1 r.1
      × OnSuccess (λ (x : Success). (x.already_applied ≡ false) × (holds_all x.task patch ≡ true))
          r.0

  -- A new card is made by the create action, with the delivery mode that was resolved.
  pub record Creates (n : NewTask) (s : S) (r : Outcome × S) : Type 0 where
    pub rule : Rule
    pub base : Dict Value
    pub already_applied : Bool
    pub decision : prepare_create_action a d (create_payload n) ≡ prepared rule base already_applied
    pub mode : String
    pub resolved : create_mode (w.version_control_enabled s) n.delivery_mode ≡ some mode
    pub creates : CreatedFrom (with_mode base mode) s r

  report_created-CreatedFrom :
      (rule : Rule) (patch : Dict Value) (s : S) (p : Visible × S)
      → Honest w patch (w.upsert_lark_task none patch s).1 p
      → CreatedFrom patch s (report_created w a d rule patch p)
  unfolding report_created action_success
  report_created-CreatedFrom rule patch s (read_raised, t) h = (h.0, tt)
  report_created-CreatedFrom rule patch s (out_of_fuel, t) h = (h.0, tt)
  report_created-CreatedFrom rule patch s (seen written false, t) h = (h.0, tt)
  report_created-CreatedFrom rule patch s (seen written true, t) h = (h.0, (refl, h.1 written refl))

  create_card-CreatedFrom :
      (rule : Rule) (patch : Dict Value) (s : S)
      → CreatedFrom patch s (create_card w a d rule patch s)
  unfolding create_card
  create_card-CreatedFrom rule patch s = elim (Option-cases (w.upsert_lark_task none patch s).0) [
    | inl e ↦ rw (e, create_card) (still, tt)
    | inr (written, e) ↦
        let t = (w.upsert_lark_task none patch s).1 in
        rw (e, create_card)
          (report_created-CreatedFrom rule patch s (visible_write w patch written t)
            (visible_write-Honest w patch written t))
  ]

  create_prepared_writes :
      (n : NewTask) (m : Prepared) (mode : String) (s : S)
      → prepare_create_action a d (create_payload n) ≡ m
      → create_mode (w.version_control_enabled s) n.delivery_mode ≡ some mode
      → let r = create_prepared w a d m mode s in Uncreated s r ⊎ Creates n s r
  unfolding create_prepared
  create_prepared_writes n (failed e) mode s h resolved = inl (refl, tt)
  create_prepared_writes n raises mode s h resolved = inl (refl, tt)
  create_prepared_writes n (prepared rule base already) mode s h resolved = inr (record {
    rule = rule;
    base = base;
    already_applied = already;
    decision = h;
    mode = mode;
    resolved = resolved;
    creates = create_card-CreatedFrom rule (with_mode base mode) s;
  })

  -- A run of `create_task` leaves the board alone and is no success; or it writes one new card, of
  -- the patch that the create action makes and the delivery mode that was resolved, after which it
  -- only reads, and its success shows every field of the card.
  pub create_task_writes :
      (n : NewTask) (s : S) → let r = create_task w a d n s in Uncreated s r ⊎ Creates n s r
  unfolding create_task
  create_task_writes n s =
      elim (Option-cases (create_mode (w.version_control_enabled s) n.delivery_mode)) [
        | inl e ↦ rw (e, create_task) (inl (refl, tt))
        | inr (mode, e) ↦
            rw (e, create_task)
              (create_prepared_writes n (prepare_create_action a d (create_payload n)) mode s refl
                e)
      ]
