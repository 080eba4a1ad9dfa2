-- ===== src/Tools/Execute/Overwrites.antt =====
-- The last steps of an action: the card is read once more, passes the gate, and is written.
use team_flow.Prelude.{
  ◌≡◌, ◌⊎◌, refl, String, true, false, none, some, arith, Bool-cases, Option-cases, inl, inr, Dict,
}
use team_flow.Workflow.Value.{Value, fields_eq}
use team_flow.Workflow.Definition.{Rule, Definition, Assignment, Task}
use team_flow.Workflow.Responses.{Success, action_success}
use team_flow.Workflow.Matching.{holds_all}
use team_flow.Delivery.Gate.{completion_failure}
use team_flow.Tools.World.{World, Reads, still, read}
use team_flow.Tools.Visible.{Visible, seen, read_raised, out_of_fuel, visible_write}
use team_flow.Tools.Visible.Honest.{Honest, visible_write-Honest}
use team_flow.Tools.Execute.{
  refused, succeeded, Outcome, answered, exception, unfinished, Call, report, write, pass_gate,
  reread,
}

-- `P` holds of the success that a run answers with, if it does.
abbrev pub OnSuccess : (Success → Type 0) → Outcome → Type 0
OnSuccess P (answered (succeeded x)) = P x
OnSuccess P (answered (refused e)) = Unit
OnSuccess P exception = Unit
OnSuccess P unfinished = Unit

module _ {S : Type 0} (w : World S) (a : Assignment) (d : Definition) (call : Call) where
  -- The board is only read, and a success says that nothing was left to do.
  abbrev pub Unwritten : S → Outcome × S → Type 0
  Unwritten s r = Reads w s r.1 × OnSuccess (λ (x : Success). x.already_applied ≡ true) r.0

  -- The patch is written to the card in the state `v`, then the board is only read; a success shows
  -- the patch.
  abbrev pub WrittenFrom : String → Dict Value → S → Outcome × S → Type 0
  WrittenFrom record_id patch v r =
      Reads w (w.upsert_lark_task (some record_id) patch v).1 r.1
      × OnSuccess (λ (x : Success). (x.already_applied ≡ false) × (holds_all x.task patch ≡ true))
          r.0

  -- The card is read once more in the state `u`, is unchanged, passes the gate, and is written.
  pub record Overwrites (record_id : String) (patch : Dict Value) (task : Task) (u : S)
      (r : Outcome × S) : Type 0 where
    pub latest : Task
    pub v : S
    pub again : w.get_lark_task record_id u ≡ (some latest, v)
    pub unchanged : fields_eq latest task ≡ true
    pub gate : completion_failure (w.git v) w.files w.json a.workspace_root d latest patch ≡ none
    pub writes : WrittenFrom record_id patch v r

  report-WrittenFrom :
      (record_id : String) (rule : Rule) (patch : Dict Value) (task : Task) (v : S)
      (p : Visible × S)
      → Honest w patch (w.upsert_lark_task (some record_id) patch v).1 p
      → WrittenFrom record_id patch v (report w a d call rule patch task p)
  unfolding report action_success
  report-WrittenFrom record_id rule patch task v (read_raised, t) h = (h.0, tt)
  report-WrittenFrom record_id rule patch task v (out_of_fuel, t) h = (h.0, tt)
  report-WrittenFrom record_id rule patch task v (seen written false, t) h = (h.0, tt)
  report-WrittenFrom record_id rule patch task v (seen written true, t) h =
      (h.0, (refl, h.1 written refl))

  module _ (record_id : String) where
    write-WrittenFrom :
        (rule : Rule) (patch : Dict Value) (task : Task) (v : S)
        → WrittenFrom record_id patch v (write w a d call record_id rule patch task v)
    unfolding write
    write-WrittenFrom rule patch task v =
        let t = (w.upsert_lark_task (some record_id) patch v).1 in
        elim (Option-cases (w.upsert_lark_task (some record_id) patch v).0) [
          | inl e ↦ rw (e, write) (still, tt)
          | inr (written, e) ↦
              rw (e, write)
                (report-WrittenFrom record_id rule patch task v (visible_write w patch written t)
                  (visible_write-Honest w patch written t))
        ]

    -- Either nothing is written from `u` on, or the card is overwritten.
    pub reread_writes :
        (rule : Rule) (patch : Dict Value) (task : Task) (u : S)
        → let r = reread w a d call record_id rule patch task u in
          Unwritten u r ⊎ Overwrites record_id patch task u r
    unfolding reread pass_gate
    reread_writes rule patch task u =
        let v = (w.get_lark_task record_id u).1 in
        let once : Reads w u v = read record_id still refl in
        elim (Option-cases (w.get_lark_task record_id u).0) [
          | inl e ↦ rw (e, reread) (inl (once, tt))
          | inr (latest, e) ↦ elim (Bool-cases (fields_eq latest task)) [
            | inr f ↦ rw (e, reread, f) (inl (once, tt))
            | inl f ↦
                elim (Option-cases
                  (completion_failure (w.git v) w.files w.json a.workspace_root d latest patch)) [
                    | inr (blocked, g) ↦ rw (e, reread, f, pass_gate, g) (inl (once, tt))
                    | inl g ↦
                        rw (e, reread, f, pass_gate, g)
                          (inr (record {
                            latest = latest;
                            v = v;
                            again = ground arith;
                            unchanged = f;
                            gate = g;
                            writes = write-WrittenFrom rule patch task v;
                          }))
                  ]
          ]
        ]
