-- ===== src/Queue/Exclusive/Loop.antt =====
-- The sessions that are busy, over the loop of `claim_task_deliveries` and over any sequence of calls.
use team_flow.Prelude.{
  ℕ, ◌≡◌, inl, inr, refl, sym, arith, String, Bool, true, false, Option, List, [], ◌∷◌, ◌++◌, ◌==◌,
  eq_refl, elem, map, filter, Memᴰ, Bool-cases, All, All-mem, All-both, All-of_mem, Rowwise,
  Rowwise-map, Rowwise-All, update_rows-Rowwise, update_rows-none, and-left,
}
use team_flow.Workflow.Definition.{Definition, Task}
use team_flow.Queue.Tables.{Status, is_processing, Delivery, Store}
use team_flow.Queue.Claim.{
  Candidate, Claiming, cancel_row, take_row, claim_row, is_open_row, canceled_at, claim_rows,
  claim_task_deliveries, candidates, first_claiming, message_of,
}
use team_flow.Queue.Calls.{Call, claiming, step, run}
use team_flow.Queue.Machine.{may_move, Tracks, Tracks-rows}
use team_flow.Queue.Machine.Answers.{Leads}
use team_flow.Queue.Machine.Loops.{take_row-Leads, cancel_row-Leads, Leads-trans}
use team_flow.Queue.Machine.Steps.{step-Follows}
use team_flow.Queue.Claim.Cases.{claim_row_cases, claim_rows-keeps}
use team_flow.Queue.Claim.Rows.{IsCandidate, candidates-All}
use team_flow.Queue.Exclusive.{Exclusive, Covered, Stands, Exclusive-Stands, pair-rowcount}
use team_flow.Queue.Exclusive.Quiet.{Quiet, Quiet-Exclusive, Quiet-Covered, Tracks-Quiet}
use team_flow.Queue.Exclusive.Claims.{Claims, judge-free, taken-Exclusive, fits, put_in}

busy-elem :
    (ds : List Delivery) (excluded : List String) (d : Delivery)
    → Memᴰ d ds
    → is_processing d.status ≡ true
    → elem d.session_id (
        map (λ (e : Delivery). e.session_id) (filter (λ (e : Delivery). is_processing e.status) ds)
        ++ excluded)
      ≡ true
busy-elem [] excluded d m h = elim m [ ]
busy-elem (e ∷ ds) excluded d (Memᴰ.head q) h =
    let k : is_processing e.status ≡ true = rw (sym q) h in
    rw (q, k) (ground (arith, eq_refl e.session_id))
busy-elem (e ∷ ds) excluded d (Memᴰ.tail m) h =
    let rest = busy-elem ds excluded d m h in
    elim (Bool-cases (is_processing e.status)) [
      | inl k ↦ rw k (rw rest (ground (arith, Bool-cases (d.session_id == e.session_id))))
      | inr k ↦ rw k rest
    ]

module _ (definition : Definition) (uuid4 : Delivery → String) (timestamp limit : ℕ)
    (excluded : List String) (store : Store) where
  -- The rows of the candidate's event and agent have its session, as in the store.
  Claims-Stands :
      (d : Delivery) (ds : List Delivery)
      → Leads (claiming uuid4 timestamp limit excluded) store.deliveries ds
      → All (Stands d) store.deliveries
      → All (Stands d) ds
  Claims-Stands d ds h a =
      Rowwise-All (Tracks (may_move (claiming uuid4 timestamp limit excluded))) (Stands d)
        (Stands d) store.deliveries ds (λ e f t s. rw (t.1, t.2, t.3) s) h a

  cancel_row-Quiet :
      (d : Delivery) (c : Claiming)
      → Rowwise Quiet c.deliveries (cancel_row timestamp d c).deliveries
  cancel_row-Quiet d c =
      update_rows-Rowwise (is_open_row d) (canceled_at timestamp) Quiet c.deliveries λ e.
        elim (Bool-cases (is_open_row d e)) [
          | inl h ↦ rw h (refl, refl, refl, refl)
          | inr h ↦ rw h (refl, refl, refl, ground (arith, Bool-cases (is_processing e.status)))
        ]

  take_row-Claims :
      (d : Delivery) (task : Task) (turn : Option String) (c : Claiming)
      → Claims definition uuid4 timestamp limit excluded store c
      → All (Stands d) c.deliveries
      → elem d.session_id c.reserved ≡ false
      → Claims definition uuid4 timestamp limit excluded store
          (take_row uuid4 timestamp d task turn c)
  unfolding take_row
  take_row-Claims d task turn c h a is_free =
      let leads =
        Leads-trans definition uuid4 timestamp limit excluded store store.deliveries c.deliveries _
          h.2 (take_row-Leads definition uuid4 timestamp limit excluded store d task turn c) in
      let p = fits d c.reserved timestamp (message_of uuid4 d) turn in
      let taken =
        taken-Exclusive d c.reserved timestamp (message_of uuid4 d) turn is_free c.deliveries h.0
          (All-both (Stands d) (Covered c.reserved) c.deliveries a h.1) in
      elim (pair-rowcount d p c.deliveries (λ e q. and-left _ _ q) h.0) [
        | inl z ↦
            let same =
              update_rows-none p (put_in d c.reserved timestamp (message_of uuid4 d) turn)
                c.deliveries z in
            (rw (take_row, z, same) h.0, rw (take_row, z, same) h.1, leads)
        | inr o ↦ (rw (take_row, o) taken.0, rw (take_row, o) taken.1, leads)
      ]

  claim_row-Claims :
      (row : Candidate) (c : Claiming)
      → All (Stands row.delivery) store.deliveries
      → Claims definition uuid4 timestamp limit excluded store c
      → Claims definition uuid4 timestamp limit excluded store
          (claim_row definition uuid4 timestamp limit store row c)
  claim_row-Claims row c a h =
      let quiet = cancel_row-Quiet row.delivery c in
      claim_row_cases definition uuid4 timestamp limit store
        (Claims definition uuid4 timestamp limit excluded store) row c
        (
          Quiet-Exclusive c.deliveries _ quiet h.0,
          Quiet-Covered c.reserved c.deliveries _ quiet h.1,
          Leads-trans definition uuid4 timestamp limit excluded store store.deliveries c.deliveries
              _ h.2
              (cancel_row-Leads definition uuid4 timestamp limit excluded store row.delivery c),
        )
        h
        λ task turn j.
          take_row-Claims row.delivery task turn c h (Claims-Stands row.delivery c.deliveries h.2 a)
            (judge-free definition uuid4 timestamp limit excluded store c row task turn j)

  -- The sessions that are busy are reserved from the start.
  first_claiming-Covered : All (Covered (first_claiming store excluded).reserved) store.deliveries
  first_claiming-Covered = All-of_mem _ store.deliveries λ d m.
      elim (Bool-cases (is_processing d.status)) [
        | inr e ↦ rw e refl
        | inl e ↦ rw e (busy-elem store.deliveries excluded d m e)
      ]

  pub claim-Claims :
      Exclusive store.deliveries
      → Claims definition uuid4 timestamp limit excluded store (
          claim_rows definition uuid4 timestamp limit store
            (candidates timestamp limit store)
            (first_claiming store excluded))
  claim-Claims x =
      claim_rows-keeps definition uuid4 timestamp limit store
        (Claims definition uuid4 timestamp limit excluded store) (candidates timestamp limit store)
        (first_claiming store excluded)
        (λ row c m h.
          claim_row-Claims row c
            (Exclusive-Stands store.deliveries row.delivery x
              (All-mem (IsCandidate timestamp store) (candidates timestamp limit store)
                (candidates-All timestamp limit store) m).0)
            h)
        (x, first_claiming-Covered, Tracks-rows _ store.deliveries)

abbrev is_claim : Call → Bool
is_claim (claiming _ _ _ _) = true
is_claim _ = false

-- A call other than a claim puts nothing in process.
not_claiming :
    (call : Call) (s t : Status)
    → is_claim call ≡ false
    → may_move call s t ≡ true
    → is_processing t ≡ false
not_claiming call s t o h = ground arith

pub step-Exclusive :
    (definition : Definition) (call : Call) (store : Store)
    → Exclusive store.deliveries
    → Exclusive (step definition call store).deliveries
unfolding step claim_task_deliveries
step-Exclusive definition (claiming uuid4 timestamp limit excluded) store x =
    (claim-Claims definition uuid4 timestamp limit excluded store x).0
step-Exclusive definition call store x =
    Quiet-Exclusive store.deliveries (step definition call store).deliveries
      (Rowwise-map (Tracks (may_move call)) Quiet store.deliveries
        (step definition call store).deliveries
        (Tracks-Quiet (may_move call) (λ s t h. not_claiming call s t refl h))
        (step-Follows definition call store))
      x

-- Where no two deliveries are of one event and one agent, and none of one session are in process at
-- once, that stays so over any sequence of calls of the queue.
pub run-Exclusive :
    (definition : Definition) (calls : List Call) (store : Store)
    → Exclusive store.deliveries
    → Exclusive (run definition calls store).deliveries
unfolding run
run-Exclusive definition [] store x = x
run-Exclusive definition (call ∷ calls) store x =
    run-Exclusive definition calls (step definition call store)
      (step-Exclusive definition call store x)
