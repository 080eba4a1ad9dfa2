-- ===== src/Queue/Claim/Handed.antt =====
-- core/task_delivery_store.py, `claim_task_deliveries`: what it hands out.
use team_flow.Prelude.{
  ℕ, ◌≡◌, ◌⊎◌, inl, inr, refl, sym, arith, String, Bool, true, false, ◌&&◌, Option, none, some,
  List, [], ◌∷◌, ◌++◌, ◌==◌, eq_refl, eq_iff, elem, Bool-cases, any, All, All-mem, All-map,
  All-snoc, Pairwise, Pairwise-snoc, any_kept, any_set, rowcount, rowcount-witness, nat_beq,
  update_rows, and-left, and-right,
}
use team_flow.Workflow.Definition.{Definition, Task}
use team_flow.Queue.Tables.{is_processing, is_open, Delivery, Store, text_is}
use team_flow.Queue.Claim.{
  Candidate, Claimed, Claiming, cancel_row, take_row, claim_row, claim_task_deliveries, candidates,
  first_claiming, busy_sessions, message_of, claimed_row, canceled_at, claimed_item, same_pair,
  is_ready_row, is_open_row,
}
use team_flow.Queue.Calls.{claiming}
use team_flow.Queue.Machine.{may_move, Tracks-rows}
use team_flow.Queue.Machine.Answers.{Leads}
use team_flow.Queue.Machine.Loops.{claim_row-Leads}
use team_flow.Queue.Claim.Reasons.{CarriesOn, IsCalledFor, Handed, judge-claims}
use team_flow.Queue.Claim.Cases.{claim_row_cases, claim_rows-keeps}
use team_flow.Queue.Claim.Rows.{IsCandidate, candidates-All}

reserved_more : (s t : String) (xs : List String) → elem s xs ≡ true → elem s (t ∷ xs) ≡ true
reserved_more s t xs h = ground arith

not_before : (a b : Bool) → (a ≡ true → b ≡ true) → b ≡ false → a ≡ false
not_before true b h k = let q = h refl in cc
not_before false b h k = refl

other_session :
    (s t : String) (xs : List String) → elem s xs ≡ true → elem t xs ≡ false → (s == t) ≡ false
other_session s t xs h k = elim (Bool-cases (s == t)) [
  | inr e ↦ e
  | inl e ↦ let q : s ≡ t = (eq_iff s t).0 e in let r : elem t xs ≡ true = rw (sym q) h in cc
]

-- The row of an item is in process, under the item's message.
abbrev pub in_hand : Claimed → Delivery → Bool
in_hand item e =
    same_pair item.delivery e && is_processing e.status && (elim item.delivery.client_message_id [
      | none ↦ false
      | some m ↦ text_is e.client_message_id m
    ])

abbrev pub OtherSession : Claimed → Claimed → Type 0
OtherSession a b = (a.delivery.session_id == b.delivery.session_id) ≡ false

module _ (definition : Definition) (uuid4 : Delivery → String) (timestamp limit : ℕ)
    (excluded : List String) (store : Store) where
  abbrev initial : List String
  initial = busy_sessions store ++ excluded

  -- What the loop keeps of its items.
  abbrev pub Good : Claiming → Claimed → Type 0
  Good c item =
      Handed definition uuid4 timestamp limit excluded store item
      × (elem item.delivery.session_id c.reserved ≡ true)
      × (any (in_hand item) c.deliveries ≡ true)

  abbrev pub Handing : Claiming → Type 0
  Handing c =
      All (Good c) c.claimed
      × Pairwise OtherSession c.claimed
      × ((s : String) → elem s initial ≡ true → elem s c.reserved ≡ true)

  -- A row in process is selected by neither statement.
  in_hand-closed :
      (item : Claimed) (d e : Delivery)
      → in_hand item e ≡ true
      → (is_open_row d e ≡ false) × (is_ready_row timestamp d e ≡ false)
  in_hand-closed item d e h =
      let q : is_processing e.status ≡ true =
        and-right (same_pair item.delivery e) (is_processing e.status) (and-left _ _ h) in
      let o : is_open e.status ≡ false = ground arith in (ground arith, ground arith)

  cancel_row-Handing :
      (d : Delivery) (c : Claiming) → Handing c → Handing (cancel_row timestamp d c)
  cancel_row-Handing d c h = (
    All-map (Good c) (Good (cancel_row timestamp d c)) c.claimed
        (λ item g. (
          g.0,
          g.1,
          any_kept (is_open_row d) (canceled_at timestamp) (in_hand item) c.deliveries
              (λ e k. (in_hand-closed item d e k).0) g.2,
        ))
        h.0,
    h.1,
    h.2,
  )

  take_row-Handing :
      (row : Candidate) (task : Task) (turn : Option String) (c : Claiming)
      → IsCandidate timestamp store row
      → (elem row.delivery.session_id c.reserved ≡ false)
        × (CarriesOn definition uuid4 timestamp limit excluded store row task turn
            ⊎ IsCalledFor definition uuid4 timestamp limit excluded store row task turn)
      → Handing c
      → Handing (take_row uuid4 timestamp row.delivery task turn c)
  unfolding take_row
  take_row-Handing row task turn c is why h =
      let d = row.delivery in
      let p = is_ready_row timestamp d in
      let f = claimed_row timestamp (message_of uuid4 d) turn in
      let ds = update_rows p f c.deliveries in
      let item = claimed_item uuid4 d task turn in
      let kept : (i : Claimed) → any (in_hand i) c.deliveries ≡ true → any (in_hand i) ds ≡ true =
        λ i g. any_kept p f (in_hand i) c.deliveries (λ e k. (in_hand-closed i d e k).1) g in
      elim (Bool-cases (nat_beq (rowcount p c.deliveries) 1)) [
        | inr e ↦
            rw (take_row, e)
              (
                All-map (Good c) (Good (record c { deliveries = ds })) c.claimed
                    (λ i g. (g.0, g.1, kept i g.2)) h.0,
                h.1,
                h.2,
              )
        | inl e ↦
            let w = rowcount-witness p c.deliveries (ground arith) in
            let old = c.claimed in
            let next : Claiming = record {
              deliveries = ds;
              reserved = d.session_id ∷ c.reserved;
              claimed = old ++ item ∷ [];
            } in
            rw (take_row, e)
              (
                All-snoc (Good next) old item
                    (All-map (Good c) (Good next) old
                      (λ i g. (
                        g.0,
                        reserved_more i.delivery.session_id d.session_id c.reserved g.1,
                        kept i g.2,
                      ))
                      h.0)
                    (
                      (row, is, not_before _ _ (h.2 d.session_id) why.0, refl, why.1),
                      ground (arith, eq_refl d.session_id),
                      any_set p f (in_hand item) c.deliveries w.1 w.2 (
                          let q : same_pair d w.0 ≡ true = and-left _ _ w.2 in
                          ground (arith, eq_refl (message_of uuid4 d))),
                    ),
                Pairwise-snoc OtherSession old item h.1 (
                    All-map (Good c) (λ i. OtherSession i item) old
                      (λ i g. other_session i.delivery.session_id d.session_id c.reserved g.1 why.0)
                      h.0),
                λ s q. reserved_more s d.session_id c.reserved (h.2 s q),
              )
      ]

  claim_row-Handing :
      (row : Candidate) (c : Claiming)
      → IsCandidate timestamp store row
      → Leads (claiming uuid4 timestamp limit excluded) store.deliveries c.deliveries
      → Handing c
      → Handing (claim_row definition uuid4 timestamp limit store row c)
  claim_row-Handing row c is leads h =
      claim_row_cases definition uuid4 timestamp limit store Handing row c
        (cancel_row-Handing row.delivery c h) h
        λ task turn j.
          take_row-Handing row task turn c is
            (judge-claims definition uuid4 timestamp limit excluded store c row task turn leads j) h

  -- Every item handed out is the row of a delivery that was pending or to be tried again, and due, of
  -- a session that was neither excluded nor busy, with one attempt more; it carries on an active
  -- execution, or its event is the one that the card's state calls for and its agent has the role that
  -- is called for. Its row is in process now, and no two items are of one session.
  pub claim_task_deliveries-Handed :
      let out = claim_task_deliveries definition uuid4 timestamp limit store excluded in
      All
        (λ item.
          Handed definition uuid4 timestamp limit excluded store item
          × (any (in_hand item) out.0.deliveries ≡ true))
        out.1
      × Pairwise OtherSession out.1
  unfolding claim_task_deliveries
  claim_task_deliveries-Handed =
      let end =
        (claim_rows-keeps definition uuid4 timestamp limit store
          (λ c.
            Handing c
            × Leads (claiming uuid4 timestamp limit excluded) store.deliveries c.deliveries)
          (candidates timestamp limit store) (first_claiming store excluded)
          (λ row c m h. (
            claim_row-Handing row c
                (All-mem (IsCandidate timestamp store) (candidates timestamp limit store)
                  (candidates-All timestamp limit store) m)
                h.1 h.0,
            claim_row-Leads definition uuid4 timestamp limit excluded store row c h.1,
          ))
          (
            (tt, tt, λ s q. q),
            Tracks-rows (may_move (claiming uuid4 timestamp limit excluded)) store.deliveries,
          )).0 in
      (All-map _ _ _ (λ item g. (g.0, g.2)) end.0, end.1)
