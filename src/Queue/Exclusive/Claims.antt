-- ===== src/Queue/Exclusive/Claims.antt =====
-- The statement of `claim_task_deliveries` that puts a delivery in process, and its session.
use team_flow.Prelude.{
  ℕ, ◌≡◌, inl, inr, refl, sym, subst, arith, String, Bool, true, false, ◌&&◌, Option, none, some,
  List, ◌∷◌, ◌==◌, eq_iff, elem, Bool-cases, Option-cases, All, update_rows, updated,
  update_rows-All, update_rows-Pairwise, and-left,
}
use team_flow.Workflow.Definition.{Definition, Task}
use team_flow.Queue.Tables.{is_processing, Delivery, Store}
use team_flow.Queue.Claim.{
  Candidate, Claiming, Verdict, skips, claims, judge, claimed_row, same_pair, unless_reserved,
  judge_current, is_ready, continuation_in,
}
use team_flow.Queue.Dispatch.{Current}
use team_flow.Queue.Calls.{claiming}
use team_flow.Queue.Machine.Answers.{Leads}
use team_flow.Queue.Exclusive.{Sound, Exclusive, Covered, Stands, pair_of_two}

absorbed : (a b : Bool) → (a ≡ true → b ≡ false) → (a && b) ≡ false
absorbed true b h = h refl
absorbed false b h = refl

other_way :
    (x y : Delivery)
    → (x.session_id == y.session_id) ≡ false
    → (y.session_id == x.session_id) ≡ false
other_way x y h = ground (arith, eq_iff x.session_id y.session_id, eq_iff y.session_id x.session_id)

Covered-more :
    (session_id : String) (reserved : List String) (x : Delivery)
    → Covered reserved x
    → Covered (session_id ∷ reserved) x
Covered-more session_id reserved x h = ground arith

Covered-first :
    (reserved : List String) (d x : Delivery)
    → (x.session_id == d.session_id) ≡ true
    → Covered (d.session_id ∷ reserved) x
Covered-first reserved d x h = ground arith

Stands-same :
    (d x : Delivery) → same_pair d x ≡ true → Stands d x → (x.session_id == d.session_id) ≡ true
Stands-same d x h k = ground arith

-- The statement that claims `d`, of a session that is free.
module _ (d : Delivery) (reserved : List String) (timestamp : ℕ) (message : String)
    (continuation : Option String) where
  abbrev pub fits : Delivery → Bool
  fits e = same_pair d e && is_ready timestamp e

  abbrev pub put_in : Delivery → Delivery
  put_in = claimed_row timestamp message continuation

  abbrev pub Known : Delivery → Type 0
  Known e = Stands d e × Covered reserved e

  module _ (is_free : elem d.session_id reserved ≡ false) where
    -- The session is that of `d`, which no other row has in process.
    no_clash :
        (x y : Delivery)
        → same_pair d x ≡ true
        → Known x
        → Known y
        → is_processing y.status ≡ true
        → (x.session_id == y.session_id) ≡ false
    no_clash x y q kx ky h = elim (Bool-cases (x.session_id == y.session_id)) [
      | inr e ↦ e
      | inl e ↦
          let a : x.session_id ≡ y.session_id = (eq_iff x.session_id y.session_id).0 e in
          let b : (x.session_id == d.session_id) ≡ true = ground arith in
          let c : x.session_id ≡ d.session_id = (eq_iff x.session_id d.session_id).0 b in
          let r : elem y.session_id reserved ≡ true = ground arith in
          let t : elem d.session_id reserved ≡ true = rw (sym c, a) r in cc
    ]

    taken-Sound :
        (x y : Delivery)
        → Known x
        → Known y
        → Sound x y
        → Sound (updated fits put_in x) (updated fits put_in y)
    taken-Sound x y kx ky s = elim (Bool-cases (fits x)) [
      | inl e ↦ elim (Bool-cases (fits y)) [
        | inl k ↦
            rw (e, k)
              (
                s.0,
                let q = pair_of_two d x y (and-left _ _ e) (and-left _ _ k) in let a = s.0 in cc,
              )
        | inr k ↦ rw (e, k) (s.0, absorbed _ _ λ h. no_clash x y (and-left _ _ e) kx ky h)
      ]
      | inr e ↦ elim (Bool-cases (fits y)) [
        | inl k ↦
            rw (e, k)
              (
                s.0,
                absorbed (is_processing x.status && true) (x.session_id == y.session_id)
                    λ h. other_way y x (no_clash y x (and-left _ _ k) ky kx (and-left _ _ h)),
              )
        | inr k ↦ rw (e, k) s
      ]
    ]

    taken-Covered :
        (x : Delivery) → Known x → Covered (d.session_id ∷ reserved) (updated fits put_in x)
    taken-Covered x k = elim (Bool-cases (fits x)) [
      | inl e ↦
          let same : updated fits put_in x ≡ put_in x = rw e refl in
          subst (Covered (d.session_id ∷ reserved)) (sym same)
            (Covered-first reserved d (put_in x) (Stands-same d x (and-left _ _ e) k.0))
      | inr e ↦
          let same : updated fits put_in x ≡ x = rw e refl in
          subst (Covered (d.session_id ∷ reserved)) (sym same)
            (Covered-more d.session_id reserved x k.1)
    ]

    -- Where no two deliveries are of one event and agent, the statement leaves no clash.
    pub taken-Exclusive :
        (ds : List Delivery)
        → Exclusive ds
        → All Known ds
        → Exclusive (update_rows fits put_in ds)
          × All (Covered (d.session_id ∷ reserved)) (update_rows fits put_in ds)
    taken-Exclusive ds x k = (
      update_rows-Pairwise fits put_in Known Sound Sound ds taken-Sound k x,
      update_rows-All fits put_in Known (Covered (d.session_id ∷ reserved)) ds taken-Covered k,
    )

module _ (definition : Definition) (uuid4 : Delivery → String) (timestamp limit : ℕ)
    (excluded : List String) (store : Store) where
  -- What holds of the loop: no clash, every busy session reserved, the deliveries those of the store.
  abbrev pub Claims : Claiming → Type 0
  Claims c =
      Exclusive c.deliveries
      × All (Covered c.reserved) c.deliveries
      × Leads (claiming uuid4 timestamp limit excluded) store.deliveries c.deliveries

  -- A verdict to claim is on a session that is not reserved.
  unless_reserved-free :
      (reserved : List String) (d : Delivery) (v : Verdict) (task : Task) (turn : Option String)
      → unless_reserved reserved d v ≡ claims task turn
      → elem d.session_id reserved ≡ false
  unless_reserved-free reserved d v task turn h = elim (Bool-cases (elem d.session_id reserved)) [
    | inr e ↦ e
    | inl e ↦ let q : skips ≡ claims task turn = rw e at h in cc
  ]

  judge_current-free :
      (reserved : List String) (row : Candidate) (current : Option Current) (task : Task)
      (turn : Option String)
      → judge_current definition store reserved row current ≡ claims task turn
      → elem row.delivery.session_id reserved ≡ false
  judge_current-free reserved row none task turn h = cc
  judge_current-free reserved row (some current) task turn h = ground arith

  pub judge-free :
      (c : Claiming) (row : Candidate) (task : Task) (turn : Option String)
      → judge definition store c row ≡ claims task turn
      → elem row.delivery.session_id c.reserved ≡ false
  unfolding judge
  judge-free c row task turn h =
      elim (Option-cases (continuation_in definition store c.deliveries row.delivery)) [
        | inl e ↦ judge_current-free c.reserved row _ task turn (rw (judge, e) at h)
        | inr (k, e) ↦ unless_reserved-free c.reserved row.delivery _ task turn (rw (judge, e) at h)
      ]
