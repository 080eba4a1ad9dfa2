-- ===== src/Queue/Exclusive.antt =====
-- The deliveries of core/task_delivery_store.py that are in process, and their sessions.
pub mod Quiet
pub mod Claims
pub mod Loop
use team_flow.Prelude.{
  ℕ, ◌≡◌, ◌⊎◌, inl, inr, refl, sym, subst, arith, String, Bool, true, false, not, ◌&&◌, ◌||◌,
  Option, none, some, List, [], ◌∷◌, ◌++◌, ◌==◌, eq_iff, eq_refl, elem, map, filter, Memᴰ,
  Bool-cases, if◌then◌else◌, All, All-mem, All-map, Pairwise-map, All-both, All-of_mem, Pairwise,
  update_rows, updated, rowcount, nat_beq, update_rows-All, update_rows-Pairwise, update_rows-none,
  rowcount_one, mem-elem, elem-mem,
}
use team_flow.Queue.Tables.{is_processing, is_open, processing, canceled, Delivery}
use team_flow.Queue.Claim.{same_pair}

-- The two are not of one event and one agent.
abbrev pub Apart : Delivery → Delivery → Type 0
Apart d e = same_pair d e ≡ false

abbrev pub clashes : Delivery → Delivery → Bool
clashes d e = is_processing d.status && is_processing e.status && d.session_id == e.session_id

abbrev pub Sound : Delivery → Delivery → Type 0
Sound d e = Apart d e × (clashes d e ≡ false)

-- Every two deliveries are of different events or agents, and not of one session where both are in
-- process.
abbrev pub Exclusive : List Delivery → Type 0
Exclusive ds = Pairwise Sound ds

-- A session that is busy is reserved.
abbrev pub Covered : List String → Delivery → Type 0
Covered reserved e = (not (is_processing e.status) || elem e.session_id reserved) ≡ true

-- A row of that event and agent has the session of `d`.
abbrev pub Stands : Delivery → Delivery → Type 0
Stands d e = (not (same_pair d e) || e.session_id == d.session_id) ≡ true

Apart-Stands : (d e : Delivery) → Apart d e → Stands d e
Apart-Stands d e a = ground arith

Stands-self : (d : Delivery) → Stands d d
Stands-self d = ground (arith, eq_refl d.session_id)

Apart-sym : (d e : Delivery) → Apart d e → Apart e d
Apart-sym d e a = ground (
  arith,
  eq_iff d.event_key e.event_key,
  eq_iff d.agent_id e.agent_id,
  eq_iff e.event_key d.event_key,
  eq_iff e.agent_id d.agent_id,
)

pub Exclusive-Stands :
    (ds : List Delivery) (d : Delivery) → Exclusive ds → Memᴰ d ds → All (Stands d) ds
Exclusive-Stands [] d x m = elim m [ ]
Exclusive-Stands (e ∷ ds) d x (Memᴰ.head q) =
    subst (λ (r : Delivery). All (Stands r) (e ∷ ds)) (sym q)
      (Stands-self e, All-map (Sound e) (Stands e) ds (λ y s. Apart-Stands e y s.0) x.0)
Exclusive-Stands (e ∷ ds) d x (Memᴰ.tail m) =
    (Apart-Stands d e (Apart-sym e d (All-mem (Sound e) ds x.0 m).0), Exclusive-Stands ds d x.1 m)

-- Two deliveries of one event and agent.
pub pair_of_two :
    (d e f : Delivery) → same_pair d e ≡ true → same_pair d f ≡ true → same_pair e f ≡ true
pair_of_two d e f h k = ground (
  arith,
  eq_iff e.event_key d.event_key,
  eq_iff f.event_key d.event_key,
  eq_iff e.agent_id d.agent_id,
  eq_iff f.agent_id d.agent_id,
  eq_iff f.event_key e.event_key,
  eq_iff f.agent_id e.agent_id,
)

-- A statement on the rows of one event and agent updates at most one.
pub pair-rowcount :
    (d : Delivery) (p : Delivery → Bool) (ds : List Delivery)
    → ((e : Delivery) → p e ≡ true → same_pair d e ≡ true)
    → Exclusive ds
    → (rowcount p ds ≡ 0) ⊎ (rowcount p ds ≡ 1)
pair-rowcount d p ds fits x = rowcount_one p ds (Pairwise-map Sound _ ds one x)
  where
    one : (e f : Delivery) → Sound e f → (p e && p f) ≡ false
    one e f s = elim (Bool-cases (p e)) [
      | inr h ↦ ground arith
      | inl h ↦ elim (Bool-cases (p f)) [
        | inr k ↦ ground arith
        | inl k ↦ let q = pair_of_two d e f (fits e h) (fits f k) in let a = s.0 in cc
      ]
    ]
