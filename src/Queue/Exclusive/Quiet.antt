-- ===== src/Queue/Exclusive/Quiet.antt =====
-- The calls of core/task_delivery_store.py that put no delivery in process.
use team_flow.Prelude.{
  ◌≡◌, inl, inr, refl, arith, String, Bool, true, false, not, ◌&&◌, ◌||◌, List, ◌==◌, elem,
  Bool-cases, All, Rowwise, Rowwise-All, Rowwise-Pairwise,
}
use team_flow.Queue.Tables.{Status, status_eq, is_processing, Delivery}
use team_flow.Queue.Machine.{Tracks, status_eq_sound}
use team_flow.Queue.Exclusive.{Sound, Exclusive, Covered}

-- A change that puts nothing in process.
abbrev pub Quiet : Delivery → Delivery → Type 0
Quiet d e =
    (e.event_key ≡ d.event_key)
    × (e.agent_id ≡ d.agent_id)
    × (e.session_id ≡ d.session_id)
    × ((not (is_processing e.status) || is_processing d.status) ≡ true)

Quiet-Sound : (d d' e e' : Delivery) → Quiet d d' → Quiet e e' → Sound d e → Sound d' e'
Quiet-Sound d d' e e' q r s = (
  rw (q.0, q.1, r.0, r.1) s.0,
  rw (q.2, r.2)
      (still_apart (is_processing d.status) (is_processing d'.status) (is_processing e.status)
        (is_processing e'.status) (d.session_id == e.session_id) q.3 r.3 s.1),
)
  where
    still_apart :
        (a a' b b' c : Bool)
        → (not a' || a) ≡ true
        → (not b' || b) ≡ true
        → (a && b && c) ≡ false
        → (a' && b' && c) ≡ false
    still_apart a a' b b' c h k q = ground arith

pub Quiet-Exclusive : (ds es : List Delivery) → Rowwise Quiet ds es → Exclusive ds → Exclusive es
Quiet-Exclusive ds es h x = Rowwise-Pairwise Quiet Sound Sound ds es Quiet-Sound h x

pub Quiet-Covered :
    (reserved : List String) (ds es : List Delivery)
    → Rowwise Quiet ds es
    → All (Covered reserved) ds
    → All (Covered reserved) es
Quiet-Covered reserved ds es h a =
    Rowwise-All Quiet (Covered reserved) (Covered reserved) ds es
      (λ d e q c. rw q.2 (
        still_in (is_processing d.status) (is_processing e.status) (elem d.session_id reserved) q.3
          c))
      h a
  where
    still_in : (a a' c : Bool) → (not a' || a) ≡ true → (not a || c) ≡ true → (not a' || c) ≡ true
    still_in a a' c h k = ground arith

pub Tracks-Quiet :
    (edge : Status → Status → Bool)
    → ((s t : Status) → edge s t ≡ true → is_processing t ≡ false)
    → (d e : Delivery) → Tracks edge d e
    → Quiet d e
Tracks-Quiet edge idle d e t = (t.1, t.2, t.3, still d.status e.status t.4)
  where
    still :
        (s u : Status)
        → (status_eq s u || edge s u) ≡ true
        → (not (is_processing u) || is_processing s) ≡ true
    still s u h = elim (Bool-cases (edge s u)) [
      | inl e ↦ let q = idle s u e in rw q refl
      | inr e ↦
          let q : status_eq s u ≡ true = ground arith in
          rw (status_eq_sound s u q) (ground (arith, Bool-cases (is_processing u)))
    ]
