-- ===== src/Queue/Machine.antt =====
-- The state machine of a delivery: how each call may move its status. Only `finish_task_delivery` and
-- `cancel_reconciled_task_delivery` do not say from which status, or leave it to their caller.
pub mod Updates
pub mod Answers
pub mod Loops
pub mod Steps
use team_flow.Prelude.{
  ℕ, ◌≡◌, ◌⊎◌, inl, inr, refl, sym, ◌∙◌, ap, arith, String, Bool, true, false, not, ◌&&◌, ◌||◌,
  Option, none, some, List, [], ◌∷◌, ◌==◌, Bool-cases, if◌then◌else◌, and-left, and-right,
  update_rows, updated, Rowwise, update_rows-Rowwise, Rowwise-refl, Rowwise-trans,
}
use team_flow.Queue.Tables.{
  Status, pending, retry, processing, waiting_permission, waiting_session, completed, failed,
  canceled, is_processing, is_open, status_eq, Delivery, Store,
}
use team_flow.Queue.Calls.{
  Call, recovering, retrying_failed, claiming, finishing, failing, awaiting_permission,
  awaiting_session, resuming_session, resuming_permission, starting_turn, queueing, queued,
  clearing_queueing, acknowledging, deferring, canceling, canceling_reconciled,
}

abbrev pub is_ended : Status → Bool
is_ended retry = true
is_ended completed = true
is_ended failed = true
is_ended _ = false

abbrev pub may_move : Call → Status → Status → Bool
may_move (recovering _) s t = is_processing s && status_eq t pending
may_move (retrying_failed _ _) s t =
    status_eq s failed && (status_eq t retry || status_eq t canceled)
may_move (claiming _ _ _ _) s t = is_open s && (is_processing t || status_eq t canceled)
may_move (finishing _ _ _ _ _ _ _) s t = is_ended t
may_move (failing _ _ _ _ _) s t = is_processing s && status_eq t failed
may_move (awaiting_permission _ _) s t = is_processing s && status_eq t waiting_permission
may_move (awaiting_session _ _) s t = is_processing s && status_eq t waiting_session
may_move (resuming_session _) s t = status_eq s waiting_session && status_eq t retry
may_move resuming_permission s t = status_eq s waiting_permission && status_eq t retry
may_move (canceling _ _) s t = is_processing s && status_eq t canceled
may_move (canceling_reconciled _ _ _ status _ _ _ _) s t =
    status_eq s status && status_eq t canceled
may_move _ s t = false

-- The same delivery, whose status stays or takes an edge.
abbrev pub Tracks : (Status → Status → Bool) → Delivery → Delivery → Type 0
Tracks edge d e =
    (e.id ≡ d.id)
    × (e.event_key ≡ d.event_key)
    × (e.agent_id ≡ d.agent_id)
    × (e.session_id ≡ d.session_id)
    × ((status_eq d.status e.status || edge d.status e.status) ≡ true)

pub status_eq_refl : (s : Status) → status_eq s s ≡ true
status_eq_refl pending = refl
status_eq_refl retry = refl
status_eq_refl processing = refl
status_eq_refl waiting_permission = refl
status_eq_refl waiting_session = refl
status_eq_refl completed = refl
status_eq_refl failed = refl
status_eq_refl canceled = refl

pub status_eq_sound : (s t : Status) → status_eq s t ≡ true → s ≡ t
status_eq_sound pending t h = ground arith
status_eq_sound retry t h = ground arith
status_eq_sound processing t h = ground arith
status_eq_sound waiting_permission t h = ground arith
status_eq_sound waiting_session t h = ground arith
status_eq_sound completed t h = ground arith
status_eq_sound failed t h = ground arith
status_eq_sound canceled t h = ground arith

module _ (edge : Status → Status → Bool) where
  pub stays : (s : Status) → (status_eq s s || edge s s) ≡ true
  stays s = rw (status_eq_refl s) refl

  pub Tracks-refl : (d : Delivery) → Tracks edge d d
  Tracks-refl d = (refl, refl, refl, refl, stays d.status)

  pub Tracks-rows : (ds : List Delivery) → Rowwise (Tracks edge) ds ds
  Tracks-rows ds = Rowwise-refl (Tracks edge) ds Tracks-refl

  -- A statement tracks every row when it does those that it selects.
  pub update_rows-Tracks :
      (p : Delivery → Bool) (f : Delivery → Delivery) (ds : List Delivery)
      → ((d : Delivery) → p d ≡ true → Tracks edge d (f d))
      → Rowwise (Tracks edge) ds (update_rows p f ds)
  update_rows-Tracks p f ds h =
      update_rows-Rowwise p f (Tracks edge) ds
        λ d. elim (Bool-cases (p d)) [ inl e ↦ rw e (h d e) | inr e ↦ rw e (Tracks-refl d) ]

  module _
      (closed : (s t u : Status)
        → edge s t ≡ true
        → edge t u ≡ true
        → (status_eq s u || edge s u) ≡ true) where
    moves_trans :
        (s t u : Status)
        → (status_eq s t || edge s t) ≡ true
        → (status_eq t u || edge t u) ≡ true
        → (status_eq s u || edge s u) ≡ true
    moves_trans s t u h k = elim (Bool-cases (status_eq s t)) [
      | inl e ↦ rw (status_eq_sound s t e) k
      | inr e ↦ elim (Bool-cases (status_eq t u)) [
        | inl q ↦ let r : t ≡ u = status_eq_sound t u q in rw (sym r) h
        | inr q ↦ closed s t u (ground arith) (ground arith)
      ]
    ]

    pub Tracks-trans : (d e f : Delivery) → Tracks edge d e → Tracks edge e f → Tracks edge d f
    Tracks-trans d e f h k =
        (k.0 ∙ h.0, k.1 ∙ h.1, k.2 ∙ h.2, k.3 ∙ h.3, moves_trans d.status e.status f.status h.4 k.4)

    pub Tracks-rows_trans :
        (ds es fs : List Delivery)
        → Rowwise (Tracks edge) ds es
        → Rowwise (Tracks edge) es fs
        → Rowwise (Tracks edge) ds fs
    Tracks-rows_trans ds es fs h k = Rowwise-trans (Tracks edge) ds es fs Tracks-trans h k
