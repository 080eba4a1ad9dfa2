-- ===== src/Runtime/Steps/Later.antt =====
-- What the runtime remembers stays until its time is over.
use team_flow.Prelude.{
  ℕ, ◌+◌, ◌≡◌, ◌≤◌, ◌⊎◌, refl, arith, eq_iff, String, true, false, not, ◌&&◌, some, List, [], ◌∷◌,
  ◌==◌, ltb, filter, Bool-cases, inl, inr, Dict, lookup,
}
use team_flow.Runtime.State.{Grant, Cached, ClosedTurn, ToolRuntime, Host, is_turn, closed_until}
use team_flow.Runtime.Execute.{result_time, closing_time}
use team_flow.Runtime.Authorize.{purge}

module _ {V : Type 0} (time : V → ℕ) where
  -- An entry that has not expired is still found.
  lookup-purge :
      (now : ℕ) (d : Dict V) (k : String) {v : V}
      → lookup d k ≡ some v
      → ltb now (time v) ≡ true
      → lookup (filter (λ (e : String × V). ltb now (time e.1)) d) k ≡ some v
  lookup-purge now [] k l h = cc
  lookup-purge now ((j, w) ∷ d) k {v} l h = elim (Bool-cases (j == k)) [
    | inl e ↦ let q : w ≡ v = ground arith in ground arith
    | inr e ↦ ground (arith, lookup-purge now d k {v = v})
  ]

closed_until-purge :
    (now : ℕ) (turns : List ClosedTurn) (session_id turn_id : String) {until : ℕ}
    → closed_until session_id turn_id turns ≡ some until
    → ltb now until ≡ true
    → closed_until session_id turn_id (filter (λ (t : ClosedTurn). ltb now t.expires_at) turns)
      ≡ some until
unfolding closed_until
closed_until-purge now [] session_id turn_id l h = cc
closed_until-purge now (t ∷ turns) session_id turn_id {until} l h =
    elim (Bool-cases (is_turn session_id turn_id t)) [
      | inl e ↦ let q : t.expires_at ≡ until = ground arith in ground arith
      | inr e ↦ ground (arith, closed_until-purge now turns session_id turn_id {until = until})
    ]

pub closed_until-filter :
    (s t s' t' : String) (turns : List ClosedTurn)
    → (s == s' && t == t') ≡ false
    → closed_until s' t' (filter (λ x. not (is_turn s t x)) turns) ≡ closed_until s' t' turns
unfolding closed_until
closed_until-filter s t s' t' [] h = refl
closed_until-filter s t s' t' (x ∷ turns) h = ground (
  arith,
  closed_until-filter s t s' t' turns,
  eq_iff x.session_id s,
  eq_iff x.session_id s',
  eq_iff x.turn_id t,
  eq_iff x.turn_id t',
  eq_iff s s',
  eq_iff t t',
)

module _ {S A R : Type 0} (h : Host S A R) where
  -- The result of an invocation is kept until `e`, or `e` is past. No result is kept longer than
  -- five minutes, and no turn is closed longer than an hour.
  abbrev pub KeepsResult : String → ℕ → ToolRuntime R × S → Type 0
  KeepsResult id e c =
      (e ≤ h.monotonic c.1 + result_time)
      × (((cached : Cached R) × (lookup c.0.results id ≡ some cached) × (e ≤ cached.expires_at))
          ⊎ (e ≤ h.monotonic c.1))

  -- A turn is closed until `e`, or `e` is past.
  abbrev pub KeepsClosed : String → String → ℕ → ToolRuntime R × S → Type 0
  KeepsClosed session_id turn_id e c =
      (e ≤ h.monotonic c.1 + closing_time)
      × (((until : ℕ) × (closed_until session_id turn_id c.0.closed_turns ≡ some until)
            × (e ≤ until))
          ⊎ (e ≤ h.monotonic c.1))

  -- What comes after keeps what has not expired.
  pub record Later (c c' : ToolRuntime R × S) : Type 0 where
    pub time : h.monotonic c.1 ≤ h.monotonic c'.1
    pub results : (id : String) (e : ℕ) → KeepsResult id e c → KeepsResult id e c'
    pub turns :
        (session_id turn_id : String) (e : ℕ)
        → KeepsClosed session_id turn_id e c
        → KeepsClosed session_id turn_id e c'

  pub Later-refl : (c : ToolRuntime R × S) → Later c c
  Later-refl c = record { time = omega arith; results = λ id e k. k; turns = λ s t e k. k }

  pub Later-trans : {c c' c'' : ToolRuntime R × S} → Later c c' → Later c' c'' → Later c c''
  Later-trans p q = record {
    time = let a = p.time in let b = q.time in omega arith;
    results = λ id e k. q.results id e (p.results id e k);
    turns = λ s t e k. q.turns s t e (p.turns s t e k);
  }

  -- Time goes on, and the runtime remembers what it did.
  pub Later-world :
      (rt : ToolRuntime R) (s t : S) → h.monotonic s ≤ h.monotonic t → Later (rt, s) (rt, t)
  Later-world rt s t m = record {
    time = m;
    results = λ id e (b, k).
        (omega arith, elim k [ inl found ↦ inl found | inr past ↦ inr (omega arith) ]);
    turns = λ x y e (b, k).
        (omega arith, elim k [ inl found ↦ inl found | inr past ↦ inr (omega arith) ]);
  }

  -- Only the grants change.
  pub Later-grants :
      (rt : ToolRuntime R) (grants : Dict Grant) (s : S)
      → Later (rt, s) (record rt { grants = grants }, s)
  Later-grants rt grants s = record {
    time = omega arith;
    results = λ id e k. k;
    turns = λ a b e k. k;
  }

  pub Later-purge : (rt : ToolRuntime R) (s : S) → Later (rt, s) (purge (h.monotonic s) rt, s)
  unfolding purge
  Later-purge rt s = record {
    time = omega arith;
    results = λ id e (b, k). (
      b,
      elim k [
        | inr past ↦ inr past
        | inl (cached, l, m) ↦ elim (Bool-cases (ltb (h.monotonic s) cached.expires_at)) [
          | inl w ↦ inl (
            cached,
            lookup-purge (λ (x : Cached R). x.expires_at) (h.monotonic s) rt.results id l w,
            m,
          )
          | inr w ↦ inr (ground arith)
        ]
      ],
    );
    turns = λ x y e (b, k). (
      b,
      elim k [
        | inr past ↦ inr past
        | inl (until, l, m) ↦ elim (Bool-cases (ltb (h.monotonic s) until)) [
          | inl w ↦ inl (until, closed_until-purge (h.monotonic s) rt.closed_turns x y l w, m)
          | inr w ↦ inr (ground arith)
        ]
      ],
    );
  }
