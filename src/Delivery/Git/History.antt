-- ===== src/Delivery/Git/History.antt =====
-- What the reflog has to show for a branch to count as fast-forwarded onto a commit.
use team_flow.Prelude.{
  ℕ, zero, suc, String, ◌≡◌, ◌∙◌, refl, Bool, Option, none, some, not, nat_beq, true, false, List,
  [], ◌∷◌, ◌++◌, arith, ◌==◌, eq_iff, Bool-cases, inl, inr,
}
use team_flow.Delivery.Git.{
  Git, Fact, ◌>>=◌, bind-known, known, git_fact_error, chain_forward, scan, is_ancestor,
  fast_forwarded_to, run, code_allowed, checked_code, stripped_lines, splitlines,
}
use Prim.Native.String.{◌++◌ as append}
use mathlib.Core.List.{append_assoc}
use team_flow.Prelude.{ap, subst, ◌⊎◌, if◌then◌else◌}

checked_code-known :
    (m : Option (ℕ × String)) (allowed : List ℕ) {r : ℕ × String}
    → checked_code m allowed ≡ known r
    → m ≡ some r
unfolding checked_code
checked_code-known none allowed h = absurd (ground arith)
checked_code-known (some (n, output)) allowed {r} h = elim (Bool-cases (code_allowed n allowed)) [
  | inl e ↦ let same : (n, output) ≡ r = ground arith in ap (λ (x : ℕ × String). some x) same
  | inr e ↦ absurd (ground arith)
]

module _ (git : Git) (repo : String) where
  -- Every update moved the branch forward.
  abbrev pub Advanced : List String → Type 0
  Advanced [] = Unit
  Advanced (new ∷ []) = Unit
  Advanced (new ∷ old ∷ chain) =
      (is_ancestor git repo old new ≡ known true) × Advanced (old ∷ chain)

  -- The updates, the latest first, reach back to one onto the target from another commit, and all
  -- of them moved forward.
  pub record Promoted (target : String) (updates : List String) : Type 0 where
    pub later : List String
    pub previous : String
    pub earlier : List String
    pub split : updates ≡ later ++ (target ∷ previous ∷ earlier)
    pub advanced : Advanced (later ++ (target ∷ previous ∷ []))

  advanced_step :
      (m : Fact Bool) (rest : Fact Bool)
      → (m >>= λ forward. if forward then rest else known false) ≡ known true
      → (m ≡ known true) × (rest ≡ known true)
  advanced_step (known true) rest h = (refl, h)
  advanced_step (known false) rest h = absurd (ground arith)
  advanced_step git_fact_error rest h = absurd (ground arith)

  chain_forward-Advanced :
      (chain : List String) → chain_forward git repo chain ≡ known true → Advanced chain
  unfolding chain_forward
  chain_forward-Advanced [] h = tt
  chain_forward-Advanced (new ∷ []) h = tt
  chain_forward-Advanced (new ∷ old ∷ chain) h =
      let (here, rest) = advanced_step _ _ h in (here, chain_forward-Advanced (old ∷ chain) rest)

  scan_step :
      (m : Fact Bool) (later : Fact Bool)
      → (m >>= λ forward. if forward then known true else later) ≡ known true
      → (m ≡ known true) ⊎ (later ≡ known true)
  scan_step (known true) later h = inl refl
  scan_step (known false) later h = inr h
  scan_step git_fact_error later h = absurd (ground arith)

  scan-Promoted :
      (target : String) (seen updates : List String)
      → scan git repo target seen updates ≡ known true
      → Promoted target (seen ++ updates)
  unfolding scan
  scan-Promoted target seen [] h = absurd (ground arith)
  scan-Promoted target seen (new ∷ []) h = absurd (ground arith)
  scan-Promoted target seen (new ∷ old ∷ updates) h =
      let next : scan git repo target (seen ++ (new ∷ [])) (old ∷ updates) ≡ known true
          → Promoted target (seen ++ (new ∷ old ∷ updates)) =
        λ r.
          subst (λ xs. Promoted target xs) (append_assoc seen (new ∷ []) (old ∷ updates))
            (scan-Promoted target (seen ++ (new ∷ [])) (old ∷ updates) r) in
      elim (Bool-cases (new == target)) [
        | inr e ↦ next (rw e at h)
        | inl e ↦ elim (scan_step _ _ (rw e at h)) [
          | inr r ↦ next r
          | inl c ↦
              let same : new ≡ target = (eq_iff new target).0 e in
              record {
                later = seen;
                previous = old;
                earlier = updates;
                split = ap (λ (x : String). seen ++ (x ∷ old ∷ updates)) same;
                advanced = chain_forward-Advanced (seen ++ (target ∷ old ∷ [])) (
                    subst (λ x. chain_forward git repo (seen ++ (x ∷ old ∷ [])) ≡ known true) same
                      c);
              }
        ]
      ]

  run-known :
      (args : List String) (allowed : List ℕ) {r : ℕ × String}
      → run git repo args allowed ≡ known r
      → git repo args ≡ some r
  unfolding run
  run-known args allowed {r} h = checked_code-known (git repo args) allowed h

  scanned :
      (target : String) (n : ℕ) (output : String)
      → (if not (nat_beq n 0)
          then known false
          else scan git repo target [] (stripped_lines (splitlines output)))
        ≡ known true
      → (n ≡ 0) × (scan git repo target [] (stripped_lines (splitlines output)) ≡ known true)
  scanned target zero output h = (refl, h)
  scanned target (suc n) output h = absurd (ground arith)

  -- A branch counts as fast-forwarded onto a commit only if git prints that branch's reflog, in which
  -- it moved onto that commit from another entry, and every update since, that one included, moved
  -- it forward.
  pub fast_forwarded_to-Promoted :
      (branch target : String)
      → fast_forwarded_to git repo branch target ≡ known true
      → (output : String) × (git repo
            ("reflog" ∷ "show" ∷ "--no-abbrev" ∷ "--format=%H" ∷ append "refs/heads/" branch ∷ [])
          ≡ some (0, output))
        × Promoted target (stripped_lines (splitlines output))
  unfolding fast_forwarded_to
  fast_forwarded_to-Promoted branch target h =
      let args =
        "reflog" ∷ "show" ∷ "--no-abbrev" ∷ "--format=%H" ∷ append "refs/heads/" branch ∷ [] in
      let (answer, e, r) = bind-known (run git repo args (0 ∷ 128 ∷ [])) _ h in
      let (n, output) = answer in
      let (zero_code, found) = scanned target n output r in
      (
        output,
        run-known args (0 ∷ 128 ∷ []) e ∙ ap (λ m. some (m, output)) zero_code,
        scan-Promoted target [] (stripped_lines (splitlines output)) found,
      )
