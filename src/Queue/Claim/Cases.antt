-- ===== src/Queue/Claim/Cases.antt =====
-- Reasoning about the loop of `claim_task_deliveries`: by the verdict on a row, and by what every row
-- keeps.
use team_flow.Prelude.{ℕ, ◌≡◌, inl, inr, refl, String, List, [], ◌∷◌, Bool-cases, Option, Memᴰ}
use team_flow.Workflow.Definition.{Definition, Task}
use team_flow.Queue.Tables.{Delivery, Store}
use team_flow.Queue.Claim.{
  Candidate, Claiming, Verdict, cancels, skips, claims, judge, cancel_row, take_row, claim_row,
  claim_rows, is_full,
}

module _ (definition : Definition) (uuid4 : Delivery → String) (timestamp limit : ℕ) (store : Store)
    (P : Claiming → Type 0) where
  pub claim_row_cases :
      (row : Candidate) (c : Claiming)
      → P (cancel_row timestamp row.delivery c)
      → P c
      → ((task : Task) (continuation : Option String)
          → judge definition store c row ≡ claims task continuation
          → P (take_row uuid4 timestamp row.delivery task continuation c))
      → P (claim_row definition uuid4 timestamp limit store row c)
  unfolding claim_row
  claim_row_cases row c canceled same taken = by_verdict (judge definition store c row) refl
    where
      by_verdict :
          (v : Verdict)
          → judge definition store c row ≡ v
          → P (claim_row definition uuid4 timestamp limit store row c)
      by_verdict cancels e = rw (claim_row, e) canceled
      by_verdict skips e = rw (claim_row, e) same
      by_verdict (claims task continuation) e = rw (claim_row, e) (taken task continuation e)

  -- What every row of the query keeps, the loop keeps.
  pub claim_rows-keeps :
      (rows : List Candidate) (c : Claiming)
      → ((row : Candidate) (d : Claiming)
          → Memᴰ row rows
          → P d
          → P (claim_row definition uuid4 timestamp limit store row d))
      → P c
      → P (claim_rows definition uuid4 timestamp limit store rows c)
  unfolding claim_rows
  claim_rows-keeps [] c keeps h = h
  claim_rows-keeps (row ∷ rows) c keeps h =
      let next = claim_row definition uuid4 timestamp limit store row c in
      elim (Bool-cases (is_full limit c next)) [
        | inl e ↦ rw (claim_rows, e) (keeps row c (Memᴰ.head refl) h)
        | inr e ↦
            rw (claim_rows, e)
              (claim_rows-keeps rows next (λ r d m. keeps r d (Memᴰ.tail m))
                (keeps row c (Memᴰ.head refl) h))
      ]
