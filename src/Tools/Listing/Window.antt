-- ===== src/Tools/Listing/Window.antt =====
-- A page of the board is a window of the cards that are wanted.
use team_flow.Prelude.{
  ℕ, zero, suc, ◌+◌, ◌≡◌, refl, sym, ◌∙◌, arith, String, Bool, true, false, Option, List, [], ◌∷◌,
  map, ltb, nat_beq, Bool-cases, Option-cases, eq_iff, ◌≤◌, inl, inr, filter, length, take, drop,
}
use team_flow.Workflow.Definition.{Definition, Assignment, Task}
use team_flow.Tools.Listing.{
  natural, listed, list_page, list_tasks, is_wanted, filter_text, unknown_filter, state_keys,
  role_keys, Listing, task_summary, list_from,
}

-- The cards from `k` on, `j` of them, and whether there are more.
unfoldable pub window : ℕ → ℕ → List Task → Listing
window k j tasks = record {
  tasks = map task_summary (take j (drop k tasks));
  has_more = ltb (k + j) (length tasks);
}

window_nil : (k j : ℕ) → window k j [] ≡ record { tasks = []; has_more = false }
unfolding window
window_nil zero zero = ground arith
window_nil zero (suc j) = ground arith
window_nil (suc k) zero = ground arith
window_nil (suc k) (suc j) = ground arith

window_skip : (k j : ℕ) (t : Task) (ts : List Task) → window (suc k) j (t ∷ ts) ≡ window k j ts
unfolding window
window_skip k j t ts =
    let more : ltb (suc k + j) (suc (length ts)) ≡ ltb (k + j) (length ts) = ground arith in
    rw more refl

window_full :
    (t : Task) (ts : List Task) → window 0 0 (t ∷ ts) ≡ record { tasks = []; has_more = true }
unfolding window
window_full t ts = ground arith

window_take :
    (j : ℕ) (t : Task) (ts : List Task)
    → window 0 (suc j) (t ∷ ts) ≡ record {
      tasks = task_summary t ∷ (window 0 j ts).tasks;
      has_more = (window 0 j ts).has_more;
    }
unfolding window
window_take j t ts =
    let more : ltb (0 + suc j) (suc (length ts)) ≡ ltb (0 + j) (length ts) = ground arith in
    rw more refl

module _ (wanted : Task → Bool) (limit offset : ℕ) where
  -- A card that is wanted is skipped, taken, or shows that there are more.
  wanted_card :
      (ts : List Task)
      → ((k j skipped count : ℕ)
          → offset ≡ skipped + k
          → limit ≡ count + j
          → list_from wanted limit offset skipped count ts ≡ window k j (filter wanted ts))
      → (t : Task) (k j skipped count : ℕ) → offset ≡ skipped + k
      → limit ≡ count + j
      → elim (ltb skipped offset) [
        | true ↦ list_from wanted limit offset (suc skipped) count ts
        | false ↦ elim (nat_beq count limit) [
          | true ↦ record { tasks = []; has_more = true }
          | false ↦
              let rest = list_from wanted limit offset skipped (suc count) ts in
              record { tasks = task_summary t ∷ rest.tasks; has_more = rest.has_more }
        ]
      ]
        ≡ window k j (t ∷ filter wanted ts)
  wanted_card ts later t (suc k') j' skipped count p q =
      let early : ltb skipped offset ≡ true = ground arith in
      rw early (
        later k' j' (suc skipped) count (omega arith) q
        ∙ sym (window_skip k' j' t (filter wanted ts)))
  wanted_card ts later t zero zero skipped count p q =
      let late : ltb skipped offset ≡ false = ground arith in
      let full : nat_beq count limit ≡ true = ground arith in
      rw late (rw full (sym (window_full t (filter wanted ts))))
  wanted_card ts later t zero (suc j') skipped count p q =
      let late : ltb skipped offset ≡ false = ground arith in
      let more : nat_beq count limit ≡ false = ground arith in
      rw late (
        rw more (
          rw (later 0 j' skipped (suc count) p (omega arith))
            (sym (window_take j' t (filter wanted ts)))))

  list_from-window :
      (k j skipped count : ℕ) (tasks : List Task)
      → offset ≡ skipped + k
      → limit ≡ count + j
      → list_from wanted limit offset skipped count tasks ≡ window k j (filter wanted tasks)
  unfolding list_from
  list_from-window k j skipped count [] e f = sym (window_nil k j)
  list_from-window k j skipped count (t ∷ ts) e f = elim (Bool-cases (wanted t)) [
    | inr w ↦ rw (w, list_from) (list_from-window k j skipped count ts e f)
    | inl w ↦
        rw (w, list_from)
          (wanted_card ts (λ k j s c. list_from-window k j s c ts) t k j skipped count e f)
  ]

list_page-window :
    (wanted : Task → Bool) (limit offset : ℕ) (tasks : List Task) {page : Listing}
    → list_page wanted (natural limit) (natural offset) tasks ≡ listed page
    → (1 ≤ limit) × (limit ≤ 200) × (page ≡ window offset limit (filter wanted tasks))
unfolding list_page
list_page-window wanted limit offset tasks h = (
  ground arith,
  ground arith,
  ground (
    arith,
    list_from-window wanted limit offset offset limit 0 0 tasks (omega arith) (omega arith),
  ),
)

-- Only the coordinator is given a page, for a limit and an offset that are not negative. It holds, in
-- the board's order, the cards from the offset on that pass the filters, up to the limit, which is
-- between 1 and 200, and says whether more follow.
pub list_tasks-window :
    (casefold : String → String) (a : Assignment) (d : Definition)
    (status role task_id : Option String) (limit offset : ℕ) (tasks : List Task) {page : Listing}
    → list_tasks casefold a d status role task_id (natural limit) (natural offset) tasks
      ≡ listed page
    → (a.role_key ≡ d.coordinator_role)
      × (1 ≤ limit)
      × (limit ≤ 200)
      × (page
          ≡ window offset limit (
              filter
                (is_wanted casefold (filter_text status) (filter_text role) (filter_text task_id))
                tasks))
unfolding list_tasks
list_tasks-window casefold a d status role task_id limit offset tasks h =
    elim (Option-cases (unknown_filter (filter_text status) (state_keys d))) [
      | inr (s, e) ↦ absurd (ground arith)
      | inl e ↦ elim (Option-cases (unknown_filter (filter_text role) (role_keys d))) [
        | inr (r, f) ↦ absurd (ground arith)
        | inl f ↦
            let (least, most, page) =
              list_page-window
                (is_wanted casefold (filter_text status) (filter_text role) (filter_text task_id))
                limit offset tasks (ground arith) in
            ((eq_iff a.role_key d.coordinator_role).0 (ground arith), least, most, page)
      ]
    ]
