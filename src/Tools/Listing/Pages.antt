-- ===== src/Tools/Listing/Pages.antt =====
-- Reading the board page by page gives all its cards.
use team_flow.Prelude.{
  ℕ, zero, suc, ◌+◌, ◌≡◌, ◌≤◌, ◌<◌, refl, sym, ◌∙◌, ap, arith, false, some, List, [], ◌∷◌, ◌++◌,
  ltb, is_empty, Bool-cases, inl, inr, length, take, drop,
}
use team_flow.Workflow.Definition.{Task}
use team_flow.Tools.Listing.{Pages, board_tasks}

-- A board of the cards `all` that does not change: each page is the next 200 of them at most.
pub record IsBoard (all : List Task) (list_lark_tasks : Pages) : Type 0 where
  pub cards : (offset : ℕ) → (list_lark_tasks offset).0 ≡ take 200 (drop offset all)
  pub more : (offset : ℕ) → (list_lark_tasks offset).1 ≡ ltb (offset + 200) (length all)

module _ {A : Type 0} where
  take_all : (n : ℕ) (xs : List A) → length xs ≤ n → take n xs ≡ xs
  take_all zero [] h = refl
  take_all zero (x ∷ xs) h = absurd (omega arith)
  take_all (suc n) [] h = refl
  take_all (suc n) (x ∷ xs) h = ap (λ ys. x ∷ ys) (take_all n xs (omega arith))

  take-drop : (n : ℕ) (xs : List A) → take n xs ++ drop n xs ≡ xs
  take-drop zero xs = refl
  take-drop (suc n) [] = refl
  take-drop (suc n) (x ∷ xs) = ap (λ ys. x ∷ ys) (take-drop n xs)

  length-take : (n : ℕ) (xs : List A) → n ≤ length xs → length (take n xs) ≡ n
  length-take zero xs h = refl
  length-take (suc n) [] h = absurd (omega arith)
  length-take (suc n) (x ∷ xs) h = ap (λ k. suc k) (length-take n xs (omega arith))

  length-drop : (n : ℕ) (xs : List A) → n ≤ length xs → n + length (drop n xs) ≡ length xs
  length-drop zero xs h = omega arith
  length-drop (suc n) [] h = absurd (omega arith)
  length-drop (suc n) (x ∷ xs) h = omega (arith, length-drop n xs (omega arith))

  drop_nil : (n : ℕ) → ◌≡◌ {A = List A} (drop n []) []
  drop_nil zero = refl
  drop_nil (suc n) = refl

  drop-drop : (m n : ℕ) (xs : List A) → drop (m + n) xs ≡ drop n (drop m xs)
  drop-drop zero n xs = let same : zero + n ≡ n = omega arith in ap (λ k. drop k xs) same
  drop-drop (suc m) n [] = drop_nil (suc m + n) ∙ sym (drop_nil n)
  drop-drop (suc m) n (x ∷ xs) =
      let same : suc m + n ≡ suc (m + n) = omega arith in
      ap (λ k. drop k (x ∷ xs)) same ∙ drop-drop m n xs

  is_empty-length : (xs : List A) → 0 < length xs → is_empty xs ≡ false
  is_empty-length [] h = absurd (omega arith)
  is_empty-length (x ∷ xs) h = refl

module _ (all : List Task) (list_lark_tasks : Pages) (board : IsBoard all list_lark_tasks) where
  board_tasks-drop :
      (fuel offset : ℕ)
      → offset ≤ length all
      → length all < fuel + offset
      → board_tasks list_lark_tasks fuel offset ≡ some (drop offset all)
  unfolding board_tasks
  board_tasks-drop zero offset h m = absurd (omega arith)
  board_tasks-drop (suc fuel) offset h m =
      let left = drop offset all in
      let counted = length-drop offset all h in
      elim (Bool-cases (ltb (offset + 200) (length all))) [
        | inr e ↦
            rw (board.more offset, board_tasks)
              (rw e (
                ap (λ (xs : List Task). some xs)
                  (board.cards offset ∙ take_all 200 left (ground (arith, counted)))))
        | inl e ↦
            let long : 200 ≤ length left = ground (arith, counted) in
            let page = (list_lark_tasks offset).0 in
            let size : length page ≡ 200 =
              ap (λ (xs : List Task). length xs) (board.cards offset) ∙ length-take 200 left long in
            let later =
              board_tasks-drop fuel (offset + length page) (ground (arith, size))
                (omega (arith, size)) in
            let next : drop (offset + length page) all ≡ drop 200 left =
              ap (λ (n : ℕ). drop (offset + n) all) size ∙ drop-drop offset 200 all in
            rw (board.more offset, board_tasks)
              (rw e (
                rw (is_empty-length page (omega (arith, size))) (
                  rw later (
                    ap (λ (xs : List Task). some xs)
                      (ap (λ (xs : List Task). xs ++ drop (offset + length page) all)
                          (board.cards offset)
                        ∙ ap (λ (xs : List Task). take 200 left ++ xs) next
                        ∙ take-drop 200 left)))))
      ]

  -- Reading a board that does not change gives all its cards in order, with fuel for one page more
  -- than there are cards.
  pub board_tasks-all : board_tasks list_lark_tasks (suc (length all)) 0 ≡ some all
  board_tasks-all = board_tasks-drop (suc (length all)) 0 (omega arith) (omega arith)
