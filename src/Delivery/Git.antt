-- ===== src/Delivery/Git.antt =====
-- core/git_facts.py: facts about a repository, each read by one git command. Git itself is the
-- parameter `git`: the exit code and the standard output of `git -C <repo> <arguments>`, or
-- nothing where the process could not run or timed out. An unexpected exit code and a process
-- that did not run are both a GitFactError, whose message is left out.
pub mod History
use Prim.Native.Char.{Char, code}
use Prim.Native.String.{◌++◌ as append, count}
use team_flow.Prelude.{
  ℕ, zero, suc, ◌+◌, String, ◌≡◌, refl, arith, Bool, true, false, not, ◌&&◌, ◌||◌, Option, none,
  some, List, [], ◌∷◌, ◌==◌, elem, ◌++◌, nat_beq, leb, strip, starts_with, if◌then◌else◌,
}

-- The repository and the arguments, to the exit code and the output.
abbrev pub Git : Type 0
Git = String → List String → Option (ℕ × String)

pub data Fact (A : Type 0) : Type 0 where
  known : A → Fact A
  git_fact_error : Fact A

infixl 5 ◌>>=◌
abbrev pub ◌>>=◌ : {A B : Type 0} → Fact A → (A → Fact B) → Fact B
known a >>= f = f a
git_fact_error >>= f = git_fact_error

infixl 5 ◌>>◌
abbrev pub ◌>>◌ : {A B : Type 0} → Fact A → Fact B → Fact B
m >> n = m >>= λ _. n

-- A step that gave a fact had one to start from.
pub bind-known :
    {A B : Type 0} (m : Fact A) (f : A → Fact B) {b : B}
    → (m >>= f) ≡ known b
    → (a : A) × (m ≡ known a) × (f a ≡ known b)
bind-known (known a) f h = (a, refl, h)
bind-known git_fact_error f h = absurd (ground arith)

pub code_allowed : ℕ → List ℕ → Bool
code_allowed n [] = false
code_allowed n (m ∷ ms) = nat_beq n m || code_allowed n ms

unfoldable pub checked_code : Option (ℕ × String) → List ℕ → Fact (ℕ × String)
unfolding code_allowed
checked_code none allowed = git_fact_error
checked_code (some (n, output)) allowed =
    if code_allowed n allowed then known (n, output) else git_fact_error

-- `_run`
unfoldable pub run : Git → String → List String → List ℕ → Fact (ℕ × String)
unfolding checked_code
run git repo args allowed = checked_code (git repo args) allowed

pub is_hex : Char → Bool
is_hex c = leb 48 (code c) && leb (code c) 57 || leb 97 (code c) && leb (code c) 102

pub all_hex : String → Bool
unfolding is_hex
all_hex String.[] = true
all_hex (String.◌∷◌ c s) = is_hex c && all_hex s

-- The whole of the text is 40 or 64 lowercase hex digits.
unfoldable pub is_object_id : String → Bool
unfolding all_hex
is_object_id value =
    let v = strip value in all_hex v && (nat_beq (count v) 40 || nat_beq (count v) 64)

-- output.splitlines(), at the line breaks of `str`
is_break : Char → Bool
is_break c =
    leb 10 (code c) && leb (code c) 13
    || leb 28 (code c) && leb (code c) 30
    || nat_beq (code c) 133
    || nat_beq (code c) 8232
    || nat_beq (code c) 8233

to_first : Char → List String → List String
to_first c [] = String.◌∷◌ c String.[] ∷ []
to_first c (line ∷ lines) = String.◌∷◌ c line ∷ lines

-- The character after a carriage return belongs to the same break if it is a line feed. An empty
-- line that this leaves behind is dropped by every caller, with the other blank lines.
unfoldable pub splitlines : String → List String
unfolding is_break to_first
splitlines String.[] = []
splitlines (String.◌∷◌ c s) =
    let rest = splitlines s in if is_break c then "" ∷ rest else to_first c rest

-- output.split("\0")
pub split_nul : String → List String
unfolding to_first
split_nul String.[] = "" ∷ []
split_nul (String.◌∷◌ c s) =
    let rest = split_nul s in if nat_beq (code c) 0 then "" ∷ rest else to_first c rest

-- [line.strip() for line in output.splitlines() if line.strip()]
unfoldable pub stripped_lines : List String → List String
stripped_lines [] = []
stripped_lines (line ∷ lines) =
    let rest = stripped_lines lines in if strip line == "" then rest else strip line ∷ rest

-- text[n:]
pub drop : ℕ → String → String
drop zero s = s
drop (suc n) String.[] = String.[]
drop (suc n) (String.◌∷◌ c s) = drop n s

module _ (git : Git) (repo : String) where
  unfoldable pub ensure_repository : Fact (Unit {0})
  unfolding run
  ensure_repository = do
    (n, output) ← run git repo ("rev-parse" ∷ "--git-dir" ∷ []) (0 ∷ [])
    known tt

  unfoldable pub object_id_length : Fact ℕ
  unfolding run
  object_id_length = do
    (n, output) ← run git repo ("rev-parse" ∷ "--show-object-format" ∷ []) (0 ∷ [])
    known (if strip output == "sha256" then 64 else 40)

  -- `commit_exists`, once the identifier is known to have the repository's own length
  unfoldable pub names_commit : String → Fact Bool
  unfolding run
  names_commit value = do
    (n, output) ← run git repo ("cat-file" ∷ "-t" ∷ value ∷ []) (0 ∷ 1 ∷ 128 ∷ [])
    known (nat_beq n 0 && strip output == "commit")

  unfoldable pub commit_exists : String → Fact Bool
  commit_exists object_id =
      let value = strip object_id in
      if not (is_object_id value) then known false else do
        n ← object_id_length
        if not (nat_beq (count value) n) then known false else names_commit value

  -- f"refs/heads/{branch}"
  abbrev branch_ref : String → String
  branch_ref branch = append "refs/heads/" branch

  unfoldable pub branch_sha : String → Fact (Option String)
  unfolding run
  branch_sha branch = do
    (n, output) ←
        run git repo ("rev-parse" ∷ "--verify" ∷ "--quiet" ∷ branch_ref branch ∷ []) (0 ∷ 1 ∷ [])
    known (if nat_beq n 0 && not (strip output == "") then some (strip output) else none)

  unfoldable pub branch_exists : String → Fact Bool
  unfolding run
  branch_exists branch = do
    (n, output) ←
        run git repo ("show-ref" ∷ "--verify" ∷ "--quiet" ∷ branch_ref branch ∷ []) (0 ∷ 1 ∷ [])
    known (nat_beq n 0)

  unfoldable pub is_ancestor : String → String → Fact Bool
  unfolding run
  is_ancestor ancestor descendant = do
    (n, output) ←
        run git repo ("merge-base" ∷ "--is-ancestor" ∷ ancestor ∷ descendant ∷ []) (0 ∷ 1 ∷ [])
    known (nat_beq n 0)

  -- all(is_ancestor(repo, chain[step + 1], chain[step]) for step in range(len(chain) - 1))
  unfoldable pub chain_forward : List String → Fact Bool
  chain_forward [] = known true
  chain_forward (new ∷ []) = known true
  chain_forward (new ∷ old ∷ chain) =
      let rest = chain_forward (old ∷ chain) in
      do forward ← is_ancestor old new; if forward then rest else known false

  -- The loop of `fast_forwarded_to`; `seen` are the updates before the one at hand.
  unfoldable pub scan : String → List String → List String → Fact Bool
  scan target seen [] = known false
  scan target seen (new ∷ []) = known false
  scan target seen (new ∷ old ∷ updates) =
      let later = scan target (seen ++ (new ∷ [])) (old ∷ updates) in
      if not (new == target) then later else do
        forward ← chain_forward (seen ++ (new ∷ old ∷ []))
        if forward then known true else later

  unfoldable pub fast_forwarded_to : String → String → Fact Bool
  unfolding run scan stripped_lines splitlines
  fast_forwarded_to branch target = do
    (n, output) ←
        run git repo ("reflog" ∷ "show" ∷ "--no-abbrev" ∷ "--format=%H" ∷ branch_ref branch ∷ [])
          (0 ∷ 128 ∷ [])
    if not (nat_beq n 0) then known false else scan target [] (stripped_lines (splitlines output))

  -- [resolve(entry[len("worktree "):]) for the entries that start with "worktree "]
  pub worktree_entries : (String → String) → List String → List String
  unfolding drop
  worktree_entries resolve [] = []
  worktree_entries resolve (entry ∷ entries) =
      let rest = worktree_entries resolve entries in
      if starts_with entry "worktree " then resolve (drop 9 entry) ∷ rest else rest

  unfoldable pub worktree_paths : (String → String) → Fact (List String)
  unfolding run worktree_entries split_nul drop
  worktree_paths resolve = do
    (n, output) ← run git repo ("worktree" ∷ "list" ∷ "--porcelain" ∷ "-z" ∷ []) (0 ∷ [])
    known (worktree_entries resolve (split_nul output))
