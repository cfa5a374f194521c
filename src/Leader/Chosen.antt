-- ===== src/Leader/Chosen.antt =====
-- Whom a leader sends to, and how far all servers have accepted
-- (omnipaxos/src/util.rs).
use omnipaxos.Prelude.{
  ℕ, zero, suc, ◌+◌, ◌≤◌, ◌≡◌, refl, sym, subst, Bool, true, false, not, ◌&&◌, Option, none, some,
  List, [], ◌∷◌, min, get_elem?, any, all, inl, inr, leb, ◌==◌, arith, Bool-cases, Option-cases,
}
use omnipaxos.Leader.{
  PromiseState, LeaderState, is_promised, promised_from, pid_to_idx, min_of, get_promised_followers,
  get_min_all_accepted_idx,
}

-- Whether a pid is in a list.
abbrev pub includes : ℕ → List ℕ → Bool
includes x = any (λ y. y == x)

-- Whether a slot belongs to a server that has promised, and is not the leader's own.
abbrev pub is_follower : ℕ → ℕ → Option PromiseState → Bool
is_follower own idx none = false
is_follower own idx (some p) = is_promised p && not (idx == own)

promised_from-before :
    (own idx pid : ℕ) (ps : List PromiseState)
    → pid ≤ idx
    → includes pid (promised_from own idx ps) ≡ false
promised_from-before own idx pid [] h = refl
promised_from-before own idx pid (p ∷ ps) h =
    ground (arith, promised_from-before own (idx + 1) pid ps)

promised_from-includes :
    (own idx i j : ℕ) (ps : List PromiseState)
    → idx + i ≡ j
    → includes (j + 1) (promised_from own idx ps) ≡ is_follower own j (get_elem? ps i)
promised_from-includes own idx i j [] e = refl
promised_from-includes own idx zero j (p ∷ ps) e =
    ground (arith, promised_from-before own (idx + 1) (j + 1) ps)
promised_from-includes own idx (suc i) j (p ∷ ps) e =
    let later : idx + 1 + i ≡ j = omega arith in
    ground (arith, promised_from-includes own (idx + 1) i j ps later)

-- `m` is among the numbers, and none is less.
abbrev pub IsMinimum : ℕ → List ℕ → Type 0
IsMinimum m xs = (includes m xs ≡ true) × (all (λ x. leb m x) xs ≡ true)

pub all-weaken :
    (m n : ℕ) (xs : List ℕ) → m ≤ n → all (λ x. leb n x) xs ≡ true → all (λ x. leb m x) xs ≡ true
all-weaken m n [] le h = refl
all-weaken m n (x ∷ xs) le h = ground (arith, all-weaken m n xs le)

min_of-none : (m : ℕ) (xs : List ℕ) → min_of xs ≡ none → all (λ x. leb m x) xs ≡ true
min_of-none m [] h = refl
min_of-none m (x ∷ xs) h =
    absurd
      (elim (Option-cases (min_of xs)) [ inl empty ↦ ground arith | inr (n, rest) ↦ ground arith ])

-- The step of `min_of`.
IsMinimum-min : (x n : ℕ) (xs : List ℕ) → IsMinimum n xs → IsMinimum (min x n) (x ∷ xs)
IsMinimum-min x n xs (among, least) = elim (Bool-cases (leb x n)) [
  | inl le ↦
      let same : min x n ≡ x = ground arith in
      subst (λ m. IsMinimum m (x ∷ xs)) (sym same)
        (ground (arith, all-weaken x n xs), ground (arith, all-weaken x n xs))
  | inr more ↦
      let same : min x n ≡ n = ground arith in
      subst (λ m. IsMinimum m (x ∷ xs)) (sym same) (ground arith, ground arith)
]

min_of-IsMinimum : (xs : List ℕ) (m : ℕ) → min_of xs ≡ some m → IsMinimum m xs
min_of-IsMinimum [] m h = cc
min_of-IsMinimum (x ∷ xs) m h = elim (Option-cases (min_of xs)) [
  | inl empty ↦
      let same : x ≡ m = ground arith in
      subst (λ k. IsMinimum k (x ∷ xs)) same (ground arith, ground (arith, min_of-none x xs))
  | inr (n, rest) ↦
      let same : min x n ≡ m = ground arith in
      subst (λ k. IsMinimum k (x ∷ xs)) same (IsMinimum-min x n xs (min_of-IsMinimum xs n rest))
]

module _ {T C S : Type 0} where
  -- The followers to which the leader sends are exactly the servers, other than itself, whose
  -- promise it has recorded: the server of pid `i + 1` is among them just if slot `i` holds a
  -- promise and is not the leader's.
  pub get_promised_followers-includes :
      (l : LeaderState T C S) (i : ℕ)
      → includes (i + 1) (get_promised_followers l)
        ≡ is_follower (pid_to_idx l.n_leader.pid) i (get_elem? l.promises_meta i)
  unfolding get_promised_followers
  get_promised_followers-includes l i =
      promised_from-includes (pid_to_idx l.n_leader.pid) 0 i i l.promises_meta (omega arith)

  -- `get_min_all_accepted_idx` is the least of the accepted indexes that the leader has recorded.
  pub get_min_all_accepted_idx-IsMinimum :
      (l : LeaderState T C S) (m : ℕ)
      → get_min_all_accepted_idx l ≡ some m
      → IsMinimum m l.accepted_indexes
  unfolding get_min_all_accepted_idx
  get_min_all_accepted_idx-IsMinimum l m h = min_of-IsMinimum l.accepted_indexes m h
