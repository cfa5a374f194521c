-- ===== src/Erasure/Indexes.antt =====
-- The indexes of fragments, and the servers that they are for:
-- omnipaxos/src/erasure/ec_service.rs.
use omnipaxos.Prelude.{
  ℕ, zero, suc, ◌+◌, ◌%◌, ◌≤◌, ◌<◌, ◌≡◌, refl, Bool, true, false, some, List, [], ◌∷◌, All, any,
  map, length, get_elem?, ◌==◌, if◌then◌else◌, arith, ap,
}
use omnipaxos.Erasure.{EntryFragment, enumerate, fragment_index_for_node}
use omnipaxos.Erasure.Received.{count_below, count_below_ext}

pub idx-enumerate :
    (i j : ℕ) (xs : List (List ℕ)) (f : EntryFragment)
    → get_elem? (enumerate i xs) j ≡ some f
    → f.idx ≡ i + j
unfolding enumerate
idx-enumerate i j [] f h = cc
idx-enumerate i zero (x ∷ xs) f h = let e : i ≡ f.idx = cc in omega arith
idx-enumerate i (suc j) (x ∷ xs) f h = omega (arith, idx-enumerate (i + 1) j xs f h)

pub length-enumerate : (i : ℕ) (xs : List (List ℕ)) → length (enumerate i xs) ≡ length xs
unfolding enumerate
length-enumerate i [] = refl
length-enumerate i (x ∷ xs) = ap suc (length-enumerate (i + 1) xs)

mod_small : (n a : ℕ) → a < n → a % n ≡ a
mod_small n a h = grind arith

mod_self : (n : ℕ) → 0 < n → n % n ≡ 0
mod_self n h = grind arith

-- Two servers of a cluster with the identifiers 1 to `n` have different indexes.
pub fragment_index_for_node_injective :
    (n a b : ℕ)
    → (1 ≤ a) × (a ≤ n)
    → (1 ≤ b) × (b ≤ n)
    → fragment_index_for_node a n ≡ fragment_index_for_node b n
    → a ≡ b
unfolding fragment_index_for_node
fragment_index_for_node_injective n a b ha hb e =
    grind (arith, mod_small n a, mod_small n b, mod_self n)

pub fragment_index_for_node_lt : (n a : ℕ) → 0 < n → fragment_index_for_node a n < n
unfolding fragment_index_for_node
fragment_index_for_node_lt n a h = grind arith

-- No two are the same.
abbrev pub AllDistinct : List ℕ → Type 0
AllDistinct [] = Unit
AllDistinct (n ∷ ns) = (any (λ m. m == n) ns ≡ false) × AllDistinct ns

count_below_insert :
    (q : ℕ → Bool) (n total : ℕ)
    → n < total
    → q n ≡ false
    → suc (count_below q total) ≤ count_below (λ i. if n == i then true else q i) total
count_below_insert q n zero h new = absurd (omega arith)
count_below_insert q zero (suc total) h new = ground (
  arith,
  count_below_ext (λ i. if zero == suc i then true else q (suc i)) (λ i. q (suc i)) total
      (λ i l. ground arith),
)
count_below_insert q (suc n) (suc total) h new = ground (
  arith,
  count_below_insert (λ i. q (suc i)) n total (omega arith) new,
  count_below_ext (λ i. if suc n == suc i then true else q (suc i))
      (λ i. if n == i then true else q (suc i)) total (λ i l. ground arith),
)

pub count_below-AllDistinct :
    (ns : List ℕ) (total : ℕ)
    → AllDistinct ns
    → All (λ n. n < total) ns
    → length ns ≤ count_below (λ i. any (λ n. n == i) ns) total
count_below-AllDistinct [] total apart small = omega arith
count_below-AllDistinct (n ∷ ns) total apart small = omega (
  arith,
  count_below-AllDistinct ns total apart.1 small.1,
  count_below_insert (λ i. any (λ m. m == i) ns) n total small.0 apart.0,
)

-- The indexes of different servers are different.
any-indexes :
    (total pid : ℕ) (pids : List ℕ)
    → (1 ≤ pid) × (pid ≤ total)
    → All (λ p. (1 ≤ p) × (p ≤ total)) pids
    → any (λ p. p == pid) pids ≡ false
    → any
        (λ i. i == fragment_index_for_node pid total)
        (map (λ p. fragment_index_for_node p total) pids)
      ≡ false
any-indexes total pid [] h all new = refl
any-indexes total pid (p ∷ pids) h all new = ground (
  arith,
  any-indexes total pid pids h all.1,
  fragment_index_for_node_injective total p pid all.0 h,
)

pub indexes-AllDistinct :
    (total : ℕ) (pids : List ℕ)
    → All (λ p. (1 ≤ p) × (p ≤ total)) pids
    → AllDistinct pids
    → AllDistinct (map (λ p. fragment_index_for_node p total) pids)
indexes-AllDistinct total [] all apart = tt
indexes-AllDistinct total (p ∷ pids) all apart =
    (any-indexes total p pids all.0 all.1 apart.0, indexes-AllDistinct total pids all.1 apart.1)
