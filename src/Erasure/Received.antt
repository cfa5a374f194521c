-- ===== src/Erasure/Received.antt =====
-- The fragments that a server has received: omnipaxos/src/erasure/ec_service.rs.
use omnipaxos.Prelude.{
  ℕ, zero, suc, ◌+◌, ◌<◌, ◌≡◌, refl, Bool, false, ◌||◌, Option, none, some, List, [], ◌∷◌, All, any,
  length, replicate, set, get_elem?, count_if, ltb, ◌==◌, if◌then◌else◌, arith, ap, ◌∙◌, length-set,
  length-replicate,
}
use omnipaxos.Storage.Cache.{is_some}
use omnipaxos.Erasure.{EntryFragment, place, enumerate}

-- Each shard that is there is that of the code word.
unfoldable pub Agrees : List (List ℕ) → List (Option (List ℕ)) → Type 0
Agrees [] [] = Unit
Agrees [] (x ∷ xs) = ⊥
Agrees (c ∷ cs) [] = ⊥
Agrees (c ∷ cs) (none ∷ xs) = Agrees cs xs
Agrees (c ∷ cs) (some x ∷ xs) = (x ≡ c) × Agrees cs xs

abbrev pub count_below : (ℕ → Bool) → ℕ → ℕ
count_below p zero = 0
count_below p (suc n) = (if p 0 then 1 else 0) + count_below (λ i. p (suc i)) n

-- How many of the indexes below `total` the fragments have.
abbrev pub distinct_indexes : ℕ → List EntryFragment → ℕ
distinct_indexes total fs = count_below (λ i. any (λ f. f.idx == i) fs) total

abbrev is_present : List (Option (List ℕ)) → ℕ → Bool
is_present xs i = elim (get_elem? xs i) [ none ↦ false | some x ↦ is_some x ]

pub count_below_ext :
    (p q : ℕ → Bool) (n : ℕ) → ((i : ℕ) → i < n → p i ≡ q i) → count_below p n ≡ count_below q n
count_below_ext p q zero h = refl
count_below_ext p q (suc n) h = ground (
  arith,
  h 0 (omega arith),
  count_below_ext (λ i. p (suc i)) (λ i. q (suc i)) n (λ i l. h (suc i) (omega arith)),
)

count_if-is_present :
    (xs : List (Option (List ℕ))) → count_if is_some xs ≡ count_below (is_present xs) (length xs)
count_if-is_present [] = refl
count_if-is_present (x ∷ xs) = ground (arith, count_if-is_present xs)

set-Agrees :
    (coded : List (List ℕ)) (xs : List (Option (List ℕ))) (i : ℕ) (x : List ℕ)
    → get_elem? coded i ≡ some x
    → Agrees coded xs
    → Agrees coded (set xs i (some x))
unfolding Agrees
set-Agrees [] xs i x found agrees = cc
set-Agrees (c ∷ cs) [] i x found agrees = agrees
set-Agrees (c ∷ cs) (none ∷ xs) zero x found agrees = (cc, agrees)
set-Agrees (c ∷ cs) (some y ∷ xs) zero x found agrees = (cc, agrees.1)
set-Agrees (c ∷ cs) (none ∷ xs) (suc i) x found agrees = set-Agrees cs xs i x found agrees
set-Agrees (c ∷ cs) (some y ∷ xs) (suc i) x found agrees =
    (agrees.0, set-Agrees cs xs i x found agrees.1)

-- One step of `place`.
place_one : EntryFragment → List (Option (List ℕ)) → List (Option (List ℕ))
place_one f xs = if ltb f.idx (length xs) then set xs f.idx (some f.bytes) else xs

place_one-Agrees :
    (coded : List (List ℕ)) (f : EntryFragment) (xs : List (Option (List ℕ)))
    → get_elem? coded f.idx ≡ some f.bytes
    → Agrees coded xs
    → Agrees coded (place_one f xs)
unfolding place_one
place_one-Agrees coded f xs known agrees =
    ground (arith, agrees, set-Agrees coded xs f.idx f.bytes known agrees)

pub place-Agrees :
    (coded : List (List ℕ)) (fs : List EntryFragment) (xs : List (Option (List ℕ)))
    → All (λ f. get_elem? coded f.idx ≡ some f.bytes) fs
    → Agrees coded xs
    → Agrees coded (place fs xs)
unfolding place place_one
place-Agrees coded [] xs known agrees = agrees
place-Agrees coded (f ∷ fs) xs known agrees =
    place-Agrees coded fs (place_one f xs) known.1 (place_one-Agrees coded f xs known.0 agrees)

length-place_one :
    (f : EntryFragment) (xs : List (Option (List ℕ))) → length (place_one f xs) ≡ length xs
unfolding place_one
length-place_one f xs = ground (arith, length-set xs f.idx (some f.bytes))

is_present-set :
    (xs : List (Option (List ℕ))) (j i : ℕ) (x : List ℕ)
    → i < length xs
    → is_present (set xs j (some x)) i ≡ (j == i || is_present xs i)
is_present-set [] j i x h = absurd (omega arith)
is_present-set (y ∷ xs) zero zero x h = refl
is_present-set (y ∷ xs) zero (suc i) x h = ground arith
is_present-set (y ∷ xs) (suc j) zero x h = ground arith
is_present-set (y ∷ xs) (suc j) (suc i) x h = ground (arith, is_present-set xs j i x (omega arith))

is_present-place_one :
    (f : EntryFragment) (xs : List (Option (List ℕ))) (i : ℕ)
    → i < length xs
    → is_present (place_one f xs) i ≡ (f.idx == i || is_present xs i)
unfolding place_one
is_present-place_one f xs i h = ground (arith, is_present-set xs f.idx i f.bytes h)

length-place :
    (fs : List EntryFragment) (xs : List (Option (List ℕ))) → length (place fs xs) ≡ length xs
unfolding place place_one
length-place [] xs = refl
length-place (f ∷ fs) xs = length-place fs (place_one f xs) ∙ length-place_one f xs

is_present-place :
    (fs : List EntryFragment) (xs : List (Option (List ℕ))) (i : ℕ)
    → i < length xs
    → is_present (place fs xs) i ≡ (any (λ f. f.idx == i) fs || is_present xs i)
unfolding place place_one
is_present-place [] xs i h = refl
is_present-place (f ∷ fs) xs i h = ground (
  arith,
  is_present-place fs (place_one f xs) i (omega (arith, length-place_one f xs)),
  is_present-place_one f xs i h,
)

is_present-replicate : (n i : ℕ) → is_present (replicate n none) i ≡ false
is_present-replicate zero i = refl
is_present-replicate (suc n) zero = refl
is_present-replicate (suc n) (suc i) = is_present-replicate n i

-- The test of `decode` counts the different indexes among the fragments.
pub count_if-place :
    (fs : List EntryFragment) (total : ℕ)
    → count_if is_some (place fs (replicate total none)) ≡ distinct_indexes total fs
count_if-place fs total =
    let none_yet = replicate total none in
    let len = length-replicate total none in
    count_if-is_present (place fs none_yet)
    ∙ ap (count_below (is_present (place fs none_yet))) (length-place fs none_yet ∙ len)
    ∙ count_below_ext (is_present (place fs none_yet)) (λ i. any (λ f. f.idx == i) fs) total
        (λ i h. ground (
          arith,
          is_present-place fs none_yet i (omega (arith, len)),
          is_present-replicate total i,
        ))

pub get_elem?-enumerate :
    (i j : ℕ) (xs : List (List ℕ)) (f : EntryFragment)
    → get_elem? (enumerate i xs) j ≡ some f
    → get_elem? xs j ≡ some f.bytes
unfolding enumerate
get_elem?-enumerate i j [] f h = cc
get_elem?-enumerate i zero (x ∷ xs) f h = cc
get_elem?-enumerate i (suc j) (x ∷ xs) f h = get_elem?-enumerate (i + 1) j xs f h
