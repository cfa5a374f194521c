-- ===== src/Unicache/Lfu/Bins.antt =====
-- What the values and the bins of the cache hold after each change: omnipaxos/src/unicache/lfu/mod.rs.
use omnipaxos.Prelude.{
  ℕ, suc, ◌<◌, ◌≤◌, ◌≡◌, refl, inl, inr, Bool, true, false, not, ◌&&◌, ◌||◌, none, some, List, [],
  ◌∷◌, length, arith, ◌==◌, if◌then◌else◌, Option-cases,
}
use omnipaxos.Unicache.Pairs.{IsEquality, lookup}
use omnipaxos.Unicache.Lfu.{LinkedHashSet, insert_pair, remove_key, insert_in_bin}

module _ {K V : Type 0} (eq : K → K → Bool) (law : IsEquality eq) where
  pub lookup-insert_pair :
      (j k : K) (v : V) (ps : List (K × V))
      → lookup eq j (insert_pair eq k v ps) ≡ (if eq k j then some v else lookup eq j ps)
  lookup-insert_pair j k v [] = refl
  lookup-insert_pair j k v (p ∷ ps) =
      ground (arith, lookup-insert_pair j k v ps, law.sound p.0 k, law.sound p.0 j, law.sound k j)

  pub lookup-remove_key :
      (j k : K) (ps : List (K × V))
      → lookup eq j (remove_key eq k ps) ≡ (if eq k j then none else lookup eq j ps)
  lookup-remove_key j k [] = ground arith
  lookup-remove_key j k (p ∷ ps) =
      ground (arith, lookup-remove_key j k ps, law.sound p.0 k, law.sound p.0 j, law.sound k j)

  pub length-insert_pair :
      (k : K) (v : V) (ps : List (K × V)) → length (insert_pair eq k v ps) ≤ suc (length ps)
  length-insert_pair k v [] = ground arith
  length-insert_pair k v (p ∷ ps) = ground (arith, length-insert_pair k v ps)

  pub length-insert_pair_found :
      (k : K) (v x : V) (ps : List (K × V))
      → lookup eq k ps ≡ some x
      → length (insert_pair eq k v ps) ≡ length ps
  length-insert_pair_found k v x [] h = cc
  length-insert_pair_found k v x (p ∷ ps) h = ground (arith, length-insert_pair_found k v x ps, h)

  length-remove_key_le : (k : K) (ps : List (K × V)) → length (remove_key eq k ps) ≤ length ps
  length-remove_key_le k [] = ground arith
  length-remove_key_le k (p ∷ ps) = ground (arith, length-remove_key_le k ps)

  pub length-remove_key :
      (k : K) (x : V) (ps : List (K × V))
      → lookup eq k ps ≡ some x
      → length (remove_key eq k ps) < length ps
  length-remove_key k x [] h = cc
  length-remove_key k x (p ∷ ps) h =
      ground (arith, length-remove_key k x ps, length-remove_key_le k ps, h)

pub number-IsEquality : IsEquality ◌==◌
number-IsEquality = record { sound = λ x y e. ground (arith, e); reflexive = λ x. ground arith }

-- What the documentation of `LinkedHashSet` promises, as far as it is relied on.
pub record IsLinkedHashSet {S K : Type 0} (sets : LinkedHashSet S K) (eq : K → K → Bool)
    (contains : K → S → Bool) : Type 0 where
  pub contains-default : (k : K) → contains k sets.default ≡ false
  pub contains-insert : (j k : K) (s : S) → contains j (sets.insert k s) ≡ (eq k j || contains j s)
  pub contains-remove :
      (j k : K) (s : S) → contains j (sets.remove k s) ≡ (not (eq k j) && contains j s)
  pub element : (s : S) → sets.is_empty s ≡ false → (k : K) × (contains k s ≡ true)
  pub popped :
      (k : K) (s : S)
      → contains k s ≡ true
      → (j : K) × (s' : S) × (sets.pop_front s ≡ some (j, s'))
        × (contains j s ≡ true)
        × ((i : K) → contains i s' ≡ (not (eq j i) && contains i s))

abbrev pub in_bin : {S K : Type 0} → (K → S → Bool) → List (ℕ × S) → ℕ → K → Bool
in_bin contains bins n k = elim (lookup ◌==◌ n bins) [ some s ↦ contains k s | none ↦ false ]

module _ {S K : Type 0} (sets : LinkedHashSet S K) (eq : K → K → Bool) (contains : K → S → Bool)
    (law_set : IsLinkedHashSet sets eq contains) where
  pub in_bin-insert_in_bin :
      (n : ℕ) (k : K) (bins : List (ℕ × S)) (m : ℕ) (j : K)
      → in_bin contains (insert_in_bin sets n k bins) m j
        ≡ ((n == m && eq k j) || in_bin contains bins m j)
  unfolding insert_in_bin
  in_bin-insert_in_bin n k bins m j =
      let bin : S = elim (lookup ◌==◌ n bins) [ some s ↦ s | none ↦ sets.default ] in
      ground (
        arith,
        lookup-insert_pair ◌==◌ number-IsEquality m n (sets.insert k bin) bins,
        law_set.contains-insert j k bin,
        law_set.contains-default j,
      )

  -- A bin in place of one that has or had other keys.
  pub in_bin-insert_pair :
      (n : ℕ) (s : S) (bins : List (ℕ × S)) (m : ℕ) (j : K)
      → in_bin contains (insert_pair ◌==◌ n s bins) m j
        ≡ (if n == m then contains j s else in_bin contains bins m j)
  in_bin-insert_pair n s bins m j =
      ground (arith, lookup-insert_pair ◌==◌ number-IsEquality m n s bins)

  pub bin_of :
      (bins : List (ℕ × S)) (n : ℕ) (k : K)
      → in_bin contains bins n k ≡ true
      → (bin : S) × (lookup ◌==◌ n bins ≡ some bin) × (contains k bin ≡ true)
  bin_of bins n k h = elim (Option-cases (lookup ◌==◌ n bins)) [
    | inl missing ↦ ground (arith, missing, h)
    | inr (bin, found) ↦ (bin, found, ground (arith, found, h))
  ]
