-- ===== src/Unicache/Pairs.antt =====
-- Lists of pairs that are looked up by either part, as the two caches of an encoder and of its
-- decoder are: omnipaxos/src/unicache/lru_cache.rs.
use omnipaxos.Prelude.{
  suc, ◌≡◌, refl, ap, inl, inr, Bool, true, false, Option, none, some, List, [], ◌∷◌, ◌++◌, map,
  length, arith, if◌then◌else◌, Bool-cases,
}

-- `==` of the keys.
pub record IsEquality {A : Type 0} (eq : A → A → Bool) : Type 0 where
  pub sound : (x y : A) → eq x y ≡ true → x ≡ y
  pub reflexive : (x : A) → eq x x ≡ true

abbrev pub swap : {A B : Type 0} → A × B → B × A
swap p = (p.1, p.0)

apart_sym :
    {A : Type 0} (eq : A → A → Bool) → IsEquality eq → (j k : A) → eq j k ≡ false → eq k j ≡ false
apart_sym eq law j k h = elim (Bool-cases (eq k j)) [
  | inl same ↦ ground (arith, law.sound k j same, law.reflexive j, h)
  | inr apart ↦ apart
]

module _ {K V : Type 0} (eq : K → K → Bool) where
  abbrev pub lookup : K → List (K × V) → Option V
  lookup k [] = none
  lookup k (p ∷ ps) = if eq p.0 k then some p.1 else lookup k ps

  -- Without the first pair that has a key.
  abbrev pub without : K → List (K × V) → List (K × V)
  without k [] = []
  without k (p ∷ ps) = if eq p.0 k then ps else p ∷ without k ps

  abbrev pub UniqueKeys : List (K × V) → Type 0
  UniqueKeys [] = Unit
  UniqueKeys (p ∷ ps) = (lookup p.0 ps ≡ none) × UniqueKeys ps

  absent-without :
      (j k : K) (ps : List (K × V)) → lookup j ps ≡ none → lookup j (without k ps) ≡ none
  absent-without j k [] h = refl
  absent-without j k (p ∷ ps) h = ground (arith, absent-without j k ps)

  pub UniqueKeys-without : (k : K) (ps : List (K × V)) → UniqueKeys ps → UniqueKeys (without k ps)
  UniqueKeys-without k [] h = tt
  UniqueKeys-without k (p ∷ ps) h =
      ground (arith, UniqueKeys-without k ps h.1, absent-without p.0 k ps h.0)

  pub lookup-without :
      IsEquality eq → (k : K) (ps : List (K × V)) → UniqueKeys ps → lookup k (without k ps) ≡ none
  lookup-without law k [] h = refl
  lookup-without law k (p ∷ ps) h = ground (arith, lookup-without law k ps h.1, law.sound p.0 k)

  pub length-without :
      (k : K) (v : V) (ps : List (K × V))
      → lookup k ps ≡ some v
      → suc (length (without k ps)) ≡ length ps
  length-without k v [] h = cc
  length-without k v (p ∷ ps) h = ground (arith, length-without k v ps)

  -- The last pair of a list.
  pub lookup-snoc :
      (k : K) (ps : List (K × V)) (p : K × V) → lookup k (ps ++ p ∷ []) ≡ none → lookup k ps ≡ none
  lookup-snoc k [] p h = refl
  lookup-snoc k (q ∷ ps) p h = ground (arith, lookup-snoc k ps p)

  lookup_apart :
      IsEquality eq
      → (k : K) (ps : List (K × V)) (p : K × V) → lookup k (ps ++ p ∷ []) ≡ none
      → eq p.0 k ≡ false
  lookup_apart law k [] p h = ground arith
  lookup_apart law k (q ∷ ps) p h = ground (arith, lookup_apart law k ps p)

  pub UniqueKeys-snoc :
      IsEquality eq
      → (ps : List (K × V)) (p : K × V) → UniqueKeys (ps ++ p ∷ [])
      → UniqueKeys ps × (lookup p.0 ps ≡ none)
  UniqueKeys-snoc law [] p h = (tt, refl)
  UniqueKeys-snoc law (q ∷ ps) p h =
      let (unique, absent) = UniqueKeys-snoc law ps p h.1 in
      let apart : eq q.0 p.0 ≡ false = apart_sym eq law p.0 q.0 (lookup_apart law q.0 ps p h.0) in
      ((lookup-snoc q.0 ps p h.0, unique), ground (arith, apart, absent))

pub snoc_of {ℓ} :
    {A : Type ℓ} (x : A) (xs : List A) → (init : List A) × (last : A) × (x ∷ xs ≡ init ++ last ∷ [])
snoc_of x [] = ([], x, refl)
snoc_of x (y ∷ ys) = let (init, last, e) = snoc_of y ys in (x ∷ init, last, ap (◌∷◌ x) e)

pub map-snoc {ℓ κ} :
    {A : Type ℓ} {B : Type κ} (f : A → B) (xs : List A) (x : A)
    → map f (xs ++ x ∷ []) ≡ map f xs ++ f x ∷ []
map-snoc f [] x = refl
map-snoc f (y ∷ ys) x = ap (◌∷◌ (f y)) (map-snoc f ys x)

module _ {K V : Type 0} (eq_k : K → K → Bool) (eq_v : V → V → Bool) (law_k : IsEquality eq_k)
    (law_v : IsEquality eq_v) where
  -- A pair that is found by its key is found by its value in the swapped list.
  pub lookup-swap :
      (k : K) (v : V) (ps : List (K × V))
      → UniqueKeys eq_v (map swap ps)
      → lookup eq_k k ps ≡ some v
      → lookup eq_v v (map swap ps) ≡ some k
  lookup-swap k v [] unique found = cc
  lookup-swap k v (p ∷ ps) unique found = elim (Bool-cases (eq_k p.0 k)) [
    | inl here ↦
        let key : p.0 ≡ k = law_k.sound p.0 k here in
        let value : p.1 ≡ v = ground (arith, here) in ground (arith, key, value, law_v.reflexive v)
    | inr there ↦
        let rest : lookup eq_v v (map swap ps) ≡ some k =
          lookup-swap k v ps unique.1 (ground (arith, there)) in
        (elim (Bool-cases (eq_v p.1 v)) [
          | inl same ↦ absurd (ground (arith, law_v.sound p.1 v same, rest, unique.0))
          | inr apart ↦ ground (arith, apart, rest)
        ])
  ]

  pub without-swap :
      (k : K) (v : V) (ps : List (K × V))
      → UniqueKeys eq_v (map swap ps)
      → lookup eq_k k ps ≡ some v
      → map swap (without eq_k k ps) ≡ without eq_v v (map swap ps)
  without-swap k v [] unique found = cc
  without-swap k v (p ∷ ps) unique found = elim (Bool-cases (eq_k p.0 k)) [
    | inl here ↦
        let value : p.1 ≡ v = ground (arith, here) in ground (arith, here, value, law_v.reflexive v)
    | inr there ↦
        let found' : lookup eq_k k ps ≡ some v = ground (arith, there) in
        let rest = without-swap k v ps unique.1 found' in
        let found_v = lookup-swap k v ps unique.1 found' in
        (elim (Bool-cases (eq_v p.1 v)) [
          | inl same ↦ absurd (ground (arith, law_v.sound p.1 v same, found_v, unique.0))
          | inr apart ↦ ground (arith, there, apart, rest)
        ])
  ]
