-- ===== src/Unicache/Lockstep/Steps.antt =====
-- One field through an encoder and its decoder: omnipaxos/src/unicache/lru_cache.rs.
use omnipaxos.Prelude.{
  ℕ, suc, ◌≤◌, ◌<◌, ◌≡◌, ◌≢◌, refl, sym, ap, subst, ◌∙◌, inl, inr, Bool, none, some, List, [], ◌∷◌,
  ◌++◌, All, map, length, arith, Bool-cases,
}
use omnipaxos.Unicache.{encoded, Increment, LruCache, LrUniCache, try_encode, decode}
use omnipaxos.Unicache.Pairs.{
  IsEquality, swap, lookup, without, UniqueKeys, UniqueKeys-without, lookup-without, length-without,
  lookup-swap, without-swap,
}
use omnipaxos.Unicache.Lockstep.{IsLru, nth_encoding, AreApart, AreAmong, InStep, Passes}

abbrev pub seconds : {K V : Type 0} → List (K × V) → List V
seconds ps = map (λ p. p.1) ps

module _ {K V : Type 0} (P : V → Type 0) where
  All-without :
      (eq : K → K → Bool) (k : K) (ps : List (K × V))
      → All P (seconds ps)
      → All P (seconds (without eq k ps))
  All-without eq k [] h = tt
  All-without eq k (p ∷ ps) h = ground (arith, h.0, h.1, All-without eq k ps h.1)

  All-lookup :
      (eq : K → K → Bool) (k : K) (v : V) (ps : List (K × V))
      → All P (seconds ps)
      → lookup eq k ps ≡ some v
      → P v
  All-lookup eq k v [] h found = cc
  All-lookup eq k v (p ∷ ps) h found = elim (Bool-cases (eq p.0 k)) [
    | inl here ↦ let value : p.1 ≡ v = ground (arith, here) in subst P value h.0
    | inr there ↦ All-lookup eq k v ps h.1 (ground (arith, there))
  ]

  pub All-snoc :
      (ps : List (K × V)) (p : K × V) → All P (seconds (ps ++ p ∷ [])) → All P (seconds ps) × P p.1
  All-snoc [] p h = (tt, h.0)
  All-snoc (q ∷ ps) p h = let (rest, last) = All-snoc ps p h.1 in ((h.0, rest), last)

-- An encoding that none of the pairs has is not found.
pub absent_fresh :
    {K V : Type 0} (eq : V → V → Bool) (law : IsEquality eq) (v : V) (ps : List (K × V))
    → All (λ v'. v' ≢ v) (seconds ps)
    → lookup eq v (map swap ps) ≡ none
absent_fresh eq law v [] h = refl
absent_fresh eq law v (p ∷ ps) h = elim (Bool-cases (eq p.1 v)) [
  | inl same ↦ absurd (h.0 (law.sound p.1 v same))
  | inr apart ↦ ground (arith, apart, absent_fresh eq law v ps h.1)
]

-- The next encoding is apart from those before.
pub next_apart :
    {V : Type 0} (numbers : Increment V) (size n : ℕ) (vs : List V)
    → AreApart numbers size
    → n < size
    → AreAmong numbers n vs
    → All (λ v. v ≢ nth_encoding numbers (suc n)) vs
next_apart numbers size n [] apart room among = tt
next_apart numbers size n (v ∷ vs) apart room among =
    let (i, le, e) = among.0 in
    (
      λ same. apart i (suc n) (omega arith) (omega arith) (sym e ∙ same),
      next_apart numbers size n vs apart room among.1,
    )

module _ {K V L M : Type 0} (enc : LruCache L K V) (dec : LruCache M V K) (numbers : Increment V)
    (eq_k : K → K → Bool) (eq_v : V → V → Bool) (cap_enc : L → ℕ) (cap_dec : M → ℕ)
    (law_k : IsEquality eq_k) (law_v : IsEquality eq_v) (lru_enc : IsLru enc eq_k cap_enc)
    (lru_dec : IsLru dec eq_v cap_dec) where
  abbrev Together : LrUniCache L M V → LrUniCache L M V → Type 0
  Together = InStep enc dec numbers eq_k eq_v cap_enc cap_dec

  pub hit :
      (field : K) (v : V) (c d : LrUniCache L M V) (t : Together c d)
      → lookup eq_k field t.pairs ≡ some v
      → Passes enc dec numbers eq_k eq_v cap_enc cap_dec field c d
  unfolding try_encode decode
  hit field v c d t found =
      let (l, got, iter_l, cap_l) =
        lru_enc.get_found field v c.lru_cache_encoder
          (subst (λ ps. lookup eq_k field ps ≡ some v) (sym t.encoder) found) in
      let found_v : lookup eq_v v (map swap t.pairs) ≡ some field =
        lookup-swap eq_k eq_v law_k law_v field v t.pairs t.unique_encodings found in
      let (m, got_d, iter_m, cap_m) =
        lru_dec.get_found v field d.lru_cache_decoder
          (subst (λ ps. lookup eq_v v ps ≡ some field) (sym t.decoder) found_v) in
      let rest = without eq_k field t.pairs in
      let swapped : map swap rest ≡ without eq_v v (map swap t.pairs) =
        without-swap eq_k eq_v law_k law_v field v t.pairs t.unique_encodings found in
      let same_length : length ((field, v) ∷ rest) ≡ length t.pairs =
        length-without eq_k field v t.pairs found in
      (
        encoded v,
        record c { lru_cache_encoder = l },
        record d { lru_cache_decoder = m },
        ground (arith, got),
        ground (arith, got_d),
        refl,
        record {
          some_size = t.some_size;
          pairs = (field, v) ∷ rest;
          encoder = iter_l ∙ ap (λ ps. (field, v) ∷ without eq_k field ps) t.encoder;
          decoder =
              iter_m
              ∙ ap (λ ps. (v, field) ∷ without eq_v v ps) t.decoder
              ∙ ap (◌∷◌ (v, field)) (sym swapped);
          encoder_cap = cap_l ∙ t.encoder_cap;
          decoder_cap = cap_m ∙ t.decoder_cap;
          sizes = t.sizes;
          encoder_encoding = t.encoder_encoding ∙ ap (nth_encoding numbers) (sym same_length);
          decoder_encoding = t.decoder_encoding ∙ ap (nth_encoding numbers) (sym same_length);
          fits = omega (arith, same_length, t.fits);
          unique_keys = (
            lookup-without eq_k law_k field t.pairs t.unique_keys,
            UniqueKeys-without eq_k field t.pairs t.unique_keys,
          );
          unique_encodings =
              subst (λ ps. (lookup eq_v v ps ≡ none) × UniqueKeys eq_v ps) (sym swapped)
                (
                  lookup-without eq_v law_v v (map swap t.pairs) t.unique_encodings,
                  UniqueKeys-without eq_v v (map swap t.pairs) t.unique_encodings,
                );
          among =
              subst (λ n. AreAmong numbers n (seconds ((field, v) ∷ rest))) (sym same_length)
                (
                  All-lookup (λ v'. (i : ℕ) × (i ≤ length t.pairs) × (v' ≡ nth_encoding numbers i))
                      eq_k field v t.pairs t.among found,
                  All-without (λ v'. (i : ℕ) × (i ≤ length t.pairs) × (v' ≡ nth_encoding numbers i))
                      eq_k field t.pairs t.among,
                );
        },
      )
