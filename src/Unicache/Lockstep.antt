-- ===== src/Unicache/Lockstep.antt =====
-- An encoder and the decoder of its receiver stay in step: omnipaxos/src/unicache/lru_cache.rs.
pub mod Steps
pub mod Misses
use omnipaxos.Prelude.{
  ℕ, zero, suc, ◌+◌, ◌≤◌, ◌<◌, ◌≡◌, ◌≢◌, refl, sym, ap, subst, ◌∙◌, inl, inr, Bool, true, false,
  Option, none, some, List, [], ◌∷◌, ◌++◌, All, map, length, arith, ◌==◌, if◌then◌else◌, ◌>>=◌,
  Option-cases, Bool-cases, length-append,
}
use omnipaxos.Unicache.{
  MaybeEncoded, encoded, not_encoded, Increment, LruCache, LrUniCache, insert_encoder, try_encode,
  insert_decoder, decode,
}
use omnipaxos.Unicache.Pairs.{
  IsEquality, swap, lookup, without, UniqueKeys, UniqueKeys-without, lookup-without, length-without,
  lookup-snoc, UniqueKeys-snoc, snoc_of, map-snoc, lookup-swap, without-swap,
}

-- What the documentation of the library promises of a cache, by its pairs from the most recently
-- used one to the least.
pub record IsLru {L K V : Type 0} (lru : LruCache L K V) (eq : K → K → Bool) (cap : L → ℕ)
    : Type 0 where
  pub iter-new : (n : ℕ) → (lru.iter (lru.new n) ≡ []) × (cap (lru.new n) ≡ n)
  pub len-iter : (l : L) → lru.len l ≡ length (lru.iter l)
  pub get_found :
      (k : K) (v : V) (l : L)
      → lookup eq k (lru.iter l) ≡ some v
      → (l' : L) × (lru.get k l ≡ (some v, l'))
        × (lru.iter l' ≡ (k, v) ∷ without eq k (lru.iter l))
        × (cap l' ≡ cap l)
  pub get_missing :
      (k : K) (l : L)
      → lookup eq k (lru.iter l) ≡ none
      → (l' : L) × (lru.get k l ≡ (none, l')) × (lru.iter l' ≡ lru.iter l) × (cap l' ≡ cap l)
  pub push_new :
      (k : K) (v : V) (l : L)
      → lookup eq k (lru.iter l) ≡ none
      → length (lru.iter l) < cap l
      → (lru.iter (lru.push k v l) ≡ (k, v) ∷ lru.iter l) × (cap (lru.push k v l) ≡ cap l)
  pub pop_last :
      (l : L) (ps : List (K × V)) (p : K × V)
      → lru.iter l ≡ ps ++ p ∷ []
      → (l' : L) × (lru.pop_lru l ≡ some (p, l')) × (lru.iter l' ≡ ps) × (cap l' ≡ cap l)

-- The encoding after a number of additions.
unfoldable pub nth_encoding : {V : Type 0} → Increment V → ℕ → V
nth_encoding numbers zero = numbers.default
nth_encoding numbers (suc n) = numbers.add_one (nth_encoding numbers n)

-- The encodings do not repeat before the cache is full.
abbrev pub AreApart : {V : Type 0} → Increment V → ℕ → Type 0
AreApart numbers size =
    (i j : ℕ) → i < j → j ≤ size → nth_encoding numbers i ≢ nth_encoding numbers j

-- Each of a list of encodings is one of the first `n`.
abbrev pub AreAmong : {V : Type 0} → Increment V → ℕ → List V → Type 0
AreAmong numbers n vs = All (λ v. (i : ℕ) × (i ≤ n) × (v ≡ nth_encoding numbers i)) vs

AreAmong-more :
    {V : Type 0} (numbers : Increment V) (n : ℕ) (vs : List V)
    → AreAmong numbers n vs
    → AreAmong numbers (suc n) vs
AreAmong-more numbers n [] h = tt
AreAmong-more numbers n (v ∷ vs) h =
    let (i, le, e) = h.0 in ((i, omega arith, e), AreAmong-more numbers n vs h.1)

module _ {K V L M : Type 0} (enc : LruCache L K V) (dec : LruCache M V K) (numbers : Increment V)
    (eq_k : K → K → Bool) (eq_v : V → V → Bool) (cap_enc : L → ℕ) (cap_dec : M → ℕ) where
  -- The pairs of an encoder and of the decoder, the same but for their direction.
  pub record InStep (c d : LrUniCache L M V) : Type 0 where
    pub some_size : 0 < c.size
    pub pairs : List (K × V)
    pub encoder : enc.iter c.lru_cache_encoder ≡ pairs
    pub decoder : dec.iter d.lru_cache_decoder ≡ map swap pairs
    pub encoder_cap : cap_enc c.lru_cache_encoder ≡ c.size
    pub decoder_cap : cap_dec d.lru_cache_decoder ≡ c.size
    pub sizes : d.size ≡ c.size
    pub encoder_encoding : c.encoding ≡ nth_encoding numbers (length pairs)
    pub decoder_encoding : d.encoding ≡ nth_encoding numbers (length pairs)
    pub fits : length pairs ≤ c.size
    pub unique_keys : UniqueKeys eq_k pairs
    pub unique_encodings : UniqueKeys eq_v (map swap pairs)
    pub among : AreAmong numbers (length pairs) (map (λ p. p.1) pairs)

  -- What one field leads to.
  abbrev pub Passes : K → LrUniCache L M V → LrUniCache L M V → Type 0
  Passes field c d =
      (m : MaybeEncoded K V) × (c' : LrUniCache L M V) × (d' : LrUniCache L M V) × (try_encode enc
          dec numbers field c
        ≡ some (m, c'))
      × (decode enc dec numbers m d ≡ some (field, d'))
      × (c'.size ≡ c.size)
      × InStep c' d'
