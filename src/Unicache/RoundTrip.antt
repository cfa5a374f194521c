-- ===== src/Unicache/RoundTrip.antt =====
-- What an encoder sends, the decoder of its receiver gives back: omnipaxos/src/unicache/lru_cache.rs.
use omnipaxos.Prelude.{
  ℕ, ◌≤◌, ◌<◌, ◌≡◌, refl, sym, ap, subst, ◌∙◌, inl, inr, Bool, Option, none, some, List, [], ◌∷◌,
  map, length, length-map, arith, ◌>>=◌, Option-cases, Bool-cases, ltb,
}
use omnipaxos.Unicache.{
  MaybeEncoded, Increment, LruCache, LrUniCache, new, push_reversed, clone, try_encode, decode,
}
use omnipaxos.Unicache.Pairs.{IsEquality, swap, lookup, UniqueKeys, snoc_of}
use omnipaxos.Unicache.Lockstep.{IsLru, nth_encoding, AreApart, InStep, Passes}
use omnipaxos.Unicache.Lockstep.Steps.{hit}
use omnipaxos.Unicache.Lockstep.Misses.{miss_room, miss_full}

module _ {K V L M : Type 0} (enc : LruCache L K V) (dec : LruCache M V K)
    (numbers : Increment V) where
  -- A sequence of fields, one after the other.
  pub encode_all : List K → LrUniCache L M V → Option (List (MaybeEncoded K V) × LrUniCache L M V)
  encode_all [] c = some ([], c)
  encode_all (field ∷ fields) c = do
    first ← try_encode enc dec numbers field c
    rest ← encode_all fields first.1
    some (first.0 ∷ rest.0, rest.1)

  pub decode_all : List (MaybeEncoded K V) → LrUniCache L M V → Option (List K × LrUniCache L M V)
  decode_all [] c = some ([], c)
  decode_all (m ∷ ms) c = do
    first ← decode enc dec numbers m c
    rest ← decode_all ms first.1
    some (first.0 ∷ rest.0, rest.1)

  module _ (eq_k : K → K → Bool) (eq_v : V → V → Bool) (cap_enc : L → ℕ) (cap_dec : M → ℕ)
      (law_k : IsEquality eq_k) (law_v : IsEquality eq_v) (lru_enc : IsLru enc eq_k cap_enc)
      (lru_dec : IsLru dec eq_v cap_dec) where
    abbrev Paired : LrUniCache L M V → LrUniCache L M V → Type 0
    Paired = InStep enc dec numbers eq_k eq_v cap_enc cap_dec

    -- A full cache has a least recently used pair.
    pass_full :
        (field : K) (c d : LrUniCache L M V) (t : Paired c d) (ps : List (K × V))
        → t.pairs ≡ ps
        → lookup eq_k field t.pairs ≡ none
        → length t.pairs ≡ c.size
        → Passes enc dec numbers eq_k eq_v cap_enc cap_dec field c d
    pass_full field c d t [] e absent full = absurd (omega (arith, ap length e, full, t.some_size))
    pass_full field c d t (p ∷ ps) e absent full =
        let (rest, last, split) = snoc_of p ps in
        miss_full enc dec numbers eq_k eq_v cap_enc cap_dec law_k law_v lru_enc lru_dec field c d t
          rest last (e ∙ split) absent full

    pass :
        (field : K) (c d : LrUniCache L M V)
        → Paired c d
        → AreApart numbers c.size
        → Passes enc dec numbers eq_k eq_v cap_enc cap_dec field c d
    pass field c d t apart = elim (Option-cases (lookup eq_k field t.pairs)) [
      | inr (v, found) ↦
          hit enc dec numbers eq_k eq_v cap_enc cap_dec law_k law_v lru_enc lru_dec field v c d t
            found
      | inl absent ↦ (elim (Bool-cases (ltb (length t.pairs) c.size)) [
        | inl room ↦
            miss_room enc dec numbers eq_k eq_v cap_enc cap_dec law_k law_v lru_enc lru_dec field c
              d t apart absent (ground (arith, room))
        | inr full ↦ pass_full field c d t t.pairs refl absent (ground (arith, full, t.fits))
      ])
    ]

    pass_all :
        (fields : List K) (c d : LrUniCache L M V)
        → Paired c d
        → AreApart numbers c.size
        → (ms : List (MaybeEncoded K V)) × (c' : LrUniCache L M V) × (d' : LrUniCache L M V)
          × (encode_all fields c ≡ some (ms, c'))
          × (decode_all ms d ≡ some (fields, d'))
          × (c'.size ≡ c.size)
          × Paired c' d'
    unfolding encode_all decode_all
    pass_all [] c d t apart = ([], c, d, refl, refl, refl, t)
    pass_all (field ∷ fields) c d t apart =
        let (m, c1, d1, encodes, decodes, size, t1) = pass field c d t apart in
        let (ms, c2, d2, encodes', decodes', size', t2) =
          pass_all fields c1 d1 t1 (subst (AreApart numbers) (sym size) apart) in
        (
          m ∷ ms,
          c2,
          d2,
          ground (arith, encodes, encodes'),
          ground (arith, decodes, decodes'),
          size' ∙ size,
          t2,
        )

    new-Paired :
        (size : ℕ)
        → 0 < size
        → (c : LrUniCache L M V) × (new enc dec numbers size ≡ some c)
          × (c.size ≡ size)
          × Paired c c
    unfolding new nth_encoding
    new-Paired size some_size =
        let (empty, cap) = lru_enc.iter-new size in
        let (empty_d, cap_d) = lru_dec.iter-new size in
        (
          record {
            lru_cache_encoder = enc.new size;
            lru_cache_decoder = dec.new size;
            encoding = numbers.default;
            size = size;
          },
          ground (arith, some_size),
          refl,
          record {
            some_size = some_size;
            pairs = [];
            encoder = empty;
            decoder = empty_d;
            encoder_cap = cap;
            decoder_cap = cap_d;
            sizes = refl;
            encoder_encoding = refl;
            decoder_encoding = refl;
            fits = omega arith;
            unique_keys = tt;
            unique_encodings = tt;
            among = tt;
          },
        )

    iter-push_reversed :
        (ps : List (K × V)) (size : ℕ)
        → UniqueKeys eq_v (map swap ps)
        → length ps ≤ size
        → let m = push_reversed enc dec numbers ps (dec.new size) in
          (dec.iter m ≡ map swap ps) × (cap_dec m ≡ size)
    unfolding push_reversed
    iter-push_reversed [] size unique fits = lru_dec.iter-new size
    iter-push_reversed (p ∷ ps) size unique fits =
        let m = push_reversed enc dec numbers ps (dec.new size) in
        let (iter, cap) = iter-push_reversed ps size unique.1 (omega arith) in
        let (pushed, cap_pushed) =
          lru_dec.push_new p.1 p.0 m (subst (λ qs. lookup eq_v p.1 qs ≡ none) (sym iter) unique.0)
            (omega (arith, ap length iter, length-map swap ps, cap)) in
        (pushed ∙ ap (◌∷◌ (p.1, p.0)) iter, cap_pushed ∙ cap)

    clone-Paired :
        (c d : LrUniCache L M V)
        → Paired c d
        → (d' : LrUniCache L M V) × (clone enc dec numbers c ≡ some d') × Paired c d'
    unfolding clone
    clone-Paired c d t =
        let (iter, cap) = iter-push_reversed t.pairs c.size t.unique_encodings t.fits in
        let m = push_reversed enc dec numbers t.pairs (dec.new c.size) in
        (
          record {
            lru_cache_encoder = enc.new 1;
            lru_cache_decoder = m;
            encoding = c.encoding;
            size = c.size;
          },
          ground (arith, t.some_size, t.encoder),
          record {
            some_size = t.some_size;
            pairs = t.pairs;
            encoder = t.encoder;
            decoder = iter;
            encoder_cap = t.encoder_cap;
            decoder_cap = cap;
            sizes = refl;
            encoder_encoding = t.encoder_encoding;
            decoder_encoding = t.encoder_encoding;
            fits = t.fits;
            unique_keys = t.unique_keys;
            unique_encodings = t.unique_encodings;
            among = t.among;
          },
        )

    -- A leader with a new cache encodes any sequence of fields without a panic; the clone of its
    -- cache is then sent to a follower. Whatever fields the leader encodes from then on, the
    -- follower decodes what it is sent to the same fields, without a panic. The size is not 0, the
    -- encodings do not repeat before the cache is full, `==` is equality, and the library keeps
    -- what it promises.
    pub decode_all-encode_all :
        (size : ℕ) (before after : List K)
        → 0 < size
        → AreApart numbers size
        → (c0 : LrUniCache L M V) × (sent : List (MaybeEncoded K V)) × (c1 : LrUniCache L M V)
          × (d1 : LrUniCache L M V) × (sent' : List (MaybeEncoded K V)) × (c2 : LrUniCache L M V)
          × (d2 : LrUniCache L M V) × (new enc dec numbers size ≡ some c0)
          × (encode_all before c0 ≡ some (sent, c1))
          × (clone enc dec numbers c1 ≡ some d1)
          × (encode_all after c1 ≡ some (sent', c2))
          × (decode_all sent' d1 ≡ some (after, d2))
    decode_all-encode_all size before after some_size apart =
        let (c0, begins, size0, t0) = new-Paired size some_size in
        let (sent, c1, _, encodes, _, size1, t1) =
          pass_all before c0 c0 t0 (subst (AreApart numbers) (sym size0) apart) in
        let (d1, cloned, t1') = clone-Paired c1 _ t1 in
        let (sent', c2, d2, encodes', decodes', _, _) =
          pass_all after c1 d1 t1' (subst (AreApart numbers) (sym (size1 ∙ size0)) apart) in
        (c0, sent, c1, d1, sent', c2, d2, begins, encodes, cloned, encodes', decodes')
