-- ===== src/Unicache/Lockstep/Misses.antt =====
-- A field that the encoder does not hold: omnipaxos/src/unicache/lru_cache.rs.
use omnipaxos.Prelude.{
  ℕ, suc, ◌≤◌, ◌<◌, ◌≡◌, refl, sym, ap, subst, ◌∙◌, Bool, none, List, [], ◌∷◌, ◌++◌, map, length,
  arith, length-append, length-map,
}
use omnipaxos.Unicache.{
  not_encoded, Increment, LruCache, LrUniCache, insert_encoder, try_encode, insert_decoder, decode,
}
use omnipaxos.Unicache.Pairs.{
  IsEquality, swap, lookup, UniqueKeys, lookup-snoc, UniqueKeys-snoc, map-snoc,
}
use omnipaxos.Unicache.Lockstep.{
  IsLru, nth_encoding, AreApart, AreAmong, AreAmong-more, InStep, Passes,
}
use omnipaxos.Unicache.Lockstep.Steps.{seconds, absent_fresh, next_apart, All-snoc}

module _ {K V L M : Type 0} (enc : LruCache L K V) (dec : LruCache M V K) (numbers : Increment V)
    (eq_k : K → K → Bool) (eq_v : V → V → Bool) (cap_enc : L → ℕ) (cap_dec : M → ℕ)
    (law_k : IsEquality eq_k) (law_v : IsEquality eq_v) (lru_enc : IsLru enc eq_k cap_enc)
    (lru_dec : IsLru dec eq_v cap_dec) where
  abbrev Paired : LrUniCache L M V → LrUniCache L M V → Type 0
  Paired = InStep enc dec numbers eq_k eq_v cap_enc cap_dec

  -- There is room for one more pair.
  pub miss_room :
      (field : K) (c d : LrUniCache L M V) (t : Paired c d)
      → AreApart numbers c.size
      → lookup eq_k field t.pairs ≡ none
      → length t.pairs < c.size
      → Passes enc dec numbers eq_k eq_v cap_enc cap_dec field c d
  unfolding try_encode decode insert_encoder insert_decoder nth_encoding
  miss_room field c d t apart absent room =
      let n = length t.pairs in
      let v = nth_encoding numbers (suc n) in
      let (l, got, iter_l, cap_l) =
        lru_enc.get_missing field c.lru_cache_encoder
          (subst (λ ps. lookup eq_k field ps ≡ none) (sym t.encoder) absent) in
      let held : enc.iter l ≡ t.pairs = iter_l ∙ t.encoder in
      let long : enc.len l ≡ n = lru_enc.len-iter l ∙ ap length held in
      let (pushed, cap_pushed) =
        lru_enc.push_new field v l (subst (λ ps. lookup eq_k field ps ≡ none) (sym held) absent)
          (omega (arith, ap length held, cap_l, t.encoder_cap, room)) in
      let fresh : lookup eq_v v (map swap t.pairs) ≡ none =
        absent_fresh eq_v law_v v t.pairs
          (next_apart numbers c.size n (seconds t.pairs) apart room t.among) in
      let long_d : length (dec.iter d.lru_cache_decoder) ≡ n =
        ap length t.decoder ∙ length-map swap t.pairs in
      let (pushed_d, cap_pushed_d) =
        lru_dec.push_new v field d.lru_cache_decoder
          (subst (λ ps. lookup eq_v v ps ≡ none) (sym t.decoder) fresh)
          (omega (arith, long_d, t.decoder_cap, room)) in
      (
        not_encoded field,
        record c { lru_cache_encoder = enc.push field v l; encoding = v },
        record d { lru_cache_decoder = dec.push v field d.lru_cache_decoder; encoding = v },
        ground (arith, got, long, t.encoder_encoding, room),
        ground (
          arith,
          lru_dec.len-iter d.lru_cache_decoder,
          long_d,
          t.decoder_encoding,
          t.sizes,
          room,
        ),
        refl,
        record {
          some_size = t.some_size;
          pairs = (field, v) ∷ t.pairs;
          encoder = pushed ∙ ap (◌∷◌ (field, v)) held;
          decoder = pushed_d ∙ ap (◌∷◌ (v, field)) t.decoder;
          encoder_cap = cap_pushed ∙ (cap_l ∙ t.encoder_cap);
          decoder_cap = cap_pushed_d ∙ t.decoder_cap;
          sizes = t.sizes;
          encoder_encoding = refl;
          decoder_encoding = refl;
          fits = omega (arith, room);
          unique_keys = (absent, t.unique_keys);
          unique_encodings = (fresh, t.unique_encodings);
          among = ((suc n, omega arith, refl), AreAmong-more numbers n (seconds t.pairs) t.among);
        },
      )

  -- The least recently used pair gives its encoding to the new field.
  pub miss_full :
      (field : K) (c d : LrUniCache L M V) (t : Paired c d) (rest : List (K × V)) (last : K × V)
      → t.pairs ≡ rest ++ last ∷ []
      → lookup eq_k field t.pairs ≡ none
      → length t.pairs ≡ c.size
      → Passes enc dec numbers eq_k eq_v cap_enc cap_dec field c d
  unfolding try_encode decode insert_encoder insert_decoder
  miss_full field c d t rest last split absent full =
      let v = last.1 in
      let n = length t.pairs in
      let (l, got, iter_l, cap_l) =
        lru_enc.get_missing field c.lru_cache_encoder
          (subst (λ ps. lookup eq_k field ps ≡ none) (sym t.encoder) absent) in
      let held : enc.iter l ≡ t.pairs = iter_l ∙ t.encoder in
      let long : enc.len l ≡ n = lru_enc.len-iter l ∙ ap length held in
      let (l', popped, iter_l', cap_l') = lru_enc.pop_last l rest last (held ∙ split) in
      let shorter : suc (length rest) ≡ n =
        omega (arith, ap length split, length-append rest (last ∷ [])) in
      let absent' : lookup eq_k field rest ≡ none =
        lookup-snoc eq_k field rest last (subst (λ ps. lookup eq_k field ps ≡ none) split absent) in
      let (pushed, cap_pushed) =
        lru_enc.push_new field v l'
          (subst (λ ps. lookup eq_k field ps ≡ none) (sym iter_l') absent')
          (omega (arith, ap length iter_l', cap_l', cap_l, t.encoder_cap, shorter, full)) in
      let split_d : map swap t.pairs ≡ map swap rest ++ (v, last.0) ∷ [] =
        ap (map swap) split ∙ map-snoc swap rest last in
      let long_d : length (dec.iter d.lru_cache_decoder) ≡ n =
        ap length t.decoder ∙ length-map swap t.pairs in
      let (m, popped_d, iter_m, cap_m) =
        lru_dec.pop_last d.lru_cache_decoder (map swap rest) (v, last.0) (t.decoder ∙ split_d) in
      let (unique_v, fresh) =
        UniqueKeys-snoc eq_v law_v (map swap rest) (v, last.0)
          (subst (UniqueKeys eq_v) split_d t.unique_encodings) in
      let (unique_k, _) =
        UniqueKeys-snoc eq_k law_k rest last (subst (UniqueKeys eq_k) split t.unique_keys) in
      let (pushed_d, cap_pushed_d) =
        lru_dec.push_new v field m (subst (λ ps. lookup eq_v v ps ≡ none) (sym iter_m) fresh) (
          omega
            (arith, ap length iter_m, length-map swap rest, cap_m, t.decoder_cap, shorter, full)) in
      let (among_rest, among_last) =
        All-snoc (λ v'. (i : ℕ) × (i ≤ n) × (v' ≡ nth_encoding numbers i)) rest last
          (subst (λ ps. AreAmong numbers n (seconds ps)) split t.among) in
      (
        not_encoded field,
        record c { lru_cache_encoder = enc.push field v l' },
        record d { lru_cache_decoder = dec.push v field m },
        ground (arith, got, long, full, popped),
        ground (arith, lru_dec.len-iter d.lru_cache_decoder, long_d, full, t.sizes, popped_d),
        refl,
        record {
          some_size = t.some_size;
          pairs = (field, v) ∷ rest;
          encoder = pushed ∙ ap (◌∷◌ (field, v)) iter_l';
          decoder = pushed_d ∙ ap (◌∷◌ (v, field)) iter_m;
          encoder_cap = cap_pushed ∙ (cap_l' ∙ (cap_l ∙ t.encoder_cap));
          decoder_cap = cap_pushed_d ∙ (cap_m ∙ t.decoder_cap);
          sizes = t.sizes;
          encoder_encoding = t.encoder_encoding ∙ ap (nth_encoding numbers) (sym shorter);
          decoder_encoding = t.decoder_encoding ∙ ap (nth_encoding numbers) (sym shorter);
          fits = omega (arith, shorter, full);
          unique_keys = (absent', unique_k);
          unique_encodings = (fresh, unique_v);
          among =
              subst (λ k. AreAmong numbers k (seconds ((field, v) ∷ rest))) (sym shorter)
                (among_last, among_rest);
        },
      )
