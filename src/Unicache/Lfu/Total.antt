-- ===== src/Unicache/Lfu/Total.antt =====
-- The encoder never panics and never outgrows its size: omnipaxos/src/unicache/lfu_cache.rs.
use omnipaxos.Prelude.{
  ℕ, suc, ◌<◌, ◌≤◌, ◌≡◌, refl, ap, ◌∙◌, inl, inr, Bool, Option, none, some, List, [], ◌∷◌, length,
  arith, ◌==◌, ◌>>=◌, Bool-cases, Option-cases,
}
use omnipaxos.Word.{inc_u64}
use omnipaxos.Unicache.{MaybeEncoded, encoded, not_encoded, Increment}
use omnipaxos.Unicache.Pairs.{IsEquality, lookup}
use omnipaxos.Unicache.Lfu.{
  LinkedHashSet, ValueCounter, LfuCache, with_capacity, len, count_use, update_frequency_bin, get,
  evict_and_return_value, set_new, set,
}
use omnipaxos.Unicache.Lfu.Field.{LfUniCache, new, insert_encoder, try_encode}
use omnipaxos.Unicache.Lfu.Bins.{
  lookup-insert_pair, length-insert_pair, length-insert_pair_found, IsLinkedHashSet, bin_of,
}
use omnipaxos.Unicache.Lfu.Valid.{
  Valid, HasLeast, count_use-Valid, count_use-HasLeast, set_new-Valid, set_new-HasLeast,
}
use omnipaxos.Unicache.Lfu.Evicting.{evict_from_total}

module _ {S T K V : Type 0} (sets : LinkedHashSet S K) (sets' : LinkedHashSet T V)
    (numbers : Increment V) (eq : K → K → Bool) (eq' : V → V → Bool) where
  -- A sequence of fields, one after the other.
  pub encode_all :
      List K → LfUniCache S T K V → Option (List (MaybeEncoded K V) × LfUniCache S T K V)
  encode_all [] c = some ([], c)
  encode_all (field ∷ fields) c = do
    first ← try_encode sets sets' numbers eq eq' field c
    rest ← encode_all fields first.1
    some (first.0 ∷ rest.0, rest.1)

module _ {S T K V : Type 0} (sets : LinkedHashSet S K) (sets' : LinkedHashSet T V)
    (numbers : Increment V) (eq : K → K → Bool) (eq' : V → V → Bool) (contains : K → S → Bool)
    (law : IsEquality eq) (law_set : IsLinkedHashSet sets eq contains) where
  -- An encoder of a size between two operations.
  record Sound (size : ℕ) (c : LfuCache S K V) : Type 0 where
    valid : Valid sets eq contains law law_set c
    least : HasLeast sets eq contains law law_set c
    capacity : c.capacity ≡ size
    fits : len c ≤ size

  get_total :
      (size : ℕ) (k : K) (c : LfuCache S K V)
      → Sound size c
      → (r : Option V) × (c' : LfuCache S K V) × (get sets eq k c ≡ some (r, c'))
        × Sound size c'
        × (r ≡ none → lookup eq k c'.values ≡ none)
  unfolding get update_frequency_bin count_use
  get_total size k c sound = elim (Option-cases (lookup eq k c.values)) [
    | inl absent ↦ (none, c, ground (arith, absent), sound, λ _. absent)
    | inr (x, found) ↦
        let (bin, is_bin, _) =
          bin_of sets eq contains law_set c.frequency_bin x.count k
            (sound.valid.binned k x found) in
        let x' : ValueCounter V = record x { count = inc_u64 x.count } in
        let looked_up = lookup-insert_pair eq law k k x' c.values in
        (
          some x.value,
          count_use sets eq k x bin c,
          ground (arith, found, is_bin, looked_up, law.reflexive k),
          record {
            valid = count_use-Valid sets eq contains law law_set k x bin c found is_bin sound.valid;
            least =
                count_use-HasLeast sets eq contains law law_set k x bin c found is_bin sound.least;
            capacity = sound.capacity;
            fits = omega (arith, length-insert_pair_found eq law k x' x c.values found, sound.fits);
          },
          λ e. ground (arith, e),
        )
  ]

  set_absent_total :
      (size : ℕ) (k : K) (v : V) (c : LfuCache S K V)
      → Valid sets eq contains law law_set c
      → c.capacity ≡ size
      → len c < size
      → lookup eq k c.values ≡ none
      → (set sets eq k v c ≡ some (set_new sets eq k v c)) × Sound size (set_new sets eq k v c)
  unfolding set set_new
  set_absent_total size k v c valid capacity room absent = (
    ground (arith, absent, capacity, room),
    record {
      valid = set_new-Valid sets eq contains law law_set k v c absent valid;
      least = set_new-HasLeast sets eq contains law law_set k v c;
      capacity = capacity;
      fits =
          omega
            (arith, length-insert_pair eq law k (record { value = v; count = 1 }) c.values, room);
    },
  )

  -- What a new field leads to, in a full cache and in one with room.
  insert_encoder_total :
      (size : ℕ) (k : K) (c : LfUniCache S T K V)
      → 0 < size
      → c.size ≡ size
      → Sound size c.lfu_cache_encoder
      → lookup eq k c.lfu_cache_encoder.values ≡ none
      → (c' : LfUniCache S T K V) × (insert_encoder sets sets' numbers eq eq' k c ≡ some c')
        × (c'.size ≡ size)
        × Sound size c'.lfu_cache_encoder
  unfolding insert_encoder evict_and_return_value
  insert_encoder_total size k c some_size is_size sound absent =
      let added = numbers.add_one c.encoding in
      elim (Bool-cases (len c.lfu_cache_encoder == c.size)) [
        | inl full ↦
            let (bin, j, v, enc, is_bin, evicts, fewer, capacity, _, still, valid) =
              evict_from_total sets eq contains law law_set c.lfu_cache_encoder
                (ground (arith, full, is_size, some_size)) sound.valid sound.least in
            let (sets_it, sound') =
              set_absent_total size k v enc valid (capacity ∙ sound.capacity)
                (omega (arith, fewer, sound.fits)) (still k absent) in
            (
              record c { lfu_cache_encoder = set_new sets eq k v enc },
              ground (arith, full, is_bin, evicts, sets_it),
              is_size,
              sound',
            )
        | inr not_full ↦
            let (sets_it, sound') =
              set_absent_total size k added c.lfu_cache_encoder sound.valid sound.capacity
                (ground (arith, not_full, is_size, sound.fits)) absent in
            (
              record c {
                lfu_cache_encoder = set_new sets eq k added c.lfu_cache_encoder;
                encoding = added;
              },
              ground (arith, not_full, sets_it),
              is_size,
              sound',
            )
      ]

  try_encode_total :
      (size : ℕ) (k : K) (c : LfUniCache S T K V)
      → 0 < size
      → c.size ≡ size
      → Sound size c.lfu_cache_encoder
      → (m : MaybeEncoded K V) × (c' : LfUniCache S T K V) × (try_encode sets sets' numbers eq eq' k
            c
          ≡ some (m, c'))
        × (c'.size ≡ size)
        × Sound size c'.lfu_cache_encoder
  unfolding try_encode
  try_encode_total size k c some_size is_size sound =
      let (r, enc, gets, sound', absent) = get_total size k c.lfu_cache_encoder sound in
      let c1 : LfUniCache S T K V = record c { lfu_cache_encoder = enc } in
      elim (Option-cases r) [
        | inr (v, hit) ↦ (encoded v, c1, ground (arith, gets, hit), is_size, sound')
        | inl missed ↦
            let (c2, inserts, is_size', sound'') =
              insert_encoder_total size k c1 some_size is_size sound' (absent missed) in
            (not_encoded k, c2, ground (arith, gets, missed, inserts), is_size', sound'')
      ]

  encode_all-Sound :
      (size : ℕ) (fields : List K) (c : LfUniCache S T K V)
      → 0 < size
      → c.size ≡ size
      → Sound size c.lfu_cache_encoder
      → (ms : List (MaybeEncoded K V)) × (c' : LfUniCache S T K V) × (encode_all sets sets' numbers
            eq eq' fields c
          ≡ some (ms, c'))
        × (length ms ≡ length fields)
        × Sound size c'.lfu_cache_encoder
  unfolding encode_all
  encode_all-Sound size [] c some_size is_size sound = ([], c, refl, refl, sound)
  encode_all-Sound size (field ∷ fields) c some_size is_size sound =
      let (m, c1, encodes, is_size', sound') =
        try_encode_total size field c some_size is_size sound in
      let (ms, c2, encodes', one_each, sound'') =
        encode_all-Sound size fields c1 some_size is_size' sound' in
      (m ∷ ms, c2, ground (arith, encodes, encodes'), ap suc one_each, sound'')

  -- A new cache with least frequently used eviction encodes any sequence of fields: no step panics,
  -- neither in `get`, nor in an eviction, nor in `set`; each field has its answer, and the encoder
  -- never holds more fields than its size. The size is not 0, `==` is equality, and the library
  -- keeps what it promises.
  pub encode_all_total :
      (size : ℕ) (fields : List K)
      → 0 < size
      → (c : LfUniCache S T K V) × (ms : List (MaybeEncoded K V)) × (c' : LfUniCache S T K V) × (new
            sets sets' numbers eq eq' size
          ≡ some c)
        × (encode_all sets sets' numbers eq eq' fields c ≡ some (ms, c'))
        × (length ms ≡ length fields)
        × (len c'.lfu_cache_encoder ≤ size)
  unfolding new with_capacity
  encode_all_total size fields some_size =
      let enc : LfuCache S K V = record {
        values = [];
        frequency_bin = [];
        capacity = size;
        min_frequency = 0;
      } in
      let dec : LfuCache T V K = record {
        values = [];
        frequency_bin = [];
        capacity = size;
        min_frequency = 0;
      } in
      let c : LfUniCache S T K V = record {
        lfu_cache_encoder = enc;
        lfu_cache_decoder = dec;
        encoding = numbers.default;
        size = size;
      } in
      let sound : Sound size enc = record {
        valid = record { binned = λ k x e. ground (arith, e); known = λ n k h. ground (arith, h) };
        least = λ h. ground (arith, h);
        capacity = refl;
        fits = omega arith;
      } in
      let (ms, c', encodes, one_each, sound') =
        encode_all-Sound size fields c some_size refl sound in
      (c, ms, c', ground (arith, some_size), encodes, one_each, sound'.fits)
