-- ===== src/Unicache/Lfu/Field.antt =====
-- The cache of a field with least frequently used eviction: omnipaxos/src/unicache/lfu_cache.rs. A
-- `HashMap` is iterated in an order that is not specified: `order_of` gives it.
use omnipaxos.Prelude.{ℕ, Bool, Option, none, some, List, [], ◌∷◌, ◌==◌, if◌then◌else◌, ◌>>=◌}
use omnipaxos.Unicache.{MaybeEncoded, encoded, not_encoded, Increment}
use omnipaxos.Unicache.Lfu.{
  LinkedHashSet, LfuCache, with_capacity, len, iter, get, evict_and_return_key,
  evict_and_return_value, set,
}

pub record LfUniCache (S T K V : Type 0) : Type 0 where
  pub lfu_cache_encoder : LfuCache S K V
  pub lfu_cache_decoder : LfuCache T V K
  pub encoding : V
  pub size : ℕ

-- The pairs are set one after the other, with their sides exchanged.
unfoldable pub set_pairs :
    {T K V : Type 0}
    → LinkedHashSet T V
    → (V → V → Bool)
    → List (K × V)
    → LfuCache T V K
    → Option (LfuCache T V K)
set_pairs sets' eq_v [] decoder = some decoder
set_pairs sets' eq_v ((encodable, encoding) ∷ pairs) decoder = do
  decoder' ← set sets' eq_v encoding encodable decoder
  set_pairs sets' eq_v pairs decoder'

module _ {S T K V : Type 0} (sets : LinkedHashSet S K) (sets' : LinkedHashSet T V)
    (numbers : Increment V) (eq_k : K → K → Bool) (eq_v : V → V → Bool) where
  unfoldable pub new : ℕ → Option (LfUniCache S T K V)
  new size = do
    encoder ← with_capacity size
    decoder ← with_capacity size
    some (record {
      lfu_cache_encoder = encoder;
      lfu_cache_decoder = decoder;
      encoding = numbers.default;
      size = size;
    })

  -- What is sent to a follower: the pairs of the encoder, for its decoder.
  unfoldable pub clone :
      (List (K × V) → List (K × V)) → LfUniCache S T K V → Option (LfUniCache S T K V)
  unfolding set_pairs
  clone order_of c = do
    empty ← with_capacity c.size
    decoder ← set_pairs sets' eq_v (order_of (iter c.lfu_cache_encoder)) empty
    encoder ← with_capacity 1
    some (record {
      lfu_cache_encoder = encoder;
      lfu_cache_decoder = decoder;
      encoding = c.encoding;
      size = c.size;
    })

  unfoldable pub insert_encoder : K → LfUniCache S T K V → Option (LfUniCache S T K V)
  insert_encoder field c =
      if len c.lfu_cache_encoder == c.size
      then (do
        evicted ← evict_and_return_value sets eq_k c.lfu_cache_encoder
        popped_encoding ← evicted.0
        encoder ← set sets eq_k field popped_encoding evicted.1
        some (record c { lfu_cache_encoder = encoder }))
      else (do
        let added = numbers.add_one c.encoding
        encoder ← set sets eq_k field added c.lfu_cache_encoder
        some (record c { lfu_cache_encoder = encoder; encoding = added }))

  unfoldable pub try_encode :
      K → LfUniCache S T K V → Option (MaybeEncoded K V × LfUniCache S T K V)
  unfolding insert_encoder
  try_encode field c = do
    found ← get sets eq_k field c.lfu_cache_encoder
    let c' : LfUniCache S T K V = record c { lfu_cache_encoder = found.1 }
    elim found.0 [
      | some encoding ↦ some (encoded encoding, c')
      | none ↦ (do c'' ← insert_encoder field c'; some (not_encoded field, c''))
    ]

  unfoldable pub insert_decoder : K → LfUniCache S T K V → Option (LfUniCache S T K V)
  insert_decoder field c =
      if len c.lfu_cache_decoder == c.size
      then (do
        evicted ← evict_and_return_key sets' eq_v c.lfu_cache_decoder
        popped_encoded ← evicted.0
        decoder ← set sets' eq_v popped_encoded field evicted.1
        some (record c { lfu_cache_decoder = decoder }))
      else (do
        let added = numbers.add_one c.encoding
        decoder ← set sets' eq_v added field c.lfu_cache_decoder
        some (record c { lfu_cache_decoder = decoder; encoding = added }))

  unfoldable pub decode : MaybeEncoded K V → LfUniCache S T K V → Option (K × LfUniCache S T K V)
  unfolding insert_decoder
  decode (encoded encoding) c = do
    found ← get sets' eq_v encoding c.lfu_cache_decoder
    field ← found.0
    some (field, record c { lfu_cache_decoder = found.1 })
  decode (not_encoded field) c = do c' ← insert_decoder field c; some (field, c')
