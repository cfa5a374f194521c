-- ===== src/Unicache.antt =====
-- The caches that replace a field by a short code: omnipaxos/src/unicache/mod.rs and
-- omnipaxos/src/unicache/lru_cache.rs. The cache of the library `lru` is a parameter, and `none` is
-- a panic.
pub mod Pairs
pub mod Lockstep
pub mod RoundTrip
pub mod Lfu
mod Tests
use omnipaxos.Prelude.{
  ℕ, suc, ◌+◌, ◌<◌, ◌≡◌, Bool, true, false, Option, none, some, List, [], ◌∷◌, length, ◌==◌,
  if◌then◌else◌, ◌>>=◌,
}

pub data MaybeEncoded (K V : Type 0) : Type 0 where
  encoded : V → MaybeEncoded K V
  not_encoded : K → MaybeEncoded K V

-- What the encodings are made of, the traits `Default`, `One` and `Add`: the first and the next.
pub record Increment (V : Type 0) : Type 0 where
  pub default : V
  pub add_one : V → V

-- `lru::LruCache` with the keys `K` and the values `V`, as far as it is used. `iter` goes from the
-- most recently used pair to the least.
pub record LruCache (L K V : Type 0) : Type 0 where
  pub new : ℕ → L
  pub len : L → ℕ
  pub iter : L → List (K × V)
  pub get : K → L → Option V × L
  pub push : K → V → L → L
  pub pop_lru : L → Option ((K × V) × L)

pub record LrUniCache (L M V : Type 0) : Type 0 where
  pub lru_cache_encoder : L
  pub lru_cache_decoder : M
  pub encoding : V
  pub size : ℕ

module _ {K V L M : Type 0} (enc : LruCache L K V) (dec : LruCache M V K)
    (numbers : Increment V) where
  unfoldable pub new : ℕ → Option (LrUniCache L M V)
  new size =
      if size == 0
      then none
      else some (record {
        lru_cache_encoder = enc.new size;
        lru_cache_decoder = dec.new size;
        encoding = numbers.default;
        size = size;
      })

  -- The pairs are pushed from the least recently used one on.
  unfoldable pub push_reversed : List (K × V) → M → M
  push_reversed [] cloned_decoder = cloned_decoder
  push_reversed ((encodable, encoding) ∷ pairs) cloned_decoder =
      dec.push encoding encodable (push_reversed pairs cloned_decoder)

  -- What is sent to a follower: the pairs of the encoder, for its decoder.
  unfoldable pub clone : LrUniCache L M V → Option (LrUniCache L M V)
  unfolding push_reversed
  clone c =
      if c.size == 0
      then none
      else some (record {
        lru_cache_encoder = enc.new 1;
        lru_cache_decoder = push_reversed (enc.iter c.lru_cache_encoder) (dec.new c.size);
        encoding = c.encoding;
        size = c.size;
      })

  -- A field that is not in the encoder takes the place of the least recently used one, with its
  -- encoding, or is added with the next encoding.
  unfoldable pub insert_encoder : K → LrUniCache L M V → Option (LrUniCache L M V)
  insert_encoder field c =
      if enc.len c.lru_cache_encoder == c.size
      then (do
        popped ← enc.pop_lru c.lru_cache_encoder
        some (record c { lru_cache_encoder = enc.push field popped.0.1 popped.1 }))
      else some (record c {
        lru_cache_encoder = enc.push field (numbers.add_one c.encoding) c.lru_cache_encoder;
        encoding = numbers.add_one c.encoding;
      })

  unfoldable pub try_encode : K → LrUniCache L M V → Option (MaybeEncoded K V × LrUniCache L M V)
  unfolding insert_encoder
  try_encode field c =
      let (found, encoder) = enc.get field c.lru_cache_encoder in
      let c' : LrUniCache L M V = record c { lru_cache_encoder = encoder } in
      elim found [
        | some encoding ↦ some (encoded encoding, c')
        | none ↦ (do c'' ← insert_encoder field c'; some (not_encoded field, c''))
      ]

  unfoldable pub insert_decoder : K → LrUniCache L M V → Option (LrUniCache L M V)
  insert_decoder field c =
      if dec.len c.lru_cache_decoder == c.size
      then (do
        popped ← dec.pop_lru c.lru_cache_decoder
        some (record c { lru_cache_decoder = dec.push popped.0.0 field popped.1 }))
      else some (record c {
        lru_cache_decoder = dec.push (numbers.add_one c.encoding) field c.lru_cache_decoder;
        encoding = numbers.add_one c.encoding;
      })

  unfoldable pub decode : MaybeEncoded K V → LrUniCache L M V → Option (K × LrUniCache L M V)
  unfolding insert_decoder
  decode (encoded encoding) c = do
    let result = dec.get encoding c.lru_cache_decoder
    field ← result.0
    some (field, record c { lru_cache_decoder = result.1 })
  decode (not_encoded field) c = do c' ← insert_decoder field c; some (field, c')
