-- ===== src/Erasure.antt =====
-- The erasure codes: omnipaxos/src/erasure/ec_service.rs and omnipaxos/src/erasure/log_entry.rs.
-- The Reed-Solomon library is a parameter, `none` is a panic, and `usize` has 64 bits.
pub mod Bytes
pub mod Shards
pub mod Received
pub mod RoundTrip
pub mod Indexes
pub mod Copies
pub mod Entry
mod Tests
use omnipaxos.Prelude.{
  ℕ, zero, suc, ◌+◌, ◌-◌, ◌*◌, ◌/◌, ◌%◌, ◌^◌, Bool, Option, none, some, List, [], ◌∷◌, ◌++◌, length,
  take, drop, set, replicate, get_elem?, count_if, ltb, leb, ◌==◌, if◌then◌else◌, ◌>>=◌,
}
use omnipaxos.Storage.Cache.{is_some}

-- The field `data`, whose name is a reserved word, is `bytes`.
pub record EntryFragment : Type 0 where
  pub idx : ℕ
  pub bytes : List ℕ

-- `Result`, with the errors `E` of the library.
pub data RsResult (E A : Type 0) : Type 0 where
  ok : A → RsResult E A
  err : E → RsResult E A

-- What the service calls of the library: the instance `R`, the errors, and the two codings.
pub record ReedSolomon (R E : Type 0) : Type 0 where
  pub new : ℕ → ℕ → RsResult E R
  pub encode : R → List (List ℕ) → RsResult E (List (List ℕ))
  pub reconstruct : R → List (Option (List ℕ)) → RsResult E (List (Option (List ℕ)))
  pub too_few_shards_present : E
  pub incorrect_shard_size : E

pub record EcService (R : Type 0) : Type 0 where
  pub data_shards : ℕ
  pub parity_shards : ℕ
  pub rs : R

-- `usize::to_be_bytes` and `usize::from_be_bytes`.
unfoldable pub to_be_bytes : ℕ → List ℕ
to_be_bytes n =
    n / 2 ^ 56 % 256
    ∷ n / 2 ^ 48 % 256
    ∷ n / 2 ^ 40 % 256
    ∷ n / 2 ^ 32 % 256
    ∷ n / 2 ^ 24 % 256
    ∷ n / 2 ^ 16 % 256
    ∷ n / 2 ^ 8 % 256
    ∷ n % 256
    ∷ []

unfoldable pub from_be_bytes : ℕ → List ℕ → ℕ
from_be_bytes acc [] = acc
from_be_bytes acc (b ∷ bs) = from_be_bytes (acc * 256 + b) bs

abbrev pub length_prefix_bytes : ℕ
length_prefix_bytes = 8

-- `Vec::resize`.
unfoldable pub resize {ℓ} : {A : Type ℓ} → ℕ → A → List A → List A
resize n a xs = take n xs ++ replicate (n - length xs) a

-- `xs[start..start + size]`, which panics out of bounds.
unfoldable pub slice {ℓ} : {A : Type ℓ} → ℕ → ℕ → List A → Option (List A)
slice start size xs =
    if leb (start + size) (length xs) then some (take size (drop start xs)) else none

-- The data shards from the `i`-th on, of a payload that is cut in shards of one size.
unfoldable pub cut : ℕ → ℕ → ℕ → List ℕ → Option (List (List ℕ))
unfolding slice
cut zero i size payload = some []
cut (suc n) i size payload = do
  shard ← slice (i * size) size payload
  rest ← cut n (i + 1) size payload
  some (shard ∷ rest)

unfoldable pub enumerate : ℕ → List (List ℕ) → List EntryFragment
enumerate i [] = []
enumerate i (shard ∷ shards) = record { idx = i; bytes = shard } ∷ enumerate (i + 1) shards

unfoldable pub shard_size_of : ℕ → ℕ → ℕ
shard_size_of data_shards payload_len = (payload_len + data_shards - 1) / data_shards

-- The payload of a value: its length, the value, and zeros up to the length of all data shards.
unfoldable pub padded : ℕ → List ℕ → List ℕ
unfolding to_be_bytes resize
padded padded_len value = resize padded_len 0 (to_be_bytes (length value) ++ value)

-- `shards[fragment.idx] = Some(...)`, for each fragment whose index is in range.
unfoldable pub place : List EntryFragment → List (Option (List ℕ)) → List (Option (List ℕ))
place [] shards = shards
place (f ∷ fs) shards =
    place fs (if ltb f.idx (length shards) then set shards f.idx (some f.bytes) else shards)

-- The first shards, one after the other; `unwrap` panics on one that is missing.
unfoldable pub join : ℕ → List (Option (List ℕ)) → Option (List ℕ)
join zero shards = some []
join (suc n) [] = none
join (suc n) (shard ∷ shards) = do bytes ← shard; rest ← join n shards; some (bytes ++ rest)

unfoldable pub fragment_index_for_node : ℕ → ℕ → ℕ
fragment_index_for_node node_id total_shards = node_id % total_shards

module _ {R E : Type 0} (lib : ReedSolomon R E) where
  unfoldable pub new_service : ℕ → ℕ → RsResult E (EcService R)
  new_service data_shards parity_shards = elim (lib.new data_shards parity_shards) [
    | ok rs ↦ ok (record { data_shards = data_shards; parity_shards = parity_shards; rs = rs })
    | err e ↦ err e
  ]

  -- What is left of `encode` once the data shards are cut.
  unfoldable pub encode_shards : EcService R → List (List ℕ) → Option (List EntryFragment)
  unfolding enumerate
  encode_shards service shards = elim (lib.encode service.rs shards) [
    | ok coded ↦ some (enumerate 0 coded)
    | err e ↦ none
  ]

  -- The result is never an error: where the library fails, `expect` panics.
  unfoldable pub encode : EcService R → List ℕ → Option (List EntryFragment)
  unfolding padded shard_size_of cut encode_shards
  encode service value =
      let d = service.data_shards in
      let size = shard_size_of d (length_prefix_bytes + length value) in
      if d == 0 then none else (do
        shards ← cut d 0 size (padded (size * d) value)
        encode_shards service (shards ++ replicate service.parity_shards (replicate size 0)))

  -- What is left of `decode` once the payload is put together. The sum may wrap around.
  unfoldable pub unpack : List ℕ → RsResult E (List ℕ)
  unfolding from_be_bytes
  unpack payload =
      let original_len = from_be_bytes 0 (take length_prefix_bytes payload) in
      if ltb (length payload) length_prefix_bytes
      then err lib.incorrect_shard_size
      else if ltb (length payload) ((original_len + length_prefix_bytes) % 2 ^ 64)
      then err lib.incorrect_shard_size
      else ok (take original_len (drop length_prefix_bytes payload))

  unfoldable pub decode_shards : EcService R → List (Option (List ℕ)) → Option (RsResult E (List ℕ))
  unfolding join unpack
  decode_shards service shards = elim (lib.reconstruct service.rs shards) [
    | ok coded ↦ (do payload ← join service.data_shards coded; some (unpack payload))
    | err e ↦ some (err e)
  ]

  unfoldable pub decode : EcService R → List EntryFragment → Option (RsResult E (List ℕ))
  unfolding place decode_shards
  decode service fragments =
      let total_shards = service.data_shards + service.parity_shards in
      let shards = place fragments (replicate total_shards none) in
      if ltb (count_if is_some shards) service.data_shards
      then some (err lib.too_few_shards_present)
      else decode_shards service shards
