-- ===== src/Erasure/RoundTrip.antt =====
-- The value that any large enough part of its fragments gives back:
-- omnipaxos/src/erasure/ec_service.rs.
use omnipaxos.Prelude.{
  ℕ, zero, suc, ◌+◌, ◌-◌, ◌*◌, ◌^◌, ◌≤◌, ◌<◌, ◌≡◌, subst, Option, none, some, List, [], ◌∷◌, ◌++◌,
  take_all, take-append, append_assoc, All, length, take, replicate, map, get_elem?, count_if,
  arith, ap, ◌∙◌, length-append, length-replicate,
}
use omnipaxos.Storage.Cache.{is_some}
use omnipaxos.Erasure.{
  to_be_bytes, from_be_bytes, resize, EntryFragment, ok, err, ReedSolomon, EcService, enumerate,
  shard_size_of, padded, cut, join, encode_shards, encode, place, unpack, decode_shards, decode,
  length_prefix_bytes,
}
use omnipaxos.Erasure.Bytes.{from_be_bytes-to_be_bytes, shard_size_of_enough, length-resize}
use omnipaxos.Erasure.Shards.{cut_whole}
use omnipaxos.Erasure.Received.{
  Agrees, distinct_indexes, place-Agrees, count_if-place, get_elem?-enumerate,
}

-- What the documentation of the library promises of an instance for `d` data and `p` parity
-- shards: shards of one size are encoded, and the data shards stay as they are; what agrees with a
-- code word in at least `d` shards is completed to it.
pub record IsReedSolomon {R E : Type 0} (lib : ReedSolomon R E) (service : EcService R)
    : Type 0 where
  pub some_data : 0 < service.data_shards
  pub encodes :
      (originals parity : List (List ℕ)) (size : ℕ)
      → 0 < size
      → length originals ≡ service.data_shards
      → length parity ≡ service.parity_shards
      → All (λ s. length s ≡ size) (originals ++ parity)
      → (coded : List (List ℕ)) × (lib.encode service.rs (originals ++ parity)
          ≡ ok (originals ++ coded))
        × (length coded ≡ service.parity_shards)
  pub reconstructs :
      (shards coded : List (List ℕ)) (present : List (Option (List ℕ)))
      → lib.encode service.rs shards ≡ ok coded
      → Agrees coded present
      → service.data_shards ≤ count_if is_some present
      → lib.reconstruct service.rs present ≡ ok (map some coded)

All-append {ℓ κ} :
    {A : Type ℓ} (P : A → Type κ) (xs ys : List A) → All P xs → All P ys → All P (xs ++ ys)
All-append P [] ys hx hy = hy
All-append P (x ∷ xs) ys hx hy = (hx.0, All-append P xs ys hx.1 hy)

All-replicate {ℓ κ} : {A : Type ℓ} (P : A → Type κ) (n : ℕ) (a : A) → P a → All P (replicate n a)
All-replicate P zero a h = tt
All-replicate P (suc n) a h = (h, All-replicate P n a h)

All-map {ℓ κ κ'} :
    {A : Type ℓ} (P : A → Type κ) (Q : A → Type κ') (xs : List A)
    → ((x : A) → P x → Q x)
    → All P xs
    → All Q xs
All-map P Q [] f h = tt
All-map P Q (x ∷ xs) f h = (f x h.0, All-map P Q xs f h.1)

none-Agrees : (coded : List (List ℕ)) → Agrees coded (replicate (length coded) none)
unfolding Agrees
none-Agrees [] = tt
none-Agrees (c ∷ cs) = none-Agrees cs

-- A payload is the prefix, the value and some zeros.
padded_eq :
    (n : ℕ) (value : List ℕ)
    → length_prefix_bytes + length value ≤ n
    → (zeros : List ℕ) × (padded n value ≡ to_be_bytes (length value) ++ (value ++ zeros))
unfolding padded resize to_be_bytes
padded_eq n value long =
    let prefixed = to_be_bytes (length value) ++ value in
    let zeros : List ℕ = replicate (n - length prefixed) 0 in
    (
      zeros,
      ap (λ xs. xs ++ zeros) (take_all n prefixed (omega arith))
          ∙ append_assoc (to_be_bytes (length value)) value zeros,
    )

length-padded : (n : ℕ) (value : List ℕ) → length (padded n value) ≡ n
unfolding padded
length-padded n value = length-resize n 0 (to_be_bytes (length value) ++ value)

module _ {R E : Type 0} (lib : ReedSolomon R E) (service : EcService R) where
  -- The payload of a value gives the value back.
  unpack-append :
      (value rest : List ℕ)
      → length value + length_prefix_bytes < 2 ^ 64
      → unpack lib (to_be_bytes (length value) ++ (value ++ rest)) ≡ ok value
  unfolding unpack to_be_bytes
  unpack-append value rest h =
      let len : from_be_bytes 0 (to_be_bytes (length value)) ≡ length value =
        from_be_bytes-to_be_bytes (length value) (omega arith) in
      let whole : take (length value) (value ++ rest) ≡ value =
        take-append (length value) value rest (omega arith)
        ∙ take_all (length value) value (omega arith) in
      ground (arith, len, whole, length-append value rest)

  encode_shards_eq :
      (shards coded : List (List ℕ))
      → lib.encode service.rs shards ≡ ok coded
      → encode_shards lib service shards ≡ some (enumerate 0 coded)
  unfolding encode_shards
  encode_shards_eq shards coded encoded = ground (arith, encoded)

  decode_shards_eq :
      (present coded : List (Option (List ℕ))) (payload : List ℕ)
      → lib.reconstruct service.rs present ≡ ok coded
      → join service.data_shards coded ≡ some payload
      → decode_shards lib service present ≡ some (unpack lib payload)
  unfolding decode_shards
  decode_shards_eq present coded payload completed joined = ground (arith, completed, joined)

  -- The code word of a value, from the shards that are cut and those that are added.
  encode_eq :
      (value : List ℕ) (originals coded : List (List ℕ))
      → let size = shard_size_of service.data_shards (length_prefix_bytes + length value) in
        0 < service.data_shards
        → cut service.data_shards 0 size (padded (size * service.data_shards) value)
          ≡ some originals
        → lib.encode service.rs (originals ++ replicate service.parity_shards (replicate size 0))
          ≡ ok coded
        → encode lib service value ≡ some (enumerate 0 coded)
  unfolding encode
  encode_eq value originals coded pos cut_originals encoded =
      let size = shard_size_of service.data_shards (length_prefix_bytes + length value) in
      let parity : List (List ℕ) = replicate service.parity_shards (replicate size 0) in
      ground (arith, cut_originals, encode_shards_eq (originals ++ parity) coded encoded)

  -- Every value has a code word, whose data shards hold its payload.
  pub encoded_word :
      (value : List ℕ)
      → IsReedSolomon lib service
      → (shards coded : List (List ℕ)) × (encode lib service value ≡ some (enumerate 0 coded))
        × (lib.encode service.rs shards ≡ ok coded)
        × (length coded ≡ service.data_shards + service.parity_shards)
        × (n : ℕ) × (length_prefix_bytes + length value ≤ n)
        × (join service.data_shards (map some coded) ≡ some (padded n value))
  encoded_word value law =
      let d = service.data_shards in
      let size = shard_size_of d (length_prefix_bytes + length value) in
      let zeros : List ℕ = replicate size 0 in
      let parity : List (List ℕ) = replicate service.parity_shards zeros in
      let enough = shard_size_of_enough d (length_prefix_bytes + length value) law.some_data in
      let (originals, cut_originals, len, sizes, joined) =
        cut_whole d size (padded (size * d) value)
          (grind (arith, length-padded (size * d) value)) in
      let (coded, encoded, len_coded) =
        law.encodes originals parity size (grind (arith, enough)) len
          (length-replicate service.parity_shards zeros)
          (All-append (λ s. length s ≡ size) originals parity sizes
            (All-replicate (λ s. length s ≡ size) service.parity_shards zeros
              (length-replicate size 0))) in
      (
        originals ++ parity,
        originals ++ coded,
        encode_eq value originals (originals ++ coded) law.some_data cut_originals encoded,
        encoded,
        omega (arith, length-append originals coded, len, len_coded),
        size * d,
        enough,
        joined coded,
      )

  -- Every value is encoded without a panic, and any of its fragments, in any order and however
  -- often they arrive, decode to the value once they have as many different indexes as there are
  -- data shards. The length of the value and its prefix fits into `usize`, and the library keeps
  -- what it promises.
  pub decode-encode :
      (value : List ℕ)
      → length value + length_prefix_bytes < 2 ^ 64
      → IsReedSolomon lib service
      → (fragments : List EntryFragment) × (encode lib service value ≡ some fragments)
        × ((received : List EntryFragment)
            → All (λ f. get_elem? fragments f.idx ≡ some f) received
            → service.data_shards
              ≤ distinct_indexes (service.data_shards + service.parity_shards) received
            → decode lib service received ≡ some (ok value))
  unfolding decode
  decode-encode value h law =
      let (shards, coded, runs, encoded, len, n, long, joined) = encoded_word value law in
      let total = service.data_shards + service.parity_shards in
      let (zeros, split) = padded_eq n value long in
      let unpacked : unpack lib (padded n value) ≡ ok value =
        ap (unpack lib) split ∙ unpack-append value zeros h in
      (
        enumerate 0 coded,
        runs,
        λ received known enough.
            let placed = place received (replicate total none) in
            let counted = count_if-place received total in
            let agrees : Agrees coded placed =
              place-Agrees coded received (replicate total none)
                (All-map (λ f. get_elem? (enumerate 0 coded) f.idx ≡ some f)
                  (λ f. get_elem? coded f.idx ≡ some f.bytes) received
                  (λ f. get_elem?-enumerate 0 f.idx coded f) known)
                (subst (λ k. Agrees coded (replicate k none)) len (none-Agrees coded)) in
            let completed =
              law.reconstructs shards coded placed encoded agrees
                (omega (arith, counted, enough)) in
            let decoded =
              decode_shards_eq placed (map some coded) (padded n value) completed joined in
            ground (arith, counted, enough, decoded, unpacked),
      )

  -- Fragments of fewer indexes than there are data shards are refused, whatever they hold.
  pub decode_too_few :
      (received : List EntryFragment)
      → distinct_indexes (service.data_shards + service.parity_shards) received
        < service.data_shards
      → decode lib service received ≡ some (err lib.too_few_shards_present)
  unfolding decode
  decode_too_few received few =
      ground (arith, count_if-place received (service.data_shards + service.parity_shards))
