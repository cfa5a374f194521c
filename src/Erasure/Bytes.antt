-- ===== src/Erasure/Bytes.antt =====
-- The length prefix and the padding of a payload: omnipaxos/src/erasure/ec_service.rs.
use omnipaxos.Prelude.{
  ℕ, ◌-◌, ◌*◌, ◌^◌, ◌≤◌, ◌<◌, ◌≡◌, List, length, take, replicate, arith, length-append, length-take,
  length-replicate,
}
use omnipaxos.Erasure.{to_be_bytes, from_be_bytes, resize, shard_size_of}

pub from_be_bytes-to_be_bytes : (n : ℕ) → n < 2 ^ 64 → from_be_bytes 0 (to_be_bytes n) ≡ n
unfolding from_be_bytes to_be_bytes
from_be_bytes-to_be_bytes n h = omega arith

-- The shards together are at least as long as the payload, and none is longer than needed.
pub shard_size_of_enough : (d len : ℕ) → 0 < d → len ≤ shard_size_of d len * d
unfolding shard_size_of
shard_size_of_enough d len h = grind arith

pub length-resize {ℓ} : {A : Type ℓ} (n : ℕ) (a : A) (xs : List A) → length (resize n a xs) ≡ n
unfolding resize
length-resize n a xs = omega (
  arith,
  length-append (take n xs) (replicate (n - length xs) a),
  length-take n xs,
  length-replicate (n - length xs) a,
)
