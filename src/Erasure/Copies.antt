-- ===== src/Erasure/Copies.antt =====
-- A code for the tests: one data shard, and copies of it as the parity shards.
use omnipaxos.Prelude.{
  ℕ, zero, suc, ◌≤◌, ◌≡◌, refl, subst, Option, none, some, List, [], ◌∷◌, ◌++◌, length, replicate,
  map, count_if, arith, ap, ◌∙◌, length-replicate,
}
use omnipaxos.Storage.Cache.{is_some}
use omnipaxos.Erasure.{RsResult, ok, err, ReedSolomon, EcService}
use omnipaxos.Erasure.Received.{Agrees}
use omnipaxos.Erasure.RoundTrip.{IsReedSolomon}

pub data Failure : Type 0 where
  too_few incorrect_size no_shard : Failure

unfoldable pub first_present : List (Option (List ℕ)) → Option (List ℕ)
first_present [] = none
first_present (none ∷ xs) = first_present xs
first_present (some x ∷ xs) = some x

unfoldable pub copies_encode : List (List ℕ) → RsResult Failure (List (List ℕ))
copies_encode [] = err no_shard
copies_encode (s ∷ ss) = ok (replicate (length (s ∷ ss)) s)

unfoldable pub copies_reconstruct :
    List (Option (List ℕ)) → RsResult Failure (List (Option (List ℕ)))
copies_reconstruct xs = elim (first_present xs) [
  | none ↦ err too_few
  | some x ↦ ok (replicate (length xs) (some x))
]

-- The parity shards are copies of the first data shard.
unfoldable pub copies : ReedSolomon (Unit {0}) Failure
copies = record {
  new = λ d p. ok tt;
  encode = λ rs. copies_encode;
  reconstruct = λ rs. copies_reconstruct;
  too_few_shards_present = too_few;
  incorrect_shard_size = incorrect_size;
}

unfoldable pub three : EcService (Unit {0})
three = record { data_shards = 1; parity_shards = 2; rs = tt }

agreed_copies :
    (n : ℕ) (s : List ℕ) (present : List (Option (List ℕ)))
    → Agrees (replicate n s) present
    → (length present ≡ n) × (1 ≤ count_if is_some present → first_present present ≡ some s)
unfolding Agrees first_present
agreed_copies zero s [] agrees = ground arith
agreed_copies zero s (x ∷ xs) agrees = absurd agrees
agreed_copies (suc n) s [] agrees = absurd agrees
agreed_copies (suc n) s (none ∷ xs) agrees = ground (arith, agreed_copies n s xs agrees)
agreed_copies (suc n) s (some x ∷ xs) agrees =
    (ap suc (agreed_copies n s xs agrees.1).0, λ h. ap some agrees.0)

map-replicate {ℓ κ} :
    {A : Type ℓ} {B : Type κ} (f : A → B) (n : ℕ) (a : A)
    → map f (replicate n a) ≡ replicate n (f a)
map-replicate f zero a = refl
map-replicate f (suc n) a = ap (◌∷◌ (f a)) (map-replicate f n a)

copies_encodes :
    (originals parity : List (List ℕ)) (n : ℕ)
    → length originals ≡ 1
    → length parity ≡ n
    → (coded : List (List ℕ)) × (copies_encode (originals ++ parity) ≡ ok (originals ++ coded))
      × (length coded ≡ n)
unfolding copies_encode
copies_encodes [] parity n one len = absurd (omega arith)
copies_encodes (s ∷ []) parity n one len =
    (replicate (length parity) s, refl, length-replicate (length parity) s ∙ len)
copies_encodes (s ∷ t ∷ rest) parity n one len = absurd (omega arith)

copies_reconstructs :
    (shards coded : List (List ℕ)) (present : List (Option (List ℕ)))
    → copies_encode shards ≡ ok coded
    → Agrees coded present
    → 1 ≤ count_if is_some present
    → copies_reconstruct present ≡ ok (map some coded)
unfolding copies_encode copies_reconstruct
copies_reconstructs [] coded present encoded agrees enough = cc
copies_reconstructs (s ∷ ss) coded present encoded agrees enough =
    let n = length (s ∷ ss) in
    let same : coded ≡ replicate n s = cc in
    let (len, found) = agreed_copies n s present (subst (λ xs. Agrees xs present) same agrees) in
    ground (
      arith,
      found enough,
      ap (map some) same,
      map-replicate {B = Option (List ℕ)} some n s,
      ap (λ k. replicate k (some s)) len,
    )

pub three-IsReedSolomon : IsReedSolomon copies three
unfolding copies three
three-IsReedSolomon = record {
  some_data = omega arith;
  encodes = λ originals parity size pos len len' sizes. copies_encodes originals parity 2 len len';
  reconstructs = copies_reconstructs;
}
