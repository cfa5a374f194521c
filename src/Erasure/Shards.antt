-- ===== src/Erasure/Shards.antt =====
-- The shards of a payload, and the payload of the shards: omnipaxos/src/erasure/ec_service.rs.
use omnipaxos.Prelude.{
  ℕ, zero, suc, ◌+◌, ◌*◌, ◌≤◌, ◌≡◌, refl, some, List, [], ◌∷◌, ◌++◌, All, length, take, drop, map,
  arith, ap, sym, ◌∙◌, length-take, length-drop, drop-drop, take_all, take_nil, le→leb, ◌>>=◌,
}
use omnipaxos.Erasure.{slice, cut, join}

-- What is cut can be joined, whatever shards come after.
abbrev pub IsCut : ℕ → ℕ → List ℕ → List (List ℕ) → Type 0
IsCut n size payload shards =
    (length shards ≡ n)
    × All (λ s. length s ≡ size) shards
    × ((rest : List (List ℕ)) → join n (map some (shards ++ rest)) ≡ some (take (n * size) payload))

pub slice_lem {ℓ} :
    {A : Type ℓ} (start size : ℕ) (xs : List A)
    → start + size ≤ length xs
    → slice start size xs ≡ some (take size (drop start xs))
unfolding slice
slice_lem start size xs h = ground (arith, le→leb (start + size) (length xs) h)

pub take-add {ℓ} :
    {A : Type ℓ} (n m : ℕ) (xs : List A) → take n xs ++ take m (drop n xs) ≡ take (n + m) xs
take-add zero m xs = ap (λ k. take k xs) (omega arith)
take-add (suc n) m [] = take_nil m ∙ sym (take_nil (suc n + m))
take-add (suc n) m (x ∷ xs) =
    let e : suc (n + m) ≡ suc n + m = omega arith in
    ap (◌∷◌ x) (take-add n m xs) ∙ ap (λ k. take k (x ∷ xs)) e

-- One more shard in front of those that are cut from behind it.
take-next {ℓ} :
    {A : Type ℓ} (n i size : ℕ) (payload : List A)
    → take size (drop (i * size) payload) ++ take (n * size) (drop ((i + 1) * size) payload)
      ≡ take (suc n * size) (drop (i * size) payload)
take-next n i size payload =
    let after : (i + 1) * size ≡ i * size + size = grind arith in
    let total : size + n * size ≡ suc n * size = grind arith in
    let from = drop (i * size) payload in
    ap (λ k. take size from ++ take (n * size) (drop k payload)) after
    ∙ ap (λ ys. take size from ++ take (n * size) ys) (sym (drop-drop size (i * size) payload))
    ∙ take-add size (n * size) from
    ∙ ap (λ k. take k from) total

pub cut-IsCut :
    (n i size : ℕ) (payload : List ℕ)
    → (i + n) * size ≤ length payload
    → (shards : List (List ℕ)) × (cut n i size payload ≡ some shards)
      × IsCut n size (drop (i * size) payload) shards
unfolding cut join
cut-IsCut zero i size payload h =
    let nothing : 0 ≡ 0 * size = grind arith in
    ([], refl, (refl, tt, λ rest. ap (λ k. some (take k (drop (i * size) payload))) nothing))
cut-IsCut (suc n) i size payload h =
    let (rest, cut_rest, (len, sizes, joined)) = cut-IsCut n (i + 1) size payload (grind arith) in
    let from = drop (i * size) payload in
    let shard = take size from in
    let sliced = slice_lem (i * size) size payload (grind arith) in
    let long : length shard ≡ size =
      grind (arith, length-take size from, length-drop (i * size) payload) in
    (
      shard ∷ rest,
      ap (λ o. o >>= λ s. cut n (i + 1) size payload >>= λ ss. some (s ∷ ss)) sliced
          ∙ ap (λ o. o >>= λ ss. some (shard ∷ ss)) cut_rest,
      (
        ap suc len,
        (long, sizes),
        λ more.
            ap (λ o. o >>= λ bytes. some (shard ++ bytes)) (joined more)
            ∙ ap some (take-next n i size payload),
      ),
    )

-- A payload that is a number of shards long is cut as a whole.
pub cut_whole :
    (n size : ℕ) (payload : List ℕ)
    → length payload ≡ n * size
    → (shards : List (List ℕ)) × (cut n 0 size payload ≡ some shards)
      × (length shards ≡ n)
      × All (λ s. length s ≡ size) shards
      × ((rest : List (List ℕ)) → join n (map some (shards ++ rest)) ≡ some payload)
cut_whole n size payload h =
    let (shards, runs, (len, sizes, joined)) = cut-IsCut n 0 size payload (grind arith) in
    let start : 0 * size ≡ 0 = grind arith in
    let whole : take (n * size) (drop (0 * size) payload) ≡ payload =
      ap (λ k. take (n * size) (drop k payload)) start
      ∙ take_all (n * size) payload (omega arith) in
    (shards, runs, len, sizes, λ rest. joined rest ∙ ap some whole)
