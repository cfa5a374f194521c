-- ===== src/Erasure/Tests.antt =====
-- The erasure codes at a code of one data shard and two copies of it.
use omnipaxos.Prelude.{ℕ, ◌≡◌, refl, subst, some, List, [], ◌∷◌, All, get_elem?, arith}
use omnipaxos.Erasure.{EntryFragment, ok, err, encode, decode}
use omnipaxos.Erasure.Copies.{too_few, copies_encode, copies, three, three-IsReedSolomon}
use omnipaxos.Erasure.RoundTrip.{decode-encode, decode_too_few}

abbrev shard : List ℕ
shard = 0 ∷ 0 ∷ 0 ∷ 0 ∷ 0 ∷ 0 ∷ 0 ∷ 3 ∷ 7 ∷ 8 ∷ 9 ∷ []

abbrev value : List ℕ
value = 7 ∷ 8 ∷ 9 ∷ []

abbrev fragment : ℕ → EntryFragment
fragment i = record { idx = i; bytes = shard }

encode_runs : encode copies three value ≡ some (fragment 0 ∷ fragment 1 ∷ fragment 2 ∷ [])
unfolding copies three copies_encode encode
encode_runs = refl

-- Only the last fragment has arrived, and twice.
decode-encode_example :
    decode copies three (fragment 2 ∷ fragment 2 ∷ []) ≡ some (ok (7 ∷ 8 ∷ 9 ∷ []))
unfolding three
decode-encode_example =
    let (fragments, runs, decodes) =
      decode-encode copies three value (omega arith) three-IsReedSolomon in
    let same : fragment 0 ∷ fragment 1 ∷ fragment 2 ∷ [] ≡ fragments = cc (runs, encode_runs) in
    decodes (fragment 2 ∷ fragment 2 ∷ [])
      (subst (λ fs. All (λ f. get_elem? fs f.idx ≡ some f) (fragment 2 ∷ fragment 2 ∷ [])) same
        (refl, (refl, tt)))
      (omega arith)

decode_too_few_example : decode copies three [] ≡ some (err too_few)
unfolding copies three
decode_too_few_example = decode_too_few copies three [] (omega arith)
