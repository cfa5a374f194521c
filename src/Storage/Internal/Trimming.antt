-- ===== src/Storage/Internal/Trimming.antt =====
-- How far a trim goes, and what it leaves: `try_trim` of
-- omnipaxos/src/storage/internal_storage.rs.
use omnipaxos.Prelude.{
  ℕ, ◌+◌, ◌-◌, ◌≤◌, ◌<◌, ◌≡◌, refl, sym, ap, ◌∙◌, inl, inr, true, false, List, [], ◌∷◌, length,
  drop, drop_all, min, max, leb, ltb, if◌then◌else◌, arith, Bool-cases,
}
use omnipaxos.Word.{sub_u64, sub_u64_lem}
use omnipaxos.Storage.{CompactionErr, StorageOp, ok, err}
use omnipaxos.Storage.Internal.{
  InternalStorage, stopsign_is_decided, get_decided_idx_without_stopsign,
}
use omnipaxos.Storage.Internal.Agreement.{IsValid}
use omnipaxos.Storage.Internal.Compaction.{new_compacted_idx, compact_to, trim_to, try_trim}

drop-min {ℓ} : {A : Type ℓ} (n : ℕ) (xs : List A) → drop (min n (length xs)) xs ≡ drop n xs
drop-min n xs = elim (Bool-cases (leb n (length xs))) [
  | inl fits ↦ let same : min n (length xs) ≡ n = ground (arith, fits) in ap (λ k. drop k xs) same
  | inr beyond ↦
      drop_all (min n (length xs)) xs (ground (arith, beyond))
      ∙ sym (drop_all n xs (ground (arith, beyond)))
]

module _ {T C S : Type 0} where
  new_compacted_idx_bounded :
      (k : ℕ) (st : InternalStorage T C S)
      → IsValid st
      → k ≤ st.state_cache.decided_idx
      → (i : ℕ) × (new_compacted_idx k st ≡ ok i) × (i ≤ k) × (k ≤ i + 1)
  unfolding new_compacted_idx get_decided_idx_without_stopsign stopsign_is_decided sub_u64
  new_compacted_idx_bounded k st v le = elim (Bool-cases (ltb k st.state_cache.decided_idx)) [
    | inl less ↦ (k, ground (arith, less), omega arith, omega arith)
    | inr same ↦ (
      get_decided_idx_without_stopsign st,
      ground (arith, same, le),
      ground (arith, same, le, v.accepted),
      ground (arith, same, le, v.accepted),
    )
  ]

  trim_to_bounded :
      (i k : ℕ) (st : InternalStorage T C S)
      → i ≤ k
      → k ≤ i + 1
      → ((trim_to i st).state_cache.compacted_idx ≤ max st.state_cache.compacted_idx k)
        × (k ≤ (trim_to i st).state_cache.compacted_idx + 1)
  unfolding trim_to compact_to
  trim_to_bounded i k st le near = ground (arith, le, near)

  log-trim_to :
      (i : ℕ) (st : InternalStorage T C S)
      → IsValid st
      → (trim_to i st).storage.log
        ≡ drop
            ((trim_to i st).state_cache.compacted_idx - st.state_cache.compacted_idx)
            st.storage.log
  unfolding trim_to compact_to
  log-trim_to i st v =
      let old = st.state_cache.compacted_idx in
      let ops = StorageOp.trim i ∷ StorageOp.set_compacted_idx i ∷ [] in
      elim (ltb old i)
          as (λ b.
            ltb old i ≡ b
            → let st' = if b then compact_to i ops st else st in
              st'.storage.log ≡ drop (st'.state_cache.compacted_idx - old) st.storage.log) [
                | true ↦ λ more.
                    let amount : sub_u64 i st.storage.trimmed_idx ≡ i - old =
                      ground (
                        arith,
                        sub_u64_lem i st.storage.trimmed_idx,
                        v.trimmed,
                        v.compacted,
                        more,
                      ) in
                    drop-min (sub_u64 i st.storage.trimmed_idx) st.storage.log
                    ∙ ap (λ n. drop n st.storage.log) amount
                | false ↦ λ no_more.
                    let nothing : 0 ≡ old - old = omega arith in
                    ap (λ n. drop n st.storage.log) nothing
              ]
        refl

  pub try_trim_ok :
      (k : ℕ) (st : InternalStorage T C S)
      → IsValid st
      → k ≤ st.state_cache.decided_idx
      → (st' : InternalStorage T C S) × (try_trim k st ≡ ok st')
        × (st'.state_cache.compacted_idx ≤ max st.state_cache.compacted_idx k)
        × (k ≤ st'.state_cache.compacted_idx + 1)
        × (st'.storage.log
            ≡ drop (st'.state_cache.compacted_idx - st.state_cache.compacted_idx) st.storage.log)
  unfolding try_trim
  try_trim_ok k st v le =
      let (i, e, le_k, near) = new_compacted_idx_bounded k st v le in
      let (bounded, reached) = trim_to_bounded i k st le_k near in
      (trim_to i st, ground (arith, e), bounded, reached, log-trim_to i st v)

  pub try_trim_err :
      (k : ℕ) (st : InternalStorage T C S)
      → st.state_cache.decided_idx < k
      → (e : CompactionErr) × (try_trim k st ≡ err e)
  unfolding try_trim new_compacted_idx
  try_trim_err k st less =
      (CompactionErr.undecided_index st.state_cache.decided_idx, ground (arith, less))
