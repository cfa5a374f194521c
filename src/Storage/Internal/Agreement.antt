-- ===== src/Storage/Internal/Agreement.antt =====
-- The cache of `InternalStorage` and what it caches, under the appends and the setters
-- (omnipaxos/src/storage/internal_storage.rs).
use omnipaxos.Prelude.{
  ℕ, ◌+◌, ◌≤◌, ◌≡◌, Option, none, some, List, [], ◌∷◌, ◌++◌, length, length-append, arith,
}
use omnipaxos.Word.{sub_u64_lem}
use omnipaxos.Ballot.{Ballot}
use omnipaxos.Storage.{StopSign}
use omnipaxos.Storage.Internal.{
  InternalStorage, or_default, stopsign_len, append_entries_without_batching,
  append_entry_with_batching, append_entries_with_batching, append_stopsign,
  append_entries_and_get_accepted_idx, flush_batch, flush_batch_and_get_entries, set_promise,
  set_decided_idx, set_stopsign,
}

module _ {T C S : Type 0} where
  -- The cache holds what the storage holds, and the positions are in order.
  pub record IsValid (st : InternalStorage T C S) : Type 0 where
    pub promise : st.state_cache.promise ≡ or_default st.storage.n_prom
    pub round : st.state_cache.accepted_round ≡ or_default st.storage.acc_round
    pub decided : st.state_cache.decided_idx ≡ st.storage.ld
    pub compacted : st.state_cache.compacted_idx ≡ st.storage.compacted_idx
    pub trimmed : st.storage.trimmed_idx ≡ st.storage.compacted_idx
    pub stopsign : st.state_cache.stopsign ≡ st.storage.stopsign
    pub accepted :
        st.state_cache.accepted_idx
        ≡ length st.storage.log + st.storage.compacted_idx + stopsign_len st.storage.stopsign
    pub decided_le : st.state_cache.decided_idx ≤ st.state_cache.accepted_idx

  pub append_entries_without_batching-IsValid :
      (entries : List T) (st : InternalStorage T C S)
      → IsValid st
      → IsValid (append_entries_without_batching entries st).1
  unfolding append_entries_without_batching
  append_entries_without_batching-IsValid entries st v =
      ground (arith, length-append st.storage.log entries)

  pub append_entry_with_batching-IsValid :
      (e : T) (st : InternalStorage T C S)
      → IsValid st
      → IsValid (append_entry_with_batching e st).1
  unfolding append_entry_with_batching
  append_entry_with_batching-IsValid e st v =
      ground (arith, length-append st.storage.log (st.state_cache.batched_entries ++ e ∷ []))

  pub append_entries_with_batching-IsValid :
      (es : List T) (st : InternalStorage T C S)
      → IsValid st
      → IsValid (append_entries_with_batching es st).1
  unfolding append_entries_with_batching
  append_entries_with_batching-IsValid es st v =
      ground (arith, length-append st.storage.log (st.state_cache.batched_entries ++ es))

  pub append_entries_and_get_accepted_idx-IsValid :
      (es : List T) (st : InternalStorage T C S)
      → IsValid st
      → IsValid (append_entries_and_get_accepted_idx es st).1
  unfolding append_entries_and_get_accepted_idx
  append_entries_and_get_accepted_idx-IsValid es st v =
      ground (arith, length-append st.storage.log (st.state_cache.batched_entries ++ es))

  pub flush_batch-IsValid : (st : InternalStorage T C S) → IsValid st → IsValid (flush_batch st).1
  unfolding flush_batch
  flush_batch-IsValid st v =
      ground (arith, length-append st.storage.log st.state_cache.batched_entries)

  pub flush_batch_and_get_entries-IsValid :
      (st : InternalStorage T C S) → IsValid st → IsValid (flush_batch_and_get_entries st).1
  unfolding flush_batch_and_get_entries
  flush_batch_and_get_entries-IsValid st v =
      ground (arith, length-append st.storage.log st.state_cache.batched_entries)

  pub set_promise-IsValid :
      (b : Ballot) (st : InternalStorage T C S) → IsValid st → IsValid (set_promise b st)
  unfolding set_promise
  set_promise-IsValid b st v = ground arith

  pub set_decided_idx-IsValid :
      (idx : ℕ) (st : InternalStorage T C S)
      → idx ≤ st.state_cache.accepted_idx
      → IsValid st
      → IsValid (set_decided_idx idx st)
  unfolding set_decided_idx
  set_decided_idx-IsValid idx st le v = ground arith

  pub append_stopsign-IsValid :
      (ss : StopSign C) (st : InternalStorage T C S)
      → st.state_cache.stopsign ≡ none
      → IsValid st
      → IsValid (append_stopsign ss st).1
  unfolding append_stopsign
  append_stopsign-IsValid ss st free v =
      ground (arith, length-append st.storage.log st.state_cache.batched_entries)

  pub set_stopsign-IsValid :
      (ss : Option (StopSign C)) (st : InternalStorage T C S)
      → IsValid st
      → st.state_cache.decided_idx ≤ length st.storage.log + st.storage.compacted_idx
      → IsValid (set_stopsign ss st).1
  unfolding set_stopsign
  set_stopsign-IsValid none st v le = ground (arith, sub_u64_lem st.state_cache.accepted_idx 1)
  set_stopsign-IsValid (some s) st v le = ground (arith, sub_u64_lem st.state_cache.accepted_idx 1)
