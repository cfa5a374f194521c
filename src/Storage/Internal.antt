-- ===== src/Storage/Internal.antt =====
-- `InternalStorage` of omnipaxos/src/storage/internal_storage.rs over the storage in memory: the
-- cache, the appends with and without batching, the setters. Compaction and the proofs are children.
pub mod Compaction
pub mod Read
pub mod Agreement
pub mod Recovery
pub mod Reach
pub mod History
pub mod Plain
pub mod Trimming
pub mod Sync
pub mod Batching
mod Tests
use omnipaxos.Prelude.{
  ℕ, ◌+◌, Bool, true, false, not, ◌&&◌, Option, none, some, List, [], ◌∷◌, length, is_empty,
  if◌then◌else◌,
}
use omnipaxos.Word.{sub_u64}
use omnipaxos.Ballot
use omnipaxos.Ballot.{Ballot}
use omnipaxos.Storage.{StopSign}
use omnipaxos.Storage.Memory
use omnipaxos.Storage.Memory.{MemoryStorage}
use omnipaxos.Storage.Cache
use omnipaxos.Storage.Cache.{StateCache, is_some}

pub record InternalStorage (T C S : Type 0) : Type 0 where
  pub storage : MemoryStorage T C S
  pub state_cache : StateCache T C

-- `AcceptedMetaData` of omnipaxos/src/util.rs.
pub record AcceptedMetaData (T : Type 0) : Type 0 where
  pub accepted_idx : ℕ
  pub entries : List T

-- `Option::unwrap_or_default` at a ballot.
abbrev pub or_default : Option Ballot → Ballot
or_default none = Ballot.default
or_default (some b) = b

-- A stopsign takes one position of the log.
abbrev pub stopsign_len {ℓ} : {A : Type ℓ} → Option A → ℕ
stopsign_len ss = if is_some ss then 1 else 0

module _ {T C S : Type 0} where
  unfoldable pub load_cache : InternalStorage T C S → InternalStorage T C S
  load_cache st =
      let s = st.storage in
      record st {
        state_cache = record (st.state_cache) {
          promise = or_default s.n_prom;
          decided_idx = s.ld;
          accepted_round = or_default s.acc_round;
          compacted_idx = s.compacted_idx;
          stopsign = s.stopsign;
          accepted_idx = Memory.get_log_len s + s.compacted_idx + stopsign_len s.stopsign;
        };
      }

  -- `InternalStorage::with`.
  unfoldable pub with_storage : MemoryStorage T C S → ℕ → InternalStorage T C S
  unfolding load_cache Cache.new
  with_storage storage batch_size =
      load_cache (record { storage = storage; state_cache = Cache.new batch_size })

  unfoldable pub append_entries_without_batching :
      List T → InternalStorage T C S → ℕ × InternalStorage T C S
  unfolding Memory.append_entries
  append_entries_without_batching entries st =
      let accepted_idx = st.state_cache.accepted_idx + length entries in
      (
        accepted_idx,
        record st {
          storage = Memory.append_entries entries st.storage;
          state_cache = record (st.state_cache) { accepted_idx = accepted_idx };
        },
      )

  unfoldable pub flush_if_full_batch :
      Option (List T) → InternalStorage T C S → Option (AcceptedMetaData T) × InternalStorage T C S
  unfolding append_entries_without_batching
  flush_if_full_batch none st = (none, st)
  flush_if_full_batch (some flushed_entries) st =
      let (accepted_idx, st') = append_entries_without_batching flushed_entries st in
      (some (record { accepted_idx = accepted_idx; entries = flushed_entries }), st')

  unfoldable pub append_entry_with_batching :
      T → InternalStorage T C S → Option (AcceptedMetaData T) × InternalStorage T C S
  unfolding flush_if_full_batch Cache.append_entry
  append_entry_with_batching entry st =
      let (append_res, cache) = Cache.append_entry entry st.state_cache in
      flush_if_full_batch append_res (record st { state_cache = cache })

  unfoldable pub append_entries_with_batching :
      List T → InternalStorage T C S → Option (AcceptedMetaData T) × InternalStorage T C S
  unfolding flush_if_full_batch Cache.append_entries
  append_entries_with_batching entries st =
      let (append_res, cache) = Cache.append_entries entries st.state_cache in
      flush_if_full_batch append_res (record st { state_cache = cache })

  unfoldable pub append_stopsign :
      StopSign C → InternalStorage T C S → Option (AcceptedMetaData T) × InternalStorage T C S
  unfolding flush_if_full_batch Cache.append_stopsign Memory.set_stopsign
  append_stopsign ss st =
      let (append_res, cache) = Cache.append_stopsign ss st.state_cache in
      let (metadata, st') = flush_if_full_batch append_res (record st { state_cache = cache }) in
      (
        metadata,
        record st' {
          storage = Memory.set_stopsign (some ss) st'.storage;
          state_cache = record (st'.state_cache) {
            accepted_idx = st'.state_cache.accepted_idx + 1;
          };
        },
      )

  -- The accepted index after the flush, if `append_entries` flushed.
  flush_and_get_accepted_idx :
      Option (List T) → InternalStorage T C S → Option ℕ × InternalStorage T C S
  unfolding append_entries_without_batching
  flush_and_get_accepted_idx none st = (none, st)
  flush_and_get_accepted_idx (some flushed_entries) st =
      let (accepted_idx, st') = append_entries_without_batching flushed_entries st in
      (some accepted_idx, st')

  unfoldable pub append_entries_and_get_accepted_idx :
      List T → InternalStorage T C S → Option ℕ × InternalStorage T C S
  unfolding flush_and_get_accepted_idx Cache.append_entries
  append_entries_and_get_accepted_idx entries st =
      let (append_res, cache) = Cache.append_entries entries st.state_cache in
      flush_and_get_accepted_idx append_res (record st { state_cache = cache })

  unfoldable pub flush_batch : InternalStorage T C S → ℕ × InternalStorage T C S
  unfolding append_entries_without_batching Cache.take_batched_entries
  flush_batch st =
      let (flushed_entries, cache) = Cache.take_batched_entries st.state_cache in
      append_entries_without_batching flushed_entries (record st { state_cache = cache })

  unfoldable pub flush_batch_and_get_entries :
      InternalStorage T C S → Option (AcceptedMetaData T) × InternalStorage T C S
  unfolding flush_if_full_batch Cache.take_batched_entries
  flush_batch_and_get_entries st =
      let (entries, cache) = Cache.take_batched_entries st.state_cache in
      if not (is_empty st.state_cache.batched_entries)
      then flush_if_full_batch (some entries) (record st { state_cache = cache })
      else flush_if_full_batch none st

  unfoldable pub set_promise : Ballot → InternalStorage T C S → InternalStorage T C S
  unfolding Memory.set_promise
  set_promise n_prom st = record st {
    storage = Memory.set_promise n_prom st.storage;
    state_cache = record (st.state_cache) { promise = n_prom };
  }

  unfoldable pub set_decided_idx : ℕ → InternalStorage T C S → InternalStorage T C S
  unfolding Memory.set_decided_idx
  set_decided_idx idx st = record st {
    storage = Memory.set_decided_idx idx st.storage;
    state_cache = record (st.state_cache) { decided_idx = idx };
  }

  unfoldable pub stopsign_is_decided : InternalStorage T C S → Bool
  unfolding Cache.stopsign_is_decided
  stopsign_is_decided st = Cache.stopsign_is_decided st.state_cache

  unfoldable pub get_decided_idx_without_stopsign : InternalStorage T C S → ℕ
  unfolding stopsign_is_decided
  get_decided_idx_without_stopsign st =
      let decided_idx = st.state_cache.decided_idx in
      if stopsign_is_decided st then sub_u64 decided_idx 1 else decided_idx

  unfoldable pub set_stopsign :
      Option (StopSign C) → InternalStorage T C S → ℕ × InternalStorage T C S
  unfolding Memory.set_stopsign
  set_stopsign ss st =
      let c = st.state_cache in
      let accepted_idx =
        if is_some ss && not (is_some c.stopsign)
        then c.accepted_idx + 1
        else if not (is_some ss) && is_some c.stopsign
        then sub_u64 c.accepted_idx 1
        else c.accepted_idx in
      (
        accepted_idx,
        record st {
          storage = Memory.set_stopsign ss st.storage;
          state_cache = record c { accepted_idx = accepted_idx; stopsign = ss };
        },
      )
