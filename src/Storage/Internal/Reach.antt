-- ===== src/Storage/Internal/Reach.antt =====
-- The states that the storage of a server reaches, and what a server finds after a crash
-- (omnipaxos/src/storage/internal_storage.rs).
use omnipaxos.Prelude.{ℕ, ◌+◌, ◌≤◌, ◌≡◌, Option, none, some, List, [], length, arith}
use omnipaxos.Ballot.{Ballot}
use omnipaxos.Storage.{StopSign, Snapshot, LogSync, ok}
use omnipaxos.Storage.Memory
use omnipaxos.Storage.Internal.{
  InternalStorage, stopsign_len, with_storage, append_entries_without_batching,
  append_entry_with_batching, append_entries_with_batching, append_stopsign,
  append_entries_and_get_accepted_idx, flush_batch, flush_batch_and_get_entries, set_promise,
  set_decided_idx, set_stopsign,
}
use omnipaxos.Storage.Internal.Compaction.{try_trim, try_snapshot, sync_log}
use omnipaxos.Storage.Internal.Agreement.{
  IsValid, append_entries_without_batching-IsValid, append_entry_with_batching-IsValid,
  append_entries_with_batching-IsValid, append_entries_and_get_accepted_idx-IsValid,
  flush_batch-IsValid, flush_batch_and_get_entries-IsValid, set_promise-IsValid,
  set_decided_idx-IsValid, append_stopsign-IsValid, set_stopsign-IsValid,
}
use omnipaxos.Storage.Internal.Recovery.{
  try_trim-IsValid, try_snapshot-IsValid, sync_log-IsValid, sync_log-none-IsValid, FitsLog,
}

module _ {T C S : Type 0} (snap : Snapshot T S) where
  -- The calls that `SequencePaxos` makes, each where the protocol makes it.
  pub data Step : InternalStorage T C S → InternalStorage T C S → Type 0 where
    appends : (e : T) (st : InternalStorage T C S) → Step st (append_entry_with_batching e st).1
    appends_all :
        (es : List T) (st : InternalStorage T C S) → Step st (append_entries_with_batching es st).1
    appends_now :
        (es : List T) (st : InternalStorage T C S)
        → Step st (append_entries_without_batching es st).1
    accepts :
        (es : List T) (st : InternalStorage T C S)
        → Step st (append_entries_and_get_accepted_idx es st).1
    flushes : (st : InternalStorage T C S) → Step st (flush_batch st).1
    flushes_entries : (st : InternalStorage T C S) → Step st (flush_batch_and_get_entries st).1
    stops :
        (ss : StopSign C) (st : InternalStorage T C S)
        → st.state_cache.stopsign ≡ none
        → Step st (append_stopsign ss st).1
    sets_stopsign :
        (ss : Option (StopSign C)) (st : InternalStorage T C S)
        → st.state_cache.decided_idx ≤ length st.storage.log + st.storage.compacted_idx
        → Step st (set_stopsign ss st).1
    promises : (b : Ballot) (st : InternalStorage T C S) → Step st (set_promise b st)
    decides :
        (idx : ℕ) (st : InternalStorage T C S)
        → idx ≤ st.state_cache.accepted_idx
        → Step st (set_decided_idx idx st)
    trims : (idx : ℕ) (st st' : InternalStorage T C S) → try_trim idx st ≡ ok st' → Step st st'
    snapshots :
        (idx : Option ℕ) (st st' : InternalStorage T C S)
        → try_snapshot snap idx st ≡ ok st'
        → Step st st'
    syncs_round :
        (n : Ballot) (decided idx : ℕ) (st st' : InternalStorage T C S)
        → decided ≤ st.state_cache.accepted_idx
        → sync_log snap n decided none st ≡ ok (idx, st')
        → Step st st'
    syncs :
        (n : Ballot) (decided idx : ℕ) (sync : LogSync T C S) (st st' : InternalStorage T C S)
        → FitsLog sync.decided_snapshot sync.sync_idx st
        → decided ≤ sync.sync_idx + length sync.suffix + stopsign_len sync.stopsign
        → sync_log snap n decided (some sync) st ≡ ok (idx, st')
        → Step st st'

  pub data Reach (start : InternalStorage T C S) : InternalStorage T C S → Type 0 where
    here : Reach start start
    next : {st st' : InternalStorage T C S} → Reach start st → Step st st' → Reach start st'

  Step-IsValid : {st st' : InternalStorage T C S} → Step st st' → IsValid st → IsValid st'
  Step-IsValid (appends e st) v = append_entry_with_batching-IsValid e st v
  Step-IsValid (appends_all es st) v = append_entries_with_batching-IsValid es st v
  Step-IsValid (appends_now es st) v = append_entries_without_batching-IsValid es st v
  Step-IsValid (accepts es st) v = append_entries_and_get_accepted_idx-IsValid es st v
  Step-IsValid (flushes st) v = flush_batch-IsValid st v
  Step-IsValid (flushes_entries st) v = flush_batch_and_get_entries-IsValid st v
  Step-IsValid (stops ss st free) v = append_stopsign-IsValid ss st free v
  Step-IsValid (sets_stopsign ss st le) v = set_stopsign-IsValid ss st v le
  Step-IsValid (promises b st) v = set_promise-IsValid b st v
  Step-IsValid (decides idx st le) v = set_decided_idx-IsValid idx st le v
  Step-IsValid (trims idx st st' e) v = try_trim-IsValid idx st st' v e
  Step-IsValid (snapshots idx st st' e) v = try_snapshot-IsValid snap idx st st' v e
  Step-IsValid (syncs_round n decided idx st st' le e) v =
      sync_log-none-IsValid snap n decided st st' idx v le e
  Step-IsValid (syncs n decided idx sync st st' fits le e) v =
      sync_log-IsValid snap n decided sync st st' idx v fits le e

  pub Reach-IsValid :
      {start st : InternalStorage T C S} → IsValid start → Reach start st → IsValid st
  Reach-IsValid v here = v
  Reach-IsValid v (next r s) = Step-IsValid s (Reach-IsValid v r)

module _ {T C S : Type 0} where
  recover-IsValid :
      (st : InternalStorage T C S)
      → IsValid st
      → with_storage st.storage st.state_cache.batch_size
        ≡ record st { state_cache = record (st.state_cache) { batched_entries = [] } }
  unfolding with_storage
  recover-IsValid st v = ground arith

  pub new-IsValid :
      (batch_size : ℕ) → IsValid (with_storage (Memory.default {T = T} {C = C} {S = S}) batch_size)
  unfolding with_storage
  new-IsValid batch_size = ground arith

  -- A server starts on an empty storage, makes any calls, each where the protocol makes it
  -- (`Step`), and crashes: what `with_storage` reads back from the storage is the state before the
  -- crash, less the entries still in the batch.
  pub recover_reachable :
      (snap : Snapshot T S) (batch_size : ℕ) (st : InternalStorage T C S)
      → Reach snap (with_storage Memory.default batch_size) st
      → with_storage st.storage st.state_cache.batch_size
        ≡ record st { state_cache = record (st.state_cache) { batched_entries = [] } }
  recover_reachable snap batch_size st r =
      recover-IsValid st (Reach-IsValid snap (new-IsValid batch_size) r)
