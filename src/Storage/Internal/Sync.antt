-- ===== src/Storage/Internal/Sync.antt =====
-- What `sync_log` makes of the log (omnipaxos/src/storage/internal_storage.rs).
use omnipaxos.Prelude.{
  ℕ, ◌+◌, ◌≤◌, ◌<◌, ◌≡◌, none, some, List, [], ◌++◌, length, take, drop-append, drop-overlay,
  take-overlay, length-append, length-take, take-append, arith, drop_all, take_all,
}
use omnipaxos.Word.{sub_u64_lem}
use omnipaxos.Ballot.{Ballot}
use omnipaxos.Storage.{SnapshotType, Snapshot, LogSync, ok}
use omnipaxos.Storage.Internal.{InternalStorage}
use omnipaxos.Storage.Internal.Compaction.{sync_log}
use omnipaxos.Storage.Internal.Agreement.{IsValid}
use omnipaxos.Storage.Internal.History.{Keeps}

module _ {T C S : Type 0} (snap : Snapshot T S) (n : Ballot) (decided : ℕ)
    (st : InternalStorage T C S) (v : IsValid st) where
  -- `sync_log` without a snapshot, from an index that is not compacted away and within the history
  -- of a valid storage: if it succeeds, the history is afterwards the old one up to that index,
  -- followed by the suffix.
  pub sync_log_suffix-Keeps :
      (history : List T) (sync : LogSync T C S) (st' : InternalStorage T C S) (idx : ℕ)
      → Keeps snap history st
      → sync.decided_snapshot ≡ none
      → st.storage.compacted_idx ≤ sync.sync_idx
      → sync.sync_idx ≤ length history
      → sync_log snap n decided (some sync) st ≡ ok (idx, st')
      → Keeps snap (take sync.sync_idx history ++ sync.suffix) st'
  unfolding sync_log
  sync_log_suffix-Keeps history sync st' idx seen plain above within e = ground (
    arith,
    v.trimmed,
    v.compacted,
    seen.log,
    seen.past,
    sub_u64_lem sync.sync_idx st.storage.trimmed_idx,
    drop-overlay st.storage.compacted_idx sync.sync_idx history sync.suffix,
    take-overlay st.storage.compacted_idx sync.sync_idx history sync.suffix,
    length-append (take sync.sync_idx history) sync.suffix,
    length-take sync.sync_idx history,
  )

  -- `sync_log` with the complete snapshot of a history up to `sync_idx`, which is not below what a
  -- valid storage has compacted: if it succeeds, the history is afterwards that of the snapshot,
  -- followed by the suffix, whatever was stored before.
  pub sync_log_complete-Keeps :
      (past : List T) (sync : LogSync T C S) (st' : InternalStorage T C S) (idx : ℕ)
      → sync.decided_snapshot ≡ some (SnapshotType.complete (snap.create past))
      → length past ≡ sync.sync_idx
      → st.storage.compacted_idx ≤ sync.sync_idx
      → sync_log snap n decided (some sync) st ≡ ok (idx, st')
      → Keeps snap (past ++ sync.suffix) st'
  unfolding sync_log
  sync_log_complete-Keeps past sync st' idx complete len above e = ground (
    arith,
    complete,
    sub_u64_lem sync.sync_idx sync.sync_idx,
    drop-append sync.sync_idx past sync.suffix,
    drop_all sync.sync_idx past,
    take-append sync.sync_idx past sync.suffix,
    take_all sync.sync_idx past,
    length-append past sync.suffix,
  )

  -- `sync_log` sets the decided index before it makes the snapshot of the decided log. Where that
  -- index lies above the local log of a valid storage that has no snapshot and no stopsign yet,
  -- the local entries are missing from the snapshot that is stored: it is the delta merged into
  -- the snapshot of no entries.
  pub sync_log_delta_drops :
      (d : S) (sync : LogSync T C S) (st' : InternalStorage T C S) (idx : ℕ)
      → sync.decided_snapshot ≡ some (SnapshotType.delta d)
      → st.storage.snapshot ≡ none
      → st.state_cache.stopsign ≡ none
      → length st.storage.log + st.storage.compacted_idx < decided
      → sync_log snap n decided (some sync) st ≡ ok (idx, st')
      → st'.storage.snapshot ≡ some (snap.merge (snap.create []) d)
  unfolding sync_log
  sync_log_delta_drops d sync st' idx delta fresh running beyond e =
      ground (arith, delta, fresh, running, v.trimmed, v.compacted)
