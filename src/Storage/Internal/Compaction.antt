-- ===== src/Storage/Internal/Compaction.antt =====
-- `InternalStorage`: snapshots, trimming, and the synchronisation with another server's log
-- (omnipaxos/src/storage/internal_storage.rs).
use omnipaxos.Prelude.{
  ℕ, ◌+◌, Option, none, some, List, [], ◌∷◌, ◌++◌, length, ltb, leb, compare, Ordering,
  if◌then◌else◌,
}
use omnipaxos.Ballot.{Ballot}
use omnipaxos.Storage.{
  StopSign, SnapshotType, Snapshot, StorageOp, LogSync, CompactionErr, StorageResult, ok, err,
  ◌>>=◌,
}
use omnipaxos.Storage.Memory
use omnipaxos.Storage.Cache.{StateCache, is_some}
use omnipaxos.Storage.Internal.{InternalStorage, get_decided_idx_without_stopsign}

-- A stored snapshot is extended, a missing one begun.
abbrev pub merge_into : {T S : Type 0} → Snapshot T S → Option S → S → S
merge_into snap (some s) d = snap.merge s d
merge_into snap none d = d

-- `Option::map` on the stored snapshot.
abbrev pub complete_of : {S : Type 0} → Option S → Option (SnapshotType S)
complete_of none = none
complete_of (some s) = some (SnapshotType.complete s)

-- The operations of `sync_log` for a snapshot that replaces the log up to `sync_idx`.
abbrev pub compact_ops : {T C S : Type 0} → ℕ → S → List (StorageOp T C S)
compact_ops sync_idx s =
    StorageOp.trim sync_idx
    ∷ StorageOp.set_compacted_idx sync_idx
    ∷ StorageOp.set_snapshot (some s)
    ∷ []

-- `match sync.stopsign`: the operations and the change of the cache.
abbrev pub stopsign_ops :
    {T C S : Type 0}
    → Option (StopSign C)
    → StateCache T C
    → List (StorageOp T C S) × StateCache T C
stopsign_ops (some ss) c = (
  StorageOp.set_stopsign (some ss) ∷ [],
  record c { stopsign = some ss; accepted_idx = c.accepted_idx + 1 },
)
stopsign_ops none c =
    if is_some c.stopsign
    then (StorageOp.set_stopsign none ∷ [], record c { stopsign = none })
    else ([], c)

-- The compacted index that a compaction up to `idx` leads to.
unfoldable pub new_compacted_idx : {T C S : Type 0} → ℕ → InternalStorage T C S → StorageResult ℕ
unfolding get_decided_idx_without_stopsign
new_compacted_idx idx st =
    let decided_idx = st.state_cache.decided_idx in
    elim (compare idx decided_idx) [
      | Ordering.lt ↦ ok idx
      | Ordering.eq ↦ ok (get_decided_idx_without_stopsign st)
      | Ordering.gt ↦ err (CompactionErr.undecided_index decided_idx)
    ]

unfoldable pub snapshot_idx_of :
    {T C S : Type 0} → Option ℕ → InternalStorage T C S → StorageResult ℕ
unfolding new_compacted_idx
snapshot_idx_of (some idx) st = new_compacted_idx idx st
snapshot_idx_of none st = ok (get_decided_idx_without_stopsign st)

-- The write of a compaction, and the compacted index in the cache.
unfoldable pub compact_to :
    {T C S : Type 0} → ℕ → List (StorageOp T C S) → InternalStorage T C S → InternalStorage T C S
unfolding Memory.write_atomically
compact_to compacted_idx ops st = record st {
  storage = Memory.write_atomically ops st.storage;
  state_cache = record (st.state_cache) { compacted_idx = compacted_idx };
}

-- `try_trim` once the compacted index is known.
unfoldable pub trim_to : {T C S : Type 0} → ℕ → InternalStorage T C S → InternalStorage T C S
unfolding compact_to
trim_to compacted_idx st =
    if ltb st.state_cache.compacted_idx compacted_idx
    then compact_to compacted_idx
        (StorageOp.trim compacted_idx ∷ StorageOp.set_compacted_idx compacted_idx ∷ []) st
    else st

unfoldable pub try_trim :
    {T C S : Type 0} → ℕ → InternalStorage T C S → StorageResult (InternalStorage T C S)
unfolding new_compacted_idx trim_to
try_trim idx st = do compacted_idx ← new_compacted_idx idx st; ok (trim_to compacted_idx st)

module _ {T C S : Type 0} (snap : Snapshot T S) where
  unfoldable pub create_snapshot : ℕ → InternalStorage T C S → StorageResult S
  unfolding Memory.get_entries
  create_snapshot compact_idx st =
      let current_compacted_idx = st.state_cache.compacted_idx in
      if ltb compact_idx current_compacted_idx
      then err (CompactionErr.trimmed_index current_compacted_idx)
      else ok (
          merge_into snap st.storage.snapshot
            (snap.create (Memory.get_entries current_compacted_idx compact_idx st.storage)))

  unfoldable pub create_decided_snapshot : InternalStorage T C S → StorageResult S
  unfolding create_snapshot get_decided_idx_without_stopsign
  create_decided_snapshot st = create_snapshot (get_decided_idx_without_stopsign st) st

  unfoldable pub create_diff_snapshot :
      ℕ → InternalStorage T C S → StorageResult (Option (SnapshotType S) × ℕ)
  unfolding create_snapshot get_decided_idx_without_stopsign Memory.get_entries
  create_diff_snapshot from_idx st =
      let log_decided_idx = get_decided_idx_without_stopsign st in
      let compacted_idx = st.state_cache.compacted_idx in
      if leb from_idx compacted_idx
      then (if ltb compacted_idx log_decided_idx
          then (do
            s ← create_snapshot log_decided_idx st
            ok (some (SnapshotType.complete s), log_decided_idx))
          else ok (complete_of st.storage.snapshot, log_decided_idx))
      else ok (
        some (
            SnapshotType.delta
              (snap.create (Memory.get_entries from_idx log_decided_idx st.storage))),
        log_decided_idx,
      )

  -- `try_snapshot` once the compacted index is known.
  unfoldable pub snapshot_to : ℕ → InternalStorage T C S → StorageResult (InternalStorage T C S)
  unfolding create_snapshot compact_to
  snapshot_to compacted_idx st =
      if ltb st.state_cache.compacted_idx compacted_idx
      then (do
        snapshot ← create_snapshot compacted_idx st
        ok (compact_to compacted_idx (compact_ops compacted_idx snapshot) st))
      else ok st

  unfoldable pub try_snapshot :
      Option ℕ → InternalStorage T C S → StorageResult (InternalStorage T C S)
  unfolding snapshot_idx_of snapshot_to
  try_snapshot snapshot_idx st = do
    compacted_idx ← snapshot_idx_of snapshot_idx st
    snapshot_to compacted_idx st

  -- `match sync.decided_snapshot`: the operations and the compacted index.
  unfoldable pub snapshot_ops :
      Option (SnapshotType S)
      → ℕ
      → InternalStorage T C S
      → StorageResult (List (StorageOp T C S) × ℕ)
  unfolding create_decided_snapshot
  snapshot_ops (some (SnapshotType.complete c)) sync_idx st = ok (compact_ops sync_idx c, sync_idx)
  snapshot_ops (some (SnapshotType.delta d)) sync_idx st =
      create_decided_snapshot st >>= λ snapshot.
      ok (compact_ops sync_idx (snap.merge snapshot d), sync_idx)
  snapshot_ops none sync_idx st = ok ([], st.state_cache.compacted_idx)

  -- `sync_log` after the round and the decided index are set in the cache of `st`.
  unfoldable pub sync_log_sync :
      List (StorageOp T C S)
      → LogSync T C S
      → InternalStorage T C S
      → StorageResult (ℕ × InternalStorage T C S)
  unfolding snapshot_ops Memory.write_atomically
  sync_log_sync sync_txn sync st =
      snapshot_ops sync.decided_snapshot sync.sync_idx st >>= λ compaction.
      let cache : StateCache T C = record (st.state_cache) {
        compacted_idx = compaction.1;
        accepted_idx = sync.sync_idx + length sync.suffix;
      } in
      let stopsign = stopsign_ops sync.stopsign cache in
      let ops =
        sync_txn
        ++ compaction.0
        ++ (StorageOp.append_on_prefix sync.sync_idx sync.suffix ∷ stopsign.0) in
      ok (
        stopsign.1.accepted_idx,
        record st { storage = Memory.write_atomically ops st.storage; state_cache = stopsign.1 },
      )

  -- An error leaves the cache changed; it is not modelled, since every caller then panics.
  unfoldable pub sync_log :
      Ballot
      → ℕ
      → Option (LogSync T C S)
      → InternalStorage T C S
      → StorageResult (ℕ × InternalStorage T C S)
  unfolding sync_log_sync Memory.write_atomically
  sync_log accepted_round decided_idx log_sync st =
      let st' : InternalStorage T C S = record st {
        state_cache = record (st.state_cache) {
          accepted_round = accepted_round;
          decided_idx = decided_idx;
        };
      } in
      let sync_txn : List (StorageOp T C S) =
        StorageOp.set_accepted_round accepted_round
        ∷ StorageOp.set_decided_index decided_idx
        ∷ [] in
      elim log_sync [
        | none ↦ ok (
          st'.state_cache.accepted_idx,
          record st' { storage = Memory.write_atomically sync_txn st.storage },
        )
        | some sync ↦ sync_log_sync sync_txn sync st'
      ]
