-- ===== src/Storage/Internal/Recovery.antt =====
-- The cache of `InternalStorage` and what it caches, under compaction and synchronisation
-- (omnipaxos/src/storage/internal_storage.rs).
use omnipaxos.Prelude.{
  ℕ, ◌+◌, ◌-◌, ◌≤◌, ◌≡◌, subst, Option, none, some, length, length-append, length-drop, length-take,
  length-overlay, take, arith, min,
}
use omnipaxos.Word.{sub_u64, sub_u64_lem}
use omnipaxos.Ballot.{Ballot}
use omnipaxos.Storage.{SnapshotType, Snapshot, LogSync, ok}
use omnipaxos.Storage.Internal.{InternalStorage, stopsign_len}
use omnipaxos.Storage.{>>=-eq-ok}
use omnipaxos.Storage.Internal.Compaction.{
  trim_to, try_trim, new_compacted_idx, try_snapshot, snapshot_idx_of, snapshot_to, sync_log,
}
use omnipaxos.Storage.Internal.Agreement.{IsValid}

-- Where the log of another server may be laid over this one: above what is compacted, and with
-- no gap unless a snapshot fills it.
abbrev pub FitsLog : {T C S : Type 0} → Option (SnapshotType S) → ℕ → InternalStorage T C S → Type 0
FitsLog (some s) sync_idx st = st.storage.compacted_idx ≤ sync_idx
FitsLog none sync_idx st =
    (st.storage.compacted_idx ≤ sync_idx)
    × (sync_idx ≤ length st.storage.log + st.storage.compacted_idx)

module _ {T C S : Type 0} where
  pub trim_to-IsValid :
      (idx : ℕ) (st : InternalStorage T C S)
      → IsValid st
      → idx ≤ length st.storage.log + st.storage.compacted_idx
      → IsValid (trim_to idx st)
  unfolding trim_to
  trim_to-IsValid idx st v le = ground (
    arith,
    sub_u64_lem idx st.storage.trimmed_idx,
    length-drop (idx - st.storage.trimmed_idx) st.storage.log,
  )

  -- A compaction stays within the decided entries.
  pub new_compacted_idx-le :
      (idx k : ℕ) (st : InternalStorage T C S)
      → IsValid st
      → new_compacted_idx idx st ≡ ok k
      → k ≤ length st.storage.log + st.storage.compacted_idx
  unfolding new_compacted_idx
  new_compacted_idx-le idx k st v e = ground (arith, sub_u64_lem st.state_cache.decided_idx 1)

  pub try_trim-IsValid :
      (idx : ℕ) (st st' : InternalStorage T C S)
      → IsValid st
      → try_trim idx st ≡ ok st'
      → IsValid st'
  unfolding try_trim
  try_trim-IsValid idx st st' v e =
      let (k, known, done) = >>=-eq-ok (new_compacted_idx idx st) (λ k. ok (trim_to k st)) e in
      let same : trim_to k st ≡ st' = cc in
      subst IsValid same (trim_to-IsValid k st v (new_compacted_idx-le idx k st v known))

  pub snapshot_idx_of-le :
      (idx : Option ℕ) (k : ℕ) (st : InternalStorage T C S)
      → IsValid st
      → snapshot_idx_of idx st ≡ ok k
      → k ≤ length st.storage.log + st.storage.compacted_idx
  unfolding snapshot_idx_of
  snapshot_idx_of-le (some idx) k st v e = new_compacted_idx-le idx k st v e
  snapshot_idx_of-le none k st v e = ground (arith, sub_u64_lem st.state_cache.decided_idx 1)

module _ {T C S : Type 0} (snap : Snapshot T S) where
  pub snapshot_to-IsValid :
      (k : ℕ) (st st' : InternalStorage T C S)
      → IsValid st
      → k ≤ length st.storage.log + st.storage.compacted_idx
      → snapshot_to snap k st ≡ ok st'
      → IsValid st'
  unfolding snapshot_to
  snapshot_to-IsValid k st st' v le e = ground (
    arith,
    sub_u64_lem k st.storage.trimmed_idx,
    length-drop (k - st.storage.trimmed_idx) st.storage.log,
  )

  pub try_snapshot-IsValid :
      (idx : Option ℕ) (st st' : InternalStorage T C S)
      → IsValid st
      → try_snapshot snap idx st ≡ ok st'
      → IsValid st'
  unfolding try_snapshot
  try_snapshot-IsValid idx st st' v e =
      let (k, known, done) = >>=-eq-ok (snapshot_idx_of idx st) (λ k. snapshot_to snap k st) e in
      snapshot_to-IsValid k st st' v (snapshot_idx_of-le idx k st v known) done

  pub sync_log-IsValid :
      (n : Ballot) (decided : ℕ) (sync : LogSync T C S) (st st' : InternalStorage T C S) (idx : ℕ)
      → IsValid st
      → FitsLog sync.decided_snapshot sync.sync_idx st
      → decided ≤ sync.sync_idx + length sync.suffix + stopsign_len sync.stopsign
      → sync_log snap n decided (some sync) st ≡ ok (idx, st')
      → IsValid st'
  unfolding sync_log
  sync_log-IsValid n decided sync st st' idx v fits le e = ground (
    arith,
    sub_u64_lem sync.sync_idx sync.sync_idx,
    sub_u64_lem sync.sync_idx st.storage.trimmed_idx,
    length-overlay (sub_u64 sync.sync_idx sync.sync_idx)
        (min (sub_u64 sync.sync_idx st.storage.trimmed_idx) (length st.storage.log)) st.storage.log
        sync.suffix,
    length-append (take (sub_u64 sync.sync_idx st.storage.trimmed_idx) st.storage.log) sync.suffix,
    length-take (sub_u64 sync.sync_idx st.storage.trimmed_idx) st.storage.log,
  )

  pub sync_log-none-IsValid :
      (n : Ballot) (decided : ℕ) (st st' : InternalStorage T C S) (idx : ℕ)
      → IsValid st
      → decided ≤ st.state_cache.accepted_idx
      → sync_log snap n decided none st ≡ ok (idx, st')
      → IsValid st'
  unfolding sync_log
  sync_log-none-IsValid n decided st st' idx v le e = ground arith
