-- ===== src/Storage/Internal/History.antt =====
-- Snapshots against the history of the log (omnipaxos/src/storage/internal_storage.rs).
use omnipaxos.Prelude.{
  ℕ, ◌+◌, ◌-◌, ◌≤◌, ◌≡◌, refl, ap, Option, none, some, List, [], length, take, drop, length-drop,
  drop-drop, take-drop, min, ltb, ◌==◌, if◌then◌else◌, Bool-cases, inl, inr, take_between, arith,
}
use omnipaxos.Word.{sub_u64, sub_u64_lem}
use omnipaxos.Storage.{Snapshot, IsLawful, ok}
use omnipaxos.Storage.Memory
use omnipaxos.Storage.Internal.{InternalStorage, get_decided_idx_without_stopsign}
use omnipaxos.Storage.Internal.Compaction.{
  compact_to, compact_ops, merge_into, create_snapshot, snapshot_idx_of, snapshot_to, try_snapshot,
}
use omnipaxos.Storage.Internal.Agreement.{IsValid}
use omnipaxos.Storage.Internal.Recovery.{snapshot_idx_of-le}

-- The snapshot stands for the entries that are compacted away, none before the first snapshot.
abbrev pub Summarises : {T S : Type 0} → Snapshot T S → Option S → List T → Type 0
Summarises snap none past = past ≡ []
Summarises snap (some s) past = s ≡ snap.create past

module _ {T C S : Type 0} (snap : Snapshot T S) where
  -- The server has seen `history`, of which it stores the end and a snapshot of the beginning.
  pub record Keeps (history : List T) (st : InternalStorage T C S) : Type 0 where
    pub log : st.storage.log ≡ drop st.storage.compacted_idx history
    pub past : Summarises snap st.storage.snapshot (take st.storage.compacted_idx history)
    pub within : st.storage.compacted_idx ≤ length history

  module _ (law : IsLawful snap) (history : List T) (st : InternalStorage T C S) (v : IsValid st)
      (seen : Keeps history st) (k : ℕ)
      (fits : k ≤ length st.storage.log + st.storage.compacted_idx)
      (above : st.storage.compacted_idx ≤ k) where
    get_entries-history :
        Memory.get_entries st.storage.compacted_idx k st.storage
        ≡ drop st.storage.compacted_idx (take k history)
    unfolding Memory.get_entries
    get_entries-history =
        ground (arith, seen.log, v.trimmed, take-drop st.storage.compacted_idx k history above)

    merge_into-history :
        merge_into snap st.storage.snapshot
          (snap.create (drop st.storage.compacted_idx (take k history)))
        ≡ snap.create (take k history)
    merge_into-history = ground (
      arith,
      seen.past,
      take_between st.storage.compacted_idx k history above,
      law.merge-create (take st.storage.compacted_idx history)
          (drop st.storage.compacted_idx (take k history)),
    )

    create_snapshot-history : create_snapshot snap k st ≡ ok (snap.create (take k history))
    unfolding create_snapshot
    create_snapshot-history = ground (arith, v.compacted, get_entries-history, merge_into-history)

    log-trim :
        drop (min (sub_u64 k st.storage.trimmed_idx) (length st.storage.log)) st.storage.log
        ≡ drop k history
    log-trim = ground (
      arith,
      v.trimmed,
      seen.log,
      sub_u64_lem k st.storage.trimmed_idx,
      drop-drop (k - st.storage.compacted_idx) st.storage.compacted_idx history,
    )

    length-history : k ≤ length history
    length-history =
        omega (arith, ap length seen.log, length-drop st.storage.compacted_idx history, seen.within)

  snapshot_to-Keeps :
      (law : IsLawful snap) (history : List T) (k : ℕ) (st st' : InternalStorage T C S)
      → IsValid st
      → Keeps history st
      → k ≤ length st.storage.log + st.storage.compacted_idx
      → snapshot_to snap k st ≡ ok st'
      → Keeps history st'
  unfolding snapshot_to
  snapshot_to-Keeps law history k st st' v seen fits e =
      elim (Bool-cases (ltb st.state_cache.compacted_idx k)) [
        | inr old ↦ ground arith
        | inl new ↦
            let above : st.storage.compacted_idx ≤ k = ground arith in
            ground (
              arith,
              create_snapshot-history law history st v seen k fits above,
              log-trim law history st v seen k fits above,
              length-history law history st v seen k fits above,
            )
      ]

  snapshot_to_total :
      (law : IsLawful snap) (history : List T) (k : ℕ) (st : InternalStorage T C S)
      → IsValid st
      → Keeps history st
      → k ≤ length st.storage.log + st.storage.compacted_idx
      → (st' : InternalStorage T C S) × (snapshot_to snap k st ≡ ok st')
  unfolding snapshot_to
  snapshot_to_total law history k st v seen fits =
      elim (Bool-cases (ltb st.state_cache.compacted_idx k)) [
        | inr old ↦ (st, rw old)
        | inl new ↦
            let above : st.storage.compacted_idx ≤ k = ground arith in
            (
              compact_to k (compact_ops k (snap.create (take k history))) st,
              rw (new, create_snapshot-history law history st v seen k fits above),
            )
      ]

  -- The index that is asked for may be snapshotted.
  abbrev pub Allowed : Option ℕ → InternalStorage T C S → Type 0
  Allowed none st = Unit
  Allowed (some idx) st = idx ≤ st.state_cache.decided_idx

  snapshot_idx_of_total :
      (idx : Option ℕ) (st : InternalStorage T C S)
      → Allowed idx st
      → (k : ℕ) × (snapshot_idx_of idx st ≡ ok k)
  unfolding snapshot_idx_of
  snapshot_idx_of_total none st a = (_, refl)
  snapshot_idx_of_total (some idx) st a = (
    if idx == st.state_cache.decided_idx then get_decided_idx_without_stopsign st else idx,
    ground arith,
  )

  -- For a lawful snapshot type and a valid storage: `try_snapshot` up to an index that is decided,
  -- or up to the decided index, succeeds, and forgets nothing: the log and the snapshot together
  -- still stand for the whole history.
  pub try_snapshot-Keeps :
      (law : IsLawful snap) (history : List T) (idx : Option ℕ) (st : InternalStorage T C S)
      → IsValid st
      → Keeps history st
      → Allowed idx st
      → (st' : InternalStorage T C S) × (try_snapshot snap idx st ≡ ok st') × Keeps history st'
  unfolding try_snapshot
  try_snapshot-Keeps law history idx st v seen a =
      let (k, known) = snapshot_idx_of_total idx st a in
      let fits = snapshot_idx_of-le idx k st v known in
      let (st', done) = snapshot_to_total law history k st v seen fits in
      (st', rw known done, snapshot_to-Keeps law history k st st' v seen fits done)
