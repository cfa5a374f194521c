-- ===== src/Storage/Internal/Read.antt =====
-- `InternalStorage`: the reading of the log (omnipaxos/src/storage/internal_storage.rs). `none` is the
-- panic of `unimplemented!`, `some none` the answer that a range is out of bounds.
pub mod Decided
pub mod Panics
use omnipaxos.Prelude.{
  ℕ, ◌+◌, ◌-◌, Bool, true, false, Option, none, some, List, [], ◌∷◌, ◌++◌, ltb, ◌==◌, if◌then◌else◌,
}
use omnipaxos.Storage.{StopSign, LogEntry, IndexEntry}
use omnipaxos.Storage.Memory
use omnipaxos.Storage.Internal.{InternalStorage, stopsign_is_decided}

-- `std::ops::Bound`.
pub data Bound : Type 0 where
  included excluded : ℕ → Bound
  unbounded : Bound

abbrev pub start_of : Bound → ℕ
start_of (Bound.included i) = i
start_of (Bound.excluded e) = e + 1
start_of Bound.unbounded = 0

abbrev pub end_of : Bound → ℕ → ℕ
end_of (Bound.included i) accepted_idx = i + 1
end_of (Bound.excluded e) accepted_idx = e
end_of Bound.unbounded accepted_idx = accepted_idx

-- Entries with their positions from `log_idx` on, decided below `decided_idx`.
abbrev pub mark_decided : {T C S : Type 0} → ℕ → ℕ → List T → List (LogEntry T C S)
mark_decided decided_idx log_idx [] = []
mark_decided decided_idx log_idx (e ∷ es) =
    (if ltb log_idx decided_idx then LogEntry.decided e else LogEntry.undecided e)
    ∷ mark_decided decided_idx (log_idx + 1) es

-- `match self.get_stopsign()` at the last position.
abbrev pub last_entry_type : {C : Type 0} → Option (StopSign C) → IndexEntry C
last_entry_type (some ss) = IndexEntry.stop_sign ss
last_entry_type none = IndexEntry.entry

-- The stored snapshot, or the mark that the entries are trimmed.
abbrev pub compacted_entry : {T C S : Type 0} → Option S → ℕ → LogEntry T C S
compacted_entry (some s) compacted_idx = LogEntry.snapshotted compacted_idx s
compacted_entry none compacted_idx = LogEntry.trimmed compacted_idx

module _ {T C S : Type 0} where
  unfoldable pub get_entry_type : ℕ → InternalStorage T C S → Option (IndexEntry C)
  get_entry_type idx st =
      let c = st.state_cache in
      if ltb idx c.compacted_idx
      then some IndexEntry.compacted
      else if ltb (idx + 1) c.accepted_idx
      then some IndexEntry.entry
      else if idx + 1 == c.accepted_idx
      then some (last_entry_type c.stopsign)
      else none

  unfoldable pub create_read_log_entries : ℕ → ℕ → InternalStorage T C S → List (LogEntry T C S)
  unfolding Memory.get_entries
  create_read_log_entries from to st =
      mark_decided st.state_cache.decided_idx from (Memory.get_entries from to st.storage)

  unfoldable pub create_compacted_entry : InternalStorage T C S → LogEntry T C S
  create_compacted_entry st = compacted_entry st.storage.snapshot st.state_cache.compacted_idx

  -- `match (from_type, to_type)`.
  unfoldable pub read_between :
      IndexEntry C → IndexEntry C → ℕ → ℕ → InternalStorage T C S → Option (List (LogEntry T C S))
  unfolding create_read_log_entries create_compacted_entry stopsign_is_decided
  read_between IndexEntry.entry IndexEntry.entry from_idx to_idx st =
      some (create_read_log_entries from_idx to_idx st)
  read_between IndexEntry.entry (IndexEntry.stop_sign ss) from_idx to_idx st = some (
      create_read_log_entries from_idx (to_idx - 1) st
      ++ LogEntry.stop_sign ss (stopsign_is_decided st) ∷ [])
  read_between IndexEntry.compacted IndexEntry.entry from_idx to_idx st =
      some
        (create_compacted_entry st ∷ create_read_log_entries st.state_cache.compacted_idx to_idx st)
  read_between IndexEntry.compacted (IndexEntry.stop_sign ss) from_idx to_idx st = some (
      create_compacted_entry st
        ∷ create_read_log_entries st.state_cache.compacted_idx (to_idx - 1) st
      ++ LogEntry.stop_sign ss (stopsign_is_decided st) ∷ [])
  read_between (IndexEntry.stop_sign ss) (IndexEntry.stop_sign ss') from_idx to_idx st =
      some (LogEntry.stop_sign ss (stopsign_is_decided st) ∷ [])
  read_between (IndexEntry.stop_sign ss) IndexEntry.entry from_idx to_idx st = none
  read_between from_type IndexEntry.compacted from_idx to_idx st = none

  -- `read`, once it is known that the range does not end in the compacted entries.
  unfoldable pub read_from :
      IndexEntry C → ℕ → ℕ → InternalStorage T C S → Option (Option (List (LogEntry T C S)))
  unfolding get_entry_type read_between create_compacted_entry
  read_from IndexEntry.compacted from_idx to_idx st = some (some (create_compacted_entry st ∷ []))
  read_from to_type from_idx to_idx st = elim (get_entry_type from_idx st) [
    | none ↦ some none
    | some from_type ↦ (elim (read_between from_type to_type from_idx to_idx st) [
      | none ↦ none
      | some entries ↦ some (some entries)
    ])
  ]

  unfoldable pub read :
      Bound → Bound → InternalStorage T C S → Option (Option (List (LogEntry T C S)))
  unfolding get_entry_type read_from
  read start end st =
      let from_idx = start_of start in
      let to_idx = end_of end st.state_cache.accepted_idx in
      if to_idx == 0 then some none else elim (get_entry_type (to_idx - 1) st) [
        | none ↦ some none
        | some to_type ↦ read_from to_type from_idx to_idx st
      ]

  unfoldable pub read_decided_suffix :
      ℕ → InternalStorage T C S → Option (Option (List (LogEntry T C S)))
  unfolding read
  read_decided_suffix from_idx st =
      let decided_idx = st.state_cache.decided_idx in
      if ltb from_idx decided_idx
      then read (Bound.included from_idx) (Bound.excluded decided_idx) st
      else some none
