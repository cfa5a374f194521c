-- ===== src/Storage/Internal/Read/Decided.antt =====
-- What `read_decided_suffix` gives of the history (omnipaxos/src/storage/internal_storage.rs).
use omnipaxos.Prelude.{
  ℕ, ◌+◌, ◌-◌, ◌≤◌, ◌<◌, ◌≡◌, refl, ap, ◌∙◌, none, some, List, [], ◌∷◌, ◌++◌, map, max, length,
  take, drop, drop-drop, take-drop, drop_all, length-drop, length-take, ltb, arith, Bool-cases, inl,
  inr, if◌then◌else◌,
}
use omnipaxos.Storage.{Snapshot, LogEntry}
use omnipaxos.Storage.Memory
use omnipaxos.Storage.Internal.{InternalStorage}
use omnipaxos.Storage.Internal.Agreement.{IsValid}
use omnipaxos.Storage.Internal.History.{Keeps}
use omnipaxos.Storage.Internal.Read.{
  mark_decided, get_entry_type, create_read_log_entries, create_compacted_entry, read_between,
  read_from, read, read_decided_suffix,
}

mark_decided-below :
    (T C S : Type 0) (decided log_idx : ℕ) (es : List T)
    → log_idx + length es ≤ decided
    → mark_decided {T = T} {C = C} {S = S} decided log_idx es ≡ map LogEntry.decided es
mark_decided-below T C S decided log_idx [] le = refl
mark_decided-below T C S decided log_idx (e ∷ es) le =
    let below : log_idx < decided = omega arith in
    let rest : log_idx + 1 + length es ≤ decided = omega arith in
    ground (arith, mark_decided-below T C S decided (log_idx + 1) es rest)

-- The compacted entries show as one entry, if the reading starts among them.
abbrev pub compacted_part : {T C S : Type 0} → ℕ → InternalStorage T C S → List (LogEntry T C S)
compacted_part from st =
    if ltb from st.state_cache.compacted_idx then create_compacted_entry st ∷ [] else []

module _ {T C S : Type 0} (snap : Snapshot T S) (history : List T) (st : InternalStorage T C S)
    (v : IsValid st) (seen : Keeps snap history st) where
  get_entries-between :
      (from to : ℕ)
      → st.storage.compacted_idx ≤ from
      → from ≤ to
      → to ≤ length st.storage.log + st.storage.compacted_idx
      → Memory.get_entries from to st.storage ≡ drop from (take to history)
  unfolding Memory.get_entries
  get_entries-between from to above le within = ground (
    arith,
    v.trimmed,
    seen.log,
    take-drop st.storage.compacted_idx to history,
    drop-drop (from - st.storage.compacted_idx) st.storage.compacted_idx (take to history),
  )

  create_read_log_entries-decided :
      (from : ℕ)
      → st.storage.compacted_idx ≤ from
      → from ≤ st.state_cache.decided_idx
      → st.state_cache.decided_idx ≤ length st.storage.log + st.storage.compacted_idx
      → create_read_log_entries from st.state_cache.decided_idx st
        ≡ map LogEntry.decided (drop from (take st.state_cache.decided_idx history))
  unfolding create_read_log_entries
  create_read_log_entries-decided from above le within =
      let d = st.state_cache.decided_idx in
      ap (mark_decided d from) (get_entries-between from d above le within)
      ∙ mark_decided-below T C S d from (drop from (take d history))
          (omega (arith, length-drop from (take d history), length-take d history))

  -- A running server with a valid storage, that is, without a stopsign, reads of its history exactly
  -- the decided entries from an index below the decided one on, each marked as decided; those that
  -- are compacted show as one entry at the front, the snapshot if there is one.
  pub read_decided_suffix-history :
      (from : ℕ)
      → st.state_cache.stopsign ≡ none
      → from < st.state_cache.decided_idx
      → read_decided_suffix from st
        ≡ some (
            some (
              compacted_part from st
              ++ map LogEntry.decided (
                  drop
                    (max from st.state_cache.compacted_idx)
                    (take st.state_cache.decided_idx history))))
  unfolding read_decided_suffix read get_entry_type read_from read_between
  read_decided_suffix-history from running less =
      let d = st.state_cache.decided_idx in
      let c = st.state_cache.compacted_idx in
      let within : d ≤ length st.storage.log + st.storage.compacted_idx = ground arith in
      elim (Bool-cases (ltb c d)) [
        | inr all ↦
            let most : max from c ≡ c = ground arith in
            let nothing : drop c (take d history) ≡ [] =
              drop_all c (take d history) (ground (arith, length-take d history)) in
            rw (most, nothing) (ground arith)
        | inl some_left ↦ (elim (Bool-cases (ltb from c)) [
          | inl among ↦
              let most : max from c ≡ c = ground arith in
              let entries =
                create_read_log_entries-decided c (ground arith) (ground arith) within in
              rw most (ground arith)
          | inr past ↦
              let most : max from c ≡ from = ground arith in
              let entries =
                create_read_log_entries-decided from (ground arith) (ground arith) within in
              rw most (ground arith)
        ])
      ]
