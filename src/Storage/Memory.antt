-- ===== src/Storage/Memory.antt =====
-- `MemoryStorage` of omnipaxos_storage/src/memory_storage.rs. None of its operations fails.
use omnipaxos.Prelude.{
  ℕ, ◌-◌, ◌&&◌, ◌||◌, Option, none, some, List, [], ◌∷◌, ◌++◌, min, length, take, drop, ltb, leb,
  if◌then◌else◌,
}
use omnipaxos.Word.{sub_u64}
use omnipaxos.Ballot.{Ballot}
use omnipaxos.Storage.{StopSign, StorageOp}

pub record MemoryStorage (T C S : Type 0) : Type 0 where
  pub log : List T
  pub n_prom : Option Ballot
  pub acc_round : Option Ballot
  pub ld : ℕ
  pub trimmed_idx : ℕ
  pub compacted_idx : ℕ
  pub snapshot : Option S
  pub stopsign : Option (StopSign C)

-- `slice.get(from..to)` and `slice.get(from..)`, with an empty slice where they are out of range.
abbrev pub slice {ℓ} : {A : Type ℓ} → ℕ → ℕ → List A → List A
slice from to xs = if leb from to && leb to (length xs) then drop from (take to xs) else []

abbrev pub slice_from {ℓ} : {A : Type ℓ} → ℕ → List A → List A
slice_from from xs = if leb from (length xs) then drop from xs else []

module _ {T C S : Type 0} where
  -- `MemoryStorage::default`.
  abbrev pub default : MemoryStorage T C S
  default = record {
    log = [];
    n_prom = none;
    acc_round = none;
    ld = 0;
    trimmed_idx = 0;
    compacted_idx = 0;
    snapshot = none;
    stopsign = none;
  }

  unfoldable pub append_entry : T → MemoryStorage T C S → MemoryStorage T C S
  append_entry entry s = record s { log = s.log ++ entry ∷ [] }

  unfoldable pub append_entries : List T → MemoryStorage T C S → MemoryStorage T C S
  append_entries entries s = record s { log = s.log ++ entries }

  unfoldable pub append_on_prefix : ℕ → List T → MemoryStorage T C S → MemoryStorage T C S
  unfolding append_entries
  append_on_prefix from_idx entries s =
      append_entries entries (record s { log = take (sub_u64 from_idx s.trimmed_idx) s.log })

  unfoldable pub set_promise : Ballot → MemoryStorage T C S → MemoryStorage T C S
  set_promise n_prom s = record s { n_prom = some n_prom }

  unfoldable pub set_decided_idx : ℕ → MemoryStorage T C S → MemoryStorage T C S
  set_decided_idx ld s = record s { ld = ld }

  unfoldable pub set_accepted_round : Ballot → MemoryStorage T C S → MemoryStorage T C S
  set_accepted_round na s = record s { acc_round = some na }

  unfoldable pub get_entries : ℕ → ℕ → MemoryStorage T C S → List T
  get_entries from to s =
      if ltb from s.trimmed_idx || (ltb to s.trimmed_idx || ltb to from)
      then []
      else slice (from - s.trimmed_idx) (to - s.trimmed_idx) s.log

  abbrev pub get_log_len : MemoryStorage T C S → ℕ
  get_log_len s = length s.log

  unfoldable pub get_suffix : ℕ → MemoryStorage T C S → List T
  get_suffix from s = slice_from (sub_u64 from s.trimmed_idx) s.log

  unfoldable pub set_stopsign : Option (StopSign C) → MemoryStorage T C S → MemoryStorage T C S
  set_stopsign ss s = record s { stopsign = ss }

  unfoldable pub trim : ℕ → MemoryStorage T C S → MemoryStorage T C S
  trim trimmed_idx s =
      let to_trim = min (sub_u64 trimmed_idx s.trimmed_idx) (length s.log) in
      record s { log = drop to_trim s.log; trimmed_idx = trimmed_idx }

  unfoldable pub set_compacted_idx : ℕ → MemoryStorage T C S → MemoryStorage T C S
  set_compacted_idx idx s = record s { compacted_idx = idx }

  unfoldable pub set_snapshot : Option S → MemoryStorage T C S → MemoryStorage T C S
  set_snapshot snapshot s = record s { snapshot = snapshot }

  -- One operation of `write_atomically`.
  unfoldable pub write : StorageOp T C S → MemoryStorage T C S → MemoryStorage T C S
  unfolding append_entry append_entries append_on_prefix set_promise set_decided_idx
      set_accepted_round set_stopsign trim set_compacted_idx set_snapshot
  write (StorageOp.append_entry entry) s = append_entry entry s
  write (StorageOp.append_entries entries) s = append_entries entries s
  write (StorageOp.append_on_prefix from_idx entries) s = append_on_prefix from_idx entries s
  write (StorageOp.set_promise bal) s = set_promise bal s
  write (StorageOp.set_decided_index idx) s = set_decided_idx idx s
  write (StorageOp.set_accepted_round bal) s = set_accepted_round bal s
  write (StorageOp.set_compacted_idx idx) s = set_compacted_idx idx s
  write (StorageOp.trim idx) s = trim idx s
  write (StorageOp.set_stopsign ss) s = set_stopsign ss s
  write (StorageOp.set_snapshot snap) s = set_snapshot snap s

  unfoldable pub write_atomically :
      List (StorageOp T C S) → MemoryStorage T C S → MemoryStorage T C S
  unfolding write
  write_atomically [] s = s
  write_atomically (op ∷ ops) s = write_atomically ops (write op s)
