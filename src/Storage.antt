-- ===== src/Storage.antt =====
-- The types of omnipaxos/src/storage/mod.rs and those of omnipaxos/src/util.rs that the storage
-- uses. An entry type `T` comes with its snapshot type `S`, a configuration type is `C`.
pub mod Memory
pub mod Cache
pub mod Internal
use omnipaxos.Prelude.{ℕ, ◌≡◌, refl, Bool, Option, List, ◌++◌}
use omnipaxos.Ballot.{Ballot}

pub record StopSign (C : Type 0) : Type 0 where
  pub next_config : C
  pub metadata : Option (List ℕ)

pub data SnapshotType (S : Type 0) : Type 0 where
  complete delta : S → SnapshotType S

-- The trait `Snapshot<T>`, which the user of the library implements.
pub record Snapshot (T S : Type 0) : Type 0 where
  pub create : List T → S
  pub merge : S → S → S
  pub use_snapshots : Bool

-- What the protocol relies on: a snapshot of a log is the snapshot of its first part, merged with
-- the snapshot of the rest.
pub record IsLawful {T S : Type 0} (s : Snapshot T S) : Type 0 where
  pub merge-create : (xs ys : List T) → s.merge (s.create xs) (s.create ys) ≡ s.create (xs ++ ys)

pub data StorageOp (T C S : Type 0) : Type 0 where
  append_entry : T → StorageOp T C S
  append_entries : List T → StorageOp T C S
  append_on_prefix : ℕ → List T → StorageOp T C S
  set_promise : Ballot → StorageOp T C S
  set_decided_index : ℕ → StorageOp T C S
  set_accepted_round : Ballot → StorageOp T C S
  set_compacted_idx : ℕ → StorageOp T C S
  trim : ℕ → StorageOp T C S
  set_stopsign : Option (StopSign C) → StorageOp T C S
  set_snapshot : Option S → StorageOp T C S

-- `LogSync`: what brings another server's log up to date.
pub record LogSync (T C S : Type 0) : Type 0 where
  pub decided_snapshot : Option (SnapshotType S)
  pub suffix : List T
  pub sync_idx : ℕ
  pub stopsign : Option (StopSign C)

-- `CompactionErr` of omnipaxos/src/omni_paxos.rs.
pub data CompactionErr : Type 0 where
  undecided_index : ℕ → CompactionErr
  trimmed_index : ℕ → CompactionErr
  not_all_decided : ℕ → CompactionErr
  not_current_leader : ℕ → CompactionErr

-- `StorageResult`: the storage in memory never fails, so the errors are those of compaction.
pub data StorageResult (A : Type 0) : Type 0 where
  ok : A → StorageResult A
  err : CompactionErr → StorageResult A

infixl 5 ◌>>=◌
abbrev pub ◌>>=◌ : {A B : Type 0} → StorageResult A → (A → StorageResult B) → StorageResult B
err failure >>= next = err failure
ok x >>= next = next x

-- `LogEntry` and `IndexEntry` of omnipaxos/src/util.rs.
pub data LogEntry (T C S : Type 0) : Type 0 where
  decided undecided : T → LogEntry T C S
  trimmed : ℕ → LogEntry T C S
  snapshotted : ℕ → S → LogEntry T C S
  stop_sign : StopSign C → Bool → LogEntry T C S

pub data IndexEntry (C : Type 0) : Type 0 where
  entry compacted : IndexEntry C
  stop_sign : StopSign C → IndexEntry C

-- What a chain returns, its last step has returned, from what the first step has.
pub >>=-eq-ok :
    {A B : Type 0} (first : StorageResult A) (rest : A → StorageResult B) {y : B}
    → (first >>= rest) ≡ ok y
    → (x : A) × (first ≡ ok x) × (rest x ≡ ok y)
>>=-eq-ok (err failure) rest returned = cc
>>=-eq-ok (ok x) rest returned = (x, refl, returned)
