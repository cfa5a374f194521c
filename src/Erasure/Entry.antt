-- ===== src/Erasure/Entry.antt =====
-- What an entry is for erasure-coded consensus: omnipaxos/src/erasure/log_entry.rs. A key, which is
-- a string, is a list of numbers.
use omnipaxos.Prelude.{ℕ, List, ◌≡◌}
use omnipaxos.Erasure.{EntryFragment}

pub data OperationType : Type 0 where
  null get reconstruct set delete : OperationType

-- The trait `ECEntry`, which the user of the library implements.
pub record EcEntry (T : Type 0) : Type 0 where
  pub operation : T → OperationType
  pub key : T → List ℕ
  pub value : T → EntryFragment
  pub from_parts : List ℕ → EntryFragment → OperationType → T

-- What is asked of it: an entry has the parts that it is made from.
pub record IsEntry {T : Type 0} (e : EcEntry T) : Type 0 where
  pub key-from_parts :
      (k : List ℕ) (f : EntryFragment) (op : OperationType) → e.key (e.from_parts k f op) ≡ k
  pub value-from_parts :
      (k : List ℕ) (f : EntryFragment) (op : OperationType) → e.value (e.from_parts k f op) ≡ f
