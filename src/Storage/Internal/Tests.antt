-- ===== src/Storage/Internal/Tests.antt =====
-- Runs of the storage, and its theorems at a log of five entries of which two are compacted. The
-- snapshot of a log is the log itself.
use omnipaxos.Prelude.{
  map, drop, max, ◌↔◌, ℕ, ◌+◌, ◌<◌, ◌≡◌, refl, true, none, some, List, [], ◌∷◌, ◌++◌, length, take,
  arith,
}
use omnipaxos.Word.{sub_u64}
use omnipaxos.Ballot.{Ballot}
use omnipaxos.Storage.{StopSign, LogEntry, SnapshotType, Snapshot, IsLawful, LogSync, ok}
use omnipaxos.Storage.Memory
use omnipaxos.Storage.Memory.{MemoryStorage}
use omnipaxos.Storage.Internal.{
  InternalStorage, with_storage, append_entry_with_batching, set_promise,
}
use omnipaxos.Storage.Internal.Compaction.{try_snapshot, sync_log}
use omnipaxos.Storage.Internal.Read.{Bound, read, read_decided_suffix}
use omnipaxos.Storage.Internal.Read.Decided.{compacted_part, read_decided_suffix-history}
use omnipaxos.Storage.Internal.Read.Panics.{read_panics}
use omnipaxos.Storage.Internal.Agreement.{IsValid}
use omnipaxos.Storage.Internal.Reach.{Step, Reach, recover_reachable}
use omnipaxos.Storage.Internal.History.{Keeps, try_snapshot-Keeps}
use omnipaxos.Storage.Internal.Sync.{
  sync_log_suffix-Keeps, sync_log_complete-Keeps, sync_log_delta_drops,
}
use omnipaxos.Storage.Internal.Batching.{append_all, append_all_conserves, append_all_bounded}

abbrev Stored : Type 0
Stored = InternalStorage ℕ ℕ (List ℕ)

abbrev whole_log : Snapshot ℕ (List ℕ)
whole_log = record { create = λ xs. xs; merge = λ xs ys. xs ++ ys; use_snapshots = true }

whole_log-IsLawful : IsLawful whole_log
whole_log-IsLawful = record { merge-create = λ xs ys. refl }

abbrev round : Ballot
round = record { config_id = 1; n = 3; priority = 0; pid = 2 }

abbrev empty : Stored
empty = with_storage Memory.default 2

abbrev running : Stored
running =
    (append_entry_with_batching 9
      (set_promise round (append_entry_with_batching 8 (append_entry_with_batching 7 empty).1).1)).1

run : Reach whole_log empty running
run =
    Reach.next
      (Reach.next
        (Reach.next (Reach.next Reach.here (Step.appends 7 empty))
          (Step.appends 8 (append_entry_with_batching 7 empty).1))
        (Step.promises round
          (append_entry_with_batching 8 (append_entry_with_batching 7 empty).1).1))
      (Step.appends 9
        (set_promise round (append_entry_with_batching 8 (append_entry_with_batching 7 empty).1).1))

recover_reachable_example :
    with_storage running.storage running.state_cache.batch_size
    ≡ record running { state_cache = record (running.state_cache) { batched_entries = [] } }
recover_reachable_example = recover_reachable whole_log 2 running run

-- Five entries, of which the first two are compacted and four are decided.
abbrev history : List ℕ
history = 5 ∷ 6 ∷ 7 ∷ 8 ∷ 9 ∷ []

abbrev stored : Stored
stored = record {
  storage = record {
    log = 7 ∷ 8 ∷ 9 ∷ [];
    n_prom = some round;
    acc_round = some round;
    ld = 4;
    trimmed_idx = 2;
    compacted_idx = 2;
    snapshot = some (5 ∷ 6 ∷ []);
    stopsign = none;
  };
  state_cache = record {
    batch_size = 1;
    batched_entries = [];
    promise = round;
    accepted_round = round;
    decided_idx = 4;
    accepted_idx = 5;
    compacted_idx = 2;
    stopsign = none;
  };
}

stored-IsValid : IsValid stored
stored-IsValid = record {
  promise = refl;
  round = refl;
  decided = refl;
  compacted = refl;
  trimmed = refl;
  stopsign = refl;
  accepted = refl;
  decided_le = omega arith;
}

stored-Keeps : Keeps whole_log history stored
stored-Keeps = record { log = refl; past = refl; within = omega arith }

try_snapshot-Keeps_example :
    (st : Stored) × (try_snapshot whole_log (some 3) stored ≡ ok st) × Keeps whole_log history st
try_snapshot-Keeps_example =
    try_snapshot-Keeps whole_log whole_log-IsLawful history (some 3) stored stored-IsValid
      stored-Keeps (omega arith)

abbrev suffix_sync : LogSync ℕ ℕ (List ℕ)
suffix_sync = record {
  decided_snapshot = none;
  suffix = 20 ∷ 21 ∷ [];
  sync_idx = 4;
  stopsign = none;
}

abbrev after_suffix : Stored
after_suffix = record stored {
  storage = record (stored.storage) { log = 7 ∷ 8 ∷ 20 ∷ 21 ∷ []; ld = 5 };
  state_cache = record (stored.state_cache) { decided_idx = 5; accepted_idx = 6 };
}

sync_log-suffix : sync_log whole_log round 5 (some suffix_sync) stored ≡ ok (6, after_suffix)
unfolding sync_log sub_u64
sync_log-suffix = refl

sync_log_suffix-Keeps_example : Keeps whole_log (take 4 history ++ 20 ∷ 21 ∷ []) after_suffix
sync_log_suffix-Keeps_example =
    sync_log_suffix-Keeps whole_log round 5 stored stored-IsValid history suffix_sync after_suffix 6
      stored-Keeps refl (omega arith) (omega arith) sync_log-suffix

abbrev complete_sync : LogSync ℕ ℕ (List ℕ)
complete_sync = record {
  decided_snapshot = some (SnapshotType.complete (1 ∷ 2 ∷ 3 ∷ []));
  suffix = 4 ∷ [];
  sync_idx = 3;
  stopsign = none;
}

abbrev after_complete : Stored
after_complete = record stored {
  storage = record (stored.storage) {
    log = 4 ∷ [];
    ld = 4;
    trimmed_idx = 3;
    compacted_idx = 3;
    snapshot = some (1 ∷ 2 ∷ 3 ∷ []);
  };
  state_cache = record (stored.state_cache) {
    decided_idx = 4;
    accepted_idx = 4;
    compacted_idx = 3;
  };
}

sync_log_complete : sync_log whole_log round 4 (some complete_sync) stored ≡ ok (4, after_complete)
unfolding sync_log sub_u64
sync_log_complete = refl

sync_log_complete-Keeps_example : Keeps whole_log (1 ∷ 2 ∷ 3 ∷ 4 ∷ []) after_complete
sync_log_complete-Keeps_example =
    sync_log_complete-Keeps whole_log round 4 stored stored-IsValid (1 ∷ 2 ∷ 3 ∷ []) complete_sync
      after_complete 4 refl refl (omega arith) sync_log_complete

-- Two entries that are decided, and the delta of a server that has decided four.
abbrev behind : Stored
behind = record stored {
  storage = record (stored.storage) {
    log = 5 ∷ 6 ∷ [];
    ld = 2;
    trimmed_idx = 0;
    compacted_idx = 0;
    snapshot = none;
  };
  state_cache = record (stored.state_cache) {
    decided_idx = 2;
    accepted_idx = 2;
    compacted_idx = 0;
  };
}

behind-IsValid : IsValid behind
behind-IsValid = record {
  promise = refl;
  round = refl;
  decided = refl;
  compacted = refl;
  trimmed = refl;
  stopsign = refl;
  accepted = refl;
  decided_le = omega arith;
}

abbrev delta_sync : LogSync ℕ ℕ (List ℕ)
delta_sync = record {
  decided_snapshot = some (SnapshotType.delta (7 ∷ 8 ∷ []));
  suffix = [];
  sync_idx = 4;
  stopsign = none;
}

abbrev after_delta : Stored
after_delta = record behind {
  storage = record (behind.storage) {
    log = [];
    ld = 4;
    trimmed_idx = 4;
    compacted_idx = 4;
    snapshot = some (7 ∷ 8 ∷ []);
  };
  state_cache = record (behind.state_cache) {
    decided_idx = 4;
    accepted_idx = 4;
    compacted_idx = 4;
  };
}

sync_log-delta : sync_log whole_log round 4 (some delta_sync) behind ≡ ok (4, after_delta)
unfolding sync_log sub_u64
sync_log-delta = refl

sync_log_delta_drops_example : after_delta.storage.snapshot ≡ some ([] ++ 7 ∷ 8 ∷ [])
sync_log_delta_drops_example =
    sync_log_delta_drops whole_log round 4 behind behind-IsValid (7 ∷ 8 ∷ []) delta_sync after_delta
      4 refl refl refl (omega arith) sync_log-delta

append_all_conserves_example :
    let (sent, st) = append_all (7 ∷ 8 ∷ 9 ∷ []) empty in
    (st.storage.log ≡ empty.storage.log ++ sent)
    × (sent ++ st.state_cache.batched_entries ≡ empty.state_cache.batched_entries ++ 7 ∷ 8 ∷ 9 ∷ [])
    × (st.state_cache.accepted_idx ≡ empty.state_cache.accepted_idx + length sent)
append_all_conserves_example = append_all_conserves (7 ∷ 8 ∷ 9 ∷ []) empty

append_all_bounded_example :
    let st = (append_all (7 ∷ 8 ∷ 9 ∷ []) stored).1 in
    length st.state_cache.batched_entries < st.state_cache.batch_size
append_all_bounded_example = append_all_bounded (7 ∷ 8 ∷ 9 ∷ []) stored (omega arith) (omega arith)

-- Reading from the first entry shows the snapshot and then the two decided entries.
read_decided_suffix-history_example :
    read_decided_suffix 0 stored
    ≡ some
        (some (compacted_part 0 stored ++ map LogEntry.decided (drop (max 0 2) (take 4 history))))
read_decided_suffix-history_example =
    read_decided_suffix-history whole_log history stored stored-IsValid stored-Keeps 0 refl
      (omega arith)

-- A log of three entries and a stopsign, at position 3.
abbrev stopped : Stored
stopped = record stored {
  storage = record (stored.storage) {
    log = 5 ∷ 6 ∷ 7 ∷ [];
    trimmed_idx = 0;
    compacted_idx = 0;
    snapshot = none;
    stopsign = some (record { next_config = 2; metadata = none });
  };
  state_cache = record (stored.state_cache) {
    accepted_idx = 4;
    compacted_idx = 0;
    stopsign = some (record { next_config = 2; metadata = none });
  };
}

read_panics_example : (read (Bound.included 3) (Bound.excluded 3) stopped ≡ none) ↔ (
    (ss : StopSign ℕ) × (stopped.state_cache.stopsign ≡ some ss) × (3 + 1 ≡ 4) × (0 < 3) × (3 < 4))
read_panics_example = read_panics 3 3 stopped
