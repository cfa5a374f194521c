-- ===== src/Paxos/Tests.antt =====
-- Runs of a replica, and its theorems at a cluster of three. The snapshot of a log is the log.
mod Leading
mod Trimming
use omnipaxos.Prelude.{
  ℕ, ◌≡◌, refl, ◌⊎◌, false, none, some, List, [], ◌∷◌, ◌++◌, length, arith, Ordering,
}
use omnipaxos.Word.{sub_u64, inc_u64}
use omnipaxos.Ballot
use omnipaxos.Ballot.{Ballot}
use omnipaxos.Ballot.Order.{Le}
use omnipaxos.Quorum.{Quorum}
use omnipaxos.Sequence.{SequenceNumber, check_msg_status}
use omnipaxos.Storage.{Snapshot}
use omnipaxos.Storage.Internal.{InternalStorage}
use omnipaxos.Storage.Internal.Agreement.{IsValid}
use omnipaxos.Storage.Internal.History.{Keeps}
use omnipaxos.Leader
use omnipaxos.Leader.{LeaderState, not_promised}
use omnipaxos.Messages.{Promise, AcceptSync, Accepted, PaxosMsg, PaxosMessage}
use omnipaxos.Paxos.{
  follower, leader, prepare, accept, SequencePaxos, get_promise, create_log_sync, push,
}
use omnipaxos.Paxos.FollowerRole.Preparing.{accept_sync}
use omnipaxos.Paxos.LeaderRole.Deciding.{handle_accepted}
use omnipaxos.Paxos.Replica.{handle}
use omnipaxos.Paxos.Promised.{Raises, handle-Raises, Step, Run, Run-promise_le}
use omnipaxos.Paxos.Accepting.{Advances, handle-Advances}
use omnipaxos.Paxos.Decisions.{Decides, handle_accepted-Decides}
use omnipaxos.Paxos.Guards.{IsLetThrough, handle_guard, handle_stale}
use omnipaxos.Paxos.Pointers.{IsWithin, handle-numbered-Safe}
use omnipaxos.Paxos.Synchronised.{Agree, accept_sync_synchronises}

abbrev Replica : Type 0
Replica = SequencePaxos ℕ ℕ (List ℕ)

abbrev whole_log : Snapshot ℕ (List ℕ)
whole_log = record { create = λ xs. xs; merge = λ xs ys. xs ++ ys; use_snapshots = false }

abbrev ballot : ℕ → ℕ → Ballot
ballot n pid = record { config_id = 1; n = n; priority = 0; pid = pid }

abbrev storage_of : Ballot → List ℕ → ℕ → InternalStorage ℕ ℕ (List ℕ)
storage_of b log decided_idx = record {
  storage = record {
    log = log;
    n_prom = some b;
    acc_round = some b;
    ld = decided_idx;
    trimmed_idx = 0;
    compacted_idx = 0;
    snapshot = none;
    stopsign = none;
  };
  state_cache = record {
    batch_size = 1;
    batched_entries = [];
    promise = b;
    accepted_round = b;
    decided_idx = decided_idx;
    accepted_idx = length log;
    compacted_idx = 0;
    stopsign = none;
  };
}

abbrev zero_num : SequenceNumber
zero_num = record { session = 0; counter = 0 }

abbrev leader_records : Ballot → List ℕ → LeaderState ℕ ℕ (List ℕ)
leader_records b accepted_indexes = record {
  n_leader = b;
  promises_meta = not_promised ∷ not_promised ∷ not_promised ∷ [];
  follower_seq_nums = zero_num ∷ zero_num ∷ zero_num ∷ [];
  accepted_indexes = accepted_indexes;
  max_promise_meta = Leader.default;
  max_promise_sync = none;
  latest_accept_meta = none ∷ none ∷ none ∷ [];
  max_pid = 3;
  quorum = Quorum.majority 2;
}

-- Server 2 follows server 1 in round 3, with three entries of which two are decided.
abbrev following : Replica
following = record {
  internal_storage = storage_of (ballot 3 1) (5 ∷ 6 ∷ 7 ∷ []) 2;
  pid = 2;
  peers = 1 ∷ 3 ∷ [];
  state = (follower, accept);
  buffered_proposals = [];
  buffered_stopsign = none;
  outgoing = [];
  leader_state = leader_records (ballot 0 0) (0 ∷ 0 ∷ 0 ∷ []);
  latest_accepted_meta = none;
  current_seq_num = record { session = 1; counter = 4 };
  cached_promise_message = none;
}

-- Server 3 prepares round 5.
abbrev prepare_five : PaxosMessage ℕ ℕ (List ℕ)
prepare_five = record {
  from = 3;
  to = 2;
  msg =
      PaxosMsg.prepare
        (record { n = ballot 5 3; decided_idx = 1; n_accepted = ballot 3 1; accepted_idx = 3 });
}

abbrev promise_five : Promise ℕ ℕ (List ℕ)
promise_five = record {
  n = ballot 5 3;
  n_accepted = ballot 3 1;
  decided_idx = 2;
  accepted_idx = 3;
  log_sync = none;
}

abbrev stored_five : InternalStorage ℕ ℕ (List ℕ)
stored_five =
    let st = storage_of (ballot 3 1) (5 ∷ 6 ∷ 7 ∷ []) 2 in
    record st {
      storage = record (st.storage) { n_prom = some (ballot 5 3) };
      state_cache = record (st.state_cache) { promise = ballot 5 3 };
    }

abbrev promised_five : Replica
promised_five = record following {
  internal_storage = stored_five;
  state = (follower, prepare);
  current_seq_num = zero_num;
  cached_promise_message = some promise_five;
  outgoing = record { from = 2; to = 3; msg = PaxosMsg.promise promise_five } ∷ [];
}

handle-prepare_five : handle whole_log prepare_five following ≡ some promised_five
unfolding handle Ballot.lt Ballot.le Ballot.cmp
handle-prepare_five = refl

handle-Raises_example :
    Raises whole_log prepare_five.msg (get_promise following) (get_promise promised_five)
handle-Raises_example =
    handle-Raises whole_log prepare_five following promised_five handle-prepare_five

Run-promise_le_example : Le (get_promise following) (get_promise promised_five)
Run-promise_le_example =
    Run-promise_le whole_log following promised_five
      (Run.next Run.here (Step.receives prepare_five following promised_five handle-prepare_five))

-- The next message of the leader, and one of a round that is over.
abbrev accept_decide : Ballot → PaxosMessage ℕ ℕ (List ℕ)
accept_decide b = record {
  from = b.pid;
  to = 2;
  msg = PaxosMsg.accept_decide (record {
    n = b;
    seq_num = record { session = 1; counter = 5 };
    decided_idx = 3;
    entries = 8 ∷ [];
  });
}

abbrev accepted_eight : Replica
accepted_eight = record following {
  internal_storage = storage_of (ballot 3 1) (5 ∷ 6 ∷ 7 ∷ 8 ∷ []) 3;
  current_seq_num = record { session = 1; counter = 5 };
  outgoing =
      record {
        from = 2;
        to = 1;
        msg = PaxosMsg.accepted (record { n = ballot 3 1; accepted_idx = 4 });
      }
      ∷ [];
  latest_accepted_meta = some (ballot 3 1, 0);
}

handle-accept_decide : handle whole_log (accept_decide (ballot 3 1)) following ≡ some accepted_eight
unfolding handle Ballot.lt Ballot.le Ballot.cmp inc_u64 check_msg_status
handle-accept_decide = refl

handle_guard_example :
    (accepted_eight.internal_storage ≡ following.internal_storage)
    ⊎ IsLetThrough (ballot 3 1) (record { session = 1; counter = 5 }) following
handle_guard_example =
    handle_guard whole_log (accept_decide (ballot 3 1)) (ballot 3 1)
      (record { session = 1; counter = 5 }) following accepted_eight refl handle-accept_decide

older : Ballot.cmp (get_promise following) (ballot 2 3) ≡ Ordering.gt
unfolding Ballot.cmp
older = refl

handle_stale_example :
    handle whole_log (accept_decide (ballot 2 3)) following
    ≡ some (push 3 (PaxosMsg.not_accepted (record { n = ballot 3 1 })) following)
handle_stale_example =
    handle_stale whole_log (accept_decide (ballot 2 3)) (ballot 2 3)
      (record { session = 1; counter = 5 }) following refl older

handle-numbered-Safe_example :
    (q : Replica) × (handle whole_log (accept_decide (ballot 3 1)) accepted_eight ≡ some q)
    × IsWithin q
handle-numbered-Safe_example =
    handle-numbered-Safe whole_log (accept_decide (ballot 3 1))
      (ballot 3 1, record { session = 1; counter = 5 }) accepted_eight refl (omega arith)

-- Server 1 leads round 3; it and server 2 have accepted three entries.
abbrev leading : Replica
leading = record following {
  pid = 1;
  peers = 2 ∷ 3 ∷ [];
  state = (leader, accept);
  leader_state = leader_records (ballot 3 1) (3 ∷ 2 ∷ 2 ∷ []);
}

abbrev accepted_three : Accepted
accepted_three = record { n = ballot 3 1; accepted_idx = 3 }

abbrev decided_three : Replica
decided_three = record leading {
  internal_storage = storage_of (ballot 3 1) (5 ∷ 6 ∷ 7 ∷ []) 3;
  leader_state = leader_records (ballot 3 1) (3 ∷ 3 ∷ 2 ∷ []);
}

handle_accepted-three : handle_accepted accepted_three 2 leading ≡ some decided_three
unfolding handle_accepted sub_u64 Leader.pid_to_idx
handle_accepted-three = refl

handle_accepted-Decides_example :
    (decided_three.internal_storage ≡ leading.internal_storage)
    ⊎ Decides accepted_three 2 leading decided_three
handle_accepted-Decides_example =
    handle_accepted-Decides accepted_three 2 leading decided_three handle_accepted-three

-- The follower shares two entries with the leader, and has one that the leader does not have.
abbrev diverged : Replica
diverged = record following {
  internal_storage = storage_of (ballot 2 3) (5 ∷ 6 ∷ 99 ∷ []) 2;
  state = (follower, prepare);
}

abbrev sync_two : AcceptSync ℕ ℕ (List ℕ)
sync_two = record {
  n = ballot 3 1;
  seq_num = record { session = 1; counter = 1 };
  decided_idx = 2;
  log_sync = record { decided_snapshot = none; suffix = 7 ∷ []; sync_idx = 2; stopsign = none };
}

storage-IsValid : IsValid leading.internal_storage × IsValid diverged.internal_storage
storage-IsValid = (ground arith, ground arith)

Agree-two : Agree whole_log 2 (5 ∷ 6 ∷ 7 ∷ []) (5 ∷ 6 ∷ 99 ∷ []) leading diverged
Agree-two = record {
  leading_valid = storage-IsValid.0;
  following_valid = storage-IsValid.1;
  leading_log = record { log = refl; past = refl; within = omega arith };
  following_log = record { log = refl; past = refl; within = omega arith };
  same = refl;
  leading_within = omega arith;
  following_within = omega arith;
  leading_above = omega arith;
  following_above = omega arith;
}

create_log_sync-two : create_log_sync whole_log 2 2 leading ≡ some sync_two.log_sync
unfolding create_log_sync sub_u64
create_log_sync-two = refl

accept_sync_synchronises_example :
    (q : Replica) × (accept_sync whole_log sync_two 1 diverged ≡ some q)
    × Keeps whole_log (5 ∷ 6 ∷ 7 ∷ []) q.internal_storage
    × (q.internal_storage.state_cache.stopsign ≡ leading.internal_storage.state_cache.stopsign)
accept_sync_synchronises_example =
    accept_sync_synchronises whole_log 2 2 (5 ∷ 6 ∷ 7 ∷ []) (5 ∷ 6 ∷ 99 ∷ []) leading diverged
      sync_two 1 Agree-two refl create_log_sync-two

following-IsValid : IsValid following.internal_storage
following-IsValid = ground arith

handle-Advances_example : Advances following.internal_storage accepted_eight.internal_storage
handle-Advances_example =
    handle-Advances whole_log (accept_decide (ballot 3 1))
      (ballot 3 1, record { session = 1; counter = 5 }) following accepted_eight refl
      following-IsValid handle-accept_decide
