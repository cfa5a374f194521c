-- ===== src/Paxos/Tests/Leading.antt =====
-- Server 3 prepares round 5 in a cluster of three, and has its own promise.
use omnipaxos.Prelude.{
  ℕ, zero, suc, ◌+◌, ◌≡◌, refl, some, List, [], ◌∷◌, All, map, get_elem?, arith,
}
use omnipaxos.Word.{sub_u64}
use omnipaxos.Ballot
use omnipaxos.Quorum.{is_prepare_quorum}
use omnipaxos.Leader.{PromiseMetaData, not_promised, promised, LeaderState, pid_to_idx}
use omnipaxos.Messages.{AcceptSync}
use omnipaxos.Paxos.{leader, prepare, accept}
use omnipaxos.Paxos.LeaderRole.Preparing.{handle_promise_prepare}
use omnipaxos.Paxos.Opening.{acc_sync_from}
use omnipaxos.Paxos.Leading.{HasShape}
use omnipaxos.Paxos.Leading.Promising.{handle_promise_prepare_leads}
use omnipaxos.Paxos.Tests.{
  Replica, whole_log, ballot, storage_of, leader_records, following, promise_five,
}

abbrev own_promise : PromiseMetaData
own_promise = record { n_accepted = ballot 3 1; accepted_idx = 3; decided_idx = 2; pid = 3 }

abbrev records : LeaderState ℕ ℕ (List ℕ)
records = record (leader_records (ballot 5 3) (0 ∷ 0 ∷ 0 ∷ [])) {
  promises_meta = not_promised ∷ not_promised ∷ promised own_promise ∷ [];
  max_promise_meta = own_promise;
}

abbrev preparing : Replica
preparing = record following {
  internal_storage = storage_of (ballot 5 3) (5 ∷ 6 ∷ 7 ∷ []) 2;
  pid = 3;
  peers = 1 ∷ 2 ∷ [];
  state = (leader, prepare);
  leader_state = records;
}

promise_of_three :
    (i : ℕ) (m : PromiseMetaData)
    → get_elem? records.promises_meta i ≡ some (promised m)
    → m.pid ≡ i + 1
promise_of_three zero m e = ground (arith, e)
promise_of_three (suc zero) m e = ground (arith, e)
promise_of_three (suc (suc zero)) m e = ground (arith, e)
promise_of_three (suc (suc (suc i))) m e = ground (arith, e)

records-HasShape : HasShape records
records-HasShape = record {
  promises = refl;
  seq_nums = refl;
  accepted = refl;
  fits = omega arith;
  pids = promise_of_three;
}

-- The promise of server 2 takes server 3 to the accept phase.
handle_promise_prepare_leads_example :
    (q : Replica) × (sent : List (ℕ × AcceptSync ℕ ℕ (List ℕ))) × (handle_promise_prepare whole_log
        promise_five 2 preparing
      ≡ some q)
    × (q.state ≡ (leader, accept))
    × (q.outgoing ≡ map (acc_sync_from 3) sent)
    × (map (λ s. s.0) sent ≡ 2 ∷ [])
    × All (λ s. s.1.n ≡ ballot 5 3) sent
unfolding Ballot.cmp pid_to_idx sub_u64 is_prepare_quorum
handle_promise_prepare_leads_example =
    handle_promise_prepare_leads whole_log refl promise_five 2 preparing records-HasShape tt tt refl
      (omega arith) (omega arith) (omega arith) (omega arith) refl
