-- ===== src/Coded/Tests.antt =====
-- Replicas that code their entries, in a cluster of three: the value of an entry is copied to each.
use omnipaxos.Prelude.{ℕ, ◌≡◌, refl, false, Option, none, some, List, [], ◌∷◌, ◌++◌, map, arith}
use omnipaxos.Word.{sub_u64}
use omnipaxos.Ballot
use omnipaxos.Ballot.{Ballot}
use omnipaxos.Ballot.Order.{Le}
use omnipaxos.Quorum.{Quorum}
use omnipaxos.Sequence.{SequenceNumber}
use omnipaxos.Storage.{Snapshot, StopSign}
use omnipaxos.Storage.Internal.{InternalStorage}
use omnipaxos.Leader
use omnipaxos.Leader.{LeaderState, not_promised, pid_to_idx}
use omnipaxos.Paxos.{leader, accept}
use omnipaxos.Erasure.{EntryFragment, ok, decode}
use omnipaxos.Erasure.Entry.{OperationType, set, EcEntry, IsEntry}
use omnipaxos.Erasure.Copies.{copies, three, three-IsReedSolomon}
use omnipaxos.Coded.{SequencePaxosEc, get_promise}
use omnipaxos.Coded.Leader.{accept_entry_leader}
use omnipaxos.Coded.Leader.Same.{handle_leader, become_follower}
use omnipaxos.Coded.Recovery.{decode-encode_entry}
use omnipaxos.Coded.Accepting.{accept_entry_leader_sends}
use omnipaxos.Coded.Promised.{Step, Run, Run-promise_le_coded}

record Kv : Type 0 where
  key : List ℕ
  fragment : EntryFragment
  op : OperationType

abbrev kv : EcEntry Kv
kv = record {
  operation = λ e. e.op;
  key = λ e. e.key;
  value = λ e. e.fragment;
  from_parts = λ k f o. record { key = k; fragment = f; op = o };
}

abbrev kv-IsEntry : IsEntry kv
kv-IsEntry = record { key-from_parts = λ k f o. refl; value-from_parts = λ k f o. refl }

abbrev whole_log : Snapshot Kv (List Kv)
whole_log = record { create = λ xs. xs; merge = λ xs ys. xs ++ ys; use_snapshots = false }

abbrev serialize : StopSign ℕ → Option (List ℕ)
serialize ss = some (ss.next_config ∷ [])

abbrev request : Kv
request = record { key = 1 ∷ []; fragment = record { idx = 0; bytes = 7 ∷ 8 ∷ 9 ∷ [] }; op = set }

-- Servers 3 and 1 have stored their entries of the request.
decode-encode_entry_example :
    (stored : List Kv) × (decode copies three (map kv.value stored) ≡ some (ok (7 ∷ 8 ∷ 9 ∷ [])))
unfolding three
decode-encode_entry_example =
    let (coded, encoded, stored, stores, decoded) =
      decode-encode_entry copies three kv kv-IsEntry request (3 ∷ 1 ∷ []) (omega arith)
        three-IsReedSolomon
        (((omega arith, omega arith), ((omega arith, omega arith), tt)), (refl, (refl, tt)))
        (omega arith) in
    (stored, decoded)

abbrev ballot : ℕ → ℕ → Ballot
ballot n pid = record { config_id = 1; n = n; priority = 0; pid = pid }

abbrev empty_storage : InternalStorage Kv ℕ (List Kv)
empty_storage = record {
  storage = record {
    log = [];
    n_prom = some (ballot 3 1);
    acc_round = some (ballot 3 1);
    ld = 0;
    trimmed_idx = 0;
    compacted_idx = 0;
    snapshot = none;
    stopsign = none;
  };
  state_cache = record {
    batch_size = 1;
    batched_entries = [];
    promise = ballot 3 1;
    accepted_round = ballot 3 1;
    decided_idx = 0;
    accepted_idx = 0;
    compacted_idx = 0;
    stopsign = none;
  };
}

abbrev zero_num : SequenceNumber
zero_num = record { session = 0; counter = 0 }

abbrev records : LeaderState Kv ℕ (List Kv)
records = record {
  n_leader = ballot 3 1;
  promises_meta = not_promised ∷ not_promised ∷ not_promised ∷ [];
  follower_seq_nums = zero_num ∷ zero_num ∷ zero_num ∷ [];
  accepted_indexes = 0 ∷ 0 ∷ 0 ∷ [];
  max_promise_meta = Leader.default;
  max_promise_sync = none;
  latest_accept_meta = none ∷ none ∷ none ∷ [];
  max_pid = 3;
  quorum = Quorum.majority 2;
}

-- Server 1 leads round 3, with nothing accepted yet.
abbrev leading : SequencePaxosEc Kv ℕ (List Kv) (Unit {0})
leading = record {
  plain = record {
    internal_storage = empty_storage;
    pid = 1;
    peers = 2 ∷ 3 ∷ [];
    state = (leader, accept);
    buffered_proposals = [];
    buffered_stopsign = none;
    outgoing = [];
    leader_state = records;
    latest_accepted_meta = none;
    current_seq_num = zero_num;
    cached_promise_message = none;
  };
  ec_service = three;
}

accept_entry_leader_sends_example :
    (q : SequencePaxosEc Kv ℕ (List Kv) (Unit {0})) × (accept_entry_leader copies kv request leading
      ≡ some q)
unfolding three pid_to_idx sub_u64
accept_entry_leader_sends_example =
    let (coded, own, stored, q, sent, encodes, stores, runs, kept, out, are) =
      accept_entry_leader_sends copies kv kv-IsEntry request leading three-IsReedSolomon refl
        (omega arith, (omega arith, (omega arith, tt))) in
    (q, runs)

-- Server 2 has been elected in round 4.
abbrev following : SequencePaxosEc Kv ℕ (List Kv) (Unit {0})
following = become_follower leading

elected : handle_leader (ballot 4 2) leading ≡ some following
unfolding handle_leader become_follower Ballot.le Ballot.cmp
elected = refl

Run-promise_le_coded_example : Le (get_promise leading) (get_promise following)
Run-promise_le_coded_example =
    Run-promise_le_coded copies kv serialize whole_log leading following
      (Run.next Run.here (Step.elects (ballot 4 2) leading following elected))
