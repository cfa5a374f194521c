-- ===== src/Server/Tests.antt =====
-- Runs of a server, and its theorems at server 1 of three that has just been built.
use omnipaxos.Prelude.{ℕ, ◌+◌, ◌≡◌, refl, false, Option, none, some, List, [], ◌∷◌, ◌++◌, arith}
use omnipaxos.Word.{inc_u32, inc_u64, sub_u64}
use omnipaxos.Ballot
use omnipaxos.Ballot.{Ballot}
use omnipaxos.Ballot.Order.{Le, Lt}
use omnipaxos.Quorum.{with_config}
use omnipaxos.Clock.{with_timeout}
use omnipaxos.Storage.Memory
use omnipaxos.Storage.{Snapshot}
use omnipaxos.Paxos.{SequencePaxos, get_promise, follower, idle}
use omnipaxos.Paxos.Replica.{SequencePaxosConfig}
use omnipaxos.Leader
use omnipaxos.Election.{BleConfig, with_ble_config}
use omnipaxos.Config.{ClusterConfig, ServerConfig, OmniPaxosConfig, validate}
use omnipaxos.Server.Building.{build_panics}
use omnipaxos.Server.{built, build, OmniPaxos, tick, try_become_leader}
use omnipaxos.Server.Ticks.{tick-promise, try_become_leader-promise}

abbrev whole_log : Snapshot ℕ (List ℕ)
whole_log = record { create = λ xs. xs; merge = λ xs ys. xs ++ ys; use_snapshots = false }

-- The value of a step that does not panic.
abbrev value_or {ℓ} : {A : Type ℓ} → Option A → A → A
value_or (some a) b = a
value_or none b = b

abbrev replica_config : SequencePaxosConfig
replica_config = record { pid = 1; peers = 2 ∷ 3 ∷ []; batch_size = 1; flexible_quorum = none }

abbrev ble_config : BleConfig
ble_config = record {
  configuration_id = 1;
  pid = 1;
  peers = 2 ∷ 3 ∷ [];
  priority = 0;
  flexible_quorum = none;
}

-- The replica before its peers are known.
abbrev alone : (C : Type 0) → SequencePaxos ℕ C (List ℕ)
alone C = record {
  internal_storage = record {
    storage = Memory.default;
    state_cache = record {
      batch_size = 1;
      batched_entries = [];
      promise = Ballot.default;
      accepted_round = Ballot.default;
      decided_idx = 0;
      accepted_idx = 0;
      compacted_idx = 0;
      stopsign = none;
    };
  };
  pid = 1;
  peers = 2 ∷ 3 ∷ [];
  state = (follower, idle);
  buffered_proposals = [];
  buffered_stopsign = none;
  outgoing = [];
  leader_state = Leader.with_leader Ballot.default 3 (with_config none 3);
  latest_accepted_meta = none;
  current_seq_num = record { session = 0; counter = 0 };
  cached_promise_message = none;
}

abbrev server_of : (C : Type 0) → OmniPaxos ℕ C (List ℕ)
server_of C = record {
  seq_paxos = alone C;
  ble = with_ble_config ble_config none;
  election_clock = with_timeout 1;
  resend_message_clock = with_timeout 100;
  flush_batch_clock = with_timeout 200;
}

abbrev server : OmniPaxos ℕ ℕ (List ℕ)
server = server_of ℕ

-- The first tick is an election: the server follows itself and begins to lead.
abbrev ticked : OmniPaxos ℕ ℕ (List ℕ)
ticked = value_or (tick server) server

tick-server : tick server ≡ some ticked
unfolding tick with_ble_config with_timeout with_config Leader.with_leader Ballot.lt Ballot.le
    Ballot.cmp inc_u32 inc_u64 sub_u64 Leader.pid_to_idx
tick-server = refl

tick-promise_example : Le (get_promise server.seq_paxos) (get_promise ticked.seq_paxos)
tick-promise_example = tick-promise whole_log server ticked tick-server

abbrev leading : OmniPaxos ℕ ℕ (List ℕ)
leading = value_or (try_become_leader server) server

try_become_leader-server : try_become_leader server ≡ some leading
unfolding try_become_leader with_ble_config with_config Leader.with_leader Ballot.lt Ballot.le
    Ballot.cmp inc_u32 sub_u64 Leader.pid_to_idx
try_become_leader-server = refl

own_pid : server.ble.current_ballot.pid ≡ 1
unfolding with_ble_config
own_pid = refl

leads_none : Le server.seq_paxos.leader_state.n_leader Ballot.default
unfolding Leader.with_leader Ballot.le Ballot.cmp
leads_none = refl

try_become_leader-promise_example :
    ((get_promise leading.seq_paxos).n ≡ 0 + 1)
    × ((get_promise leading.seq_paxos).pid ≡ 1)
    × Lt Ballot.default (get_promise leading.seq_paxos)
try_become_leader-promise_example =
    try_become_leader-promise server leading own_pid (omega arith) leads_none
      try_become_leader-server

-- A cluster of the servers 1, 2 and 4 is to follow; server 4 is built for it.
abbrev next_cluster : ClusterConfig
next_cluster = record { configuration_id = 2; nodes = 1 ∷ 2 ∷ 4 ∷ []; flexible_quorum = none }

abbrev fourth : ServerConfig
fourth = record {
  pid = 4;
  election_tick_timeout = 1;
  resend_message_tick_timeout = 100;
  buffer_size = 1000;
  batch_size = 1;
  flush_batch_tick_timeout = 200;
  leader_priority = 0;
}

abbrev reconfigured : OmniPaxos ℕ ClusterConfig (List ℕ)
reconfigured =
    let o = server_of ClusterConfig in
    let p = o.seq_paxos in
    record o {
      seq_paxos = record p {
        buffered_stopsign = some (record { next_config = next_cluster; metadata = none });
      };
    }

abbrev fourth_config : OmniPaxosConfig
fourth_config = record { cluster_config = next_cluster; server_config = fourth }

-- The only node is listed twice.
abbrev twice_config : OmniPaxosConfig
twice_config = record {
  cluster_config = record next_cluster { nodes = 4 ∷ 4 ∷ [] };
  server_config = fourth;
}

build_panics_example : build {T = ℕ} {C = ℕ} {S = List ℕ} twice_config Memory.default ≡ built none
unfolding validate
build_panics_example = build_panics twice_config Memory.default refl refl
