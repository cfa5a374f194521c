-- ===== src/Server.antt =====
-- `OmniPaxos` of omnipaxos/src/omni_paxos.rs: a server made of a replica, the election and three
-- clocks.
pub mod Ticks
pub mod Calls
pub mod Building
mod Tests
use omnipaxos.Prelude.{
  ℕ, Bool, true, false, Option, none, some, List, [], ◌++◌, map, ◌==◌, if◌then◌else◌, ◌>>=◌,
}
use omnipaxos.Word.{inc_u32}
use omnipaxos.Ballot.{Ballot}
use omnipaxos.Clock.{LogicalClock, with_timeout, tick_and_check_timeout}
use omnipaxos.Config
use omnipaxos.Config.{
  ServerConfig, ClusterConfig, OmniPaxosConfig, ConfigError, Validation, valid, invalid, peers_of,
}
use omnipaxos.Storage.{Snapshot}
use omnipaxos.Storage.Memory.{MemoryStorage}
use omnipaxos.Messages.{PaxosMessage}
use omnipaxos.Paxos.{SequencePaxos, get_promise, is_accept}
use omnipaxos.Paxos.LeaderRole.{handle_leader}
use omnipaxos.Paxos.Replica
use omnipaxos.Paxos.Replica.{
  SequencePaxosConfig, with_config_and_storage, resend_message_timeout, flush_batch_timeout,
  take_outgoing_msgs,
}
use omnipaxos.Election
use omnipaxos.Election.{BallotLeaderElection, BleConfig, BleMessage, with_ble_config, hb_timeout}

-- `Message` of omnipaxos/src/messages.rs.
pub data Message (T C S : Type 0) : Type 0 where
  sequence_paxos : PaxosMessage T C S → Message T C S
  ble : BleMessage → Message T C S

pub record OmniPaxos (T C S : Type 0) : Type 0 where
  pub seq_paxos : SequencePaxos T C S
  pub ble : BallotLeaderElection
  pub election_clock : LogicalClock
  pub resend_message_clock : LogicalClock
  pub flush_batch_clock : LogicalClock

-- `From<OmniPaxosConfig> for BLEConfig` and `for SequencePaxosConfig`.
unfoldable pub ble_config_of : OmniPaxosConfig → BleConfig
ble_config_of c = record {
  configuration_id = c.cluster_config.configuration_id;
  pid = c.server_config.pid;
  peers = peers_of c;
  priority = c.server_config.leader_priority;
  flexible_quorum = c.cluster_config.flexible_quorum;
}

unfoldable pub seq_paxos_config_of : OmniPaxosConfig → SequencePaxosConfig
seq_paxos_config_of c = record {
  pid = c.server_config.pid;
  peers = peers_of c;
  batch_size = c.server_config.batch_size;
  flexible_quorum = c.cluster_config.flexible_quorum;
}

-- A server that is refused, or is built unless that panics.
pub data Build (T C S : Type 0) : Type 0 where
  refused : ConfigError → Build T C S
  built : Option (OmniPaxos T C S) → Build T C S

module _ {T C S : Type 0} where
  unfoldable pub build_valid : OmniPaxosConfig → MemoryStorage T C S → Option (OmniPaxos T C S)
  unfolding ble_config_of seq_paxos_config_of with_ble_config with_config_and_storage with_timeout
  build_valid c storage = do
    seq_paxos ← with_config_and_storage (seq_paxos_config_of c) storage
    some (record {
      seq_paxos = seq_paxos;
      ble = with_ble_config (ble_config_of c) storage.n_prom;
      election_clock = with_timeout c.server_config.election_tick_timeout;
      resend_message_clock = with_timeout c.server_config.resend_message_tick_timeout;
      flush_batch_clock = with_timeout c.server_config.flush_batch_tick_timeout;
    })

  unfoldable pub build : OmniPaxosConfig → MemoryStorage T C S → Build T C S
  unfolding build_valid
  build c storage = elim (Config.validate c) [
    | valid ↦ built (build_valid c storage)
    | invalid e ↦ refused e
  ]

  unfoldable pub get_current_leader_and_phase : OmniPaxos T C S → Option (ℕ × Bool)
  get_current_leader_and_phase o =
      let promised_pid = (get_promise o.seq_paxos).pid in
      if promised_pid == 0 then none else some (promised_pid, is_accept o.seq_paxos.state.1)

  -- `handle_leader` of the replica, if there is a new leader.
  unfoldable pub lead_if_elected : Option Ballot → OmniPaxos T C S → Option (OmniPaxos T C S)
  unfolding handle_leader
  lead_if_elected none o = some o
  lead_if_elected (some new_leader) o = do
    p ← handle_leader new_leader o.seq_paxos
    some (record o { seq_paxos = p })

  unfoldable pub election_timeout : OmniPaxos T C S → Option (OmniPaxos T C S)
  unfolding hb_timeout lead_if_elected
  election_timeout o =
      let (new_leader, e) = hb_timeout o.seq_paxos.state (get_promise o.seq_paxos) o.ble in
      lead_if_elected new_leader (record o { ble = e })

  -- The three steps of `tick`.
  unfoldable pub tick_election : OmniPaxos T C S → Option (OmniPaxos T C S)
  unfolding tick_and_check_timeout election_timeout
  tick_election o =
      let (due, clock) = tick_and_check_timeout o.election_clock in
      let o' : OmniPaxos T C S = record o { election_clock = clock } in
      if due then election_timeout o' else some o'

  unfoldable pub tick_resend : OmniPaxos T C S → Option (OmniPaxos T C S)
  unfolding tick_and_check_timeout resend_message_timeout
  tick_resend o =
      let (due, clock) = tick_and_check_timeout o.resend_message_clock in
      let o' : OmniPaxos T C S = record o { resend_message_clock = clock } in
      if due
      then (do p ← resend_message_timeout o.seq_paxos; some (record o' { seq_paxos = p }))
      else some o'

  unfoldable pub tick_flush : OmniPaxos T C S → Option (OmniPaxos T C S)
  unfolding tick_and_check_timeout flush_batch_timeout
  tick_flush o =
      let (due, clock) = tick_and_check_timeout o.flush_batch_clock in
      let o' : OmniPaxos T C S = record o { flush_batch_clock = clock } in
      if due
      then (do p ← flush_batch_timeout o.seq_paxos; some (record o' { seq_paxos = p }))
      else some o'

  unfoldable pub tick : OmniPaxos T C S → Option (OmniPaxos T C S)
  unfolding tick_election tick_resend tick_flush
  tick o = do o' ← tick_election o; o'' ← tick_resend o'; tick_flush o''

  unfoldable pub try_become_leader : OmniPaxos T C S → Option (OmniPaxos T C S)
  unfolding handle_leader inc_u32
  try_become_leader o = do
    let current = o.ble.current_ballot
    p ← handle_leader (record current { n = inc_u32 (get_promise o.seq_paxos).n }) o.seq_paxos
    some (record o { seq_paxos = p })

  unfoldable pub take_outgoing_messages :
      List (Message T C S) → OmniPaxos T C S → List (Message T C S) × OmniPaxos T C S
  unfolding take_outgoing_msgs
  take_outgoing_messages buffer o =
      let (msgs, p) = take_outgoing_msgs [] o.seq_paxos in
      let e = o.ble in
      (
        buffer ++ map Message.sequence_paxos msgs ++ map Message.ble e.outgoing,
        record o { seq_paxos = p; ble = record e { outgoing = [] } },
      )

module _ {T C S : Type 0} (snap : Snapshot T S) where
  unfoldable pub handle_incoming : Message T C S → OmniPaxos T C S → Option (OmniPaxos T C S)
  unfolding Replica.handle Election.handle
  handle_incoming (Message.sequence_paxos m) o = do
    p ← Replica.handle snap m o.seq_paxos
    some (record o { seq_paxos = p })
  handle_incoming (Message.ble m) o = some (record o { ble = Election.handle m o.ble })
