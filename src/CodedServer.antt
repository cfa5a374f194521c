-- ===== src/CodedServer.antt =====
-- `OmniPaxosEC` of omnipaxos/src/omni_paxos_ec.rs: a server around a replica that codes its entries.
-- `none` is a panic.
pub mod Calls
use omnipaxos.Prelude.{
  ℕ, Bool, true, false, Option, none, some, List, [], ◌++◌, map, ◌==◌, if◌then◌else◌, ◌>>=◌,
}
use omnipaxos.Word.{inc_u32}
use omnipaxos.Ballot.{Ballot}
use omnipaxos.Clock.{LogicalClock, with_timeout, tick_and_check_timeout}
use omnipaxos.Config
use omnipaxos.Config.{
  ServerConfig, ClusterConfig, OmniPaxosConfig, ConfigError, Validation, valid, invalid,
}
use omnipaxos.Storage.{Snapshot, StopSign}
use omnipaxos.Storage.Memory.{MemoryStorage}
use omnipaxos.Paxos.{is_accept}
use omnipaxos.Election
use omnipaxos.Election.{BallotLeaderElection, with_ble_config, hb_timeout}
use omnipaxos.Server.{Message, ble_config_of, seq_paxos_config_of}
use omnipaxos.Erasure.{ReedSolomon, EcService}
use omnipaxos.Erasure.Entry.{EcEntry}
use omnipaxos.Coded.{SequencePaxosEc, get_promise, get_state}
use omnipaxos.Coded.Leader.Same.{handle_leader}
use omnipaxos.Coded.Replica
use omnipaxos.Coded.Replica.{
  SequencePaxosConfigEc, with_config_and_storage, resend_message_timeout, flush_batch_timeout,
  take_outgoing_msgs,
}

-- `plain` has the fields of `ServerConfig`. `ClusterConfigEC` has those of `ClusterConfig`.
pub record ServerConfigEc (R : Type 0) : Type 0 where
  pub plain : ServerConfig
  pub erasure_coding_service : EcService R

pub record OmniPaxosEcConfig (R : Type 0) : Type 0 where
  pub cluster_config : ClusterConfig
  pub server_config : ServerConfigEc R

pub record OmniPaxosEc (T C S R : Type 0) : Type 0 where
  pub seq_paxos : SequencePaxosEc T C S R
  pub ble : BallotLeaderElection
  pub election_clock : LogicalClock
  pub resend_message_clock : LogicalClock
  pub flush_batch_clock : LogicalClock

-- A server that is refused, or is built unless that panics.
pub data Build (T C S R : Type 0) : Type 0 where
  refused : ConfigError → Build T C S R
  built : Option (OmniPaxosEc T C S R) → Build T C S R

module _ {R : Type 0} where
  -- `From<OmniPaxosECConfig> for OmniPaxosConfig`, which drops the service.
  unfoldable pub plain_config_of : OmniPaxosEcConfig R → OmniPaxosConfig
  plain_config_of c = record {
    cluster_config = c.cluster_config;
    server_config = c.server_config.plain;
  }

  -- `validate` asks nothing of the service.
  unfoldable pub validate : OmniPaxosEcConfig R → Validation
  unfolding plain_config_of
  validate c = Config.validate (plain_config_of c)

  unfoldable pub seq_paxos_config_of_ec : OmniPaxosEcConfig R → SequencePaxosConfigEc R
  unfolding plain_config_of seq_paxos_config_of
  seq_paxos_config_of_ec c = record {
    plain = seq_paxos_config_of (plain_config_of c);
    erasure_coding_service = c.server_config.erasure_coding_service;
  }

module _ {T C S R : Type 0} where
  unfoldable pub build_valid :
      OmniPaxosEcConfig R → MemoryStorage T C S → Option (OmniPaxosEc T C S R)
  unfolding plain_config_of seq_paxos_config_of_ec ble_config_of with_ble_config
      with_config_and_storage with_timeout
  build_valid c storage = do
    seq_paxos ← with_config_and_storage (seq_paxos_config_of_ec c) storage
    let settings = c.server_config.plain
    some (record {
      seq_paxos = seq_paxos;
      ble = with_ble_config (ble_config_of (plain_config_of c)) storage.n_prom;
      election_clock = with_timeout settings.election_tick_timeout;
      resend_message_clock = with_timeout settings.resend_message_tick_timeout;
      flush_batch_clock = with_timeout settings.flush_batch_tick_timeout;
    })

  unfoldable pub build : OmniPaxosEcConfig R → MemoryStorage T C S → Build T C S R
  unfolding build_valid validate
  build c storage = elim (validate c) [
    | valid ↦ built (build_valid c storage)
    | invalid e ↦ refused e
  ]

  unfoldable pub get_current_leader : OmniPaxosEc T C S R → Option (ℕ × Bool)
  unfolding get_promise get_state
  get_current_leader o =
      let promised_pid = (get_promise o.seq_paxos).pid in
      if promised_pid == 0 then none else some (promised_pid, is_accept (get_state o.seq_paxos).1)

  -- `handle_leader` of the replica, if there is a new leader.
  unfoldable pub lead_if_elected :
      Option Ballot → OmniPaxosEc T C S R → Option (OmniPaxosEc T C S R)
  unfolding handle_leader
  lead_if_elected none o = some o
  lead_if_elected (some new_leader) o = do
    p ← handle_leader new_leader o.seq_paxos
    some (record o { seq_paxos = p })

  unfoldable pub election_timeout : OmniPaxosEc T C S R → Option (OmniPaxosEc T C S R)
  unfolding hb_timeout lead_if_elected get_promise get_state
  election_timeout o =
      let (new_leader, e) = hb_timeout (get_state o.seq_paxos) (get_promise o.seq_paxos) o.ble in
      lead_if_elected new_leader (record o { ble = e })

  -- The first two of the three steps of `tick`.
  unfoldable pub tick_election : OmniPaxosEc T C S R → Option (OmniPaxosEc T C S R)
  unfolding tick_and_check_timeout election_timeout
  tick_election o =
      let (due, clock) = tick_and_check_timeout o.election_clock in
      let o' : OmniPaxosEc T C S R = record o { election_clock = clock } in
      if due then election_timeout o' else some o'

  unfoldable pub tick_resend : OmniPaxosEc T C S R → Option (OmniPaxosEc T C S R)
  unfolding tick_and_check_timeout resend_message_timeout
  tick_resend o =
      let (due, clock) = tick_and_check_timeout o.resend_message_clock in
      let o' : OmniPaxosEc T C S R = record o { resend_message_clock = clock } in
      if due
      then (do p ← resend_message_timeout o.seq_paxos; some (record o' { seq_paxos = p }))
      else some o'

  unfoldable pub try_become_leader : OmniPaxosEc T C S R → Option (OmniPaxosEc T C S R)
  unfolding handle_leader inc_u32 get_promise
  try_become_leader o = do
    let current = o.ble.current_ballot
    p ← handle_leader (record current { n = inc_u32 (get_promise o.seq_paxos).n }) o.seq_paxos
    some (record o { seq_paxos = p })

  unfoldable pub take_outgoing_messages :
      List (Message T C S) → OmniPaxosEc T C S R → List (Message T C S) × OmniPaxosEc T C S R
  unfolding take_outgoing_msgs
  take_outgoing_messages buffer o =
      let (msgs, p) = take_outgoing_msgs [] o.seq_paxos in
      let e = o.ble in
      (
        buffer ++ map Message.sequence_paxos msgs ++ map Message.ble e.outgoing,
        record o { seq_paxos = p; ble = record e { outgoing = [] } },
      )

module _ {T C S R E : Type 0} (lib : ReedSolomon R E) (entries : EcEntry T) where
  unfoldable pub tick_flush : OmniPaxosEc T C S R → Option (OmniPaxosEc T C S R)
  unfolding tick_and_check_timeout flush_batch_timeout
  tick_flush o =
      let (due, clock) = tick_and_check_timeout o.flush_batch_clock in
      let o' : OmniPaxosEc T C S R = record o { flush_batch_clock = clock } in
      if due
      then (do p ← flush_batch_timeout lib entries o.seq_paxos; some (record o' { seq_paxos = p }))
      else some o'

  unfoldable pub tick : OmniPaxosEc T C S R → Option (OmniPaxosEc T C S R)
  unfolding tick_election tick_resend tick_flush
  tick o = do o' ← tick_election o; o'' ← tick_resend o'; tick_flush o''

  module _ (serialize : StopSign C → Option (List ℕ)) (snap : Snapshot T S) where
    unfoldable pub handle_incoming :
        Message T C S → OmniPaxosEc T C S R → Option (OmniPaxosEc T C S R)
    unfolding Replica.handle Election.handle
    handle_incoming (Message.sequence_paxos m) o = do
      p ← Replica.handle lib entries serialize snap m o.seq_paxos
      some (record o { seq_paxos = p })
    handle_incoming (Message.ble m) o = some (record o { ble = Election.handle m o.ble })
