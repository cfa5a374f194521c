-- ===== src/Config.antt =====
-- The configurations and their validation: omnipaxos/src/omni_paxos.rs and omnipaxos/src/errors.rs.
-- The logger's fields and the loading from TOML files are left out.
pub mod Quorums
mod Tests
use Prim.Native.String.{String}
use omnipaxos.Prelude.{
  ℕ, ◌+◌, Bool, true, false, not, ◌&&◌, Option, none, some, List, [], ◌∷◌, length, keep, any, ltb,
  leb, ◌==◌, if◌then◌else◌,
}
use omnipaxos.Word.{add_usize}
use omnipaxos.Quorum.{FlexibleQuorum, Quorum, with_config}

pub record ClusterConfig : Type 0 where
  pub configuration_id : ℕ
  pub nodes : List ℕ
  pub flexible_quorum : Option FlexibleQuorum

pub record ServerConfig : Type 0 where
  pub pid : ℕ
  pub election_tick_timeout : ℕ
  pub resend_message_tick_timeout : ℕ
  pub buffer_size : ℕ
  pub batch_size : ℕ
  pub flush_batch_tick_timeout : ℕ
  pub leader_priority : ℕ

pub record OmniPaxosConfig : Type 0 where
  pub cluster_config : ClusterConfig
  pub server_config : ServerConfig

pub data ConfigError : Type 0 where
  invalid_config : String → ConfigError

pub data Validation : Type 0 where
  valid : Validation
  invalid : ConfigError → Validation

-- The macro `valid_config!`, followed by the rest of the function.
abbrev pub valid_config : Bool → String → Validation → Validation
valid_config true msg rest = rest
valid_config false msg rest = invalid (ConfigError.invalid_config msg)

-- `?` between two validations.
abbrev pub ◌then_validate◌ : Validation → Validation → Validation
◌then_validate◌ valid rest = rest
◌then_validate◌ (invalid e) rest = invalid e

validate_quorum : Option FlexibleQuorum → ℕ → Validation
unfolding add_usize
validate_quorum none num_nodes = valid
validate_quorum (some q) num_nodes =
    valid_config (ltb num_nodes (add_usize q.read_quorum_size q.write_quorum_size))
      "The quorums must overlap i.e., the sum of their sizes must exceed the # of nodes"
      (valid_config (leb 2 q.read_quorum_size && leb q.read_quorum_size num_nodes)
        "Read quorum must be in range 2 to # of nodes in the cluster"
        (valid_config (leb 2 q.write_quorum_size && leb q.write_quorum_size num_nodes)
          "Write quorum must be in range 2 to # of nodes in the cluster"
          (valid_config (leb q.write_quorum_size q.read_quorum_size)
            "Read quorum size must be >= the write quorum size." valid)))

-- `ClusterConfig::validate`.
unfoldable pub validate_cluster : ClusterConfig → Validation
unfolding validate_quorum
validate_cluster c =
    let num_nodes = length c.nodes in
    valid_config (ltb 1 num_nodes) "Need more than 1 node" (
      valid_config (not (c.configuration_id == 0)) "Configuration ID cannot be 0"
        (validate_quorum c.flexible_quorum num_nodes))

-- `ServerConfig::validate`.
unfoldable pub validate_server : ServerConfig → Validation
validate_server c = valid_config (not (c.pid == 0)) "Server pid cannot be 0" (
    valid_config (not (c.buffer_size == 0)) "Buffer size must be greater than 0" (
      valid_config (not (c.batch_size == 0)) "Batch size must be greater than 0" (
        valid_config (not (c.election_tick_timeout == 0))
          "Election tick timeout must be greater than 0"
          (valid_config (not (c.resend_message_tick_timeout == 0))
            "Resend message tick timeout must be greater than 0" valid))))

-- `OmniPaxosConfig::validate`.
unfoldable pub validate : OmniPaxosConfig → Validation
unfolding validate_cluster validate_server
validate c = ◌then_validate◌ (validate_cluster c.cluster_config) (
    ◌then_validate◌ (validate_server c.server_config) (
      valid_config (any (λ x. x == c.server_config.pid) c.cluster_config.nodes)
        "Nodes must include own server pid" valid))

-- The peers that `From<OmniPaxosConfig>` gives to both components.
unfoldable pub peers_of : OmniPaxosConfig → List ℕ
peers_of c = keep (λ x. not (x == c.server_config.pid)) c.cluster_config.nodes

-- The quorum that both components build from the configuration.
pub quorum_of : OmniPaxosConfig → Quorum
unfolding peers_of with_config
quorum_of c = with_config c.cluster_config.flexible_quorum (length (peers_of c) + 1)
