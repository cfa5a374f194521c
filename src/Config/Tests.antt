-- ===== src/Config/Tests.antt =====
-- Runs of the validation, and the theorem on quorums at a cluster of three.
use omnipaxos.Prelude.{ℕ, ◌≡◌, refl, true, none, some, [], ◌∷◌, leb}
use omnipaxos.Quorum.{is_prepare_quorum, is_accept_quorum}
use omnipaxos.Config.{
  ClusterConfig, ServerConfig, OmniPaxosConfig, ConfigError, valid, invalid, validate, quorum_of,
}
use omnipaxos.Config.Quorums.{members, is_member, quorums_intersect}

abbrev cluster : ClusterConfig
cluster = record { configuration_id = 1; nodes = 1 ∷ 2 ∷ 3 ∷ []; flexible_quorum = none }

abbrev server : ServerConfig
server = record {
  pid = 2;
  election_tick_timeout = 1;
  resend_message_tick_timeout = 100;
  buffer_size = 100000;
  batch_size = 1;
  flush_batch_tick_timeout = 200;
  leader_priority = 0;
}

abbrev config : OmniPaxosConfig
config = record { cluster_config = cluster; server_config = server }

abbrev flexible_config : OmniPaxosConfig
flexible_config = record config {
  cluster_config = record cluster {
    flexible_quorum = some (record { read_quorum_size = 2; write_quorum_size = 1 });
  };
}

validate-config : validate config ≡ valid
unfolding validate
validate-config = refl

-- Sizes 2 and 1 do not overlap among three servers.
validate-flexible_config :
    validate flexible_config
    ≡ invalid (
        ConfigError.invalid_config
          "The quorums must overlap i.e., the sum of their sizes must exceed the # of nodes")
unfolding validate
validate-flexible_config = refl

-- Servers 1 and 2 have promised, 2 and 3 have accepted.
quorums_intersect_example :
    (x : ℕ) × (is_member x (members config) ≡ true) × (leb x 2 ≡ true) × (leb 2 x ≡ true)
unfolding quorum_of is_prepare_quorum is_accept_quorum
quorums_intersect_example =
    quorums_intersect config (λ x. leb x 2) (λ x. leb 2 x) validate-config refl refl
