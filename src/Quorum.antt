-- ===== src/Quorum.antt =====
-- `FlexibleQuorum` and `Quorum` of omnipaxos/src/util.rs.
use omnipaxos.Prelude.{ℕ, ◌+◌, ◌/◌, Bool, Option, none, some, leb}

pub record FlexibleQuorum : Type 0 where
  pub read_quorum_size : ℕ
  pub write_quorum_size : ℕ

pub data Quorum : Type 0 where
  majority : ℕ → Quorum
  flexible : FlexibleQuorum → Quorum

-- `Quorum::with`.
unfoldable pub with_config : Option FlexibleQuorum → ℕ → Quorum
with_config (some f) num_nodes = Quorum.flexible f
with_config none num_nodes = Quorum.majority (num_nodes / 2 + 1)

unfoldable pub is_prepare_quorum : Quorum → ℕ → Bool
is_prepare_quorum (Quorum.majority m) num_nodes = leb m num_nodes
is_prepare_quorum (Quorum.flexible f) num_nodes = leb f.read_quorum_size num_nodes

unfoldable pub is_accept_quorum : Quorum → ℕ → Bool
is_accept_quorum (Quorum.majority m) num_nodes = leb m num_nodes
is_accept_quorum (Quorum.flexible f) num_nodes = leb f.write_quorum_size num_nodes
