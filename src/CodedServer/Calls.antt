-- ===== src/CodedServer/Calls.antt =====
-- The calls of a coding server's user: omnipaxos/src/omni_paxos_ec.rs. `none` is a panic.
use omnipaxos.Prelude.{ℕ, ◌+◌, Bool, Option, none, some, List, ◌>>=◌}
use omnipaxos.Config.{ClusterConfig, ConfigError, valid, invalid, validate_cluster}
use omnipaxos.Storage.{StopSign, Snapshot, LogEntry, StorageResult}
use omnipaxos.Storage.Internal.Read
use omnipaxos.Storage.Internal.Read.{Bound}
use omnipaxos.Election
use omnipaxos.Server.Calls.{last_of}
use omnipaxos.Paxos.Replica.{ProposeErr}
use omnipaxos.Erasure.{ReedSolomon, EcService}
use omnipaxos.Erasure.Entry.{EcEntry}
use omnipaxos.Coded
use omnipaxos.Coded.{SequencePaxosEc}
use omnipaxos.Coded.Replica
use omnipaxos.Coded.Replica.{Proposal}
use omnipaxos.CodedServer.{OmniPaxosEc}

-- What `append` and `reconfigure` lead to: the new server, or one of the errors of `ProposeErrEC`.
pub data ServerProposalEc (T C S R : Type 0) : Type 0 where
  taken : OmniPaxosEc T C S R → ServerProposalEc T C S R
  refused : ProposeErr T C → ServerProposalEc T C S R
  config_error : ConfigError → C → Option (List ℕ) → ServerProposalEc T C S R

module _ {T C S R : Type 0} where
  abbrev with_replica : OmniPaxosEc T C S R → SequencePaxosEc T C S R → OmniPaxosEc T C S R
  with_replica o p = record o { seq_paxos = p }

  -- What the replica makes of a proposal, for the server.
  abbrev proposed : OmniPaxosEc T C S R → Proposal T C S R → ServerProposalEc T C S R
  proposed o (Proposal.taken p) = taken (with_replica o p)
  proposed o (Proposal.refused e) = refused e

  unfoldable pub trim :
      Option ℕ → OmniPaxosEc T C S R → Option (StorageResult (Unit {0}) × OmniPaxosEc T C S R)
  unfolding Replica.trim
  trim trim_index o = do
    trimmed ← Replica.trim trim_index o.seq_paxos
    some (trimmed.0, with_replica o trimmed.1)

  unfoldable pub get_decided_idx : OmniPaxosEc T C S R → ℕ
  get_decided_idx o = o.seq_paxos.plain.internal_storage.state_cache.decided_idx

  unfoldable pub get_compacted_idx : OmniPaxosEc T C S R → ℕ
  get_compacted_idx o = o.seq_paxos.plain.internal_storage.state_cache.compacted_idx

  unfoldable pub ec_service : OmniPaxosEc T C S R → EcService R
  ec_service o = o.seq_paxos.ec_service

  unfoldable pub read : ℕ → OmniPaxosEc T C S R → Option (Option (LogEntry T C S))
  unfolding Read.read
  read idx o = do
    found ←
        Read.read (Bound.included idx) (Bound.excluded (idx + 1)) o.seq_paxos.plain.internal_storage
    some (elim found [ none ↦ none | some v ↦ last_of v ])

  unfoldable pub read_entries :
      Bound → Bound → OmniPaxosEc T C S R → Option (Option (List (LogEntry T C S)))
  unfolding Read.read
  read_entries start end o = Read.read start end o.seq_paxos.plain.internal_storage

  unfoldable pub read_decided_suffix :
      ℕ → OmniPaxosEc T C S R → Option (Option (List (LogEntry T C S)))
  unfolding Read.read_decided_suffix
  read_decided_suffix from_idx o =
      Read.read_decided_suffix from_idx o.seq_paxos.plain.internal_storage

  unfoldable pub is_reconfigured : OmniPaxosEc T C S R → Option (StopSign C)
  unfolding Replica.is_reconfigured
  is_reconfigured o = Replica.is_reconfigured o.seq_paxos

  unfoldable pub reconnected : ℕ → OmniPaxosEc T C S R → OmniPaxosEc T C S R
  unfolding Coded.reconnected
  reconnected pid o = with_replica o (Coded.reconnected pid o.seq_paxos)

  unfoldable pub set_priority : ℕ → OmniPaxosEc T C S R → OmniPaxosEc T C S R
  unfolding Election.set_priority
  set_priority p o = record o { ble = Election.set_priority p o.ble }

module _ {T C S R : Type 0} (snap : Snapshot T S) where
  unfoldable pub snapshot :
      Option ℕ → Bool → OmniPaxosEc T C S R → StorageResult (Unit {0}) × OmniPaxosEc T C S R
  unfolding Replica.snapshot
  snapshot compact_idx local_only o =
      let (result, p) = Replica.snapshot snap compact_idx local_only o.seq_paxos in
      (result, with_replica o p)

module _ {T C S R E : Type 0} (lib : ReedSolomon R E) (entries : EcEntry T) where
  unfoldable pub append : T → OmniPaxosEc T C S R → Option (ServerProposalEc T C S R)
  unfolding Replica.append
  append entry o = do
    result ← Replica.append lib entries entry o.seq_paxos
    some (proposed o result)

module _ {T S R E : Type 0} (lib : ReedSolomon R E) (entries : EcEntry T) where
  -- The configuration of the next cluster is validated before it is proposed.
  unfoldable pub reconfigure :
      (StopSign ClusterConfig → Option (List ℕ))
      → ClusterConfig
      → Option (List ℕ)
      → OmniPaxosEc T ClusterConfig S R
      → Option (ServerProposalEc T ClusterConfig S R)
  unfolding Replica.reconfigure
  reconfigure serialize new_configuration metadata o = elim (validate_cluster new_configuration) [
    | invalid e ↦ some (config_error e new_configuration metadata)
    | valid ↦ (do
      result ← Replica.reconfigure lib entries serialize new_configuration metadata o.seq_paxos
      some (proposed o result))
  ]
