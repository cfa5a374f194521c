-- ===== src/Server/Calls.antt =====
-- The calls of a server's user: omnipaxos/src/omni_paxos.rs. `none` is a panic.
pub mod Reconfiguring
use omnipaxos.Prelude.{ℕ, ◌+◌, Bool, Option, none, some, List, [], ◌∷◌, ◌>>=◌}
use omnipaxos.Ballot.{Ballot}
use omnipaxos.Config.{ClusterConfig, ConfigError, valid, invalid, validate_cluster}
use omnipaxos.Storage.{StopSign, Snapshot, LogEntry, StorageResult}
use omnipaxos.Storage.Internal.Read
use omnipaxos.Storage.Internal.Read.{Bound}
use omnipaxos.Paxos
use omnipaxos.Paxos.{SequencePaxos}
use omnipaxos.Paxos.Replica
use omnipaxos.Paxos.Replica.{Proposal, ProposeErr}
use omnipaxos.Election
use omnipaxos.Server.{OmniPaxos, Message}

-- `Message::get_sender` and `Message::get_receiver` of omnipaxos/src/messages.rs.
unfoldable pub get_sender : {T C S : Type 0} → Message T C S → ℕ
get_sender (Message.sequence_paxos p) = p.from
get_sender (Message.ble b) = b.from

unfoldable pub get_receiver : {T C S : Type 0} → Message T C S → ℕ
get_receiver (Message.sequence_paxos p) = p.to
get_receiver (Message.ble b) = b.to

-- What `append` and `reconfigure` lead to. The errors of the replica are the first two of
-- `ProposeErr`, the third is the last.
pub data ServerProposal (T C S : Type 0) : Type 0 where
  taken : OmniPaxos T C S → ServerProposal T C S
  refused : ProposeErr T C → ServerProposal T C S
  config_error : ConfigError → C → Option (List ℕ) → ServerProposal T C S

-- `Vec::pop`.
abbrev pub last_of {ℓ} : {A : Type ℓ} → List A → Option A
last_of [] = none
last_of (x ∷ []) = some x
last_of (x ∷ y ∷ ys) = last_of (y ∷ ys)

module _ {T C S : Type 0} where
  abbrev pub with_replica : OmniPaxos T C S → SequencePaxos T C S → OmniPaxos T C S
  with_replica o p = record o { seq_paxos = p }

  -- What the replica makes of a proposal, for the server.
  abbrev pub proposed : OmniPaxos T C S → Proposal T C S → ServerProposal T C S
  proposed o (Proposal.taken p) = taken (with_replica o p)
  proposed o (Proposal.refused e) = refused e

  unfoldable pub trim :
      Option ℕ → OmniPaxos T C S → Option (StorageResult (Unit {0}) × OmniPaxos T C S)
  unfolding Replica.trim
  trim trim_index o = do
    trimmed ← Replica.trim trim_index o.seq_paxos
    some (trimmed.0, with_replica o trimmed.1)

  unfoldable pub get_decided_idx : OmniPaxos T C S → ℕ
  get_decided_idx o = o.seq_paxos.internal_storage.state_cache.decided_idx

  unfoldable pub get_compacted_idx : OmniPaxos T C S → ℕ
  get_compacted_idx o = o.seq_paxos.internal_storage.state_cache.compacted_idx

  unfoldable pub get_promise : OmniPaxos T C S → Ballot
  get_promise o = Paxos.get_promise o.seq_paxos

  unfoldable pub read : ℕ → OmniPaxos T C S → Option (Option (LogEntry T C S))
  unfolding Read.read
  read idx o = do
    found ← Read.read (Bound.included idx) (Bound.excluded (idx + 1)) o.seq_paxos.internal_storage
    some (elim found [ none ↦ none | some v ↦ last_of v ])

  unfoldable pub read_entries :
      Bound → Bound → OmniPaxos T C S → Option (Option (List (LogEntry T C S)))
  unfolding Read.read
  read_entries start end o = Read.read start end o.seq_paxos.internal_storage

  unfoldable pub read_decided_suffix : ℕ → OmniPaxos T C S → Option (Option (List (LogEntry T C S)))
  unfolding Read.read_decided_suffix
  read_decided_suffix from_idx o = Read.read_decided_suffix from_idx o.seq_paxos.internal_storage

  unfoldable pub is_reconfigured : OmniPaxos T C S → Option (StopSign C)
  unfolding Replica.is_reconfigured
  is_reconfigured o = Replica.is_reconfigured o.seq_paxos

  unfoldable pub append : T → OmniPaxos T C S → Option (ServerProposal T C S)
  unfolding Replica.append
  append entry o = do result ← Replica.append entry o.seq_paxos; some (proposed o result)

  unfoldable pub reconnected : ℕ → OmniPaxos T C S → OmniPaxos T C S
  unfolding Paxos.reconnected
  reconnected pid o = with_replica o (Paxos.reconnected pid o.seq_paxos)

  unfoldable pub set_priority : ℕ → OmniPaxos T C S → OmniPaxos T C S
  unfolding Election.set_priority
  set_priority p o = record o { ble = Election.set_priority p o.ble }

module _ {T C S : Type 0} (snap : Snapshot T S) where
  unfoldable pub snapshot :
      Option ℕ → Bool → OmniPaxos T C S → StorageResult (Unit {0}) × OmniPaxos T C S
  unfolding Replica.snapshot
  snapshot compact_idx local_only o =
      let (result, p) = Replica.snapshot snap compact_idx local_only o.seq_paxos in
      (result, with_replica o p)

module _ {T S : Type 0} where
  -- The configuration of the next cluster is validated before it is proposed.
  unfoldable pub reconfigure :
      ClusterConfig
      → Option (List ℕ)
      → OmniPaxos T ClusterConfig S
      → Option (ServerProposal T ClusterConfig S)
  unfolding Replica.reconfigure
  reconfigure new_configuration metadata o = elim (validate_cluster new_configuration) [
    | invalid e ↦ some (config_error e new_configuration metadata)
    | valid ↦ (do
      result ← Replica.reconfigure new_configuration metadata o.seq_paxos
      some (proposed o result))
  ]
