-- ===== src/Coded.antt =====
-- `SequencePaxosEC` of omnipaxos/src/sequence_paxos_ec: a replica whose entries hold one fragment
-- each of the value that was proposed. Its fields and handlers are those of `SequencePaxos`, but
-- for the service that codes the values and for the leader's handlers that use it. `none` is a
-- panic.
pub mod Leader
pub mod Follower
pub mod Replica
pub mod Recovery
pub mod Sending
pub mod Accepting
pub mod Kept
pub mod Promised
mod Tests
use omnipaxos.Prelude.{ℕ, ◌+◌, Option, none, some, List, [], ◌∷◌, length, get_elem?, ◌>>=◌}
use omnipaxos.Ballot.{Ballot}
use omnipaxos.Storage.{StopSign, Snapshot, LogSync}
use omnipaxos.Messages.{PaxosMsg, PaxosMessage}
use omnipaxos.Paxos
use omnipaxos.Paxos.{SequencePaxos, Role, Phase}
use omnipaxos.Erasure.{EntryFragment, ReedSolomon, EcService, encode, fragment_index_for_node}
use omnipaxos.Erasure.Entry.{OperationType, EcEntry}

-- `plain` has the fields that the two kinds of replica share.
pub record SequencePaxosEc (T C S R : Type 0) : Type 0 where
  pub plain : SequencePaxos T C S
  pub ec_service : EcService R

-- A value that is encoded: the key, the operation, and the fragment of each server.
pub record CodedEntry : Type 0 where
  pub key : List ℕ
  pub op : OperationType
  pub fragments : List EntryFragment

module _ {T C S R : Type 0} where
  -- A handler of the shared fields, as one of this replica.
  abbrev pub on_plain :
      (SequencePaxos T C S → Option (SequencePaxos T C S))
      → SequencePaxosEc T C S R
      → Option (SequencePaxosEc T C S R)
  on_plain handler p = do q ← handler p.plain; some (record p { plain = q })

  abbrev pub total_shards : SequencePaxosEc T C S R → ℕ
  total_shards p = length p.plain.peers + 1

  unfoldable pub get_state : SequencePaxosEc T C S R → Role × Phase
  get_state p = p.plain.state

  unfoldable pub get_promise : SequencePaxosEc T C S R → Ballot
  get_promise p = Paxos.get_promise p.plain

  unfoldable pub forward_proposals : List T → SequencePaxosEc T C S R → SequencePaxosEc T C S R
  unfolding Paxos.forward_proposals
  forward_proposals entries p = record p { plain = Paxos.forward_proposals entries p.plain }

  unfoldable pub forward_stopsign : StopSign C → SequencePaxosEc T C S R → SequencePaxosEc T C S R
  unfolding Paxos.forward_stopsign
  forward_stopsign ss p = record p { plain = Paxos.forward_stopsign ss p.plain }

  unfoldable pub reconnected : ℕ → SequencePaxosEc T C S R → SequencePaxosEc T C S R
  unfolding Paxos.reconnected
  reconnected pid p = record p { plain = Paxos.reconnected pid p.plain }

module _ {T C S R : Type 0} (snap : Snapshot T S) where
  unfoldable pub create_log_sync : ℕ → ℕ → SequencePaxosEc T C S R → Option (LogSync T C S)
  unfolding Paxos.create_log_sync
  create_log_sync common_prefix_idx other_logs_decided_idx p =
      Paxos.create_log_sync snap common_prefix_idx other_logs_decided_idx p.plain

-- The entry of a server: `T::from_parts` of the fragment at the server's index, which panics out of
-- bounds.
unfoldable pub entry_for : {T : Type 0} → EcEntry T → ℕ → ℕ → CodedEntry → Option T
unfolding fragment_index_for_node
entry_for entries total pid coded = do
  fragment ← get_elem? coded.fragments (fragment_index_for_node pid total)
  some (entries.from_parts coded.key fragment coded.op)

-- The entries of a server, of a batch.
unfoldable pub entries_for : {T : Type 0} → EcEntry T → ℕ → ℕ → List CodedEntry → Option (List T)
unfolding entry_for
entries_for entries total pid [] = some []
entries_for entries total pid (coded ∷ batch) = do
  mine ← entry_for entries total pid coded
  rest ← entries_for entries total pid batch
  some (mine ∷ rest)

module _ {T R E : Type 0} (lib : ReedSolomon R E) (entries : EcEntry T) where
  -- `encode` of the value of an entry, with the entry's key and operation.
  unfoldable pub encode_entry : EcService R → T → Option CodedEntry
  unfolding encode
  encode_entry service entry = do
    fragments ← encode lib service (entries.value entry).bytes
    some (record { key = entries.key entry; op = entries.operation entry; fragments = fragments })

  unfoldable pub encode_entries : EcService R → List T → Option (List CodedEntry)
  unfolding encode_entry
  encode_entries service [] = some []
  encode_entries service (entry ∷ rest) = do
    coded ← encode_entry service entry
    others ← encode_entries service rest
    some (coded ∷ others)
