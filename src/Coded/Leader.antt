-- ===== src/Coded/Leader.antt =====
-- The leader's handlers: omnipaxos/src/sequence_paxos_ec/leader.rs. Those that
-- do not code anything, the end of the prepare phase, and the stopsign are children.
pub mod Same
pub mod Preparing
pub mod Stopping
use omnipaxos.Prelude.{
  ℕ, Bool, true, false, not, ◌&&◌, ◌||◌, Option, none, some, List, [], ◌∷◌, ◌++◌, is_empty,
  if◌then◌else◌, ◌>>=◌,
}
use omnipaxos.Ballot
use omnipaxos.Storage.{StopSign, Snapshot, LogSync}
use omnipaxos.Storage.Internal
use omnipaxos.Storage.Internal.{AcceptedMetaData}
use omnipaxos.Storage.Internal.Compaction.{sync_log}
use omnipaxos.Leader
use omnipaxos.Messages.{Promise, AcceptSync, AcceptDecide, PaxosMsg}
use omnipaxos.Paxos.{
  leader, follower, prepare, accept, recover, idle, SequencePaxos, expect, for_each,
  accepted_reconfiguration, push,
}
use omnipaxos.Paxos.LeaderRole
use omnipaxos.Paxos.LeaderRole.Preparing.{
  append_buffered_proposals, append_buffered_stopsign, valid_entries_idx,
}
use omnipaxos.Erasure.{EntryFragment, ReedSolomon, EcService, encode}
use omnipaxos.Erasure.Entry.{OperationType, null, EcEntry}
use omnipaxos.Coded.{
  SequencePaxosEc, CodedEntry, on_plain, total_shards, entry_for, entries_for, encode_entry,
  encode_entries, create_log_sync, forward_proposals, forward_stopsign,
}

module _ {T C S R : Type 0} where
  -- The `AcceptDecide` of a list of entries, with the next sequence number of a server.
  unfoldable pub push_acceptdecide :
      List T → ℕ → SequencePaxosEc T C S R → Option (SequencePaxosEc T C S R)
  unfolding Leader.next_seq_num
  push_acceptdecide new_entries pid p = do
    numbered ← Leader.next_seq_num pid p.plain.leader_state
    let acc_dec : AcceptDecide T = record {
      n = numbered.1.n_leader;
      seq_num = numbered.0;
      decided_idx = p.plain.internal_storage.state_cache.decided_idx;
      entries = new_entries;
    }
    let q : SequencePaxos T C S = record p.plain { leader_state = numbered.1 }
    some (record p { plain = push pid (PaxosMsg.accept_decide acc_dec) q })

  -- `set_accepted_idx` of this server.
  unfoldable pub set_own_accepted_idx :
      ℕ → SequencePaxosEc T C S R → Option (SequencePaxosEc T C S R)
  unfolding Leader.set_accepted_idx
  set_own_accepted_idx accepted_idx p = do
    l ← Leader.set_accepted_idx p.plain.pid accepted_idx p.plain.leader_state
    let q : SequencePaxos T C S = record p.plain { leader_state = l }
    some (record p { plain = q })

module _ {T C S R : Type 0} (entries : EcEntry T) where
  -- The bodies of the loops over the peers.
  unfoldable pub send_acceptdecide_to :
      CodedEntry → ℕ → SequencePaxosEc T C S R → Option (SequencePaxosEc T C S R)
  unfolding entry_for push_acceptdecide
  send_acceptdecide_to coded pid p = do
    entry ← entry_for entries (total_shards p) pid coded
    push_acceptdecide (entry ∷ []) pid p

  unfoldable pub send_acceptdecide_batch_to :
      List CodedEntry → ℕ → SequencePaxosEc T C S R → Option (SequencePaxosEc T C S R)
  unfolding entries_for push_acceptdecide
  send_acceptdecide_batch_to all_entries pid p = do
    its_entries ← entries_for entries (total_shards p) pid all_entries
    if not (is_empty its_entries) then push_acceptdecide its_entries pid p else some p

  -- Every peer is sent its fragment, whether it has promised or not.
  unfoldable pub send_acceptdecide :
      CodedEntry → SequencePaxosEc T C S R → Option (SequencePaxosEc T C S R)
  unfolding send_acceptdecide_to for_each
  send_acceptdecide coded p = for_each p.plain.peers (send_acceptdecide_to coded) p

  unfoldable pub send_acceptdecide_batch :
      List CodedEntry → SequencePaxosEc T C S R → Option (SequencePaxosEc T C S R)
  unfolding send_acceptdecide_batch_to for_each
  send_acceptdecide_batch all_entries p =
      for_each p.plain.peers (send_acceptdecide_batch_to all_entries) p

  -- `if let Some(metadata) = accepted_metadata`, for an entry and for a batch.
  unfoldable pub announce_entry :
      Option (AcceptedMetaData T)
      → CodedEntry
      → SequencePaxosEc T C S R
      → Option (SequencePaxosEc T C S R)
  unfolding set_own_accepted_idx send_acceptdecide
  announce_entry none coded p = some p
  announce_entry (some metadata) coded p =
      set_own_accepted_idx metadata.accepted_idx p >>= send_acceptdecide coded

  unfoldable pub announce_entries :
      Option (AcceptedMetaData T)
      → List CodedEntry
      → SequencePaxosEc T C S R
      → Option (SequencePaxosEc T C S R)
  unfolding set_own_accepted_idx send_acceptdecide_batch
  announce_entries none batch p = some p
  announce_entries (some metadata) batch p =
      set_own_accepted_idx metadata.accepted_idx p >>= send_acceptdecide_batch batch

module _ {T C S R E : Type 0} (lib : ReedSolomon R E) (entries : EcEntry T) where
  unfoldable pub accept_entry_leader :
      T → SequencePaxosEc T C S R → Option (SequencePaxosEc T C S R)
  unfolding encode_entry entry_for Internal.append_entry_with_batching announce_entry
  accept_entry_leader entry p = do
    coded ← encode_entry lib entries p.ec_service entry
    my_entry ← entry_for entries (total_shards p) p.plain.pid coded
    let appended = Internal.append_entry_with_batching my_entry p.plain.internal_storage
    let q : SequencePaxos T C S = record p.plain { internal_storage = appended.1 }
    announce_entry entries appended.0 coded (record p { plain = q })

  unfoldable pub accept_entries_leader :
      List T → SequencePaxosEc T C S R → Option (SequencePaxosEc T C S R)
  unfolding encode_entries entries_for Internal.append_entries_with_batching announce_entries
  accept_entries_leader new_entries p = do
    all_entries ← encode_entries lib entries p.ec_service new_entries
    my_entries ← entries_for entries (total_shards p) p.plain.pid all_entries
    let appended = Internal.append_entries_with_batching my_entries p.plain.internal_storage
    let q : SequencePaxos T C S = record p.plain { internal_storage = appended.1 }
    announce_entries entries appended.0 all_entries (record p { plain = q })

  -- What is flushed is encoded once more before it is sent.
  unfoldable pub flush_batch_leader : SequencePaxosEc T C S R → Option (SequencePaxosEc T C S R)
  unfolding encode_entries Internal.flush_batch_and_get_entries announce_entries
  flush_batch_leader p =
      let (metadata, st) = Internal.flush_batch_and_get_entries p.plain.internal_storage in
      let q : SequencePaxos T C S = record p.plain { internal_storage = st } in
      let p' : SequencePaxosEc T C S R = record p { plain = q } in
      elim metadata [
        | none ↦ some p'
        | some accepted ↦ (do
          all_entries ← encode_entries lib entries p.ec_service accepted.entries
          announce_entries entries (some accepted) all_entries p')
      ]
