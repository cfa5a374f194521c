-- ===== src/Coded/Leader/Stopping.antt =====
-- The stopsign of a leader, and what others forward to it:
-- omnipaxos/src/sequence_paxos_ec/leader.rs. The serialisation of a stopsign is a parameter.
use omnipaxos.Prelude.{ℕ, false, not, Option, none, some, List, [], ◌∷◌, ◌++◌, if◌then◌else◌, ◌>>=◌}
use omnipaxos.Storage.{StopSign}
use omnipaxos.Storage.Internal
use omnipaxos.Storage.Internal.{AcceptedMetaData}
use omnipaxos.Leader
use omnipaxos.Paxos.{
  leader, follower, prepare, accept, recover, idle, SequencePaxos, for_each,
  accepted_reconfiguration,
}
use omnipaxos.Erasure.{ReedSolomon, encode}
use omnipaxos.Erasure.Entry.{null, EcEntry}
use omnipaxos.Coded.{SequencePaxosEc, forward_proposals, forward_stopsign}
use omnipaxos.Coded.Leader.{send_acceptdecide, set_own_accepted_idx, accept_entries_leader}
use omnipaxos.Coded.Leader.Same.{send_accept_stopsign}

-- The bytes of the key "stopsign".
abbrev pub stopsign_key : List ℕ
stopsign_key = 115 ∷ 116 ∷ 111 ∷ 112 ∷ 115 ∷ 105 ∷ 103 ∷ 110 ∷ []

module _ {T C S R E : Type 0} (lib : ReedSolomon R E) (entries : EcEntry T) where
  -- `match self.state` for entries from another server.
  unfoldable pub handle_forwarded_proposal :
      List T → SequencePaxosEc T C S R → Option (SequencePaxosEc T C S R)
  unfolding accept_entries_leader forward_proposals
  handle_forwarded_proposal new_entries p =
      let plain = p.plain in
      let q : SequencePaxos T C S = record plain {
        buffered_proposals = plain.buffered_proposals ++ new_entries;
      } in
      if not (accepted_reconfiguration plain)
      then (elim plain.state.0 [
        | leader ↦ (elim plain.state.1 [
          | prepare ↦ some (record p { plain = q })
          | accept ↦ accept_entries_leader lib entries new_entries p
          | recover ↦ some (forward_proposals new_entries p)
          | idle ↦ some (forward_proposals new_entries p)
        ])
        | follower ↦ some (forward_proposals new_entries p)
      ])
      else some p

module _ {T C S R E : Type 0} (lib : ReedSolomon R E) (entries : EcEntry T)
    (serialize : StopSign C → Option (List ℕ)) where
  -- Where the stopsign has flushed a batch, its own bytes are sent like an entry; the entries that
  -- were flushed are not sent.
  unfoldable pub send_coded_stopsign :
      StopSign C
      → Option (AcceptedMetaData T)
      → SequencePaxosEc T C S R
      → Option (SequencePaxosEc T C S R)
  unfolding encode send_acceptdecide
  send_coded_stopsign ss none p = some p
  send_coded_stopsign ss (some metadata) p = do
    stopsign_bytes ← serialize ss
    fragments ← encode lib p.ec_service stopsign_bytes
    send_acceptdecide entries (record { key = stopsign_key; op = null; fragments = fragments }) p

  unfoldable pub accept_stopsign_leader :
      StopSign C → SequencePaxosEc T C S R → Option (SequencePaxosEc T C S R)
  unfolding Internal.append_stopsign send_coded_stopsign set_own_accepted_idx
      Leader.get_promised_followers send_accept_stopsign for_each
  accept_stopsign_leader ss p = do
    let appended = Internal.append_stopsign ss p.plain.internal_storage
    let q : SequencePaxos T C S = record p.plain { internal_storage = appended.1 }
    sent ← send_coded_stopsign ss appended.0 (record p { plain = q })
    own ← set_own_accepted_idx sent.plain.internal_storage.state_cache.accepted_idx sent
    for_each (Leader.get_promised_followers own.plain.leader_state) (send_accept_stopsign ss false)
        own

  -- `match self.state` for a stopsign.
  unfoldable pub propose_stopsign :
      StopSign C → SequencePaxosEc T C S R → Option (SequencePaxosEc T C S R)
  unfolding accept_stopsign_leader forward_stopsign
  propose_stopsign ss p =
      let q : SequencePaxos T C S = record p.plain { buffered_stopsign = some ss } in
      elim p.plain.state.0 [
        | leader ↦ (elim p.plain.state.1 [
          | prepare ↦ some (record p { plain = q })
          | accept ↦ accept_stopsign_leader ss p
          | recover ↦ some (forward_stopsign ss p)
          | idle ↦ some (forward_stopsign ss p)
        ])
        | follower ↦ some (forward_stopsign ss p)
      ]

  unfoldable pub handle_forwarded_stopsign :
      StopSign C → SequencePaxosEc T C S R → Option (SequencePaxosEc T C S R)
  unfolding propose_stopsign
  handle_forwarded_stopsign ss p =
      if accepted_reconfiguration p.plain then some p else propose_stopsign ss p
