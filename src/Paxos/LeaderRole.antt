-- ===== src/Paxos/LeaderRole.antt =====
-- The leader's handlers: omnipaxos/src/sequence_paxos/leader.rs. The decisions, with what is sent
-- again, and the end of the prepare phase are children.
pub mod Deciding
pub mod Preparing
use omnipaxos.Prelude.{
  ℕ, Bool, true, false, not, ◌&&◌, ◌||◌, Option, none, some, List, [], ◌++◌, min, length, is_empty,
  get_elem?, set, ltb, ◌==◌, if◌then◌else◌, ◌>>=◌,
}
use omnipaxos.Ballot
use omnipaxos.Ballot.{Ballot}
use omnipaxos.Sequence.{SequenceNumber}
use omnipaxos.Storage.{StopSign, Snapshot}
use omnipaxos.Storage.Internal
use omnipaxos.Storage.Internal.{AcceptedMetaData}
use omnipaxos.Storage.Internal.Compaction.{sync_log}
use omnipaxos.Leader
use omnipaxos.Leader.{LeaderState, PromiseMetaData}
use omnipaxos.Messages.{
  PrepareReq, Prepare, Promise, AcceptSync, AcceptDecide, Accepted, Decide, AcceptStopSign,
  NotAccepted, PaxosMsg, PaxosMessage,
}
use omnipaxos.Paxos.{
  follower, leader, prepare, accept, recover, idle, SequencePaxos, is_leader, is_accept, expect,
  for_each, get_promise, accepted_reconfiguration, push, push_all, forward_proposals,
  forward_stopsign, create_log_sync,
}

-- The payload of a message that is an `AcceptDecide`.
abbrev pub as_accept_decide : {T C S : Type 0} → PaxosMsg T C S → Option (AcceptDecide T)
as_accept_decide (PaxosMsg.accept_decide a) = some a
as_accept_decide _ = none

module _ {T C S : Type 0} where
  -- The position in `outgoing` of the `AcceptDecide` of this round that waits to be sent to a
  -- server, and the message.
  unfoldable pub get_latest_accdec_message :
      ℕ → SequencePaxos T C S → Option (Option (ℕ × PaxosMessage T C S × AcceptDecide T))
  unfolding Leader.get_latest_accept_meta
  get_latest_accdec_message to p = do
    latest ← Leader.get_latest_accept_meta to p.leader_state
    elim latest [
      | none ↦ some none
      | some (bal, i) ↦
          if Ballot.eq bal p.leader_state.n_leader
          then (do
            m ← get_elem? p.outgoing i
            some (elim (as_accept_decide m.msg) [ none ↦ none | some a ↦ some (i, m, a) ]))
          else some none
    ]

  -- Changes the `AcceptDecide` in a message that waits.
  abbrev pub replace_accdec :
      ℕ → PaxosMessage T C S → AcceptDecide T → SequencePaxos T C S → SequencePaxos T C S
  replace_accdec i m a p = record p {
    outgoing = set p.outgoing i (record m { msg = PaxosMsg.accept_decide a });
  }

  unfoldable pub become_follower : SequencePaxos T C S → SequencePaxos T C S
  become_follower p = record p { state = (follower, p.state.1) }

  -- The `Prepare` of this leader's round, from its log as it is.
  abbrev pub prepare_of : SequencePaxos T C S → Prepare
  prepare_of p = record {
    n = p.leader_state.n_leader;
    decided_idx = p.internal_storage.state_cache.decided_idx;
    n_accepted = p.internal_storage.state_cache.accepted_round;
    accepted_idx = p.internal_storage.state_cache.accepted_idx;
  }

  unfoldable pub send_prepare : ℕ → SequencePaxos T C S → SequencePaxos T C S
  send_prepare to p = push to (PaxosMsg.prepare (prepare_of p)) p

  -- `handle_leader` for a ballot of this server that is new.
  unfoldable pub become_leader : Ballot → SequencePaxos T C S → Option (SequencePaxos T C S)
  unfolding Internal.flush_batch Internal.set_promise Leader.with_leader Leader.set_promise push_all
  become_leader n p = do
    let st = Internal.set_promise n (Internal.flush_batch p.internal_storage).1
    let my_promise : Promise T C S = record {
      n = n;
      n_accepted = st.state_cache.accepted_round;
      decided_idx = st.state_cache.decided_idx;
      accepted_idx = st.state_cache.accepted_idx;
      log_sync = none;
    }
    promised ←
        Leader.set_promise my_promise p.pid true
          (Leader.with_leader n p.leader_state.max_pid p.leader_state.quorum)
    let p' : SequencePaxos T C S = record p {
      internal_storage = st;
      leader_state = promised.1;
      state = (leader, prepare);
    }
    let prep : Prepare = record {
      n = n;
      decided_idx = st.state_cache.decided_idx;
      n_accepted = st.state_cache.accepted_round;
      accepted_idx = st.state_cache.accepted_idx;
    }
    some (push_all p.peers (PaxosMsg.prepare prep) p')

  unfoldable pub handle_leader : Ballot → SequencePaxos T C S → Option (SequencePaxos T C S)
  unfolding become_leader become_follower
  handle_leader n p =
      if Ballot.le n p.leader_state.n_leader || Ballot.le n (get_promise p)
      then some p
      else if p.pid == n.pid
      then become_leader n p
      else some (become_follower p)

  unfoldable pub handle_preparereq :
      PrepareReq → ℕ → SequencePaxos T C S → Option (SequencePaxos T C S)
  unfolding Leader.reset_promise Leader.set_latest_accept_meta send_prepare
  handle_preparereq prepreq from p =
      if is_leader p.state.0 && Ballot.le prepreq.n p.leader_state.n_leader
      then (do
        l ← Leader.reset_promise from p.leader_state
        l' ← Leader.set_latest_accept_meta from none l
        some (send_prepare from (record p { leader_state = l' })))
      else some p

  -- An `AcceptDecide` with the new entries to one follower: the one that waits is extended.
  unfoldable pub send_acceptdecide_to :
      AcceptedMetaData T → ℕ → SequencePaxos T C S → Option (SequencePaxos T C S)
  unfolding get_latest_accdec_message Leader.set_latest_accept_meta Leader.next_seq_num
  send_acceptdecide_to accepted pid p = do
    let decided_idx = p.internal_storage.state_cache.decided_idx
    latest ← get_latest_accdec_message pid p
    elim latest [
      | some (i, m, a) ↦ some (
          replace_accdec i m
            (record a { decided_idx = decided_idx; entries = a.entries ++ accepted.entries }) p)
      | none ↦ (do
        l ← Leader.set_latest_accept_meta pid (some (length p.outgoing)) p.leader_state
        numbered ← Leader.next_seq_num pid l
        let acc : AcceptDecide T = record {
          n = numbered.1.n_leader;
          seq_num = numbered.0;
          decided_idx = decided_idx;
          entries = accepted.entries;
        }
        some (push pid (PaxosMsg.accept_decide acc) (record p { leader_state = numbered.1 })))
    ]

  unfoldable pub send_acceptdecide :
      AcceptedMetaData T → SequencePaxos T C S → Option (SequencePaxos T C S)
  unfolding send_acceptdecide_to Leader.get_promised_followers for_each
  send_acceptdecide accepted p =
      for_each (Leader.get_promised_followers p.leader_state) (send_acceptdecide_to accepted) p

  -- `next_seq_num`, or `get_seq_num` for a message that is sent again.
  unfoldable pub seq_num_for :
      ℕ → Bool → SequencePaxos T C S → Option (SequenceNumber × SequencePaxos T C S)
  unfolding Leader.get_seq_num Leader.next_seq_num
  seq_num_for to true p = do s ← Leader.get_seq_num to p.leader_state; some (s, p)
  seq_num_for to false p = do
    numbered ← Leader.next_seq_num to p.leader_state
    some (numbered.0, record p { leader_state = numbered.1 })

  unfoldable pub send_accept_stopsign :
      StopSign C → Bool → ℕ → SequencePaxos T C S → Option (SequencePaxos T C S)
  unfolding seq_num_for
  send_accept_stopsign ss resend to p = do
    numbered ← seq_num_for to resend p
    let acc_ss : AcceptStopSign C = record {
      n = numbered.1.leader_state.n_leader;
      seq_num = numbered.0;
      ss = ss;
    }
    some (push to (PaxosMsg.accept_stop_sign acc_ss) numbered.1)

  unfoldable pub send_decide : ℕ → Bool → ℕ → SequencePaxos T C S → Option (SequencePaxos T C S)
  unfolding seq_num_for
  send_decide decided_idx resend to p = do
    numbered ← seq_num_for to resend p
    let d : Decide = record {
      n = numbered.1.leader_state.n_leader;
      seq_num = numbered.0;
      decided_idx = decided_idx;
    }
    some (push to (PaxosMsg.decide d) numbered.1)

  -- The effects of a flush: the leader's own accepted index, and the messages to the followers.
  unfoldable pub announce :
      Option (AcceptedMetaData T) → SequencePaxos T C S → Option (SequencePaxos T C S)
  unfolding Leader.set_accepted_idx send_acceptdecide
  announce none p = some p
  announce (some metadata) p = do
    l ← Leader.set_accepted_idx p.pid metadata.accepted_idx p.leader_state
    send_acceptdecide metadata (record p { leader_state = l })

  unfoldable pub accept_entry_leader : T → SequencePaxos T C S → Option (SequencePaxos T C S)
  unfolding Internal.append_entry_with_batching announce
  accept_entry_leader entry p =
      let (metadata, st) = Internal.append_entry_with_batching entry p.internal_storage in
      announce metadata (record p { internal_storage = st })

  unfoldable pub accept_entries_leader : List T → SequencePaxos T C S → Option (SequencePaxos T C S)
  unfolding Internal.append_entries_with_batching announce
  accept_entries_leader entries p =
      let (metadata, st) = Internal.append_entries_with_batching entries p.internal_storage in
      announce metadata (record p { internal_storage = st })

  unfoldable pub flush_batch_leader : SequencePaxos T C S → Option (SequencePaxos T C S)
  unfolding Internal.flush_batch_and_get_entries announce
  flush_batch_leader p =
      let (metadata, st) = Internal.flush_batch_and_get_entries p.internal_storage in
      announce metadata (record p { internal_storage = st })

  -- `if let Some(metadata) = ... { self.send_acceptdecide(metadata) }`.
  unfoldable pub send_flushed :
      Option (AcceptedMetaData T) → SequencePaxos T C S → Option (SequencePaxos T C S)
  unfolding send_acceptdecide
  send_flushed none p = some p
  send_flushed (some metadata) p = send_acceptdecide metadata p

  unfoldable pub accept_stopsign_leader :
      StopSign C → SequencePaxos T C S → Option (SequencePaxos T C S)
  unfolding Internal.append_stopsign send_flushed Leader.set_accepted_idx
      Leader.get_promised_followers send_accept_stopsign for_each
  accept_stopsign_leader ss p = do
    let appended = Internal.append_stopsign ss p.internal_storage
    p' ← send_flushed appended.0 (record p { internal_storage = appended.1 })
    l ← Leader.set_accepted_idx p'.pid p'.internal_storage.state_cache.accepted_idx p'.leader_state
    for_each (Leader.get_promised_followers l) (send_accept_stopsign ss false)
        (record p' { leader_state = l })

  -- `match self.state` for entries from a client or from another server.
  unfoldable pub handle_forwarded_proposal :
      List T → SequencePaxos T C S → Option (SequencePaxos T C S)
  unfolding accept_entries_leader forward_proposals
  handle_forwarded_proposal entries p =
      if not (accepted_reconfiguration p)
      then (elim p.state.0 [
        | leader ↦ (elim p.state.1 [
          | prepare ↦ some (record p { buffered_proposals = p.buffered_proposals ++ entries })
          | accept ↦ accept_entries_leader entries p
          | recover ↦ some (forward_proposals entries p)
          | idle ↦ some (forward_proposals entries p)
        ])
        | follower ↦ some (forward_proposals entries p)
      ])
      else some p

  -- `match self.state` for a stopsign.
  unfoldable pub propose_stopsign : StopSign C → SequencePaxos T C S → Option (SequencePaxos T C S)
  unfolding accept_stopsign_leader forward_stopsign
  propose_stopsign ss p = elim p.state.0 [
    | leader ↦ (elim p.state.1 [
      | prepare ↦ some (record p { buffered_stopsign = some ss })
      | accept ↦ accept_stopsign_leader ss p
      | recover ↦ some (forward_stopsign ss p)
      | idle ↦ some (forward_stopsign ss p)
    ])
    | follower ↦ some (forward_stopsign ss p)
  ]

  unfoldable pub handle_forwarded_stopsign :
      StopSign C → SequencePaxos T C S → Option (SequencePaxos T C S)
  unfolding propose_stopsign
  handle_forwarded_stopsign ss p =
      if accepted_reconfiguration p then some p else propose_stopsign ss p
