-- ===== src/Paxos/LeaderRole/Preparing.antt =====
-- The promises that a leader receives, and the end of its prepare phase:
-- omnipaxos/src/sequence_paxos/leader.rs.
use omnipaxos.Prelude.{
  ℕ, true, false, not, Option, none, some, [], min, is_empty, if◌then◌else◌, ◌>>=◌,
}
use omnipaxos.Ballot
use omnipaxos.Ballot.{Ballot}
use omnipaxos.Storage.{StopSign, Snapshot}
use omnipaxos.Storage.Internal
use omnipaxos.Storage.Internal.{AcceptedMetaData}
use omnipaxos.Storage.Internal.Compaction.{sync_log}
use omnipaxos.Leader
use omnipaxos.Leader.{LeaderState, PromiseMetaData}
use omnipaxos.Messages.{Promise, AcceptSync, PaxosMsg}
use omnipaxos.Paxos.{
  leader, accept, SequencePaxos, expect, for_each, accepted_reconfiguration, push, create_log_sync,
}

module _ {T C S : Type 0} where
  -- What was proposed during the prepare phase goes into the log, and is no longer buffered.
  unfoldable pub append_buffered_proposals : SequencePaxos T C S → SequencePaxos T C S
  unfolding Internal.append_entries_without_batching
  append_buffered_proposals p =
      let st =
        (Internal.append_entries_without_batching p.buffered_proposals p.internal_storage).1 in
      if not (is_empty p.buffered_proposals)
      then record p { internal_storage = st; buffered_proposals = [] }
      else p

  unfoldable pub append_buffered_stopsign :
      Option (StopSign C) → SequencePaxos T C S → SequencePaxos T C S
  unfolding Internal.append_stopsign
  append_buffered_stopsign none p = p
  append_buffered_stopsign (some ss) p = record p {
    internal_storage = (Internal.append_stopsign ss p.internal_storage).1;
    buffered_stopsign = none;
  }

-- Up to where the log of a follower is known to agree with the leader's.
unfoldable pub valid_entries_idx : Ballot → PromiseMetaData → PromiseMetaData → ℕ → ℕ
valid_entries_idx current_n prev_round_max followers followers_decided_idx =
    if Ballot.eq followers.n_accepted current_n
    then followers.accepted_idx
    else if Ballot.eq followers.n_accepted prev_round_max.n_accepted
    then min prev_round_max.accepted_idx followers.accepted_idx
    else followers_decided_idx

module _ {T C S : Type 0} (snap : Snapshot T S) where
  unfoldable pub send_accsync : ℕ → SequencePaxos T C S → Option (SequencePaxos T C S)
  unfolding Leader.get_promise_meta Leader.get_decided_idx Leader.increment_seq_num_session
      Leader.next_seq_num create_log_sync valid_entries_idx
  send_accsync to p = do
    let current_n = p.leader_state.n_leader
    followers ← Leader.get_promise_meta to p.leader_state
    decided ← Leader.get_decided_idx followers.pid p.leader_state
    followers_decided_idx ← decided
    let idx =
        valid_entries_idx current_n p.leader_state.max_promise_meta followers followers_decided_idx
    log_sync ← create_log_sync snap idx followers_decided_idx p
    l ← Leader.increment_seq_num_session to p.leader_state
    numbered ← Leader.next_seq_num to l
    let acc_sync : AcceptSync T C S = record {
      n = current_n;
      seq_num = numbered.0;
      decided_idx = p.internal_storage.state_cache.decided_idx;
      log_sync = log_sync;
    }
    some (push to (PaxosMsg.accept_sync acc_sync) (record p { leader_state = numbered.1 }))

  -- The last step of the prepare phase, with the accepted index that the log has by then.
  unfoldable pub handle_majority_promises : SequencePaxos T C S → Option (SequencePaxos T C S)
  unfolding Leader.take_max_promise_sync Leader.get_max_decided_idx sync_log
      append_buffered_proposals append_buffered_stopsign Leader.set_accepted_idx
      Leader.get_promised_followers send_accsync for_each
  handle_majority_promises p = do
    let taken = Leader.take_max_promise_sync p.leader_state
    let decided_idx = Leader.get_max_decided_idx taken.1
    synced ← expect (sync_log snap taken.1.n_leader decided_idx taken.0 p.internal_storage)
    let p' : SequencePaxos T C S = record p { internal_storage = synced.1; leader_state = taken.1 }
    let proposed = append_buffered_proposals p'
    let p'' =
        if not (accepted_reconfiguration p')
        then append_buffered_stopsign proposed.buffered_stopsign proposed
        else p'
    l ←
        Leader.set_accepted_idx p''.pid p''.internal_storage.state_cache.accepted_idx
          p''.leader_state
    for_each (Leader.get_promised_followers l) send_accsync
        (record p'' { state = (leader, accept); leader_state = l })

  unfoldable pub handle_promise_prepare :
      Promise T C S → ℕ → SequencePaxos T C S → Option (SequencePaxos T C S)
  unfolding Leader.set_promise handle_majority_promises
  handle_promise_prepare prom from p =
      if Ballot.eq prom.n p.leader_state.n_leader
      then (do
        promised ← Leader.set_promise prom from true p.leader_state
        let p' : SequencePaxos T C S = record p { leader_state = promised.1 }
        if promised.0 then handle_majority_promises p' else some p')
      else some p

  unfoldable pub handle_promise_accept :
      Promise T C S → ℕ → SequencePaxos T C S → Option (SequencePaxos T C S)
  unfolding Leader.set_promise send_accsync
  handle_promise_accept prom from p =
      if Ballot.eq prom.n p.leader_state.n_leader
      then (do
        promised ← Leader.set_promise prom from false p.leader_state
        send_accsync from (record p { leader_state = promised.1 }))
      else some p
