-- ===== src/Paxos/FollowerRole/Preparing.antt =====
-- A follower's part in the prepare phase: omnipaxos/src/sequence_paxos/follower.rs.
use omnipaxos.Prelude.{ℕ, not, ◌&&◌, ◌||◌, Option, none, some, length, ltb, if◌then◌else◌, ◌>>=◌}
use omnipaxos.Ballot
use omnipaxos.Ballot.{Ballot}
use omnipaxos.Sequence
use omnipaxos.Sequence.{
  SequenceNumber, MessageStatus, expected, dropped_preceding, outdated, check_msg_status,
}
use omnipaxos.Storage.{Snapshot, LogSync}
use omnipaxos.Storage.Cache.{is_some}
use omnipaxos.Storage.Internal
use omnipaxos.Storage.Internal.Compaction.{sync_log}
use omnipaxos.Messages.{Prepare, Promise, AcceptSync, PaxosMsg}
use omnipaxos.Paxos.{
  follower, prepare, accept, SequencePaxos, is_leader, is_prepare, is_recover, expect, get_promise,
  push, create_log_sync,
}
use omnipaxos.Paxos.FollowerRole.{check_valid_ballot, forward_buffered_proposals}

module _ {T C S : Type 0} (snap : Snapshot T S) where
  -- What a follower adds to its promise for a leader that is behind.
  unfoldable pub promise_sync : Prepare → SequencePaxos T C S → Option (Option (LogSync T C S))
  unfolding create_log_sync
  promise_sync prep p =
      let na = p.internal_storage.state_cache.accepted_round in
      let accepted_idx = p.internal_storage.state_cache.accepted_idx in
      if Ballot.lt prep.n_accepted na
      then (do sync ← create_log_sync snap prep.decided_idx prep.decided_idx p; some (some sync))
      else if Ballot.eq na prep.n_accepted && ltb prep.accepted_idx accepted_idx
      then (do sync ← create_log_sync snap prep.accepted_idx prep.decided_idx p; some (some sync))
      else some none

  -- The promise to the sender of a `Prepare` that is let through.
  unfoldable pub give_promise : Prepare → ℕ → SequencePaxos T C S → Option (SequencePaxos T C S)
  unfolding Internal.flush_batch Internal.set_promise promise_sync
  give_promise prep from p = do
    let st = Internal.set_promise prep.n (Internal.flush_batch p.internal_storage).1
    let p' : SequencePaxos T C S = record p {
      internal_storage = st;
      state = (follower, prepare);
      current_seq_num = Sequence.default;
    }
    log_sync ← promise_sync prep p'
    let promise : Promise T C S = record {
      n = prep.n;
      n_accepted = st.state_cache.accepted_round;
      decided_idx = st.state_cache.decided_idx;
      accepted_idx = st.state_cache.accepted_idx;
      log_sync = log_sync;
    }
    some
        (push from (PaxosMsg.promise promise) (record p' { cached_promise_message = some promise }))

  unfoldable pub handle_prepare : Prepare → ℕ → SequencePaxos T C S → Option (SequencePaxos T C S)
  unfolding give_promise
  handle_prepare prep from p =
      let old_promise = get_promise p in
      if Ballot.lt old_promise prep.n || (Ballot.eq old_promise prep.n && is_recover p.state.1)
      then give_promise prep from p
      else some p

  -- The log and the state that an `AcceptSync` of the promised round leads to.
  unfoldable pub accept_sync :
      AcceptSync T C S → ℕ → SequencePaxos T C S → Option (SequencePaxos T C S)
  unfolding sync_log forward_buffered_proposals
  accept_sync accsync from p = do
    synced ←
        expect
          (sync_log snap accsync.n accsync.decided_idx (some accsync.log_sync) p.internal_storage)
    let p' : SequencePaxos T C S = record p {
      cached_promise_message = none;
      internal_storage = synced.1;
    }
    let p'' =
        if not (is_some synced.1.state_cache.stopsign) then forward_buffered_proposals p' else p'
    some (
        push from (PaxosMsg.accepted (record { n = accsync.n; accepted_idx = synced.0 }))
          (record p'' {
            state = (follower, accept);
            current_seq_num = accsync.seq_num;
            latest_accepted_meta = some (accsync.n, length p''.outgoing);
          }))

  unfoldable pub handle_acceptsync :
      AcceptSync T C S → ℕ → SequencePaxos T C S → Option (SequencePaxos T C S)
  unfolding check_valid_ballot accept_sync
  handle_acceptsync accsync from p =
      let (valid, p') = check_valid_ballot accsync.n p in
      if valid && (not (is_leader p'.state.0) && is_prepare p'.state.1)
      then accept_sync accsync from p'
      else some p'
