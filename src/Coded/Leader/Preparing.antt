-- ===== src/Coded/Leader/Preparing.antt =====
-- The end of a leader's prepare phase: omnipaxos/src/sequence_paxos_ec/leader.rs.
use omnipaxos.Prelude.{ℕ, true, false, not, Option, some, if◌then◌else◌, ◌>>=◌}
use omnipaxos.Ballot
use omnipaxos.Storage.{Snapshot, LogSync}
use omnipaxos.Storage.Internal.Compaction.{sync_log}
use omnipaxos.Leader
use omnipaxos.Messages.{Promise, AcceptSync, PaxosMsg}
use omnipaxos.Paxos.{
  leader, accept, SequencePaxos, expect, for_each, accepted_reconfiguration, push,
}
use omnipaxos.Paxos.LeaderRole.Preparing.{
  append_buffered_proposals, append_buffered_stopsign, valid_entries_idx,
}
use omnipaxos.Erasure.{ReedSolomon}
use omnipaxos.Erasure.Entry.{EcEntry}
use omnipaxos.Coded.{SequencePaxosEc, total_shards, entries_for, encode_entries, create_log_sync}

module _ {T C S R E : Type 0} (lib : ReedSolomon R E) (entries : EcEntry T)
    (snap : Snapshot T S) where
  -- Each entry of the suffix is encoded, and replaced by the fragment of the receiver.
  unfoldable pub recode_for : ℕ → LogSync T C S → SequencePaxosEc T C S R → Option (LogSync T C S)
  unfolding encode_entries entries_for
  recode_for to log_sync p = do
    coded ← encode_entries lib entries p.ec_service log_sync.suffix
    suffix ← entries_for entries (total_shards p) to coded
    some (record log_sync { suffix = suffix })

  unfoldable pub send_accsync : ℕ → SequencePaxosEc T C S R → Option (SequencePaxosEc T C S R)
  unfolding Leader.get_promise_meta Leader.get_decided_idx Leader.increment_seq_num_session
      Leader.next_seq_num create_log_sync valid_entries_idx recode_for
  send_accsync to p = do
    let records = p.plain.leader_state
    let current_n = records.n_leader
    followers ← Leader.get_promise_meta to records
    decided ← Leader.get_decided_idx followers.pid records
    followers_decided_idx ← decided
    let idx = valid_entries_idx current_n records.max_promise_meta followers followers_decided_idx
    stored ← create_log_sync snap idx followers_decided_idx p
    log_sync ← recode_for to stored p
    l ← Leader.increment_seq_num_session to records
    numbered ← Leader.next_seq_num to l
    let acc_sync : AcceptSync T C S = record {
      n = current_n;
      seq_num = numbered.0;
      decided_idx = p.plain.internal_storage.state_cache.decided_idx;
      log_sync = log_sync;
    }
    let q : SequencePaxos T C S = record p.plain { leader_state = numbered.1 }
    some (record p { plain = push to (PaxosMsg.accept_sync acc_sync) q })

  -- The proposals that were buffered go into the log as they are, with the whole value.
  unfoldable pub handle_majority_promises :
      SequencePaxosEc T C S R → Option (SequencePaxosEc T C S R)
  unfolding Leader.take_max_promise_sync Leader.get_max_decided_idx sync_log
      append_buffered_proposals append_buffered_stopsign Leader.set_accepted_idx
      Leader.get_promised_followers send_accsync for_each
  handle_majority_promises p = do
    let taken = Leader.take_max_promise_sync p.plain.leader_state
    let decided_idx = Leader.get_max_decided_idx taken.1
    synced ← expect (sync_log snap taken.1.n_leader decided_idx taken.0 p.plain.internal_storage)
    let q : SequencePaxos T C S = record p.plain {
      internal_storage = synced.1;
      leader_state = taken.1;
    }
    let proposed = append_buffered_proposals q
    let q' =
        if not (accepted_reconfiguration q)
        then append_buffered_stopsign proposed.buffered_stopsign proposed
        else q
    l ← Leader.set_accepted_idx q'.pid q'.internal_storage.state_cache.accepted_idx q'.leader_state
    let accepting : SequencePaxos T C S = record q' { state = (leader, accept); leader_state = l }
    for_each (Leader.get_promised_followers l) send_accsync (record p { plain = accepting })

  unfoldable pub handle_promise_prepare :
      Promise T C S → ℕ → SequencePaxosEc T C S R → Option (SequencePaxosEc T C S R)
  unfolding Leader.set_promise handle_majority_promises
  handle_promise_prepare prom from p =
      if Ballot.eq prom.n p.plain.leader_state.n_leader
      then (do
        promised ← Leader.set_promise prom from true p.plain.leader_state
        let q : SequencePaxos T C S = record p.plain { leader_state = promised.1 }
        let p' : SequencePaxosEc T C S R = record p { plain = q }
        if promised.0 then handle_majority_promises p' else some p')
      else some p

  unfoldable pub handle_promise_accept :
      Promise T C S → ℕ → SequencePaxosEc T C S R → Option (SequencePaxosEc T C S R)
  unfolding Leader.set_promise send_accsync
  handle_promise_accept prom from p =
      if Ballot.eq prom.n p.plain.leader_state.n_leader
      then (do
        promised ← Leader.set_promise prom from false p.plain.leader_state
        let q : SequencePaxos T C S = record p.plain { leader_state = promised.1 }
        send_accsync from (record p { plain = q }))
      else some p
