-- ===== src/Paxos/Local.antt =====
-- Which calls and timeouts keep the promise of a replica (omnipaxos/src/sequence_paxos).
use omnipaxos.Prelude.{
  ℕ, ◌≡◌, refl, ◌∙◌, ap, sym, Bool, true, Option, none, some, List, [], ◌∷◌, ◌⊎◌, inl, inr, arith,
  Option-cases, >>=-eq-some,
}
use omnipaxos.Ballot.{Ballot}
use omnipaxos.Ballot.Order.{Le, le_of_lt, lt_of_not_le}
use omnipaxos.Storage.{Snapshot, StorageResult}
use omnipaxos.Storage.Internal
use omnipaxos.Storage.Internal.{InternalStorage}
use omnipaxos.Storage.Internal.Compaction.{try_trim, try_snapshot}
use omnipaxos.Leader
use omnipaxos.Messages.{Prepare, Promise, Compaction, PaxosMsg, PaxosMessage}
use omnipaxos.Paxos.{
  follower, leader, prepare, recover, SequencePaxos, get_promise, push_all, forward_proposals,
}
use omnipaxos.Paxos.LeaderRole.{become_leader, handle_leader, become_follower}
use omnipaxos.Paxos.Replica.{snapshot}
use omnipaxos.Paxos.Frame.{
  push_all-storage, forward_proposals-storage, resend_messages_leader-storage,
  accept_entry_leader-storage, flush_batch_leader-storage,
}
use omnipaxos.Paxos.Kept.{
  promise_of, append_entry-promise, flush-promise, try_trim-promise, try_snapshot-promise,
  reply_accepted-storage, promise-same, flush_batch-promise,
}
use omnipaxos.Paxos.Handled.{propose_stopsign-promise}
use omnipaxos.Paxos.Handled.Adopting.{Result-cases}
use omnipaxos.Paxos.Replica.{
  trimmed_idx_of, propose_entry, append, reconfigure, resend_message_timeout, flush_batch_timeout,
  trim, trim_leader, take_outgoing_msgs, taken,
}
use omnipaxos.Paxos.FollowerRole.{
  reply_accepted, resend_promise, resend_messages_follower, flush_batch_follower,
  send_preparereq_to_all_peers,
}
use omnipaxos.Paxos.LeaderRole.{accept_entry_leader, flush_batch_leader}
use omnipaxos.Paxos.LeaderRole.Deciding.{resend_messages_leader}

module _ {T C S : Type 0} where
  pub become_leader-promise :
      (n : Ballot) (p q : SequencePaxos T C S) → become_leader n p ≡ some q → get_promise q ≡ n
  unfolding become_leader Internal.set_promise
  become_leader-promise n p q e =
      let st = Internal.set_promise n (Internal.flush_batch p.internal_storage).1 in
      let own : Promise T C S = record {
        n = n;
        n_accepted = st.state_cache.accepted_round;
        decided_idx = st.state_cache.decided_idx;
        accepted_idx = st.state_cache.accepted_idx;
        log_sync = none;
      } in
      let begun = Leader.with_leader n p.leader_state.max_pid p.leader_state.quorum in
      let (promised, set, rest) = >>=-eq-some (Leader.set_promise own p.pid true begun) _ e in
      let p' : SequencePaxos T C S = record p {
        internal_storage = st;
        leader_state = promised.1;
        state = (leader, prepare);
      } in
      let prep : Prepare = record {
        n = n;
        decided_idx = st.state_cache.decided_idx;
        n_accepted = st.state_cache.accepted_round;
        accepted_idx = st.state_cache.accepted_idx;
      } in
      let sent : push_all p.peers (PaxosMsg.prepare prep) p' ≡ q = cc in
      ap get_promise (sym sent)
      ∙ ap promise_of (push_all-storage p.peers (PaxosMsg.prepare prep) p')

  pub handle_leader-promise :
      (n : Ballot) (p q : SequencePaxos T C S)
      → handle_leader n p ≡ some q
      → (get_promise q ≡ get_promise p) ⊎ ((get_promise q ≡ n) × Le (get_promise p) n)
  unfolding handle_leader become_follower
  handle_leader-promise n p q e = ground (
    arith,
    become_leader-promise n p q,
    lt_of_not_le n (get_promise p),
    le_of_lt (get_promise p) n,
  )

  pub accept_entry_leader-promise :
      (entry : T) (p q : SequencePaxos T C S)
      → accept_entry_leader entry p ≡ some q
      → get_promise q ≡ get_promise p
  accept_entry_leader-promise entry p q e =
      ap promise_of (accept_entry_leader-storage entry p q e)
      ∙ append_entry-promise entry p.internal_storage

  pub append-promise :
      (entry : T) (p q : SequencePaxos T C S)
      → append entry p ≡ some (taken q)
      → get_promise q ≡ get_promise p
  unfolding append propose_entry
  append-promise entry p q e = ground (
    arith,
    accept_entry_leader-promise entry p q,
    promise-same p (forward_proposals (entry ∷ []) p) (forward_proposals-storage (entry ∷ []) p),
  )

  pub reconfigure-promise :
      (c : C) (meta : Option (List ℕ)) (p q : SequencePaxos T C S)
      → reconfigure c meta p ≡ some (taken q)
      → get_promise q ≡ get_promise p
  unfolding reconfigure
  reconfigure-promise c meta p q e =
      ground (arith, propose_stopsign-promise (record { next_config = c; metadata = meta }) p q)

  pub flush_batch_follower-promise :
      (p q : SequencePaxos T C S) → flush_batch_follower p ≡ some q → get_promise q ≡ get_promise p
  unfolding flush_batch_follower
  flush_batch_follower-promise p q e =
      let (idx, st) = Internal.flush_batch p.internal_storage in
      let p' : SequencePaxos T C S = record p { internal_storage = st } in
      ground (
        arith,
        flush_batch-promise p.internal_storage,
        λ (h : reply_accepted (get_promise p') idx p' ≡ some q).
            ap promise_of (reply_accepted-storage (get_promise p') idx p' q h),
      )

  pub flush_batch_timeout-promise :
      (p q : SequencePaxos T C S) → flush_batch_timeout p ≡ some q → get_promise q ≡ get_promise p
  unfolding flush_batch_timeout
  flush_batch_timeout-promise p q e = ground (
    arith,
    flush_batch_follower-promise p q,
    λ (h : flush_batch_leader p ≡ some q). ap promise_of (flush_batch_leader-storage p q h),
    flush-promise p.internal_storage,
  )

  pub resend_message_timeout-promise :
      (p q : SequencePaxos T C S)
      → resend_message_timeout p ≡ some q
      → get_promise q ≡ get_promise p
  unfolding resend_message_timeout resend_messages_follower resend_promise
      send_preparereq_to_all_peers
  resend_message_timeout-promise p q e =
      let again : PaxosMsg T C S = PaxosMsg.prepare_req (record { n = get_promise p }) in
      let p' : SequencePaxos T C S = record p { state = (follower, recover) } in
      ground (
        arith,
        λ (h : resend_messages_leader p ≡ some q).
            ap promise_of (resend_messages_leader-storage p q h),
        promise-same p (push_all p.peers again p) (push_all-storage p.peers again p),
        promise-same p' (push_all p.peers again p') (push_all-storage p.peers again p'),
      )

  pub trim_leader-promise :
      (idx : ℕ) (p : SequencePaxos T C S) → get_promise (trim_leader idx p).1 ≡ get_promise p
  unfolding trim_leader
  trim_leader-promise idx p = elim (Result-cases (try_trim idx p.internal_storage)) [
    | inl (st, done) ↦
        let p' : SequencePaxos T C S = record p { internal_storage = st } in
        let msg : PaxosMsg T C S = PaxosMsg.compaction (Compaction.trim idx) in
        let kept = try_trim-promise idx p.internal_storage st done in
        let sent = promise-same p' (push_all p.peers msg p') (push_all-storage p.peers msg p') in
        ground arith
    | inr (x, failed) ↦ ground arith
  ]

  pub trim-promise :
      (idx : Option ℕ) (p q : SequencePaxos T C S) (r : StorageResult (Unit {0}))
      → trim idx p ≡ some (r, q)
      → get_promise q ≡ get_promise p
  unfolding trim
  trim-promise idx p q r e = elim (Option-cases (Leader.get_min_all_accepted_idx p.leader_state)) [
    | inl panicked ↦ ground arith
    | inr (m, least) ↦ (elim (Result-cases (trimmed_idx_of idx m)) [
      | inl (i, found) ↦ ground (arith, trim_leader-promise i p)
      | inr (x, refusal) ↦ ground arith
    ])
  ]

  pub take_outgoing_msgs-promise :
      (buffer : List (PaxosMessage T C S)) (p : SequencePaxos T C S)
      → get_promise (take_outgoing_msgs buffer p).1 ≡ get_promise p
  unfolding take_outgoing_msgs
  take_outgoing_msgs-promise buffer p = refl

module _ {T C S : Type 0} (snap : Snapshot T S) where
  pub snapshot-promise :
      (idx : Option ℕ) (local_only : Bool) (p : SequencePaxos T C S)
      → get_promise (snapshot snap idx local_only p).1 ≡ get_promise p
  unfolding snapshot
  snapshot-promise idx local_only p =
      elim (Result-cases (try_snapshot snap idx p.internal_storage)) [
        | inl (st, done) ↦
            let p' : SequencePaxos T C S = record p { internal_storage = st } in
            let msg : PaxosMsg T C S = PaxosMsg.compaction (Compaction.snapshot idx) in
            let kept = try_snapshot-promise snap idx p.internal_storage st done in
            let sent =
              promise-same p' (push_all p.peers msg p') (push_all-storage p.peers msg p') in
            ground arith
        | inr (x, failed) ↦ ground arith
      ]
