-- ===== src/Paxos/FollowerRole.antt =====
-- The follower's handlers: omnipaxos/src/sequence_paxos/follower.rs. Those of the prepare phase
-- are a child.
pub mod Preparing
use omnipaxos.Prelude.{
  ℕ, Bool, true, false, not, ◌&&◌, ◌||◌, Option, none, some, [], min, length, is_empty, get_elem?,
  set, ltb, leb, if◌then◌else◌, ◌>>=◌, Ordering,
}
use omnipaxos.Ballot
use omnipaxos.Ballot.{Ballot}
use omnipaxos.Sequence
use omnipaxos.Sequence.{
  SequenceNumber, MessageStatus, expected, dropped_preceding, outdated, check_msg_status,
}
use omnipaxos.Storage.{Snapshot, LogSync}
use omnipaxos.Storage.Cache.{is_some}
use omnipaxos.Storage.Internal
use omnipaxos.Storage.Internal.Compaction.{sync_log}
use omnipaxos.Messages.{
  Prepare, Promise, AcceptSync, AcceptDecide, Accepted, Decide, AcceptStopSign, PaxosMsg,
  PaxosMessage,
}
use omnipaxos.Paxos.{
  Role, follower, Phase, prepare, accept, recover, idle, SequencePaxos, is_leader, is_accept,
  is_prepare, is_recover, expect, get_promise, push, push_all, forward_proposals, reconnected,
  create_log_sync,
}

-- The payload of a message that is an `Accepted`.
abbrev pub as_accepted : {T C S : Type 0} → PaxosMsg T C S → Option Accepted
as_accepted (PaxosMsg.accepted a) = some a
as_accepted _ = none

abbrev pub is_accepting_follower : Role × Phase → Bool
is_accepting_follower s = not (is_leader s.0) && is_accept s.1

-- `flushed_after_decide`, if there is one, else the index that the append has reported.
abbrev pub latest_of : Option ℕ → Option ℕ → Option ℕ
latest_of (some idx) appended = some idx
latest_of none appended = appended

module _ {T C S : Type 0} where
  -- The position in `outgoing` of an `Accepted` of round `n` that is not yet sent, and the message.
  unfoldable pub get_latest_accepted_message :
      Ballot → SequencePaxos T C S → Option (Option (ℕ × PaxosMessage T C S × Accepted))
  get_latest_accepted_message n p = elim p.latest_accepted_meta [
    | none ↦ some none
    | some (ballot, i) ↦
        if Ballot.eq ballot n
        then (do
          m ← get_elem? p.outgoing i
          some (elim (as_accepted m.msg) [ none ↦ none | some a ↦ some (i, m, a) ]))
        else some none
  ]

  unfoldable pub reply_accepted : Ballot → ℕ → SequencePaxos T C S → Option (SequencePaxos T C S)
  unfolding get_latest_accepted_message
  reply_accepted n accepted_idx p = do
    latest ← get_latest_accepted_message n p
    some (elim latest [
      | some (i, m, a) ↦ record p {
        outgoing =
            set p.outgoing i
              (record m { msg = PaxosMsg.accepted (record a { accepted_idx = accepted_idx }) });
      }
      | none ↦
          push n.pid (PaxosMsg.accepted (record { n = n; accepted_idx = accepted_idx }))
            (record p { latest_accepted_meta = some (n, length p.outgoing) })
    ])

  -- Whether the ballot is the one that this server has promised.
  unfoldable pub check_valid_ballot : Ballot → SequencePaxos T C S → Bool × SequencePaxos T C S
  unfolding reconnected
  check_valid_ballot message_ballot p =
      let my_promise = get_promise p in
      elim (Ballot.cmp my_promise message_ballot) [
        | Ordering.eq ↦ (true, p)
        | Ordering.gt ↦
            (false, push message_ballot.pid (PaxosMsg.not_accepted (record { n = my_promise })) p)
        | Ordering.lt ↦ (false, reconnected message_ballot.pid p)
      ]

  unfoldable pub handle_sequence_num :
      SequenceNumber → ℕ → SequencePaxos T C S → MessageStatus × SequencePaxos T C S
  unfolding check_msg_status reconnected
  handle_sequence_num seq_num from p = elim (check_msg_status p.current_seq_num seq_num) [
    | expected ↦ (expected, record p { current_seq_num = seq_num })
    | dropped_preceding ↦ (dropped_preceding, reconnected from p)
    | outdated ↦ (outdated, p)
  ]

  -- The three tests before a message of the leader's sequence is handled, each with its effects.
  unfoldable pub when_expected :
      Ballot
      → SequenceNumber
      → (Role × Phase → Bool)
      → (SequencePaxos T C S → Option (SequencePaxos T C S))
      → SequencePaxos T C S
      → Option (SequencePaxos T C S)
  unfolding check_valid_ballot handle_sequence_num
  when_expected n seq_num in_state body p =
      let (valid, p') = check_valid_ballot n p in
      let (status, p'') = handle_sequence_num seq_num n.pid p' in
      if valid && in_state p'.state
      then (elim status [
        | expected ↦ body p''
        | dropped_preceding ↦ some p''
        | outdated ↦ some p''
      ])
      else some p'

  unfoldable pub update_decided_idx_and_get_accepted_idx :
      ℕ → SequencePaxos T C S → Option ℕ × SequencePaxos T C S
  unfolding Internal.flush_batch Internal.set_decided_idx
  update_decided_idx_and_get_accepted_idx new_decided_idx p =
      let st = p.internal_storage in
      let (new_accepted_idx, flushed) = Internal.flush_batch st in
      if leb new_decided_idx st.state_cache.decided_idx
      then (none, p)
      else if ltb st.state_cache.accepted_idx new_decided_idx
      then (
        some new_accepted_idx,
        record p {
          internal_storage =
              Internal.set_decided_idx (min new_decided_idx new_accepted_idx) flushed;
        },
      )
      else (none, record p { internal_storage = Internal.set_decided_idx new_decided_idx st })

  -- `if let Some(idx) = new_accepted_idx { self.reply_accepted(n, idx) }`.
  unfoldable pub reply_if_flushed :
      Ballot → Option ℕ → SequencePaxos T C S → Option (SequencePaxos T C S)
  unfolding reply_accepted
  reply_if_flushed n none p = some p
  reply_if_flushed n (some idx) p = reply_accepted n idx p

  unfoldable pub accept_entries :
      AcceptDecide T → SequencePaxos T C S → Option (SequencePaxos T C S)
  unfolding Internal.append_entries_and_get_accepted_idx update_decided_idx_and_get_accepted_idx
      reply_if_flushed
  accept_entries acc_dec p =
      let (appended, st) =
        Internal.append_entries_and_get_accepted_idx acc_dec.entries p.internal_storage in
      let (flushed, p') =
        update_decided_idx_and_get_accepted_idx acc_dec.decided_idx
          (record p { internal_storage = st }) in
      reply_if_flushed acc_dec.n (latest_of flushed appended) p'

  unfoldable pub handle_acceptdecide :
      AcceptDecide T → SequencePaxos T C S → Option (SequencePaxos T C S)
  unfolding when_expected accept_entries
  handle_acceptdecide acc_dec =
      when_expected acc_dec.n acc_dec.seq_num is_accepting_follower (accept_entries acc_dec)

  unfoldable pub accept_stopsign :
      AcceptStopSign C → SequencePaxos T C S → Option (SequencePaxos T C S)
  unfolding Internal.flush_batch Internal.set_stopsign reply_accepted
  accept_stopsign acc_ss p =
      let flushed = Internal.flush_batch p.internal_storage in
      let (new_accepted_idx, st) = Internal.set_stopsign (some acc_ss.ss) flushed.1 in
      reply_accepted acc_ss.n new_accepted_idx (record p { internal_storage = st })

  unfoldable pub handle_accept_stopsign :
      AcceptStopSign C → SequencePaxos T C S → Option (SequencePaxos T C S)
  unfolding when_expected accept_stopsign
  handle_accept_stopsign acc_ss =
      when_expected acc_ss.n acc_ss.seq_num is_accepting_follower (accept_stopsign acc_ss)

  unfoldable pub decide_entries : Decide → SequencePaxos T C S → Option (SequencePaxos T C S)
  unfolding update_decided_idx_and_get_accepted_idx reply_if_flushed
  decide_entries dec p =
      let (flushed, p') = update_decided_idx_and_get_accepted_idx dec.decided_idx p in
      reply_if_flushed dec.n flushed p'

  -- Only the phase is tested here.
  unfoldable pub handle_decide : Decide → SequencePaxos T C S → Option (SequencePaxos T C S)
  unfolding when_expected decide_entries
  handle_decide dec = when_expected dec.n dec.seq_num (λ s. is_accept s.1) (decide_entries dec)

  unfoldable pub forward_buffered_proposals : SequencePaxos T C S → SequencePaxos T C S
  unfolding forward_proposals
  forward_buffered_proposals p =
      let p' : SequencePaxos T C S = record p { buffered_proposals = [] } in
      if not (is_empty p.buffered_proposals) then forward_proposals p.buffered_proposals p' else p'

  unfoldable pub send_preparereq_to_all_peers : SequencePaxos T C S → SequencePaxos T C S
  unfolding push_all
  send_preparereq_to_all_peers p =
      push_all p.peers (PaxosMsg.prepare_req (record { n = get_promise p })) p

  unfoldable pub resend_promise : Option (Promise T C S) → SequencePaxos T C S → SequencePaxos T C S
  unfolding send_preparereq_to_all_peers
  resend_promise (some promise) p = push promise.n.pid (PaxosMsg.promise promise) p
  resend_promise none p = send_preparereq_to_all_peers (record p { state = (follower, recover) })

  unfoldable pub resend_messages_follower : SequencePaxos T C S → SequencePaxos T C S
  unfolding resend_promise send_preparereq_to_all_peers
  resend_messages_follower p = elim p.state.1 [
    | prepare ↦ resend_promise p.cached_promise_message p
    | recover ↦ send_preparereq_to_all_peers p
    | accept ↦ p
    | idle ↦ p
  ]

  unfoldable pub flush_batch_follower : SequencePaxos T C S → Option (SequencePaxos T C S)
  unfolding Internal.flush_batch reply_accepted
  flush_batch_follower p =
      let accepted_idx = p.internal_storage.state_cache.accepted_idx in
      let (new_accepted_idx, st) = Internal.flush_batch p.internal_storage in
      let p' : SequencePaxos T C S = record p { internal_storage = st } in
      if ltb accepted_idx new_accepted_idx
      then reply_accepted (get_promise p') new_accepted_idx p'
      else some p'
