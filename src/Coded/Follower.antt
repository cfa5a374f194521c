-- ===== src/Coded/Follower.antt =====
-- The follower's handlers, which are, word for word, those of
-- omnipaxos/src/sequence_paxos/follower.rs: omnipaxos/src/sequence_paxos_ec/follower.rs.
use omnipaxos.Prelude.{ℕ, Bool, Option}
use omnipaxos.Ballot.{Ballot}
use omnipaxos.Sequence.{SequenceNumber, MessageStatus}
use omnipaxos.Storage.{Snapshot}
use omnipaxos.Messages.{
  Prepare, AcceptSync, AcceptDecide, Accepted, Decide, AcceptStopSign, PaxosMessage,
}
use omnipaxos.Paxos.FollowerRole
use omnipaxos.Paxos.FollowerRole.Preparing
use omnipaxos.Coded.{SequencePaxosEc, on_plain}

module _ {T C S R : Type 0} where
  unfoldable pub get_latest_accepted_message :
      Ballot → SequencePaxosEc T C S R → Option (Option (ℕ × PaxosMessage T C S × Accepted))
  unfolding FollowerRole.get_latest_accepted_message
  get_latest_accepted_message n p = FollowerRole.get_latest_accepted_message n p.plain

  unfoldable pub reply_accepted :
      Ballot → ℕ → SequencePaxosEc T C S R → Option (SequencePaxosEc T C S R)
  unfolding FollowerRole.reply_accepted
  reply_accepted n accepted_idx = on_plain (FollowerRole.reply_accepted n accepted_idx)

  unfoldable pub check_valid_ballot :
      Ballot → SequencePaxosEc T C S R → Bool × SequencePaxosEc T C S R
  unfolding FollowerRole.check_valid_ballot
  check_valid_ballot message_ballot p =
      let (valid, q) = FollowerRole.check_valid_ballot message_ballot p.plain in
      (valid, record p { plain = q })

  unfoldable pub handle_sequence_num :
      SequenceNumber → ℕ → SequencePaxosEc T C S R → MessageStatus × SequencePaxosEc T C S R
  unfolding FollowerRole.handle_sequence_num
  handle_sequence_num seq_num from p =
      let (status, q) = FollowerRole.handle_sequence_num seq_num from p.plain in
      (status, record p { plain = q })

  unfoldable pub update_decided_idx_and_get_accepted_idx :
      ℕ → SequencePaxosEc T C S R → Option ℕ × SequencePaxosEc T C S R
  unfolding FollowerRole.update_decided_idx_and_get_accepted_idx
  update_decided_idx_and_get_accepted_idx new_decided_idx p =
      let (flushed, q) =
        FollowerRole.update_decided_idx_and_get_accepted_idx new_decided_idx p.plain in
      (flushed, record p { plain = q })

  unfoldable pub handle_acceptdecide :
      AcceptDecide T → SequencePaxosEc T C S R → Option (SequencePaxosEc T C S R)
  unfolding FollowerRole.handle_acceptdecide
  handle_acceptdecide acc_dec = on_plain (FollowerRole.handle_acceptdecide acc_dec)

  unfoldable pub handle_accept_stopsign :
      AcceptStopSign C → SequencePaxosEc T C S R → Option (SequencePaxosEc T C S R)
  unfolding FollowerRole.handle_accept_stopsign
  handle_accept_stopsign acc_ss = on_plain (FollowerRole.handle_accept_stopsign acc_ss)

  unfoldable pub handle_decide : Decide → SequencePaxosEc T C S R → Option (SequencePaxosEc T C S R)
  unfolding FollowerRole.handle_decide
  handle_decide dec = on_plain (FollowerRole.handle_decide dec)

  unfoldable pub forward_buffered_proposals : SequencePaxosEc T C S R → SequencePaxosEc T C S R
  unfolding FollowerRole.forward_buffered_proposals
  forward_buffered_proposals p = record p {
    plain = FollowerRole.forward_buffered_proposals p.plain;
  }

  unfoldable pub send_preparereq_to_all_peers : SequencePaxosEc T C S R → SequencePaxosEc T C S R
  unfolding FollowerRole.send_preparereq_to_all_peers
  send_preparereq_to_all_peers p = record p {
    plain = FollowerRole.send_preparereq_to_all_peers p.plain;
  }

  unfoldable pub resend_messages_follower : SequencePaxosEc T C S R → SequencePaxosEc T C S R
  unfolding FollowerRole.resend_messages_follower
  resend_messages_follower p = record p { plain = FollowerRole.resend_messages_follower p.plain }

  unfoldable pub flush_batch_follower : SequencePaxosEc T C S R → Option (SequencePaxosEc T C S R)
  unfolding FollowerRole.flush_batch_follower
  flush_batch_follower = on_plain FollowerRole.flush_batch_follower

module _ {T C S R : Type 0} (snap : Snapshot T S) where
  unfoldable pub handle_prepare :
      Prepare → ℕ → SequencePaxosEc T C S R → Option (SequencePaxosEc T C S R)
  unfolding Preparing.handle_prepare
  handle_prepare prep from = on_plain (Preparing.handle_prepare snap prep from)

  unfoldable pub handle_acceptsync :
      AcceptSync T C S → ℕ → SequencePaxosEc T C S R → Option (SequencePaxosEc T C S R)
  unfolding Preparing.handle_acceptsync
  handle_acceptsync accsync from = on_plain (Preparing.handle_acceptsync snap accsync from)
