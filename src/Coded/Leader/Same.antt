-- ===== src/Coded/Leader/Same.antt =====
-- The leader's handlers that are, word for word, those of omnipaxos/src/sequence_paxos/leader.rs:
-- omnipaxos/src/sequence_paxos_ec/leader.rs.
use omnipaxos.Prelude.{ℕ, Bool, Option}
use omnipaxos.Ballot.{Ballot}
use omnipaxos.Storage.{StopSign}
use omnipaxos.Messages.{PrepareReq, Accepted, NotAccepted, AcceptDecide, PaxosMessage}
use omnipaxos.Paxos.LeaderRole
use omnipaxos.Paxos.LeaderRole.Deciding
use omnipaxos.Coded.{SequencePaxosEc, on_plain}

module _ {T C S R : Type 0} where
  unfoldable pub handle_leader : Ballot → SequencePaxosEc T C S R → Option (SequencePaxosEc T C S R)
  unfolding LeaderRole.handle_leader
  handle_leader n = on_plain (LeaderRole.handle_leader n)

  unfoldable pub become_follower : SequencePaxosEc T C S R → SequencePaxosEc T C S R
  unfolding LeaderRole.become_follower
  become_follower p = record p { plain = LeaderRole.become_follower p.plain }

  unfoldable pub handle_preparereq :
      PrepareReq → ℕ → SequencePaxosEc T C S R → Option (SequencePaxosEc T C S R)
  unfolding LeaderRole.handle_preparereq
  handle_preparereq prepreq from = on_plain (LeaderRole.handle_preparereq prepreq from)

  unfoldable pub send_prepare : ℕ → SequencePaxosEc T C S R → SequencePaxosEc T C S R
  unfolding LeaderRole.send_prepare
  send_prepare to p = record p { plain = LeaderRole.send_prepare to p.plain }

  unfoldable pub send_accept_stopsign :
      StopSign C → Bool → ℕ → SequencePaxosEc T C S R → Option (SequencePaxosEc T C S R)
  unfolding LeaderRole.send_accept_stopsign
  send_accept_stopsign ss resend to = on_plain (LeaderRole.send_accept_stopsign ss resend to)

  unfoldable pub send_decide :
      ℕ → Bool → ℕ → SequencePaxosEc T C S R → Option (SequencePaxosEc T C S R)
  unfolding LeaderRole.send_decide
  send_decide decided_idx resend to = on_plain (LeaderRole.send_decide decided_idx resend to)

  unfoldable pub get_latest_accdec_message :
      ℕ → SequencePaxosEc T C S R → Option (Option (ℕ × PaxosMessage T C S × AcceptDecide T))
  unfolding LeaderRole.get_latest_accdec_message
  get_latest_accdec_message to p = LeaderRole.get_latest_accdec_message to p.plain

  unfoldable pub handle_accepted :
      Accepted → ℕ → SequencePaxosEc T C S R → Option (SequencePaxosEc T C S R)
  unfolding Deciding.handle_accepted
  handle_accepted accepted from = on_plain (Deciding.handle_accepted accepted from)

  unfoldable pub handle_notaccepted :
      NotAccepted → ℕ → SequencePaxosEc T C S R → Option (SequencePaxosEc T C S R)
  unfolding Deciding.handle_notaccepted
  handle_notaccepted not_acc from = on_plain (Deciding.handle_notaccepted not_acc from)

  unfoldable pub resend_messages_leader : SequencePaxosEc T C S R → Option (SequencePaxosEc T C S R)
  unfolding Deciding.resend_messages_leader
  resend_messages_leader = on_plain Deciding.resend_messages_leader
