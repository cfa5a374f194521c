-- ===== src/Paxos/Guards.antt =====
-- Which messages of a leader a replica lets through (omnipaxos/src/sequence_paxos/follower.rs).
use omnipaxos.Prelude.{ℕ, ◌≡◌, subst, Bool, true, Option, none, some, ◌⊎◌, arith, Ordering}
use omnipaxos.Ballot
use omnipaxos.Ballot.{Ballot}
use omnipaxos.Sequence.{SequenceNumber, expected, check_msg_status}
use omnipaxos.Storage.{Snapshot}
use omnipaxos.Messages.{AcceptDecide, Decide, AcceptStopSign, PaxosMsg, PaxosMessage}
use omnipaxos.Paxos.{Role, Phase, SequencePaxos, get_promise, is_accept, push}
use omnipaxos.Paxos.FollowerRole.{
  check_valid_ballot, handle_sequence_num, when_expected, is_accepting_follower,
  handle_acceptdecide, handle_accept_stopsign, handle_decide, accept_entries, accept_stopsign,
  decide_entries,
}
use omnipaxos.Paxos.Replica.{handle, handle_msg}
use omnipaxos.Paxos.Frame.{reconnected-storage}

-- The ballot and the sequence number of a message that is numbered by a leader.
abbrev pub numbered : {T C S : Type 0} → PaxosMsg T C S → Option (Ballot × SequenceNumber)
numbered (PaxosMsg.accept_decide m) = some (m.n, m.seq_num)
numbered (PaxosMsg.accept_stop_sign m) = some (m.n, m.seq_num)
numbered (PaxosMsg.decide m) = some (m.n, m.seq_num)
numbered _ = none

accepting_phase : (s : Role × Phase) → is_accepting_follower s ≡ true → is_accept s.1 ≡ true
accepting_phase s h = ground arith

module _ {T C S : Type 0} where
  -- The message is of the promised ballot, arrives in the accept phase, and is the next in sequence.
  abbrev pub IsLetThrough : Ballot → SequenceNumber → SequencePaxos T C S → Type 0
  IsLetThrough n s p =
      (Ballot.cmp (get_promise p) n ≡ Ordering.eq)
      × (is_accept p.state.1 ≡ true)
      × (check_msg_status p.current_seq_num s ≡ expected)

  when_expected_guard :
      (n : Ballot) (s : SequenceNumber) (test : Role × Phase → Bool)
      (body : SequencePaxos T C S → Option (SequencePaxos T C S)) (p q : SequencePaxos T C S)
      → (test p.state ≡ true → is_accept p.state.1 ≡ true)
      → when_expected n s test body p ≡ some q
      → (q.internal_storage ≡ p.internal_storage) ⊎ IsLetThrough n s p
  unfolding when_expected check_valid_ballot handle_sequence_num
  when_expected_guard n s test body p q accepting e = ground (arith, reconnected-storage n.pid p)

  handle_acceptdecide_guard :
      (m : AcceptDecide T) (p q : SequencePaxos T C S)
      → handle_acceptdecide m p ≡ some q
      → (q.internal_storage ≡ p.internal_storage) ⊎ IsLetThrough m.n m.seq_num p
  unfolding handle_acceptdecide
  handle_acceptdecide_guard m p q e =
      when_expected_guard m.n m.seq_num is_accepting_follower (accept_entries m) p q
        (accepting_phase p.state) e

  handle_accept_stopsign_guard :
      (m : AcceptStopSign C) (p q : SequencePaxos T C S)
      → handle_accept_stopsign m p ≡ some q
      → (q.internal_storage ≡ p.internal_storage) ⊎ IsLetThrough m.n m.seq_num p
  unfolding handle_accept_stopsign
  handle_accept_stopsign_guard m p q e =
      when_expected_guard m.n m.seq_num is_accepting_follower (accept_stopsign m) p q
        (accepting_phase p.state) e

  handle_decide_guard :
      (m : Decide) (p q : SequencePaxos T C S)
      → handle_decide m p ≡ some q
      → (q.internal_storage ≡ p.internal_storage) ⊎ IsLetThrough m.n m.seq_num p
  unfolding handle_decide
  handle_decide_guard m p q e =
      when_expected_guard m.n m.seq_num (λ s. is_accept s.1) (decide_entries m) p q (λ h. h) e

  when_expected_stale :
      (n : Ballot) (s : SequenceNumber) (test : Role × Phase → Bool)
      (body : SequencePaxos T C S → Option (SequencePaxos T C S)) (p : SequencePaxos T C S)
      → Ballot.cmp (get_promise p) n ≡ Ordering.gt
      → when_expected n s test body p
        ≡ some (push n.pid (PaxosMsg.not_accepted (record { n = get_promise p })) p)
  unfolding when_expected check_valid_ballot
  when_expected_stale n s test body p h = ground arith

  stale_at :
      (k n : Ballot) (o : Option (SequencePaxos T C S)) (p : SequencePaxos T C S)
      → k ≡ n
      → Ballot.cmp (get_promise p) n ≡ Ordering.gt
      → (Ballot.cmp (get_promise p) k ≡ Ordering.gt
          → o ≡ some (push k.pid (PaxosMsg.not_accepted (record { n = get_promise p })) p))
      → o ≡ some (push n.pid (PaxosMsg.not_accepted (record { n = get_promise p })) p)
  stale_at k n o p same h stale =
      subst
        (λ b.
          Ballot.cmp (get_promise p) b ≡ Ordering.gt
          → o ≡ some (push b.pid (PaxosMsg.not_accepted (record { n = get_promise p })) p))
        same stale h

module _ {T C S : Type 0} (snap : Snapshot T S) where
  handle_msg_guard :
      (m : PaxosMsg T C S) (from : ℕ) (n : Ballot) (s : SequenceNumber) (p q : SequencePaxos T C S)
      → numbered m ≡ some (n, s)
      → handle_msg snap m from p ≡ some q
      → (q.internal_storage ≡ p.internal_storage) ⊎ IsLetThrough n s p
  unfolding handle_msg
  handle_msg_guard (PaxosMsg.accept_decide m) from n s p q is e =
      ground (arith, handle_acceptdecide_guard m p q e)
  handle_msg_guard (PaxosMsg.accept_stop_sign m) from n s p q is e =
      ground (arith, handle_accept_stopsign_guard m p q e)
  handle_msg_guard (PaxosMsg.decide m) from n s p q is e =
      ground (arith, handle_decide_guard m p q e)
  handle_msg_guard (PaxosMsg.prepare_req m) from n s p q is e = cc
  handle_msg_guard (PaxosMsg.prepare m) from n s p q is e = cc
  handle_msg_guard (PaxosMsg.promise m) from n s p q is e = cc
  handle_msg_guard (PaxosMsg.accept_sync m) from n s p q is e = cc
  handle_msg_guard (PaxosMsg.not_accepted m) from n s p q is e = cc
  handle_msg_guard (PaxosMsg.accepted m) from n s p q is e = cc
  handle_msg_guard (PaxosMsg.proposal_forward m) from n s p q is e = cc
  handle_msg_guard (PaxosMsg.compaction m) from n s p q is e = cc
  handle_msg_guard (PaxosMsg.forward_stop_sign m) from n s p q is e = cc

  handle_msg_stale :
      (m : PaxosMsg T C S) (from : ℕ) (n : Ballot) (s : SequenceNumber) (p : SequencePaxos T C S)
      → numbered m ≡ some (n, s)
      → Ballot.cmp (get_promise p) n ≡ Ordering.gt
      → handle_msg snap m from p
        ≡ some (push n.pid (PaxosMsg.not_accepted (record { n = get_promise p })) p)
  unfolding handle_msg handle_acceptdecide handle_accept_stopsign handle_decide
  handle_msg_stale (PaxosMsg.accept_decide m) from n s p is h =
      let same : m.n ≡ n = ground arith in
      stale_at m.n n _ p same h
        (when_expected_stale m.n m.seq_num is_accepting_follower (accept_entries m) p)
  handle_msg_stale (PaxosMsg.accept_stop_sign m) from n s p is h =
      let same : m.n ≡ n = ground arith in
      stale_at m.n n _ p same h
        (when_expected_stale m.n m.seq_num is_accepting_follower (accept_stopsign m) p)
  handle_msg_stale (PaxosMsg.decide m) from n s p is h =
      let same : m.n ≡ n = ground arith in
      stale_at m.n n _ p same h
        (when_expected_stale m.n m.seq_num (λ s. is_accept s.1) (decide_entries m) p)
  handle_msg_stale (PaxosMsg.prepare_req m) from n s p is h = cc
  handle_msg_stale (PaxosMsg.prepare m) from n s p is h = cc
  handle_msg_stale (PaxosMsg.promise m) from n s p is h = cc
  handle_msg_stale (PaxosMsg.accept_sync m) from n s p is h = cc
  handle_msg_stale (PaxosMsg.not_accepted m) from n s p is h = cc
  handle_msg_stale (PaxosMsg.accepted m) from n s p is h = cc
  handle_msg_stale (PaxosMsg.proposal_forward m) from n s p is h = cc
  handle_msg_stale (PaxosMsg.compaction m) from n s p is h = cc
  handle_msg_stale (PaxosMsg.forward_stop_sign m) from n s p is h = cc

  -- A numbered message of a leader (`AcceptDecide`, `AcceptStopSign`, `Decide`) touches the storage
  -- of a replica only if it is of the promised ballot, comes in the accept phase, and is the next in
  -- the leader's sequence.
  pub handle_guard :
      (m : PaxosMessage T C S) (n : Ballot) (s : SequenceNumber) (p q : SequencePaxos T C S)
      → numbered m.msg ≡ some (n, s)
      → handle snap m p ≡ some q
      → (q.internal_storage ≡ p.internal_storage) ⊎ IsLetThrough n s p
  unfolding handle
  handle_guard m n s p q is e = handle_msg_guard m.msg m.from n s p q is e

  -- A numbered message of a ballot below the promise has one effect: the leader of that ballot is
  -- told of the promise.
  pub handle_stale :
      (m : PaxosMessage T C S) (n : Ballot) (s : SequenceNumber) (p : SequencePaxos T C S)
      → numbered m.msg ≡ some (n, s)
      → Ballot.cmp (get_promise p) n ≡ Ordering.gt
      → handle snap m p ≡ some (push n.pid (PaxosMsg.not_accepted (record { n = get_promise p })) p)
  unfolding handle
  handle_stale m n s p is h = handle_msg_stale m.msg m.from n s p is h
