-- ===== src/Paxos/Accepting.antt =====
-- The storage of a follower that accepts (omnipaxos/src/sequence_paxos/follower.rs).
use omnipaxos.Prelude.{
  ℕ, ◌≤◌, ◌≡◌, refl, sym, subst, ◌∙◌, ◌&&◌, Bool, true, false, Option, some, length-append, min,
  arith, ap, if◌then◌else◌,
}
use mathlib.Core.Option.{some-injective}
use omnipaxos.Ballot.{Ballot}
use omnipaxos.Sequence.{SequenceNumber, MessageStatus, expected, dropped_preceding, outdated}
use omnipaxos.Storage.{StopSign, Snapshot}
use omnipaxos.Storage.Internal
use omnipaxos.Storage.Internal.{InternalStorage}
use omnipaxos.Storage.Internal.Agreement.{
  IsValid, append_entries_and_get_accepted_idx-IsValid, flush_batch-IsValid,
  set_decided_idx-IsValid,
}
use omnipaxos.Messages.{AcceptDecide, AcceptStopSign, Decide, PaxosMsg, PaxosMessage}
use omnipaxos.Paxos.{Role, Phase, SequencePaxos, is_accept}
use omnipaxos.Paxos.FollowerRole.{
  check_valid_ballot, handle_sequence_num, when_expected, is_accepting_follower,
  update_decided_idx_and_get_accepted_idx, accept_entries, handle_acceptdecide, accept_stopsign,
  handle_accept_stopsign, decide_entries, handle_decide,
}
use omnipaxos.Paxos.Replica.{handle, handle_msg}
use omnipaxos.Paxos.Kept.{
  reply_accepted-storage, reply_if_flushed-storage, check_valid_ballot-storage,
  handle_sequence_num-storage,
}
use omnipaxos.Paxos.Guards.{numbered}

-- From a valid storage the way leads to a valid one, in which no less is decided.
pub record Advances {T C S : Type 0} (st st' : InternalStorage T C S) : Type 0 where
  pub valid : IsValid st'
  pub decided : st.state_cache.decided_idx ≤ st'.state_cache.decided_idx

module _ {T C S : Type 0} where
  flush_batch-accepted :
      (st : InternalStorage T C S)
      → ((Internal.flush_batch st).0 ≡ (Internal.flush_batch st).1.state_cache.accepted_idx)
        × (st.state_cache.accepted_idx ≤ (Internal.flush_batch st).0)
        × ((Internal.flush_batch st).1.state_cache.decided_idx ≡ st.state_cache.decided_idx)
  unfolding Internal.flush_batch
  flush_batch-accepted st = ground arith

  set_decided-index :
      (idx : ℕ) (st : InternalStorage T C S)
      → (Internal.set_decided_idx idx st).state_cache.decided_idx ≡ idx
  unfolding Internal.set_decided_idx
  set_decided-index idx st = refl

  update_decided-Advances :
      (idx : ℕ) (p : SequencePaxos T C S)
      → IsValid p.internal_storage
      → Advances p.internal_storage
          (update_decided_idx_and_get_accepted_idx idx p).1.internal_storage
  unfolding update_decided_idx_and_get_accepted_idx
  update_decided-Advances idx p v =
      let st = p.internal_storage in
      let (new, flushed) = Internal.flush_batch st in
      let f = flush_batch-accepted st in
      ground (
        arith,
        v.decided_le,
        flush_batch-IsValid st v,
        set_decided_idx-IsValid (min idx new) flushed (omega (arith, f)),
        set_decided_idx-IsValid idx st,
        set_decided-index (min idx new) flushed,
        set_decided-index idx st,
      )

  append-decided :
      (acc : AcceptDecide T) (st : InternalStorage T C S)
      → (Internal.append_entries_and_get_accepted_idx acc.entries st).1.state_cache.decided_idx
        ≡ st.state_cache.decided_idx
  unfolding Internal.append_entries_and_get_accepted_idx
  append-decided acc st = ground arith

  stopped-Advances :
      (ss : StopSign C) (st : InternalStorage T C S)
      → IsValid st
      → Advances st (Internal.set_stopsign (some ss) (Internal.flush_batch st).1).1
  unfolding Internal.set_stopsign Internal.flush_batch
  stopped-Advances ss st v =
      ground (arith, length-append st.storage.log st.state_cache.batched_entries)

  -- A step of a replica whose storage advances.
  abbrev pub AdvancesBy : SequencePaxos T C S → SequencePaxos T C S → Type 0
  AdvancesBy p q = Advances p.internal_storage q.internal_storage

  Advances-same : (st st' : InternalStorage T C S) → st' ≡ st → IsValid st → Advances st st'
  Advances-same st st' same v =
      subst (Advances st) (sym same) (record { valid = v; decided = omega arith })

  accept_entries-Advances :
      (acc : AcceptDecide T) (p q : SequencePaxos T C S)
      → IsValid p.internal_storage
      → accept_entries acc p ≡ some q
      → AdvancesBy p q
  unfolding accept_entries
  accept_entries-Advances acc p q v e =
      let (appended, st) =
        Internal.append_entries_and_get_accepted_idx acc.entries p.internal_storage in
      let p' : SequencePaxos T C S = record p { internal_storage = st } in
      let p'' = (update_decided_idx_and_get_accepted_idx acc.decided_idx p').1 in
      let more =
        update_decided-Advances acc.decided_idx p'
          (append_entries_and_get_accepted_idx-IsValid acc.entries p.internal_storage v) in
      subst (Advances p.internal_storage) (sym (reply_if_flushed-storage acc.n _ p'' q e)) (record {
        valid = more.valid;
        decided = omega (arith, more.decided, append-decided acc p.internal_storage);
      })

  decide_entries-Advances :
      (dec : Decide) (p q : SequencePaxos T C S)
      → IsValid p.internal_storage
      → decide_entries dec p ≡ some q
      → AdvancesBy p q
  unfolding decide_entries
  decide_entries-Advances dec p q v e =
      let p' = (update_decided_idx_and_get_accepted_idx dec.decided_idx p).1 in
      subst (Advances p.internal_storage) (sym (reply_if_flushed-storage dec.n _ p' q e))
        (update_decided-Advances dec.decided_idx p v)

  accept_stopsign-Advances :
      (acc : AcceptStopSign C) (p q : SequencePaxos T C S)
      → IsValid p.internal_storage
      → accept_stopsign acc p ≡ some q
      → AdvancesBy p q
  unfolding accept_stopsign
  accept_stopsign-Advances acc p q v e =
      let (idx, st) =
        Internal.set_stopsign (some acc.ss) (Internal.flush_batch p.internal_storage).1 in
      let p' : SequencePaxos T C S = record p { internal_storage = st } in
      subst (Advances p.internal_storage) (sym (reply_accepted-storage acc.n idx p' q e))
        (stopped-Advances acc.ss p.internal_storage v)

  -- What follows from each of the outcomes of `when_expected` follows from all.
  when_expected_outcome :
      (b : Bool) (status : MessageStatus) (o : Option (SequencePaxos T C S))
      (p' p'' q : SequencePaxos T C S) (P : Type 0)
      → (o ≡ some q → P)
      → (some p' ≡ some q → P)
      → (some p'' ≡ some q → P)
      → (if b
          then (elim status [ expected ↦ o | dropped_preceding ↦ some p'' | outdated ↦ some p'' ])
          else some p')
        ≡ some q
      → P
  when_expected_outcome true expected o p' p'' q P step left waited e = step e
  when_expected_outcome true dropped_preceding o p' p'' q P step left waited e = waited e
  when_expected_outcome true outdated o p' p'' q P step left waited e = waited e
  when_expected_outcome false status o p' p'' q P step left waited e = left e

  when_expected-Advances :
      (n : Ballot) (s : SequenceNumber) (test : Role × Phase → Bool)
      (body : SequencePaxos T C S → Option (SequencePaxos T C S))
      → ((p q : SequencePaxos T C S)
          → IsValid p.internal_storage
          → body p ≡ some q
          → AdvancesBy p q)
      → (p q : SequencePaxos T C S) → IsValid p.internal_storage
      → when_expected n s test body p ≡ some q
      → AdvancesBy p q
  unfolding when_expected
  when_expected-Advances n s test body step p q v e =
      let p' = (check_valid_ballot n p).1 in
      let p'' = (handle_sequence_num s n.pid p').1 in
      let checked = check_valid_ballot-storage n p in
      let numbered = handle_sequence_num-storage s n.pid p' ∙ checked in
      let stepped : body p'' ≡ some q → AdvancesBy p q = λ h.
        subst (λ (st : InternalStorage T C S). Advances st q.internal_storage) numbered
          (step p'' q (subst IsValid (sym numbered) v) h) in
      let left : some p' ≡ some q → AdvancesBy p q = λ (h : some p' ≡ some q).
        Advances-same p.internal_storage q.internal_storage
          (ap (λ (r : SequencePaxos T C S). r.internal_storage) (sym (some-injective p' q h))
            ∙ checked)
          v in
      let waited : some p'' ≡ some q → AdvancesBy p q = λ (h : some p'' ≡ some q).
        Advances-same p.internal_storage q.internal_storage
          (ap (λ (r : SequencePaxos T C S). r.internal_storage) (sym (some-injective p'' q h))
            ∙ numbered)
          v in
      when_expected_outcome ((check_valid_ballot n p).0 && test p'.state)
        (handle_sequence_num s n.pid p').0 (body p'') p' p'' q (AdvancesBy p q) stepped left waited
        e

module _ {T C S : Type 0} (snap : Snapshot T S) where
  handle_msg-Advances :
      (m : PaxosMsg T C S) (from : ℕ) (x : Ballot × SequenceNumber) (p q : SequencePaxos T C S)
      → numbered m ≡ some x
      → IsValid p.internal_storage
      → handle_msg snap m from p ≡ some q
      → AdvancesBy p q
  unfolding handle_msg handle_acceptdecide handle_accept_stopsign handle_decide
  handle_msg-Advances (PaxosMsg.accept_decide m) from x p q is v e =
      when_expected-Advances m.n m.seq_num is_accepting_follower (accept_entries m)
        (accept_entries-Advances m) p q v e
  handle_msg-Advances (PaxosMsg.accept_stop_sign m) from x p q is v e =
      when_expected-Advances m.n m.seq_num is_accepting_follower (accept_stopsign m)
        (accept_stopsign-Advances m) p q v e
  handle_msg-Advances (PaxosMsg.decide m) from x p q is v e =
      when_expected-Advances m.n m.seq_num (λ s. is_accept s.1) (decide_entries m)
        (decide_entries-Advances m) p q v e
  handle_msg-Advances (PaxosMsg.prepare_req m) from x p q is v e = cc
  handle_msg-Advances (PaxosMsg.prepare m) from x p q is v e = cc
  handle_msg-Advances (PaxosMsg.promise m) from x p q is v e = cc
  handle_msg-Advances (PaxosMsg.accept_sync m) from x p q is v e = cc
  handle_msg-Advances (PaxosMsg.not_accepted m) from x p q is v e = cc
  handle_msg-Advances (PaxosMsg.accepted m) from x p q is v e = cc
  handle_msg-Advances (PaxosMsg.proposal_forward m) from x p q is v e = cc
  handle_msg-Advances (PaxosMsg.compaction m) from x p q is v e = cc
  handle_msg-Advances (PaxosMsg.forward_stop_sign m) from x p q is v e = cc

  -- A replica with a valid storage that handles a numbered message of a leader, whatever indexes that
  -- carries, has a valid storage afterwards, so that no more is decided than accepted, and never
  -- less is decided than before.
  pub handle-Advances :
      (m : PaxosMessage T C S) (x : Ballot × SequenceNumber) (p q : SequencePaxos T C S)
      → numbered m.msg ≡ some x
      → IsValid p.internal_storage
      → handle snap m p ≡ some q
      → Advances p.internal_storage q.internal_storage
  unfolding handle
  handle-Advances m x p q is v e = handle_msg-Advances m.msg m.from x p q is v e
