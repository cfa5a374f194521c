-- ===== src/Paxos/Pointers.antt =====
-- The position in `outgoing` that a follower keeps (`latest_accepted_meta`,
-- omnipaxos/src/sequence_paxos/mod.rs).
use omnipaxos.Prelude.{
  ℕ, ◌+◌, ◌<◌, ◌≡◌, refl, sym, subst, Bool, true, false, ◌&&◌, Option, none, some, [], ◌∷◌, length,
  get_elem?_total, set, length-set, length-append, arith, Option-cases, inl, inr, if◌then◌else◌,
}
use omnipaxos.Ballot.{Ballot}
use omnipaxos.Sequence.{SequenceNumber, MessageStatus, expected, dropped_preceding, outdated}
use omnipaxos.Storage.{Snapshot}
use omnipaxos.Storage.Internal
use omnipaxos.Messages.{AcceptDecide, AcceptStopSign, Decide, Accepted, PaxosMsg, PaxosMessage}
use omnipaxos.Paxos.{
  Role, follower, Phase, recover, get_promise, SequencePaxos, push, reconnected, is_accept,
}
use omnipaxos.Paxos.FollowerRole.{
  get_latest_accepted_message, reply_accepted, check_valid_ballot, handle_sequence_num,
  when_expected, is_accepting_follower, update_decided_idx_and_get_accepted_idx, reply_if_flushed,
  accept_entries, handle_acceptdecide, accept_stopsign, handle_accept_stopsign, decide_entries,
  handle_decide,
}
use omnipaxos.Paxos.Replica.{handle, handle_msg}
use omnipaxos.Paxos.Guards.{numbered}

abbrev pub WithinOf : Option (Ballot × ℕ) → ℕ → Type 0
WithinOf none n = Unit
WithinOf (some meta) n = meta.1 < n

-- The position, if there is one, is within `outgoing`.
abbrev pub IsWithin : {T C S : Type 0} → SequencePaxos T C S → Type 0
IsWithin p = WithinOf p.latest_accepted_meta (length p.outgoing)

-- A step that does not panic and keeps the position within `outgoing`.
abbrev pub Safe : {T C S : Type 0} → Option (SequencePaxos T C S) → Type 0
Safe {T} {C} {S} o = (q : SequencePaxos T C S) × (o ≡ some q) × IsWithin q

WithinOf-more :
    (meta : Option (Ballot × ℕ)) (m n : ℕ) → m < n + 1 → WithinOf meta m → WithinOf meta n
WithinOf-more none m n le h = tt
WithinOf-more (some x) m n le h = omega (arith, h)

module _ {T C S : Type 0} where
  get_latest_accepted_message_total :
      (n : Ballot) (p : SequencePaxos T C S)
      → IsWithin p
      → (found : Option (ℕ × PaxosMessage T C S × Accepted)) × (get_latest_accepted_message n p
          ≡ some found)
  unfolding get_latest_accepted_message
  get_latest_accepted_message_total n p w = elim (Option-cases (get_latest_accepted_message n p)) [
    | inr found ↦ found
    | inl panicked ↦ absurd (elim (Option-cases p.latest_accepted_meta) [
      | inl absent ↦ ground arith
      | inr (meta, present) ↦ ground (arith, get_elem?_total p.outgoing meta.1)
    ])
  ]

  -- The message that `reply_accepted` adds.
  abbrev newest : Ballot → ℕ → SequencePaxos T C S → PaxosMessage T C S
  newest n idx p = record {
    from = p.pid;
    to = n.pid;
    msg = PaxosMsg.accepted (record { n = n; accepted_idx = idx });
  }

  reply_accepted-IsWithin :
      (n : Ballot) (idx : ℕ) (p q : SequencePaxos T C S)
      → IsWithin p
      → reply_accepted n idx p ≡ some q
      → IsWithin q
  unfolding reply_accepted
  reply_accepted-IsWithin n idx p q w done = elim (Option-cases (get_latest_accepted_message n p)) [
    | inl panicked ↦ absurd (ground arith)
    | inr (found, e) ↦ (elim (Option-cases found) [
      | inl absent ↦
          let next : SequencePaxos T C S =
            push n.pid (PaxosMsg.accepted (record { n = n; accepted_idx = idx }))
              (record p { latest_accepted_meta = some (n, length p.outgoing) }) in
          let same : next ≡ q = ground arith in
          subst IsWithin same (omega (arith, length-append p.outgoing (newest n idx p ∷ [])))
      | inr (x, present) ↦
          let m : PaxosMessage T C S = record (x.1) {
            msg = PaxosMsg.accepted (record (x.2) { accepted_idx = idx });
          } in
          let next : SequencePaxos T C S = record p { outgoing = set p.outgoing x.0 m } in
          let same : next ≡ q = ground arith in
          subst IsWithin same
            (subst (WithinOf p.latest_accepted_meta) (sym (length-set p.outgoing x.0 m)) w)
    ])
  ]

  reply_accepted-Safe :
      (n : Ballot) (idx : ℕ) (p : SequencePaxos T C S) → IsWithin p → Safe (reply_accepted n idx p)
  unfolding reply_accepted
  reply_accepted-Safe n idx p w =
      let (found, e) = get_latest_accepted_message_total n p w in
      elim (Option-cases (reply_accepted n idx p)) [
        | inl panicked ↦ absurd (ground arith)
        | inr (q, done) ↦ (q, done, reply_accepted-IsWithin n idx p q w done)
      ]

  reply_if_flushed-Safe :
      (n : Ballot) (idx : Option ℕ) (p : SequencePaxos T C S)
      → IsWithin p
      → Safe (reply_if_flushed n idx p)
  unfolding reply_if_flushed
  reply_if_flushed-Safe n none p w = (p, refl, w)
  reply_if_flushed-Safe n (some idx) p w = reply_accepted-Safe n idx p w

  update_decided-IsWithin :
      (idx : ℕ) (p : SequencePaxos T C S)
      → IsWithin p
      → IsWithin (update_decided_idx_and_get_accepted_idx idx p).1
  unfolding update_decided_idx_and_get_accepted_idx
  update_decided-IsWithin idx p w = ground arith

  accept_entries-Safe :
      (acc : AcceptDecide T) (p : SequencePaxos T C S) → IsWithin p → Safe (accept_entries acc p)
  unfolding accept_entries
  accept_entries-Safe acc p w =
      let (appended, st) =
        Internal.append_entries_and_get_accepted_idx acc.entries p.internal_storage in
      let p' : SequencePaxos T C S = record p { internal_storage = st } in
      reply_if_flushed-Safe acc.n _ (update_decided_idx_and_get_accepted_idx acc.decided_idx p').1
        (update_decided-IsWithin acc.decided_idx p' w)

  accept_stopsign-Safe :
      (acc : AcceptStopSign C) (p : SequencePaxos T C S) → IsWithin p → Safe (accept_stopsign acc p)
  unfolding accept_stopsign
  accept_stopsign-Safe acc p w = reply_accepted-Safe acc.n _ (record p { internal_storage = _ }) w

  decide_entries-Safe :
      (dec : Decide) (p : SequencePaxos T C S) → IsWithin p → Safe (decide_entries dec p)
  unfolding decide_entries
  decide_entries-Safe dec p w =
      reply_if_flushed-Safe dec.n _ (update_decided_idx_and_get_accepted_idx dec.decided_idx p).1
        (update_decided-IsWithin dec.decided_idx p w)

  push-IsWithin :
      (to : ℕ) (m : PaxosMsg T C S) (p : SequencePaxos T C S) → IsWithin p → IsWithin (push to m p)
  push-IsWithin to m p w =
      WithinOf-more p.latest_accepted_meta (length p.outgoing) _
        (omega (arith, length-append p.outgoing (record { from = p.pid; to = to; msg = m } ∷ []))) w

  reconnected-IsWithin :
      (pid : ℕ) (p : SequencePaxos T C S) → IsWithin p → IsWithin (reconnected pid p)
  unfolding reconnected
  reconnected-IsWithin pid p w =
      let ask : PaxosMsg T C S = PaxosMsg.prepare_req (record { n = get_promise p }) in
      let waiting : SequencePaxos T C S = record p { state = (follower, recover) } in
      ground (arith, push-IsWithin pid ask p w, push-IsWithin pid ask waiting w)

  check_valid_ballot-IsWithin :
      (n : Ballot) (p : SequencePaxos T C S) → IsWithin p → IsWithin (check_valid_ballot n p).1
  unfolding check_valid_ballot
  check_valid_ballot-IsWithin n p w = ground (
    arith,
    reconnected-IsWithin n.pid p w,
    push-IsWithin n.pid (PaxosMsg.not_accepted (record { n = get_promise p })) p w,
  )

  handle_sequence_num-IsWithin :
      (s : SequenceNumber) (from : ℕ) (p : SequencePaxos T C S)
      → IsWithin p
      → IsWithin (handle_sequence_num s from p).1
  unfolding handle_sequence_num
  handle_sequence_num-IsWithin s from p w = ground (arith, reconnected-IsWithin from p)

  -- The three outcomes of the tests.
  module _ (o : Option (SequencePaxos T C S)) (p' p'' : SequencePaxos T C S) (h : Safe o)
      (w' : IsWithin p') (w'' : IsWithin p'') where
    when_expected_cases :
        (b : Bool) (status : MessageStatus)
        → Safe (
            if b
            then (elim status [ expected ↦ o | dropped_preceding ↦ some p'' | outdated ↦ some p'' ])
            else some p')
    when_expected_cases true expected = h
    when_expected_cases true dropped_preceding = (p'', refl, w'')
    when_expected_cases true outdated = (p'', refl, w'')
    when_expected_cases false status = (p', refl, w')

  when_expected-Safe :
      (n : Ballot) (s : SequenceNumber) (test : Role × Phase → Bool)
      (body : SequencePaxos T C S → Option (SequencePaxos T C S))
      → ((p : SequencePaxos T C S) → IsWithin p → Safe (body p))
      → (p : SequencePaxos T C S) → IsWithin p
      → Safe (when_expected n s test body p)
  unfolding when_expected
  when_expected-Safe n s test body safe p w =
      let p' = (check_valid_ballot n p).1 in
      let p'' = (handle_sequence_num s n.pid p').1 in
      let w' = check_valid_ballot-IsWithin n p w in
      let w'' = handle_sequence_num-IsWithin s n.pid p' w' in
      when_expected_cases (body p'') p' p'' (safe p'' w'') w' w''
        ((check_valid_ballot n p).0 && test p'.state) (handle_sequence_num s n.pid p').0

module _ {T C S : Type 0} (snap : Snapshot T S) where
  handle_msg-Safe :
      (m : PaxosMsg T C S) (from : ℕ) (x : Ballot × SequenceNumber) (p : SequencePaxos T C S)
      → numbered m ≡ some x
      → IsWithin p
      → Safe (handle_msg snap m from p)
  unfolding handle_msg handle_acceptdecide handle_accept_stopsign handle_decide
  handle_msg-Safe (PaxosMsg.accept_decide m) from x p is w =
      when_expected-Safe m.n m.seq_num is_accepting_follower (accept_entries m)
        (accept_entries-Safe m) p w
  handle_msg-Safe (PaxosMsg.accept_stop_sign m) from x p is w =
      when_expected-Safe m.n m.seq_num is_accepting_follower (accept_stopsign m)
        (accept_stopsign-Safe m) p w
  handle_msg-Safe (PaxosMsg.decide m) from x p is w =
      when_expected-Safe m.n m.seq_num (λ s. is_accept s.1) (decide_entries m)
        (decide_entries-Safe m) p w
  handle_msg-Safe (PaxosMsg.prepare_req m) from x p is w = cc
  handle_msg-Safe (PaxosMsg.prepare m) from x p is w = cc
  handle_msg-Safe (PaxosMsg.promise m) from x p is w = cc
  handle_msg-Safe (PaxosMsg.accept_sync m) from x p is w = cc
  handle_msg-Safe (PaxosMsg.not_accepted m) from x p is w = cc
  handle_msg-Safe (PaxosMsg.accepted m) from x p is w = cc
  handle_msg-Safe (PaxosMsg.proposal_forward m) from x p is w = cc
  handle_msg-Safe (PaxosMsg.compaction m) from x p is w = cc
  handle_msg-Safe (PaxosMsg.forward_stop_sign m) from x p is w = cc

  -- A replica whose kept position is within `outgoing` handles every numbered message of a leader
  -- without a panic, and the position stays within `outgoing`.
  pub handle-numbered-Safe :
      (m : PaxosMessage T C S) (x : Ballot × SequenceNumber) (p : SequencePaxos T C S)
      → numbered m.msg ≡ some x
      → IsWithin p
      → (q : SequencePaxos T C S) × (handle snap m p ≡ some q) × IsWithin q
  unfolding handle
  handle-numbered-Safe m x p is w = handle_msg-Safe m.msg m.from x p is w
