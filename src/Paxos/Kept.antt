-- ===== src/Paxos/Kept.antt =====
-- Which operations keep the promise of a replica (omnipaxos/src/storage/internal_storage.rs and
-- omnipaxos/src/sequence_paxos).
use omnipaxos.Prelude.{ℕ, ◌≡◌, ◌∙◌, ap, Bool, Option, none, some, List, arith}
use omnipaxos.Ballot.{Ballot}
use omnipaxos.Sequence.{SequenceNumber}
use omnipaxos.Storage.{StopSign, Snapshot, LogSync, ok}
use omnipaxos.Storage.Internal
use omnipaxos.Storage.Internal.{InternalStorage, AcceptedMetaData}
use omnipaxos.Storage.Internal.Compaction.{
  sync_log, sync_log_sync, try_trim, trim_to, try_snapshot, snapshot_to, compact_to,
}
use omnipaxos.Messages.{AcceptDecide, AcceptStopSign, Decide}
use omnipaxos.Paxos.{Role, Phase, SequencePaxos, get_promise, is_accept}
use omnipaxos.Paxos.FollowerRole.{
  reply_accepted, check_valid_ballot, handle_sequence_num, when_expected,
  update_decided_idx_and_get_accepted_idx, reply_if_flushed, accept_entries, handle_acceptdecide,
  accept_stopsign, handle_accept_stopsign, decide_entries, handle_decide, is_accepting_follower,
}
use omnipaxos.Paxos.Frame.{reconnected-storage}

-- The promise in a storage.
abbrev pub promise_of : {T C S : Type 0} → InternalStorage T C S → Ballot
promise_of st = st.state_cache.promise

module _ {T C S : Type 0} where
  pub append_entry-promise :
      (e : T) (st : InternalStorage T C S)
      → promise_of (Internal.append_entry_with_batching e st).1 ≡ promise_of st
  unfolding Internal.append_entry_with_batching
  append_entry-promise e st = ground arith

  pub append_entries-promise :
      (es : List T) (st : InternalStorage T C S)
      → promise_of (Internal.append_entries_with_batching es st).1 ≡ promise_of st
  unfolding Internal.append_entries_with_batching
  append_entries-promise es st = ground arith

  pub accept_entries-promise :
      (es : List T) (st : InternalStorage T C S)
      → promise_of (Internal.append_entries_and_get_accepted_idx es st).1 ≡ promise_of st
  unfolding Internal.append_entries_and_get_accepted_idx
  accept_entries-promise es st = ground arith

  pub append_stopsign-promise :
      (ss : StopSign C) (st : InternalStorage T C S)
      → promise_of (Internal.append_stopsign ss st).1 ≡ promise_of st
  unfolding Internal.append_stopsign
  append_stopsign-promise ss st = ground arith

  pub flush-promise :
      (st : InternalStorage T C S)
      → promise_of (Internal.flush_batch_and_get_entries st).1 ≡ promise_of st
  unfolding Internal.flush_batch_and_get_entries
  flush-promise st = ground arith

  pub try_trim-promise :
      (idx : ℕ) (st st' : InternalStorage T C S)
      → try_trim idx st ≡ ok st'
      → promise_of st' ≡ promise_of st
  unfolding try_trim trim_to compact_to
  try_trim-promise idx st st' e = ground arith

  pub try_snapshot-promise :
      (snap : Snapshot T S) (idx : Option ℕ) (st st' : InternalStorage T C S)
      → try_snapshot snap idx st ≡ ok st'
      → promise_of st' ≡ promise_of st
  unfolding try_snapshot snapshot_to compact_to
  try_snapshot-promise snap idx st st' e = ground arith

  pub sync_log-promise :
      (snap : Snapshot T S) (n : Ballot) (idx : ℕ) (sync : Option (LogSync T C S))
      (st : InternalStorage T C S) (res : ℕ × InternalStorage T C S)
      → sync_log snap n idx sync st ≡ ok res
      → promise_of res.1 ≡ promise_of st
  unfolding sync_log sync_log_sync
  sync_log-promise snap n idx none st res e = ground arith
  sync_log-promise snap n idx (some sync) st res e = ground arith

  -- `reply_accepted` and what answers with it.
  pub reply_accepted-storage :
      (n : Ballot) (idx : ℕ) (p q : SequencePaxos T C S)
      → reply_accepted n idx p ≡ some q
      → q.internal_storage ≡ p.internal_storage
  unfolding reply_accepted
  reply_accepted-storage n idx p q e = ground arith

  pub reply_if_flushed-storage :
      (n : Ballot) (idx : Option ℕ) (p q : SequencePaxos T C S)
      → reply_if_flushed n idx p ≡ some q
      → q.internal_storage ≡ p.internal_storage
  unfolding reply_if_flushed
  reply_if_flushed-storage n none p q e = ground arith
  reply_if_flushed-storage n (some idx) p q e = reply_accepted-storage n idx p q e

  pub check_valid_ballot-storage :
      (n : Ballot) (p : SequencePaxos T C S)
      → (check_valid_ballot n p).1.internal_storage ≡ p.internal_storage
  unfolding check_valid_ballot
  check_valid_ballot-storage n p = ground (arith, reconnected-storage n.pid p)

  pub handle_sequence_num-storage :
      (s : SequenceNumber) (from : ℕ) (p : SequencePaxos T C S)
      → (handle_sequence_num s from p).1.internal_storage ≡ p.internal_storage
  unfolding handle_sequence_num
  handle_sequence_num-storage s from p = ground (arith, reconnected-storage from p)

  pub update_decided-promise :
      (idx : ℕ) (p : SequencePaxos T C S)
      → get_promise (update_decided_idx_and_get_accepted_idx idx p).1 ≡ get_promise p
  unfolding update_decided_idx_and_get_accepted_idx
  update_decided-promise idx p = ground arith

  -- Two replicas with the same storage have the same promise.
  pub promise-same :
      (p q : SequencePaxos T C S)
      → q.internal_storage ≡ p.internal_storage
      → get_promise q ≡ get_promise p
  promise-same p q e = ap promise_of e

  pub when_expected-promise :
      (n : Ballot) (s : SequenceNumber) (test : Role × Phase → Bool)
      (body : SequencePaxos T C S → Option (SequencePaxos T C S))
      → ((p q : SequencePaxos T C S) → body p ≡ some q → get_promise q ≡ get_promise p)
      → (p q : SequencePaxos T C S) → when_expected n s test body p ≡ some q
      → get_promise q ≡ get_promise p
  unfolding when_expected
  when_expected-promise n s test body same p q e =
      let checked = (check_valid_ballot n p).1 in
      let numbered = (handle_sequence_num s n.pid checked).1 in
      ground (
        arith,
        promise-same p checked (check_valid_ballot-storage n p),
        promise-same checked numbered (handle_sequence_num-storage s n.pid checked),
        same numbered q,
      )

  pub accept_entries_follower-promise :
      (acc : AcceptDecide T) (p q : SequencePaxos T C S)
      → accept_entries acc p ≡ some q
      → get_promise q ≡ get_promise p
  unfolding accept_entries
  accept_entries_follower-promise acc p q e =
      let (appended, st) =
        Internal.append_entries_and_get_accepted_idx acc.entries p.internal_storage in
      let p' : SequencePaxos T C S = record p { internal_storage = st } in
      let (flushed, p'') = update_decided_idx_and_get_accepted_idx acc.decided_idx p' in
      promise-same p'' q (reply_if_flushed-storage acc.n _ p'' q e)
      ∙ (update_decided-promise acc.decided_idx p'
          ∙ accept_entries-promise acc.entries p.internal_storage)

  pub decide_entries-promise :
      (dec : Decide) (p q : SequencePaxos T C S)
      → decide_entries dec p ≡ some q
      → get_promise q ≡ get_promise p
  unfolding decide_entries
  decide_entries-promise dec p q e =
      let (flushed, p') = update_decided_idx_and_get_accepted_idx dec.decided_idx p in
      promise-same p' q (reply_if_flushed-storage dec.n _ p' q e)
      ∙ update_decided-promise dec.decided_idx p

  pub set_stopsign-promise :
      (ss : Option (StopSign C)) (st : InternalStorage T C S)
      → promise_of (Internal.set_stopsign ss st).1 ≡ promise_of st
  unfolding Internal.set_stopsign
  set_stopsign-promise ss st = ground arith

  pub flush_batch-promise :
      (st : InternalStorage T C S) → promise_of (Internal.flush_batch st).1 ≡ promise_of st
  unfolding Internal.flush_batch
  flush_batch-promise st = ground arith

  pub accept_stopsign-promise :
      (acc : AcceptStopSign C) (p q : SequencePaxos T C S)
      → accept_stopsign acc p ≡ some q
      → get_promise q ≡ get_promise p
  unfolding accept_stopsign
  accept_stopsign-promise acc p q e =
      let flushed = (Internal.flush_batch p.internal_storage).1 in
      let (idx, st) = Internal.set_stopsign (some acc.ss) flushed in
      let p' : SequencePaxos T C S = record p { internal_storage = st } in
      promise-same p' q (reply_accepted-storage acc.n idx p' q e)
      ∙ (set_stopsign-promise (some acc.ss) flushed ∙ flush_batch-promise p.internal_storage)

  pub handle_acceptdecide-promise :
      (acc : AcceptDecide T) (p q : SequencePaxos T C S)
      → handle_acceptdecide acc p ≡ some q
      → get_promise q ≡ get_promise p
  unfolding handle_acceptdecide
  handle_acceptdecide-promise acc p q e =
      when_expected-promise acc.n acc.seq_num is_accepting_follower (accept_entries acc)
        (accept_entries_follower-promise acc) p q e

  pub handle_decide-promise :
      (dec : Decide) (p q : SequencePaxos T C S)
      → handle_decide dec p ≡ some q
      → get_promise q ≡ get_promise p
  unfolding handle_decide
  handle_decide-promise dec p q e =
      when_expected-promise dec.n dec.seq_num (λ s. is_accept s.1) (decide_entries dec)
        (decide_entries-promise dec) p q e

  pub handle_accept_stopsign-promise :
      (acc : AcceptStopSign C) (p q : SequencePaxos T C S)
      → handle_accept_stopsign acc p ≡ some q
      → get_promise q ≡ get_promise p
  unfolding handle_accept_stopsign
  handle_accept_stopsign-promise acc p q e =
      when_expected-promise acc.n acc.seq_num is_accepting_follower (accept_stopsign acc)
        (accept_stopsign-promise acc) p q e
