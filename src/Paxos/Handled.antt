-- ===== src/Paxos/Handled.antt =====
-- The handlers that keep the promise of a replica (omnipaxos/src/sequence_paxos); those that adopt a
-- log are below.
pub mod Adopting
use omnipaxos.Prelude.{
  ℕ, ◌≡◌, refl, ◌∙◌, ap, true, false, not, Option, none, some, List, [], ◌⊎◌, inl, inr, arith,
  Option-cases, >>=-eq-some, if◌then◌else◌,
}
use omnipaxos.Ballot.{Ballot}
use omnipaxos.Storage.{StopSign, Snapshot, LogSync, StorageResult, CompactionErr, ok, err}
use omnipaxos.Storage.Internal
use omnipaxos.Storage.Internal.{InternalStorage}
use omnipaxos.Storage.Internal.Compaction.{sync_log, try_trim, try_snapshot}
use omnipaxos.Leader
use omnipaxos.Messages.{PrepareReq, Prepare, Promise, AcceptSync, Accepted, NotAccepted, Compaction}
use omnipaxos.Paxos.{
  leader, accept, SequencePaxos, get_promise, forward_proposals, forward_stopsign, expect,
  accepted_reconfiguration,
}
use omnipaxos.Paxos.FollowerRole.{check_valid_ballot, forward_buffered_proposals}
use omnipaxos.Paxos.FollowerRole.Preparing.{give_promise, accept_sync, handle_acceptsync}
use omnipaxos.Paxos.LeaderRole.{
  handle_preparereq, accept_entries_leader, accept_stopsign_leader, handle_forwarded_proposal,
  propose_stopsign, handle_forwarded_stopsign, send_prepare,
}
use omnipaxos.Paxos.LeaderRole.Deciding.{decide_chosen, handle_accepted, handle_notaccepted}
use omnipaxos.Paxos.LeaderRole.Preparing.{
  send_accsync, append_buffered_proposals, append_buffered_stopsign, handle_majority_promises,
  handle_promise_prepare, handle_promise_accept,
}
use omnipaxos.Paxos.Replica.{snapshot, handle_compaction, handle_promise}
use omnipaxos.Paxos.Frame.{
  for_each-storage, forward_proposals-storage, forward_stopsign-storage, decide_chosen-storage,
  accept_entries_leader-storage, accept_stopsign_leader-storage,
}
use omnipaxos.Paxos.Kept.{
  promise_of, append_entries-promise, append_stopsign-promise, try_trim-promise,
  try_snapshot-promise, sync_log-promise, check_valid_ballot-storage, promise-same,
}

module _ {T C S : Type 0} where
  pub forward_buffered_proposals-promise :
      (p : SequencePaxos T C S) → get_promise (forward_buffered_proposals p) ≡ get_promise p
  unfolding forward_buffered_proposals
  forward_buffered_proposals-promise p =
      let p' : SequencePaxos T C S = record p { buffered_proposals = [] } in
      ground (
        arith,
        promise-same p' (forward_proposals p.buffered_proposals p')
            (forward_proposals-storage p.buffered_proposals p'),
      )

  pub handle_preparereq-promise :
      (m : PrepareReq) (from : ℕ) (p q : SequencePaxos T C S)
      → handle_preparereq m from p ≡ some q
      → get_promise q ≡ get_promise p
  unfolding handle_preparereq send_prepare
  handle_preparereq-promise m from p q e = ground arith

  pub handle_notaccepted-promise :
      (m : NotAccepted) (from : ℕ) (p q : SequencePaxos T C S)
      → handle_notaccepted m from p ≡ some q
      → get_promise q ≡ get_promise p
  unfolding handle_notaccepted
  handle_notaccepted-promise m from p q e = ground arith

  pub accept_entries_leader-promise :
      (es : List T) (p q : SequencePaxos T C S)
      → accept_entries_leader es p ≡ some q
      → get_promise q ≡ get_promise p
  accept_entries_leader-promise es p q e =
      ap promise_of (accept_entries_leader-storage es p q e)
      ∙ append_entries-promise es p.internal_storage

  pub accept_stopsign_leader-promise :
      (ss : StopSign C) (p q : SequencePaxos T C S)
      → accept_stopsign_leader ss p ≡ some q
      → get_promise q ≡ get_promise p
  accept_stopsign_leader-promise ss p q e =
      ap promise_of (accept_stopsign_leader-storage ss p q e)
      ∙ append_stopsign-promise ss p.internal_storage

  pub handle_forwarded_proposal-promise :
      (es : List T) (p q : SequencePaxos T C S)
      → handle_forwarded_proposal es p ≡ some q
      → get_promise q ≡ get_promise p
  unfolding handle_forwarded_proposal
  handle_forwarded_proposal-promise es p q e = ground (
    arith,
    accept_entries_leader-promise es p q,
    promise-same p (forward_proposals es p) (forward_proposals-storage es p),
  )

  pub propose_stopsign-promise :
      (ss : StopSign C) (p q : SequencePaxos T C S)
      → propose_stopsign ss p ≡ some q
      → get_promise q ≡ get_promise p
  unfolding propose_stopsign
  propose_stopsign-promise ss p q e = ground (
    arith,
    accept_stopsign_leader-promise ss p q,
    promise-same p (forward_stopsign ss p) (forward_stopsign-storage ss p),
  )

  pub handle_forwarded_stopsign-promise :
      (ss : StopSign C) (p q : SequencePaxos T C S)
      → handle_forwarded_stopsign ss p ≡ some q
      → get_promise q ≡ get_promise p
  unfolding handle_forwarded_stopsign
  handle_forwarded_stopsign-promise ss p q e = ground (arith, propose_stopsign-promise ss p q)

  pub decide_chosen-promise :
      (idx : ℕ) (p q : SequencePaxos T C S)
      → decide_chosen idx p ≡ some q
      → get_promise q ≡ get_promise p
  unfolding Internal.set_decided_idx
  decide_chosen-promise idx p q e = ap promise_of (decide_chosen-storage idx p q e)

  pub handle_accepted-promise :
      (acc : Accepted) (from : ℕ) (p q : SequencePaxos T C S)
      → handle_accepted acc from p ≡ some q
      → get_promise q ≡ get_promise p
  unfolding handle_accepted
  handle_accepted-promise acc from p q e =
      elim (Option-cases (Leader.set_accepted_idx from acc.accepted_idx p.leader_state)) [
        | inl panicked ↦ ground arith
        | inr (l, set) ↦
            ground (arith, decide_chosen-promise acc.accepted_idx (record p { leader_state = l }) q)
      ]

  pub append_buffered_proposals-promise :
      (p : SequencePaxos T C S) → get_promise (append_buffered_proposals p) ≡ get_promise p
  unfolding append_buffered_proposals Internal.append_entries_without_batching
  append_buffered_proposals-promise p = ground arith

  pub append_buffered_stopsign-promise :
      (ss : Option (StopSign C)) (p : SequencePaxos T C S)
      → get_promise (append_buffered_stopsign ss p) ≡ get_promise p
  unfolding append_buffered_stopsign
  append_buffered_stopsign-promise none p = refl
  append_buffered_stopsign-promise (some ss) p = append_stopsign-promise ss p.internal_storage
