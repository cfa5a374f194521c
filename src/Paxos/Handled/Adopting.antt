-- ===== src/Paxos/Handled/Adopting.antt =====
-- The handlers that adopt a log, compact one or give a promise, and the promise of a replica
-- (omnipaxos/src/sequence_paxos).
use omnipaxos.Prelude.{
  ℕ, ◌≡◌, refl, ◌∙◌, ap, true, false, not, Option, none, some, ◌⊎◌, inl, inr, arith, Option-cases,
  >>=-eq-some, if◌then◌else◌,
}
use omnipaxos.Ballot.{Ballot}
use omnipaxos.Storage.{Snapshot, LogSync, StorageResult, CompactionErr, ok, err}
use omnipaxos.Storage.Internal
use omnipaxos.Storage.Internal.{InternalStorage}
use omnipaxos.Storage.Internal.Compaction.{sync_log, try_trim, try_snapshot}
use omnipaxos.Leader
use omnipaxos.Messages.{Prepare, Promise, AcceptSync, Compaction}
use omnipaxos.Paxos.{leader, accept, SequencePaxos, get_promise, expect, accepted_reconfiguration}
use omnipaxos.Paxos.FollowerRole.{check_valid_ballot}
use omnipaxos.Paxos.FollowerRole.Preparing.{give_promise, accept_sync, handle_acceptsync}
use omnipaxos.Paxos.LeaderRole.Preparing.{
  send_accsync, append_buffered_proposals, append_buffered_stopsign, handle_majority_promises,
  handle_promise_prepare, handle_promise_accept,
}
use omnipaxos.Paxos.Replica.{snapshot, handle_compaction, handle_promise}
use omnipaxos.Paxos.Frame.{for_each-storage}
use omnipaxos.Paxos.Kept.{
  promise_of, try_trim-promise, try_snapshot-promise, sync_log-promise, check_valid_ballot-storage,
  promise-same,
}
use omnipaxos.Paxos.Handled.{
  forward_buffered_proposals-promise, append_buffered_proposals-promise,
  append_buffered_stopsign-promise,
}

pub Result-cases :
    {A : Type 0} (r : StorageResult A)
    → ((a : A) × (r ≡ ok a)) ⊎ ((x : CompactionErr) × (r ≡ err x))
Result-cases (ok a) = inl (a, refl)
Result-cases (err x) = inr (x, refl)

expect-eq-some : {A : Type 0} (r : StorageResult A) (a : A) → expect r ≡ some a → r ≡ ok a
expect-eq-some (ok b) a e = cc
expect-eq-some (err x) a e = cc

module _ {T C S : Type 0} (snap : Snapshot T S) where
  pub expect-sync_log-promise :
      (n : Ballot) (idx : ℕ) (sync : Option (LogSync T C S)) (st : InternalStorage T C S)
      (synced : ℕ × InternalStorage T C S)
      → expect (sync_log snap n idx sync st) ≡ some synced
      → promise_of synced.1 ≡ promise_of st
  expect-sync_log-promise n idx sync st synced e =
      sync_log-promise snap n idx sync st synced
        (expect-eq-some (sync_log snap n idx sync st) synced e)

  pub accept_sync-promise :
      (acc : AcceptSync T C S) (from : ℕ) (p q : SequencePaxos T C S)
      → accept_sync snap acc from p ≡ some q
      → get_promise q ≡ get_promise p
  unfolding accept_sync
  accept_sync-promise acc from p q e =
      let sync = sync_log snap acc.n acc.decided_idx (some acc.log_sync) p.internal_storage in
      let (synced, done, rest) = >>=-eq-some (expect sync) _ e in
      let p' : SequencePaxos T C S = record p {
        cached_promise_message = none;
        internal_storage = synced.1;
      } in
      let kept : promise_of synced.1 ≡ get_promise p =
        expect-sync_log-promise acc.n acc.decided_idx (some acc.log_sync) p.internal_storage synced
          done in
      ground (arith, forward_buffered_proposals-promise p')

  pub handle_acceptsync-promise :
      (acc : AcceptSync T C S) (from : ℕ) (p q : SequencePaxos T C S)
      → handle_acceptsync snap acc from p ≡ some q
      → get_promise q ≡ get_promise p
  unfolding handle_acceptsync
  handle_acceptsync-promise acc from p q e =
      let checked = (check_valid_ballot acc.n p).1 in
      ground (
        arith,
        promise-same p checked (check_valid_ballot-storage acc.n p),
        accept_sync-promise acc from checked q,
      )

  -- `give_promise` promises the ballot of the `Prepare`.
  pub give_promise-promise :
      (m : Prepare) (from : ℕ) (p q : SequencePaxos T C S)
      → give_promise snap m from p ≡ some q
      → get_promise q ≡ m.n
  unfolding give_promise Internal.set_promise
  give_promise-promise m from p q e = ground arith

  send_accsync-storage :
      (to : ℕ) (p q : SequencePaxos T C S)
      → send_accsync snap to p ≡ some q
      → q.internal_storage ≡ p.internal_storage
  unfolding send_accsync
  send_accsync-storage to p q e = ground arith

  pub send_accsync-promise :
      (to : ℕ) (p q : SequencePaxos T C S)
      → send_accsync snap to p ≡ some q
      → get_promise q ≡ get_promise p
  send_accsync-promise to p q e = promise-same p q (send_accsync-storage to p q e)

  pub handle_majority_promises-promise :
      (p q : SequencePaxos T C S)
      → handle_majority_promises snap p ≡ some q
      → get_promise q ≡ get_promise p
  unfolding handle_majority_promises Leader.take_max_promise_sync
  handle_majority_promises-promise p q e =
      let (sync, l) = Leader.take_max_promise_sync p.leader_state in
      let idx = Leader.get_max_decided_idx l in
      let (synced, done, e') =
        >>=-eq-some (expect (sync_log snap l.n_leader idx sync p.internal_storage)) _ e in
      let p' : SequencePaxos T C S = record p { internal_storage = synced.1; leader_state = l } in
      let proposed = append_buffered_proposals p' in
      let p'' =
        if not (accepted_reconfiguration p')
        then append_buffered_stopsign proposed.buffered_stopsign proposed
        else p' in
      let kept : get_promise p'' ≡ get_promise p' = ground (
        arith,
        append_buffered_proposals-promise p',
        append_buffered_stopsign-promise proposed.buffered_stopsign proposed,
      ) in
      let (l', set, sent) =
        >>=-eq-some
          (Leader.set_accepted_idx p''.pid p''.internal_storage.state_cache.accepted_idx
            p''.leader_state)
          _ e' in
      ap promise_of (
        for_each-storage (Leader.get_promised_followers l') (send_accsync snap) send_accsync-storage
          (record p'' { state = (leader, accept); leader_state = l' }) q sent)
      ∙ (kept ∙ expect-sync_log-promise l.n_leader idx sync p.internal_storage synced done)

  pub handle_promise_prepare-promise :
      (m : Promise T C S) (from : ℕ) (p q : SequencePaxos T C S)
      → handle_promise_prepare snap m from p ≡ some q
      → get_promise q ≡ get_promise p
  unfolding handle_promise_prepare
  handle_promise_prepare-promise m from p q e =
      elim (Option-cases (Leader.set_promise m from true p.leader_state)) [
        | inl panicked ↦ ground arith
        | inr (promised, set) ↦
            ground
              (arith, handle_majority_promises-promise (record p { leader_state = promised.1 }) q)
      ]

  pub handle_promise_accept-promise :
      (m : Promise T C S) (from : ℕ) (p q : SequencePaxos T C S)
      → handle_promise_accept snap m from p ≡ some q
      → get_promise q ≡ get_promise p
  unfolding handle_promise_accept
  handle_promise_accept-promise m from p q e =
      elim (Option-cases (Leader.set_promise m from false p.leader_state)) [
        | inl panicked ↦ ground arith
        | inr (promised, set) ↦
            let p' : SequencePaxos T C S = record p { leader_state = promised.1 } in
            ground (arith, send_accsync-promise from p' q)
      ]

  pub handle_promise-promise :
      (m : Promise T C S) (from : ℕ) (p q : SequencePaxos T C S)
      → handle_promise snap m from p ≡ some q
      → get_promise q ≡ get_promise p
  unfolding handle_promise
  handle_promise-promise m from p q e =
      ground
        (arith, handle_promise_prepare-promise m from p q, handle_promise_accept-promise m from p q)

  pub handle_compaction-promise :
      (c : Compaction) (p : SequencePaxos T C S)
      → get_promise (handle_compaction snap c p) ≡ get_promise p
  unfolding handle_compaction snapshot
  handle_compaction-promise (Compaction.trim idx) p =
      elim (Result-cases (try_trim idx p.internal_storage)) [
        | inl (st, done) ↦ ground (arith, try_trim-promise idx p.internal_storage st done)
        | inr (x, failed) ↦ ground arith
      ]
  handle_compaction-promise (Compaction.snapshot idx) p =
      elim (Result-cases (try_snapshot snap idx p.internal_storage)) [
        | inl (st, done) ↦ ground (arith, try_snapshot-promise snap idx p.internal_storage st done)
        | inr (x, failed) ↦ ground arith
      ]
