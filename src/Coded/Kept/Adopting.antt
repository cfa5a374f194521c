-- ===== src/Coded/Kept/Adopting.antt =====
-- The stopsign and the end of the prepare phase keep the promise of a coding leader:
-- omnipaxos/src/sequence_paxos_ec/leader.rs.
use omnipaxos.Prelude.{
  ℕ, ◌≡◌, ◌∙◌, ap, true, false, not, Option, none, some, List, arith, if◌then◌else◌, >>=-eq-some,
  Option-cases, inl, inr,
}
use omnipaxos.Storage.{StopSign, Snapshot}
use omnipaxos.Storage.Internal
use omnipaxos.Storage.Internal.{InternalStorage, AcceptedMetaData}
use omnipaxos.Storage.Internal.Compaction.{sync_log}
use omnipaxos.Leader
use omnipaxos.Messages.{Promise}
use omnipaxos.Paxos
use omnipaxos.Paxos.{leader, accept, SequencePaxos, expect, accepted_reconfiguration}
use omnipaxos.Paxos.Kept.{promise_of, append_stopsign-promise}
use omnipaxos.Paxos.Frame.{send_accept_stopsign-storage, forward_stopsign-storage}
use omnipaxos.Paxos.LeaderRole.Preparing.{append_buffered_proposals, append_buffered_stopsign}
use omnipaxos.Paxos.Handled.{append_buffered_proposals-promise, append_buffered_stopsign-promise}
use omnipaxos.Paxos.Handled.Adopting.{expect-sync_log-promise}
use omnipaxos.Erasure
use omnipaxos.Erasure.{ReedSolomon}
use omnipaxos.Erasure.Entry.{EcEntry}
use omnipaxos.Coded.{SequencePaxosEc, get_promise, forward_stopsign}
use omnipaxos.Coded.Leader.{set_own_accepted_idx}
use omnipaxos.Coded.Leader.Same.{send_accept_stopsign}
use omnipaxos.Coded.Leader.Preparing.{
  send_accsync, handle_majority_promises, handle_promise_prepare, handle_promise_accept,
}
use omnipaxos.Coded.Leader.Stopping.{
  send_coded_stopsign, accept_stopsign_leader, propose_stopsign, handle_forwarded_stopsign,
}
use omnipaxos.Coded.Kept.{
  for_each-keeps, storage_of, send_acceptdecide-storage, set_own_accepted_idx-storage,
}

module _ {T C S R E : Type 0} (lib : ReedSolomon R E) (entries : EcEntry T) where
  module _ (serialize : StopSign C → Option (List ℕ)) where
    send_coded_stopsign-storage :
        (ss : StopSign C) (metadata : Option (AcceptedMetaData T)) (p q : SequencePaxosEc T C S R)
        → send_coded_stopsign lib entries serialize ss metadata p ≡ some q
        → storage_of q ≡ storage_of p
    unfolding send_coded_stopsign
    send_coded_stopsign-storage ss none p q e = ground arith
    send_coded_stopsign-storage ss (some m) p q e =
        let (bytes, serialized, e') = >>=-eq-some (serialize ss) _ e in
        let (fragments, encoded, sent) = >>=-eq-some (Erasure.encode lib p.ec_service bytes) _ e' in
        send_acceptdecide-storage entries _ p q sent

    accept_stopsign_leader-promise :
        (ss : StopSign C) (p q : SequencePaxosEc T C S R)
        → accept_stopsign_leader lib entries serialize ss p ≡ some q
        → get_promise q ≡ get_promise p
    unfolding accept_stopsign_leader get_promise send_accept_stopsign
    accept_stopsign_leader-promise ss p q e =
        let (metadata, st) = Internal.append_stopsign ss p.plain.internal_storage in
        let plain : SequencePaxos T C S = record p.plain { internal_storage = st } in
        let held : SequencePaxosEc T C S R = record p { plain = plain } in
        let (sent, coded, e') =
          >>=-eq-some (send_coded_stopsign lib entries serialize ss metadata held) _ e in
        let idx = sent.plain.internal_storage.state_cache.accepted_idx in
        let (own, set, e'') = >>=-eq-some (set_own_accepted_idx idx sent) _ e' in
        ap promise_of (
          for_each-keeps storage_of (Leader.get_promised_followers own.plain.leader_state)
            (send_accept_stopsign ss false)
            (λ to p' q' h. ground (arith, send_accept_stopsign-storage ss false to p'.plain)) own q
            e''
          ∙ set_own_accepted_idx-storage entries idx sent own set
          ∙ send_coded_stopsign-storage ss metadata held sent coded)
        ∙ append_stopsign-promise ss p.plain.internal_storage

    pub propose_stopsign-promise :
        (ss : StopSign C) (p q : SequencePaxosEc T C S R)
        → propose_stopsign lib entries serialize ss p ≡ some q
        → get_promise q ≡ get_promise p
    unfolding propose_stopsign forward_stopsign get_promise
    propose_stopsign-promise ss p q e =
        ground (arith, accept_stopsign_leader-promise ss p q, forward_stopsign-storage ss p.plain)

    pub handle_forwarded_stopsign-promise :
        (ss : StopSign C) (p q : SequencePaxosEc T C S R)
        → handle_forwarded_stopsign lib entries serialize ss p ≡ some q
        → get_promise q ≡ get_promise p
    unfolding handle_forwarded_stopsign
    handle_forwarded_stopsign-promise ss p q e = ground (arith, propose_stopsign-promise ss p q)

  module _ (snap : Snapshot T S) where
    send_accsync-storage :
        (to : ℕ) (p q : SequencePaxosEc T C S R)
        → send_accsync lib entries snap to p ≡ some q
        → storage_of q ≡ storage_of p
    unfolding send_accsync
    send_accsync-storage to p q e = ground arith

    handle_majority_promises-promise :
        (p q : SequencePaxosEc T C S R)
        → handle_majority_promises lib entries snap p ≡ some q
        → get_promise q ≡ get_promise p
    unfolding handle_majority_promises Leader.take_max_promise_sync get_promise
    handle_majority_promises-promise p q e =
        let (sync, l) = Leader.take_max_promise_sync p.plain.leader_state in
        let idx = Leader.get_max_decided_idx l in
        let st = p.plain.internal_storage in
        let (synced, done, e') = >>=-eq-some (expect (sync_log snap l.n_leader idx sync st)) _ e in
        let held : SequencePaxos T C S = record p.plain {
          internal_storage = synced.1;
          leader_state = l;
        } in
        let proposed = append_buffered_proposals held in
        let held' =
          if not (accepted_reconfiguration held)
          then append_buffered_stopsign proposed.buffered_stopsign proposed
          else held in
        let kept : Paxos.get_promise held' ≡ Paxos.get_promise held = ground (
          arith,
          append_buffered_proposals-promise held,
          append_buffered_stopsign-promise proposed.buffered_stopsign proposed,
        ) in
        let (l', set, sent) =
          >>=-eq-some
            (Leader.set_accepted_idx held'.pid held'.internal_storage.state_cache.accepted_idx
              held'.leader_state)
            _ e' in
        let accepting : SequencePaxos T C S = record held' {
          state = (leader, accept);
          leader_state = l';
        } in
        ap promise_of (
          for_each-keeps storage_of (Leader.get_promised_followers l')
            (send_accsync lib entries snap) send_accsync-storage (record p { plain = accepting }) q
            sent)
        ∙ (kept ∙ expect-sync_log-promise snap l.n_leader idx sync st synced done)

    pub handle_promise_prepare-promise :
        (m : Promise T C S) (from : ℕ) (p q : SequencePaxosEc T C S R)
        → handle_promise_prepare lib entries snap m from p ≡ some q
        → get_promise q ≡ get_promise p
    unfolding handle_promise_prepare get_promise
    handle_promise_prepare-promise m from p q e =
        elim (Option-cases (Leader.set_promise m from true p.plain.leader_state)) [
          | inl panicked ↦ ground arith
          | inr (promised, set) ↦
              let plain : SequencePaxos T C S = record p.plain { leader_state = promised.1 } in
              ground (arith, handle_majority_promises-promise (record p { plain = plain }) q)
        ]

    pub handle_promise_accept-promise :
        (m : Promise T C S) (from : ℕ) (p q : SequencePaxosEc T C S R)
        → handle_promise_accept lib entries snap m from p ≡ some q
        → get_promise q ≡ get_promise p
    unfolding handle_promise_accept get_promise
    handle_promise_accept-promise m from p q e =
        elim (Option-cases (Leader.set_promise m from false p.plain.leader_state)) [
          | inl panicked ↦ ground arith
          | inr (promised, set) ↦
              let plain : SequencePaxos T C S = record p.plain { leader_state = promised.1 } in
              ground (arith, send_accsync-storage from (record p { plain = plain }) q)
        ]
