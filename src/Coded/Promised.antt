-- ===== src/Coded/Promised.antt =====
-- The ballot that a coding replica has promised (omnipaxos/src/sequence_paxos_ec).
use omnipaxos.Prelude.{
  ℕ, ◌≡◌, ◌∙◌, subst, sym, ap, Bool, Option, some, List, [], ◌∷◌, inl, inr, arith, >>=-eq-some,
}
use omnipaxos.Ballot.{Ballot}
use omnipaxos.Ballot.Order.{Le, le_refl, le_trans}
use omnipaxos.Storage.{StopSign, Snapshot, StorageResult}
use omnipaxos.Messages.{PaxosMsg, PaxosMessage}
use omnipaxos.Paxos
use omnipaxos.Paxos.{SequencePaxos}
use omnipaxos.Paxos.Replica
use omnipaxos.Paxos.FollowerRole
use omnipaxos.Paxos.FollowerRole.Preparing
use omnipaxos.Paxos.LeaderRole
use omnipaxos.Paxos.LeaderRole.Deciding
use omnipaxos.Paxos.Frame.{reconnected-storage, forward_proposals-storage}
use omnipaxos.Paxos.Kept.{
  promise-same, handle_acceptdecide-promise, handle_decide-promise, handle_accept_stopsign-promise,
}
use omnipaxos.Paxos.Handled.{
  handle_preparereq-promise, handle_notaccepted-promise, handle_accepted-promise,
}
use omnipaxos.Paxos.Handled.Adopting.{handle_acceptsync-promise, handle_compaction-promise}
use omnipaxos.Paxos.Local.{
  handle_leader-promise, resend_message_timeout-promise, trim-promise, take_outgoing_msgs-promise,
  snapshot-promise, flush_batch_follower-promise,
}
use omnipaxos.Paxos.Promised.{Raises, Raises-le, handle_prepare-Raises, le_of_same}
use omnipaxos.Erasure.{ReedSolomon}
use omnipaxos.Erasure.Entry.{EcEntry}
use omnipaxos.Coded.{SequencePaxosEc, on_plain, get_promise, forward_proposals, reconnected}
use omnipaxos.Coded.Follower.{
  handle_prepare, handle_acceptsync, handle_acceptdecide, handle_accept_stopsign, handle_decide,
  resend_messages_follower, flush_batch_follower,
}
use omnipaxos.Coded.Leader.Same.{
  handle_leader, handle_preparereq, handle_accepted, handle_notaccepted, resend_messages_leader,
}
use omnipaxos.Coded.Replica.{
  handle, handle_msg, handle_promise, handle_compaction, append, propose_entry, reconfigure, trim,
  snapshot, resend_message_timeout, flush_batch_timeout, take_outgoing_msgs, taken,
}
use omnipaxos.Coded.Kept.{
  accept_entry_leader-promise, flush_batch_leader-promise, handle_forwarded_proposal-promise,
}
use omnipaxos.Coded.Kept.Adopting.{
  propose_stopsign-promise, handle_forwarded_stopsign-promise, handle_promise_prepare-promise,
  handle_promise_accept-promise,
}

module _ {T C S R : Type 0} where
  -- What a shared handler leads to, it leads to on the shared fields.
  on_plain-eq :
      (handler : SequencePaxos T C S → Option (SequencePaxos T C S)) (p q : SequencePaxosEc T C S R)
      → on_plain handler p ≡ some q
      → handler p.plain ≡ some q.plain
  on_plain-eq handler p q e = let (plain, runs, made) = >>=-eq-some (handler p.plain) _ e in cc

module _ {T C S R E : Type 0} (lib : ReedSolomon R E) (entries : EcEntry T)
    (serialize : StopSign C → Option (List ℕ)) (snap : Snapshot T S) where
  handle_msg-Raises :
      (m : PaxosMsg T C S) (from : ℕ) (p q : SequencePaxosEc T C S R)
      → handle_msg lib entries serialize snap m from p ≡ some q
      → Raises snap m (get_promise p) (get_promise q)
  unfolding handle_msg handle_prepare handle_preparereq handle_acceptsync handle_acceptdecide
      handle_notaccepted handle_accepted handle_decide handle_accept_stopsign handle_compaction
      handle_promise get_promise
  handle_msg-Raises (PaxosMsg.prepare_req m) from p q e =
      handle_preparereq-promise m from p.plain q.plain
        (on_plain-eq (LeaderRole.handle_preparereq m from) p q e)
  handle_msg-Raises (PaxosMsg.prepare m) from p q e =
      handle_prepare-Raises snap m from p.plain q.plain
        (on_plain-eq (Preparing.handle_prepare snap m from) p q e)
  handle_msg-Raises (PaxosMsg.promise m) from p q e = ground (
    arith,
    handle_promise_prepare-promise lib entries snap m from p q,
    handle_promise_accept-promise lib entries snap m from p q,
  )
  handle_msg-Raises (PaxosMsg.accept_sync m) from p q e =
      handle_acceptsync-promise snap m from p.plain q.plain
        (on_plain-eq (Preparing.handle_acceptsync snap m from) p q e)
  handle_msg-Raises (PaxosMsg.accept_decide m) from p q e =
      handle_acceptdecide-promise m p.plain q.plain
        (on_plain-eq (FollowerRole.handle_acceptdecide m) p q e)
  handle_msg-Raises (PaxosMsg.not_accepted m) from p q e =
      handle_notaccepted-promise m from p.plain q.plain
        (on_plain-eq (Deciding.handle_notaccepted m from) p q e)
  handle_msg-Raises (PaxosMsg.accepted m) from p q e =
      handle_accepted-promise m from p.plain q.plain
        (on_plain-eq (Deciding.handle_accepted m from) p q e)
  handle_msg-Raises (PaxosMsg.decide m) from p q e =
      handle_decide-promise m p.plain q.plain (on_plain-eq (FollowerRole.handle_decide m) p q e)
  handle_msg-Raises (PaxosMsg.proposal_forward m) from p q e =
      handle_forwarded_proposal-promise lib entries m p q e
  handle_msg-Raises (PaxosMsg.compaction m) from p q e =
      ground (arith, handle_compaction-promise snap m p.plain)
  handle_msg-Raises (PaxosMsg.accept_stop_sign m) from p q e =
      handle_accept_stopsign-promise m p.plain q.plain
        (on_plain-eq (FollowerRole.handle_accept_stopsign m) p q e)
  handle_msg-Raises (PaxosMsg.forward_stop_sign m) from p q e =
      handle_forwarded_stopsign-promise lib entries serialize m p q e

  append-promise :
      (entry : T) (p q : SequencePaxosEc T C S R)
      → append lib entries entry p ≡ some (taken q)
      → get_promise q ≡ get_promise p
  unfolding append propose_entry forward_proposals get_promise
  append-promise entry p q e = ground (
    arith,
    accept_entry_leader-promise lib entries entry p q,
    promise-same p.plain (Paxos.forward_proposals (entry ∷ []) p.plain)
        (forward_proposals-storage (entry ∷ []) p.plain),
  )

  reconfigure-promise :
      (c : C) (meta : Option (List ℕ)) (p q : SequencePaxosEc T C S R)
      → reconfigure lib entries serialize c meta p ≡ some (taken q)
      → get_promise q ≡ get_promise p
  unfolding reconfigure
  reconfigure-promise c meta p q e = ground (
    arith,
    propose_stopsign-promise lib entries serialize (record { next_config = c; metadata = meta }) p
        q,
  )

  flush_batch_timeout-promise :
      (p q : SequencePaxosEc T C S R)
      → flush_batch_timeout lib entries p ≡ some q
      → get_promise q ≡ get_promise p
  unfolding flush_batch_timeout flush_batch_follower get_promise
  flush_batch_timeout-promise p q e = ground (
    arith,
    flush_batch_leader-promise lib entries p q,
    λ (h : on_plain FollowerRole.flush_batch_follower p ≡ some q).
        flush_batch_follower-promise p.plain q.plain
          (on_plain-eq FollowerRole.flush_batch_follower p q h),
  )

  resend-promise :
      (p q : SequencePaxosEc T C S R)
      → resend_message_timeout p ≡ some q
      → get_promise q ≡ get_promise p
  unfolding resend_message_timeout resend_messages_leader resend_messages_follower get_promise
      Replica.resend_message_timeout
  resend-promise p q e =
      let same : Replica.resend_message_timeout p.plain ≡ some q.plain = ground arith in
      resend_message_timeout-promise p.plain q.plain same

  -- What can happen to a replica: a message, a call of its user, an elected leader, or a timeout.
  pub data Step : SequencePaxosEc T C S R → SequencePaxosEc T C S R → Type 0 where
    receives :
        (m : PaxosMessage T C S) (p q : SequencePaxosEc T C S R)
        → handle lib entries serialize snap m p ≡ some q
        → Step p q
    elects : (n : Ballot) (p q : SequencePaxosEc T C S R) → handle_leader n p ≡ some q → Step p q
    appends :
        (entry : T) (p q : SequencePaxosEc T C S R)
        → append lib entries entry p ≡ some (taken q)
        → Step p q
    reconfigures :
        (c : C) (meta : Option (List ℕ)) (p q : SequencePaxosEc T C S R)
        → reconfigure lib entries serialize c meta p ≡ some (taken q)
        → Step p q
    trims :
        (idx : Option ℕ) (p q : SequencePaxosEc T C S R) (r : StorageResult (Unit {0}))
        → trim idx p ≡ some (r, q)
        → Step p q
    snapshots :
        (idx : Option ℕ) (local_only : Bool) (p : SequencePaxosEc T C S R)
        → Step p (snapshot snap idx local_only p).1
    resends : (p q : SequencePaxosEc T C S R) → resend_message_timeout p ≡ some q → Step p q
    flushes :
        (p q : SequencePaxosEc T C S R) → flush_batch_timeout lib entries p ≡ some q → Step p q
    reconnects : (pid : ℕ) (p : SequencePaxosEc T C S R) → Step p (reconnected pid p)
    takes :
        (buffer : List (PaxosMessage T C S)) (p : SequencePaxosEc T C S R)
        → Step p (take_outgoing_msgs buffer p).1

  pub data Run : SequencePaxosEc T C S R → SequencePaxosEc T C S R → Type 0 where
    here : {p : SequencePaxosEc T C S R} → Run p p
    next : {p q r : SequencePaxosEc T C S R} → Run p q → Step q r → Run p r

  Step-le : {p q : SequencePaxosEc T C S R} → Step p q → Le (get_promise p) (get_promise q)
  unfolding handle handle_leader trim snapshot reconnected take_outgoing_msgs get_promise
  Step-le (receives m p q e) = Raises-le snap m.msg _ _ (handle_msg-Raises m.msg m.from p q e)
  Step-le (elects n p q e) =
      elim (handle_leader-promise n p.plain q.plain
        (on_plain-eq (LeaderRole.handle_leader n) p q e)) [
          | inl same ↦ le_of_same _ _ same
          | inr (same, le) ↦ subst (Le (get_promise p)) (sym same) le
        ]
  Step-le (appends entry p q e) = le_of_same _ _ (append-promise entry p q e)
  Step-le (reconfigures c meta p q e) = le_of_same _ _ (reconfigure-promise c meta p q e)
  Step-le (trims idx p q r e) =
      let (trimmed, runs, made) = >>=-eq-some (Replica.trim idx p.plain) _ e in
      let same : q.plain ≡ trimmed.1 = cc in
      le_of_same _ _ (ap Paxos.get_promise same ∙ trim-promise idx p.plain trimmed.1 trimmed.0 runs)
  Step-le (snapshots idx local_only p) =
      le_of_same _ _ (snapshot-promise snap idx local_only p.plain)
  Step-le (resends p q e) = le_of_same _ _ (resend-promise p q e)
  Step-le (flushes p q e) = le_of_same _ _ (flush_batch_timeout-promise p q e)
  Step-le (reconnects pid p) =
      le_of_same _ _
        (promise-same p.plain (Paxos.reconnected pid p.plain) (reconnected-storage pid p.plain))
  Step-le (takes buffer p) = le_of_same _ _ (take_outgoing_msgs-promise buffer p.plain)

  -- A replica that codes its entries never goes back on its promise, whatever messages, calls,
  -- elections and timeouts it sees and in whatever order: the promise at the end ranks at least as
  -- high as at the start.
  pub Run-promise_le_coded :
      (p q : SequencePaxosEc T C S R) → Run p q → Le (get_promise p) (get_promise q)
  Run-promise_le_coded p _ here = le_refl (get_promise p)
  Run-promise_le_coded p q (next {q = mid} r s) =
      le_trans (get_promise p) (get_promise mid) (get_promise q) (Run-promise_le_coded p mid r)
        (Step-le s)
