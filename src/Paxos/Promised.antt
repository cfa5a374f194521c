-- ===== src/Paxos/Promised.antt =====
-- The ballot that a replica has promised (omnipaxos/src/sequence_paxos).
use omnipaxos.Prelude.{ℕ, ◌≡◌, subst, sym, Bool, Option, some, List, ◌⊎◌, inl, inr, arith}
use omnipaxos.Ballot.{Ballot}
use omnipaxos.Ballot.Order.{Le, le_refl, le_trans, le_of_lt, le_of_eq}
use omnipaxos.Storage.{Snapshot, StorageResult}
use omnipaxos.Messages.{Prepare, PaxosMsg, PaxosMessage}
use omnipaxos.Paxos.{SequencePaxos, get_promise, reconnected}
use omnipaxos.Paxos.FollowerRole.Preparing.{handle_prepare}
use omnipaxos.Paxos.LeaderRole.{handle_leader}
use omnipaxos.Paxos.Replica.{snapshot, handle_msg, handle}
use omnipaxos.Paxos.Frame.{reconnected-storage}
use omnipaxos.Paxos.Kept.{
  promise-same, handle_acceptdecide-promise, handle_decide-promise, handle_accept_stopsign-promise,
}
use omnipaxos.Paxos.Handled.{
  handle_preparereq-promise, handle_notaccepted-promise, handle_forwarded_proposal-promise,
  handle_forwarded_stopsign-promise, handle_accepted-promise,
}
use omnipaxos.Paxos.Handled.Adopting.{
  handle_acceptsync-promise, give_promise-promise, handle_promise-promise,
  handle_compaction-promise,
}
use omnipaxos.Paxos.Replica.{
  append, reconfigure, resend_message_timeout, flush_batch_timeout, trim, take_outgoing_msgs, taken,
}
use omnipaxos.Paxos.Local.{
  handle_leader-promise, append-promise, reconfigure-promise, flush_batch_timeout-promise,
  resend_message_timeout-promise, trim-promise, take_outgoing_msgs-promise, snapshot-promise,
}

pub le_of_same : (a b : Ballot) → b ≡ a → Le a b
le_of_same a b e = subst (Le a) (sym e) (le_refl a)

module _ {T C S : Type 0} (snap : Snapshot T S) where
  -- What `handle` does to the promise: a `Prepare` may raise it to its own ballot, and to no other.
  abbrev pub Raises : PaxosMsg T C S → Ballot → Ballot → Type 0
  Raises (PaxosMsg.prepare m) old new = (new ≡ old) ⊎ ((new ≡ m.n) × Le old m.n)
  Raises _ old new = new ≡ old

  pub handle_prepare-Raises :
      (m : Prepare) (from : ℕ) (p q : SequencePaxos T C S)
      → handle_prepare snap m from p ≡ some q
      → Raises (PaxosMsg.prepare m) (get_promise p) (get_promise q)
  unfolding handle_prepare
  handle_prepare-Raises m from p q e = ground (
    arith,
    give_promise-promise snap m from p q,
    le_of_lt (get_promise p) m.n,
    le_of_eq (get_promise p) m.n,
  )

  handle_msg-Raises :
      (m : PaxosMsg T C S) (from : ℕ) (p q : SequencePaxos T C S)
      → handle_msg snap m from p ≡ some q
      → Raises m (get_promise p) (get_promise q)
  unfolding handle_msg
  handle_msg-Raises (PaxosMsg.prepare_req m) from p q e = handle_preparereq-promise m from p q e
  handle_msg-Raises (PaxosMsg.prepare m) from p q e = handle_prepare-Raises m from p q e
  handle_msg-Raises (PaxosMsg.promise m) from p q e = handle_promise-promise snap m from p q e
  handle_msg-Raises (PaxosMsg.accept_sync m) from p q e =
      handle_acceptsync-promise snap m from p q e
  handle_msg-Raises (PaxosMsg.accept_decide m) from p q e = handle_acceptdecide-promise m p q e
  handle_msg-Raises (PaxosMsg.not_accepted m) from p q e = handle_notaccepted-promise m from p q e
  handle_msg-Raises (PaxosMsg.accepted m) from p q e = handle_accepted-promise m from p q e
  handle_msg-Raises (PaxosMsg.decide m) from p q e = handle_decide-promise m p q e
  handle_msg-Raises (PaxosMsg.proposal_forward m) from p q e =
      handle_forwarded_proposal-promise m p q e
  handle_msg-Raises (PaxosMsg.compaction m) from p q e =
      ground (arith, handle_compaction-promise snap m p)
  handle_msg-Raises (PaxosMsg.accept_stop_sign m) from p q e =
      handle_accept_stopsign-promise m p q e
  handle_msg-Raises (PaxosMsg.forward_stop_sign m) from p q e =
      handle_forwarded_stopsign-promise m p q e

  -- The promise of a replica changes by a `Prepare` only, to the ballot of that message, and only
  -- if that is not below the promise; every other message leaves the promise as it is.
  pub handle-Raises :
      (m : PaxosMessage T C S) (p q : SequencePaxos T C S)
      → handle snap m p ≡ some q
      → Raises m.msg (get_promise p) (get_promise q)
  unfolding handle
  handle-Raises m p q e = handle_msg-Raises m.msg m.from p q e

  -- What can happen to a replica: a message, a call of its user, an elected leader, or a timeout.
  pub data Step : SequencePaxos T C S → SequencePaxos T C S → Type 0 where
    receives :
        (m : PaxosMessage T C S) (p q : SequencePaxos T C S) → handle snap m p ≡ some q → Step p q
    elects : (n : Ballot) (p q : SequencePaxos T C S) → handle_leader n p ≡ some q → Step p q
    appends : (entry : T) (p q : SequencePaxos T C S) → append entry p ≡ some (taken q) → Step p q
    reconfigures :
        (c : C) (meta : Option (List ℕ)) (p q : SequencePaxos T C S)
        → reconfigure c meta p ≡ some (taken q)
        → Step p q
    trims :
        (idx : Option ℕ) (p q : SequencePaxos T C S) (r : StorageResult (Unit {0}))
        → trim idx p ≡ some (r, q)
        → Step p q
    snapshots :
        (idx : Option ℕ) (local_only : Bool) (p : SequencePaxos T C S)
        → Step p (snapshot snap idx local_only p).1
    resends : (p q : SequencePaxos T C S) → resend_message_timeout p ≡ some q → Step p q
    flushes : (p q : SequencePaxos T C S) → flush_batch_timeout p ≡ some q → Step p q
    reconnects : (pid : ℕ) (p : SequencePaxos T C S) → Step p (reconnected pid p)
    takes :
        (buffer : List (PaxosMessage T C S)) (p : SequencePaxos T C S)
        → Step p (take_outgoing_msgs buffer p).1

  pub data Run : SequencePaxos T C S → SequencePaxos T C S → Type 0 where
    here : {p : SequencePaxos T C S} → Run p p
    next : {p q r : SequencePaxos T C S} → Run p q → Step q r → Run p r

  pub Raises-le : (m : PaxosMsg T C S) (a b : Ballot) → Raises m a b → Le a b
  Raises-le (PaxosMsg.prepare m) a b (inl same) = le_of_same a b same
  Raises-le (PaxosMsg.prepare m) a b (inr (same, le)) = subst (Le a) (sym same) le
  Raises-le (PaxosMsg.prepare_req m) a b e = le_of_same a b e
  Raises-le (PaxosMsg.promise m) a b e = le_of_same a b e
  Raises-le (PaxosMsg.accept_sync m) a b e = le_of_same a b e
  Raises-le (PaxosMsg.accept_decide m) a b e = le_of_same a b e
  Raises-le (PaxosMsg.not_accepted m) a b e = le_of_same a b e
  Raises-le (PaxosMsg.accepted m) a b e = le_of_same a b e
  Raises-le (PaxosMsg.decide m) a b e = le_of_same a b e
  Raises-le (PaxosMsg.proposal_forward m) a b e = le_of_same a b e
  Raises-le (PaxosMsg.compaction m) a b e = le_of_same a b e
  Raises-le (PaxosMsg.accept_stop_sign m) a b e = le_of_same a b e
  Raises-le (PaxosMsg.forward_stop_sign m) a b e = le_of_same a b e

  Step-le : {p q : SequencePaxos T C S} → Step p q → Le (get_promise p) (get_promise q)
  Step-le (receives m p q e) = Raises-le m.msg _ _ (handle-Raises m p q e)
  Step-le (elects n p q e) = elim (handle_leader-promise n p q e) [
    | inl same ↦ le_of_same _ _ same
    | inr (same, le) ↦ subst (Le (get_promise p)) (sym same) le
  ]
  Step-le (appends entry p q e) = le_of_same _ _ (append-promise entry p q e)
  Step-le (reconfigures c meta p q e) = le_of_same _ _ (reconfigure-promise c meta p q e)
  Step-le (trims idx p q r e) = le_of_same _ _ (trim-promise idx p q r e)
  Step-le (snapshots idx local_only p) = le_of_same _ _ (snapshot-promise snap idx local_only p)
  Step-le (resends p q e) = le_of_same _ _ (resend_message_timeout-promise p q e)
  Step-le (flushes p q e) = le_of_same _ _ (flush_batch_timeout-promise p q e)
  Step-le (reconnects pid p) =
      le_of_same _ _ (promise-same p (reconnected pid p) (reconnected-storage pid p))
  Step-le (takes buffer p) = le_of_same _ _ (take_outgoing_msgs-promise buffer p)

  -- A replica never goes back on its promise, whatever messages, calls, elections and timeouts it
  -- sees and in whatever order: the promise at the end ranks at least as high as at the start.
  pub Run-promise_le : (p q : SequencePaxos T C S) → Run p q → Le (get_promise p) (get_promise q)
  Run-promise_le p _ here = le_refl (get_promise p)
  Run-promise_le p q (next {q = mid} r s) =
      le_trans (get_promise p) (get_promise mid) (get_promise q) (Run-promise_le p mid r)
        (Step-le s)
