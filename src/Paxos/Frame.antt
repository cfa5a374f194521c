-- ===== src/Paxos/Frame.antt =====
-- Which handlers leave the storage of a replica alone (omnipaxos/src/sequence_paxos): most send
-- messages and keep the leader's records.
use omnipaxos.Prelude.{
  ℕ, ◌≡◌, refl, ◌∙◌, Bool, true, false, Option, none, some, List, [], ◌∷◌, arith, ◌>>=◌,
  >>=-eq-some,
}
use omnipaxos.Storage.{StopSign}
use omnipaxos.Storage.Internal
use omnipaxos.Storage.Internal.{InternalStorage, AcceptedMetaData}
use omnipaxos.Leader
use omnipaxos.Messages.{PaxosMsg}
use omnipaxos.Paxos.{
  SequencePaxos, for_each, push, push_all, forward_proposals, forward_stopsign, reconnected,
}
use omnipaxos.Paxos.LeaderRole.Deciding.{
  resend_messages_leader, decide_chosen, notify_decided, resend_stopsign, resend_stopsigns,
  resend_prepares,
}
use omnipaxos.Paxos.LeaderRole.{
  accept_entry_leader, accept_entries_leader, flush_batch_leader, send_flushed,
  accept_stopsign_leader, send_acceptdecide_to, send_acceptdecide, seq_num_for,
  send_accept_stopsign, send_decide, announce, send_prepare,
}

module _ {T C S : Type 0} where
  -- A loop leaves the storage alone if its body does.
  pub for_each-storage :
      {A : Type 0} (xs : List A) (body : A → SequencePaxos T C S → Option (SequencePaxos T C S))
      → ((x : A) (p q : SequencePaxos T C S)
          → body x p ≡ some q
          → q.internal_storage ≡ p.internal_storage)
      → (p q : SequencePaxos T C S) → for_each xs body p ≡ some q
      → q.internal_storage ≡ p.internal_storage
  unfolding for_each
  for_each-storage [] body same p q e = ground arith
  for_each-storage (x ∷ xs) body same p q e =
      let (p', first, rest) = >>=-eq-some (body x p) (for_each xs body) e in
      for_each-storage xs body same p' q rest ∙ same x p p' first

  pub push_all-storage :
      (pids : List ℕ) (msg : PaxosMsg T C S) (p : SequencePaxos T C S)
      → (push_all pids msg p).internal_storage ≡ p.internal_storage
  unfolding push_all
  push_all-storage [] msg p = refl
  push_all-storage (to ∷ pids) msg p = push_all-storage pids msg (push to msg p)

  pub forward_proposals-storage :
      (es : List T) (p : SequencePaxos T C S)
      → (forward_proposals es p).internal_storage ≡ p.internal_storage
  unfolding forward_proposals
  forward_proposals-storage es p = ground arith

  pub forward_stopsign-storage :
      (ss : StopSign C) (p : SequencePaxos T C S)
      → (forward_stopsign ss p).internal_storage ≡ p.internal_storage
  unfolding forward_stopsign
  forward_stopsign-storage ss p = ground arith

  pub reconnected-storage :
      (pid : ℕ) (p : SequencePaxos T C S)
      → (reconnected pid p).internal_storage ≡ p.internal_storage
  unfolding reconnected
  reconnected-storage pid p = ground arith

  pub send_acceptdecide_to-storage :
      (a : AcceptedMetaData T) (pid : ℕ) (p q : SequencePaxos T C S)
      → send_acceptdecide_to a pid p ≡ some q
      → q.internal_storage ≡ p.internal_storage
  unfolding send_acceptdecide_to
  send_acceptdecide_to-storage a pid p q e = ground arith

  pub send_acceptdecide-storage :
      (a : AcceptedMetaData T) (p q : SequencePaxos T C S)
      → send_acceptdecide a p ≡ some q
      → q.internal_storage ≡ p.internal_storage
  unfolding send_acceptdecide
  send_acceptdecide-storage a p q e =
      for_each-storage (Leader.get_promised_followers p.leader_state) (send_acceptdecide_to a)
        (send_acceptdecide_to-storage a) p q e

  pub send_accept_stopsign-storage :
      (ss : StopSign C) (resend : Bool) (to : ℕ) (p q : SequencePaxos T C S)
      → send_accept_stopsign ss resend to p ≡ some q
      → q.internal_storage ≡ p.internal_storage
  unfolding send_accept_stopsign seq_num_for
  send_accept_stopsign-storage ss resend to p q e = ground arith

  pub send_decide-storage :
      (idx : ℕ) (resend : Bool) (to : ℕ) (p q : SequencePaxos T C S)
      → send_decide idx resend to p ≡ some q
      → q.internal_storage ≡ p.internal_storage
  unfolding send_decide seq_num_for
  send_decide-storage idx resend to p q e = ground arith

  pub notify_decided-storage :
      (idx pid : ℕ) (p q : SequencePaxos T C S)
      → notify_decided idx pid p ≡ some q
      → q.internal_storage ≡ p.internal_storage
  unfolding notify_decided send_decide seq_num_for
  notify_decided-storage idx pid p q e = ground arith

  pub announce-storage :
      (a : Option (AcceptedMetaData T)) (p q : SequencePaxos T C S)
      → announce a p ≡ some q
      → q.internal_storage ≡ p.internal_storage
  unfolding announce
  announce-storage none p q e = ground arith
  announce-storage (some m) p q e =
      let (l, set, sent) =
        >>=-eq-some (Leader.set_accepted_idx p.pid m.accepted_idx p.leader_state) _ e in
      send_acceptdecide-storage m (record p { leader_state = l }) q sent

  pub resend_stopsign-storage :
      (ss : StopSign C) (to : ℕ) (p q : SequencePaxos T C S)
      → resend_stopsign ss to p ≡ some q
      → q.internal_storage ≡ p.internal_storage
  unfolding resend_stopsign
  resend_stopsign-storage ss to p q e = ground (
    arith,
    send_decide-storage p.internal_storage.state_cache.decided_idx true to p q,
    send_accept_stopsign-storage ss true to p q,
  )

  pub resend_stopsigns-storage :
      (ss : Option (StopSign C)) (p q : SequencePaxos T C S)
      → resend_stopsigns ss p ≡ some q
      → q.internal_storage ≡ p.internal_storage
  unfolding resend_stopsigns
  resend_stopsigns-storage none p q e = ground arith
  resend_stopsigns-storage (some ss) p q e =
      for_each-storage (Leader.get_promised_followers p.leader_state) (resend_stopsign ss)
        (resend_stopsign-storage ss) p q e

  pub send_prepare-storage :
      (to : ℕ) (p q : SequencePaxos T C S)
      → some (send_prepare to p) ≡ some q
      → q.internal_storage ≡ p.internal_storage
  unfolding send_prepare
  send_prepare-storage to p q e = ground arith

  pub resend_prepares-storage :
      (p q : SequencePaxos T C S)
      → resend_prepares p ≡ some q
      → q.internal_storage ≡ p.internal_storage
  unfolding resend_prepares
  resend_prepares-storage p q e =
      let (peers, found, sent) =
        >>=-eq-some (Leader.get_preparable_peers p.peers p.leader_state) _ e in
      for_each-storage peers (λ peer r. some (send_prepare peer r)) send_prepare-storage p q sent

  pub resend_both-storage :
      (ss : Option (StopSign C)) (p q : SequencePaxos T C S)
      → (resend_stopsigns ss p >>= resend_prepares) ≡ some q
      → q.internal_storage ≡ p.internal_storage
  resend_both-storage ss p q e =
      let (p', first, rest) = >>=-eq-some (resend_stopsigns ss p) resend_prepares e in
      resend_prepares-storage p' q rest ∙ resend_stopsigns-storage ss p p' first

  pub resend_messages_leader-storage :
      (p q : SequencePaxos T C S)
      → resend_messages_leader p ≡ some q
      → q.internal_storage ≡ p.internal_storage
  unfolding resend_messages_leader
  resend_messages_leader-storage p q e = ground (
    arith,
    resend_prepares-storage p q,
    resend_both-storage p.internal_storage.state_cache.stopsign p q,
  )

  pub decide_chosen-storage :
      (idx : ℕ) (p q : SequencePaxos T C S)
      → decide_chosen idx p ≡ some q
      → q.internal_storage ≡ Internal.set_decided_idx idx p.internal_storage
  unfolding decide_chosen
  decide_chosen-storage idx p q e =
      for_each-storage (Leader.get_promised_followers p.leader_state) (notify_decided idx)
        (notify_decided-storage idx)
        (record p { internal_storage = Internal.set_decided_idx idx p.internal_storage }) q e

  pub accept_entry_leader-storage :
      (entry : T) (p q : SequencePaxos T C S)
      → accept_entry_leader entry p ≡ some q
      → q.internal_storage ≡ (Internal.append_entry_with_batching entry p.internal_storage).1
  unfolding accept_entry_leader
  accept_entry_leader-storage entry p q e =
      let (m, st) = Internal.append_entry_with_batching entry p.internal_storage in
      announce-storage m (record p { internal_storage = st }) q e

  pub accept_entries_leader-storage :
      (es : List T) (p q : SequencePaxos T C S)
      → accept_entries_leader es p ≡ some q
      → q.internal_storage ≡ (Internal.append_entries_with_batching es p.internal_storage).1
  unfolding accept_entries_leader
  accept_entries_leader-storage es p q e =
      let (m, st) = Internal.append_entries_with_batching es p.internal_storage in
      announce-storage m (record p { internal_storage = st }) q e

  pub flush_batch_leader-storage :
      (p q : SequencePaxos T C S)
      → flush_batch_leader p ≡ some q
      → q.internal_storage ≡ (Internal.flush_batch_and_get_entries p.internal_storage).1
  unfolding flush_batch_leader
  flush_batch_leader-storage p q e =
      let (m, st) = Internal.flush_batch_and_get_entries p.internal_storage in
      announce-storage m (record p { internal_storage = st }) q e

  pub send_flushed-storage :
      (a : Option (AcceptedMetaData T)) (p q : SequencePaxos T C S)
      → send_flushed a p ≡ some q
      → q.internal_storage ≡ p.internal_storage
  unfolding send_flushed
  send_flushed-storage none p q e = ground arith
  send_flushed-storage (some m) p q e = send_acceptdecide-storage m p q e

  pub accept_stopsign_leader-storage :
      (ss : StopSign C) (p q : SequencePaxos T C S)
      → accept_stopsign_leader ss p ≡ some q
      → q.internal_storage ≡ (Internal.append_stopsign ss p.internal_storage).1
  unfolding accept_stopsign_leader
  accept_stopsign_leader-storage ss p q e =
      let (m, st) = Internal.append_stopsign ss p.internal_storage in
      let (p', flushed, e') =
        >>=-eq-some (send_flushed m (record p { internal_storage = st })) _ e in
      let (l, set, sent) =
        >>=-eq-some
          (Leader.set_accepted_idx p'.pid p'.internal_storage.state_cache.accepted_idx
            p'.leader_state)
          _ e' in
      for_each-storage (Leader.get_promised_followers l) (send_accept_stopsign ss false)
        (send_accept_stopsign-storage ss false) (record p' { leader_state = l }) q sent
      ∙ send_flushed-storage m (record p { internal_storage = st }) p' flushed
