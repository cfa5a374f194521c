-- ===== src/Paxos/LeaderRole/Deciding.antt =====
-- A leader's decisions, and what it sends again: omnipaxos/src/sequence_paxos/leader.rs.
use omnipaxos.Prelude.{
  ℕ, true, false, not, ◌&&◌, Option, none, some, ltb, ◌==◌, if◌then◌else◌, ◌>>=◌,
}
use omnipaxos.Ballot
use omnipaxos.Ballot.{Ballot}
use omnipaxos.Storage.{StopSign}
use omnipaxos.Storage.Internal
use omnipaxos.Storage.Internal.{AcceptedMetaData}
use omnipaxos.Leader
use omnipaxos.Leader.{LeaderState, PromiseMetaData}
use omnipaxos.Messages.{Accepted, NotAccepted}
use omnipaxos.Paxos.{prepare, accept, recover, idle, SequencePaxos, is_leader, is_accept, for_each}
use omnipaxos.Paxos.LeaderRole.{
  get_latest_accdec_message, replace_accdec, send_prepare, send_accept_stopsign, send_decide,
}

module _ {T C S : Type 0} where
  -- The news of a decision to one follower: in the `AcceptDecide` that waits, or in a `Decide`.
  unfoldable pub notify_decided : ℕ → ℕ → SequencePaxos T C S → Option (SequencePaxos T C S)
  unfolding get_latest_accdec_message send_decide
  notify_decided decided_idx pid p = do
    latest ← get_latest_accdec_message pid p
    elim latest [
      | some (i, m, a) ↦ some (replace_accdec i m (record a { decided_idx = decided_idx }) p)
      | none ↦ send_decide decided_idx false pid p
    ]

  -- A majority has accepted up to `decided_idx`.
  unfoldable pub decide_chosen : ℕ → SequencePaxos T C S → Option (SequencePaxos T C S)
  unfolding Internal.set_decided_idx notify_decided Leader.get_promised_followers for_each
  decide_chosen decided_idx p =
      for_each (Leader.get_promised_followers p.leader_state) (notify_decided decided_idx)
        (record p { internal_storage = Internal.set_decided_idx decided_idx p.internal_storage })

  unfoldable pub handle_accepted : Accepted → ℕ → SequencePaxos T C S → Option (SequencePaxos T C S)
  unfolding Leader.set_accepted_idx Leader.is_chosen decide_chosen
  handle_accepted accepted from p =
      if Ballot.eq accepted.n p.leader_state.n_leader
        && (is_leader p.state.0 && is_accept p.state.1)
      then (do
        l ← Leader.set_accepted_idx from accepted.accepted_idx p.leader_state
        let p' : SequencePaxos T C S = record p { leader_state = l }
        (if ltb p.internal_storage.state_cache.decided_idx accepted.accepted_idx
              && Leader.is_chosen accepted.accepted_idx l
            then decide_chosen accepted.accepted_idx p'
            else some p'))
      else some p

  unfoldable pub handle_notaccepted :
      NotAccepted → ℕ → SequencePaxos T C S → Option (SequencePaxos T C S)
  unfolding Leader.lost_promise
  handle_notaccepted not_acc from p =
      if is_leader p.state.0 && Ballot.lt p.leader_state.n_leader not_acc.n
      then (do l ← Leader.lost_promise from p.leader_state; some (record p { leader_state = l }))
      else some p

  -- The stopsign, or the news that it is decided, once more to one follower.
  unfoldable pub resend_stopsign :
      StopSign C → ℕ → SequencePaxos T C S → Option (SequencePaxos T C S)
  unfolding Internal.stopsign_is_decided send_decide send_accept_stopsign Leader.get_accepted_idx
  resend_stopsign ss to p =
      let st = p.internal_storage in
      if Internal.stopsign_is_decided st
      then send_decide st.state_cache.decided_idx true to p
      else (do
        idx ← Leader.get_accepted_idx to p.leader_state
        (if not (idx == st.state_cache.accepted_idx)
            then send_accept_stopsign ss true to p
            else some p))

  unfoldable pub resend_stopsigns :
      Option (StopSign C) → SequencePaxos T C S → Option (SequencePaxos T C S)
  unfolding resend_stopsign Leader.get_promised_followers for_each
  resend_stopsigns none p = some p
  resend_stopsigns (some ss) p =
      for_each (Leader.get_promised_followers p.leader_state) (resend_stopsign ss) p

  unfoldable pub resend_prepares : SequencePaxos T C S → Option (SequencePaxos T C S)
  unfolding Leader.get_preparable_peers send_prepare for_each
  resend_prepares p = do
    preparable_peers ← Leader.get_preparable_peers p.peers p.leader_state
    for_each preparable_peers (λ peer p. some (send_prepare peer p)) p

  unfoldable pub resend_messages_leader : SequencePaxos T C S → Option (SequencePaxos T C S)
  unfolding resend_stopsigns resend_prepares
  resend_messages_leader p = elim p.state.1 [
    | prepare ↦ resend_prepares p
    | accept ↦ resend_stopsigns p.internal_storage.state_cache.stopsign p >>= resend_prepares
    | recover ↦ some p
    | idle ↦ some p
  ]
