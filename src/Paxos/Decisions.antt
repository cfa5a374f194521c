-- ===== src/Paxos/Decisions.antt =====
-- When a leader decides (`handle_accepted`, omnipaxos/src/sequence_paxos/leader.rs).
use omnipaxos.Prelude.{
  ℕ, ◌≡◌, ◌<◌, true, ◌&&◌, some, ◌⊎◌, inl, inr, arith, Bool-cases, Option-cases, ltb, if◌then◌else◌,
}
use omnipaxos.Ballot
use omnipaxos.Ballot.Order.{eq→≡}
use omnipaxos.Storage.Internal
use omnipaxos.Leader
use omnipaxos.Leader.{LeaderState}
use omnipaxos.Messages.{Accepted}
use omnipaxos.Paxos.{SequencePaxos, is_leader, is_accept}
use omnipaxos.Paxos.LeaderRole.Deciding.{handle_accepted, decide_chosen}
use omnipaxos.Paxos.Frame.{decide_chosen-storage}

module _ {T C S : Type 0} where
  -- An acceptance that is let through: a leader in its accept phase, of its own round.
  abbrev pub IsOwnRound : Accepted → SequencePaxos T C S → Type 0
  IsOwnRound acc p =
      (acc.n ≡ p.leader_state.n_leader)
      × (is_leader p.state.0 ≡ true)
      × (is_accept p.state.1 ≡ true)

  -- The leader has recorded the acceptance, and by its records a quorum has accepted up to there.
  abbrev pub IsQuorumAt : Accepted → ℕ → SequencePaxos T C S → Type 0
  IsQuorumAt acc from p =
      (l : LeaderState T C S) × (Leader.set_accepted_idx from acc.accepted_idx p.leader_state
        ≡ some l)
      × (Leader.is_chosen acc.accepted_idx l ≡ true)

  -- The decision of `acc.accepted_idx`, from `p` to `q`.
  abbrev pub Decides : Accepted → ℕ → SequencePaxos T C S → SequencePaxos T C S → Type 0
  Decides acc from p q =
      IsOwnRound acc p
      × IsQuorumAt acc from p
      × (p.internal_storage.state_cache.decided_idx < acc.accepted_idx)
      × (q.internal_storage ≡ Internal.set_decided_idx acc.accepted_idx p.internal_storage)

  own_round :
      (acc : Accepted) (p : SequencePaxos T C S)
      → Ballot.eq acc.n p.leader_state.n_leader && (is_leader p.state.0 && is_accept p.state.1)
        ≡ true
      → IsOwnRound acc p
  own_round acc p h =
      (eq→≡ acc.n p.leader_state.n_leader (ground arith), ground arith, ground arith)

  -- `handle_accepted` once the acceptance is recorded.
  Decides-if_chosen :
      (acc : Accepted) (from : ℕ) (p q : SequencePaxos T C S) (l : LeaderState T C S)
      → IsOwnRound acc p
      → Leader.set_accepted_idx from acc.accepted_idx p.leader_state ≡ some l
      → (if ltb p.internal_storage.state_cache.decided_idx acc.accepted_idx
            && Leader.is_chosen acc.accepted_idx l
          then decide_chosen acc.accepted_idx (record p { leader_state = l })
          else some (record p { leader_state = l }))
        ≡ some q
      → (q.internal_storage ≡ p.internal_storage) ⊎ Decides acc from p q
  Decides-if_chosen acc from p q l own set e =
      elim (Bool-cases (
        ltb p.internal_storage.state_cache.decided_idx acc.accepted_idx
        && Leader.is_chosen acc.accepted_idx l)) [
          | inr early ↦ inl (ground arith)
          | inl chosen ↦
              let decided : decide_chosen acc.accepted_idx (record p { leader_state = l })
                  ≡ some q =
                ground arith in
              inr (
                own,
                (l, set, ground arith),
                ground arith,
                decide_chosen-storage acc.accepted_idx (record p { leader_state = l }) q decided,
              )
        ]

  -- A leader's storage changes by an `Accepted` only if that belongs to its own round, in the accept
  -- phase, and completes a quorum of acceptances of the index it carries, which is beyond what was
  -- decided; then exactly the decided index changes, to that index.
  pub handle_accepted-Decides :
      (acc : Accepted) (from : ℕ) (p q : SequencePaxos T C S)
      → handle_accepted acc from p ≡ some q
      → (q.internal_storage ≡ p.internal_storage) ⊎ Decides acc from p q
  unfolding handle_accepted
  handle_accepted-Decides acc from p q e =
      elim (Bool-cases
        (Ballot.eq acc.n p.leader_state.n_leader && (is_leader p.state.0 && is_accept p.state.1))) [
          | inr other ↦ inl (ground arith)
          | inl own ↦
              (elim (Option-cases (Leader.set_accepted_idx from acc.accepted_idx p.leader_state)) [
                | inl panicked ↦ absurd (ground arith)
                | inr (l, set) ↦
                    Decides-if_chosen acc from p q l (own_round acc p own) set (ground arith)
              ])
        ]
