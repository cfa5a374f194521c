-- ===== src/Paxos/Replica.antt =====
-- What a replica offers, and the dispatch of its messages: omnipaxos/src/sequence_paxos/mod.rs.
use omnipaxos.Prelude.{
  ℕ, ◌+◌, Bool, true, not, Option, none, some, List, [], ◌∷◌, ◌++◌, max, length, is_empty, leb,
  if◌then◌else◌, ◌>>=◌,
}
use omnipaxos.Quorum.{FlexibleQuorum, with_config}
use omnipaxos.Sequence
use omnipaxos.Storage.{StopSign, Snapshot, CompactionErr, StorageResult, ok, err}
use omnipaxos.Storage.Memory.{MemoryStorage}
use omnipaxos.Storage.Internal
use omnipaxos.Storage.Internal.Compaction.{try_trim, try_snapshot}
use omnipaxos.Leader
use omnipaxos.Messages.{Promise, Compaction, PaxosMsg, PaxosMessage}
use omnipaxos.Paxos.{
  Role, follower, leader, Phase, prepare, accept, recover, idle, SequencePaxos, is_leader,
  is_accept, get_current_leader, accepted_reconfiguration, push_all, forward_proposals,
}
use omnipaxos.Paxos.FollowerRole.{
  handle_acceptdecide, handle_accept_stopsign, handle_decide, resend_messages_follower,
  flush_batch_follower,
}
use omnipaxos.Paxos.FollowerRole.Preparing.{handle_prepare, handle_acceptsync}
use omnipaxos.Paxos.LeaderRole.{
  handle_preparereq, handle_forwarded_proposal, handle_forwarded_stopsign, propose_stopsign,
  accept_entry_leader, flush_batch_leader,
}
use omnipaxos.Paxos.LeaderRole.Preparing.{handle_promise_prepare, handle_promise_accept}
use omnipaxos.Paxos.LeaderRole.Deciding.{
  handle_accepted, handle_notaccepted, resend_messages_leader,
}

-- The fields of `SequencePaxosConfig` that the protocol uses; the quorum comes from the peers.
pub record SequencePaxosConfig : Type 0 where
  pub pid : ℕ
  pub peers : List ℕ
  pub batch_size : ℕ
  pub flexible_quorum : Option FlexibleQuorum

abbrev pub max_of : List ℕ → Option ℕ
max_of [] = none
max_of (x ∷ xs) = elim (max_of xs) [ none ↦ some x | some m ↦ some (max x m) ]

-- `ProposeErr`, but for the invalid configurations, which are refused before this component.
pub data ProposeErr (T C : Type 0) : Type 0 where
  pending_reconfig_entry : T → ProposeErr T C
  pending_reconfig_config : C → Option (List ℕ) → ProposeErr T C

-- A proposal that is taken, or is given back.
pub data Proposal (T C S : Type 0) : Type 0 where
  taken : SequencePaxos T C S → Proposal T C S
  refused : ProposeErr T C → Proposal T C S

-- The index that a leader trims to.
abbrev pub trimmed_idx_of : Option ℕ → ℕ → StorageResult ℕ
trimmed_idx_of none min_idx = ok min_idx
trimmed_idx_of (some idx) min_idx =
    if leb idx min_idx then ok idx else err (CompactionErr.not_all_decided min_idx)

module _ {T C S : Type 0} where
  -- `SequencePaxos::with`: a server that has promised before recovers from its peers.
  unfoldable pub with_config_and_storage :
      SequencePaxosConfig → MemoryStorage T C S → Option (SequencePaxos T C S)
  unfolding with_config Internal.with_storage Internal.set_promise Leader.with_leader push_all
  with_config_and_storage config storage = do
    max_peer_pid ← max_of config.peers
    let quorum = with_config config.flexible_quorum (length config.peers + 1)
    let max_pid = max max_peer_pid config.pid
    let promised = Internal.or_default storage.n_prom
    let state : Role × Phase = elim storage.n_prom [
      | some b ↦ (follower, recover)
      | none ↦ (follower, idle)
    ]
    let asked : List ℕ = elim storage.n_prom [ some b ↦ config.peers | none ↦ [] ]
    some (
        push_all asked (PaxosMsg.prepare_req (record { n = promised })) (record {
          internal_storage =
              Internal.set_promise promised (Internal.with_storage storage config.batch_size);
          pid = config.pid;
          peers = config.peers;
          state = state;
          buffered_proposals = [];
          buffered_stopsign = none;
          outgoing = [];
          leader_state = Leader.with_leader promised max_pid quorum;
          latest_accepted_meta = none;
          current_seq_num = Sequence.default;
          cached_promise_message = none;
        }))

  unfoldable pub trim_leader :
      ℕ → SequencePaxos T C S → StorageResult (Unit {0}) × SequencePaxos T C S
  unfolding try_trim push_all
  trim_leader idx p = elim (try_trim idx p.internal_storage) [
    | ok st ↦ (
      ok tt,
      push_all p.peers (PaxosMsg.compaction (Compaction.trim idx))
          (record p { internal_storage = st }),
    )
    | err e ↦ (err e, p)
  ]

  unfoldable pub trim :
      Option ℕ → SequencePaxos T C S → Option (StorageResult (Unit {0}) × SequencePaxos T C S)
  unfolding Leader.get_min_all_accepted_idx trim_leader
  trim trim_idx p =
      if is_leader p.state.0
      then (do
        min_idx ← Leader.get_min_all_accepted_idx p.leader_state
        some (elim (trimmed_idx_of trim_idx min_idx) [
          | ok idx ↦ trim_leader idx p
          | err e ↦ (err e, p)
        ]))
      else some (err (CompactionErr.not_current_leader (get_current_leader p)), p)

  -- Moves the messages to the user's buffer, which is the first part of the result.
  unfoldable pub take_outgoing_msgs :
      List (PaxosMessage T C S)
      → SequencePaxos T C S
      → List (PaxosMessage T C S) × SequencePaxos T C S
  unfolding Leader.reset_latest_accept_meta
  take_outgoing_msgs buffer p = (
    if is_empty buffer then p.outgoing else buffer ++ p.outgoing,
    record p {
      outgoing = [];
      leader_state = Leader.reset_latest_accept_meta p.leader_state;
      latest_accepted_meta = none;
    },
  )

  unfoldable pub is_reconfigured : SequencePaxos T C S → Option (StopSign C)
  unfolding Internal.stopsign_is_decided
  is_reconfigured p =
      if Internal.stopsign_is_decided p.internal_storage
      then p.internal_storage.state_cache.stopsign
      else none

  unfoldable pub propose_entry : T → SequencePaxos T C S → Option (SequencePaxos T C S)
  unfolding accept_entry_leader forward_proposals
  propose_entry entry p = elim p.state.0 [
    | leader ↦ (elim p.state.1 [
      | prepare ↦ some (record p { buffered_proposals = p.buffered_proposals ++ entry ∷ [] })
      | accept ↦ accept_entry_leader entry p
      | recover ↦ some (forward_proposals (entry ∷ []) p)
      | idle ↦ some (forward_proposals (entry ∷ []) p)
    ])
    | follower ↦ some (forward_proposals (entry ∷ []) p)
  ]

  unfoldable pub append : T → SequencePaxos T C S → Option (Proposal T C S)
  unfolding propose_entry
  append entry p =
      if accepted_reconfiguration p
      then some (refused (ProposeErr.pending_reconfig_entry entry))
      else (do p' ← propose_entry entry p; some (taken p'))

  unfoldable pub reconfigure : C → Option (List ℕ) → SequencePaxos T C S → Option (Proposal T C S)
  unfolding propose_stopsign
  reconfigure new_config metadata p =
      if accepted_reconfiguration p
      then some (refused (ProposeErr.pending_reconfig_config new_config metadata))
      else (do
        p' ← propose_stopsign (record { next_config = new_config; metadata = metadata }) p
        some (taken p'))

  unfoldable pub resend_message_timeout : SequencePaxos T C S → Option (SequencePaxos T C S)
  unfolding resend_messages_leader resend_messages_follower
  resend_message_timeout p = elim p.state.0 [
    | leader ↦ resend_messages_leader p
    | follower ↦ some (resend_messages_follower p)
  ]

  unfoldable pub flush_batch_timeout : SequencePaxos T C S → Option (SequencePaxos T C S)
  unfolding flush_batch_leader flush_batch_follower
  flush_batch_timeout p =
      if is_accept p.state.1
      then (elim p.state.0 [ leader ↦ flush_batch_leader p | follower ↦ flush_batch_follower p ])
      else some p

module _ {T C S : Type 0} (snap : Snapshot T S) where
  unfoldable pub snapshot :
      Option ℕ → Bool → SequencePaxos T C S → StorageResult (Unit {0}) × SequencePaxos T C S
  unfolding try_snapshot push_all
  snapshot idx local_only p = elim (try_snapshot snap idx p.internal_storage) [
    | ok st ↦
        let p' : SequencePaxos T C S = record p { internal_storage = st } in
        (
          ok tt,
          if not local_only
              then push_all p.peers (PaxosMsg.compaction (Compaction.snapshot idx)) p'
              else p',
        )
    | err e ↦ (err e, p)
  ]

  -- Errors are ignored.
  unfoldable pub handle_compaction : Compaction → SequencePaxos T C S → SequencePaxos T C S
  unfolding try_trim snapshot
  handle_compaction (Compaction.trim idx) p = elim (try_trim idx p.internal_storage) [
    | ok st ↦ record p { internal_storage = st }
    | err e ↦ p
  ]
  handle_compaction (Compaction.snapshot idx) p = (snapshot idx true p).1

  -- A promise is handled by the phase that the leader is in.
  unfoldable pub handle_promise :
      Promise T C S → ℕ → SequencePaxos T C S → Option (SequencePaxos T C S)
  unfolding handle_promise_prepare handle_promise_accept
  handle_promise prom from p = elim p.state.0 [
    | leader ↦ (elim p.state.1 [
      | prepare ↦ handle_promise_prepare snap prom from p
      | accept ↦ handle_promise_accept snap prom from p
      | recover ↦ some p
      | idle ↦ some p
    ])
    | follower ↦ some p
  ]

  unfoldable pub handle_msg :
      PaxosMsg T C S → ℕ → SequencePaxos T C S → Option (SequencePaxos T C S)
  unfolding handle_preparereq handle_prepare handle_promise handle_acceptsync handle_acceptdecide
      handle_notaccepted handle_accepted handle_decide handle_forwarded_proposal handle_compaction
      handle_accept_stopsign handle_forwarded_stopsign
  handle_msg (PaxosMsg.prepare_req prepreq) from p = handle_preparereq prepreq from p
  handle_msg (PaxosMsg.prepare prep) from p = handle_prepare snap prep from p
  handle_msg (PaxosMsg.promise prom) from p = handle_promise prom from p
  handle_msg (PaxosMsg.accept_sync acc_sync) from p = handle_acceptsync snap acc_sync from p
  handle_msg (PaxosMsg.accept_decide acc) from p = handle_acceptdecide acc p
  handle_msg (PaxosMsg.not_accepted not_acc) from p = handle_notaccepted not_acc from p
  handle_msg (PaxosMsg.accepted acc) from p = handle_accepted acc from p
  handle_msg (PaxosMsg.decide d) from p = handle_decide d p
  handle_msg (PaxosMsg.proposal_forward proposals) from p = handle_forwarded_proposal proposals p
  handle_msg (PaxosMsg.compaction c) from p = some (handle_compaction c p)
  handle_msg (PaxosMsg.accept_stop_sign acc_ss) from p = handle_accept_stopsign acc_ss p
  handle_msg (PaxosMsg.forward_stop_sign f_ss) from p = handle_forwarded_stopsign f_ss p

  -- `SequencePaxos::handle`.
  unfoldable pub handle : PaxosMessage T C S → SequencePaxos T C S → Option (SequencePaxos T C S)
  unfolding handle_msg
  handle m p = handle_msg m.msg m.from p
