-- ===== src/Coded/Replica.antt =====
-- What a replica offers, and the dispatch of its messages: omnipaxos/src/sequence_paxos_ec/mod.rs.
use omnipaxos.Prelude.{ℕ, Bool, Option, some, List, [], ◌∷◌, ◌++◌, if◌then◌else◌, ◌>>=◌}
use omnipaxos.Storage.{StopSign, Snapshot, StorageResult}
use omnipaxos.Storage.Memory.{MemoryStorage}
use omnipaxos.Messages.{Promise, Compaction, PaxosMsg, PaxosMessage}
use omnipaxos.Paxos.{
  leader, follower, prepare, accept, recover, idle, SequencePaxos, is_accept,
  accepted_reconfiguration,
}
use omnipaxos.Paxos.Replica
use omnipaxos.Paxos.Replica.{SequencePaxosConfig, ProposeErr}
use omnipaxos.Erasure.{ReedSolomon, EcService}
use omnipaxos.Erasure.Entry.{EcEntry}
use omnipaxos.Coded.{SequencePaxosEc, forward_proposals}
use omnipaxos.Coded.Follower.{
  handle_prepare, handle_acceptsync, handle_acceptdecide, handle_accept_stopsign, handle_decide,
  resend_messages_follower, flush_batch_follower,
}
use omnipaxos.Coded.Leader.{accept_entry_leader, flush_batch_leader}
use omnipaxos.Coded.Leader.Same.{
  handle_preparereq, handle_accepted, handle_notaccepted, resend_messages_leader,
}
use omnipaxos.Coded.Leader.Preparing.{handle_promise_prepare, handle_promise_accept}
use omnipaxos.Coded.Leader.Stopping.{
  handle_forwarded_proposal, handle_forwarded_stopsign, propose_stopsign,
}

-- `plain` has the fields that `SequencePaxosConfig` has too.
pub record SequencePaxosConfigEc (R : Type 0) : Type 0 where
  pub plain : SequencePaxosConfig
  pub erasure_coding_service : EcService R

-- A proposal that is taken, or is given back.
pub data Proposal (T C S R : Type 0) : Type 0 where
  taken : SequencePaxosEc T C S R → Proposal T C S R
  refused : ProposeErr T C → Proposal T C S R

module _ {T C S R : Type 0} where
  -- `SequencePaxosEC::with`.
  unfoldable pub with_config_and_storage :
      SequencePaxosConfigEc R → MemoryStorage T C S → Option (SequencePaxosEc T C S R)
  unfolding Replica.with_config_and_storage
  with_config_and_storage config storage = do
    q ← Replica.with_config_and_storage config.plain storage
    some (record { plain = q; ec_service = config.erasure_coding_service })

  unfoldable pub trim :
      Option ℕ
      → SequencePaxosEc T C S R
      → Option (StorageResult (Unit {0}) × SequencePaxosEc T C S R)
  unfolding Replica.trim
  trim trim_idx p = do
    trimmed ← Replica.trim trim_idx p.plain
    some (trimmed.0, record p { plain = trimmed.1 })

  unfoldable pub take_outgoing_msgs :
      List (PaxosMessage T C S)
      → SequencePaxosEc T C S R
      → List (PaxosMessage T C S) × SequencePaxosEc T C S R
  unfolding Replica.take_outgoing_msgs
  take_outgoing_msgs buffer p =
      let (msgs, q) = Replica.take_outgoing_msgs buffer p.plain in (msgs, record p { plain = q })

  unfoldable pub is_reconfigured : SequencePaxosEc T C S R → Option (StopSign C)
  unfolding Replica.is_reconfigured
  is_reconfigured p = Replica.is_reconfigured p.plain

  unfoldable pub resend_message_timeout : SequencePaxosEc T C S R → Option (SequencePaxosEc T C S R)
  unfolding resend_messages_leader resend_messages_follower
  resend_message_timeout p = elim p.plain.state.0 [
    | leader ↦ resend_messages_leader p
    | follower ↦ some (resend_messages_follower p)
  ]

module _ {T C S R E : Type 0} (lib : ReedSolomon R E) (entries : EcEntry T) where
  unfoldable pub propose_entry : T → SequencePaxosEc T C S R → Option (SequencePaxosEc T C S R)
  unfolding accept_entry_leader forward_proposals
  propose_entry entry p =
      let plain = p.plain in
      let q : SequencePaxos T C S = record plain {
        buffered_proposals = plain.buffered_proposals ++ entry ∷ [];
      } in
      elim plain.state.0 [
        | leader ↦ (elim plain.state.1 [
          | prepare ↦ some (record p { plain = q })
          | accept ↦ accept_entry_leader lib entries entry p
          | recover ↦ some (forward_proposals (entry ∷ []) p)
          | idle ↦ some (forward_proposals (entry ∷ []) p)
        ])
        | follower ↦ some (forward_proposals (entry ∷ []) p)
      ]

  unfoldable pub append : T → SequencePaxosEc T C S R → Option (Proposal T C S R)
  unfolding propose_entry
  append entry p =
      if accepted_reconfiguration p.plain
      then some (refused (ProposeErr.pending_reconfig_entry entry))
      else (do p' ← propose_entry entry p; some (taken p'))

  unfoldable pub flush_batch_timeout : SequencePaxosEc T C S R → Option (SequencePaxosEc T C S R)
  unfolding flush_batch_leader flush_batch_follower
  flush_batch_timeout p =
      if is_accept p.plain.state.1
      then (elim p.plain.state.0 [
        | leader ↦ flush_batch_leader lib entries p
        | follower ↦ flush_batch_follower p
      ])
      else some p

module _ {T C S R : Type 0} (snap : Snapshot T S) where
  unfoldable pub snapshot :
      Option ℕ → Bool → SequencePaxosEc T C S R → StorageResult (Unit {0}) × SequencePaxosEc T C S R
  unfolding Replica.snapshot
  snapshot idx local_only p =
      let (result, q) = Replica.snapshot snap idx local_only p.plain in
      (result, record p { plain = q })

  unfoldable pub handle_compaction : Compaction → SequencePaxosEc T C S R → SequencePaxosEc T C S R
  unfolding Replica.handle_compaction
  handle_compaction c p = record p { plain = Replica.handle_compaction snap c p.plain }

module _ {T C S R E : Type 0} (lib : ReedSolomon R E) (entries : EcEntry T)
    (snap : Snapshot T S) where
  -- A promise is handled by the phase that the leader is in.
  unfoldable pub handle_promise :
      Promise T C S → ℕ → SequencePaxosEc T C S R → Option (SequencePaxosEc T C S R)
  unfolding handle_promise_prepare handle_promise_accept
  handle_promise prom from p = elim p.plain.state.0 [
    | leader ↦ (elim p.plain.state.1 [
      | prepare ↦ handle_promise_prepare lib entries snap prom from p
      | accept ↦ handle_promise_accept lib entries snap prom from p
      | recover ↦ some p
      | idle ↦ some p
    ])
    | follower ↦ some p
  ]

module _ {T C S R E : Type 0} (lib : ReedSolomon R E) (entries : EcEntry T)
    (serialize : StopSign C → Option (List ℕ)) where
  unfoldable pub reconfigure :
      C → Option (List ℕ) → SequencePaxosEc T C S R → Option (Proposal T C S R)
  unfolding propose_stopsign
  reconfigure new_config metadata p =
      if accepted_reconfiguration p.plain
      then some (refused (ProposeErr.pending_reconfig_config new_config metadata))
      else (do
        p' ←
            propose_stopsign lib entries serialize
              (record { next_config = new_config; metadata = metadata }) p
        some (taken p'))

  module _ (snap : Snapshot T S) where
    unfoldable pub handle_msg :
        PaxosMsg T C S → ℕ → SequencePaxosEc T C S R → Option (SequencePaxosEc T C S R)
    unfolding handle_preparereq handle_prepare handle_promise handle_acceptsync handle_acceptdecide
        handle_notaccepted handle_accepted handle_decide handle_forwarded_proposal handle_compaction
        handle_accept_stopsign handle_forwarded_stopsign
    handle_msg (PaxosMsg.prepare_req prepreq) from p = handle_preparereq prepreq from p
    handle_msg (PaxosMsg.prepare prep) from p = handle_prepare snap prep from p
    handle_msg (PaxosMsg.promise prom) from p = handle_promise lib entries snap prom from p
    handle_msg (PaxosMsg.accept_sync acc_sync) from p = handle_acceptsync snap acc_sync from p
    handle_msg (PaxosMsg.accept_decide acc) from p = handle_acceptdecide acc p
    handle_msg (PaxosMsg.not_accepted not_acc) from p = handle_notaccepted not_acc from p
    handle_msg (PaxosMsg.accepted acc) from p = handle_accepted acc from p
    handle_msg (PaxosMsg.decide d) from p = handle_decide d p
    handle_msg (PaxosMsg.proposal_forward proposals) from p =
        handle_forwarded_proposal lib entries proposals p
    handle_msg (PaxosMsg.compaction c) from p = some (handle_compaction snap c p)
    handle_msg (PaxosMsg.accept_stop_sign acc_ss) from p = handle_accept_stopsign acc_ss p
    handle_msg (PaxosMsg.forward_stop_sign f_ss) from p =
        handle_forwarded_stopsign lib entries serialize f_ss p

    unfoldable pub handle :
        PaxosMessage T C S → SequencePaxosEc T C S R → Option (SequencePaxosEc T C S R)
    unfolding handle_msg
    handle m p = handle_msg m.msg m.from p
