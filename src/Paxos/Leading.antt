-- ===== src/Paxos/Leading.antt =====
-- The end of the prepare phase where snapshots are not in use: omnipaxos/src/sequence_paxos/leader.rs.
pub mod Promising
use omnipaxos.Prelude.{
  ℕ, zero, suc, ◌+◌, ◌-◌, ◌^◌, ◌<◌, ◌≤◌, ◌≡◌, refl, sym, ap, subst, ◌∙◌, inl, inr, Bool, true,
  false, not, ◌&&◌, Option, none, some, List, [], ◌∷◌, ◌++◌, All, map, length, arith, ◌==◌,
  if◌then◌else◌, ◌>>=◌, get_elem?, get_elem?_total, set, write?, length-set, get_elem?-set_self,
  get_elem?-set_ne, count_if, append-nil, append_assoc, Bool-cases, Option-cases,
}
use omnipaxos.Word.{sub_u64, inc_u64}
use omnipaxos.Ballot
use omnipaxos.Ballot.{Ballot}
use omnipaxos.Quorum.{is_prepare_quorum}
use omnipaxos.Storage.{Snapshot, LogSync}
use omnipaxos.Storage.Internal.{InternalStorage}
use omnipaxos.Storage.Internal.Compaction.{sync_log}
use omnipaxos.Storage.Internal.Plain.{IsPlain, sync_log_total}
use omnipaxos.Storage.Memory
use omnipaxos.Sequence.{SequenceNumber}
use omnipaxos.Leader
use omnipaxos.Leader.{
  PromiseMetaData, PromiseState, not_promised, promised, promised_higher, LeaderState, is_promised,
  promised_from, pid_to_idx, meta_of,
}
use omnipaxos.Messages.{Promise, AcceptSync, PaxosMsg, PaxosMessage}
use omnipaxos.Paxos.{
  leader, accept, SequencePaxos, for_each, push, create_log_sync, accepted_reconfiguration,
}
use omnipaxos.Paxos.LeaderRole.Preparing.{
  append_buffered_proposals, append_buffered_stopsign, valid_entries_idx, send_accsync,
  handle_majority_promises, handle_promise_prepare,
}
use omnipaxos.Paxos.Opening.{acc_sync_from, sends_total, promised_from-IsReady}

-- The vectors of a leader have an element for each server, and a promise stands at the index of its
-- server.
pub record HasShape {T C S : Type 0} (l : LeaderState T C S) : Type 0 where
  pub promises : length l.promises_meta ≡ l.max_pid
  pub seq_nums : length l.follower_seq_nums ≡ l.max_pid
  pub accepted : length l.accepted_indexes ≡ l.max_pid
  pub fits : l.max_pid < 2 ^ 64
  pub pids :
      (i : ℕ) (m : PromiseMetaData)
      → get_elem? l.promises_meta i ≡ some (promised m)
      → m.pid ≡ i + 1

module _ {T C S : Type 0} (snap : Snapshot T S) (no_snapshots : snap.use_snapshots ≡ false) where
  -- What becomes of the state and of the messages when a leader has enough promises.
  abbrev pub Leads : SequencePaxos T C S → LeaderState T C S → Option (SequencePaxos T C S) → Type 0
  Leads p l result =
      (q : SequencePaxos T C S) × (sent : List (ℕ × AcceptSync T C S)) × (result ≡ some q)
      × (q.state ≡ (leader, accept))
      × (q.outgoing ≡ p.outgoing ++ map (acc_sync_from p.pid) sent)
      × (map (λ s. s.0) sent ≡ Leader.get_promised_followers l)
      × All (λ s. s.1.n ≡ l.n_leader) sent

  -- What was buffered is appended, with no change of the leader's records and of the messages.
  buffered_same :
      (p : SequencePaxos T C S)
      → let proposed = append_buffered_proposals p in
        let q =
          if not (accepted_reconfiguration p)
          then append_buffered_stopsign proposed.buffered_stopsign proposed
          else p in
        (q.leader_state ≡ p.leader_state) × (q.pid ≡ p.pid) × (q.outgoing ≡ p.outgoing)
  unfolding append_buffered_proposals append_buffered_stopsign
  buffered_same p = (ground arith, ground arith, ground arith)

  sends_from_total :
      (p : SequencePaxos T C S)
      → HasShape p.leader_state
      → pid_to_idx p.pid < p.leader_state.max_pid
      → Leads p p.leader_state (
          Leader.set_accepted_idx p.pid p.internal_storage.state_cache.accepted_idx p.leader_state
          >>= λ l.
              for_each
                (Leader.get_promised_followers l)
                (send_accsync snap)
                (record p { state = (leader, accept); leader_state = l }))
  unfolding Leader.set_accepted_idx Leader.get_promised_followers
  sends_from_total p shape own =
      let l = p.leader_state in
      let accepted =
        set l.accepted_indexes (pid_to_idx p.pid) p.internal_storage.state_cache.accepted_idx in
      let l' : LeaderState T C S = record l { accepted_indexes = accepted } in
      let tos = promised_from (pid_to_idx l.n_leader.pid) 0 l.promises_meta in
      let all_ready =
        promised_from-IsReady l.promises_meta (length l.follower_seq_nums)
          (pid_to_idx l.n_leader.pid) 0 l.promises_meta shape.pids
          (omega (arith, shape.promises, shape.seq_nums))
          (omega (arith, shape.seq_nums, shape.fits))
          (λ i s e. subst (λ k. get_elem? l.promises_meta k ≡ some s) (omega arith) e) in
      let (q, sent, loops, state, out, each, of) =
        sends_total snap no_snapshots tos (record p { state = (leader, accept); leader_state = l' })
          all_ready in
      (q, sent, ground (arith, own, shape.accepted, loops), state, out, each, of)

  pub handle_majority_promises_total :
      (p : SequencePaxos T C S)
      → HasShape p.leader_state
      → IsPlain p.leader_state.max_promise_sync
      → pid_to_idx p.pid < p.leader_state.max_pid
      → Leads p p.leader_state (handle_majority_promises snap p)
  unfolding handle_majority_promises Leader.take_max_promise_sync Leader.set_accepted_idx
      Leader.get_promised_followers append_buffered_proposals append_buffered_stopsign
  handle_majority_promises_total p shape plain own =
      let l : LeaderState T C S = record (p.leader_state) { max_promise_sync = none } in
      let (synced, syncs) =
        sync_log_total snap l.n_leader (Leader.get_max_decided_idx l)
          p.leader_state.max_promise_sync p.internal_storage plain in
      let p' : SequencePaxos T C S = record p { internal_storage = synced.1; leader_state = l } in
      let proposed = append_buffered_proposals p' in
      let p'' : SequencePaxos T C S =
        if not (accepted_reconfiguration p')
        then append_buffered_stopsign proposed.buffered_stopsign proposed
        else p' in
      let (records, pid, out) = buffered_same p' in
      let shape' : HasShape l = record {
        promises = shape.promises;
        seq_nums = shape.seq_nums;
        accepted = shape.accepted;
        fits = shape.fits;
        pids = shape.pids;
      } in
      let (q, sent, loops, state, out', each, of) =
        sends_from_total p'' (subst HasShape (sym records) shape')
          (omega (arith, ap pid_to_idx pid, ap (λ l. l.max_pid) records, own)) in
      (
        q,
        sent,
        ground (arith, syncs, loops),
        state,
        out'
            ∙ ap (λ k. p''.outgoing ++ map (acc_sync_from k) sent) pid
            ∙ ap (λ o. o ++ map (acc_sync_from p.pid) sent) out,
        each ∙ ap Leader.get_promised_followers records,
        subst (λ l. All (λ s. s.1.n ≡ l.n_leader) sent) records of,
      )
