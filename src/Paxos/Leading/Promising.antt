-- ===== src/Paxos/Leading/Promising.antt =====
-- The promise that completes a prepare quorum: omnipaxos/src/sequence_paxos/leader.rs.
use omnipaxos.Prelude.{
  ℕ, ◌<◌, ◌≤◌, ◌≡◌, refl, sym, ap, subst, ◌∙◌, inl, inr, true, false, some, List, ◌++◌, All, map,
  length, arith, ◌==◌, if◌then◌else◌, get_elem?, set, length-set, get_elem?-set_self,
  get_elem?-set_ne, count_if, Bool-cases,
}
use omnipaxos.Word.{sub_u64}
use omnipaxos.Ballot
use omnipaxos.Ballot.{Ballot}
use omnipaxos.Quorum.{is_prepare_quorum}
use omnipaxos.Storage.{Snapshot}
use omnipaxos.Storage.Internal.Plain.{IsPlain}
use omnipaxos.Leader
use omnipaxos.Leader.{
  PromiseMetaData, PromiseState, not_promised, promised, promised_higher, LeaderState, is_promised,
  promised_from, pid_to_idx, meta_of,
}
use omnipaxos.Messages.{Promise, AcceptSync}
use omnipaxos.Paxos.{leader, accept, SequencePaxos}
use omnipaxos.Paxos.LeaderRole.Preparing.{handle_promise_prepare}
use omnipaxos.Paxos.Opening.{acc_sync_from}
use omnipaxos.Paxos.Leading.{HasShape, handle_majority_promises_total}

module _ {T C S : Type 0} where
  -- The leader's records after a promise.
  with_promise : Promise T C S → ℕ → LeaderState T C S → LeaderState T C S
  with_promise prom from l = record (Leader.update_max prom from true l) {
    promises_meta = set l.promises_meta (pid_to_idx from) (promised (meta_of prom from));
  }

  update_max_same :
      (prom : Promise T C S) (from : ℕ) (l : LeaderState T C S)
      → let up = Leader.update_max prom from true l in
        (up.n_leader ≡ l.n_leader)
        × (up.follower_seq_nums ≡ l.follower_seq_nums)
        × (up.accepted_indexes ≡ l.accepted_indexes)
        × (up.max_pid ≡ l.max_pid)
        × (up.quorum ≡ l.quorum)
        × (up.promises_meta ≡ l.promises_meta)
        × (IsPlain l.max_promise_sync → IsPlain prom.log_sync → IsPlain up.max_promise_sync)
  unfolding Leader.update_max
  update_max_same prom from l =
      elim (Leader.gt (meta_of prom from) l.max_promise_meta)
        as (λ b.
          let up =
            if b
            then record l { max_promise_meta = meta_of prom from; max_promise_sync = prom.log_sync }
            else l in
          (up.n_leader ≡ l.n_leader)
          × (up.follower_seq_nums ≡ l.follower_seq_nums)
          × (up.accepted_indexes ≡ l.accepted_indexes)
          × (up.max_pid ≡ l.max_pid)
          × (up.quorum ≡ l.quorum)
          × (up.promises_meta ≡ l.promises_meta)
          × (IsPlain l.max_promise_sync → IsPlain prom.log_sync → IsPlain up.max_promise_sync)) [
            | true ↦ (refl, refl, refl, refl, refl, refl, λ old new. new)
            | false ↦ (refl, refl, refl, refl, refl, refl, λ old new. old)
          ]

  with_promise-HasShape :
      (prom : Promise T C S) (from : ℕ) (l : LeaderState T C S)
      → 0 < from
      → from ≤ l.max_pid
      → HasShape l
      → HasShape (with_promise prom from l)
  unfolding with_promise pid_to_idx sub_u64
  with_promise-HasShape prom from l some_pid in_range shape =
      let (_, seq_nums, accepted, max_pid, _, _, _) = update_max_same prom from l in
      let new = promised (meta_of prom from) in
      record {
        promises = length-set l.promises_meta (pid_to_idx from) new ∙ shape.promises ∙ sym max_pid;
        seq_nums = ap length seq_nums ∙ shape.seq_nums ∙ sym max_pid;
        accepted = ap length accepted ∙ shape.accepted ∙ sym max_pid;
        fits = omega (arith, max_pid, shape.fits);
        pids = λ i m e. elim (Bool-cases (pid_to_idx from == i)) [
          | inl at_from ↦
              let set_new =
                get_elem?-set_self l.promises_meta (pid_to_idx from) new
                  (ground (arith, shape.promises, shape.fits, some_pid, in_range)) in
              let at_index : i ≡ pid_to_idx from = ground (arith, at_from) in
              let same : some (promised m) ≡ some new =
                sym e
                ∙ ap (get_elem? (set l.promises_meta (pid_to_idx from) new)) at_index
                ∙ set_new in
              ground (arith, same, at_from, shape.fits, some_pid, in_range)
          | inr apart ↦
              shape.pids i m (
                sym (get_elem?-set_ne l.promises_meta new (λ same. ground (arith, apart, same)))
                ∙ e)
        ];
      }

  set_promise_total :
      (prom : Promise T C S) (from : ℕ) (l : LeaderState T C S)
      → HasShape l
      → 0 < from
      → from ≤ l.max_pid
      → is_prepare_quorum l.quorum (
          count_if is_promised
            (set l.promises_meta (pid_to_idx from) (promised (meta_of prom from))))
        ≡ true
      → Leader.set_promise prom from true l ≡ some (true, with_promise prom from l)
  unfolding Leader.set_promise with_promise pid_to_idx sub_u64
  set_promise_total prom from l shape some_pid in_range quorum =
      let (_, _, _, _, same_quorum, promises, _) = update_max_same prom from l in
      ground (arith, same_quorum, promises, quorum, shape.promises, shape.fits)

module _ {T C S : Type 0} (snap : Snapshot T S) (no_snapshots : snap.use_snapshots ≡ false) where
  -- A promise for the ballot of a leader that makes a prepare quorum takes it to the accept phase:
  -- no step panics, the state becomes (leader, accept), and exactly one AcceptSync of its ballot is
  -- sent to each server whose promise is recorded, itself excepted, in the order of the pids.
  -- Snapshots are not in use, the vectors have an element for each server, and the pids are in range.
  pub handle_promise_prepare_leads :
      (prom : Promise T C S) (from : ℕ) (p : SequencePaxos T C S)
      → HasShape p.leader_state
      → IsPlain p.leader_state.max_promise_sync
      → IsPlain prom.log_sync
      → Ballot.eq prom.n p.leader_state.n_leader ≡ true
      → 0 < from
      → from ≤ p.leader_state.max_pid
      → 0 < p.pid
      → p.pid ≤ p.leader_state.max_pid
      → is_prepare_quorum p.leader_state.quorum (
          count_if is_promised
            (set p.leader_state.promises_meta (pid_to_idx from) (promised (meta_of prom from))))
        ≡ true
      → (q : SequencePaxos T C S) × (sent : List (ℕ × AcceptSync T C S)) × (handle_promise_prepare
            snap prom from p
          ≡ some q)
        × (q.state ≡ (leader, accept))
        × (q.outgoing ≡ p.outgoing ++ map (acc_sync_from p.pid) sent)
        × (map (λ s. s.0) sent
            ≡ promised_from
                (pid_to_idx p.leader_state.n_leader.pid)
                0
                (set p.leader_state.promises_meta (pid_to_idx from) (promised (meta_of prom from))))
        × All (λ s. s.1.n ≡ p.leader_state.n_leader) sent
  unfolding handle_promise_prepare Leader.set_promise Leader.get_promised_followers with_promise
      pid_to_idx sub_u64
  handle_promise_prepare_leads prom from p shape plain plain' same some_pid in_range some_own own
        quorum =
      let l = p.leader_state in
      let (n, _, _, max_pid, same_quorum, promises, stays_plain) = update_max_same prom from l in
      let gives = set_promise_total prom from l shape some_pid in_range quorum in
      let (q, sent, loops, state, out, each, of) =
        handle_majority_promises_total snap no_snapshots
          (record p { leader_state = with_promise prom from l })
          (with_promise-HasShape prom from l some_pid in_range shape) (stays_plain plain plain')
          (ground (arith, max_pid, some_own, own, shape.fits)) in
      (
        q,
        sent,
        ground (arith, same, gives, loops),
        state,
        out,
        each
            ∙ ap
                (λ n.
                  promised_from (pid_to_idx n.pid) 0
                    (set l.promises_meta (pid_to_idx from) (promised (meta_of prom from))))
                n,
        subst (λ n. All (λ s. s.1.n ≡ n) sent) n of,
      )
