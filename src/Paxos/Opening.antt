-- ===== src/Paxos/Opening.antt =====
-- The messages by which a leader opens its accept phase, where snapshots are not in use:
-- omnipaxos/src/sequence_paxos/leader.rs.
use omnipaxos.Prelude.{
  ℕ, suc, ◌+◌, ◌^◌, ◌<◌, ◌≤◌, ◌≡◌, refl, sym, ap, subst, ◌∙◌, Bool, true, false, not, ◌&&◌, none,
  some, List, [], ◌∷◌, ◌++◌, All, map, length, arith, ◌==◌, if◌then◌else◌, ◌>>=◌, get_elem?,
  get_elem?_total, set, length-set, get_elem?-set_self, append-nil, append_assoc,
}
use omnipaxos.Word.{sub_u64, inc_u64}
use omnipaxos.Storage.{Snapshot, LogSync}
use omnipaxos.Storage.Memory
use omnipaxos.Sequence.{SequenceNumber}
use omnipaxos.Leader
use omnipaxos.Leader.{
  PromiseMetaData, PromiseState, not_promised, promised, promised_higher, LeaderState, is_promised,
  promised_from, pid_to_idx, meta_of,
}
use omnipaxos.Messages.{AcceptSync, PaxosMsg, PaxosMessage}
use omnipaxos.Paxos.{SequencePaxos, for_each, push, create_log_sync}
use omnipaxos.Paxos.LeaderRole.Preparing.{valid_entries_idx, send_accsync}

-- A server whose promise is recorded, and whose messages are numbered.
abbrev pub IsReady : List PromiseState → ℕ → ℕ → Type 0
IsReady promises numbered to =
    (m : PromiseMetaData) × (get_elem? promises (pid_to_idx to) ≡ some (promised m))
    × (m.pid ≡ to)
    × (pid_to_idx to < numbered)

pid_to_idx_lem : (i : ℕ) → i + 1 < 2 ^ 64 → pid_to_idx (i + 1) ≡ i
unfolding pid_to_idx sub_u64
pid_to_idx_lem i h = ground arith

module _ {T C S : Type 0} where
  -- A message `AcceptSync` to a server.
  abbrev pub acc_sync_from : ℕ → ℕ × AcceptSync T C S → PaxosMessage T C S
  acc_sync_from pid s = record { from = pid; to = s.0; msg = PaxosMsg.accept_sync s.1 }

module _ {T C S : Type 0} (snap : Snapshot T S) (no_snapshots : snap.use_snapshots ≡ false) where
  create_log_sync_total :
      (idx other : ℕ) (p : SequencePaxos T C S)
      → (sync : LogSync T C S) × (create_log_sync snap idx other p ≡ some sync)
  unfolding create_log_sync
  create_log_sync_total idx other p = (
    record {
      decided_snapshot = none;
      suffix = Memory.get_suffix idx p.internal_storage.storage;
      sync_idx = idx;
      stopsign = p.internal_storage.state_cache.stopsign;
    },
    ground (arith, no_snapshots),
  )

  send_accsync_total :
      (to : ℕ) (p : SequencePaxos T C S)
      → IsReady p.leader_state.promises_meta (length p.leader_state.follower_seq_nums) to
      → (q : SequencePaxos T C S) × (a : AcceptSync T C S) × (send_accsync snap to p ≡ some q)
        × (q.outgoing ≡ p.outgoing ++ acc_sync_from p.pid (to, a) ∷ [])
        × (a.n ≡ p.leader_state.n_leader)
        × (q.pid ≡ p.pid)
        × (q.state ≡ p.state)
        × (q.leader_state.n_leader ≡ p.leader_state.n_leader)
        × (q.leader_state.promises_meta ≡ p.leader_state.promises_meta)
        × (length q.leader_state.follower_seq_nums ≡ length p.leader_state.follower_seq_nums)
  unfolding send_accsync Leader.get_promise_meta Leader.get_decided_idx
      Leader.increment_seq_num_session Leader.next_seq_num
  send_accsync_total to p (m, found, same, numbered) =
      let l = p.leader_state in
      let idx = pid_to_idx to in
      let (first, at_first) = get_elem?_total l.follower_seq_nums idx numbered in
      let second : SequenceNumber = record { session = inc_u64 first.session; counter = 0 } in
      let third : SequenceNumber = record second { counter = inc_u64 0 } in
      let nums = set l.follower_seq_nums idx second in
      let at_second = get_elem?-set_self l.follower_seq_nums idx second numbered in
      let common = valid_entries_idx l.n_leader l.max_promise_meta m m.decided_idx in
      let (sync, syncs) = create_log_sync_total common m.decided_idx p in
      let found' : get_elem? l.promises_meta (pid_to_idx m.pid) ≡ some (promised m) =
        ap (λ i. get_elem? l.promises_meta (pid_to_idx i)) same ∙ found in
      let a : AcceptSync T C S = record {
        n = l.n_leader;
        seq_num = third;
        decided_idx = p.internal_storage.state_cache.decided_idx;
        log_sync = sync;
      } in
      (
        push to (PaxosMsg.accept_sync a)
            (record p { leader_state = record l { follower_seq_nums = set nums idx third } }),
        a,
        ground (arith, found, found', syncs, at_first, at_second),
        refl,
        refl,
        refl,
        refl,
        refl,
        refl,
        length-set nums idx third ∙ length-set l.follower_seq_nums idx second,
      )

  -- One `AcceptSync` to each of the followers.
  pub sends_total :
      (tos : List ℕ) (p : SequencePaxos T C S)
      → All (IsReady p.leader_state.promises_meta (length p.leader_state.follower_seq_nums)) tos
      → (q : SequencePaxos T C S) × (sent : List (ℕ × AcceptSync T C S)) × (for_each tos
            (send_accsync snap)
            p
          ≡ some q)
        × (q.state ≡ p.state)
        × (q.outgoing ≡ p.outgoing ++ map (acc_sync_from p.pid) sent)
        × (map (λ s. s.0) sent ≡ tos)
        × All (λ s. s.1.n ≡ p.leader_state.n_leader) sent
  unfolding for_each
  sends_total [] p ready = (p, [], refl, refl, sym (append-nil p.outgoing), refl, tt)
  sends_total (to ∷ tos) p (ready, all_ready) =
      let (p1, a, sends, out, of, pid, state, n, promises, nums) = send_accsync_total to p ready in
      let ready' : All
          (IsReady p1.leader_state.promises_meta (length p1.leader_state.follower_seq_nums)) tos =
        subst (λ ps. All (IsReady ps (length p1.leader_state.follower_seq_nums)) tos) (sym promises)
          (subst (λ k. All (IsReady p.leader_state.promises_meta k) tos) (sym nums) all_ready) in
      let (q, sent, loops, state', out', each, of') = sends_total tos p1 ready' in
      (
        q,
        (to, a) ∷ sent,
        ap (λ o. o >>= for_each tos (send_accsync snap)) sends ∙ loops,
        state' ∙ state,
        out'
            ∙ ap (λ k. p1.outgoing ++ map (acc_sync_from k) sent) pid
            ∙ ap (λ o. o ++ map (acc_sync_from p.pid) sent) out
            ∙ append_assoc p.outgoing (acc_sync_from p.pid (to, a) ∷ [])
                (map (acc_sync_from p.pid) sent),
        ap (◌∷◌ to) each,
        (of, subst (λ b. All (λ s. s.1.n ≡ b) sent) n of'),
      )

All-if :
    {A : Type 0} (P : A → Type 0) (x : A) (xs : List A) (b : Bool)
    → P x
    → All P xs
    → All P (if b then x ∷ xs else xs)
All-if P x xs true px pxs = (px, pxs)
All-if P x xs false px pxs = pxs

-- The servers whose promises are recorded are ready, where each promise stands at its server's index.
pub promised_from-IsReady :
    (all : List PromiseState) (numbered own idx : ℕ) (ps : List PromiseState)
    → ((i : ℕ) (m : PromiseMetaData) → get_elem? all i ≡ some (promised m) → m.pid ≡ i + 1)
    → idx + length ps ≤ numbered
    → numbered < 2 ^ 64
    → ((i : ℕ) (s : PromiseState) → get_elem? ps i ≡ some s → get_elem? all (idx + i) ≡ some s)
    → All (IsReady all numbered) (promised_from own idx ps)
promised_from-IsReady all numbered own idx [] pids len fits at = tt
promised_from-IsReady all numbered own idx (s ∷ ps) pids len fits at =
    let rest =
      promised_from-IsReady all numbered own (idx + 1) ps pids (omega (arith, len)) fits
        (λ i s e. subst (λ k. get_elem? all k ≡ some s) (omega arith) (at (suc i) s e)) in
    elim s
        as (λ s.
          get_elem? all (idx + 0) ≡ some s
          → All (IsReady all numbered) (
              if is_promised s && not (idx == own)
              then (idx + 1) ∷ promised_from own (idx + 1) ps
              else promised_from own (idx + 1) ps)) [
                | promised m ↦ λ at_idx.
                    let at_idx' : get_elem? all idx ≡ some (promised m) =
                      subst (λ k. get_elem? all k ≡ some (promised m)) (omega arith) at_idx in
                    let index = pid_to_idx_lem idx (omega (arith, len, fits)) in
                    All-if (IsReady all numbered) (idx + 1) (promised_from own (idx + 1) ps)
                      (not (idx == own))
                      (
                        m,
                        ap (get_elem? all) index ∙ at_idx',
                        pids idx m at_idx',
                        omega (arith, index, len),
                      )
                      rest
                | not_promised ↦ λ _. rest
                | promised_higher ↦ λ _. rest
              ]
      (at 0 s refl)
