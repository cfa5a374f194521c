-- ===== src/Coded/Sending.antt =====
-- What a leader sends of an entry: omnipaxos/src/sequence_paxos_ec/leader.rs.
use omnipaxos.Prelude.{
  ℕ, ◌<◌, ◌≡◌, refl, sym, ap, subst, ◌∙◌, some, List, [], ◌∷◌, ◌++◌, All, length, get_elem?_total,
  set, length-set, append-nil, append_assoc, arith, ◌>>=◌,
}
use omnipaxos.Ballot.{Ballot}
use omnipaxos.Sequence.{SequenceNumber}
use omnipaxos.Word.{inc_u64}
use omnipaxos.Leader
use omnipaxos.Leader.{LeaderState, pid_to_idx}
use omnipaxos.Messages.{PaxosMsg, PaxosMessage}
use omnipaxos.Paxos.{SequencePaxos, for_each}
use omnipaxos.Erasure.Entry.{EcEntry}
use omnipaxos.Coded.{SequencePaxosEc, CodedEntry, total_shards, entry_for}
use omnipaxos.Coded.Leader.{push_acceptdecide, send_acceptdecide_to}
use omnipaxos.Coded.Recovery.{Store}

-- One `AcceptDecide` with one entry.
abbrev pub IsAcceptDecide : {T C S : Type 0} → ℕ → Ballot → ℕ → ℕ → T → PaxosMessage T C S → Type 0
IsAcceptDecide {T} {C} {S} from n decided_idx to entry m =
    (seq_num : SequenceNumber) × (m ≡ record {
      from = from;
      to = to;
      msg =
          PaxosMsg.accept_decide
            (record { n = n; seq_num = seq_num; decided_idx = decided_idx; entries = entry ∷ [] });
    })

-- One such message to each of a list of servers, with the entry of each.
abbrev pub AreAcceptDecides :
    {T C S : Type 0} → ℕ → Ballot → ℕ → List ℕ → List T → List (PaxosMessage T C S) → Type 0
AreAcceptDecides from n decided_idx [] [] [] = Unit
AreAcceptDecides from n decided_idx (to ∷ pids) (entry ∷ stored) (m ∷ sent) =
    IsAcceptDecide from n decided_idx to entry m
    × AreAcceptDecides from n decided_idx pids stored sent
AreAcceptDecides from n decided_idx _ _ _ = ⊥

-- The vector of sequence numbers has a slot for each of the servers.
abbrev pub HasSlots : {T C S R : Type 0} → List ℕ → SequencePaxosEc T C S R → Type 0
HasSlots pids p = All (λ to. pid_to_idx to < length p.plain.leader_state.follower_seq_nums) pids

-- What a sender puts into its messages.
abbrev pub IsSender : {T C S R : Type 0} → ℕ → Ballot → ℕ → ℕ → SequencePaxosEc T C S R → Type 0
IsSender from n decided_idx total p =
    (p.plain.pid ≡ from)
    × (p.plain.leader_state.n_leader ≡ n)
    × (p.plain.internal_storage.state_cache.decided_idx ≡ decided_idx)
    × (total_shards p ≡ total)

next_seq_num_total :
    {T C S : Type 0} (to : ℕ) (l : LeaderState T C S)
    → pid_to_idx to < length l.follower_seq_nums
    → (s : SequenceNumber) × (l' : LeaderState T C S) × (Leader.next_seq_num to l ≡ some (s, l'))
      × (l'.n_leader ≡ l.n_leader)
      × (length l'.follower_seq_nums ≡ length l.follower_seq_nums)
unfolding Leader.next_seq_num
next_seq_num_total to l slot =
    let (s, found) = get_elem?_total l.follower_seq_nums (pid_to_idx to) slot in
    let s' : SequenceNumber = record s { counter = inc_u64 s.counter } in
    (
      s',
      record l { follower_seq_nums = set l.follower_seq_nums (pid_to_idx to) s' },
      ground (arith, found),
      refl,
      length-set l.follower_seq_nums (pid_to_idx to) s',
    )

HasSlots-same :
    {A : Type 0} (pids : List ℕ) (xs ys : List A)
    → length ys ≡ length xs
    → All (λ to. pid_to_idx to < length xs) pids
    → All (λ to. pid_to_idx to < length ys) pids
HasSlots-same pids xs ys e h = subst (λ k. All (λ to. pid_to_idx to < k) pids) (sym e) h

module _ {T C S R : Type 0} (entries : EcEntry T) (coded : CodedEntry) (from : ℕ) (n : Ballot)
    (decided_idx total : ℕ) where
  send_one :
      (to : ℕ) (entry : T) (p : SequencePaxosEc T C S R)
      → IsSender from n decided_idx total p
      → entry_for entries total to coded ≡ some entry
      → pid_to_idx to < length p.plain.leader_state.follower_seq_nums
      → (q : SequencePaxosEc T C S R) × (send_acceptdecide_to entries coded to p ≡ some q)
        × IsSender from n decided_idx total q
        × (q.plain.internal_storage ≡ p.plain.internal_storage)
        × (length q.plain.leader_state.follower_seq_nums
            ≡ length p.plain.leader_state.follower_seq_nums)
        × (m : PaxosMessage T C S) × (q.plain.outgoing ≡ p.plain.outgoing ++ m ∷ [])
        × IsAcceptDecide from n decided_idx to entry m
  unfolding send_acceptdecide_to push_acceptdecide
  send_one to entry p (is_from, is_n, is_decided, is_total) own slot =
      let (s, l, numbered, same_n, same_len) = next_seq_num_total to p.plain.leader_state slot in
      let m : PaxosMessage T C S = record {
        from = p.plain.pid;
        to = to;
        msg = PaxosMsg.accept_decide (record {
          n = l.n_leader;
          seq_num = s;
          decided_idx = p.plain.internal_storage.state_cache.decided_idx;
          entries = entry ∷ [];
        });
      } in
      let q : SequencePaxos T C S = record p.plain {
        leader_state = l;
        outgoing = p.plain.outgoing ++ m ∷ [];
      } in
      let mine : entry_for entries (total_shards p) to coded ≡ some entry =
        subst (λ k. entry_for entries k to coded ≡ some entry) (sym is_total) own in
      (
        record p { plain = q },
        ground (arith, mine, numbered),
        (is_from, same_n ∙ is_n, is_decided, is_total),
        refl,
        same_len,
        m,
        refl,
        (s, cc (is_from, is_n, is_decided, same_n)),
      )

  -- Sending to all of a list of servers does not panic.
  pub send_all :
      (pids : List ℕ) (stored : List T) (p : SequencePaxosEc T C S R)
      → IsSender from n decided_idx total p
      → Store entries total coded pids stored
      → HasSlots pids p
      → (q : SequencePaxosEc T C S R) × (for_each pids (send_acceptdecide_to entries coded) p
          ≡ some q)
        × (q.plain.internal_storage ≡ p.plain.internal_storage)
        × (sent : List (PaxosMessage T C S)) × (q.plain.outgoing ≡ p.plain.outgoing ++ sent)
        × AreAcceptDecides from n decided_idx pids stored sent
  unfolding for_each
  send_all [] [] p sender stores slots = (p, refl, refl, [], sym (append-nil p.plain.outgoing), tt)
  send_all [] (entry ∷ stored) p sender stores slots = absurd stores
  send_all (to ∷ pids) [] p sender stores slots = absurd stores
  send_all (to ∷ pids) (entry ∷ stored) p sender stores slots =
      let (mid, first, sender', same, same_len, m, out, is_m) =
        send_one to entry p sender stores.0 slots.0 in
      let (q, rest, same', sent, out', are) = send_all pids stored mid sender' stores.1 (
        HasSlots-same pids p.plain.leader_state.follower_seq_nums
          mid.plain.leader_state.follower_seq_nums same_len slots.1) in
      (
        q,
        ap (λ o. o >>= for_each pids (send_acceptdecide_to entries coded)) first ∙ rest,
        same' ∙ same,
        m ∷ sent,
        out' ∙ ap (λ ms. ms ++ sent) out ∙ append_assoc p.plain.outgoing (m ∷ []) sent,
        (is_m, are),
      )
