-- ===== src/Coded/Accepting.antt =====
-- The entry that a leader accepts: omnipaxos/src/sequence_paxos_ec/leader.rs.
use omnipaxos.Prelude.{
  ℕ, ◌+◌, ◌<◌, ◌≡◌, refl, sym, ap, subst, ◌∙◌, Option, none, some, List, [], ◌∷◌, ◌++◌, All, length,
  set, append-nil, arith, ◌>>=◌,
}
use omnipaxos.Ballot.{Ballot}
use omnipaxos.Storage.Internal
use omnipaxos.Storage.Internal.{InternalStorage, AcceptedMetaData}
use omnipaxos.Leader
use omnipaxos.Leader.{LeaderState, pid_to_idx}
use omnipaxos.Messages.{PaxosMessage}
use omnipaxos.Paxos.{SequencePaxos}
use omnipaxos.Erasure.{ReedSolomon, enumerate, fragment_index_for_node}
use omnipaxos.Erasure.Entry.{EcEntry, IsEntry}
use omnipaxos.Erasure.Indexes.{length-enumerate}
use omnipaxos.Erasure.RoundTrip.{IsReedSolomon, encoded_word}
use omnipaxos.Coded.{SequencePaxosEc, CodedEntry, total_shards, entry_for, encode_entry}
use omnipaxos.Coded.Leader.{
  send_acceptdecide, set_own_accepted_idx, announce_entry, accept_entry_leader,
}
use omnipaxos.Coded.Recovery.{Store, entry_for_total, stored_total, indexes_lt}
use omnipaxos.Coded.Sending.{AreAcceptDecides, HasSlots, send_all}

-- The leader's records have a slot for each server of the cluster.
abbrev pub IsReady : {T C S R : Type 0} → SequencePaxosEc T C S R → Type 0
IsReady p =
    (pid_to_idx p.plain.pid < length p.plain.leader_state.accepted_indexes)
    × HasSlots p.plain.peers p

-- What is sent after an append: nothing, if the entry waits in the batch.
abbrev pub Announces :
    {T C S : Type 0}
    → Option (AcceptedMetaData T)
    → ℕ
    → Ballot
    → ℕ
    → List ℕ
    → List T
    → List (PaxosMessage T C S)
    → Type 0
Announces none from n decided_idx pids stored sent = sent ≡ []
Announces (some flushed) from n decided_idx pids stored sent =
    AreAcceptDecides from n decided_idx pids stored sent

set_own_accepted_idx_total :
    {T C S R : Type 0} (idx : ℕ) (p : SequencePaxosEc T C S R)
    → pid_to_idx p.plain.pid < length p.plain.leader_state.accepted_indexes
    → (is : List ℕ) × (set_own_accepted_idx idx p
        ≡ some (record p {
          plain = record p.plain {
            leader_state = record p.plain.leader_state { accepted_indexes = is };
          };
        }))
unfolding set_own_accepted_idx Leader.set_accepted_idx
set_own_accepted_idx_total idx p slot =
    (set p.plain.leader_state.accepted_indexes (pid_to_idx p.plain.pid) idx, ground (arith, slot))

module _ {T C S R : Type 0} (entries : EcEntry T) where
  announce_entry_total :
      (metadata : Option (AcceptedMetaData T)) (coded : CodedEntry) (stored : List T)
      (p : SequencePaxosEc T C S R)
      → IsReady p
      → Store entries (total_shards p) coded p.plain.peers stored
      → (q : SequencePaxosEc T C S R) × (announce_entry entries metadata coded p ≡ some q)
        × (q.plain.internal_storage ≡ p.plain.internal_storage)
        × (sent : List (PaxosMessage T C S)) × (q.plain.outgoing ≡ p.plain.outgoing ++ sent)
        × Announces metadata p.plain.pid p.plain.leader_state.n_leader
            p.plain.internal_storage.state_cache.decided_idx p.plain.peers stored sent
  unfolding announce_entry send_acceptdecide
  announce_entry_total none coded stored p ready stores =
      (p, refl, refl, [], sym (append-nil p.plain.outgoing), refl)
  announce_entry_total (some flushed) coded stored p ready stores =
      let (is, own) = set_own_accepted_idx_total flushed.accepted_idx p ready.0 in
      let l : LeaderState T C S = record p.plain.leader_state { accepted_indexes = is } in
      let mid : SequencePaxos T C S = record p.plain { leader_state = l } in
      let (q, runs, same, sent, out, are) =
        send_all entries coded p.plain.pid p.plain.leader_state.n_leader
          p.plain.internal_storage.state_cache.decided_idx (total_shards p) p.plain.peers stored
          (record p { plain = mid }) (refl, refl, refl, refl) stores ready.1 in
      (q, ap (λ o. o >>= send_acceptdecide entries coded) own ∙ runs, same, sent, out, are)

accept_entry_leader_eq :
    {T C S R E : Type 0} (lib : ReedSolomon R E) (entries : EcEntry T) (entry : T)
    (p : SequencePaxosEc T C S R) (coded : CodedEntry) (own : T)
    → encode_entry lib entries p.ec_service entry ≡ some coded
    → entry_for entries (total_shards p) p.plain.pid coded ≡ some own
    → accept_entry_leader lib entries entry p
      ≡ announce_entry entries
          (Internal.append_entry_with_batching own p.plain.internal_storage).0
          coded
          (record p {
            plain = record p.plain {
              internal_storage =
                  (Internal.append_entry_with_batching own p.plain.internal_storage).1;
            };
          })
unfolding accept_entry_leader
accept_entry_leader_eq lib entries entry p coded own encodes own_entry =
    ground (arith, encodes, own_entry)

module _ {T C S R E : Type 0} (lib : ReedSolomon R E) (entries : EcEntry T)
    (lawful : IsEntry entries) where
  -- A leader with one shard for each server of its cluster accepts an entry without a panic: it
  -- stores the entry of its own fragment and, once that is flushed, sends to each peer one message
  -- with the one entry of the peer's fragment, in its round and with its decided index. Its records
  -- have a slot for each server, and the library and the entries keep what they promise.
  pub accept_entry_leader_sends :
      (entry : T) (p : SequencePaxosEc T C S R)
      → IsReedSolomon lib p.ec_service
      → total_shards p ≡ p.ec_service.data_shards + p.ec_service.parity_shards
      → IsReady p
      → (coded : CodedEntry) × (own : T) × (stored : List T) × (q : SequencePaxosEc T C S R)
        × (sent : List (PaxosMessage T C S)) × (encode_entry lib entries p.ec_service entry
            ≡ some coded)
        × Store entries (total_shards p) coded (p.plain.pid ∷ p.plain.peers) (own ∷ stored)
        × (accept_entry_leader lib entries entry p ≡ some q)
        × (q.plain.internal_storage
            ≡ (Internal.append_entry_with_batching own p.plain.internal_storage).1)
        × (q.plain.outgoing ≡ p.plain.outgoing ++ sent)
        × Announces
            (Internal.append_entry_with_batching own p.plain.internal_storage).0
            p.plain.pid
            p.plain.leader_state.n_leader
            (Internal.append_entry_with_batching own
              p.plain.internal_storage).1.state_cache.decided_idx
            p.plain.peers
            stored
            sent
  unfolding encode_entry
  accept_entry_leader_sends entry p law one_each ready =
      let total = total_shards p in
      let value = (entries.value entry).bytes in
      let (shards, word, runs, encoded, len, n, long, joined) =
        encoded_word lib p.ec_service value law in
      let coded : CodedEntry = record {
        key = entries.key entry;
        op = entries.operation entry;
        fragments = enumerate 0 word;
      } in
      let key = entries.key entry in
      let op = entries.operation entry in
      let (small, _) = indexes_lt total (p.plain.pid ∷ p.plain.peers) (omega arith) in
      let words : total ≡ length word = one_each ∙ sym len in
      let (own, own_entry) =
        entry_for_total entries lawful total p.plain.pid coded
          (omega (arith, words, small.0, length-enumerate 0 word)) in
      let (stored, stores) = stored_total entries lawful total key op word p.plain.peers (
        subst (λ k. All (λ to. fragment_index_for_node to total < k) p.plain.peers) words
          small.1) in
      let appended = Internal.append_entry_with_batching own p.plain.internal_storage in
      let held : SequencePaxos T C S = record p.plain { internal_storage = appended.1 } in
      let (q, announced, same, sent, out, are) =
        announce_entry_total entries appended.0 coded stored (record p { plain = held }) ready
          stores in
      let encodes : encode_entry lib entries p.ec_service entry ≡ some coded =
        ap (λ o. o >>= λ fs. some (record { key = key; op = op; fragments = fs })) runs in
      (
        coded,
        own,
        stored,
        q,
        sent,
        encodes,
        (own_entry, stores),
        accept_entry_leader_eq lib entries entry p coded own encodes own_entry ∙ announced,
        same,
        out,
        are,
      )
