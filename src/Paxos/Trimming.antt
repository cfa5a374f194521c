-- ===== src/Paxos/Trimming.antt =====
-- What a leader trims: `trim` of omnipaxos/src/sequence_paxos/mod.rs.
use omnipaxos.Prelude.{
  ℕ, ◌+◌, ◌-◌, ◌≤◌, ◌≡◌, ◌⊎◌, Bool, true, false, ◌&&◌, Option, none, some, drop, max, all, leb,
}
use omnipaxos.Storage.{CompactionErr, StorageResult, ok, err}
use omnipaxos.Leader
use omnipaxos.Leader.Chosen.{IsMinimum}
use omnipaxos.Messages.{Compaction, PaxosMsg}
use omnipaxos.Paxos.{SequencePaxos, is_leader, push_all}
use omnipaxos.Paxos.Replica.{trim}

module _ {T C S : Type 0} where
  -- The index that is asked for, or with none the least accepted index that the leader has recorded.
  abbrev pub IsTarget : Option ℕ → SequencePaxos T C S → ℕ → Type 0
  IsTarget (some idx) p k = idx ≡ k
  IsTarget none p k = IsMinimum k p.leader_state.accepted_indexes

  -- Every server is recorded to have accepted that many entries, and they are decided.
  abbrev pub is_trimmable : ℕ → SequencePaxos T C S → Bool
  is_trimmable k p =
      all (λ x. leb k x) p.leader_state.accepted_indexes
      && leb k p.internal_storage.state_cache.decided_idx

  -- The log is trimmed up to `k` at most, and the peers are told.
  pub record IsTrimmed (p q : SequencePaxos T C S) (k : ℕ) : Type 0 where
    pub trimmable : is_trimmable k p ≡ true
    pub bounded :
        q.internal_storage.state_cache.compacted_idx
        ≤ max p.internal_storage.state_cache.compacted_idx k
    pub reached : k ≤ q.internal_storage.state_cache.compacted_idx + 1
    pub kept :
        q.internal_storage.storage.log
        ≡ drop
            (q.internal_storage.state_cache.compacted_idx
              - p.internal_storage.state_cache.compacted_idx)
            p.internal_storage.storage.log
    pub told :
        q
        ≡ push_all p.peers
            (PaxosMsg.compaction (Compaction.trim k))
            (record p { internal_storage = q.internal_storage })

  -- The two ends of `trim`.
  abbrev pub Trims :
      Option ℕ
      → SequencePaxos T C S
      → Option (StorageResult (Unit {0}) × SequencePaxos T C S)
      → Type 0
  Trims idx p result =
      ((q : SequencePaxos T C S) × (k : ℕ) × (result ≡ some (ok tt, q))
        × (is_leader p.state.0 ≡ true)
        × IsTarget idx p k
        × IsTrimmed p q k)
      ⊎ ((e : CompactionErr) × (result ≡ some (err e, p))
          × ((is_leader p.state.0 ≡ false)
              ⊎ ((k : ℕ) × IsTarget idx p k × (is_trimmable k p ≡ false))))
