-- ===== src/Paxos/Synchronised.antt =====
-- The log of a follower after an `AcceptSync` (omnipaxos/src/sequence_paxos).
use omnipaxos.Prelude.{
  ℕ, ◌-◌, ◌≤◌, ◌≡◌, refl, sym, ap, subst, ◌∙◌, false, ◌&&◌, none, some, List, [], ◌++◌, length,
  take, drop, take-append-drop, drop-drop, length-drop, ltb, arith, Option-cases, inl, inr,
}
use omnipaxos.Word.{sub_u64_lem}
use omnipaxos.Ballot
use omnipaxos.Storage.{Snapshot, LogSync, ok}
use omnipaxos.Storage.Memory
use omnipaxos.Storage.Internal.{InternalStorage}
use omnipaxos.Storage.Internal.Compaction.{sync_log}
use omnipaxos.Storage.Internal.Agreement.{IsValid}
use omnipaxos.Storage.Internal.History.{Keeps}
use omnipaxos.Storage.Internal.Sync.{sync_log_suffix-Keeps}
use omnipaxos.Messages.{AcceptSync}
use omnipaxos.Paxos.{SequencePaxos, create_log_sync}
use omnipaxos.Paxos.FollowerRole.{forward_buffered_proposals}
use omnipaxos.Paxos.FollowerRole.Preparing.{accept_sync}
use omnipaxos.Paxos.Frame.{forward_proposals-storage}

module _ {T C S : Type 0} (snap : Snapshot T S) where
  -- The `LogSync` that sends a log from an index on, without a snapshot.
  abbrev pub suffix_from : ℕ → List T → SequencePaxos T C S → LogSync T C S
  suffix_from common history p = record {
    decided_snapshot = none;
    suffix = drop common history;
    sync_idx = common;
    stopsign = p.internal_storage.state_cache.stopsign;
  }

  get_suffix-history :
      (common : ℕ) (history : List T) (st : InternalStorage T C S)
      → IsValid st
      → Keeps snap history st
      → st.storage.compacted_idx ≤ common
      → common ≤ length history
      → Memory.get_suffix common st.storage ≡ drop common history
  unfolding Memory.get_suffix
  get_suffix-history common history st v seen above within = ground (
    arith,
    v.trimmed,
    seen.log,
    sub_u64_lem common st.storage.trimmed_idx,
    length-drop st.storage.compacted_idx history,
    drop-drop (common - st.storage.compacted_idx) st.storage.compacted_idx history,
  )

  pub create_log_sync-suffix :
      (common other : ℕ) (history : List T) (p : SequencePaxos T C S)
      → IsValid p.internal_storage
      → Keeps snap history p.internal_storage
      → p.internal_storage.storage.compacted_idx ≤ common
      → common ≤ length history
      → snap.use_snapshots && ltb common p.internal_storage.state_cache.decided_idx ≡ false
      → create_log_sync snap common other p ≡ some (suffix_from common history p)
  unfolding create_log_sync
  create_log_sync-suffix common other history p v seen above within plain =
      ground (arith, get_suffix-history common history p.internal_storage v seen above within)

  forward_buffered-storage :
      (p : SequencePaxos T C S)
      → (forward_buffered_proposals p).internal_storage ≡ p.internal_storage
  unfolding forward_buffered_proposals
  forward_buffered-storage p =
      ground (
        arith,
        forward_proposals-storage p.buffered_proposals (record p { buffered_proposals = [] }),
      )

  accept_sync_total :
      (acc : AcceptSync T C S) (from : ℕ) (p : SequencePaxos T C S)
      (synced : ℕ × InternalStorage T C S)
      → sync_log snap acc.n acc.decided_idx (some acc.log_sync) p.internal_storage ≡ ok synced
      → (q : SequencePaxos T C S) × (accept_sync snap acc from p ≡ some q)
        × (q.internal_storage ≡ synced.1)
  unfolding accept_sync
  accept_sync_total acc from p synced done =
      let p' : SequencePaxos T C S = record p {
        cached_promise_message = none;
        internal_storage = synced.1;
      } in
      let kept = forward_buffered-storage p' in
      elim (Option-cases (accept_sync snap acc from p)) [
        | inl panicked ↦ absurd (ground arith)
        | inr (q, e) ↦ (q, e, ground arith)
      ]

  sync_log-stopsign :
      (n : Ballot.Ballot) (decided : ℕ) (sync : LogSync T C S) (st : InternalStorage T C S)
      (res : ℕ × InternalStorage T C S)
      → sync_log snap n decided (some sync) st ≡ ok res
      → res.1.state_cache.stopsign ≡ sync.stopsign
  unfolding sync_log
  sync_log-stopsign n decided sync st res e = ground arith

  sync_log_plain :
      (n : Ballot.Ballot) (decided common : ℕ) (history : List T) (p : SequencePaxos T C S)
      (st : InternalStorage T C S)
      → (res : ℕ × InternalStorage T C S) × (sync_log snap n decided
            (some (suffix_from common history p))
            st
          ≡ ok res)
  unfolding sync_log
  sync_log_plain n decided common history p st = (_, refl)

  -- The logs of a leader and of a follower agree on the first `common` entries, which neither has
  -- compacted away beyond.
  pub record Agree (common : ℕ) (ahead behind : List T) (leading following : SequencePaxos T C S)
      : Type 0 where
    pub leading_valid : IsValid leading.internal_storage
    pub following_valid : IsValid following.internal_storage
    pub leading_log : Keeps snap ahead leading.internal_storage
    pub following_log : Keeps snap behind following.internal_storage
    pub same : take common behind ≡ take common ahead
    pub leading_within : common ≤ length ahead
    pub following_within : common ≤ length behind
    pub leading_above : leading.internal_storage.storage.compacted_idx ≤ common
    pub following_above : following.internal_storage.storage.compacted_idx ≤ common

  -- A leader and a follower with valid storages agree on the first `common` entries, of which
  -- neither has compacted more, and the leader needs no snapshot from there on. Then the `LogSync`
  -- that the leader makes from `common` on, in an `AcceptSync`, is accepted by the follower
  -- without a panic, and afterwards the follower's log stands for the leader's history, whatever
  -- the follower had beyond, and the follower has the leader's stopsign.
  pub accept_sync_synchronises :
      (common other : ℕ) (ahead behind : List T) (leading following : SequencePaxos T C S)
      (acc : AcceptSync T C S) (from : ℕ)
      → Agree common ahead behind leading following
      → snap.use_snapshots && ltb common leading.internal_storage.state_cache.decided_idx ≡ false
      → create_log_sync snap common other leading ≡ some acc.log_sync
      → (q : SequencePaxos T C S) × (accept_sync snap acc from following ≡ some q)
        × Keeps snap ahead q.internal_storage
        × (q.internal_storage.state_cache.stopsign ≡ leading.internal_storage.state_cache.stopsign)
  accept_sync_synchronises common other ahead behind leading following acc from g plain made =
      let sent =
        create_log_sync-suffix common other ahead leading g.leading_valid g.leading_log
          g.leading_above g.leading_within plain in
      let sync : suffix_from common ahead leading ≡ acc.log_sync = cc in
      let (res, done) =
        sync_log_plain acc.n acc.decided_idx common ahead leading following.internal_storage in
      let (q, e, stored) = accept_sync_total acc from following res (
        subst
          (λ s. sync_log snap acc.n acc.decided_idx (some s) following.internal_storage ≡ ok res)
          sync done) in
      let whole : take common behind ++ drop common ahead ≡ ahead =
        ap (λ xs. xs ++ drop common ahead) g.same ∙ take-append-drop common ahead in
      let kept =
        sync_log_suffix-Keeps snap acc.n acc.decided_idx following.internal_storage
          g.following_valid behind (suffix_from common ahead leading) res.1 res.0 g.following_log
          refl g.following_above g.following_within done in
      (
        q,
        e,
        subst (Keeps snap ahead) (sym stored) (subst (λ h. Keeps snap h res.1) whole kept),
        ap (λ (st : InternalStorage T C S). st.state_cache.stopsign) stored
            ∙ sync_log-stopsign acc.n acc.decided_idx (suffix_from common ahead leading)
                following.internal_storage res done,
      )
