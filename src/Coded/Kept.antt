-- ===== src/Coded/Kept.antt =====
-- Which of a coding leader's handlers keep the promise of the replica:
-- omnipaxos/src/sequence_paxos_ec/leader.rs. Those of the stopsign and of the promises are below.
pub mod Adopting
use omnipaxos.Prelude.{
  ℕ, ◌≡◌, refl, ◌∙◌, ap, Bool, not, Option, none, some, List, [], ◌∷◌, arith, ◌>>=◌, if◌then◌else◌,
  >>=-eq-some, Option-cases, inl, inr,
}
use omnipaxos.Ballot.{Ballot}
use omnipaxos.Storage.{StopSign, Snapshot}
use omnipaxos.Storage.Internal
use omnipaxos.Storage.Internal.{InternalStorage, AcceptedMetaData}
use omnipaxos.Storage.Internal.Compaction.{sync_log}
use omnipaxos.Leader
use omnipaxos.Messages.{Promise}
use omnipaxos.Paxos.{leader, accept, SequencePaxos, expect, for_each, accepted_reconfiguration}
use omnipaxos.Paxos.Kept.{
  promise_of, append_entry-promise, append_entries-promise, append_stopsign-promise, flush-promise,
  promise-same,
}
use omnipaxos.Paxos.Frame.{
  send_accept_stopsign-storage, forward_proposals-storage, forward_stopsign-storage,
}
use omnipaxos.Paxos.LeaderRole.Preparing.{append_buffered_proposals, append_buffered_stopsign}
use omnipaxos.Paxos.Handled.{append_buffered_proposals-promise, append_buffered_stopsign-promise}
use omnipaxos.Paxos.Handled.Adopting.{expect-sync_log-promise}
use omnipaxos.Erasure.{ReedSolomon}
use omnipaxos.Erasure.Entry.{EcEntry}
use omnipaxos.Coded.{
  SequencePaxosEc, CodedEntry, get_promise, encode_entry, encode_entries, entry_for, entries_for,
  total_shards, forward_proposals, forward_stopsign,
}
use omnipaxos.Coded.Leader.{
  push_acceptdecide, send_acceptdecide_to, send_acceptdecide_batch_to, send_acceptdecide,
  send_acceptdecide_batch, set_own_accepted_idx, announce_entry, announce_entries,
  accept_entry_leader, accept_entries_leader, flush_batch_leader,
}
use omnipaxos.Coded.Leader.Same.{send_accept_stopsign}
use omnipaxos.Coded.Leader.Preparing.{
  send_accsync, handle_majority_promises, handle_promise_prepare, handle_promise_accept,
}
use omnipaxos.Coded.Leader.Stopping.{
  send_coded_stopsign, accept_stopsign_leader, handle_forwarded_proposal, propose_stopsign,
  handle_forwarded_stopsign,
}

-- A loop keeps what its body keeps.
pub for_each-keeps :
    {A P X : Type 0} (part : P → X) (xs : List A) (body : A → P → Option P)
    → ((x : A) (p q : P) → body x p ≡ some q → part q ≡ part p)
    → (p q : P) → for_each xs body p ≡ some q
    → part q ≡ part p
unfolding for_each
for_each-keeps part [] body same p q e = ground arith
for_each-keeps part (x ∷ xs) body same p q e =
    let (p', first, rest) = >>=-eq-some (body x p) (for_each xs body) e in
    for_each-keeps part xs body same p' q rest ∙ same x p p' first

-- The storage of a replica.
abbrev pub storage_of : {T C S R : Type 0} → SequencePaxosEc T C S R → InternalStorage T C S
storage_of p = p.plain.internal_storage

module _ {T C S R : Type 0} (entries : EcEntry T) where
  push_acceptdecide-storage :
      (es : List T) (to : ℕ) (p q : SequencePaxosEc T C S R)
      → push_acceptdecide es to p ≡ some q
      → storage_of q ≡ storage_of p
  unfolding push_acceptdecide
  push_acceptdecide-storage es to p q e = ground arith

  pub send_acceptdecide-storage :
      (coded : CodedEntry) (p q : SequencePaxosEc T C S R)
      → send_acceptdecide entries coded p ≡ some q
      → storage_of q ≡ storage_of p
  unfolding send_acceptdecide send_acceptdecide_to push_acceptdecide
  send_acceptdecide-storage coded p q e =
      for_each-keeps storage_of p.plain.peers (send_acceptdecide_to entries coded)
        (λ to p' q' e'. ground arith) p q e

  send_acceptdecide_batch-storage :
      (batch : List CodedEntry) (p q : SequencePaxosEc T C S R)
      → send_acceptdecide_batch entries batch p ≡ some q
      → storage_of q ≡ storage_of p
  unfolding send_acceptdecide_batch send_acceptdecide_batch_to push_acceptdecide
  send_acceptdecide_batch-storage batch p q e =
      for_each-keeps storage_of p.plain.peers (send_acceptdecide_batch_to entries batch)
        (λ to p' q' e'. ground arith) p q e

  pub set_own_accepted_idx-storage :
      (idx : ℕ) (p q : SequencePaxosEc T C S R)
      → set_own_accepted_idx idx p ≡ some q
      → storage_of q ≡ storage_of p
  unfolding set_own_accepted_idx
  set_own_accepted_idx-storage idx p q e = ground arith

  announce_entry-storage :
      (metadata : Option (AcceptedMetaData T)) (coded : CodedEntry) (p q : SequencePaxosEc T C S R)
      → announce_entry entries metadata coded p ≡ some q
      → storage_of q ≡ storage_of p
  unfolding announce_entry
  announce_entry-storage none coded p q e = ground arith
  announce_entry-storage (some m) coded p q e =
      let (p', set, sent) = >>=-eq-some (set_own_accepted_idx m.accepted_idx p) _ e in
      send_acceptdecide-storage coded p' q sent
      ∙ set_own_accepted_idx-storage m.accepted_idx p p' set

  announce_entries-storage :
      (metadata : Option (AcceptedMetaData T)) (batch : List CodedEntry)
      (p q : SequencePaxosEc T C S R)
      → announce_entries entries metadata batch p ≡ some q
      → storage_of q ≡ storage_of p
  unfolding announce_entries
  announce_entries-storage none batch p q e = ground arith
  announce_entries-storage (some m) batch p q e =
      let (p', set, sent) = >>=-eq-some (set_own_accepted_idx m.accepted_idx p) _ e in
      send_acceptdecide_batch-storage batch p' q sent
      ∙ set_own_accepted_idx-storage m.accepted_idx p p' set

module _ {T C S R E : Type 0} (lib : ReedSolomon R E) (entries : EcEntry T) where
  pub accept_entry_leader-promise :
      (entry : T) (p q : SequencePaxosEc T C S R)
      → accept_entry_leader lib entries entry p ≡ some q
      → get_promise q ≡ get_promise p
  unfolding accept_entry_leader get_promise
  accept_entry_leader-promise entry p q e =
      let (coded, encoded, e') = >>=-eq-some (encode_entry lib entries p.ec_service entry) _ e in
      let (own, found, e'') =
        >>=-eq-some (entry_for entries (total_shards p) p.plain.pid coded) _ e' in
      let (metadata, st) = Internal.append_entry_with_batching own p.plain.internal_storage in
      let plain : SequencePaxos T C S = record p.plain { internal_storage = st } in
      ap promise_of
        (announce_entry-storage entries metadata coded (record p { plain = plain }) q e'')
      ∙ append_entry-promise own p.plain.internal_storage

  pub accept_entries_leader-promise :
      (es : List T) (p q : SequencePaxosEc T C S R)
      → accept_entries_leader lib entries es p ≡ some q
      → get_promise q ≡ get_promise p
  unfolding accept_entries_leader get_promise
  accept_entries_leader-promise es p q e =
      let (batch, encoded, e') = >>=-eq-some (encode_entries lib entries p.ec_service es) _ e in
      let (own, found, e'') =
        >>=-eq-some (entries_for entries (total_shards p) p.plain.pid batch) _ e' in
      let (metadata, st) = Internal.append_entries_with_batching own p.plain.internal_storage in
      let plain : SequencePaxos T C S = record p.plain { internal_storage = st } in
      ap promise_of
        (announce_entries-storage entries metadata batch (record p { plain = plain }) q e'')
      ∙ append_entries-promise own p.plain.internal_storage

  flush_announced-promise :
      (metadata : Option (AcceptedMetaData T)) (p q : SequencePaxosEc T C S R)
      → (elim metadata [
        | none ↦ some p
        | some m ↦ (do
          batch ← encode_entries lib entries p.ec_service m.entries
          announce_entries entries (some m) batch p)
      ])
        ≡ some q
      → storage_of q ≡ storage_of p
  flush_announced-promise none p q e = ground arith
  flush_announced-promise (some m) p q e =
      let (batch, encoded, e') =
        >>=-eq-some (encode_entries lib entries p.ec_service m.entries) _ e in
      announce_entries-storage entries (some m) batch p q e'

  pub flush_batch_leader-promise :
      (p q : SequencePaxosEc T C S R)
      → flush_batch_leader lib entries p ≡ some q
      → get_promise q ≡ get_promise p
  unfolding flush_batch_leader get_promise
  flush_batch_leader-promise p q e =
      let (metadata, st) = Internal.flush_batch_and_get_entries p.plain.internal_storage in
      let plain : SequencePaxos T C S = record p.plain { internal_storage = st } in
      ap promise_of (flush_announced-promise metadata (record p { plain = plain }) q e)
      ∙ flush-promise p.plain.internal_storage

  pub handle_forwarded_proposal-promise :
      (es : List T) (p q : SequencePaxosEc T C S R)
      → handle_forwarded_proposal lib entries es p ≡ some q
      → get_promise q ≡ get_promise p
  unfolding handle_forwarded_proposal forward_proposals get_promise
  handle_forwarded_proposal-promise es p q e =
      ground (arith, accept_entries_leader-promise es p q, forward_proposals-storage es p.plain)
