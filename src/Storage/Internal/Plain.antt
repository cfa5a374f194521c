-- ===== src/Storage/Internal/Plain.antt =====
-- A log that is taken over without a snapshot: `sync_log` of
-- omnipaxos/src/storage/internal_storage.rs.
use omnipaxos.Prelude.{ℕ, ◌≡◌, refl, sym, ap, subst, Option, none, some}
use omnipaxos.Ballot.{Ballot}
use omnipaxos.Storage.{Snapshot, LogSync, ok}
use omnipaxos.Storage.Internal.{InternalStorage}
use omnipaxos.Storage.Internal.Compaction.{snapshot_ops, sync_log_sync, sync_log}

-- A log that was sent without a snapshot.
abbrev pub IsPlain : {T C S : Type 0} → Option (LogSync T C S) → Type 0
IsPlain none = Unit
IsPlain (some sync) = sync.decided_snapshot ≡ none

module _ {T C S : Type 0} (snap : Snapshot T S) where
  pub sync_log_total :
      (n : Ballot) (decided_idx : ℕ) (sync : Option (LogSync T C S)) (st : InternalStorage T C S)
      → IsPlain sync
      → (r : ℕ × InternalStorage T C S) × (sync_log snap n decided_idx sync st ≡ ok r)
  unfolding sync_log sync_log_sync snapshot_ops
  sync_log_total n decided_idx none st plain = (_, refl)
  sync_log_total n decided_idx (some sync) st plain =
      subst
        (λ s. (r : ℕ × InternalStorage T C S) × (sync_log snap n decided_idx (some s) st ≡ ok r))
        (sym (ap (λ o. record sync { decided_snapshot = o }) plain)) (_, refl)
