-- ===== src/Storage/Internal/Read/Panics.antt =====
-- Where `read` panics (omnipaxos/src/storage/internal_storage.rs).
use omnipaxos.Prelude.{ℕ, ◌+◌, ◌<◌, ◌≡◌, ◌↔◌, none, some, arith, Option-cases, inl, inr}
use omnipaxos.Storage.{StopSign}
use omnipaxos.Storage.Internal.{InternalStorage}
use omnipaxos.Storage.Internal.Read.{Bound, get_entry_type, read_between, read_from, read}

module _ {T C S : Type 0} where
  -- `read` of a range panics just if the range starts at the stopsign, which is the last position of
  -- the log, and ends at or before it, beyond the compacted entries.
  pub read_panics :
      (from to : ℕ) (st : InternalStorage T C S)
      → (read (Bound.included from) (Bound.excluded to) st ≡ none) ↔ (
          (ss : StopSign C) × (st.state_cache.stopsign ≡ some ss)
          × (from + 1 ≡ st.state_cache.accepted_idx)
          × (st.state_cache.compacted_idx < to)
          × (to < st.state_cache.accepted_idx))
  unfolding read read_from read_between get_entry_type
  read_panics from to st = elim (Option-cases st.state_cache.stopsign) [
    | inl running ↦
        (λ h. absurd (ground arith), λ (ss, stopped, last, above, below). absurd (ground arith))
    | inr (ss, stopped) ↦ (
      λ h. (ss, stopped, ground arith, ground arith, ground arith),
      λ (ss', stopped', last, above, below). ground arith,
    )
  ]
