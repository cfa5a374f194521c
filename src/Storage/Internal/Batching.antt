-- ===== src/Storage/Internal/Batching.antt =====
-- Batching (omnipaxos/src/storage/internal_storage.rs and state_cache.rs): the
-- batch, the log and what the leader sends.
use omnipaxos.Prelude.{
  ◌+◌, ◌<◌, ◌≡◌, sym, ap, ◌∙◌, Option, none, some, List, [], ◌∷◌, ◌++◌, append-nil, append_assoc,
  length, length-append, arith,
}
use omnipaxos.Storage.Internal.{InternalStorage, AcceptedMetaData, append_entry_with_batching}

-- The entries that a flush reports.
abbrev pub flushed : {T : Type 0} → Option (AcceptedMetaData T) → List T
flushed none = []
flushed (some m) = m.entries

module _ {T C S : Type 0} where
  -- The leader appends entries one by one; the entries that the flushes report, in order.
  unfoldable pub append_all : List T → InternalStorage T C S → List T × InternalStorage T C S
  append_all [] st = ([], st)
  append_all (e ∷ es) st =
      let (metadata, st') = append_entry_with_batching e st in
      let (sent, st'') = append_all es st' in (flushed metadata ++ sent, st'')

  append_entry-Conserves :
      (e : T) (st : InternalStorage T C S)
      → let (metadata, st') = append_entry_with_batching e st in
        (st'.storage.log ≡ st.storage.log ++ flushed metadata)
        × (flushed metadata ++ st'.state_cache.batched_entries
            ≡ st.state_cache.batched_entries ++ e ∷ [])
        × (st'.state_cache.accepted_idx ≡ st.state_cache.accepted_idx + length (flushed metadata))
        × (st'.state_cache.batch_size ≡ st.state_cache.batch_size)
  unfolding append_entry_with_batching
  append_entry-Conserves e st =
      ground
        (arith, append-nil st.storage.log, append-nil (st.state_cache.batched_entries ++ e ∷ []))

  -- However the batches fall: what is flushed goes to the end of the log in the order of the
  -- appends, what is not stays in the batch, and the accepted index counts what is flushed.
  pub append_all_conserves :
      (es : List T) (st : InternalStorage T C S)
      → let (sent, st') = append_all es st in
        (st'.storage.log ≡ st.storage.log ++ sent)
        × (sent ++ st'.state_cache.batched_entries ≡ st.state_cache.batched_entries ++ es)
        × (st'.state_cache.accepted_idx ≡ st.state_cache.accepted_idx + length sent)
  unfolding append_all
  append_all_conserves [] st = (sym (append-nil _), sym (append-nil _), omega arith)
  append_all_conserves (e ∷ es) st =
      let (metadata, st') = append_entry_with_batching e st in
      let now = append_entry-Conserves e st in
      let later = append_all_conserves es st' in
      let (sent, st'') = append_all es st' in
      let batch = st.state_cache.batched_entries in
      let send = flushed metadata in
      (
        later.0 ∙ ap (λ l. l ++ sent) now.0 ∙ append_assoc st.storage.log send sent,
        append_assoc send sent st''.state_cache.batched_entries
            ∙ ap (λ l. send ++ l) later.1
            ∙ sym (append_assoc send st'.state_cache.batched_entries es)
            ∙ ap (λ l. l ++ es) now.1
            ∙ append_assoc batch (e ∷ []) es,
        omega (arith, now.2, later.2, length-append send sent),
      )

  append_entry-bound :
      (e : T) (st : InternalStorage T C S)
      → 0 < st.state_cache.batch_size
      → let st' = (append_entry_with_batching e st).1 in
        (length st'.state_cache.batched_entries < st'.state_cache.batch_size)
        × (st'.state_cache.batch_size ≡ st.state_cache.batch_size)
  unfolding append_entry_with_batching
  append_entry-bound e st pos = ground arith

  -- With a batch size above 0 and a batch that is shorter, the batch is shorter again after any
  -- appends: a full batch never waits.
  pub append_all_bounded :
      (es : List T) (st : InternalStorage T C S)
      → 0 < st.state_cache.batch_size
      → length st.state_cache.batched_entries < st.state_cache.batch_size
      → let st' = (append_all es st).1 in
        length st'.state_cache.batched_entries < st'.state_cache.batch_size
  unfolding append_all
  append_all_bounded [] st pos short = short
  append_all_bounded (e ∷ es) st pos short =
      let b = append_entry-bound e st pos in
      append_all_bounded es (append_entry_with_batching e st).1 (omega (arith, b.1)) b.0
