-- ===== src/Storage/Cache.antt =====
-- `StateCache` of omnipaxos/src/storage/state_cache.rs, without the feature `unicache`.
use omnipaxos.Prelude.{
  ℕ, Bool, true, false, ◌&&◌, Option, none, some, List, [], ◌∷◌, ◌++◌, length, is_empty, leb, ◌==◌,
  if◌then◌else◌,
}
use omnipaxos.Ballot
use omnipaxos.Ballot.{Ballot}
use omnipaxos.Storage.{StopSign}

pub record StateCache (T C : Type 0) : Type 0 where
  pub batch_size : ℕ
  pub batched_entries : List T
  pub promise : Ballot
  pub accepted_round : Ballot
  pub decided_idx : ℕ
  pub accepted_idx : ℕ
  pub compacted_idx : ℕ
  pub stopsign : Option (StopSign C)

-- `Option::is_some`.
abbrev pub is_some {ℓ} : {A : Type ℓ} → Option A → Bool
is_some none = false
is_some (some a) = true

module _ {T C : Type 0} where
  -- `StateCache::new`.
  unfoldable pub new : ℕ → StateCache T C
  new batch_size = record {
    batch_size = batch_size;
    batched_entries = [];
    promise = Ballot.default;
    accepted_round = Ballot.default;
    decided_idx = 0;
    accepted_idx = 0;
    compacted_idx = 0;
    stopsign = none;
  }

  unfoldable pub take_batched_entries : StateCache T C → List T × StateCache T C
  take_batched_entries c = (c.batched_entries, record c { batched_entries = [] })

  unfoldable pub take_entries_if_batch_is_full : StateCache T C → Option (List T) × StateCache T C
  unfolding take_batched_entries
  take_entries_if_batch_is_full c =
      let (entries, c') = take_batched_entries c in
      if leb c.batch_size (length c.batched_entries) then (some entries, c') else (none, c)

  unfoldable pub append_entry : T → StateCache T C → Option (List T) × StateCache T C
  unfolding take_entries_if_batch_is_full
  append_entry entry c =
      take_entries_if_batch_is_full (record c { batched_entries = c.batched_entries ++ entry ∷ [] })

  unfoldable pub append_entries : List T → StateCache T C → Option (List T) × StateCache T C
  unfolding take_entries_if_batch_is_full
  append_entries entries c =
      take_entries_if_batch_is_full (record c { batched_entries = c.batched_entries ++ entries })

  unfoldable pub append_stopsign : StopSign C → StateCache T C → Option (List T) × StateCache T C
  unfolding take_batched_entries
  append_stopsign ss c =
      let c' : StateCache T C = record c { stopsign = some ss } in
      let (entries, c'') = take_batched_entries c' in
      if is_empty c'.batched_entries then (none, c') else (some entries, c'')

  unfoldable pub stopsign_is_decided : StateCache T C → Bool
  stopsign_is_decided c = is_some c.stopsign && c.decided_idx == c.accepted_idx
