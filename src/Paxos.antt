-- ===== src/Paxos.antt =====
-- `SequencePaxos` of omnipaxos/src/sequence_paxos/mod.rs: its state and what both roles use. The
-- handlers of the two roles and the dispatch of messages are children. `none` is a panic.
pub mod FollowerRole
pub mod LeaderRole
pub mod Replica
pub mod Frame
pub mod Kept
pub mod Handled
pub mod Decisions
pub mod Guards
pub mod Accepting
pub mod Local
mod Tests
pub mod Pointers
pub mod Synchronised
pub mod Promised
pub mod Trimming
pub mod Opening
pub mod Leading
use omnipaxos.Prelude.{
  ℕ, ◌+◌, Bool, true, false, not, ◌&&◌, ◌||◌, Option, none, some, List, [], ◌∷◌, ◌++◌, length,
  is_empty, ltb, leb, ◌==◌, if◌then◌else◌, ◌>>=◌,
}
use omnipaxos.Ballot
use omnipaxos.Ballot.{Ballot}
use omnipaxos.Sequence.{SequenceNumber}
use omnipaxos.Storage.{StopSign, Snapshot, SnapshotType, LogSync, StorageResult, ok, err}
use omnipaxos.Storage.Cache.{is_some}
use omnipaxos.Storage.Memory
use omnipaxos.Storage.Internal.{InternalStorage}
use omnipaxos.Storage.Internal.Compaction.{create_diff_snapshot}
use omnipaxos.Leader.{LeaderState}
use omnipaxos.Messages.{PrepareReq, Promise, PaxosMsg, PaxosMessage}

pub data Role : Type 0 where
  follower leader : Role

pub data Phase : Type 0 where
  prepare accept recover idle : Phase

pub record SequencePaxos (T C S : Type 0) : Type 0 where
  pub internal_storage : InternalStorage T C S
  pub pid : ℕ
  pub peers : List ℕ
  pub state : Role × Phase
  pub buffered_proposals : List T
  pub buffered_stopsign : Option (StopSign C)
  pub outgoing : List (PaxosMessage T C S)
  pub leader_state : LeaderState T C S
  pub latest_accepted_meta : Option (Ballot × ℕ)
  pub current_seq_num : SequenceNumber
  pub cached_promise_message : Option (Promise T C S)

abbrev pub is_leader : Role → Bool
is_leader leader = true
is_leader follower = false

abbrev pub is_accept : Phase → Bool
is_accept accept = true
is_accept prepare = false
is_accept recover = false
is_accept idle = false

abbrev pub is_prepare : Phase → Bool
is_prepare prepare = true
is_prepare accept = false
is_prepare recover = false
is_prepare idle = false

abbrev pub is_recover : Phase → Bool
is_recover recover = true
is_recover prepare = false
is_recover accept = false
is_recover idle = false

-- `Result::expect`, on a result of the storage.
abbrev pub expect : {A : Type 0} → StorageResult A → Option A
expect (ok a) = some a
expect (err e) = none

-- A `for` loop whose body may panic.
unfoldable pub for_each {ℓ κ} :
    {A : Type ℓ} {P : Type κ} → List A → (A → P → Option P) → P → Option P
for_each [] body p = some p
for_each (x ∷ xs) body p = body x p >>= for_each xs body

module _ {T C S : Type 0} where
  -- `get_promise`, `get_current_leader` and `accepted_reconfiguration`.
  abbrev pub get_promise : SequencePaxos T C S → Ballot
  get_promise p = p.internal_storage.state_cache.promise

  abbrev pub get_current_leader : SequencePaxos T C S → ℕ
  get_current_leader p = (get_promise p).pid

  abbrev pub accepted_reconfiguration : SequencePaxos T C S → Bool
  accepted_reconfiguration p = is_some p.internal_storage.state_cache.stopsign

  -- `self.outgoing.push`, with this server as the sender.
  abbrev pub push : ℕ → PaxosMsg T C S → SequencePaxos T C S → SequencePaxos T C S
  push to msg p = record p {
    outgoing = p.outgoing ++ record { from = p.pid; to = to; msg = msg } ∷ [];
  }

  -- The same message to each of a list of servers.
  unfoldable pub push_all : List ℕ → PaxosMsg T C S → SequencePaxos T C S → SequencePaxos T C S
  push_all [] msg p = p
  push_all (to ∷ pids) msg p = push_all pids msg (push to msg p)

  unfoldable pub forward_proposals : List T → SequencePaxos T C S → SequencePaxos T C S
  forward_proposals entries p =
      let leader_pid = get_current_leader p in
      if ltb 0 leader_pid && not (p.pid == leader_pid)
      then push leader_pid (PaxosMsg.proposal_forward entries) p
      else record p { buffered_proposals = p.buffered_proposals ++ entries }

  unfoldable pub forward_stopsign : StopSign C → SequencePaxos T C S → SequencePaxos T C S
  forward_stopsign ss p =
      let leader_pid = get_current_leader p in
      if ltb 0 leader_pid && not (p.pid == leader_pid)
      then push leader_pid (PaxosMsg.forward_stop_sign ss) p
      else if not (is_some p.buffered_stopsign)
      then record p { buffered_stopsign = some ss }
      else p

  unfoldable pub reconnected : ℕ → SequencePaxos T C S → SequencePaxos T C S
  reconnected pid p =
      let p' : SequencePaxos T C S =
        if pid == get_current_leader p then record p { state = (follower, recover) } else p in
      if pid == p.pid then p else push pid (PaxosMsg.prepare_req (record { n = get_promise p })) p'

module _ {T C S : Type 0} (snap : Snapshot T S) where
  unfoldable pub create_log_sync : ℕ → ℕ → SequencePaxos T C S → Option (LogSync T C S)
  unfolding create_diff_snapshot Memory.get_suffix
  create_log_sync common_prefix_idx other_logs_decided_idx p =
      let st = p.internal_storage in
      let decided_idx = st.state_cache.decided_idx in
      if snap.use_snapshots && ltb common_prefix_idx decided_idx
      then (do
        delta ← expect (create_diff_snapshot snap other_logs_decided_idx st)
        some (record {
          decided_snapshot = delta.0;
          suffix = Memory.get_suffix decided_idx st.storage;
          sync_idx = delta.1;
          stopsign = st.state_cache.stopsign;
        }))
      else some (record {
        decided_snapshot = none;
        suffix = Memory.get_suffix common_prefix_idx st.storage;
        sync_idx = common_prefix_idx;
        stopsign = st.state_cache.stopsign;
      })
