-- ===== src/Leader.antt =====
-- `LeaderState` and the types around it, of omnipaxos/src/util.rs. A vector that is indexed by
-- a pid out of range panics: such an operation returns `none`.
pub mod Promises
pub mod Chosen
mod Tests
use omnipaxos.Prelude.{
  ℕ, zero, suc, ◌+◌, Bool, true, false, not, ◌&&◌, ◌||◌, Option, none, some, List, [], ◌∷◌, ◌++◌,
  min, max, length, get_elem?, set, write?, replicate, count_if, ltb, leb, ◌==◌, if◌then◌else◌,
  Ordering, ◌>>=◌, map,
}
use omnipaxos.Word.{sub_u64, inc_u64}
use omnipaxos.Ballot
use omnipaxos.Ballot.{Ballot}
use omnipaxos.Sequence
use omnipaxos.Sequence.{SequenceNumber}
use omnipaxos.Quorum.{Quorum, is_prepare_quorum, is_accept_quorum}
use omnipaxos.Storage.{LogSync}
use omnipaxos.Messages.{Promise}

pub record PromiseMetaData : Type 0 where
  pub n_accepted : Ballot
  pub accepted_idx : ℕ
  pub decided_idx : ℕ
  pub pid : ℕ

-- `PartialOrd::partial_cmp` of `PromiseMetaData`.
unfoldable pub partial_cmp : PromiseMetaData → PromiseMetaData → Ordering
unfolding Ballot.lt
partial_cmp a b =
    if Ballot.eq a.n_accepted b.n_accepted && (a.accepted_idx == b.accepted_idx && a.pid == b.pid)
    then Ordering.eq
    else if Ballot.lt b.n_accepted a.n_accepted
        || (Ballot.eq a.n_accepted b.n_accepted && ltb b.accepted_idx a.accepted_idx)
    then Ordering.gt
    else Ordering.lt

-- `a > b`.
unfoldable pub gt : PromiseMetaData → PromiseMetaData → Bool
unfolding partial_cmp
gt a b = elim (partial_cmp a b) [ Ordering.gt ↦ true | _ ↦ false ]

-- The derived `Default`.
abbrev pub default : PromiseMetaData
default = record { n_accepted = Ballot.default; accepted_idx = 0; decided_idx = 0; pid = 0 }

pub data PromiseState : Type 0 where
  not_promised : PromiseState
  promised : PromiseMetaData → PromiseState
  promised_higher : PromiseState

pub record LeaderState (T C S : Type 0) : Type 0 where
  pub n_leader : Ballot
  pub promises_meta : List PromiseState
  pub follower_seq_nums : List SequenceNumber
  pub accepted_indexes : List ℕ
  pub max_promise_meta : PromiseMetaData
  pub max_promise_sync : Option (LogSync T C S)
  pub latest_accept_meta : List (Option (Ballot × ℕ))
  pub max_pid : ℕ
  pub quorum : Quorum

abbrev pub is_promised : PromiseState → Bool
is_promised (promised m) = true
is_promised not_promised = false
is_promised promised_higher = false

-- The decided indexes of the promises, and their maximum or 0.
abbrev pub max_decided : List PromiseState → ℕ
max_decided [] = 0
max_decided (promised m ∷ ps) = max m.decided_idx (max_decided ps)
max_decided (not_promised ∷ ps) = max_decided ps
max_decided (promised_higher ∷ ps) = max_decided ps

-- `Iterator::min`, `none` on an empty vector.
abbrev pub min_of : List ℕ → Option ℕ
min_of [] = none
min_of (x ∷ xs) = elim (min_of xs) [ none ↦ some x | some m ↦ some (min x m) ]

-- The pids, counted from `idx`, of those who have promised, but for the one at `own`.
abbrev pub promised_from : ℕ → ℕ → List PromiseState → List ℕ
promised_from own idx [] = []
promised_from own idx (p ∷ ps) =
    if is_promised p && not (idx == own)
    then (idx + 1) ∷ promised_from own (idx + 1) ps
    else promised_from own (idx + 1) ps

abbrev pub is_not_promised : PromiseState → Bool
is_not_promised not_promised = true
is_not_promised (promised m) = false
is_not_promised promised_higher = false

unfoldable pub pid_to_idx : ℕ → ℕ
pid_to_idx pid = sub_u64 pid 1

module _ {T C S : Type 0} where
  -- `LeaderState::with`.
  unfoldable pub with_leader : Ballot → ℕ → Quorum → LeaderState T C S
  with_leader n_leader max_pid quorum = record {
    n_leader = n_leader;
    promises_meta = replicate max_pid not_promised;
    follower_seq_nums = replicate max_pid Sequence.default;
    accepted_indexes = replicate max_pid 0;
    max_promise_meta = default;
    max_promise_sync = none;
    latest_accept_meta = replicate max_pid none;
    max_pid = max_pid;
    quorum = quorum;
  }

  unfoldable pub increment_seq_num_session : ℕ → LeaderState T C S → Option (LeaderState T C S)
  increment_seq_num_session pid l = do
    s ← get_elem? l.follower_seq_nums (pid_to_idx pid)
    let s' : SequenceNumber = record { session = inc_u64 s.session; counter = 0 }
    some (record l { follower_seq_nums = set l.follower_seq_nums (pid_to_idx pid) s' })

  unfoldable pub next_seq_num : ℕ → LeaderState T C S → Option (SequenceNumber × LeaderState T C S)
  next_seq_num pid l = do
    s ← get_elem? l.follower_seq_nums (pid_to_idx pid)
    let s' : SequenceNumber = record s { counter = inc_u64 s.counter }
    some (s', record l { follower_seq_nums = set l.follower_seq_nums (pid_to_idx pid) s' })

  unfoldable pub get_seq_num : ℕ → LeaderState T C S → Option SequenceNumber
  get_seq_num pid l = get_elem? l.follower_seq_nums (pid_to_idx pid)

  abbrev pub meta_of : Promise T C S → ℕ → PromiseMetaData
  meta_of prom from = record {
    n_accepted = prom.n_accepted;
    accepted_idx = prom.accepted_idx;
    decided_idx = prom.decided_idx;
    pid = from;
  }

  -- The maximum promise, updated by a promise.
  unfoldable pub update_max : Promise T C S → ℕ → Bool → LeaderState T C S → LeaderState T C S
  unfolding gt
  update_max prom from check_max_prom l =
      if check_max_prom && gt (meta_of prom from) l.max_promise_meta
      then record l { max_promise_meta = meta_of prom from; max_promise_sync = prom.log_sync }
      else l

  -- Whether the promises make a prepare quorum is the result.
  unfoldable pub set_promise :
      Promise T C S → ℕ → Bool → LeaderState T C S → Option (Bool × LeaderState T C S)
  unfolding update_max is_prepare_quorum
  set_promise prom from check_max_prom l = do
    let l' = update_max prom from check_max_prom l
    ps ← write? l'.promises_meta (pid_to_idx from) (promised (meta_of prom from))
    some (is_prepare_quorum l'.quorum (count_if is_promised ps), record l' { promises_meta = ps })

  unfoldable pub reset_promise : ℕ → LeaderState T C S → Option (LeaderState T C S)
  reset_promise pid l = do
    ps ← write? l.promises_meta (pid_to_idx pid) not_promised
    some (record l { promises_meta = ps })

  unfoldable pub lost_promise : ℕ → LeaderState T C S → Option (LeaderState T C S)
  lost_promise pid l = do
    ps ← write? l.promises_meta (pid_to_idx pid) promised_higher
    some (record l { promises_meta = ps })

  unfoldable pub take_max_promise_sync :
      LeaderState T C S → Option (LogSync T C S) × LeaderState T C S
  take_max_promise_sync l = (l.max_promise_sync, record l { max_promise_sync = none })

  unfoldable pub get_max_decided_idx : LeaderState T C S → ℕ
  get_max_decided_idx l = max_decided l.promises_meta

  unfoldable pub get_promise_meta : ℕ → LeaderState T C S → Option PromiseMetaData
  get_promise_meta pid l = do
    p ← get_elem? l.promises_meta (pid_to_idx pid)
    elim p [ promised m ↦ some m | not_promised ↦ none | promised_higher ↦ none ]

  unfoldable pub get_min_all_accepted_idx : LeaderState T C S → Option ℕ
  get_min_all_accepted_idx l = min_of l.accepted_indexes

  unfoldable pub reset_latest_accept_meta : LeaderState T C S → LeaderState T C S
  reset_latest_accept_meta l = record l { latest_accept_meta = replicate l.max_pid none }

  unfoldable pub get_promised_followers : LeaderState T C S → List ℕ
  get_promised_followers l = promised_from (pid_to_idx l.n_leader.pid) 0 l.promises_meta

  unfoldable pub get_preparable_peers : List ℕ → LeaderState T C S → Option (List ℕ)
  get_preparable_peers [] l = some []
  get_preparable_peers (pid ∷ peers) l =
      let rest = get_preparable_peers peers l in
      (get_elem? l.promises_meta (pid_to_idx pid)) >>= λ p.
      rest >>= λ ps. some (if is_not_promised p then pid ∷ ps else ps)

  unfoldable pub set_latest_accept_meta :
      ℕ → Option ℕ → LeaderState T C S → Option (LeaderState T C S)
  set_latest_accept_meta pid idx l = do
    let meta : Option (Ballot × ℕ) = elim idx [ none ↦ none | some x ↦ some (l.n_leader, x) ]
    ms ← write? l.latest_accept_meta (pid_to_idx pid) meta
    some (record l { latest_accept_meta = ms })

  unfoldable pub set_accepted_idx : ℕ → ℕ → LeaderState T C S → Option (LeaderState T C S)
  set_accepted_idx pid idx l = do
    is ← write? l.accepted_indexes (pid_to_idx pid) idx
    some (record l { accepted_indexes = is })

  unfoldable pub get_latest_accept_meta : ℕ → LeaderState T C S → Option (Option (Ballot × ℕ))
  get_latest_accept_meta pid l = get_elem? l.latest_accept_meta (pid_to_idx pid)

  unfoldable pub get_decided_idx : ℕ → LeaderState T C S → Option (Option ℕ)
  get_decided_idx pid l = do
    p ← get_elem? l.promises_meta (pid_to_idx pid)
    some (elim p [ promised m ↦ some m.decided_idx | not_promised ↦ none | promised_higher ↦ none ])

  unfoldable pub get_accepted_idx : ℕ → LeaderState T C S → Option ℕ
  get_accepted_idx pid l = get_elem? l.accepted_indexes (pid_to_idx pid)

  unfoldable pub is_chosen : ℕ → LeaderState T C S → Bool
  unfolding is_accept_quorum
  is_chosen idx l = is_accept_quorum l.quorum (count_if (λ la. leb idx la) l.accepted_indexes)
