-- ===== src/Election/Rounds.antt =====
-- What a heartbeat round does to the leader and to the server's own ballot
-- (omnipaxos/src/ballot_leader_election.rs).
use omnipaxos.Prelude.{
  ◌+◌, ◌^◌, ◌<◌, ◌≡◌, ◌∙◌, refl, subst, ◌⊎◌, inl, inr, true, false, not, some, List, [], ◌∷◌,
  length, all, arith, Bool-cases,
}
use omnipaxos.Word.{inc_u32, inc_u32_lem}
use omnipaxos.Ballot
use omnipaxos.Ballot.{Ballot}
use omnipaxos.Ballot.Order.{Le, Lt, le_refl, le_trans, le_of_lt, le_of_not_lt, lt_of_n, eq→≡}
use omnipaxos.Quorum.{is_prepare_quorum}
use omnipaxos.Paxos.{Role, Phase}
use omnipaxos.Election.{
  BallotLeaderElection, HeartbeatReply, new_hb_round, max_from, update_leader, update_happiness,
  check_takeover, sync_promise, elected, hb_timeout,
}

-- No reply carries a ballot above `b`.
abbrev pub AllBelow : Ballot → List HeartbeatReply → Type 0
AllBelow b [] = Unit
AllBelow b (r ∷ rs) = Le r.ballot b × AllBelow b rs

-- The maximum is at least each of the ballots.
max_from-ge :
    (b : Ballot) (rs : List HeartbeatReply) → Le b (max_from b rs) × AllBelow (max_from b rs) rs
max_from-ge b [] = (le_refl b, tt)
max_from-ge b (r ∷ rs) = elim (Bool-cases (Ballot.lt r.ballot b)) [
  | inl less ↦
      let rest = max_from-ge b rs in
      let same : max_from b rs ≡ max_from b (r ∷ rs) = rw less refl in
      subst (λ m. Le b m × AllBelow m (r ∷ rs)) same
        (rest.0, (le_trans r.ballot b _ (le_of_lt r.ballot b less) rest.0, rest.1))
  | inr more ↦
      let rest = max_from-ge r.ballot rs in
      let same : max_from r.ballot rs ≡ max_from b (r ∷ rs) = rw more refl in
      subst (λ m. Le b m × AllBelow m (r ∷ rs)) same
        (le_trans b r.ballot _ (le_of_not_lt r.ballot b more) rest.0, rest)
]

AllBelow-le : (a b : Ballot) (rs : List HeartbeatReply) → Le a b → AllBelow a rs → AllBelow b rs
AllBelow-le a b [] le h = tt
AllBelow-le a b (r ∷ rs) le h = (le_trans r.ballot a b h.0 le, AllBelow-le a b rs le h.1)

update_leader-ge :
    (e : BallotLeaderElection) (rs : List HeartbeatReply)
    → e.heartbeat_replies ≡ rs
    → Le e.leader (update_leader e).leader × AllBelow (update_leader e).leader rs
unfolding update_leader
update_leader-ge e [] same = rw (same, update_leader) (le_refl e.leader, tt)
update_leader-ge e (r ∷ rs) same = elim (Bool-cases (Ballot.lt e.leader (max_from r.ballot rs))) [
  | inl less ↦
      let found : max_from r.ballot rs ≡ (update_leader e).leader =
        rw (same, update_leader) (rw less refl) in
      subst (λ m. Le e.leader m × AllBelow m (r ∷ rs)) found
        (le_of_lt e.leader _ less, max_from-ge r.ballot rs)
  | inr more ↦
      let found : e.leader ≡ (update_leader e).leader = rw (same, update_leader) (rw more refl) in
      subst (λ m. Le e.leader m × AllBelow m (r ∷ rs)) found
        (
          le_refl e.leader,
          AllBelow-le _ e.leader (r ∷ rs) (le_of_not_lt e.leader _ more) (max_from-ge r.ballot rs),
        )
]

check_takeover-le :
    (e : BallotLeaderElection) → e.leader.n + 1 < 2 ^ 32 → Le e.leader (check_takeover e).leader
unfolding check_takeover
check_takeover-le e fits = ground (
  arith,
  le_refl e.leader,
  inc_u32_lem e.leader.n fits,
  le_of_lt e.leader (record (e.current_ballot) { n = inc_u32 e.leader.n }),
  lt_of_n e.leader (record (e.current_ballot) { n = inc_u32 e.leader.n }),
)

sync_promise-le :
    (b : Ballot) (e : BallotLeaderElection)
    → Le e.leader (sync_promise b e).leader × Le b (sync_promise b e).leader
unfolding sync_promise
sync_promise-le b e =
    ground (arith, le_refl e.leader, le_refl b, le_of_lt e.leader b, le_of_not_lt e.leader b)

-- The leader that a server follows never falls behind: unless the number of its round wraps, it
-- ranks after a heartbeat round at least as high as before, as every ballot that the round has
-- seen, and as the promise of Sequence Paxos.
pub hb_timeout-le :
    (s : Role × Phase) (promise : Ballot) (e : BallotLeaderElection)
    → (update_leader e).leader.n + 1 < 2 ^ 32
    → let e' = (hb_timeout s promise e).1 in
      Le e.leader e'.leader × Le promise e'.leader × AllBelow e'.leader e.heartbeat_replies
unfolding hb_timeout
hb_timeout-le s promise e fits =
    let found = update_leader-ge e e.heartbeat_replies refl in
    let taken = check_takeover-le (update_happiness s (update_leader e)) fits in
    let synced =
      sync_promise-le promise
        (new_hb_round (check_takeover (update_happiness s (update_leader e)))) in
    let up = le_trans _ _ _ taken synced.0 in
    (le_trans e.leader _ _ found.0 up, synced.1, AllBelow-le _ _ e.heartbeat_replies up found.1)

-- Unless the number of the round wraps: `check_takeover` leaves the server as it is, or the server
-- and all that it has heard from are unhappy and make a prepare quorum; then its new ballot
-- carries its pid, ranks above the leader that it followed, and becomes the leader that it
-- follows.
pub check_takeover_cases :
    (e : BallotLeaderElection)
    → e.leader.n + 1 < 2 ^ 32
    → (check_takeover e ≡ e)
      ⊎ ((e.happy ≡ false)
          × (all (λ (r : HeartbeatReply). not r.happy) e.heartbeat_replies ≡ true)
          × (is_prepare_quorum e.quorum (length e.heartbeat_replies + 1) ≡ true)
          × Lt e.leader (check_takeover e).leader
          × ((check_takeover e).current_ballot ≡ (check_takeover e).leader)
          × ((check_takeover e).leader.pid ≡ e.current_ballot.pid))
unfolding check_takeover
check_takeover_cases e fits = ground (
  arith,
  inc_u32_lem e.leader.n fits,
  lt_of_n e.leader (record (e.current_ballot) { n = inc_u32 e.leader.n }),
)

-- The server's own ballot carries its own pid.
abbrev pub IsOwn : BallotLeaderElection → Type 0
IsOwn e = e.current_ballot.pid ≡ e.pid

update_leader-IsOwn : (e : BallotLeaderElection) → IsOwn e → IsOwn (update_leader e)
unfolding update_leader
update_leader-IsOwn e own = ground arith

check_takeover-IsOwn : (e : BallotLeaderElection) → IsOwn e → IsOwn (check_takeover e)
unfolding check_takeover
check_takeover-IsOwn e own = ground arith

sync_promise-IsOwn : (b : Ballot) (e : BallotLeaderElection) → IsOwn e → IsOwn (sync_promise b e)
unfolding sync_promise
sync_promise-IsOwn b e own = ground arith

update_leader-pid : (e : BallotLeaderElection) → (update_leader e).pid ≡ e.pid
unfolding update_leader
update_leader-pid e = ground arith

check_takeover-pid : (e : BallotLeaderElection) → (check_takeover e).pid ≡ e.pid
unfolding check_takeover
check_takeover-pid e = ground arith

sync_promise-pid : (b : Ballot) (e : BallotLeaderElection) → (sync_promise b e).pid ≡ e.pid
unfolding sync_promise
sync_promise-pid b e = ground arith

hb_timeout-pid :
    (s : Role × Phase) (promise : Ballot) (e : BallotLeaderElection)
    → (hb_timeout s promise e).1.pid ≡ e.pid
unfolding hb_timeout new_hb_round update_happiness
hb_timeout-pid s promise e =
    let e' = update_happiness s (update_leader e) in
    sync_promise-pid promise (new_hb_round (check_takeover e'))
    ∙ (check_takeover-pid e' ∙ update_leader-pid e)

hb_timeout-IsOwn :
    (s : Role × Phase) (promise : Ballot) (e : BallotLeaderElection)
    → IsOwn e
    → IsOwn (hb_timeout s promise e).1
unfolding hb_timeout new_hb_round update_happiness
hb_timeout-IsOwn s promise e own =
    let e' = update_happiness s (update_leader e) in
    sync_promise-IsOwn promise (new_hb_round (check_takeover e'))
      (check_takeover-IsOwn e' (update_leader-IsOwn e own))

elected_lem :
    (e : BallotLeaderElection) (b : Ballot)
    → elected e ≡ some b
    → (e.leader ≡ b) × (e.current_ballot ≡ b)
unfolding elected
elected_lem e b h = ground (arith, eq→≡ e.leader e.current_ballot)

-- Where the server's own ballot carries its pid: `hb_timeout` reports a ballot only if it carries
-- the pid of this server and is the leader that it then follows and the ballot that it then holds;
-- its own ballot still carries its pid.
pub hb_timeout_elects :
    (s : Role × Phase) (promise b : Ballot) (e : BallotLeaderElection)
    → IsOwn e
    → (hb_timeout s promise e).0 ≡ some b
    → let e' = (hb_timeout s promise e).1 in
      (b.pid ≡ e.pid) × (e'.leader ≡ b) × (e'.current_ballot ≡ b) × IsOwn e'
unfolding hb_timeout
hb_timeout_elects s promise b e own h =
    let mine = hb_timeout-IsOwn s promise e own in
    let (led, held) = elected_lem (hb_timeout s promise e).1 b h in
    (cc (hb_timeout-pid s promise e), led, held, mine)
