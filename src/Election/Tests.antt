-- ===== src/Election/Tests.antt =====
-- Runs of a heartbeat round, and its theorems at one server.
use omnipaxos.Prelude.{
  ℕ, ◌≡◌, refl, ◌+◌, ◌^◌, ◌<◌, ◌⊎◌, not, Bool, true, false, some, [], ◌∷◌, all, arith,
}
use omnipaxos.Word.{inc_u32}
use omnipaxos.Ballot
use omnipaxos.Ballot.{Ballot}
use omnipaxos.Ballot.Order.{Le, Lt}
use omnipaxos.Quorum.{Quorum, is_prepare_quorum}
use omnipaxos.Paxos.{follower, accept}
use omnipaxos.Election.{
  BallotLeaderElection, HeartbeatReply, hb_timeout, update_leader, check_takeover,
}
use omnipaxos.Election.Rounds.{
  AllBelow, IsOwn, hb_timeout-le, check_takeover_cases, hb_timeout_elects,
}

abbrev ballot : ℕ → ℕ → Ballot
ballot n pid = record { config_id = 1; n = n; priority = 0; pid = pid }

abbrev reply_of : ℕ → Bool → HeartbeatReply
reply_of pid happy = record { round = 7; ballot = ballot 1 pid; leader = ballot 4 3; happy = happy }

-- Server 1 of three follows server 3, from which it has no heartbeat; server 2 is unhappy too.
abbrev server : BallotLeaderElection
server = record {
  configuration_id = 1;
  pid = 1;
  peers = 2 ∷ 3 ∷ [];
  hb_round = 7;
  heartbeat_replies = reply_of 2 false ∷ [];
  prev_replies = [];
  current_ballot = ballot 1 1;
  leader = ballot 4 3;
  happy = false;
  quorum = Quorum.majority 2;
  outgoing = [];
}

takes_over : (hb_timeout (follower, accept) (ballot 4 3) server).0 ≡ some (ballot 5 1)
unfolding hb_timeout Ballot.lt Ballot.le Ballot.cmp inc_u32
takes_over = refl

server-fits : (update_leader server).leader.n + 1 < 2 ^ 32
unfolding update_leader Ballot.lt Ballot.cmp
server-fits = omega arith

hb_timeout-le_example :
    Le (ballot 4 3) (hb_timeout (follower, accept) (ballot 4 3) server).1.leader
    × Le (ballot 4 3) (hb_timeout (follower, accept) (ballot 4 3) server).1.leader
    × AllBelow (hb_timeout (follower, accept) (ballot 4 3) server).1.leader (reply_of 2 false ∷ [])
hb_timeout-le_example = hb_timeout-le (follower, accept) (ballot 4 3) server server-fits

check_takeover_cases_example :
    (check_takeover server ≡ server)
    ⊎ ((false ≡ false)
        × (all (λ (r : HeartbeatReply). not r.happy) (reply_of 2 false ∷ []) ≡ true)
        × (is_prepare_quorum (Quorum.majority 2) (1 + 1) ≡ true)
        × Lt (ballot 4 3) (check_takeover server).leader
        × ((check_takeover server).current_ballot ≡ (check_takeover server).leader)
        × ((check_takeover server).leader.pid ≡ 1))
check_takeover_cases_example = check_takeover_cases server (omega arith)

hb_timeout_elects_example :
    ((ballot 5 1).pid ≡ 1)
    × ((hb_timeout (follower, accept) (ballot 4 3) server).1.leader ≡ ballot 5 1)
    × ((hb_timeout (follower, accept) (ballot 4 3) server).1.current_ballot ≡ ballot 5 1)
    × IsOwn (hb_timeout (follower, accept) (ballot 4 3) server).1
hb_timeout_elects_example =
    hb_timeout_elects (follower, accept) (ballot 4 3) (ballot 5 1) server refl takes_over
