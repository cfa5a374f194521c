-- ===== src/Election.antt =====
-- `BallotLeaderElection` of omnipaxos/src/ballot_leader_election.rs and its messages of
-- omnipaxos/src/messages.rs.
pub mod Rounds
mod Tests
use omnipaxos.Prelude.{
  ℕ, ◌+◌, Bool, true, false, not, ◌&&◌, Option, none, some, List, [], ◌∷◌, ◌++◌, length, count_if,
  any, all, ◌==◌, if◌then◌else◌,
}
use omnipaxos.Word.{inc_u32}
use omnipaxos.Ballot
use omnipaxos.Ballot.{Ballot}
use omnipaxos.Quorum.{FlexibleQuorum, Quorum, with_config, is_prepare_quorum, is_accept_quorum}
use omnipaxos.Paxos.{Role, Phase, is_leader, is_accept}

pub record HeartbeatRequest : Type 0 where
  pub round : ℕ

pub record HeartbeatReply : Type 0 where
  pub round : ℕ
  pub ballot : Ballot
  pub leader : Ballot
  pub happy : Bool

pub data HeartbeatMsg : Type 0 where
  request : HeartbeatRequest → HeartbeatMsg
  reply : HeartbeatReply → HeartbeatMsg

pub record BleMessage : Type 0 where
  pub from : ℕ
  pub to : ℕ
  pub msg : HeartbeatMsg

pub record BallotLeaderElection : Type 0 where
  pub configuration_id : ℕ
  pub pid : ℕ
  pub peers : List ℕ
  pub hb_round : ℕ
  pub heartbeat_replies : List HeartbeatReply
  pub prev_replies : List HeartbeatReply
  pub current_ballot : Ballot
  pub leader : Ballot
  pub happy : Bool
  pub quorum : Quorum
  pub outgoing : List BleMessage

-- `BLEConfig`, less the sizes of buffers.
pub record BleConfig : Type 0 where
  pub configuration_id : ℕ
  pub pid : ℕ
  pub peers : List ℕ
  pub priority : ℕ
  pub flexible_quorum : Option FlexibleQuorum

-- `INITIAL_ROUND` and `RECOVERY_ROUND`.
abbrev pub initial_round : ℕ
initial_round = 1

abbrev pub recovery_round : ℕ
recovery_round = 0

-- A request to each of a list of servers.
abbrev pub request_all : ℕ → ℕ → List ℕ → List BleMessage
request_all round from [] = []
request_all round from (peer ∷ peers) =
    record { from = from; to = peer; msg = HeartbeatMsg.request (record { round = round }) }
    ∷ request_all round from peers

unfoldable pub new_hb_round : BallotLeaderElection → BallotLeaderElection
new_hb_round e =
    let hb_round = inc_u32 e.hb_round in
    record e {
      prev_replies = e.heartbeat_replies;
      heartbeat_replies = [];
      hb_round = hb_round;
      outgoing = e.outgoing ++ request_all hb_round e.pid e.peers;
    }

-- The recovered promise, if it is more than the default.
abbrev pub recovered : Option Ballot → Option Ballot
recovered none = none
recovered (some b) = if Ballot.eq b Ballot.default then none else some b

-- `BallotLeaderElection::with`.
unfoldable pub with_ble_config : BleConfig → Option Ballot → BallotLeaderElection
unfolding new_hb_round with_config
with_ble_config config recovered_leader =
    let initial =
      Ballot.with_parts config.configuration_id initial_round config.priority config.pid in
    let (current_ballot, initial_leader) =
      elim (recovered recovered_leader) as (λ x. Ballot × Ballot) [
        | some b ↦ (record initial { n = recovery_round }, b)
        | none ↦ (initial, initial)
      ] in
    new_hb_round (record {
      configuration_id = config.configuration_id;
      pid = config.pid;
      peers = config.peers;
      hb_round = 0;
      heartbeat_replies = [];
      prev_replies = [];
      current_ballot = current_ballot;
      leader = initial_leader;
      happy = true;
      quorum = with_config config.flexible_quorum (length config.peers + 1);
      outgoing = [];
    })

unfoldable pub set_priority : ℕ → BallotLeaderElection → BallotLeaderElection
set_priority p e =
    let ballot = e.current_ballot in record e { current_ballot = record ballot { priority = p } }

-- `Iterator::max`, which keeps the last of equal ballots.
abbrev pub max_from : Ballot → List HeartbeatReply → Ballot
max_from b [] = b
max_from b (r ∷ rs) = max_from (if Ballot.lt r.ballot b then b else r.ballot) rs

abbrev pub max_ballot : List HeartbeatReply → Option Ballot
max_ballot [] = none
max_ballot (r ∷ rs) = some (max_from r.ballot rs)

unfoldable pub update_leader : BallotLeaderElection → BallotLeaderElection
update_leader e = elim (max_ballot e.heartbeat_replies) [
  | none ↦ e
  | some b ↦ if Ballot.lt e.leader b then record e { leader = b } else e
]

-- Whether this server, as the leader, can still form its quorum.
unfoldable pub can_form_quorum : Role × Phase → BallotLeaderElection → Bool
unfolding is_accept_quorum is_prepare_quorum
can_form_quorum seq_paxos_state e =
    let potential_followers =
      count_if (λ (r : HeartbeatReply). Ballot.le r.leader e.current_ballot) e.heartbeat_replies in
    if is_leader seq_paxos_state.0 && is_accept seq_paxos_state.1
    then is_accept_quorum e.quorum (potential_followers + 1)
    else is_prepare_quorum e.quorum (potential_followers + 1)

unfoldable pub update_happiness : Role × Phase → BallotLeaderElection → BallotLeaderElection
unfolding can_form_quorum
update_happiness seq_paxos_state e = record e {
  happy =
      if Ballot.eq e.leader e.current_ballot
      then (if can_form_quorum seq_paxos_state e
          then true
          else any (λ (r : HeartbeatReply). Ballot.lt e.current_ballot r.leader && r.happy)
              e.heartbeat_replies)
      else any (λ (r : HeartbeatReply). Ballot.eq r.ballot e.leader && r.happy) e.heartbeat_replies;
}

unfoldable pub check_takeover : BallotLeaderElection → BallotLeaderElection
unfolding is_prepare_quorum
check_takeover e =
    let all_neighbors_unhappy = all (λ (r : HeartbeatReply). not r.happy) e.heartbeat_replies in
    let im_quorum_connected = is_prepare_quorum e.quorum (length e.heartbeat_replies + 1) in
    let ballot = e.current_ballot in
    let ballot' : Ballot = record ballot { n = inc_u32 e.leader.n } in
    if not e.happy && (all_neighbors_unhappy && im_quorum_connected)
    then record e { current_ballot = ballot'; leader = ballot'; happy = true }
    else e

-- The promise of Sequence Paxos overrules a leader that is behind it.
unfoldable pub sync_promise : Ballot → BallotLeaderElection → BallotLeaderElection
sync_promise promise e =
    if Ballot.lt e.leader promise
    then record e {
      leader = promise;
      current_ballot = if promise.pid == e.pid then promise else e.current_ballot;
      happy = true;
    }
    else e

-- The ballot with which this server is to lead, if it is the leader.
unfoldable pub elected : BallotLeaderElection → Option Ballot
elected e = if Ballot.eq e.leader e.current_ballot then some e.current_ballot else none

unfoldable pub hb_timeout :
    Role × Phase → Ballot → BallotLeaderElection → Option Ballot × BallotLeaderElection
unfolding update_leader update_happiness check_takeover new_hb_round sync_promise elected
hb_timeout seq_paxos_state seq_paxos_promise e =
    let e' = check_takeover (update_happiness seq_paxos_state (update_leader e)) in
    let e'' = sync_promise seq_paxos_promise (new_hb_round e') in (elected e'', e'')

unfoldable pub handle_request : ℕ → HeartbeatRequest → BallotLeaderElection → BallotLeaderElection
handle_request from req e =
    let hb_reply : HeartbeatReply = record {
      round = req.round;
      ballot = e.current_ballot;
      leader = e.leader;
      happy = e.happy;
    } in
    record e {
      outgoing =
          e.outgoing ++ record { from = e.pid; to = from; msg = HeartbeatMsg.reply hb_reply } ∷ [];
    }

unfoldable pub handle_reply : HeartbeatReply → BallotLeaderElection → BallotLeaderElection
handle_reply rep e =
    if rep.round == e.hb_round && rep.ballot.config_id == e.configuration_id
    then record e { heartbeat_replies = e.heartbeat_replies ++ rep ∷ [] }
    else e

-- `BallotLeaderElection::handle`, on the parts of a message.
unfoldable pub handle_heartbeat : ℕ → HeartbeatMsg → BallotLeaderElection → BallotLeaderElection
unfolding handle_request handle_reply
handle_heartbeat from (HeartbeatMsg.request req) e = handle_request from req e
handle_heartbeat from (HeartbeatMsg.reply rep) e = handle_reply rep e

unfoldable pub handle : BleMessage → BallotLeaderElection → BallotLeaderElection
unfolding handle_heartbeat
handle m e = handle_heartbeat m.from m.msg e
