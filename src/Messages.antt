-- ===== src/Messages.antt =====
-- The messages of Sequence Paxos: `sequence_paxos` of omnipaxos/src/messages.rs, without the
-- feature `unicache`.
use omnipaxos.Prelude.{ℕ, Option, List}
use omnipaxos.Ballot.{Ballot}
use omnipaxos.Sequence.{SequenceNumber}
use omnipaxos.Storage.{StopSign, LogSync}

pub record PrepareReq : Type 0 where
  pub n : Ballot

pub record Prepare : Type 0 where
  pub n : Ballot
  pub decided_idx : ℕ
  pub n_accepted : Ballot
  pub accepted_idx : ℕ

pub record Promise (T C S : Type 0) : Type 0 where
  pub n : Ballot
  pub n_accepted : Ballot
  pub decided_idx : ℕ
  pub accepted_idx : ℕ
  pub log_sync : Option (LogSync T C S)

pub record AcceptSync (T C S : Type 0) : Type 0 where
  pub n : Ballot
  pub seq_num : SequenceNumber
  pub decided_idx : ℕ
  pub log_sync : LogSync T C S

pub record AcceptDecide (T : Type 0) : Type 0 where
  pub n : Ballot
  pub seq_num : SequenceNumber
  pub decided_idx : ℕ
  pub entries : List T

pub record Accepted : Type 0 where
  pub n : Ballot
  pub accepted_idx : ℕ

pub record Decide : Type 0 where
  pub n : Ballot
  pub seq_num : SequenceNumber
  pub decided_idx : ℕ

pub record AcceptStopSign (C : Type 0) : Type 0 where
  pub n : Ballot
  pub seq_num : SequenceNumber
  pub ss : StopSign C

pub record NotAccepted : Type 0 where
  pub n : Ballot

pub data Compaction : Type 0 where
  trim : ℕ → Compaction
  snapshot : Option ℕ → Compaction

pub data PaxosMsg (T C S : Type 0) : Type 0 where
  prepare_req : PrepareReq → PaxosMsg T C S
  prepare : Prepare → PaxosMsg T C S
  promise : Promise T C S → PaxosMsg T C S
  accept_sync : AcceptSync T C S → PaxosMsg T C S
  accept_decide : AcceptDecide T → PaxosMsg T C S
  accepted : Accepted → PaxosMsg T C S
  not_accepted : NotAccepted → PaxosMsg T C S
  decide : Decide → PaxosMsg T C S
  proposal_forward : List T → PaxosMsg T C S
  compaction : Compaction → PaxosMsg T C S
  accept_stop_sign : AcceptStopSign C → PaxosMsg T C S
  forward_stop_sign : StopSign C → PaxosMsg T C S

pub record PaxosMessage (T C S : Type 0) : Type 0 where
  pub from : ℕ
  pub to : ℕ
  pub msg : PaxosMsg T C S
