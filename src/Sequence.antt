-- ===== src/Sequence.antt =====
-- `SequenceNumber` and `MessageStatus` of omnipaxos/src/util.rs.
pub mod Order
mod Tests
use omnipaxos.Prelude.{ℕ, Bool, ◌&&◌, ◌||◌, ◌==◌, ltb, leb, if◌then◌else◌}
use omnipaxos.Word.{inc_u64}

pub record SequenceNumber : Type 0 where
  pub session : ℕ
  pub counter : ℕ

pub data MessageStatus : Type 0 where
  expected dropped_preceding outdated : MessageStatus

-- The derived `Default`.
abbrev pub default : SequenceNumber
default = record { session = 0; counter = 0 }

-- The derived `PartialOrd`, which compares the session first.
abbrev pub le : SequenceNumber → SequenceNumber → Bool
le a b = ltb a.session b.session || (a.session == b.session && leb a.counter b.counter)

unfoldable pub check_msg_status : SequenceNumber → SequenceNumber → MessageStatus
check_msg_status current msg =
    if msg.session == current.session && msg.counter == inc_u64 current.counter
    then expected
    else if le msg current
    then outdated
    else dropped_preceding
