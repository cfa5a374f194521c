-- ===== src/Clock.antt =====
-- `LogicalClock` of omnipaxos/src/util.rs.
pub mod Period
mod Tests
use omnipaxos.Prelude.{ℕ, Bool, true, false, ◌==◌, if◌then◌else◌}
use omnipaxos.Word.{inc_u64}

pub record LogicalClock : Type 0 where
  pub time : ℕ
  pub timeout : ℕ

-- `LogicalClock::with`.
unfoldable pub with_timeout : ℕ → LogicalClock
with_timeout timeout = record { time = 0; timeout = timeout }

unfoldable pub tick_and_check_timeout : LogicalClock → Bool × LogicalClock
tick_and_check_timeout c =
    let time = inc_u64 c.time in
    if time == c.timeout then (true, record c { time = 0 }) else (false, record c { time = time })
