-- ===== src/Clock/Tests.antt =====
-- Runs of the clock, and its theorems at one timeout.
use omnipaxos.Prelude.{◌≡◌, refl, ◌+◌, ◌%◌, true, false, arith, ◌==◌}
use omnipaxos.Word.{inc_u64}
use omnipaxos.Clock.{with_timeout}
use omnipaxos.Clock.Period.{answer_after, answer_periodic, answer_zero}

answer_after-five : answer_after 9 (with_timeout 5) ≡ true
unfolding answer_after with_timeout inc_u64
answer_after-five = refl

answer_periodic_example : answer_after 12 (with_timeout 5) ≡ ((12 + 1) % 5 == 0)
answer_periodic_example = answer_periodic 12 5 (omega arith) (omega arith)

answer_zero_example : answer_after 1000 (with_timeout 0) ≡ false
answer_zero_example = answer_zero 1000 (omega arith)
