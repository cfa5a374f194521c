-- ===== src/Sequence/Tests.antt =====
-- Runs of the check, and its theorems at one follower.
use omnipaxos.Prelude.{ℕ, ◌≡◌, refl, ◌<◌, ◌⊎◌, ◌↔◌, ◌+◌, true, List, [], ◌∷◌, length, arith}
use omnipaxos.Word.{inc_u64}
use omnipaxos.Sequence.{SequenceNumber, dropped_preceding, outdated, le, check_msg_status}
use omnipaxos.Sequence.Order.{passed, following, passed_consecutive, check_msg_status_iff}

abbrev number : ℕ → ℕ → SequenceNumber
number session counter = record { session = session; counter = counter }

-- A repetition, a gap and a message of an older session are not let through.
abbrev arrivals : List SequenceNumber
arrivals = number 2 4 ∷ number 2 4 ∷ number 1 5 ∷ number 2 6 ∷ number 2 5 ∷ []

passed-arrivals : passed (number 2 3) arrivals ≡ number 2 4 ∷ number 2 5 ∷ []
unfolding passed check_msg_status inc_u64
passed-arrivals = refl

passed_consecutive_example :
    passed (number 2 3) arrivals ≡ following (number 2 3) (length (passed (number 2 3) arrivals))
passed_consecutive_example = passed_consecutive (number 2 3) arrivals (omega arith)

check_msg_status_iff_example :
    ((check_msg_status (number 2 3) (number 2 5) ≡ outdated)
      ↔ (le (number 2 5) (number 2 3) ≡ true))
    × ((check_msg_status (number 2 3) (number 2 5) ≡ dropped_preceding)
        ↔ ((2 < (number 2 5).session) ⊎ (((number 2 5).session ≡ 2) × (3 + 1 < 5))))
check_msg_status_iff_example = check_msg_status_iff (number 2 3) (number 2 5) (omega arith)
