-- ===== src/Sequence/Order.antt =====
-- The order in which a follower lets the messages of a leader through.
use omnipaxos.Prelude.{
  ℕ, zero, suc, ◌+◌, ◌^◌, ◌≡◌, refl, ◌<◌, ◌↔◌, ◌⊎◌, ap, Bool, true, false, Bool-cases, inl, inr,
  List, [], ◌∷◌, length, arith, if◌then◌else◌,
}
use omnipaxos.Word.{inc_u64_lem}
use omnipaxos.Sequence.{
  SequenceNumber, MessageStatus, expected, dropped_preceding, outdated, le, check_msg_status,
}

abbrev is_expected : MessageStatus → Bool
is_expected expected = true
is_expected _ = false

-- The numbers that pass the check, out of those that arrive, each of which becomes the current one.
unfoldable pub passed : SequenceNumber → List SequenceNumber → List SequenceNumber
passed c [] = []
passed c (m ∷ ms) =
    let next = m ∷ passed m ms in
    let same = passed c ms in if is_expected (check_msg_status c m) then next else same

-- The `k` numbers that follow a number in its session.
abbrev pub following : SequenceNumber → ℕ → List SequenceNumber
following c zero = []
following c (suc k) =
    let next : SequenceNumber = record { session = c.session; counter = c.counter + 1 } in
    next ∷ following next k

check_expected :
    (c m : SequenceNumber)
    → c.counter + 1 < 2 ^ 64
    → is_expected (check_msg_status c m) ≡ true
    → m ≡ record { session = c.session; counter = c.counter + 1 }
unfolding check_msg_status
check_expected c m h e = ground (arith, inc_u64_lem c.counter)

-- Whatever numbers arrive, in whatever order and however often, as long as the counter cannot
-- wrap: those that pass the check are the numbers that follow the current one in its session,
-- without a gap or a repetition.
pub passed_consecutive :
    (c : SequenceNumber) (ms : List SequenceNumber)
    → c.counter + length ms < 2 ^ 64
    → passed c ms ≡ following c (length (passed c ms))
unfolding passed
passed_consecutive c [] h = refl
passed_consecutive c (m ∷ ms) h = elim (Bool-cases (is_expected (check_msg_status c m))) [
  | inl e ↦
      let next = check_expected c m (omega arith) e in
      rw e (
        cc (
          next,
          passed_consecutive m ms (omega (arith, ap (λ (s : SequenceNumber). s.counter) next)),
        ))
  | inr e ↦ rw e (passed_consecutive c ms (omega arith))
]

-- Unless the counter wraps: a number is outdated just if it is not above the current one, and it
-- is found that a message is missing just if the number is of a later session, or beyond the next
-- one of this session.
pub check_msg_status_iff :
    (c m : SequenceNumber)
    → c.counter + 1 < 2 ^ 64
    → ((check_msg_status c m ≡ outdated) ↔ (le m c ≡ true))
      × ((check_msg_status c m ≡ dropped_preceding)
          ↔ ((c.session < m.session) ⊎ ((m.session ≡ c.session) × (c.counter + 1 < m.counter))))
unfolding check_msg_status
check_msg_status_iff c m h = ground (arith, inc_u64_lem c.counter)
