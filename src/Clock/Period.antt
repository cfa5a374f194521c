-- ===== src/Clock/Period.antt =====
-- When the clock reports a timeout.
use omnipaxos.Prelude.{
  ℕ, zero, suc, ◌+◌, ◌%◌, ◌^◌, ◌≡◌, refl, ◌<◌, Bool, false, arith, Bool-cases, inl, inr, sym, ap,
  subst, ◌∙◌, ◌==◌, if◌then◌else◌,
}
use native.Mathlib.Nat.{mod-add-mod, mod_self, mod-eq_of_lt, mod-lt, zero-mod}
use native.Mathlib.Numerals.{add-one}
use omnipaxos.Word.{inc_u64, inc_u64_lem}
use omnipaxos.Clock.{LogicalClock, with_timeout, tick_and_check_timeout}

-- The clock after a number of calls.
unfoldable pub after_ticks : ℕ → LogicalClock → LogicalClock
after_ticks zero c = c
after_ticks (suc k) c = (tick_and_check_timeout (after_ticks k c)).1

-- The answer of one more call.
unfoldable pub answer_after : ℕ → LogicalClock → Bool
unfolding after_ticks tick_and_check_timeout
answer_after k c = (tick_and_check_timeout (after_ticks k c)).0

mod_step : (k t : ℕ) → 0 < t → (if k % t + 1 == t then 0 else k % t + 1) ≡ (k + 1) % t
mod_step k t h = elim (Bool-cases (k % t + 1 == t)) [
  | inl e ↦ rw e (sym (sym (mod-add-mod k t 1) ∙ ap (λ n. n % t) (ground arith) ∙ mod_self t))
  | inr e ↦ rw e (sym (sym (mod-add-mod k t 1) ∙ mod-eq_of_lt (ground (arith, mod-lt k {m = t} h))))
]

-- What is known of the clock after `k` calls: `tick_from` is one more call.
record IsAfter (t k : ℕ) (c : LogicalClock) : Type 0 where
  time : c.time ≡ k % t
  timeout : c.timeout ≡ t

module _ (k t : ℕ) (c : LogicalClock) (pos : 0 < t) (fits : t < 2 ^ 64) (now : IsAfter t k c) where
  tick-inc : inc_u64 c.time ≡ k % t + 1
  tick-inc =
      inc_u64_lem c.time (omega (arith, now.time, mod-lt k {m = t} pos)) ∙ ap (λ n. n + 1) now.time

  tick-IsAfter : IsAfter t (k + 1) (tick_and_check_timeout c).1
  unfolding tick_and_check_timeout
  tick-IsAfter = ground (arith, tick-inc, mod_step k t pos, now.timeout)

  tick-answer : (tick_and_check_timeout c).0 ≡ ((k + 1) % t == 0)
  unfolding tick_and_check_timeout
  tick-answer = ground (arith, tick-inc, mod_step k t pos, now.timeout)

after_ticks-IsAfter : (k t : ℕ) → 0 < t → t < 2 ^ 64 → IsAfter t k (after_ticks k (with_timeout t))
unfolding after_ticks with_timeout
after_ticks-IsAfter zero t pos fits = ground (arith, zero-mod t)
after_ticks-IsAfter (suc k) t pos fits =
    subst (λ n. IsAfter t n (after_ticks (suc k) (with_timeout t))) (add-one k)
      (tick-IsAfter k t (after_ticks k (with_timeout t)) pos fits
        (after_ticks-IsAfter k t pos fits))

-- A clock with a timeout above 0 and below 2^64 answers call number `k + 1` with true just if the
-- timeout divides `k + 1`.
pub answer_periodic :
    (k t : ℕ) → 0 < t → t < 2 ^ 64 → answer_after k (with_timeout t) ≡ ((k + 1) % t == 0)
unfolding answer_after
answer_periodic k t pos fits = tick-answer k t _ pos fits (after_ticks-IsAfter k t pos fits)

after_ticks-zero :
    (k : ℕ)
    → k < 2 ^ 64
    → ((after_ticks k (with_timeout 0)).time ≡ k) × ((after_ticks k (with_timeout 0)).timeout ≡ 0)
unfolding after_ticks with_timeout tick_and_check_timeout
after_ticks-zero zero h = (refl, refl)
after_ticks-zero (suc k) h =
    ground (arith, after_ticks-zero k, inc_u64_lem (after_ticks k (with_timeout 0)).time)

-- With timeout 0, which the validation allows for `flush_batch_tick_timeout`, the clock stays
-- silent for the first 2^64 - 1 calls.
pub answer_zero : (k : ℕ) → k + 1 < 2 ^ 64 → answer_after k (with_timeout 0) ≡ false
unfolding answer_after tick_and_check_timeout
answer_zero k h =
    ground (arith, after_ticks-zero k, inc_u64_lem (after_ticks k (with_timeout 0)).time)
