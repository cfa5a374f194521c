-- ===== src/Word.antt =====
-- The arithmetic of the machine words: `+=` and `-` wrap around, as in a release build.
use omnipaxos.Prelude.{ℕ, ◌+◌, ◌-◌, ◌%◌, ◌^◌, ◌≡◌, ◌<◌, ◌≤◌, arith, leb, if◌then◌else◌}

-- `x + 1` on `u32` and on `u64`.
unfoldable pub inc_u32 : ℕ → ℕ
inc_u32 x = (x + 1) % 2 ^ 32

unfoldable pub inc_u64 : ℕ → ℕ
inc_u64 x = (x + 1) % 2 ^ 64

-- `a + b` on `usize`.
unfoldable pub add_usize : ℕ → ℕ → ℕ
add_usize a b = (a + b) % 2 ^ 64

-- `a - b` on `u64` and `usize`.
unfoldable pub sub_u64 : ℕ → ℕ → ℕ
sub_u64 a b = if leb b a then a - b else a + 2 ^ 64 - b

pub inc_u32_lem : (x : ℕ) → x + 1 < 2 ^ 32 → inc_u32 x ≡ x + 1
unfolding inc_u32
inc_u32_lem x h = omega arith

pub inc_u64_lem : (x : ℕ) → x + 1 < 2 ^ 64 → inc_u64 x ≡ x + 1
unfolding inc_u64
inc_u64_lem x h = omega arith

pub sub_u64_lem : (a b : ℕ) → b ≤ a → sub_u64 a b ≡ a - b
unfolding sub_u64
sub_u64_lem a b h = ground arith
