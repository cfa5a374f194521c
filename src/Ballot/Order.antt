-- ===== src/Ballot/Order.antt =====
-- The order on ballots (`Ord for Ballot`, omnipaxos/src/ballot_leader_election.rs).
use omnipaxos.Prelude.{◌≡◌, ◌<◌, ◌⊎◌, true, false, arith, Ordering}
use omnipaxos.Ballot.{Ballot, eq, cmp, lt, le}

-- `Le a b` and `Lt a b` state that the tests pass.
abbrev pub Le : Ballot → Ballot → Type 0
Le a b = le a b ≡ true

abbrev pub Lt : Ballot → Ballot → Type 0
Lt a b = lt a b ≡ true

pub le_refl : (a : Ballot) → Le a a
unfolding le
le_refl a = ground arith

pub le_trans : (a b c : Ballot) → Le a b → Le b c → Le a c
unfolding le
le_trans a b c h k = ground arith

pub lt_irrefl : (a : Ballot) → ¬ Lt a a
unfolding lt
lt_irrefl a h = ground arith

pub lt_of_lt_of_le : (a b c : Ballot) → Lt a b → Le b c → Lt a c
unfolding lt le
lt_of_lt_of_le a b c h k = ground arith

pub lt_of_le_of_lt : (a b c : Ballot) → Le a b → Lt b c → Lt a c
unfolding lt le
lt_of_le_of_lt a b c h k = ground arith

pub le_of_lt : (a b : Ballot) → Lt a b → Le a b
unfolding lt le
le_of_lt a b h = ground arith

pub le_of_not_lt : (a b : Ballot) → lt a b ≡ false → Le b a
unfolding lt le
le_of_not_lt a b h = ground arith

pub lt_of_not_le : (a b : Ballot) → le a b ≡ false → Lt b a
unfolding lt le
lt_of_not_le a b h = ground arith

pub not_lt_of_le : (a b : Ballot) → Le a b → lt b a ≡ false
unfolding lt le
not_lt_of_le a b h = ground arith

pub not_le_of_lt : (a b : Ballot) → Lt a b → le b a ≡ false
unfolding lt le
not_le_of_lt a b h = ground arith

pub le_of_eq : (a b : Ballot) → eq a b ≡ true → Le a b
unfolding le
le_of_eq a b h = ground arith

pub eq_refl : (a : Ballot) → eq a a ≡ true
eq_refl a = ground arith

pub eq→≡ : (a b : Ballot) → eq a b ≡ true → a ≡ b
eq→≡ a b h = ground arith

-- `==` distinguishes the configurations, `cmp` does not: ballots that compare as equal are equal
-- as soon as they belong to one configuration.
pub eq_of_cmp : (a b : Ballot) → cmp a b ≡ Ordering.eq → a.config_id ≡ b.config_id → eq a b ≡ true
unfolding cmp
eq_of_cmp a b h e = ground arith

-- A larger round number outranks any priority and pid.
pub lt_of_n : (a b : Ballot) → a.n < b.n → Lt a b
unfolding lt
lt_of_n a b h = ground arith

pub n-le : (a b : Ballot) → Le a b → (a.n < b.n) ⊎ (a.n ≡ b.n)
unfolding le
n-le a b h = ground arith

pub cmp_le : (a b : Ballot) → cmp a b ≡ Ordering.gt → Lt b a
unfolding cmp lt
cmp_le a b h = ground arith
