-- ===== src/Ballot.antt =====
-- `Ballot` of omnipaxos/src/ballot_leader_election.rs: the rounds of the protocol and their order.
pub mod Order
use omnipaxos.Prelude.{ℕ, Bool, true, false, ◌&&◌, ◌==◌, compare, Ordering}

pub record Ballot : Type 0 where
  pub config_id : ℕ
  pub n : ℕ
  pub priority : ℕ
  pub pid : ℕ

-- `Ballot::with`.
abbrev pub with_parts : ℕ → ℕ → ℕ → ℕ → Ballot
with_parts config_id n priority pid = record {
  config_id = config_id;
  n = n;
  priority = priority;
  pid = pid;
}

-- The derived `Default`.
abbrev pub default : Ballot
default = record { config_id = 0; n = 0; priority = 0; pid = 0 }

-- The derived `PartialEq` compares all the fields.
abbrev pub eq : Ballot → Ballot → Bool
eq a b = a.config_id == b.config_id && (a.n == b.n && (a.priority == b.priority && a.pid == b.pid))

-- Tuples compare by the first component that differs.
abbrev pub then_cmp : Ordering → Ordering → Ordering
then_cmp Ordering.lt o = Ordering.lt
then_cmp Ordering.gt o = Ordering.gt
then_cmp Ordering.eq o = o

-- `Ord::cmp`, which does not look at `config_id`.
unfoldable pub cmp : Ballot → Ballot → Ordering
cmp a b =
    then_cmp (compare a.n b.n) (then_cmp (compare a.priority b.priority) (compare a.pid b.pid))

-- `a < b` and `a <= b`.
unfoldable pub lt : Ballot → Ballot → Bool
unfolding cmp
lt a b = elim (cmp a b) [ Ordering.lt ↦ true | _ ↦ false ]

unfoldable pub le : Ballot → Ballot → Bool
unfolding cmp
le a b = elim (cmp a b) [ Ordering.gt ↦ false | _ ↦ true ]
