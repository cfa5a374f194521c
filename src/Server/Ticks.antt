-- ===== src/Server/Ticks.antt =====
-- What the ticks, the messages and a manual election do to the promise of a server
-- (omnipaxos/src/omni_paxos.rs).
use omnipaxos.Prelude.{
  ◌+◌, ◌^◌, ◌<◌, ◌≡◌, subst, sym, ap, ◌∙◌, Option, none, some, arith, Bool-cases, Option-cases, inl,
  inr, >>=-eq-some,
}
use omnipaxos.Word.{inc_u32, inc_u32_lem}
use omnipaxos.Ballot.{Ballot}
use omnipaxos.Ballot.Order.{Le, Lt, le_trans, lt_of_n, lt_of_le_of_lt, not_le_of_lt}
use omnipaxos.Clock.{tick_and_check_timeout}
use omnipaxos.Storage.{Snapshot}
use omnipaxos.Paxos.{SequencePaxos, get_promise}
use omnipaxos.Paxos.LeaderRole.{handle_leader, become_leader}
use omnipaxos.Paxos.Local.{become_leader-promise}
use omnipaxos.Paxos.Replica.{resend_message_timeout, flush_batch_timeout}
use omnipaxos.Paxos.Promised.{Step, Run, Run-promise_le}
use omnipaxos.Election.{hb_timeout}
use omnipaxos.Server.{
  OmniPaxos, lead_if_elected, election_timeout, tick_election, tick_resend, tick_flush, tick,
  try_become_leader,
}

module _ {T C S : Type 0} (snap : Snapshot T S) where
  -- The replica of a server takes steps.
  abbrev pub Runs : OmniPaxos T C S → OmniPaxos T C S → Type 0
  Runs o o' = Run snap o.seq_paxos o'.seq_paxos

  lead_if_elected-Runs :
      (b : Option Ballot) (o o' : OmniPaxos T C S) → lead_if_elected b o ≡ some o' → Runs o o'
  unfolding lead_if_elected
  lead_if_elected-Runs none o o' e =
      subst (λ (p : SequencePaxos T C S). Run snap o.seq_paxos p) (ground arith) Run.here
  lead_if_elected-Runs (some b) o o' e =
      let (p, led, rest) = >>=-eq-some (handle_leader b o.seq_paxos) _ e in
      let same : p ≡ o'.seq_paxos = ground arith in
      subst (Run snap o.seq_paxos) same (Run.next Run.here (Step.elects b o.seq_paxos p led))

  election_timeout-Runs : (o o' : OmniPaxos T C S) → election_timeout o ≡ some o' → Runs o o'
  unfolding election_timeout
  election_timeout-Runs o o' e =
      let (b, ble) = hb_timeout o.seq_paxos.state (get_promise o.seq_paxos) o.ble in
      lead_if_elected-Runs b (record o { ble = ble }) o' e

  Runs-same : (o o' : OmniPaxos T C S) → o.seq_paxos ≡ o'.seq_paxos → Runs o o'
  Runs-same o o' same = subst (Run snap o.seq_paxos) same Run.here

  tick_election-Runs : (o o' : OmniPaxos T C S) → tick_election o ≡ some o' → Runs o o'
  unfolding tick_election
  tick_election-Runs o o' e =
      let (due, clock) = tick_and_check_timeout o.election_clock in
      elim (Bool-cases due) [
        | inl now ↦ election_timeout-Runs (record o { election_clock = clock }) o' (ground arith)
        | inr later ↦ Runs-same o o' (ground arith)
      ]

  tick_resend-Runs : (o o' : OmniPaxos T C S) → tick_resend o ≡ some o' → Runs o o'
  unfolding tick_resend
  tick_resend-Runs o o' e =
      let (due, clock) = tick_and_check_timeout o.resend_message_clock in
      elim (Bool-cases due) [
        | inl now ↦ (elim (Option-cases (resend_message_timeout o.seq_paxos)) [
          | inl panicked ↦ absurd (ground arith)
          | inr (p, done) ↦
              subst (Run snap o.seq_paxos) (ground arith)
                (Run.next Run.here (Step.resends o.seq_paxos p done))
        ])
        | inr later ↦ Runs-same o o' (ground arith)
      ]

  tick_flush-Runs : (o o' : OmniPaxos T C S) → tick_flush o ≡ some o' → Runs o o'
  unfolding tick_flush
  tick_flush-Runs o o' e =
      let (due, clock) = tick_and_check_timeout o.flush_batch_clock in
      elim (Bool-cases due) [
        | inl now ↦ (elim (Option-cases (flush_batch_timeout o.seq_paxos)) [
          | inl panicked ↦ absurd (ground arith)
          | inr (p, done) ↦
              subst (Run snap o.seq_paxos) (ground arith)
                (Run.next Run.here (Step.flushes o.seq_paxos p done))
        ])
        | inr later ↦ Runs-same o o' (ground arith)
      ]

  Runs-promise :
      (o o' : OmniPaxos T C S) → Runs o o' → Le (get_promise o.seq_paxos) (get_promise o'.seq_paxos)
  Runs-promise o o' r = Run-promise_le snap o.seq_paxos o'.seq_paxos r

  -- A tick never lowers the promise of a server, whichever of the three clocks are due.
  pub tick-promise :
      (o o' : OmniPaxos T C S)
      → tick o ≡ some o'
      → Le (get_promise o.seq_paxos) (get_promise o'.seq_paxos)
  unfolding tick
  tick-promise o o' e =
      let (a, elected, rest) = >>=-eq-some (tick_election o) _ e in
      let (b, resent, flushed) = >>=-eq-some (tick_resend a) tick_flush rest in
      le_trans (get_promise o.seq_paxos) (get_promise a.seq_paxos) (get_promise o'.seq_paxos)
        (Runs-promise o a (tick_election-Runs o a elected))
        (le_trans (get_promise a.seq_paxos) (get_promise b.seq_paxos) (get_promise o'.seq_paxos)
          (Runs-promise a b (tick_resend-Runs a b resent))
          (Runs-promise b o' (tick_flush-Runs b o' flushed)))

module _ {T C S : Type 0} where
  -- A server calls `try_become_leader` while its own ballot carries the pid of its replica, the round
  -- number can grow, and the replica leads no round above its promise: if the call does not panic,
  -- the server has promised a ballot of its own in the next round, above what it had promised.
  pub try_become_leader-promise :
      (o o' : OmniPaxos T C S)
      → o.ble.current_ballot.pid ≡ o.seq_paxos.pid
      → (get_promise o.seq_paxos).n + 1 < 2 ^ 32
      → Le o.seq_paxos.leader_state.n_leader (get_promise o.seq_paxos)
      → try_become_leader o ≡ some o'
      → ((get_promise o'.seq_paxos).n ≡ (get_promise o.seq_paxos).n + 1)
        × ((get_promise o'.seq_paxos).pid ≡ o.seq_paxos.pid)
        × Lt (get_promise o.seq_paxos) (get_promise o'.seq_paxos)
  unfolding try_become_leader handle_leader
  try_become_leader-promise o o' own fits behind e =
      let old = get_promise o.seq_paxos in
      let current = o.ble.current_ballot in
      let b : Ballot = record current { n = inc_u32 old.n } in
      let next : inc_u32 old.n ≡ old.n + 1 = inc_u32_lem old.n fits in
      let above : Lt old b = lt_of_n old b (omega (arith, next)) in
      let fresh = not_le_of_lt old b above in
      let fresh' =
        not_le_of_lt o.seq_paxos.leader_state.n_leader b
          (lt_of_le_of_lt o.seq_paxos.leader_state.n_leader old b behind above) in
      let (p, led, rest) = >>=-eq-some (handle_leader b o.seq_paxos) _ e in
      let same : p ≡ o'.seq_paxos = ground arith in
      let leads : become_leader b o.seq_paxos ≡ some p = ground arith in
      let new : b ≡ get_promise o'.seq_paxos =
        sym (become_leader-promise b o.seq_paxos p leads) ∙ ap get_promise same in
      subst (λ (x : Ballot). (x.n ≡ old.n + 1) × (x.pid ≡ o.seq_paxos.pid) × Lt old x) new
        (next, own, above)
