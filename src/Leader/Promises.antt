-- ===== src/Leader/Promises.antt =====
-- The promises that a leader has recorded (omnipaxos/src/util.rs).
use omnipaxos.Prelude.{
  ℕ, zero, suc, ◌<◌, ◌≡◌, refl, Bool, true, false, ◌&&◌, some, List, [], ◌∷◌, set, sym, subst, ap,
  ◌∙◌, inl, inr, ltb, ◌⊎◌, write?, replicate, arith, >>=-eq-some, Bool-cases,
}
use omnipaxos.Ballot
use omnipaxos.Ballot.{Ballot}
use omnipaxos.Ballot.Order.{lt_of_le_of_lt, le_of_not_lt, not_lt_of_le, le_of_lt, lt_irrefl, eq→≡}
use omnipaxos.Quorum.{Quorum}
use omnipaxos.Messages.{Promise}
use omnipaxos.Leader
use omnipaxos.Leader.{
  PromiseMetaData, gt, PromiseState, not_promised, promised, promised_higher, LeaderState,
  is_promised, promised_from, pid_to_idx, with_leader, meta_of, update_max, set_promise,
  reset_promise, lost_promise, get_promised_followers,
}

-- A recorded promise does not outrank `max`.
abbrev pub NotAbove : PromiseMetaData → PromiseState → Type 0
NotAbove max (promised m) = gt m max ≡ false
NotAbove max not_promised = Unit
NotAbove max promised_higher = Unit

abbrev pub NoneAbove : PromiseMetaData → List PromiseState → Type 0
NoneAbove max [] = Unit
NoneAbove max (p ∷ ps) = NotAbove max p × NoneAbove max ps

-- No recorded promise outranks the maximum that is kept for the synchronisation of the log.
abbrev pub IsMax : {T C S : Type 0} → LeaderState T C S → Type 0
IsMax l = NoneAbove l.max_promise_meta l.promises_meta

-- `gt` without the comparison of the pids: a later round, or more entries of the same round.
abbrev AtLeast : PromiseMetaData → PromiseMetaData → Type 0
AtLeast a b =
    (Ballot.lt a.n_accepted b.n_accepted ≡ false)
    × (Ballot.eq b.n_accepted a.n_accepted && ltb a.accepted_idx b.accepted_idx ≡ false)

gt-false : (a b : PromiseMetaData) → gt b a ≡ false → AtLeast a b
unfolding gt
gt-false a b h = ground arith

false-gt : (a b : PromiseMetaData) → AtLeast a b → gt b a ≡ false
unfolding gt
false-gt a b h = ground arith

gt-true :
    (a b : PromiseMetaData)
    → gt b a ≡ true
    → (Ballot.lt a.n_accepted b.n_accepted ≡ true)
      ⊎ ((b.n_accepted ≡ a.n_accepted) × (a.accepted_idx < b.accepted_idx))
unfolding gt
gt-true a b h = ground (arith, eq→≡ b.n_accepted a.n_accepted)

below : (a b : PromiseMetaData) → Ballot.lt b.n_accepted a.n_accepted ≡ true → AtLeast a b
below a b less = (
  not_lt_of_le b.n_accepted a.n_accepted (le_of_lt b.n_accepted a.n_accepted less),
  elim (Bool-cases (Ballot.eq b.n_accepted a.n_accepted)) [
    | inl same ↦ absurd (
        lt_irrefl a.n_accepted
          (subst (λ n. Ballot.lt n a.n_accepted ≡ true) (eq→≡ b.n_accepted a.n_accepted same) less))
    | inr differ ↦ rw differ refl
  ],
)

longer :
    (m max new : PromiseMetaData)
    → new.n_accepted ≡ max.n_accepted
    → max.accepted_idx < new.accepted_idx
    → AtLeast max m
    → AtLeast new m
longer m max new same more h = (
  subst (λ n. Ballot.lt n m.n_accepted ≡ false) (sym same) h.0,
  subst (λ n. Ballot.eq m.n_accepted n && ltb new.accepted_idx m.accepted_idx ≡ false) (sym same)
      (shorter (Ballot.eq m.n_accepted max.n_accepted) h.1),
)
  where
    shorter :
        (b : Bool)
        → (b && ltb max.accepted_idx m.accepted_idx ≡ false)
        → b && ltb new.accepted_idx m.accepted_idx ≡ false
    shorter true k = ground arith
    shorter false k = refl

not_gt : (m max new : PromiseMetaData) → gt m max ≡ false → gt new max ≡ true → gt m new ≡ false
not_gt m max new h k = false-gt new m (elim (gt-true max new k) [
  | inl later ↦ below new m (
      lt_of_le_of_lt m.n_accepted max.n_accepted new.n_accepted
        (le_of_not_lt max.n_accepted m.n_accepted (gt-false max m h).0) later)
  | inr (same, more) ↦ longer m max new same more (gt-false max m h)
])

gt_self : (m : PromiseMetaData) → gt m m ≡ false
unfolding gt
gt_self m = ground arith

NotAbove-gt :
    (max new : PromiseMetaData) (p : PromiseState)
    → gt new max ≡ true
    → NotAbove max p
    → NotAbove new p
NotAbove-gt max new (promised m) k h = not_gt m max new h k
NotAbove-gt max new not_promised k h = tt
NotAbove-gt max new promised_higher k h = tt

NoneAbove-gt :
    (max new : PromiseMetaData) (ps : List PromiseState)
    → gt new max ≡ true
    → NoneAbove max ps
    → NoneAbove new ps
NoneAbove-gt max new [] k h = tt
NoneAbove-gt max new (p ∷ ps) k h = (NotAbove-gt max new p k h.0, NoneAbove-gt max new ps k h.1)

NoneAbove-set :
    (max : PromiseMetaData) (ps : List PromiseState) (i : ℕ) (p : PromiseState)
    → NotAbove max p
    → NoneAbove max ps
    → NoneAbove max (set ps i p)
NoneAbove-set max [] i p new h = tt
NoneAbove-set max (q ∷ ps) zero p new h = (new, h.1)
NoneAbove-set max (q ∷ ps) (suc i) p new h = (h.0, NoneAbove-set max ps i p new h.1)

NoneAbove-replicate : (max : PromiseMetaData) (n : ℕ) → NoneAbove max (replicate n not_promised)
NoneAbove-replicate max zero = tt
NoneAbove-replicate max (suc n) = (tt, NoneAbove-replicate max n)

-- What a write that does not panic has written.
write?-eq-some :
    {A : Type 0} (xs : List A) (i : ℕ) (a : A) {ys : List A}
    → write? xs i a ≡ some ys
    → set xs i a ≡ ys
write?-eq-some xs i a h = ground arith

with_leader-IsMax :
    (T C S : Type 0) (n : Ballot) (max_pid : ℕ) (q : Quorum)
    → IsMax (with_leader {T = T} {C = C} {S = S} n max_pid q)
unfolding with_leader
with_leader-IsMax T C S n max_pid q = NoneAbove-replicate Leader.default max_pid

module _ {T C S : Type 0} where
  update_max-IsMax :
      (prom : Promise T C S) (from : ℕ) (l : LeaderState T C S)
      → IsMax l
      → NoneAbove (update_max prom from true l).max_promise_meta l.promises_meta
        × NotAbove (update_max prom from true l).max_promise_meta (promised (meta_of prom from))
  unfolding update_max
  update_max-IsMax prom from l h = elim (Bool-cases (gt (meta_of prom from) l.max_promise_meta)) [
    | inl more ↦ rw more (
      NoneAbove-gt l.max_promise_meta (meta_of prom from) l.promises_meta more h,
      gt_self (meta_of prom from),
    )
    | inr less ↦ rw less (h, less)
  ]

  update_max-meta :
      (prom : Promise T C S) (from : ℕ) (check : Bool) (l : LeaderState T C S)
      → (update_max prom from check l).promises_meta ≡ l.promises_meta
  unfolding update_max
  update_max-meta prom from check l = ground arith

  set_promise-IsMax :
      (prom : Promise T C S) (from : ℕ) (l : LeaderState T C S) (b : Bool) (l' : LeaderState T C S)
      → IsMax l
      → set_promise prom from true l ≡ some (b, l')
      → IsMax l'
  unfolding set_promise
  set_promise-IsMax prom from l b l' m h =
      let up = update_max prom from true l in
      let new = promised (meta_of prom from) in
      let (ps, wrote, made) = >>=-eq-some (write? up.promises_meta (pid_to_idx from) new) _ h in
      let (max, own) = update_max-IsMax prom from l m in
      let stored : NoneAbove up.max_promise_meta ps =
        subst (NoneAbove up.max_promise_meta)
          (ap (λ qs. set qs (pid_to_idx from) new) (sym (update_max-meta prom from true l))
            ∙ write?-eq-some up.promises_meta (pid_to_idx from) new wrote)
          (NoneAbove-set up.max_promise_meta l.promises_meta (pid_to_idx from) new own max) in
      let same : ◌≡◌ {A = LeaderState T C S} (record up { promises_meta = ps }) l' = cc in
      subst IsMax same stored

  reset_promise-IsMax :
      (pid : ℕ) (l l' : LeaderState T C S) → IsMax l → reset_promise pid l ≡ some l' → IsMax l'
  unfolding reset_promise
  reset_promise-IsMax pid l l' m h =
      let (ps, wrote, made) =
        >>=-eq-some (write? l.promises_meta (pid_to_idx pid) not_promised) _ h in
      let same : ◌≡◌ {A = LeaderState T C S} (record l { promises_meta = ps }) l' = cc in
      subst IsMax same (
        subst (NoneAbove l.max_promise_meta)
          (write?-eq-some l.promises_meta (pid_to_idx pid) not_promised wrote)
          (NoneAbove-set l.max_promise_meta l.promises_meta (pid_to_idx pid) not_promised tt m))

  lost_promise-IsMax :
      (pid : ℕ) (l l' : LeaderState T C S) → IsMax l → lost_promise pid l ≡ some l' → IsMax l'
  unfolding lost_promise
  lost_promise-IsMax pid l l' m h =
      let (ps, wrote, made) =
        >>=-eq-some (write? l.promises_meta (pid_to_idx pid) promised_higher) _ h in
      let same : ◌≡◌ {A = LeaderState T C S} (record l { promises_meta = ps }) l' = cc in
      subst IsMax same (
        subst (NoneAbove l.max_promise_meta)
          (write?-eq-some l.promises_meta (pid_to_idx pid) promised_higher wrote)
          (NoneAbove-set l.max_promise_meta l.promises_meta (pid_to_idx pid) promised_higher tt m))

-- The states of a leader that gathers promises: from the beginning of its round, a server
-- promises, asks to be prepared again, or is found to have promised a higher round.
pub data Preparing {T C S : Type 0} : LeaderState T C S → Type 0 where
  begun : (n : Ballot) (max_pid : ℕ) (q : Quorum) → Preparing (with_leader n max_pid q)
  received :
      (prom : Promise T C S) (from : ℕ) (l l' : LeaderState T C S) (b : Bool)
      → Preparing l
      → set_promise prom from true l ≡ some (b, l')
      → Preparing l'
  asked :
      (pid : ℕ) (l l' : LeaderState T C S)
      → Preparing l
      → reset_promise pid l ≡ some l'
      → Preparing l'
  lost :
      (pid : ℕ) (l l' : LeaderState T C S)
      → Preparing l
      → lost_promise pid l ≡ some l'
      → Preparing l'

-- While a leader gathers promises, the promise whose log it will adopt is never outranked by a
-- promise that it has recorded: none has accepted in a later round, or more entries in the same.
pub preparing-IsMax : {T C S : Type 0} (l : LeaderState T C S) → Preparing l → IsMax l
preparing-IsMax _ (begun n max_pid q) = with_leader-IsMax _ _ _ n max_pid q
preparing-IsMax _ (received prom from k l b p h) =
    set_promise-IsMax prom from k b l (preparing-IsMax k p) h
preparing-IsMax _ (asked pid k l p h) = reset_promise-IsMax pid k l (preparing-IsMax k p) h
preparing-IsMax _ (lost pid k l p h) = lost_promise-IsMax pid k l (preparing-IsMax k p) h
