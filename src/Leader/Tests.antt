-- ===== src/Leader/Tests.antt =====
-- The theorems on the leader's records at a leader of three servers.
use omnipaxos.Prelude.{ℕ, ◌≡◌, refl, subst, ◌+◌, true, false, none, some, List, [], ◌∷◌, get_elem?}
use omnipaxos.Ballot.{Ballot}
use omnipaxos.Quorum.{Quorum}
use omnipaxos.Word.{sub_u64}
use omnipaxos.Messages.{Promise}
use omnipaxos.Leader
use omnipaxos.Leader.{
  LeaderState, not_promised, promised, with_leader, meta_of, update_max, gt, partial_cmp,
  set_promise, set_accepted_idx, pid_to_idx, get_promised_followers, get_min_all_accepted_idx,
  is_chosen,
}
use omnipaxos.Leader.Promises.{IsMax, Preparing, preparing-IsMax}
use omnipaxos.Leader.Chosen.{includes, is_follower, get_promised_followers-includes}

abbrev Leading : Type 0
Leading = LeaderState ℕ ℕ (List ℕ)

abbrev round : ℕ → Ballot
round n = record { config_id = 1; n = n; priority = 0; pid = 1 }

-- The promises of servers 2 and 3: both accepted in round 4, server 3 has more entries.
abbrev promise_of_two : Promise ℕ ℕ (List ℕ)
promise_of_two = record {
  n = round 5;
  n_accepted = round 4;
  decided_idx = 2;
  accepted_idx = 6;
  log_sync = none;
}

abbrev promise_of_three : Promise ℕ ℕ (List ℕ)
promise_of_three = record {
  n = round 5;
  n_accepted = round 4;
  decided_idx = 3;
  accepted_idx = 7;
  log_sync = none;
}

abbrev begun : Leading
begun = record {
  n_leader = round 5;
  promises_meta = not_promised ∷ not_promised ∷ not_promised ∷ [];
  follower_seq_nums =
      record { session = 0; counter = 0 }
      ∷ record { session = 0; counter = 0 }
      ∷ record { session = 0; counter = 0 }
      ∷ [];
  accepted_indexes = 0 ∷ 0 ∷ 0 ∷ [];
  max_promise_meta = Leader.default;
  max_promise_sync = none;
  latest_accept_meta = none ∷ none ∷ none ∷ [];
  max_pid = 3;
  quorum = Quorum.majority 2;
}

begun-with_leader : with_leader (round 5) 3 (Quorum.majority 2) ≡ begun
unfolding with_leader
begun-with_leader = refl

abbrev after_two : Leading
after_two = record begun {
  promises_meta = not_promised ∷ promised (meta_of promise_of_two 2) ∷ not_promised ∷ [];
  max_promise_meta = meta_of promise_of_two 2;
}

abbrev after_three : Leading
after_three = record begun {
  promises_meta =
      not_promised
      ∷ promised (meta_of promise_of_two 2)
      ∷ promised (meta_of promise_of_three 3)
      ∷ [];
  max_promise_meta = meta_of promise_of_three 3;
}

received_two : set_promise promise_of_two 2 true begun ≡ some (false, after_two)
unfolding set_promise pid_to_idx sub_u64
received_two = refl

received_three : set_promise promise_of_three 3 true after_two ≡ some (true, after_three)
unfolding set_promise pid_to_idx sub_u64
received_three = refl

prepared_three : Preparing after_three
prepared_three =
    Preparing.received promise_of_three 3 after_two after_three true
      (Preparing.received promise_of_two 2 begun after_two false
        (subst Preparing begun-with_leader (Preparing.begun (round 5) 3 (Quorum.majority 2)))
        received_two)
      received_three

preparing-IsMax_example : IsMax after_three
preparing-IsMax_example = preparing-IsMax after_three prepared_three

get_promised_followers-includes_example :
    includes (2 + 1) (get_promised_followers after_three)
    ≡ is_follower (pid_to_idx 1) 2 (get_elem? after_three.promises_meta 2)
get_promised_followers-includes_example = get_promised_followers-includes after_three 2

abbrev accepted : Leading
accepted = record after_three { accepted_indexes = 9 ∷ 7 ∷ 4 ∷ [] }

accepted-chosen : is_chosen 7 accepted ≡ true
unfolding is_chosen
accepted-chosen = refl

accepted-min : get_min_all_accepted_idx accepted ≡ some 4
unfolding get_min_all_accepted_idx
accepted-min = refl
