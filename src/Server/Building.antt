-- ===== src/Server/Building.antt =====
-- When a server is built from a valid configuration: omnipaxos/src/omni_paxos.rs and
-- omnipaxos/src/sequence_paxos/mod.rs.
use omnipaxos.Prelude.{
  ℕ, ◌≡◌, refl, ap, ◌∙◌, ◌+◌, length, inl, inr, Bool, true, false, not, Option, none, some, List,
  [], ◌∷◌, max, keep, any, ◌==◌, ◌>>=◌, arith, Option-cases, Bool-cases,
}
use omnipaxos.Config
use omnipaxos.Config.{OmniPaxosConfig, valid, peers_of}
use omnipaxos.Storage.Memory.{MemoryStorage}
use omnipaxos.Quorum.{with_config}
use omnipaxos.Sequence
use omnipaxos.Leader.{with_leader}
use omnipaxos.Storage.Internal
use omnipaxos.Messages.{PaxosMsg}
use omnipaxos.Paxos.{follower, recover, idle, SequencePaxos, push, push_all, get_promise}
use omnipaxos.Paxos.Frame.{push_all-storage}
use omnipaxos.Paxos.Replica.{SequencePaxosConfig, max_of, with_config_and_storage}
use omnipaxos.Election.{with_ble_config, new_hb_round}
use omnipaxos.Server.{OmniPaxos, built, build, build_valid, ble_config_of, seq_paxos_config_of}

-- Whether the nodes of a configuration are more than its own server.
abbrev pub has_peer : OmniPaxosConfig → Bool
has_peer c = any (λ x. not (x == c.server_config.pid)) c.cluster_config.nodes

keep-max_of :
    (p : ℕ → Bool) (xs : List ℕ) → any p xs ≡ true → (m : ℕ) × (max_of (keep p xs) ≡ some m)
keep-max_of p [] h = ground (arith, h)
keep-max_of p (x ∷ xs) h = elim (Bool-cases (p x)) [
  | inl kept ↦ (elim (Option-cases (max_of (keep p xs))) [
    | inl least ↦ (x, ground (arith, kept, least))
    | inr (m, more) ↦ (max x m, ground (arith, kept, more))
  ])
  | inr dropped ↦
      let (m, e) = keep-max_of p xs (ground (arith, h, dropped)) in (m, ground (arith, dropped, e))
]

keep-none : (p : ℕ → Bool) (xs : List ℕ) → any p xs ≡ false → keep p xs ≡ []
keep-none p [] h = refl
keep-none p (x ∷ xs) h = ground (arith, keep-none p xs, h)

-- A step whose first part gives `a` is what follows with `a`.
bind_some :
    {A B : Type 0} (P : B → Type 0) (o : Option A) (a : A) (rest : A → Option B)
    → o ≡ some a
    → (b : B) × (rest a ≡ some b) × P b
    → (b : B) × ((o >>= rest) ≡ some b) × P b
bind_some P o a rest h (b, e, holds) = (b, ap (λ o. o >>= rest) h ∙ e, holds)

module _ {T C S : Type 0} where
  push_all-pid :
      (pids : List ℕ) (msg : PaxosMsg T C S) (p : SequencePaxos T C S)
      → ((push_all pids msg p).pid ≡ p.pid) × ((push_all pids msg p).peers ≡ p.peers)
  unfolding push_all
  push_all-pid [] msg p = (refl, refl)
  push_all-pid (to ∷ pids) msg p = push_all-pid pids msg (push to msg p)

  -- A replica with its configuration and with the promise that is stored.
  abbrev IsReplicaOf : SequencePaxosConfig → MemoryStorage T C S → SequencePaxos T C S → Type 0
  IsReplicaOf config storage p =
      (p.pid ≡ config.pid)
      × (p.peers ≡ config.peers)
      × (get_promise p ≡ Internal.or_default storage.n_prom)

  -- The new replica, before it asks its peers.
  abbrev fresh : SequencePaxosConfig → MemoryStorage T C S → ℕ → SequencePaxos T C S
  fresh config storage m =
      let promised = Internal.or_default storage.n_prom in
      record {
        internal_storage =
            Internal.set_promise promised (Internal.with_storage storage config.batch_size);
        pid = config.pid;
        peers = config.peers;
        state = elim storage.n_prom [ some b ↦ (follower, recover) | none ↦ (follower, idle) ];
        buffered_proposals = [];
        buffered_stopsign = none;
        outgoing = [];
        leader_state =
            with_leader promised (max m config.pid)
              (with_config config.flexible_quorum (length config.peers + 1));
        latest_accepted_meta = none;
        current_seq_num = Sequence.default;
        cached_promise_message = none;
      }

  replica_built :
      (config : SequencePaxosConfig) (storage : MemoryStorage T C S) (m : ℕ)
      → max_of config.peers ≡ some m
      → (p : SequencePaxos T C S) × (with_config_and_storage config storage ≡ some p)
        × IsReplicaOf config storage p
  unfolding with_config_and_storage Internal.set_promise
  replica_built config storage m h =
      let asked : List ℕ = elim storage.n_prom [ some b ↦ config.peers | none ↦ [] ] in
      let request = PaxosMsg.prepare_req (record { n = Internal.or_default storage.n_prom }) in
      let (pid, peers) = push_all-pid asked request (fresh config storage m) in
      bind_some (IsReplicaOf config storage) (max_of config.peers) m _ h (
        push_all asked request (fresh config storage m),
        refl,
        (
          pid,
          peers,
          ap (λ st. st.state_cache.promise)
              (push_all-storage asked request (fresh config storage m)),
        ),
      )

  -- A server whose two components have its pid and the same peers, the other nodes, and which
  -- keeps the promise that is stored.
  abbrev pub IsServerOf : OmniPaxosConfig → MemoryStorage T C S → OmniPaxos T C S → Type 0
  IsServerOf c storage o =
      (o.seq_paxos.pid ≡ c.server_config.pid)
      × (o.seq_paxos.peers ≡ peers_of c)
      × (get_promise o.seq_paxos ≡ Internal.or_default storage.n_prom)
      × (o.ble.pid ≡ c.server_config.pid)
      × (o.ble.peers ≡ peers_of c)

  build_valid-some :
      (c : OmniPaxosConfig) (storage : MemoryStorage T C S) (m : ℕ)
      → max_of (peers_of c) ≡ some m
      → (o : OmniPaxos T C S) × (build_valid c storage ≡ some o) × IsServerOf c storage o
  unfolding build_valid seq_paxos_config_of ble_config_of with_ble_config new_hb_round
  build_valid-some c storage m h =
      let (p, replica, (pid, peers, promise)) = replica_built (seq_paxos_config_of c) storage m h in
      bind_some (IsServerOf c storage) (with_config_and_storage (seq_paxos_config_of c) storage) p _
        replica (_, refl, (pid, peers, promise, refl, refl))

  -- A server is built from a valid configuration of more than its own node.
  pub build_total :
      (c : OmniPaxosConfig) (storage : MemoryStorage T C S)
      → Config.validate c ≡ valid
      → has_peer c ≡ true
      → (o : OmniPaxos T C S) × (build c storage ≡ built (some o)) × IsServerOf c storage o
  unfolding build peers_of
  build_total c storage ok others =
      let (m, most) =
        keep-max_of (λ x. not (x == c.server_config.pid)) c.cluster_config.nodes others in
      let (o, builds, same) = build_valid-some c storage m most in
      (o, ground (arith, ok, builds), same)

  -- Where a configuration passes the validation and its nodes are one server alone, listed several
  -- times, building that server panics: it has no peers to take the greatest pid of.
  pub build_panics :
      (c : OmniPaxosConfig) (storage : MemoryStorage T C S)
      → Config.validate c ≡ valid
      → has_peer c ≡ false
      → build c storage ≡ built none
  unfolding build build_valid with_config_and_storage seq_paxos_config_of peers_of
  build_panics c storage ok alone =
      let none_left =
        keep-none (λ x. not (x == c.server_config.pid)) c.cluster_config.nodes alone in
      ground (arith, ok, none_left)
