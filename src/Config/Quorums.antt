-- ===== src/Config/Quorums.antt =====
-- The quorums of a configuration (omnipaxos/src/omni_paxos.rs, omnipaxos/src/util.rs).
use omnipaxos.Prelude.{
  ℕ, suc, ◌+◌, ◌≡◌, ◌≤◌, ◌<◌, inl, inr, Bool, true, not, ◌&&◌, Option, none, some, List, [], ◌∷◌,
  length, keep, any, count_if, count_if-both, arith, Bool-cases, ◌==◌,
}
use omnipaxos.Quorum.{FlexibleQuorum, is_prepare_quorum, is_accept_quorum, with_config}
use omnipaxos.Config.{
  ClusterConfig, ServerConfig, OmniPaxosConfig, valid, validate, validate_cluster, validate_server,
  validate_quorum, peers_of, quorum_of,
}

-- The servers that the quorums are counted over: the server itself and its peers.
abbrev pub members : OmniPaxosConfig → List ℕ
members c = c.server_config.pid ∷ peers_of c

-- Membership, as a test.
abbrev pub is_member : ℕ → List ℕ → Bool
is_member x = any (λ y. y == x)

length-keep_le : (p : ℕ → Bool) (xs : List ℕ) → length (keep p xs) ≤ length xs
length-keep_le p [] = omega arith
length-keep_le p (x ∷ xs) = ground (arith, length-keep_le p xs)

-- Dropping a server that occurs leaves fewer.
length-keep_member :
    (p : ℕ) (xs : List ℕ)
    → is_member p xs ≡ true
    → suc (length (keep (λ x. not (x == p)) xs)) ≤ length xs
length-keep_member p [] h = ground arith
length-keep_member p (x ∷ xs) h =
    ground (arith, length-keep_member p xs, length-keep_le (λ x. not (x == p)) xs)

-- A test that passes somewhere passes at a member.
witness_of_count :
    (p : ℕ → Bool) (xs : List ℕ)
    → 0 < count_if p xs
    → (x : ℕ) × (is_member x xs ≡ true) × (p x ≡ true)
witness_of_count p [] h = absurd (omega arith)
witness_of_count p (x ∷ xs) h = elim (Bool-cases (p x)) [
  | inl hit ↦ (x, ground arith, hit)
  | inr miss ↦ let (y, m, e) = witness_of_count p xs (ground arith) in (y, ground arith, e)
]

members-le :
    (c : OmniPaxosConfig) → validate c ≡ valid → length (members c) ≤ length c.cluster_config.nodes
unfolding validate peers_of
members-le c h = length-keep_member c.server_config.pid c.cluster_config.nodes (ground arith)

quorum_sizes :
    (q : Option FlexibleQuorum) (m n a b : ℕ)
    → m ≤ n
    → validate_quorum q n ≡ valid
    → is_prepare_quorum (with_config q m) a ≡ true
    → is_accept_quorum (with_config q m) b ≡ true
    → (m < a + b) × (m < a + a)
unfolding validate_quorum with_config is_prepare_quorum is_accept_quorum
quorum_sizes none m n a b le h p q = ground arith
quorum_sizes (some f) m n a b le h p q = ground arith

validate-validate_quorum :
    (c : OmniPaxosConfig)
    → validate c ≡ valid
    → validate_quorum c.cluster_config.flexible_quorum (length c.cluster_config.nodes) ≡ valid
unfolding validate
validate-validate_quorum c h = ground arith

-- A server that has a prepare quorum and an accept quorum counts more servers than there are.
pub quorum_counts :
    (c : OmniPaxosConfig) (a b : ℕ)
    → validate c ≡ valid
    → is_prepare_quorum (quorum_of c) a ≡ true
    → is_accept_quorum (quorum_of c) b ≡ true
    → (length (members c) < a + b) × (length (members c) < a + a)
unfolding quorum_of
quorum_counts c a b h p q = omega (arith, sizes)
  where
    le : length (peers_of c) + 1 ≤ length c.cluster_config.nodes
    le = omega (arith, members-le c h)

    sizes : (length (peers_of c) + 1 < a + b) × (length (peers_of c) + 1 < a + a)
    sizes =
        quorum_sizes c.cluster_config.flexible_quorum (length (peers_of c) + 1)
          (length c.cluster_config.nodes) a b le (validate-validate_quorum c h) p q

overlap :
    (p q : ℕ → Bool) (xs : List ℕ)
    → length xs < count_if p xs + count_if q xs
    → (x : ℕ) × (is_member x xs ≡ true) × (p x ≡ true) × (q x ≡ true)
overlap p q xs h =
    let (x, m, e) = witness_of_count (λ x. p x && q x) xs (omega (arith, count_if-both p q xs)) in
    (x, m, ground arith, ground arith)

-- In a validated configuration, whatever servers have promised (`p`) and whatever servers have
-- accepted (`q`): if the promises make a prepare quorum and the acceptances an accept quorum, by
-- the tests and the counts that a server uses, then some member has done both.
pub quorums_intersect :
    (c : OmniPaxosConfig) (p q : ℕ → Bool)
    → validate c ≡ valid
    → is_prepare_quorum (quorum_of c) (count_if p (members c)) ≡ true
    → is_accept_quorum (quorum_of c) (count_if q (members c)) ≡ true
    → (x : ℕ) × (is_member x (members c) ≡ true) × (p x ≡ true) × (q x ≡ true)
quorums_intersect c p q h hp hq =
    overlap p q (members c)
      (quorum_counts c (count_if p (members c)) (count_if q (members c)) h hp hq).0

-- The parts that a valid configuration is made of.
pub validate_of_parts :
    (c : ClusterConfig) (s : ServerConfig)
    → validate_cluster c ≡ valid
    → validate_server s ≡ valid
    → any (λ x. x == s.pid) c.nodes ≡ true
    → validate (record { cluster_config = c; server_config = s }) ≡ valid
unfolding validate
validate_of_parts c s cluster own among = ground (arith, cluster, own, among)
