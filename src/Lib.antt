-- ===== src/Lib.antt =====
-- OmniPaxos: the replicated log of omnipaxos/src and the storage in memory of
-- omnipaxos_storage/src.
--
-- A server of OmniPaxos (`OmniPaxos`) has three parts, driven by its clocks. Ballot leader election
-- (`BallotLeaderElection`) exchanges heartbeats and says by which ballot a server is to lead.
-- Sequence Paxos (`SequencePaxos`) replicates a log: a leader gathers promises, adopts the most
-- recent log, brings the followers up to date and appends; a follower accepts what belongs to the
-- ballot it has promised. Both roles write through `InternalStorage`, which keeps a cache
-- (`StateCache`) of a storage and batches the appends.
--
-- Modules, with the code that they model:
--   Ballot                       the ballots and their order, omnipaxos/src/ballot_leader_election.rs
--   Quorum, Clock, Sequence      `Quorum`, `LogicalClock`, `SequenceNumber` of omnipaxos/src/util.rs
--   Config                       the configuration and its validation, omnipaxos/src/omni_paxos.rs
--   Storage, Storage.Memory      omnipaxos/src/storage/mod.rs, omnipaxos_storage/src/memory_storage.rs
--   Storage.Cache                omnipaxos/src/storage/state_cache.rs
--   Storage.Internal             omnipaxos/src/storage/internal_storage.rs, with Compaction and Read below it
--   Messages                     omnipaxos/src/messages.rs
--   Leader                       `LeaderState` of omnipaxos/src/util.rs
--   Paxos                        the state and the shared code, omnipaxos/src/sequence_paxos/mod.rs
--   Paxos.FollowerRole           omnipaxos/src/sequence_paxos/follower.rs, with Preparing below it
--   Paxos.LeaderRole             omnipaxos/src/sequence_paxos/leader.rs, with Deciding and Preparing
--   Paxos.Replica                the calls and the dispatch, omnipaxos/src/sequence_paxos/mod.rs
--   Server, Server.Calls         `OmniPaxos` and its calls, omnipaxos/src/omni_paxos.rs
--   Erasure                      the codes, omnipaxos/src/erasure/ec_service.rs and log_entry.rs
--   Coded                        the replica that codes, omnipaxos/src/sequence_paxos_ec/mod.rs
--   Coded.Leader, Coded.Follower omnipaxos/src/sequence_paxos_ec/leader.rs and follower.rs
--   Coded.Replica                the calls and the dispatch, omnipaxos/src/sequence_paxos_ec/mod.rs
--   CodedServer                  `OmniPaxosEC`, omnipaxos/src/omni_paxos_ec.rs
--   Unicache                     omnipaxos/src/unicache/mod.rs and lru_cache.rs
--   Unicache.Lfu                 omnipaxos/src/unicache/lfu/mod.rs, with lfu_cache.rs in Field below it
--   Election                     `BallotLeaderElection`, omnipaxos/src/ballot_leader_election.rs
-- Every other module below these holds lemmas and theorems about its parent, or tests; Prelude and
-- Word hold what all modules share.
--
-- State is a record with the fields of the struct, an operation is a function to the new state
-- under the name of the method. A `?` on a storage error is a bind of `StorageResult`; the storage
-- in memory has no errors of its own, so those of compaction are left. An operation that can panic
-- (an index out of range, `expect` on an error) returns `Option`, and `none` is the panic.
-- `outgoing` is a list of messages with their sender and receiver. A loop over servers is
-- `for_each` or a function by clauses on the list, so that nothing runs on fuel.
--
-- The replica with erasure coding (`SequencePaxosEC`) has the fields of the plain one, in `plain`,
-- and the service that codes values; the handlers whose text is that of the plain replica apply the
-- plain ones to `plain`. The Reed-Solomon library is a record of its functions, and the theorems
-- that need it take the laws that its documentation states (Erasure.RoundTrip); the entries and the
-- serialisation of a stopsign are parameters too. So are the cache of the library lru and the set of
-- the library linked_hash_set.
--
-- Numbers are natural numbers. The sums `+= 1` of rounds, counters, sessions and clocks and the
-- subtractions wrap at the width of the type, as in a release build (Word), as does the sum of the
-- quorum sizes in the validation; lengths and indexes of
-- the log do not wrap, since they are bounded by memory. An entry type `T`, a configuration type
-- `C` and a snapshot type `S` are parameters. The trait `Snapshot` is a record of its operations;
-- the theorems that need it take the law that a snapshot of a log is the snapshot of its first part
-- merged with that of the rest. Its `create` is total, so that `NoSnapshot`, whose `create` panics, is
-- not an instance of it for the calls that make a snapshot.
--
-- Not modelled: the feature unicache in the replicas, and the serialisation of its caches; the
-- logging; the persistent storage, which rests on a store outside the repository; the macros, the user
-- interface and the examples. The network is the sequence of messages that a theorem ranges over.
pub mod Prelude
pub mod Word
pub mod Ballot
pub mod Quorum
pub mod Config
pub mod Clock
pub mod Sequence
pub mod Storage
pub mod Messages
pub mod Leader
pub mod Paxos
pub mod Erasure
pub mod Coded
pub mod Election
pub mod Server
pub mod CodedServer
pub mod Unicache
