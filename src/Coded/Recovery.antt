-- ===== src/Coded/Recovery.antt =====
-- What the servers store of a value gives the value back: omnipaxos/src/sequence_paxos_ec/leader.rs
-- with omnipaxos/src/erasure/ec_service.rs.
use omnipaxos.Prelude.{
  ℕ, ◌+◌, ◌^◌, ◌≤◌, ◌<◌, ◌≡◌, refl, sym, ap, subst, ◌∙◌, any, some, List, [], ◌∷◌, All, map, length,
  get_elem?, get_elem?_total, length-map, >>=-eq-some, arith, ◌>>=◌, ◌==◌,
}
use omnipaxos.Erasure.{
  ok, ReedSolomon, EcService, decode, enumerate, fragment_index_for_node, length_prefix_bytes,
}
use omnipaxos.Erasure.Entry.{OperationType, EcEntry, IsEntry}
use omnipaxos.Erasure.Received.{distinct_indexes, count_below, count_below_ext}
use omnipaxos.Erasure.RoundTrip.{IsReedSolomon, decode-encode, encoded_word}
use omnipaxos.Erasure.Indexes.{
  AllDistinct, idx-enumerate, length-enumerate, indexes-AllDistinct, count_below-AllDistinct,
  fragment_index_for_node_lt,
}
use omnipaxos.Coded.{CodedEntry, entry_for, encode_entry}

-- The entries that a list of servers get, one each.
abbrev pub Store : {T : Type 0} → EcEntry T → ℕ → CodedEntry → List ℕ → List T → Type 0
Store entries total coded [] [] = Unit
Store entries total coded [] (e ∷ stored) = ⊥
Store entries total coded (pid ∷ pids) [] = ⊥
Store entries total coded (pid ∷ pids) (e ∷ stored) =
    (entry_for entries total pid coded ≡ some e) × Store entries total coded pids stored

module _ {T : Type 0} (entries : EcEntry T) (lawful : IsEntry entries) where
  entry_for-fragment :
      (total pid : ℕ) (coded : CodedEntry) (e : T)
      → entry_for entries total pid coded ≡ some e
      → get_elem? coded.fragments (fragment_index_for_node pid total) ≡ some (entries.value e)
  unfolding entry_for
  entry_for-fragment total pid coded e h =
      let index = fragment_index_for_node pid total in
      let (f, found, made) = >>=-eq-some (get_elem? coded.fragments index) _ h in
      cc (found, made, lawful.value-from_parts coded.key f coded.op)

  pub entry_for_total :
      (total pid : ℕ) (coded : CodedEntry)
      → fragment_index_for_node pid total < length coded.fragments
      → (e : T) × (entry_for entries total pid coded ≡ some e)
  unfolding entry_for
  entry_for_total total pid coded h =
      let (f, found) = get_elem?_total coded.fragments (fragment_index_for_node pid total) h in
      (
        entries.from_parts coded.key f coded.op,
        ap (λ o. o >>= λ f'. some (entries.from_parts coded.key f' coded.op)) found,
      )

  -- The index of an entry is that of its server.
  entry_for-idx :
      (total pid : ℕ) (key : List ℕ) (op : OperationType) (word : List (List ℕ)) (e : T)
      → entry_for entries total pid (record { key = key; op = op; fragments = enumerate 0 word })
        ≡ some e
      → (entries.value e).idx ≡ fragment_index_for_node pid total
  entry_for-idx total pid key op word e h =
      let coded : CodedEntry = record { key = key; op = op; fragments = enumerate 0 word } in
      let index = fragment_index_for_node pid total in
      omega (
        arith,
        idx-enumerate 0 index word (entries.value e) (entry_for-fragment total pid coded e h),
      )

  module _ (total : ℕ) (key : List ℕ) (op : OperationType) (word : List (List ℕ)) where
    abbrev coded_of : CodedEntry
    coded_of = record { key = key; op = op; fragments = enumerate 0 word }

    Store-indexes :
        (pids : List ℕ) (stored : List T)
        → Store entries total coded_of pids stored
        → map (λ e. (entries.value e).idx) stored ≡ map (λ p. fragment_index_for_node p total) pids
    Store-indexes [] [] h = refl
    Store-indexes [] (e ∷ stored) h = absurd h
    Store-indexes (p ∷ pids) [] h = absurd h
    Store-indexes (p ∷ pids) (e ∷ stored) h =
        let first = entry_for-idx total p key op word e h.0 in
        let rest = Store-indexes pids stored h.1 in cc (first, rest)

    Store-known :
        (pids : List ℕ) (stored : List T)
        → Store entries total coded_of pids stored
        → All (λ f. get_elem? (enumerate 0 word) f.idx ≡ some f) (map entries.value stored)
    Store-known [] [] h = tt
    Store-known [] (e ∷ stored) h = absurd h
    Store-known (p ∷ pids) [] h = absurd h
    Store-known (p ∷ pids) (e ∷ stored) h =
        let first = entry_for-idx total p key op word e h.0 in
        let found = entry_for-fragment total p coded_of e h.0 in
        (ap (get_elem? (enumerate 0 word)) first ∙ found, Store-known pids stored h.1)

    pub stored_total :
        (pids : List ℕ)
        → All (λ p. fragment_index_for_node p total < length word) pids
        → (stored : List T) × Store entries total coded_of pids stored
    stored_total [] h = ([], tt)
    stored_total (p ∷ pids) h =
        let (e, first) =
          entry_for_total total p coded_of (omega (arith, length-enumerate 0 word, h.0)) in
        let (stored, rest) = stored_total pids h.1 in (e ∷ stored, (first, rest))

  any-value :
      (i : ℕ) (stored : List T)
      → any (λ f. f.idx == i) (map entries.value stored)
        ≡ any (λ n. n == i) (map (λ e. (entries.value e).idx) stored)
  any-value i [] = refl
  any-value i (e ∷ stored) = ground (arith, any-value i stored)

-- The identifiers of the servers of a cluster of `total`.
abbrev pub AreServers : ℕ → List ℕ → Type 0
AreServers total pids = All (λ p. (1 ≤ p) × (p ≤ total)) pids × AllDistinct pids

pub indexes_lt :
    (total : ℕ) (pids : List ℕ)
    → 0 < total
    → All (λ p. fragment_index_for_node p total < total) pids
      × All (λ n. n < total) (map (λ p. fragment_index_for_node p total) pids)
indexes_lt total [] pos = (tt, tt)
indexes_lt total (p ∷ pids) pos =
    let first = fragment_index_for_node_lt total p pos in
    let (rest, mapped) = indexes_lt total pids pos in ((first, rest), (first, mapped))

module _ {T R E : Type 0} (lib : ReedSolomon R E) (service : EcService R) (entries : EcEntry T)
    (lawful : IsEntry entries) where
  -- In a cluster of the servers 1 to n with one shard for each of them, the value of an entry is
  -- encoded without a panic, each server has an entry to store, and what is stored at any servers,
  -- as many as there are data shards or more, decodes to the value. The length of the value and its
  -- prefix fits into `usize`, the library keeps what it promises, and an entry has the fragment
  -- that it is made from.
  pub decode-encode_entry :
      (entry : T) (pids : List ℕ)
      → length (entries.value entry).bytes + length_prefix_bytes < 2 ^ 64
      → IsReedSolomon lib service
      → AreServers (service.data_shards + service.parity_shards) pids
      → service.data_shards ≤ length pids
      → (coded : CodedEntry) × (encode_entry lib entries service entry ≡ some coded)
        × (stored : List T) × Store entries
            (service.data_shards + service.parity_shards)
            coded
            pids
            stored
        × (decode lib service (map entries.value stored) ≡ some (ok (entries.value entry).bytes))
  unfolding encode_entry
  decode-encode_entry entry pids fits law servers enough =
      let total = service.data_shards + service.parity_shards in
      let value = (entries.value entry).bytes in
      let key = entries.key entry in
      let op = entries.operation entry in
      let pos : 0 < total = omega (arith, law.some_data) in
      let (shards, word, runs, encoded, len, n, long, joined) =
        encoded_word lib service value law in
      let (fragments, runs', decodes) = decode-encode lib service value fits law in
      let same : fragments ≡ enumerate 0 word = cc (runs, runs') in
      let (small, small_indexes) = indexes_lt total pids pos in
      let (stored, stores) =
        stored_total entries lawful total key op word pids
          (subst (λ n. All (λ p. fragment_index_for_node p total < n) pids) (sym len) small) in
      let known : All (λ f. get_elem? fragments f.idx ≡ some f) (map entries.value stored) =
        subst (λ fs. All (λ f. get_elem? fs f.idx ≡ some f) (map entries.value stored)) (sym same)
          (Store-known entries lawful total key op word pids stored stores) in
      let indexes = map (λ p. fragment_index_for_node p total) pids in
      let counted =
        count_below-AllDistinct indexes total (indexes-AllDistinct total pids servers.0 servers.1)
          small_indexes in
      let listed = Store-indexes entries lawful total key op word pids stored stores in
      let distinct : distinct_indexes total (map entries.value stored)
          ≡ count_below (λ i. any (λ n. n == i) indexes) total =
        count_below_ext (λ i. any (λ f. f.idx == i) (map entries.value stored))
          (λ i. any (λ n. n == i) indexes) total
          (λ i l. any-value entries lawful i stored ∙ ap (λ ns. any (λ n. n == i) ns) listed) in
      (
        record { key = key; op = op; fragments = enumerate 0 word },
        ap (λ o. o >>= λ fs. some (record { key = key; op = op; fragments = fs })) runs,
        stored,
        stores,
        decodes (map entries.value stored) known (
            omega (
              arith,
              distinct,
              counted,
              enough,
              length-map (λ p. fragment_index_for_node p total) pids,
            )),
      )
