-- ===== src/Unicache/Lfu/Evicting.antt =====
-- An eviction from a cache whose values and bins agree: omnipaxos/src/unicache/lfu/mod.rs.
use omnipaxos.Prelude.{◌<◌, ◌≡◌, refl, Bool, true, not, ◌&&◌, none, some, arith, ◌==◌}
use omnipaxos.Unicache.Pairs.{IsEquality, lookup}
use omnipaxos.Unicache.Lfu.{
  LinkedHashSet, ValueCounter, LfuCache, len, insert_pair, remove_key, evict_from,
}
use omnipaxos.Unicache.Lfu.Bins.{
  lookup-remove_key, length-remove_key, IsLinkedHashSet, in_bin, in_bin-insert_pair, bin_of,
}
use omnipaxos.Unicache.Lfu.Valid.{Valid, HasLeast}

module _ {S K V : Type 0} (sets : LinkedHashSet S K) (eq : K → K → Bool) (contains : K → S → Bool)
    (law : IsEquality eq) (law_set : IsLinkedHashSet sets eq contains) where
  -- A key and its value, out of the cache.
  evicted : K → S → LfuCache S K V → LfuCache S K V
  evicted j bin c = record c {
    values = remove_key eq j c.values;
    frequency_bin = insert_pair ◌==◌ c.min_frequency bin c.frequency_bin;
  }

  evicted-Valid :
      (j : K) (bin bin' : S) (x : ValueCounter V) (c : LfuCache S K V)
      → lookup ◌==◌ c.min_frequency c.frequency_bin ≡ some bin
      → lookup eq j c.values ≡ some x
      → x.count ≡ c.min_frequency
      → ((i : K) → contains i bin' ≡ (not (eq j i) && contains i bin))
      → Valid sets eq contains law law_set c
      → Valid sets eq contains law law_set (evicted j bin' c)
  unfolding evicted
  evicted-Valid j bin bin' x c at_least found counted rest valid =
      let into = in_bin-insert_pair sets eq contains law_set c.min_frequency bin' c.frequency_bin in
      let looked_up = λ (i : K). lookup-remove_key eq law i j c.values in
      record {
        binned = λ i y e.
            ground (arith, into y.count i, looked_up i, valid.binned i y, rest i, at_least, e);
        known = λ m i h.
            let before : in_bin contains c.frequency_bin m i ≡ true =
              ground (arith, into m i, rest i, at_least, h) in
            let (y, e, n) = valid.known m i before in
            (
              y,
              ground (
                arith,
                looked_up i,
                into m i,
                rest i,
                h,
                e,
                n,
                found,
                counted,
                law.sound j i,
                law.reflexive i,
              ),
              n,
            );
      }

  -- The least frequently used key leaves.
  pub evict_from_total :
      (c : LfuCache S K V)
      → 0 < len c
      → Valid sets eq contains law law_set c
      → HasLeast sets eq contains law law_set c
      → (bin : S) × (j : K) × (v : V) × (c' : LfuCache S K V) × (lookup ◌==◌ c.min_frequency
            c.frequency_bin
          ≡ some bin)
        × (evict_from sets eq bin c ≡ some (j, some v, c'))
        × (len c' < len c)
        × (c'.capacity ≡ c.capacity)
        × (lookup eq j c'.values ≡ none)
        × ((i : K) → lookup eq i c.values ≡ none → lookup eq i c'.values ≡ none)
        × Valid sets eq contains law law_set c'
  unfolding evict_from evicted
  evict_from_total c some_key valid least =
      let (k, at_least) = least some_key in
      let (bin, is_bin, has) =
        bin_of sets eq contains law_set c.frequency_bin c.min_frequency k at_least in
      let (j, bin', pops, had, rest) = law_set.popped k bin has in
      let (x, found, counted) = valid.known c.min_frequency j (ground (arith, is_bin, had)) in
      let gone = λ (i : K). lookup-remove_key eq law i j c.values in
      (
        bin,
        j,
        x.value,
        evicted j bin' c,
        is_bin,
        ground (arith, pops, found),
        length-remove_key eq law j x c.values found,
        refl,
        ground (arith, gone j, law.reflexive j),
        λ i absent. ground (arith, gone i, absent),
        evicted-Valid j bin bin' x c is_bin found counted rest valid,
      )
