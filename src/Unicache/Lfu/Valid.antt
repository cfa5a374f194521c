-- ===== src/Unicache/Lfu/Valid.antt =====
-- The values and the bins agree, and stay so: omnipaxos/src/unicache/lfu/mod.rs.
use omnipaxos.Prelude.{
  ℕ, ◌<◌, ◌≡◌, inl, inr, Bool, true, not, ◌&&◌, ◌||◌, none, some, arith, ◌==◌, Bool-cases,
}
use omnipaxos.Word.{inc_u64}
use omnipaxos.Unicache.Pairs.{IsEquality, lookup}
use omnipaxos.Unicache.Lfu.{
  LinkedHashSet, ValueCounter, LfuCache, len, insert_pair, insert_in_bin, count_use, set_new,
}
use omnipaxos.Unicache.Lfu.Bins.{
  lookup-insert_pair, length-insert_pair_found, IsLinkedHashSet, in_bin, in_bin-insert_in_bin,
  in_bin-insert_pair,
}

module _ {S K V : Type 0} (sets : LinkedHashSet S K) (eq : K → K → Bool) (contains : K → S → Bool)
    (law : IsEquality eq) (law_set : IsLinkedHashSet sets eq contains) where
  -- A key is in the bin of its frequency, and in no other.
  pub record Valid (c : LfuCache S K V) : Type 0 where
    pub binned :
        (k : K) (x : ValueCounter V)
        → lookup eq k c.values ≡ some x
        → in_bin contains c.frequency_bin x.count k ≡ true
    pub known :
        (n : ℕ) (k : K)
        → in_bin contains c.frequency_bin n k ≡ true
        → (x : ValueCounter V) × (lookup eq k c.values ≡ some x) × (x.count ≡ n)

  -- There is a key to evict.
  abbrev pub HasLeast : LfuCache S K V → Type 0
  HasLeast c = 0 < len c → (k : K) × (in_bin contains c.frequency_bin c.min_frequency k ≡ true)

  in_bin-count_use :
      (k : K) (x : ValueCounter V) (bin : S) (c : LfuCache S K V)
      → lookup ◌==◌ x.count c.frequency_bin ≡ some bin
      → (m : ℕ) (j : K)
      → in_bin contains (count_use sets eq k x bin c).frequency_bin m j ≡ (
          (inc_u64 x.count == m && eq k j)
          || (in_bin contains c.frequency_bin m j && not (x.count == m && eq k j)))
  unfolding count_use
  in_bin-count_use k x bin c at_count m j = ground (
    arith,
    in_bin-insert_in_bin sets eq contains law_set (inc_u64 x.count) k
        (insert_pair ◌==◌ x.count (sets.remove k bin) c.frequency_bin) m j,
    in_bin-insert_pair sets eq contains law_set x.count (sets.remove k bin) c.frequency_bin m j,
    law_set.contains-remove j k bin,
    at_count,
  )

  pub count_use-Valid :
      (k : K) (x : ValueCounter V) (bin : S) (c : LfuCache S K V)
      → lookup eq k c.values ≡ some x
      → lookup ◌==◌ x.count c.frequency_bin ≡ some bin
      → Valid c
      → Valid (count_use sets eq k x bin c)
  unfolding count_use
  count_use-Valid k x bin c found at_count valid = record {
    binned = λ j y e. ground (
      arith,
      in_bin-count_use k x bin c at_count y.count j,
      lookup-insert_pair eq law j k (record x { count = inc_u64 x.count }) c.values,
      valid.binned j y,
      law.sound k j,
    );
    known = λ m j h.
        let x' : ValueCounter V = record x { count = inc_u64 x.count } in
        let moves = in_bin-count_use k x bin c at_count m j in
        let looked_up = lookup-insert_pair eq law j k x' c.values in
        elim (Bool-cases (inc_u64 x.count == m && eq k j)) [
          | inl moved ↦ (x', ground (arith, looked_up, moved), ground (arith, moved))
          | inr other ↦
              let before : in_bin contains c.frequency_bin m j ≡ true =
                ground (arith, moves, h, other) in
              let (y, e, n) = valid.known m j before in
              (y, ground (arith, looked_up, moves, h, other, e, n, found, law.sound k j), n)
        ];
  }

  pub count_use-HasLeast :
      (k : K) (x : ValueCounter V) (bin : S) (c : LfuCache S K V)
      → lookup eq k c.values ≡ some x
      → lookup ◌==◌ x.count c.frequency_bin ≡ some bin
      → HasLeast c
      → HasLeast (count_use sets eq k x bin c)
  unfolding count_use inc_u64
  count_use-HasLeast k x bin c found at_count least some_key =
      let held =
        length-insert_pair_found eq law k (record x { count = inc_u64 x.count }) x c.values found in
      let (j, at_least) = least (omega (arith, held, some_key)) in
      let moves = in_bin-count_use k x bin c at_count in
      elim (Bool-cases (x.count == c.min_frequency)) [
        | inr apart ↦ (j, ground (arith, moves c.min_frequency j, apart, at_least))
        | inl same ↦ (elim (Bool-cases (sets.is_empty (sets.remove k bin))) [
          | inl empty ↦
              (k, ground (arith, moves (inc_u64 c.min_frequency) k, same, empty, law.reflexive k))
          | inr left ↦
              let (i, stays) = law_set.element (sets.remove k bin) left in
              (
                i,
                ground (
                  arith,
                  moves c.min_frequency i,
                  same,
                  left,
                  stays,
                  law_set.contains-remove i k bin,
                  at_count,
                ),
              )
        ])
      ]

  pub set_new-Valid :
      (k : K) (v : V) (c : LfuCache S K V)
      → lookup eq k c.values ≡ none
      → Valid c
      → Valid (set_new sets eq k v c)
  unfolding set_new
  set_new-Valid k v c absent valid =
      let x : ValueCounter V = record { value = v; count = 1 } in
      let into = in_bin-insert_in_bin sets eq contains law_set 1 k c.frequency_bin in
      let looked_up = λ (j : K). lookup-insert_pair eq law j k x c.values in
      let counted : (m : ℕ) (j : K)
          → in_bin contains (insert_in_bin sets 1 k c.frequency_bin) m j ≡ true
          → eq k j ≡ true
          → 1 ≡ m =
        λ m j h same. elim (Bool-cases (in_bin contains c.frequency_bin m j)) [
          | inl before ↦
              let (y, e, n) = valid.known m j before in
              ground (arith, law.sound k j same, absent, e)
          | inr not_before ↦ ground (arith, into m j, h, not_before)
        ] in
      record {
        binned = λ j y e. ground (arith, into y.count j, looked_up j, valid.binned j y, e);
        known = λ m j h. elim (Bool-cases (eq k j)) [
          | inl same ↦ (x, ground (arith, looked_up j, same), ground (arith, counted m j h same))
          | inr other ↦
              let (y, e, n) = valid.known m j (ground (arith, into m j, h, other)) in
              (y, ground (arith, looked_up j, other, e), n)
        ];
      }

  pub set_new-HasLeast : (k : K) (v : V) (c : LfuCache S K V) → HasLeast (set_new sets eq k v c)
  unfolding set_new
  set_new-HasLeast k v c _ = (
    k,
    ground (
      arith,
      in_bin-insert_in_bin sets eq contains law_set 1 k c.frequency_bin 1 k,
      law.reflexive k,
    ),
  )
