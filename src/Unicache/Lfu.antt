-- ===== src/Unicache/Lfu.antt =====
-- The cache with least frequently used eviction: omnipaxos/src/unicache/lfu/mod.rs, and the cache of
-- a field above it, omnipaxos/src/unicache/lfu_cache.rs. A `HashMap` is a list of pairs, and the
-- order in which it is iterated is a parameter. The set of the library `linked_hash_set` is a
-- parameter too, and `none` is a panic.
pub mod Field
pub mod Bins
pub mod Valid
pub mod Evicting
pub mod Total
mod Tests
use omnipaxos.Prelude.{
  ℕ, ◌+◌, ◌<◌, ◌≡◌, Bool, true, false, Option, none, some, List, [], ◌∷◌, map, length, ◌==◌, ◌&&◌,
  if◌then◌else◌, ◌>>=◌, leb,
}
use omnipaxos.Word.{inc_u64}
use omnipaxos.Unicache.Pairs.{lookup}

module _ {K V : Type 0} (eq : K → K → Bool) where
  -- `HashMap::insert` and `HashMap::remove`.
  abbrev pub insert_pair : K → V → List (K × V) → List (K × V)
  insert_pair k v [] = (k, v) ∷ []
  insert_pair k v (p ∷ ps) = if eq p.0 k then (k, v) ∷ ps else p ∷ insert_pair k v ps

  abbrev pub remove_key : K → List (K × V) → List (K × V)
  remove_key k [] = []
  remove_key k (p ∷ ps) = if eq p.0 k then remove_key k ps else p ∷ remove_key k ps

-- `LinkedHashSet`, as far as it is used.
pub record LinkedHashSet (S K : Type 0) : Type 0 where
  pub default : S
  pub is_empty : S → Bool
  pub insert : K → S → S
  pub remove : K → S → S
  pub pop_front : S → Option (K × S)

pub record ValueCounter (V : Type 0) : Type 0 where
  pub value : V
  pub count : ℕ

pub record LfuCache (S K V : Type 0) : Type 0 where
  pub values : List (K × ValueCounter V)
  pub frequency_bin : List (ℕ × S)
  pub capacity : ℕ
  pub min_frequency : ℕ

unfoldable pub with_capacity : {S K V : Type 0} → ℕ → Option (LfuCache S K V)
with_capacity capacity =
    if capacity == 0
    then none
    else some (record { values = []; frequency_bin = []; capacity = capacity; min_frequency = 0 })

abbrev pub len : {S K V : Type 0} → LfuCache S K V → ℕ
len c = length c.values

abbrev pub iter : {S K V : Type 0} → LfuCache S K V → List (K × V)
iter c = map (λ p. (p.0, p.1.value)) c.values

-- `entry(n).or_default()` and then `insert(key)`.
unfoldable pub insert_in_bin :
    {S K : Type 0} → LinkedHashSet S K → ℕ → K → List (ℕ × S) → List (ℕ × S)
insert_in_bin sets n key bins =
    insert_pair ◌==◌ n
      (sets.insert key (elim (lookup ◌==◌ n bins) [ some bin ↦ bin | none ↦ sets.default ])) bins

module _ {S K V : Type 0} (sets : LinkedHashSet S K) (eq : K → K → Bool) where
  -- The key moves to the bin of the next frequency.
  unfoldable pub count_use : K → ValueCounter V → S → LfuCache S K V → LfuCache S K V
  unfolding insert_in_bin
  count_use key value_counter bin c =
      let count = value_counter.count in
      let bin' = sets.remove key bin in
      record c {
        values = insert_pair eq key (record value_counter { count = inc_u64 count }) c.values;
        frequency_bin =
            insert_in_bin sets (inc_u64 count) key (insert_pair ◌==◌ count bin' c.frequency_bin);
        min_frequency =
            if count == c.min_frequency && sets.is_empty bin'
            then inc_u64 c.min_frequency
            else c.min_frequency;
      }

  unfoldable pub update_frequency_bin : K → LfuCache S K V → Option (LfuCache S K V)
  unfolding count_use
  update_frequency_bin key c = elim (lookup eq key c.values) [
    | some value_counter ↦ (do
      bin ← lookup ◌==◌ value_counter.count c.frequency_bin
      some (count_use key value_counter bin c))
    | none ↦ some c
  ]

  unfoldable pub get : K → LfuCache S K V → Option (Option V × LfuCache S K V)
  unfolding update_frequency_bin
  get key c = do
    c' ← update_frequency_bin key c
    some (do x ← lookup eq key c'.values; some x.value, c')

  -- The caller changes the value through the reference that it gets.
  unfoldable pub get_mut : K → (V → V) → LfuCache S K V → Option (Option V × LfuCache S K V)
  unfolding update_frequency_bin
  get_mut key change c = do
    c' ← update_frequency_bin key c
    elim (lookup eq key c'.values) [
      | some x ↦ some (
        some x.value,
        record c' { values = insert_pair eq key (record x { value = change x.value }) c'.values },
      )
      | none ↦ some (none, c')
    ]

  -- The key that leaves a bin, its value and the rest.
  unfoldable pub evict_from : S → LfuCache S K V → Option (K × Option V × LfuCache S K V)
  evict_from bin c = do
    popped ← sets.pop_front bin
    let value : Option V = (do x ← lookup eq popped.0 c.values; some x.value)
    some (
      popped.0,
      value,
      record c {
        values = remove_key eq popped.0 c.values;
        frequency_bin = insert_pair ◌==◌ c.min_frequency popped.1 c.frequency_bin;
      },
    )

  unfoldable pub evict : LfuCache S K V → Option (LfuCache S K V)
  unfolding evict_from
  evict c = do
    bin ← lookup ◌==◌ c.min_frequency c.frequency_bin
    evicted ← evict_from bin c
    some evicted.2

  unfoldable pub evict_and_return_key : LfuCache S K V → Option (Option K × LfuCache S K V)
  unfolding evict_from
  evict_and_return_key c = elim (lookup ◌==◌ c.min_frequency c.frequency_bin) [
    | some bin ↦ (do evicted ← evict_from bin c; some (some evicted.0, evicted.2))
    | none ↦ some (none, c)
  ]

  unfoldable pub evict_and_return_value : LfuCache S K V → Option (Option V × LfuCache S K V)
  unfolding evict_from
  evict_and_return_value c = elim (lookup ◌==◌ c.min_frequency c.frequency_bin) [
    | some bin ↦ (do evicted ← evict_from bin c; some (evicted.1, evicted.2))
    | none ↦ some (none, c)
  ]

  -- A key that the cache does not hold, with the frequency 1.
  unfoldable pub set_new : K → V → LfuCache S K V → LfuCache S K V
  unfolding insert_in_bin
  set_new key value c = record c {
    values = insert_pair eq key (record { value = value; count = 1 }) c.values;
    frequency_bin = insert_in_bin sets 1 key c.frequency_bin;
    min_frequency = 1;
  }

  unfoldable pub set : K → V → LfuCache S K V → Option (LfuCache S K V)
  unfolding update_frequency_bin evict set_new
  set key value c = elim (lookup eq key c.values) [
    | some value_counter ↦
        update_frequency_bin key (record c {
          values = insert_pair eq key (record value_counter { value = value }) c.values;
        })
    | none ↦ (do
      c' ← if leb c.capacity (len c) then evict c else some c
      some (set_new key value c'))
  ]

  unfoldable pub remove : K → LfuCache S K V → Option V × LfuCache S K V
  remove key c = elim (lookup eq key c.values) [
    | some value_counter ↦ (
      some value_counter.value,
      record c {
        values = remove_key eq key c.values;
        frequency_bin =
            insert_pair ◌==◌ value_counter.count
              (sets.remove key (elim (lookup ◌==◌ value_counter.count c.frequency_bin) [
                | some bin ↦ bin
                | none ↦ sets.default
              ]))
              c.frequency_bin;
      },
    )
    | none ↦ (none, c)
  ]
