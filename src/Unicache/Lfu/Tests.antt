-- ===== src/Unicache/Lfu/Tests.antt =====
-- Caches of two numbers with least frequently used eviction, with the keys of a bin in a list.
use omnipaxos.Prelude.{
  ℕ, suc, ◌≤◌, ◌≡◌, refl, Bool, true, false, not, ◌&&◌, ◌||◌, Option, none, some, List, [], ◌∷◌,
  ◌++◌, length, arith, ◌==◌, ◌>>=◌, is_empty, any, keep,
}
use omnipaxos.Unicache.{MaybeEncoded, Increment}
use omnipaxos.Word.{inc_u64}
use omnipaxos.Unicache.Lfu.{
  LinkedHashSet, len, with_capacity, get, set, evict_and_return_value, evict_and_return_key,
}
use omnipaxos.Unicache.Lfu.Field.{LfUniCache, new, clone, try_encode, decode}
use omnipaxos.Unicache.Lfu.Bins.{IsLinkedHashSet, number-IsEquality}
use omnipaxos.Unicache.Lfu.Total.{encode_all, encode_all_total}

abbrev others : ℕ → List ℕ → List ℕ
others k ks = keep (λ j. not (k == j)) ks

abbrev holds : ℕ → List ℕ → Bool
holds k ks = any (λ j. j == k) ks

abbrev lists : LinkedHashSet (List ℕ) ℕ
lists = record {
  default = [];
  is_empty = is_empty;
  insert = λ k ks. others k ks ++ k ∷ [];
  remove = others;
  pop_front = λ ks. elim ks [ [] ↦ none | k ∷ ks ↦ some (k, others k ks) ];
}

holds-others : (j k : ℕ) (ks : List ℕ) → holds j (others k ks) ≡ (not (k == j) && holds j ks)
holds-others j k [] = ground arith
holds-others j k (i ∷ ks) = ground (arith, holds-others j k ks)

holds-snoc : (j k : ℕ) (ks : List ℕ) → holds j (ks ++ k ∷ []) ≡ (k == j || holds j ks)
holds-snoc j k [] = ground arith
holds-snoc j k (i ∷ ks) = ground (arith, holds-snoc j k ks)

an_element : (ks : List ℕ) → is_empty ks ≡ false → (k : ℕ) × (holds k ks ≡ true)
an_element [] h = ground (arith, h)
an_element (k ∷ ks) h = (k, ground arith)

pop :
    (k : ℕ) (ks : List ℕ)
    → holds k ks ≡ true
    → (j : ℕ) × (rest : List ℕ) × (lists.pop_front ks ≡ some (j, rest))
      × (holds j ks ≡ true)
      × ((i : ℕ) → holds i rest ≡ (not (j == i) && holds i ks))
pop k [] h = ground (arith, h)
pop k (j ∷ ks) h = (j, others j ks, refl, ground arith, λ i. ground (arith, holds-others i j ks))

lists-IsLinkedHashSet : IsLinkedHashSet lists ◌==◌ holds
lists-IsLinkedHashSet = record {
  contains-default = λ k. refl;
  contains-insert = λ j k ks. ground (arith, holds-snoc j k (others k ks), holds-others j k ks);
  contains-remove = λ j k ks. holds-others j k ks;
  element = an_element;
  popped = pop;
}

abbrev successors : Increment ℕ
successors = record { default = 0; add_one = suc }

abbrev Cache : Type 0
Cache = LfUniCache (List ℕ) (List ℕ) ℕ ℕ

abbrev encode : ℕ → Cache → Option (MaybeEncoded ℕ ℕ × Cache)
encode = try_encode lists lists successors ◌==◌ ◌==◌

abbrev decode_field : MaybeEncoded ℕ ℕ → Cache → Option (ℕ × Cache)
decode_field = decode lists lists successors ◌==◌ ◌==◌

-- The leader encodes 7, 8 and 7, sends the clone of its cache, and encodes 9 and 7; the follower
-- decodes the last answer.
follower_decodes : Option ℕ
unfolding new clone try_encode decode
follower_decodes = do
  c ← new lists lists successors ◌==◌ ◌==◌ 2
  one ← encode 7 c
  two ← encode 8 one.1
  three ← encode 7 two.1
  d ← clone lists lists successors ◌==◌ ◌==◌ (λ ps. ps) three.1
  four ← encode 9 three.1
  five ← encode 7 four.1
  nine ← decode_field four.0 d
  last ← decode_field five.0 nine.1
  some last.0

-- The last field was 7. The clone has lost that 7 was used twice, and has replaced it by 9.
follower_decodes_nine : follower_decodes ≡ some 9
unfolding follower_decodes with_capacity get set evict_and_return_value evict_and_return_key inc_u64
follower_decodes_nine = refl

encode_all_total_example :
    (c : Cache) × (ms : List (MaybeEncoded ℕ ℕ)) × (c' : Cache) × (new lists lists successors ◌==◌
        ◌==◌ 2
      ≡ some c)
    × (encode_all lists lists successors ◌==◌ ◌==◌ (7 ∷ 8 ∷ 7 ∷ 9 ∷ []) c ≡ some (ms, c'))
    × (length ms ≡ 4)
    × (len c'.lfu_cache_encoder ≤ 2)
encode_all_total_example =
    encode_all_total lists lists successors ◌==◌ ◌==◌ holds number-IsEquality lists-IsLinkedHashSet
      2 (7 ∷ 8 ∷ 7 ∷ 9 ∷ []) (omega arith)
