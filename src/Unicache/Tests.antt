-- ===== src/Unicache/Tests.antt =====
-- A cache of two numbers, with the pairs in a list from the most recently used one on.
use omnipaxos.Prelude.{
  ℕ, zero, suc, ◌≡◌, refl, sym, ap, ◌∙◌, Option, none, some, List, [], ◌∷◌, ◌++◌, length, arith,
  ◌==◌, if◌then◌else◌, ◌>>=◌, ltb,
}
use omnipaxos.Unicache.{MaybeEncoded, Increment, LruCache, LrUniCache, clone}
use omnipaxos.Unicache.Pairs.{IsEquality, lookup, without}
use omnipaxos.Unicache.Lockstep.{IsLru, nth_encoding, AreApart}
use omnipaxos.Unicache.RoundTrip.{decode_all, decode_all-encode_all}

split_last : {A : Type 0} → A → List A → List A × A
split_last x [] = ([], x)
split_last x (y ∷ ys) = let r = split_last y ys in (x ∷ r.0, r.1)

split_list : {A : Type 0} → List A → Option (A × List A)
unfolding split_last
split_list [] = none
split_list (x ∷ xs) = let r = split_last x xs in some (r.1, r.0)

split_last-append :
    {A : Type 0} (x : A) (xs : List A) (z : A) → split_last x (xs ++ z ∷ []) ≡ (x ∷ xs, z)
unfolding split_last
split_last-append x [] z = refl
split_last-append x (y ∷ ys) z = ap (λ r. (x ∷ r.0, r.1)) (split_last-append y ys z)

split_list-append : {A : Type 0} (xs : List A) (z : A) → split_list (xs ++ z ∷ []) ≡ some (z, xs)
unfolding split_list split_last
split_list-append [] z = refl
split_list-append (x ∷ xs) z = ap (λ r. some (r.1, r.0)) (split_last-append x xs z)

abbrev Cache : Type 0
Cache = ℕ × List (ℕ × ℕ)

get : ℕ → Cache → Option ℕ × Cache
get k c = elim (lookup ◌==◌ k c.1) [
  | some v ↦ (some v, (c.0, (k, v) ∷ without ◌==◌ k c.1))
  | none ↦ (none, c)
]

pop_lru : Cache → Option ((ℕ × ℕ) × Cache)
unfolding split_list
pop_lru c = do r ← split_list c.1; some (r.0, (c.0, r.1))

push : ℕ → ℕ → Cache → Cache
push k v c =
    let others = without ◌==◌ k c.1 in
    if ltb (length others) c.0
    then (c.0, (k, v) ∷ others)
    else (c.0, (k, v) ∷ elim (split_list others) [ some r ↦ r.1 | none ↦ [] ])

abbrev cache : LruCache Cache ℕ ℕ
cache = record {
  new = λ n. (n, []);
  len = λ c. length c.1;
  iter = λ c. c.1;
  get = get;
  push = push;
  pop_lru = pop_lru;
}

without_missing : (k : ℕ) (ps : List (ℕ × ℕ)) → lookup ◌==◌ k ps ≡ none → without ◌==◌ k ps ≡ ps
without_missing k [] h = refl
without_missing k (p ∷ ps) h = ground (arith, without_missing k ps, h)

cache-IsLru : IsLru cache ◌==◌ (λ c. c.0)
unfolding get push pop_lru
cache-IsLru = record {
  iter-new = λ n. (refl, refl);
  len-iter = λ c. refl;
  get_found = λ k v c h. ((c.0, (k, v) ∷ without ◌==◌ k c.1), ground (arith, h), refl, refl);
  get_missing = λ k c h. (c, ground (arith, h), refl, refl);
  push_new = λ k v c h room. ground (arith, without_missing k c.1 h, room);
  pop_last = λ c ps p e. ((c.0, ps), rw (e, split_list-append ps p), refl, refl);
}

abbrev successors : Increment ℕ
successors = record { default = 0; add_one = suc }

number-IsEquality : IsEquality ◌==◌
number-IsEquality = record { sound = λ x y e. ground (arith, e); reflexive = λ x. ground arith }

nth_successor : (n : ℕ) → nth_encoding successors n ≡ n
unfolding nth_encoding
nth_successor zero = refl
nth_successor (suc n) = ap suc (nth_successor n)

successors-AreApart : AreApart successors 2
successors-AreApart i j lt le e = omega (arith, lt, sym (nth_successor i) ∙ e ∙ nth_successor j)

-- The fields 7, 8 and 9 fill the cache and take the place of 7. Of 9, 8, 7 and 8 the clone then
-- decodes all but 7 from its own pairs.
decode_all-encode_all_example :
    (c1 : LrUniCache Cache Cache ℕ) × (d1 : LrUniCache Cache Cache ℕ) × (d2 : LrUniCache Cache Cache
      ℕ)
    × (sent : List (MaybeEncoded ℕ ℕ)) × (clone cache cache successors c1 ≡ some d1)
    × (decode_all cache cache successors sent d1 ≡ some (9 ∷ 8 ∷ 7 ∷ 8 ∷ [], d2))
decode_all-encode_all_example =
    let (c0, before, c1, d1, sent, c2, d2, begins, encodes, cloned, encodes', decodes') =
      decode_all-encode_all cache cache successors ◌==◌ ◌==◌ (λ c. c.0) (λ c. c.0) number-IsEquality
        number-IsEquality cache-IsLru cache-IsLru 2 (7 ∷ 8 ∷ 9 ∷ []) (9 ∷ 8 ∷ 7 ∷ 8 ∷ [])
        (omega arith) successors-AreApart in
    (c1, d1, d2, sent, cloned, decodes')
