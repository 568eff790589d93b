-- ===== src/ConcurrentDict/Refinement.antt =====
-- datastruct/dict/concurrent.go: the sharded dict does what the simple dict does.
use godis.Base.{
  ℕ, zero, suc, ◌+◌, ◌-◌, ◌%◌, ◌^◌, ◌<◌, ◌≡◌, ◌≢◌, refl, sym, ap, ◌∙◌, inl, inr, false, Option,
  none, some, List, [], ◌∷◌, Bytes, bytes_eq, bytes_eq_iff, arith, ◌==◌, ==_iff, if◌then◌else◌,
  length, get_elem?, replicate, length-replicate, length-set, get_elem?-set_self, get_elem?-set_ne,
  Bool-cases,
}
use godis.Base.Outcome.{returns, Ends, ◌>>=◌}
use godis.Base.Int.{ℤ}
use godis.Dict.{Dict, get, delete, insert}
use godis.Dict
use godis.Dict.Laws.{
  get-insert, get-delete, put_if_absent_new, put_if_absent_old, put_if_exists_new,
  put_if_exists_old,
}
use godis.ConcurrentDict.{
  ConcurrentDict, spread, get_shard, put_shard, lookup, put, put_if_absent, put_if_exists, remove,
  put_in, absent_in, exists_in, remove_in, make_concurrent, compute_capacity, of_shards, is_one,
  add_count, decrease_count, at_index,
}
use godis.ConcurrentDict.Shards.{
  spread-lt, Unique, held, insert-Unique, delete-Unique, length-insert, length-delete,
  delete-absent,
}

get_elem?-some {ℓ} :
    {A : Type ℓ} (xs : List A) (i : ℕ) → i < length xs → (x : A) × (get_elem? xs i ≡ some x)
get_elem?-some [] i h = elim h [ ]
get_elem?-some (x ∷ xs) zero h = (x, refl)
get_elem?-some (x ∷ xs) (suc i) h = get_elem?-some xs i (omega arith)

capacity_pos : (shard_count : ℤ) → 0 < compute_capacity shard_count
unfolding compute_capacity
capacity_pos shard_count = ground arith

module _ {V : Type 0} where
  -- What a key's shard has under the key.
  abbrev pub found : Bytes → Option (Dict V) → Option V
  found k none = none
  found k (some s) = get s k

  abbrev pub shard_of : ConcurrentDict V → Bytes → Option (Dict V)
  shard_of d k = get_elem? d.table (spread (length d.table) k)

  -- The table has shards, together they have what the map has, and the count is the number of its keys.
  pub record Represents (d : ConcurrentDict V) (m : Dict V) : Type 0 where
    pub some_shards : 0 < length d.table
    pub few_shards : length d.table < 2 ^ 32
    pub same : (k : Bytes) → found k (shard_of d k) ≡ get m k
    pub unique : Unique m
    pub counted : d.count ≡ length m % 2 ^ 32

  -- The shard of a key is there, and has what the map has under the key.
  pub shard-Represents :
      (d : ConcurrentDict V) (m : Dict V) (k : Bytes)
      → Represents d m
      → (s : Dict V) × (shard_of d k ≡ some s) × (get s k ≡ get m k)
  shard-Represents d m k r =
      let (s, e) =
        get_elem?-some d.table (spread (length d.table) k)
          (spread-lt (length d.table) k r.some_shards r.few_shards) in
      (s, e, ap (found k) (sym e) ∙ r.same k)

  -- A new shard under the key's index, and a map that differs at the key only.
  same-put_shard :
      (d : ConcurrentDict V) (m m' : Dict V) (k : Bytes) (s s' : Dict V) (v : Option V)
      → Represents d m
      → shard_of d k ≡ some s
      → ((j : Bytes) → get s' j ≡ (if bytes_eq k j then v else get s j))
      → ((j : Bytes) → get m' j ≡ (if bytes_eq k j then v else get m j))
      → (j : Bytes) → found j (shard_of (put_shard d k s') j) ≡ get m' j
  unfolding put_shard
  same-put_shard d m m' k s s' v r e hs hm j =
      rw (length-set d.table i s') (elim (Bool-cases (i == at)) [
        | inl same_shard ↦
            let here : i ≡ at = (==_iff i at).0 same_shard in
            rw
              (
                ← here,
                get_elem?-set_self d.table i s'
                    (spread-lt (length d.table) k r.some_shards r.few_shards),
                hs j,
                hm j,
              )
              (ap (λ o. if bytes_eq k j then v else o) (in_shard here))
        | inr other_shard ↦
            let elsewhere : i ≢ at = ground arith in
            rw (get_elem?-set_ne d.table {i = i} {j = at} s' elsewhere, hm j, not_same elsewhere)
              (r.same j)
      ])
    where
      i : ℕ
      i = spread (length d.table) k

      at : ℕ
      at = spread (length d.table) j

      in_shard : i ≡ at → get s j ≡ get m j
      in_shard here = ap (found j) (sym e ∙ ap (get_elem? d.table) here) ∙ r.same j

      not_same : i ≢ at → bytes_eq k j ≡ false
      not_same elsewhere = elim (Bool-cases (bytes_eq k j)) [
        | inl eq ↦ absurd (elsewhere (ap (spread (length d.table)) ((bytes_eq_iff k j).0 eq)))
        | inr ne ↦ ne
      ]

  insert-Represents :
      (d : ConcurrentDict V) (m : Dict V) (k : Bytes) (v : V) (s : Dict V) (c : ℕ)
      → Represents d m
      → shard_of d k ≡ some s
      → c ≡ length (insert m k v) % 2 ^ 32
      → Represents (record (put_shard d k (insert s k v)) { count = c }) (insert m k v)
  insert-Represents d m k v s c r e ec = record {
    some_shards =
        unfold put_shard in
        rw (length-set d.table (spread (length d.table) k) (insert s k v)) r.some_shards;
    few_shards =
        unfold put_shard in
        rw (length-set d.table (spread (length d.table) k) (insert s k v)) r.few_shards;
    same =
        same-put_shard d m (insert m k v) k s (insert s k v) (some v) r e (λ j. get-insert s k j v)
          (λ j. get-insert m k j v);
    unique = insert-Unique m k v r.unique;
    counted = ec;
  }

  delete-Represents :
      (d : ConcurrentDict V) (m : Dict V) (k : Bytes) (s : Dict V) (c : ℕ)
      → Represents d m
      → shard_of d k ≡ some s
      → c ≡ length (delete m k) % 2 ^ 32
      → Represents (record (put_shard d k (delete s k)) { count = c }) (delete m k)
  delete-Represents d m k s c r e ec = record {
    some_shards =
        unfold put_shard in
        rw (length-set d.table (spread (length d.table) k) (delete s k)) r.some_shards;
    few_shards =
        unfold put_shard in
        rw (length-set d.table (spread (length d.table) k) (delete s k)) r.few_shards;
    same =
        same-put_shard d m (delete m k) k s (delete s k) none r e (get-delete s k) (get-delete m k);
    unique = delete-Unique m k r.unique;
    counted = ec;
  }

  -- An operation returns a dict and a result that go with those of the simple dict.
  abbrev pub Does {ℓ} : {R : Type ℓ} → ConcurrentDict V × R → Dict V × R → Type ℓ
  Does (d, r) (m, q) = Represents d m × (r ≡ q)

  put_in-Does :
      (d : ConcurrentDict V) (m : Dict V) (k : Bytes) (v : V) (s : Dict V) (o : Option V)
      → Represents d m
      → shard_of d k ≡ some s
      → get m k ≡ o
      → Does (put_in d k v s o) (insert m k v, Dict.added o)
  unfolding put_in add_count
  put_in-Does d m k v s none r e g = (
    insert-Represents d m k v s ((d.count + 1) % 2 ^ 32) r e
        (omega (arith, r.counted, length-insert m k v r.unique, ap held g)),
    refl,
  )
  put_in-Does d m k v s (some old) r e g = (
    insert-Represents d m k v s d.count r e
        (omega (arith, r.counted, length-insert m k v r.unique, ap held g)),
    refl,
  )

  absent_in-Does :
      (d : ConcurrentDict V) (m : Dict V) (k : Bytes) (v : V) (s : Dict V) (o : Option V)
      → Represents d m
      → shard_of d k ≡ some s
      → get m k ≡ o
      → Does (absent_in d k v s o) (Dict.put_if_absent m k v)
  unfolding absent_in add_count
  absent_in-Does d m k v s none r e g = rw (put_if_absent_new m k v g) (
    insert-Represents d m k v s ((d.count + 1) % 2 ^ 32) r e
        (omega (arith, r.counted, length-insert m k v r.unique, ap held g)),
    refl,
  )
  absent_in-Does d m k v s (some old) r e g = rw (put_if_absent_old m k v old g) (r, refl)

  exists_in-Does :
      (d : ConcurrentDict V) (m : Dict V) (k : Bytes) (v : V) (s : Dict V) (o : Option V)
      → Represents d m
      → shard_of d k ≡ some s
      → get m k ≡ o
      → Does (exists_in d k v s o) (Dict.put_if_exists m k v)
  unfolding exists_in
  exists_in-Does d m k v s none r e g = rw (put_if_exists_new m k v g) (r, refl)
  exists_in-Does d m k v s (some old) r e g = rw (put_if_exists_old m k v old g) (
    insert-Represents d m k v s d.count r e
        (omega (arith, r.counted, length-insert m k v r.unique, ap held g)),
    refl,
  )

  delete-absent_shard :
      (d : ConcurrentDict V) (m : Dict V) (k : Bytes)
      → Represents d m
      → get m k ≡ none
      → Represents d (delete m k)
  delete-absent_shard d m k r g = rw (delete-absent m k g) r

  remove_in-Does :
      (d : ConcurrentDict V) (m : Dict V) (k : Bytes) (s : Dict V) (o : Option V)
      → Represents d m
      → shard_of d k ≡ some s
      → get m k ≡ o
      → Does (remove_in d k s o) (delete m k, (o, held o))
  unfolding remove_in decrease_count
  remove_in-Does d m k s none r e g = (delete-absent_shard d m k r g, refl)
  remove_in-Does d m k s (some v) r e g = (
    delete-Represents d m k s ((d.count + 2 ^ 32 - 1) % 2 ^ 32) r e
        (omega (arith, r.counted, length-delete m k r.unique, ap held g)),
    refl,
  )

  -- Every operation on one key returns, and does what the simple dict does.
  pub record Refines (d : ConcurrentDict V) (m : Dict V) (k : Bytes) (v : V) : Type 0 where
    pub looks_up : lookup d k ≡ returns (get m k)
    pub puts : Ends (λ p. Does p (Dict.put m k v)) (put d k v)
    pub puts_if_absent : Ends (λ p. Does p (Dict.put_if_absent m k v)) (put_if_absent d k v)
    pub puts_if_exists : Ends (λ p. Does p (Dict.put_if_exists m k v)) (put_if_exists d k v)
    pub removes : Ends (λ p. Does p (delete m k, (get m k, held (get m k)))) (remove d k)

  -- On a dict whose shards together have what a map has, each of `Get`, `Put`, `PutIfAbsent`,
  -- `PutIfExists` and `Remove` finds the key's shard, returns what it returns on the map, and leaves
  -- a dict that has what the map has then, with its keys counted modulo 2^32.
  pub operations-Refines :
      (d : ConcurrentDict V) (m : Dict V) (k : Bytes) (v : V) → Represents d m → Refines d m k v
  operations-Refines d m k v r =
      let (s, e, g) = shard-Represents d m k r in
      record {
        looks_up = unfold lookup get_shard in rw (e, at_index, ◌>>=◌) (ap returns g);
        puts =
            unfold put get_shard in
            rw (e, at_index, ◌>>=◌, g)
              (unfold Dict.put in put_in-Does d m k v s (get m k) r e refl);
        puts_if_absent =
            unfold put_if_absent get_shard in
            rw (e, g) (absent_in-Does d m k v s (get m k) r e refl);
        puts_if_exists =
            unfold put_if_exists get_shard in
            rw (e, g) (exists_in-Does d m k v s (get m k) r e refl);
        removes = unfold remove get_shard in rw (e, g) (remove_in-Does d m k s (get m k) r e refl);
      }

  found-replicate : (n i : ℕ) (k : Bytes) → found k (get_elem? (replicate n []) i) ≡ none
  unfolding get
  found-replicate zero i k = refl
  found-replicate (suc n) zero k = refl
  found-replicate (suc n) (suc i) k = found-replicate n i k

  empty-Represents : (n : ℕ) → 0 < n → n < 2 ^ 32 → Represents (of_shards n) []
  unfolding of_shards get
  empty-Represents n some_shards few_shards = record {
    some_shards = rw (length-replicate {A = Dict V} n []) some_shards;
    few_shards = rw (length-replicate {A = Dict V} n []) few_shards;
    same = λ k. found-replicate n (spread (length (replicate {A = Dict V} n [])) k) k;
    unique = tt;
    counted = omega arith;
  }

  -- A new dict has nothing.
  pub make_concurrent-Represents :
      (shard_count : ℤ)
      → compute_capacity shard_count < 2 ^ 32
      → Represents (make_concurrent shard_count) []
  unfolding make_concurrent
  make_concurrent-Represents shard_count h = elim (Bool-cases (is_one shard_count)) [
    | inl one ↦ rw one (empty-Represents 1 (omega arith) (omega arith))
    | inr more ↦
        rw more (empty-Represents (compute_capacity shard_count) (capacity_pos shard_count) h)
  ]
