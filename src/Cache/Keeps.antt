-- ===== src/Cache/Keeps.antt =====
-- The invariant of internal/cache/cache.go's map and recency list, operation by operation.
use dnsaur.Prelude.{
  ℕ, zero, suc, ◌+◌, ◌-◌, ◌≡◌, refl, true, false, none, List, [], ◌∷◌, arith, if◌then◌else◌, length,
  is_empty, ltb, ◌==◌, Bool-cases, Option-cases, inl, inr,
}
use dnsaur.Prelude.Bytes.{Bytes}
use dnsaur.Dns.{Msg}
use dnsaur.Cache.Table.{
  Key, Entry, Entries, key_eq, key_eq_iff, key_eq_refl, find, erase_key, last_key, listed, has,
  IsTable, IsOrder, find-erase, erase-IsTable, length-erase, listed-erase_key, erase_key-IsOrder,
  length-erase_key,
}
use dnsaur.Cache.{
  Options, Cache, remove_locked, get, get_found, evict, store, put, name_under, normal_suffixes,
  purge_loop, purge, new,
}

-- The map has each key once, and the recency list is an order of its keys.
pub record IsValid (c : Cache) : Type 0 where
  pub table : IsTable c.entries
  pub order : IsOrder c.lru
  pub same : (k : Key) → listed k c.lru ≡ has k c.entries
  pub sizes : length c.lru ≡ length c.entries

pub new-IsValid : (o : Options) → IsValid (new o)
unfolding new
new-IsValid o = record {
  table = tt;
  order = tt;
  same = λ k. unfold listed has find in refl;
  sizes = refl;
}

module _ (k : Key) (c : Cache) where
  pub find-remove_locked :
      (j : Key)
      → IsValid c
      → find j (remove_locked k c).entries ≡ (if key_eq k j then none else find j c.entries)
  unfolding remove_locked
  find-remove_locked j v = ground (arith, find-erase j k c.entries v.table, key_eq_iff k j)

  listed-remove_locked :
      (j : Key)
      → IsValid c
      → listed j (remove_locked k c).lru ≡ (if key_eq k j then false else listed j c.lru)
  unfolding remove_locked has
  listed-remove_locked j v =
      ground (arith, listed-erase_key j k c.lru v.order, v.same k, key_eq_iff k j)

  pub length-remove_locked :
      IsValid c
      → length (remove_locked k c).entries + (if has k c.entries then 1 else 0) ≡ length c.entries
  unfolding remove_locked has
  length-remove_locked v = ground (arith, length-erase k c.entries)

  pub remove_locked-IsValid : IsValid c → IsValid (remove_locked k c)
  unfolding remove_locked
  remove_locked-IsValid v = record {
    table = ground (arith, erase-IsTable k c.entries v.table, v.table);
    order = ground (arith, erase_key-IsOrder k c.lru v.order, v.order);
    same = λ j.
        unfold has in ground (arith, find-remove_locked j v, listed-remove_locked j v, v.same j);
    sizes =
        unfold has in
        ground (arith, length-erase k c.entries, length-erase_key k c.lru, v.same k, v.sizes);
  }

module _ (now : ℕ) (k : Key) (c : Cache) where
  -- The entry moved to the front of the recency list.
  moved-IsValid :
      IsValid c → has k c.entries ≡ true → IsValid (record c { lru = k ∷ erase_key k c.lru })
  unfolding listed
  moved-IsValid v h = record {
    table = v.table;
    order = ground (
      arith,
      listed-erase_key k k c.lru v.order,
      key_eq_refl k,
      erase_key-IsOrder k c.lru v.order,
    );
    same =
        λ j. ground (arith, listed-erase_key j k c.lru v.order, v.same j, v.same k, key_eq_iff k j);
    sizes = ground (arith, length-erase_key k c.lru, v.same k, v.sizes);
  }

  get_found-IsValid :
      (e : Entry) → IsValid c → has k c.entries ≡ true → IsValid (get_found now k c e).2
  unfolding get_found
  get_found-IsValid e v h =
      let m = moved-IsValid v h in
      elim (Bool-cases (ltb (now - e.stored_at) e.ttl)) [
        | inl fresh ↦ rw (fresh, get_found) m
        | inr old ↦ elim (Bool-cases (ltb (now - e.stored_at) (e.ttl + c.o.serve_stale_for))) [
          | inl stale ↦ rw (old, stale, get_found) m
          | inr over ↦ rw (old, over, get_found) (remove_locked-IsValid k _ m)
        ]
      ]

  pub get-IsValid : IsValid c → IsValid (get now k c).2
  unfolding get has
  get-IsValid v = elim (Option-cases (find k c.entries)) [
    | inl absent ↦ rw (absent, get) v
    | inr (e, found) ↦ rw (found, get) (get_found-IsValid e v (rw (found, has)))
  ]

  pub store-IsValid : (msg : Msg) (ttl : ℕ) → IsValid c → IsValid (store now k msg ttl c)
  unfolding store
  store-IsValid msg ttl v =
      let r = remove_locked-IsValid k c v in
      let gone = find-remove_locked k c k v in
      let r_same = r.same k in
      record {
        table = (ground (arith, key_eq_refl k), r.table);
        order = (unfold has in ground (arith, key_eq_refl k), r.order);
        same = λ j. unfold listed has find in ground (arith, r.same j);
        sizes = omega (arith, r.sizes);
      }

evict-IsValid : (fuel : ℕ) (c : Cache) → IsValid c → IsValid (evict fuel c)
unfolding evict
evict-IsValid zero c v = v
evict-IsValid (suc fuel) c v = elim (Bool-cases (ltb c.o.max_entries (length c.entries))) [
  | inl over ↦ elim (Option-cases (last_key c.lru)) [
    | inl empty ↦ rw (over, empty, evict) v
    | inr (back, e) ↦
        rw (over, e, evict)
          (evict-IsValid fuel (remove_locked back c) (remove_locked-IsValid back c v))
  ]
  | inr fits ↦ rw (fits, evict) v
]

-- `put` keeps the invariant, whatever the epoch that it is given.
pub put-IsValid :
    (now : ℕ) (k : Key) (msg : Msg) (ttl epoch : ℕ) (c : Cache)
    → IsValid c
    → IsValid (put now k msg ttl epoch c)
unfolding put
put-IsValid now k msg ttl epoch c v = elim (Bool-cases (c.epoch == epoch)) [
  | inl same ↦ rw (same, put) (evict-IsValid _ _ (store-IsValid now k c msg ttl v))
  | inr moved ↦ rw (moved, put) v
]

purge_loop-IsValid :
    (es : Entries) (norm : List Bytes) (c : Cache) (n : ℕ)
    → IsValid c
    → IsValid (purge_loop es norm (c, n)).0
unfolding purge_loop
purge_loop-IsValid [] norm c n v = v
purge_loop-IsValid ((k, e) ∷ rest) norm c n v = elim (Bool-cases (name_under k.name norm)) [
  | inl hit ↦
      rw (hit, purge_loop)
        (purge_loop-IsValid rest norm (remove_locked k c) (n + 1) (remove_locked-IsValid k c v))
  | inr miss ↦ rw (miss, purge_loop) (purge_loop-IsValid rest norm c n v)
]

pub epoch-IsValid : (n : ℕ) (c : Cache) → IsValid c → IsValid (record c { epoch = n })
epoch-IsValid n c v = record { table = v.table; order = v.order; same = v.same; sizes = v.sizes }

pub purge-IsValid : (suffixes : List Bytes) (c : Cache) → IsValid c → IsValid (purge suffixes c).0
unfolding purge
purge-IsValid suffixes c v = elim (Bool-cases (is_empty (normal_suffixes suffixes))) [
  | inl nothing ↦ rw (nothing, purge) v
  | inr filled ↦ rw (filled, purge) (purge_loop-IsValid c.entries _ _ 0 (epoch-IsValid _ c v))
]
