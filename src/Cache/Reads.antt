-- ===== src/Cache/Reads.antt =====
-- `put` and `get` of internal/cache/cache.go, read through the table that they leave.
use dnsaur.Prelude.{
  ℕ, zero, suc, ◌+◌, ◌-◌, ◌≤◌, ◌<◌, ◌≡◌, refl, ap, subst, sym, ◌∙◌, Bool, true, false, not, Option,
  none, some, List, [], ◌∷◌, arith, if◌then◌else◌, length, ltb, ◌==◌, Bool-cases, Option-cases, inl,
  inr,
}
use dnsaur.Dns.{Msg}
use dnsaur.Cache.Table.{
  Key, Entry, key_eq, key_eq_iff, find, find-erase, last_key, last_key_filled, last_key-listed, has,
}
use dnsaur.Cache.{Cache, remove_locked, get, get_found, evict, store, put}
use dnsaur.Cache.Keeps.{
  IsValid, find-remove_locked, length-remove_locked, remove_locked-IsValid, store-IsValid,
}

pub o-remove_locked : (k : Key) (c : Cache) → (remove_locked k c).o ≡ c.o
unfolding remove_locked
o-remove_locked k c = ground arith

-- The loop of `put` ends with the table within its limit, and finds a key to drop in every round.
evict_bound :
    (fuel : ℕ) (c : Cache)
    → IsValid c
    → length c.entries ≤ fuel
    → length (evict fuel c).entries ≤ c.o.max_entries
unfolding evict
evict_bound zero c v h = omega arith
evict_bound (suc fuel) c v h = elim (Bool-cases (ltb c.o.max_entries (length c.entries))) [
  | inl over ↦
      let sizes = v.sizes in
      let (back, e) = last_key_filled c.lru (ground arith) in
      let present : has back c.entries ≡ true =
        subst (λ b. b ≡ true) (v.same back) (last_key-listed c.lru back e) in
      let less = length-remove_locked back c v in
      let o_same = o-remove_locked back c in
      rw (over, e, evict)
        (subst (λ o. length (evict fuel (remove_locked back c)).entries ≤ o.max_entries) o_same
          (evict_bound fuel (remove_locked back c) (remove_locked-IsValid back c v) (ground arith)))
  | inr fits ↦ rw (fits, evict) (ground arith)
]

module _ (now : ℕ) (k : Key) (msg : Msg) (ttl epoch : ℕ) (c : Cache) where
  -- On a valid table with at most MaxEntries entries, `put` leaves at most MaxEntries, whatever the
  -- epoch that it is given.
  length-put :
      IsValid c
      → length c.entries ≤ c.o.max_entries
      → length (put now k msg ttl epoch c).entries ≤ c.o.max_entries
  unfolding put store
  length-put v h = elim (Bool-cases (c.epoch == epoch)) [
    | inl same ↦
        let s = store now k msg ttl c in
        let o_same = o-remove_locked k c in
        rw (same, put)
          (subst (λ o. length (evict (length s.entries) s).entries ≤ o.max_entries) o_same
            (evict_bound (length s.entries) s (store-IsValid now k c msg ttl v) (omega arith)))
    | inr moved ↦ rw (moved, put) h
  ]

evict_fits : (fuel : ℕ) (c : Cache) → length c.entries ≤ c.o.max_entries → evict fuel c ≡ c
unfolding evict
evict_fits zero c h = refl
evict_fits (suc fuel) c h = ground arith

evict_one :
    (fuel : ℕ) (c : Cache) (back : Key)
    → c.o.max_entries < length c.entries
    → last_key c.lru ≡ some back
    → evict (suc fuel) c ≡ evict fuel (remove_locked back c)
unfolding evict
evict_one fuel c back over e = ground (arith, e)

last_key-cons : (k : Key) (l : List Key) → 0 < length l → last_key (k ∷ l) ≡ last_key l
unfolding last_key
last_key-cons k [] h = absurd (omega arith)
last_key-cons k (j ∷ l) h = refl

-- `j` is the least recently used key.
unfoldable pub is_back : Key → List Key → Bool
is_back j l = elim (last_key l) [ none ↦ false | some back ↦ key_eq back j ]

-- The entry that makes room for a new key is that of the least recently used one.
unfoldable pub dropped : Key → Cache → Key → Bool
dropped k c j =
    if has k c.entries
    then false
    else if ltb (length c.entries) c.o.max_entries
    then false
    else is_back j c.lru

module _ (now : ℕ) (k : Key) (msg : Msg) (ttl : ℕ) (c : Cache) where
  pub find-store :
      (j : Key)
      → IsValid c
      → find j (store now k msg ttl c).entries ≡ (
          if key_eq k j
          then some (record { msg = msg; stored_at = now; ttl = ttl })
          else find j c.entries)
  unfolding store find
  find-store j v = ground (arith, find-remove_locked k c j v)

  length-store :
      IsValid c
      → length (store now k msg ttl c).entries
        ≡ length c.entries + (if has k c.entries then 0 else 1)
  unfolding store
  length-store v = ground (arith, length-remove_locked k c v)

  max-store : (store now k msg ttl c).o ≡ c.o
  unfolding store
  max-store = o-remove_locked k c

  lru-store : has k c.entries ≡ false → (store now k msg ttl c).lru ≡ k ∷ c.lru
  unfolding store remove_locked has
  lru-store h = ground arith

  put-store :
      IsValid c
      → length (store now k msg ttl c).entries ≤ c.o.max_entries
      → put now k msg ttl c.epoch c ≡ store now k msg ttl c
  unfolding put
  put-store v h =
      let s = store now k msg ttl c in
      let o_same = max-store in ground (arith, evict_fits (length s.entries) s)

  put-drop :
      (back : Key)
      → IsValid c
      → length c.entries ≡ c.o.max_entries
      → 0 < c.o.max_entries
      → has k c.entries ≡ false
      → last_key c.lru ≡ some back
      → put now k msg ttl c.epoch c ≡ remove_locked back (store now k msg ttl c)
  unfolding put
  put-drop back v full pos absent e =
      let s = store now k msg ttl c in
      let v_sizes = v.sizes in
      let vs = store-IsValid now k c msg ttl v in
      let max_s : s.o.max_entries ≡ c.o.max_entries = ap (λ o. o.max_entries) max-store in
      let count : length s.entries ≡ suc (length c.entries) =
        ground (arith, length-store v, absent) in
      let last_s : last_key s.lru ≡ some back =
        rw (lru-store absent) (last_key-cons k c.lru (omega arith) ∙ e) in
      let present : has back s.entries ≡ true =
        subst (λ b. b ≡ true) (vs.same back) (last_key-listed s.lru back last_s) in
      let less = length-remove_locked back s vs in
      let max_r : (remove_locked back s).o.max_entries ≡ s.o.max_entries =
        ap (λ o. o.max_entries) (o-remove_locked back s) in
      let one = evict_one (length c.entries) s back (omega arith) last_s in
      let done = evict_fits (length c.entries) (remove_locked back s) (ground arith) in
      ground (arith, count, one, done)

  -- A valid table within its limit, after an answer of the current epoch is stored under `k`: `k` has
  -- that answer, and every other key has what it had, but for the least recently used one where a new
  -- key came to a full table.
  pub find-put :
      (j : Key)
      → IsValid c
      → length c.entries ≤ c.o.max_entries
      → 0 < c.o.max_entries
      → find j (put now k msg ttl c.epoch c).entries ≡ (
          if key_eq k j
          then some (record { msg = msg; stored_at = now; ttl = ttl })
          else if dropped k c j
          then none
          else find j c.entries)
  unfolding dropped is_back
  find-put j v fits pos = elim (Bool-cases (has k c.entries)) [
    | inl old ↦ ground (arith, old, put-store v, length-store v, find-store j v)
    | inr absent ↦ elim (Bool-cases (ltb (length c.entries) c.o.max_entries)) [
      | inl room ↦ ground (arith, absent, room, put-store v, length-store v, find-store j v)
      | inr full ↦
          let v_sizes = v.sizes in
          let (back, e) = last_key_filled c.lru (ground arith) in
          let s = store now k msg ttl c in
          ground (
            arith,
            absent,
            full,
            e,
            put-drop back v (ground arith) pos absent e,
            find-remove_locked back s j (store-IsValid now k c msg ttl v),
            find-store j v,
            last_key-listed c.lru back e,
            v.same back,
            key_eq_iff back j,
            key_eq_iff k j,
          )
    ]
  ]

-- What `get` returns for the entry that the table holds, by its age: fresh below its ttl, stale for
-- the stale window behind that, and nothing later.
abbrev pub Returned : ℕ → Cache → Option Entry → Option Entry → Option Entry → Type 0
Returned now c none fresh stale = (fresh ≡ none) × (stale ≡ none)
Returned now c (some e) fresh stale =
    (now - e.stored_at < e.ttl → (fresh ≡ some e) × (stale ≡ none))
    × (e.ttl ≤ now - e.stored_at
        → now - e.stored_at < e.ttl + c.o.serve_stale_for
        → (fresh ≡ none) × (stale ≡ some e))
    × (e.ttl + c.o.serve_stale_for ≤ now - e.stored_at → (fresh ≡ none) × (stale ≡ none))

-- The entry of `k` is past its stale window.
unfoldable pub is_over : ℕ → Key → Cache → Bool
is_over now k c = elim (find k c.entries) [
  | none ↦ false
  | some e ↦ not (ltb (now - e.stored_at) (e.ttl + c.o.serve_stale_for))
]

module _ (now : ℕ) (k : Key) (c : Cache) where
  -- `get` returns what its age makes of the entry that the table holds.
  get-Returned : Returned now c (find k c.entries) (get now k c).0 (get now k c).1
  unfolding get get_found
  get-Returned = elim (Option-cases (find k c.entries)) [
    | inl absent ↦
        subst (λ o. Returned now c o (get now k c).0 (get now k c).1) (sym absent)
          (ground arith, ground arith)
    | inr (e, found) ↦
        subst (λ o. Returned now c o (get now k c).0 (get now k c).1) (sym found)
          (
            λ h. (ground arith, ground arith),
            λ h h'. (ground arith, ground arith),
            λ h. (ground arith, ground arith),
          )
  ]

  -- A `get` changes no entry, but that it drops the one it was asked for once that is past its stale
  -- window.
  pub find-get :
      (j : Key)
      → IsValid c
      → find j (get now k c).2.entries ≡ (
          if is_over now k c
          then (if key_eq k j then none else find j c.entries)
          else find j c.entries)
  unfolding get get_found is_over remove_locked
  find-get j v = ground (arith, find-erase j k c.entries v.table)
