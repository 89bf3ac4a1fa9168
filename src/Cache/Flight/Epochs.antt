-- ===== src/Cache/Flight/Epochs.antt =====
-- The epoch of internal/cache/cache.go under `put`, `get` and `Purge`.
use dnsaur.Prelude.{
  ℕ, zero, suc, ◌+◌, ◌<◌, ◌%◌, ◌^◌, ◌≡◌, refl, ◌⊎◌, inl, inr, true, false, some, List, [], ◌∷◌,
  arith, is_empty, ltb, length, ◌==◌, Bool-cases, Option-cases,
}
use dnsaur.Prelude.Bytes.{Bytes}
use dnsaur.Dns.{Msg}
use dnsaur.Cache.Table.{Key, Entry, key_eq, find, last_key}
use dnsaur.Cache.{
  Cache, remove_locked, get, get_found, evict, store, put, name_under, normal_suffixes, purge_loop,
  purge,
}
use dnsaur.Cache.Keeps.{IsValid, find-remove_locked, remove_locked-IsValid, store-IsValid}
use dnsaur.Cache.Reads.{find-store}

-- The eviction adds nothing.
pub find-evict :
    (fuel : ℕ) (c : Cache) (j : Key) (e : Entry)
    → IsValid c
    → find j (evict fuel c).entries ≡ some e
    → find j c.entries ≡ some e
unfolding evict
find-evict zero c j e v h = h
find-evict (suc fuel) c j e v h = elim (Bool-cases (ltb c.o.max_entries (length c.entries))) [
  | inr fits ↦ ground arith
  | inl over ↦ elim (Option-cases (last_key c.lru)) [
    | inl empty ↦ ground (arith, empty)
    | inr (back, b) ↦ ground (
      arith,
      b,
      find-evict fuel (remove_locked back c) j e (remove_locked-IsValid back c v),
      find-remove_locked back c j v,
    )
  ]
]

-- What is in the table after a `put` was there before, or is its own.
pub find-put-old :
    (now : ℕ) (k : Key) (msg : Msg) (ttl ep : ℕ) (c : Cache) (j : Key) (e : Entry)
    → IsValid c
    → find j (put now k msg ttl ep c).entries ≡ some e
    → ((c.epoch ≡ ep) × (key_eq k j ≡ true)) ⊎ (find j c.entries ≡ some e)
unfolding put
find-put-old now k msg ttl ep c j e v h = elim (Bool-cases (c.epoch == ep)) [
  | inr moved ↦ inr (ground arith)
  | inl same ↦
      let s = store now k msg ttl c in
      let before : find j s.entries ≡ some e =
        find-evict (length s.entries) s j e (store-IsValid now k c msg ttl v) (ground arith) in
      elim (Bool-cases (key_eq k j)) [
        | inl own ↦ inl (ground arith, own)
        | inr other ↦ inr (ground (arith, before, find-store now k msg ttl c j v))
      ]
]

pub epoch-remove_locked : (k : Key) (c : Cache) → (remove_locked k c).epoch ≡ c.epoch
unfolding remove_locked
epoch-remove_locked k c = ground arith

pub epoch-evict : (fuel : ℕ) (c : Cache) → (evict fuel c).epoch ≡ c.epoch
unfolding evict
epoch-evict zero c = refl
epoch-evict (suc fuel) c = elim (Bool-cases (ltb c.o.max_entries (length c.entries))) [
  | inr fits ↦ ground arith
  | inl over ↦ elim (Option-cases (last_key c.lru)) [
    | inl empty ↦ ground (arith, empty)
    | inr (back, b) ↦
        ground (arith, b, epoch-evict fuel (remove_locked back c), epoch-remove_locked back c)
  ]
]

pub epoch-put :
    (now : ℕ) (k : Key) (msg : Msg) (ttl ep : ℕ) (c : Cache)
    → (put now k msg ttl ep c).epoch ≡ c.epoch
unfolding put store
epoch-put now k msg ttl ep c =
    let s = store now k msg ttl c in
    ground (arith, epoch-evict (length s.entries) s, epoch-remove_locked k c)

pub epoch-get : (now : ℕ) (k : Key) (c : Cache) → (get now k c).2.epoch ≡ c.epoch
unfolding get get_found remove_locked
epoch-get now k c = ground arith

pub epoch-purge_loop :
    (es : List (Key × Entry)) (norm : List Bytes) (c : Cache) (n : ℕ)
    → (purge_loop es norm (c, n)).0.epoch ≡ c.epoch
unfolding purge_loop
epoch-purge_loop [] norm c n = refl
epoch-purge_loop ((k, e) ∷ rest) norm c n = elim (Bool-cases (name_under k.name norm)) [
  | inl hit ↦
      ground
        (arith, epoch-purge_loop rest norm (remove_locked k c) (n + 1), epoch-remove_locked k c)
  | inr miss ↦ ground (arith, epoch-purge_loop rest norm c n)
]

pub epoch-purge :
    (suffixes : List Bytes) (c : Cache)
    → is_empty (normal_suffixes suffixes) ≡ false
    → c.epoch + 1 < 2 ^ 64
    → (purge suffixes c).0.epoch ≡ c.epoch + 1
unfolding purge
epoch-purge suffixes c filled small =
    let bumped : Cache = record c { epoch = (c.epoch + 1) % 2 ^ 64 } in
    ground (arith, filled, epoch-purge_loop c.entries (normal_suffixes suffixes) bumped 0)
