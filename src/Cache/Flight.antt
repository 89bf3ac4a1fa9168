-- ===== src/Cache/Flight.antt =====
-- Lookups in flight: the cache under any interleaving of lookups, answers and purges, as the lock of
-- internal/cache/cache.go orders them. A lookup reads the epoch before it goes to the upstreams, and
-- hands it to `put` when it comes back.
pub mod Epochs
pub mod Sound
use dnsaur.Prelude.{
  ℕ, zero, suc, ◌+◌, ◌≤◌, ◌<◌, ◌%◌, ◌^◌, ◌≡◌, refl, ap, subst, sym, ◌⊎◌, inl, inr, Bool, true,
  false, Option, none, some, List, [], ◌∷◌, arith, All, is_empty, if◌then◌else◌, ltb, length, ◌==◌,
  Bool-cases, Option-cases,
}
use dnsaur.Prelude.Bytes.{Bytes}
use dnsaur.Dns.{Msg}
use dnsaur.Cache.Table.{Key, Entry, key_eq, key_eq_iff, find, last_key}
use dnsaur.Cache.{
  Cache, remove_locked, get, get_found, evict, store, put, name_under, normal_suffixes, purge_loop,
  purge,
}
use dnsaur.Cache.Keeps.{
  IsValid, find-remove_locked, remove_locked-IsValid, store-IsValid, get-IsValid, put-IsValid,
  purge-IsValid,
}
use dnsaur.Cache.Reads.{find-get, find-store}
use dnsaur.Cache.Purge.{find-purge}

pub record Flight : Type 0 where
  pub key : Key
  pub epoch : ℕ

-- The cache with the lookups that were begun, and the history that the statements are about: under
-- which epoch the lookup behind each entry began, and the purges so far with the epoch each ended.
pub record World : Type 0 where
  pub cache : Cache
  pub flights : List Flight
  pub origin : Key → ℕ
  pub purges : List (ℕ × List Bytes)

abbrev pub Airborne : Flight → List Flight → Type 0
Airborne f [] = ⊥
Airborne f (g ∷ fs) = (f ≡ g) ⊎ Airborne f fs

abbrev pub updated : (Key → ℕ) → Key → ℕ → Key → ℕ
updated origin k ep j = if key_eq k j then ep else origin j

-- The first half of a miss: the epoch is read.
abbrev pub begin : Key → World → World
begin k w = record w { flights = (record { key = k; epoch = w.cache.epoch }) ∷ w.flights }

-- An answer comes back and is put, at `now`.
abbrev pub land : ℕ → Flight → Msg → ℕ → World → World
land now f msg ttl w = record w {
  cache = put now f.key msg ttl f.epoch w.cache;
  origin = if w.cache.epoch == f.epoch then updated w.origin f.key f.epoch else w.origin;
}

abbrev pub look : ℕ → Key → World → World
look now k w = record w { cache = (get now k w.cache).2 }

abbrev pub sweep : List Bytes → World → World
sweep suffixes w = record w {
  cache = (purge suffixes w.cache).0;
  purges = (w.cache.epoch, normal_suffixes suffixes) ∷ w.purges;
}

-- One critical section of the cache's lock. The epoch is a uint64, and a server makes fewer purges
-- than that counts.
pub data Step (w : World) (w' : World) : Type 0 where
  begins : (k : Key) → w' ≡ begin k w → Step w w'
  lands :
      (now : ℕ) (f : Flight) (msg : Msg) (ttl : ℕ)
      → Airborne f w.flights
      → w' ≡ land now f msg ttl w
      → Step w w'
  looks : (now : ℕ) (k : Key) → w' ≡ look now k w → Step w w'
  sweeps :
      (suffixes : List Bytes)
      → is_empty (normal_suffixes suffixes) ≡ false
      → w.cache.epoch + 1 < 2 ^ 64
      → w' ≡ sweep suffixes w
      → Step w w'

pub data Reach (w : World) : World → Type 0 where
  here : Reach w w
  next : {u v : World} → Reach w u → Step u v → Reach w v

-- Every purge that covers the name ended an epoch before the given one.
abbrev pub AfterPurges : Bytes → ℕ → List (ℕ × List Bytes) → Type 0
AfterPurges name ep [] = Unit
AfterPurges name ep ((at, norm) ∷ ps) =
    (name_under name norm ≡ true → at < ep) × AfterPurges name ep ps

abbrev pub Ended : ℕ → List (ℕ × List Bytes) → Type 0
Ended ep [] = Unit
Ended ep ((at, norm) ∷ ps) = (at < ep) × Ended ep ps

pub record IsSound (w : World) : Type 0 where
  pub valid : IsValid w.cache
  pub ended : Ended w.cache.epoch w.purges
  pub clean :
      (k : Key) (e : Entry)
      → find k w.cache.entries ≡ some e
      → AfterPurges k.name (w.origin k) w.purges
