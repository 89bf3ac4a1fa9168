-- ===== src/Cache/Table.antt =====
-- The map of the cache, as an association list, and the recency list's operations on keys.
use dnsaur.Prelude.{
  ℕ, ◌+◌, ◌<◌, ◌≡◌, refl, ◌↔◌, Bool, true, false, ◌&&◌, ◌||◌, Option, none, some, List, [], ◌∷◌,
  arith, if◌then◌else◌, length, ◌==◌,
}
use dnsaur.Prelude.Bytes.{Bytes, bytes_eq, bytes_eq_iff}
use dnsaur.Dns.{Msg}

-- `ckey`.
pub record Key : Type 0 where
  pub name : Bytes
  pub qtype : ℕ

-- `entry`, without its list element.
pub record Entry : Type 0 where
  pub msg : Msg
  pub stored_at : ℕ
  pub ttl : ℕ

abbrev pub Entries : Type 0
Entries = List (Key × Entry)

unfoldable pub key_eq : Key → Key → Bool
key_eq j k = bytes_eq j.name k.name && j.qtype == k.qtype

pub key_eq_iff : (j k : Key) → (key_eq j k ≡ true) ↔ (j ≡ k)
unfolding key_eq
key_eq_iff j k = (
  λ h. ground (arith, bytes_eq_iff j.name k.name),
  λ h. ground (arith, bytes_eq_iff j.name k.name),
)

-- `entries[k]`.
unfoldable pub find : Key → Entries → Option Entry
find k [] = none
find k ((j, e) ∷ m) = if key_eq j k then some e else find k m

-- `delete(entries, k)`.
unfoldable pub erase : Key → Entries → Entries
erase k [] = []
erase k ((j, e) ∷ m) = if key_eq j k then m else (j, e) ∷ erase k m

-- `lru.Remove` of the element of `k`.
unfoldable pub erase_key : Key → List Key → List Key
erase_key k [] = []
erase_key k (j ∷ l) = if key_eq j k then l else j ∷ erase_key k l

-- `lru.Back()`.
unfoldable pub last_key : List Key → Option Key
last_key [] = none
last_key (k ∷ []) = some k
last_key (k ∷ j ∷ l) = last_key (j ∷ l)

unfoldable pub listed : Key → List Key → Bool
listed k [] = false
listed k (j ∷ l) = key_eq j k || listed k l

-- No key twice.
abbrev pub IsTable : Entries → Type 0
IsTable [] = Unit
IsTable ((k, e) ∷ m) = (find k m ≡ none) × IsTable m

abbrev pub IsOrder : List Key → Type 0
IsOrder [] = Unit
IsOrder (k ∷ l) = (listed k l ≡ false) × IsOrder l

pub key_eq_refl : (k : Key) → key_eq k k ≡ true
key_eq_refl k = (key_eq_iff k k).1 refl

find-erase_absent :
    (j k : Key) (m : Entries) → find k m ≡ none → key_eq k j ≡ true → find j m ≡ none
find-erase_absent j k m h e = rw (← (key_eq_iff k j).0 e) h

pub find-erase :
    (j k : Key) (m : Entries)
    → IsTable m
    → find j (erase k m) ≡ (if key_eq k j then none else find j m)
unfolding find erase
find-erase j k [] h = ground arith
find-erase j k ((i, e) ∷ m) h = ground (
  arith,
  find-erase j k m h.1,
  find-erase_absent j i m h.0,
  key_eq_iff i k,
  key_eq_iff i j,
  key_eq_iff k j,
)

pub erase-IsTable : (k : Key) (m : Entries) → IsTable m → IsTable (erase k m)
unfolding erase
erase-IsTable k [] h = tt
erase-IsTable k ((i, e) ∷ m) h = ground (arith, erase-IsTable k m h.1, find-erase i k m h.1)

listed_absent :
    (j k : Key) (l : List Key) → listed k l ≡ false → key_eq k j ≡ true → listed j l ≡ false
listed_absent j k l h e = rw (← (key_eq_iff k j).0 e) h

pub listed-erase_key :
    (j k : Key) (l : List Key)
    → IsOrder l
    → listed j (erase_key k l) ≡ (if key_eq k j then false else listed j l)
unfolding listed erase_key
listed-erase_key j k [] h = ground arith
listed-erase_key j k (i ∷ l) h = ground (
  arith,
  listed-erase_key j k l h.1,
  listed_absent j i l h.0,
  key_eq_iff i k,
  key_eq_iff i j,
  key_eq_iff k j,
)

pub erase_key-IsOrder : (k : Key) (l : List Key) → IsOrder l → IsOrder (erase_key k l)
unfolding erase_key
erase_key-IsOrder k [] h = tt
erase_key-IsOrder k (i ∷ l) h =
    ground (arith, erase_key-IsOrder k l h.1, listed-erase_key i k l h.1)

pub length-erase_key :
    (k : Key) (l : List Key) → listed k l ≡ true → length (erase_key k l) + 1 ≡ length l
unfolding listed erase_key
length-erase_key k [] h = absurd (ground arith)
length-erase_key k (i ∷ l) h = ground (arith, length-erase_key k l)

pub last_key-listed : (l : List Key) (k : Key) → last_key l ≡ some k → listed k l ≡ true
unfolding last_key listed
last_key-listed [] k h = absurd (ground arith)
last_key-listed (i ∷ []) k h = ground (arith, key_eq_refl k)
last_key-listed (i ∷ j ∷ l) k h = ground (arith, last_key-listed (j ∷ l) k h)

pub last_key_filled : (l : List Key) → 0 < length l → (k : Key) × (last_key l ≡ some k)
unfolding last_key
last_key_filled [] h = absurd (omega arith)
last_key_filled (i ∷ []) h = (i, refl)
last_key_filled (i ∷ j ∷ l) h = last_key_filled (j ∷ l) (omega arith)

-- `_, ok := entries[k]`.
unfoldable pub has : Key → Entries → Bool
has k m = elim (find k m) [ none ↦ false | some _ ↦ true ]

pub length-erase : (k : Key) (m : Entries) → has k m ≡ true → length (erase k m) + 1 ≡ length m
unfolding has find erase
length-erase k [] h = absurd (cc)
length-erase k ((i, x) ∷ m) h = ground (arith, length-erase k m)
