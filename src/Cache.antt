-- ===== src/Cache.antt =====
-- The answer cache, internal/cache/cache.go: its table and recency list, `get`, `put` and `Purge`.
-- Durations and instants are nanoseconds; the clock does not run backwards (Go's is monotonic).
pub mod Table
pub mod Keeps
pub mod Reads
pub mod Purge
pub mod Ttl
pub mod Serve
pub mod Flight
use dnsaur.Prelude.{
  ℕ, zero, suc, ◌+◌, ◌-◌, ◌*◌, ◌%◌, ◌^◌, Bool, true, false, ◌&&◌, ◌||◌, Option, none, some, List,
  [], ◌∷◌, if◌then◌else◌, length, is_empty, drop, ltb, ◌==◌,
}
use dnsaur.Prelude.Bytes.{Bytes, bytes_eq, dot, to_lower, trim_dot}
use dnsaur.Dns.{Msg}
use Table.{Key, Entry, Entries, key_eq, find, erase, erase_key, last_key}

-- `Options`; `Now` is the instant that each operation is given.
pub record Options : Type 0 where
  pub min_ttl : ℕ
  pub max_ttl : ℕ
  pub neg_ttl : ℕ
  pub serve_stale_for : ℕ
  pub max_entries : ℕ

abbrev pub second : ℕ
second = 1000000000

abbrev default : ℕ → ℕ → ℕ
default n d = if n == 0 then d else n

-- `Cache`: `entries` as an association list, `lru` as its keys from the front. An entry's `elem` is
-- the element of its key.
pub record Cache : Type 0 where
  pub entries : Entries
  pub lru : List Key
  pub o : Options
  pub epoch : ℕ

-- `New`.
unfoldable pub new : Options → Cache
new o = record {
  entries = [];
  lru = [];
  o = record {
    min_ttl = o.min_ttl;
    max_ttl = default o.max_ttl (86400 * second);
    neg_ttl = default o.neg_ttl (30 * second);
    serve_stale_for = default o.serve_stale_for (86400 * second);
    max_entries = default o.max_entries 10000;
  };
  epoch = 0;
}

-- `removeLocked`.
unfoldable pub remove_locked : Key → Cache → Cache
remove_locked k c = elim (find k c.entries) [
  | none ↦ c
  | some _ ↦ record c { entries = erase k c.entries; lru = erase_key k c.lru }
]

-- `get` at `now`: the fresh entry, the stale entry, and the cache behind it.
pub get_found : ℕ → Key → Cache → Entry → Option Entry × Option Entry × Cache
get_found now k c e =
    let age = now - e.stored_at in
    let moved = record c { lru = k ∷ erase_key k c.lru } in
    if ltb age e.ttl
    then (some e, none, moved)
    else if ltb age (e.ttl + c.o.serve_stale_for)
    then (none, some e, moved)
    else (none, none, remove_locked k moved)

unfoldable pub get : ℕ → Key → Cache → Option Entry × Option Entry × Cache
unfolding get_found
get now k c = elim (find k c.entries) [ none ↦ (none, none, c) | some e ↦ get_found now k c e ]

-- `for len(c.entries) > c.o.MaxEntries { … }`. A nil `back` ends the model's
-- loop; Go would dereference it.
unfoldable pub evict : ℕ → Cache → Cache
evict zero c = c
evict (suc fuel) c = elim (ltb c.o.max_entries (length c.entries)) [
  | false ↦ c
  | true ↦ elim (last_key c.lru) [ none ↦ c | some back ↦ evict fuel (remove_locked back c) ]
]

-- The body of `put` behind the epoch's test, before the eviction.
unfoldable pub store : ℕ → Key → Msg → ℕ → Cache → Cache
store now k msg ttl c =
    let r = remove_locked k c in
    record r {
      lru = k ∷ r.lru;
      entries = (k, record { msg = msg; stored_at = now; ttl = ttl }) ∷ r.entries;
    }

-- `put`.
unfoldable pub put : ℕ → Key → Msg → ℕ → ℕ → Cache → Cache
put now k msg ttl epoch c =
    if c.epoch == epoch then (let s = store now k msg ttl c in evict (length s.entries) s) else c

-- `nameUnder` for one suffix: `name[len(name)-len(s)-1] == '.' && strings.HasSuffix(name, s)`.
unfoldable pub under : Bytes → Bytes → Bool
under name s =
    bytes_eq name s
    || ltb (length s + 1) (length name)
      && bytes_eq (drop (length name - length s - 1) name) (dot ∷ s)

-- `nameUnder`.
unfoldable pub name_under : Bytes → List Bytes → Bool
name_under name [] = false
name_under name (s ∷ suffixes) = under name s || name_under name suffixes

-- The suffixes as `Purge` normalises them, the empty one left out.
unfoldable pub normal_suffixes : List Bytes → List Bytes
normal_suffixes [] = []
normal_suffixes (s ∷ rest) =
    let n = to_lower (trim_dot s) in
    let more = normal_suffixes rest in if is_empty n then more else n ∷ more

-- The loop of `Purge` over the keys that the table held.
unfoldable pub purge_loop : Entries → List Bytes → Cache × ℕ → Cache × ℕ
purge_loop [] norm r = r
purge_loop ((k, e) ∷ rest) norm (c, n) =
    purge_loop rest norm (if name_under k.name norm then (remove_locked k c, n + 1) else (c, n))

-- `Purge`; the epoch is a uint64.
unfoldable pub purge : List Bytes → Cache → Cache × ℕ
purge suffixes c =
    let norm = normal_suffixes suffixes in
    if is_empty norm
    then (c, 0)
    else purge_loop c.entries norm (record c { epoch = (c.epoch + 1) % 2 ^ 64 }, 0)
