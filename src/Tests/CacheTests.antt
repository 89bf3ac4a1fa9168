-- ===== src/Tests/CacheTests.antt =====
-- The cache at concrete inputs.
use dnsaur.Prelude.{
  ◌<◌, ◌≤◌, ◌⊎◌, ◌/◌, ◌%◌, ◌^◌, ℕ, ◌≡◌, refl, none, some, [], ◌∷◌, arith, inl, if◌then◌else◌,
}
use dnsaur.Prelude.Bytes.{codes, bytes_eq, to_lower, trim_dot}
use dnsaur.Dns.{qname, qtype, Msg, Request, Response, Handler, returned, cached, stale, type_a}
use dnsaur.Cache.{
  second, Options, Cache, new, put, normal_suffixes, purge, store, evict, remove_locked, purge_loop,
}
use dnsaur.Cache.Table.{Entry, Key, find, key_eq, last_key, erase}
use dnsaur.Cache.Keeps.{IsValid, put-IsValid, new-IsValid}
use dnsaur.Cache.Reads.{dropped, find-put}
use dnsaur.Cache.Serve.{key_of, is_cacheable, middleware}
use dnsaur.Cache.Serve.Aging.{IsServed, remaining, thirty}
use dnsaur.Cache.Serve.Outage.{middleware-IsServed}
use dnsaur.Cache.Serve.Replies.{Answers, middleware-Answers}
use dnsaur.Cache.Flight.{
  World, Flight, Reach, IsSound, begins, lands, sweeps, here, next, begin, land, sweep,
}
use dnsaur.Cache.Flight.Sound.{Reach-IsSound}
use dnsaur.Tests.Samples.{request, upstream, answered}

abbrev options : Options
options = record { min_ttl = 0; max_ttl = 100; neg_ttl = 0; serve_stale_for = 50; max_entries = 1 }

abbrev www : Key
www = record { name = codes "www.example.com"; qtype = type_a }

abbrev ftp : Key
ftp = record { name = codes "ftp.example.com"; qtype = type_a }

abbrev reply : Msg
reply = answered (codes "www.example.com.") 60

abbrev empty : Cache
empty = new options

abbrev pub filled : Cache
filled = put 0 www reply 60 0 empty

filled-IsValid : IsValid filled
filled-IsValid = put-IsValid 0 www reply 60 0 empty (new-IsValid options)

find-filled : find www filled.entries ≡ some (record { msg = reply; stored_at = 0; ttl = 60 })
unfolding new put store find evict remove_locked key_eq bytes_eq
find-filled = refl

put_evicts : find www (put 1 ftp reply 60 0 filled).entries ≡ none
unfolding new put store find evict remove_locked key_eq bytes_eq last_key erase
put_evicts = refl

find-put_example : find www (put 1 ftp reply 60 filled.epoch filled).entries ≡ (
    if key_eq ftp www
    then some (record { msg = reply; stored_at = 1; ttl = 60 })
    else if dropped ftp filled www
    then none
    else find www filled.entries)
unfolding new put store evict remove_locked find
find-put_example = find-put 1 ftp reply 60 filled www filled-IsValid (omega arith) (omega arith)

abbrev query : Request ℕ
query = request (codes "WWW.example.com.") type_a

middleware-Answers_example : Answers query (middleware 10 11 12 upstream query filled).0
unfolding is_cacheable
middleware-Answers_example = middleware-Answers query 10 11 12 upstream filled refl

abbrev held : Entry
held = record { msg = reply; stored_at = 0; ttl = 60 }

abbrev outage : Handler ℕ
outage req = returned none (some (codes "timeout"))

middleware-IsServed_example :
    (r : Response) × (m : Msg) × ((middleware 70 71 80 outage query filled).0
      ≡ returned (some r) none)
    × (r.msg ≡ some m)
    × (((70 < 60) × (r.decision ≡ cached) × IsServed held (remaining (71 / second % 2 ^ 32)) m)
        ⊎ ((60 ≤ 70) × (r.decision ≡ stale) × IsServed held thirty m))
unfolding is_cacheable key_of new put store find evict remove_locked key_eq bytes_eq qname to_lower
    trim_dot qtype
middleware-IsServed_example =
    middleware-IsServed query held 70 71 80 outage filled refl refl (omega arith) (omega arith)
      (λ _. tt)

abbrev flight : Flight
flight = record { key = www; epoch = 0 }

-- A lookup begins, the domain is purged, and the answer lands behind the purge.
abbrev started : World
started = record { cache = empty; flights = []; origin = λ k. 0; purges = [] }

abbrev purged : World
purged = sweep (codes "example.com" ∷ []) (begin www started)

abbrev landed : World
landed = land 5 flight reply 60 purged

started-IsSound : IsSound started
started-IsSound = record { valid = new-IsValid options; ended = tt; clean = λ k e h. tt }

started-landed : Reach started landed
unfolding new normal_suffixes purge to_lower trim_dot
started-landed =
    next
      (next (next here (begins www refl))
        (sweeps (codes "example.com" ∷ []) refl (omega arith) refl))
      (lands 5 flight reply 60 (inl refl) refl)

land_dropped : find www landed.cache.entries ≡ none
unfolding new normal_suffixes purge put find to_lower trim_dot purge_loop
land_dropped = refl

Reach-IsSound_example : IsSound landed
Reach-IsSound_example = Reach-IsSound started-IsSound started-landed
