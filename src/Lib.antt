-- ===== src/Lib.antt =====
-- dnsaur: a DNS server for a home or a small office that blocks, caches and serves zones of its own.
--
-- A query goes through a chain of stages, each a middleware round the next one
-- (internal/dnssrv/pipeline.go). The stages modelled here are, from the outside in: `Recover`, which
-- turns a panic into SERVFAIL; the client registry, which says whose query it is; the filter, which
-- answers for blocked names; the zones, which answer for names that the server is authoritative for;
-- and the cache. Below them stands the forwarder, which asks other servers; for the stages above it is
-- any handler.
--
-- The files, each with the code it follows:
--   Dns          messages, records, requests, responses, decisions (internal/dnssrv/pipeline.go)
--   Pipeline     `Chain`, `Recover` (internal/dnssrv/pipeline.go)
--   Filter/DomainSet  `DomainSet` (internal/filter/domainset.go); DomainSet/Matching is on `Match`
--   Filter/Ruleset    `Compile`, `Evaluate` (internal/filter/ruleset.go); Ruleset/Order is on the
--                     precedence, Ruleset/Origin on what a compiled ruleset holds
--   Filter/Pauses     `Pauses`, `Pause`, `Restore`, `PausedUntil` (internal/filter/engine.go);
--                     with Pauses/Deadline and Pauses/Restart
--   Filter/Engine     `Engine` and its stage (internal/filter/engine.go); with Engine/Blocking
--   Filter/Parse      `ParseList` and its helpers (internal/filter/parse.go); Parse/Names is on the
--                     name checks, Parse/Entries on the whole parser
--   Cache        `Cache`, `get`, `put`, `Purge` (internal/cache/cache.go), on the table of Cache/Table;
--                Cache/Keeps has its invariant, Cache/Reads and Cache/Purge what it holds
--   Cache/Ttl    `respTTL`, `withTTLs`, `rewriteQuestion` (internal/cache/cache.go)
--   Cache/Serve  `Middleware` (internal/cache/cache.go); Serve/Replies is on its replies,
--                Serve/Aging on their records, Serve/Outage on what is served while an entry is held
--   Cache/Flight the cache under interleavings, as a step relation; Flight/Sound is on its invariant
--   Clients      `Registry`, `NormalizeMatcher` (internal/clients/registry.go); Clients/Nearest is
--                on `Lookup` and what keeps it up to date
--   Confsync     `Registry` (internal/confsync/registry.go, internal/confsync/pairing.go);
--                Confsync/Pairing is on the codes, Confsync/Secrets on what they are spent on
--   Server       `FitUDPReply`, `dropOPT` (internal/dnssrv/server.go); Server/Datagram is on the
--                sizes of what goes out
--   Upstream     `up`, `Forwarder`, `exchange` (internal/upstream/forwarder.go); Upstream/Health is on
--                `markResult`
--   Upstream/Conditional  `SetConditional`, `pick`, `Close`; with
--                Conditional/Adoption, Conditional/Seeding and Conditional/Routing
--   Upstream/Query    `Handler`, `race`; Query/Held and Query/Failures are on the failure cache,
--                Query/Orders, Query/Attempts and Query/Answers on the answers
--   Zones        `Zone`, `NewZone`, `RelName`, `ToRR` (internal/zones/zone.go); Zones/Records is on
--                what a zone has under each name
--   Zones/Index  `Index` (internal/zones/zone.go); Index/Find is on `Find`
--   Zones/Answer `Answer` and what it calls (internal/zones/answer.go); with Answer/Serving,
--                Answer/Names, Answer/Typed, Answer/Denial, Answer/Reply and Answer/Chain
--   Zones/Resolver    `Resolver` (internal/zones/resolver.go); Resolver/Claims is on its stage
--   Zones/Notifier    the queue of NOTIFY messages (internal/store/notifies.go) and `maybeSend`,
--                `rowsMatch` (internal/zones/notifier.go); Notifier/Rounds is on the attempts,
--                Notifier/Matching, Notifier/Insertions and Notifier/Rows on the rows
--   Zones/Refresh     the schedule of secondaries and stubs (internal/zones/refresh.go); Refresh/Schedule
--                is on when a zone is due
--   Zones/Serial `SerialNewer` (internal/zones/serial.go)
--   Auth         the tables of accounts and tokens (internal/store/userstore.go,
--                internal/store/tokenstore.go)
--   Auth/Service `Service` (internal/auth/service.go, internal/auth/totp.go); Service/Calls has its calls
--                in sequence and Service/Keeps what they keep, Service/Replay is on codes used twice,
--                Service/Sessions on tokens, Service/Setup on the first account
--   Stages       the order of the stages (internal/app/app.go); Stages/Order is on which answers
--   Prelude      the numbers, lists, bytes and strings that the others share
--   Tests        sample values, runs and the theorems at concrete inputs
--
-- How the code corresponds. A string is the list of its bytes, a map an association list with the last
-- write found first, a pointer that may be nil an option. An operation under a lock is a function of
-- the state that returns the state behind it; an atomic pointer is a field. Where Go would panic, the
-- outcome is `panicked`. A clock reading is an argument. Numbers are natural: the epoch of the cache
-- and the serials wrap as their types do, and instants and durations are taken to be at or after 0.
-- The strings that are put in lower case or trimmed of spaces are taken to be ASCII.
--
-- What the code takes from elsewhere is a parameter: package dns (`DnsLib`, `Replies`, `Wire`),
-- package regexp (`compile_regexp`, `Regexp`), `idna.ToASCII` (`to_ascii`), packages netip and net
-- (`Netip`), the sort of slices (`SortFunc`), the hashes and codes of accounts (`Crypto`),
-- the exchanges with other servers (`Attempt`), the reads of the store and the stages below.
--
-- Loops whose end is not plain from their arguments run on fuel: the walk of `Match` and the eviction
-- of `put` on the length of what they shrink, the parser on the length of its input, and `resolve`
-- on maxCNAMEChase, one for each CNAME that may be followed.
--
-- Not modelled: the sockets, HTTP and TLS of the servers, the singleflight group beyond its leader,
-- logging, the queries of the database but for those named above, the transfers themselves, the
-- messages of a NOTIFY, DHCP, the HTTP API and the dashboard.
pub mod Prelude
pub mod Dns
pub mod Pipeline
pub mod Filter
pub mod Auth
pub mod Cache
pub mod Clients
pub mod Confsync
pub mod Server
pub mod Upstream
pub mod Zones
pub mod Stages
mod Tests
