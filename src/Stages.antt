-- ===== src/Stages.antt =====
-- The stages in the order that `App.Start` of internal/app/app.go chains them in, on a server without
-- DHCP, inside the stage of the query log, which is left out. Each stage is given the instant at which
-- it reads its clock; the cache behind the query is `Cache.Serve.middleware`'s.
pub mod Order
use dnsaur.Prelude.{ℕ, List, [], ◌∷◌}
use dnsaur.Dns.{Handler, Replies, Request}
use dnsaur.Pipeline.{chain, recover}
use dnsaur.Filter.Engine
use dnsaur.Filter.Engine.{Engine}
use dnsaur.Zones.{DnsLib}
use dnsaur.Zones.Index.{Index}
use dnsaur.Zones.Resolver
use dnsaur.Cache.{Cache}
use dnsaur.Cache.Serve
use dnsaur.Clients
use dnsaur.Clients.{Netip, Registry}

-- What the stages hold when the query comes in.
pub record State (Addr : Type 0) (Prefix : Type 0) : Type 0 where
  pub registry : Registry Addr Prefix
  pub engine : Engine
  pub snap : Index
  pub cache : Cache

-- The clock readings of one query: the filter's, the zones' in milliseconds, and the cache's three.
pub record Instants : Type 0 where
  pub filter : ℕ
  pub zones : ℕ
  pub cache : ℕ
  pub read : ℕ
  pub later : ℕ

module _ {Addr : Type 0} {Prefix : Type 0} (lib : DnsLib) (replies : Replies)
    (net : Netip Addr Prefix) where
  -- The cache's stage over the forwarder.
  abbrev pub cached : Instants → State Addr Prefix → Handler Addr → Handler Addr
  cached t st upstream req = (Serve.middleware t.cache t.read t.later upstream req st.cache).0

  -- `a.handler`, over the forwarder.
  unfoldable pub serve : Instants → State Addr Prefix → Handler Addr → Handler Addr
  serve t st upstream = chain (cached t st upstream) (
      recover replies
      ∷ Clients.middleware net st.registry
      ∷ Engine.middleware replies t.filter st.engine
      ∷ Resolver.middleware lib replies t.zones st.snap
      ∷ [])
