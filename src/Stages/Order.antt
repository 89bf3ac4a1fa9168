-- ===== src/Stages/Order.antt =====
-- Which stage of the chain of internal/app/app.go answers a query.
use dnsaur.Prelude.{◌≡◌, refl, ap, ◌∙◌, true, false, none, some}
use dnsaur.Dns.{Handler, Replies, Request, Outcome, qname, qtype}
use dnsaur.Pipeline.{chain, recover}
use dnsaur.Filter.Engine
use dnsaur.Filter.Engine.{block_reply, ruleset_of}
use dnsaur.Filter.Engine.Blocking.{blocks, middleware-blocks}
use dnsaur.Filter.Ruleset.{Ruleset, evaluate}
use dnsaur.Zones.{DnsLib, Zone}
use dnsaur.Zones.Answer.{answer}
use dnsaur.Zones.Resolver
use dnsaur.Zones.Resolver.{zone_reply}
use dnsaur.Zones.Resolver.Claims.{holder, middleware-holder}
use dnsaur.Clients
use dnsaur.Clients.{Netip, Registry, lookup}
use dnsaur.Stages.{State, Instants, cached, serve}

module _ {Addr : Type 0} {Prefix : Type 0} (lib : DnsLib) (replies : Replies)
    (net : Netip Addr Prefix) (t : Instants) (st : State Addr Prefix) where
  -- The query as the registry passes it on.
  abbrev pub known : Request Addr → Request Addr
  known req = record req { client = lookup net st.registry req.client_ip }

  -- The outcome behind `Recover`.
  abbrev pub guarded : Request Addr → Outcome → Outcome
  guarded req out = recover replies (λ _. out) req

  serve-stages :
      (upstream : Handler Addr) (req : Request Addr)
      → serve lib replies net t st upstream req
        ≡ guarded req (
            Engine.middleware replies t.filter st.engine
              (Resolver.middleware lib replies t.zones st.snap
                (cached lib replies net t st upstream))
              (known req))
  unfolding serve recover Clients.middleware chain
  serve-stages upstream req = refl

  -- On a server without DHCP, a query is first given its client. If the filter blocks it for that
  -- client, the reply is the block reply of the verdict. Otherwise, if `holder` finds a zone for it,
  -- which needs class IN and a name inside a zone that holds data, the reply is made of that zone's
  -- answer, whatever the cache holds and the forwarder does; and if it finds none, as for a query of
  -- another class, the cache and the forwarder give the outcome. All of it is inside `Recover`.
  pub serve-order :
      (upstream : Handler Addr) (req : Request Addr)
      → (blocks t.filter st.engine (known req) ≡ true
          → (rs : Ruleset) × (ruleset_of st.engine.groups (known req).client.group_id ≡ some rs)
            × (serve lib replies net t st upstream req
                ≡ guarded req
                    (block_reply replies st.engine.blocking (known req) (evaluate rs (qname req)))))
        × (blocks t.filter st.engine (known req) ≡ false
            → (z : Zone) → holder lib st.snap (known req) ≡ some z
            → serve lib replies net t st upstream req
              ≡ guarded req (
                  zone_reply
                    (answer lib z (replies.set_reply req.msg) (qname req) (qtype req) t.zones).0))
        × (blocks t.filter st.engine (known req) ≡ false
            → holder lib st.snap (known req) ≡ none
            → serve lib replies net t st upstream req
              ≡ guarded req (cached lib replies net t st upstream (known req)))
  unfolding qname qtype
  serve-order upstream req =
      let zones =
        Resolver.middleware lib replies t.zones st.snap (cached lib replies net t st upstream) in
      let (passes, stops) = middleware-blocks replies t.filter st.engine zones (known req) in
      let (falls, holds) =
        middleware-holder lib replies t.zones st.snap (cached lib replies net t st upstream)
          (known req) in
      let run = serve-stages upstream req in
      (
        λ b. (let (rs, found, eq) = stops b in (rs, found, run ∙ ap (guarded req) eq)),
        λ b z h. run ∙ ap (guarded req) (passes b ∙ holds z h),
        λ b h. run ∙ ap (guarded req) (passes b ∙ falls h),
      )
