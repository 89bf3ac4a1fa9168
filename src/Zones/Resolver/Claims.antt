-- ===== src/Zones/Resolver/Claims.antt =====
-- Which queries the stage of internal/zones/resolver.go answers.
use dnsaur.Prelude.{ℕ, ◌≡◌, Option, none, some, arith, if◌then◌else◌, Option-cases, inl, inr}
use dnsaur.Dns.{Request, Handler, Replies, qname, qtype}
use dnsaur.Zones.{DnsLib, Zone}
use dnsaur.Zones.Answer.{answer}
use dnsaur.Zones.Answer.Serving.{forwards, answer-forwards}
use dnsaur.Zones.Index.{Index, find}
use dnsaur.Zones.Resolver.{other_class, zone_reply, middleware}

module _ {Addr : Type 0} (lib : DnsLib) (snap : Index) where
  -- The zone that claims the query and holds data for it.
  unfoldable pub holder : Request Addr → Option Zone
  holder req = if other_class req.msg.question then none else elim (find lib snap (qname req)) [
    | none ↦ none
    | some z ↦ if forwards z then none else some z
  ]

module _ {Addr : Type 0} (lib : DnsLib) (replies : Replies) (now : ℕ) (snap : Index) where
  -- A query of class IN for a name inside a zone that holds data gets the reply made of what that zone
  -- answers, whatever the next stage is. Every other query gets what the next stage returns.
  pub middleware-holder :
      (next : Handler Addr) (req : Request Addr)
      → (holder lib snap req ≡ none → middleware lib replies now snap next req ≡ next req)
        × ((z : Zone)
            → holder lib snap req ≡ some z
            → middleware lib replies now snap next req
              ≡ zone_reply (answer lib z (replies.set_reply req.msg) (qname req) (qtype req) now).0)
  unfolding holder middleware
  middleware-holder next req = elim (Option-cases (find lib snap (qname req))) [
    | inl unclaimed ↦ (λ h. ground (arith, unclaimed), λ z h. absurd (ground (arith, unclaimed)))
    | inr (y, found) ↦
        let handled =
          answer-forwards lib y (replies.set_reply req.msg) (qname req) (qtype req) now in
        (λ h. ground (arith, found, handled), λ z h. ground (arith, found, handled))
  ]
