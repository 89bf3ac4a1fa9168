-- ===== src/Zones/Answer/Typed.antt =====
-- The records that the loops of `Zone.fill` in internal/zones/answer.go pick.
use dnsaur.Prelude.{
  ℕ, ◌≡◌, refl, Bool, false, ◌||◌, not, none, some, List, [], ◌∷◌, arith, ◌==◌, any, keep,
  Bool-cases, inl, inr,
}
use dnsaur.Prelude.Bytes.{Bytes}
use dnsaur.Dns.{Rr, type_cname}
use dnsaur.Zones.{DnsLib, Zone, ZoneRecord, rrs, rr_type, to_rr}
use dnsaur.Zones.Answer.{first_cname, typed_rrs}

module _ (lib : DnsLib) (z : Zone) where
  -- No CNAME is followed at this name for this type.
  unfoldable pub is_plain : Bytes → ℕ → Bool
  is_plain rel qtype =
      qtype == type_cname || not (any (λ r. rr_type lib r == type_cname) (rrs z rel))

  pub first_cname-any :
      (recs : List ZoneRecord)
      → any (λ r. rr_type lib r == type_cname) recs ≡ false
      → first_cname lib z recs ≡ none
  unfolding first_cname
  first_cname-any [] h = refl
  first_cname-any (r ∷ recs) h = ground (arith, first_cname-any recs)

  -- The records that can be written of those given, each under the owner name, in their order.
  unfoldable pub written : Bytes → List ZoneRecord → List Rr
  written owner [] = []
  written owner (r ∷ recs) = elim (to_rr lib owner r) [
    | none ↦ written owner recs
    | some rr ↦ rr ∷ written owner recs
  ]

  -- The records of the type asked for, of those given.
  unfoldable pub asked_rrs : Bytes → List ZoneRecord → ℕ → List Rr
  asked_rrs owner recs qtype = written owner (keep (λ r. rr_type lib r == qtype) recs)

  pub typed_rrs-asked_rrs :
      (owner : Bytes) (recs : List ZoneRecord) (qtype : ℕ)
      → typed_rrs lib z owner recs qtype ≡ asked_rrs owner recs qtype
  unfolding typed_rrs asked_rrs written
  typed_rrs-asked_rrs owner [] qtype = refl
  typed_rrs-asked_rrs owner (r ∷ recs) qtype =
      let rest = typed_rrs-asked_rrs owner recs qtype in
      elim (Bool-cases (rr_type lib r == qtype)) [
        | inl here ↦ ground (arith, rest, here)
        | inr other ↦ ground (arith, rest, other)
      ]
