-- ===== src/Zones/Answer/Chain.antt =====
-- The chase of in-zone CNAMEs in internal/zones/answer.go, and its bound.
use dnsaur.Prelude.{
  ℕ, zero, suc, ◌+◌, ◌≤◌, ◌<◌, ◌≡◌, List, [], ◌∷◌, ◌++◌, arith, leb, Bool-cases, Option-cases, inl,
  inr,
}
use dnsaur.Prelude.Bytes.{Bytes}
use dnsaur.Dns.{Msg}
use dnsaur.Zones.{DnsLib, Zone, ZoneRecord, to_rr, rrs, rel_name}
use dnsaur.Zones.Answer.{
  Again, max_cname_chase, cname_target, first_cname, chase, fill, synthesize, source_of_synthesis,
  resolve_here, resolve,
}

module _ (lib : DnsLib) (z : Zone) (depth : ℕ) where
  -- Two ways to go on agree wherever a chase from this depth may go on.
  abbrev Agree : Again lib z → Again lib z → Type 0
  Agree again again' =
      (m : Msg) (owner rel : Bytes)
      → depth + 1 < max_cname_chase
      → again m owner rel (depth + 1) ≡ again' m owner rel (depth + 1)

  module _ (again again' : Again lib z) (same : Agree again again') where
    chase_agree :
        (m : Msg) (owner : Bytes) (r : ZoneRecord)
        → chase lib z again m owner r depth ≡ chase lib z again' m owner r depth
    unfolding chase
    chase_agree m owner r = elim (Option-cases (to_rr lib owner r)) [
      | inl bad ↦ ground (arith, bad)
      | inr (rr, good) ↦ elim (Option-cases (cname_target rr.rdata)) [
        | inl other ↦ ground (arith, good, other)
        | inr (t, is_cname) ↦ elim (Bool-cases (leb max_cname_chase (depth + 1))) [
          | inl over ↦ ground (arith, good, is_cname, over)
          | inr within ↦ ground (
            arith,
            good,
            is_cname,
            within,
            same (record m { answer = m.answer ++ rr ∷ [] }) (lib.fqdn t) (rel_name lib t z.name)
                (ground arith),
          )
        ]
      ]
    ]

    fill_agree :
        (m : Msg) (owner : Bytes) (recs : List ZoneRecord) (qtype : ℕ)
        → fill lib z again m owner recs qtype depth ≡ fill lib z again' m owner recs qtype depth
    unfolding fill
    fill_agree m owner recs qtype = elim (Option-cases (first_cname lib z recs)) [
      | inl plain ↦ ground (arith, plain)
      | inr (r, alias) ↦ ground (arith, alias, chase_agree m owner r)
    ]

    resolve_here_agree :
        (m : Msg) (owner rel : Bytes) (qtype : ℕ)
        → resolve_here lib z again m owner rel qtype depth
          ≡ resolve_here lib z again' m owner rel qtype depth
    unfolding resolve_here synthesize
    resolve_here_agree m owner rel qtype = ground (
      arith,
      fill_agree m owner (rrs z rel) qtype,
      fill_agree m owner (rrs z (source_of_synthesis lib z rel)) qtype,
    )

module _ (lib : DnsLib) (z : Zone) (qtype : ℕ) where
  resolve_agree :
      (f g depth : ℕ) (m : Msg) (owner rel : Bytes)
      → depth < max_cname_chase
      → max_cname_chase ≤ f + depth
      → max_cname_chase ≤ g + depth
      → resolve lib z f qtype m owner rel depth ≡ resolve lib z g qtype m owner rel depth
  unfolding resolve
  resolve_agree zero g depth m owner rel d hf hg = absurd (omega arith)
  resolve_agree (suc f) zero depth m owner rel d hf hg = absurd (omega arith)
  resolve_agree (suc f) (suc g) depth m owner rel d hf hg =
      let same : Agree lib z depth (resolve lib z f qtype) (resolve lib z g qtype) =
        λ m' owner' rel' d'.
          resolve_agree f g (depth + 1) m' owner' rel' d' (omega arith) (omega arith) in
      ground (
        arith,
        resolve_here_agree lib z depth (resolve lib z f qtype) (resolve lib z g qtype) same m owner
            rel qtype,
      )

  -- Following CNAMEs inside the zone ends by itself: with any more fuel than maxCNAMEChase the
  -- resolution of a name has the result that it has with that.
  pub resolve_enough :
      (extra : ℕ) (m : Msg) (owner rel : Bytes)
      → resolve lib z (max_cname_chase + extra) qtype m owner rel 0
        ≡ resolve lib z max_cname_chase qtype m owner rel 0
  resolve_enough extra m owner rel =
      resolve_agree (max_cname_chase + extra) max_cname_chase 0 m owner rel (omega arith)
        (omega arith) (omega arith)
