-- ===== src/Zones/Answer/Reply.antt =====
-- What a resolution of internal/zones/answer.go may make of a message.
use dnsaur.Prelude.{
  ℕ, zero, suc, ◌+◌, ◌≡◌, refl, sym, subst, ◌∙◌, Bool, true, false, ◌||◌, not, some, List, [], ◌∷◌,
  ◌++◌, arith, if◌then◌else◌, ◌==◌, leb, Bool-cases, Option-cases, append-nil, append_assoc, inl,
  inr, ◌⊎◌,
}
use dnsaur.Prelude.Bytes.{Bytes, bytes_eq}
use dnsaur.Dns.{Rr, Msg, rcode_success, rcode_name_error}
use dnsaur.Zones.{
  DnsLib, Zone, ZoneRecord, apex_name, normalize_name, rrs, soa, to_rr, owns, rel_name,
}
use dnsaur.Zones.Answer.{
  Again, max_cname_chase, cname_target, deny, source_of_synthesis, first_cname, typed_rrs,
  fill_typed, or_nodata, attach_ns_glue, chase, fill, synthesize, resolve_here, resolve, referral,
  find_cut,
}
use dnsaur.Zones.Answer.Denial.{negative_soa}

-- Records are only added to the answer; the code is NOERROR or NXDOMAIN; and NXDOMAIN comes with the
-- zone's negative SOA as the one record added to the authority section.
pub record IsReply (lib : DnsLib) (z : Zone) (m m' : Msg) : Type 0 where
  pub more : List Rr
  pub extends : m'.answer ≡ m.answer ++ more
  pub code : (m'.rcode ≡ rcode_success) ⊎ (m'.rcode ≡ rcode_name_error)
  pub denial : m'.rcode ≡ rcode_name_error → m'.ns ≡ m.ns ++ negative_soa lib z ∷ []

module _ (lib : DnsLib) (z : Zone) where
  deny-IsReply :
      (m : Msg) (rcode : ℕ)
      → (rcode ≡ rcode_success) ⊎ (rcode ≡ rcode_name_error)
      → IsReply lib z m (deny lib z m rcode)
  unfolding deny negative_soa
  deny-IsReply m rcode h = record {
    more = [];
    extends = sym (append-nil m.answer);
    code = h;
    denial = λ _. refl;
  }

  -- A message that keeps its code and has records added.
  keeps-IsReply :
      (m m' : Msg) (more : List Rr)
      → m.rcode ≡ rcode_success
      → m'.rcode ≡ m.rcode
      → m'.answer ≡ m.answer ++ more
      → IsReply lib z m m'
  keeps-IsReply m m' more ok same e = record {
    more = more;
    extends = e;
    code = inl (same ∙ ok);
    denial = λ h. absurd (omega (arith, same, ok));
  }

  find_cut-keeps :
      (m m' : Msg) (labels : List Bytes)
      → find_cut lib z m labels ≡ some m'
      → (m'.rcode ≡ m.rcode) × (m'.answer ≡ m.answer)
  unfolding find_cut
  find_cut-keeps m m' [] h = absurd (cc)
  find_cut-keeps m m' (l ∷ labels) h = ground (arith, find_cut-keeps m m' labels)

  referral-IsReply :
      (m m' : Msg) (rel : Bytes)
      → m.rcode ≡ rcode_success
      → referral lib z m rel ≡ some m'
      → IsReply lib z m m'
  unfolding referral
  referral-IsReply m m' rel ok h = elim (Bool-cases (bytes_eq rel apex_name)) [
    | inl apex ↦ absurd (ground arith)
    | inr below ↦
        let (same, ans) =
          find_cut-keeps m m' (lib.split_domain_name (normalize_name rel)) (ground arith) in
        keeps-IsReply m m' [] ok same (ans ∙ sym (append-nil m.answer))
  ]

  fill_typed-IsReply :
      (m m' : Msg) (owner : Bytes) (recs : List ZoneRecord) (qtype : ℕ)
      → m.rcode ≡ rcode_success
      → fill_typed lib z m owner recs qtype ≡ some m'
      → IsReply lib z m m'
  unfolding fill_typed attach_ns_glue
  fill_typed-IsReply m m' owner recs qtype ok h =
      keeps-IsReply m m' (typed_rrs lib z owner recs qtype) ok (ground arith) (ground arith)

  -- Going on replies to the message that it is given.
  abbrev Replying : Again lib z → Type 0
  Replying again =
      (m : Msg) (owner rel : Bytes) (depth : ℕ)
      → m.rcode ≡ rcode_success
      → IsReply lib z m (again m owner rel depth)

  behind-IsReply :
      (m m' : Msg) (rr : Rr)
      → IsReply lib z (record m { answer = m.answer ++ rr ∷ [] }) m'
      → IsReply lib z m m'
  behind-IsReply m m' rr r = record {
    more = rr ∷ r.more;
    extends = r.extends ∙ append_assoc m.answer (rr ∷ []) r.more;
    code = r.code;
    denial = r.denial;
  }

  module _ (again : Again lib z) (going : Replying again) where
    chase-IsReply :
        (m m' : Msg) (owner : Bytes) (r : ZoneRecord) (depth : ℕ)
        → m.rcode ≡ rcode_success
        → chase lib z again m owner r depth ≡ some m'
        → IsReply lib z m m'
    unfolding chase
    chase-IsReply m m' owner r depth ok h = elim (Option-cases (to_rr lib owner r)) [
      | inl bad ↦ absurd (ground (arith, bad))
      | inr (rr, good) ↦ elim (Option-cases (cname_target rr.rdata)) [
        | inl other ↦ absurd (ground (arith, good, other))
        | inr (t, alias) ↦
            let m1 : Msg = record m { answer = m.answer ++ rr ∷ [] } in
            elim (Bool-cases (leb max_cname_chase (depth + 1) || not (owns lib z t))) [
              | inl stop ↦
                  let e : m1 ≡ m' = ground (arith, good, alias, stop) in
                  subst (IsReply lib z m) e (keeps-IsReply m m1 (rr ∷ []) ok refl refl)
              | inr on ↦
                  let e : again m1 (lib.fqdn t) (rel_name lib t z.name) (depth + 1) ≡ m' =
                    ground (arith, good, alias, on) in
                  behind-IsReply m m' rr (subst (IsReply lib z m1) e (going m1 _ _ _ ok))
            ]
      ]
    ]

    fill-IsReply :
        (m m' : Msg) (owner : Bytes) (recs : List ZoneRecord) (qtype depth : ℕ)
        → m.rcode ≡ rcode_success
        → fill lib z again m owner recs qtype depth ≡ some m'
        → IsReply lib z m m'
    unfolding fill
    fill-IsReply m m' owner recs qtype depth ok h = elim (Bool-cases (qtype == 5)) [
      | inl direct ↦ fill_typed-IsReply m m' owner recs qtype ok (ground arith)
      | inr aliased ↦ elim (Option-cases (first_cname lib z recs)) [
        | inl plain ↦ fill_typed-IsReply m m' owner recs qtype ok (ground (arith, plain))
        | inr (r, alias) ↦ chase-IsReply m m' owner r depth ok (ground (arith, alias, aliased))
      ]
    ]

    or_nodata-IsReply :
        (m : Msg) (owner : Bytes) (recs : List ZoneRecord) (qtype depth : ℕ)
        → m.rcode ≡ rcode_success
        → IsReply lib z m (or_nodata lib z m (fill lib z again m owner recs qtype depth))
    unfolding or_nodata
    or_nodata-IsReply m owner recs qtype depth ok =
        elim (Option-cases (fill lib z again m owner recs qtype depth)) [
          | inl nothing ↦ rw (nothing, or_nodata) (deny-IsReply m rcode_success (inl refl))
          | inr (m', e) ↦ rw (e, or_nodata) (fill-IsReply m m' owner recs qtype depth ok e)
        ]

    if-IsReply :
        (b : Bool) (m x y : Msg)
        → IsReply lib z m x
        → IsReply lib z m y
        → IsReply lib z m (if b then x else y)
    if-IsReply true m x y hx hy = hx
    if-IsReply false m x y hx hy = hy

    resolve_here-IsReply :
        (m : Msg) (owner rel : Bytes) (qtype depth : ℕ)
        → m.rcode ≡ rcode_success
        → IsReply lib z m (resolve_here lib z again m owner rel qtype depth)
    unfolding resolve_here synthesize
    resolve_here-IsReply m owner rel qtype depth ok =
        if-IsReply _ m _ _
          (keeps-IsReply m (record m { answer = m.answer ++ soa lib z ∷ [] }) (soa lib z ∷ []) ok
            refl refl)
          (if-IsReply _ m _ _ (or_nodata-IsReply m owner (rrs z rel) qtype depth ok) (
            if-IsReply _ m _ _ (deny-IsReply m rcode_success (inl refl)) (
              if-IsReply _ m _ _
                (or_nodata-IsReply m owner (rrs z (source_of_synthesis lib z rel)) qtype depth ok)
                (if-IsReply _ m _ _ (deny-IsReply m rcode_success (inl refl))
                  (deny-IsReply m rcode_name_error (inr refl))))))

  -- However long the chain of CNAMEs, resolving only adds records to the answer and ends in NOERROR or
  -- NXDOMAIN; and NXDOMAIN is never without the zone's SOA, the one record added to the authority
  -- section.
  pub resolve-IsReply :
      (fuel qtype : ℕ) (m : Msg) (owner rel : Bytes) (depth : ℕ)
      → m.rcode ≡ rcode_success
      → IsReply lib z m (resolve lib z fuel qtype m owner rel depth)
  unfolding resolve
  resolve-IsReply zero qtype m owner rel depth ok =
      keeps-IsReply m m [] ok refl (sym (append-nil m.answer))
  resolve-IsReply (suc fuel) qtype m owner rel depth ok =
      elim (Option-cases (referral lib z m rel)) [
        | inl uncut ↦
            rw (uncut, resolve)
              (resolve_here-IsReply (resolve lib z fuel qtype)
                (λ m' owner' rel' depth'. resolve-IsReply fuel qtype m' owner' rel' depth') m owner
                rel qtype depth ok)
        | inr (m', cut) ↦ rw (cut, resolve) (referral-IsReply m m' rel ok cut)
      ]
