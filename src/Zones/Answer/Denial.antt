-- ===== src/Zones/Answer/Denial.antt =====
-- The rcode of internal/zones/answer.go, its negative answers, and names that have records.
use dnsaur.Prelude.{
  ℕ, suc, ◌≡◌, Bool, true, false, ◌&&◌, ◌||◌, not, none, List, [], ◌∷◌, ◌++◌, arith, if◌then◌else◌,
  is_empty, ◌==◌, ltb, List-cases, append-nil, inl, inr, Bool-cases, sym, ap, subst, ◌∙◌, ◌⊎◌, ◌↔◌,
}
use dnsaur.Prelude.Bytes.{Bytes, bytes_eq, bytes_eq→eq, bytes_eq_refl}
use dnsaur.Dns.{Rr, Msg, type_soa, rcode_success, rcode_name_error}
use dnsaur.Zones.{DnsLib, Zone, ZoneRecord, apex_name, normalize_name, rrs, soa}
use dnsaur.Zones.Answer.Names.{Exists, IsHeld, IsClosest, wildcard, held-IsHeld, source-wildcard}
use dnsaur.Zones.Answer.Typed.{is_plain, first_cname-any, asked_rrs, typed_rrs-asked_rrs}
use dnsaur.Zones.Answer.{
  Again, deny, has_descendant, source_of_synthesis, typed_rrs, fill_typed, or_nodata,
  attach_ns_glue, fill, synthesize, resolve_here, resolve, referral,
}

module _ (lib : DnsLib) (z : Zone) where
  -- The test of the program for a name that is held.
  abbrev is_held : Bytes → Bool
  is_held rel = not (is_empty (rrs z rel)) || has_descendant z rel

  or_nodata-rcode :
      (again : Again lib z) (m : Msg) (owner rel : Bytes) (qtype depth : ℕ)
      → m.rcode ≡ rcode_success
      → is_plain lib z rel qtype ≡ true
      → (or_nodata lib z m (fill lib z again m owner (rrs z rel) qtype depth)).rcode ≡ rcode_success
  unfolding or_nodata fill fill_typed deny attach_ns_glue is_plain
  or_nodata-rcode again m owner rel qtype depth h plain =
      ground (arith, first_cname-any lib z (rrs z rel))

  -- The code, by the tests of the program.
  resolve-tests :
      (fuel qtype depth : ℕ) (m : Msg) (owner rel : Bytes)
      → referral lib z m rel ≡ none
      → m.rcode ≡ rcode_success
      → is_plain lib z rel qtype ≡ true
      → ((bytes_eq rel apex_name || is_held rel) ≡ false
          → is_plain lib z (source_of_synthesis lib z rel) qtype ≡ true)
      → (resolve lib z (suc fuel) qtype m owner rel depth).rcode ≡ (
          if (bytes_eq rel apex_name || is_held rel) || is_held (source_of_synthesis lib z rel)
          then rcode_success
          else rcode_name_error)
  unfolding resolve resolve_here synthesize deny
  resolve-tests fuel qtype depth m owner rel uncut ok plain plain_src =
      let again = resolve lib z fuel qtype in
      let src = source_of_synthesis lib z rel in
      elim (Bool-cases (bytes_eq rel apex_name || is_held rel)) [
        | inl there ↦ ground (arith, uncut, or_nodata-rcode again m owner rel qtype depth ok plain)
        | inr gone ↦
            ground (
              arith,
              uncut,
              gone,
              or_nodata-rcode again m owner src qtype depth ok (plain_src gone),
            )
      ]

  tests-Exists : (rel : Bytes) → ((bytes_eq rel apex_name || is_held rel) ≡ true) ↔ Exists z rel
  tests-Exists rel =
      let (there, back) = held-IsHeld z rel in
      (
        λ h. elim (Bool-cases (bytes_eq rel apex_name)) [
          | inl apex ↦ inl (bytes_eq→eq rel apex_name apex)
          | inr other ↦ inr (there (ground (arith, other)))
        ],
        λ h. elim h [
          | inl e ↦
              ground
                (arith, subst (λ x. bytes_eq x apex_name ≡ true) (sym e) (bytes_eq_refl apex_name))
          | inr held ↦ ground (arith, back held)
        ],
      )

  -- Where no zone cut stands above the name and no CNAME is followed, neither at the name nor, if it does
  -- not exist, at the wildcard below its closest encloser, the answer is NXDOMAIN exactly if the name
  -- is neither the apex, nor has records, nor is an empty non-terminal, and that wildcard neither has
  -- records nor is one. In every other case it is NOERROR. `l` is the name's first label and `after`
  -- are the labels of its closest encloser.
  pub resolve-rcode :
      (fuel qtype depth : ℕ) (m : Msg) (owner rel l : Bytes) (labels after : List Bytes)
      → lib.split_domain_name (normalize_name rel) ≡ l ∷ labels
      → IsClosest z labels after
      → referral lib z m rel ≡ none
      → m.rcode ≡ rcode_success
      → is_plain lib z rel qtype ≡ true
      → (¬ Exists z rel → is_plain lib z (wildcard after) qtype ≡ true)
      → (((resolve lib z (suc fuel) qtype m owner rel depth).rcode ≡ rcode_name_error)
          ↔ ((¬ Exists z rel) × (¬ IsHeld z (wildcard after))))
        × (((resolve lib z (suc fuel) qtype m owner rel depth).rcode ≡ rcode_success)
            ↔ (Exists z rel ⊎ IsHeld z (wildcard after)))
  resolve-rcode fuel qtype depth m owner rel l labels after split closest uncut ok plain plain_src =
      let src = source-wildcard lib z rel l labels after split closest in
      let (there, back) = tests-Exists rel in
      let (there', back') = held-IsHeld z (wildcard after) in
      let code = resolve-tests fuel qtype depth m owner rel uncut ok plain (λ gone.
        subst (λ s. is_plain lib z s qtype ≡ true) (sym src)
          (plain_src (λ e. absurd (ground (arith, gone, back e))))) in
      let code' =
        code
        ∙ ap
            (λ s.
              if (bytes_eq rel apex_name || is_held rel) || is_held s
              then rcode_success
              else rcode_name_error)
            src in
      elim (Bool-cases (bytes_eq rel apex_name || is_held rel)) [
        | inl exists ↦ (
          (
            λ e. absurd (ground (arith, code', exists, e)),
            λ (nowhere, _). absurd (nowhere (there exists)),
          ),
          (λ _. inl (there exists), λ _. ground (arith, code', exists)),
        )
        | inr missing ↦ elim (Bool-cases (is_held (wildcard after))) [
          | inl covered ↦ (
            (
              λ e. absurd (ground (arith, code', covered, e)),
              λ (_, nowhere). absurd (nowhere (there' covered)),
            ),
            (λ _. inr (there' covered), λ _. ground (arith, code', covered)),
          )
          | inr bare ↦ (
            (
              λ _. (
                λ e. absurd (ground (arith, missing, back e)),
                λ e. absurd (ground (arith, bare, back' e)),
              ),
              λ _. ground (arith, code', missing, bare),
            ),
            (
              λ e. absurd (ground (arith, code', missing, bare, e)),
              λ e. elim e [
                | inl x ↦ absurd (ground (arith, missing, back x))
                | inr x ↦ absurd (ground (arith, bare, back' x))
              ],
            ),
          )
        ]
      ]

  -- The SOA of a negative answer, with the smaller of the two TTLs.
  unfoldable pub negative_soa : Rr
  negative_soa =
      let s = soa lib z in
      record s { ttl = if ltb z.soa_ttl z.soa_minimum then z.soa_ttl else z.soa_minimum }

  fill_plain :
      (again : Again lib z) (m : Msg) (owner rel : Bytes) (qtype depth : ℕ)
      → is_plain lib z rel qtype ≡ true
      → fill lib z again m owner (rrs z rel) qtype depth
        ≡ fill_typed lib z m owner (rrs z rel) qtype
  unfolding fill is_plain
  fill_plain again m owner rel qtype depth plain = ground (arith, first_cname-any lib z (rrs z rel))

  answer-fill_typed :
      (m : Msg) (owner : Bytes) (recs : List ZoneRecord) (qtype : ℕ)
      → (or_nodata lib z m (fill_typed lib z m owner recs qtype)).answer
        ≡ m.answer ++ typed_rrs lib z owner recs qtype
  unfolding or_nodata fill_typed deny attach_ns_glue
  answer-fill_typed m owner recs qtype = elim (List-cases (typed_rrs lib z owner recs qtype)) [
    | inl empty ↦ ground (arith, empty, append-nil m.answer)
    | inr (rr, rest, filled) ↦ ground (arith, filled)
  ]

  ns-fill_typed :
      (m : Msg) (owner : Bytes) (recs : List ZoneRecord) (qtype : ℕ)
      → (or_nodata lib z m (fill_typed lib z m owner recs qtype)).ns
        ≡ (if is_empty (typed_rrs lib z owner recs qtype) then m.ns ++ negative_soa ∷ [] else m.ns)
  unfolding or_nodata fill_typed deny attach_ns_glue negative_soa
  ns-fill_typed m owner recs qtype = ground arith

  -- A name with records of its own, below no zone cut and with no CNAME followed, asked for another
  -- thing than the SOA of the apex, is answered from those alone: with exactly its records of the type
  -- asked for that can be written, in their order and under the owner name, added to the answer, and
  -- where there is none with the SOA added to the authority section, its TTL the smaller of the SOA's
  -- own and its minimum.
  pub resolve_existing :
      (fuel qtype depth : ℕ) (m : Msg) (owner rel : Bytes)
      → referral lib z m rel ≡ none
      → (bytes_eq rel apex_name && qtype == type_soa) ≡ false
      → is_empty (rrs z rel) ≡ false
      → is_plain lib z rel qtype ≡ true
      → ((resolve lib z (suc fuel) qtype m owner rel depth).answer
          ≡ m.answer ++ asked_rrs lib z owner (rrs z rel) qtype)
        × ((resolve lib z (suc fuel) qtype m owner rel depth).ns ≡ (
            if is_empty (asked_rrs lib z owner (rrs z rel) qtype)
            then m.ns ++ negative_soa ∷ []
            else m.ns))
  unfolding resolve resolve_here
  resolve_existing fuel qtype depth m owner rel uncut not_soa filled plain =
      let again = resolve lib z fuel qtype in
      let same = fill_plain again m owner rel qtype depth plain in
      let asked = typed_rrs-asked_rrs lib z owner (rrs z rel) qtype in
      (
        ground (arith, uncut, same, answer-fill_typed m owner (rrs z rel) qtype, asked),
        ground (arith, uncut, same, ns-fill_typed m owner (rrs z rel) qtype, asked),
      )
