-- ===== src/Zones/Answer.antt =====
-- `Zone.Answer` of internal/zones/answer.go and what it calls: the algorithm of RFC 1034 §4.3.2 with
-- zone cuts, in-zone CNAMEs, wildcards and negative answers.
pub mod Chain
pub mod Names
pub mod Typed
pub mod Denial
pub mod Serving
pub mod Reply
use dnsaur.Prelude.{
  ℕ, zero, suc, ◌+◌, Bool, true, false, ◌&&◌, ◌||◌, not, Option, none, some, List, [], ◌∷◌, ◌++◌,
  any, if◌then◌else◌, ltb, leb, is_empty, ◌==◌, length,
}
use dnsaur.Prelude.Bytes.{Bytes, bytes_eq, codes, dot, to_lower, join_dots}
use dnsaur.Dns.{
  Rr, RData, Msg, type_a, type_aaaa, type_ns, type_cname, type_soa, rcode_success, rcode_name_error,
  rcode_server_failure,
}
use dnsaur.Filter.DomainSet.{contains}
use dnsaur.Zones.{
  DnsLib, ZoneRecord, Records, Zone, apex_name, normalize_name, rrs, soa, rel_name, to_rr, rr_type,
  owns,
}

abbrev pub max_cname_chase : ℕ
max_cname_chase = 8

-- `rr.(*dns.NS)` and `rr.(*dns.CNAME)`: the target.
unfoldable pub ns_target : RData → Option Bytes
ns_target (RData.ns t) = some t
ns_target _ = none

unfoldable pub cname_target : RData → Option Bytes
cname_target (RData.cname t) = some t
cname_target _ = none

-- `strings.HasSuffix`.
unfoldable pub has_suffix : Bytes → Bytes → Bool
has_suffix [] suffix = is_empty suffix
has_suffix (c ∷ s) suffix = bytes_eq (c ∷ s) suffix || has_suffix s suffix

pub has_name_under : Records → Bytes → Bool
has_name_under [] suffix = false
has_name_under ((name, _) ∷ m) suffix = has_suffix name suffix || has_name_under m suffix

-- `Zone.hasDescendant`.
unfoldable pub has_descendant : Zone → Bytes → Bool
unfolding has_name_under
has_descendant z rel = has_name_under z.records (dot ∷ normalize_name rel)

-- `Zone.Serving`; an instant is in milliseconds.
unfoldable pub serving : Zone → ℕ → Bool
serving z now =
    if not (bytes_eq (to_lower z.ztype) (codes "secondary"))
    then true
    else if z.refreshed_at == 0
    then false
    else z.expires_at == 0 || ltb now z.expires_at

module _ (lib : DnsLib) (z : Zone) where
  -- The loop of `Zone.glue`: the addresses among the records of the name.
  glue_of : Bytes → List ZoneRecord → List Rr
  glue_of owner [] = []
  glue_of owner (r ∷ recs) =
      let rest = glue_of owner recs in
      if rr_type lib r == type_a || rr_type lib r == type_aaaa
      then elim (to_rr lib owner r) [ none ↦ rest | some rr ↦ rr ∷ rest ]
      else rest

  -- `Zone.glue`.
  unfoldable pub glue : Bytes → List Rr
  unfolding glue_of
  glue target =
      if not (owns lib z target)
      then []
      else glue_of (lib.fqdn target) (rrs z (rel_name lib target z.name))

  -- `Zone.deny`.
  unfoldable pub deny : Msg → ℕ → Msg
  deny m rcode =
      let s = soa lib z in
      let neg = record s {
        ttl = if ltb z.soa_ttl z.soa_minimum then z.soa_ttl else z.soa_minimum;
      } in
      record m { rcode = rcode; ns = m.ns ++ neg ∷ [] }

  -- The NS records of one candidate cut, with the glue of each.
  unfoldable pub cut_rrs : Bytes → List ZoneRecord → List Rr × List Rr
  cut_rrs owner [] = ([], [])
  cut_rrs owner (r ∷ recs) =
      let (auth, extra) = cut_rrs owner recs in
      if not (rr_type lib r == type_ns) then (auth, extra) else elim (to_rr lib owner r) [
        | none ↦ (auth, extra)
        | some rr ↦ elim (ns_target rr.rdata) [
          | none ↦ (auth, extra)
          | some t ↦ (rr ∷ auth, glue t ++ extra)
        ]
      ]

  -- The loop of `Zone.referral` over the labels; `none` where it finds no cut.
  unfoldable pub find_cut : Msg → List Bytes → Option Msg
  unfolding cut_rrs
  find_cut m [] = none
  find_cut m (l ∷ labels) =
      let below = find_cut m labels in
      let cut = join_dots (l ∷ labels) in
      let (auth, extra) = cut_rrs (lib.fqdn (cut ++ dot ∷ z.name)) (rrs z cut) in
      if is_empty auth
      then below
      else some (record m { authoritative = false; ns = m.ns ++ auth; extra = m.extra ++ extra })

  -- `Zone.referral`; `none` for false, with the message as it was.
  unfoldable pub referral : Msg → Bytes → Option Msg
  unfolding find_cut
  referral m rel =
      if bytes_eq rel apex_name
      then none
      else find_cut m (lib.split_domain_name (normalize_name rel))

  -- The loop of `Zone.attachNSGlue`, with the names seen.
  ns_glue : List Bytes → List Rr → List Rr
  ns_glue seen [] = []
  ns_glue seen (rr ∷ rest) = elim (ns_target rr.rdata) [
    | none ↦ ns_glue seen rest
    | some t ↦ elim (contains seen (lib.canonical_name t)) [
      | true ↦ ns_glue seen rest
      | false ↦ glue t ++ ns_glue (lib.canonical_name t ∷ seen) rest
    ]
  ]

  -- `Zone.attachNSGlue`.
  unfoldable pub attach_ns_glue : Msg → Msg
  unfolding ns_glue
  attach_ns_glue m = record m { extra = m.extra ++ ns_glue [] m.answer }

  -- The second loop of `Zone.fill`: the records of the type asked for, under the owner name.
  unfoldable pub typed_rrs : Bytes → List ZoneRecord → ℕ → List Rr
  typed_rrs owner [] qtype = []
  typed_rrs owner (r ∷ recs) qtype =
      let rest = typed_rrs owner recs qtype in
      if not (rr_type lib r == qtype)
      then rest
      else elim (to_rr lib owner r) [ none ↦ rest | some rr ↦ rr ∷ rest ]

  -- The first loop of `Zone.fill`: the first CNAME.
  unfoldable pub first_cname : List ZoneRecord → Option ZoneRecord
  first_cname [] = none
  first_cname (r ∷ recs) = if rr_type lib r == type_cname then some r else first_cname recs

  -- How `resolve` is entered again: with a message, an owner name, a relative name and a depth.
  abbrev pub Again : Type 0
  Again = Msg → Bytes → Bytes → ℕ → Msg

  -- `Zone.chase`; `none` for false. The target is resolved by `again`.
  unfoldable pub chase : Again → Msg → Bytes → ZoneRecord → ℕ → Option Msg
  chase again m owner r depth = elim (to_rr lib owner r) [
    | none ↦ none
    | some rr ↦ elim (cname_target rr.rdata) [
      | none ↦ none
      | some t ↦
          let m' = record m { answer = m.answer ++ rr ∷ [] } in
          if leb max_cname_chase (depth + 1) || not (owns lib z t)
          then some m'
          else some (again m' (lib.fqdn t) (rel_name lib t z.name) (depth + 1))
    ]
  ]

  unfoldable pub fill_typed : Msg → Bytes → List ZoneRecord → ℕ → Option Msg
  fill_typed m owner recs qtype =
      let found = typed_rrs owner recs qtype in
      let m' = record m { answer = m.answer ++ found } in
      if is_empty found
      then none
      else if qtype == type_ns
      then some (attach_ns_glue m')
      else some m'

  -- `Zone.fill`; `none` for false, with the message as it was.
  unfoldable pub fill : Again → Msg → Bytes → List ZoneRecord → ℕ → ℕ → Option Msg
  unfolding fill_typed
  fill again m owner recs qtype depth =
      let typed = fill_typed m owner recs qtype in
      if qtype == type_cname
      then typed
      else elim (first_cname recs) [ none ↦ typed | some r ↦ chase again m owner r depth ]

  unfoldable pub or_nodata : Msg → Option Msg → Msg
  or_nodata m none = deny m rcode_success
  or_nodata m (some m') = m'

  -- The loop of `Zone.closestEncloser` over the labels behind the first.
  pub encloser : List Bytes → Bytes
  encloser [] = apex_name
  encloser (l ∷ labels) =
      let further = encloser labels in
      let anc = join_dots (l ∷ labels) in
      if not (is_empty (rrs z anc)) || has_descendant z anc then anc else further

  tail_of : List Bytes → List Bytes
  tail_of [] = []
  tail_of (_ ∷ ls) = ls

  -- `Zone.closestEncloser`.
  unfoldable pub closest_encloser : Bytes → Bytes
  unfolding encloser tail_of
  closest_encloser rel = encloser (tail_of (lib.split_domain_name (normalize_name rel)))

  -- `Zone.sourceOfSynthesis`.
  unfoldable pub source_of_synthesis : Bytes → Bytes
  source_of_synthesis rel =
      let ce = closest_encloser rel in if bytes_eq ce apex_name then codes "*" else codes "*." ++ ce

  -- The end of `Zone.resolve`, for a name that does not exist.
  unfoldable pub synthesize : Again → Msg → Bytes → Bytes → ℕ → ℕ → Msg
  unfolding or_nodata
  synthesize again m owner src qtype depth =
      if not (is_empty (rrs z src))
      then or_nodata m (fill again m owner (rrs z src) qtype depth)
      else if has_descendant z src
      then deny m rcode_success
      else deny m rcode_name_error

  -- `Zone.resolve` behind the referral.
  unfoldable pub resolve_here : Again → Msg → Bytes → Bytes → ℕ → ℕ → Msg
  unfolding or_nodata
  resolve_here again m owner rel qtype depth =
      if bytes_eq rel apex_name && qtype == type_soa
      then record m { answer = m.answer ++ soa lib z ∷ [] }
      else if not (is_empty (rrs z rel))
      then or_nodata m (fill again m owner (rrs z rel) qtype depth)
      else if bytes_eq rel apex_name || has_descendant z rel
      then deny m rcode_success
      else synthesize again m owner (source_of_synthesis rel) qtype depth

  -- `Zone.resolve`; the fuel is above the number of CNAMEs that may still be chased.
  unfoldable pub resolve : ℕ → ℕ → Msg → Bytes → Bytes → ℕ → Msg
  resolve zero qtype m owner rel depth = m
  resolve (suc fuel) qtype m owner rel depth = elim (referral m rel) [
    | some m' ↦ m'
    | none ↦ resolve_here (resolve fuel qtype) m owner rel qtype depth
  ]

  -- `Zone.Answer`: the message, and whether the zone answered.
  unfoldable pub answer : Msg → Bytes → ℕ → ℕ → Msg × Bool
  answer m qname qtype now =
      if bytes_eq (to_lower z.ztype) (codes "forwarder")
        || bytes_eq (to_lower z.ztype) (codes "stub")
      then (m, false)
      else if not (serving z now)
      then (record m { rcode = rcode_server_failure }, true)
      else (
        resolve max_cname_chase qtype (record m { authoritative = true; rcode = rcode_success })
            (lib.fqdn qname) (rel_name lib qname z.name) 0,
        true,
      )
