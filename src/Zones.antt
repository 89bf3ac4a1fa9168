-- ===== src/Zones.antt =====
-- Zones and the names in them: internal/zones/zone.go. What package dns implements is a parameter,
-- `DnsLib`.
pub mod Answer
pub mod Index
pub mod Notifier
pub mod Refresh
pub mod Serial
pub mod Resolver
pub mod Records
use dnsaur.Prelude.{
  ℕ, ◌-◌, Bool, true, false, ◌||◌, not, Option, none, some, List, [], ◌∷◌, ◌++◌, length,
  if◌then◌else◌, ltb, leb, is_empty, take, ◌==◌,
}
use dnsaur.Prelude.Bytes.{Bytes, bytes_eq, codes, dot, to_lower, to_upper, trim_dot, join_dots}
use dnsaur.Dns.{Rr, RData, type_soa, class_inet}

-- What the zones take from github.com/miekg/dns: `Fqdn`, `SplitDomainName`, `CountLabel`,
-- `IsSubDomain(parent, child)`, `CanonicalName`, `StringToType[t]` (0 for a type it does not know),
-- and `NewRR` on the master-file line of an owner, a TTL, a type and rdata in class IN, `none`
-- standing for its error and for the nil record alike.
pub record DnsLib : Type 0 where
  pub fqdn : Bytes → Bytes
  pub split_domain_name : Bytes → List Bytes
  pub count_label : Bytes → ℕ
  pub is_sub_domain : Bytes → Bytes → Bool
  pub canonical_name : Bytes → Bytes
  pub string_to_type : Bytes → ℕ
  pub new_rr : Bytes → ℕ → Bytes → Bytes → Option Rr

-- The fields of `store.ZoneRecord` that answering reads.
pub record ZoneRecord : Type 0 where
  pub id : ℕ
  pub name : Bytes
  pub rtype : Bytes
  pub ttl : ℕ
  pub rdata : Bytes
  pub enabled : Bool

-- `map[string][]store.ZoneRecord`.
abbrev pub Records : Type 0
Records = List (Bytes × List ZoneRecord)

-- The fields of `store.Zone` that answering reads.
pub record StoredZone : Type 0 where
  pub name : Bytes
  pub ztype : Bytes
  pub enabled : Bool
  pub soa_ns : Bytes
  pub soa_mbox : Bytes
  pub soa_serial : ℕ
  pub soa_refresh : ℕ
  pub soa_retry : ℕ
  pub soa_expire : ℕ
  pub soa_minimum : ℕ
  pub soa_ttl : ℕ
  pub refreshed_at : ℕ
  pub expires_at : ℕ

-- `Zone`.
pub record Zone : Type 0 where
  pub stored : StoredZone
  pub open stored use *
  pub records : Records

abbrev pub apex_name : Bytes
apex_name = codes "@"

-- `normalizeName`.
unfoldable pub normalize_name : Bytes → Bytes
unfolding to_lower trim_dot
normalize_name s = to_lower (trim_dot s)

-- `m[key]`, nil where there is none.
unfoldable pub records_at : Records → Bytes → List ZoneRecord
records_at [] key = []
records_at ((k, rs) ∷ m) key = if bytes_eq k key then rs else records_at m key

-- `m[key] = append(m[key], r)`.
unfoldable pub append_record : Records → Bytes → ZoneRecord → Records
append_record [] key r = (key, r ∷ []) ∷ []
append_record ((k, rs) ∷ m) key r =
    if bytes_eq k key then (k, rs ++ r ∷ []) ∷ m else (k, rs) ∷ append_record m key r

-- The loop of `NewZone`; the warning that it logs is left out.
unfoldable pub add_records : Records → List ZoneRecord → Records
add_records out [] = out
add_records out (r ∷ recs) =
    add_records (if not r.enabled then out else append_record out (normalize_name r.name) r) recs

-- `NewZone`.
unfoldable pub new_zone : StoredZone → List ZoneRecord → Zone
new_zone z recs = record { stored = z; records = add_records [] recs }

-- `Zone.rrs`.
unfoldable pub rrs : Zone → Bytes → List ZoneRecord
rrs z rel = records_at z.records (normalize_name rel)

module _ (lib : DnsLib) where
  -- `Zone.SOA`.
  unfoldable pub soa : Zone → Rr
  soa z = record {
    name = lib.fqdn z.name;
    rtype = type_soa;
    class = class_inet;
    ttl = z.soa_ttl;
    rdata =
        RData.soa (lib.fqdn z.soa_ns) (lib.fqdn z.soa_mbox) z.soa_serial z.soa_refresh z.soa_retry
          z.soa_expire z.soa_minimum;
  }

  -- `RelName`, behind its normalisations.
  rel_of : Bytes → Bytes → Bytes
  rel_of qname apex =
      let labels = lib.split_domain_name qname in
      let n = length labels - lib.count_label (lib.fqdn apex) in
      if bytes_eq qname apex
      then apex_name
      else if not (lib.is_sub_domain (lib.fqdn apex) (lib.fqdn qname))
      then qname
      else if ltb 0 n
      then join_dots (take n labels)
      else qname

  -- `RelName`.
  unfoldable pub rel_name : Bytes → Bytes → Bytes
  unfolding rel_of
  rel_name qname apex = rel_of (normalize_name qname) (normalize_name apex)

  -- `ToRR`; its line is made of these four.
  unfoldable pub to_rr : Bytes → ZoneRecord → Option Rr
  to_rr owner rec = lib.new_rr (lib.fqdn owner) rec.ttl rec.rtype rec.rdata

  -- `rrType`.
  unfoldable pub rr_type : ZoneRecord → ℕ
  rr_type r = lib.string_to_type (to_upper r.rtype)

  -- `Zone.owns`.
  unfoldable pub owns : Zone → Bytes → Bool
  owns z name =
      lib.is_sub_domain (lib.fqdn (normalize_name z.name)) (lib.fqdn (normalize_name name))
