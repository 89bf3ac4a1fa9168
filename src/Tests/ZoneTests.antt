-- ===== src/Tests/ZoneTests.antt =====
-- The zones at concrete inputs.
use dnsaur.Prelude.Text.{split}
use dnsaur.Prelude.{
  ◌≢◌, ◌↔◌, ◌⊎◌, inl, ◌++◌, keep, ◌+◌, ◌≡◌, refl, true, false, not, List, [], ◌∷◌, if◌then◌else◌,
  is_empty,
}
use dnsaur.Prelude.Bytes.{Bytes, codes, to_lower, trim_dot, bytes_eq, join_dots, to_upper}
use dnsaur.Dns.{Msg, type_a, rcode_success, rcode_name_error, rcode_server_failure}
use dnsaur.Zones.{
  Zone, ZoneRecord, StoredZone, new_zone, rrs, normalize_name, add_records, append_record,
  records_at, rel_name, owns, rr_type, soa, to_rr,
}
use dnsaur.Zones.Answer.{
  answer, resolve_here, has_descendant, has_suffix, attach_ns_glue, chase, closest_encloser,
  cname_target, cut_rrs, deny, fill, fill_typed, find_cut, first_cname, glue, ns_target, or_nodata,
  synthesize, referral, resolve, serving, typed_rrs, source_of_synthesis, max_cname_chase, referral,
  first_cname, closest_encloser,
}
use dnsaur.Zones.Answer.Typed.{is_plain, asked_rrs}
use dnsaur.Zones.Answer.Denial.{negative_soa, resolve-rcode, resolve_existing}
use dnsaur.Zones.Answer.Reply.{IsReply, resolve-IsReply}
use dnsaur.Zones.Answer.Chain.{resolve_enough}
use dnsaur.Zones.Answer.Serving.{HasNoData, forwards, answer_gate}
use dnsaur.Zones.Answer.Names.{Exists, IsHeld, IsClosest, wildcard}
use dnsaur.Zones.Index.{new_index, find}
use dnsaur.Zones.Index.Find.{IsMostSpecific, find-IsMostSpecific}
use dnsaur.Zones.Records.{serves, rrs-new_zone}
use dnsaur.Tests.Samples.{sample_lib, ask}

abbrev stored : Bytes → StoredZone
stored ztype = record {
  name = codes "Example.org";
  ztype = ztype;
  enabled = true;
  soa_ns = codes "ns.example.org";
  soa_mbox = codes "admin.example.org";
  soa_serial = 5;
  soa_refresh = 3600;
  soa_retry = 600;
  soa_expire = 86400;
  soa_minimum = 60;
  soa_ttl = 300;
  refreshed_at = 1000;
  expires_at = 90000;
}

abbrev row : Bytes → Bytes → Bytes → ZoneRecord
row name rtype rdata = record {
  id = 1;
  name = name;
  rtype = rtype;
  ttl = 120;
  rdata = rdata;
  enabled = true;
}

abbrev rows : List ZoneRecord
rows =
    row (codes "@") (codes "NS") (codes "ns.example.org.")
    ∷ row (codes "www") (codes "A") (codes "192.0.2.7")
    ∷ row (codes "host.lab") (codes "a") (codes "192.0.2.8")
    ∷ row (codes "alias") (codes "CNAME") (codes "www.example.org.")
    ∷ row (codes "round") (codes "CNAME") (codes "round.example.org.")
    ∷ []

abbrev pub zone : Zone
zone = new_zone (stored (codes "primary")) rows

abbrev secondary : Zone
secondary = new_zone (stored (codes "secondary")) rows

abbrev start : Bytes → Msg
start name = ask name type_a

abbrev look : Bytes → Msg
look name = (answer sample_lib zone (start name) name type_a 5000).0

rcodes :
    ((look (codes "nowhere.example.org.")).rcode ≡ rcode_name_error)
    × ((look (codes "lab.example.org.")).rcode ≡ rcode_success)
    × ((look (codes "round.example.org.")).rcode ≡ rcode_success)
unfolding answer bytes_eq to_lower new_zone serving resolve referral rel_name normalize_name split
    join_dots rrs records_at add_records append_record resolve_here has_descendant has_suffix
    to_upper trim_dot attach_ns_glue chase closest_encloser cname_target cut_rrs deny fill
    fill_typed find_cut first_cname glue ns_target or_nodata source_of_synthesis synthesize
    typed_rrs owns rr_type soa to_rr
rcodes = (refl, refl, refl)

x-IsClosest : IsClosest zone [] []
x-IsClosest = record {
  before = [];
  parts = refl;
  held = inl refl;
  longest = λ above below l e. absurd (nothing above below l e);
}
  where
    nothing : (above below : List Bytes) (l : Bytes) → [] ≢ above ++ l ∷ below
    nothing [] below l e = cc
    nothing (a ∷ above) below l e = cc

resolve-rcode_example :
    ((resolve sample_lib zone 8 type_a
          (start (codes "x.example.org."))
          (codes "x.example.org.")
          (codes "x")
          0).rcode
        ≡ rcode_name_error
      ↔ ((¬ Exists zone (codes "x")) × (¬ IsHeld zone (wildcard []))))
    × ((resolve sample_lib zone 8 type_a
            (start (codes "x.example.org."))
            (codes "x.example.org.")
            (codes "x")
            0).rcode
          ≡ rcode_success
        ↔ (Exists zone (codes "x") ⊎ IsHeld zone (wildcard [])))
unfolding is_plain referral bytes_eq trim_dot normalize_name split rrs records_at new_zone
    add_records append_record join_dots wildcard rr_type to_upper
resolve-rcode_example =
    resolve-rcode sample_lib zone 7 type_a 0 (start (codes "x.example.org."))
      (codes "x.example.org.") (codes "x") (codes "x") [] [] refl x-IsClosest refl refl refl
      (λ _. refl)

resolve_existing_example :
    ((resolve sample_lib zone 8 type_a
        (start (codes "www.example.org."))
        (codes "www.example.org.")
        (codes "www")
        0).answer
      ≡ asked_rrs sample_lib zone (codes "www.example.org.") (rrs zone (codes "www")) type_a)
    × ((resolve sample_lib zone 8 type_a
          (start (codes "www.example.org."))
          (codes "www.example.org.")
          (codes "www")
          0).ns
        ≡ (if is_empty
              (asked_rrs sample_lib zone (codes "www.example.org.") (rrs zone (codes "www")) type_a)
            then negative_soa sample_lib zone ∷ []
            else []))
unfolding is_plain referral bytes_eq trim_dot normalize_name split rrs records_at new_zone
    add_records append_record join_dots rr_type to_upper first_cname
resolve_existing_example =
    resolve_existing sample_lib zone 7 type_a 0 (start (codes "www.example.org."))
      (codes "www.example.org.") (codes "www") refl refl refl refl

resolve-IsReply_example : IsReply sample_lib zone (start (codes "alias.example.org.")) (
    resolve sample_lib zone 8 type_a
      (start (codes "alias.example.org."))
      (codes "alias.example.org.")
      (codes "alias")
      0)
resolve-IsReply_example =
    resolve-IsReply sample_lib zone 8 type_a (start (codes "alias.example.org."))
      (codes "alias.example.org.") (codes "alias") 0 refl

resolve_enough_example :
    resolve sample_lib zone
      (max_cname_chase + 3)
      type_a
      (start (codes "round.example.org."))
      (codes "round.example.org.")
      (codes "round")
      0
    ≡ resolve sample_lib zone max_cname_chase type_a
        (start (codes "round.example.org."))
        (codes "round.example.org.")
        (codes "round")
        0
resolve_enough_example =
    resolve_enough sample_lib zone type_a 3 (start (codes "round.example.org."))
      (codes "round.example.org.") (codes "round")

find-IsMostSpecific_example :
    IsMostSpecific
      (zone ∷ [])
      (sample_lib.split_domain_name (normalize_name (codes "a.Example.org.")))
      (find sample_lib (new_index (zone ∷ [])) (codes "a.Example.org."))
find-IsMostSpecific_example = find-IsMostSpecific sample_lib (zone ∷ []) (codes "a.Example.org.")

rrs-new_zone_example : rrs zone (codes "WWW.") ≡ keep (serves (normalize_name (codes "WWW."))) rows
rrs-new_zone_example = rrs-new_zone (stored (codes "primary")) rows (codes "WWW.")

answer_gate_example :
    ((answer sample_lib zone (start (codes "www.example.org.")) (codes "www.example.org.") 1 5000).1
      ≡ not (forwards zone))
    × (forwards zone ≡ true
        → (answer sample_lib zone
            (start (codes "www.example.org."))
            (codes "www.example.org.")
            1
            5000).0
          ≡ start (codes "www.example.org."))
    × (forwards zone ≡ false
        → ((answer sample_lib zone
              (start (codes "www.example.org."))
              (codes "www.example.org.")
              1
              5000).0.rcode
            ≡ rcode_server_failure)
          ↔ HasNoData zone 5000)
    × (forwards zone ≡ false
        → HasNoData zone 5000
        → (answer sample_lib zone
            (start (codes "www.example.org."))
            (codes "www.example.org.")
            1
            5000).0
          ≡ record (start (codes "www.example.org.")) { rcode = rcode_server_failure })
answer_gate_example =
    answer_gate sample_lib zone (start (codes "www.example.org.")) (codes "www.example.org.") 1 5000
