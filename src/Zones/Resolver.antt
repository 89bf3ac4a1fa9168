-- ===== src/Zones/Resolver.antt =====
-- `Resolver` of internal/zones/resolver.go: the snapshot and its reload, and the zones stage of the
-- pipeline. The store's reads are parameters, `none` standing for an error.
pub mod Claims
use dnsaur.Prelude.{
  ℕ, Bool, true, false, Option, none, some, List, [], ◌∷◌, if◌then◌else◌, not, ◌==◌, map,
}
use dnsaur.Prelude.Bytes.{Bytes}
use dnsaur.Dns.{
  Question, Msg, Request, Response, Outcome, returned, Middleware, Handler, Replies, Decision,
  authoritative, error, qname, qtype, class_inet, rcode_server_failure,
}
use dnsaur.Zones.{DnsLib, Zone, StoredZone, ZoneRecord, new_zone}
use dnsaur.Zones.Answer.{answer}
use dnsaur.Zones.Index.{Index, new_index, find}

-- `all[z.ID]`.
unfoldable pub rows_of : List (ℕ × List ZoneRecord) → ℕ → List ZoneRecord
rows_of [] id = []
rows_of ((j, rs) ∷ m) id = if j == id then rs else rows_of m id

-- The zones that `Reload` builds from the stored ones, which stand with their ids.
unfoldable pub build : List (ℕ × List ZoneRecord) → List (ℕ × StoredZone) → List Zone
build all [] = []
build all ((id, z) ∷ zs) = new_zone z (rows_of all id) ∷ build all zs

-- `Reload`: the snapshot behind it, and whether it succeeded.
unfoldable pub reload :
    Option (List (ℕ × StoredZone)) → Option (List (ℕ × List ZoneRecord)) → Index → Index × Bool
reload none all snap = (snap, false)
reload (some zs) none snap = (snap, false)
reload (some zs) (some all) snap = (new_index (build all zs), true)

-- `len(req.Msg.Question) > 0 && req.Msg.Question[0].Qclass != dns.ClassINET`.
unfoldable pub other_class : List Question → Bool
other_class [] = false
other_class (q ∷ _) = not (q.qclass == class_inet)

-- The response at the end of the middleware.
abbrev pub zone_reply : Msg → Outcome
zone_reply m =
    returned
      (some (record {
        msg = some m;
        decision = if m.rcode == rcode_server_failure then error else authoritative;
        upstream = [];
        rule_id = 0;
        list_id = 0;
        matched = [];
      }))
      none

abbrev zone_outcome : Outcome → Msg × Bool → Outcome
zone_outcome below (m, false) = below
zone_outcome below (m, true) = zone_reply m

module _ {Addr : Type 0} (lib : DnsLib) (replies : Replies) where
  abbrev claimed : ℕ → Request Addr → Outcome → Option Zone → Outcome
  claimed now req below none = below
  claimed now req below (some z) =
      zone_outcome below (answer lib z (replies.set_reply req.msg) (qname req) (qtype req) now)

  -- `Resolver.Middleware`, at the instant `now` in milliseconds.
  unfoldable pub middleware : ℕ → Index → Middleware Addr
  middleware now snap next req =
      if other_class req.msg.question
      then next req
      else claimed now req (next req) (find lib snap (qname req))
