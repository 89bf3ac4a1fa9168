-- ===== src/Tests/RefreshTests.antt =====
-- The schedule of a secondary whose SOA asks for more than it gets: a refresh of an hour, a retry of five
-- seconds and a life of two minutes.
use dnsaur.Prelude.{◌+◌, ◌≤◌, ◌≡◌, refl, arith, inl, true, false, [], leb}
use dnsaur.Prelude.Bytes.{codes, bytes_eq, to_lower}
use dnsaur.Zones.{StoredZone}
use dnsaur.Zones.Refresh.{
  ZoneState, due, transfer, broke, interval_ms, min_interval, is_secondary, refresh_interval_ms,
  expiry_beats_refresh, note_failure,
}
use dnsaur.Zones.Refresh.Schedule.{failure-due, attempts_apart, due-expiry}

abbrev short_lived : StoredZone
short_lived = record {
  name = codes "example.com.";
  ztype = codes "secondary";
  enabled = true;
  soa_ns = [];
  soa_mbox = [];
  soa_serial = 1;
  soa_refresh = 3600;
  soa_retry = 5;
  soa_expire = 120;
  soa_minimum = 60;
  soa_ttl = 60;
  refreshed_at = 1000000;
  expires_at = 1120000;
}

abbrev idle : ZoneState
idle = record {
  not_before = 0;
  last_attempt = 0;
  fails = 0;
  last_err = [];
  last_fail_log = 0;
  expired_logged = false;
}

failure-due_example :
    due short_lived 1125000 (transfer short_lived 1060000 (broke (codes "refused")) idle)
    ≡ leb (1060000 + interval_ms 5) 1125000
unfolding due refresh_interval_ms expiry_beats_refresh is_secondary bytes_eq to_lower interval_ms
failure-due_example =
    failure-due short_lived 1060000 1125000 (codes "refused") idle refl (omega arith)

attempts_apart_example : 1060000 + min_interval ≤ 1125000
unfolding due transfer note_failure interval_ms refresh_interval_ms expiry_beats_refresh
    is_secondary bytes_eq to_lower
attempts_apart_example =
    attempts_apart short_lived (record short_lived { refreshed_at = 1060000 }) 1060000 1125000
      (codes "refused") idle (omega arith) refl (inl refl)

due-expiry_example : due short_lived 1120000 idle ≡ true
unfolding is_secondary bytes_eq to_lower
due-expiry_example =
    due-expiry short_lived 1120000 idle refl (omega arith) refl (omega arith) (omega arith)
