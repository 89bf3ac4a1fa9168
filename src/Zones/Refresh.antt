-- ===== src/Zones/Refresh.antt =====
-- The schedule of the zones that pull from a master: internal/zones/refresh.go. Instants are
-- milliseconds, the timers of an SOA seconds.
pub mod Schedule
use dnsaur.Prelude.{
  ℕ, ◌+◌, ◌-◌, ◌*◌, ◌/◌, Bool, true, false, ◌&&◌, ◌||◌, not, List, [], if◌then◌else◌, ltb, leb,
  ◌==◌,
}
use dnsaur.Prelude.Bytes.{Bytes, bytes_eq, codes, to_lower}
use dnsaur.Zones.{StoredZone, Zone}
use dnsaur.Zones.Answer.{serving}

-- `minInterval`.
abbrev pub min_interval : ℕ
min_interval = 60000

-- `startupSpread`.
abbrev pub startup_spread : ℕ
startup_spread = 60000

-- `failureLogEvery`.
abbrev pub failure_log_every : ℕ
failure_log_every = 3600000

-- `zoneState`, without the lock and the two flags of the warnings on an SOA.
pub record ZoneState : Type 0 where
  pub not_before : ℕ
  pub last_attempt : ℕ
  pub fails : ℕ
  pub last_err : Bytes
  pub last_fail_log : ℕ
  pub expired_logged : Bool

-- `isSecondary`; a type is ASCII.
unfoldable pub is_secondary : StoredZone → Bool
is_secondary z = bytes_eq (to_lower z.ztype) (codes "secondary")

-- `isStub`.
unfoldable pub is_stub : StoredZone → Bool
is_stub z = bytes_eq (to_lower z.ztype) (codes "stub")

-- `pullsFromAMaster`.
unfoldable pub pulls_from_a_master : Bytes → Bool
pulls_from_a_master ztype =
    bytes_eq (to_lower ztype) (codes "secondary") || bytes_eq (to_lower ztype) (codes "stub")

-- `intervalMs`.
unfoldable pub interval_ms : ℕ → ℕ
interval_ms seconds = let ms = seconds * 1000 in if ltb ms min_interval then min_interval else ms

-- `expiryBeatsRefresh`.
unfoldable pub expiry_beats_refresh : StoredZone → Bool
expiry_beats_refresh z =
    is_secondary z
    && ltb 0 z.soa_expire
    && ltb (interval_ms (z.soa_expire / 2)) (interval_ms z.soa_refresh)

-- `refreshIntervalMs`.
unfoldable pub refresh_interval_ms : StoredZone → ℕ
refresh_interval_ms z =
    if expiry_beats_refresh z then interval_ms (z.soa_expire / 2) else interval_ms z.soa_refresh

-- `Refresher.due`.
unfoldable pub due : StoredZone → ℕ → ZoneState → Bool
due z now st =
    if ltb now st.not_before
    then false
    else if z.refreshed_at == 0
    then true
    else leb (z.refreshed_at + refresh_interval_ms z) now

-- The spread of `firstAttempt`, cut at the zone's expiry; below 0 in the code is 0 here.
unfoldable pub spread_of : StoredZone → ℕ → ℕ
spread_of z now =
    if not (z.expires_at == 0) && ltb (z.expires_at - now) startup_spread
    then z.expires_at - now
    else startup_spread

-- `Refresher.firstAttempt`, over the random choice of a delay below a bound, in milliseconds.
unfoldable pub first_attempt : (ℕ → ℕ) → StoredZone → ℕ → ℕ
first_attempt jitter z now =
    if not (serving (record { stored = z; records = [] }) now)
    then 0
    else if is_stub z && z.refreshed_at == 0
    then 0
    else if ltb now (z.refreshed_at + refresh_interval_ms z)
    then 0
    else if spread_of z now == 0
    then 0
    else now + jitter (spread_of z now)

-- The state that `stateFor` creates.
unfoldable pub new_state : (ℕ → ℕ) → StoredZone → ℕ → ZoneState
new_state jitter z now = record {
  not_before = first_attempt jitter z now;
  last_attempt = 0;
  fails = 0;
  last_err = [];
  last_fail_log = 0;
  expired_logged = false;
}

-- `Refresher.noteSuccess`.
unfoldable pub note_success : ℕ → ZoneState → ZoneState
note_success now st = record st {
  fails = 0;
  last_err = [];
  last_attempt = now;
  not_before = 0;
  expired_logged = false;
}

-- Whether `noteFailure` logs the failure above debug level.
unfoldable pub loud : ℕ → ZoneState → Bool
loud now st = st.fails + 1 == 1 || leb failure_log_every (now - st.last_fail_log)

unfoldable pub expired : StoredZone → ℕ → Bool
expired z now =
    is_secondary z && not (z.refreshed_at == 0) && not (z.expires_at == 0) && leb z.expires_at now

-- `Refresher.noteFailure`: the state, and whether the expiry is announced.
unfoldable pub note_failure : StoredZone → ℕ → Bytes → ZoneState → ZoneState × Bool
note_failure z now err st = (
  record st {
    fails = st.fails + 1;
    last_err = err;
    last_attempt = now;
    not_before = now + interval_ms z.soa_retry;
    last_fail_log = if loud now st then now else st.last_fail_log;
    expired_logged = st.expired_logged || expired z now;
  },
  expired z now && not st.expired_logged,
)

-- How an attempt ends: with the zone installed or found current, with an error, or cut short by a
-- cancellation.
pub data Pulled : Type 0 where
  done : Pulled
  broke : Bytes → Pulled
  cancelled : Pulled

-- The state behind `Refresher.transfer`.
unfoldable pub transfer : StoredZone → ℕ → Pulled → ZoneState → ZoneState
transfer z now done st = note_success now st
transfer z now (broke err) st = (note_failure z now err st).0
transfer z now cancelled st = st
