-- ===== src/Zones/Refresh/Schedule.antt =====
-- When internal/zones/refresh.go attempts a zone again.
use dnsaur.Prelude.{
  ℕ, ◌+◌, ◌*◌, ◌/◌, ◌≤◌, ◌<◌, ◌≡◌, ◌⊎◌, refl, sym, ◌∙◌, Bool, true, false, ◌&&◌, ◌||◌, not, List,
  [], ◌∷◌, arith, Bool-cases, inl, inr, if◌then◌else◌, leb, leb→le, any,
}
use dnsaur.Prelude.Bytes.{Bytes}
use dnsaur.Zones.{StoredZone}
use dnsaur.Zones.Refresh.{
  ZoneState, min_interval, interval_ms, expiry_beats_refresh, refresh_interval_ms, is_secondary,
  due, note_success, note_failure, expired, done, broke, transfer,
}

interval-floor : (s : ℕ) → 60000 ≤ interval_ms s
unfolding interval_ms
interval-floor s = ground arith

refresh_interval-floor : (z : StoredZone) → 60000 ≤ refresh_interval_ms z
unfolding refresh_interval_ms
refresh_interval-floor z = elim (Bool-cases (expiry_beats_refresh z)) [
  | inl e ↦ rw (refresh_interval_ms, e) (interval-floor (z.soa_expire / 2))
  | inr e ↦ rw (refresh_interval_ms, e) (interval-floor z.soa_refresh)
]

due-ready :
    (z : StoredZone) (now : ℕ) (st : ZoneState)
    → due z now st ≡ true
    → (st.not_before ≤ now)
      × ((z.refreshed_at ≡ 0) ⊎ (z.refreshed_at + refresh_interval_ms z ≤ now))
unfolding due
due-ready z now st h = grind arith

due-made :
    (z : StoredZone) (now : ℕ) (st : ZoneState)
    → st.not_before ≤ now
    → (z.refreshed_at ≡ 0) ⊎ (z.refreshed_at + refresh_interval_ms z ≤ now)
    → due z now st ≡ true
unfolding due
due-made z now st ripe h = grind arith

due-early : (z : StoredZone) (now : ℕ) (st : ZoneState) → now < st.not_before → due z now st ≡ false
unfolding due
due-early z now st early = grind arith

leb-more : (a b : ℕ) → leb a b ≡ false → b < a
leb-more a b h = ground arith

interval-expiry :
    (z : StoredZone) → 60 ≤ z.soa_expire → interval_ms (z.soa_expire / 2) ≤ z.soa_expire * 1000
unfolding interval_ms
interval-expiry z lives = ground arith

-- A secondary is polled within the life that its SOA gives it.
refresh_interval-expiry :
    (z : StoredZone)
    → is_secondary z ≡ true
    → 60 ≤ z.soa_expire
    → refresh_interval_ms z ≤ z.soa_expire * 1000
unfolding expiry_beats_refresh refresh_interval_ms
refresh_interval-expiry z secondary lives = elim (Bool-cases (expiry_beats_refresh z)) [
  | inl e ↦ rw (refresh_interval_ms, e) (interval-expiry z lives)
  | inr e ↦ rw (refresh_interval_ms, e) (omega (arith, interval-expiry z lives, slower e))
]
  where
    slower :
        expiry_beats_refresh z ≡ false → interval_ms z.soa_refresh ≤ interval_ms (z.soa_expire / 2)
    slower e = ground (arith, e, secondary, lives)

-- A zone that was due and whose attempt fails is due again exactly from its SOA's retry interval on,
-- taken to be 60 seconds at least, however long the failures last.
pub failure-due :
    (z : StoredZone) (now later : ℕ) (err : Bytes) (st : ZoneState)
    → due z now st ≡ true
    → now ≤ later
    → due z later (transfer z now (broke err) st) ≡ leb (now + interval_ms z.soa_retry) later
unfolding due transfer note_failure
failure-due z now later err st was order =
    let (ripe, schedule) = due-ready z now st was in
    elim (Bool-cases (leb (now + interval_ms z.soa_retry) later)) [
      | inl waited ↦
          due-made z later (transfer z now (broke err) st)
            (leb→le (now + interval_ms z.soa_retry) later waited)
            (elim schedule [ inl never ↦ inl never | inr h ↦ inr (omega (arith, h, order)) ])
          ∙ sym waited
      | inr early ↦
          due-early z later (transfer z now (broke err) st)
            (leb-more (now + interval_ms z.soa_retry) later early)
          ∙ sym early
    ]

-- Behind an attempt that is not cut short, the zone is not due before 60 seconds have passed, whatever
-- the timers of its SOA: behind a failure with the row as it was, behind a success with any row that
-- was stamped with its instant.
pub attempts_apart :
    (z z' : StoredZone) (now later : ℕ) (err : Bytes) (st : ZoneState)
    → 0 < now
    → z'.refreshed_at ≡ now
    → (due z later (transfer z now (broke err) st) ≡ true)
      ⊎ (due z' later (transfer z now done st) ≡ true)
    → now + min_interval ≤ later
unfolding due transfer note_failure note_success
attempts_apart z z' now later err st pos stamped (inl h) =
    omega
      (arith, (due-ready z later (transfer z now (broke err) st) h).0, interval-floor z.soa_retry)
attempts_apart z z' now later err st pos stamped (inr h) =
    elim (due-ready z' later (transfer z now done st) h).1 [
      | inl never ↦ absurd (omega (arith, never, stamped, pos))
      | inr waited ↦ omega (arith, waited, stamped, refresh_interval-floor z')
    ]

-- A secondary whose SOA lets it live for a minute or more is due, its back-off aside, no later than it
-- expires, even where its refresh timer is longer than that.
pub due-expiry :
    (z : StoredZone) (now : ℕ) (st : ZoneState)
    → is_secondary z ≡ true
    → 60 ≤ z.soa_expire
    → z.expires_at ≡ z.refreshed_at + z.soa_expire * 1000
    → st.not_before ≤ now
    → z.expires_at ≤ now
    → due z now st ≡ true
unfolding due refresh_interval_ms expiry_beats_refresh
due-expiry z now st secondary lives stamp ready late =
    due-made z now st ready
      (inr (omega (arith, refresh_interval-expiry z secondary lives, stamp, late)))

-- The failures of one outage, and how often the expiry is announced.
unfoldable pub failures : StoredZone → List (ℕ × Bytes) → ZoneState → ℕ
failures z [] st = 0
failures z ((now, err) ∷ rest) st =
    let (st', announced) = note_failure z now err st in
    (if announced then 1 else 0) + failures z rest st'

failures-logged :
    (z : StoredZone) (fs : List (ℕ × Bytes)) (st : ZoneState)
    → st.expired_logged ≡ true
    → failures z fs st ≡ 0
unfolding failures note_failure
failures-logged z [] st logged = refl
failures-logged z ((now, err) ∷ rest) st logged =
    nothing (expired z now) st.expired_logged (failures z rest (note_failure z now err st).0) logged
      (failures-logged z rest (note_failure z now err st).0
        (still st.expired_logged (expired z now) logged))
  where
    nothing : (e l : Bool) (n : ℕ) → l ≡ true → n ≡ 0 → (if e && not l then 1 else 0) + n ≡ 0
    nothing e l n h h' = ground arith

    still : (l e : Bool) → l ≡ true → (l || e) ≡ true
    still l e h = ground arith

-- However many attempts fail in a row, the expiry of a zone for which it is not announced yet is
-- announced once if one of them fails at or behind it, and never otherwise.
failures-once :
    (z : StoredZone) (fs : List (ℕ × Bytes)) (st : ZoneState)
    → st.expired_logged ≡ false
    → failures z fs st ≡ (if any (λ f. expired z f.0) fs then 1 else 0)
unfolding failures note_failure
failures-once z [] st quiet = refl
failures-once z ((now, err) ∷ rest) st quiet = elim (Bool-cases (expired z now)) [
  | inl over ↦
      first (expired z now) st.expired_logged (any (λ f. expired z f.0) rest)
        (failures z rest (note_failure z now err st).0) over quiet
        (failures-logged z rest (note_failure z now err st).0
          (set st.expired_logged (expired z now) over))
  | inr lives ↦
      later (expired z now) st.expired_logged (any (λ f. expired z f.0) rest)
        (failures z rest (note_failure z now err st).0) lives
        (failures-once z rest (note_failure z now err st).0
          (unset st.expired_logged (expired z now) quiet lives))
]
  where
    first :
        (e l a : Bool) (n : ℕ)
        → e ≡ true
        → l ≡ false
        → n ≡ 0
        → (if e && not l then 1 else 0) + n ≡ (if e || a then 1 else 0)
    first e l a n h h' h'' = ground arith

    later :
        (e l a : Bool) (n : ℕ)
        → e ≡ false
        → n ≡ (if a then 1 else 0)
        → (if e && not l then 1 else 0) + n ≡ (if e || a then 1 else 0)
    later e l a n h h' = ground arith

    set : (l e : Bool) → e ≡ true → (l || e) ≡ true
    set l e h = ground arith

    unset : (l e : Bool) → l ≡ false → e ≡ false → (l || e) ≡ false
    unset l e h h' = ground arith
