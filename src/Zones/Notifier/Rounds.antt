-- ===== src/Zones/Notifier/Rounds.antt =====
-- The rounds of internal/zones/notifier.go: what passes over one row for one serial come to.
use dnsaur.Prelude.{
  ℕ, zero, suc, ◌+◌, ◌*◌, ◌^◌, ◌≤◌, ◌<◌, ◌≡◌, ◌⊎◌, Bool, true, false, ◌&&◌, not, none, some, List,
  [], ◌∷◌, arith, Option-cases, inl, inr, All, length, if◌then◌else◌, ◌==◌,
}
use dnsaur.Zones.Serial.{serial_newer}
use dnsaur.Zones.Notifier.{
  ZoneNotify, Sent, landed, over, failed, due, record_sent, note_delivered, note_attempt,
  maybe_send, backoff_for, max_notify_attempts,
}

-- The target has acknowledged the serial, or a later one.
abbrev pub told : ℕ → ZoneNotify → Bool
told want row = not (row.notified_at == 0) && not (serial_newer want row.notified_serial)

-- The attempts that the round of a serial has had; all of them where there is nothing to say.
abbrev pub spent : ℕ → ZoneNotify → ℕ
spent want row = if told want row then 5 else if row.pending_serial == want then row.attempts else 0

-- One pass over the row: its instant, and how its send ends if it sends.
abbrev pub Visit : Type 0
Visit = ℕ × Sent

-- The row behind passes whose writes do not fail, and how often they sent.
unfoldable pub visits : ℕ → List Visit → ZoneNotify → ZoneNotify × ℕ
visits want [] row = (row, 0)
visits want ((now, sent) ∷ later) row =
    let (row', sends) = maybe_send false want now sent row in
    let (last, more) = visits want later row' in (last, (if sends then 1 else 0) + more)

serial_newer_irrefl : (a : ℕ) → serial_newer a a ≡ false
unfolding serial_newer
serial_newer_irrefl a = ground arith

due-some :
    (want now a : ℕ) (row : ZoneNotify)
    → due want row now ≡ some a
    → (spent want row ≡ a) × (a < 5) × (told want row ≡ false)
unfolding due
due-some want now a row h = grind arith

due-none :
    (want now : ℕ) (row : ZoneNotify)
    → due want row now ≡ none
    → (5 ≤ spent want row) ⊎ (now < row.next_attempt_at)
unfolding due
due-none want now row h = grind arith

record_sent-spent :
    (want a now : ℕ) (sent : Sent) (row : ZoneNotify)
    → 0 < now
    → a < 5
    → suc a ≤ spent want (record_sent want a now sent row)
unfolding record_sent note_delivered note_attempt
record_sent-spent want a now landed row pos few = rw (serial_newer_irrefl want) (ground arith)
record_sent-spent want a now (over text) row pos few = ground arith
record_sent-spent want a now (failed text) row pos few = ground arith

record_sent-next :
    (want a now : ℕ) (sent : Sent) (row : ZoneNotify)
    → a < 5
    → (record_sent want a now sent row).next_attempt_at ≤ now + 80000
unfolding record_sent note_delivered note_attempt backoff_for
record_sent-next want a now landed row few = omega arith
record_sent-next want a now (over text) row few = omega arith
record_sent-next want a now (failed text) row few = omega (arith, doubled a few)
  where
    doubled : (a : ℕ) → a < 5 → 5000 * 2 ^ a ≤ 80000
    doubled zero few = omega arith
    doubled (suc zero) few = omega arith
    doubled (suc (suc zero)) few = omega arith
    doubled (suc (suc (suc zero))) few = omega arith
    doubled (suc (suc (suc (suc zero)))) few = omega arith
    doubled (suc (suc (suc (suc (suc a))))) few = absurd (omega (arith, few))

record_sent-attempts :
    (want a now : ℕ) (sent : Sent) (row : ZoneNotify)
    → a < 5
    → (record_sent want a now sent row).attempts ≤ 5
unfolding record_sent note_delivered note_attempt
record_sent-attempts want a now landed row few = omega arith
record_sent-attempts want a now (over text) row few = omega arith
record_sent-attempts want a now (failed text) row few = omega (arith, few)

-- One pass: a send uses up one more attempt, and no pass gives one back.
maybe_send-counts :
    (want now : ℕ) (sent : Sent) (row : ZoneNotify)
    → 0 < now
    → row.attempts ≤ 5
    → ((if (maybe_send false want now sent row).1 then 1 else 0) + spent want row
        ≤ spent want (maybe_send false want now sent row).0)
      × ((maybe_send false want now sent row).0.attempts ≤ 5)
unfolding maybe_send
maybe_send-counts want now sent row pos few = elim (Option-cases (due want row now)) [
  | inl idle ↦ rw (maybe_send, idle) (omega arith, few)
  | inr (a, ready) ↦
      let (used, less, _) = due-some want now a row ready in
      rw (maybe_send, ready)
        (
          omega (arith, used, record_sent-spent want a now sent row pos less),
          record_sent-attempts want a now sent row less,
        )
]

-- A pass that comes late enough sends or has nothing left to do, and the next send may be 80 seconds on.
maybe_send-advances :
    (want now : ℕ) (sent : Sent) (row : ZoneNotify)
    → 0 < now
    → row.next_attempt_at ≤ now
    → ((5 ≤ spent want (maybe_send false want now sent row).0)
        ⊎ (suc (spent want row) ≤ spent want (maybe_send false want now sent row).0))
      × ((maybe_send false want now sent row).0.next_attempt_at ≤ now + 80000)
unfolding maybe_send
maybe_send-advances want now sent row pos ripe = elim (Option-cases (due want row now)) [
  | inl idle ↦
      rw (maybe_send, idle)
        (
          elim (due-none want now row idle) [
            | inl done ↦ inl done
            | inr early ↦ absurd (omega (arith, early, ripe))
          ],
          omega (arith, ripe),
        )
  | inr (a, ready) ↦
      let (used, less, _) = due-some want now a row ready in
      rw (maybe_send, ready)
        (
          inr (omega (arith, used, record_sent-spent want a now sent row pos less)),
          record_sent-next want a now sent row less,
        )
]

spent_le : (want : ℕ) (row : ZoneNotify) → row.attempts ≤ 5 → spent want row ≤ 5
spent_le want row few = ground arith

visits-counts :
    (want : ℕ) (vs : List Visit) (row : ZoneNotify)
    → All (λ v. 0 < v.0) vs
    → row.attempts ≤ 5
    → (visits want vs row).1 + spent want row ≤ 5
unfolding visits
visits-counts want [] row pos few = omega (arith, spent_le want row few)
visits-counts want ((now, sent) ∷ later) row (p, pos) few =
    let (count, fewer) = maybe_send-counts want now sent row p few in
    omega (arith, count, visits-counts want later (maybe_send false want now sent row).0 pos fewer)

-- For one serial of a zone, a target is sent at most MaxNotifyAttempts messages, less those that the
-- round has had already, however many passes there are and however the sends end. The writes of the
-- passes do not fail, and their instants are not 0.
pub visits_bounded :
    (want : ℕ) (vs : List Visit) (row : ZoneNotify)
    → All (λ v. 0 < v.0) vs
    → row.attempts ≤ max_notify_attempts
    → (visits want vs row).1 + spent want row ≤ max_notify_attempts
visits_bounded want vs row pos few = visits-counts want vs row pos few

-- Each pass comes 80 seconds or more behind the one before it.
abbrev pub Spaced : ℕ → List Visit → Type 0
Spaced since [] = Unit
Spaced since ((now, sent) ∷ later) = (since ≤ now) × Spaced (now + 80000) later

visits-advance :
    (want since : ℕ) (vs : List Visit) (row : ZoneNotify)
    → 0 < since
    → Spaced since vs
    → row.next_attempt_at ≤ since
    → 5 ≤ spent want row + length vs
    → 5 ≤ spent want (visits want vs row).0
unfolding visits
visits-advance want since [] row pos spaced ripe enough = omega (arith, enough)
visits-advance want since ((now, sent) ∷ later) row pos (late, spaced) ripe enough =
    let (moved, next) =
      maybe_send-advances want now sent row (omega (arith, pos, late))
        (omega (arith, ripe, late)) in
    visits-advance want (now + 80000) later (maybe_send false want now sent row).0 (omega arith)
      spaced next
      (elim moved [ inl done ↦ omega (arith, done) | inr more ↦ omega (arith, more, enough) ])

-- The round of a serial ends: behind five passes or more, each 80 seconds or more behind the one before
-- it and the first no earlier than the row allows, the target has acknowledged the serial or one not
-- older, or its round has had all its attempts. The writes of the passes do not fail.
pub visits_end :
    (want since : ℕ) (vs : List Visit) (row : ZoneNotify)
    → 0 < since
    → Spaced since vs
    → row.next_attempt_at ≤ since
    → 5 ≤ length vs
    → (told want (visits want vs row).0 ≡ true)
      ⊎ (((visits want vs row).0.pending_serial ≡ want)
          × (max_notify_attempts ≤ (visits want vs row).0.attempts))
visits_end want since vs row pos spaced ripe enough =
    ended (visits want vs row).0
      (visits-advance want since vs row pos spaced ripe (omega (arith, enough)))
  where
    ended :
        (row : ZoneNotify)
        → 5 ≤ spent want row
        → (told want row ≡ true)
          ⊎ ((row.pending_serial ≡ want) × (max_notify_attempts ≤ row.attempts))
    ended row h = grind arith
