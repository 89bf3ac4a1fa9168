-- ===== src/Zones/Notifier.antt =====
-- The queue of NOTIFY messages: the rows of internal/store/notifies.go, and what one pass of
-- internal/zones/notifier.go does with a row. Instants are milliseconds.
pub mod Rounds
pub mod Matching
pub mod Insertions
pub mod Rows
use dnsaur.Prelude.{
  ℕ, suc, ◌+◌, ◌*◌, ◌^◌, Bool, true, false, ◌&&◌, ◌||◌, not, Option, none, some, List, [], ◌∷◌,
  ◌++◌, if◌then◌else◌, ltb, leb, ◌==◌, any, keep, length, map,
}
use dnsaur.Prelude.Bytes.{Bytes, bytes_eq}
use dnsaur.Zones.Serial.{serial_newer}

-- `store.ZoneNotify`.
pub record ZoneNotify : Type 0 where
  pub id : ℕ
  pub zone_id : ℕ
  pub target : Bytes
  pub pending_serial : ℕ
  pub notified_serial : ℕ
  pub notified_at : ℕ
  pub attempts : ℕ
  pub next_attempt_at : ℕ
  pub last_error : Bytes
  pub created_at : ℕ

abbrev pub max_notify_attempts : ℕ
max_notify_attempts = 5

abbrev pub notify_base_backoff : ℕ
notify_base_backoff = 5000

-- `backoffFor`.
unfoldable pub backoff_for : ℕ → ℕ
backoff_for attempts = notify_base_backoff * 2 ^ attempts

-- `notifyStore.NoteDelivered`, on the row of its id.
unfoldable pub note_delivered : ℕ → ℕ → ZoneNotify → ZoneNotify
note_delivered serial at row = record row {
  pending_serial = serial;
  notified_serial = serial;
  notified_at = at;
  attempts = 0;
  next_attempt_at = 0;
  last_error = [];
}

-- `notifyStore.NoteAttempt`, on the row of its id.
unfoldable pub note_attempt : ℕ → ℕ → ℕ → Bytes → ZoneNotify → ZoneNotify
note_attempt pending_serial attempts next_attempt_at text row = record row {
  pending_serial = pending_serial;
  attempts = attempts;
  next_attempt_at = next_attempt_at;
  last_error = text;
}

-- How the lookup of the key and the send end: without an error, with one of ErrNotifyDelivered and
-- ErrNotifyUnreachable, or with another.
pub data Sent : Type 0 where
  landed : Sent
  over : Bytes → Sent
  failed : Bytes → Sent

-- The guards of `maybeSend`: the attempts that the round has had, or `none` where it does not send.
unfoldable pub due : ℕ → ZoneNotify → ℕ → Option ℕ
due want row now =
    if not (row.notified_at == 0) && not (serial_newer want row.notified_serial)
    then none
    else let attempts = if row.pending_serial == want then row.attempts else 0 in
      if leb max_notify_attempts attempts
      then none
      else if ltb now row.next_attempt_at
      then none
      else some attempts

-- What `maybeSend` writes for an attempt.
unfoldable pub record_sent : ℕ → ℕ → ℕ → Sent → ZoneNotify → ZoneNotify
record_sent want attempts now landed row = note_delivered want now row
record_sent want attempts now (over text) row = note_attempt want max_notify_attempts 0 text row
record_sent want attempts now (failed text) row =
    note_attempt want (attempts + 1) (now + backoff_for attempts) text row

-- `maybeSend`: the row behind it, and whether it sends. A write that fails leaves the row.
unfoldable pub maybe_send : Bool → ℕ → ℕ → Sent → ZoneNotify → ZoneNotify × Bool
maybe_send write_fails want now sent row = elim (due want row now) [
  | none ↦ (row, false)
  | some attempts ↦ ((if write_fails then row else record_sent want attempts now sent row), true)
]

-- The `zone_notifies` table, with the id that its next row gets.
pub record Queue : Type 0 where
  pub rows : List ZoneNotify
  pub next_id : ℕ

abbrev pub listed : Bytes → List Bytes → Bool
listed t targets = any (λ u. bytes_eq u t) targets

abbrev pub of_zone : ℕ → List ZoneNotify → List ZoneNotify
of_zone zone rows = keep (λ r. r.zone_id == zone) rows

abbrev pub targets_of : List ZoneNotify → List Bytes
targets_of rows = map (λ r. r.target) rows

-- The deletions of `Reconcile`.
unfoldable pub delete_stale : ℕ → List Bytes → List ZoneNotify → List ZoneNotify
delete_stale zone targets rows = keep (λ r. not (r.zone_id == zone) || listed r.target targets) rows

-- Its insertions: `have` is what is in the table by now.
unfoldable pub insert_missing : ℕ → ℕ → List Bytes → List Bytes → Queue → Queue
insert_missing zone now [] have q = q
insert_missing zone now (t ∷ targets) have q =
    if listed t have
    then insert_missing zone now targets have q
    else insert_missing zone now targets (t ∷ have) (record {
      rows =
          q.rows
          ++ (record {
            id = q.next_id;
            zone_id = zone;
            target = t;
            pending_serial = 0;
            notified_serial = 0;
            notified_at = 0;
            attempts = 0;
            next_attempt_at = 0;
            last_error = [];
            created_at = now;
          })
            ∷ [];
      next_id = q.next_id + 1;
    })

-- `notifyStore.Reconcile`, one transaction.
unfoldable pub reconcile : ℕ → List Bytes → ℕ → Queue → Queue
reconcile zone targets now q =
    insert_missing zone now targets
      (keep (λ t. listed t targets) (targets_of (of_zone zone q.rows)))
      (record q { rows = delete_stale zone targets q.rows })

-- The loop of `rowsMatch`, and its end.
unfoldable pub match_loop : List Bytes → List Bytes → List Bytes → Bool
match_loop have [] want = length want == length have
match_loop have (t ∷ targets) want =
    if listed t want
    then match_loop have targets want
    else if not (listed t have)
    then false
    else match_loop have targets (t ∷ want)

-- `rowsMatch`, on the addresses of a zone's rows and of its targets.
unfoldable pub rows_match : List Bytes → List Bytes → Bool
rows_match have targets = match_loop have targets []
