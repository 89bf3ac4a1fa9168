-- ===== src/Tests/NotifierTests.antt =====
-- The queue of NOTIFY messages at concrete inputs.
use dnsaur.Prelude.{ℕ, ◌+◌, ◌≤◌, ◌≡◌, ◌⊎◌, refl, arith, true, List, [], ◌∷◌, ◌++◌, keep}
use Prim.Native.String.{String}
use dnsaur.Prelude.Bytes.{Bytes, codes, bytes_eq}
use dnsaur.Zones.Notifier.{
  ZoneNotify, Queue, failed, max_notify_attempts, listed, of_zone, targets_of, reconcile,
  rows_match, match_loop,
}
use dnsaur.Zones.Notifier.Rounds.{Visit, visits, spent, told, visits_bounded, visits_end}
use dnsaur.Zones.Notifier.Rows.{reconcile-rows, reconcile-rows_match}

abbrev row_of : ℕ → ℕ → String → ZoneNotify
row_of id zone target = record {
  id = id;
  zone_id = zone;
  target = codes target;
  pending_serial = 6;
  notified_serial = 6;
  notified_at = 1000;
  attempts = 0;
  next_attempt_at = 0;
  last_error = [];
  created_at = 5;
}

abbrev queue : Queue
queue = record {
  rows = row_of 1 1 "ns1:53" ∷ row_of 2 2 "ns9:53" ∷ row_of 3 1 "ns2:53" ∷ [];
  next_id = 4;
}

abbrev silent : ℕ → Visit
silent now = (now, failed (codes "timeout"))

-- Six passes with a target that never answers: the sixth has nothing to send.
abbrev outage : List Visit
outage =
    silent 100000
    ∷ silent 200000
    ∷ silent 300000
    ∷ silent 400000
    ∷ silent 500000
    ∷ silent 600000
    ∷ []

visits_bounded_example :
    (visits 7 outage (row_of 1 1 "ns1:53")).1 + spent 7 (row_of 1 1 "ns1:53") ≤ max_notify_attempts
visits_bounded_example =
    visits_bounded 7 outage (row_of 1 1 "ns1:53")
      (omega arith, (omega arith, (omega arith, (omega arith, (omega arith, (omega arith, tt))))))
      (omega arith)

visits_end_example :
    (told 7 (visits 7 outage (row_of 1 1 "ns1:53")).0 ≡ true)
    ⊎ (((visits 7 outage (row_of 1 1 "ns1:53")).0.pending_serial ≡ 7)
        × (max_notify_attempts ≤ (visits 7 outage (row_of 1 1 "ns1:53")).0.attempts))
visits_end_example =
    visits_end 7 100000 outage (row_of 1 1 "ns1:53") (omega arith)
      (omega arith, (omega arith, (omega arith, (omega arith, (omega arith, (omega arith, tt))))))
      (omega arith) (omega arith)

abbrev wanted : List Bytes
wanted = codes "ns2:53" ∷ codes "ns3:53" ∷ codes "ns2:53" ∷ []

reconcile-rows_example :
    (listed (codes "ns3:53") (targets_of (of_zone 1 (reconcile 1 wanted 9 queue).rows))
      ≡ listed (codes "ns3:53") wanted)
    × ((made : List ZoneNotify) × (of_zone 1 (reconcile 1 wanted 9 queue).rows
          ≡ keep (λ r. listed r.target wanted) (of_zone 1 queue.rows) ++ made))
    × (of_zone 2 (reconcile 1 wanted 9 queue).rows ≡ of_zone 2 queue.rows)
reconcile-rows_example = reconcile-rows 1 9 2 (codes "ns3:53") wanted queue refl

abbrev present : List Bytes
present = codes "ns2:53" ∷ codes "ns1:53" ∷ codes "ns2:53" ∷ []

reconcile-rows_match_example : reconcile 1 present 9 queue ≡ queue
unfolding rows_match match_loop bytes_eq
reconcile-rows_match_example = reconcile-rows_match 1 9 present queue refl
