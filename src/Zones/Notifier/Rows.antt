-- ===== src/Zones/Notifier/Rows.antt =====
-- What `Reconcile` of internal/store/notifies.go makes of the table.
use dnsaur.Prelude.{
  ℕ, ◌≡◌, refl, ap, subst, ◌∙◌, Bool, true, false, ◌&&◌, ◌||◌, not, List, [], ◌∷◌, ◌++◌, arith,
  Bool-cases, inl, inr, if◌then◌else◌, ◌==◌, ==_iff, keep, append-nil, All,
}
use dnsaur.Prelude.Bytes.{Bytes, bytes_eq, bytes_eq_refl}
use dnsaur.Zones.Notifier.{
  ZoneNotify, Queue, listed, of_zone, targets_of, delete_stale, insert_missing, reconcile,
  rows_match,
}
use dnsaur.Zones.Notifier.Matching.{Within, rows_match-Within}
use dnsaur.Zones.Notifier.Insertions.{
  keep-append, keep-keep, listed-append, targets_of-append, listed-keep, insert_missing-Adds,
}

of_zone-own :
    (zone : ℕ) (made : List ZoneNotify)
    → All (λ r. r.zone_id ≡ zone) made
    → of_zone zone made ≡ made
of_zone-own zone [] h = refl
of_zone-own zone (r ∷ made) (h, hs) =
    rw ((==_iff r.zone_id zone).1 h) (ap (λ l. r ∷ l) (of_zone-own zone made hs))

of_zone-other :
    (zone z : ℕ) (made : List ZoneNotify)
    → (zone == z) ≡ false
    → All (λ r. r.zone_id ≡ zone) made
    → of_zone z made ≡ []
of_zone-other zone z [] differ h = refl
of_zone-other zone z (r ∷ made) differ (h, hs) =
    rw (ap (λ i. i == z) h ∙ differ) (of_zone-other zone z made differ hs)

targets_of-keep :
    (targets : List Bytes) (rows : List ZoneNotify)
    → targets_of (keep (λ r. listed r.target targets) rows)
      ≡ keep (λ t. listed t targets) (targets_of rows)
targets_of-keep targets [] = refl
targets_of-keep targets (r ∷ rows) = elim (Bool-cases (listed r.target targets)) [
  | inl e ↦ rw e (ap (λ l. r.target ∷ l) (targets_of-keep targets rows))
  | inr e ↦ rw e (targets_of-keep targets rows)
]

stale-own :
    (zone : ℕ) (targets : List Bytes) (rows : List ZoneNotify)
    → of_zone zone (delete_stale zone targets rows)
      ≡ keep (λ r. listed r.target targets) (of_zone zone rows)
unfolding delete_stale
stale-own zone targets rows =
    keep-keep _ _ _ rows λ r. bools (r.zone_id == zone) (listed r.target targets)
  where
    bools : (a b : Bool) → (a && (not a || b)) ≡ (b && a)
    bools a b = ground arith

stale-other :
    (zone z : ℕ) (targets : List Bytes) (rows : List ZoneNotify)
    → (zone == z) ≡ false
    → of_zone z (delete_stale zone targets rows) ≡ of_zone z rows
unfolding delete_stale
stale-other zone z targets [] differ = refl
stale-other zone z targets (r ∷ rows) differ = elim (Bool-cases (r.zone_id == z)) [
  | inl here ↦
      let e : (r.zone_id == zone) ≡ false = ground (arith, here, differ) in
      rw (e, here) (ap (λ l. r ∷ l) (stale-other zone z targets rows differ))
  | inr there ↦ elim (Bool-cases (not (r.zone_id == zone) || listed r.target targets)) [
    | inl kept ↦ rw (kept, there) (stale-other zone z targets rows differ)
    | inr cut ↦ rw (cut, there) (stale-other zone z targets rows differ)
  ]
]

-- Behind `Reconcile` a zone has rows for exactly the targets: those that it had for targets of the list,
-- as they were, and behind them new ones; and every other zone has the rows that it had.
pub reconcile-rows :
    (zone now z : ℕ) (t : Bytes) (targets : List Bytes) (q : Queue)
    → (zone == z) ≡ false
    → (listed t (targets_of (of_zone zone (reconcile zone targets now q).rows)) ≡ listed t targets)
      × ((made : List ZoneNotify) × (of_zone zone (reconcile zone targets now q).rows
            ≡ keep (λ r. listed r.target targets) (of_zone zone q.rows) ++ made))
      × (of_zone z (reconcile zone targets now q).rows ≡ of_zone z q.rows)
unfolding reconcile
reconcile-rows zone now z t targets q differ =
    let (made, rows, own, same) =
      insert_missing-Adds zone now targets
        (keep (λ t. listed t targets) (targets_of (of_zone zone q.rows)))
        (record q { rows = delete_stale zone targets q.rows }) in
    let zoned : of_zone zone (reconcile zone targets now q).rows
        ≡ keep (λ r. listed r.target targets) (of_zone zone q.rows) ++ made =
      ap (of_zone zone) rows
      ∙ keep-append _ (delete_stale zone targets q.rows) made
      ∙ ap (λ l. l ++ of_zone zone made) (stale-own zone targets q.rows)
      ∙ ap (λ l. keep (λ r. listed r.target targets) (of_zone zone q.rows) ++ l)
          (of_zone-own zone made own) in
    (
      ap (λ l. listed t (targets_of l)) zoned
          ∙ ap (listed t)
              (targets_of-append (keep (λ r. listed r.target targets) (of_zone zone q.rows)) made)
          ∙ listed-append t (targets_of (keep (λ r. listed r.target targets) (of_zone zone q.rows)))
              (targets_of made)
          ∙ ap (λ l. listed t l || listed t (targets_of made))
              (targets_of-keep targets (of_zone zone q.rows))
          ∙ bools _ _ (listed t (targets_of (of_zone zone q.rows))) (listed t targets)
              (listed-keep t targets (targets_of (of_zone zone q.rows))) (same t),
      (made, zoned),
      ap (of_zone z) rows
          ∙ keep-append _ (delete_stale zone targets q.rows) made
          ∙ ap (λ l. l ++ of_zone z made) (stale-other zone z targets q.rows differ)
          ∙ ap (λ l. of_zone z q.rows ++ l) (of_zone-other zone z made differ own)
          ∙ append-nil _,
    )
  where
    bools : (h m x t : Bool) → h ≡ (t && x) → (m || h) ≡ (t || h) → (h || m) ≡ t
    bools h m x t e e' = ground (arith, e, e')

insert_nothing :
    (zone now : ℕ) (targets have : List Bytes) (q : Queue)
    → Within targets have
    → insert_missing zone now targets have q ≡ q
unfolding insert_missing
insert_nothing zone now [] have q within = refl
insert_nothing zone now (t ∷ targets) have q within =
    rw (insert_missing, within t (rw (bytes_eq_refl t) refl))
      (insert_nothing zone now targets have q (λ x h. within x (later (bytes_eq t x) h)))
  where
    later : (b : Bool) {c : Bool} → c ≡ true → (b || c) ≡ true
    later b h = ground arith

delete_nothing :
    (zone : ℕ) (targets : List Bytes) (rows : List ZoneNotify)
    → Within (targets_of (of_zone zone rows)) targets
    → delete_stale zone targets rows ≡ rows
unfolding delete_stale
delete_nothing zone targets [] within = refl
delete_nothing zone targets (r ∷ rows) within = elim (Bool-cases (r.zone_id == zone)) [
  | inl own ↦
      let all =
        subst
          (λ b.
            Within (targets_of (if b then r ∷ of_zone zone rows else of_zone zone rows)) targets)
          own within in
      rw (own, all r.target (rw (bytes_eq_refl r.target) refl))
        (ap (λ l. r ∷ l)
          (delete_nothing zone targets rows (λ t h. all t (later (bytes_eq r.target t) h))))
  | inr other ↦
      let all =
        subst
          (λ b.
            Within (targets_of (if b then r ∷ of_zone zone rows else of_zone zone rows)) targets)
          other within in
      rw other (ap (λ l. r ∷ l) (delete_nothing zone targets rows all))
]
  where
    later : (b : Bool) {c : Bool} → c ≡ true → (b || c) ≡ true
    later b h = ground arith

-- A pass may go without `Reconcile` where `rowsMatch` holds: it would change nothing.
pub reconcile-rows_match :
    (zone now : ℕ) (targets : List Bytes) (q : Queue)
    → rows_match (targets_of (of_zone zone q.rows)) targets ≡ true
    → reconcile zone targets now q ≡ q
unfolding reconcile
reconcile-rows_match zone now targets q h =
    let (down, up) = rows_match-Within (targets_of (of_zone zone q.rows)) targets h in
    insert_nothing zone now targets _ _ (λ t here. listed-keep t targets _ ∙ both here (up t here))
    ∙ ap (λ rows. record q { rows = rows }) (delete_nothing zone targets q.rows down)
  where
    both : {a b : Bool} → a ≡ true → b ≡ true → (a && b) ≡ true
    both h h' = ground arith
