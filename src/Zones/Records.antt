-- ===== src/Zones/Records.antt =====
-- What `NewZone` of internal/zones/zone.go puts under each name.
use dnsaur.Prelude.{
  ◌≡◌, refl, sym, ap, ◌∙◌, Bool, true, false, ◌&&◌, not, List, [], ◌∷◌, ◌++◌, arith, if◌then◌else◌,
  keep, Bool-cases, inl, inr, append_assoc, append-nil,
}
use dnsaur.Prelude.Bytes.{Bytes, bytes_eq, bytes_eq_iff}
use dnsaur.Zones.{
  ZoneRecord, Records, StoredZone, normalize_name, records_at, append_record, add_records, new_zone,
  rrs,
}

abbrev pub serves : Bytes → ZoneRecord → Bool
serves key r = r.enabled && bytes_eq (normalize_name r.name) key

abbrev one_if : Bool → ZoneRecord → List ZoneRecord
one_if b r = if b then r ∷ [] else []

records_at-append_record :
    (m : Records) (k key : Bytes) (r : ZoneRecord)
    → records_at (append_record m k r) key ≡ records_at m key ++ one_if (bytes_eq k key) r
unfolding records_at append_record
records_at-append_record [] k key r = ground arith
records_at-append_record ((j, rs) ∷ m) k key r = elim (Bool-cases (bytes_eq j k)) [
  | inl same ↦
      let kj : bytes_eq k key ≡ bytes_eq j key =
        ap (λ x. bytes_eq x key) (sym ((bytes_eq_iff j k).0 same)) in
      elim (Bool-cases (bytes_eq j key)) [
        | inl here ↦ rw (same, kj, here) refl
        | inr gone ↦ rw (same, kj, gone) (sym (append-nil (records_at m key)))
      ]
  | inr other ↦ elim (Bool-cases (bytes_eq j key)) [
    | inl here ↦
        let kj : bytes_eq k key ≡ false =
          ground
            (arith, (bytes_eq_iff j key).0 here, bytes_eq_iff k key, bytes_eq_iff j k, other) in
        rw (other, here, kj) (sym (append-nil rs))
    | inr gone ↦ rw (other, gone) (records_at-append_record m k key r)
  ]
]

one_if-append :
    (b : Bool) (r : ZoneRecord) (rest : List ZoneRecord)
    → one_if b r ++ rest ≡ (if b then r ∷ rest else rest)
one_if-append true r rest = refl
one_if-append false r rest = refl

-- One round of the loop, by whether the record is enabled.
records_at-round :
    (b : Bool) (out : Records) (r : ZoneRecord) (recs : List ZoneRecord) (key : Bytes)
    → ((o : Records)
        → records_at (add_records o recs) key ≡ records_at o key ++ keep (serves key) recs)
    → records_at
        (add_records (if not b then out else append_record out (normalize_name r.name) r) recs)
        key
      ≡ records_at out key
        ++ (if b && bytes_eq (normalize_name r.name) key
            then r ∷ keep (serves key) recs
            else keep (serves key) recs)
records_at-round true out r recs key ih =
    let name = normalize_name r.name in
    ih (append_record out name r)
    ∙ ap (λ x. x ++ keep (serves key) recs) (records_at-append_record out name key r)
    ∙ append_assoc (records_at out key) (one_if (bytes_eq name key) r) (keep (serves key) recs)
    ∙ ap (λ x. records_at out key ++ x)
        (one_if-append (bytes_eq name key) r (keep (serves key) recs))
records_at-round false out r recs key ih = ih out

records_at-add_records :
    (out : Records) (recs : List ZoneRecord) (key : Bytes)
    → records_at (add_records out recs) key ≡ records_at out key ++ keep (serves key) recs
unfolding add_records
records_at-add_records out [] key = sym (append-nil (records_at out key))
records_at-add_records out (r ∷ recs) key =
    records_at-round r.enabled out r recs key (λ o. records_at-add_records o recs key)

-- Under each name a zone serves exactly the enabled records that the store has under it, in whatever
-- case and with or without a trailing dot, and in the store's order.
pub rrs-new_zone :
    (z : StoredZone) (recs : List ZoneRecord) (rel : Bytes)
    → rrs (new_zone z recs) rel ≡ keep (serves (normalize_name rel)) recs
unfolding rrs new_zone records_at
rrs-new_zone z recs rel = records_at-add_records [] recs (normalize_name rel)
