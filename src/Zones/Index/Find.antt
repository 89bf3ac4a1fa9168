-- ===== src/Zones/Index/Find.antt =====
-- `Find` and `NewIndex` of internal/zones/zone.go, against the list of zones.
use dnsaur.Prelude.{
  ℕ, zero, suc, ◌+◌, ◌<◌, ◌≡◌, refl, ap, sym, subst, ◌∙◌, Option, none, some, List, [], ◌∷◌, ◌++◌,
  arith, length, drop, get_elem?, length-append, append_assoc, if◌then◌else◌, Bool-cases,
  Option-cases, inl, inr,
}
use dnsaur.Prelude.Bytes.{Bytes, bytes_eq, join_dots}
use dnsaur.Zones.{DnsLib, Zone, normalize_name}
use dnsaur.Zones.Index.{Index, index_at, index_zones, new_index, zone_at, find_zone, find}

-- The last zone of the list with this normalised name, `other` without one.
unfoldable pub last_named : Bytes → Option Zone → List Zone → Option Zone
last_named name other [] = other
last_named name other (z ∷ zs) =
    last_named name (if bytes_eq (normalize_name z.name) name then some z else other) zs

-- The enabled zone at a suffix of the labels.
unfoldable pub enabled_at : List Zone → List Bytes → Option Zone
enabled_at zs labels = elim (last_named (join_dots labels) none zs) [
  | none ↦ none
  | some z ↦ if z.enabled then some z else none
]

get_elem?-skip :
    (front : List Zone) (z : Zone) (zs : List Zone)
    → get_elem? (front ++ z ∷ zs) (length front) ≡ some z
get_elem?-skip [] z zs = refl
get_elem?-skip (y ∷ front) z zs = get_elem?-skip front z zs

zone_at-cons :
    (front zs : List Zone) (z : Zone) (m : List (Bytes × ℕ)) (idx : Index) (name : Bytes)
    → idx.zones ≡ front ++ z ∷ zs
    → zone_at idx (index_at ((normalize_name z.name, length front) ∷ m) name)
      ≡ (if bytes_eq (normalize_name z.name) name then some z else zone_at idx (index_at m name))
unfolding zone_at index_at
zone_at-cons front zs z m idx name e = elim (Bool-cases (bytes_eq (normalize_name z.name) name)) [
  | inl same ↦ rw (same, e) (get_elem?-skip front z zs)
  | inr other ↦ rw other
]

zone_at-index_zones :
    (front zs : List Zone) (m : List (Bytes × ℕ)) (idx : Index) (name : Bytes)
    → idx.zones ≡ front ++ zs
    → zone_at idx (index_at (index_zones (length front) zs m) name)
      ≡ last_named name (zone_at idx (index_at m name)) zs
unfolding index_zones last_named
zone_at-index_zones front [] m idx name e = refl
zone_at-index_zones front (z ∷ zs) m idx name e =
    let m' : List (Bytes × ℕ) = (normalize_name z.name, length front) ∷ m in
    let n : length (front ++ z ∷ []) ≡ length front + 1 = length-append front (z ∷ []) in
    let whole : idx.zones ≡ (front ++ z ∷ []) ++ zs = e ∙ sym (append_assoc front (z ∷ []) zs) in
    rw (← n, ← zone_at-cons front zs z m idx name e)
      (zone_at-index_zones (front ++ z ∷ []) zs m' idx name whole)

zone_at-new_index :
    (zs : List Zone) (name : Bytes)
    → zone_at (new_index zs) (index_at (new_index zs).by_apex name) ≡ last_named name none zs
unfolding new_index
zone_at-new_index zs name =
    zone_at-index_zones [] zs [] (new_index zs) name refl ∙ ap (λ o. last_named name o zs) nothing
  where
    nothing : zone_at (new_index zs) (index_at [] name) ≡ none
    nothing = unfold zone_at index_at in refl

-- The zone at the longest suffix of the labels that has an enabled one.
abbrev pub IsMostSpecific : List Zone → List Bytes → Option Zone → Type 0
IsMostSpecific zs labels none = (n : ℕ) → n < length labels → enabled_at zs (drop n labels) ≡ none
IsMostSpecific zs labels (some z) =
    (n : ℕ) × (n < length labels)
    × (enabled_at zs (drop n labels) ≡ some z)
    × ((k : ℕ) → k < n → enabled_at zs (drop k labels) ≡ none)

find_zone-step :
    (zs : List Zone) (l : Bytes) (labels : List Bytes)
    → find_zone (new_index zs) (l ∷ labels) ≡ (elim (enabled_at zs (l ∷ labels)) [
      | none ↦ find_zone (new_index zs) labels
      | some z ↦ some z
    ])
unfolding find_zone enabled_at
find_zone-step zs l labels = ground (arith, zone_at-new_index zs (join_dots (l ∷ labels)))

further :
    (zs : List Zone) (l : Bytes) (labels : List Bytes) (o : Option Zone)
    → enabled_at zs (l ∷ labels) ≡ none
    → IsMostSpecific zs labels o
    → IsMostSpecific zs (l ∷ labels) o
further zs l labels none none_here h = λ n. above n
  where
    above : (n : ℕ) → n < length (l ∷ labels) → enabled_at zs (drop n (l ∷ labels)) ≡ none
    above zero lt = none_here
    above (suc n) lt = h n (omega arith)
further zs l labels (some z) none_here (n, lt, at, before) = (suc n, omega arith, at, longer)
  where
    longer : (k : ℕ) → k < suc n → enabled_at zs (drop k (l ∷ labels)) ≡ none
    longer zero lt' = none_here
    longer (suc k) lt' = before k (omega arith)

find_zone-IsMostSpecific :
    (zs : List Zone) (labels : List Bytes)
    → IsMostSpecific zs labels (find_zone (new_index zs) labels)
find_zone-IsMostSpecific zs [] = unfold find_zone in (λ n lt. absurd (omega arith))
find_zone-IsMostSpecific zs (l ∷ labels) = elim (Option-cases (enabled_at zs (l ∷ labels))) [
  | inl nothing ↦
      let e : find_zone (new_index zs) (l ∷ labels) ≡ find_zone (new_index zs) labels =
        find_zone-step zs l labels ∙ ground (arith, nothing) in
      subst (IsMostSpecific zs (l ∷ labels)) (sym e) (
        further zs l labels (find_zone (new_index zs) labels) nothing
          (find_zone-IsMostSpecific zs labels))
  | inr (z, found) ↦
      let e : find_zone (new_index zs) (l ∷ labels) ≡ some z =
        find_zone-step zs l labels ∙ ground (arith, found) in
      subst (IsMostSpecific zs (l ∷ labels)) (sym e)
        (0, omega arith, found, λ k lt. absurd (omega arith))
]

-- Of the zones that an index was built from, `Find` returns the one at the longest suffix of the
-- name's labels at which an enabled zone stands, the later of two zones of one name counting; and
-- none exactly if no suffix has one.
pub find-IsMostSpecific :
    (lib : DnsLib) (zs : List Zone) (qname : Bytes)
    → IsMostSpecific zs
        (lib.split_domain_name (normalize_name qname))
        (find lib (new_index zs) qname)
unfolding find
find-IsMostSpecific lib zs qname = find_zone-IsMostSpecific zs _
