-- ===== src/Zones/Index.antt =====
-- `Index` of internal/zones/zone.go: which zone is authoritative for a name.
pub mod Find
use dnsaur.Prelude.{
  ℕ, suc, ◌+◌, Bool, true, false, Option, none, some, List, [], ◌∷◌, get_elem?, if◌then◌else◌,
}
use dnsaur.Prelude.Bytes.{Bytes, bytes_eq, join_dots}
use dnsaur.Zones.{DnsLib, Zone, normalize_name}

-- `Index`; `byApex` with the last write in front.
pub record Index : Type 0 where
  pub zones : List Zone
  pub by_apex : List (Bytes × ℕ)

unfoldable pub index_at : List (Bytes × ℕ) → Bytes → Option ℕ
index_at [] name = none
index_at ((k, i) ∷ m) name = if bytes_eq k name then some i else index_at m name

-- The loop of `NewIndex`, from position `i` on.
unfoldable pub index_zones : ℕ → List Zone → List (Bytes × ℕ) → List (Bytes × ℕ)
index_zones i [] m = m
index_zones i (z ∷ zs) m = index_zones (i + 1) zs ((normalize_name z.name, i) ∷ m)

-- `NewIndex`.
unfoldable pub new_index : List Zone → Index
new_index zs = record { zones = zs; by_apex = index_zones 0 zs [] }

-- `&idx.zones[i]` for what the map holds of the name.
unfoldable pub zone_at : Index → Option ℕ → Option Zone
zone_at idx none = none
zone_at idx (some i) = get_elem? idx.zones i

-- `Index.Apex`.
unfoldable pub apex : Index → Bytes → Option Zone
apex idx name = zone_at idx (index_at idx.by_apex (normalize_name name))

-- The loop of `Index.Find` over the labels.
unfoldable pub find_zone : Index → List Bytes → Option Zone
find_zone idx [] = none
find_zone idx (l ∷ labels) =
    let shorter = find_zone idx labels in
    elim (zone_at idx (index_at idx.by_apex (join_dots (l ∷ labels)))) [
      | none ↦ shorter
      | some z ↦ if z.enabled then some z else shorter
    ]

-- `Index.Find`.
unfoldable pub find : DnsLib → Index → Bytes → Option Zone
find lib idx qname = find_zone idx (lib.split_domain_name (normalize_name qname))
