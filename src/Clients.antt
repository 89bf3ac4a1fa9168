-- ===== src/Clients.antt =====
-- The client registry, internal/clients/registry.go, with `CanonicalMAC` of internal/store/dhcp.go:
-- whose query it is. Packages netip and net and the sort of slices are parameters, and so are the
-- reads of the store, `none` standing for an error. The warnings that are logged are left out.
pub mod Nearest
use dnsaur.Prelude.{
  ℕ, ◌-◌, Bool, true, false, Option, none, some, List, [], ◌∷◌, ◌++◌, length, if◌then◌else◌, ltb,
  not, ◌==◌,
}
use dnsaur.Prelude.Bytes.{Bytes, codes, cut_prefix}
use dnsaur.Prelude.Text.{trim_space}
use dnsaur.Dns.{ClientInfo, Request, Middleware}

-- What the registry takes from package netip; `addr_eq` is the equality that a map keyed on addresses
-- uses. `parse_mac` is `net.ParseMAC` and `mac_string` its result's `String`.
pub record Netip (Addr : Type 0) (Prefix : Type 0) : Type 0 where
  pub addr_eq : Addr → Addr → Bool
  pub unmap : Addr → Addr
  pub has_zone : Addr → Bool
  pub is_4in6 : Addr → Bool
  pub addr_string : Addr → Bytes
  pub parse_addr : Bytes → Option Addr
  pub prefix_addr : Prefix → Addr
  pub prefix_bits : Prefix → ℕ
  pub prefix_from : Addr → ℕ → Prefix
  pub masked : Prefix → Prefix
  pub contains : Prefix → Addr → Bool
  pub prefix_string : Prefix → Bytes
  pub parse_prefix : Bytes → Option Prefix
  pub parse_mac : Bytes → Option (List ℕ)
  pub mac_string : List ℕ → Bytes

abbrev pub mac_prefix : Bytes
mac_prefix = codes "mac:"

-- `client`.
pub record Row : Type 0 where
  pub matcher : Bytes
  pub info : ClientInfo

-- `cidrEntry`.
pub record CidrEntry (Prefix : Type 0) : Type 0 where
  pub prefix : Prefix
  pub info : ClientInfo

-- `snapshot`; `exact` with the last write in front.
pub record Snapshot (Addr : Type 0) (Prefix : Type 0) : Type 0 where
  pub exact : List (Addr × ClientInfo)
  pub cidrs : List (CidrEntry Prefix)

-- `LeaseLookup`.
abbrev pub LeaseLookup : Type 0 → Type 0
LeaseLookup Addr = Bytes → Option Addr

-- `Registry`; `leases` is `none` for the nil function.
pub record Registry (Addr : Type 0) (Prefix : Type 0) : Type 0 where
  pub snap : Snapshot Addr Prefix
  pub rows : List Row
  pub leases : Option (LeaseLookup Addr)

abbrev pub default_client : ClientInfo
default_client = record { id = 0; name = []; group_id = 1; group_name = codes "default" }

-- The rows of `store.Group` and `store.Client` that `Reload` reads.
pub record Group : Type 0 where
  pub id : ℕ
  pub name : Bytes

pub record StoredClient : Type 0 where
  pub id : ℕ
  pub name : Bytes
  pub matcher : Bytes
  pub group_id : ℕ

-- `gname[id]`: the name of the last group with the id, and the empty name without one.
unfoldable pub group_name_of : Bytes → List Group → ℕ → Bytes
group_name_of found [] id = found
group_name_of found (g ∷ groups) id = group_name_of (if g.id == id then g.name else found) groups id

unfoldable pub rows_from : List Group → List StoredClient → List Row
rows_from groups [] = []
rows_from groups (c ∷ cls) =
    (record {
      matcher = c.matcher;
      info = record {
        id = c.id;
        name = c.name;
        group_id = c.group_id;
        group_name = group_name_of [] groups c.group_id;
      };
    })
    ∷ rows_from groups cls

module _ {Addr : Type 0} {Prefix : Type 0} (net : Netip Addr Prefix) where
  -- `CanonicalMAC`.
  unfoldable pub canonical_mac : Bytes → Option Bytes
  canonical_mac s = elim (net.parse_mac (trim_space s)) [
    | none ↦ none
    | some hw ↦ if not (length hw == 6) then none else some (net.mac_string hw)
  ]

  -- The end of `NormalizeMatcher`, for a prefix.
  unfoldable pub normal_prefix : Prefix → Option Bytes
  normal_prefix p =
      let addr = net.prefix_addr p in
      let bits = net.prefix_bits p in
      if net.is_4in6 addr
      then if ltb bits 96
        then none
        else some (net.prefix_string (net.masked (net.prefix_from (net.unmap addr) (bits - 96))))
      else some (net.prefix_string (net.masked (net.prefix_from addr bits)))

  -- `NormalizeMatcher`; `none` for the false that it returns.
  unfoldable pub normalize_matcher : Bytes → Option Bytes
  unfolding canonical_mac normal_prefix
  normalize_matcher m = elim (cut_prefix m mac_prefix) [
    | some mac ↦ elim (canonical_mac mac) [ none ↦ none | some c ↦ some (mac_prefix ++ c) ]
    | none ↦ elim (net.parse_addr m) [
      | some ip ↦ if net.has_zone ip then none else some (net.addr_string (net.unmap ip))
      | none ↦ elim (net.parse_prefix m) [ none ↦ none | some p ↦ normal_prefix p ]
    ]
  ]

  -- What a row's matcher stands for when the snapshot is built.
  pub data Target : Type 0 where
    nothing : Target
    address : Addr → Target
    network : Prefix → Target

  -- `r.leases(mac)`, where there is a lease table.
  leased : Option (LeaseLookup Addr) → Bytes → Target
  leased none mac = nothing
  leased (some f) mac = elim (f mac) [ none ↦ nothing | some ip ↦ address (net.unmap ip) ]

  target_of : Option (LeaseLookup Addr) → Bytes → Target
  unfolding leased
  target_of leases m = elim (cut_prefix m mac_prefix) [
    | some mac ↦ leased leases mac
    | none ↦ elim (net.parse_addr m) [
      | some ip ↦ address ip
      | none ↦ elim (net.parse_prefix m) [ none ↦ nothing | some p ↦ network p ]
    ]
  ]

  -- The body of the loop of `rebuild`, up to what it adds.
  unfoldable pub target : Option (LeaseLookup Addr) → Row → Target
  unfolding target_of
  target leases c = elim (normalize_matcher c.matcher) [
    | none ↦ nothing
    | some m ↦ target_of leases m
  ]

  unfoldable pub add_target : Snapshot Addr Prefix → ClientInfo → Target → Snapshot Addr Prefix
  add_target s info nothing = s
  add_target s info (address ip) = record s { exact = (ip, info) ∷ s.exact }
  add_target s info (network p) = record s {
    cidrs = s.cidrs ++ (record { prefix = p; info = info }) ∷ [];
  }

  -- The loop of `rebuild`.
  unfoldable pub add_rows :
      Option (LeaseLookup Addr) → Snapshot Addr Prefix → List Row → Snapshot Addr Prefix
  unfolding add_target
  add_rows leases s [] = s
  add_rows leases s (c ∷ rows) = add_rows leases (add_target s c.info (target leases c)) rows

  -- The comparison that the sort is given, as what comes strictly before what.
  unfoldable pub longer : CidrEntry Prefix → CidrEntry Prefix → Bool
  longer a b = ltb (net.prefix_bits b.prefix) (net.prefix_bits a.prefix)

  -- `s.exact[ip]`.
  unfoldable pub find_exact : Addr → List (Addr × ClientInfo) → Option ClientInfo
  find_exact ip [] = none
  find_exact ip ((j, info) ∷ m) = if net.addr_eq j ip then some info else find_exact ip m

  -- The loop of `Lookup` over the prefixes.
  unfoldable pub first_cidr : Addr → List (CidrEntry Prefix) → Option ClientInfo
  first_cidr ip [] = none
  first_cidr ip (e ∷ es) = if net.contains e.prefix ip then some e.info else first_cidr ip es

  -- `Lookup`.
  unfoldable pub lookup : Registry Addr Prefix → Addr → ClientInfo
  lookup r addr =
      let ip = net.unmap addr in
      elim (find_exact ip r.snap.exact) [
        | some info ↦ info
        | none ↦ elim (first_cidr ip r.snap.cidrs) [ some info ↦ info | none ↦ default_client ]
      ]

  -- `NewRegistry`.
  unfoldable pub new_registry : Registry Addr Prefix
  new_registry = record { snap = record { exact = []; cidrs = [] }; rows = []; leases = none }

  -- `Middleware`.
  unfoldable pub middleware : Registry Addr Prefix → Middleware Addr
  middleware r next req = next (record req { client = lookup r req.client_ip })

  -- `slices.SortFunc`, on what comes strictly before what.
  abbrev pub SortFunc : Type 0
  SortFunc =
      (CidrEntry Prefix → CidrEntry Prefix → Bool)
      → List (CidrEntry Prefix)
      → List (CidrEntry Prefix)

  module _ (sort_func : SortFunc) where
    -- `rebuild`.
    unfoldable pub rebuild : Registry Addr Prefix → Registry Addr Prefix
    rebuild r =
        let s = add_rows r.leases (record { exact = []; cidrs = [] }) r.rows in
        record r { snap = record { exact = s.exact; cidrs = sort_func longer s.cidrs } }

    -- `SetLeaseLookup`.
    unfoldable pub set_lease_lookup :
        Option (LeaseLookup Addr) → Registry Addr Prefix → Registry Addr Prefix
    unfolding rebuild
    set_lease_lookup fn r = rebuild (record r { leases = fn })

    -- `Reload`: the registry behind it, and whether it succeeded.
    unfoldable pub reload :
        Option (List Group)
        → Option (List StoredClient)
        → Registry Addr Prefix
        → Registry Addr Prefix × Bool
    unfolding rebuild
    reload none cls r = (r, false)
    reload (some groups) none r = (r, false)
    reload (some groups) (some cls) r = (rebuild (record r { rows = rows_from groups cls }), true)
