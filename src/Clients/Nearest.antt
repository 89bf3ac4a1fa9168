-- ===== src/Clients/Nearest.antt =====
-- Which client an address belongs to, in internal/clients/registry.go.
use dnsaur.Prelude.{
  ◌≤◌, ◌≡◌, ◌↔◌, refl, sym, ap, subst, ◌∙◌, ◌⊎◌, inl, inr, true, false, Option, none, some, List,
  [], ◌∷◌, ◌++◌, arith, if◌then◌else◌, Bool-cases, append_assoc, append-nil,
}
use dnsaur.Dns.{ClientInfo}
use dnsaur.Clients.{
  Netip, Row, CidrEntry, Snapshot, LeaseLookup, Registry, default_client, Group, StoredClient,
  rows_from, Target, nothing, address, network, target, add_target, add_rows, longer, find_exact,
  first_cidr, lookup, SortFunc, rebuild, reload, set_lease_lookup,
}

abbrev pub Among : {A : Type 0} → A → List A → Type 0
Among x [] = ⊥
Among x (y ∷ ys) = (x ≡ y) ⊎ Among x ys

module _ {Addr : Type 0} {Prefix : Type 0} (net : Netip Addr Prefix) where
  abbrev claim : Addr → Option ClientInfo → ClientInfo → Target net → Option ClientInfo
  claim ip found info nothing = found
  claim ip found info (address j) = if net.addr_eq j ip then some info else found
  claim ip found info (network p) = found

  -- What the last row for exactly this address says, if one is.
  unfoldable pub last_claim :
      Option (LeaseLookup Addr) → Addr → Option ClientInfo → List Row → Option ClientInfo
  last_claim leases ip found [] = found
  last_claim leases ip found (c ∷ rows) =
      last_claim leases ip (claim ip found c.info (target net leases c)) rows

  abbrev network_of : ClientInfo → Target net → List (CidrEntry Prefix)
  network_of info nothing = []
  network_of info (address j) = []
  network_of info (network p) = (record { prefix = p; info = info }) ∷ []

  -- The prefixes of the rows, in their order.
  unfoldable pub networks : Option (LeaseLookup Addr) → List Row → List (CidrEntry Prefix)
  networks leases [] = []
  networks leases (c ∷ rows) = network_of c.info (target net leases c) ++ networks leases rows

  -- The entry holds the address, and none that does is longer.
  abbrev pub Closest : Addr → List (CidrEntry Prefix) → CidrEntry Prefix → Type 0
  Closest ip es e =
      Among e es
      × (net.contains e.prefix ip ≡ true)
      × ((e' : CidrEntry Prefix)
          → Among e' es
          → net.contains e'.prefix ip ≡ true
          → net.prefix_bits e'.prefix ≤ net.prefix_bits e.prefix)

  abbrev pub IsNearest : Addr → List (CidrEntry Prefix) → Option ClientInfo → Type 0
  IsNearest ip es none = (e : CidrEntry Prefix) → Among e es → net.contains e.prefix ip ≡ false
  IsNearest ip es (some info) = (e : CidrEntry Prefix) × Closest ip es e × (e.info ≡ info)

  -- The client of an address: the last row for exactly that, else one of the longest prefix that holds
  -- it, else the default.
  abbrev pub IsClient : Option (LeaseLookup Addr) → List Row → Addr → ClientInfo → Type 0
  IsClient leases rows ip info =
      (last_claim leases ip none rows ≡ some info)
      ⊎ ((last_claim leases ip none rows ≡ none)
          × (IsNearest ip (networks leases rows) (some info)
              ⊎ (IsNearest ip (networks leases rows) none × (info ≡ default_client))))

  -- No entry stands behind one that it is longer than.
  abbrev pub InOrder : List (CidrEntry Prefix) → Type 0
  InOrder [] = Unit
  InOrder (e ∷ es) = ((e' : CidrEntry Prefix) → Among e' es → longer net e' e ≡ false) × InOrder es

  -- What slices documents of `SortFunc`: the same elements, in order.
  pub record Sorts (sort_func : SortFunc net) : Type 0 where
    pub same :
        (es : List (CidrEntry Prefix)) (e : CidrEntry Prefix)
        → Among e (sort_func (longer net) es) ↔ Among e es
    pub ordered : (es : List (CidrEntry Prefix)) → InOrder (sort_func (longer net) es)

  first_longest :
      (e e' : CidrEntry Prefix) (es : List (CidrEntry Prefix))
      → ((d : CidrEntry Prefix) → Among d es → longer net d e ≡ false)
      → Among e' (e ∷ es)
      → net.prefix_bits e'.prefix ≤ net.prefix_bits e.prefix
  unfolding longer
  first_longest e e' es before (inl same) = rw same (omega arith)
  first_longest e e' es before (inr later) = ground (arith, before e' later)

  IsNearest-cons :
      (ip : Addr) (e : CidrEntry Prefix) (es : List (CidrEntry Prefix)) (r : Option ClientInfo)
      → net.contains e.prefix ip ≡ false
      → IsNearest ip es r
      → IsNearest ip (e ∷ es) r
  IsNearest-cons ip e es none gone n =
      λ d h. elim h [ inl same ↦ rw same gone | inr later ↦ n d later ]
  IsNearest-cons ip e es (some info) gone (d, (among, holds, longest), eq) =
      (d, (inr among, holds, λ d' h c. further d' h c), eq)
    where
      further :
          (d' : CidrEntry Prefix)
          → Among d' (e ∷ es)
          → net.contains d'.prefix ip ≡ true
          → net.prefix_bits d'.prefix ≤ net.prefix_bits d.prefix
      further d' (inl same) c = absurd (cc)
      further d' (inr later) c = longest d' later c

  first_cidr-IsNearest :
      (ip : Addr) (es : List (CidrEntry Prefix))
      → InOrder es
      → IsNearest ip es (first_cidr net ip es)
  unfolding first_cidr
  first_cidr-IsNearest ip [] o = λ e h. absurd h
  first_cidr-IsNearest ip (e ∷ es) o = elim (Bool-cases (net.contains e.prefix ip)) [
    | inl here ↦ rw here (e, (inl refl, here, λ e' h c. first_longest e e' es o.0 h), refl)
    | inr gone ↦ rw gone (IsNearest-cons ip e es _ gone (first_cidr-IsNearest ip es o.1))
  ]

  -- The same elements have the same nearest ones.
  IsNearest-same :
      (ip : Addr) (xs ys : List (CidrEntry Prefix)) (r : Option ClientInfo)
      → ((e : CidrEntry Prefix) → Among e xs ↔ Among e ys)
      → IsNearest ip xs r
      → IsNearest ip ys r
  IsNearest-same ip xs ys none same n = λ e h. n e ((same e).1 h)
  IsNearest-same ip xs ys (some info) same (e, (among, holds, longest), eq) =
      (e, ((same e).0 among, holds, λ d h c. longest d ((same d).1 h) c), eq)

  cidrs-add_target :
      (s : Snapshot Addr Prefix) (info : ClientInfo) (t : Target net)
      → (add_target net s info t).cidrs ≡ s.cidrs ++ network_of info t
  unfolding add_target
  cidrs-add_target s info nothing = sym (append-nil s.cidrs)
  cidrs-add_target s info (address j) = sym (append-nil s.cidrs)
  cidrs-add_target s info (network p) = refl

  find_exact-add_target :
      (ip : Addr) (s : Snapshot Addr Prefix) (info : ClientInfo) (t : Target net)
      → find_exact net ip (add_target net s info t).exact
        ≡ claim ip (find_exact net ip s.exact) info t
  unfolding add_target find_exact
  find_exact-add_target ip s info nothing = refl
  find_exact-add_target ip s info (address j) = refl
  find_exact-add_target ip s info (network p) = refl

  cidrs-add_rows :
      (leases : Option (LeaseLookup Addr)) (s : Snapshot Addr Prefix) (rows : List Row)
      → (add_rows net leases s rows).cidrs ≡ s.cidrs ++ networks leases rows
  unfolding add_rows networks
  cidrs-add_rows leases s [] = sym (append-nil s.cidrs)
  cidrs-add_rows leases s (c ∷ rows) =
      let t = target net leases c in
      cidrs-add_rows leases (add_target net s c.info t) rows
      ∙ ap (λ x. x ++ networks leases rows) (cidrs-add_target s c.info t)
      ∙ append_assoc s.cidrs (network_of c.info t) (networks leases rows)

  find_exact-add_rows :
      (ip : Addr) (leases : Option (LeaseLookup Addr)) (s : Snapshot Addr Prefix) (rows : List Row)
      → find_exact net ip (add_rows net leases s rows).exact
        ≡ last_claim leases ip (find_exact net ip s.exact) rows
  unfolding add_rows last_claim
  find_exact-add_rows ip leases s [] = refl
  find_exact-add_rows ip leases s (c ∷ rows) =
      let t = target net leases c in
      find_exact-add_rows ip leases (add_target net s c.info t) rows
      ∙ ap (λ x. last_claim leases ip x rows) (find_exact-add_target ip s c.info t)

  -- `Lookup` from what its two searches find.
  chosen : Option ClientInfo → Option ClientInfo → ClientInfo
  chosen (some info) near = info
  chosen none (some info) = info
  chosen none none = default_client

  chosen-IsClient :
      (leases : Option (LeaseLookup Addr)) (rows : List Row) (ip : Addr)
      (o near : Option ClientInfo)
      → last_claim leases ip none rows ≡ o
      → IsNearest ip (networks leases rows) near
      → IsClient leases rows ip (chosen o near)
  unfolding chosen
  chosen-IsClient leases rows ip (some info) near h n = inl h
  chosen-IsClient leases rows ip none (some info) h n = inr (h, inl n)
  chosen-IsClient leases rows ip none none h n = inr (h, inr (n, refl))

  lookup-chosen :
      (r : Registry Addr Prefix) (addr : Addr)
      → lookup net r addr
        ≡ chosen
            (find_exact net (net.unmap addr) r.snap.exact)
            (first_cidr net (net.unmap addr) r.snap.cidrs)
  unfolding lookup chosen
  lookup-chosen r addr = ground arith

  module _ (sort_func : SortFunc net) where
    -- After a rebuild, `Lookup` gives every address the client of the rows and leases that the registry
    -- holds: that of the last row for exactly that address, else that of a longest prefix that holds
    -- it, else the default, whatever order the sort leaves equally long prefixes in.
    pub lookup-IsClient :
        (r : Registry Addr Prefix) (addr : Addr)
        → Sorts sort_func
        → IsClient r.leases r.rows (net.unmap addr) (lookup net (rebuild net sort_func r) addr)
    unfolding rebuild find_exact
    lookup-IsClient r addr sorts =
        let ip = net.unmap addr in
        let empty : Snapshot Addr Prefix = record { exact = []; cidrs = [] } in
        let built = add_rows net r.leases empty r.rows in
        let sorted = sort_func (longer net) built.cidrs in
        let near =
          IsNearest-same ip sorted (networks r.leases r.rows) (first_cidr net ip sorted)
            (λ e.
              subst (λ es. Among e sorted ↔ Among e es) (cidrs-add_rows r.leases empty r.rows)
                (sorts.same built.cidrs e))
            (first_cidr-IsNearest ip sorted (sorts.ordered built.cidrs)) in
        subst (IsClient r.leases r.rows ip) (sym (lookup-chosen (rebuild net sort_func r) addr)) (
          chosen-IsClient r.leases r.rows ip (find_exact net ip built.exact)
            (first_cidr net ip sorted) (sym (find_exact-add_rows ip r.leases empty r.rows)) near)

    -- A `Reload` whose two reads succeed makes `Lookup` follow the rows that it read, with the lease
    -- table as it was; one that fails leaves the registry as it was.
    reload-IsClient :
        (groups : Option (List Group)) (cls : Option (List StoredClient)) (r : Registry Addr Prefix)
        → Sorts sort_func
        → ((reload net sort_func groups cls r).1 ≡ false
            → (reload net sort_func groups cls r).0 ≡ r)
          × ((reload net sort_func groups cls r).1 ≡ true
              → (gs : List Group) × (cs : List StoredClient) × (groups ≡ some gs)
                × (cls ≡ some cs)
                × ((addr : Addr)
                    → IsClient r.leases
                        (rows_from gs cs)
                        (net.unmap addr)
                        (lookup net (reload net sort_func groups cls r).0 addr)))
    unfolding reload
    reload-IsClient none cls r sorts = (λ h. refl, λ h. absurd (cc))
    reload-IsClient (some gs) none r sorts = (λ h. refl, λ h. absurd (cc))
    reload-IsClient (some gs) (some cs) r sorts = (
      λ h. absurd (cc),
      λ h. (
        gs,
        cs,
        refl,
        refl,
        λ addr. lookup-IsClient (record r { rows = rows_from gs cs }) addr sorts,
      ),
    )

    -- With every new lease table, `Lookup` follows the rows that the registry holds under that table
    -- alone, wherever the leases have moved.
    set_lease_lookup-IsClient :
        (fn : Option (LeaseLookup Addr)) (r : Registry Addr Prefix) (addr : Addr)
        → Sorts sort_func
        → IsClient fn r.rows
            (net.unmap addr)
            (lookup net (set_lease_lookup net sort_func fn r) addr)
    unfolding set_lease_lookup
    set_lease_lookup-IsClient fn r addr sorts =
        lookup-IsClient (record r { leases = fn }) addr sorts
