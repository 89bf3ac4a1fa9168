-- ===== src/Upstream/Conditional.antt =====
-- The conditional routes of internal/upstream/forwarder.go: `SetConditional`, `pick` and `Close`.
pub mod Adoption
pub mod Seeding
pub mod Routing
use dnsaur.Prelude.{
  ℕ, ◌+◌, Bool, true, false, not, Option, none, some, List, [], ◌∷◌, ◌++◌, if◌then◌else◌, ◌==◌,
  length, any, keep, is_empty,
}
use dnsaur.Prelude.Bytes.{Bytes, bytes_eq}
use dnsaur.Filter.DomainSet.{add, match, normalize}
use dnsaur.Upstream.{Up, CondTable, Forwarder, addr_of}

-- A read of one of the maps, the last write for a key found first.
unfoldable pub lookup {ℓ} : {A : Type ℓ} → Bytes → List (Bytes × A) → Option A
lookup k [] = none
lookup k ((k', a) ∷ rest) = if bytes_eq k' k then some a else lookup k rest

abbrev pub routed {ℓ} : {A : Type ℓ} → Option (List A) → List A
routed none = []
routed (some ups) = ups

-- `Forwarder.pick`; a key that the map lacks has the nil slice.
unfoldable pub pick : Forwarder → Bytes → List ℕ
pick f qname = elim f.cond [
  | none ↦ f.def
  | some t ↦ elim (match t.set qname) [
    | none ↦ f.def
    | some matched ↦ routed (lookup matched t.routes)
  ]
]

-- The locals of `SetConditional`, with the heap.
pub record Build : Type 0 where
  pub heap : List Up
  pub by_addr : List (Bytes × ℕ)
  pub table : CondTable
  pub kept : List ℕ

abbrev pub all_ups : List (Bytes × List ℕ) → List ℕ
all_ups [] = []
all_ups ((suffix, ups) ∷ routes) = ups ++ all_ups routes

abbrev pub table_ups : Option CondTable → List ℕ
table_ups none = []
table_ups (some t) = all_ups t.routes

-- `byAddr`, seeded from the outgoing table, a later upstream written over an earlier one.
unfoldable pub seed : List Up → List ℕ → List (Bytes × ℕ)
seed heap [] = []
seed heap (p ∷ ps) = seed heap ps ++ (addr_of heap p, p) ∷ []

-- `newUp` of a plain address.
abbrev pub new_up : Bytes → Up
new_up a = record { addr = a; ewma_micro = 0; fails = 0; down_until = 0 }

-- The upstream of one address, adopted or made.
unfoldable pub adopt : Bytes → Build → Build × ℕ
adopt a b = elim (lookup a b.by_addr) [
  | some p ↦ (record b { kept = p ∷ b.kept }, p)
  | none ↦
      let p = length b.heap in
      (
        record b {
          heap = b.heap ++ new_up a ∷ [];
          by_addr = (a, p) ∷ b.by_addr;
          kept = p ∷ b.kept;
        },
        p,
      )
]

-- The loop over the addresses of a suffix.
unfoldable pub adopt_all : List Bytes → Build → Build × List ℕ
adopt_all [] b = (b, [])
adopt_all (a ∷ addrs) b =
    let (b', p) = adopt a b in let (last, ps) = adopt_all addrs b' in (last, p ∷ ps)

-- One turn of the loop over the routes; a suffix without addresses is one whose slice stays nil.
unfoldable pub add_route : Bytes × List Bytes → Build → Build
add_route (suffix, addrs) b =
    let (b', ups) = adopt_all addrs b in
    record b' {
      table = record {
        set = add suffix b'.table.set;
        routes = (normalize suffix, ups) ∷ b'.table.routes;
      };
    }

unfoldable pub add_routes : List (Bytes × List Bytes) → Build → Build
add_routes [] b = b
add_routes (r ∷ routes) b = add_routes routes (add_route r b)

abbrev pub among : ℕ → List ℕ → Bool
among p ps = any (λ q. q == p) ps

-- `closeOrphans`.
unfoldable pub orphans : Option CondTable → List ℕ → List ℕ
orphans old kept = keep (λ p. not (among p kept)) (table_ups old)

abbrev pub start_build : Forwarder → Build
start_build f = record {
  heap = f.heap;
  by_addr = seed f.heap (table_ups f.cond);
  table = record { set = []; routes = [] };
  kept = [];
}

-- `Forwarder.SetConditional`, on the routes in the order that the loop over the map takes them.
unfoldable pub set_conditional : List (Bytes × List Bytes) → Forwarder → Forwarder
set_conditional routes f =
    if is_empty routes
    then record f { cond = none; shut = orphans f.cond [] ++ f.shut }
    else let b = add_routes routes (start_build f) in
      record f { heap = b.heap; cond = some b.table; shut = orphans f.cond b.kept ++ f.shut }

-- `Forwarder.Close`; a pointer that is closed twice is listed twice.
unfoldable pub close : Forwarder → Forwarder
close f =
    if f.closed then f else record f { closed = true; shut = f.def ++ table_ups f.cond ++ f.shut }
