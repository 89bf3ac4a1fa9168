-- ===== src/Upstream/Conditional/Routing.antt =====
-- What `SetConditional` of internal/upstream/forwarder.go routes names to, and which upstreams it
-- makes.
use dnsaur.Prelude.{
  ℕ, ◌<◌, ◌≡◌, refl, sym, ap, subst, ◌∙◌, Option, none, some, List, [], ◌∷◌, append-nil, Bool-cases,
  Option-cases, inl, inr, All, length,
}
use mathlib.Core.Bool.{false≢true}
use dnsaur.Filter.DomainSet.Matching.{IsBest, match-IsBest}
use dnsaur.Prelude.Bytes.{Bytes, bytes_eq}
use dnsaur.Filter.DomainSet.{contains, add, match, normalize}
use dnsaur.Upstream.{Up, CondTable, Forwarder}
use dnsaur.Upstream.Conditional.{
  Build, lookup, adopt_all, add_route, add_routes, table_ups, start_build, set_conditional, pick,
  routed,
}
use dnsaur.Upstream.Conditional.Seeding.{seed-Indexed}
use dnsaur.Upstream.Conditional.Adoption.{
  Extends, Extends-trans, Named, Named-Extends, Indexed, adopt_all-Named,
}

-- The routes that are asked for, by normalised suffix, the last for a suffix first; and the suffixes.
unfoldable pub asked_routes :
    List (Bytes × List Bytes) → List (Bytes × List Bytes) → List (Bytes × List Bytes)
asked_routes [] table = table
asked_routes ((suffix, names) ∷ routes) table =
    asked_routes routes ((normalize suffix, names) ∷ table)

unfoldable pub asked_suffixes : List (Bytes × List Bytes) → List Bytes → List Bytes
asked_suffixes [] set = set
asked_suffixes ((suffix, names) ∷ routes) set = asked_suffixes routes (add suffix set)

module _ (h0 : List Up) (old : List ℕ) where
  -- The routes lead, key by key, to upstreams of these addresses.
  abbrev Routes : List Up → List (Bytes × List Bytes) → List (Bytes × List ℕ) → Type 0
  Routes heap [] [] = Unit
  Routes heap [] (r ∷ rs) = ⊥
  Routes heap (r ∷ rs) [] = ⊥
  Routes heap ((k, names) ∷ table) ((k', ps) ∷ routes) =
      (k' ≡ k) × Named h0 old heap names ps × Routes heap table routes

  Routes-Extends :
      (heap later : List Up) (table : List (Bytes × List Bytes)) (routes : List (Bytes × List ℕ))
      → Extends heap later
      → Routes heap table routes
      → Routes later table routes
  Routes-Extends heap later [] [] e h = tt
  Routes-Extends heap later [] (r ∷ rs) e h = absurd h
  Routes-Extends heap later (r ∷ rs) [] e h = absurd h
  Routes-Extends heap later ((k, names) ∷ table) ((k', ps) ∷ routes) e (same, h, hs) = (
    same,
    Named-Extends h0 old heap later names ps e h,
    Routes-Extends heap later table routes e hs,
  )

  add_routes-Routes :
      (routes table : List (Bytes × List Bytes)) (b : Build)
      → Indexed h0 old b
      → Routes b.heap table b.table.routes
      → Extends b.heap (add_routes routes b).heap
        × Routes
            (add_routes routes b).heap
            (asked_routes routes table)
            (add_routes routes b).table.routes
        × ((add_routes routes b).table.set ≡ asked_suffixes routes b.table.set)
  unfolding add_routes asked_routes asked_suffixes add_route
  add_routes-Routes [] table b h hr = (([], sym (append-nil b.heap)), hr, refl)
  add_routes-Routes ((suffix, names) ∷ routes) table b h hr =
      let (x, hx, named, same) = adopt_all-Named h0 old names b h in
      let earlier = Routes-Extends b.heap (adopt_all names b).0.heap table b.table.routes x hr in
      let kept = subst (λ t. Routes (adopt_all names b).0.heap table t.routes) (sym same) earlier in
      let (y, hy, set) =
        add_routes-Routes routes ((normalize suffix, names) ∷ table) (add_route (suffix, names) b)
          hx (refl, named, kept) in
      (
        Extends-trans b.heap (adopt_all names b).0.heap _ x y,
        hy,
        set ∙ ap (λ t. asked_suffixes routes (add suffix t.set)) same,
      )

  lookup-Routes :
      (heap : List Up) (m : Bytes) (table : List (Bytes × List Bytes))
      (routes : List (Bytes × List ℕ))
      → Routes heap table routes
      → Named h0 old heap (routed (lookup m table)) (routed (lookup m routes))
  unfolding lookup
  lookup-Routes heap m [] [] h = tt
  lookup-Routes heap m [] (r ∷ rs) h = absurd h
  lookup-Routes heap m (r ∷ rs) [] h = absurd h
  lookup-Routes heap m ((k, names) ∷ table) ((k', ps) ∷ routes) (same, h, hs) =
      rw same (elim (Bool-cases (bytes_eq k m)) [
        | inl here ↦ rw here h
        | inr later ↦ rw later (lookup-Routes heap m table routes hs)
      ])

match-nothing : (q : Bytes) → match [] q ≡ none
unfolding contains
match-nothing q = elim (Option-cases (match [] q)) [
  | inl e ↦ e
  | inr (m, e) ↦ absurd (false≢true (subst (IsBest [] (normalize q)) e (match-IsBest [] q)).0)
]

module _ (h0 : List Up) (old : List ℕ) where
  -- Where a name goes: to upstreams of the addresses asked for under the longest suffix of it, each one
  -- of the outgoing table where that has one of the address and else new, or to the defaults.
  abbrev pub GoesTo : List (Bytes × List Bytes) → Forwarder → Option Bytes → List ℕ → Type 0
  GoesTo routes f none ps = ps ≡ f.def
  GoesTo routes f (some m) ps = Named h0 old f.heap (routed (lookup m (asked_routes routes []))) ps

  built-GoesTo :
      (routes : List (Bytes × List Bytes)) (f : Forwarder) (t : CondTable) (q : Bytes)
      → Routes h0 old f.heap (asked_routes routes []) t.routes
      → t.set ≡ asked_suffixes routes []
      → f.cond ≡ some t
      → GoesTo routes f (match (asked_suffixes routes []) q) (pick f q)
  unfolding pick
  built-GoesTo routes f t q h set e =
      subst (λ c. GoesTo routes f (match (asked_suffixes routes []) q) (chosen c)) (sym e)
        (subst (λ s. GoesTo routes f (match s q) (chosen (some t))) set (found (match t.set q)))
    where
      chosen : Option CondTable → List ℕ
      chosen c = elim c [
        | none ↦ f.def
        | some t ↦ elim (match t.set q) [
          | none ↦ f.def
          | some matched ↦ routed (lookup matched t.routes)
        ]
      ]

      found :
          (o : Option Bytes)
          → GoesTo routes f o (elim o as (λ x. List ℕ) [
            | none ↦ f.def
            | some matched ↦ routed (lookup matched t.routes)
          ])
      found none = refl
      found (some m) = lookup-Routes h0 old f.heap m (asked_routes routes []) t.routes h

-- Behind `SetConditional`, a name goes to upstreams of exactly the addresses asked for under the longest
-- of the suffixes that is the name or above it, in their order, and to the defaults where no suffix is.
-- Each of these upstreams is one of the outgoing table, which keeps its state, unless none of that
-- table has its address; then it is a new one without a state. The pointers of the outgoing table are
-- in the heap.
pub set_conditional-GoesTo :
    (routes : List (Bytes × List Bytes)) (f : Forwarder) (q : Bytes)
    → All (λ p. p < length f.heap) (table_ups f.cond)
    → GoesTo f.heap
        (table_ups f.cond)
        routes
        (set_conditional routes f)
        (match (asked_suffixes routes []) q)
        (pick (set_conditional routes f) q)
      × Extends f.heap (set_conditional routes f).heap
unfolding set_conditional asked_suffixes pick
set_conditional-GoesTo [] f q h = (
  subst (λ o. GoesTo f.heap (table_ups f.cond) [] (set_conditional [] f) o f.def)
      (sym (match-nothing q)) refl,
  ([], sym (append-nil f.heap)),
)
set_conditional-GoesTo (r ∷ routes) f q h =
    let old = table_ups f.cond in
    let (x, hr, set) =
      add_routes-Routes f.heap old (r ∷ routes) [] (start_build f) (seed-Indexed f h) tt in
    (
      built-GoesTo f.heap old (r ∷ routes) (set_conditional (r ∷ routes) f)
          (add_routes (r ∷ routes) (start_build f)).table q hr set refl,
      x,
    )
