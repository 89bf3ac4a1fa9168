-- ===== src/Upstream/Conditional/Adoption.antt =====
-- Which upstreams `SetConditional` of internal/upstream/forwarder.go adopts and makes.
use dnsaur.Prelude.{
  ◌≢◌, ◌⊎◌, true, ℕ, zero, suc, ◌<◌, ◌≡◌, refl, sym, ap, subst, ◌∙◌, none, some, List, [], ◌∷◌,
  ◌++◌, append-nil, append_assoc, arith, Bool-cases, Option-cases, inl, inr, All, length,
  length-append, get_elem?, if◌then◌else◌,
}
use dnsaur.Prelude.Bytes.{Bytes, bytes_eq, bytes_eq→eq}
use dnsaur.Upstream.{Up, addr_of}
use dnsaur.Upstream.Conditional.{among, Build, lookup, adopt, adopt_all, new_up}

-- What a later heap keeps of an earlier one: every upstream, with its state.
abbrev pub Extends : List Up → List Up → Type 0
Extends heap later = (made : List Up) × (later ≡ heap ++ made)

get-append :
    (heap made : List Up) (p : ℕ) → p < length heap → get_elem? (heap ++ made) p ≡ get_elem? heap p
get-append [] made p h = absurd (omega arith)
get-append (u ∷ heap) made zero h = refl
get-append (u ∷ heap) made (suc p) h = get-append heap made p (omega (arith, h))

get-length : (heap : List Up) (u : Up) → get_elem? (heap ++ u ∷ []) (length heap) ≡ some u
get-length [] u = refl
get-length (v ∷ heap) u = get-length heap u

pub Extends-trans : (a b c : List Up) → Extends a b → Extends b c → Extends a c
Extends-trans a b c (made, e) (more, e') =
    (made ++ more, e' ∙ ap (λ x. x ++ more) e ∙ append_assoc a made more)

module _ (h0 : List Up) (old : List ℕ) where
  -- The pointer is one of the outgoing table, or no upstream of that table has this address and the
  -- pointer is to a new one, without a state.
  abbrev pub IsAdopted : List Up → Bytes → ℕ → Type 0
  IsAdopted heap a p =
      (among p old ≡ true)
      ⊎ (All (λ q. addr_of h0 q ≢ a) old × (get_elem? heap p ≡ some (new_up a)))

  -- The pointer has this address, and is adopted wherever it can be.
  abbrev pub Has : List Up → Bytes → ℕ → Type 0
  Has heap a p = (p < length heap) × (addr_of heap p ≡ a) × IsAdopted heap a p

  Has-Extends :
      (heap later : List Up) (a : Bytes) (p : ℕ) → Extends heap later → Has heap a p → Has later a p
  Has-Extends heap later a p (made, e) (h, n, origin) =
      subst (λ l. Has l a p) (sym e)
        (
          omega (arith, h, length-append heap made),
          ap (λ o. elim o as (λ x. Bytes) [ none ↦ [] | some u ↦ u.addr ])
                (get-append heap made p h)
              ∙ n,
          elim origin [
            | inl there ↦ inl there
            | inr (nobody, is_new) ↦ inr (nobody, get-append heap made p h ∙ is_new)
          ],
        )

  -- The upstreams of a slice have these addresses, in order.
  abbrev pub Named : List Up → List Bytes → List ℕ → Type 0
  Named heap [] [] = Unit
  Named heap [] (p ∷ ps) = ⊥
  Named heap (a ∷ names) [] = ⊥
  Named heap (a ∷ names) (p ∷ ps) = Has heap a p × Named heap names ps

  pub Named-Extends :
      (heap later : List Up) (names : List Bytes) (ps : List ℕ)
      → Extends heap later
      → Named heap names ps
      → Named later names ps
  Named-Extends heap later [] [] e h = tt
  Named-Extends heap later [] (p ∷ ps) e h = absurd h
  Named-Extends heap later (a ∷ names) [] e h = absurd h
  Named-Extends heap later (a ∷ names) (p ∷ ps) e (h, hs) =
      (Has-Extends heap later a p e h, Named-Extends heap later names ps e hs)

  -- The map of addresses lacks only those that no upstream of the outgoing table has.
  abbrev pub Knows : List (Bytes × ℕ) → Type 0
  Knows es = (a : Bytes) → lookup a es ≡ none → All (λ q. addr_of h0 q ≢ a) old

  -- The map of addresses is right.
  abbrev pub Indexed : Build → Type 0
  Indexed b = All (λ e. Has b.heap e.0 e.1) b.by_addr × Knows b.by_addr

  lookup-cons :
      (a k : Bytes) (p : ℕ) (es : List (Bytes × ℕ))
      → lookup a ((k, p) ∷ es) ≡ none
      → lookup a es ≡ none
  unfolding lookup
  lookup-cons a k p es h = ground arith

  All-Extends :
      (heap later : List Up) (es : List (Bytes × ℕ))
      → Extends heap later
      → All (λ e. Has heap e.0 e.1) es
      → All (λ e. Has later e.0 e.1) es
  All-Extends heap later [] x h = tt
  All-Extends heap later ((a, p) ∷ es) x (h, hs) =
      (Has-Extends heap later a p x h, All-Extends heap later es x hs)

  lookup-Has :
      (heap : List Up) (a : Bytes) (p : ℕ) (es : List (Bytes × ℕ))
      → lookup a es ≡ some p
      → All (λ e. Has heap e.0 e.1) es
      → Has heap a p
  unfolding lookup
  lookup-Has heap a p [] found h = absurd (cc)
  lookup-Has heap a p ((a', p') ∷ es) found (h, hs) = elim (Bool-cases (bytes_eq a' a)) [
    | inl same ↦
        let e = subst (λ b. (if b then some p' else lookup a es) ≡ some p) same found in
        let eq : p' ≡ p = cc in
        subst (Has heap a) eq (subst (λ x. Has heap x p') (bytes_eq→eq a' a same) h)
    | inr other ↦
        lookup-Has heap a p es
          (subst (λ b. (if b then some p' else lookup a es) ≡ some p) other found) hs
  ]

  -- One adopted upstream has its address, and everything keeps its own.
  abbrev Adopts : Bytes → Build → Build × ℕ → Type 0
  Adopts a b r = Extends b.heap r.0.heap × Indexed r.0 × Has r.0.heap a r.1 × (r.0.table ≡ b.table)

  adopt-Adopts : (a : Bytes) (b : Build) → Indexed b → Adopts a b (adopt a b)
  unfolding adopt
  adopt-Adopts a b (h, known) = elim (Option-cases (lookup a b.by_addr)) [
    | inl fresh ↦
        rw (adopt, fresh)
          (
            (new_up a ∷ [], refl),
            (
              (made fresh, All-Extends b.heap _ b.by_addr (new_up a ∷ [], refl) h),
              λ c none_there. known c (lookup-cons c a (length b.heap) b.by_addr none_there),
            ),
            made fresh,
            refl,
          )
    | inr (p, found) ↦
        rw (adopt, found)
          (([], sym (append-nil b.heap)), (h, known), lookup-Has b.heap a p b.by_addr found h, refl)
  ]
    where
      made : lookup a b.by_addr ≡ none → Has (b.heap ++ new_up a ∷ []) a (length b.heap)
      made fresh = (
        omega (arith, length-append b.heap (new_up a ∷ [])),
        ap (λ o. elim o as (λ x. Bytes) [ none ↦ [] | some u ↦ u.addr ])
            (get-length b.heap (new_up a)),
        inr (known a fresh, get-length b.heap (new_up a)),
      )

  pub adopt_all-Named :
      (names : List Bytes) (b : Build)
      → Indexed b
      → Extends b.heap (adopt_all names b).0.heap
        × Indexed (adopt_all names b).0
        × Named (adopt_all names b).0.heap names (adopt_all names b).1
        × ((adopt_all names b).0.table ≡ b.table)
  unfolding adopt_all
  adopt_all-Named [] b h = (([], sym (append-nil b.heap)), h, tt, refl)
  adopt_all-Named (a ∷ names) b h =
      let (x, hx, has, same) = adopt-Adopts a b h in
      let (y, hy, named, same') = adopt_all-Named names (adopt a b).0 hx in
      (
        Extends-trans b.heap (adopt a b).0.heap _ x y,
        hy,
        (Has-Extends (adopt a b).0.heap _ a (adopt a b).1 y has, named),
        same' ∙ same,
      )
