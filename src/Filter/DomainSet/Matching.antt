-- ===== src/Filter/DomainSet/Matching.antt =====
-- What `Match` of internal/filter/domainset.go finds, over all names and sets.
use dnsaur.Prelude.{
  ℕ, zero, suc, ◌≤◌, ◌<◌, ◌≡◌, refl, sym, ap, subst, ◌⊎◌, inl, inr, true, false, ◌||◌, Option, none,
  some, List, [], ◌∷◌, ◌++◌, arith, length, length-append, append_assoc, Bool-cases, Option-cases,
  ◌==◌,
}
use dnsaur.Prelude.Bytes.{Bytes, bytes_eq, bytes_eq→eq, cut_byte, dot}
use dnsaur.Filter.DomainSet.{normalize, contains, add, walk, match}

-- `e` is `q`, or a parent domain of it: what is left of `q` behind one of its dots.
abbrev pub IsAncestor : Bytes → Bytes → Type 0
IsAncestor e q = (e ≡ q) ⊎ ((p : Bytes) × (q ≡ p ++ dot ∷ e))

IsAncestor-below : (e r q l : Bytes) → q ≡ l ++ dot ∷ r → IsAncestor e r → IsAncestor e q
IsAncestor-below e r q l h (inl x) = inr (l, cc)
IsAncestor-below e r q l h (inr (p, x)) =
    inr (l ++ dot ∷ p, cc (append_assoc l (dot ∷ p) (dot ∷ e)))

cut_byte-eq : (q l r : Bytes) → cut_byte dot q ≡ some (l, r) → q ≡ l ++ dot ∷ r
unfolding cut_byte
cut_byte-eq [] l r h = cc
cut_byte-eq (c ∷ s) [] r h = ground arith
cut_byte-eq (c ∷ s) (d ∷ l) r h = ground (arith, cut_byte-eq s l r)

-- A name with a dot in it is cut at its first dot, and every proper ancestor lies behind that.
cut_byte-IsAncestor :
    (q p e : Bytes)
    → q ≡ p ++ dot ∷ e
    → (l : Bytes) × (r : Bytes) × (cut_byte dot q ≡ some (l, r)) × IsAncestor e r
unfolding cut_byte
cut_byte-IsAncestor [] [] e h = absurd (cc)
cut_byte-IsAncestor [] (d ∷ p) e h = absurd (cc)
cut_byte-IsAncestor (c ∷ s) [] e h = ([], s, ground arith, inl (cc))
cut_byte-IsAncestor (c ∷ s) (d ∷ p) e h = elim (Bool-cases (c == dot)) [
  | inl here ↦ ([], s, rw here, inr (p, cc))
  | inr later ↦
      let (l, r, found, above) = cut_byte-IsAncestor s p e (cc) in
      (c ∷ l, r, rw (later, found), above)
]

-- What `Match` promises of its answer: the longest entry among the ancestors, or that there is none.
abbrev pub IsBest : List Bytes → Bytes → Option Bytes → Type 0
IsBest s q (some e) =
    (contains s e ≡ true)
    × IsAncestor e q
    × ((e' : Bytes) → contains s e' ≡ true → IsAncestor e' q → length e' ≤ length e)
IsBest s q none = (e' : Bytes) → IsAncestor e' q → contains s e' ≡ false

length-ancestor : (e q : Bytes) → IsAncestor e q → length e ≤ length q
length-ancestor e q (inl x) = omega (arith, ap length x)
length-ancestor e q (inr (p, x)) = omega (arith, ap length x, length-append p (dot ∷ e))

-- An entry that is not the name itself is found behind the first dot.
IsAncestor-above :
    (s : List Bytes) (q e : Bytes)
    → contains s q ≡ false
    → contains s e ≡ true
    → IsAncestor e q
    → (l : Bytes) × (r : Bytes) × (cut_byte dot q ≡ some (l, r)) × IsAncestor e r
IsAncestor-above s q e absent has (inl x) = absurd (cc (ap (contains s) x))
IsAncestor-above s q e absent has (inr (p, x)) = cut_byte-IsAncestor q p e x

-- With the name itself no entry, the best above its first dot is the best.
lift-IsBest :
    (s : List Bytes) (q l r : Bytes) (o : Option Bytes)
    → contains s q ≡ false
    → cut_byte dot q ≡ some (l, r)
    → IsBest s r o
    → IsBest s q o
lift-IsBest s q l r (some e) absent h (has, above, longest) = (
  has,
  IsAncestor-below e r q l (cut_byte-eq q l r h) above,
  λ e' has' above'.
      let (l', r', h', a') = IsAncestor-above s q e' absent has' above' in
      let e : r' ≡ r = cc in longest e' has' (subst (IsAncestor e') e a'),
)
lift-IsBest s q l r none absent h none_above = λ e' above'. elim (Bool-cases (contains s e')) [
  | inl has' ↦
      let (l', r', h', a') = IsAncestor-above s q e' absent has' above' in
      let e : r' ≡ r = cc in none_above e' (subst (IsAncestor e') e a')
  | inr lacks ↦ lacks
]

lacks_above :
    (s : List Bytes) (q : Bytes) → contains s q ≡ false → cut_byte dot q ≡ none → IsBest s q none
lacks_above s q absent h = λ e' above'. elim (Bool-cases (contains s e')) [
  | inl has' ↦ let (l', r', h', a') = IsAncestor-above s q e' absent has' above' in absurd (cc)
  | inr lacks ↦ lacks
]

walk-IsBest : (fuel : ℕ) (s : List Bytes) (q : Bytes) → length q < fuel → IsBest s q (walk fuel s q)
unfolding walk
walk-IsBest zero s q h = elim h [ ]
walk-IsBest (suc fuel) s q h = elim (Bool-cases (contains s q)) [
  | inl has ↦
      let e : walk (suc fuel) s q ≡ some q = rw (has, walk) in
      subst (IsBest s q) (sym e) (has, inl refl, λ e' _ above. length-ancestor e' q above)
  | inr absent ↦ elim (Option-cases (cut_byte dot q)) [
    | inl last ↦
        let e : walk (suc fuel) s q ≡ none = rw (absent, last, walk) in
        subst (IsBest s q) (sym e) (lacks_above s q absent last)
    | inr ((l, r), found) ↦
        let e : walk (suc fuel) s q ≡ walk fuel s r = rw (absent, found, walk) in
        let shorter : length r < fuel =
          omega (arith, ap length (cut_byte-eq q l r found), length-append l (dot ∷ r)) in
        subst (IsBest s q) (sym e)
          (lift-IsBest s q l r (walk fuel s r) absent found (walk-IsBest fuel s r shorter))
  ]
]

-- `Match` returns the longest entry that is the normalised name or a parent domain of it on a label
-- boundary, and nothing exactly when no entry is one; so its loop always ends.
pub match-IsBest : (s : List Bytes) (qname : Bytes) → IsBest s (normalize qname) (match s qname)
unfolding match
match-IsBest s qname = walk-IsBest _ s (normalize qname) (omega arith)

-- After `Add` the set holds the normalised name and what it held before.
pub contains-add :
    (d q : Bytes) (s : List Bytes)
    → contains (add d s) q ≡ (bytes_eq (normalize d) q || contains s q)
unfolding add contains
contains-add d q s = elim (Bool-cases (contains s (normalize d))) [
  | inl has ↦ rw has (elim (Bool-cases (bytes_eq (normalize d) q)) [
    | inl same ↦ rw same (rw (← bytes_eq→eq (normalize d) q same) has)
    | inr other ↦ rw other
  ])
  | inr new ↦ rw new
]
