-- ===== src/Filter/DomainSet.antt =====
-- `DomainSet` of internal/filter/domainset.go: the keys of its map, and the walk of `Match`.
pub mod Matching
use dnsaur.Prelude.{
  ℕ, zero, suc, ◌+◌, ◌≡◌, ◌≢◌, refl, ◌⊎◌, inl, inr, Bool, true, false, ◌||◌, Option, none, some,
  List, [], ◌∷◌, ◌++◌, arith, length, if◌then◌else◌,
}
use dnsaur.Prelude.Bytes.{Bytes, bytes_eq, to_lower, trim_dot, cut_byte, dot}

-- `normalize` of internal/filter/ruleset.go.
unfoldable pub normalize : Bytes → Bytes
unfolding to_lower trim_dot
normalize d = to_lower (trim_dot d)

-- `_, ok := s.m[q]`.
unfoldable pub contains : List Bytes → Bytes → Bool
contains [] q = false
contains (e ∷ s) q = bytes_eq e q || contains s q

-- `DomainSet.Add`.
unfoldable pub add : Bytes → List Bytes → List Bytes
unfolding normalize contains bytes_eq
add domain s = let d = normalize domain in if contains s d then s else d ∷ s

-- The loop of `Match`; the fuel is above the length of the name.
unfoldable pub walk : ℕ → List Bytes → Bytes → Option Bytes
walk zero s q = none
walk (suc fuel) s q = elim (contains s q) [
  | true ↦ some q
  | false ↦ elim (cut_byte dot q) [ none ↦ none | some (_, rest) ↦ walk fuel s rest ]
]

-- `DomainSet.Match`; `none` for the false that it returns.
unfoldable pub match : List Bytes → Bytes → Option Bytes
unfolding walk normalize contains cut_byte bytes_eq
match s qname = let q = normalize qname in walk (length q + 1) s q
