-- ===== src/Cache/Purge.antt =====
-- `Purge` and `nameUnder` of internal/cache/cache.go: names at or under a suffix, on label boundaries.
use dnsaur.Prelude.{
  ℕ, zero, suc, ◌+◌, ◌-◌, ◌%◌, ◌^◌, ◌≤◌, ◌<◌, ◌≡◌, refl, ap, ◌↔◌, ◌⊎◌, inl, inr, true, false, ◌&&◌,
  none, List, [], ◌∷◌, ◌++◌, arith, if◌then◌else◌, length, length-append, drop, is_empty,
  Bool-cases,
}
use dnsaur.Prelude.Bytes.{Bytes, bytes_eq, bytes_eq_iff, dot}
use dnsaur.Cache.Table.{Key, Entries, key_eq_iff, find, has}
use dnsaur.Cache.{Cache, remove_locked, under, name_under, normal_suffixes, purge_loop, purge}
use dnsaur.Cache.Keeps.{IsValid, find-remove_locked, remove_locked-IsValid, epoch-IsValid}

-- The name is the suffix, or lies below it: a label, a dot, and the suffix.
abbrev pub LiesUnder : Bytes → Bytes → Type 0
LiesUnder name s = (name ≡ s) ⊎ ((c : ℕ) × (p : Bytes) × (name ≡ (c ∷ p) ++ dot ∷ s))

drop-append : (p q : Bytes) → drop (length p) (p ++ q) ≡ q
drop-append [] q = refl
drop-append (c ∷ p) q = drop-append p q

split_at : (n : ℕ) (s : Bytes) → n ≤ length s → (p : Bytes) × (length p ≡ n) × (s ≡ p ++ drop n s)
split_at zero s h = ([], refl, refl)
split_at (suc n) [] h = absurd (omega arith)
split_at (suc n) (c ∷ s) h =
    let (p, size, e) = split_at n s (omega arith) in (c ∷ p, ap suc size, ap (λ t. c ∷ t) e)

filled_front : (name s p : Bytes) → 0 < length p → name ≡ p ++ dot ∷ s → LiesUnder name s
filled_front name s [] h e = absurd (omega arith)
filled_front name s (c ∷ p) h e = inr (c, p, e)

under→LiesUnder : (name s : Bytes) → under name s ≡ true → LiesUnder name s
unfolding under
under→LiesUnder name s h = elim (Bool-cases (bytes_eq name s)) [
  | inl same ↦ inl ((bytes_eq_iff name s).0 same)
  | inr other ↦
      let n = length name - length s - 1 in
      let longer : length s + 1 < length name = ground arith in
      let (p, size, e) = split_at n name (omega arith) in
      let tail : drop n name ≡ dot ∷ s = (bytes_eq_iff (drop n name) (dot ∷ s)).0 (ground arith) in
      filled_front name s p (omega arith) (cc)
]

LiesUnder→under : (name s : Bytes) → LiesUnder name s → under name s ≡ true
unfolding under
LiesUnder→under name s (inl e) = ground (arith, bytes_eq_iff name s)
LiesUnder→under name s (inr (c, p, e)) =
    let size : length name ≡ length p + length s + 2 =
      omega (arith, ap length e, length-append (c ∷ p) (dot ∷ s)) in
    let n : length name - length s - 1 ≡ length (c ∷ p) = omega arith in
    let tail : drop (length name - length s - 1) name ≡ dot ∷ s =
      rw (n, e) (drop-append (c ∷ p) (dot ∷ s)) in
    ground (arith, bytes_eq_iff (drop (length name - length s - 1) name) (dot ∷ s))

-- `nameUnder` holds for a suffix exactly of the name itself and of the names that end in a label
-- boundary followed by it.
under_iff : (name s : Bytes) → (under name s ≡ true) ↔ LiesUnder name s
under_iff name s = (under→LiesUnder name s, LiesUnder→under name s)

find-purge_loop :
    (j : Key) (es : Entries) (norm : List Bytes) (c : Cache) (n : ℕ)
    → IsValid c
    → find j (purge_loop es norm (c, n)).0.entries
      ≡ (if has j es && name_under j.name norm then none else find j c.entries)
unfolding purge_loop has find
find-purge_loop j [] norm c n v = refl
find-purge_loop j ((k, e) ∷ rest) norm c n v = elim (Bool-cases (name_under k.name norm)) [
  | inl hit ↦ ground (
    arith,
    find-purge_loop j rest norm (remove_locked k c) (n + 1) (remove_locked-IsValid k c v),
    find-remove_locked k c j v,
    key_eq_iff k j,
  )
  | inr miss ↦ ground (arith, find-purge_loop j rest norm c n v, key_eq_iff k j)
]

nothing_under :
    (name : Bytes) (norm : List Bytes) → is_empty norm ≡ true → name_under name norm ≡ false
unfolding name_under
nothing_under name [] h = refl
nothing_under name (s ∷ norm) h = cc

pub find-purge :
    (suffixes : List Bytes) (c : Cache) (j : Key)
    → IsValid c
    → find j (purge suffixes c).0.entries
      ≡ (if name_under j.name (normal_suffixes suffixes) then none else find j c.entries)
unfolding purge has
find-purge suffixes c j v = elim (Bool-cases (is_empty (normal_suffixes suffixes))) [
  | inl nothing ↦ ground (arith, nothing_under j.name (normal_suffixes suffixes))
  | inr filled ↦
      let bumped : Cache = record c { epoch = (c.epoch + 1) % 2 ^ 64 } in
      ground (
        arith,
        find-purge_loop j c.entries (normal_suffixes suffixes) bumped 0 (epoch-IsValid _ c v),
      )
]
