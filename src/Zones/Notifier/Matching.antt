-- ===== src/Zones/Notifier/Matching.antt =====
-- What `rowsMatch` of internal/zones/notifier.go compares.
use dnsaur.Prelude.{
  suc, ◌≤◌, ◌≡◌, refl, sym, ap, subst, ◌∙◌, Bool, true, false, ◌||◌, not, List, [], ◌∷◌, arith,
  Bool-cases, inl, inr, length, if◌then◌else◌, ==_iff,
}
use mathlib.Core.Bool.{false≢true}
use dnsaur.Prelude.Bytes.{Bytes, bytes_eq, bytes_eq→eq, bytes_eq_refl}
use dnsaur.Zones.Notifier.{listed, match_loop, rows_match}

-- A list with no element twice.
abbrev pub NoDup : List Bytes → Type 0
NoDup [] = Unit
NoDup (w ∷ ws) = (listed w ws ≡ false) × NoDup ws

-- All elements of the one are in the other.
abbrev pub Within : List Bytes → List Bytes → Type 0
Within ws hs = (t : Bytes) → listed t ws ≡ true → listed t hs ≡ true

-- A list without the first of an element.
unfoldable drop_one : Bytes → List Bytes → List Bytes
drop_one w [] = []
drop_one w (h ∷ hs) = let rest = drop_one w hs in if bytes_eq h w then hs else h ∷ rest

length-drop_one :
    (w : Bytes) (hs : List Bytes) → listed w hs ≡ true → suc (length (drop_one w hs)) ≡ length hs
unfolding drop_one
length-drop_one w [] h = absurd (false≢true h)
length-drop_one w (x ∷ hs) h = elim (Bool-cases (bytes_eq x w)) [
  | inl same ↦ rw same refl
  | inr other ↦
      rw other (ap suc (length-drop_one w hs (subst (λ b. (b || listed w hs) ≡ true) other h)))
]

listed-drop_one :
    (w t : Bytes) (hs : List Bytes)
    → bytes_eq w t ≡ false
    → listed t hs ≡ true
    → listed t (drop_one w hs) ≡ true
unfolding drop_one
listed-drop_one w t [] differ h = h
listed-drop_one w t (x ∷ hs) differ h = elim (Bool-cases (bytes_eq x w)) [
  | inl same ↦ rw same (
      subst (λ b. (b || listed t hs) ≡ true)
        (subst (λ y. bytes_eq y t ≡ false) (sym (bytes_eq→eq x w same)) differ) h)
  | inr other ↦
      rw other (or (bytes_eq x t) (listed t hs) h (λ later. listed-drop_one w t hs differ later))
]
  where
    or : (a b : Bool) {c : Bool} → (a || b) ≡ true → (b ≡ true → c ≡ true) → (a || c) ≡ true
    or true b h go = refl
    or false b h go = go h

-- A list without repetitions is no longer than one that has all its elements.
length-Within : (ws hs : List Bytes) → NoDup ws → Within ws hs → length ws ≤ length hs
length-Within [] hs once within = omega arith
length-Within (w ∷ ws) hs (fresh, once) within = omega (
  arith,
  length-drop_one w hs (within w (rw (bytes_eq_refl w) refl)),
  length-Within ws (drop_one w hs) once (λ t here.
      listed-drop_one w t hs (differ t here) (within t (rw here (or_true (bytes_eq w t))))),
)
  where
    differ : (t : Bytes) → listed t ws ≡ true → bytes_eq w t ≡ false
    differ t here = elim (Bool-cases (bytes_eq w t)) [
      | inl same ↦
          absurd (false≢true (sym fresh ∙ ap (λ x. listed x ws) (bytes_eq→eq w t same) ∙ here))
      | inr other ↦ other
    ]

    or_true : (b : Bool) → (b || true) ≡ true
    or_true b = ground arith

pub or_elim :
    (a b : Bool) {c : Bool}
    → (a || b) ≡ true
    → (a ≡ true → c ≡ true)
    → (b ≡ true → c ≡ true)
    → c ≡ true
or_elim true b h one two = one refl
or_elim false b h one two = two h

match_loop-Within :
    (have targets want : List Bytes)
    → match_loop have targets want ≡ true
    → NoDup want
    → Within want have
    → ((t : Bytes) → listed t have ≡ true → (listed t targets || listed t want) ≡ true)
      × Within targets have
unfolding match_loop
match_loop-Within have [] want h once within = (full, λ t here. absurd (false≢true here))
  where
    full : (t : Bytes) → listed t have ≡ true → listed t want ≡ true
    full t here = elim (Bool-cases (listed t want)) [
      | inl yes_listed ↦ yes_listed
      | inr lacks ↦ absurd (
          omega (
            arith,
            (==_iff (length want) (length have)).0 h,
            length-Within (t ∷ want) have (lacks, once)
                (λ x e.
                  or_elim (bytes_eq t x) (listed x want) e
                    (λ same. ap (λ y. listed y have) (sym (bytes_eq→eq t x same)) ∙ here)
                    (λ e. within x e)),
          ))
    ]
match_loop-Within have (t ∷ targets) want h once within = elim (Bool-cases (listed t want)) [
  | inl seen ↦
      let (all, sub) =
        match_loop-Within have targets want
          (subst
            (λ b.
              (if b
                then match_loop have targets want
                else if not (listed t have)
                then false
                else match_loop have targets (t ∷ want))
              ≡ true)
            seen h)
          once within in
      (
        λ x here. widen (bytes_eq t x) (listed x targets) (listed x want) (all x here),
        λ x e.
            or_elim (bytes_eq t x) (listed x targets) e
              (λ same. ap (λ y. listed y have) (sym (bytes_eq→eq t x same)) ∙ within t seen)
              (λ e. sub x e),
      )
  | inr fresh ↦ elim (Bool-cases (listed t have)) [
    | inl there ↦
        let (all, sub) =
          match_loop-Within have targets (t ∷ want) (rest fresh there) (fresh, once)
            (λ x e.
              or_elim (bytes_eq t x) (listed x want) e
                (λ same. ap (λ y. listed y have) (sym (bytes_eq→eq t x same)) ∙ there)
                (λ e. within x e)) in
        (
          λ x here. swap (bytes_eq t x) (listed x targets) (listed x want) (all x here),
          λ x e.
              or_elim (bytes_eq t x) (listed x targets) e
                (λ same. ap (λ y. listed y have) (sym (bytes_eq→eq t x same)) ∙ there)
                (λ e. sub x e),
        )
    | inr missing ↦ absurd (false≢true (refused fresh missing))
  ]
]
  where
    widen : (a b c : Bool) → (b || c) ≡ true → ((a || b) || c) ≡ true
    widen a b c h = ground arith

    swap : (a b c : Bool) → (b || (a || c)) ≡ true → ((a || b) || c) ≡ true
    swap a b c h = ground arith

    rest : listed t want ≡ false → listed t have ≡ true → match_loop have targets (t ∷ want) ≡ true
    rest fresh there = ground (arith, h, fresh, there)

    refused : listed t want ≡ false → listed t have ≡ false → false ≡ true
    refused fresh missing = ground (arith, h, fresh, missing)

-- Where `rowsMatch` holds, the rows and the targets are of the same addresses.
pub rows_match-Within :
    (have targets : List Bytes)
    → rows_match have targets ≡ true
    → Within have targets × Within targets have
unfolding rows_match
rows_match-Within have targets h =
    let (all, sub) = match_loop-Within have targets [] h tt (λ t here. absurd (false≢true here)) in
    (λ t here. drop_false (listed t targets) (all t here), sub)
  where
    drop_false : (b : Bool) → (b || false) ≡ true → b ≡ true
    drop_false b h = ground arith
