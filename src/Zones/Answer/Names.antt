-- ===== src/Zones/Answer/Names.antt =====
-- Which names exist in a zone, as internal/zones/answer.go means it, and the closest encloser of one.
use dnsaur.Prelude.{
  ◌≡◌, ◌≢◌, refl, sym, ap, subst, ◌∙◌, true, false, ◌||◌, not, List, [], ◌∷◌, ◌++◌, arith,
  if◌then◌else◌, is_empty, Bool-cases, inl, inr, ◌⊎◌, ◌↔◌,
}
use dnsaur.Prelude.Bytes.{Bytes, bytes_eq, bytes_eq→eq, bytes_eq_refl, codes, dot, join_dots}
use dnsaur.Zones.{DnsLib, Zone, Records, apex_name, normalize_name, rrs}
use dnsaur.Zones.Answer.{
  has_suffix, has_name_under, has_descendant, encloser, tail_of, closest_encloser,
  source_of_synthesis,
}

-- One of the stored names ends in this.
abbrev pub SomeEndsIn : Records → Bytes → Type 0
SomeEndsIn [] suffix = ⊥
SomeEndsIn ((name, _) ∷ m) suffix = ((p : Bytes) × (name ≡ p ++ suffix)) ⊎ SomeEndsIn m suffix

-- The name has records, or a stored name lies below it by a whole label: an empty non-terminal.
unfoldable pub IsHeld : Zone → Bytes → Type 0
IsHeld z rel = (rrs z rel ≢ []) ⊎ SomeEndsIn z.records (dot ∷ normalize_name rel)

-- The name is the apex, or is held.
abbrev pub Exists : Zone → Bytes → Type 0
Exists z rel = (rel ≡ apex_name) ⊎ IsHeld z rel

-- Of a name's labels behind its first, `after` is the longest end that is held, or none of them.
pub record IsClosest (z : Zone) (labels after : List Bytes) : Type 0 where
  pub before : List Bytes
  pub parts : labels ≡ before ++ after
  pub held : (after ≡ []) ⊎ IsHeld z (join_dots after)
  pub longest :
      (above below : List Bytes) (l : Bytes)
      → before ≡ above ++ l ∷ below
      → ¬ IsHeld z (join_dots (l ∷ below ++ after))

-- The wildcard below these labels; the name @ stands for the apex.
unfoldable pub wildcard : List Bytes → Bytes
wildcard [] = codes "*"
wildcard (l ∷ ls) =
    if bytes_eq (join_dots (l ∷ ls)) apex_name then codes "*" else join_dots (codes "*" ∷ l ∷ ls)

has_suffix-ends : (s suffix : Bytes) → has_suffix s suffix ≡ true → (p : Bytes) × (s ≡ p ++ suffix)
unfolding has_suffix
has_suffix-ends [] [] h = ([], refl)
has_suffix-ends [] (c ∷ suffix) h = absurd (ground (arith, h))
has_suffix-ends (c ∷ s) suffix h = elim (Bool-cases (bytes_eq (c ∷ s) suffix)) [
  | inl whole ↦ ([], bytes_eq→eq (c ∷ s) suffix whole)
  | inr part ↦
      let (p, e) = has_suffix-ends s suffix (ground (arith, part)) in (c ∷ p, ap (λ x. c ∷ x) e)
]

has_suffix-append : (p suffix : Bytes) → has_suffix (p ++ suffix) suffix ≡ true
unfolding has_suffix
has_suffix-append [] [] = refl
has_suffix-append [] (c ∷ suffix) = ground (arith, bytes_eq_refl (c ∷ suffix))
has_suffix-append (c ∷ p) suffix = ground (arith, has_suffix-append p suffix)

has_name_under-SomeEndsIn :
    (m : Records) (suffix : Bytes) → (has_name_under m suffix ≡ true) ↔ SomeEndsIn m suffix
unfolding has_name_under
has_name_under-SomeEndsIn [] suffix = (λ h. ground (arith, h), λ h. absurd h)
has_name_under-SomeEndsIn ((name, rs) ∷ m) suffix =
    let (there, back) = has_name_under-SomeEndsIn m suffix in
    (
      λ h. elim (Bool-cases (has_suffix name suffix)) [
        | inl here ↦ inl (has_suffix-ends name suffix here)
        | inr other ↦ inr (there (ground (arith, other)))
      ],
      λ h. elim h [
        | inl (p, e) ↦
            ground
              (arith, subst (λ n. has_suffix n suffix ≡ true) (sym e) (has_suffix-append p suffix))
        | inr later ↦ ground (arith, back later)
      ],
    )

pub held-IsHeld :
    (z : Zone) (rel : Bytes)
    → ((not (is_empty (rrs z rel)) || has_descendant z rel) ≡ true) ↔ IsHeld z rel
unfolding has_descendant IsHeld
held-IsHeld z rel =
    let (there, back) = has_name_under-SomeEndsIn z.records (dot ∷ normalize_name rel) in
    (
      λ h. elim (Bool-cases (is_empty (rrs z rel))) [
        | inl none_here ↦ inr (there (ground (arith, none_here)))
        | inr some_here ↦ inl (λ e. ground (arith, some_here, e))
      ],
      λ h. elim h [ inl filled ↦ ground (arith, filled) | inr below ↦ ground (arith, back below) ],
    )

pub not_held :
    (z : Zone) (rel : Bytes)
    → ¬ IsHeld z rel
    → (not (is_empty (rrs z rel)) || has_descendant z rel) ≡ false
not_held z rel h = elim (Bool-cases (not (is_empty (rrs z rel)) || has_descendant z rel)) [
  | inl b ↦ absurd (h ((held-IsHeld z rel).0 b))
  | inr b ↦ b
]

name_of : List Bytes → Bytes
name_of [] = apex_name
name_of (l ∷ ls) = join_dots (l ∷ ls)

module _ (lib : DnsLib) (z : Zone) where
  encloser-longest :
      (before after : List Bytes)
      → (after ≡ []) ⊎ IsHeld z (join_dots after)
      → ((above below : List Bytes) (l : Bytes)
          → before ≡ above ++ l ∷ below
          → ¬ IsHeld z (join_dots (l ∷ below ++ after)))
      → encloser lib z (before ++ after) ≡ name_of after
  unfolding encloser name_of
  encloser-longest [] [] h longest = refl
  encloser-longest [] (l ∷ ls) (inl e) longest = absurd (ground (arith, e))
  encloser-longest [] (l ∷ ls) (inr h) longest =
      ground (arith, (held-IsHeld z (join_dots (l ∷ ls))).1 h)
  encloser-longest (b ∷ bs) after h longest =
      let rest =
        encloser-longest bs after h
          (λ above below l e. longest (b ∷ above) below l (ap (λ x. b ∷ x) e)) in
      ground (arith, rest, not_held z (join_dots (b ∷ bs ++ after)) (longest [] bs b refl))

  -- The source of synthesis is the wildcard below the closest encloser.
  pub source-wildcard :
      (rel l : Bytes) (labels after : List Bytes)
      → lib.split_domain_name (normalize_name rel) ≡ l ∷ labels
      → IsClosest z labels after
      → source_of_synthesis lib z rel ≡ wildcard after
  unfolding source_of_synthesis closest_encloser tail_of name_of wildcard join_dots
  source-wildcard rel l labels after split h = named after (
      ap (λ ls. encloser lib z (tail_of lib z ls)) split
      ∙ ap (encloser lib z) h.parts
      ∙ encloser-longest h.before after h.held h.longest)
    where
      named :
          (after : List Bytes)
          → closest_encloser lib z rel ≡ name_of after
          → source_of_synthesis lib z rel ≡ wildcard after
      named [] e = ground (arith, e, bytes_eq_refl apex_name)
      named (x ∷ xs) e = rw e refl
