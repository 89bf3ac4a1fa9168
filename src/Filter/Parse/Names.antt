-- ===== src/Filter/Parse/Names.antt =====
-- What `validName` of internal/filter/parse.go accepts, beside the domain sets.
use dnsaur.Prelude.{
  ℕ, ◌≤◌, ◌<◌, ◌≡◌, ◌≢◌, refl, subst, Bool, true, false, not, Option, none, some, List, [], ◌∷◌,
  arith, all, is_empty, length, ◌==◌, Bool-cases, inl, inr,
}
use dnsaur.Prelude.Bytes.{Bytes, dot, to_lower, lower_byte, trim_dot, bytes_eq_refl}
use dnsaur.Prelude.Text.{split, on_head}
use dnsaur.Filter.DomainSet.{normalize, add, match}
use dnsaur.Filter.DomainSet.Matching.{IsAncestor, IsBest, match-IsBest, contains-add}
use dnsaur.Filter.Parse.{host_byte, label_ok, or_else, valid_name, valid_domain}

-- A host name in the program's sense: at most 253 bytes, in labels that pass `label_ok`.
pub record IsHostname (d : Bytes) : Type 0 where
  pub filled : 0 < length d
  pub short : length d ≤ 253
  pub labels : all label_ok (split dot d) ≡ true

pub label_ok_lem :
    (l : Bytes) → label_ok l ≡ true → (0 < length l) × (length l ≤ 63) × (all host_byte l ≡ true)
unfolding label_ok
label_ok_lem [] h = absurd (ground arith)
label_ok_lem (c ∷ l) h = ground arith

-- No label behind a dot is empty.
filled_after : List Bytes → Bool
filled_after [] = true
filled_after (l ∷ ls) = all (λ p. not (is_empty p)) ls

filled_after-on_head : (c : ℕ) (ls : List Bytes) → filled_after (on_head c ls) ≡ filled_after ls
unfolding filled_after on_head
filled_after-on_head c [] = refl
filled_after-on_head c (l ∷ ls) = refl

filled_after-all :
    (ls : List Bytes) → all (λ p. not (is_empty p)) ls ≡ true → filled_after ls ≡ true
unfolding filled_after
filled_after-all [] h = refl
filled_after-all (l ∷ ls) h = ground arith

trim_dot-split : (s : Bytes) → filled_after (split dot s) ≡ true → trim_dot s ≡ s
unfolding trim_dot split filled_after
trim_dot-split [] h = refl
trim_dot-split (c ∷ []) h = ground arith
trim_dot-split (c ∷ d ∷ s) h = ground (
  arith,
  trim_dot-split (d ∷ s),
  filled_after-all (split dot (d ∷ s)),
  filled_after-on_head c (split dot (d ∷ s)),
)

host_labels : List Bytes → Bool
host_labels = all (λ l. all host_byte l)

host_byte-lower : (c : ℕ) → host_byte c ≡ true → lower_byte c ≡ c
unfolding host_byte lower_byte
host_byte-lower c h = ground arith

host_labels-on_head :
    (c : ℕ) (ls : List Bytes) (l : Bytes) (rest : List Bytes)
    → ls ≡ l ∷ rest
    → host_labels (on_head c ls) ≡ true
    → (host_byte c ≡ true) × (host_labels ls ≡ true)
unfolding host_labels on_head
host_labels-on_head c ls l rest e h = ground arith

split-cons : (b : ℕ) (s : Bytes) → (l : Bytes) × (rest : List Bytes) × (split b s ≡ l ∷ rest)
unfolding split
split-cons b [] = ([], [], refl)
split-cons b (c ∷ s) = elim (Bool-cases (c == b)) [
  | inl here ↦ ([], split b s, rw here)
  | inr later ↦
      let (l, rest, e) = split-cons b s in (c ∷ l, rest, rw (later, e) (unfold on_head in refl))
]

to_lower-host : (s : Bytes) → host_labels (split dot s) ≡ true → to_lower s ≡ s
unfolding to_lower split host_labels
to_lower-host [] h = refl
to_lower-host (c ∷ s) h =
    let (l, rest, e) = split-cons dot s in
    ground (
      arith,
      to_lower-host s,
      host_byte-lower c,
      host_labels-on_head c (split dot s) l rest e,
      dot_lower,
    )
  where
    dot_lower : lower_byte dot ≡ dot
    dot_lower = unfold lower_byte in refl

labels_parts :
    (ls : List Bytes)
    → all label_ok ls ≡ true
    → (host_labels ls ≡ true) × (all (λ p. not (is_empty p)) ls ≡ true)
unfolding host_labels
labels_parts [] h = (refl, refl)
labels_parts ([] ∷ ls) h = ground (arith, label_ok_lem [])
labels_parts ((c ∷ l) ∷ ls) h = ground (arith, label_ok_lem (c ∷ l), labels_parts ls)

-- A host name is in the normal form that the domain sets store and look up.
pub normalize-IsHostname : (d : Bytes) → IsHostname d → normalize d ≡ d
unfolding normalize
normalize-IsHostname d h =
    let (hosts, filled) = labels_parts (split dot d) h.labels in
    rw (trim_dot-split d (filled_after-all (split dot d) filled)) (to_lower-host d hosts)

length-filled : (a : Bytes) → is_empty a ≡ false → 0 < length a
length-filled [] h = absurd (cc)
length-filled (c ∷ a) h = omega arith

module _ (to_ascii : Bytes → Option Bytes) where
  -- What `validName` returns is a host name: 1 to 253 bytes, labels of 1 to 63 bytes, of lower-case
  -- letters, digits, dashes and underscores.
  pub valid_name-IsHostname : (s d : Bytes) → valid_name to_ascii s ≡ some d → IsHostname d
  unfolding valid_name
  valid_name-IsHostname s d h =
      let a : Bytes = or_else (to_ascii (to_lower (trim_dot s))) (to_lower (trim_dot s)) in
      record {
        filled = ground (arith, length-filled a);
        short = ground arith;
        labels = ground arith;
      }

  valid_domain_name :
      (s d : Bytes) → valid_domain to_ascii s ≡ some d → valid_name to_ascii s ≡ some d
  unfolding valid_domain
  valid_domain_name s d h = ground arith

  -- A domain that the parser accepts, once added to a set, is matched by every name that is it or
  -- lies below it, in whatever case and with or without a trailing dot that name is written.
  match-valid_domain :
      (s d q : Bytes) (set : List Bytes)
      → valid_domain to_ascii s ≡ some d
      → IsAncestor d (normalize q)
      → match (add d set) q ≢ none
  match-valid_domain s d q set h above found =
      let host = valid_name-IsHostname s d (valid_domain_name s d h) in
      let none_above : IsBest (add d set) (normalize q) none =
        subst (IsBest (add d set) (normalize q)) found (match-IsBest (add d set) q) in
      ground (
        arith,
        none_above d above,
        contains-add d d set,
        normalize-IsHostname d host,
        bytes_eq_refl d,
      )

  -- Accepting is idempotent, where the encoder leaves a host name as it is.
  valid_name_idem :
      (s d : Bytes)
      → ((x : Bytes) → IsHostname x → or_else (to_ascii x) x ≡ x)
      → valid_name to_ascii s ≡ some d
      → valid_name to_ascii d ≡ some d
  valid_name_idem s d keeps h =
      let host = valid_name-IsHostname s d h in
      let same : to_lower (trim_dot d) ≡ d = unfold normalize in normalize-IsHostname d host in
      unfold valid_name in
      rw (same, keeps d host) (ground (arith, host.filled, host.short, host.labels))
