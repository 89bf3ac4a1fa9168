-- ===== src/Filter/Ruleset/Order.antt =====
-- The order of the stages of `Evaluate` of internal/filter/ruleset.go.
use dnsaur.Prelude.{
  ◌≡◌, refl, Bool, true, false, ◌&&◌, ◌||◌, not, Option, none, some, List, [], ◌∷◌, arith, any, inl,
  inr, Bool-cases, if◌then◌else◌,
}
use dnsaur.Prelude.Bytes.{Bytes, bytes_eq}
use dnsaur.Filter.DomainSet.{match}
use dnsaur.Filter.Ruleset.{
  CompiledList, RegexRule, Ruleset, allow, block, no_action, excused, regex_hit, allow_hit,
  block_hit, evaluate,
}

-- A set covers a name if `Match` finds an entry.
unfoldable pub covers : List Bytes → Bytes → Bool
covers s qname = elim (match s qname) [ none ↦ false | some _ ↦ true ]

unfoldable pub regex_says : Bytes → Bytes → RegexRule → Bool
regex_says action qname rr = bytes_eq rr.action action && rr.re.match_string qname

unfoldable pub list_allows : Bytes → CompiledList → Bool
list_allows qname l = bytes_eq l.kind allow && covers l.set qname

unfoldable pub list_blocks : Bytes → CompiledList → Bool
list_blocks qname l = bytes_eq l.kind block && not (excused qname l.except) && covers l.set qname

-- The documented precedence, in six questions.
unfoldable pub action_of : Ruleset → Bytes → Bytes
action_of rs qname =
    if covers rs.manual_allow qname || any (regex_says allow qname) rs.regexes
    then allow
    else if covers rs.manual_block qname || any (regex_says block qname) rs.regexes
    then block
    else if any (list_allows qname) rs.lists
    then allow
    else if any (list_blocks qname) rs.lists
    then block
    else no_action

abbrev is_some {ℓ} : {A : Type ℓ} → Option A → Bool
is_some none = false
is_some (some _) = true

regex_hit-any :
    (action qname : Bytes) (rules : List RegexRule)
    → is_some (regex_hit action qname rules) ≡ any (regex_says action qname) rules
unfolding regex_hit regex_says
regex_hit-any action qname [] = refl
regex_hit-any action qname (rr ∷ rest) =
    elim (Bool-cases (bytes_eq rr.action action && rr.re.match_string qname)) [
      | inl hit ↦ rw hit
      | inr miss ↦ rw miss (regex_hit-any action qname rest)
    ]

allow_hit-any :
    (qname : Bytes) (ls : List CompiledList)
    → is_some (allow_hit qname ls) ≡ any (list_allows qname) ls
unfolding allow_hit list_allows covers
allow_hit-any qname [] = refl
allow_hit-any qname (l ∷ ls) = ground (arith, allow_hit-any qname ls)

block_hit-any :
    (qname : Bytes) (ls : List CompiledList)
    → is_some (block_hit qname ls) ≡ any (list_blocks qname) ls
unfolding block_hit list_blocks covers
block_hit-any qname [] = refl
block_hit-any qname (l ∷ ls) = ground (arith, block_hit-any qname ls)

-- The action of every verdict is that of the documented precedence: a manual or regex allow, then a
-- manual or regex block, then an allow list, then a block list whose own exceptions do not cover the
-- name.
pub evaluate-action_of :
    (rs : Ruleset) (qname : Bytes) → (evaluate rs qname).action ≡ action_of rs qname
unfolding evaluate action_of covers
evaluate-action_of rs qname = ground (
  arith,
  regex_hit-any allow qname rs.regexes,
  regex_hit-any block qname rs.regexes,
  allow_hit-any qname rs.lists,
  block_hit-any qname rs.lists,
)
