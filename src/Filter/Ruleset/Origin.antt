-- ===== src/Filter/Ruleset/Origin.antt =====
-- The manual part of a ruleset compiled by internal/filter/ruleset.go.
use dnsaur.Prelude.{
  ℕ, ◌≡◌, refl, Bool, true, false, ◌&&◌, ◌||◌, not, Option, List, [], ◌∷◌, arith, any,
  if◌then◌else◌,
}
use dnsaur.Prelude.Bytes.{Bytes, bytes_eq}
use dnsaur.Filter.DomainSet.{normalize, contains}
use dnsaur.Filter.DomainSet.Matching.{contains-add}
use dnsaur.Filter.Ruleset.{
  new_ruleset, Regexp, Rule, Ruleset, CompiledList, allow, id_of, compile_rule, compile_rules,
  compile,
}

-- A plain rule whose normalised pattern is `m`; every action that is not allow blocks.
unfoldable pub is_manual : Bool → Bytes → Rule → Bool
is_manual allows m r =
    not r.is_regex
    && (if bytes_eq r.action allow then allows else not allows)
    && bytes_eq (normalize r.pattern) m

-- The id of the last such rule, `id` without one.
unfoldable pub last_id : Bool → Bytes → ℕ → List Rule → ℕ
last_id allows m id [] = id
last_id allows m id (r ∷ rules) = last_id allows m (if is_manual allows m r then r.id else id) rules

-- The two halves of a ruleset that one action fills.
unfoldable pub entries : Bool → Ruleset → List Bytes
entries true rs = rs.manual_allow
entries false rs = rs.manual_block

unfoldable pub ids : Bool → Ruleset → List (Bytes × ℕ)
ids true rs = rs.manual_allow_id
ids false rs = rs.manual_block_id

module _ (compile_regexp : Bytes → Option Regexp) where
  contains-compile_rule :
      (allows : Bool) (m : Bytes) (rs : Ruleset) (r : Rule)
      → contains (entries allows (compile_rule compile_regexp rs r)) m
        ≡ (is_manual allows m r || contains (entries allows rs) m)
  unfolding compile_rule entries is_manual
  contains-compile_rule true m rs r = ground (arith, contains-add r.pattern m rs.manual_allow)
  contains-compile_rule false m rs r = ground (arith, contains-add r.pattern m rs.manual_block)

  id_of-compile_rule :
      (allows : Bool) (m : Bytes) (rs : Ruleset) (r : Rule)
      → id_of (ids allows (compile_rule compile_regexp rs r)) m
        ≡ (if is_manual allows m r then r.id else id_of (ids allows rs) m)
  unfolding compile_rule ids is_manual id_of
  id_of-compile_rule true m rs r = ground arith
  id_of-compile_rule false m rs r = ground arith

  contains-compile_rules :
      (allows : Bool) (m : Bytes) (rules : List Rule) (rs : Ruleset)
      → contains (entries allows (compile_rules compile_regexp rs rules)) m
        ≡ (any (is_manual allows m) rules || contains (entries allows rs) m)
  unfolding compile_rules
  contains-compile_rules allows m [] rs = refl
  contains-compile_rules allows m (r ∷ rules) rs = ground (
    arith,
    contains-compile_rules allows m rules (compile_rule compile_regexp rs r),
    contains-compile_rule allows m rs r,
  )

  id_of-compile_rules :
      (allows : Bool) (m : Bytes) (rules : List Rule) (rs : Ruleset)
      → id_of (ids allows (compile_rules compile_regexp rs rules)) m
        ≡ last_id allows m (id_of (ids allows rs) m) rules
  unfolding compile_rules last_id
  id_of-compile_rules allows m [] rs = refl
  id_of-compile_rules allows m (r ∷ rules) rs =
      rw (← id_of-compile_rule allows m rs r)
        (id_of-compile_rules allows m rules (compile_rule compile_regexp rs r))

  -- A compiled ruleset holds, on each side, exactly the normalised patterns of the plain rules of
  -- that side, and gives each of them the id of the last rule that has it.
  compile-manual :
      (allows : Bool) (m : Bytes) (rules : List Rule) (lists : List CompiledList)
      → (contains (entries allows (compile compile_regexp rules lists)) m
          ≡ any (is_manual allows m) rules)
        × (id_of (ids allows (compile compile_regexp rules lists)) m ≡ last_id allows m 0 rules)
  unfolding compile contains id_of entries ids
  compile-manual true m rules lists = (
    ground (arith, contains-compile_rules true m rules (new_ruleset lists)),
    ground (arith, id_of-compile_rules true m rules (new_ruleset lists)),
  )
  compile-manual false m rules lists = (
    ground (arith, contains-compile_rules false m rules (new_ruleset lists)),
    ground (arith, id_of-compile_rules false m rules (new_ruleset lists)),
  )
