-- ===== src/Filter/Ruleset.antt =====
-- `Verdict`, `Ruleset`, `Compile` and `Evaluate` of internal/filter/ruleset.go. Package regexp is a
-- parameter: a compiled expression is its source and its test.
pub mod Order
pub mod Origin
use dnsaur.Prelude.{
  ℕ, ◌≡◌, Bool, true, false, ◌&&◌, Option, none, some, List, [], ◌∷◌, ◌++◌, if◌then◌else◌, not,
}
use dnsaur.Prelude.Bytes.{Bytes, bytes_eq, codes}
use dnsaur.Filter.DomainSet.{normalize, add, match}

abbrev pub allow : Bytes
allow = codes "allow"

abbrev pub block : Bytes
block = codes "block"

abbrev pub no_action : Bytes
no_action = codes "none"

pub record Verdict : Type 0 where
  pub action : Bytes
  pub rule_id : ℕ
  pub list_id : ℕ
  pub matched : Bytes

-- `CompiledList`; `except` is `none` for nil.
pub record CompiledList : Type 0 where
  pub id : ℕ
  pub kind : Bytes
  pub set : List Bytes
  pub except : Option (List Bytes)

-- `*regexp.Regexp`: `String` and `MatchString`.
pub record Regexp : Type 0 where
  pub source : Bytes
  pub match_string : Bytes → Bool

pub record RegexRule : Type 0 where
  pub id : ℕ
  pub action : Bytes
  pub re : Regexp

-- The fields of `store.Rule` that `Compile` reads.
pub record Rule : Type 0 where
  pub id : ℕ
  pub pattern : Bytes
  pub is_regex : Bool
  pub action : Bytes

pub record Ruleset : Type 0 where
  pub manual_allow : List Bytes
  pub manual_block : List Bytes
  pub manual_allow_id : List (Bytes × ℕ)
  pub manual_block_id : List (Bytes × ℕ)
  pub regexes : List RegexRule
  pub lists : List CompiledList

-- The ruleset that `Compile` starts from.
abbrev pub new_ruleset : List CompiledList → Ruleset
new_ruleset lists = record {
  manual_allow = [];
  manual_block = [];
  manual_allow_id = [];
  manual_block_id = [];
  regexes = [];
  lists = lists;
}

-- `m[k]`, 0 where `m` has no `k`; a write stands in front of those before it.
unfoldable pub id_of : List (Bytes × ℕ) → Bytes → ℕ
id_of [] k = 0
id_of ((j, v) ∷ m) k = if bytes_eq j k then v else id_of m k

module _ (compile_regexp : Bytes → Option Regexp) where
  add_regex : Ruleset → Rule → Option Regexp → Ruleset
  add_regex rs r none = rs
  add_regex rs r (some re) = record rs {
    regexes = rs.regexes ++ (record { id = r.id; action = r.action; re = re }) ∷ [];
  }

  -- One round of the loop of `Compile`.
  unfoldable pub compile_rule : Ruleset → Rule → Ruleset
  unfolding add_regex
  compile_rule rs r =
      if r.is_regex
      then add_regex rs r (compile_regexp r.pattern)
      else if bytes_eq r.action allow
      then record rs {
        manual_allow = add r.pattern rs.manual_allow;
        manual_allow_id = (normalize r.pattern, r.id) ∷ rs.manual_allow_id;
      }
      else record rs {
        manual_block = add r.pattern rs.manual_block;
        manual_block_id = (normalize r.pattern, r.id) ∷ rs.manual_block_id;
      }

  unfoldable pub compile_rules : Ruleset → List Rule → Ruleset
  compile_rules rs [] = rs
  compile_rules rs (r ∷ rules) = compile_rules (compile_rule rs r) rules

  -- `Compile`.
  unfoldable pub compile : List Rule → List CompiledList → Ruleset
  compile rules lists = compile_rules (new_ruleset lists) rules

-- The first regex rule with this action that matches.
unfoldable pub regex_hit : Bytes → Bytes → List RegexRule → Option RegexRule
regex_hit action qname [] = none
regex_hit action qname (rr ∷ rest) =
    if bytes_eq rr.action action && rr.re.match_string qname
    then some rr
    else regex_hit action qname rest

-- The loop over the allow lists: the first that matches, with its entry.
unfoldable pub allow_hit : Bytes → List CompiledList → Option (CompiledList × Bytes)
allow_hit qname [] = none
allow_hit qname (l ∷ rest) =
    let later = allow_hit qname rest in
    if not (bytes_eq l.kind allow)
    then later
    else elim (match l.set qname) [ none ↦ later | some m ↦ some (l, m) ]

-- `l.Except != nil` and its `Match`.
unfoldable pub excused : Bytes → Option (List Bytes) → Bool
excused qname none = false
excused qname (some s) = elim (match s qname) [ none ↦ false | some _ ↦ true ]

-- The loop over the block lists.
unfoldable pub block_hit : Bytes → List CompiledList → Option (CompiledList × Bytes)
block_hit qname [] = none
block_hit qname (l ∷ rest) =
    let later = block_hit qname rest in
    if not (bytes_eq l.kind block)
    then later
    else if excused qname l.except
    then later
    else elim (match l.set qname) [ none ↦ later | some m ↦ some (l, m) ]

abbrev rule_verdict : Bytes → ℕ → Bytes → Verdict
rule_verdict action id m = record { action = action; rule_id = id; list_id = 0; matched = m }

abbrev list_verdict : Bytes → Option (CompiledList × Bytes) → Verdict → Verdict
list_verdict action none v = v
list_verdict action (some (l, m)) v = record {
  action = action;
  rule_id = 0;
  list_id = l.id;
  matched = m;
}

abbrev regex_verdict : Bytes → Option RegexRule → Verdict → Verdict
regex_verdict action none v = v
regex_verdict action (some rr) v = rule_verdict action rr.id rr.re.source

abbrev manual_verdict : Bytes → List (Bytes × ℕ) → Option Bytes → Verdict → Verdict
manual_verdict action ids none v = v
manual_verdict action ids (some m) v = rule_verdict action (id_of ids m) m

abbrev pub no_verdict : Verdict
no_verdict = record { action = no_action; rule_id = 0; list_id = 0; matched = [] }

-- `Ruleset.Evaluate`: each stage returns its verdict, or hands on to those below it.
unfoldable pub evaluate : Ruleset → Bytes → Verdict
evaluate rs qname = manual_verdict allow rs.manual_allow_id (match rs.manual_allow qname) (
    regex_verdict allow (regex_hit allow qname rs.regexes) (
      manual_verdict block rs.manual_block_id (match rs.manual_block qname) (
        regex_verdict block (regex_hit block qname rs.regexes) (
          list_verdict allow (allow_hit qname rs.lists)
            (list_verdict block (block_hit qname rs.lists) no_verdict)))))
