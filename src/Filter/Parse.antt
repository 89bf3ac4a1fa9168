-- ===== src/Filter/Parse.antt =====
-- The list parser, internal/filter/parse.go. `idna.ToASCII` is a parameter: `none` for its error, and
-- otherwise what it makes of a name whose ASCII letters are in lower case.
pub mod Names
pub mod Entries
use dnsaur.Prelude.{
  ℕ, zero, suc, ◌+◌, ◌^◌, Bool, true, false, ◌&&◌, ◌||◌, not, Option, none, some, List, [], ◌∷◌,
  ◌++◌, all, drop, is_empty, length, if◌then◌else◌, ltb, leb, ◌==◌,
}
use dnsaur.Prelude.Bytes.{
  Bytes, bytes_eq, codes, dot, to_lower, trim_dot, has_prefix, trim_prefix, cut_byte,
}
use dnsaur.Prelude.Text.{trim_space, fields, split, contains_any}

pub record ParseResult : Type 0 where
  pub block : List Bytes
  pub allow : List Bytes
  pub skipped : ℕ

-- The bytes that `validName` lets stand in a label.
unfoldable pub host_byte : ℕ → Bool
host_byte r = r == b'-' || r == b'_' || leb b'a' r && leb r b'z' || leb b'0' r && leb r b'9'

unfoldable pub label_ok : Bytes → Bool
unfolding host_byte
label_ok lbl = not (is_empty lbl || ltb 63 (length lbl)) && all host_byte lbl

unfoldable pub or_else : Option Bytes → Bytes → Bytes
or_else none s = s
or_else (some a) s = a

-- `strings.TrimSuffix(s, "^")`.
unfoldable pub trim_caret : Bytes → Bytes
trim_caret [] = []
trim_caret (c ∷ []) = if c == b'^' then [] else c ∷ []
trim_caret (c ∷ d ∷ s) = c ∷ trim_caret (d ∷ s)

abbrev bom : Bytes
bom = 0xEF ∷ 0xBB ∷ 0xBF ∷ []

abbrev wildcard_prefix : Bytes
wildcard_prefix = codes "*."

-- How a call of `br.ReadSlice('\n')` ends: at a newline, at the end of the input, or with the buffer
-- full. (The input ends by io.EOF or by another error, which the caller tells apart.)
pub data SliceEnd : Type 0 where
  delim eof full : SliceEnd

abbrev cons_slice : ℕ → Bytes × SliceEnd × Bytes → Bytes × SliceEnd × Bytes
cons_slice c (line, e, rest) = (c ∷ line, e, rest)

-- `ReadSlice` with room for the given number of bytes: the slice, how it ended, and the input left.
unfoldable pub read_slice : ℕ → Bytes → Bytes × SliceEnd × Bytes
read_slice zero s = ([], full, s)
read_slice (suc n) [] = ([], eof, [])
read_slice (suc n) (c ∷ s) =
    let more = cons_slice c (read_slice n s) in if c == 10 then (c ∷ [], delim, s) else more

pub skip : ParseResult → ParseResult
skip res = record res { skipped = res.skipped + 1 }

is_sink : Bytes → Bool
is_sink f =
    bytes_eq f (codes "0.0.0.0")
    || bytes_eq f (codes "127.0.0.1")
    || bytes_eq f (codes "::")
    || bytes_eq f (codes "::1")

-- `if i := strings.Index(line, "#"); i >= 0 { … }`.
strip_comment : Bytes → Bytes
strip_comment line = elim (cut_byte b'#' line) [ none ↦ line | some (l, _) ↦ trim_space l ]

-- `for errors.Is(err, bufio.ErrBufferFull) { _, err = br.ReadSlice('\n') }`.
pub resync : ℕ → ℕ → SliceEnd × Bytes → Option (SliceEnd × Bytes)
resync zero size _ = none
resync (suc fuel) size (full, s) =
    let (_, e, rest) = read_slice size s in resync fuel size (e, rest)
resync (suc fuel) size (e, s) = some (e, s)

abbrev pub no_entries : ParseResult
no_entries = record { block = []; allow = []; skipped = 0 }

module _ (to_ascii : Bytes → Option Bytes) where
  -- `validName`; `none` for the false that it returns.
  unfoldable pub valid_name : Bytes → Option Bytes
  unfolding or_else
  valid_name s =
      let l = to_lower (trim_dot s) in
      let a = or_else (to_ascii l) l in
      if is_empty a || ltb 253 (length a)
      then none
      else if all label_ok (split dot a)
      then some a
      else none

  has_dot : Option Bytes → Option Bytes
  has_dot none = none
  has_dot (some s) = elim (cut_byte dot s) [ none ↦ none | some _ ↦ some s ]

  -- `validDomain`.
  unfoldable pub valid_domain : Bytes → Option Bytes
  unfolding has_dot
  valid_domain s = has_dot (valid_name s)

  -- `wildcardDomain`.
  unfoldable pub wildcard_domain : Bytes → Option Bytes
  wildcard_domain s = valid_domain (trim_prefix s wildcard_prefix)

  -- `abpDomain`.
  unfoldable pub abp_domain : Bytes → Option Bytes
  abp_domain s =
      let t = trim_caret s in if contains_any t (codes "/^$*|") then none else valid_domain t

  -- `RulePattern`.
  unfoldable pub rule_pattern : Bytes → Option Bytes
  rule_pattern s = valid_name (trim_prefix (trim_space s) wildcard_prefix)

  -- `res.Block = append(res.Block, d)`, or the line counted as skipped.
  add_block : ParseResult → Option Bytes → ParseResult
  unfolding skip
  add_block res none = skip res
  add_block res (some d) = record res { block = res.block ++ d ∷ [] }

  add_allow : ParseResult → Option Bytes → ParseResult
  unfolding skip
  add_allow res none = skip res
  add_allow res (some d) = record res { allow = res.allow ++ d ∷ [] }

  -- The default case of the switch, on the fields of the line.
  parse_fields : ParseResult → List Bytes → ParseResult
  unfolding is_sink add_block skip
  parse_fields res (f ∷ g ∷ []) = if is_sink f then add_block res (wildcard_domain g) else skip res
  parse_fields res (f ∷ []) = add_block res (wildcard_domain f)
  parse_fields res _ = skip res

  -- The switch of `parseLine`, behind the comment's removal.
  parse_rule : ParseResult → Bytes → ParseResult
  unfolding add_allow add_block parse_fields
  parse_rule res line =
      if has_prefix line (codes "@@||")
      then add_allow res (abp_domain (drop 4 line))
      else if has_prefix line (codes "||")
      then add_block res (abp_domain (drop 2 line))
      else parse_fields res (fields line)

  -- `parseLine`.
  unfoldable pub parse_line : ParseResult → Bytes → ParseResult
  unfolding parse_rule strip_comment
  parse_line res raw =
      let line = trim_space (trim_prefix raw bom) in
      if is_empty line || has_prefix line (codes "#") || has_prefix line (codes "!")
      then res
      else parse_rule res (strip_comment line)

  pub parse_slice : ParseResult → Bytes → ParseResult
  parse_slice res line = if is_empty line then res else parse_line res line

  -- The loop of `ParseList` with a buffer of `size` bytes; `none` if the fuel runs out.
  unfoldable pub parse_loop : ℕ → ℕ → ParseResult → Bytes → Option ParseResult
  parse_loop zero size res s = none
  parse_loop (suc fuel) size res s =
      let (line, e, rest) = read_slice size s in
      elim e [
        | delim ↦ parse_loop fuel size (parse_slice res line) rest
        | eof ↦ some (parse_slice res line)
        | full ↦ elim (resync (suc fuel) size (full, rest)) [
          | none ↦ none
          | some (e', rest') ↦ elim e' [
            | delim ↦ parse_loop fuel size (skip res) rest'
            | _ ↦ some (skip res)
          ]
        ]
      ]

  -- `ParseList` on an input that ends by io.EOF, or whose entries up to another error are returned
  -- with that error. `maxLineBytes` is 1 << 20.
  unfoldable pub parse_list : Bytes → Option ParseResult
  parse_list input = parse_loop (length input + 2) (2 ^ 20) no_entries input
