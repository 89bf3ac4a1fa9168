-- ===== src/Filter/Parse/Entries.antt =====
-- `ParseList` of internal/filter/parse.go over whole inputs: its loops, and what its entries are.
use dnsaur.Prelude.{
  ℕ, zero, suc, ◌+◌, ◌≤◌, ◌<◌, ◌≡◌, ◌≢◌, refl, Bool, true, false, Option, none, some, List, [], ◌∷◌,
  ◌++◌, ◌^◌, arith, All, length, ◌==◌, if◌then◌else◌, Bool-cases, inl, inr, drop,
}
use dnsaur.Prelude.Bytes.{Bytes, dot, cut_byte}
use dnsaur.Prelude.Text.{fields}
use dnsaur.Filter.Parse.{
  ParseResult, SliceEnd, delim, eof, full, read_slice, valid_domain, wildcard_domain, abp_domain,
  trim_caret, skip, add_block, add_allow, parse_fields, parse_rule, parse_line, parse_slice, resync,
  parse_loop, parse_list, no_entries,
}
use dnsaur.Filter.Parse.Names.{IsHostname, valid_name-IsHostname}

pub record IsEntry (d : Bytes) : Type 0 where
  pub host : IsHostname d
  pub dotted : cut_byte dot d ≢ none

pub record IsClean (res : ParseResult) : Type 0 where
  pub block : All IsEntry res.block
  pub allow : All IsEntry res.allow

All-append {ℓ κ} :
    {A : Type ℓ} (P : A → Type κ) (xs : List A) (y : A) → All P xs → P y → All P (xs ++ y ∷ [])
All-append P [] y hx hy = (hy, tt)
All-append P (x ∷ xs) y hx hy = (hx.0, All-append P xs y hx.1 hy)

skip-IsClean : (res : ParseResult) → IsClean res → IsClean (skip res)
unfolding skip
skip-IsClean res h = record { block = h.block; allow = h.allow }

module _ (to_ascii : Bytes → Option Bytes) where
  pub valid_domain-IsEntry : (s d : Bytes) → valid_domain to_ascii s ≡ some d → IsEntry d
  unfolding valid_domain
  valid_domain-IsEntry s d h = record {
    host = valid_name-IsHostname to_ascii s d (ground arith);
    dotted = λ e. ground arith;
  }

  -- An option holds only entries.
  abbrev Yields : Option Bytes → Type 0
  Yields o = (d : Bytes) → o ≡ some d → IsEntry d

  abp_domain-Yields : (s : Bytes) → Yields (abp_domain to_ascii s)
  unfolding abp_domain
  abp_domain-Yields s d h = valid_domain-IsEntry (trim_caret s) d (ground arith)

  add_block-IsClean :
      (res : ParseResult) (o : Option Bytes)
      → IsClean res
      → Yields o
      → IsClean (add_block to_ascii res o)
  unfolding add_block
  add_block-IsClean res none h y = record { block = h.block; allow = h.allow }
  add_block-IsClean res (some d) h y = record {
    block = All-append IsEntry res.block d h.block (y d refl);
    allow = h.allow;
  }

  add_allow-IsClean :
      (res : ParseResult) (o : Option Bytes)
      → IsClean res
      → Yields o
      → IsClean (add_allow to_ascii res o)
  unfolding add_allow
  add_allow-IsClean res none h y = record { block = h.block; allow = h.allow }
  add_allow-IsClean res (some d) h y = record {
    block = h.block;
    allow = All-append IsEntry res.allow d h.allow (y d refl);
  }

  wildcard_domain-Yields : (s : Bytes) → Yields (wildcard_domain to_ascii s)
  unfolding wildcard_domain
  wildcard_domain-Yields s d h = valid_domain-IsEntry _ d h

  if-IsClean : (b : Bool) (x y : ParseResult) → IsClean x → IsClean y → IsClean (if b then x else y)
  if-IsClean true x y hx hy = hx
  if-IsClean false x y hx hy = hy

  parse_fields-IsClean :
      (res : ParseResult) (fs : List Bytes) → IsClean res → IsClean (parse_fields to_ascii res fs)
  unfolding parse_fields
  parse_fields-IsClean res [] h = skip-IsClean res h
  parse_fields-IsClean res (f ∷ []) h = add_block-IsClean res _ h (wildcard_domain-Yields f)
  parse_fields-IsClean res (f ∷ g ∷ []) h =
      if-IsClean _ _ _ (add_block-IsClean res _ h (wildcard_domain-Yields g)) (skip-IsClean res h)
  parse_fields-IsClean res (f ∷ g ∷ k ∷ fs) h = skip-IsClean res h

  parse_rule-IsClean :
      (res : ParseResult) (line : Bytes) → IsClean res → IsClean (parse_rule to_ascii res line)
  unfolding parse_rule
  parse_rule-IsClean res line h =
      if-IsClean _ _ _ (add_allow-IsClean res _ h (abp_domain-Yields (drop 4 line))) (
        if-IsClean _ _ _ (add_block-IsClean res _ h (abp_domain-Yields (drop 2 line)))
          (parse_fields-IsClean res (fields line) h))

  parse_line-IsClean :
      (res : ParseResult) (raw : Bytes) → IsClean res → IsClean (parse_line to_ascii res raw)
  unfolding parse_line
  parse_line-IsClean res raw h = if-IsClean _ _ _ h (parse_rule-IsClean res _ h)

  parse_slice-IsClean :
      (res : ParseResult) (line : Bytes) → IsClean res → IsClean (parse_slice to_ascii res line)
  unfolding parse_slice
  parse_slice-IsClean res line h = if-IsClean _ _ _ h (parse_line-IsClean res line h)

-- A slice that does not end the input takes something of it.
pub record Takes (size : ℕ) (s : Bytes) (r : Bytes × SliceEnd × Bytes) : Type 0 where
  pub by_delim : r.1 ≡ delim → length r.2 < length s
  pub by_full : r.1 ≡ full → length r.2 + size ≤ length s

read_slice-Takes : (size : ℕ) (s : Bytes) → Takes size s (read_slice size s)
unfolding read_slice
read_slice-Takes zero s = record { by_delim = λ e. absurd (cc); by_full = λ e. omega arith }
read_slice-Takes (suc n) [] = record { by_delim = λ e. absurd (cc); by_full = λ e. absurd (cc) }
read_slice-Takes (suc n) (c ∷ s) = elim (Bool-cases (c == 10)) [
  | inl here ↦ rw here (record { by_delim = λ e. omega arith; by_full = λ e. absurd (cc) })
  | inr later ↦
      let rest = read_slice-Takes n s in
      rw later (record {
        by_delim = λ e. omega (arith, rest.by_delim e);
        by_full = λ e. omega (arith, rest.by_full e);
      })
]

-- The rounds that the skipping of a long line takes at most.
rounds : SliceEnd → Bytes → ℕ
rounds full s = length s + 1
rounds _ s = 0

record Resynced (fuel size : ℕ) (e : SliceEnd) (s : Bytes) : Type 0 where
  end : SliceEnd
  left : Bytes
  result : resync fuel size (e, s) ≡ some (end, left)
  stopped : end ≢ full
  shrunk : length left ≤ length s

resync-full :
    (fuel size : ℕ) (s : Bytes)
    → length (read_slice size s).2 ≤ length s
    → Resynced fuel size (read_slice size s).1 (read_slice size s).2
    → Resynced (suc fuel) size full s
unfolding resync
resync-full fuel size s le r = record {
  end = r.end;
  left = r.left;
  result = r.result;
  stopped = r.stopped;
  shrunk = omega (arith, r.shrunk);
}

read_slice-le : (size : ℕ) (s : Bytes) → length (read_slice size s).2 ≤ length s
unfolding read_slice
read_slice-le zero s = omega arith
read_slice-le (suc n) [] = omega arith
read_slice-le (suc n) (c ∷ s) = ground (arith, read_slice-le n s)

rounds_left :
    (size : ℕ) (s : Bytes) (e : SliceEnd)
    → 0 < size
    → (read_slice size s).1 ≡ e
    → rounds e (read_slice size s).2 < length s + 1
unfolding rounds
rounds_left size s full pos h = omega (arith, (read_slice-Takes size s).by_full h)
rounds_left size s delim pos h = omega arith
rounds_left size s eof pos h = omega arith

-- With enough fuel the skipping of a long line ends, at a newline or at the end of the input.
resync_total :
    (fuel size : ℕ) (e : SliceEnd) (s : Bytes)
    → 0 < size
    → rounds e s < fuel
    → Resynced fuel size e s
unfolding rounds
resync_total zero size e s pos h = absurd (omega arith)
resync_total (suc fuel) size delim s pos h =
    unfold resync in
    record { end = delim; left = s; result = refl; stopped = λ x. cc; shrunk = omega arith }
resync_total (suc fuel) size eof s pos h =
    unfold resync in
    record { end = eof; left = s; result = refl; stopped = λ x. cc; shrunk = omega arith }
resync_total (suc fuel) size full s pos h = resync-full fuel size s (read_slice-le size s) (
    resync_total fuel size (read_slice size s).1 (read_slice size s).2 pos
      (omega (arith, rounds_left size s (read_slice size s).1 pos refl)))

module _ (to_ascii : Bytes → Option Bytes) where
  abbrev Parses : ℕ → ℕ → ParseResult → Bytes → Type 0
  Parses fuel size res s =
      (out : ParseResult) × (parse_loop to_ascii fuel size res s ≡ some out) × IsClean out

  -- `parse_loop` behind its first slice, for each end of it.
  parse_loop-delim :
      (fuel size : ℕ) (res : ParseResult) (s : Bytes)
      → (read_slice size s).1 ≡ delim
      → Parses fuel size (parse_slice to_ascii res (read_slice size s).0) (read_slice size s).2
      → Parses (suc fuel) size res s
  unfolding parse_loop
  parse_loop-delim fuel size res s e (out, p, clean) = (out, rw (e, parse_loop) p, clean)

  parse_loop-eof :
      (fuel size : ℕ) (res : ParseResult) (s : Bytes)
      → (read_slice size s).1 ≡ eof
      → IsClean res
      → Parses (suc fuel) size res s
  unfolding parse_loop
  parse_loop-eof fuel size res s e h = (
    parse_slice to_ascii res (read_slice size s).0,
    rw (e, parse_loop),
    parse_slice-IsClean to_ascii res (read_slice size s).0 h,
  )

  parse_loop-full :
      (fuel size : ℕ) (res : ParseResult) (s left : Bytes) (end : SliceEnd)
      → (read_slice size s).1 ≡ full
      → resync (suc fuel) size (full, (read_slice size s).2) ≡ some (end, left)
      → end ≢ full
      → IsClean res
      → Parses fuel size (skip res) left
      → Parses (suc fuel) size res s
  unfolding parse_loop
  parse_loop-full fuel size res s left delim e r stopped h (out, p, clean) =
      (out, rw (e, r, parse_loop) p, clean)
  parse_loop-full fuel size res s left eof e r stopped h (out, p, clean) =
      (skip res, rw (e, r, parse_loop), skip-IsClean res h)
  parse_loop-full fuel size res s left full e r stopped h _ = absurd (stopped refl)

  parse_loop_next :
      (fuel size : ℕ) (res : ParseResult) (s : Bytes) (end : SliceEnd)
      → (read_slice size s).1 ≡ end
      → 0 < size
      → length s + 1 < suc fuel
      → IsClean res
      → ((res' : ParseResult) (s' : Bytes)
          → length s' + 1 < fuel
          → IsClean res'
          → Parses fuel size res' s')
      → Parses (suc fuel) size res s
  parse_loop_next fuel size res s delim e pos h clean next = parse_loop-delim fuel size res s e (
      next _ _ (omega (arith, (read_slice-Takes size s).by_delim e))
        (parse_slice-IsClean to_ascii res (read_slice size s).0 clean))
  parse_loop_next fuel size res s eof e pos h clean next = parse_loop-eof fuel size res s e clean
  parse_loop_next fuel size res s full e pos h clean next =
      let rest = (read_slice size s).2 in
      let taken = (read_slice-Takes size s).by_full e in
      let left_over = rounds_left size s full pos e in
      let r = resync_total (suc fuel) size full rest pos (omega arith) in
      let r_shrunk = r.shrunk in
      parse_loop-full fuel size res s r.left r.end e r.result r.stopped clean
        (next (skip res) r.left (omega arith) (skip-IsClean res clean))

  parse_loop_total :
      (fuel size : ℕ) (res : ParseResult) (s : Bytes)
      → 0 < size
      → length s + 1 < fuel
      → IsClean res
      → Parses fuel size res s
  parse_loop_total zero size res s pos h clean = absurd (omega arith)
  parse_loop_total (suc fuel) size res s pos h clean =
      parse_loop_next fuel size res s (read_slice size s).1 refl pos h clean
        (λ res' s' h' clean'. parse_loop_total fuel size res' s' pos h' clean')

  -- Parsing any list, with lines of any length, comes to an end, and every entry of the result is a
  -- host name with a dot in it.
  pub parse_list_total :
      (input : Bytes) → (out : ParseResult) × (parse_list to_ascii input ≡ some out) × IsClean out
  unfolding parse_list
  parse_list_total input =
      parse_loop_total (length input + 2) (2 ^ 20) no_entries input (omega arith) (omega arith)
        (record { block = tt; allow = tt })
