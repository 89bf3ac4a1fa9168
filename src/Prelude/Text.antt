-- ===== src/Prelude/Text.antt =====
-- More of package strings over bytes: white space, fields, splitting. White space is that of ASCII;
-- a text with Unicode's further spaces is outside the model.
use dnsaur.Prelude.Tests.{◌==◌, leb, if◌then◌else◌}
use dnsaur.Prelude.Lists.{is_empty, any}
use dnsaur.Prelude.Bytes.{Bytes}
use Prim.Native.Nat.{ℕ}
use mathlib.Core.Bool.{Bool, true, false, ◌&&◌, ◌||◌}
use mathlib.Core.List.{List, [], ◌∷◌, ◌++◌}

-- `unicode.IsSpace` on an ASCII byte.
unfoldable pub is_space : ℕ → Bool
is_space c = c == 32 || leb 9 c && leb c 13

unfoldable pub trim_left : Bytes → Bytes
trim_left [] = []
trim_left (c ∷ s) = elim (is_space c) [ true ↦ trim_left s | false ↦ c ∷ s ]

unfoldable pub trim_right : Bytes → Bytes
trim_right [] = []
trim_right (c ∷ s) = let r = trim_right s in if is_empty r && is_space c then [] else c ∷ r

-- `strings.TrimSpace`.
unfoldable pub trim_space : Bytes → Bytes
unfolding trim_left trim_right is_space
trim_space s = trim_right (trim_left s)

flush : Bytes → List Bytes → List Bytes
flush [] rest = rest
flush (c ∷ cur) rest = (c ∷ cur) ∷ rest

fields_from : Bytes → Bytes → List Bytes
fields_from cur [] = flush cur []
fields_from cur (c ∷ s) = elim (is_space c) [
  | true ↦ flush cur (fields_from [] s)
  | false ↦ fields_from (cur ++ c ∷ []) s
]

-- `strings.Fields`.
unfoldable pub fields : Bytes → List Bytes
unfolding fields_from flush is_space
fields s = fields_from [] s

unfoldable pub on_head : ℕ → List Bytes → List Bytes
on_head c [] = []
on_head c (p ∷ ps) = (c ∷ p) ∷ ps

-- `strings.Split(s, b)` for a separator of one byte.
unfoldable pub split : ℕ → Bytes → List Bytes
unfolding on_head
split b [] = [] ∷ []
split b (c ∷ s) = let rest = split b s in if c == b then [] ∷ rest else on_head c rest

-- `strings.ContainsAny`.
unfoldable pub contains_any : Bytes → Bytes → Bool
contains_any s chars = any (λ c. any (λ d. c == d) chars) s
