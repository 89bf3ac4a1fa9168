-- ===== src/Cache/Ttl.antt =====
-- How long an answer is kept, and the TTLs that a client is given: `respTTL`, `clamp`, `withTTLs`
-- and `rewriteQuestion` of internal/cache/cache.go.
use dnsaur.Prelude.{
  ℕ, ◌+◌, ◌-◌, ◌*◌, ◌^◌, ◌≤◌, ◌<◌, ◌≡◌, refl, subst, ◌&&◌, not, Option, none, some, List, [], ◌∷◌,
  map, arith, All, ◌⊎◌, if◌then◌else◌, is_empty, ltb, leb, ◌==◌, Bool-cases, inl, inr,
}
use dnsaur.Prelude.Bytes.{Bytes, bytes_eq, to_lower}
use dnsaur.Dns.{Rr, RData, Question, Msg, type_opt, rcode_success, rcode_name_error}
use dnsaur.Cache.{Options, second}

-- `clamp`.
unfoldable pub clamp : ℕ → ℕ → ℕ → ℕ
clamp d lo hi = if ltb d lo then lo else if ltb hi d then hi else d

-- The seconds that an SOA in the authority section gives, `min(soa.Minttl, soa.Hdr.Ttl)`.
soa_ttl : Rr → RData → Option ℕ
soa_ttl rr (RData.soa _ _ _ _ _ _ minttl) = some (if ltb rr.ttl minttl then rr.ttl else minttl)
soa_ttl rr _ = none

-- The loop over `m.Ns`: the first SOA decides.
unfoldable pub negative_ttl : ℕ → List Rr → ℕ
unfolding soa_ttl
negative_ttl neg_ttl [] = neg_ttl
negative_ttl neg_ttl (rr ∷ rest) = elim (soa_ttl rr rr.rdata) [
  | none ↦ negative_ttl neg_ttl rest
  | some t ↦ t * second
]

-- The loop over `m.Answer`, from the largest uint32.
unfoldable pub least_ttl : ℕ → List Rr → ℕ
least_ttl least [] = least
least_ttl least (rr ∷ rest) = least_ttl (if ltb rr.ttl least then rr.ttl else least) rest

-- `respTTL`; `none` for an answer that is not kept.
unfoldable pub resp_ttl : Options → Msg → Option ℕ
unfolding clamp
resp_ttl o m =
    if not (m.rcode == rcode_success) && not (m.rcode == rcode_name_error)
    then none
    else if is_empty m.answer
    then some (clamp (negative_ttl o.neg_ttl m.ns) o.min_ttl o.max_ttl)
    else some (clamp (least_ttl (2 ^ 32 - 1) m.answer * second) o.min_ttl o.max_ttl)

unfoldable pub set_ttl : (ℕ → ℕ) → Rr → Rr
set_ttl set rr = if rr.rtype == type_opt then rr else record rr { ttl = set rr.ttl }

-- `withTTLs`.
unfoldable pub with_ttls : (ℕ → ℕ) → Msg → Msg
unfolding set_ttl
with_ttls set m = record m {
  answer = map (set_ttl set) m.answer;
  ns = map (set_ttl set) m.ns;
  extra = map (set_ttl set) m.extra;
}

-- The function that a fresh answer's TTLs are set by, at an age in seconds.
unfoldable pub aged : ℕ → ℕ → ℕ
aged age cur = if leb cur age then 1 else cur - age

unfoldable pub rename : Bytes → Bytes → Rr → Rr
rename old new rr =
    if bytes_eq (to_lower rr.name) (to_lower old) then record rr { name = new } else rr

unfoldable pub rewrite_from : Msg → List Question → List Question → Msg
unfolding rename
rewrite_from m [] qs = m
rewrite_from m (old ∷ _) [] = m
rewrite_from m (old ∷ _) (new ∷ qs) = record m {
  question = new ∷ qs;
  answer = map (rename old.name new.name) m.answer;
  ns = map (rename old.name new.name) m.ns;
  extra = map (rename old.name new.name) m.extra;
}

-- `rewriteQuestion(m, req)`; `EqualFold` on ASCII names is equality in lower case.
unfoldable pub rewrite_question : Msg → Msg → Msg
unfolding rewrite_from
rewrite_question m req = rewrite_from m m.question req.question

least_ttl_lem :
    (least : ℕ) (rrs : List Rr)
    → (least_ttl least rrs ≤ least) × All (λ rr. least_ttl least rrs ≤ rr.ttl) rrs
unfolding least_ttl
least_ttl_lem least [] = (omega arith, tt)
least_ttl_lem least (rr ∷ rest) =
    let (low, each) = least_ttl_lem (if ltb rr.ttl least then rr.ttl else least) rest in
    (ground arith, (ground arith, each))

-- The lifetime is above no record's own: it is at most the floor, or that record's TTL.
abbrev pub Outlived : ℕ → ℕ → List Rr → Type 0
Outlived d floor rrs = All (λ rr. (d ≤ floor) ⊎ (d ≤ rr.ttl * second)) rrs

Outlived-clamp :
    (t lo hi : ℕ) (rrs : List Rr)
    → All (λ rr. t ≤ rr.ttl) rrs
    → Outlived (clamp (t * second) lo hi) lo rrs
unfolding clamp
Outlived-clamp t lo hi [] h = tt
Outlived-clamp t lo hi (rr ∷ rrs) h = (clamped, Outlived-clamp t lo hi rrs h.1)
  where
    scaled : t * second ≤ rr.ttl * second
    scaled = omega (arith, h.0)

    clamped : (clamp (t * second) lo hi ≤ lo) ⊎ (clamp (t * second) lo hi ≤ rr.ttl * second)
    clamped = elim (Bool-cases (ltb (t * second) lo)) [
      | inl low ↦ inl (ground arith)
      | inr high ↦ inr (ground arith)
    ]

Outlived-answer :
    (o : Options) (m : Msg) (d : ℕ) (rrs : List Rr)
    → m.answer ≡ rrs
    → resp_ttl o m ≡ some d
    → Outlived d o.min_ttl rrs
unfolding resp_ttl
Outlived-answer o m d [] e h = tt
Outlived-answer o m d (rr ∷ rrs) e h =
    let least = least_ttl (2 ^ 32 - 1) (rr ∷ rrs) in
    let kept : clamp (least * second) o.min_ttl o.max_ttl ≡ d = ground (arith, e) in
    subst (λ x. Outlived x o.min_ttl (rr ∷ rrs)) kept
      (Outlived-clamp least o.min_ttl o.max_ttl (rr ∷ rrs)
        (least_ttl_lem (2 ^ 32 - 1) (rr ∷ rrs)).1)

-- An answer is kept within the configured limits. A positive one is kept for no longer than the TTL of
-- any of its records, unless the floor is longer.
resp_ttl_bounds :
    (o : Options) (m : Msg) (d : ℕ)
    → o.min_ttl ≤ o.max_ttl
    → resp_ttl o m ≡ some d
    → (o.min_ttl ≤ d) × (d ≤ o.max_ttl) × Outlived d o.min_ttl m.answer
unfolding resp_ttl
resp_ttl_bounds o m d le h = (ground arith, ground arith, Outlived-answer o m d m.answer refl h)

-- The record with a TTL that a fresh answer carries: at least one second, never more than the record
-- came with (but for a zero), and together with its age never past that.
pub aged_bounds :
    (age cur : ℕ)
    → (1 ≤ aged age cur) × (1 ≤ cur → aged age cur ≤ cur) × (age < cur → aged age cur + age ≡ cur)
unfolding aged
aged_bounds age cur = (ground arith, λ h. ground arith, λ h. ground arith)
