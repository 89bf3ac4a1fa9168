-- ===== src/Upstream/Query/Held.antt =====
-- What the failure cache of internal/upstream/forwarder.go holds through its writes.
use dnsaur.Prelude.{
  ℕ, ◌+◌, ◌≤◌, ◌<◌, ◌≡◌, refl, sym, ap, subst, ◌∙◌, Bool, true, false, ◌&&◌, Option, none, some,
  List, [], ◌∷◌, arith, Bool-cases, Option-cases, inl, inr, if◌then◌else◌, leb, lt→ltb, keep,
  length,
}
use mathlib.Core.Bool.{false≢true}
use dnsaur.Prelude.Bytes.{Bytes, bytes_eq, bytes_eq_refl, bytes_eq→eq}
use dnsaur.Dns.{Msg}
use dnsaur.Upstream.{
  FailKey, Forwarder, Attempt, Reply, gives, panics, exchange, addr_of, mark_latency, settled,
  max_fail_cache_entries,
}
use dnsaur.Upstream.Query.{
  Env, same_key, find_fail, delete_fail, sweep, remember, Verdict, stops, goes, verdict, try, Tried,
}

-- The key has failed, and is not asked again before the instant.
abbrev pub Held : FailKey → ℕ → List (FailKey × ℕ) → Type 0
Held k until fails = (u : ℕ) × (find_fail k fails ≡ some u) × (until ≤ u)

pub same_key_refl : (k : FailKey) → same_key k k ≡ true
same_key_refl k = rw (bytes_eq_refl k.name) (ground arith)

find_fail-keep :
    (p : FailKey × ℕ → Bool) (k : FailKey) (u : ℕ) (fails : List (FailKey × ℕ))
    → find_fail k fails ≡ some u
    → ((k' : FailKey) → same_key k' k ≡ true → p (k', u) ≡ true)
    → find_fail k (keep p fails) ≡ some u
unfolding find_fail
find_fail-keep p k u [] found stays = found
find_fail-keep p k u ((k', u') ∷ fails) found stays = elim (Bool-cases (same_key k' k)) [
  | inl same ↦
      let e = subst (λ b. (if b then some u' else find_fail k fails) ≡ some u) same found in
      let eq : u' ≡ u = cc in rw (ap (λ x. p (k', x)) eq ∙ stays k' same) (rw same e)
  | inr other ↦
      let e = subst (λ b. (if b then some u' else find_fail k fails) ≡ some u) other found in
      let rest = find_fail-keep p k u fails e stays in
      elim (Bool-cases (p (k', u'))) [ inl kept ↦ rw kept (rw other rest) | inr cut ↦ rw cut rest ]
]

both : (x y : Bool) → (x && y) ≡ true → (x ≡ true) × (y ≡ true)
both x y h = ground arith

pub same_key-eq : (a b : FailKey) → same_key a b ≡ true → a ≡ b
same_key-eq a b h =
    let n = bytes_eq→eq a.name b.name (both (bytes_eq a.name b.name) _ h).0 in
    let t : a.qtype ≡ b.qtype = ground (arith, (both (bytes_eq a.name b.name) _ h).1) in cc

same_key-join : (a b c : FailKey) → same_key a b ≡ true → same_key a c ≡ true → same_key b c ≡ true
same_key-join a b c h h' = subst (λ k. same_key k c ≡ true) (same_key-eq a b h) h'

pub delete_fail-Held :
    (k k' : FailKey) (until : ℕ) (fails : List (FailKey × ℕ))
    → same_key k' k ≡ false
    → Held k until fails
    → Held k until (delete_fail k' fails)
unfolding delete_fail
delete_fail-Held k k' until fails other (u, found, le) = (
  u,
  find_fail-keep _ k u fails found (λ x same. elim (Bool-cases (same_key x k')) [
    | inl e ↦ absurd (false≢true (sym other ∙ same_key-join x k' k e same))
    | inr e ↦ rw e refl
  ]),
  le,
)

sweep-Held :
    (k : FailKey) (until now : ℕ) (fails : List (FailKey × ℕ))
    → now < until
    → Held k until fails
    → Held k until (sweep now fails)
unfolding sweep
sweep-Held k until now fails before (u, found, le) =
    (u, find_fail-keep _ k u fails found (λ x same. lt→ltb now u (omega (arith, before, le))), le)

pub remember-Held :
    (env : Env) (k k' : FailKey) (until : ℕ) (fails : List (FailKey × ℕ))
    → env.swept < until
    → same_key k' k ≡ false
    → Held k until fails
    → Held k until (remember env k' fails)
unfolding remember find_fail
remember-Held env k k' until fails before other h =
    let (u, found, le) = delete_fail-Held k k' until _ other swept in (u, rw other found, le)
  where
    swept :
        Held k until
          (if leb max_fail_cache_entries (length fails) then sweep env.swept fails else fails)
    swept = elim (Bool-cases (leb max_fail_cache_entries (length fails))) [
      | inl full ↦ rw full (sweep-Held k until env.swept fails before h)
      | inr free ↦ rw free h
    ]

exchange-fail_cache :
    (a : Attempt) (p : ℕ) (f : Forwarder) → (exchange a p f).0.fail_cache ≡ f.fail_cache
unfolding exchange settled mark_latency
exchange-fail_cache a p f = elim (Option-cases a.done) [
  | inl live ↦ rw live (go a.reply)
  | inr (e, done) ↦ rw done refl
]
  where
    go : (r : Reply) → (settled a p f r).0.fail_cache ≡ f.fail_cache
    go (panics text) = refl
    go (gives (some m) none) = refl
    go (gives none none) = refl
    go (gives (some m) (some e)) = refl
    go (gives none (some e)) = refl

pub try-fail_cache :
    (recovers : Bool) (env : Env) (out : Msg) (n : ℕ) (ps : List ℕ) (last : Option Bytes)
    (f : Forwarder)
    → (try recovers env out n ps last f).0.fail_cache ≡ f.fail_cache
unfolding try
try-fail_cache recovers env out n [] last f = refl
try-fail_cache recovers env out n (p ∷ ps) last f =
    one (exchange (env.attempt n (addr_of f.heap p) out) p f).0
      (verdict recovers (addr_of f.heap p) p
        (exchange (env.attempt n (addr_of f.heap p) out) p f).1)
      (λ e g. try-fail_cache recovers env out (n + 1) ps e g)
    ∙ exchange-fail_cache (env.attempt n (addr_of f.heap p) out) p f
  where
    one :
        (g : Forwarder) (v : Verdict)
        → ((e : Option Bytes) (g : Forwarder)
            → (try recovers env out (n + 1) ps e g).0.fail_cache ≡ g.fail_cache)
        → (elim v as (λ x. Forwarder × Tried) [
          | stops t ↦ (g, t)
          | goes e ↦ try recovers env out (n + 1) ps e g
        ]).0.fail_cache
          ≡ g.fail_cache
    one g (stops t) ih = refl
    one g (goes e) ih = ih e g
