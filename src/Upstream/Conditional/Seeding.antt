-- ===== src/Upstream/Conditional/Seeding.antt =====
-- What `SetConditional` of internal/upstream/forwarder.go takes over from the outgoing table.
use dnsaur.Prelude.{
  ℕ, ◌<◌, ◌≡◌, ◌≢◌, refl, true, none, List, [], ◌∷◌, ◌++◌, arith, Bool-cases, inl, inr, All, length,
}
use dnsaur.Prelude.Bytes.{Bytes, bytes_eq, bytes_eq_refl}
use dnsaur.Upstream.{Up, Forwarder, addr_of}
use dnsaur.Upstream.Conditional.{among, lookup, table_ups, seed, start_build}
use dnsaur.Upstream.Conditional.Adoption.{Has, Indexed}

lookup-snoc :
    (a k : Bytes) (p : ℕ) (es : List (Bytes × ℕ))
    → lookup a (es ++ (k, p) ∷ []) ≡ none
    → (lookup a es ≡ none) × (k ≢ a)
unfolding lookup
lookup-snoc a k p [] h = (refl, λ e. absurd (ground (arith, e, bytes_eq_refl a)))
lookup-snoc a k p ((k', p') ∷ es) h = elim (Bool-cases (bytes_eq k' a)) [
  | inl same ↦ absurd (ground (arith, same))
  | inr other ↦
      let (before, last) = lookup-snoc a k p es (ground (arith, other)) in
      (ground (arith, other, before), last)
]

among-all :
    (ps old : List ℕ)
    → ((p : ℕ) → among p ps ≡ true → among p old ≡ true)
    → All (λ p. among p old ≡ true) ps
among-all [] old h = tt
among-all (p ∷ ps) old h = (h p (ground arith), among-all ps old (λ q e. h q (ground (arith, e))))

All-snoc :
    {A : Type 0} (P : A → Type 0) (xs : List A) (x : A) → All P xs → P x → All P (xs ++ x ∷ [])
All-snoc P [] x hs h = (h, tt)
All-snoc P (y ∷ ys) x (h', hs) h = (h', All-snoc P ys x hs h)

seed-Has :
    (heap : List Up) (old ps : List ℕ)
    → All (λ p. p < length heap) ps
    → All (λ p. among p old ≡ true) ps
    → All (λ e. Has heap old heap e.0 e.1) (seed heap ps)
unfolding seed
seed-Has heap old [] h there = tt
seed-Has heap old (p ∷ ps) (h, hs) (is_old, there) =
    All-snoc _ (seed heap ps) (addr_of heap p, p) (seed-Has heap old ps hs there)
      (h, refl, inl is_old)

seed-covers :
    (heap : List Up) (a : Bytes) (ps : List ℕ)
    → lookup a (seed heap ps) ≡ none
    → All (λ q. addr_of heap q ≢ a) ps
unfolding seed
seed-covers heap a [] h = tt
seed-covers heap a (p ∷ ps) h =
    let (before, other) = lookup-snoc a (addr_of heap p) p (seed heap ps) h in
    (other, seed-covers heap a ps before)

pub seed-Indexed :
    (f : Forwarder)
    → All (λ p. p < length f.heap) (table_ups f.cond)
    → Indexed f.heap (table_ups f.cond) (start_build f)
seed-Indexed f h = (
  seed-Has f.heap (table_ups f.cond) (table_ups f.cond) h
      (among-all (table_ups f.cond) (table_ups f.cond) (λ p e. e)),
  λ a e. seed-covers f.heap a (table_ups f.cond) e,
)
