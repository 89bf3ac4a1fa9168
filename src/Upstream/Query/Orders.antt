-- ===== src/Upstream/Query/Orders.antt =====
-- The lists of upstreams that `Handler` of internal/upstream/forwarder.go goes through.
use dnsaur.Prelude.{
  ℕ, ◌≡◌, ◌⊎◌, refl, sym, ap, subst, ◌∙◌, Bool, true, false, List, [], ◌∷◌, Bool-cases, inl, inr,
  if◌then◌else◌, ltb, ◌↔◌, keep, is_empty,
}
use dnsaur.Upstream.{Strategy, failover, fastest, race, Forwarder}
use dnsaur.Upstream.Query.{is_healthy, ewma_of, Env, choose, ordered}

-- Membership in a list of pointers.
abbrev pub In : ℕ → List ℕ → Type 0
In p [] = ⊥
In p (q ∷ qs) = (p ≡ q) ⊎ In p qs

In-keep : (ok : ℕ → Bool) (p : ℕ) (ps : List ℕ) → ok p ≡ true → In p ps → In p (keep ok ps)
In-keep ok p [] fine here = here
In-keep ok p (q ∷ ps) fine (inl same) =
    subst (λ b. In p (if b then q ∷ keep ok ps else keep ok ps)) (sym fine ∙ ap ok same) (inl same)
In-keep ok p (q ∷ ps) fine (inr rest) = elim (Bool-cases (ok q)) [
  | inl e ↦ rw e (inr (In-keep ok p ps fine rest))
  | inr e ↦ rw e (In-keep ok p ps fine rest)
]

In-kept : (ok : ℕ → Bool) (p : ℕ) (ps : List ℕ) → In p (keep ok ps) → In p ps
In-kept ok p [] = λ here. here
In-kept ok p (q ∷ ps) = elim (Bool-cases (ok q)) [
  | inl e ↦ rw e (λ here. elim here [ inl same ↦ inl same | inr rest ↦ inr (In-kept ok p ps rest) ])
  | inr e ↦ rw e (λ here. inr (In-kept ok p ps here))
]

not_empty : (p : ℕ) (ps : List ℕ) → In p ps → is_empty ps ≡ false
not_empty p [] here = absurd here
not_empty p (q ∷ ps) here = refl

pub In-choose :
    (env : Env) (f : Forwarder) (p : ℕ) (ps : List ℕ)
    → is_healthy env f.heap p ≡ true
    → In p ps
    → In p (choose env f ps)
unfolding choose
In-choose env f p ps up here =
    let kept = In-keep (is_healthy env f.heap) p ps up here in
    subst (λ b. In p (if b then ps else keep (is_healthy env f.heap) ps))
      (sym (not_empty p (keep (is_healthy env f.heap) ps) kept)) kept

pub In-chosen : (env : Env) (f : Forwarder) (p : ℕ) (ps : List ℕ) → In p (choose env f ps) → In p ps
unfolding choose
In-chosen env f p ps = elim (Bool-cases (is_empty (keep (is_healthy env f.heap) ps))) [
  | inl down ↦ rw down (λ here. here)
  | inr up ↦ rw up (λ here. In-kept (is_healthy env f.heap) p ps here)
]

-- The order in which upstreams are sorted, or answer, loses and adds none.
abbrev pub Rearranges : (List ℕ → List ℕ) → Type 0
Rearranges order = (ps : List ℕ) (p : ℕ) → In p ps ↔ In p (order ps)

pub In-ordered :
    (env : Env) (f : Forwarder) (p : ℕ) (ps : List ℕ)
    → ((less : ℕ → ℕ → Bool) → Rearranges (env.sort less))
    → Rearranges env.arrivals
    → In p ps ↔ In p (ordered env f ps)
unfolding ordered
In-ordered env f p ps sorts arrives = one f.strategy
  where
    one :
        (s : Strategy)
        → In p ps
          ↔ In p (elim s as (λ x. List ℕ) [
            | failover ↦ ps
            | fastest ↦ env.sort (λ a b. ltb (ewma_of f.heap a) (ewma_of f.heap b)) ps
            | race ↦ env.arrivals ps
          ])
    one failover = (λ h. h, λ h. h)
    one fastest = sorts _ ps p
    one race = arrives ps p
