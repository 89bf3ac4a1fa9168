-- ===== src/Upstream/Query/Attempts.antt =====
-- One exchange of internal/upstream/forwarder.go, and a loop over them.
use dnsaur.Prelude.{
  ℕ, ◌+◌, ◌≡◌, ◌⊎◌, refl, sym, ap, subst, ◌∙◌, Bool, true, false, Option, none, some, List, [], ◌∷◌,
  arith, Bool-cases, Option-cases, inl, inr, if◌then◌else◌, ◌==◌, suc, zero,
}
use mathlib.Core.Bool.{false≢true}
use dnsaur.Prelude.Bytes.{Bytes}
use dnsaur.Dns.{Msg, rcode_server_failure}
use dnsaur.Upstream.{
  Up, Forwarder, Attempt, Reply, gives, panics, exchange, settled, update, mark_result,
  mark_latency, addr_of,
}
use dnsaur.Upstream.Query.{Env, Tried, won, Verdict, stops, goes, verdict, try}
use dnsaur.Upstream.Query.Orders.{In}

-- An exchange that keeps its contract: it returns a message or an error.
abbrev pub IsProper : Reply → Type 0
IsProper (panics text) = ⊥
IsProper (gives none none) = ⊥
IsProper (gives none (some e)) = Unit
IsProper (gives (some m) e) = Unit

-- An exchange that is made and ends in a message that is no SERVFAIL.
abbrev pub Good : Attempt → Msg → Type 0
Good a m =
    (a.done ≡ none) × (a.reply ≡ gives (some m) none) × ((m.rcode == rcode_server_failure) ≡ false)

addr_of-update :
    (i p : ℕ) (g : Up → Up) (heap : List Up)
    → ((u : Up) → (g u).addr ≡ u.addr)
    → addr_of (update i g heap) p ≡ addr_of heap p
unfolding update
addr_of-update i p g [] same = refl
addr_of-update zero zero g (u ∷ us) same = same u
addr_of-update zero (suc p) g (u ∷ us) same = refl
addr_of-update (suc i) zero g (u ∷ us) same = refl
addr_of-update (suc i) (suc p) g (u ∷ us) same = addr_of-update i p g us same

mark_result-addr :
    (ok : Bool) (latency now timeout_micro : ℕ) (u : Up)
    → (mark_result ok latency now timeout_micro u).addr ≡ u.addr
unfolding mark_result
mark_result-addr true latency now timeout_micro u = refl
mark_result-addr false latency now timeout_micro u = ground arith

exchange-addr :
    (a : Attempt) (i p : ℕ) (f : Forwarder) → addr_of (exchange a i f).0.heap p ≡ addr_of f.heap p
unfolding exchange settled mark_latency
exchange-addr a i p f = elim (Option-cases a.done) [
  | inl live ↦ rw live (go a.reply)
  | inr (e, done) ↦ rw done refl
]
  where
    marked : (ok : Bool) → addr_of (mark_latency i ok a.start a.landed f).heap p ≡ addr_of f.heap p
    marked ok = addr_of-update i p _ f.heap (mark_result-addr ok _ _ _)

    go : (r : Reply) → addr_of (settled a i f r).0.heap p ≡ addr_of f.heap p
    go (panics text) = refl
    go (gives (some m) none) = marked true
    go (gives none none) = marked false
    go (gives (some m) (some e)) = marked false
    go (gives none (some e)) = marked false

-- What one exchange means: its message ends the loop, or it was no good and the loop goes on.
abbrev Means : Attempt → ℕ → Verdict → Type 0
Means a p v =
    ((m : Msg) × Good a m × (v ≡ stops (won m p)))
    ⊎ (((m : Msg) → Good a m → ⊥) × ((e : Option Bytes) × (v ≡ goes e)))

one_message :
    (a : Attempt) (m m' : Msg)
    → a.reply ≡ gives (some m) none
    → a.reply ≡ gives (some m') none
    → m ≡ m'
one_message a m m' x y = cc

answered-Means :
    (a : Attempt) (p : ℕ) (m : Msg)
    → a.done ≡ none
    → a.reply ≡ gives (some m) none
    → Means a p (if m.rcode == rcode_server_failure then goes none else stops (won m p))
answered-Means a p m live e = elim (Bool-cases (m.rcode == rcode_server_failure)) [
  | inl failed ↦ rw failed (
      inr (
        (λ m' (d, x, fine). false≢true (
            sym fine
            ∙ ap (λ m. m.rcode == rcode_server_failure) (one_message a m' m x e)
            ∙ failed)),
        (none, refl),
      ))
  | inr fine ↦ rw fine (inl (m, (live, e, fine), refl))
]

verdict-Means :
    (recovers : Bool) (a : Attempt) (addr : Bytes) (p : ℕ) (f : Forwarder) (r : Reply)
    → IsProper r
    → a.done ≡ none
    → a.reply ≡ r
    → Means a p (verdict recovers addr p (settled a p f r).1)
unfolding settled verdict
verdict-Means recovers a addr p f (panics text) proper live e = absurd proper
verdict-Means recovers a addr p f (gives none none) proper live e = absurd proper
verdict-Means true a addr p f (gives none (some t)) proper live e =
    inr (λ m (d, x, y). cc, (some t, refl))
verdict-Means false a addr p f (gives none (some t)) proper live e =
    inr (λ m (d, x, y). cc, (some t, refl))
verdict-Means true a addr p f (gives (some m) (some t)) proper live e =
    inr (λ m (d, x, y). cc, (some t, refl))
verdict-Means false a addr p f (gives (some m) (some t)) proper live e =
    inr (λ m (d, x, y). cc, (some t, refl))
verdict-Means true a addr p f (gives (some m) none) proper live e = answered-Means a p m live e
verdict-Means false a addr p f (gives (some m) none) proper live e = answered-Means a p m live e

exchange-live :
    (a : Attempt) (p : ℕ) (f : Forwarder) → a.done ≡ none → exchange a p f ≡ settled a p f a.reply
unfolding exchange
exchange-live a p f live =
    ap
      (λ d. elim d as (λ x. Forwarder × Reply) [
        | some e ↦ (f, gives none (some e))
        | none ↦ settled a p f a.reply
      ])
      live

exchange-done :
    (a : Attempt) (p : ℕ) (f : Forwarder) (t : Bytes)
    → a.done ≡ some t
    → exchange a p f ≡ (f, gives none (some t))
unfolding exchange
exchange-done a p f t done =
    ap
      (λ d. elim d as (λ x. Forwarder × Reply) [
        | some e ↦ (f, gives none (some e))
        | none ↦ settled a p f a.reply
      ])
      done

exchange-Means :
    (recovers : Bool) (a : Attempt) (addr : Bytes) (p : ℕ) (f : Forwarder)
    → IsProper a.reply
    → Means a p (verdict recovers addr p (exchange a p f).1)
unfolding verdict
exchange-Means recovers a addr p f proper = elim (Option-cases a.done) [
  | inl live ↦
      subst (λ x. Means a p (verdict recovers addr p x.1)) (sym (exchange-live a p f live))
        (verdict-Means recovers a addr p f a.reply proper live refl)
  | inr (t, done) ↦
      subst (λ x. Means a p (verdict recovers addr p x.1)) (sym (exchange-done a p f t done))
        (cut recovers t done)
]
  where
    cut :
        (recovers : Bool) (t : Bytes)
        → a.done ≡ some t
        → Means a p (verdict recovers addr p (gives none (some t)))
    cut true t done = inr (λ m (live, _, _). ground (arith, live, done), (some t, refl))
    cut false t done = inr (λ m (live, _, _). ground (arith, live, done), (some t, refl))

-- The loop ends with the message of a good exchange.
abbrev pub Wins : Env → Msg → List ℕ → List Up → Tried → Type 0
Wins env out ps heap t =
    (m : Msg) × (p : ℕ) × (n : ℕ) × (t ≡ won m p)
    × In p ps
    × Good (env.attempt n (addr_of heap p) out) m

pub try-Wins :
    (recovers : Bool) (env : Env) (out : Msg) (n : ℕ) (ps : List ℕ) (last : Option Bytes)
    (f : Forwarder) (p : ℕ)
    → ((n : ℕ) (addr : Bytes) → IsProper (env.attempt n addr out).reply)
    → ((n : ℕ) → (m : Msg) × Good (env.attempt n (addr_of f.heap p) out) m)
    → In p ps
    → Wins env out ps f.heap (try recovers env out n ps last f).1
unfolding try
try-Wins recovers env out n [] last f p proper good here = absurd here
try-Wins recovers env out n (q ∷ ps) last f p proper good here =
    elim (exchange-Means recovers (env.attempt n (addr_of f.heap q) out) (addr_of f.heap q) q f
      (proper n (addr_of f.heap q))) [
        | inl (m, fine, v) ↦ (m, q, n, ap outcome v, inl refl, fine)
        | inr (bad, (e, v)) ↦
            let (m, p', n', t, among, fine) =
              try-Wins recovers env out (n + 1) ps e after p proper
                (λ i.
                  subst (λ a. (m : Msg) × Good (env.attempt i a out) m)
                    (sym (exchange-addr (env.attempt n (addr_of f.heap q) out) q p f)) (good i))
                (further bad here) in
            (
              m,
              p',
              n',
              ap outcome v ∙ t,
              inr among,
              subst (λ a. Good (env.attempt n' a out) m)
                  (exchange-addr (env.attempt n (addr_of f.heap q) out) q p' f) fine,
            )
      ]
  where
    after : Forwarder
    after = (exchange (env.attempt n (addr_of f.heap q) out) q f).0

    outcome : Verdict → Tried
    outcome v =
        (elim v as (λ x. Forwarder × Tried) [
          | stops t ↦ (after, t)
          | goes e ↦ try recovers env out (n + 1) ps e after
        ]).1

    further :
        ((m : Msg) → Good (env.attempt n (addr_of f.heap q) out) m → ⊥) → In p (q ∷ ps) → In p ps
    further bad (inl same) = absurd (
        bad (good n).0
          (subst (λ p. Good (env.attempt n (addr_of f.heap p) out) (good n).0) same (good n).1))
    further bad (inr rest) = rest

pub try-addr :
    (recovers : Bool) (env : Env) (out : Msg) (n : ℕ) (ps : List ℕ) (last : Option Bytes)
    (f : Forwarder) (p : ℕ)
    → addr_of (try recovers env out n ps last f).0.heap p ≡ addr_of f.heap p
unfolding try
try-addr recovers env out n [] last f p = refl
try-addr recovers env out n (q ∷ ps) last f p =
    one
      (verdict recovers (addr_of f.heap q) q
        (exchange (env.attempt n (addr_of f.heap q) out) q f).1)
      (exchange (env.attempt n (addr_of f.heap q) out) q f).0
      (λ e g. try-addr recovers env out (n + 1) ps e g p)
    ∙ exchange-addr (env.attempt n (addr_of f.heap q) out) q p f
  where
    one :
        (v : Verdict) (g : Forwarder)
        → ((e : Option Bytes) (g : Forwarder)
            → addr_of (try recovers env out (n + 1) ps e g).0.heap p ≡ addr_of g.heap p)
        → addr_of
            (elim v as (λ x. Forwarder × Tried) [
              | stops t ↦ (g, t)
              | goes e ↦ try recovers env out (n + 1) ps e g
            ]).0.heap
            p
          ≡ addr_of g.heap p
    one (stops t) g ih = refl
    one (goes e) g ih = ih e g
