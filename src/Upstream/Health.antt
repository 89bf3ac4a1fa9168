-- ===== src/Upstream/Health.antt =====
-- What `markResult` of internal/upstream/forwarder.go makes of a history of exchanges.
use dnsaur.Prelude.{
  ℕ, suc, ◌+◌, ◌*◌, ◌/◌, ◌%◌, ◌≤◌, ◌≡◌, refl, ap, sym, Bool, true, false, List, [], ◌∷◌, arith,
  Bool-cases, inl, inr, if◌then◌else◌, All, leb, ◌==◌, leb→le, ◌<◌,
}
use dnsaur.Upstream.{Up, mark_result, healthy, second}

-- One exchange with its outcome, its latency and the instant of its end.
pub record Mark : Type 0 where
  pub ok : Bool
  pub latency : ℕ
  pub now : ℕ

-- An upstream behind a history, the latest exchange first.
unfoldable pub marks : ℕ → List Mark → Up → Up
marks timeout_micro [] u = u
marks timeout_micro (m ∷ older) u =
    mark_result m.ok m.latency m.now timeout_micro (marks timeout_micro older u)

-- The failures since the last success.
unfoldable pub streak : List Mark → ℕ
streak [] = 0
streak (m ∷ older) = if m.ok then 0 else suc (streak older)

-- 15 seconds behind the last third failure in a row since the last success, and 0 before there is one.
unfoldable pub down_of : List Mark → ℕ
down_of [] = 0
down_of (m ∷ older) =
    if m.ok then 0 else if suc (streak older) % 3 == 0 then m.now + 15 * second else down_of older

abbrev Follows : List Mark → Up → Type 0
Follows h u = (u.fails ≡ streak h % 3) × (u.down_until ≡ down_of h)

third :
    (timeout_micro : ℕ) (m : Mark) (n until : ℕ) (u : Up)
    → u.fails ≡ n % 3
    → u.down_until ≡ until
    → ((mark_result false m.latency m.now timeout_micro u).fails ≡ suc n % 3)
      × ((mark_result false m.latency m.now timeout_micro u).down_until
          ≡ (if suc n % 3 == 0 then m.now + 15 * second else until))
unfolding mark_result
third timeout_micro m n until u fails down = elim (Bool-cases (leb 3 (u.fails + 1))) [
  | inl full ↦
      let wraps : suc n % 3 ≡ 0 = omega (arith, fails, leb→le 3 (u.fails + 1) full) in
      rw full (sym wraps, rw wraps refl)
  | inr free ↦
      let more : suc n % 3 ≡ suc u.fails = omega (arith, fails, gt 3 (u.fails + 1) free) in
      rw free (omega (arith, more), rw (nonzero (suc n % 3) u.fails more) down)
]
  where
    gt : (a b : ℕ) → leb a b ≡ false → b < a
    gt a b h = ground arith

    nonzero : (a b : ℕ) → a ≡ suc b → (a == 0) ≡ false
    nonzero a b h = ground arith

mark-Follows :
    (timeout_micro : ℕ) (m : Mark) (older : List Mark) (u : Up)
    → Follows older u
    → Follows (m ∷ older) (mark_result m.ok m.latency m.now timeout_micro u)
unfolding streak down_of mark_result
mark-Follows timeout_micro m older u (fails, down) = elim (Bool-cases m.ok) [
  | inl good ↦ rw good (omega arith, refl)
  | inr bad ↦ rw bad (third timeout_micro m (streak older) (down_of older) u fails down)
]

marks-Follows :
    (timeout_micro : ℕ) (h : List Mark) (u : Up)
    → u.fails ≡ 0
    → u.down_until ≡ 0
    → Follows h (marks timeout_micro h u)
unfolding marks streak down_of
marks-Follows timeout_micro [] u fails down = (omega (arith, fails), down)
marks-Follows timeout_micro (m ∷ older) u fails down =
    mark-Follows timeout_micro m older _ (marks-Follows timeout_micro older u fails down)

-- An upstream that starts with no failure is, behind any history of exchanges, taken for healthy at an
-- instant exactly if 15 seconds have passed since the last exchange that was the third failure in a row,
-- counted in threes since the last success, or if there is no such exchange since that success.
pub healthy-marks :
    (timeout_micro now : ℕ) (h : List Mark) (u : Up)
    → u.fails ≡ 0
    → u.down_until ≡ 0
    → healthy now (marks timeout_micro h u) ≡ leb (down_of h) now
unfolding healthy
healthy-marks timeout_micro now h u fails down =
    ap (λ until. leb until now) (marks-Follows timeout_micro h u fails down).1

-- The average latency of an upstream never exceeds a bound on the latencies, the timeout and the average
-- that it starts with.
ewma-marks :
    (timeout_micro bound : ℕ) (h : List Mark) (u : Up)
    → timeout_micro ≤ bound
    → All (λ m. m.latency / 1000 ≤ bound) h
    → u.ewma_micro ≤ bound
    → (marks timeout_micro h u).ewma_micro ≤ bound
unfolding marks mark_result
ewma-marks timeout_micro bound [] u le hs start = start
ewma-marks timeout_micro bound (m ∷ older) u le (h, hs) start =
    one m.ok m _ h (ewma-marks timeout_micro bound older u le hs start)
  where
    one :
        (b : Bool) (m : Mark) (u : Up)
        → m.latency / 1000 ≤ bound
        → u.ewma_micro ≤ bound
        → (mark_result b m.latency m.now timeout_micro u).ewma_micro ≤ bound
    one true m u h hu = omega (arith, h, hu)
    one false m u h hu = ground (arith, le, hu)
