-- ===== src/Zones/Serial.antt =====
-- `SerialNewer` of internal/zones/serial.go: RFC 1982's order of zone serials, which are uint32.
use dnsaur.Prelude.{
  ℕ, ◌+◌, ◌-◌, ◌%◌, ◌^◌, ◌<◌, ◌≡◌, Bool, true, false, ◌&&◌, not, ◌⊎◌, ◌↔◌, arith, ltb, ◌==◌,
  Bool-cases, inl, inr,
}

-- `SerialNewer`; the subtraction wraps.
unfoldable pub serial_newer : ℕ → ℕ → Bool
serial_newer a b = let d = (a + 2 ^ 32 - b) % 2 ^ 32 in not (d == 0) && ltb d (2 ^ 31)

-- RFC 1982 §3.2's own definition of s1 > s2, case by case.
abbrev pub Newer : ℕ → ℕ → Type 0
Newer a b = ((a < b) × (2 ^ 31 < b - a)) ⊎ ((b < a) × (a - b < 2 ^ 31))

-- `SerialNewer` decides RFC 1982's order on all pairs of serials.
serial_newer-Newer : (a b : ℕ) → a < 2 ^ 32 → b < 2 ^ 32 → (serial_newer a b ≡ true) ↔ Newer a b
unfolding serial_newer
serial_newer-Newer a b ha hb = (λ h. order h, λ h. ground arith)
  where
    order : serial_newer a b ≡ true → Newer a b
    order h = elim (Bool-cases (ltb a b)) [
      | inl below ↦ inl (ground arith)
      | inr above ↦ inr (ground arith)
    ]

-- A serial that was advanced by less than half the space is newer than the one it was advanced from,
-- wherever the counter wraps, and that one is not newer than it. Two serials exactly half the space
-- apart are newer in neither direction.
serial_newer_advance :
    (a k : ℕ)
    → a < 2 ^ 32
    → (0 < k
        → k < 2 ^ 31
        → (serial_newer ((a + k) % 2 ^ 32) a ≡ true) × (serial_newer a ((a + k) % 2 ^ 32) ≡ false))
      × (k ≡ 2 ^ 31
          → (serial_newer ((a + k) % 2 ^ 32) a ≡ false)
            × (serial_newer a ((a + k) % 2 ^ 32) ≡ false))
unfolding serial_newer
serial_newer_advance a k ha =
    (λ h h'. (ground arith, ground arith), λ h. (ground arith, ground arith))
