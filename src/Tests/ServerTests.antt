-- ===== src/Tests/ServerTests.antt =====
-- The fitting of replies at concrete inputs.
use dnsaur.Prelude.{
  ℕ, zero, suc, ◌+◌, ◌*◌, ◌≤◌, ◌≡◌, refl, true, none, some, [], ◌∷◌, arith, length, leb→le,
  if◌then◌else◌, leb, inl, inr, Bool-cases,
}
use dnsaur.Prelude.Bytes.{Bytes, codes}
use dnsaur.Dns.{Msg, type_a}
use dnsaur.Server.{Wire, min_msg_size, udp_budget, reserved, fit_udp_reply}
use dnsaur.Server.Datagram.{FitsOrRefuses, IsWire, fit_udp_reply-Fits}
use dnsaur.Tests.Samples.{ask, answered}

zeros : ℕ → Bytes
zeros zero = []
zeros (suc n) = 0 ∷ zeros n

length-zeros : (n : ℕ) → length (zeros n) ≡ n
unfolding zeros
length-zeros zero = refl
length-zeros (suc n) = omega (arith, length-zeros n)

-- Twelve bytes of header, and twenty for each record.
abbrev size : Msg → ℕ
size m = 12 + 20 * (length m.answer + length m.ns + length m.extra)

abbrev emptied : Msg → Msg
emptied m = record m { truncated = true; answer = []; ns = []; extra = [] }

-- A signature is its length.
abbrev wire : Wire ℕ
wire = record {
  truncate = λ n m. if leb (size m) n then m else emptied m;
  len = size;
  pack = λ m. some (zeros (size m));
  tsig_len = λ n. n;
  udp_size = λ m. none;
}

wire-IsWire : IsWire wire
wire-IsWire = record {
  truncates = λ n m _ h. elim (Bool-cases (leb (size m) n)) [
    | inl fits ↦
        rw fits (zeros (size m), refl, omega (arith, length-zeros (size m), leb→le _ _ fits))
    | inr cut ↦ rw cut (zeros 12, refl, omega (arith, length-zeros 12, h))
  ];
  measures = λ m _ h. (zeros (size m), refl, omega (arith, length-zeros (size m)));
}

abbrev short : Msg
short = answered (codes "www.example.com.") 60

fit_udp_reply-Fits_example :
    (min_msg_size ≤ udp_budget wire (ask (codes "www.example.com.") type_a))
    × FitsOrRefuses wire
        (udp_budget wire (ask (codes "www.example.com.") type_a))
        (reserved wire 30)
        (fit_udp_reply wire short (ask (codes "www.example.com.") type_a) (some 30))
fit_udp_reply-Fits_example =
    fit_udp_reply-Fits wire short (ask (codes "www.example.com.") type_a) 30 wire-IsWire
      (record { unsigned = refl; encodable = refl })
