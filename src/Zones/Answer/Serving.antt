-- ===== src/Zones/Answer/Serving.antt =====
-- Which zones of internal/zones/answer.go answer at all.
use dnsaur.Prelude.{
  ℕ, ◌<◌, ◌≤◌, ◌≡◌, refl, ap, Bool, true, false, ◌||◌, not, arith, ◌==◌, Bool-cases, inl, inr, ◌⊎◌,
  ◌↔◌,
}
use dnsaur.Prelude.Bytes.{Bytes, bytes_eq, codes, to_lower}
use dnsaur.Dns.{Msg, rcode_success, rcode_name_error, rcode_server_failure}
use dnsaur.Zones.{DnsLib, Zone, rel_name}
use dnsaur.Zones.Answer.{serving, answer, max_cname_chase}
use dnsaur.Zones.Answer.Reply.{resolve-IsReply}

-- The zone names somewhere else to ask.
unfoldable pub forwards : Zone → Bool
forwards z =
    bytes_eq (to_lower z.ztype) (codes "forwarder") || bytes_eq (to_lower z.ztype) (codes "stub")

-- A secondary that has never been transferred, or whose data has an instant of expiry that is over.
unfoldable pub HasNoData : Zone → ℕ → Type 0
HasNoData z now =
    (bytes_eq (to_lower z.ztype) (codes "secondary") ≡ true)
    × ((z.refreshed_at ≡ 0) ⊎ ((0 < z.expires_at) × (z.expires_at ≤ now)))

serving-HasNoData : (z : Zone) (now : ℕ) → (serving z now ≡ false) ↔ HasNoData z now
unfolding serving HasNoData
serving-HasNoData z now = (λ s. (ground arith, missing s), λ h. ground (arith, h))
  where
    missing :
        serving z now ≡ false → (z.refreshed_at ≡ 0) ⊎ ((0 < z.expires_at) × (z.expires_at ≤ now))
    missing s = elim (Bool-cases (z.refreshed_at == 0)) [
      | inl never ↦ inl (ground arith)
      | inr once ↦ inr (ground arith, ground arith)
    ]

pub answer-forwards :
    (lib : DnsLib) (z : Zone) (m : Msg) (qname : Bytes) (qtype now : ℕ)
    → (answer lib z m qname qtype now).1 ≡ not (forwards z)
unfolding answer forwards
answer-forwards lib z m qname qtype now = ground arith

module _ (lib : DnsLib) (z : Zone) (m : Msg) (qname : Bytes) (qtype now : ℕ) where
  refuses :
      forwards z ≡ false
      → serving z now ≡ false
      → (answer lib z m qname qtype now).0 ≡ record m { rcode = rcode_server_failure }
  unfolding answer forwards
  refuses h off = ground arith

  resolves :
      forwards z ≡ false
      → serving z now ≡ true
      → ((answer lib z m qname qtype now).0.rcode ≡ rcode_success)
        ⊎ ((answer lib z m qname qtype now).0.rcode ≡ rcode_name_error)
  unfolding answer forwards
  resolves h on =
      let start = record m { authoritative = true; rcode = rcode_success } in
      let reply =
        resolve-IsReply lib z max_cname_chase qtype start (lib.fqdn qname)
          (rel_name lib qname z.name) 0 refl in
      ground (arith, reply.code)

  -- A zone answers exactly if it is neither a forwarder nor a stub, and if it is one leaves the message
  -- alone. One that answers gives SERVFAIL exactly if it is a secondary that has never been
  -- transferred or whose data is past an instant of expiry that is set, and then changes nothing else
  -- of the message: no record, no SOA and no claim of authority.
  pub answer_gate :
      ((answer lib z m qname qtype now).1 ≡ not (forwards z))
      × (forwards z ≡ true → (answer lib z m qname qtype now).0 ≡ m)
      × (forwards z ≡ false
          → ((answer lib z m qname qtype now).0.rcode ≡ rcode_server_failure) ↔ HasNoData z now)
      × (forwards z ≡ false
          → HasNoData z now
          → (answer lib z m qname qtype now).0 ≡ record m { rcode = rcode_server_failure })
  unfolding answer forwards
  answer_gate = (
    answer-forwards lib z m qname qtype now,
    λ h. ground arith,
    λ h. (
      λ failed. (serving-HasNoData z now).0 (elim (Bool-cases (serving z now)) [
        | inl on ↦ absurd (ground (arith, resolves h on, failed))
        | inr off ↦ off
      ]),
      λ empty. ap (λ x. x.rcode) (refuses h ((serving-HasNoData z now).1 empty)),
    ),
    λ h empty. refuses h ((serving-HasNoData z now).1 empty),
  )
