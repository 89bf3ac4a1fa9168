-- ===== src/Server/Datagram.antt =====
-- The sizes of the datagrams that internal/dnssrv/server.go sends.
use dnsaur.Prelude.{
  any, ◌||◌, ◌==◌, ℕ, ◌+◌, ◌-◌, ◌≤◌, ◌≡◌, refl, ◌⊎◌, inl, inr, true, false, Option, none, some,
  List, [], ◌∷◌, arith, length, Bool-cases, leb,
}
use dnsaur.Prelude.Bytes.{Bytes}
use dnsaur.Dns.{Rr, Msg, rcode_success}
use dnsaur.Server.{
  Wire, min_msg_size, is_opt, edns_only, udp_budget, floored, reserved, packs_in, fits_in, refused,
  tried, fit_udp, fit_udp_reply,
}

-- `dns.TypeTSIG`.
abbrev pub type_tsig : ℕ
type_tsig = 250

module _ {Tsig : Type 0} (wire : Wire Tsig) where
  -- A message that packs into at most so many bytes.
  abbrev pub Fits : ℕ → Msg → Type 0
  Fits n m = (b : Bytes) × (wire.pack m ≡ some b) × (length b ≤ n)

  -- A message that is not signed yet, with an rcode that needs no OPT record or with one that carries
  -- its upper bits. `Truncate` does nothing to any with a TSIG, and `Pack` refuses an extended rcode
  -- without an OPT.
  pub record IsUnsigned (m : Msg) : Type 0 where
    pub unsigned : any (λ rr. rr.rtype == type_tsig) m.extra ≡ false
    pub encodable : leb m.rcode 15 || any (λ rr. is_opt rr.rdata) m.extra ≡ true

  -- What package dns documents of such messages: `Truncate` makes one fit a size that is not below its
  -- least, and one that is not compressed packs into its `Len`.
  pub record IsWire : Type 0 where
    pub truncates : (n : ℕ) (m : Msg) → IsUnsigned m → min_msg_size ≤ n → Fits n (wire.truncate n m)
    pub measures : (m : Msg) → IsUnsigned m → m.compress ≡ false → Fits (wire.len m) m

  -- The reply of RFC 8945 section 5.3: no record but an OPT, truncated, NOERROR.
  pub record IsRefusal (m : Msg) : Type 0 where
    pub code : m.rcode ≡ rcode_success
    pub cut : m.truncated ≡ true
    pub records : (m.answer ≡ []) × (m.ns ≡ [])
    pub options : (m.extra ≡ []) ⊎ ((rr : Rr) × (m.extra ≡ rr ∷ []) × (is_opt rr.rdata ≡ true))

  pub udp_budget_least : (req : Msg) → min_msg_size ≤ udp_budget wire req
  unfolding udp_budget floored
  udp_budget_least req = ground arith

  edns_only_lem :
      (extra : List Rr)
      → (edns_only extra ≡ [])
        ⊎ ((rr : Rr) × (edns_only extra ≡ rr ∷ []) × (is_opt rr.rdata ≡ true))
  unfolding edns_only
  edns_only_lem [] = inl refl
  edns_only_lem (rr ∷ rest) = elim (Bool-cases (is_opt rr.rdata)) [
    | inl here ↦ rw here (inr (rr, refl, here))
    | inr gone ↦ rw gone (edns_only_lem rest)
  ]

  refused-IsRefusal : (m : Msg) → IsRefusal (refused wire m)
  unfolding refused
  refused-IsRefusal m = record {
    code = refl;
    cut = refl;
    records = (refl, refl);
    options = edns_only_lem m.extra;
  }

  -- The reply fits beside what is reserved, or is the refusal.
  abbrev pub FitsOrRefuses : ℕ → ℕ → Msg → Type 0
  FitsOrRefuses budget room m =
      ((b : Bytes) × (wire.pack m ≡ some b) × (length b + room ≤ budget)) ⊎ IsRefusal m

  packed :
      (budget room : ℕ) (m : Msg) (o : Option Bytes)
      → wire.pack m ≡ o
      → FitsOrRefuses budget room (tried wire (packs_in wire budget room o, m))
  unfolding tried packs_in
  packed budget room m none h = inr (refused-IsRefusal m)
  packed budget room m (some b) h = elim (Bool-cases (leb (length b + room) budget)) [
    | inl fits ↦ rw fits (inl (b, h, ground arith))
    | inr not_ ↦ rw not_ (inr (refused-IsRefusal m))
  ]

  tried-Fits :
      (reply : Msg) (budget room : ℕ)
      → IsWire
      → IsUnsigned reply
      → FitsOrRefuses budget room (tried wire (fits_in wire reply budget room))
  unfolding fits_in
  tried-Fits reply budget room w unsigned =
      let plain = record reply { compress = false } in
      elim (Bool-cases (leb (wire.len plain + room) budget)) [
        | inl fits ↦
            let (b, eq, le) =
              w.measures plain
                (record { unsigned = unsigned.unsigned; encodable = unsigned.encodable }) refl in
            rw fits (unfold tried in inl (b, eq, ground arith))
        | inr not_ ↦
            rw not_ (packed budget room _ (wire.pack (record reply { compress = true })) refl)
      ]

  fit_udp-Fits :
      (reply : Msg) (budget : ℕ) (sig : Tsig)
      → IsWire
      → IsUnsigned reply
      → FitsOrRefuses budget (reserved wire sig) (fit_udp wire reply budget (some sig))
  unfolding fit_udp
  fit_udp-Fits reply budget sig w h =
      elim (Bool-cases (leb (min_msg_size + reserved wire sig) budget)) [
        | inl much ↦
            let (b, eq, le) = w.truncates (budget - reserved wire sig) reply h (ground arith) in
            rw much (inl (b, eq, ground arith))
        | inr little ↦ rw little (tried-Fits reply budget (reserved wire sig) w h)
      ]

  -- Whatever the size that the client advertises, the budget of its reply is not below 512, and a reply
  -- that is to be signed, and is not yet, packs with room for the signature left in that budget, or is
  -- the refusal of RFC 8945 section 5.3, an empty NOERROR with TC set. The reply's rcode is below 16 or
  -- it has an OPT record.
  pub fit_udp_reply-Fits :
      (reply req : Msg) (sig : Tsig)
      → IsWire
      → IsUnsigned reply
      → (min_msg_size ≤ udp_budget wire req)
        × FitsOrRefuses
            (udp_budget wire req)
            (reserved wire sig)
            (fit_udp_reply wire reply req (some sig))
  unfolding fit_udp_reply
  fit_udp_reply-Fits reply req sig w h =
      (udp_budget_least req, fit_udp-Fits reply (udp_budget wire req) sig w h)
