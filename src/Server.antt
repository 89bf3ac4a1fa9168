-- ===== src/Server.antt =====
-- Fitting a reply into a datagram: `FitUDPReply`, `udpBudget`, `fitUDP`, `fitsIn`, `ednsOnly` and
-- `dropOPT` of internal/dnssrv/server.go. What packs and truncates a message is a parameter.
pub mod Datagram
use dnsaur.Prelude.{
  ℕ, ◌+◌, ◌-◌, Bool, true, false, Option, none, some, List, [], ◌∷◌, length, if◌then◌else◌, ltb,
  leb,
}
use dnsaur.Prelude.Bytes.{Bytes}
use dnsaur.Dns.{Rr, RData, Msg, rcode_success, rcode_server_failure}

-- What the server takes from package dns, over the type of the TSIG record: `Msg.Truncate`, `Msg.Len`,
-- `Msg.Pack` (`none` for its error), `dns.Len` of a TSIG, and the UDP size of the OPT that `IsEdns0`
-- returns.
pub record Wire (Tsig : Type 0) : Type 0 where
  pub truncate : ℕ → Msg → Msg
  pub len : Msg → ℕ
  pub pack : Msg → Option Bytes
  pub tsig_len : Tsig → ℕ
  pub udp_size : Msg → Option ℕ

-- `dns.MinMsgSize`.
abbrev pub min_msg_size : ℕ
min_msg_size = 512

-- `maxTSIGMACLen` of internal/dnssrv/tsig.go.
abbrev pub max_tsig_mac_len : ℕ
max_tsig_mac_len = 64

unfoldable pub is_opt : RData → Bool
is_opt (RData.opt _) = true
is_opt _ = false

-- `ednsOnly`.
unfoldable pub edns_only : List Rr → List Rr
unfolding is_opt
edns_only [] = []
edns_only (rr ∷ rest) = let later = edns_only rest in if is_opt rr.rdata then rr ∷ [] else later

without_opt : List Rr → List Rr
unfolding is_opt
without_opt [] = []
without_opt (rr ∷ rest) =
    let later = without_opt rest in if is_opt rr.rdata then later else rr ∷ later

-- `dropOPT`.
unfoldable pub drop_opt : Msg → Msg
unfolding without_opt
drop_opt m = record m {
  extra = without_opt m.extra;
  rcode = if ltb 15 m.rcode then rcode_server_failure else m.rcode;
}

module _ {Tsig : Type 0} (wire : Wire Tsig) where
  floored : ℕ → ℕ
  floored size = if ltb size min_msg_size then min_msg_size else size

  -- `udpBudget`.
  unfoldable pub udp_budget : Msg → ℕ
  unfolding floored
  udp_budget req = floored (elim (wire.udp_size req) [ none ↦ min_msg_size | some size ↦ size ])

  -- What `fitUDP` takes from the budget for the signature.
  unfoldable pub reserved : Tsig → ℕ
  reserved sig = wire.tsig_len sig + max_tsig_mac_len

  packs_in : ℕ → ℕ → Option Bytes → Bool
  packs_in budget room none = false
  packs_in budget room (some b) = leb (length b + room) budget

  -- `fitsIn(reply, budget - room)`, in numbers that do not go below 0: whether it fits, and the reply
  -- with the compression that was tried last.
  unfoldable pub fits_in : Msg → ℕ → ℕ → Bool × Msg
  unfolding packs_in
  fits_in reply budget room =
      let plain = record reply { compress = false } in
      let small = record reply { compress = true } in
      if leb (wire.len plain + room) budget
      then (true, plain)
      else (packs_in budget room (wire.pack small), small)

  -- The end of `fitUDP`, for a reply that does not fit.
  unfoldable pub refused : Msg → Msg
  refused m = record m {
    rcode = rcode_success;
    truncated = true;
    answer = [];
    ns = [];
    extra = edns_only m.extra;
  }

  tried : Bool × Msg → Msg
  unfolding refused
  tried (true, m) = m
  tried (false, m) = refused m

  -- `fitUDP`, the budget less the signature's bytes again written as a sum.
  unfoldable pub fit_udp : Msg → ℕ → Option Tsig → Msg
  unfolding tried
  fit_udp reply budget none = wire.truncate budget reply
  fit_udp reply budget (some sig) =
      if leb (min_msg_size + reserved sig) budget
      then wire.truncate (budget - reserved sig) reply
      else tried (fits_in reply budget (reserved sig))

  -- `FitUDPReply`.
  unfoldable pub fit_udp_reply : Msg → Msg → Option Tsig → Msg
  fit_udp_reply reply req sig = fit_udp reply (udp_budget req) sig
