-- ===== src/Upstream.antt =====
-- `Forwarder` of internal/upstream/forwarder.go: its upstreams, what it remembers of their health, and
-- the exchange with one of them. A pointer to an `up` is its position in the heap.
pub mod Health
pub mod Conditional
pub mod Query
use dnsaur.Prelude.{
  ℕ, zero, suc, ◌+◌, ◌-◌, ◌*◌, ◌/◌, Bool, true, false, ◌&&◌, ◌||◌, not, Option, none, some, List,
  [], ◌∷◌, ◌++◌, if◌then◌else◌, ltb, leb, ◌==◌, get_elem?,
}
use dnsaur.Prelude.Bytes.{Bytes, bytes_eq}
use dnsaur.Dns.{Msg}

-- `up`, without its exchanger.
pub record Up : Type 0 where
  pub addr : Bytes
  pub ewma_micro : ℕ
  pub fails : ℕ
  pub down_until : ℕ

-- `failKey`.
pub record FailKey : Type 0 where
  pub name : Bytes
  pub qtype : ℕ

-- `condTable`.
pub record CondTable : Type 0 where
  pub set : List Bytes
  pub routes : List (Bytes × List ℕ)

-- The strategies that `New` accepts.
pub data Strategy : Type 0 where
  failover fastest race : Strategy

-- `Forwarder`, with the upstreams that exist and those whose exchanger was closed.
pub record Forwarder : Type 0 where
  pub heap : List Up
  pub def : List ℕ
  pub cond : Option CondTable
  pub strategy : Strategy
  pub timeout : ℕ
  pub fail_cache : List (FailKey × ℕ)
  pub shut : List ℕ
  pub closed : Bool

abbrev pub second : ℕ
second = 1000000000

abbrev pub max_fail_cache_entries : ℕ
max_fail_cache_entries = 4096

abbrev pub max : ℕ → ℕ → ℕ
max a b = if ltb a b then b else a

-- `up.healthy`.
unfoldable pub healthy : ℕ → Up → Bool
healthy now u = leb u.down_until now

-- `up.markResult`; the latency and the clock are in nanoseconds.
unfoldable pub mark_result : Bool → ℕ → ℕ → ℕ → Up → Up
mark_result true latency now timeout_micro u = record u {
  fails = 0;
  down_until = 0;
  ewma_micro = (u.ewma_micro * 7 + latency / 1000) / 8;
}
mark_result false latency now timeout_micro u =
    let slow = record u { ewma_micro = max u.ewma_micro timeout_micro } in
    if leb 3 (u.fails + 1)
    then record slow { down_until = now + 15 * second; fails = 0 }
    else record slow { fails = u.fails + 1 }

-- A write through a pointer.
unfoldable pub update : ℕ → (Up → Up) → List Up → List Up
update i f [] = []
update zero f (u ∷ us) = f u ∷ us
update (suc i) f (u ∷ us) = u ∷ update i f us

abbrev pub addr_of : List Up → ℕ → Bytes
addr_of heap p = elim (get_elem? heap p) [ none ↦ [] | some u ↦ u.addr ]

-- What a call of `Exchange` ends in: the pair that it returns, or a panic with its text.
pub data Reply : Type 0 where
  gives : Option Msg → Option Bytes → Reply
  panics : Bytes → Reply

-- One exchange: the error of a context that is done before it, the clock round it, and its end.
pub record Attempt : Type 0 where
  pub done : Option Bytes
  pub start : ℕ
  pub landed : ℕ
  pub reply : Reply

-- `Forwarder.markLatency`.
unfoldable pub mark_latency : ℕ → Bool → ℕ → ℕ → Forwarder → Forwarder
mark_latency p ok start now f = record f {
  heap = update p (mark_result ok (now - start) now (f.timeout / 1000)) f.heap;
}

settled : Attempt → ℕ → Forwarder → Reply → Forwarder × Reply
settled a p f (panics text) = (f, panics text)
settled a p f (gives (some r) none) = (mark_latency p true a.start a.landed f, gives (some r) none)
settled a p f (gives none none) = (mark_latency p false a.start a.landed f, gives none none)
settled a p f (gives r (some e)) = (mark_latency p false a.start a.landed f, gives none (some e))

-- `Forwarder.exchange`.
unfoldable pub exchange : Attempt → ℕ → Forwarder → Forwarder × Reply
unfolding settled
exchange a p f = elim a.done [ some e ↦ (f, gives none (some e)) | none ↦ settled a p f a.reply ]
