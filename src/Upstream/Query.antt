-- ===== src/Upstream/Query.antt =====
-- The queries of internal/upstream/forwarder.go: `Handler` with `race` and the failure cache. What the
-- upstreams do in one query, and the instants at which the handler reads the clock, are its surroundings.
pub mod Held
pub mod Failures
pub mod Orders
pub mod Attempts
pub mod Answers
use dnsaur.Prelude.{
  ℕ, ◌+◌, ◌*◌, ◌≡◌, Bool, true, false, ◌&&◌, not, Option, none, some, List, [], ◌∷◌, ◌++◌,
  if◌then◌else◌, ltb, leb, ◌==◌, keep, length, is_empty, get_elem?,
}
use dnsaur.Prelude.Bytes.{Bytes, bytes_eq, codes}
use dnsaur.Dns.{
  Msg, Rr, Question, Request, Response, Outcome, returned, panicked, Handler, Replies, forwarded,
  error, rcode_server_failure, qname, qtype, servfail,
}
use dnsaur.Upstream.{
  Up, FailKey, Forwarder, Strategy, failover, fastest, race, Attempt, Reply, gives, panics,
  exchange, healthy, addr_of, second, max_fail_cache_entries,
}
use dnsaur.Upstream.Conditional.{pick}

-- `m.IsEdns0()` with `opt.Do()`, false where there is no OPT, and `m.SetEdns0(size, do)`, which package
-- dns implements.
pub record Edns : Type 0 where
  pub is_do : Msg → Bool
  pub set_edns0 : ℕ → Bool → Msg → Msg

-- One query's surroundings: the clock at the lookup in the failure cache, at each test of an upstream's
-- health, at the sweep and at the end; the fresh ID; the n-th exchange, with an upstream of an address;
-- the order that the sort leaves upstreams in, by a test; and that in which they answer a race.
pub record Env : Type 0 where
  pub asked : ℕ
  pub checked : ℕ → ℕ
  pub swept : ℕ
  pub ended : ℕ
  pub fresh_id : ℕ
  pub attempt : ℕ → Bytes → Msg → Attempt
  pub sort : (ℕ → ℕ → Bool) → List ℕ → List ℕ
  pub arrivals : List ℕ → List ℕ

abbrev rcode_format_error : ℕ
rcode_format_error = 1

abbrev pub same_key : FailKey → FailKey → Bool
same_key a b = bytes_eq a.name b.name && a.qtype == b.qtype

-- The reads and writes of `failCache`.
unfoldable pub find_fail : FailKey → List (FailKey × ℕ) → Option ℕ
find_fail k [] = none
find_fail k ((k', until) ∷ rest) = if same_key k' k then some until else find_fail k rest

unfoldable pub delete_fail : FailKey → List (FailKey × ℕ) → List (FailKey × ℕ)
delete_fail k fails = keep (λ e. not (same_key e.0 k)) fails

-- The sweep of the expired.
unfoldable pub sweep : ℕ → List (FailKey × ℕ) → List (FailKey × ℕ)
sweep now fails = keep (λ e. ltb now e.1) fails

-- The failure that `Handler` records.
unfoldable pub remember : Env → FailKey → List (FailKey × ℕ) → List (FailKey × ℕ)
remember env k fails =
    let swept =
      if leb max_fail_cache_entries (length fails) then sweep env.swept fails else fails in
    (k, env.ended + 30 * second) ∷ delete_fail k swept

-- `upstreamQuery`; the messages here have no bit for RecursionDesired.
unfoldable pub upstream_query : Edns → ℕ → Question → Bool → Msg
upstream_query edns id q do_bit = edns.set_edns0 1232 do_bit (record {
  id = id;
  authoritative = false;
  truncated = false;
  compress = false;
  rcode = 0;
  question = q ∷ [];
  answer = [];
  ns = [];
  extra = [];
})

-- What trying the upstreams ends in.
pub data Tried : Type 0 where
  won : Msg → ℕ → Tried
  lost : Option Bytes → Tried
  crashed : Tried

-- What one exchange means to the loop: it ends, or goes on with an error as its last.
pub data Verdict : Type 0 where
  stops : Tried → Verdict
  goes : Option Bytes → Verdict

-- A reply that is nil with no error is dereferenced; a panic is an error where it is recovered.
unfoldable pub verdict : Bool → Bytes → ℕ → Reply → Verdict
verdict false addr p (panics text) = stops crashed
verdict true addr p (panics text) =
    goes (some (codes "upstream " ++ addr ++ codes ": panic: " ++ text))
verdict recovers addr p (gives r (some e)) = goes (some e)
verdict recovers addr p (gives none none) = stops crashed
verdict recovers addr p (gives (some m) none) =
    if m.rcode == rcode_server_failure then goes none else stops (won m p)

-- The loop of `Handler` over the upstreams, and, with the panics recovered, that of `race` over them in
-- the order in which they answer. An exchange that a race does not wait for is none of the query's.
unfoldable pub try : Bool → Env → Msg → ℕ → List ℕ → Option Bytes → Forwarder → Forwarder × Tried
try recovers env out n [] last f = (f, lost last)
try recovers env out n (p ∷ ps) last f =
    let (f', reply) = exchange (env.attempt n (addr_of f.heap p) out) p f in
    elim (verdict recovers (addr_of f.heap p) p reply) [
      | stops t ↦ (f', t)
      | goes e ↦ try recovers env out (n + 1) ps e f'
    ]

abbrev pub is_healthy : Env → List Up → ℕ → Bool
is_healthy env heap p = elim (get_elem? heap p) [
  | none ↦ false
  | some u ↦ healthy (env.checked p) u
]

-- The healthy candidates, or all where none is.
unfoldable pub choose : Env → Forwarder → List ℕ → List ℕ
choose env f candidates =
    let up = keep (is_healthy env f.heap) candidates in if is_empty up then candidates else up

abbrev pub ewma_of : List Up → ℕ → ℕ
ewma_of heap p = elim (get_elem? heap p) [ none ↦ 0 | some u ↦ u.ewma_micro ]

-- The upstreams in the order of the strategy.
unfoldable pub ordered : Env → Forwarder → List ℕ → List ℕ
ordered env f ups = elim f.strategy [
  | failover ↦ ups
  | fastest ↦ env.sort (λ a b. ltb (ewma_of f.heap a) (ewma_of f.heap b)) ups
  | race ↦ env.arrivals ups
]

abbrev races : Strategy → Bool
races failover = false
races fastest = false
races race = true

-- The error that a failed query ends in.
abbrev or_all_failed : Option Bytes → Bytes
or_all_failed none = codes "all upstreams failed"
or_all_failed (some e) = e

module _ {Addr : Type 0} (lib : Replies) (edns : Edns) where
  -- `formerr`.
  unfoldable pub formerr : Request Addr → Response
  formerr req = record {
    msg = some (lib.set_rcode req.msg rcode_format_error);
    decision = error;
    upstream = [];
    rule_id = 0;
    list_id = 0;
    matched = [];
  }

  abbrev pub key_of : Request Addr → FailKey
  key_of req = record { name = qname req; qtype = qtype req }

  -- The end of `Handler`.
  unfoldable pub conclude : Env → Request Addr → Forwarder × Tried → Forwarder × Outcome
  conclude env req (f, won r p) = (
    f,
    returned
        (some (record {
          msg = some (record r { id = req.msg.id });
          decision = forwarded;
          upstream = addr_of f.heap p;
          rule_id = 0;
          list_id = 0;
          matched = [];
        }))
        none,
  )
  conclude env req (f, lost e) = (
    record f { fail_cache = remember env (key_of req) f.fail_cache },
    returned none (some (or_all_failed e)),
  )
  conclude env req (f, crashed) = (f, panicked)

  abbrev pub tried_ups : Env → Request Addr → Forwarder → List ℕ
  tried_ups env req f = ordered env f (choose env f (pick f (qname req)))

  -- `Handler` behind the failure cache.
  unfoldable pub ask : Env → Request Addr → Question → Forwarder → Forwarder × Outcome
  ask env req q f = conclude env req (
      try (races f.strategy) env (upstream_query edns env.fresh_id q (edns.is_do req.msg)) 0
        (tried_ups env req f) none f)

  -- `Handler` for a message with one question.
  unfoldable pub handle_one : Env → Request Addr → Question → Forwarder → Forwarder × Outcome
  handle_one env req q f = elim (find_fail (key_of req) f.fail_cache) [
    | none ↦ ask env req q f
    | some until ↦
        if ltb env.asked until
        then (f, returned (some (servfail lib req)) none)
        else ask env req q (record f { fail_cache = delete_fail (key_of req) f.fail_cache })
  ]

  -- The guard of `Handler` on the questions.
  unfoldable pub handle_questions :
      Env → Request Addr → Forwarder → List Question → Forwarder × Outcome
  handle_questions env req f [] = (f, returned (some (formerr req)) none)
  handle_questions env req f (q ∷ []) = handle_one env req q f
  handle_questions env req f (q ∷ _ ∷ _) = (f, returned (some (formerr req)) none)

  -- `Forwarder.Handler`.
  unfoldable pub handle : Env → Request Addr → Forwarder → Forwarder × Outcome
  handle env req f = handle_questions env req f req.msg.question
