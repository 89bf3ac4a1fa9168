-- ===== src/Tests/UpstreamTests.antt =====
-- The forwarder at concrete inputs: two upstreams, of which one never answers.
use dnsaur.Prelude.{
  ℕ, ◌*◌, ◌≡◌, refl, inl, inr, arith, Bool, true, false, none, some, List, [], ◌∷◌, leb,
  if◌then◌else◌,
}
use Prim.Native.String.{String}
use dnsaur.Filter.DomainSet.{match}
use dnsaur.Upstream.Conditional.{table_ups, pick, set_conditional}
use dnsaur.Upstream.Conditional.Adoption.{Extends}
use dnsaur.Upstream.Conditional.Routing.{GoesTo, asked_suffixes, set_conditional-GoesTo}
use dnsaur.Prelude.Bytes.{Bytes, bytes_eq, codes}
use dnsaur.Dns.{Msg, Request, returned, servfail, qname, qtype}
use dnsaur.Upstream.{Up, Forwarder, failover, Attempt, gives, healthy, second, exchange}
use dnsaur.Upstream.Health.{Mark, marks, down_of, healthy-marks}
use dnsaur.Upstream.Query.{
  find_fail, Env, Edns, handle, handle_questions, handle_one, ask, conclude, try, ordered, choose,
  verdict,
}
use dnsaur.Upstream.Query.Orders.{Rearranges}
use dnsaur.Upstream.Query.Attempts.{IsProper}
use dnsaur.Upstream.Query.Failures.{handle_all, handle_failed}
use dnsaur.Upstream.Query.Answers.{Answered, handle-Answered}
use dnsaur.Tests.Samples.{sample_replies}

abbrev edns : Edns
edns = record { is_do = λ m. false; set_edns0 = λ size do_bit m. m }

abbrev message : ℕ → Msg
message id = record {
  id = id;
  authoritative = false;
  truncated = false;
  compress = false;
  rcode = 0;
  question = (record { name = codes "example.com."; qtype = 1; qclass = 1 }) ∷ [];
  answer = [];
  ns = [];
  extra = [];
}

abbrev query : ℕ → Request ℕ
query id = record {
  msg = message id;
  client_ip = 1;
  client = record { id = 0; name = []; group_id = 0; group_name = [] };
}

abbrev up_of : String → Up
up_of addr = record { addr = codes addr; ewma_micro = 0; fails = 0; down_until = 0 }

abbrev two_upstreams : Forwarder
two_upstreams = record {
  heap = up_of "dead" ∷ up_of "live" ∷ [];
  def = 0 ∷ 1 ∷ [];
  cond = none;
  strategy = failover;
  timeout = 2 * second;
  fail_cache = [];
  shut = [];
  closed = false;
}

abbrev attempt_of : Bytes → Attempt
attempt_of addr = record {
  done = none;
  start = 0;
  landed = second;
  reply =
      if bytes_eq addr (codes "live")
      then gives (some (message 7)) none
      else gives none (some (codes "timeout"));
}

abbrev env_at : ℕ → (Bytes → Attempt) → Env
env_at now attempts = record {
  asked = now;
  checked = λ p. now;
  swept = now;
  ended = now;
  fresh_id = 7;
  attempt = λ n addr out. attempts addr;
  sort = λ less ps. ps;
  arrivals = λ ps. ps;
}

attempts-IsProper : (addr : Bytes) → IsProper (attempt_of addr).reply
attempts-IsProper addr = one (bytes_eq addr (codes "live"))
  where
    one :
        (b : Bool)
        → IsProper
            (if b then gives (some (message 7)) none else gives none (some (codes "timeout")))
    one true = tt
    one false = tt

same_order : Rearranges (λ ps. ps)
same_order ps p = (λ h. h, λ h. h)

handle-Answered_example :
    Answered sample_replies edns
      (env_at 5 attempt_of)
      (query 99)
      two_upstreams
      (handle sample_replies edns (env_at 5 attempt_of) (query 99) two_upstreams).1
unfolding pick healthy bytes_eq find_fail
handle-Answered_example =
    handle-Answered sample_replies edns (env_at 5 attempt_of) (query 99)
      (record { name = codes "example.com."; qtype = 1; qclass = 1 }) two_upstreams 1
      (λ n addr m. attempts-IsProper addr) (λ less. same_order) same_order refl (inl refl)
      (inr (inl refl)) refl (λ n m. (message 7, (refl, refl, refl)))

abbrev never : Bytes → Attempt
never addr = attempt_of (codes "dead")

handle_failed_example :
    handle sample_replies edns (env_at 20 attempt_of) (query 4) (
      handle_all sample_replies edns
        ((env_at 10 attempt_of, query 3) ∷ [])
        (handle sample_replies edns (env_at 5 never) (query 99) two_upstreams).0)
    ≡ (
      handle_all sample_replies edns
          ((env_at 10 attempt_of, query 3) ∷ [])
          (handle sample_replies edns (env_at 5 never) (query 99) two_upstreams).0,
      returned (some (servfail sample_replies (query 4))) none,
    )
unfolding pick handle handle_questions handle_one find_fail ask conclude try ordered choose healthy
    verdict exchange bytes_eq qname qtype
handle_failed_example =
    handle_failed sample_replies edns (env_at 5 never) (env_at 20 attempt_of) (query 99) (query 4)
      two_upstreams (codes "timeout")
      (record { name = codes "example.com."; qtype = 1; qclass = 1 })
      ((env_at 10 attempt_of, query 3) ∷ []) refl ((omega arith, omega arith), tt) refl refl
      (omega arith)

abbrev failures : List Mark
failures =
    (record { ok = false; latency = 5; now = 40 })
    ∷ (record { ok = false; latency = 5; now = 30 })
    ∷ (record { ok = false; latency = 5; now = 20 })
    ∷ (record { ok = true; latency = 5; now = 10 })
    ∷ []

healthy-marks_example :
    healthy 50 (marks 2000000 failures (up_of "dead")) ≡ leb (down_of failures) 50
healthy-marks_example = healthy-marks 2000000 50 failures (up_of "dead") refl refl

abbrev some_routes : List (Bytes × List Bytes)
some_routes =
    (codes "Corp.Example.", codes "dead" ∷ codes "new" ∷ [])
    ∷ (codes "example", codes "live" ∷ [])
    ∷ []

abbrev routed_upstreams : Forwarder
routed_upstreams = record two_upstreams {
  cond = some (record { set = codes "example" ∷ []; routes = (codes "example", 0 ∷ []) ∷ [] });
}

set_conditional-GoesTo_example :
    GoesTo routed_upstreams.heap
      (table_ups routed_upstreams.cond)
      some_routes
      (set_conditional some_routes routed_upstreams)
      (match (asked_suffixes some_routes []) (codes "www.corp.example"))
      (pick (set_conditional some_routes routed_upstreams) (codes "www.corp.example"))
    × Extends routed_upstreams.heap (set_conditional some_routes routed_upstreams).heap
set_conditional-GoesTo_example =
    set_conditional-GoesTo some_routes routed_upstreams (codes "www.corp.example") (omega arith, tt)
