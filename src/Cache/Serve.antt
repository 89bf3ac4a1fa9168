-- ===== src/Cache/Serve.antt =====
-- `Middleware` of internal/cache/cache.go for one caller that leads its singleflight group: `now` is
-- the instant of the first lookup, `read` the next reading of the clock, for the age of a fresh entry,
-- and `later` the instant of the return from the stages below.
pub mod Replies
pub mod Aging
pub mod Outage
use dnsaur.Prelude.{
  ℕ, ◌-◌, ◌/◌, ◌%◌, ◌^◌, Bool, true, false, ◌&&◌, not, Option, none, some, List, [], ◌∷◌,
  if◌then◌else◌, ◌==◌,
}
use dnsaur.Prelude.Bytes.{Bytes}
use dnsaur.Dns.{
  Question, Msg, Request, Response, Outcome, returned, panicked, Decision, forwarded, cached, stale,
  Handler, qname, qtype, class_inet, rcode_server_failure,
}
use dnsaur.Cache.{Cache, get, put, second}
use dnsaur.Cache.Table.{Key, Entry}
use dnsaur.Cache.Ttl.{resp_ttl, with_ttls, aged, rewrite_question}

-- `len(req.Msg.Question) != 1 || req.Msg.Question[0].Qclass != dns.ClassINET`, negated.
unfoldable pub is_cacheable : List Question → Bool
is_cacheable (q ∷ []) = q.qclass == class_inet
is_cacheable _ = false

is_forwarded : Decision → Bool
is_forwarded forwarded = true
is_forwarded _ = false

abbrev with_id : ℕ → Msg → Msg
with_id id m = record m { id = id }

abbrev own_response : Msg → Decision → Response
own_response m d = record {
  msg = some m;
  decision = d;
  upstream = [];
  rule_id = 0;
  list_id = 0;
  matched = [];
}

pub keep_msg : ℕ → Key → ℕ → Cache → Msg → Option ℕ → Cache
keep_msg later k epoch c m none = c
keep_msg later k epoch c m (some ttl) = put later k m ttl epoch c

-- The `if` of the function that singleflight runs, on what the stages below returned.
unfoldable pub keep_reply : ℕ → Key → ℕ → Outcome → Cache → Cache
unfolding keep_msg is_forwarded
keep_reply later k epoch panicked c = c
keep_reply later k epoch (returned none err) c = c
keep_reply later k epoch (returned (some r) (some e)) c = c
keep_reply later k epoch (returned (some r) none) c = elim r.msg [
  | none ↦ c
  | some m ↦ if is_forwarded r.decision then keep_msg later k epoch c m (resp_ttl c.o m) else c
]

-- `failed`.
unfoldable pub failed : Outcome → Bool
failed panicked = true
failed (returned none err) = true
failed (returned (some r) (some e)) = true
failed (returned (some r) none) = elim r.msg [
  | none ↦ true
  | some m ↦ m.rcode == rcode_server_failure
]

module _ {Addr : Type 0} where
  unfoldable pub key_of : Request Addr → Key
  key_of req = record { name = qname req; qtype = qtype req }

  -- A message made the reply to this caller: its ID, and its spelling of the question.
  unfoldable pub addressed : Request Addr → Msg → Msg
  addressed req m = rewrite_question (with_id req.msg.id m) req.msg

  -- The reply from a fresh entry.
  unfoldable pub fresh_reply : ℕ → Request Addr → Entry → Response
  fresh_reply now req e =
      let age = (now - e.stored_at) / second % 2 ^ 32 in
      own_response (addressed req (with_ttls (aged age) e.msg)) cached

  -- The reply from a stale entry.
  unfoldable pub stale_reply : Request Addr → Entry → Response
  stale_reply req e = own_response (addressed req (with_ttls (λ _. 30) e.msg)) stale

  pub addressed_response : Request Addr → Response → Response
  addressed_response req r = elim r.msg [
    | none ↦ r
    | some m ↦ record r { msg = some (addressed req m) }
  ]

  -- The caller's own copy of the shared outcome.
  unfoldable pub own_outcome : Request Addr → Outcome → Outcome
  unfolding addressed_response
  own_outcome req panicked = panicked
  own_outcome req (returned none err) = returned none err
  own_outcome req (returned (some r) err) = returned (some (addressed_response req r)) err

  abbrev stale_or : Request Addr → Outcome → Option Entry → Outcome
  stale_or req out none = own_outcome req out
  stale_or req out (some e) = returned (some (stale_reply req e)) none

  -- What follows `sf.Do`. A panic below is not recovered here.
  unfoldable pub conclude : ℕ → Request Addr → Outcome → Cache → Outcome × Cache
  conclude later req panicked c = (panicked, c)
  conclude later req (returned resp err) c =
      let out = returned resp err in
      let (fresh, old, c') = get later (key_of req) c in
      if failed out then (stale_or req out old, c') else (own_outcome req out, c)

  abbrev look_up :
      (read later : ℕ)
      → Handler Addr
      → Request Addr
      → ℕ
      → Option Entry × Option Entry × Cache
      → Outcome × Cache
  look_up read later next req epoch (some e, _, c) =
      (returned (some (fresh_reply read req e)) none, c)
  look_up read later next req epoch (none, _, c) =
      let out = next req in conclude later req out (keep_reply later (key_of req) epoch out c)

  -- `Cache.Middleware`: the outcome for the caller, and the cache behind it.
  unfoldable pub middleware : ℕ → ℕ → ℕ → Handler Addr → Request Addr → Cache → Outcome × Cache
  middleware now read later next req c =
      if not (is_cacheable req.msg.question)
      then (next req, c)
      else look_up read later next req c.epoch (get now (key_of req) c)
