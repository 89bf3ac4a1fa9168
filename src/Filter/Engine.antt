-- ===== src/Filter/Engine.antt =====
-- `Engine` of internal/filter/engine.go: the rulesets by group, the pauses, and the middleware.
pub mod Blocking
use dnsaur.Prelude.{
  ℕ, ◌≡◌, Bool, true, false, ◌||◌, not, Option, none, some, List, [], ◌∷◌, if◌then◌else◌, ◌==◌,
}
use dnsaur.Prelude.Bytes.{Bytes, bytes_eq, codes}
use dnsaur.Dns.{
  Rr, RData, Msg, Question, Request, Response, Outcome, returned, Middleware, Replies, qname, qtype,
  blocked, type_a, type_aaaa, class_inet, rcode_name_error,
}
use dnsaur.Filter.Ruleset.{Ruleset, Verdict, evaluate, block}
use dnsaur.Filter.Pauses.{Pauses, PauseKind, no_pauses, pause, restore, is_paused}

-- `blockingCfg`.
pub record BlockingCfg : Type 0 where
  pub mode : Bytes
  pub ttl : ℕ

-- `persists` tells whether a sink is registered.
pub record Engine : Type 0 where
  pub groups : List (ℕ × Ruleset)
  pub blocking : BlockingCfg
  pub paused : Pauses
  pub persists : Bool

-- `NewEngine`.
abbrev pub new_engine : Engine
new_engine = record {
  groups = [];
  blocking = record { mode = codes "null-ip"; ttl = 30 };
  paused = no_pauses;
  persists = false;
}

-- `Engine.SetGroups`, `Engine.SetBlocking` and `Engine.OnPauseChange`.
unfoldable pub set_groups : List (ℕ × Ruleset) → Engine → Engine
set_groups g e = record e { groups = g }

unfoldable pub set_blocking : Bytes → ℕ → Engine → Engine
set_blocking mode ttl e = record e { blocking = record { mode = mode; ttl = ttl } }

unfoldable pub on_pause_change : Engine → Engine
on_pause_change e = record e { persists = true }

-- `Engine.Pause`: the new engine, and what the sink is called with.
unfoldable pub engine_pause : ℕ → PauseKind → ℕ → ℕ → Engine → Engine × Option Pauses
engine_pause now kind id d e =
    let next = pause now kind id d e.paused in
    (record e { paused = next }, if e.persists then some next else none)

-- `Engine.Restore`; the sink is not called.
unfoldable pub engine_restore : ℕ → Pauses → Engine → Engine
engine_restore now p e = record e { paused = restore now p e.paused }

-- `rs, ok := groups[id]`.
unfoldable pub ruleset_of : List (ℕ × Ruleset) → ℕ → Option Ruleset
ruleset_of [] id = none
ruleset_of ((j, rs) ∷ m) id = if j == id then some rs else ruleset_of m id

abbrev pub ipv4_zero : Bytes
ipv4_zero = 0 ∷ 0 ∷ 0 ∷ 0 ∷ []

abbrev pub ipv6_zero : Bytes
ipv6_zero = 0 ∷ 0 ∷ 0 ∷ 0 ∷ 0 ∷ 0 ∷ 0 ∷ 0 ∷ 0 ∷ 0 ∷ 0 ∷ 0 ∷ 0 ∷ 0 ∷ 0 ∷ 0 ∷ []

-- `req.Msg.Question[0].Name`; that index panics on a message with no question.
first_question : List Question → Option Bytes
first_question [] = none
first_question (q ∷ _) = some q.name

-- The `Answer` of a null-ip reply.
unfoldable pub null_answer : Bytes → ℕ → ℕ → List Rr
null_answer name ttl qt =
    if qt == type_a
    then (record {
      name = name;
      rtype = type_a;
      class = class_inet;
      ttl = ttl;
      rdata = RData.a ipv4_zero;
    })
      ∷ []
    else if qt == type_aaaa
    then (record {
      name = name;
      rtype = type_aaaa;
      class = class_inet;
      ttl = ttl;
      rdata = RData.aaaa ipv6_zero;
    })
      ∷ []
    else []

-- The response at the end of the middleware.
abbrev pub block_response : Verdict → Msg → Outcome
block_response v m =
    returned
      (some (record {
        msg = some m;
        decision = blocked;
        upstream = [];
        rule_id = v.rule_id;
        list_id = v.list_id;
        matched = v.matched;
      }))
      none

module _ {Addr : Type 0} (lib : Replies) where
  abbrev null_reply : BlockingCfg → Request Addr → Verdict → Option Bytes → Outcome
  null_reply cfg req v none = Outcome.panicked
  null_reply cfg req v (some name) =
      let m = lib.set_reply req.msg in
      let ans = null_answer name cfg.ttl (qtype req) in
      elim ans [
        | [] ↦ block_response v m
        | rr ∷ rest ↦ block_response v (record m { answer = rr ∷ rest })
      ]

  -- The reply to a name that is blocked.
  unfoldable pub block_reply : BlockingCfg → Request Addr → Verdict → Outcome
  unfolding first_question
  block_reply cfg req v =
      if bytes_eq cfg.mode (codes "nxdomain")
      then block_response v (lib.set_rcode req.msg rcode_name_error)
      else null_reply cfg req v (first_question req.msg.question)

  abbrev judged : BlockingCfg → Request Addr → Verdict → Outcome → Outcome
  judged cfg req v below = if not (bytes_eq v.action block) then below else block_reply cfg req v

  abbrev filtered : ℕ → Engine → Request Addr → Outcome → Option Ruleset → Outcome
  filtered now e req below none = below
  filtered now e req below (some rs) =
      if is_paused now e.paused req.client.group_id req.client.id
      then below
      else judged e.blocking req (evaluate rs (qname req)) below

  -- `Engine.Middleware`, at the instant `now`.
  unfoldable pub middleware : ℕ → Engine → Middleware Addr
  middleware now e next req =
      filtered now e req (next req) (ruleset_of e.groups req.client.group_id)
