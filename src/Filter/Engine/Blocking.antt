-- ===== src/Filter/Engine/Blocking.antt =====
-- Which queries the stage of internal/filter/engine.go answers, and which reach the stage below it.
use dnsaur.Prelude.{
  ◌∙◌, List, [], ◌∷◌, ◌≢◌, refl, Bool-cases, ◌==◌, ℕ, ◌≡◌, Bool, true, false, ◌&&◌, not, none, some,
  arith, Option-cases, inl, inr,
}
use dnsaur.Prelude.Bytes.{bytes_eq, codes}
use dnsaur.Dns.{
  returned, blocked, Rr, RData, Msg, Question, type_a, type_aaaa, class_inet, rcode_name_error,
  qtype, Request, Handler, Replies, qname,
}
use dnsaur.Filter.Ruleset.{Ruleset, Verdict, evaluate, block}
use dnsaur.Filter.Ruleset.Order.{action_of, evaluate-action_of}
use dnsaur.Filter.Pauses.{is_paused}
use dnsaur.Filter.Engine.{
  BlockingCfg, null_answer, first_question, ipv4_zero, ipv6_zero, block_response, Engine,
  ruleset_of, block_reply, middleware,
}

abbrev null_rr : Question → ℕ → ℕ → RData → Rr
null_rr q rtype ttl rdata = record {
  name = q.name;
  rtype = rtype;
  class = class_inet;
  ttl = ttl;
  rdata = rdata;
}

-- The message of a blocked query with this question, by the mode that is set. In any mode but
-- nxdomain it is an ordinary reply, with one null address of the type asked for, or none.
pub record IsSunk (lib : Replies) (cfg : BlockingCfg) (msg m : Msg) (q : Question) : Type 0 where
  pub denied : bytes_eq cfg.mode (codes "nxdomain") ≡ true → m ≡ lib.set_rcode msg rcode_name_error
  pub ipv4 :
      bytes_eq cfg.mode (codes "nxdomain") ≡ false
      → q.qtype ≡ type_a
      → m
        ≡ record (lib.set_reply msg) { answer = null_rr q type_a cfg.ttl (RData.a ipv4_zero) ∷ [] }
  pub ipv6 :
      bytes_eq cfg.mode (codes "nxdomain") ≡ false
      → q.qtype ≡ type_aaaa
      → m ≡ record (lib.set_reply msg) {
        answer = null_rr q type_aaaa cfg.ttl (RData.aaaa ipv6_zero) ∷ [];
      }
  pub others :
      bytes_eq cfg.mode (codes "nxdomain") ≡ false
      → q.qtype ≢ type_a
      → q.qtype ≢ type_aaaa
      → m ≡ lib.set_reply msg

module _ {Addr : Type 0} where
  -- The question that the stage decides: a known group, no pause in force, and a ruleset whose
  -- documented precedence ends in block.
  unfoldable pub blocks : ℕ → Engine → Request Addr → Bool
  blocks now e req = elim (ruleset_of e.groups req.client.group_id) [
    | none ↦ false
    | some rs ↦
        not (is_paused now e.paused req.client.group_id req.client.id)
        && bytes_eq (action_of rs (qname req)) block
  ]

  -- What the stage does with either kind of query, the reply to a blocked one by its function.
  pub middleware-blocks :
      (lib : Replies) (now : ℕ) (e : Engine) (next : Handler Addr) (req : Request Addr)
      → (blocks now e req ≡ false → middleware lib now e next req ≡ next req)
        × (blocks now e req ≡ true
            → (rs : Ruleset) × (ruleset_of e.groups req.client.group_id ≡ some rs)
              × (middleware lib now e next req
                  ≡ block_reply lib e.blocking req (evaluate rs (qname req))))
  unfolding blocks middleware
  middleware-blocks lib now e next req =
      elim (Option-cases (ruleset_of e.groups req.client.group_id)) [
        | inl unknown ↦ (λ h. rw (unknown, middleware), λ h. absurd (ground arith))
        | inr (rs, found) ↦ (
          λ h. ground (arith, evaluate-action_of rs (qname req)),
          λ h. (rs, found, ground (arith, evaluate-action_of rs (qname req))),
        )
      ]

  block_reply-IsSunk :
      (lib : Replies) (cfg : BlockingCfg) (req : Request Addr) (v : Verdict) (q : Question)
      (qs : List Question)
      → req.msg.question ≡ q ∷ qs
      → (m : Msg) × IsSunk lib cfg req.msg m q × (block_reply lib cfg req v ≡ block_response v m)
  unfolding block_reply first_question qtype null_answer
  block_reply-IsSunk lib cfg req v q qs h =
      elim (Bool-cases (bytes_eq cfg.mode (codes "nxdomain"))) [
        | inl nx ↦ (
          lib.set_rcode req.msg rcode_name_error,
          record {
            denied = λ _. refl;
            ipv4 = λ e. absurd (ground (arith, nx, e));
            ipv6 = λ e. absurd (ground (arith, nx, e));
            others = λ e. absurd (ground (arith, nx, e));
          },
          ground (arith, nx),
        )
        | inr other ↦ elim (Bool-cases (q.qtype == type_a)) [
          | inl four ↦ (
            record (lib.set_reply req.msg) {
              answer = null_rr q type_a cfg.ttl (RData.a ipv4_zero) ∷ [];
            },
            record {
              denied = λ e. absurd (ground (arith, other, e));
              ipv4 = λ _ _. refl;
              ipv6 = λ _ e. absurd (ground (arith, four, e));
              others = λ _ e. absurd (ground (arith, four, e));
            },
            ground (arith, other, four, h),
          )
          | inr not_four ↦ elim (Bool-cases (q.qtype == type_aaaa)) [
            | inl six ↦ (
              record (lib.set_reply req.msg) {
                answer = null_rr q type_aaaa cfg.ttl (RData.aaaa ipv6_zero) ∷ [];
              },
              record {
                denied = λ e. absurd (ground (arith, other, e));
                ipv4 = λ _ e. absurd (ground (arith, not_four, e));
                ipv6 = λ _ _. refl;
                others = λ _ _ e. absurd (ground (arith, six, e));
              },
              ground (arith, other, not_four, six, h),
            )
            | inr not_six ↦ (
              lib.set_reply req.msg,
              record {
                denied = λ e. absurd (ground (arith, other, e));
                ipv4 = λ _ e. absurd (ground (arith, not_four, e));
                ipv6 = λ _ e. absurd (ground (arith, not_six, e));
                others = λ _ _ _. refl;
              },
              ground (arith, other, not_four, not_six, h),
            )
          ]
        ]
      ]

  -- A query with a question that is not to be blocked gets exactly what the next stage returns. One
  -- that is gets, whatever the next stage would have done, the rule, the list and the pattern of its
  -- group's verdict with a reply that depends on the mode: NXDOMAIN in mode nxdomain, and in any other
  -- mode 0.0.0.0 to A, :: to AAAA, each with the TTL that is set, and an empty reply to other types.
  pub middleware-IsSunk :
      (lib : Replies) (now : ℕ) (e : Engine) (next : Handler Addr) (req : Request Addr)
      (q : Question) (qs : List Question)
      → req.msg.question ≡ q ∷ qs
      → (blocks now e req ≡ false → middleware lib now e next req ≡ next req)
        × (blocks now e req ≡ true
            → (rs : Ruleset) × (m : Msg) × (ruleset_of e.groups req.client.group_id ≡ some rs)
              × IsSunk lib e.blocking req.msg m q
              × (middleware lib now e next req
                  ≡ returned
                      (some (record {
                        msg = some m;
                        decision = blocked;
                        upstream = [];
                        rule_id = (evaluate rs (qname req)).rule_id;
                        list_id = (evaluate rs (qname req)).list_id;
                        matched = (evaluate rs (qname req)).matched;
                      }))
                      none))
  middleware-IsSunk lib now e next req q qs h =
      let (passes, stops) = middleware-blocks lib now e next req in
      (
        passes,
        λ b.
            let (rs, found, run) = stops b in
            let (m, sunk, reply) =
              block_reply-IsSunk lib e.blocking req (evaluate rs (qname req)) q qs h in
            (rs, m, found, sunk, run ∙ reply),
      )
