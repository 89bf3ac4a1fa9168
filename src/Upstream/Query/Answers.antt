-- ===== src/Upstream/Query/Answers.antt =====
-- What `Handler` of internal/upstream/forwarder.go answers, on the attempts of its upstreams.
use dnsaur.Prelude.{
  ℕ, ◌≤◌, ◌≡◌, ◌⊎◌, refl, sym, ap, subst, ◌∙◌, Bool, true, false, none, some, List, [], ◌∷◌, arith,
  inl, inr, ltb,
}
use dnsaur.Prelude.Bytes.{Bytes}
use dnsaur.Dns.{Msg, Question, Request, Outcome, returned, Replies, forwarded, qname}
use dnsaur.Upstream.{Up, Forwarder, addr_of}
use dnsaur.Upstream.Conditional.{pick}
use dnsaur.Upstream.Query.{
  is_healthy, Env, Edns, Tried, conclude, ask, handle_one, handle_questions, handle, key_of,
  find_fail, delete_fail, choose, tried_ups, upstream_query, races,
}
use dnsaur.Upstream.Query.Orders.{In, Rearranges, In-choose, In-chosen, In-ordered}
use dnsaur.Upstream.Query.Attempts.{IsProper, Good, Wins, try-Wins, try-addr}

module _ {Addr : Type 0} (lib : Replies) (edns : Edns) where
  -- The message behind an outcome is that of an upstream that was tried, under the caller's ID.
  abbrev Forwarded : Env → Request Addr → Msg → List ℕ → List Up → Outcome → Type 0
  Forwarded env req out ps heap o =
      (m : Msg) × (p : ℕ) × (n : ℕ) × (o
        ≡ returned
            (some (record {
              msg = some (record m { id = req.msg.id });
              decision = forwarded;
              upstream = addr_of heap p;
              rule_id = 0;
              list_id = 0;
              matched = [];
            }))
            none)
      × In p ps
      × Good (env.attempt n (addr_of heap p) out) m

  conclude-Forwarded :
      (env : Env) (req : Request Addr) (out : Msg) (ps : List ℕ) (heap : List Up)
      (r : Forwarder × Tried)
      → ((p : ℕ) → addr_of r.0.heap p ≡ addr_of heap p)
      → Wins env out ps heap r.1
      → Forwarded env req out ps heap (conclude lib edns env req r).1
  unfolding conclude
  conclude-Forwarded env req out ps heap (f, t) same (m, p, n, won_by, among, fine) = (
    m,
    p,
    n,
    ap (λ t. (conclude lib edns env req (f, t)).1) won_by
        ∙ ap
            (λ a.
              returned
                (some (record {
                  msg = some (record m { id = req.msg.id });
                  decision = forwarded;
                  upstream = a;
                  rule_id = 0;
                  list_id = 0;
                  matched = [];
                }))
                none)
            (same p),
    among,
    fine,
  )

  ask-Forwarded :
      (env : Env) (req : Request Addr) (q : Question) (f : Forwarder) (p : ℕ)
      → ((n : ℕ) (addr : Bytes) (m : Msg) → IsProper (env.attempt n addr m).reply)
      → In p (tried_ups lib edns env req f)
      → ((n : ℕ) (m : Msg) → (r : Msg) × Good (env.attempt n (addr_of f.heap p) m) r)
      → Forwarded env req
          (upstream_query edns env.fresh_id q (edns.is_do req.msg))
          (tried_ups lib edns env req f)
          f.heap
          (ask lib edns env req q f).1
  unfolding ask
  ask-Forwarded env req q f p proper among good =
      conclude-Forwarded env req _ _ f.heap _ (try-addr _ env _ 0 _ none f) (
        try-Wins (races f.strategy) env (upstream_query edns env.fresh_id q (edns.is_do req.msg)) 0
          (tried_ups lib edns env req f) none f p (λ n addr. proper n addr _) (λ n. good n _) among)

  -- The same with an upstream of the routes of the name.
  abbrev pub Answered : Env → Request Addr → Forwarder → Outcome → Type 0
  Answered env req f o =
      (m : Msg) × (p : ℕ) × (n : ℕ) × (out : Msg) × (o
        ≡ returned
            (some (record {
              msg = some (record m { id = req.msg.id });
              decision = forwarded;
              upstream = addr_of f.heap p;
              rule_id = 0;
              list_id = 0;
              matched = [];
            }))
            none)
      × In p (pick f (qname req))
      × Good (env.attempt n (addr_of f.heap p) out) m

  ask-Answered :
      (env : Env) (req : Request Addr) (q : Question) (f : Forwarder) (p : ℕ)
      → ((n : ℕ) (addr : Bytes) (m : Msg) → IsProper (env.attempt n addr m).reply)
      → ((less : ℕ → ℕ → Bool) → Rearranges (env.sort less))
      → Rearranges env.arrivals
      → In p (pick f (qname req))
      → is_healthy env f.heap p ≡ true
      → ((n : ℕ) (m : Msg) → (r : Msg) × Good (env.attempt n (addr_of f.heap p) m) r)
      → Answered env req f (ask lib edns env req q f).1
  ask-Answered env req q f p proper sorts arrives among up good =
      let chosen = In-choose env f p (pick f (qname req)) up among in
      let (m, p', n, o, tried, fine) =
        ask-Forwarded env req q f p proper
          ((In-ordered env f p (choose env f (pick f (qname req))) sorts arrives).0 chosen) good in
      (
        m,
        p',
        n,
        _,
        o,
        In-chosen env f p' (pick f (qname req))
            ((In-ordered env f p' (choose env f (pick f (qname req))) sorts arrives).1 tried),
        fine,
      )

  -- A query with one question, whose name and type have not failed within the 30 seconds before it, is
  -- answered if a healthy upstream of the routes of its name answers whatever it is asked with a message
  -- that is no SERVFAIL, whatever the strategy: with such a message of an upstream of these routes, under
  -- the caller's ID and with that upstream's address. No exchange panics or returns neither a message nor
  -- an error, and the orders lose and add no upstream.
  pub handle-Answered :
      (env : Env) (req : Request Addr) (q : Question) (f : Forwarder) (p : ℕ)
      → ((n : ℕ) (addr : Bytes) (m : Msg) → IsProper (env.attempt n addr m).reply)
      → ((less : ℕ → ℕ → Bool) → Rearranges (env.sort less))
      → Rearranges env.arrivals
      → req.msg.question ≡ q ∷ []
      → (find_fail (key_of lib edns req) f.fail_cache ≡ none)
        ⊎ ((u : ℕ) × (find_fail (key_of lib edns req) f.fail_cache ≡ some u) × (u ≤ env.asked))
      → In p (pick f (qname req))
      → is_healthy env f.heap p ≡ true
      → ((n : ℕ) (m : Msg) → (r : Msg) × Good (env.attempt n (addr_of f.heap p) m) r)
      → Answered env req f (handle lib edns env req f).1
  unfolding handle handle_questions handle_one pick
  handle-Answered env req q f p proper sorts arrives one lapsed among up good =
      subst (λ qs. Answered env req f (handle_questions lib edns env req f qs).1) (sym one)
        (elim lapsed [
          | inl fresh ↦
              subst (λ r. Answered env req f r.1) (sym (asks fresh))
                (ask-Answered env req q f p proper sorts arrives among up good)
          | inr (u, found, late) ↦
              subst (λ r. Answered env req f r.1)
                (sym (asks_again u found (not_before env.asked u late)))
                (ask-Answered env req q
                  (record f { fail_cache = delete_fail (key_of lib edns req) f.fail_cache }) p
                  proper sorts arrives among up good)
        ])
    where
      not_before : (a u : ℕ) → u ≤ a → ltb a u ≡ false
      not_before a u h = ground arith

      asks :
          find_fail (key_of lib edns req) f.fail_cache ≡ none
          → handle_one lib edns env req q f ≡ ask lib edns env req q f
      asks fresh = rw (handle_one, fresh) refl

      asks_again :
          (u : ℕ)
          → find_fail (key_of lib edns req) f.fail_cache ≡ some u
          → ltb env.asked u ≡ false
          → handle_one lib edns env req q f
            ≡ ask lib edns env req q
                (record f { fail_cache = delete_fail (key_of lib edns req) f.fail_cache })
      asks_again u found late = rw (handle_one, found, late) refl
