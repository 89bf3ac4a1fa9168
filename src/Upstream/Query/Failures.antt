-- ===== src/Upstream/Query/Failures.antt =====
-- The failure cache of `Handler` in internal/upstream/forwarder.go, along runs of queries.
use dnsaur.Prelude.{
  ℕ, ◌+◌, ◌*◌, ◌<◌, ◌≡◌, refl, sym, ap, subst, ◌∙◌, false, none, some, List, [], ◌∷◌, arith,
  Bool-cases, Option-cases, inl, inr, All, ltb, lt→ltb,
}
use dnsaur.Prelude.Bytes.{Bytes}
use dnsaur.Dns.{Question, Request, Outcome, returned, Replies, servfail}
use dnsaur.Upstream.{FailKey, Forwarder, second}
use dnsaur.Upstream.Query.{
  Env, Edns, same_key, find_fail, remember, lost, won, crashed, Tried, key_of, conclude, ask,
  handle_one, handle_questions, handle,
}
use dnsaur.Upstream.Query.Held.{
  Held, same_key_refl, same_key-eq, delete_fail-Held, remember-Held, try-fail_cache,
}

module _ {Addr : Type 0} (lib : Replies) (edns : Edns) where
  conclude-Held :
      (env : Env) (req : Request Addr) (k : FailKey) (until : ℕ) (r : Forwarder × Tried)
      → env.swept < until
      → same_key (key_of lib edns req) k ≡ false
      → Held k until r.0.fail_cache
      → Held k until (conclude lib edns env req r).0.fail_cache
  unfolding conclude
  conclude-Held env req k until (f, won m p) before other h = h
  conclude-Held env req k until (f, crashed) before other h = h
  conclude-Held env req k until (f, lost e) before other h =
      remember-Held env k (key_of lib edns req) until f.fail_cache before other h

  ask-Held :
      (env : Env) (req : Request Addr) (q : Question) (f : Forwarder) (k : FailKey) (until : ℕ)
      → env.swept < until
      → same_key (key_of lib edns req) k ≡ false
      → Held k until f.fail_cache
      → Held k until (ask lib edns env req q f).0.fail_cache
  unfolding ask
  ask-Held env req q f k until before other h =
      conclude-Held env req k until _ before other
        (subst (Held k until) (sym (try-fail_cache _ env _ 0 _ none f)) h)

  suppressed :
      (env : Env) (req : Request Addr) (q : Question) (f : Forwarder) (until : ℕ)
      → env.asked < until
      → Held (key_of lib edns req) until f.fail_cache
      → handle_one lib edns env req q f ≡ (f, returned (some (servfail lib req)) none)
  unfolding handle_one
  suppressed env req q f until asked (u, found, le) =
      rw (handle_one, found) (rw (lt→ltb env.asked u (omega (arith, asked, le))) refl)

  handle_other-Held :
      (env : Env) (req : Request Addr) (q : Question) (f : Forwarder) (k : FailKey) (until : ℕ)
      → env.asked < until
      → env.swept < until
      → same_key (key_of lib edns req) k ≡ false
      → Held k until f.fail_cache
      → Held k until (handle_one lib edns env req q f).0.fail_cache
  unfolding handle_one
  handle_other-Held env req q f k until asked swept other h =
      elim (Option-cases (find_fail (key_of lib edns req) f.fail_cache)) [
        | inl fresh ↦ rw (handle_one, fresh) (ask-Held env req q f k until swept other h)
        | inr (u, found) ↦
            rw (handle_one, found)
              (elim (Bool-cases (ltb env.asked u)) [
                | inl held ↦ rw held h
                | inr lapsed ↦ rw lapsed (
                    ask-Held env req q _ k until swept other
                      (delete_fail-Held k (key_of lib edns req) until f.fail_cache other h))
              ])
      ]

  handle_one-Held :
      (env : Env) (req : Request Addr) (q : Question) (f : Forwarder) (k : FailKey) (until : ℕ)
      → env.asked < until
      → env.swept < until
      → Held k until f.fail_cache
      → Held k until (handle_one lib edns env req q f).0.fail_cache
  handle_one-Held env req q f k until asked swept h =
      elim (Bool-cases (same_key (key_of lib edns req) k)) [
        | inl same ↦
            let (u, found, le) = h in
            let own : Held (key_of lib edns req) until f.fail_cache = (
              u,
              ap (λ k. find_fail k f.fail_cache) (same_key-eq (key_of lib edns req) k same) ∙ found,
              le,
            ) in
            rw (suppressed env req q f until asked own) h
        | inr other ↦ handle_other-Held env req q f k until asked swept other h
      ]

  questions-Held :
      (env : Env) (req : Request Addr) (f : Forwarder) (k : FailKey) (until : ℕ)
      (qs : List Question)
      → env.asked < until
      → env.swept < until
      → Held k until f.fail_cache
      → Held k until (handle_questions lib edns env req f qs).0.fail_cache
  unfolding handle_questions
  questions-Held env req f k until [] asked swept h = h
  questions-Held env req f k until (q ∷ []) asked swept h =
      handle_one-Held env req q f k until asked swept h
  questions-Held env req f k until (q ∷ _ ∷ _) asked swept h = h

  -- The forwarder behind a sequence of queries.
  unfoldable pub handle_all : List (Env × Request Addr) → Forwarder → Forwarder
  handle_all [] f = f
  handle_all ((env, req) ∷ later) f = handle_all later (handle lib edns env req f).0

  handle_all-Held :
      (queries : List (Env × Request Addr)) (f : Forwarder) (k : FailKey) (until : ℕ)
      → All (λ q. (q.0.asked < until) × (q.0.swept < until)) queries
      → Held k until f.fail_cache
      → Held k until (handle_all queries f).fail_cache
  unfolding handle_all handle
  handle_all-Held [] f k until early h = h
  handle_all-Held ((env, req) ∷ later) f k until ((asked, swept), early) h =
      handle_all-Held later _ k until early
        (questions-Held env req f k until req.msg.question asked swept h)

  -- Only a failed query ends in an error, and what it asked for is held from then on.
  conclude-failed :
      (env : Env) (req : Request Addr) (e : Bytes) (r : Forwarder × Tried)
      → (conclude lib edns env req r).1 ≡ returned none (some e)
      → Held
          (key_of lib edns req)
          (env.ended + 30 * second)
          (conclude lib edns env req r).0.fail_cache
  unfolding conclude remember find_fail
  conclude-failed env req e (f, won m p) failed = absurd (cc)
  conclude-failed env req e (f, crashed) failed = absurd (cc)
  conclude-failed env req e (f, lost last) failed =
      (env.ended + 30 * second, rw (same_key_refl (key_of lib edns req)) refl, omega arith)

  -- The outcome is an error, and then what was asked for is held.
  abbrev Recorded : Env → Request Addr → Bytes → Forwarder × Outcome → Type 0
  Recorded env req e r =
      r.1 ≡ returned none (some e)
      → Held (key_of lib edns req) (env.ended + 30 * second) r.0.fail_cache

  handle_one-failed :
      (env : Env) (req : Request Addr) (q : Question) (f : Forwarder) (e : Bytes)
      → Recorded env req e (handle_one lib edns env req q f)
  unfolding handle_one ask
  handle_one-failed env req q f e =
      elim (Option-cases (find_fail (key_of lib edns req) f.fail_cache)) [
        | inl fresh ↦ rw (handle_one, fresh) (conclude-failed env req e _)
        | inr (u, found) ↦
            rw (handle_one, found)
              (elim (Bool-cases (ltb env.asked u)) [
                | inl held ↦ rw held (λ failed. absurd (cc))
                | inr lapsed ↦ rw lapsed (conclude-failed env req e _)
              ])
      ]

  handle-failed :
      (env : Env) (req : Request Addr) (f : Forwarder) (e : Bytes) (qs : List Question)
      → Recorded env req e (handle_questions lib edns env req f qs)
  unfolding handle_questions
  handle-failed env req f e [] = λ failed. absurd (cc)
  handle-failed env req f e (q ∷ []) = handle_one-failed env req q f e
  handle-failed env req f e (q ∷ _ ∷ _) = λ failed. absurd (cc)

  suppressed_again :
      (env : Env) (req : Request Addr) (q : Question) (f : Forwarder) (until : ℕ)
      → req.msg.question ≡ q ∷ []
      → env.asked < until
      → Held (key_of lib edns req) until f.fail_cache
      → handle lib edns env req f ≡ (f, returned (some (servfail lib req)) none)
  unfolding handle handle_questions
  suppressed_again env req q f until one asked h =
      ap (handle_questions lib edns env req f) one ∙ suppressed env req q f until asked h

  -- For 30 seconds behind a query that ends in an error, the same question of whichever client is
  -- answered with SERVFAIL and changes nothing of the forwarder, so it asks no upstream, whatever other
  -- queries come in between and however many failures the cache holds.
  pub handle_failed :
      (env later : Env) (req again : Request Addr) (f : Forwarder) (e : Bytes) (q : Question)
      (queries : List (Env × Request Addr))
      → (handle lib edns env req f).1 ≡ returned none (some e)
      → All
          (λ q. (q.0.asked < env.ended + 30 * second) × (q.0.swept < env.ended + 30 * second))
          queries
      → again.msg.question ≡ q ∷ []
      → key_of lib edns again ≡ key_of lib edns req
      → later.asked < env.ended + 30 * second
      → handle lib edns later again (handle_all queries (handle lib edns env req f).0) ≡ (
        handle_all queries (handle lib edns env req f).0,
        returned (some (servfail lib again)) none,
      )
  unfolding handle
  handle_failed env later req again f e q queries failed early one same asked =
      suppressed_again later again q (handle_all queries (handle lib edns env req f).0)
        (env.ended + 30 * second) one asked
        (subst
          (λ k.
            Held k (env.ended + 30 * second)
              (handle_all queries (handle lib edns env req f).0).fail_cache)
          (sym same)
          (handle_all-Held queries _ (key_of lib edns req) (env.ended + 30 * second) early
            (handle-failed env req f e req.msg.question failed)))
