-- ===== src/Cache/Serve/Outage.antt =====
-- What the cache stage of internal/cache/cache.go serves while it holds an entry, the stages below it
-- failing or not.
use dnsaur.Prelude.{
  ℕ, ◌-◌, ◌/◌, ◌%◌, ◌^◌, ◌+◌, ◌<◌, ◌≤◌, ◌≡◌, refl, ap, sym, subst, ◌∙◌, true, none, some, arith,
  ltb, Bool-cases, inl, inr, ◌⊎◌,
}
use dnsaur.Dns.{
  Msg, Request, Response, Outcome, returned, panicked, Handler, cached, stale, rcode_server_failure,
}
use dnsaur.Cache.{Cache, get, get_found, second}
use dnsaur.Cache.Table.{Entry, Key, find}
use dnsaur.Cache.Ttl.{resp_ttl, with_ttls, aged}
use dnsaur.Cache.Serve.{
  addressed, is_cacheable, key_of, fresh_reply, stale_reply, keep_reply, failed, middleware,
}
use dnsaur.Cache.Serve.Replies.{concluded, settled, kept, middleware-outcome}
use dnsaur.Cache.Serve.Aging.{
  IsServed, remaining, thirty, aged-Sets, thirty-Sets, addressed-IsServed,
}

-- The stages below gave an error, no message, or SERVFAIL.
abbrev pub Fails : Outcome → Type 0
Fails panicked = ⊥
Fails (returned none err) = Unit
Fails (returned (some r) (some e)) = Unit
Fails (returned (some r) none) =
    (r.msg ≡ none) ⊎ ((m : Msg) × (r.msg ≡ some m) × (m.rcode ≡ rcode_server_failure))

module _ {Addr : Type 0} (req : Request Addr) (e : Entry) where
  keep_reply-Fails :
      (later : ℕ) (k : Key) (epoch : ℕ) (c : Cache) (out : Outcome)
      → Fails out
      → keep_reply later k epoch out c ≡ c
  unfolding keep_reply resp_ttl
  keep_reply-Fails later k epoch c panicked h = absurd h
  keep_reply-Fails later k epoch c (returned none err) h = refl
  keep_reply-Fails later k epoch c (returned (some r) (some x)) h = refl
  keep_reply-Fails later k epoch c (returned (some r) none) h = elim h [
    | inl nothing ↦ rw (nothing, keep_reply) refl
    | inr (m, e', code) ↦ rw (e', keep_reply) (ground (arith, code))
  ]

  concluded-Fails :
      (out : Outcome)
      → Fails out
      → concluded req out (some e) ≡ returned (some (stale_reply req e)) none
  unfolding failed
  concluded-Fails panicked h = absurd h
  concluded-Fails (returned none err) h = refl
  concluded-Fails (returned (some r) (some x)) h = refl
  concluded-Fails (returned (some r) none) h = elim h [
    | inl nothing ↦ ground (arith, nothing)
    | inr (m, e', code) ↦ ground (arith, e', code)
  ]

  get-fresh :
      (at : ℕ) (c : Cache)
      → find (key_of req) c.entries ≡ some e
      → at - e.stored_at < e.ttl
      → (get at (key_of req) c).0 ≡ some e
  unfolding get get_found
  get-fresh at c found young = ground (arith, found)

  -- The entry is found stale, and is still there.
  get-stale :
      (at : ℕ) (c : Cache)
      → find (key_of req) c.entries ≡ some e
      → e.ttl ≤ at - e.stored_at
      → at - e.stored_at < e.ttl + c.o.serve_stale_for
      → ((get at (key_of req) c).0 ≡ none)
        × ((get at (key_of req) c).1 ≡ some e)
        × ((get at (key_of req) c).2.entries ≡ c.entries)
        × ((get at (key_of req) c).2.o ≡ c.o)
  unfolding get get_found
  get-stale at c found old held = ground (arith, found)

  -- A cache that holds the entry serves it stale once more, behind a failure.
  stale-again :
      (now read later : ℕ) (next : Handler Addr) (c : Cache)
      → find (key_of req) c.entries ≡ some e
      → e.ttl ≤ now - e.stored_at
      → now ≤ later
      → later - e.stored_at < e.ttl + c.o.serve_stale_for
      → Fails (next req)
      → (get later (key_of req) (kept req now read later next c)).1 ≡ some e
  unfolding kept
  stale-again now read later next c found old after held bad =
      let c' = (get now (key_of req) c).2 in
      let (_, _, same, opts) = get-stale now c found old (omega (arith, after, held)) in
      let (_, again, _, _) =
        get-stale later c' (ap (find (key_of req)) same ∙ found) (omega (arith, old, after))
          (subst (λ o. later - e.stored_at < e.ttl + o.serve_stale_for) (sym opts) held) in
      ap (λ x. (get later (key_of req) x).1)
        (keep_reply-Fails later (key_of req) c.epoch c' (next req) bad)
      ∙ again

  -- While the cache holds an entry for a query with one question of class IN, not past its TTL and the
  -- stale window, a caller gets a message with the entry's rcode and its answer and authority records.
  -- Within the TTL it does so whatever the stages below would do, each record's TTL less the entry's
  -- age, whole seconds in a uint32, and at least 1; behind it where they fail, with an error, no
  -- message or SERVFAIL, each TTL 30. OPT records have no TTL to set. The clock does not run backwards
  -- between the first lookup and the second.
  pub middleware-IsServed :
      (now read later : ℕ) (next : Handler Addr) (c : Cache)
      → is_cacheable req.msg.question ≡ true
      → find (key_of req) c.entries ≡ some e
      → now ≤ later
      → later - e.stored_at < e.ttl + c.o.serve_stale_for
      → (e.ttl ≤ now - e.stored_at → Fails (next req))
      → (r : Response) × (m : Msg) × ((middleware now read later next req c).0
          ≡ returned (some r) none)
        × (r.msg ≡ some m)
        × (((now - e.stored_at < e.ttl)
              × (r.decision ≡ cached)
              × IsServed e (remaining ((read - e.stored_at) / second % 2 ^ 32)) m)
            ⊎ ((e.ttl ≤ now - e.stored_at) × (r.decision ≡ stale) × IsServed e thirty m))
  unfolding fresh_reply stale_reply
  middleware-IsServed now read later next c one found after held bad =
      let run = middleware-outcome req now read later next c one in
      let age = (read - e.stored_at) / second % 2 ^ 32 in
      elim (Bool-cases (ltb (now - e.stored_at) e.ttl)) [
        | inl young ↦
            let fresh = get-fresh now c found (ground (arith, young)) in
            (
              fresh_reply read req e,
              addressed req (with_ttls (aged age) e.msg),
              run
                  ∙ ap
                      (settled req read (next req)
                        (get later (key_of req) (kept req now read later next c)).1)
                      fresh,
              refl,
              inl (
                ground (arith, young),
                refl,
                addressed-IsServed req e (remaining age) (aged age) (aged-Sets age),
              ),
            )
        | inr past ↦
            let old : e.ttl ≤ now - e.stored_at = ground (arith, past) in
            let (gone, _, _, _) = get-stale now c found old (omega (arith, after, held)) in
            let again = stale-again now read later next c found old after held (bad old) in
            (
              stale_reply req e,
              addressed req (with_ttls (λ _. 30) e.msg),
              run
                  ∙ ap
                      (settled req read (next req)
                        (get later (key_of req) (kept req now read later next c)).1)
                      gone
                  ∙ ap (concluded req (next req)) again
                  ∙ concluded-Fails (next req) (bad old),
              refl,
              inr (old, refl, addressed-IsServed req e thirty (λ _. 30) thirty-Sets),
            )
      ]
