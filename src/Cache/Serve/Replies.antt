-- ===== src/Cache/Serve/Replies.antt =====
-- What a caller of the cache stage of internal/cache/cache.go gets.
use dnsaur.Prelude.{
  ℕ, ◌≡◌, ◌≢◌, refl, subst, sym, true, ◌⊎◌, Option, none, some, List, [], ◌∷◌, arith, if◌then◌else◌,
  Bool-cases, inl, inr,
}
use mathlib.Core.Option.{some-injective}
use dnsaur.Prelude.Bytes.{Bytes}
use dnsaur.Dns.{Question, Msg, Request, Response, Outcome, returned, panicked, Handler}
use dnsaur.Cache.{Cache, get}
use dnsaur.Cache.Table.{Entry}
use dnsaur.Cache.Ttl.{rewrite_question, rewrite_from}
use dnsaur.Cache.Serve.{
  is_cacheable, key_of, addressed, fresh_reply, stale_reply, keep_reply, failed, own_outcome,
  addressed_response, conclude, middleware,
}

module _ {Addr : Type 0} (req : Request Addr) where
  -- The message carries the caller's ID and, if it has a question at all, the caller's question.
  pub record IsFor (m : Msg) : Type 0 where
    pub id : m.id ≡ req.msg.id
    pub question : (m.question ≡ []) ⊎ (m.question ≡ req.msg.question)

  -- What a caller is handed: a message for it, or none, or a panic from below.
  abbrev pub Answers : Outcome → Type 0
  Answers panicked = Unit
  Answers (returned none err) = Unit
  Answers (returned (some r) err) = (m : Msg) → r.msg ≡ some m → IsFor m

  rewrite_from-IsFor :
      (m : Msg) (old new : List Question)
      → m.id ≡ req.msg.id
      → m.question ≡ old
      → req.msg.question ≡ new
      → new ≢ []
      → IsFor (rewrite_from m old new)
  unfolding rewrite_from
  rewrite_from-IsFor m [] new h q r filled = record { id = h; question = inl q }
  rewrite_from-IsFor m (o ∷ old) [] h q r filled = absurd (filled refl)
  rewrite_from-IsFor m (o ∷ old) (n ∷ new) h q r filled = record { id = h; question = inr (sym r) }

  addressed-IsFor : (m : Msg) → req.msg.question ≢ [] → IsFor (addressed req m)
  unfolding addressed rewrite_question
  addressed-IsFor m filled =
      rewrite_from-IsFor (record m { id = req.msg.id }) m.question req.msg.question refl refl refl
        filled

  cacheable_filled : is_cacheable req.msg.question ≡ true → req.msg.question ≢ []
  unfolding is_cacheable
  cacheable_filled h = λ e. ground (arith, e)

  fresh_reply-Answers :
      (now : ℕ) (e : Entry)
      → req.msg.question ≢ []
      → Answers (returned (some (fresh_reply now req e)) none)
  unfolding fresh_reply
  fresh_reply-Answers now e filled m h =
      subst IsFor (some-injective _ _ h) (addressed-IsFor _ filled)

  stale_reply-Answers :
      (e : Entry) → req.msg.question ≢ [] → Answers (returned (some (stale_reply req e)) none)
  unfolding stale_reply
  stale_reply-Answers e filled m h = subst IsFor (some-injective _ _ h) (addressed-IsFor _ filled)

  addressed_response-Answers :
      (r : Response) (o : Option Msg) (err : Option Bytes)
      → r.msg ≡ o
      → req.msg.question ≢ []
      → Answers (returned (some (addressed_response req r)) err)
  unfolding addressed_response
  addressed_response-Answers r none err e filled m h = absurd (ground (arith, e, h))
  addressed_response-Answers r (some x) err e filled m h =
      subst IsFor (ground (arith, e, h)) (addressed-IsFor x filled)

  own_outcome-Answers : (out : Outcome) → req.msg.question ≢ [] → Answers (own_outcome req out)
  unfolding own_outcome
  own_outcome-Answers panicked filled = tt
  own_outcome-Answers (returned none err) filled = tt
  own_outcome-Answers (returned (some r) err) filled =
      addressed_response-Answers r r.msg err refl filled

  -- What the stages below ended in, after a miss: a success in the caller's own copy; a failure
  -- covered by a stale entry where there is one; a panic passed on.
  abbrev pub concluded : Outcome → Option Entry → Outcome
  concluded panicked old = panicked
  concluded (returned resp err) old =
      if failed (returned resp err)
      then (elim old [
        | none ↦ own_outcome req (returned resp err)
        | some e ↦ returned (some (stale_reply req e)) none
      ])
      else own_outcome req (returned resp err)

  conclude-concluded :
      (later : ℕ) (out : Outcome) (c : Cache)
      → (conclude later req out c).0 ≡ concluded out (get later (key_of req) c).1
  unfolding conclude
  conclude-concluded later panicked c = refl
  conclude-concluded later (returned resp err) c = ground arith

  concluded-Answers :
      (out : Outcome) (old : Option Entry) → req.msg.question ≢ [] → Answers (concluded out old)
  concluded-Answers panicked old filled = tt
  concluded-Answers (returned resp err) old filled =
      elim (Bool-cases (failed (returned resp err))) [
        | inl bad ↦ rw bad (covered old)
        | inr good ↦ rw good (own_outcome-Answers (returned resp err) filled)
      ]
    where
      covered :
          (o : Option Entry)
          → Answers (elim o [
            | none ↦ own_outcome req (returned resp err)
            | some e ↦ returned (some (stale_reply req e)) none
          ])
      covered none = own_outcome-Answers (returned resp err) filled
      covered (some e) = stale_reply-Answers e filled

  -- The same behind the first lookup: its fresh entry alone, where there is one.
  abbrev pub settled : ℕ → Outcome → Option Entry → Option Entry → Outcome
  settled now out old none = concluded out old
  settled now out old (some e) = returned (some (fresh_reply now req e)) none

  settled-Answers :
      (now : ℕ) (out : Outcome) (old fresh : Option Entry)
      → req.msg.question ≢ []
      → Answers (settled now out old fresh)
  settled-Answers now out old none filled = concluded-Answers out old filled
  settled-Answers now out old (some e) filled = fresh_reply-Answers now e filled

  module _ (now read later : ℕ) (next : Handler Addr) (c : Cache) where
    -- The cache behind a miss, once the answer from below has been kept or not.
    unfoldable pub kept : Cache
    kept = keep_reply later (key_of req) c.epoch (next req) (get now (key_of req) c).2

    pub middleware-outcome :
        is_cacheable req.msg.question ≡ true
        → (middleware now read later next req c).0
          ≡ settled read (next req) (get later (key_of req) kept).1 (get now (key_of req) c).0
    unfolding middleware kept
    middleware-outcome h = ground (arith, conclude-concluded later (next req) kept)

    -- To a query with exactly one question, of class IN, every message that the cache stage hands to
    -- the caller, cached, stale, forwarded or failed, has the caller's ID, and the caller's question
    -- if it has any.
    pub middleware-Answers :
        is_cacheable req.msg.question ≡ true → Answers (middleware now read later next req c).0
    middleware-Answers h =
        subst Answers (sym (middleware-outcome h))
          (settled-Answers read (next req) _ _ (cacheable_filled h))
