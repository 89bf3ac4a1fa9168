-- ===== src/Cache/Serve/Aging.antt =====
-- The records of an entry in the replies that internal/cache/cache.go makes of it.
use dnsaur.Prelude.{ℕ, ◌-◌, ◌≡◌, refl, ◌∙◌, List, [], ◌∷◌, map, arith, if◌then◌else◌, ◌==◌, ltb}
use dnsaur.Prelude.Bytes.{Bytes}
use dnsaur.Dns.{Rr, Question, Msg, Request, type_opt}
use dnsaur.Cache.Table.{Entry}
use dnsaur.Cache.Ttl.{set_ttl, with_ttls, aged, rename, rewrite_from, rewrite_question}
use dnsaur.Cache.Serve.{addressed}

-- The TTL that is left of a record at an age in seconds, at least 1; an OPT record has none.
unfoldable pub remaining : ℕ → Rr → ℕ
remaining age rr =
    if rr.rtype == type_opt then rr.ttl else if ltb age rr.ttl then rr.ttl - age else 1

-- The TTL of a stale record.
unfoldable pub thirty : Rr → ℕ
thirty rr = if rr.rtype == type_opt then rr.ttl else 30

-- The same records in order, each with the TTL that is given.
pub record IsSection (ttl_of : Rr → ℕ) (old new : List Rr) : Type 0 where
  pub data_ : map (λ rr. rr.rdata) new ≡ map (λ rr. rr.rdata) old
  pub ttls : map (λ rr. rr.ttl) new ≡ map ttl_of old

-- The message of an entry, its records with the TTLs that are given.
pub record IsServed (e : Entry) (ttl_of : Rr → ℕ) (m : Msg) : Type 0 where
  pub rcode : m.rcode ≡ e.msg.rcode
  pub answer : IsSection ttl_of e.msg.answer m.answer
  pub ns : IsSection ttl_of e.msg.ns m.ns

-- What a change to each record keeps.
abbrev pub Sets : (Rr → ℕ) → (Rr → Rr) → Type 0
Sets ttl_of f = (rr : Rr) → ((f rr).rdata ≡ rr.rdata) × ((f rr).ttl ≡ ttl_of rr)

map-IsSection :
    (ttl_of : Rr → ℕ) (f g : Rr → Rr)
    → Sets ttl_of f
    → Sets (λ rr. rr.ttl) g
    → (rrs : List Rr) → IsSection ttl_of rrs (map g (map f rrs))
map-IsSection ttl_of f g hf hg [] = record { data_ = refl; ttls = refl }
map-IsSection ttl_of f g hf hg (rr ∷ rrs) =
    let rest = map-IsSection ttl_of f g hf hg rrs in
    record {
      data_ = cc (((hg (f rr)).0 ∙ (hf rr).0), rest.data_);
      ttls = cc (((hg (f rr)).1 ∙ (hf rr).1), rest.ttls);
    }

map_once-IsSection :
    (ttl_of : Rr → ℕ) (f : Rr → Rr)
    → Sets ttl_of f
    → (rrs : List Rr) → IsSection ttl_of rrs (map f rrs)
map_once-IsSection ttl_of f hf [] = record { data_ = refl; ttls = refl }
map_once-IsSection ttl_of f hf (rr ∷ rrs) =
    let rest = map_once-IsSection ttl_of f hf rrs in
    record { data_ = cc ((hf rr).0, rest.data_); ttls = cc ((hf rr).1, rest.ttls) }

rename-Sets : (old new : Bytes) → Sets (λ rr. rr.ttl) (rename old new)
unfolding rename
rename-Sets old new rr = (ground arith, ground arith)

pub aged-Sets : (age : ℕ) → Sets (remaining age) (set_ttl (aged age))
unfolding set_ttl aged remaining
aged-Sets age rr = (ground arith, ground arith)

pub thirty-Sets : Sets thirty (set_ttl (λ _. 30))
unfolding set_ttl thirty
thirty-Sets rr = (ground arith, ground arith)

rewritten-IsServed :
    (ttl_of : Rr → ℕ) (set : ℕ → ℕ) (e : Entry) (id : ℕ) (old new : List Question)
    → Sets ttl_of (set_ttl set)
    → IsServed e ttl_of (rewrite_from (record (with_ttls set e.msg) { id = id }) old new)
unfolding rewrite_from with_ttls
rewritten-IsServed ttl_of set e id [] new h = record {
  rcode = refl;
  answer = map_once-IsSection ttl_of (set_ttl set) h e.msg.answer;
  ns = map_once-IsSection ttl_of (set_ttl set) h e.msg.ns;
}
rewritten-IsServed ttl_of set e id (o ∷ old) [] h = record {
  rcode = refl;
  answer = map_once-IsSection ttl_of (set_ttl set) h e.msg.answer;
  ns = map_once-IsSection ttl_of (set_ttl set) h e.msg.ns;
}
rewritten-IsServed ttl_of set e id (o ∷ old) (n ∷ new) h =
    let same = rename-Sets o.name n.name in
    record {
      rcode = refl;
      answer = map-IsSection ttl_of (set_ttl set) (rename o.name n.name) h same e.msg.answer;
      ns = map-IsSection ttl_of (set_ttl set) (rename o.name n.name) h same e.msg.ns;
    }

module _ {Addr : Type 0} (req : Request Addr) (e : Entry) where
  pub addressed-IsServed :
      (ttl_of : Rr → ℕ) (set : ℕ → ℕ)
      → Sets ttl_of (set_ttl set)
      → IsServed e ttl_of (addressed req (with_ttls set e.msg))
  unfolding addressed rewrite_question with_ttls
  addressed-IsServed ttl_of set h =
      rewritten-IsServed ttl_of set e req.msg.id e.msg.question req.msg.question h
