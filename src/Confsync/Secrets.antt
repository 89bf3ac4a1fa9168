-- ===== src/Confsync/Secrets.antt =====
-- The secrets of replicas in internal/confsync/registry.go.
use dnsaur.Prelude.{
  ◌≡◌, ◌≢◌, sym, ap, subst, ◌∙◌, true, false, not, some, List, [], ◌∷◌, arith, Bool-cases, inl, inr,
  if◌then◌else◌, is_empty,
}
use mathlib.Core.Bool.{false≢true}
use dnsaur.Prelude.Bytes.{Bytes, bytes_eq, bytes_eq_refl}
use dnsaur.Confsync.{
  ReplicaRecord, Settings, Env, ok, find, delete, holder, admit, try_code, pair, authenticate,
  forget, loads, saves,
}

module _ (hash_token : Bytes → Bytes) where
  holder-delete :
      (hash id : Bytes) (all : List (Bytes × ReplicaRecord)) → holder hash (delete id all) ≢ some id
  unfolding holder delete
  holder-delete hash id [] h = ground (arith, h)
  holder-delete hash id ((id', r) ∷ all) h = elim (Bool-cases (bytes_eq id' id)) [
    | inl same ↦ holder-delete hash id all (
        subst
          (λ b. holder hash (if not b then (id', r) ∷ delete id all else delete id all) ≡ some id)
          same h)
    | inr other ↦
        let kept =
          subst
            (λ b. holder hash (if not b then (id', r) ∷ delete id all else delete id all) ≡ some id)
            other h in
        elim (Bool-cases (bytes_eq r.secret_hash hash)) [
          | inl here ↦
              let found =
                subst (λ b. (if b then some id' else holder hash (delete id all)) ≡ some id) here
                  kept in
              let eq : id' ≡ id = cc in
              absurd
                (false≢true (sym other ∙ subst (λ x. bytes_eq id' x ≡ true) eq (bytes_eq_refl id')))
          | inr there ↦ holder-delete hash id all (
              subst (λ b. (if b then some id' else holder hash (delete id all)) ≡ some id) there
                kept)
        ]
  ]

  abbrev paired : Env → Bytes → Bytes → ReplicaRecord
  paired env addr secret = record {
    dns_addr = addr;
    last_seen = env.now;
    version_applied = 0;
    dhcp = false;
    secret_hash = hash_token secret;
  }

  pair-stores :
      (env : Env) (code id addr secret : Bytes) (s : Settings)
      → (pair hash_token env code id addr s).1 ≡ ok secret
      → (pair hash_token env code id addr s).0.replicas
        ≡ (id, paired env addr secret) ∷ delete id s.replicas
  unfolding pair try_code admit
  pair-stores env code id addr secret s done = grind arith

  authenticate-held :
      (env : Env) (secret : Bytes) (s : Settings) (id : Bytes)
      → is_empty secret ≡ false
      → env.down loads ≡ false
      → holder (hash_token secret) s.replicas ≡ some id
      → authenticate hash_token env secret s ≡ ok (some id)
  unfolding authenticate
  authenticate-held env secret s id filled up held = grind arith

  authenticate-holder :
      (env : Env) (secret : Bytes) (s : Settings) (id : Bytes)
      → authenticate hash_token env secret s ≡ ok (some id)
      → holder (hash_token secret) s.replicas ≡ some id
  unfolding authenticate
  authenticate-holder env secret s id h = grind arith

  forget-replicas :
      (env : Env) (id : Bytes) (s : Settings) (r : ReplicaRecord)
      → env.down loads ≡ false
      → env.down saves ≡ false
      → find id s.replicas ≡ some r
      → (forget env id s).0.replicas ≡ delete id s.replicas
  unfolding forget
  forget-replicas env id s r up up' found = grind arith

  forget-deletes :
      (env : Env) (secret id : Bytes) (s : Settings) (r : ReplicaRecord)
      → env.down loads ≡ false
      → env.down saves ≡ false
      → find id s.replicas ≡ some r
      → authenticate hash_token env secret (forget env id s).0 ≢ ok (some id)
  forget-deletes env secret id s r up up' found h =
      holder-delete (hash_token secret) id s.replicas (
        ap (holder (hash_token secret)) (sym (forget-replicas env id s r up up' found))
        ∙ authenticate-holder env secret (forget env id s).0 id h)

  -- `Authenticate` called directly behind `Pair` accepts the secret that `Pair` returned, for the
  -- instance that it was for; and directly behind a `Forget` of that instance that directly follows
  -- `Pair`, it accepts no secret for it. The accesses do not fail, and the secret is not empty.
  pub pair-authenticate :
      (env later : Env) (code id addr secret any_secret : Bytes) (s : Settings)
      → (pair hash_token env code id addr s).1 ≡ ok secret
      → is_empty secret ≡ false
      → later.down loads ≡ false
      → later.down saves ≡ false
      → (authenticate hash_token later secret (pair hash_token env code id addr s).0 ≡ ok (some id))
        × (authenticate hash_token later any_secret
              (forget later id (pair hash_token env code id addr s).0).0
            ≢ ok (some id))
  unfolding holder find
  pair-authenticate env later code id addr secret any_secret s done filled up up' = (
    authenticate-held later secret (pair hash_token env code id addr s).0 id filled up (
        ap (holder (hash_token secret)) (pair-stores env code id addr secret s done)
        ∙ ap (λ b. if b then some id else holder (hash_token secret) (delete id s.replicas))
            (bytes_eq_refl (hash_token secret))),
    λ h.
        forget-deletes later any_secret id (pair hash_token env code id addr s).0
          (paired env addr secret) up up'
          (ap (find id) (pair-stores env code id addr secret s done)
            ∙ ap (λ b. if b then some (paired env addr secret) else find id (delete id s.replicas))
                (bytes_eq_refl id))
          h,
  )
