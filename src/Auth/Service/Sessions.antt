-- ===== src/Auth/Service/Sessions.antt =====
-- Sessions and API tokens: `Authenticate` and `ChangePassword` of internal/auth/service.go.
use dnsaur.Prelude.{
  ℕ, ◌+◌, ◌*◌, ◌/◌, ◌≤◌, ◌<◌, ◌≡◌, ◌↔◌, ◌⊎◌, refl, sym, subst, ◌∙◌, Bool, true, false, not, some,
  List, [], ◌∷◌, arith, Bool-cases, Option-cases, inl, inr, All, keep, if◌then◌else◌,
}
use dnsaur.Prelude.Bytes.{Bytes, bytes_eq}
use dnsaur.Auth.{User, AuthToken, Db, set_password, token_by_hash, user_by_id, delete_sessions}
use dnsaur.Auth.Service.{
  Env, Crypto, ok, authenticate, admit, owner, refuse, past_ceiling, session_ceiling, is_session,
  change_password, replace_password, revoke_other_sessions, millisecond, session_max_lifetime,
  by_id, by_hash, sets_password, deletes_sessions, too_short,
}
use dnsaur.Auth.Service.Calls.{is_ok, Ends, guard-Ends, option-Ends}

module _ (crypto : Crypto) where
  owner-ok :
      (env : Env) (t t' : AuthToken) (u : User) (db : Db)
      → owner crypto env t db ≡ ok (u, t')
      → (t ≡ t') × (user_by_id t.user_id db.users ≡ some u)
  unfolding owner
  owner-ok env t t' u db h = grind arith

  admit-ok :
      (env : Env) (t : AuthToken) (x : User × AuthToken) (db : Db)
      → (admit crypto env t db).1 ≡ ok x
      → (owner crypto env t db ≡ ok x)
        × ((t.expires_at ≡ 0) ⊎ (env.now / millisecond ≤ t.expires_at))
        × (past_ceiling env.now (session_ceiling t) ≡ false)
  unfolding admit refuse
  admit-ok env t x db h = grind arith

  owner-found :
      (env : Env) (t : AuthToken) (u : User) (db : Db)
      → env.down by_id ≡ false
      → user_by_id t.user_id db.users ≡ some u
      → owner crypto env t db ≡ ok (u, t)
  unfolding owner
  owner-found env t u db up found = grind arith

  ceiling_iff :
      (now : ℕ) (t : AuthToken)
      → (past_ceiling now (session_ceiling t) ≡ false) ↔ (
          (is_session t ≡ false)
          ⊎ ((t.created_at ≡ 0) ⊎ (now < t.created_at * millisecond + session_max_lifetime)))
  unfolding past_ceiling session_ceiling
  ceiling_iff now t = grind arith

  admit-live :
      (env : Env) (t : AuthToken) (db : Db)
      → ((t.expires_at ≡ 0) ⊎ (env.now / millisecond ≤ t.expires_at))
      → past_ceiling env.now (session_ceiling t) ≡ false
      → (admit crypto env t db).1 ≡ owner crypto env t db
  unfolding admit refuse
  admit-live env t db live under = grind arith

  authenticate-found :
      (env : Env) (plain : Bytes) (x : User × AuthToken) (db : Db)
      → (authenticate crypto env plain db).1 ≡ ok x
      → (t : AuthToken) × (token_by_hash (crypto.hash_token plain) db.tokens ≡ some t)
        × ((admit crypto env t db).1 ≡ ok x)
  unfolding authenticate
  authenticate-found env plain x db h =
      elim (Option-cases (token_by_hash (crypto.hash_token plain) db.tokens)) [
        | inl missing ↦ absurd (grind arith)
        | inr (t, found) ↦ (t, found, grind arith)
      ]

  authenticate-admits :
      (env : Env) (plain : Bytes) (t : AuthToken) (db : Db)
      → env.down by_hash ≡ false
      → token_by_hash (crypto.hash_token plain) db.tokens ≡ some t
      → (authenticate crypto env plain db).1 ≡ (admit crypto env t db).1
  unfolding authenticate
  authenticate-admits env plain t db up found = rw (up, found) refl

  authenticate-holds :
      (env : Env) (plain : Bytes) (db : Db) (u : User) (t : AuthToken)
      → (authenticate crypto env plain db).1 ≡ ok (u, t)
      → (token_by_hash (crypto.hash_token plain) db.tokens ≡ some t)
        × (user_by_id t.user_id db.users ≡ some u)
        × ((t.expires_at ≡ 0) ⊎ (env.now / millisecond ≤ t.expires_at))
        × ((is_session t ≡ false)
            ⊎ ((t.created_at ≡ 0) ⊎ (env.now < t.created_at * millisecond + session_max_lifetime)))
  authenticate-holds env plain db u t h =
      let (row, found, admitted) = authenticate-found env plain (u, t) db h in
      let (owned, live, under) = admit-ok env row (u, t) db admitted in
      let (same, user) = owner-ok env row t u db owned in
      subst
        (λ t.
          (token_by_hash (crypto.hash_token plain) db.tokens ≡ some t)
          × (user_by_id t.user_id db.users ≡ some u)
          × ((t.expires_at ≡ 0) ⊎ (env.now / millisecond ≤ t.expires_at))
          × ((is_session t ≡ false)
              ⊎ ((t.created_at ≡ 0)
                  ⊎ (env.now < t.created_at * millisecond + session_max_lifetime))))
        same (found, user, live, (ceiling_iff env.now row).0 under)

  -- Where the statements that read the tables do not fail, `Authenticate` accepts a token with a user and
  -- a row exactly if the row is the one with the token's hash, the user is the row's, the row has no
  -- expiry or one that is not past, and, for a session with a time of creation, the clock is short of 90
  -- days behind that time, however often the session was renewed.
  pub authenticate_iff :
      (env : Env) (plain : Bytes) (db : Db) (u : User) (t : AuthToken)
      → env.down by_hash ≡ false
      → env.down by_id ≡ false
      → ((authenticate crypto env plain db).1 ≡ ok (u, t)) ↔ (
          (token_by_hash (crypto.hash_token plain) db.tokens ≡ some t)
          × (user_by_id t.user_id db.users ≡ some u)
          × ((t.expires_at ≡ 0) ⊎ (env.now / millisecond ≤ t.expires_at))
          × ((is_session t ≡ false)
              ⊎ ((t.created_at ≡ 0)
                  ⊎ (env.now < t.created_at * millisecond + session_max_lifetime))))
  unfolding authenticate
  authenticate_iff env plain db u t up up' = (
    authenticate-holds env plain db u t,
    λ (found, user, live, under).
        authenticate-admits env plain t db up found
        ∙ admit-live env t db live ((ceiling_iff env.now t).1 under)
        ∙ owner-found env t u db up' user,
  )

-- Every session of the user is the one that is kept.
abbrev Swept : ℕ → ℕ → Db → Type 0
Swept user kept db = All (λ t. t.user_id ≡ user → is_session t ≡ true → t.id ≡ kept) db.tokens

All-keep :
    {A : Type 0} (P : A → Type 0) (p : A → Bool) (xs : List A)
    → ((x : A) → p x ≡ true → P x)
    → All P (keep p xs)
All-keep P p [] h = tt
All-keep P p (x ∷ xs) h = elim (Bool-cases (p x)) [
  | inl e ↦
      subst (λ b. All P (if b then x ∷ keep p xs else keep p xs)) (sym e) (h x e, All-keep P p xs h)
  | inr e ↦ subst (λ b. All P (if b then x ∷ keep p xs else keep p xs)) (sym e) (All-keep P p xs h)
]

delete_sessions-Swept : (user kept : ℕ) (db : Db) → Swept user kept (delete_sessions user kept db)
unfolding delete_sessions
delete_sessions-Swept user kept db = All-keep _ _ db.tokens λ t stays same sess. grind arith

token-All :
    (P : AuthToken → Type 0) (hash : Bytes) (ts : List AuthToken) (t : AuthToken)
    → token_by_hash hash ts ≡ some t
    → All P ts
    → P t
unfolding token_by_hash
token-All P hash [] t e h = absurd (grind arith)
token-All P hash (x ∷ ts) t e (h, hs) = elim (Bool-cases (bytes_eq x.token_hash hash)) [
  | inl same ↦ subst P (grind arith) h
  | inr other ↦ token-All P hash ts t (grind arith) hs
]

module _ (crypto : Crypto) where
  change_password-Swept :
      (env : Env) (user : ℕ) (cur next : Bytes) (kept : ℕ) (db : Db)
      → Ends (Swept user kept) (change_password crypto env user cur next kept db)
  unfolding change_password replace_password revoke_other_sessions
  change_password-Swept env user cur next kept db =
      guard-Ends (Swept user kept) (env.down by_id) _ _ refl (
        option-Ends (Swept user kept) (user_by_id user db.users) _ _ refl λ u.
          guard-Ends (Swept user kept) (not (crypto.verify_password u.password_hash cur)) _ _ refl (
            guard-Ends (Swept user kept) (too_short crypto next) _ _ refl (
              option-Ends (Swept user kept) env.hashed _ _ refl λ hash.
                guard-Ends (Swept user kept) (env.down sets_password) _ _ refl (
                  guard-Ends (Swept user kept) (env.down deletes_sessions) _ _ refl
                    (λ e. delete_sessions-Swept user kept (set_password user hash db))))))

  -- Once `ChangePassword` has succeeded, the only session of the user that `Authenticate` accepts is the
  -- one that the caller kept.
  pub change_password_ends_sessions :
      (env later : Env) (user : ℕ) (cur next : Bytes) (kept : ℕ) (plain : Bytes) (db : Db)
      (u : User) (t : AuthToken)
      → is_ok (change_password crypto env user cur next kept db).1 ≡ true
      → (authenticate crypto later plain (change_password crypto env user cur next kept db).0).1
        ≡ ok (u, t)
      → t.user_id ≡ user
      → is_session t ≡ true
      → t.id ≡ kept
  change_password_ends_sessions env later user cur next kept plain db u t done accepted =
      token-All _ (crypto.hash_token plain) _ t
        (authenticate-holds crypto later plain _ u t accepted).0
        (change_password-Swept env user cur next kept db done)
