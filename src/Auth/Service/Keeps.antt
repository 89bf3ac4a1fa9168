-- ===== src/Auth/Service/Keeps.antt =====
-- What the calls of `Service` in internal/auth keep of the users' table.
use dnsaur.Prelude.{
  ℕ, Bool, true, false, Option, none, some, List, [], ◌∷◌, Bool-cases, inl, inr, All, any, is_empty,
  if◌then◌else◌, not, ◌/◌, ltb, ◌&&◌,
}
use dnsaur.Prelude.Bytes.{Bytes, bytes_eq}
use dnsaur.Auth.{
  User, Db, set_totp, set_password, claim_totp_step, create_if_none, create_token, user_named,
  user_by_id, token_by_hash, delete_token, touch, set_expiry, delete_sessions, AuthToken,
}
use dnsaur.Auth.Service.{
  claims, by_username, deletes, creates_token, by_hash, touches, millisecond, by_id, sets_password,
  deletes_sessions, count, creates_user, lists_api, sets_totp, too_short, Env, Crypto, Result,
  past_ceiling, session_ceiling, login, authenticate, logout, revoke_other_sessions,
  change_password, create_admin, create_api_token, revoke_token, enable_totp_confirm, disable_totp,
  second_factor, open_session, claimed, admit, renewed, owner, refuse, unless_down,
  replace_password, store_admin, made, second_of, verify_totp_step,
}
use dnsaur.Auth.Service.Calls.{
  Call, logs_in, authenticates, logs_out, revokes_others, changes_password, creates_admin,
  creates_api_token, revokes_token, enables_totp, disables_totp, apply, run, Spares,
}

-- A property of the users' table that the statements on it keep.
pub record Keeps (S : ℕ → Type 0) (P : Db → Type 0) : Type 1 where
  pub tokens :
      (db : Db) (ts : List AuthToken) (n : ℕ) → P db → P (record db { tokens = ts; next_token = n })
  pub claims : (user step : ℕ) (db : Db) → P db → P (claim_totp_step user step db).0
  pub passwords : (user : ℕ) (hash : Bytes) (db : Db) → P db → P (set_password user hash db)
  pub secrets : (user : ℕ) (secret : Bytes) (db : Db) → S user → P db → P (set_totp user secret db)
  pub creates : (name hash : Bytes) (at : ℕ) (db : Db) → P db → P (create_if_none name hash at db).0

module _ (crypto : Crypto) {S : ℕ → Type 0} {P : Db → Type 0} (k : Keeps S P) where
  if-keeps :
      {A : Type 0} (b : Bool) (x y : Db × Result A) → P x.0 → P y.0 → P (if b then x else y).0
  if-keeps true x y hx hy = hx
  if-keeps false x y hx hy = hy

  option-keeps :
      {X A : Type 0} (o : Option X) (n : Db × Result A) (f : X → Db × Result A)
      → P n.0
      → ((x : X) → P (f x).0)
      → P (elim o as (λ x. Db × Result A) [ none ↦ n | some x ↦ f x ]).0
  option-keeps none n f hn hf = hn
  option-keeps (some x) n f hn hf = hf x

  create_token-keeps :
      (t : AuthToken) (db : Db) {A : Type 0} (r : Result A) (good : Result A)
      → P db
      → P
          (elim (create_token t db) as (λ x. Db × Result A) [
            | none ↦ (db, r)
            | some db' ↦ (db', good)
          ]).0
  unfolding create_token
  create_token-keeps t db r good h =
      elim (Bool-cases (any (λ u. bytes_eq u.token_hash t.token_hash) db.tokens)) [
        | inl taken ↦ rw taken h
        | inr free ↦ rw free (k.tokens db _ _ h)
      ]

  pub open_session-keeps :
      (env : Env) (u : User) (db : Db) → P db → P (open_session crypto env u db).0
  unfolding open_session
  open_session-keeps env u db h =
      option-keeps env.minted _ _ h
        λ plain. if-keeps (env.down creates_token) _ _ h (create_token-keeps _ db _ _ h)

  claimed-keeps : (env : Env) (u : User) (r : Db × Bool) → P r.0 → P (claimed crypto env u r).0
  unfolding claimed
  claimed-keeps env u (db, false) h = h
  claimed-keeps env u (db, true) h = open_session-keeps env u db h

  second_factor-keeps :
      (env : Env) (u : User) (code : Bytes) (db : Db)
      → P db
      → P (second_factor crypto env u code db).0
  unfolding second_factor
  second_factor-keeps env u code db h =
      if-keeps (is_empty u.totp_secret) _ _ (open_session-keeps env u db h) (
        if-keeps (is_empty code) _ _ h (
          option-keeps (verify_totp_step crypto u.totp_secret code (second_of env.now)) _ _ h
            λ step.
              if-keeps (env.down claims) _ _ h
                (claimed-keeps env u (claim_totp_step u.id step db) (k.claims u.id step db h))))

  login-keeps :
      (env : Env) (name pw code : Bytes) (db : Db) → P db → P (login crypto env name pw code db).0
  unfolding login
  login-keeps env name pw code db h = if-keeps (env.down by_username) _ _ h (
      option-keeps (user_named name db.users) _ _ h λ u.
        if-keeps (not (crypto.verify_password u.password_hash pw)) _ _ h
          (second_factor-keeps env u code db h))

  delete-keeps : (token : ℕ) (db : Db) → P db → P (delete_token token db)
  unfolding delete_token
  delete-keeps token db h = k.tokens db _ _ h

  refuse-keeps : (env : Env) (t : AuthToken) (db : Db) → P db → P (refuse crypto env t db).0
  unfolding refuse unless_down
  refuse-keeps env t db h = elim (Bool-cases (env.down deletes)) [
    | inl down ↦ rw down h
    | inr up ↦ rw up (delete-keeps t.id db h)
  ]

  touch-keeps :
      (b : Bool) (token ts : ℕ) (db : Db) → P db → P (unless_down b (touch token ts db) db)
  unfolding unless_down touch
  touch-keeps true token ts db h = h
  touch-keeps false token ts db h = k.tokens db _ _ h

  renewed-keeps : (env : Env) (t : AuthToken) (db : Db) → P db → P (renewed env t db)
  unfolding renewed set_expiry
  renewed-keeps env t db h = one _ (k.tokens db _ _ h)
    where
      one : (b : Bool) {x : Db} → P x → P (if b then x else db)
      one true hx = hx
      one false hx = h

  admit-keeps : (env : Env) (t : AuthToken) (db : Db) → P db → P (admit crypto env t db).0
  unfolding admit
  admit-keeps env t db h =
      if-keeps (ltb 0 t.expires_at && ltb t.expires_at (env.now / millisecond))
        (refuse crypto env t db) _ (refuse-keeps env t db h)
        (if-keeps (past_ceiling env.now (session_ceiling t)) (refuse crypto env t db)
          (
            renewed env t
                (unless_down (env.down touches) (touch t.id (env.now / millisecond) db) db),
            owner crypto env t db,
          )
          (refuse-keeps env t db h)
          (renewed-keeps env t _
            (touch-keeps (env.down touches) t.id (env.now / millisecond) db h)))

  authenticate-keeps :
      (env : Env) (plain : Bytes) (db : Db) → P db → P (authenticate crypto env plain db).0
  unfolding authenticate
  authenticate-keeps env plain db h = if-keeps (env.down by_hash) _ _ h (
      option-keeps (token_by_hash (crypto.hash_token plain) db.tokens) _ _ h
        λ t. admit-keeps env t db h)

  logout-keeps : (env : Env) (plain : Bytes) (db : Db) → P db → P (logout crypto env plain db).0
  unfolding logout
  logout-keeps env plain db h = if-keeps (env.down by_hash) _ _ h (
      option-keeps (token_by_hash (crypto.hash_token plain) db.tokens) _ _ h
        λ t. if-keeps (env.down deletes) _ _ h (delete-keeps t.id db h))

  revoke_other_sessions-keeps :
      (env : Env) (user keep : ℕ) (db : Db)
      → P db
      → P (revoke_other_sessions crypto env user keep db).0
  unfolding revoke_other_sessions delete_sessions
  revoke_other_sessions-keeps env user keep db h =
      if-keeps (env.down deletes_sessions) _ _ h (k.tokens db _ _ h)

  change_password-keeps :
      (env : Env) (user : ℕ) (cur next : Bytes) (keep : ℕ) (db : Db)
      → P db
      → P (change_password crypto env user cur next keep db).0
  unfolding change_password replace_password
  change_password-keeps env user cur next keep db h = if-keeps (env.down by_id) _ _ h (
      option-keeps (user_by_id user db.users) _ _ h λ u.
        if-keeps (not (crypto.verify_password u.password_hash cur)) _ _ h (
          if-keeps (too_short crypto next) _ _ h (
            option-keeps env.hashed _ _ h λ hash.
              if-keeps (env.down sets_password) _ _ h
                (revoke_other_sessions-keeps env user keep _ (k.passwords user hash db h)))))

  create_admin-keeps :
      (env : Env) (name pw : Bytes) (db : Db) → P db → P (create_admin crypto env name pw db).0
  unfolding create_admin store_admin
  create_admin-keeps env name pw db h = if-keeps _ _ _ h (
      if-keeps (env.down count) _ _ h (
        if-keeps _ _ _ h (
          option-keeps env.hashed _ _ h λ hash. if-keeps (env.down creates_user) _ _ h (
            done (create_if_none name hash (env.now / millisecond) db)
              (k.creates name hash (env.now / millisecond) db h)))))
    where
      done : (r : Db × Bool) → P r.0 → P (made crypto r).0
      done (db', false) h' = h'
      done (db', true) h' = h'

  create_api_token-keeps :
      (env : Env) (user : ℕ) (name scope : Bytes) (exp : ℕ) (db : Db)
      → P db
      → P (create_api_token crypto env user name scope exp db).0
  unfolding create_api_token
  create_api_token-keeps env user name scope exp db h = if-keeps _ _ _ h (
      option-keeps env.minted _ _ h
        λ plain. if-keeps (env.down creates_token) _ _ h (create_token-keeps _ db _ _ h))

  revoke_token-keeps :
      (env : Env) (user token : ℕ) (db : Db) → P db → P (revoke_token crypto env user token db).0
  unfolding revoke_token
  revoke_token-keeps env user token db h =
      if-keeps (env.down lists_api) _ _ h
        (if-keeps _ _ _ h (if-keeps (env.down deletes) _ _ h (delete-keeps token db h)))

  enable-keeps :
      (env : Env) (user : ℕ) (secret code : Bytes) (keep : ℕ) (db : Db)
      → S user
      → P db
      → P (enable_totp_confirm crypto env user secret code keep db).0
  unfolding enable_totp_confirm
  enable-keeps env user secret code keep db other h =
      option-keeps (verify_totp_step crypto secret code (second_of env.now)) _ _ h λ _.
        if-keeps (env.down sets_totp) _ _ h
          (revoke_other_sessions-keeps env user keep _ (k.secrets user secret db other h))

  disable-keeps :
      (env : Env) (user : ℕ) (code : Bytes) (keep : ℕ) (db : Db)
      → S user
      → P db
      → P (disable_totp crypto env user code keep db).0
  unfolding disable_totp
  disable-keeps env user code keep db other h = if-keeps (env.down by_id) _ _ h (
      option-keeps (user_by_id user db.users) _ _ h λ u. if-keeps (is_empty u.totp_secret) _ _ h (
        option-keeps (verify_totp_step crypto u.totp_secret code (second_of env.now)) _ _ h λ _.
          if-keeps (env.down sets_totp) _ _ h
            (revoke_other_sessions-keeps env user keep _ (k.secrets user [] db other h))))

  pub apply-keeps :
      (env : Env) (call : Call) (db : Db) → Spares S call → P db → P (apply crypto env call db)
  unfolding apply
  apply-keeps env (logs_in name pw code) db s h = login-keeps env name pw code db h
  apply-keeps env (authenticates plain) db s h = authenticate-keeps env plain db h
  apply-keeps env (logs_out plain) db s h = logout-keeps env plain db h
  apply-keeps env (revokes_others user keep) db s h = revoke_other_sessions-keeps env user keep db h
  apply-keeps env (changes_password user cur next keep) db s h =
      change_password-keeps env user cur next keep db h
  apply-keeps env (creates_admin name pw) db s h = create_admin-keeps env name pw db h
  apply-keeps env (creates_api_token user name scope exp) db s h =
      create_api_token-keeps env user name scope exp db h
  apply-keeps env (revokes_token user token) db s h = revoke_token-keeps env user token db h
  apply-keeps env (enables_totp user secret code keep) db s h =
      enable-keeps env user secret code keep db s h
  apply-keeps env (disables_totp user code keep) db s h = disable-keeps env user code keep db s h

  -- So does every sequence of calls that leaves this user's TOTP secret alone.
  pub run-keeps :
      (calls : List (Env × Call)) (db : Db)
      → All (λ c. Spares S c.1) calls
      → P db
      → P (run crypto calls db)
  unfolding run
  run-keeps [] db s h = h
  run-keeps ((env, call) ∷ calls) db s h =
      run-keeps calls (apply crypto env call db) s.1 (apply-keeps env call db s.0 h)
