-- ===== src/Auth/Service.antt =====
-- `Service` of internal/auth/service.go and internal/auth/totp.go. The hashing of passwords and tokens
-- and the validation of a TOTP code are parameters; so is, for each call, which statements of the
-- database fail: a failed one changes nothing. Instants are nanoseconds.
pub mod Calls
pub mod Keeps
pub mod Replay
pub mod Sessions
pub mod Setup
use dnsaur.Prelude.{
  ℕ, ◌+◌, ◌-◌, ◌*◌, ◌/◌, Bool, true, false, ◌&&◌, ◌||◌, not, Option, none, some, List, [], ◌∷◌,
  length, if◌then◌else◌, is_empty, any, ltb, ◌==◌,
}
use dnsaur.Prelude.Bytes.{Bytes, bytes_eq, codes}
use dnsaur.Auth.{
  User, AuthToken, Db, session, api, user_named, user_by_id, set_totp, set_password,
  claim_totp_step, create_if_none, token_by_hash, create_token, delete_token, touch, set_expiry,
  delete_sessions, list_api,
}

-- The statements of the database.
pub data Statement : Type 0 where
  count by_username by_id claims creates_user sets_totp sets_password : Statement
  by_hash creates_token deletes touches sets_expiry deletes_sessions lists_api : Statement

-- One call's surroundings: the clock, the statements that fail, the token that is minted (`none` where
-- the source of random bytes fails), and the hash of a new password.
pub record Env : Type 0 where
  pub now : ℕ
  pub down : Statement → Bool
  pub minted : Option Bytes
  pub hashed : Option Bytes

pub data Error : Type 0 where
  bad_credentials totp_required setup_done invalid_input invalid_code bad_scope not_found : Error
  store_down no_random : Error

pub data Result {ℓ} (A : Type ℓ) : Type ℓ where
  ok : A → Result A
  err : Error → Result A

-- `VerifyPassword(hash, pw)` with its error as false; `HashToken`; `totp.ValidateCustom` of a code and a
-- secret at a second, with its error as false.
pub record Crypto : Type 0 where
  pub verify_password : Bytes → Bytes → Bool
  pub hash_token : Bytes → Bytes
  pub validate : Bytes → Bytes → ℕ → Bool

abbrev pub millisecond : ℕ
millisecond = 1000000

abbrev pub day : ℕ
day = 86400000000000

-- `SessionTTL`.
abbrev pub session_ttl : ℕ
session_ttl = 30 * day

-- `SessionMaxLifetime`.
abbrev pub session_max_lifetime : ℕ
session_max_lifetime = 90 * day

abbrev pub min_password_len : ℕ
min_password_len = 8

-- `totpPeriod`, in seconds.
abbrev pub totp_period : ℕ
totp_period = 30

abbrev pub is_session : AuthToken → Bool
is_session t = bytes_eq t.kind session

-- `sessionCeiling`, in nanoseconds.
unfoldable pub session_ceiling : AuthToken → Option ℕ
session_ceiling t =
    if not (is_session t) || t.created_at == 0
    then none
    else some (t.created_at * millisecond + session_max_lifetime)

-- `ceiling, capped := …; capped && !now.Before(ceiling)`.
unfoldable pub past_ceiling : ℕ → Option ℕ → Bool
past_ceiling now none = false
past_ceiling now (some ceiling) = not (ltb now ceiling)

capped_at : Option ℕ → ℕ → ℕ
capped_at none exp = exp
capped_at (some ceiling) exp = if ltb ceiling exp then ceiling else exp

-- The sliding renewal of `Authenticate`.
unfoldable pub renewed : Env → AuthToken → Db → Db
unfolding capped_at
renewed env t db =
    if is_session t
      && ltb 0 t.expires_at
      && ltb (t.expires_at * millisecond) (env.now + session_ttl / 2)
      && not (env.down sets_expiry)
    then set_expiry t.id (capped_at (session_ceiling t) (env.now + session_ttl) / millisecond) db
    else db

unless_down : Bool → Db → Db → Db
unless_down true after before = before
unless_down false after before = after

abbrev pub second_of : ℕ → ℕ
second_of now = now / 1000000000

module _ (crypto : Crypto) where
  -- `verifyTOTPStep`, at the second `s` of the clock.
  unfoldable pub verify_totp_step : Bytes → Bytes → ℕ → Option ℕ
  verify_totp_step secret code s =
      if crypto.validate code secret (s + totp_period)
      then some ((s + totp_period) / totp_period)
      else if crypto.validate code secret s
      then some (s / totp_period)
      else if crypto.validate code secret (s - totp_period)
      then some ((s - totp_period) / totp_period)
      else none

  -- The end of `Login`.
  unfoldable pub open_session : Env → User → Db → Db × Result Bytes
  open_session env u db = elim env.minted [
    | none ↦ (db, err no_random)
    | some plain ↦
        if env.down creates_token
        then (db, err store_down)
        else elim (create_token
            (record {
              id = 0;
              user_id = u.id;
              kind = session;
              name = [];
              token_hash = crypto.hash_token plain;
              scope = codes "write";
              created_at = env.now / millisecond;
              expires_at = (env.now + session_ttl) / millisecond;
              last_used = 0;
            })
            db) [ none ↦ (db, err store_down) | some db' ↦ (db', ok plain) ]
  ]

  claimed : Env → User → Db × Bool → Db × Result Bytes
  claimed env u (db, false) = (db, err bad_credentials)
  claimed env u (db, true) = open_session env u db

  -- `Login` behind the password.
  unfoldable pub second_factor : Env → User → Bytes → Db → Db × Result Bytes
  unfolding claimed
  second_factor env u code db =
      if is_empty u.totp_secret
      then open_session env u db
      else if is_empty code
      then (db, err totp_required)
      else elim (verify_totp_step u.totp_secret code (second_of env.now)) [
        | none ↦ (db, err bad_credentials)
        | some step ↦
            if env.down claims
            then (db, err store_down)
            else claimed env u (claim_totp_step u.id step db)
      ]

  -- `Login`.
  unfoldable pub login : Env → Bytes → Bytes → Bytes → Db → Db × Result Bytes
  login env username password code db =
      if env.down by_username then (db, err store_down) else elim (user_named username db.users) [
        | none ↦ (db, err bad_credentials)
        | some u ↦
            if not (crypto.verify_password u.password_hash password)
            then (db, err bad_credentials)
            else second_factor env u code db
      ]

  refuse : Env → AuthToken → Db → Db × Result (User × AuthToken)
  unfolding unless_down
  refuse env t db = (unless_down (env.down deletes) (delete_token t.id db) db, err bad_credentials)

  owner : Env → AuthToken → Db → Result (User × AuthToken)
  owner env t db =
      if env.down by_id
      then err bad_credentials
      else elim (user_by_id t.user_id db.users) [ none ↦ err bad_credentials | some u ↦ ok (u, t) ]

  -- `Authenticate` with the token's row.
  unfoldable pub admit : Env → AuthToken → Db → Db × Result (User × AuthToken)
  unfolding refuse owner unless_down
  admit env t db =
      if ltb 0 t.expires_at && ltb t.expires_at (env.now / millisecond)
      then refuse env t db
      else if past_ceiling env.now (session_ceiling t)
      then refuse env t db
      else (
        renewed env t (unless_down (env.down touches) (touch t.id (env.now / millisecond) db) db),
        owner env t db,
      )

  -- `Authenticate`.
  unfoldable pub authenticate : Env → Bytes → Db → Db × Result (User × AuthToken)
  authenticate env plain db =
      if env.down by_hash
      then (db, err store_down)
      else elim (token_by_hash (crypto.hash_token plain) db.tokens) [
        | none ↦ (db, err bad_credentials)
        | some t ↦ admit env t db
      ]

  -- `Logout`; no token is no error.
  unfoldable pub logout : Env → Bytes → Db → Db × Result (Unit {0})
  logout env plain db =
      if env.down by_hash
      then (db, err store_down)
      else elim (token_by_hash (crypto.hash_token plain) db.tokens) [
        | none ↦ (db, ok tt)
        | some t ↦ if env.down deletes then (db, err store_down) else (delete_token t.id db, ok tt)
      ]

  -- `RevokeOtherSessions`, and the end of `ChangePassword` and of the TOTP methods.
  unfoldable pub revoke_other_sessions : Env → ℕ → ℕ → Db → Db × Result (Unit {0})
  revoke_other_sessions env user_id keep_id db =
      if env.down deletes_sessions
      then (db, err store_down)
      else (delete_sessions user_id keep_id db, ok tt)

  -- `validatePassword`.
  unfoldable pub too_short : Bytes → Bool
  too_short pw = ltb (length pw) min_password_len

  replace_password : Env → ℕ → ℕ → Db → Db × Result (Unit {0})
  replace_password env user_id keep_id db = elim env.hashed [
    | none ↦ (db, err no_random)
    | some hash ↦
        if env.down sets_password
        then (db, err store_down)
        else revoke_other_sessions env user_id keep_id (set_password user_id hash db)
  ]

  -- `ChangePassword`.
  unfoldable pub change_password : Env → ℕ → Bytes → Bytes → ℕ → Db → Db × Result (Unit {0})
  unfolding replace_password
  change_password env user_id current next keep_id db =
      if env.down by_id then (db, err store_down) else elim (user_by_id user_id db.users) [
        | none ↦ (db, err bad_credentials)
        | some u ↦
            if not (crypto.verify_password u.password_hash current)
            then (db, err bad_credentials)
            else if too_short next
            then (db, err invalid_input)
            else replace_password env user_id keep_id db
      ]

  made : Db × Bool → Db × Result (Unit {0})
  made (db, false) = (db, err setup_done)
  made (db, true) = (db, ok tt)

  store_admin : Env → Bytes → Db → Db × Result (Unit {0})
  unfolding made
  store_admin env username db = elim env.hashed [
    | none ↦ (db, err no_random)
    | some hash ↦
        if env.down creates_user
        then (db, err store_down)
        else made (create_if_none username hash (env.now / millisecond) db)
  ]

  -- `CreateAdmin`.
  unfoldable pub create_admin : Env → Bytes → Bytes → Db → Db × Result (Unit {0})
  unfolding store_admin
  create_admin env username password db =
      if is_empty username || too_short password
      then (db, err invalid_input)
      else if env.down count
      then (db, err store_down)
      else if not (is_empty db.users)
      then (db, err setup_done)
      else store_admin env username db

  -- `CreateAPIToken`: the id of the row and the token.
  unfoldable pub create_api_token : Env → ℕ → Bytes → Bytes → ℕ → Db → Db × Result (ℕ × Bytes)
  create_api_token env user_id name scope expires_at db =
      if not (bytes_eq scope (codes "read")) && not (bytes_eq scope (codes "write"))
      then (db, err bad_scope)
      else elim env.minted [
        | none ↦ (db, err no_random)
        | some plain ↦
            if env.down creates_token
            then (db, err store_down)
            else elim (create_token
                (record {
                  id = 0;
                  user_id = user_id;
                  kind = api;
                  name = name;
                  token_hash = crypto.hash_token plain;
                  scope = scope;
                  created_at = env.now / millisecond;
                  expires_at = expires_at;
                  last_used = 0;
                })
                db) [ none ↦ (db, err store_down) | some db' ↦ (db', ok (db.next_token, plain)) ]
      ]

  -- `RevokeToken`.
  unfoldable pub revoke_token : Env → ℕ → ℕ → Db → Db × Result (Unit {0})
  revoke_token env user_id token_id db =
      if env.down lists_api
      then (db, err store_down)
      else if not (any (λ t. t.id == token_id) (list_api user_id db))
      then (db, err not_found)
      else if env.down deletes
      then (db, err store_down)
      else (delete_token token_id db, ok tt)

  -- `EnableTOTPConfirm`.
  unfoldable pub enable_totp_confirm : Env → ℕ → Bytes → Bytes → ℕ → Db → Db × Result (Unit {0})
  enable_totp_confirm env user_id secret code keep_id db =
      elim (verify_totp_step secret code (second_of env.now)) [
        | none ↦ (db, err invalid_code)
        | some _ ↦
            if env.down sets_totp
            then (db, err store_down)
            else revoke_other_sessions env user_id keep_id (set_totp user_id secret db)
      ]

  -- `DisableTOTP`.
  unfoldable pub disable_totp : Env → ℕ → Bytes → ℕ → Db → Db × Result (Unit {0})
  disable_totp env user_id code keep_id db =
      if env.down by_id then (db, err bad_credentials) else elim (user_by_id user_id db.users) [
        | none ↦ (db, err bad_credentials)
        | some u ↦
            if is_empty u.totp_secret
            then (db, err invalid_code)
            else elim (verify_totp_step u.totp_secret code (second_of env.now)) [
              | none ↦ (db, err invalid_code)
              | some _ ↦
                  if env.down sets_totp
                  then (db, err store_down)
                  else revoke_other_sessions env user_id keep_id (set_totp user_id [] db)
            ]
      ]
