-- ===== src/Auth.antt =====
-- Accounts and their tokens: the tables behind internal/auth, as the statements of
-- internal/store/userstore.go and internal/store/tokenstore.go change them. Each statement is atomic.
-- Instants are milliseconds in the tables.
pub mod Service
use dnsaur.Prelude.{
  ℕ, ◌+◌, Bool, true, false, ◌&&◌, not, Option, none, some, List, [], ◌∷◌, ◌++◌, if◌then◌else◌,
  keep, any, is_empty, ltb, ◌==◌,
}
use dnsaur.Prelude.Bytes.{Bytes, bytes_eq, codes}

-- `store.User`.
pub record User : Type 0 where
  pub id : ℕ
  pub username : Bytes
  pub password_hash : Bytes
  pub totp_secret : Bytes
  pub totp_last_step : ℕ
  pub created_at : ℕ

-- `store.AuthToken`.
pub record AuthToken : Type 0 where
  pub id : ℕ
  pub user_id : ℕ
  pub kind : Bytes
  pub name : Bytes
  pub token_hash : Bytes
  pub scope : Bytes
  pub created_at : ℕ
  pub expires_at : ℕ
  pub last_used : ℕ

-- The two tables with the ids that their next rows get.
pub record Db : Type 0 where
  pub users : List User
  pub tokens : List AuthToken
  pub next_user : ℕ
  pub next_token : ℕ

abbrev pub session : Bytes
session = codes "session"

abbrev pub api : Bytes
api = codes "api"

-- `userStore.ByUsername`.
unfoldable pub user_named : Bytes → List User → Option User
user_named name [] = none
user_named name (u ∷ us) = if bytes_eq u.username name then some u else user_named name us

-- `userStore.ByID`.
unfoldable pub user_by_id : ℕ → List User → Option User
user_by_id id [] = none
user_by_id id (u ∷ us) = if u.id == id then some u else user_by_id id us

-- `UPDATE users SET … WHERE …`.
unfoldable pub update_users : (User → Bool) → (User → User) → List User → List User
update_users p f [] = []
update_users p f (u ∷ us) = (if p u then f u else u) ∷ update_users p f us

unfoldable pub affected : (User → Bool) → List User → ℕ
affected p [] = 0
affected p (u ∷ us) = (if p u then 1 else 0) + affected p us

-- `userStore.SetTOTP`.
unfoldable pub set_totp : ℕ → Bytes → Db → Db
set_totp id secret db = record db {
  users =
      update_users (λ u. u.id == id) (λ u. record u { totp_secret = secret; totp_last_step = 0 })
        db.users;
}

-- `userStore.SetPassword`.
unfoldable pub set_password : ℕ → Bytes → Db → Db
set_password id hash db = record db {
  users = update_users (λ u. u.id == id) (λ u. record u { password_hash = hash }) db.users;
}

unclaimed : ℕ → ℕ → User → Bool
unclaimed id step u = u.id == id && ltb u.totp_last_step step

-- `userStore.ClaimTOTPStep`: the tables, and whether one row was changed.
unfoldable pub claim_totp_step : ℕ → ℕ → Db → Db × Bool
unfolding unclaimed
claim_totp_step id step db = (
  record db {
    users = update_users (unclaimed id step) (λ u. record u { totp_last_step = step }) db.users;
  },
  affected (unclaimed id step) db.users == 1,
)

-- `userStore.CreateIfNone`: the tables, and whether the row was inserted.
unfoldable pub create_if_none : Bytes → Bytes → ℕ → Db → Db × Bool
create_if_none username hash created_at db =
    if is_empty db.users
    then (
      record db {
        users =
            (record {
              id = db.next_user;
              username = username;
              password_hash = hash;
              totp_secret = [];
              totp_last_step = 0;
              created_at = created_at;
            })
            ∷ [];
        next_user = db.next_user + 1;
      },
      true,
    )
    else (db, false)

-- `tokenStore.ByHash`.
unfoldable pub token_by_hash : Bytes → List AuthToken → Option AuthToken
token_by_hash hash [] = none
token_by_hash hash (t ∷ ts) = if bytes_eq t.token_hash hash then some t else token_by_hash hash ts

-- `tokenStore.Create`; `none` where the hash is taken, which the table's constraint refuses.
unfoldable pub create_token : AuthToken → Db → Option Db
create_token t db =
    if any (λ u. bytes_eq u.token_hash t.token_hash) db.tokens
    then none
    else some (record db {
      tokens = db.tokens ++ record t { id = db.next_token } ∷ [];
      next_token = db.next_token + 1;
    })

-- `tokenStore.Delete`.
unfoldable pub delete_token : ℕ → Db → Db
delete_token id db = record db { tokens = keep (λ t. not (t.id == id)) db.tokens }

-- `UPDATE auth_tokens SET … WHERE id = ?`.
unfoldable pub update_token : ℕ → (AuthToken → AuthToken) → List AuthToken → List AuthToken
update_token id f [] = []
update_token id f (t ∷ ts) = (if t.id == id then f t else t) ∷ update_token id f ts

-- `tokenStore.Touch`.
unfoldable pub touch : ℕ → ℕ → Db → Db
touch id ts db = record db { tokens = update_token id (λ t. record t { last_used = ts }) db.tokens }

-- `tokenStore.SetExpiry`; its error where there is no such row is not looked at.
unfoldable pub set_expiry : ℕ → ℕ → Db → Db
set_expiry id ts db = record db {
  tokens = update_token id (λ t. record t { expires_at = ts }) db.tokens;
}

-- `tokenStore.DeleteSessions`.
unfoldable pub delete_sessions : ℕ → ℕ → Db → Db
delete_sessions user_id except_id db = record db {
  tokens =
      keep (λ t. not (t.user_id == user_id && bytes_eq t.kind session && not (t.id == except_id)))
        db.tokens;
}

-- `tokenStore.ListAPI`.
unfoldable pub list_api : ℕ → Db → List AuthToken
list_api user_id db = keep (λ t. t.user_id == user_id && bytes_eq t.kind api) db.tokens
