-- ===== src/Tests/AuthTests.antt =====
-- Accounts and tokens at concrete inputs: a hash that is the text itself, and codes that are the step.
use dnsaur.Prelude.{
  ℕ, ◌+◌, ◌*◌, ◌/◌, ◌≡◌, ◌↔◌, ◌⊎◌, refl, arith, false, some, List, [], ◌∷◌, length, ◌≤◌, ◌<◌,
}
use Prim.Native.String.{String}
use dnsaur.Prelude.Bytes.{Bytes, bytes_eq, codes}
use dnsaur.Auth.{
  user_named, claim_totp_step, affected, update_users, create_token, delete_token, set_password,
  delete_sessions, User, AuthToken, Db, session, token_by_hash, user_by_id, create_if_none,
}
use dnsaur.Auth.Service.{
  verify_totp_step, second_factor, open_session, logout, revoke_other_sessions, Env, Crypto, ok,
  login, authenticate, change_password, create_admin, is_session, millisecond, session_max_lifetime,
  too_short, admit, past_ceiling, session_ceiling,
}
use dnsaur.Auth.Service.Calls.{apply, Call, logs_out, changes_password, is_ok, run}
use dnsaur.Auth.Service.Replay.{login_once}
use dnsaur.Auth.Service.Setup.{setup_once}
use dnsaur.Auth.Service.Sessions.{authenticate_iff, change_password_ends_sessions}

abbrev plain_crypto : Crypto
plain_crypto = record {
  verify_password = bytes_eq;
  hash_token = λ t. t;
  validate = λ code secret s. bytes_eq code (s / 30 ∷ []);
}

abbrev at_second : ℕ → Bytes → Env
at_second s minted = record {
  now = s * 1000000000;
  down = λ statement. false;
  minted = some minted;
  hashed = some (codes "new password");
}

abbrev ann : User
ann = record {
  id = 1;
  username = codes "ann";
  password_hash = codes "password";
  totp_secret = codes "key";
  totp_last_step = 0;
  created_at = 0;
}

abbrev session_of : ℕ → String → AuthToken
session_of id token = record {
  id = id;
  user_id = 1;
  kind = session;
  name = [];
  token_hash = codes token;
  scope = codes "write";
  created_at = 1000000;
  expires_at = 2592000000;
  last_used = 0;
}

abbrev one_account : Db
one_account = record {
  users = ann ∷ [];
  tokens = session_of 1 "t1" ∷ session_of 2 "t2" ∷ [];
  next_user = 2;
  next_token = 3;
}

abbrev no_account : Db
no_account = record { users = []; tokens = []; next_user = 1; next_token = 1 }

abbrev some_calls : List (Env × Call)
some_calls =
    (at_second 3005 [], logs_out (codes "fresh"))
    ∷ (at_second 3006 [], changes_password 1 (codes "password") (codes "new password") 0)
    ∷ []

login_once_example :
    is_ok
      (login plain_crypto
        (at_second 3010 (codes "again"))
        (codes "ann")
        (codes "new password")
        (100 ∷ [])
        (run plain_crypto some_calls
          (login plain_crypto
            (at_second 3000 (codes "fresh"))
            (codes "ann")
            (codes "password")
            (100 ∷ [])
            one_account).0)).1
    ≡ false
unfolding user_named bytes_eq verify_totp_step login second_factor claim_totp_step affected
    update_users open_session create_token apply run logout token_by_hash delete_token
    change_password user_by_id too_short set_password delete_sessions revoke_other_sessions
login_once_example =
    login_once plain_crypto (at_second 3000 (codes "fresh")) (at_second 3010 (codes "again"))
      (codes "ann") (codes "password") (100 ∷ []) (codes "ann") (codes "new password") (100 ∷ [])
      one_account ann (record ann { totp_last_step = 100; password_hash = codes "new password" })
      100 100 some_calls (omega arith) refl refl refl refl (tt, (tt, tt)) refl refl refl refl
      (omega arith)

setup_once_example :
    (length
        (run plain_crypto some_calls
          (create_admin plain_crypto
            (at_second 5 [])
            (codes "ann")
            (codes "password")
            no_account).0).users
      ≡ 1)
    × (is_ok
          (create_admin plain_crypto (at_second 9 []) (codes "eve") (codes "password") (
            run plain_crypto some_calls
              (create_admin plain_crypto
                (at_second 5 [])
                (codes "ann")
                (codes "password")
                no_account).0)).1
        ≡ false)
unfolding create_admin too_short create_if_none
setup_once_example =
    setup_once plain_crypto (at_second 5 []) (at_second 9 []) (codes "ann") (codes "password")
      (codes "eve") (codes "password") no_account some_calls refl

authenticate_iff_example :
    ((authenticate plain_crypto (at_second 3000 []) (codes "t2") one_account).1
      ≡ ok (ann, session_of 2 "t2"))
    ↔ ((token_by_hash (codes "t2") one_account.tokens ≡ some (session_of 2 "t2"))
        × (user_by_id 1 one_account.users ≡ some ann)
        × (((session_of 2 "t2").expires_at ≡ 0) ⊎ (3000 * 1000000000 / millisecond ≤ 2592000000))
        × ((is_session (session_of 2 "t2") ≡ false)
            ⊎ (((session_of 2 "t2").created_at ≡ 0)
                ⊎ (3000 * 1000000000 < 1000000 * millisecond + session_max_lifetime))))
authenticate_iff_example =
    authenticate_iff plain_crypto (at_second 3000 []) (codes "t2") one_account ann
      (session_of 2 "t2") refl refl

change_password_ends_sessions_example : (session_of 2 "t2").id ≡ 2
unfolding change_password user_by_id bytes_eq too_short revoke_other_sessions authenticate
    token_by_hash delete_sessions set_password admit past_ceiling session_ceiling update_users
change_password_ends_sessions_example =
    change_password_ends_sessions plain_crypto (at_second 3000 []) (at_second 3001 []) 1
      (codes "password") (codes "new password") 2 (codes "t2") one_account
      (record ann { password_hash = codes "new password" }) (session_of 2 "t2") refl refl refl refl
