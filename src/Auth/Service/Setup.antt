-- ===== src/Auth/Service/Setup.antt =====
-- The first account: `CreateAdmin` of internal/auth/service.go.
use dnsaur.Prelude.{
  ℕ, ◌/◌, ◌≡◌, refl, ◌∙◌, Bool, true, false, ◌||◌, not, List, [], ◌∷◌, arith, Bool-cases, inl, inr,
  All, is_empty, length,
}
use mathlib.Core.Bool.{false≢true}
use dnsaur.Prelude.Bytes.{Bytes}
use dnsaur.Auth.{User, Db, update_users, create_if_none, claim_totp_step, set_totp, set_password}
use dnsaur.Auth.Service.{
  Env, Crypto, create_admin, store_admin, made, millisecond, too_short, count, creates_user,
}
use dnsaur.Auth.Service.Calls.{
  logs_in, authenticates, logs_out, revokes_others, changes_password, creates_admin,
  creates_api_token, revokes_token, enables_totp, disables_totp, Call, Spares, run, is_ok, Ends,
  guard-Ends, if-err, option-Ends,
}
use dnsaur.Auth.Service.Keeps.{Keeps, run-keeps}

length-update_users :
    (p : User → Bool) (f : User → User) (us : List User) → length (update_users p f us) ≡ length us
unfolding update_users
length-update_users p f [] = refl
length-update_users p f (u ∷ us) = omega (arith, length-update_users p f us)

abbrev OneUser : Db → Type 0
OneUser db = length db.users ≡ 1

create_if_none-OneUser :
    (name hash : Bytes) (at : ℕ) (db : Db) → OneUser db → OneUser (create_if_none name hash at db).0
unfolding create_if_none
create_if_none-OneUser name hash at db h = elim (Bool-cases (is_empty db.users)) [
  | inl e ↦ rw e refl
  | inr e ↦ rw e h
]

OneUser-Keeps : Keeps (λ user. Unit {0}) OneUser
unfolding claim_totp_step set_totp set_password
OneUser-Keeps = record {
  tokens = λ db ts n h. h;
  claims = λ user step db h. length-update_users _ _ db.users ∙ h;
  passwords = λ user hash db h. length-update_users _ _ db.users ∙ h;
  secrets = λ user secret db _ h. length-update_users _ _ db.users ∙ h;
  creates = create_if_none-OneUser;
}

Spares-any : (c : Call) → Spares (λ user. Unit {0}) c
Spares-any (logs_in _ _ _) = tt
Spares-any (authenticates _) = tt
Spares-any (logs_out _) = tt
Spares-any (revokes_others _ _) = tt
Spares-any (changes_password _ _ _ _) = tt
Spares-any (creates_admin _ _) = tt
Spares-any (creates_api_token _ _ _ _) = tt
Spares-any (revokes_token _ _) = tt
Spares-any (enables_totp _ _ _ _) = tt
Spares-any (disables_totp _ _ _) = tt

Spares-all : (calls : List (Env × Call)) → All (λ c. Spares (λ user. Unit {0}) c.1) calls
Spares-all [] = tt
Spares-all ((env, call) ∷ calls) = (Spares-any call, Spares-all calls)

inserted :
    (name hash : Bytes) (at : ℕ) (db : Db)
    → (create_if_none name hash at db).1 ≡ true
    → OneUser (create_if_none name hash at db).0
unfolding create_if_none
inserted name hash at db = elim (Bool-cases (is_empty db.users)) [
  | inl e ↦ rw e (λ h. refl)
  | inr e ↦ rw e (λ h. absurd (false≢true h))
]

not_empty : {A : Type 0} (xs : List A) → length xs ≡ 1 → is_empty xs ≡ false
not_empty [] h = absurd (omega (arith, h))
not_empty (x ∷ xs) h = refl

module _ (crypto : Crypto) where
  made-OneUser : (r : Db × Bool) → (r.1 ≡ true → OneUser r.0) → Ends OneUser (made crypto r)
  unfolding made
  made-OneUser (db, false) h = λ e. absurd (false≢true e)
  made-OneUser (db, true) h = λ e. h refl

  create_admin-OneUser :
      (env : Env) (name pw : Bytes) (db : Db) → Ends OneUser (create_admin crypto env name pw db)
  unfolding create_admin store_admin
  create_admin-OneUser env name pw db =
      guard-Ends OneUser (is_empty name || too_short crypto pw) _ _ refl (
        guard-Ends OneUser (env.down count) _ _ refl (
          guard-Ends OneUser (not (is_empty db.users)) _ _ refl (
            option-Ends OneUser env.hashed _ _ refl λ hash.
              guard-Ends OneUser (env.down creates_user) _ _ refl (
                made-OneUser (create_if_none name hash (env.now / millisecond) db)
                  (inserted name hash (env.now / millisecond) db)))))

  create_admin-refused :
      (env : Env) (name pw : Bytes) (db : Db)
      → OneUser db
      → is_ok (create_admin crypto env name pw db).1 ≡ false
  unfolding create_admin
  create_admin-refused env name pw db h =
      if-err (is_empty name || too_short crypto pw) _ _ refl
        (if-err (env.down count) _ _ refl (rw (not_empty db.users h) refl))

  -- Once `CreateAdmin` has succeeded, there is exactly one account and `CreateAdmin` does not succeed again,
  -- whichever calls of the service come in between, failing statements included.
  pub setup_once :
      (env later : Env) (name pw name' pw' : Bytes) (db : Db) (calls : List (Env × Call))
      → is_ok (create_admin crypto env name pw db).1 ≡ true
      → (length (run crypto calls (create_admin crypto env name pw db).0).users ≡ 1)
        × (is_ok
              (create_admin crypto later name' pw'
                (run crypto calls (create_admin crypto env name pw db).0)).1
            ≡ false)
  setup_once env later name pw name' pw' db calls done =
      let one =
        run-keeps crypto OneUser-Keeps calls _ (Spares-all calls)
          (create_admin-OneUser env name pw db done) in
      (one, create_admin-refused later name' pw' _ one)
