-- ===== src/Auth/Service/Replay.antt =====
-- Codes of the second factor that are used twice: `Login` of internal/auth with
-- `userStore.ClaimTOTPStep`.
use dnsaur.Prelude.{
  ℕ, ◌≤◌, ◌<◌, ◌≡◌, ◌≢◌, refl, sym, subst, ◌∙◌, Bool, true, false, not, some, List, [], ◌∷◌, arith,
  Bool-cases, inl, inr, All, is_empty, if◌then◌else◌, ==_iff,
}
use mathlib.Core.Bool.{true≢false}
use dnsaur.Prelude.Bytes.{Bytes}
use dnsaur.Auth.{
  User, Db, claim_totp_step, create_if_none, set_totp, set_password, update_users, affected,
  unclaimed, user_named,
}
use dnsaur.Auth.Service.{
  Env, Crypto, login, second_factor, verify_totp_step, second_of, claimed, by_username, claims,
}
use dnsaur.Auth.Service.Calls.{is_ok, Ends, guard-Ends, if-err, Call, Spares, run}
use dnsaur.Auth.Service.Keeps.{open_session-keeps, Keeps, run-keeps}

-- Each row of the user `id` has the step `step`, or a later one, as its last.
abbrev Used : ℕ → ℕ → User → Type 0
Used id step u = u.id ≡ id → step ≤ u.totp_last_step

-- The step is used up in the users' table, and no row to come gets this id.
abbrev pub Claimed : ℕ → ℕ → Db → Type 0
Claimed id step db = All (Used id step) db.users × (id < db.next_user)

All-update_users :
    {P Q : User → Type 0} (p : User → Bool) (f : User → User) (us : List User)
    → ((u : User) → p u ≡ true → P u → Q (f u))
    → ((u : User) → p u ≡ false → P u → Q u)
    → All P us
    → All Q (update_users p f us)
unfolding update_users
All-update_users p f [] hit miss h = tt
All-update_users {Q = Q} p f (u ∷ us) hit miss (h, hs) = (
  elim (Bool-cases (p u)) [
    | inl e ↦ subst (λ b. Q (if b then f u else u)) (sym e) (hit u e h)
    | inr e ↦ subst (λ b. Q (if b then f u else u)) (sym e) (miss u e h)
  ],
  All-update_users p f us hit miss hs,
)

unclaimed-lt : (id step : ℕ) (u : User) → unclaimed id step u ≡ true → u.totp_last_step < step
unfolding unclaimed
unclaimed-lt id step u e = ground arith

unclaimed-same : (id step : ℕ) (u : User) → unclaimed id step u ≡ true → u.id ≡ id
unfolding unclaimed
unclaimed-same id step u e = ground arith

not_unclaimed :
    (id step : ℕ) (u : User) → u.id ≡ id → unclaimed id step u ≡ false → step ≤ u.totp_last_step
unfolding unclaimed
not_unclaimed id step u same e = ground arith

everywhere : (us : List User) → All (λ u. Unit {0}) us
everywhere [] = tt
everywhere (u ∷ us) = (tt, everywhere us)

-- Whatever `ClaimTOTPStep` reports, the step is used up behind it.
claim-Claimed :
    (id step : ℕ) (db : Db) → id < db.next_user → Claimed id step (claim_totp_step id step db).0
unfolding claim_totp_step unclaimed
claim-Claimed id step db h = (
  All-update_users {P = λ u. Unit} _ _ db.users (λ u e _ _. omega arith)
      (λ u e _ same. not_unclaimed id step u same e) (everywhere db.users),
  h,
)

claims-keep :
    (id step user later : ℕ) (db : Db)
    → Claimed id step db
    → Claimed id step (claim_totp_step user later db).0
unfolding claim_totp_step
claims-keep id step user later db (h, fresh) = (
  All-update_users _ _ db.users
      (λ u e used same. omega (arith, used same, unclaimed-lt user later u e)) (λ u e used. used) h,
  fresh,
)

secrets-keep :
    (id step user : ℕ) (secret : Bytes) (db : Db)
    → user ≢ id
    → Claimed id step db
    → Claimed id step (set_totp user secret db)
unfolding set_totp
secrets-keep id step user secret db other (h, fresh) = (
  All-update_users _ _ db.users
      (λ u e used same. absurd (other (sym ((==_iff u.id user).0 e) ∙ same))) (λ u e used. used) h,
  fresh,
)

passwords-keep :
    (id step user : ℕ) (hash : Bytes) (db : Db)
    → Claimed id step db
    → Claimed id step (set_password user hash db)
unfolding set_password
passwords-keep id step user hash db (h, fresh) =
    (All-update_users _ _ db.users (λ u e used. used) (λ u e used. used) h, fresh)

creates-keep :
    (id step : ℕ) (name hash : Bytes) (at : ℕ) (db : Db)
    → Claimed id step db
    → Claimed id step (create_if_none name hash at db).0
unfolding create_if_none
creates-keep id step name hash at db (h, fresh) = elim (Bool-cases (is_empty db.users)) [
  | inl e ↦ rw e (((λ same. absurd (omega (arith, same, fresh))), tt), omega (arith, fresh))
  | inr e ↦ rw e (h, fresh)
]

pub Claimed-Keeps : (id step : ℕ) → Keeps (λ user. user ≢ id) (Claimed id step)
Claimed-Keeps id step = record {
  tokens = λ db ts n h. h;
  claims = λ user later db h. claims-keep id step user later db h;
  passwords = λ user hash db h. passwords-keep id step user hash db h;
  secrets = λ user secret db other h. secrets-keep id step user secret db other h;
  creates = λ name hash at db h. creates-keep id step name hash at db h;
}

-- A step that is used up is not claimed again, nor is an earlier one.
affected-zero :
    (id step s : ℕ) (us : List User)
    → s ≤ step
    → All (Used id step) us
    → affected (unclaimed id s) us ≡ 0
unfolding affected unclaimed
affected-zero id step s [] le h = refl
affected-zero id step s (u ∷ us) le (h, hs) = elim (Bool-cases (unclaimed id s u)) [
  | inl e ↦ absurd (omega (arith, le, unclaimed-lt id s u e, h (unclaimed-same id s u e)))
  | inr e ↦ rw e (omega (arith, affected-zero id step s us le hs))
]

claim-refused :
    (id s step : ℕ) (db : Db) → s ≤ step → Claimed id step db → (claim_totp_step id s db).1 ≡ false
unfolding claim_totp_step unclaimed
claim-refused id s step db le h = rw (affected-zero id step s db.users le h.0) refl

module _ (crypto : Crypto) where
  claimed-Ends :
      (env : Env) (u : User) (step : ℕ) (r : Db × Bool)
      → Claimed u.id step r.0
      → Ends (Claimed u.id step) (claimed crypto env u r)
  unfolding claimed
  claimed-Ends env u step (db, false) h = λ e. h
  claimed-Ends env u step (db, true) h =
      λ e. open_session-keeps crypto (Claimed-Keeps u.id step) env u db h

  login-Claimed :
      (env : Env) (name pw code : Bytes) (db : Db) (u : User) (step : ℕ)
      → user_named name db.users ≡ some u
      → is_empty u.totp_secret ≡ false
      → verify_totp_step crypto u.totp_secret code (second_of env.now) ≡ some step
      → u.id < db.next_user
      → Ends (Claimed u.id step) (login crypto env name pw code db)
  unfolding login second_factor
  login-Claimed env name pw code db u step named secret verified fresh =
      guard-Ends (Claimed u.id step) (env.down by_username) _ _ refl (
        rw named (
          guard-Ends (Claimed u.id step) (not (crypto.verify_password u.password_hash pw)) _ _ refl
            (rw secret (
              guard-Ends (Claimed u.id step) (is_empty code) _ _ refl (
                rw verified (
                  guard-Ends (Claimed u.id step) (env.down claims) _ _ refl (
                    claimed-Ends env u step (claim_totp_step u.id step db)
                      (claim-Claimed u.id step db fresh))))))))

  claimed-err :
      (env : Env) (u : User) (r : Db × Bool)
      → r.1 ≡ false
      → is_ok (claimed crypto env u r).1 ≡ false
  unfolding claimed
  claimed-err env u (db, false) e = refl
  claimed-err env u (db, true) e = absurd (true≢false e)

  pub login-refused :
      (env : Env) (name pw code : Bytes) (db : Db) (u : User) (id step used : ℕ)
      → user_named name db.users ≡ some u
      → u.id ≡ id
      → is_empty u.totp_secret ≡ false
      → verify_totp_step crypto u.totp_secret code (second_of env.now) ≡ some step
      → step ≤ used
      → Claimed id used db
      → is_ok (login crypto env name pw code db).1 ≡ false
  unfolding login second_factor
  login-refused env name pw code db u id step used named same secret verified le h =
      if-err (env.down by_username) _ _ refl (
        rw named (
          if-err (not (crypto.verify_password u.password_hash pw)) _ _ refl (
            rw secret (
              if-err (is_empty code) _ _ refl (
                rw verified (
                  if-err (env.down claims) _ _ refl (
                    claimed-err env u (claim_totp_step u.id step db) (
                      claim-refused u.id step used db le
                        (subst (λ i. Claimed i used db) (sym same) h)))))))))

  -- Once a login of a user with a second factor succeeds with the code of a step, no login of this user
  -- succeeds with a code of that step or of an earlier one, whichever calls of the service come in
  -- between, failing statements included, as long as none of them sets or clears this user's second
  -- factor. The user's id is below the id that the next row gets.
  pub login_once :
      (env later : Env) (name pw code name' pw' code' : Bytes) (db : Db) (u u' : User)
      (step step' : ℕ) (calls : List (Env × Call))
      → u.id < db.next_user
      → user_named name db.users ≡ some u
      → is_empty u.totp_secret ≡ false
      → verify_totp_step crypto u.totp_secret code (second_of env.now) ≡ some step
      → is_ok (login crypto env name pw code db).1 ≡ true
      → All (λ c. Spares (λ user. user ≢ u.id) c.1) calls
      → user_named name' (run crypto calls (login crypto env name pw code db).0).users ≡ some u'
      → u'.id ≡ u.id
      → is_empty u'.totp_secret ≡ false
      → verify_totp_step crypto u'.totp_secret code' (second_of later.now) ≡ some step'
      → step' ≤ step
      → is_ok
          (login crypto later name' pw' code'
            (run crypto calls (login crypto env name pw code db).0)).1
        ≡ false
  login_once env later name pw code name' pw' code' db u u' step step' calls fresh named secret
        verified done spared named' same secret' verified' le =
      login-refused later name' pw' code' _ u' u.id step' step named' same secret' verified' le (
        run-keeps crypto (Claimed-Keeps u.id step) calls _ spared
          (login-Claimed env name pw code db u step named secret verified fresh done))
