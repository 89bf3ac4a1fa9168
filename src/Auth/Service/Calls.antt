-- ===== src/Auth/Service/Calls.antt =====
-- The methods of `Service` in internal/auth as calls, and sequences of calls.
use dnsaur.Prelude.{
  ℕ, ◌≡◌, sym, ◌∙◌, Bool, true, false, Option, none, some, List, [], ◌∷◌, if◌then◌else◌,
}
use mathlib.Core.Bool.{false≢true}
use dnsaur.Prelude.Bytes.{Bytes}
use dnsaur.Auth.{Db}
use dnsaur.Auth.Service.{
  Env, Crypto, Result, ok, err, login, authenticate, logout, revoke_other_sessions, change_password,
  create_admin, create_api_token, revoke_token, enable_totp_confirm, disable_totp,
}

pub data Call : Type 0 where
  logs_in : Bytes → Bytes → Bytes → Call
  authenticates : Bytes → Call
  logs_out : Bytes → Call
  revokes_others : ℕ → ℕ → Call
  changes_password : ℕ → Bytes → Bytes → ℕ → Call
  creates_admin : Bytes → Bytes → Call
  creates_api_token : ℕ → Bytes → Bytes → ℕ → Call
  revokes_token : ℕ → ℕ → Call
  enables_totp : ℕ → Bytes → Bytes → ℕ → Call
  disables_totp : ℕ → Bytes → ℕ → Call

module _ (crypto : Crypto) where
  -- The tables behind a call.
  unfoldable pub apply : Env → Call → Db → Db
  apply env (logs_in name pw code) db = (login crypto env name pw code db).0
  apply env (authenticates plain) db = (authenticate crypto env plain db).0
  apply env (logs_out plain) db = (logout crypto env plain db).0
  apply env (revokes_others user keep) db = (revoke_other_sessions crypto env user keep db).0
  apply env (changes_password user cur next keep) db =
      (change_password crypto env user cur next keep db).0
  apply env (creates_admin name pw) db = (create_admin crypto env name pw db).0
  apply env (creates_api_token user name scope exp) db =
      (create_api_token crypto env user name scope exp db).0
  apply env (revokes_token user token) db = (revoke_token crypto env user token db).0
  apply env (enables_totp user secret code keep) db =
      (enable_totp_confirm crypto env user secret code keep db).0
  apply env (disables_totp user code keep) db = (disable_totp crypto env user code keep db).0

  unfoldable pub run : List (Env × Call) → Db → Db
  run [] db = db
  run ((env, call) ∷ calls) db = run calls (apply env call db)

-- The call sets or clears the TOTP secret of such users only.
abbrev pub Spares : (ℕ → Type 0) → Call → Type 0
Spares S (enables_totp user _ _ _) = S user
Spares S (disables_totp user _ _) = S user
Spares S _ = Unit

abbrev pub is_ok {ℓ} : {A : Type ℓ} → Result A → Bool
is_ok (ok a) = true
is_ok (err e) = false

-- What holds of the tables where the call succeeds.
abbrev pub Ends {ℓ} : {A : Type ℓ} → (Db → Type 0) → Db × Result A → Type 0
Ends P r = is_ok r.1 ≡ true → P r.0

pub guard-Ends :
    {A : Type 0} (P : Db → Type 0) (b : Bool) (x y : Db × Result A)
    → is_ok x.1 ≡ false
    → Ends P y
    → Ends P (if b then x else y)
guard-Ends P true x y hx hy = λ e. absurd (false≢true (sym hx ∙ e))
guard-Ends P false x y hx hy = hy

pub if-err :
    {A : Type 0} (b : Bool) (x y : Db × Result A)
    → is_ok x.1 ≡ false
    → is_ok y.1 ≡ false
    → is_ok (if b then x else y).1 ≡ false
if-err true x y hx hy = hx
if-err false x y hx hy = hy

pub option-Ends :
    {X A : Type 0} (P : Db → Type 0) (o : Option X) (n : Db × Result A) (f : X → Db × Result A)
    → is_ok n.1 ≡ false
    → ((x : X) → Ends P (f x))
    → Ends P (elim o as (λ x. Db × Result A) [ none ↦ n | some x ↦ f x ])
option-Ends P none n f hn hf = λ e. absurd (false≢true (sym hn ∙ e))
option-Ends P (some x) n f hn hf = hf x
