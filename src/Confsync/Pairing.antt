-- ===== src/Confsync/Pairing.antt =====
-- What a pairing code of internal/confsync/registry.go is good for.
use dnsaur.Prelude.{
  ℕ, ◌+◌, ◌≤◌, ◌<◌, ◌≡◌, refl, sym, subst, Bool, true, false, ◌||◌, not, Option, none, some, List,
  [], ◌∷◌, arith, Bool-cases, inl, inr, All, length, if◌then◌else◌, is_empty, leb, ltb, leb→le,
}
use dnsaur.Prelude.Bytes.{Bytes, bytes_eq}
use dnsaur.Confsync.{
  PairingState, Settings, Env, Result, ok, err, store_down, pairing_refused, pairing_max_attempts,
  is_refused, normalize_pairing_code, admit, try_code, pair, forget, heartbeat, loads_pairing,
  saves_pairing,
}

-- The calls that mint no code.
pub data Call : Type 0 where
  pairs : Bytes → Bytes → Bytes → Call
  forgets : Bytes → Call
  beats : Bytes → ℕ → Bool → Call

abbrev pub is_ok {ℓ} : {A : Type ℓ} → Result A → Bool
is_ok (ok a) = true
is_ok (err e) = false

-- No code is live, or the one that is has had all its guesses.
abbrev Dead : Option PairingState → Type 0
Dead none = Unit
Dead (some p) = pairing_max_attempts ≤ p.attempts

-- One call of `Pair`, by its arguments behind its surroundings.
abbrev pub Guess : Type 0
Guess = Env × Bytes × Bytes × Bytes

module _ (hash_token : Bytes → Bytes) where
  unfoldable pub apply : Env → Call → Settings → Settings
  apply env (pairs code id addr) s = (pair hash_token env code id addr s).0
  apply env (forgets id) s = (forget env id s).0
  apply env (beats id applied dhcp) s = (heartbeat env id applied dhcp s).0

  unfoldable pub run : List (Env × Call) → Settings → Settings
  run [] s = s
  run ((env, call) ∷ calls) s = run calls (apply env call s)

  -- A call that changes nothing and is refused.
  abbrev Refused : Settings → Settings × Result Bytes → Type 0
  Refused s r = (r.0 ≡ s) × (is_ok r.1 ≡ false)

  if-Refused :
      (b : Bool) (s : Settings) (x y : Settings × Result Bytes)
      → Refused s x
      → Refused s y
      → Refused s (if b then x else y)
  if-Refused true s x y hx hy = hx
  if-Refused false s x y hx hy = hy

  try_code-Refused :
      (env : Env) (p : PairingState) (code id addr : Bytes) (s : Settings)
      → pairing_max_attempts ≤ p.attempts
      → Refused s (try_code hash_token env p code id addr s)
  unfolding try_code is_refused
  try_code-Refused env p code id addr s many =
      subst (λ b. Refused s (if b then (s, err pairing_refused) else live))
        (sym (guard p.attempts many)) (refl, refl)
    where
      live : Settings × Result Bytes
      live =
          if not (bytes_eq p.hash (hash_token (normalize_pairing_code code)))
          then if env.down saves_pairing then (s, err store_down) else (
            record s { pairing = some (record p { attempts = p.attempts + 1 }) },
            err pairing_refused,
          )
          else admit hash_token env id addr s

      guard : (n : ℕ) → 5 ≤ n → (leb 5 n || ltb p.expires_at env.now) ≡ true
      guard n many = ground arith

  -- With a dead code, `Pair` changes nothing and is refused.
  pair-Refused :
      (env : Env) (code id addr : Bytes) (s : Settings)
      → Dead s.pairing
      → Refused s (pair hash_token env code id addr s)
  unfolding pair
  pair-Refused env code id addr s dead =
      if-Refused (is_empty id) s _ _ (refl, refl)
        (if-Refused (env.down loads_pairing) s _ _ (refl, refl) (body s.pairing dead))
    where
      body :
          (o : Option PairingState)
          → Dead o
          → Refused s (elim o as (λ x. Settings × Result Bytes) [
            | none ↦ (s, err pairing_refused)
            | some p ↦ try_code hash_token env p code id addr s
          ])
      body none dead = (refl, refl)
      body (some p) dead = try_code-Refused env p code id addr s dead

  forget-pairing : (env : Env) (id : Bytes) (s : Settings) → (forget env id s).0.pairing ≡ s.pairing
  unfolding forget
  forget-pairing env id s = grind arith

  heartbeat-pairing :
      (env : Env) (id : Bytes) (applied : ℕ) (dhcp : Bool) (s : Settings)
      → (heartbeat env id applied dhcp s).0.pairing ≡ s.pairing
  unfolding heartbeat
  heartbeat-pairing env id applied dhcp s = grind arith

  run-Dead :
      (calls : List (Env × Call)) (s : Settings) → Dead s.pairing → Dead (run calls s).pairing
  unfolding run apply
  run-Dead [] s dead = dead
  run-Dead ((env, pairs code id addr) ∷ calls) s dead =
      run-Dead calls _
        (subst (λ x. Dead x.pairing) (sym (pair-Refused env code id addr s dead).0) dead)
  run-Dead ((env, forgets id) ∷ calls) s dead =
      run-Dead calls _ (subst Dead (sym (forget-pairing env id s)) dead)
  run-Dead ((env, beats id applied dhcp) ∷ calls) s dead =
      run-Dead calls _ (subst Dead (sym (heartbeat-pairing env id applied dhcp s)) dead)

  -- A pairing that succeeds leaves no live code.
  pair-spends :
      (env : Env) (code id addr : Bytes) (s : Settings)
      → is_ok (pair hash_token env code id addr s).1 ≡ true
      → (pair hash_token env code id addr s).0.pairing ≡ none
  unfolding pair try_code admit
  pair-spends env code id addr s done = grind arith

  -- A code is good for one pairing: once `Pair` has succeeded, every later call of it is refused until a
  -- code is minted again, whichever other calls come in between, failing accesses included.
  pub pair_once :
      (env later : Env) (code id addr code' id' addr' : Bytes) (s : Settings)
      (calls : List (Env × Call))
      → is_ok (pair hash_token env code id addr s).1 ≡ true
      → is_ok
          (pair hash_token later code' id' addr'
            (run calls (pair hash_token env code id addr s).0)).1
        ≡ false
  pair_once env later code id addr code' id' addr' s calls done =
      (pair-Refused later code' id' addr' (run calls (pair hash_token env code id addr s).0)
        (run-Dead calls _ (subst Dead (sym (pair-spends env code id addr s done)) tt))).1

  unfoldable pub guess_all : List Guess → Settings → Settings
  guess_all [] s = s
  guess_all ((env, code, id, addr) ∷ rest) s = guess_all rest (pair hash_token env code id addr s).0

  -- A wrong code for a code that still lives, with an instance id and no failing access.
  abbrev pub Wrong : PairingState → Guess → Type 0
  Wrong p (env, code, id, addr) =
      (bytes_eq p.hash (hash_token (normalize_pairing_code code)) ≡ false)
      × (is_empty id ≡ false)
      × (env.down loads_pairing ≡ false)
      × (env.down saves_pairing ≡ false)
      × (env.now ≤ p.expires_at)

  guess-counts :
      (g : Guess) (s : Settings) (p : PairingState)
      → s.pairing ≡ some p
      → Wrong p g
      → p.attempts < 5
      → (pair hash_token g.0 g.1 g.2 g.3 s).0.pairing
        ≡ some (record p { attempts = p.attempts + 1 })
  unfolding pair try_code is_refused
  guess-counts (env, code, id, addr) s p live (wrong, named, up, up', alive) few = grind arith

  guess_all-Dead : (gs : List Guess) (s : Settings) → Dead s.pairing → Dead (guess_all gs s).pairing
  unfolding guess_all
  guess_all-Dead [] s dead = dead
  guess_all-Dead ((env, code, id, addr) ∷ gs) s dead =
      guess_all-Dead gs _
        (subst (λ x. Dead x.pairing) (sym (pair-Refused env code id addr s dead).0) dead)

  guess_all-voids :
      (gs : List Guess) (s : Settings) (p : PairingState) (attempts : ℕ)
      → s.pairing ≡ some (record p { attempts = attempts })
      → All (Wrong p) gs
      → 5 ≤ attempts + length gs
      → Dead (guess_all gs s).pairing
  unfolding guess_all
  guess_all-voids [] s p attempts live wrong many = subst Dead (sym live) (omega (arith, many))
  guess_all-voids ((env, code, id, addr) ∷ gs) s p attempts live (w, wrong) many =
      elim (Bool-cases (leb 5 attempts)) [
        | inl full ↦
            guess_all-Dead ((env, code, id, addr) ∷ gs) s
              (subst Dead (sym live) (leb→le 5 attempts full))
        | inr free ↦
            guess_all-voids gs _ p (attempts + 1)
              (guess-counts (env, code, id, addr) s (record p { attempts = attempts }) live w
                (less free))
              wrong (omega (arith, many))
      ]
    where
      less : leb 5 attempts ≡ false → attempts < 5
      less free = ground arith

  -- Five wrong guesses void the live code: behind five or more of them every call of `Pair` is refused,
  -- with the right code too, until a code is minted again, whichever other calls come in between. The
  -- guesses come with an instance id, before the code expires, and their accesses do not fail.
  pub guesses_void :
      (gs : List Guess) (s : Settings) (p : PairingState) (calls : List (Env × Call)) (env : Env)
      (code id addr : Bytes)
      → s.pairing ≡ some p
      → All (Wrong p) gs
      → 5 ≤ length gs
      → is_ok (pair hash_token env code id addr (run calls (guess_all gs s))).1 ≡ false
  guesses_void gs s p calls env code id addr live wrong many =
      (pair-Refused env code id addr (run calls (guess_all gs s))
        (run-Dead calls _ (guess_all-voids gs s p p.attempts live wrong (omega (arith, many))))).1
