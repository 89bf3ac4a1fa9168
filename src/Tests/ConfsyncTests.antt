-- ===== src/Tests/ConfsyncTests.antt =====
-- Pairing at concrete inputs: a hash that is the text itself.
use Prim.Native.String.{String}
use dnsaur.Prelude.{ℕ, ◌≡◌, ◌≢◌, refl, arith, true, false, some, List, [], ◌∷◌}
use dnsaur.Prelude.Bytes.{Bytes, codes, bytes_eq, to_upper}
use dnsaur.Confsync.{
  PairingState, Settings, Env, ok, pair, authenticate, forget, try_code, is_refused,
  normalize_pairing_code, admit,
}
use dnsaur.Confsync.Pairing.{
  Call, pairs, forgets, beats, Guess, is_ok, run, guess_all, pair_once, guesses_void,
}
use dnsaur.Confsync.Secrets.{pair-authenticate}

abbrev same : Bytes → Bytes
same t = t

abbrev at : ℕ → String → Env
at now minted = record { now = now; down = λ access. false; minted = some (codes minted) }

abbrev live_code : PairingState
live_code = record { hash = codes "ABCD2345"; expires_at = 600000; attempts = 0 }

abbrev waiting : Settings
waiting = record { pairing = some live_code; replicas = [] }

abbrev later_calls : List (Env × Call)
later_calls =
    (at 3000 "x", beats (codes "r1") 4 true)
    ∷ (at 4000 "y", pairs (codes "ABCD-2345") (codes "r2") (codes "10.0.0.2"))
    ∷ (at 5000 "z", forgets (codes "r1"))
    ∷ []

pair_once_example :
    is_ok
      (pair same (at 6000 "s2") (codes "ABCD-2345") (codes "r3") [] (
        run same later_calls
          (pair same
            (at 2000 "s1")
            (codes "abcd-2345")
            (codes "r1")
            (codes "10.0.0.1")
            waiting).0)).1
    ≡ false
unfolding pair try_code is_refused bytes_eq normalize_pairing_code to_upper admit
pair_once_example =
    pair_once same (at 2000 "s1") (at 6000 "s2") (codes "abcd-2345") (codes "r1") (codes "10.0.0.1")
      (codes "ABCD-2345") (codes "r3") [] waiting later_calls refl

abbrev guess : ℕ → Guess
guess now = (at now "s", codes "AAAA-AAAA", codes "eve", [])

guesses_void_example :
    is_ok
      (pair same (at 6000 "s2") (codes "ABCD-2345") (codes "r3") [] (
        run same later_calls
          (guess_all same (guess 1 ∷ guess 2 ∷ guess 3 ∷ guess 4 ∷ guess 5 ∷ []) waiting))).1
    ≡ false
unfolding bytes_eq normalize_pairing_code to_upper
guesses_void_example =
    guesses_void same (guess 1 ∷ guess 2 ∷ guess 3 ∷ guess 4 ∷ guess 5 ∷ []) waiting live_code
      later_calls (at 6000 "s2") (codes "ABCD-2345") (codes "r3") [] refl
      (
        (refl, refl, refl, refl, omega arith),
        (
          (refl, refl, refl, refl, omega arith),
          (
            (refl, refl, refl, refl, omega arith),
            ((refl, refl, refl, refl, omega arith), ((refl, refl, refl, refl, omega arith), tt)),
          ),
        ),
      )
      (omega arith)

pair-authenticate_example :
    (authenticate same
        (at 9000 "x")
        (codes "s1")
        (pair same (at 2000 "s1") (codes "abcd-2345") (codes "r1") [] waiting).0
      ≡ ok (some (codes "r1")))
    × (authenticate same
          (at 9000 "x")
          (codes "s9")
          (forget
            (at 9000 "x")
            (codes "r1")
            (pair same (at 2000 "s1") (codes "abcd-2345") (codes "r1") [] waiting).0).0
        ≢ ok (some (codes "r1")))
unfolding pair try_code is_refused bytes_eq normalize_pairing_code to_upper admit
pair-authenticate_example =
    pair-authenticate same (at 2000 "s1") (at 9000 "x") (codes "abcd-2345") (codes "r1") []
      (codes "s1") (codes "s9") waiting refl refl refl refl
