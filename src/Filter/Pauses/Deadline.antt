-- ===== src/Filter/Pauses/Deadline.antt =====
-- The deadlines of internal/filter/engine.go that concern a client.
use Prim.Native.Nat.{max}
use dnsaur.Prelude.{
  ℕ, ◌≤◌, ◌<◌, ◌≡◌, refl, Option, none, some, [], ◌∷◌, arith, ltb, leb, ◌==◌, if◌then◌else◌,
}
use dnsaur.Filter.Pauses.{
  Deadlines, until_of, find_until, set_until, delete_expired, Pauses, PauseKind, pause_global,
  pause_group, pause_client, unix_milli, paused_until, is_paused,
}

-- A list that a map's entries make: no key twice.
abbrev pub IsMap : Deadlines → Type 0
IsMap [] = Unit
IsMap ((j, v) ∷ m) = (find_until m j ≡ none) × IsMap m

pub record IsState (p : Pauses) : Type 0 where
  pub groups : IsMap p.groups
  pub clients : IsMap p.clients

until_of_absent : (m : Deadlines) (j : ℕ) → find_until m j ≡ none → until_of m j ≡ 0
unfolding until_of find_until
until_of_absent [] j h = refl
until_of_absent ((i, v) ∷ m) j h = ground (arith, until_of_absent m j)

pub until_of-set_until :
    (m : Deadlines) (id until j : ℕ)
    → until_of (set_until m id until) j ≡ (if id == j then until else until_of m j)
unfolding until_of set_until
until_of-set_until [] id until j = ground arith
until_of-set_until ((i, v) ∷ m) id until j = ground (arith, until_of-set_until m id until j)

pub until_of-delete_expired :
    (ms : ℕ) (m : Deadlines) (j : ℕ)
    → IsMap m
    → until_of (delete_expired ms m) j ≡ (if leb (until_of m j) ms then 0 else until_of m j)
unfolding until_of delete_expired
until_of-delete_expired ms [] j h = ground arith
until_of-delete_expired ms ((i, v) ∷ m) j h =
    ground (arith, until_of-delete_expired ms m j h.1, until_of_absent m i h.0)

find_until-set_until :
    (m : Deadlines) (id until j : ℕ)
    → find_until (set_until m id until) j ≡ (if id == j then some until else find_until m j)
unfolding find_until set_until
find_until-set_until [] id until j = ground arith
find_until-set_until ((i, v) ∷ m) id until j = ground (arith, find_until-set_until m id until j)

find_until-delete_expired :
    (ms : ℕ) (m : Deadlines) (j : ℕ)
    → find_until m j ≡ none
    → find_until (delete_expired ms m) j ≡ none
unfolding find_until delete_expired
find_until-delete_expired ms [] j h = refl
find_until-delete_expired ms ((i, v) ∷ m) j h = ground (arith, find_until-delete_expired ms m j)

pub set_until-IsMap : (m : Deadlines) (id until : ℕ) → IsMap m → IsMap (set_until m id until)
unfolding set_until
set_until-IsMap [] id until h = (unfold find_until in refl, tt)
set_until-IsMap ((i, v) ∷ m) id until h =
    ground (arith, set_until-IsMap m id until h.1, find_until-set_until m id until i)

pub delete_expired-IsMap : (ms : ℕ) (m : Deadlines) → IsMap m → IsMap (delete_expired ms m)
unfolding delete_expired
delete_expired-IsMap ms [] h = tt
delete_expired-IsMap ms ((i, v) ∷ m) h =
    ground (arith, delete_expired-IsMap ms m h.1, find_until-delete_expired ms m i h.0)

-- The latest of the deadlines that concern a client in a group.
unfoldable pub deadline : Pauses → ℕ → ℕ → ℕ
deadline p g c = max p.global (max (until_of p.groups g) (until_of p.clients c))

-- The deadline that one scope has for them.
unfoldable pub deadline_of : PauseKind → Pauses → ℕ → ℕ → ℕ
deadline_of pause_global p g c = p.global
deadline_of pause_group p g c = until_of p.groups g
deadline_of pause_client p g c = until_of p.clients c

abbrev pub Reports : ℕ → Pauses → ℕ → ℕ → Option (ℕ × PauseKind) → Type 0
Reports now p g c none = deadline p g c ≤ unix_milli now
Reports now p g c (some (until, kind)) =
    (until ≡ deadline p g c) × (until ≡ deadline_of kind p g c) × (unix_milli now < until)

-- `PausedUntil` reports the latest of the three deadlines and a scope that has it, while that lies
-- ahead; and nothing once all three have passed.
paused_until-Reports : (now : ℕ) (p : Pauses) (g c : ℕ) → Reports now p g c (paused_until now p g c)
unfolding paused_until deadline deadline_of
paused_until-Reports now p g c = ground arith

pub is_paused-deadline :
    (now : ℕ) (p : Pauses) (g c : ℕ) → is_paused now p g c ≡ ltb (unix_milli now) (deadline p g c)
unfolding is_paused deadline
is_paused-deadline now p g c = ground arith
