-- ===== src/Filter/Pauses.antt =====
-- The pause state of internal/filter/engine.go: `Pauses`, `Pause`, `Restore` and `PausedUntil`.
-- Instants and durations are nanoseconds since the epoch, `UnixMilli` divides by a million, and a
-- pause is asked for a duration of zero or more.
pub mod Deadline
pub mod Restart
use dnsaur.Prelude.{
  ℕ, suc, ◌+◌, ◌/◌, ◌≡◌, Bool, true, false, ◌&&◌, not, Option, none, some, List, [], ◌∷◌, keep,
  length, all, if◌then◌else◌, ltb, leb, ◌==◌,
}

-- `map[int64]int64`.
abbrev pub Deadlines : Type 0
Deadlines = List (ℕ × ℕ)

-- `m[id]`, 0 where there is none.
unfoldable pub until_of : Deadlines → ℕ → ℕ
until_of [] id = 0
until_of ((j, v) ∷ m) id = if j == id then v else until_of m id

-- `v, ok := m[id]`.
unfoldable pub find_until : Deadlines → ℕ → Option ℕ
find_until [] id = none
find_until ((j, v) ∷ m) id = if j == id then some v else find_until m id

-- `m[id] = until`.
unfoldable pub set_until : Deadlines → ℕ → ℕ → Deadlines
set_until [] id until = (id, until) ∷ []
set_until ((j, v) ∷ m) id until = if j == id then (id, until) ∷ m else (j, v) ∷ set_until m id until

-- `maps.DeleteFunc(m, expired)` at `ms`.
unfoldable pub delete_expired : ℕ → Deadlines → Deadlines
delete_expired ms [] = []
delete_expired ms ((j, v) ∷ m) =
    let rest = delete_expired ms m in if leb v ms then rest else (j, v) ∷ rest

-- `v2, ok := m2[id]; ok && v == v2`.
same_until : Option ℕ → ℕ → Bool
same_until none v = false
same_until (some w) v = v == w

-- The loop of `maps.Equal`.
within : Deadlines → Deadlines → Bool
unfolding same_until
within [] m2 = true
within ((j, v) ∷ m) m2 = same_until (find_until m2 j) v && within m m2

-- `maps.Equal`.
unfoldable pub maps_equal : Deadlines → Deadlines → Bool
unfolding within find_until
maps_equal m1 m2 = length m1 == length m2 && within m1 m2

-- `Pauses`. `clone` is the value itself.
pub record Pauses : Type 0 where
  pub global : ℕ
  pub groups : Deadlines
  pub clients : Deadlines

abbrev pub no_pauses : Pauses
no_pauses = record { global = 0; groups = []; clients = [] }

-- `PauseKind`.
pub data PauseKind : Type 0 where
  pause_global pause_group pause_client : PauseKind

abbrev pub unix_milli : ℕ → ℕ
unix_milli t = t / 1000000

-- `Pauses.prune`.
unfoldable pub prune : ℕ → Pauses → Pauses
unfolding delete_expired
prune now p = record {
  global = if leb p.global (unix_milli now) then 0 else p.global;
  groups = delete_expired (unix_milli now) p.groups;
  clients = delete_expired (unix_milli now) p.clients;
}

-- The switch of `Engine.Pause`.
set_scope : PauseKind → ℕ → ℕ → Pauses → Pauses
unfolding set_until
set_scope pause_group id until p = record p { groups = set_until p.groups id until }
set_scope pause_client id until p = record p { clients = set_until p.clients id until }
set_scope pause_global id until p = record p { global = until }

-- `Engine.Pause` at `now`: the state that is stored, and handed to the sink.
unfoldable pub pause : ℕ → PauseKind → ℕ → ℕ → Pauses → Pauses
unfolding set_scope prune
pause now kind id d p = prune now (set_scope kind id (unix_milli (now + d)) p)

-- `Engine.Restore` at `now`: the stored state, and what is in force behind it.
unfoldable pub restore : ℕ → Pauses → Pauses → Pauses
unfolding prune maps_equal
restore now p cur =
    let next = prune now p in
    if cur.global == next.global
      && maps_equal cur.groups next.groups
      && maps_equal cur.clients next.clients
    then cur
    else next

-- `Engine.PausedUntil` at `now`: the milliseconds and the scope, `none` for the zero time.
unfoldable pub paused_until : ℕ → Pauses → ℕ → ℕ → Option (ℕ × PauseKind)
unfolding until_of
paused_until now p group_id client_id =
    let g = until_of p.groups group_id in
    let c = until_of p.clients client_id in
    let until = if ltb p.global g then g else p.global in
    let kind = if ltb p.global g then pause_group else pause_global in
    let until' = if ltb until c then c else until in
    let kind' = if ltb until c then pause_client else kind in
    if leb until' (unix_milli now) then none else some (until', kind')

-- `Engine.isPaused`.
unfoldable pub is_paused : ℕ → Pauses → ℕ → ℕ → Bool
unfolding paused_until
is_paused now p group_id client_id = elim (paused_until now p group_id client_id) [
  | none ↦ false
  | some _ ↦ true
]
