-- ===== src/Filter/Pauses/Restart.antt =====
-- `Pause` and `Restore` of internal/filter/engine.go, seen at later instants.
use Prim.Native.Nat.{max}
use dnsaur.Prelude.{ℕ, ◌+◌, ◌≤◌, ◌≡◌, refl, ◌∙◌, ap, true, [], ◌∷◌, arith, ltb, ◌==◌, if◌then◌else◌}
use dnsaur.Filter.Pauses.{
  Deadlines, until_of, maps_equal, Pauses, PauseKind, pause_global, pause_group, pause_client,
  no_pauses, unix_milli, prune, set_scope, pause, restore, is_paused,
}
use dnsaur.Filter.Pauses.Deadline.{
  IsState, deadline, is_paused-deadline, until_of-set_until, until_of-delete_expired,
  set_until-IsMap, delete_expired-IsMap,
}

prune-IsState : (now : ℕ) (p : Pauses) → IsState p → IsState (prune now p)
unfolding prune
prune-IsState now p h = record {
  groups = delete_expired-IsMap _ p.groups h.groups;
  clients = delete_expired-IsMap _ p.clients h.clients;
}

-- From the pruning on, the pruned state pauses what the state did.
is_paused-prune :
    (now t : ℕ) (p : Pauses) (g c : ℕ)
    → now ≤ t
    → IsState p
    → is_paused t (prune now p) g c ≡ is_paused t p g c
unfolding prune deadline
is_paused-prune now t p g c later h = ground (
  arith,
  is_paused-deadline t (prune now p) g c,
  is_paused-deadline t p g c,
  until_of-delete_expired (unix_milli now) p.groups g h.groups,
  until_of-delete_expired (unix_milli now) p.clients c h.clients,
)

set_scope-IsState :
    (kind : PauseKind) (id until : ℕ) (p : Pauses) → IsState p → IsState (set_scope kind id until p)
unfolding set_scope
set_scope-IsState pause_global id until p h = record { groups = h.groups; clients = h.clients }
set_scope-IsState pause_group id until p h = record {
  groups = set_until-IsMap p.groups id until h.groups;
  clients = h.clients;
}
set_scope-IsState pause_client id until p h = record {
  groups = h.groups;
  clients = set_until-IsMap p.clients id until h.clients;
}

pub pause-IsState :
    (now : ℕ) (kind : PauseKind) (id d : ℕ) (p : Pauses)
    → IsState p
    → IsState (pause now kind id d p)
unfolding pause
pause-IsState now kind id d p h = prune-IsState now _ (set_scope-IsState kind id _ p h)

-- The latest deadline of a client once one scope's own has been replaced by `until`.
unfoldable pub deadline_with : PauseKind → ℕ → ℕ → Pauses → ℕ → ℕ → ℕ
deadline_with pause_global id until p g c =
    max until (max (until_of p.groups g) (until_of p.clients c))
deadline_with pause_group id until p g c =
    max p.global (max (if id == g then until else until_of p.groups g) (until_of p.clients c))
deadline_with pause_client id until p g c =
    max p.global (max (until_of p.groups g) (if id == c then until else until_of p.clients c))

deadline-set_scope :
    (kind : PauseKind) (id until : ℕ) (p : Pauses) (g c : ℕ)
    → deadline (set_scope kind id until p) g c ≡ deadline_with kind id until p g c
unfolding set_scope deadline deadline_with
deadline-set_scope pause_global id until p g c = refl
deadline-set_scope pause_group id until p g c = rw until_of-set_until
deadline-set_scope pause_client id until p g c = rw until_of-set_until

-- After a pause is set, a client in a group is paused at every later instant exactly while the latest
-- of its deadlines lies ahead, the scope's own being now + d and the two others as they were: no scope
-- cuts another short, and a pause of no length ends the scope's own.
pub is_paused-pause :
    (now t : ℕ) (kind : PauseKind) (id d : ℕ) (p : Pauses) (g c : ℕ)
    → now ≤ t
    → IsState p
    → is_paused t (pause now kind id d p) g c
      ≡ ltb (unix_milli t) (deadline_with kind id (unix_milli (now + d)) p g c)
unfolding pause
is_paused-pause now t kind id d p g c later h =
    let q : Pauses = set_scope kind id (unix_milli (now + d)) p in
    is_paused-prune now t q g c later (set_scope-IsState kind id _ p h)
    ∙ (is_paused-deadline t q g c
        ∙ ap (ltb (unix_milli t)) (deadline-set_scope kind id (unix_milli (now + d)) p g c))

empty_equal : (m : Deadlines) → maps_equal [] m ≡ true → m ≡ []
unfolding maps_equal
empty_equal [] h = refl
empty_equal (e ∷ m) h = absurd (ground arith)

restore-prune : (now : ℕ) (p : Pauses) → restore now p no_pauses ≡ prune now p
unfolding restore
restore-prune now p =
    ground (arith, empty_equal (prune now p).groups, empty_equal (prune now p).clients)

-- A restart loses no pause and adds none: a fresh engine that restores a stored state holds blocking,
-- from then on, for exactly the clients and instants for which the stored state did.
pub is_paused-restore :
    (now t : ℕ) (p : Pauses) (g c : ℕ)
    → now ≤ t
    → IsState p
    → is_paused t (restore now p no_pauses) g c ≡ is_paused t p g c
is_paused-restore now t p g c later h = rw restore-prune (is_paused-prune now t p g c later h)
