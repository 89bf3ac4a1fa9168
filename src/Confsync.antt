-- ===== src/Confsync.antt =====
-- The main's half of the synchronisation of configurations: the pairing codes and the replicas of
-- internal/confsync/registry.go and internal/confsync/pairing.go. The two rows of the settings are values
-- here; for each call, which reads and writes of them fail is a parameter. Instants are milliseconds.
pub mod Pairing
pub mod Secrets
use dnsaur.Prelude.{
  ℕ, ◌+◌, ◌*◌, Bool, true, false, ◌&&◌, ◌||◌, not, Option, none, some, List, [], ◌∷◌, if◌then◌else◌,
  ltb, leb, ◌==◌, keep, is_empty,
}
use dnsaur.Prelude.Bytes.{Bytes, bytes_eq, to_upper}

abbrev pub pairing_ttl : ℕ
pairing_ttl = 10 * 60000

abbrev pub pairing_max_attempts : ℕ
pairing_max_attempts = 5

-- `pairingState`.
pub record PairingState : Type 0 where
  pub hash : Bytes
  pub expires_at : ℕ
  pub attempts : ℕ

-- `replicaRecord`, under the id that its map has it under.
pub record ReplicaRecord : Type 0 where
  pub dns_addr : Bytes
  pub last_seen : ℕ
  pub version_applied : ℕ
  pub dhcp : Bool
  pub secret_hash : Bytes

-- The rows `sync.pairing`, without a value where no code is live, and `sync.replicas`.
pub record Settings : Type 0 where
  pub pairing : Option PairingState
  pub replicas : List (Bytes × ReplicaRecord)

-- The reads and writes of the two rows.
pub data Access : Type 0 where
  loads_pairing saves_pairing clears_pairing loads saves : Access

-- One call's surroundings: the clock, the accesses that fail, and the code or secret that is minted.
pub record Env : Type 0 where
  pub now : ℕ
  pub down : Access → Bool
  pub minted : Option Bytes

pub data Error : Type 0 where
  pairing_refused not_registered store_down no_random : Error

pub data Result {ℓ} (A : Type ℓ) : Type ℓ where
  ok : A → Result A
  err : Error → Result A

-- `normalizePairingCode`.
unfoldable pub normalize_pairing_code : Bytes → Bytes
normalize_pairing_code s = to_upper (keep (λ c. not (c == 45)) s)

-- The reads and writes of the map of replicas.
unfoldable pub find : Bytes → List (Bytes × ReplicaRecord) → Option ReplicaRecord
find id [] = none
find id ((id', r) ∷ rest) = if bytes_eq id' id then some r else find id rest

unfoldable pub delete : Bytes → List (Bytes × ReplicaRecord) → List (Bytes × ReplicaRecord)
delete id all = keep (λ e. not (bytes_eq e.0 id)) all

abbrev pub set : Bytes → ReplicaRecord → List (Bytes × ReplicaRecord) → List (Bytes × ReplicaRecord)
set id r all = (id, r) ∷ delete id all

-- The scan of `Authenticate`; the order matters only where two replicas have one hash.
unfoldable pub holder : Bytes → List (Bytes × ReplicaRecord) → Option Bytes
holder hash [] = none
holder hash ((id, r) ∷ rest) = if bytes_eq r.secret_hash hash then some id else holder hash rest

-- The guard of `Pair`: `!live || p.Attempts >= … || …`, where a code is live.
unfoldable pub is_refused : ℕ → PairingState → Bool
is_refused now p = leb pairing_max_attempts p.attempts || ltb p.expires_at now

-- The hash is `auth.HashToken`.
module _ (hash_token : Bytes → Bytes) where
  -- `Registry.NewPairingCode`.
  unfoldable pub new_pairing_code : Env → Settings → Settings × Result Bytes
  new_pairing_code env s = elim env.minted [
    | none ↦ (s, err no_random)
    | some code ↦ if env.down saves_pairing then (s, err store_down) else (
      record s {
        pairing = some (record {
          hash = hash_token (normalize_pairing_code code);
          expires_at = env.now + pairing_ttl;
          attempts = 0;
        });
      },
      ok code,
    )
  ]

  -- `Pair` behind a correct code.
  unfoldable pub admit : Env → Bytes → Bytes → Settings → Settings × Result Bytes
  admit env instance_id dns_addr s = elim env.minted [
    | none ↦ (s, err no_random)
    | some secret ↦
        if env.down loads || env.down clears_pairing
        then (s, err store_down)
        else if env.down saves
        then (record s { pairing = none }, err store_down)
        else (
          record {
            pairing = none;
            replicas =
                set instance_id
                  (record {
                    dns_addr = dns_addr;
                    last_seen = env.now;
                    version_applied = 0;
                    dhcp = false;
                    secret_hash = hash_token secret;
                  })
                  s.replicas;
          },
          ok secret,
        )
  ]

  -- `Pair` with a live code.
  unfoldable pub try_code :
      Env → PairingState → Bytes → Bytes → Bytes → Settings → Settings × Result Bytes
  try_code env p code instance_id dns_addr s =
      if is_refused env.now p
      then (s, err pairing_refused)
      else if not (bytes_eq p.hash (hash_token (normalize_pairing_code code)))
      then if env.down saves_pairing then (s, err store_down) else (
        record s { pairing = some (record p { attempts = p.attempts + 1 }) },
        err pairing_refused,
      )
      else admit env instance_id dns_addr s

  -- `Registry.Pair`.
  unfoldable pub pair : Env → Bytes → Bytes → Bytes → Settings → Settings × Result Bytes
  pair env code instance_id dns_addr s =
      if is_empty instance_id
      then (s, err pairing_refused)
      else if env.down loads_pairing
      then (s, err store_down)
      else elim s.pairing [
        | none ↦ (s, err pairing_refused)
        | some p ↦ try_code env p code instance_id dns_addr s
      ]

  -- `Registry.Authenticate`; `none` is the false that it returns.
  unfoldable pub authenticate : Env → Bytes → Settings → Result (Option Bytes)
  authenticate env secret s =
      if is_empty secret
      then ok none
      else if env.down loads
      then err store_down
      else ok (holder (hash_token secret) s.replicas)

-- `Registry.Forget`.
unfoldable pub forget : Env → Bytes → Settings → Settings × Result (Unit {0})
forget env instance_id s =
    if env.down loads then (s, err store_down) else elim (find instance_id s.replicas) [
      | none ↦ (s, ok tt)
      | some r ↦
          if env.down saves
          then (s, err store_down)
          else (record s { replicas = delete instance_id s.replicas }, ok tt)
    ]

-- `Registry.Heartbeat`.
unfoldable pub heartbeat : Env → Bytes → ℕ → Bool → Settings → Settings × Result (Unit {0})
heartbeat env instance_id applied dhcp s =
    if env.down loads then (s, err store_down) else elim (find instance_id s.replicas) [
      | none ↦ (s, err not_registered)
      | some r ↦ if env.down saves then (s, err store_down) else (
        record s {
          replicas =
              set instance_id
                (record r { last_seen = env.now; version_applied = applied; dhcp = dhcp })
                s.replicas;
        },
        ok tt,
      )
    ]
