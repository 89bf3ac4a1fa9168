-- ===== src/Tests/ClientTests.antt =====
-- The client registry at concrete inputs: addresses of eight bits, and an insertion sort.
use dnsaur.Prelude.{
  ℕ, ◌-◌, ◌/◌, ◌^◌, ◌≡◌, ◌↔◌, inl, inr, Bool, true, false, Option, none, some, List, [], ◌∷◌, arith,
  if◌then◌else◌, Bool-cases, ◌==◌,
}
use dnsaur.Prelude.Bytes.{Bytes, codes, bytes_eq}
use dnsaur.Clients.{
  Netip, CidrEntry, Registry, LeaseLookup, Group, StoredClient, SortFunc, longer, lookup, rebuild,
  reload, new_registry,
}
use dnsaur.Clients.Nearest.{Among, IsClient, InOrder, Sorts, lookup-IsClient}

module _ {Addr : Type 0} {Prefix : Type 0} (net : Netip Addr Prefix) where
  insert :
      (CidrEntry Prefix → CidrEntry Prefix → Bool)
      → CidrEntry Prefix
      → List (CidrEntry Prefix)
      → List (CidrEntry Prefix)
  insert less x [] = x ∷ []
  insert less x (y ∷ ys) = let rest = insert less x ys in if less y x then y ∷ rest else x ∷ y ∷ ys

  pub sort : SortFunc net
  sort less [] = []
  sort less (x ∷ xs) = insert less x (sort less xs)

  Among-insert :
      (x e : CidrEntry Prefix) (ys : List (CidrEntry Prefix))
      → Among e (insert (longer net) x ys) ↔ Among e (x ∷ ys)
  unfolding insert
  Among-insert x e [] = (λ h. h, λ h. h)
  Among-insert x e (y ∷ ys) = elim (Bool-cases (longer net y x)) [
    | inl less ↦ let ih = Among-insert x e ys in rw less (λ h. there ih h, λ h. back ih h)
    | inr more ↦ rw more (λ h. h, λ h. h)
  ]
    where
      there :
          (Among e (insert (longer net) x ys) ↔ Among e (x ∷ ys))
          → Among e (y ∷ insert (longer net) x ys)
          → Among e (x ∷ y ∷ ys)
      there ih (inl same) = inr (inl same)
      there ih (inr later) = elim (ih.0 later) [
        | inl same ↦ inl same
        | inr further ↦ inr (inr further)
      ]

      back :
          (Among e (insert (longer net) x ys) ↔ Among e (x ∷ ys))
          → Among e (x ∷ y ∷ ys)
          → Among e (y ∷ insert (longer net) x ys)
      back ih (inl same) = inr (ih.1 (inl same))
      back ih (inr (inl same)) = inl same
      back ih (inr (inr later)) = inr (ih.1 (inr later))

  insert-InOrder :
      (x : CidrEntry Prefix) (ys : List (CidrEntry Prefix))
      → InOrder net ys
      → InOrder net (insert (longer net) x ys)
  unfolding insert longer
  insert-InOrder x [] o = (λ e h. absurd h, tt)
  insert-InOrder x (y ∷ ys) o = elim (Bool-cases (longer net y x)) [
    | inl less ↦ rw less (λ e h. behind less e ((Among-insert x e ys).0 h), insert-InOrder x ys o.1)
    | inr more ↦ rw more (λ e h. after more e h, o)
  ]
    where
      behind :
          longer net y x ≡ true → (e : CidrEntry Prefix) → Among e (x ∷ ys) → longer net e y ≡ false
      behind less e (inl same) = rw same (ground arith)
      behind less e (inr later) = o.0 e later

      after :
          longer net y x ≡ false
          → (e : CidrEntry Prefix) → Among e (y ∷ ys)
          → longer net e x ≡ false
      after more e (inl same) = rw same more
      after more e (inr later) = ground (arith, o.0 e later)

  Among-sort :
      (e : CidrEntry Prefix) (es : List (CidrEntry Prefix))
      → Among e (sort (longer net) es) ↔ Among e es
  unfolding sort
  Among-sort e [] = (λ h. h, λ h. h)
  Among-sort e (x ∷ xs) =
      let ih = Among-sort e xs in
      let step = Among-insert x e (sort (longer net) xs) in
      (
        λ h. elim (step.0 h) [ inl same ↦ inl same | inr later ↦ inr (ih.0 later) ],
        λ h. step.1 (elim h [ inl same ↦ inl same | inr later ↦ inr (ih.1 later) ]),
      )

  sort-InOrder : (es : List (CidrEntry Prefix)) → InOrder net (sort (longer net) es)
  unfolding sort
  sort-InOrder [] = tt
  sort-InOrder (x ∷ xs) = insert-InOrder x (sort (longer net) xs) (sort-InOrder xs)

  sort-Sorts : Sorts net sort
  sort-Sorts = record { same = λ es e. Among-sort e es; ordered = sort-InOrder }

-- One byte stands for an address; a prefix is written as its bits and its address.
abbrev pub net8 : Netip ℕ (ℕ × ℕ)
net8 = record {
  addr_eq = λ a b. a == b;
  unmap = λ a. a;
  has_zone = λ a. false;
  is_4in6 = λ a. false;
  addr_string = λ a. a ∷ [];
  parse_addr = λ s. one s;
  prefix_addr = λ p. p.0;
  prefix_bits = λ p. p.1;
  prefix_from = λ a bits. (a, bits);
  masked = λ p. p;
  contains = λ p a. a / 2 ^ (8 - p.1) == p.0 / 2 ^ (8 - p.1);
  prefix_string = λ p. p.0 ∷ p.1 ∷ [];
  parse_prefix = λ s. two s;
  parse_mac = λ s. some s;
  mac_string = λ s. s;
}
  where
    one : Bytes → Option ℕ
    one (a ∷ []) = some a
    one _ = none

    two : Bytes → Option (ℕ × ℕ)
    two (a ∷ bits ∷ []) = some (a, bits)
    two _ = none

abbrev client : ℕ → Bytes → StoredClient
client id matcher = record { id = id; name = codes "c"; matcher = matcher; group_id = 2 }

abbrev stored_clients : List StoredClient
stored_clients =
    client 1 (192 ∷ 4 ∷ [])
    ∷ client 2 (200 ∷ 6 ∷ [])
    ∷ client 3 (201 ∷ [])
    ∷ client 4 (codes "mac:abcdef")
    ∷ []

abbrev groups : List Group
groups = (record { id = 2; name = codes "kids" }) ∷ []

abbrev pub registry : Registry ℕ (ℕ × ℕ)
registry = (reload net8 (sort net8) (some groups) (some stored_clients) (new_registry net8)).0

lookup-IsClient_example :
    IsClient net8 registry.leases registry.rows 202
      (lookup net8 (rebuild net8 (sort net8) registry) 202)
lookup-IsClient_example = lookup-IsClient net8 (sort net8) registry 202 (sort-Sorts net8)

abbrev leases : LeaseLookup ℕ
leases mac = if bytes_eq mac (codes "abcdef") then some 205 else none
