-- ===== src/Zones/Notifier/Insertions.antt =====
-- What the insertions of `Reconcile` in internal/store/notifies.go add.
use dnsaur.Prelude.{
  ℕ, ◌+◌, ◌≡◌, refl, sym, ap, ◌∙◌, Bool, true, false, ◌&&◌, ◌||◌, List, [], ◌∷◌, ◌++◌, arith,
  Bool-cases, inl, inr, keep, append_assoc, append-nil, All,
}
use dnsaur.Prelude.Bytes.{Bytes, bytes_eq, bytes_eq→eq}
use dnsaur.Zones.Notifier.{ZoneNotify, Queue, listed, targets_of, insert_missing}

module _ {A : Type 0} where
  pub keep-append : (p : A → Bool) (xs ys : List A) → keep p (xs ++ ys) ≡ keep p xs ++ keep p ys
  keep-append p [] ys = refl
  keep-append p (x ∷ xs) ys = elim (Bool-cases (p x)) [
    | inl e ↦ rw e (ap (λ l. x ∷ l) (keep-append p xs ys))
    | inr e ↦ rw e (keep-append p xs ys)
  ]

  keep_all : (p : A → Bool) (xs : List A) → All (λ x. p x ≡ true) xs → keep p xs ≡ xs
  keep_all p [] h = refl
  keep_all p (x ∷ xs) (h, hs) = rw h (ap (λ l. x ∷ l) (keep_all p xs hs))

  keep_none : (p : A → Bool) (xs : List A) → All (λ x. p x ≡ false) xs → keep p xs ≡ []
  keep_none p [] h = refl
  keep_none p (x ∷ xs) (h, hs) = rw h (keep_none p xs hs)

  pub keep-keep :
      (p q r : A → Bool) (xs : List A)
      → ((x : A) → (p x && q x) ≡ (r x && p x))
      → keep p (keep q xs) ≡ keep r (keep p xs)
  keep-keep p q r [] h = refl
  keep-keep p q r (x ∷ xs) h = elim (Bool-cases (p x)) [
    | inl ep ↦ elim (Bool-cases (q x)) [
      | inl eq ↦
          let er : r x ≡ true = ground (arith, h x, ep, eq) in
          rw (eq, ep, er) (ap (λ l. x ∷ l) (keep-keep p q r xs h))
      | inr eq ↦
          let er : r x ≡ false = ground (arith, h x, ep, eq) in
          rw (eq, ep, er) (keep-keep p q r xs h)
    ]
    | inr ep ↦ elim (Bool-cases (q x)) [
      | inl eq ↦ rw (eq, ep) (keep-keep p q r xs h)
      | inr eq ↦ rw (eq, ep) (keep-keep p q r xs h)
    ]
  ]

pub listed-append :
    (t : Bytes) (xs ys : List Bytes) → listed t (xs ++ ys) ≡ (listed t xs || listed t ys)
listed-append t [] ys = refl
listed-append t (x ∷ xs) ys =
    ap (λ b. bytes_eq x t || b) (listed-append t xs ys) ∙ assoc (bytes_eq x t) _ _
  where
    assoc : (a b c : Bool) → (a || (b || c)) ≡ ((a || b) || c)
    assoc a b c = ground arith

pub targets_of-append :
    (xs ys : List ZoneNotify) → targets_of (xs ++ ys) ≡ targets_of xs ++ targets_of ys
targets_of-append [] ys = refl
targets_of-append (x ∷ xs) ys = ap (λ l. x.target ∷ l) (targets_of-append xs ys)

pub listed-keep :
    (t : Bytes) (targets hs : List Bytes)
    → listed t (keep (λ t. listed t targets) hs) ≡ (listed t targets && listed t hs)
listed-keep t targets [] = ground arith
listed-keep t targets (x ∷ hs) = elim (Bool-cases (listed x targets)) [
  | inl kept ↦ elim (Bool-cases (bytes_eq x t)) [
    | inl same ↦
        let there : listed t targets ≡ true =
          ap (λ y. listed y targets) (sym (bytes_eq→eq x t same)) ∙ kept in
        rw (kept, same, there) refl
    | inr other ↦ rw (kept, other) (listed-keep t targets hs)
  ]
  | inr cut ↦ elim (Bool-cases (bytes_eq x t)) [
    | inl same ↦
        let lacks : listed t targets ≡ false =
          ap (λ y. listed y targets) (sym (bytes_eq→eq x t same)) ∙ cut in
        rw (cut, same, lacks) (listed-keep t targets hs ∙ ap (λ b. b && listed t hs) lacks)
    | inr other ↦ rw (cut, other) (listed-keep t targets hs)
  ]
]

-- What the insertions add: rows of the zone, for the targets that are not in the table.
abbrev Adds : ℕ → List Bytes → List Bytes → Queue → Queue → Type 0
Adds zone targets have q q' =
    (made : List ZoneNotify) × (q'.rows ≡ q.rows ++ made)
    × All (λ r. r.zone_id ≡ zone) made
    × ((t : Bytes)
        → (listed t (targets_of made) || listed t have) ≡ (listed t targets || listed t have))

pub insert_missing-Adds :
    (zone now : ℕ) (targets have : List Bytes) (q : Queue)
    → Adds zone targets have q (insert_missing zone now targets have q)
unfolding insert_missing
insert_missing-Adds zone now [] have q = ([], sym (append-nil q.rows), tt, λ t. refl)
insert_missing-Adds zone now (t ∷ targets) have q = elim (Bool-cases (listed t have)) [
  | inl seen ↦
      let (made, rows, own, same) = insert_missing-Adds zone now targets have q in
      rw (insert_missing, seen) (made, rows, own, λ x. same x ∙ known x seen)
  | inr fresh ↦
      let (made, rows, own, same) =
        insert_missing-Adds zone now targets (t ∷ have)
          (record { rows = q.rows ++ row ∷ []; next_id = q.next_id + 1 }) in
      rw (insert_missing, fresh)
        (
          row ∷ made,
          rows ∙ append_assoc q.rows (row ∷ []) made,
          (refl, own),
          λ x. shuffle (bytes_eq t x) _ _ _ (same x),
        )
]
  where
    row : ZoneNotify
    row = record {
      id = q.next_id;
      zone_id = zone;
      target = t;
      pending_serial = 0;
      notified_serial = 0;
      notified_at = 0;
      attempts = 0;
      next_attempt_at = 0;
      last_error = [];
      created_at = now;
    }

    known :
        (x : Bytes)
        → listed t have ≡ true
        → (listed x targets || listed x have)
          ≡ ((bytes_eq t x || listed x targets) || listed x have)
    known x seen = elim (Bool-cases (bytes_eq t x)) [
      | inl e ↦
          rw (e, sym (ap (λ y. listed y have) (bytes_eq→eq t x e)) ∙ seen)
            (all_true (listed x targets))
      | inr e ↦ rw e refl
    ]
      where
        all_true : (b : Bool) → (b || true) ≡ true
        all_true b = ground arith

    shuffle :
        (e m g h : Bool) → (m || (e || h)) ≡ (g || (e || h)) → ((e || m) || h) ≡ ((e || g) || h)
    shuffle e m g h eq = ground (arith, eq)
