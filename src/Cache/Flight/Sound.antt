-- ===== src/Cache/Flight/Sound.antt =====
-- The steps of Cache/Flight against the purges of internal/cache/cache.go.
use dnsaur.Prelude.{
  ℕ, ◌+◌, ◌<◌, ◌^◌, ◌≡◌, subst, sym, inl, inr, false, some, List, [], ◌∷◌, arith, is_empty, ◌==◌,
  Bool-cases,
}
use dnsaur.Prelude.Bytes.{Bytes}
use dnsaur.Dns.{Msg}
use dnsaur.Cache.Table.{Key, Entry, key_eq, find}
use dnsaur.Cache.{Cache, get, normal_suffixes}
use dnsaur.Cache.Keeps.{IsValid, get-IsValid, put-IsValid, purge-IsValid}
use dnsaur.Cache.Reads.{find-get}
use dnsaur.Cache.Purge.{find-purge}
use dnsaur.Cache.Flight.{
  Flight, World, Step, Reach, begins, lands, looks, sweeps, here, next, land, look, sweep,
  AfterPurges, Ended, IsSound,
}
use dnsaur.Cache.Flight.Epochs.{find-put-old, epoch-put, epoch-get, epoch-purge}

AfterPurges-Ended :
    (name : Bytes) (ep : ℕ) (ps : List (ℕ × List Bytes)) → Ended ep ps → AfterPurges name ep ps
AfterPurges-Ended name ep [] h = tt
AfterPurges-Ended name ep ((at, norm) ∷ ps) h = (λ _. h.0, AfterPurges-Ended name ep ps h.1)

Ended-suc : (ep : ℕ) (ps : List (ℕ × List Bytes)) → Ended ep ps → Ended (ep + 1) ps
Ended-suc ep [] h = tt
Ended-suc ep ((at, norm) ∷ ps) h = (omega (arith, h.0), Ended-suc ep ps h.1)

land-clean :
    (now : ℕ) (f : Flight) (msg : Msg) (ttl : ℕ) (w : World) (k : Key) (e : Entry)
    → IsSound w
    → find k (land now f msg ttl w).cache.entries ≡ some e
    → AfterPurges k.name ((land now f msg ttl w).origin k) w.purges
land-clean now f msg ttl w k e s h =
    elim (find-put-old now f.key msg ttl f.epoch w.cache k e s.valid h) [
      | inl (same, own) ↦
          let o : (land now f msg ttl w).origin k ≡ f.epoch = ground (arith, same, own) in
          subst (λ n. AfterPurges k.name n w.purges) (sym o)
            (AfterPurges-Ended k.name f.epoch w.purges (subst (λ n. Ended n w.purges) same s.ended))
      | inr old ↦ elim (Bool-cases (w.cache.epoch == f.epoch)) [
        | inr moved ↦
            let o : (land now f msg ttl w).origin k ≡ w.origin k = ground (arith, moved) in
            subst (λ n. AfterPurges k.name n w.purges) (sym o) (s.clean k e old)
        | inl same ↦ elim (Bool-cases (key_eq f.key k)) [
          | inl own ↦
              let o : (land now f msg ttl w).origin k ≡ w.cache.epoch = ground (arith, same, own) in
              subst (λ n. AfterPurges k.name n w.purges) (sym o)
                (AfterPurges-Ended k.name w.cache.epoch w.purges s.ended)
          | inr other ↦
              let o : (land now f msg ttl w).origin k ≡ w.origin k = ground (arith, same, other) in
              subst (λ n. AfterPurges k.name n w.purges) (sym o) (s.clean k e old)
        ]
      ]
    ]

land-IsSound :
    (now : ℕ) (f : Flight) (msg : Msg) (ttl : ℕ) (w : World)
    → IsSound w
    → IsSound (land now f msg ttl w)
land-IsSound now f msg ttl w s = record {
  valid = put-IsValid now f.key msg ttl f.epoch w.cache s.valid;
  ended = subst (λ n. Ended n w.purges) (sym (epoch-put now f.key msg ttl f.epoch w.cache)) s.ended;
  clean = λ k e h. land-clean now f msg ttl w k e s h;
}

get-old :
    (now : ℕ) (k : Key) (c : Cache) (j : Key) (e : Entry)
    → IsValid c
    → find j (get now k c).2.entries ≡ some e
    → find j c.entries ≡ some e
get-old now k c j e v h = ground (arith, find-get now k c j v)

look-IsSound : (now : ℕ) (k : Key) (w : World) → IsSound w → IsSound (look now k w)
look-IsSound now k w s = record {
  valid = get-IsValid now k w.cache s.valid;
  ended = subst (λ n. Ended n w.purges) (sym (epoch-get now k w.cache)) s.ended;
  clean = λ j e h. s.clean j e (get-old now k w.cache j e s.valid h);
}

sweep-IsSound :
    (suffixes : List Bytes) (w : World)
    → is_empty (normal_suffixes suffixes) ≡ false
    → w.cache.epoch + 1 < 2 ^ 64
    → IsSound w
    → IsSound (sweep suffixes w)
sweep-IsSound suffixes w filled small s = record {
  valid = purge-IsValid suffixes w.cache s.valid;
  ended =
      subst (λ n. Ended n (sweep suffixes w).purges)
        (sym (epoch-purge suffixes w.cache filled small))
        (omega arith, Ended-suc w.cache.epoch w.purges s.ended);
  clean = λ k e h.
      let swept = find-purge suffixes w.cache k s.valid in
      (λ hit. absurd (ground arith), s.clean k e (ground arith));
}

Step-IsSound : {w w' : World} → Step w w' → IsSound w → IsSound w'
Step-IsSound {w} (begins k e) s =
    subst IsSound (sym e) (record { valid = s.valid; ended = s.ended; clean = s.clean })
Step-IsSound {w} (lands now f msg ttl air e) s =
    subst IsSound (sym e) (land-IsSound now f msg ttl w s)
Step-IsSound {w} (looks now k e) s = subst IsSound (sym e) (look-IsSound now k w s)
Step-IsSound {w} (sweeps suffixes filled small e) s =
    subst IsSound (sym e) (sweep-IsSound suffixes w filled small s)

-- Whatever the order in which lookups begin and land, entries are read and suffixes are purged, from a
-- sound state on: the table stays well formed, and every entry at or under a suffix that was ever
-- purged comes from a lookup that began after that purge.
pub Reach-IsSound : {w w' : World} → IsSound w → Reach w w' → IsSound w'
Reach-IsSound s here = s
Reach-IsSound s (next r st) = Step-IsSound st (Reach-IsSound s r)
