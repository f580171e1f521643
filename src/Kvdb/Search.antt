-- ===== src/Kvdb/Search.antt =====
-- _kvdb_i16_search_hash ends, and finds an entry where there is one.
use Prim.Native.Nat.{zero, suc}
use chromatron.Base.{
  ℕ, ◌+◌, ◌-◌, ◌/◌, ◌≤◌, ◌<◌, ◌≡◌, ◌≢◌, refl, ◌∙◌, ap, true, false, Option, none, some, List, ltb,
  ◌==◌, length, arith, Option-cases, inl, inr, ◌⊎◌, dec_lt, ℕ_discrete,
}
use chromatron.Kvdb.{Db, Entry, probe, search, cache_hit, keep_found}
use chromatron.Kvdb.View.{hash_at, IsDescending, IsFresh}

-- what an answer says of the entries
abbrev Answers : ℕ → List Entry → Option ℕ → Type 0
Answers h es none = (i : ℕ) → i < length es → hash_at es i ≢ h
Answers h es (some i) = (i < length es) × (hash_at es i ≡ h)

module _ (h : ℕ) (es : List Entry) (sorted : IsDescending es) where
  -- The search between two indices ends with a right answer, where larger hashes stand in front and
  -- smaller ones behind.
  probe_lem :
      (fuel first end : ℕ)
      → end < fuel + first
      → first ≤ end
      → end ≤ length es
      → ((i : ℕ) → i < first → i < length es → h < hash_at es i)
      → ((i : ℕ) → end ≤ i → i < length es → hash_at es i < h)
      → (r : Option ℕ) × (probe fuel h es first end ≡ some r) × Answers h es r
  unfolding probe
  probe_lem zero first end enough ordered le above below = absurd (omega arith)
  probe_lem (suc fuel) first end enough ordered le above below =
      let middle : ℕ = (first + end - 1) / 2 in
      let here : ℕ = hash_at es middle in
      elim (dec_lt first end) [
        | no empty ↦
            let test : ltb first end ≡ false = ground arith in
            (
              none,
              rw (probe, test) refl,
              λ i lt e. elim (dec_lt i first) [
                | yes front ↦ absurd (omega (arith, above i front lt, e))
                | no back ↦ absurd (omega (arith, below i (omega arith) lt, e))
              ],
            )
        | yes more ↦
            let test : ltb first end ≡ true = ground arith in
            elim (dec_lt h here) [
              | yes large ↦
                  let left : ltb h here ≡ true = ground arith in
                  let (r, e, right) =
                    probe_lem fuel (middle + 1) end (omega arith) (omega arith) le
                      (λ i lt lt'. omega (arith, sorted i middle (omega arith) (omega arith)))
                      below in
                  (r, rw (probe, test, left) e, right)
              | no small ↦
                  let left : ltb h here ≡ false = ground arith in
                  elim (ℕ_discrete here h) [
                    | yes same ↦
                        let found : (here == h) ≡ true = ground arith in
                        (some middle, rw (probe, test, left, found) refl, (omega arith, same))
                    | no differ ↦
                        let found : (here == h) ≡ false = ground arith in
                        let (r, e, right) =
                          probe_lem fuel first middle (omega arith) (omega arith) (omega arith)
                            above (λ i le' lt. omega (arith, sorted middle i le' lt)) in
                        (r, rw (probe, test, left, found) e, right)
                  ]
            ]
      ]

module _ (db : Db) (h : ℕ) (key : h ≢ 0) (sorted : IsDescending db.entries)
    (fresh : IsFresh db) where
  -- no entry has the hash, and nothing changes
  abbrev pub Missing : Type 0
  Missing =
      (search h db ≡ some (none, db)) × ((i : ℕ) → i < length db.entries → hash_at db.entries i ≢ h)

  -- an entry has the hash, and the cache has its index
  abbrev pub Found : Type 0
  Found =
      (i : ℕ) × (search h db ≡ some (some i, record db { cached_index = some i; cached_hash = h }))
      × (i < length db.entries)
      × (hash_at db.entries i ≡ h)

  searched : cache_hit h db ≡ none → Missing ⊎ Found
  unfolding search keep_found
  searched cold =
      let (r, e, right) =
        probe_lem h db.entries sorted (length db.entries + 1) 0 (length db.entries) (omega arith)
          (omega arith) (omega arith) (λ i lt lt'. absurd (omega arith))
          (λ i le lt. absurd (omega arith)) in
      answer r e right
    where
      test : (h == 0) ≡ false
      test = ground arith

      answer :
          (r : Option ℕ)
          → probe (length db.entries + 1) h db.entries 0 (length db.entries) ≡ some r
          → Answers h db.entries r
          → Missing ⊎ Found
      answer none e right = inl (rw (search, test, cold, e) refl, right)
      answer (some i) e right = inr (i, rw (search, test, cold, e) refl, right.0, right.1)

  -- the cache where it answers
  hit_lem : (i : ℕ) → cache_hit h db ≡ some i → (db.cached_index ≡ some i) × (db.cached_hash ≡ h)
  unfolding cache_hit
  hit_lem i e = elim (Option-cases db.cached_index) [
    | inl empty ↦ absurd (ground (arith, empty, e))
    | inr (j, full) ↦ ground (arith, full, e)
  ]

  pub search_lem : Missing ⊎ Found
  unfolding search IsFresh
  search_lem = elim (Option-cases (cache_hit h db)) [
    | inl cold ↦ searched cold
    | inr (i, warm) ↦
        let (index, same) = hit_lem i warm in
        let test : (h == 0) ≡ false = ground arith in
        let (below, there) = fresh i index in
        inr (
          i,
          rw (search, test, warm) (ap (λ d. some (some i, d)) (recached index same)),
          below,
          there ∙ same,
        )
  ]
    where
      recached :
          {i : ℕ}
          → db.cached_index ≡ some i
          → db.cached_hash ≡ h
          → db ≡ record db { cached_index = some i; cached_hash = h }
      recached {i} index same =
          ap (λ c. record db { cached_index = c }) index
          ∙ ap (λ k. record db { cached_index = some i; cached_hash = k }) same
