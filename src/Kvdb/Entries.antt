-- ===== src/Kvdb/Entries.antt =====
-- What the writes to the array do to the map that it stands for.
use Prim.Native.Nat.{zero, suc}
use chromatron.Base.{
  ℕ, ◌+◌, ◌-◌, ◌≤◌, ◌<◌, ◌%◌, ◌^◌, ◌≡◌, ◌≢◌, refl, sym, ap, Bool, false, not, ◌&&◌, Option, none,
  some, List, [], ◌∷◌, ◌==◌, if◌then◌else◌, length, get_or, set, arith, Bool-cases, inl, inr,
}
use chromatron.Base.Sorting.{count, fold}
use chromatron.Kvdb.{Entry, blank, fill_free, grow, wipe}
use chromatron.Kvdb.View.{hash_at, lookup, pick, has, occupied}

-- a write to an entry that keeps its hash
pub hash_at-set :
    (f : Entry) (es : List Entry) (i j : ℕ)
    → hash_at es i ≡ f.hash
    → hash_at (set es i f) j ≡ hash_at es j
hash_at-set f [] i j e = refl
hash_at-set f (d ∷ es) zero zero e = sym e
hash_at-set f (d ∷ es) zero (suc j) e = refl
hash_at-set f (d ∷ es) (suc i) zero e = refl
hash_at-set f (d ∷ es) (suc i) (suc j) e = hash_at-set f es i j e

-- A write changes a count by the entry that goes and the entry that comes.
pub count-set :
    (p : Entry → Bool) (f : Entry) (es : List Entry) (i : ℕ)
    → i < length es
    → count p (set es i f) + (if p (get_or es i blank) then 1 else 0)
      ≡ count p es + (if p f then 1 else 0)
unfolding count
count-set p f [] i lt = absurd (omega arith)
count-set p f (d ∷ es) zero lt = omega arith
count-set p f (d ∷ es) (suc i) lt = omega (arith, count-set p f es i (omega arith))

-- The map does not change at a hash that neither entry has.
pub lookup-set_other :
    (f : Entry) (h : ℕ) (es : List Entry) (i : ℕ)
    → hash_at es i ≢ h
    → f.hash ≢ h
    → lookup h (set es i f) ≡ lookup h es
unfolding fold
lookup-set_other f h [] i old new = refl
lookup-set_other f h (d ∷ es) zero old new = ground arith
lookup-set_other f h (d ∷ es) (suc i) old new = ground (arith, lookup-set_other f h es i old new)

-- Where no entry has a hash, it is not in the map.
pub lookup_gone : (h : ℕ) (es : List Entry) → count (has h) es ≡ 0 → lookup h es ≡ none
unfolding count fold
lookup_gone h [] e = refl
lookup_gone h (d ∷ es) e = ground (arith, lookup_gone h es)

-- Where a hash is not in the map, no entry has it.
pub count_none : (h : ℕ) (es : List Entry) → lookup h es ≡ none → count (has h) es ≡ 0
unfolding count fold
count_none h [] e = refl
count_none h (d ∷ es) e = ground (arith, count_none h es)

module _ (new : Entry) (key : new.hash ≢ 0) where
  -- The loop adds where there is a free entry.
  pub count-fill_free :
      (p : Entry → Bool) (es : List Entry)
      → ((e : Entry) → e.hash ≡ 0 → p e ≡ false)
      → count occupied es < length es
      → count p (fill_free new es) ≡ count p es + (if p new then 1 else 0)
  unfolding count fill_free
  count-fill_free p [] free room = absurd (omega arith)
  count-fill_free p (d ∷ es) free room = elim (Bool-cases (d.hash == 0)) [
    | inl empty ↦ ground (arith, free d)
    | inr full ↦ ground (arith, count-fill_free p es free)
  ]

  pub lookup-fill_free_other :
      (h : ℕ) (es : List Entry) → h ≢ 0 → new.hash ≢ h → lookup h (fill_free new es) ≡ lookup h es
  unfolding fold fill_free
  lookup-fill_free_other h [] nz ne = refl
  lookup-fill_free_other h (d ∷ es) nz ne = ground (arith, lookup-fill_free_other h es nz ne)

  pub lookup-fill_free_self :
      (es : List Entry)
      → lookup new.hash es ≡ none
      → count occupied es < length es
      → lookup new.hash (fill_free new es) ≡ some new
  unfolding fold fill_free count
  lookup-fill_free_self [] absent room = absurd (omega arith)
  lookup-fill_free_self (d ∷ es) absent room = elim (Bool-cases (d.hash == 0)) [
    | inl empty ↦ ground arith
    | inr full ↦ ground (arith, lookup-fill_free_self es)
  ]

-- Free entries behind the others do not count.
module _ (fresh : ℕ → Entry) where
  pub count-grow :
      (p : Entry → Bool) (es : List Entry)
      → ((e : Entry) → e.hash ≡ 0 → p e ≡ false)
      → count p (grow fresh es) ≡ count p es
  unfolding count grow
  count-grow p [] free = ground (
    arith,
    free (record (fresh 0) { hash = 0 }) refl,
    free (record (fresh 1) { hash = 0 }) refl,
    free (record (fresh 2) { hash = 0 }) refl,
    free (record (fresh 3) { hash = 0 }) refl,
  )
  count-grow p (d ∷ es) free = omega (arith, count-grow p es free)

  pub lookup-grow : (h : ℕ) (es : List Entry) → h ≢ 0 → lookup h (grow fresh es) ≡ lookup h es
  unfolding fold grow
  lookup-grow h [] nz = ground arith
  lookup-grow h (d ∷ es) nz = ap (pick h d) (lookup-grow h es nz)

  pub length-grow : (es : List Entry) → length (grow fresh es) ≡ length es + 4
  unfolding grow
  length-grow [] = omega arith
  length-grow (d ∷ es) = omega (arith, length-grow es)

-- the entries of a tag gone
abbrev pub untagged : ℕ → Option Entry → Option Entry
untagged tag none = none
untagged tag (some e) = if e.tag == tag then none else some e

module _ (tag : ℕ) where
  pub count-wipe :
      (h : ℕ) (es : List Entry) (n : ℕ) → h ≢ 0 → count (has h) (wipe tag es n).0 ≤ count (has h) es
  unfolding count wipe
  count-wipe h [] n nz = omega arith
  count-wipe h (d ∷ es) n nz =
      ground (arith, count-wipe h es n nz, count-wipe h es ((n + 2 ^ 16 - 1) % 2 ^ 16) nz)

  pub occupied-wipe :
      (es : List Entry) (n : ℕ) → count occupied (wipe tag es n).0 ≤ count occupied es
  unfolding count wipe
  occupied-wipe [] n = omega arith
  occupied-wipe (d ∷ es) n =
      ground (arith, occupied-wipe es n, occupied-wipe es ((n + 2 ^ 16 - 1) % 2 ^ 16))

  -- The count follows the entries, of which there are `rest` more in front.
  pub counted-wipe :
      (es : List Entry) (n rest : ℕ)
      → n ≡ rest + count occupied es
      → n < 2 ^ 16
      → (wipe tag es n).1 ≡ rest + count occupied (wipe tag es n).0
  unfolding count wipe
  counted-wipe [] n rest e lt = e
  counted-wipe (d ∷ es) n rest e lt = elim (Bool-cases (not (d.hash == 0) && (d.tag == tag))) [
    | inl gone ↦
        let less : (n + 2 ^ 16 - 1) % 2 ^ 16 ≡ n - 1 = ground arith in
        ground (arith, counted-wipe es (n - 1) rest)
    | inr stays ↦ elim (Bool-cases (d.hash == 0)) [
      | inl empty ↦ ground (arith, counted-wipe es n rest)
      | inr full ↦ ground (arith, counted-wipe es n (rest + 1))
    ]
  ]

  pub lookup-wipe :
      (h : ℕ) (es : List Entry) (n : ℕ)
      → h ≢ 0
      → count (has h) es ≤ 1
      → lookup h (wipe tag es n).0 ≡ untagged tag (lookup h es)
  unfolding count fold wipe
  lookup-wipe h [] n nz one = refl
  lookup-wipe h (d ∷ es) n nz one =
      let rest : count (has h) es ≤ 1 = ground (arith, one) in
      let absent : d.hash ≡ h → lookup h es ≡ none =
        λ same. lookup_gone h es (ground (arith, one, same)) in
      elim (Bool-cases (not (d.hash == 0) && (d.tag == tag))) [
        | inl gone ↦
            let ih = lookup-wipe h es ((n + 2 ^ 16 - 1) % 2 ^ 16) nz rest in
            rw (wipe, gone) (ground (arith, ih, absent))
        | inr stays ↦
            let ih = lookup-wipe h es n nz rest in rw (wipe, stays) (ground (arith, ih, absent))
      ]
