-- ===== src/Kvdb/View.antt =====
-- The database as a map from hashes to entries, and the invariant of the array.
use Prim.Native.Nat.{zero, suc}
use chromatron.Base.{
  ℕ, ◌+◌, ◌*◌, ◌≤◌, ◌<◌, ◌≡◌, ◌≢◌, refl, Bool, not, Option, none, some, List, [], ◌∷◌, ◌==◌,
  if◌then◌else◌, length, get_or, arith,
}
use chromatron.Base.Sorting.{count, fold, IsInOrder, fold-sort_by, sort_by-IsSorting}
use chromatron.Kvdb.{Db, Entry, blank, smaller_first, sort}

abbrev pub hash_at : List Entry → ℕ → ℕ
hash_at es i = (get_or es i blank).hash

abbrev pub pick : ℕ → Entry → Option Entry → Option Entry
pick h e r = if e.hash == h then some e else r

-- the first entry of a hash
abbrev pub lookup : ℕ → List Entry → Option Entry
lookup h es = fold (pick h) none es

-- A hash of 0 marks a free entry and is no key.
unfoldable pub view : List Entry → ℕ → Option Entry
view es h = if h == 0 then none else lookup h es

abbrev pub has : ℕ → Entry → Bool
has h e = e.hash == h

abbrev pub occupied : Entry → Bool
occupied e = not (e.hash == 0)

abbrev pub IsDescending : List Entry → Type 0
IsDescending es = (i j : ℕ) → i ≤ j → j < length es → hash_at es j ≤ hash_at es i

abbrev pub IsUnique : List Entry → Type 0
IsUnique es = (h : ℕ) → h ≢ 0 → count (has h) es ≤ 1

-- The entries are in order, no hash stands twice, and `kv_count` is the number of entries.
pub record IsSound (es : List Entry) (n : ℕ) : Type 0 where
  pub sorted : IsDescending es
  pub unique : IsUnique es
  pub counted : n ≡ count occupied es
  pub small : n ≤ 128

-- The cache, where there is one, is right.
unfoldable pub IsFresh : Db → Type 0
IsFresh db =
    (i : ℕ)
    → db.cached_index ≡ some i
    → (i < length db.entries) × (hash_at db.entries i ≡ db.cached_hash)

head_largest :
    (e : Entry) (es : List Entry)
    → IsInOrder smaller_first (e ∷ es)
    → (j : ℕ) → j < length (e ∷ es)
    → hash_at (e ∷ es) j ≤ e.hash
unfolding smaller_first
head_largest e es o zero lt = omega arith
head_largest e [] o (suc j) lt = absurd (omega arith)
head_largest e (d ∷ es) o (suc j) lt =
    let next : d.hash ≤ e.hash = ground (arith, o.0) in
    omega (arith, next, head_largest d es o.1 j (omega arith))

pub IsInOrder-IsDescending : (es : List Entry) → IsInOrder smaller_first es → IsDescending es
IsInOrder-IsDescending [] o i j le lt = absurd (omega arith)
IsInOrder-IsDescending (e ∷ es) o zero j le lt = head_largest e es o j lt
IsInOrder-IsDescending (e ∷ es) o (suc i) zero le lt = absurd (omega arith)
IsInOrder-IsDescending (e ∷ []) o (suc i) (suc j) le lt = absurd (omega arith)
IsInOrder-IsDescending (e ∷ d ∷ es) o (suc i) (suc j) le lt =
    IsInOrder-IsDescending (d ∷ es) o.1 i j (omega arith) (omega arith)

count_at :
    (h : ℕ) (es : List Entry) (i : ℕ) → i < length es → hash_at es i ≡ h → 1 ≤ count (has h) es
unfolding count
count_at h [] i lt e = absurd (omega arith)
count_at h (d ∷ es) zero lt e = ground arith
count_at h (d ∷ es) (suc i) lt e = omega (arith, count_at h es i (omega arith) e)

-- The only entry of a hash is the one that is looked up.
pub lookup_at :
    (h : ℕ) (es : List Entry) (i : ℕ)
    → count (has h) es ≤ 1
    → i < length es
    → hash_at es i ≡ h
    → lookup h es ≡ some (get_or es i blank)
unfolding count fold
lookup_at h [] i one lt e = absurd (omega arith)
lookup_at h (d ∷ es) zero one lt e = ground arith
lookup_at h (d ∷ es) (suc i) one lt e = ground (arith, count_at h es i, lookup_at h es i)

pub lookup_absent :
    (h : ℕ) (es : List Entry) → ((i : ℕ) → i < length es → hash_at es i ≢ h) → lookup h es ≡ none
unfolding fold
lookup_absent h [] absent = refl
lookup_absent h (d ∷ es) absent =
    let first : d.hash ≢ h = absent 0 (omega arith) in
    ground (arith, lookup_absent h es (λ i lt. absent (suc i) (omega (arith, lt))), first)

-- _kvdb_v_sort ends, and the map is what it was.
pub sort_lem :
    (db : Db)
    → (es : List Entry) × (sort db ≡ some (record db { entries = es }))
      × IsDescending es
      × ((p : Entry → Bool) → count p es ≡ count p db.entries)
      × ((h : ℕ) → lookup h es ≡ lookup h db.entries)
unfolding sort smaller_first
sort_lem db =
    let n : ℕ = length db.entries in
    let (es, e, sorting) =
      sort_by-IsSorting smaller_first (λ x y out. ground arith) (n * n + 1) db.entries
        (omega arith) in
    (
      es,
      rw (sort, e) refl,
      IsInOrder-IsDescending es sorting.in_order,
      sorting.same,
      λ h.
          fold-sort_by smaller_first (pick h) none (λ x y b out. ground arith) (n * n + 1)
            db.entries es e,
    )
