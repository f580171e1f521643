-- ===== src/Kvdb/Operations.antt =====
-- kvdb_i8_get against the map from hashes to entries.
use chromatron.Base.{
  ℕ, ◌<◌, ◌≡◌, ◌≢◌, refl, Bool, true, false, Option, none, some, List, ◌==◌, if◌then◌else◌, length,
  get_or, arith, inl, inr, ◌⊎◌, ℕ_discrete,
}
use chromatron.Base.Sorting.{count}
use chromatron.Kvdb.{Db, init, Entry, Status, blank, smaller_first, search, get}
use chromatron.Kvdb.View.{
  hash_at, view, IsSound, IsFresh, IsInOrder-IsDescending, lookup_at, lookup_absent,
}
use chromatron.Kvdb.Search.{search_lem}

-- A database that was allocated, with its invariant and a right cache.
pub record IsReady (db : Db) : Type 0 where
  pub alive : db.live ≡ true
  pub sound : IsSound db.entries db.kv_count
  pub fresh : IsFresh db

-- A database without entries is ready where it was allocated.
pub init-IsReady : IsReady (init true)
unfolding init IsFresh count smaller_first
init-IsReady = record {
  alive = refl;
  sound = record {
    sorted =
        IsInOrder-IsDescending (init true).entries
          (refl, (refl, (refl, (refl, (refl, (refl, (refl, tt)))))));
    unique = λ h nz. ground arith;
    counted = refl;
    small = omega arith;
  };
  fresh = λ i e. absurd (ground arith);
}

abbrev pub answer : Option Entry → Status
answer none = Status.not_found
answer (some e) = Status.ok

abbrev pub word_of : Option Entry → ℕ
word_of none = 0
word_of (some e) = e.data_word

-- the map where the entry of one hash changes
abbrev pub changed : ℕ → Option Entry → List Entry → ℕ → Option Entry
changed h e es k = if k == h then e else view es k

pub view_missing :
    (es : List Entry) (h : ℕ) → ((i : ℕ) → i < length es → hash_at es i ≢ h) → view es h ≡ none
unfolding view
view_missing es h absent = ground (arith, lookup_absent h es absent)

pub view_found :
    (es : List Entry) (n h i : ℕ)
    → IsSound es n
    → h ≢ 0
    → i < length es
    → hash_at es i ≡ h
    → view es h ≡ some (get_or es i blank)
unfolding view
view_found es n h i s key lt e = ground (arith, lookup_at h es i (s.unique h key) lt e)

-- past the check of `handle`
pub when_live :
    {A : Type 0} {y z : A} (b : Bool) (x : A)
    → b ≡ true
    → y ≡ z
    → (elim b [ false ↦ x | true ↦ y ]) ≡ z
when_live true x e f = f
when_live false x e f = absurd (ground arith)

-- A search of any hash: it ends, and gives the index of the entry that the map has.
pub searches :
    (db : Db)
    → IsReady db
    → (h : ℕ)
    → ((search h db ≡ some (none, db)) × (view db.entries h ≡ none))
      ⊎ ((i : ℕ) × (search h db
            ≡ some (some i, record db { cached_index = some i; cached_hash = h }))
          × (i < length db.entries)
          × (hash_at db.entries i ≡ h)
          × (view db.entries h ≡ some (get_or db.entries i blank))
          × (h ≢ 0))
unfolding search view
searches db r h = elim (ℕ_discrete h 0) [
  | yes free ↦ inl (ground arith, ground arith)
  | no key ↦ elim (search_lem db h key r.sound.sorted r.fresh) [
    | inl (e, absent) ↦ inl (e, view_missing db.entries h absent)
    | inr (i, e, lt, there) ↦
        inr (i, e, lt, there, view_found db.entries db.kv_count h i r.sound key lt there, key)
  ]
]

pub cached-IsFresh :
    (db : Db) (i h : ℕ)
    → i < length db.entries
    → hash_at db.entries i ≡ h
    → IsFresh (record db { cached_index = some i; cached_hash = h })
unfolding IsFresh
cached-IsFresh db i h lt e j same = let z : j ≡ i = ground (arith, same) in rw z (lt, e)

-- kvdb_i8_get on a live and sound database with a cache that is empty or leads to the entry of
-- its hash, so not behind a kvdb_i8_add that left another cache, gives the status and the data of the entry that the map has, or KVDB_STATUS_NOT_FOUND and
-- data of 0. The map stays, and so does the invariant.
pub get_lem :
    (db : Db)
    → IsReady db
    → (h : ℕ)
    → let e : Option Entry = view db.entries h in
      (db' : Db) × (get h db ≡ some (answer e, some (word_of e), db'))
      × IsReady db'
      × ((k : ℕ) → view db'.entries k ≡ view db.entries k)
unfolding get
get_lem db r h = elim (searches db r h) [
  | inl (e, absent) ↦ (db, when_live db.live _ r.alive (rw (e, absent) refl), r, λ k. refl)
  | inr (i, e, lt, there, here, key) ↦ (
    record db { cached_index = some i; cached_hash = h },
    when_live db.live _ r.alive (rw (e, here) refl),
    record { alive = r.alive; sound = r.sound; fresh = cached-IsFresh db i h lt there },
    λ k. refl,
  )
]
