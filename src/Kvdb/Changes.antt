-- ===== src/Kvdb/Changes.antt =====
-- kvdb_i8_delete and kvdb_v_delete_tag against the map from hashes to entries.
use chromatron.Base.{
  ℕ, ◌+◌, ◌-◌, ◌≤◌, ◌<◌, ◌%◌, ◌^◌, ◌≡◌, ◌≢◌, refl, sym, ◌∙◌, ap, none, some, List, ◌==◌,
  if◌then◌else◌, length, get_or, set, arith, inl, inr, ℕ_discrete,
}
use chromatron.Base.Sorting.{count}
use chromatron.Kvdb.{Db, Entry, blank, delete, delete_tag, wipe}
use chromatron.Kvdb.View.{hash_at, lookup, view, has, occupied, IsSound, IsFresh, sort_lem}
use chromatron.Kvdb.Entries.{
  count-set, lookup-set_other, lookup_gone, count-wipe, counted-wipe, occupied-wipe, lookup-wipe,
  untagged,
}
use chromatron.Kvdb.Operations.{IsReady, answer, changed, searches, when_live}
use chromatron.Kvdb.Sets.{unchanged}

pub cold-IsFresh : (db : Db) → db.cached_index ≡ none → IsFresh db
unfolding IsFresh
cold-IsFresh db cold i e = absurd (ground (arith, cold, e))

-- the entries with one freed
module _ (es : List Entry) (n h i : ℕ) (s : IsSound es n) (lt : i < length es)
    (there : hash_at es i ≡ h) (key : h ≢ 0) where
  abbrev freed : List Entry
  freed = set es i (record (get_or es i blank) { hash = 0 })

  abbrev gone : Entry
  gone = record (get_or es i blank) { hash = 0 }

  fewer : count occupied freed + 1 ≡ n
  fewer = ground (arith, count-set occupied gone es i lt, s.counted, there)

  unique-freed : (k : ℕ) → k ≢ 0 → count (has k) freed ≤ 1
  unique-freed k nz = ground (arith, count-set (has k) gone es i lt, s.unique k nz)

  view-freed : (k : ℕ) → view freed k ≡ changed h none es k
  unfolding view
  view-freed k = elim (ℕ_discrete k 0) [
    | yes free ↦ ground arith
    | no nz ↦ elim (ℕ_discrete k h) [
      | yes same ↦
          let none_left : count (has h) freed ≡ 0 =
            ground (arith, count-set (has h) gone es i lt, s.unique h key, there) in
          ground (arith, ap (λ j. lookup j freed) same ∙ lookup_gone h freed none_left)
      | no differ ↦
          let other : hash_at es i ≢ k = λ e. differ (sym e ∙ there) in
          ground (arith, lookup-set_other gone k es i other (λ e. nz (sym e)))
    ]
  ]

-- kvdb_i8_delete on a live and sound database with a cache that is empty or leads to the entry of
-- its hash, so not behind a kvdb_i8_add that left another cache, gives KVDB_STATUS_OK where the map has an entry of the hash, which is then gone, and else
-- KVDB_STATUS_NOT_FOUND. No other entry changes, and the invariant stays.
pub delete_lem :
    (db : Db)
    → IsReady db
    → (h : ℕ)
    → (db' : Db) × (delete h db ≡ some (answer (view db.entries h), db'))
      × IsReady db'
      × ((k : ℕ) → view db'.entries k ≡ changed h none db.entries k)
unfolding delete view
delete_lem db r h = elim (searches db r h) [
  | inl (e, absent) ↦ (
    db,
    when_live db.live _ r.alive (rw (e, absent) refl),
    r,
    λ k. unchanged db.entries h k absent,
  )
  | inr (i, e, lt, there, here, key) ↦
      let n : ℕ = (db.kv_count + 2 ^ 16 - 1) % 2 ^ 16 in
      let less : n ≡ db.kv_count - 1 =
        omega (arith, fewer db.entries db.kv_count h i r.sound lt there key, r.sound.small) in
      let db1 : Db = record db {
        entries = freed db.entries db.kv_count h i r.sound lt there key;
        kv_count = n;
        cached_index = some i;
        cached_hash = h;
      } in
      let (es, sorts, sorted, same, found) = sort_lem db1 in
      let db2 : Db = record db1 { entries = es; cached_index = none } in
      (
        db2,
        when_live db.live _ r.alive (rw (e, here, sorts) refl),
        record {
          alive = r.alive;
          sound = record {
            sorted = sorted;
            unique = λ k nz. omega (
              arith,
              same (has k),
              unique-freed db.entries db.kv_count h i r.sound lt there key k nz,
            );
            counted =
                omega (
                  arith,
                  same occupied,
                  less,
                  fewer db.entries db.kv_count h i r.sound lt there key,
                );
            small = omega (arith, less, r.sound.small);
          };
          fresh = cold-IsFresh db2 refl;
        },
        λ k.
            ap (λ e. if k == 0 then none else e) (found k)
            ∙ view-freed db.entries db.kv_count h i r.sound lt there key k,
      )
]

-- kvdb_v_delete_tag removes the entries of a tag and no other, and the invariant stays.
pub delete_tag_lem :
    (db : Db)
    → IsReady db
    → (tag : ℕ)
    → (db' : Db) × (delete_tag tag db ≡ some db')
      × IsReady db'
      × ((k : ℕ) → view db'.entries k ≡ untagged tag (view db.entries k))
unfolding delete_tag view
delete_tag_lem db r tag =
    let wiped = wipe tag db.entries db.kv_count in
    let db1 : Db = record db { entries = wiped.0; kv_count = wiped.1; cached_index = none } in
    let (es, sorts, sorted, same, found) = sort_lem db1 in
    let db2 : Db = record db1 { entries = es } in
    let left : wiped.1 ≡ 0 + count occupied wiped.0 =
      counted-wipe tag db.entries db.kv_count 0 (omega (arith, r.sound.counted))
        (omega (arith, r.sound.small)) in
    (
      db2,
      when_live db.live _ r.alive sorts,
      record {
        alive = r.alive;
        sound = record {
          sorted = sorted;
          unique = λ k nz. omega (
            arith,
            same (has k),
            count-wipe tag k db.entries db.kv_count nz,
            r.sound.unique k nz,
          );
          counted = omega (arith, left, same occupied);
          small = omega (
            arith,
            left,
            r.sound.small,
            r.sound.counted,
            occupied-wipe tag db.entries db.kv_count,
          );
        };
        fresh = cold-IsFresh db2 refl;
      },
      λ k. elim (ℕ_discrete k 0) [
        | yes free ↦ ground arith
        | no nz ↦
            ground
              (arith, found k, lookup-wipe tag k db.entries db.kv_count nz (r.sound.unique k nz))
      ],
    )
