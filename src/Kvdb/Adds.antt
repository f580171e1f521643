-- ===== src/Kvdb/Adds.antt =====
-- kvdb_i8_add against the map from hashes to entries.
use chromatron.Base.{
  ℕ, ◌+◌, ◌≤◌, ◌<◌, ◌≡◌, ◌≢◌, refl, sym, ◌∙◌, ap, Bool, true, false, not, ◌&&◌, ◌||◌, Option, none,
  some, List, ltb, leb, ◌==◌, if◌then◌else◌, length, arith, inl, inr, dec_lt, ℕ_discrete,
}
use chromatron.Base.Sorting.{count, count-le}
use chromatron.Kvdb.{Db, Entry, Status, ok, not_enough_space, add, insert, grow, set_data}
use chromatron.Kvdb.View.{view, has, occupied, IsSound, IsUnique}
use chromatron.Kvdb.Entries.{count-grow, lookup-grow, length-grow}
use chromatron.Kvdb.Operations.{IsReady, answer, changed, searches}
use chromatron.Kvdb.Sets.{unchanged, set_data_lem, set_data_missing, with_word}
use chromatron.Kvdb.Changes.{cold-IsFresh}
use chromatron.Kvdb.Inserted.{new_entry, insert_lem}

abbrev is_some : Option (ℕ → Entry) → Bool
is_some none = false
is_some (some f) = true

-- There is room for one more entry, at once or behind a reallocation.
abbrev pub has_room : Option (ℕ → Entry) → Db → Bool
has_room fresh db = ltb db.kv_count 128 && (ltb db.kv_count (length db.entries) || is_some fresh)

abbrev pub add_answer : Bool → Option Entry → Status
add_answer room (some e) = ok
add_answer room none = if room then ok else not_enough_space

-- what the map has of a hash behind kvdb_i8_add
abbrev pub added : Bool → Entry → Option Entry → Option Entry
added room new (some e) = some (record e { data_word = new.data_word })
added room new none = if room then some new else none

-- kvdb_i8_add behind a kvdb_i8_set that did not find the hash
abbrev adding : Option (ℕ → Entry) → Entry → Db → Option (Status × Db)
adding fresh new db =
    if leb 128 db.kv_count
    then some (not_enough_space, db)
    else if leb (length db.entries) db.kv_count
    then elim fresh [
      | none ↦ some (not_enough_space, db)
      | some f ↦ insert new (record db { entries = grow f db.entries })
    ]
    else insert new db

module _ (db : Db) (r : IsReady db) (new : Entry) (key : new.hash ≢ 0)
    (absent : view db.entries new.hash ≡ none) where
  -- what kvdb_i8_add leaves of a new hash
  abbrev Adds : Option (ℕ → Entry) → Type 0
  Adds fresh =
      let room : Bool = has_room fresh db in
      (db' : Db) × (adding fresh new db ≡ some (add_answer room none, db'))
      × IsSound db'.entries db'.kv_count
      × ((k : ℕ) → view db'.entries k ≡ changed new.hash (added room new none) db.entries k)
      × (db.cached_index ≡ none → IsReady db')

  refused :
      (fresh : Option (ℕ → Entry))
      → has_room fresh db ≡ false
      → adding fresh new db ≡ some (not_enough_space, db)
      → Adds fresh
  refused fresh room e =
      (db, rw room e, r.sound, λ k. rw room (unchanged db.entries new.hash k absent), λ cold. r)

  inserted :
      (fresh : Option (ℕ → Entry)) (es : List Entry)
      → has_room fresh db ≡ true
      → adding fresh new db ≡ insert new (record db { entries = es })
      → IsUnique es
      → db.kv_count ≡ count occupied es
      → ((k : ℕ) → view es k ≡ view db.entries k)
      → db.kv_count < 128
      → db.kv_count < length es
      → Adds fresh
  inserted fresh es room e unique counted same few free =
      let (es', runs, sound, seen) =
        insert_lem (record db { entries = es }) new unique counted key (same new.hash ∙ absent) few
          free in
      let db' : Db = record db { entries = es'; kv_count = db.kv_count + 1 } in
      (
        db',
        rw room (e ∙ runs),
        sound,
        λ k. rw room (seen k ∙ ap (λ v. if k == new.hash then some new else v) (same k)),
        λ cold. record { alive = r.alive; sound = sound; fresh = cold-IsFresh db' cold },
      )

  -- with all places taken
  adding_tight :
      (fresh : Option (ℕ → Entry))
      → db.kv_count < 128
      → length db.entries ≤ db.kv_count
      → Adds fresh
  unfolding view
  adding_tight none few tight =
      let test : leb 128 db.kv_count ≡ false = ground arith in
      let test' : leb (length db.entries) db.kv_count ≡ true = ground arith in
      refused none (ground arith) (rw (test, test') refl)
  adding_tight (some f) few tight =
      let test : leb 128 db.kv_count ≡ false = ground arith in
      let test' : leb (length db.entries) db.kv_count ≡ true = ground arith in
      let s = r.sound in
      inserted (some f) (grow f db.entries) (ground arith) (rw (test, test') refl)
        (λ k nz.
          omega (arith, s.unique k nz, count-grow f (has k) db.entries (λ e z. ground arith)))
        (s.counted ∙ sym (count-grow f occupied db.entries (λ e z. ground arith)))
        (λ k. elim (ℕ_discrete k 0) [
          | yes free ↦ ground arith
          | no nz ↦ ground (arith, lookup-grow f k db.entries nz)
        ])
        few (omega (arith, s.counted, count-le occupied db.entries, length-grow f db.entries))

  adding_lem : (fresh : Option (ℕ → Entry)) → Adds fresh
  adding_lem fresh = elim (dec_lt db.kv_count 128) [
    | no full ↦
        let test : leb 128 db.kv_count ≡ true = ground arith in
        refused fresh (ground arith) (rw test refl)
    | yes few ↦ elim (dec_lt db.kv_count (length db.entries)) [
      | no tight ↦ adding_tight fresh few (omega arith)
      | yes free ↦
          let test : leb 128 db.kv_count ≡ false = ground arith in
          let test' : leb (length db.entries) db.kv_count ≡ false = ground arith in
          inserted fresh db.entries (ground arith) (rw (test, test') refl) r.sound.unique
            r.sound.counted (λ k. refl) few free
    ]
  ]

unless_live :
    {A : Type 0} {y z : A} (b : Bool) (x : A) → b ≡ true → y ≡ z → (if not b then x else y) ≡ z
unless_live true x e f = f
unless_live false x e f = absurd (ground arith)

-- kvdb_i8_add of a hash that is not 0, on a database that is ready: live, with its entries in order, counted and each
-- hash but 0 there once, and with a cache that is empty or leads to the entry of its hash. Where the map has an entry, it gets the data. Else
-- the map gets the new entry, where there are fewer than KVDB_MAX_ENTRIES and a free place or memory for more. Where there
-- are not, the answer is KVDB_STATUS_NOT_ENOUGH_SPACE and the map stays. The array is in order again. The
-- database is ready again where the cache was empty before; otherwise nothing is said of the cache, which the
-- code leaves as it is while the sort moves the entries.
pub add_lem :
    (db : Db)
    → IsReady db
    → (notifier : Bool) (fresh : Option (ℕ → Entry)) (h w tag : ℕ) → h ≢ 0
    → let e : Option Entry = view db.entries h in
      let room : Bool = has_room fresh db in
      (db' : Db) × (add notifier fresh h w tag db ≡ some (add_answer room e, db'))
      × IsSound db'.entries db'.kv_count
      × ((k : ℕ) → view db'.entries k ≡ changed h (added room (new_entry h w tag) e) db.entries k)
      × (db.cached_index ≡ none → IsReady db')
unfolding add
add_lem db r notifier fresh h w tag key =
    let test : (h == 0) ≡ false = ground arith in
    elim (searches db r h) [
      | inl (e, absent) ↦
          let (db', runs, sound, seen, ready) =
            adding_lem db r (new_entry h w tag) key absent fresh in
          (
            db',
            rw (add, set_data_missing db r notifier h w key e, absent, test)
                (unless_live db.live (some (not_enough_space, db)) r.alive runs),
            sound,
            λ k. rw absent (seen k),
            ready,
          )
      | inr (i, e, lt, there, here, nz) ↦
          let (db', sets, ready, seen, notices) = set_data_lem db r notifier h w key in
          let hit : set_data notifier h w db ≡ some (ok, db') =
            sets ∙ ap (λ v. some (answer v, db')) here in
          (
            db',
            rw (add, hit) (ap (λ v. some (add_answer (has_room fresh db) v, db')) (sym here)),
            ready.sound,
            λ k.
                seen k
                ∙ ap (λ v. changed h (with_word w v) db.entries k) here
                ∙ ap (λ v. changed h (added (has_room fresh db) (new_entry h w tag) v) db.entries k)
                    (sym here),
            λ cold. ready,
          )
    ]
