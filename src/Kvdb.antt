-- ===== src/Kvdb.antt =====
-- src/sapphireos/kvdb.c: the database of keys that programs add, an array of entries sorted by hash with a
-- cache of the last search. The file of names is left out. `none` is a loop that does not end.
mod Types
pub mod Search
pub mod View
pub mod Entries
pub mod Operations
pub mod Sets
pub mod Changes
pub mod Adds
pub mod Inserted
mod Tests
use Prim.Native.Nat.{zero, suc}
use chromatron.Base.{
  ℕ, ◌+◌, ◌-◌, ◌*◌, ◌/◌, ◌%◌, ◌^◌, Bool, true, false, not, ◌&&◌, Option, none, some, List, [], ◌∷◌,
  ◌++◌, ltb, leb, ◌==◌, if◌then◌else◌, length, get_or, set,
}
use chromatron.Base.Bytes.{◌>>=◌}
use chromatron.Base.Sorting.{sort_by}
unfoldable pub use chromatron.Kvdb.Types.*

-- The loop of _kvdb_i16_search_hash from `first` to `last`, which is `end - 1`: an index, or none.
unfoldable pub probe : ℕ → ℕ → List Entry → ℕ → ℕ → Option (Option ℕ)
probe zero hash es first end = none
probe (suc fuel) hash es first end =
    let middle : ℕ = (first + end - 1) / 2 in
    let entry : Entry = get_or es middle blank in
    elim (ltb first end) [
      | false ↦ some none
      | true ↦ elim (ltb hash entry.hash) [
        | true ↦ probe fuel hash es (middle + 1) end
        | false ↦ elim (entry.hash == hash) [
          | true ↦ some (some middle)
          | false ↦ probe fuel hash es first middle
        ]
      ]
    ]

unfoldable pub cache_hit : ℕ → Db → Option ℕ
cache_hit hash db = elim db.cached_index [
  | none ↦ none
  | some i ↦ if db.cached_hash == hash then some i else none
]

unfoldable pub keep_found : ℕ → Option ℕ → Db → Db
keep_found hash none db = db
keep_found hash (some i) db = record db { cached_index = some i; cached_hash = hash }

-- _kvdb_i16_search_hash
unfoldable pub search : ℕ → Db → Option (Option ℕ × Db)
search hash db = elim (hash == 0) [
  | true ↦ some (none, db)
  | false ↦ elim (cache_hit hash db) [
    | some i ↦ some (some i, db)
    | none ↦ do
      r ← probe (length db.entries + 1) hash db.entries 0 (length db.entries)
      some (r, keep_found hash r db)
  ]
]

-- the test of the sort, which puts the larger hash first
unfoldable pub smaller_first : Entry → Entry → Bool
smaller_first x y = ltb x.hash y.hash

-- _kvdb_v_sort
unfoldable pub sort : Db → Option Db
sort db = do
  es ← sort_by smaller_first (length db.entries * length db.entries + 1) db.entries
  some (record db { entries = es })

-- kvdb_i8_get_meta
unfoldable pub get_meta : ℕ → Db → Option (Status × Option Meta × Db)
get_meta hash db = elim db.live [
  | false ↦ some (not_enough_space, none, db)
  | true ↦ do
    (index, db1) ← search hash db
    elim index [
      | none ↦ some (not_found, some no_meta, db1)
      | some i ↦
          let entry : Entry = get_or db1.entries i blank in
          some (
            ok,
            some (record {
              hash = hash;
              count = 0;
              flags = entry.flags;
              kind = entry.kind;
              reserved = 0;
            }),
            db1,
          )
    ]
]

-- kvdb_i8_get, with what it writes to `*data`
unfoldable pub get : ℕ → Db → Option (Status × Option ℕ × Db)
get hash db = elim db.live [
  | false ↦ some (not_enough_space, none, db)
  | true ↦ do
    (index, db1) ← search hash db
    elim index [
      | none ↦ some (not_found, some 0, db1)
      | some i ↦ some (ok, some (get_or db1.entries i blank).data_word, db1)
    ]
]

-- The rest of kvdb_i8_set where the entry is found: the change, and the notice of it, with the meta data
-- that a second search gives.
unfoldable pub put : Bool → ℕ → ℕ → ℕ → Db → Option (Status × Db)
put notifier i hash word db =
    let entry : Entry = get_or db.entries i blank in
    let db1 : Db = record db { entries = set db.entries i (record entry { data_word = word }) } in
    if notifier && not (entry.data_word == word)
    then (do
      (status, meta, db2) ← get_meta hash db1
      m ← meta
      some (
        ok,
        record db2 { notices = record { hash = hash; meta = m; data_word = word } ∷ db2.notices },
      ))
    else some (ok, db1)

-- kvdb_i8_set, where `notifier` is whether the program has a kvdb_v_notify_set
unfoldable pub set_data : Bool → ℕ → ℕ → Db → Option (Status × Db)
set_data notifier hash word db = elim (hash == 0) [
  | true ↦ some (invalid_hash, db)
  | false ↦ elim db.live [
    | false ↦ some (not_enough_space, db)
    | true ↦ do
      (index, db1) ← search hash db
      elim index [ none ↦ some (not_found, db1) | some i ↦ put notifier i hash word db1 ]
  ]
]

-- the loop that adds at the first free index
unfoldable pub fill_free : Entry → List Entry → List Entry
fill_free new [] = []
fill_free new (e ∷ es) = if e.hash == 0 then new ∷ es else e ∷ fill_free new es

-- The entries behind a reallocation for KVDB_SIZE_INCREMENT more, which hold `fresh` and then a hash of 0.
unfoldable pub grow : (ℕ → Entry) → List Entry → List Entry
grow fresh es =
    es
    ++ (record (fresh 0) { hash = 0 }
        ∷ record (fresh 1) { hash = 0 }
        ∷ record (fresh 2) { hash = 0 }
        ∷ record (fresh 3) { hash = 0 }
        ∷ [])

-- the part of kvdb_i8_add behind the checks
unfoldable pub insert : Entry → Db → Option (Status × Db)
insert new db = do
  db1 ←
      sort (record db { entries = fill_free new db.entries; kv_count = (db.kv_count + 1) % 2 ^ 16 })
  some (ok, db1)

-- kvdb_i8_add, with what the reallocation gives, or none where it fails
unfoldable pub add : Bool → Option (ℕ → Entry) → ℕ → ℕ → ℕ → Db → Option (Status × Db)
add notifier fresh hash word tag db = do
  (status, db1) ← set_data notifier hash word db
  (let new : Entry = record {
    hash = hash;
    kind = kind_int32;
    flags = flags_dynamic;
    tag = tag;
    data_word = word;
  } in
      elim status [
        | ok ↦ some (ok, db1)
        | _ ↦
            if hash == 0
            then some (invalid_hash, db1)
            else if not db1.live
            then some (not_enough_space, db1)
            else if leb max_entries db1.kv_count
            then some (not_enough_space, db1)
            else if leb (length db1.entries) db1.kv_count
            then elim fresh [
              | none ↦ some (not_enough_space, db1)
              | some f ↦ insert new (record db1 { entries = grow f db1.entries })
            ]
            else insert new db1
      ])

-- kvdb_i8_delete
unfoldable pub delete : ℕ → Db → Option (Status × Db)
delete hash db = elim db.live [
  | false ↦ some (not_enough_space, db)
  | true ↦ do
    (index, db1) ← search hash db
    elim index [
      | none ↦ some (not_found, db1)
      | some i ↦ do
        db2 ← sort (record db1 {
          entries = set db1.entries i (record (get_or db1.entries i blank) { hash = 0 });
          kv_count = (db1.kv_count + 2 ^ 16 - 1) % 2 ^ 16;
        })
        some (ok, record db2 { cached_index = none })
    ]
]

-- the loop of kvdb_v_delete_tag, with the count
unfoldable pub wipe : ℕ → List Entry → ℕ → List Entry × ℕ
wipe tag [] n = ([], n)
wipe tag (e ∷ es) n = elim (not (e.hash == 0) && (e.tag == tag)) [
  | true ↦ (
    record e { hash = 0 } ∷ (wipe tag es ((n + 2 ^ 16 - 1) % 2 ^ 16)).0,
    (wipe tag es ((n + 2 ^ 16 - 1) % 2 ^ 16)).1,
  )
  | false ↦ (e ∷ (wipe tag es n).0, (wipe tag es n).1)
]

-- kvdb_v_delete_tag
unfoldable pub delete_tag : ℕ → Db → Option Db
delete_tag tag db = elim db.live [
  | false ↦ some db
  | true ↦
      let wiped = wipe tag db.entries db.kv_count in
      sort (record db { entries = wiped.0; kv_count = wiped.1; cached_index = none })
]

-- kvdb_i8_publish, with kvdb_i8_handle_publish where the program has one
unfoldable pub publish : Option (ℕ → Status) → ℕ → Status
publish none hash = ok
publish (some handler) hash = handler hash

-- kvdb_h_get_hash_for_index
unfoldable pub get_hash_for_index : ℕ → Db → ℕ
get_hash_for_index index db =
    if not db.live
    then 0
    else if leb (length db.entries) index
    then 0
    else (get_or db.entries index blank).hash

-- kvdb_u16_read, kvdb_u8_read and kvdb_i32_read, of `bits` bits, with what the uninitialised `data` holds
unfoldable pub read : ℕ → ℕ → ℕ → Db → Option (ℕ × Db)
read bits junk hash db = do
  (status, word, db1) ← get hash db
  some (elim word [ none ↦ junk % 2 ^ bits | some w ↦ w % 2 ^ bits ], db1)
