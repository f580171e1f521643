-- ===== src/Kvdb/Inserted.antt =====
-- A new entry of kvdb_i8_add, sorted in.
use chromatron.Base.{
  ℕ, ◌+◌, ◌<◌, ◌%◌, ◌^◌, ◌≡◌, ◌≢◌, refl, sym, ◌∙◌, ap, none, some, List, if◌then◌else◌, length,
  arith, ℕ_discrete,
}
use chromatron.Base.Sorting.{count}
use chromatron.Kvdb.{Db, Entry, ok, insert, fill_free, flags_dynamic, kind_int32}
use chromatron.Kvdb.View.{lookup, view, has, occupied, IsSound, IsUnique, sort_lem}
use chromatron.Kvdb.Entries.{
  count_none, count-fill_free, lookup-fill_free_other, lookup-fill_free_self,
}
use chromatron.Kvdb.Operations.{changed}

-- the entry that kvdb_i8_add makes
abbrev pub new_entry : ℕ → ℕ → ℕ → Entry
new_entry h w tag = record {
  hash = h;
  kind = kind_int32;
  flags = flags_dynamic;
  tag = tag;
  data_word = w;
}

-- A new entry in a free place, sorted in.
pub insert_lem :
    (db : Db) (new : Entry)
    → IsUnique db.entries
    → db.kv_count ≡ count occupied db.entries
    → new.hash ≢ 0
    → view db.entries new.hash ≡ none
    → db.kv_count < 128
    → db.kv_count < length db.entries
    → (es : List Entry) × (insert new db
        ≡ some (ok, record db { entries = es; kv_count = db.kv_count + 1 }))
      × IsSound es (db.kv_count + 1)
      × ((k : ℕ) → view es k ≡ changed new.hash (some new) db.entries k)
unfolding insert view
insert_lem db new unique counted key absent few room =
    let gone : lookup new.hash db.entries ≡ none = ground arith in
    let place : count occupied db.entries < length db.entries = omega (arith, counted) in
    let more : (db.kv_count + 1) % 2 ^ 16 ≡ db.kv_count + 1 = omega arith in
    let db1 : Db = record db { entries = fill_free new db.entries; kv_count = db.kv_count + 1 } in
    let (es, sorts, sorted, same, found) = sort_lem db1 in
    let filled : (k : ℕ)
        → k ≢ 0
        → count (has k) (fill_free new db.entries)
          ≡ count (has k) db.entries + (if has k new then 1 else 0) =
      λ k nz. count-fill_free new key (has k) db.entries (λ e z. ground arith) place in
    (
      es,
      rw (insert, more, sorts) refl,
      record {
        sorted = sorted;
        unique = λ k nz. ground (
          arith,
          same (has k),
          filled k nz,
          unique k nz,
          ap (λ j. count (has j) db.entries),
          count_none new.hash db.entries gone,
        );
        counted = ground (
          arith,
          same occupied,
          counted,
          count-fill_free new key occupied db.entries (λ e z. ground arith) place,
        );
        small = omega arith;
      },
      λ k. elim (ℕ_discrete k 0) [
        | yes free ↦ ground arith
        | no nz ↦ elim (ℕ_discrete k new.hash) [
          | yes mine ↦
              let now : lookup k es ≡ some new =
                found k
                ∙ ap (λ j. lookup j (fill_free new db.entries)) mine
                ∙ lookup-fill_free_self new key db.entries gone place in
              ground (arith, now)
          | no other ↦
              let now : lookup k es ≡ lookup k db.entries =
                found k ∙ lookup-fill_free_other new key k db.entries nz (λ e. other (sym e)) in
              ground (arith, now)
        ]
      ],
    )
