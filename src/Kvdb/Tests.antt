-- ===== src/Kvdb/Tests.antt =====
-- Tests of the key-value database, and its theorems at concrete inputs.
use chromatron.Base.{ℕ, ◌≡◌, refl, subst, true, false, Option, none, some, arith}
use chromatron.Base.Sorting.{sort_by, sweep, sweep_all}
use chromatron.Kvdb.{
  Db, Status, ok, init, probe, cache_hit, keep_found, search, smaller_first, sort, get, set_data,
  fill_free, insert, add, delete, delete_tag,
}
use chromatron.Kvdb.View.{view, IsSound}
use chromatron.Kvdb.Operations.{IsReady, init-IsReady, answer, word_of, changed, get_lem}
use chromatron.Kvdb.Sets.{with_word, told, set_data_lem}
use chromatron.Kvdb.Changes.{delete_lem, delete_tag_lem}
use chromatron.Kvdb.Inserted.{new_entry}
use chromatron.Kvdb.Adds.{add_lem, has_room, add_answer, added}
use chromatron.Kvdb.Entries.{untagged}

abbrev behind : Option (Status × Db) → Db
behind none = init false
behind (some (s, db)) = db

-- a database with 50 at the hash 5, under tag 1
abbrev one : Db
one = behind (add true none 5 50 1 (init true))

one_runs : add true none 5 50 1 (init true) ≡ some (ok, one)
unfolding add set_data search cache_hit probe keep_found insert fill_free sort smaller_first sort_by
    sweep_all sweep init
one_runs = refl

one-IsReady : IsReady one
unfolding init
one-IsReady =
    let (db, runs, sound, seen, ready) =
      add_lem (init true) init-IsReady true none 5 50 1 (omega arith) in
    let same : db ≡ one = ground (arith, runs, one_runs) in subst IsReady same (ready refl)

add_lem_example :
    (db' : Db) × (add true none 9 90 2 one
      ≡ some (add_answer (has_room none one) (view one.entries 9), db'))
    × IsSound db'.entries db'.kv_count
    × ((k : ℕ)
        → view db'.entries k
          ≡ changed 9
              (added (has_room none one) (new_entry 9 90 2) (view one.entries 9))
              one.entries
              k)
    × (one.cached_index ≡ none → IsReady db')
add_lem_example = add_lem one one-IsReady true none 9 90 2 (omega arith)

get_lem_example :
    (db' : Db) × (get 5 one
      ≡ some (answer (view one.entries 5), some (word_of (view one.entries 5)), db'))
    × IsReady db'
    × ((k : ℕ) → view db'.entries k ≡ view one.entries k)
get_lem_example = get_lem one one-IsReady 5

set_data_lem_example :
    (db' : Db) × (set_data true 5 51 one ≡ some (answer (view one.entries 5), db'))
    × IsReady db'
    × ((k : ℕ) → view db'.entries k ≡ changed 5 (with_word 51 (view one.entries 5)) one.entries k)
    × (db'.notices ≡ told true 5 51 (view one.entries 5) one.notices)
set_data_lem_example = set_data_lem one one-IsReady true 5 51 (omega arith)

delete_lem_example :
    (db' : Db) × (delete 5 one ≡ some (answer (view one.entries 5), db'))
    × IsReady db'
    × ((k : ℕ) → view db'.entries k ≡ changed 5 none one.entries k)
delete_lem_example = delete_lem one one-IsReady 5

delete_tag_lem_example :
    (db' : Db) × (delete_tag 1 one ≡ some db')
    × IsReady db'
    × ((k : ℕ) → view db'.entries k ≡ untagged 1 (view one.entries k))
delete_tag_lem_example = delete_tag_lem one one-IsReady 1

-- what kvdb_i8_get gives behind two additions, with or without a search in between
abbrev words_of : Option (Status × Option ℕ × Db) → Option (Option ℕ)
words_of none = none
words_of (some (s, w, db)) = some w

abbrev looked : Option (Status × Option ℕ × Db) → Db
looked none = init false
looked (some (s, w, db)) = db

read_back : words_of (get 5 (behind (add true none 9 90 2 one))) ≡ some (some 50)
unfolding add set_data search cache_hit probe keep_found insert fill_free sort smaller_first sort_by
    sweep_all sweep init get
read_back = refl

-- A search keeps its index, and an addition moves the entries: the next search of the hash gives the entry
-- that stands there now.
stale_cache : words_of (get 5 (behind (add true none 9 90 2 (looked (get 5 one))))) ≡ some (some 90)
unfolding add set_data search cache_hit probe keep_found insert fill_free sort smaller_first sort_by
    sweep_all sweep init get
stale_cache = refl
