-- ===== src/Kvdb/Sets.antt =====
-- kvdb_i8_set against the map from hashes to entries.
use chromatron.Base.{
  ℕ, ◌<◌, ◌≡◌, ◌≢◌, refl, sym, ◌∙◌, ap, Bool, true, false, not, ◌&&◌, Option, none, some, List, ◌∷◌,
  ◌==◌, ==_self, if◌then◌else◌, length, length-set, get_or, set, arith, Bool-cases, inl, inr, subst,
  ℕ_discrete, get_or-set_self,
}
use chromatron.Base.Sorting.{count}
use chromatron.Kvdb.{
  Db, Entry, Notice, blank, search, get_meta, ok, not_found, put, set_data, cache_hit,
}
use chromatron.Kvdb.View.{hash_at, view, has, occupied, IsSound}
use chromatron.Kvdb.Entries.{hash_at-set, count-set, lookup-set_other}
use chromatron.Kvdb.Operations.{
  IsReady, answer, changed, view_found, when_live, searches, cached-IsFresh,
}

-- the entry with new data
abbrev pub with_word : ℕ → Option Entry → Option Entry
with_word w none = none
with_word w (some e) = some (record e { data_word = w })

-- the notice of a change, where there is one
abbrev pub told : Bool → ℕ → ℕ → Option Entry → List Notice → List Notice
told notifier h w none ns = ns
told notifier h w (some e) ns =
    if notifier && not (e.data_word == w)
    then record {
      hash = h;
      meta = record { hash = h; count = 0; flags = e.flags; kind = e.kind; reserved = 0 };
      data_word = w;
    }
      ∷ ns
    else ns

-- new data in one entry
abbrev renewed : List Entry → ℕ → ℕ → Entry
renewed es i w = record (get_or es i blank) { data_word = w }

abbrev renew : List Entry → ℕ → ℕ → List Entry
renew es i w = set es i (renewed es i w)

module _ (es : List Entry) (n h i w : ℕ) (s : IsSound es n) (lt : i < length es)
    (there : hash_at es i ≡ h) (key : h ≢ 0) where
  same_count :
      (p : Entry → Bool)
      → p (renewed es i w) ≡ p (get_or es i blank)
      → count p (renew es i w) ≡ count p es
  same_count p e = ground (arith, count-set p (renewed es i w) es i lt, e)

  below : i < length (renew es i w)
  below = subst (λ l. i < l) (sym (length-set es i (renewed es i w))) lt

  same_hash : hash_at (renew es i w) i ≡ h
  same_hash = hash_at-set (renewed es i w) es i i refl ∙ there

  renew-IsSound : IsSound (renew es i w) n
  renew-IsSound = record {
    sorted = λ j k le lt'. omega (
      arith,
      hash_at-set (renewed es i w) es i j refl,
      hash_at-set (renewed es i w) es i k refl,
      s.sorted j k le (subst (λ l. k < l) (length-set es i (renewed es i w)) lt'),
    );
    unique = λ k nz. omega (arith, same_count (has k) refl, s.unique k nz);
    counted = s.counted ∙ sym (same_count occupied refl);
    small = s.small;
  }

  view-renew : (k : ℕ) → view (renew es i w) k ≡ changed h (some (renewed es i w)) es k
  unfolding view
  view-renew k = elim (ℕ_discrete k h) [
    | yes same ↦
        let mine : get_or (renew es i w) i blank ≡ renewed es i w =
          get_or-set_self es i (renewed es i w) blank lt in
        let found = view_found (renew es i w) n h i renew-IsSound key below same_hash in
        let test : (k == h) ≡ true = ground arith in
        rw test (ap (view (renew es i w)) same ∙ found ∙ ap some mine)
    | no differ ↦
        let other : hash_at es i ≢ k = λ e. differ (sym e ∙ there) in
        let test : (k == h) ≡ false = ground arith in rw test (elsewhere k other)
  ]
    where
      elsewhere : (k : ℕ) → hash_at es i ≢ k → view (renew es i w) k ≡ view es k
      elsewhere k other =
          ap (λ r. if k == 0 then none else r)
            (lookup-set_other (renewed es i w) k es i other other)

module _ (db : Db) (r : IsReady db) (i h w : ℕ) (lt : i < length db.entries)
    (there : hash_at db.entries i ≡ h) (key : h ≢ 0) where
  -- what put leaves, less the notices
  abbrev stored : Db
  stored = record db { entries = renew db.entries i w; cached_index = some i; cached_hash = h }

  stored-IsReady : (ns : List Notice) → IsReady (record stored { notices = ns })
  stored-IsReady ns = record {
    alive = r.alive;
    sound = renew-IsSound db.entries db.kv_count h i w r.sound lt there key;
    fresh =
        cached-IsFresh (record stored { notices = ns }) i h
          (below db.entries db.kv_count h i w r.sound lt there key)
          (same_hash db.entries db.kv_count h i w r.sound lt there key);
  }

  warm_search : search h stored ≡ some (some i, stored)
  unfolding search cache_hit
  warm_search = let test : (h == 0) ≡ false = ground arith in rw (search, test, ==_self h) refl

  warm_meta :
      get_meta h stored
      ≡ some (
        ok,
        some (record {
          hash = h;
          count = 0;
          flags = (get_or db.entries i blank).flags;
          kind = (get_or db.entries i blank).kind;
          reserved = 0;
        }),
        stored,
      )
  unfolding get_meta
  warm_meta =
      let mine : get_or (renew db.entries i w) i blank ≡ renewed db.entries i w =
        get_or-set_self db.entries i (renewed db.entries i w) blank lt in
      when_live db.live _ r.alive (rw (warm_search, mine) refl)

  put_lem :
      (notifier : Bool)
      → put notifier i h w (record db { cached_index = some i; cached_hash = h })
        ≡ some (
          ok,
          record stored {
            notices = told notifier h w (some (get_or db.entries i blank)) db.notices;
          },
        )
  unfolding put
  put_lem notifier =
      let e : Entry = get_or db.entries i blank in
      let meta = warm_meta in
      elim (Bool-cases (notifier && not (e.data_word == w))) [
        | inl tells ↦ rw (put, tells, meta) refl
        | inr quiet ↦ rw (put, quiet) refl
      ]

pub unchanged : (es : List Entry) (h k : ℕ) → view es h ≡ none → view es k ≡ changed h none es k
unchanged es h k absent = elim (ℕ_discrete k h) [
  | yes same ↦ let test : (k == h) ≡ true = ground arith in rw test (ap (view es) same ∙ absent)
  | no differ ↦ let test : (k == h) ≡ false = ground arith in rw test refl
]

pub set_data_missing :
    (db : Db)
    → IsReady db
    → (notifier : Bool) (h w : ℕ) → h ≢ 0
    → search h db ≡ some (none, db)
    → set_data notifier h w db ≡ some (not_found, db)
unfolding set_data
set_data_missing db r notifier h w key e =
    let test : (h == 0) ≡ false = ground arith in
    rw (set_data, test) (when_live db.live _ r.alive (rw e refl))

-- kvdb_i8_set of a hash that is not 0, on a live and sound database with a cache that is empty or leads to the entry of
-- its hash, so not behind a kvdb_i8_add that left another cache: the entry that the map has gets the data, and its program is told of
-- a change with the entry's meta data. Where the map has none, the answer is KVDB_STATUS_NOT_FOUND and
-- nothing changes.
pub set_data_lem :
    (db : Db)
    → IsReady db
    → (notifier : Bool) (h w : ℕ) → h ≢ 0
    → let e : Option Entry = view db.entries h in
      (db' : Db) × (set_data notifier h w db ≡ some (answer e, db'))
      × IsReady db'
      × ((k : ℕ) → view db'.entries k ≡ changed h (with_word w e) db.entries k)
      × (db'.notices ≡ told notifier h w e db.notices)
unfolding set_data
set_data_lem db r notifier h w key =
    let test : (h == 0) ≡ false = ground arith in
    elim (searches db r h) [
      | inl (e, absent) ↦ (
        db,
        rw (set_data, test) (when_live db.live _ r.alive (rw (e, absent) refl)),
        r,
        λ k. rw absent (unchanged db.entries h k absent),
        rw absent refl,
      )
      | inr (i, e, lt, there, here, nz) ↦
          let ns : List Notice = told notifier h w (some (get_or db.entries i blank)) db.notices in
          (
            record (stored db r i h w lt there key) { notices = ns },
            rw (set_data, test)
                (when_live db.live _ r.alive
                  (rw (e, here) (put_lem db r i h w lt there key notifier))),
            stored-IsReady db r i h w lt there key ns,
            λ k. rw here (view-renew db.entries db.kv_count h i w r.sound lt there key k),
            rw here refl,
          )
    ]
