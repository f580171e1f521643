-- ===== src/Kvdb/Types.antt =====
-- The state of src/sapphireos/kvdb.c, and its start.
use chromatron.Base.{ℕ, Bool, Option, none, List, [], ◌∷◌, if◌then◌else◌}

-- `db_entry32_t`; `data` is the bit pattern of an `int32_t`.
pub record Entry : Type 0 where
  pub hash : ℕ
  pub kind : ℕ
  pub flags : ℕ
  pub tag : ℕ
  pub data_word : ℕ

-- `catbus_meta_t`
pub record Meta : Type 0 where
  pub hash : ℕ
  pub count : ℕ
  pub flags : ℕ
  pub kind : ℕ
  pub reserved : ℕ

-- a call of kvdb_v_notify_set
pub record Notice : Type 0 where
  pub hash : ℕ
  pub meta : Meta
  pub data_word : ℕ

-- the codes KVDB_STATUS_*
pub data Status : Type 0 where
  ok : Status
  not_found : Status
  not_enough_space : Status
  invalid_hash : Status

-- The state of kvdb.c. `live` is `handle >= 0`, the entries are what the handle leads to, of which there
-- are `db_size`, and a `cached_index` of -1 is `none`. The notices are what was told so far.
pub record Db : Type 0 where
  pub live : Bool
  pub entries : List Entry
  pub kv_count : ℕ
  pub cached_index : Option ℕ
  pub cached_hash : ℕ
  pub notices : List Notice

abbrev pub blank : Entry
blank = record { hash = 0; kind = 0; flags = 0; tag = 0; data_word = 0 }

abbrev pub no_meta : Meta
no_meta = record { hash = 0; count = 0; flags = 0; kind = 0; reserved = 0 }

-- KVDB_MAX_ENTRIES, CATBUS_FLAGS_DYNAMIC, CATBUS_TYPE_INT32
abbrev pub max_entries : ℕ
max_entries = 128

abbrev pub flags_dynamic : ℕ
flags_dynamic = 8

abbrev pub kind_int32 : ℕ
kind_int32 = 7

-- kvdb_v_init, with whether the allocation of the KVDB_INITIAL_SIZE entries succeeds
unfoldable pub init : Bool → Db
init allocated = record {
  live = allocated;
  entries =
      if allocated then blank ∷ blank ∷ blank ∷ blank ∷ blank ∷ blank ∷ blank ∷ blank ∷ [] else [];
  kv_count = 0;
  cached_index = none;
  cached_hash = 0;
  notices = [];
}
