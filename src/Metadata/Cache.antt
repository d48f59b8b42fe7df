-- ===== src/Metadata/Cache.antt =====
-- agent-service/app/metadata/cache.py. The clock's reading is an argument of each call.
use enterprise_data_copilot.Prelude.{ℕ, ◌+◌, Text, Option, none, some, ltb, if◌then◌else◌, pair_eq}
use enterprise_data_copilot.Prelude.Strings.{text_eq}
use enterprise_data_copilot.Prelude.Dict.{Dict, lookup, insert, erase}
use enterprise_data_copilot.Prelude.Result.{Result, ok, err}
use enterprise_data_copilot.Metadata.Snapshot.{SchemaSnapshot}

pub record CacheEntry : Type 0 where
  pub snapshot : SchemaSnapshot
  pub expires_at : ℕ

-- Under the source id and the schema name.
abbrev pub Entries : Type 0
Entries = Dict (Text × Text) CacheEntry

-- `entry is not None and now < entry.expires_at`
abbrev pub fresh_entry : ℕ → Option CacheEntry → Option SchemaSnapshot
fresh_entry now none = none
fresh_entry now (some entry) = if ltb now entry.expires_at then some entry.snapshot else none

abbrev pub stored_entry : ℕ → ℕ → SchemaSnapshot → CacheEntry
stored_entry ttl_seconds now snapshot = record {
  snapshot = snapshot;
  expires_at = now + ttl_seconds;
}

module _ {E : Type 0} (ttl_seconds : ℕ) where
  abbrev pub loaded :
      ℕ → Text × Text → Entries → Result E SchemaSnapshot → Result E SchemaSnapshot × Entries
  loaded now key entries (ok snapshot) =
      (ok snapshot, insert key (stored_entry ttl_seconds now snapshot) entries)
  loaded now key entries (err error) = (err error, entries)

  abbrev pub serve :
      ℕ
      → Text × Text
      → Entries
      → Result E SchemaSnapshot
      → Option SchemaSnapshot
      → Result E SchemaSnapshot × Entries
  serve now key entries loader (some snapshot) = (ok snapshot, entries)
  serve now key entries loader none = loaded now key entries loader

  -- The loader is called, and can raise, only where no fresh entry is found.
  unfoldable pub get_or_load :
      ℕ → Text → Text → Result E SchemaSnapshot → Entries → Result E SchemaSnapshot × Entries
  get_or_load now source_id schema_name loader entries =
      serve now (source_id, schema_name) entries loader
        (fresh_entry now (lookup (source_id, schema_name) entries))

unfoldable pub invalidate : Text → Text → Entries → Entries
invalidate source_id schema_name entries = erase (source_id, schema_name) entries
