-- ===== src/Cache.antt =====
-- arguss/core/cache.py: the table of cached responses, and the migrations of the schema.
-- `api_cache` has the primary key `key`, so it is a dictionary of rows. A time that the table keeps
-- as ISO text is a number of seconds. `json.dumps` and `json.loads` are parameters. Of
-- `ai_explanations` only the times of expiry matter here.
pub mod Reads
pub mod Cleanup
pub mod Migrations
use arguss.Base.{
  ℕ, zero, suc, ◌+◌, ◌*◌, ◌-◌, ◌%◌, max, ◌≡◌, Bool, true, false, not, ◌&&◌, Option, none, some,
  List, [], ◌∷◌, ◌++◌, if◌then◌else◌, ltb, leb, ◌==◌, length, keep, any, Text, codes, text_eq, Dict,
  lookup, insert, sorted,
}
use arguss.Base.Results.{Result, ok, error, ◌>>=◌}
use arguss.Base.Json.{
  Json, null, bool, number, string, array, object, Members, no_members, member, get, string_of,
}

pub record CacheRow : Type 0 where
  pub response_json : Text
  pub source : Text
  pub expires_at : ℕ
  pub scan_response_schema_version : ℕ

pub record Database : Type 0 where
  pub api_cache : Dict CacheRow
  pub ai_explanations : Dict ℕ

pub data JsonError : Type 0 where
  bad_json not_an_object : JsonError

abbrev pub hour : ℕ
hour = 3600

abbrev scan_response : Text
scan_response = codes "scan_response"

-- SCAN_RESPONSE_SCHEMA_VERSION of arguss/core/models.py
abbrev pub current_schema_version : ℕ
current_schema_version = 8

-- INSERT OR REPLACE INTO api_cache
unfoldable pub put_row : Text → CacheRow → Database → Database
put_row key row db = record db { api_cache = insert key row db.api_cache }

-- SELECT … WHERE key = ? AND source = ? AND expires_at > ?
unfoldable pub live : Text → ℕ → Option CacheRow → Option CacheRow
live source now none = none
live source now (some row) =
    if text_eq row.source source && ltb now row.expires_at then some row else none

unfoldable pub fetch_row : Text → Text → ℕ → Database → Option CacheRow
unfolding live
fetch_row source key now db = live source now (lookup key db.api_cache)

module _ (dumps : Json → Text) where
  unfoldable pub set_scan_response : Text → Json → ℕ → ℕ → Text → ℕ → Database → Database
  unfolding put_row
  set_scan_response key response schema_version ttl_hours source now = put_row key (record {
    response_json = dumps response;
    source = source;
    expires_at = now + ttl_hours * hour;
    scan_response_schema_version = schema_version;
  })

  unfoldable pub set_api_response : Text → Text → Json → ℕ → ℕ → Database → Database
  unfolding put_row set_scan_response
  set_api_response source key response ttl_hours now db =
      if text_eq source scan_response
      then set_scan_response key response current_schema_version ttl_hours source now db
      else put_row key
          (record {
            response_json = dumps response;
            source = source;
            expires_at = now + ttl_hours * hour;
            scan_response_schema_version = 0;
          })
          db

  unfoldable pub set_cached_text : Text → Text → Text → ℕ → ℕ → Database → Database
  unfolding put_row
  set_cached_text source key text ttl_seconds now = put_row key (record {
    response_json = dumps (object (member (codes "text") (string text) no_members));
    source = source;
    expires_at = now + ttl_seconds;
    scan_response_schema_version = 0;
  })

-- payload.get("text"), if it is a string; a payload that is no object raises.
abbrev pub text_of : Option Json → Result JsonError (Option Text)
text_of none = ok none
text_of (some (object ms)) = ok (string_of (get (codes "text") ms))
text_of (some _) = error not_an_object

module _ (loads : Text → Result JsonError Json) where
  abbrev pub decode : Option CacheRow → Result JsonError (Option Json)
  decode none = ok none
  decode (some row) = do j ← loads row.response_json; ok (some j)

  unfoldable pub get_api_response : Text → Text → ℕ → Database → Result JsonError (Option Json)
  unfolding fetch_row
  get_api_response source key now db = decode (fetch_row source key now db)

  unfoldable pub get_cached_text : Text → Text → ℕ → Database → Result JsonError (Option Text)
  unfolding fetch_row
  get_cached_text source key now db = decode (fetch_row source key now db) >>= text_of

  -- DELETE FROM api_cache WHERE key = ? AND source = ?
  unfoldable pub delete_row : Text → Text → Database → Database
  delete_row source key db = record db {
    api_cache = keep (λ e. not (text_eq e.0 key && text_eq e.1.source source)) db.api_cache;
  }

  unfoldable pub read_scan :
      Text → Text → ℕ → Option CacheRow → Database → Result JsonError (Option Json) × Database
  unfolding delete_row
  read_scan source key expected none db = (ok none, db)
  read_scan source key expected (some row) db =
      if row.scan_response_schema_version == expected
      then (decode (some row), db)
      else (ok none, delete_row source key db)

  unfoldable pub get_scan_response :
      Text → ℕ → Text → ℕ → Database → Result JsonError (Option Json) × Database
  unfolding fetch_row read_scan
  get_scan_response key expected_schema_version source now db =
      read_scan source key expected_schema_version (fetch_row source key now db) db

abbrev pub fresh_row : ℕ → Text × CacheRow → Bool
fresh_row now e = not (leb e.1.expires_at now)

abbrev pub fresh_explanation : ℕ → Text × ℕ → Bool
fresh_explanation now e = not (leb e.1 now)

-- The number of rows removed, and the tables without them.
unfoldable pub cleanup_expired : ℕ → Database → ℕ × Database
cleanup_expired now db =
    let rows = keep (fresh_row now) db.api_cache in
    let explanations = keep (fresh_explanation now) db.ai_explanations in
    (
      (length db.api_cache - length rows) + (length db.ai_explanations - length explanations),
      record { api_cache = rows; ai_explanations = explanations },
    )
