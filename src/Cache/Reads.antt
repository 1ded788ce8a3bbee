-- ===== src/Cache/Reads.antt =====
-- What a read of the cache returns after a write, under any source, key and time.
use arguss.Base.{
  ℕ, ◌+◌, ◌*◌, ◌≡◌, refl, ap, sym, ◌∙◌, Bool, true, false, ◌&&◌, Option, none, some, if◌then◌else◌,
  ltb, ◌==◌, ap-if, if_both, if_parts, Bool-cases, inl, inr, Text, codes, text_eq, lookup,
  lookup-insert,
}
use arguss.Base.Results.{Result, ok, ◌>>=◌}
use arguss.Base.Json.{Json, string, object, no_members, member, get}
use arguss.Cache.{
  CacheRow, Database, JsonError, hour, put_row, live, fetch_row, set_scan_response,
  set_api_response, set_cached_text, text_of, decode, get_api_response, get_cached_text, read_scan,
  get_scan_response,
}

fetch_row-put_row :
    (source key : Text) (t : ℕ) (k : Text) (row : CacheRow) (db : Database)
    → fetch_row source key t (put_row k row db)
      ≡ (if text_eq k key then live source t (some row) else fetch_row source key t db)
unfolding fetch_row put_row
fetch_row-put_row source key t k row db =
    ap (live source t) (lookup-insert k key row db.api_cache)
    ∙ ap-if (live source t) (text_eq k key) (some row) (lookup key db.api_cache)

module _ (dumps : Json → Text) (loads : Text → Result JsonError Json) where
  -- `json.loads` reads back what `json.dumps` wrote.
  abbrev pub ReadsBack : Json → Type 0
  ReadsBack j = loads (dumps j) ≡ ok j

  decode-live :
      (source s : Text) (t : ℕ) (j : Json) (row : CacheRow)
      → ReadsBack j
      → row.response_json ≡ dumps j
      → row.source ≡ source
      → decode loads (live s t (some row))
        ≡ ok (if text_eq source s && ltb t row.expires_at then some j else none)
  unfolding live
  decode-live source s t j row r e q =
      elim (Bool-cases (text_eq source s && ltb t row.expires_at)) [
        | inl y ↦ rw (q, y, e, r) refl
        | inr n ↦ rw (q, n) refl
      ]

  decode-put :
      (source key s k : Text) (t : ℕ) (j : Json) (row : CacheRow) (db : Database)
      → ReadsBack j
      → row.response_json ≡ dumps j
      → row.source ≡ source
      → decode loads (fetch_row s k t (put_row key row db)) ≡ (
          if text_eq key k
          then ok (if text_eq source s && ltb t row.expires_at then some j else none)
          else decode loads (fetch_row s k t db))
  decode-put source key s k t j row db r e q =
      ap (decode loads) (fetch_row-put_row s k t key row db)
      ∙ (ap-if (decode loads) (text_eq key k) (live s t (some row)) (fetch_row s k t db)
          ∙ ap (λ x. if text_eq key k then x else decode loads (fetch_row s k t db))
              (decode-live source s t j row r e q))

  -- A response that is written under a source and a key is read under that source and key until its
  -- time to live is over, and not after; other sources read nothing under the key, and reads of
  -- other keys do not change. `json.loads` is taken to read back what `json.dumps` wrote.
  pub get-set_api_response :
      (source key : Text) (response : Json) (ttl_hours now : ℕ) (db : Database) (s k : Text) (t : ℕ)
      → ReadsBack response
      → get_api_response loads s k t (set_api_response dumps source key response ttl_hours now db)
        ≡ (if text_eq key k
            then ok
                (if text_eq source s && ltb t (now + ttl_hours * hour) then some response else none)
            else get_api_response loads s k t db)
  unfolding get_api_response set_api_response set_scan_response
  get-set_api_response source key response ttl_hours now db s k t r =
      if_both
        (λ d. get_api_response loads s k t d ≡ (
          if text_eq key k
          then ok
              (if text_eq source s && ltb t (now + ttl_hours * hour) then some response else none)
          else get_api_response loads s k t db))
        (text_eq source (codes "scan_response")) _ _
        (decode-put source key s k t response _ db r refl refl)
        (decode-put source key s k t response _ db r refl refl)

  -- A text that is written to the cache is read in the same way, for its time to live in seconds.
  pub get-set_cached_text :
      (source key text : Text) (ttl_seconds now : ℕ) (db : Database) (s k : Text) (t : ℕ)
      → ReadsBack (object (member (codes "text") (string text) no_members))
      → get_cached_text loads s k t (set_cached_text dumps source key text ttl_seconds now db) ≡ (
          if text_eq key k
          then ok (if text_eq source s && ltb t (now + ttl_seconds) then some text else none)
          else get_cached_text loads s k t db)
  unfolding get_cached_text set_cached_text get text_eq
  get-set_cached_text source key text ttl_seconds now db s k t r =
      ap (λ x. x >>= text_of) (decode-put source key s k t _ _ db r refl refl)
      ∙ (ap-if (λ (x : Result JsonError (Option Json)). x >>= text_of) (text_eq key k) _ _
          ∙ ap (λ x. if text_eq key k then x else get_cached_text loads s k t db) text_read)
    where
      text_read :
          text_of (
            if text_eq source s && ltb t (now + ttl_seconds)
            then some (object (member (codes "text") (string text) no_members))
            else none)
          ≡ ok (if text_eq source s && ltb t (now + ttl_seconds) then some text else none)
      text_read = elim (Bool-cases (text_eq source s && ltb t (now + ttl_seconds))) [
        | inl y ↦ rw y refl
        | inr n ↦ rw n refl
      ]

  scan_result : ℕ → Option CacheRow → Result JsonError (Option Json)
  scan_result expected none = ok none
  scan_result expected (some row) =
      if row.scan_response_schema_version == expected then decode loads (some row) else ok none

  read_scan-result :
      (s k : Text) (expected : ℕ) (o : Option CacheRow) (db : Database)
      → (read_scan loads s k expected o db).0 ≡ scan_result expected o
  unfolding read_scan scan_result
  read_scan-result s k expected none db = refl
  read_scan-result s k expected (some row) db =
      ap-if (λ (x : Result JsonError (Option Json) × Database). x.0)
        (row.scan_response_schema_version == expected) _ _

  scan_result-live :
      (s : Text) (t expected : ℕ) (j : Json) (row : CacheRow)
      → ReadsBack j
      → row.response_json ≡ dumps j
      → scan_result expected (live s t (some row))
        ≡ ok (
            if text_eq row.source s
              && (ltb t row.expires_at && (row.scan_response_schema_version == expected))
            then some j
            else none)
  unfolding scan_result live
  scan_result-live s t expected j row r e = by_tests (text_eq row.source s) (ltb t row.expires_at)
    where
      of_version :
          (c : Bool)
          → (if c then decode loads (some row) else ok none) ≡ ok (if c then some j else none)
      of_version true = rw (e, r) refl
      of_version false = refl

      by_tests :
          (a b : Bool)
          → scan_result expected (if a && b then some row else none)
            ≡ ok (
                if a && (b && (row.scan_response_schema_version == expected)) then some j else none)
      by_tests false b = refl
      by_tests true false = refl
      by_tests true true = of_version (row.scan_response_schema_version == expected)

  -- A response that is written for one version of the schema is read under its source and key until
  -- its time to live is over by code that expects that version, and by no other; reads of other keys
  -- do not change.
  pub get-set_scan_response :
      (source key : Text) (response : Json) (version ttl_hours now : ℕ) (db : Database) (s k : Text)
      (expected t : ℕ)
      → ReadsBack response
      → (get_scan_response loads k expected s t
          (set_scan_response dumps key response version ttl_hours source now db)).0
        ≡ (if text_eq key k
            then ok (
                if text_eq source s && (ltb t (now + ttl_hours * hour) && (version == expected))
                then some response
                else none)
            else (get_scan_response loads k expected s t db).0)
  unfolding get_scan_response set_scan_response
  get-set_scan_response source key response version ttl_hours now db s k expected t r =
      read_scan-result s k expected _ _
      ∙ (ap (scan_result expected) (fetch_row-put_row s k t key _ db)
          ∙ (ap-if (scan_result expected) (text_eq key k) _ (fetch_row s k t db)
              ∙ if_parts (text_eq key k) (scan_result-live s t expected response _ r refl)
                  (sym (read_scan-result s k expected (fetch_row s k t db) db))))
