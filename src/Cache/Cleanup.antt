-- ===== src/Cache/Cleanup.antt =====
-- What the removal of expired entries leaves, and how many it reports.
use arguss.Base.{
  ℕ, ◌+◌, ◌≤◌, ◌≡◌, refl, ap, ◌∙◌, arith, true, false, not, ◌&&◌, Option, none, some, ltb, leb,
  Bool-cases, inl, inr, length, length-keep-le, keep-All, All, Text, text_eq, lookup, lookup-keep,
  if_kept, keys, Distinct,
}
use arguss.Base.Results.{Result}
use arguss.Base.Json.{Json}
use arguss.Cache.{
  CacheRow, Database, JsonError, decode, live, fetch_row, get_api_response, fresh_row,
  fresh_explanation, cleanup_expired,
}

-- A read at a later time does not see the rows that are removed.
live-if_kept :
    (now t : ℕ) (source : Text) (o : Option CacheRow)
    → now ≤ t
    → live source t (if_kept (λ row. not (leb row.expires_at now)) o) ≡ live source t o
unfolding live
live-if_kept now t source none h = refl
live-if_kept now t source (some row) h = elim (Bool-cases (leb row.expires_at now)) [
  | inl y ↦
      let off : ltb t row.expires_at ≡ false = ground arith in
      let dead : (text_eq row.source source && ltb t row.expires_at) ≡ false = ground arith in
      rw (y, dead) refl
  | inr n ↦ rw n refl
]

module _ (loads : Text → Result JsonError Json) where
  -- Where keys are different, removing the entries that expired by `now` changes no read from `now` on; it reports as
  -- many as it removes from both tables, and none that expired by `now` is left.
  pub cleanup-reads :
      (now t : ℕ) (source key : Text) (db : Database)
      → now ≤ t
      → Distinct (keys db.api_cache)
      → (get_api_response loads source key t (cleanup_expired now db).1
          ≡ get_api_response loads source key t db)
        × ((cleanup_expired now db).0
              + (length (cleanup_expired now db).1.api_cache
                  + length (cleanup_expired now db).1.ai_explanations)
            ≡ length db.api_cache + length db.ai_explanations)
        × All (λ e. fresh_row now e ≡ true) (cleanup_expired now db).1.api_cache
        × All (λ e. fresh_explanation now e ≡ true) (cleanup_expired now db).1.ai_explanations
  unfolding get_api_response fetch_row cleanup_expired
  cleanup-reads now t source key db h u = (
    ap (λ o. decode loads (live source t o))
          (lookup-keep (λ (row : CacheRow). not (leb row.expires_at now)) key db.api_cache u)
        ∙ ap (decode loads) (live-if_kept now t source (lookup key db.api_cache) h),
    omega (
      arith,
      length-keep-le (fresh_row now) db.api_cache,
      length-keep-le (fresh_explanation now) db.ai_explanations,
    ),
    keep-All (fresh_row now) db.api_cache,
    keep-All (fresh_explanation now) db.ai_explanations,
  )
