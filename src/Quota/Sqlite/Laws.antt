-- ===== src/Quota/Sqlite/Laws.antt =====
-- What the backend on SQLite counts. An addition that leaves the 64-bit range makes SQLite store a
-- float, which `Scan` refuses, so the statements are of sums within the range.
use sovereignstack.Prelude.{◌≡◌, ap, ◌∙◌, Option, none, some, ok, arith, Result-cases, inl, inr}
use sovereignstack.Text.{Text}
use sovereignstack.Int64.{ℤ, pos, ◌+ℤ◌, add64}
use sovereignstack.Calendar.{Instant}
use sovereignstack.Quota.Keys.{IsCivil, day_key, day_key-injective}
use sovereignstack.Quota.Sqlite.{Table, quota_daily, Sql, tokens_of_row, sqlite_backend}

abbrev pub row_count : Option ℤ → ℤ
row_count none = pos 0
row_count (some n) = n

-- The documented behaviour of the two statements: an upsert that succeeds and whose sum is a 64-bit
-- integer adds to its row, and any upsert leaves the other rows alone.
pub record SqlLaws {S : Type 0} (db : Sql S) : Type 0 where
  pub query-upsert :
      (table : Table) (u k : Text) (t : ℤ) (s : S) (v : Option ℤ)
      → db.query_tokens table u k s ≡ ok v
      → (db.exec_upsert table u k t s).0 ≡ ok tt
      → add64 (row_count v) t ≡ row_count v +ℤ t
      → db.query_tokens table u k (db.exec_upsert table u k t s).1 ≡ ok (some (row_count v +ℤ t))
  pub query-upsert_ne :
      (table other : Table) (u v k j : Text) (t : ℤ) (s : S)
      → ¬ ((table ≡ other) × (u ≡ v) × (k ≡ j))
      → db.query_tokens other v j (db.exec_upsert table u k t s).1 ≡ db.query_tokens other v j s

module _ {S : Type 0} (db : Sql S) (laws : SqlLaws db) (now : Instant) where
  -- An addition that succeeds within the 64-bit range adds to the user's counter of the day.
  pub sqlite_get_daily-add_daily :
      (u : Text) (n t : ℤ) (s : S)
      → (sqlite_backend db now).get_daily u s ≡ ok n
      → ((sqlite_backend db now).add_daily u t s).0 ≡ ok tt
      → add64 n t ≡ n +ℤ t
      → (sqlite_backend db now).get_daily u ((sqlite_backend db now).add_daily u t s).1
        ≡ ok (n +ℤ t)
  unfolding sqlite_backend
  sqlite_get_daily-add_daily u n t s before h fits =
      elim (Result-cases (db.query_tokens quota_daily u (day_key now) s)) [
        | inr (x, failed) ↦ absurd (ground arith)
        | inl (none, found) ↦
            let zero_before : pos 0 ≡ n = ground arith in
            ap tokens_of_row
              (laws.query-upsert quota_daily u (day_key now) t s none found h (rw zero_before fits))
            ∙ ap (λ m. ok (m +ℤ t)) zero_before
        | inl (some m, found) ↦
            let same : m ≡ n = ground arith in
            ap tokens_of_row
              (laws.query-upsert quota_daily u (day_key now) t s (some m) found h (rw same fits))
            ∙ ap (λ i. ok (i +ℤ t)) same
      ]

  -- An addition of one day is on no other user's counter, on no other day's and on no month's.
  pub sqlite_get_daily-add_daily_ne :
      (later : Instant)
      → IsCivil now
      → IsCivil later
      → (u v : Text) (t : ℤ) (s : S)
      → ¬ ((u ≡ v) × (now.year ≡ later.year) × (now.month ≡ later.month) × (now.day ≡ later.day))
      → (sqlite_backend db later).get_daily v ((sqlite_backend db now).add_daily u t s).1
        ≡ (sqlite_backend db later).get_daily v s
  unfolding sqlite_backend
  sqlite_get_daily-add_daily_ne later civil_now civil_later u v t s different = ap tokens_of_row (
      laws.query-upsert_ne quota_daily quota_daily u v (day_key now) (day_key later) t s
        (λ (tables, users, keys).
          let (years, months, days) = day_key-injective now later civil_now civil_later keys in
          different (users, years, months, days)))
