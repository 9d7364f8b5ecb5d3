-- ===== src/Quota/Sqlite.antt =====
-- core/gateway/quota_sqlite.go: counters in two tables of a SQLite file, one row for each user and day
-- or month. The database is a parameter, over a state of its own.
pub mod Laws
use sovereignstack.Prelude.{Bool, true, false, Option, none, some, Result, ok, err}
use sovereignstack.Text.{Text}
use sovereignstack.Int64.{ℤ, pos}
use sovereignstack.Calendar.{Instant}
use sovereignstack.Quota.Backend.{QuotaBackend, BackendError}
use sovereignstack.Quota.Keys.{day_key, month_key}

-- the tables of the schema
pub data Table : Type 0 where
  quota_daily quota_monthly : Table

-- *sql.DB: `exec_upsert` is INSERT … ON CONFLICT DO UPDATE SET tokens = tokens + excluded.tokens on
-- the row of a user and a key, `query_tokens` the SELECT of the row's tokens, with `none` for
-- sql.ErrNoRows; `runs` says whether opening, pinging and creating the schema succeed.
pub record Sql (S : Type 0) : Type 0 where
  pub exec_upsert : Table → Text → Text → ℤ → S → Result BackendError (Unit {0}) × S
  pub query_tokens : Table → Text → Text → S → Result BackendError (Option ℤ)
  pub opens : Text → Bool
  pub pings : Text → Bool
  pub creates_schema : Text → Bool

abbrev pub tokens_of_row : Result BackendError (Option ℤ) → Result BackendError ℤ
tokens_of_row (err x) = err x
tokens_of_row (ok none) = ok (pos 0)
tokens_of_row (ok (some n)) = ok n

unfoldable pub sqlite_backend : {S : Type 0} → Sql S → Instant → QuotaBackend S
sqlite_backend db now = record {
  add_daily = λ u tokens s. db.exec_upsert quota_daily u (day_key now) tokens s;
  add_monthly = λ u tokens s. db.exec_upsert quota_monthly u (month_key now) tokens s;
  get_daily = λ u s. tokens_of_row (db.query_tokens quota_daily u (day_key now) s);
  get_monthly = λ u s. tokens_of_row (db.query_tokens quota_monthly u (month_key now) s);
}

pub data OpenError : Type 0 where
  open_failed ping_failed schema_failed : OpenError

-- `NewSQLiteQuotaBackend`, up to the database that it wraps
unfoldable pub new_sqlite_quota_backend : {S : Type 0} → Sql S → Text → Result OpenError (Unit {0})
new_sqlite_quota_backend db path = elim (db.opens path) [
  | false ↦ err open_failed
  | true ↦ elim (db.pings path) [
    | false ↦ err ping_failed
    | true ↦ elim (db.creates_schema path) [ false ↦ err schema_failed | true ↦ ok tt ]
  ]
]
