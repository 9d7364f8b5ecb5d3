-- ===== src/Quota/Build.antt =====
-- core/gateway/quota_builder.go: which backend a configuration names. Opening a database and reaching
-- a Redis are parameters.
use sovereignstack.Prelude.{
  ◌+◌, Bool, not, ◌&&◌, ◌||◌, [], ◌∷◌, ◌++◌, Result, ok, err, leb, if◌then◌else◌, is_empty,
}
use sovereignstack.Text.{Text, codes, text_eq}
use sovereignstack.Text.Trim.{trim_space}
use sovereignstack.Quota.Redis.{prefix_or_default}

-- config.QuotaConfig with the part of its RedisConfig that decides
pub record QuotaConfig : Type 0 where
  pub backend : Text
  pub sqlite_db : Text
  pub redis_addr : Text
  pub redis_key_prefix : Text

pub data BackendChoice : Type 0 where
  memory : BackendChoice
  sqlite : Text → BackendChoice
  -- the address and the key prefix
  redis : Text → Text → BackendChoice

pub data BuildError : Type 0 where
  no_sqlite_db sqlite_failed no_redis_addr redis_failed : BuildError
  unknown_backend : Text → BuildError

-- strings.ToLower on ASCII letters, which are all that the names have
abbrev pub lower : Text → Text
lower [] = []
lower (b ∷ t) = (if leb 65 b && leb b 90 then b + 32 else b) ∷ lower t

-- the backend with its name, given whether the file opens and Redis answers
unfoldable pub build_quota_backend :
    (Text → Bool) → (Text → Bool) → QuotaConfig → Result BuildError (BackendChoice × Text)
build_quota_backend opens pings cfg =
    let name = lower (trim_space cfg.backend) in
    if is_empty name || text_eq name (codes "memory")
    then ok (memory, codes "memory")
    else if text_eq name (codes "sqlite")
    then if is_empty cfg.sqlite_db
      then err no_sqlite_db
      else if not (opens cfg.sqlite_db)
      then err sqlite_failed
      else ok (sqlite cfg.sqlite_db, codes "sqlite (" ++ cfg.sqlite_db ++ codes ")")
    else if text_eq name (codes "redis")
    then if is_empty cfg.redis_addr
      then err no_redis_addr
      else if not (pings cfg.redis_addr)
      then err redis_failed
      else ok (
        redis cfg.redis_addr (prefix_or_default cfg.redis_key_prefix),
        codes "redis (" ++ cfg.redis_addr ++ codes ")",
      )
    else err (unknown_backend cfg.backend)
