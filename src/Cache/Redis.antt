-- ===== src/Cache/Redis.antt =====
-- RedisCacheService, and what the clients of the cache rely on.
use relayer_node.Base.{String}
use relayer_node.Cache.{RedisClient}
use relayer_node.Cache.Laws.{RedisLaws}

module _ (r : RedisClient) (laws : RedisLaws r) where
  open laws use {view}

  abbrev read : String → r.Store → r.Store
  read key w = (r.get key w).1
