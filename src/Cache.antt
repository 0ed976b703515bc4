-- ===== src/Cache.antt =====
-- common/cache: the cache that the services share, as its clients see it, and its implementation
-- over a Redis client. Log lines are left out.
pub mod Laws
pub mod Redis
use relayer_node.Base.{
  ℕ, zero, suc, String, Bool, true, false, not, ◌||◌, Option, none, some, ℤ, pos, str_eq,
}
use relayer_node.Exec.{Exec, ◌>>=◌, ◌>>◌, pure, try_catch, JsError}

-- ICacheService: `Cache` is the state behind it. An increment is by a number that is not negative.
pub record CacheService : Type 1 where
  pub Cache : Type 0
  pub decrement : String → ℕ → Exec Cache Bool
  pub delete : String → Exec Cache Bool
  pub expire : String → ℕ → Exec Cache Bool
  pub get : String → Exec Cache String
  pub increment : String → ℕ → Exec Cache Bool
  pub set : String → String → Exec Cache Bool

-- The package `redis`: a client, and the store that it is connected to. `get` gives null for a key
-- that is not there; `del` the number of the keys it took away; `incr_by` and `decr_by` the new value.
pub record RedisClient : Type 1 where
  pub Store : Type 0
  pub get : String → Exec Store (Option String)
  pub set : String → String → Exec Store (Unit {0})
  pub del : String → Exec Store ℕ
  pub expire : String → ℕ → Exec Store Bool
  pub incr_by : String → ℕ → Exec Store ℤ
  pub decr_by : String → ℕ → Exec Store ℤ

-- A number as a condition: zero is false.
abbrev pub is_positive : ℕ → Bool
is_positive zero = false
is_positive (suc n) = true

abbrev pub is_nonzero : ℤ → Bool
is_nonzero (pos zero) = false
is_nonzero _ = true

-- result || ''
abbrev pub or_empty : Option String → String
or_empty none = ""
or_empty (some text) = text

-- !val
abbrev pub is_missing : Option String → Bool
is_missing none = true
is_missing (some text) = str_eq text ""

-- val == null || val === 'undefined'
abbrev pub is_undefined : Option String → Bool
is_undefined none = true
is_undefined (some text) = str_eq text "undefined"

module _ (client : RedisClient) where
  open client use {Store}

  decrement_found : Bool → String → ℕ → Exec Store Bool
  decrement_found true key decrement_by = pure false
  decrement_found false key decrement_by =
      try_catch (do client.decr_by key decrement_by; pure true) (λ _. pure false)

  -- The key is read outside the `try`.
  unfoldable pub redis_decrement : String → ℕ → Exec Store Bool
  unfolding decrement_found
  redis_decrement key decrement_by = do
    val ← client.get key
    decrement_found (is_undefined val) key decrement_by

  unfoldable pub redis_delete : String → Exec Store Bool
  redis_delete key =
      try_catch (do result ← client.del key; pure (is_positive result)) (λ _. pure false)

  unfoldable pub redis_expire : String → ℕ → Exec Store Bool
  redis_expire key expiry_time = try_catch (client.expire key expiry_time) (λ _. pure false)

  unfoldable pub redis_get : String → Exec Store String
  redis_get key = try_catch (do result ← client.get key; pure (or_empty result)) (λ _. pure "")

  abbrev pub increment_found : Bool → String → ℕ → Exec Store Bool
  increment_found true key increment_by = pure false
  increment_found false key increment_by = do
    result ← client.incr_by key increment_by
    pure (is_nonzero result)

  unfoldable pub redis_increment : String → ℕ → Exec Store Bool
  redis_increment key increment_by =
      try_catch (do val ← client.get key; increment_found (is_missing val) key increment_by)
        (λ _. pure false)

  unfoldable pub redis_set : String → String → Exec Store Bool
  redis_set key value = try_catch (do client.set key value; pure true) (λ _. pure false)

  -- RedisCacheService
  abbrev pub redis_cache_service : CacheService
  redis_cache_service = record {
    Cache = Store;
    decrement = redis_decrement;
    delete = redis_delete;
    expire = redis_expire;
    get = redis_get;
    increment = redis_increment;
    set = redis_set;
  }
