-- ===== src/Cache/Laws.antt =====
-- What the clients of the cache rely on, and the documented behaviour of Redis.
use relayer_node.Base.{
  ℕ, ◌+◌, ◌<◌, String, ◌≡◌, ◌≢◌, Bool, true, false, Option, none, some, pos, str_eq, str_eq_refl,
  refl, if◌then◌else◌,
}
use relayer_node.Js.Text.{to_string}
use relayer_node.Exec.{returned, waiting}
use relayer_node.Cache.{CacheService, RedisClient, or_empty, is_missing}

-- The values of a cache by their keys.
abbrev pub Contents : Type 0
Contents = String → Option String

-- The contents with one value written.
abbrev pub written : String → Option String → Contents → Contents
written key value before j = if str_eq key j then value else before j

-- A key that has been written has its new value.
pub written-here :
    (key : String) (value : Option String) (before : Contents)
    → written key value before key ≡ value
written-here key value before = rw (str_eq_refl key) refl

-- A cache keeps what is set: the contents decide what is read, and each operation changes its own
-- key alone. A number that is stored is incremented; a key that is missing, or empty, is not.
pub record CacheLaws (c : CacheService) : Type 0 where
  pub view : c.Cache → Contents
  pub get-view :
      (key : String) (w : c.Cache)
      → ((c.get key w).0 ≡ returned (or_empty (view w key)))
        × ((j : String) → view (c.get key w).1 j ≡ view w j)
  pub set-view :
      (key value : String) (w : c.Cache)
      → ((c.set key value w).0 ≡ returned true)
        × ((j : String) → view (c.set key value w).1 j ≡ written key (some value) (view w) j)
  pub delete-view :
      (key : String) (w : c.Cache)
      → ((b : Bool) × ((c.delete key w).0 ≡ returned b))
        × ((j : String) → view (c.delete key w).1 j ≡ written key none (view w) j)
  pub increment-returns :
      (key : String) (by : ℕ) (w : c.Cache) → (b : Bool) × ((c.increment key by w).0 ≡ returned b)
  pub increment-number :
      (key : String) (by n : ℕ) (w : c.Cache)
      → 0 < by
      → view w key ≡ some (to_string n)
      → ((c.increment key by w).0 ≡ returned true)
        × ((j : String)
            → view (c.increment key by w).1 j ≡ written key (some (to_string (n + by))) (view w) j)
  pub increment-missing :
      (key : String) (by : ℕ) (w : c.Cache)
      → is_missing (view w key) ≡ true
      → ((c.increment key by w).0 ≡ returned false)
        × ((j : String) → view (c.increment key by w).1 j ≡ view w j)

-- Redis as it is documented, for a client that is connected: the commands GET, SET, DEL and INCRBY.
pub record RedisLaws (r : RedisClient) : Type 0 where
  pub view : r.Store → Contents
  pub get-view :
      (key : String) (w : r.Store)
      → ((r.get key w).0 ≡ returned (view w key))
        × ((j : String) → view (r.get key w).1 j ≡ view w j)
  pub set-view :
      (key value : String) (w : r.Store)
      → ((r.set key value w).0 ≡ returned tt)
        × ((j : String) → view (r.set key value w).1 j ≡ written key (some value) (view w) j)
  pub del-view :
      (key : String) (w : r.Store)
      → ((n : ℕ) × ((r.del key w).0 ≡ returned n))
        × ((j : String) → view (r.del key w).1 j ≡ written key none (view w) j)
  -- The command answers, if only with an error.
  pub incr_by-ends : (key : String) (by : ℕ) (w : r.Store) → (r.incr_by key by w).0 ≢ waiting
  pub incr_by-number :
      (key : String) (by n : ℕ) (w : r.Store)
      → view w key ≡ some (to_string n)
      → ((r.incr_by key by w).0 ≡ returned (pos (n + by)))
        × ((j : String)
            → view (r.incr_by key by w).1 j ≡ written key (some (to_string (n + by))) (view w) j)
