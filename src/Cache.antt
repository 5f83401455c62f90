-- ===== src/Cache.antt =====
-- cache/redis.go: the interface Repo as far as the repository calls it, what its documentation and
-- that of Redis say of Set, Get and Del while no time passes, and a store that does as they say.
pub mod Commands
pub mod Store
mod Tests
use seckill_pkg.Base.{ℕ, ◌≡◌, ◌≢◌, Bool, true, Option, none, some, List, [], ◌∷◌, Text, is_empty}

-- What Get gives: a value, redis.Nil, or another error.
pub data Got : Type 0 where
  value : Text → Got
  nil : Got
  failed : Got

-- The client of a Redis server with states `S`. `set` says whether it succeeded, `del` whether it
-- removed a key.
pub record Client (S : Type 0) : Type 0 where
  pub set_key : S → Text → Text → ℕ → S × Bool
  pub get_key : S → Text → Got
  pub del_key : S → Text → S × Bool

module _ {S : Type 0} (c : Client S) where
  abbrev pub set : S → Text → Text → ℕ → S × Bool
  set s key v ttl = c.set_key s key v ttl

  abbrev pub get : S → Text → Got
  get s key = c.get_key s key

  -- An empty key is not sent to the server.
  abbrev pub del : S → Text → S × Bool
  del s [] = (s, true)
  del s (k ∷ key) = c.del_key s (k ∷ key)

-- What the documentation of Redis says of the three commands.
pub record Documented {S : Type 0} (c : Client S) : Type 0 where
  pub get-set :
      (s s2 : S) (k v : Text) (ttl : ℕ)
      → c.set_key s k v ttl ≡ (s2, true)
      → c.get_key s2 k ≡ value v
  pub get-set_other :
      (s s2 : S) (k j v : Text) (ttl : ℕ)
      → c.set_key s k v ttl ≡ (s2, true)
      → k ≢ j
      → c.get_key s2 j ≡ c.get_key s j
  pub get-del : (s s2 : S) (k : Text) → c.del_key s k ≡ (s2, true) → c.get_key s2 k ≡ nil
