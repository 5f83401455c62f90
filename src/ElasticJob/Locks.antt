-- ===== src/ElasticJob/Locks.antt =====
-- storage/redis.go and storage/etcd.go: TryLock and UnLock, which have the same code in both, in a
-- cluster of nodes. The lock server is shared by the nodes and holds a key for one owner at most; a
-- key whose release failed stays with it, as with Redis (etcd would give it to its owner again).
-- Calls of one node do not overlap here, though the code does not see to this.
use seckill_pkg.Base.{
  ℕ, not, ◌&&◌, Bool, true, false, Option, none, some, [], if◌then◌else◌, Text, is_some, eqb,
}
use seckill_pkg.Base.Dict.{Dict, lookup, insert, erase}

-- The server: which node holds a key. A node: the keys of its lockMap.
pub record Cluster : Type 0 where
  pub server : Dict ℕ
  pub lock_map : ℕ → Dict Bool

abbrev pub set_map : Cluster → ℕ → Dict Bool → ℕ → Dict Bool
set_map c node m other = if eqb other node then m else c.lock_map other

pub data LockError : Type 0 where
  locked : LockError
  server_failed : LockError

abbrev pub acquired : Cluster → ℕ → Text → Cluster
acquired c node key = record {
  server = insert key node (c.server);
  lock_map = set_map c node (insert key true (c.lock_map node));
}

-- `reachable` says whether the server answers.
unfoldable pub try_lock : Cluster → ℕ → Bool → Text → Cluster × Option LockError
try_lock c node reachable key =
    if is_some (lookup key (c.lock_map node))
    then (c, some locked)
    else if not reachable
    then (c, some server_failed)
    else if is_some (lookup key (c.server))
    then (c, some locked)
    else (acquired c node key, none)

-- Whether the server holds the key for the node.
abbrev pub owned_by : ℕ → Option ℕ → Bool
owned_by node none = false
owned_by node (some n) = eqb n node

abbrev pub let_go : Cluster → ℕ → Bool → Text → Cluster
let_go c node released key = record {
  server = if released then erase key (c.server) else c.server;
  lock_map = set_map c node (erase key (c.lock_map node));
}

-- The entry leaves the table before the server is asked; the server releases a key for its owner only.
unfoldable pub un_lock : Cluster → ℕ → Bool → Text → Cluster × Option LockError
un_lock c node reachable key =
    let released = reachable && owned_by node (lookup key (c.server)) in
    if is_some (lookup key (c.lock_map node))
    then (let_go c node released key, if released then none else some server_failed)
    else (c, none)

abbrev pub expired : Cluster → Text → Cluster
expired c key = record c { server = erase key (c.server) }

-- A step of the cluster: a call of a node, and, where locks have a time to live as those of Redis
-- have (60 seconds, never renewed), the end of one.
pub data Step : Bool → Cluster → Cluster → Type 0 where
  locking :
      {ttl : Bool}
      → (c : Cluster) (node : ℕ) (reachable : Bool) (key : Text)
      → Step ttl c ((try_lock c node reachable key).0)
  unlocking :
      {ttl : Bool}
      → (c : Cluster) (node : ℕ) (reachable : Bool) (key : Text)
      → Step ttl c ((un_lock c node reachable key).0)
  expiring : (c : Cluster) (key : Text) → Step true c (expired c key)

pub data Run : Bool → Cluster → Cluster → Type 0 where
  done : {ttl : Bool} → (c : Cluster) → Run ttl c c
  next : {ttl : Bool} → (c d e : Cluster) → Run ttl c d → Step ttl d e → Run ttl c e

abbrev pub idle : Cluster
idle = record { server = []; lock_map = λ node. [] }
