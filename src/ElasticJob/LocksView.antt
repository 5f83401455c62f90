-- ===== src/ElasticJob/LocksView.antt =====
-- storage/redis.go and storage/etcd.go: the locks as their callers see them, a table of owners, which
-- the lock maps and the server implement.
use seckill_pkg.Base.{ℕ, ◌≡◌, Bool, true, false, Option, none, some, Text, ◌==◌}
use seckill_pkg.Base.Dict.{Dict, lookup}
use seckill_pkg.ElasticJob.Locks.{Cluster, LockError, try_lock, Step, locking, unlocking, expiring}

-- The abstract view: which node owns a key.
abbrev pub Owners : Type 0
Owners = Text → Option ℕ

abbrev pub owners : Cluster → Owners
owners c key = lookup key (c.server)

-- Only one key changes.
abbrev pub Sets : Text → Option ℕ → Owners → Owners → Type 0
Sets key o v w = (w key ≡ o) × ((k : Text) → (key == k) ≡ false → w k ≡ v k)

-- What is called, by which node and on which key, with what TryLock answers; `passes` is the end of
-- a lock's time.
pub data Call : Type 0 where
  tries : ℕ → Text → Option LockError → Call
  unlocks : ℕ → Text → Call
  passes : Text → Call

-- What a call may do to the table. TryLock without an error takes the free key for the node, and with
-- an error does nothing; UnLock gives the node's own key back, or does nothing; a key falls free
-- by itself where locks have a time to live.
pub data Move (ttl : Bool) (v w : Owners) : Call → Type 0 where
  take :
      (node : ℕ) (key : Text)
      → v key ≡ none
      → Sets key (some node) v w
      → Move ttl v w (tries node key none)
  refuse :
      (node : ℕ) (key : Text) (e : LockError)
      → ((k : Text) → w k ≡ v k)
      → Move ttl v w (tries node key (some e))
  give :
      (node : ℕ) (key : Text)
      → v key ≡ some node
      → Sets key none v w
      → Move ttl v w (unlocks node key)
  keep : (node : ℕ) (key : Text) → ((k : Text) → w k ≡ v k) → Move ttl v w (unlocks node key)
  lapse : (key : Text) → ttl ≡ true → Sets key none v w → Move ttl v w (passes key)

-- The call that a step is.
abbrev pub call_of : {ttl : Bool} {c d : Cluster} → Step ttl c d → Call
call_of (locking c node reachable key) = tries node key ((try_lock c node reachable key).1)
call_of (unlocking c node reachable key) = unlocks node key
call_of (expiring c key) = passes key
