-- ===== src/ElasticJob/Storage.antt =====
-- storage/storage.go, redis.go and etcd.go: the keys under which a job waits, and the event that an
-- expired key becomes. Times are nanoseconds.
use seckill_pkg.Base.{
  ℕ, ◌+◌, ◌*◌, ◌/◌, ◌≡◌, ap, Bool, true, Option, none, some, [], ◌++◌, if◌then◌else◌, ltb, Text,
  codes, has_prefix, trim_prefix, has_prefix-append, trim_prefix-append,
}
use seckill_pkg.Base.Dict.{Dict, lookup, insert, lookup-insert_self}

abbrev pub key_prefix_for_storage : Text
key_prefix_for_storage = codes "MultiCron/StoragePrefix"

pub record WatchResponse : Type 0 where
  pub key : Text
  pub value : Text
  pub time_now : ℕ

-- A value with the time at which Redis drops it.
abbrev pub Server : Type 0
Server = Dict (Text × ℕ)

-- SETEX, when the server carries it out; otherwise the server stays as it was. `seconds` is what the
-- client makes of a duration, as the command takes whole seconds.
unfoldable pub set_ex : (ℕ → ℕ) → Bool → ℕ → Text → Text → ℕ → Server → Server
set_ex seconds answers now k v ttl s =
    if answers then insert k (v, now + seconds ttl * 1000000000) s else s

abbrev live : ℕ → Option (Text × ℕ) → Text
live now none = []
live now (some (v, end)) = if ltb now end then v else []

-- StringCmd.Val of GET: the empty text when there is none.
unfoldable pub get_val : ℕ → Text → Server → Text
get_val now k s = live now (lookup k s)

-- Save reports no error, whichever of its two commands the server carries out.
unfoldable pub redis_save : (ℕ → ℕ) → Bool → Bool → ℕ → Text → Text → ℕ → Server → Server × Bool
redis_save seconds first last now k v delay s = (
  set_ex seconds last now k v (delay * 2)
      (set_ex seconds first now (key_prefix_for_storage ++ k) (codes "1") delay s),
  true,
)

-- A turn of redisStorage.run on the name of an expired key; `none` is `continue`.
unfoldable pub redis_event : ℕ → Text → Server → Option WatchResponse
redis_event now payload s =
    let k = trim_prefix payload key_prefix_for_storage in
    if has_prefix payload key_prefix_for_storage
    then some (record { key = k; value = get_val now k s; time_now = now / 1000000000 })
    else none

-- A key of etcd with its value.
unfoldable pub etcd_save : Text → Text → Text × Text
etcd_save k v = (key_prefix_for_storage ++ k, v)

-- A delete event of etcdStorage.run, with the key and the value that it had.
unfoldable pub etcd_event : ℕ → Text × Text → WatchResponse
etcd_event now (k, prev) = record {
  key = trim_prefix k key_prefix_for_storage;
  value = prev;
  time_now = now / 1000000000;
}

-- The event of a job that was saved to Redis names the job's key; when the server carried out the
-- second command it carries the job's value while the seconds for twice the delay are not over,
-- and an empty value from then on.
pub redis_event-redis_save :
    (seconds : ℕ → ℕ) (first : Bool) (start now delay : ℕ) (k v : Text) (s : Server)
    → redis_event now
        (key_prefix_for_storage ++ k)
        ((redis_save seconds first true start k v delay s).0)
      ≡ some (record {
        key = k;
        value = if ltb now (start + seconds (delay * 2) * 1000000000) then v else [];
        time_now = now / 1000000000;
      })
unfolding redis_event redis_save get_val set_ex
redis_event-redis_save seconds first start now delay k v s =
    let waiting = set_ex seconds first start (key_prefix_for_storage ++ k) (codes "1") delay s in
    rw (has_prefix-append key_prefix_for_storage k, trim_prefix-append key_prefix_for_storage k)
      (ap (λ o. some (record { key = k; value = live now o; time_now = now / 1000000000 }))
        (lookup-insert_self k (v, start + seconds (delay * 2) * 1000000000) waiting))

-- The event of a job that was saved to etcd gives the job's key and value, whenever it is handled.
pub etcd_event-etcd_save :
    (now : ℕ) (k v : Text)
    → etcd_event now (etcd_save k v) ≡ record { key = k; value = v; time_now = now / 1000000000 }
unfolding etcd_event etcd_save
etcd_event-etcd_save now k v =
    ap (λ x. record { key = x; value = v; time_now = now / 1000000000 })
      (trim_prefix-append key_prefix_for_storage k)
