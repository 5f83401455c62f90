-- ===== src/ElasticJob/Tests.antt =====
-- The job system at concrete inputs: two nodes, one job, and JSON that is the job in plain.
use seckill_pkg.Base.{
  ℕ, ◌+◌, ◌*◌, ◌/◌, ◌≡◌, refl, if◌then◌else◌, ltb, ◌&&◌, true, false, none, some, [], ◌∷◌, ◌++◌,
  arith, Text, codes, ◌==◌,
}
use seckill_pkg.Base.Dict.{Dict, lookup, insert}
use seckill_pkg.ElasticJob.Locks.{Cluster, acquired, try_lock, locking, Run, done, next, idle}
use seckill_pkg.ElasticJob.LocksClose.{close, closed_lock_is_taken}
use seckill_pkg.ElasticJob.LocksSafety.{holds, mutual_exclusion, expiry_breaks_exclusion}
use seckill_pkg.ElasticJob.Storage.{
  WatchResponse, Server, key_prefix_for_storage, redis_save, redis_event, etcd_save, etcd_event,
  redis_event-redis_save, etcd_event-etcd_save,
}
use seckill_pkg.ElasticJob.Cron.{Job, Json, second, begin_handler}
use seckill_pkg.ElasticJob.Cycle.{begin_handler_once}
use seckill_pkg.ElasticJob.Global.{made, new_error, start, init_all, get, init_once}

abbrev lock_key : Text
lock_key = codes "lock"

abbrev first_node : ℕ
first_node = 1

abbrev five : ℕ
five = 5

abbrev six : ℕ
six = 6

abbrev first_locked : Cluster
first_locked = acquired idle 1 lock_key

locked_run : Run false idle first_locked
unfolding lookup try_lock
locked_run = next idle idle first_locked (done idle) (locking idle 1 true lock_key)

first_holds : holds first_locked 1 lock_key ≡ true
unfolding lookup insert ◌==◌
first_holds = refl

mutual_exclusion_example : first_node ≡ 1
mutual_exclusion_example =
    mutual_exclusion first_locked first_node 1 lock_key locked_run first_holds first_holds

expiry_breaks_exclusion_example :
    (c : Cluster) × Run true idle c × (holds c 1 lock_key ≡ true) × (holds c 2 lock_key ≡ true)
expiry_breaks_exclusion_example = expiry_breaks_exclusion 1 2 lock_key (omega arith)

-- The seconds that SETEX gets: a part of a second counts as one only when there is nothing else.
unfoldable format_sec : ℕ → ℕ
format_sec d = if ltb 0 d && ltb d second then 1 else d / second

redis_event-redis_save_example :
    redis_event 150
      (key_prefix_for_storage ++ lock_key)
      ((redis_save format_sec true true 100 lock_key (codes "v") 40 []).0)
    ≡ some (record {
      key = lock_key;
      value = if ltb 150 (100 + format_sec (40 * 2) * 1000000000) then codes "v" else [];
      time_now = 0;
    })
redis_event-redis_save_example =
    redis_event-redis_save format_sec true 100 150 40 lock_key (codes "v") []

etcd_event-etcd_save_example :
    etcd_event 150 (etcd_save lock_key (codes "v"))
    ≡ record { key = lock_key; value = codes "v"; time_now = 0 }
etcd_event-etcd_save_example = etcd_event-etcd_save 150 lock_key (codes "v")

-- A job at second 10 that is to run again and again.
abbrev job : Job
job = record {
  key = codes "/system/1";
  delay_time = 10;
  cycle = true;
  tag = codes "mail";
  args = [];
}

-- JSON that knows one job.
abbrev json : Json
json = record { marshal_json = λ j. codes "job"; unmarshal_json = λ s. (job, true) }

abbrev handlers : Dict ℕ
handlers = (codes "mail", 5) ∷ []

abbrev response : WatchResponse
response = record { key = codes "/system/1"; value = codes "job"; time_now = 11 }

-- The job added at second 8.
abbrev added : Server
added =
    (redis_save format_sec true true 8000000000 (codes "/system/1") (codes "job") 2000000000 []).0

began : (begin_handler idle 1 true lock_key).1 ≡ true
unfolding begin_handler lookup try_lock
began = refl

begin_handler_once_example :
    (begin_handler ((begin_handler idle 1 true lock_key).0) 2 true lock_key).1 ≡ false
begin_handler_once_example = begin_handler_once idle 1 2 true true lock_key began

init_once_example :
    (get ((init_all start (made five ∷ made six ∷ [])).0) ≡ some five)
    × ((init_all start (made five ∷ made six ∷ [])).1 ≡ true ∷ true ∷ [])
    × (get ((init_all start (new_error ∷ made six ∷ [])).0) ≡ none)
    × ((init_all start (new_error ∷ made six ∷ [])).1 ≡ false ∷ true ∷ [])
init_once_example = init_once five (made six ∷ [])

closed_lock_is_taken_example :
    try_lock ((close first_locked 1 true 0).0) 2 true lock_key
    ≡ (acquired ((close first_locked 1 true 0).0) 2 lock_key, none)
closed_lock_is_taken_example =
    closed_lock_is_taken first_locked 1 2 0 lock_key locked_run first_holds (omega arith)
