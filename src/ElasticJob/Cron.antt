-- ===== src/ElasticJob/Cron.antt =====
-- job.go and cron.go: Job, AddJob, RegisterHandler, and a turn of run. MD5, the JSON of a job and the
-- store are parameters; the clock is a number of nanoseconds.
use seckill_pkg.Base.{
  ℕ, ◌-◌, ◌*◌, Bool, true, false, Option, none, some, is_some, not, ◌++◌, if◌then◌else◌, leb, Text,
}
use seckill_pkg.Base.Dict.{Dict, lookup, insert}
use seckill_pkg.ElasticJob.Storage.{WatchResponse}
use seckill_pkg.ElasticJob.Locks.{Cluster, try_lock, un_lock}

-- `delay_time` is seconds since 1970.
pub record Job : Type 0 where
  pub key : Text
  pub delay_time : ℕ
  pub cycle : Bool
  pub tag : Text
  pub args : Text

-- encoding/json of a Job: the text, and the job that a text fills together with whether it parsed.
pub record Json : Type 0 where
  pub marshal_json : Job → Text
  pub unmarshal_json : Text → Job × Bool

pub data AddError : Type 0 where
  not_in_future : AddError
  save_failed : AddError

-- `store.Save`: the new state of the store, and whether it succeeded.
abbrev pub Save : Type 0 → Type 0
Save T = T → Text → Text → ℕ → T × Bool

abbrev pub second : ℕ
second = 1000000000

-- What a turn does: it may start a goroutine for a job, under a hash, and it may add the job again. What
-- the goroutine does is `start_handler` and `end_handler` below.
pub record Turn (T : Type 0) : Type 0 where
  pub store : T
  pub spawned : Option (Text × Job)
  pub added : Option (Option AddError)

module _ {T : Type 0} (save : Save T) (json : Json) where
  abbrev saved : T × Bool → T × Option AddError
  saved (t, true) = (t, none)
  saved (t, false) = (t, some save_failed)

  unfoldable pub add_job : ℕ → T → Job → T × Option AddError
  add_job now t j =
      if leb (j.delay_time * second) now
      then (t, some not_in_future)
      else saved (save t (j.key) (json.marshal_json j) (j.delay_time * second - now))

  -- The turn after the handler of the job's tag was looked up. Without a handler the job is left there.
  -- With one a goroutine is started, which asks for the lock (`start_handler`), and the turn goes
  -- on without waiting for it.
  abbrev pub turn_on : {H : Type 0} → (Text → Text) → ℕ → T → Job → Option H → Turn T
  turn_on md5 now t job none = record { store = t; spawned = none; added = none }
  turn_on md5 now t job (some h) =
      let added = add_job now t job in
      record {
        store = if job.cycle then added.0 else t;
        spawned = some (md5 (job.key ++ job.tag), job);
        added = if job.cycle then some (added.1) else none;
      }

  -- A turn of run on an event. An error of UnmarshalJson is logged, and the turn goes on with the job
  -- as far as it was filled.
  unfoldable pub turn : {H : Type 0} → (Text → Text) → Dict H → ℕ → T → WatchResponse → Turn T
  turn md5 handlers now t response =
      let job = (json.unmarshal_json (response.value)).0 in
      turn_on md5 now t job (lookup (job.tag) handlers)

-- RegisterHandler
unfoldable pub register_handler : {H : Type 0} → Text → H → Dict H → Dict H
register_handler tag h handlers = insert tag h handlers

-- The goroutine of a turn, up to the handler: whether TryLock lets it go on.
unfoldable pub begin_handler : Cluster → ℕ → Bool → Text → Cluster × Bool
begin_handler c node reachable job_hash =
    let r = try_lock c node reachable job_hash in (r.0, not (is_some (r.1)))

-- The goroutine that a turn started, if any: the job with which it calls the handler, if it does.
unfoldable pub start_handler : Cluster → ℕ → Bool → Option (Text × Job) → Cluster × Option Job
start_handler c node reachable none = (c, none)
start_handler c node reachable (some (job_hash, job)) =
    let r = begin_handler c node reachable job_hash in (r.0, if r.1 then some job else none)

-- After the handler and the pause of 3 seconds: an error is logged.
unfoldable pub end_handler : Cluster → ℕ → Bool → Text → Cluster
end_handler c node reachable job_hash = (un_lock c node reachable job_hash).0
