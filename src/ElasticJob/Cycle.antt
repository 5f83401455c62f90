-- ===== src/ElasticJob/Cycle.antt =====
-- cron.go with storage/redis.go: a job from AddJob to the turn of run that starts its handler, and what
-- a turn does with a job that is to run again and again.
use seckill_pkg.Base.{
  ℕ, ◌*◌, ◌≤◌, ◌≡◌, ap, ◌∙◌, not, is_some, Bool, true, false, Option, none, some, ◌++◌, arith,
  if◌then◌else◌, Text,
}
use seckill_pkg.Base.Dict.{Dict, lookup}
use seckill_pkg.ElasticJob.Locks.{Cluster, try_lock}
use seckill_pkg.ElasticJob.LocksSafety.{try_lock_takes, try_lock_refuses}
use seckill_pkg.ElasticJob.Storage.{WatchResponse, Server, redis_save}
use seckill_pkg.ElasticJob.Cron.{
  Job, Json, AddError, not_in_future, Save, second, add_job, turn_on, turn, begin_handler,
}

-- The Redis store at one moment, with what the server does of its two commands.
abbrev pub redis_store : (ℕ → ℕ) → Bool → Bool → ℕ → Save Server
redis_store seconds first last now s k v delay = redis_save seconds first last now k v delay s

-- The clock is at or past the time of the job.
abbrev pub IsDue : ℕ → Job → Type 0
IsDue now j = j.delay_time * second ≤ now

-- The JSON of a job reads back.
abbrev pub ReadsBack : Json → Job → Type 0
ReadsBack json j = json.unmarshal_json (json.marshal_json j) ≡ (j, true)

module _ {T : Type 0} (save : Save T) (json : Json) where
  pub started-job :
      {H : Type 0} (md5 : Text → Text) (handlers : Dict H) (now : ℕ) (t : T) (r : WatchResponse)
      (j : Job) (h : H)
      → json.unmarshal_json (r.value) ≡ (j, true)
      → lookup (j.tag) handlers ≡ some h
      → turn save json md5 handlers now t r ≡ record {
        store = if j.cycle then (add_job save json now t j).0 else t;
        spawned = some (md5 (j.key ++ j.tag), j);
        added = if j.cycle then some ((add_job save json now t j).1) else none;
      }
  unfolding turn
  started-job md5 handlers now t r j h e f =
      ap (λ (p : Job × Bool). turn_on save json md5 now t (p.0) (lookup ((p.0).tag) handlers)) e
      ∙ ap (turn_on save json md5 now t j) f

-- Without an error the test on the time did not hold.
abbrev accepted : Bool → Server → Server → Server × Option AddError
accepted past s u = if past then (s, some not_in_future) else (u, none)

-- When the goroutine of one node has begun a handler, no node, itself included, begins one for
-- the same hash in the state after it.
pub begin_handler_once :
    (c : Cluster) (a b : ℕ) (reach reach2 : Bool) (job_hash : Text)
    → (begin_handler c a reach job_hash).1 ≡ true
    → (begin_handler ((begin_handler c a reach job_hash).0) b reach2 job_hash).1 ≡ false
unfolding begin_handler
begin_handler_once c a b reach reach2 job_hash e =
    let free : is_some ((try_lock c a reach job_hash).1) ≡ false = ground (arith, e) in
    let held = try_lock_takes c a reach job_hash free in
    ap not (try_lock_refuses ((try_lock c a reach job_hash).0) a b reach2 job_hash held)
