-- ===== src/ElasticJob.antt =====
-- pkg/elastic_job: jobs, AddJob and the turns of run (cron.go, job.go), InitGlobalJob and Get
-- (global.go), and the lock table of both stores (storage/redis.go, storage/etcd.go).
pub mod Locks
pub mod LocksSafety
pub mod LocksView
pub mod LocksClose
pub mod Reversion
pub mod Setup
pub mod Counter
pub mod Storage
pub mod Cron
pub mod Cycle
pub mod Global
mod Tests
