-- ===== src/Lib.antt =====
-- Verification of seckill.pkg, a library of Go packages for services: a decision tree, paging,
-- encryption, tokens and login, distributed delayed jobs, and the handling of requests.
--
-- The parts, and the files that model them:
-- BranchTree: pkg/branch_tree. BranchTree.antt has the nodes and the root (node.go), BranchTree/Add
--   AddNode and dfsTree, BranchTree/Walk Decision and levelOrderTree, BranchTree/Print PrintTree (all
--   tree.go), BranchTree/Park the example. The user's nodes are data with their rules as functions.
-- Page: pkg/page/page_sort.go: Offset, NewPageFromRequest, NewPageFromRequestJSON, Sort.
-- Encrypt: pkg/encrypt. Padding, Blocks and Aes are aes.go (the modes CBC and CTR are those of
--   crypto/cipher), Rsa is rsa.go, RsaFiles its key files, Hex is encode.go and hash.go. Modes and the
--   files named after what they prove hold the proofs.
-- Token: pkg/token: JwtSign, JwtParse, JwtParseUnsafe, the header's prefix, UrlSign.
-- Cache: cache/redis.go. Cache.antt has Set, Get and Del as an interface with the laws that Redis
--   documents, Cache/Commands the other commands and New; Cache/Store is a server that obeys the laws.
-- Login: pkg/login. RefreshTokenSystem and BlackListSystem are the two systems of user_login.go; their
--   methods go by their names, and take and give the state of the Redis server.
-- ElasticJob: pkg/elastic_job. Locks is TryLock and UnLock of both stores, in a cluster of nodes that
--   share a server, with steps as an indexed data type, LocksView the table of owners that they
--   implement, LocksClose the release of locks by Close; Storage is Save and the events of run;
--   Reversion is run and Close of storage/etcd.go with the revision that is saved; Cron is AddJob, a
--   turn of run and its goroutine; Setup is New and Close, Counter the counter of metrics.go; Global
--   is global.go.
-- Response and Core: pkg/response, core/context.go, core/core.go and core/middleware. Core/Engine is New
--   and the router of core.go, Core/Serve the handlers that New puts in front (core.go and
--   opentelemetry.go), Core/Svc and Core/Header the rest of context.go.
-- Logger: pkg/logger. Util: pkg/util. Shutdown: pkg/shutdown. Database: db. Metrics: pkg/metrics and
--   pkg/mysqlerr_helper.
-- Base: the notation and the lemmas that the parts share: Boolean tests, lists over the native
--   numbers, texts as lists of code points, decimal texts, Go maps as association lists, and the
--   ruleset list_laws.
--
-- How they interact: Login signs with Token and keeps its state through the interface of Cache; Core
-- guards requests with Token and answers with Response; a turn of ElasticJob takes the events of
-- Storage and guards its handlers with Locks; New of Core puts Core/Serve in front of the handlers of
-- Core, and its telemetry gives Metrics what it counts.
--
-- Conventions. A Go error is a value of an option or of a type of results, a panic is a constructor of
-- its own or `none` where the comment says so. State is passed along. Numbers are natural unless the
-- code uses negative ones; offsets wrap around at 2^64.
--
-- Fuel. dfsTree takes fuel for the depth of its calls and Decision and PrintTree for the levels of the
-- tree; running out is a value of its own, and theorems say how much is enough. The loops over blocks
-- and chunks in Encrypt take as much fuel as the text has bytes, which is enough, as the round trips
-- say that a result is given. The loop of the etcd store and Close of the hook run on the list of
-- responses or signals that come while they wait.
--
-- Parameters: the block cipher, RSA, the hash functions, HMAC, base64, random bytes, golang-jwt, cast,
-- gjson, JSON of users and jobs, the Redis client, what etcd sends on a watch, gin, gorm, zap,
-- Prometheus, the clock. What is relied on of them are the named hypotheses Lawful, Decodes, Pkcs1,
-- Documented (one for Redis, for etcd and for gin each), KeysDocumented, CastDocumented, RunsHandlers,
-- HasLastCode, SignedReads and ReadsBack, which examples fill.
--
-- Not modelled: the connections themselves, the set-up of tracing, certificates, the binding of
-- requests by gin and its pool of contexts, which are input and output or calls of a library; the
-- formats of time; reflection; cache/metrics.go, which is a copy of a library.
pub mod Base
pub mod BranchTree
pub mod Page
pub mod Encrypt
pub mod Cache
pub mod Token
pub mod Logger
pub mod Util
pub mod Shutdown
pub mod Database
pub mod Metrics
pub mod Login
pub mod ElasticJob
pub mod Response
pub mod Core
