-- ===== src/ElasticJob/Setup.antt =====
-- cron.go and storage.go: New with its options, and Close. zap, the clients of Redis and etcd and
-- Prometheus are parameters.
use seckill_pkg.Base.{
  ◌⊎◌, ◌≡◌, ◌≢◌, refl, ap, ◌∙◌, inl, inr, Bool, true, false, not, ◌&&◌, ◌||◌, Option, none, some,
  List, [], ◌∷◌, arith, if◌then◌else◌, Text, codes, ◌==◌, ==_iff, Bool-cases,
}

abbrev pub etcd : Text
etcd = codes "ETCD"

abbrev pub redis : Text
redis = codes "REDIS"

-- The record `config`; `C` is a storage.Config.
pub record JobConfig (C : Type 0) : Type 0 where
  pub storage_type : Text
  pub storage_config : Option C
  pub logger : Bool
  pub should_metrics : Bool
  pub server_name : Text

-- The store of a job system, by the package that made it.
pub data Store (R E : Type 0) : Type 0 where
  on_redis : R → Store R E
  on_etcd : E → Store R E

-- A job system as New leaves it; `metrics` is the namespace of its metrics, when it has some.
pub record JobSystem (C R E : Type 0) : Type 0 where
  pub config : JobConfig C
  pub own_logger : Bool
  pub metrics : Option Text
  pub store : Store R E

-- Why New fails: zap.NewDevelopment, or the store.
pub data NewError : Type 0 where
  logger_failed : NewError
  storage_failed : NewError

-- What New calls: whether NewDevelopment succeeds, whether the metrics were registered before, and
-- what the two stores give, `none` for an error.
pub record Outside (C R E : Type 0) : Type 0 where
  pub new_development : Bool
  pub metrics_registered : Bool
  pub new_redis_storage : Option C → Option R
  pub new_etcd_storage : Option C → Option E

module _ {C : Type 0} where
  abbrev pub empty_config : JobConfig C
  empty_config = record {
    storage_type = [];
    storage_config = none;
    logger = false;
    should_metrics = false;
    server_name = [];
  }

  abbrev pub with_storage : Text → C → JobConfig C → JobConfig C
  with_storage t sc c = record c { storage_type = t; storage_config = some sc }

  abbrev pub with_logger : JobConfig C → JobConfig C
  with_logger c = record c { logger = true }

  abbrev pub with_metrics : JobConfig C → JobConfig C
  with_metrics c = record c { should_metrics = true }

  abbrev pub with_server_name : Text → JobConfig C → JobConfig C
  with_server_name server_name c = record c { server_name = server_name }

  unfoldable pub apply_options : List (JobConfig C → JobConfig C) → JobConfig C → JobConfig C
  apply_options [] c = c
  apply_options (f ∷ fs) c = apply_options fs (f c)

module _ {R E : Type 0} where
  abbrev pub as_redis : Option R → Option (Store R E)
  as_redis none = none
  as_redis (some r) = some (on_redis r)

  abbrev pub as_etcd : Option E → Option (Store R E)
  as_etcd none = none
  as_etcd (some e) = some (on_etcd e)

-- What New gives. Registering the metrics twice panics.
pub data NewResult (C R E : Type 0) : Type 0 where
  made : JobSystem C R E → NewResult C R E
  failed : NewError → NewResult C R E
  panicked : NewResult C R E

module _ {C R E : Type 0} where
  abbrev pub with_store : JobConfig C → Option (Store R E) → NewResult C R E
  with_store cfg none = failed storage_failed
  with_store cfg (some s) = made (record {
    config = cfg;
    own_logger = not (cfg.logger);
    metrics = if cfg.should_metrics then some [] else none;
    store = s;
  })

  -- The switch over the type of the store.
  abbrev pub store_of : Outside C R E → JobConfig C → Option (Store R E)
  store_of o cfg =
      if cfg.storage_type == etcd
      then as_etcd (o.new_etcd_storage (cfg.storage_config))
      else if cfg.storage_type == redis
      then as_redis (o.new_redis_storage (cfg.storage_config))
      else as_etcd (o.new_etcd_storage (cfg.storage_config))

  unfoldable pub new : Outside C R E → List (JobConfig C → JobConfig C) → NewResult C R E
  new o opts =
      let cfg = apply_options opts empty_config in
      if not (cfg.logger || o.new_development)
      then failed logger_failed
      else if cfg.should_metrics && o.metrics_registered
      then panicked
      else with_store cfg (store_of o cfg)

-- Close cancels the context, and its error is that of the store; the second component says whether the
-- context is done.
unfoldable pub close : Bool → Bool × Bool
close store_fails = (store_fails, true)

redis-etcd : (redis == etcd) ≡ false
unfolding ◌==◌
redis-etcd = refl

-- The switch chooses the first for Redis and the second otherwise.
switch :
    {X : Type 0} (t : Text) (a b : X)
    → ((t ≡ redis) × ((if t == etcd then b else if t == redis then a else b) ≡ a))
      ⊎ ((t ≢ redis) × ((if t == etcd then b else if t == redis then a else b) ≡ b))
switch t a b = elim (Bool-cases (t == redis)) [
  | inl e ↦
      let same : t ≡ redis = (==_iff t redis).0 e in
      let other : (t == etcd) ≡ false = ap (λ x. x == etcd) same ∙ redis-etcd in
      inl (
        same,
        ap (λ x. if x then b else if t == redis then a else b) other
            ∙ ap (λ x. if x then a else b) e,
      )
  | inr e ↦ inr (
    λ same. absurd (ground (arith, e, (==_iff t redis).1 same)),
    ap (λ x. if t == etcd then b else if x then a else b) e ∙ both (t == etcd) b,
  )
]
  where
    both : {X : Type 0} (c : Bool) (b : X) → (if c then b else b) ≡ b
    both true b = refl
    both false b = refl

module _ {C R E : Type 0} where
  made_with :
      (o : Outside C R E) (cfg : JobConfig C) (r : NewResult C R E)
      → cfg.logger || o.new_development ≡ true
      → cfg.should_metrics && o.metrics_registered ≡ false
      → (if not (cfg.logger || o.new_development)
          then failed logger_failed
          else if cfg.should_metrics && o.metrics_registered
          then panicked
          else r)
        ≡ r
  made_with o cfg r log metrics =
      ap
        (λ b.
          if not b
          then failed logger_failed
          else if cfg.should_metrics && o.metrics_registered
          then panicked
          else r)
        log
      ∙ ap (λ b. if b then panicked else r) metrics

  -- With a logger, or when zap makes one, and without metrics or with metrics that are not
  -- registered yet, New gives a system on the Redis store exactly when the type is that of
  -- Redis, and on the etcd store for every other type, also for none; without an error of this
  -- store the system has it, and with one New fails.
  pub new_store :
      (o : Outside C R E) (opts : List (JobConfig C → JobConfig C))
      → (apply_options opts empty_config).logger || o.new_development ≡ true
      → (apply_options opts empty_config).should_metrics && o.metrics_registered ≡ false
      → let cfg = apply_options opts empty_config in
        ((cfg.storage_type ≡ redis)
          × (new o opts ≡ with_store cfg (as_redis (o.new_redis_storage (cfg.storage_config)))))
        ⊎ ((cfg.storage_type ≢ redis)
            × (new o opts ≡ with_store cfg (as_etcd (o.new_etcd_storage (cfg.storage_config)))))
  unfolding new
  new_store o opts log metrics =
      let cfg = apply_options opts empty_config in
      let first = made_with o cfg (with_store cfg (store_of o cfg)) log metrics in
      elim (switch (cfg.storage_type) (as_redis (o.new_redis_storage (cfg.storage_config)))
        (as_etcd (o.new_etcd_storage (cfg.storage_config)))) [
          | inl (same, s) ↦ inl (same, first ∙ ap (with_store cfg) s)
          | inr (other, s) ↦ inr (other, first ∙ ap (with_store cfg) s)
        ]
