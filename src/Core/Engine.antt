-- ===== src/Core/Engine.antt =====
-- core/core.go: New with its options, the router groups, and the engine. gin is a parameter: its
-- groups, and the routes that it makes.
pub mod Routes
mod Tests
use seckill_pkg.Base.{
  ◌≡◌, Bool, true, false, Option, none, some, List, [], ◌∷◌, ◌++◌, map, if◌then◌else◌, is_some,
  Text, codes,
}

-- A route: its method and path, and the handlers that gin runs for it.
pub record Route (H : Type 0) : Type 0 where
  pub method : Text
  pub path : Text
  pub handlers : List H

-- gin.Engine and gin.RouterGroup, as values: `use_on` gives the group as Use leaves it. The other
-- packages that New calls are fields too: the routes of pprof, and the handlers of the documentation
-- of Swagger, of Prometheus, and of CORS.
pub record Gin (H : Type 0) : Type 1 where
  pub Group : Type 0
  pub root : Group
  pub sub_group : Group → Text → List H → Group
  pub use_on : Group → List H → Group
  pub handle : Group → Text → Text → List H → Route H
  pub register_any : Group → Text → List H → List (Route H)
  pub register_pprof : Group → List (Route H)
  pub swagger_handler : H
  pub prometheus_handler : H
  pub cors_handler : H

-- What the documentation of gin says of a group: it has a prefix and an array of handlers, the handlers
-- are copied to a new group and to a route, and Use appends to the group's own.
pub record Documented {H : Type 0} (gin : Gin H) : Type 0 where
  pub prefix : gin.Group → Text
  pub middleware : gin.Group → List H
  pub join_paths : Text → Text → Text
  pub prefix-root : prefix gin.root ≡ codes "/"
  pub middleware-root : middleware gin.root ≡ []
  pub prefix-sub_group :
      (g : gin.Group) (p : Text) (hs : List H)
      → prefix (gin.sub_group g p hs) ≡ join_paths (prefix g) p
  pub middleware-sub_group :
      (g : gin.Group) (p : Text) (hs : List H)
      → middleware (gin.sub_group g p hs) ≡ middleware g ++ hs
  pub prefix-use_on : (g : gin.Group) (hs : List H) → prefix (gin.use_on g hs) ≡ prefix g
  pub middleware-use_on :
      (g : gin.Group) (hs : List H) → middleware (gin.use_on g hs) ≡ middleware g ++ hs
  pub handle_lem :
      (g : gin.Group) (m p : Text) (hs : List H)
      → gin.handle g m p hs
        ≡ record { method = m; path = join_paths (prefix g) p; handlers = middleware g ++ hs }

-- The record `option`; the callbacks are present or not.
pub record EngineOption (N M : Type 0) : Type 0 where
  pub disable_pprof : Bool
  pub disable_swagger : Bool
  pub disable_prometheus : Bool
  pub panic_notify : Option N
  pub record_metrics : Option M
  pub enable_cors : Bool
  pub enable_rate : Bool

module _ {N M : Type 0} where
  abbrev pub new_option : EngineOption N M
  new_option = record {
    disable_pprof = false;
    disable_swagger = false;
    disable_prometheus = false;
    panic_notify = none;
    record_metrics = none;
    enable_cors = false;
    enable_rate = false;
  }

  abbrev pub with_disable_pprof : EngineOption N M → EngineOption N M
  with_disable_pprof opt = record opt { disable_pprof = true }

  abbrev pub with_disable_swagger : EngineOption N M → EngineOption N M
  with_disable_swagger opt = record opt { disable_swagger = true }

  abbrev pub with_disable_prometheus : EngineOption N M → EngineOption N M
  with_disable_prometheus opt = record opt { disable_prometheus = true }

  abbrev pub with_panic_notify : N → EngineOption N M → EngineOption N M
  with_panic_notify notify opt = record opt { panic_notify = some notify }

  abbrev pub with_record_metrics : M → EngineOption N M → EngineOption N M
  with_record_metrics recorder opt = record opt { record_metrics = some recorder }

  abbrev pub with_enable_cors : EngineOption N M → EngineOption N M
  with_enable_cors opt = record opt { enable_cors = true }

  abbrev pub with_enable_rate : EngineOption N M → EngineOption N M
  with_enable_rate opt = record opt { enable_rate = true }

  -- The options are applied one after the other.
  unfoldable pub apply_options :
      List (EngineOption N M → EngineOption N M) → EngineOption N M → EngineOption N M
  apply_options [] opt = opt
  apply_options (f ∷ fs) opt = apply_options fs (f opt)

-- The handlers that New defines, for what they take from the options.
pub record OwnHandlers (H N M : Type 0) : Type 0 where
  pub recovery : Option N → H
  pub rate : H
  pub health_check : H
  pub telemetry_handler : Option M → H

-- `routes` in the order in which they were registered.
pub record Engine {H : Type 0} (gin : Gin H) : Type 0 where
  pub base_group : gin.Group
  pub routes : List (Route H)

module _ {H N M : Type 0} (gin : Gin H) (own : OwnHandlers H N M) where
  abbrev use_if : Bool → gin.Group → H → gin.Group
  use_if b g h = if b then gin.use_on g (h ∷ []) else g

  abbrev pub debug_routes : EngineOption N M → gin.Group → List (Route H)
  debug_routes opt base =
      (if opt.disable_pprof then [] else gin.register_pprof base)
      ++ (if opt.disable_swagger
          then []
          else gin.handle base (codes "GET") (codes "/swagger/*any") (gin.swagger_handler ∷ [])
            ∷ [])
      ++ (if opt.disable_prometheus
          then []
          else gin.handle base (codes "GET") (codes "/metrics") (gin.prometheus_handler ∷ []) ∷ [])

  -- The base group when the health check is registered.
  abbrev pub guarded_group : EngineOption N M → gin.Group → gin.Group
  guarded_group opt base =
      use_if (opt.enable_rate)
        (gin.use_on (use_if (opt.enable_cors) base (gin.cors_handler))
          (own.recovery (opt.panic_notify) ∷ []))
        (own.rate)

  abbrev pub health_route : gin.Group → Route H
  health_route base =
      let system = gin.sub_group base (codes "/system") [] in
      gin.handle system (codes "GET") (codes "/health") (own.health_check ∷ [])

  -- After the options were applied.
  abbrev pub engine_of : Text → EngineOption N M → Engine gin
  engine_of server_name opt =
      let base = gin.sub_group (gin.root) (codes "/" ++ server_name) [] in
      let guarded = guarded_group opt base in
      record {
        base_group = gin.use_on guarded (own.telemetry_handler (opt.record_metrics) ∷ []);
        routes = debug_routes opt base ++ health_route guarded ∷ [];
      }

  -- New; `none` is the error without a logger.
  unfoldable pub new :
      Text → Bool → List (EngineOption N M → EngineOption N M) → Option (Engine gin)
  new server_name logger options =
      if logger then some (engine_of server_name (apply_options options new_option)) else none

module _ {H : Type 0} (gin : Gin H) where
  -- Engine.Group
  unfoldable pub group_of : Engine gin → Text → gin.Group
  group_of e relative_path = gin.sub_group (e.base_group) relative_path []

  -- The methods of router. `wrap` is what wrapHandlers makes of one handler.
  unfoldable pub group : {F : Type 0} → (F → H) → gin.Group → Text → List F → gin.Group
  group wrap g relative_path handlers = gin.sub_group g relative_path (map wrap handlers)

  unfoldable pub use_handlers : {F : Type 0} → (F → H) → gin.Group → List F → gin.Group
  use_handlers wrap g handlers = gin.use_on g (map wrap handlers)

  unfoldable pub any_route : {F : Type 0} → (F → H) → gin.Group → Text → List F → List (Route H)
  any_route wrap g relative_path handlers = gin.register_any g relative_path (map wrap handlers)

  -- GET, POST, DELETE, PATCH, PUT, OPTIONS and HEAD, by the name of the method.
  unfoldable pub route : {F : Type 0} → (F → H) → gin.Group → Text → Text → List F → Route H
  route wrap g method relative_path handlers = gin.handle g method relative_path (map wrap handlers)
