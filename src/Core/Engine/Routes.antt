-- ===== src/Core/Engine/Routes.antt =====
-- core/core.go: which handlers stand in front of which route.
use seckill_pkg.Base.{
  ◌≡◌, refl, ap, ◌∙◌, Bool, true, false, some, List, [], ◌∷◌, ◌++◌, map, list_laws, append-nil,
  if◌then◌else◌, Text, codes,
}
use seckill_pkg.Core.Engine.{
  Route, Gin, Documented, EngineOption, new_option, apply_options, OwnHandlers, Engine,
  guarded_group, engine_of, new, group_of, route,
}

module _ {H N M : Type 0} (gin : Gin H) (own : OwnHandlers H N M) (doc : Documented gin) where
  open doc use {prefix, middleware, join_paths}

  -- CORS when it is on, the recovery, and the rate limit when it is on.
  abbrev pub guards : EngineOption N M → List H
  guards opt =
      (if opt.enable_cors then gin.cors_handler ∷ [] else [])
      ++ own.recovery (opt.panic_notify) ∷ (if opt.enable_rate then own.rate ∷ [] else [])

  abbrev pub base_path : Text → Text
  base_path server_name = join_paths (codes "/") (codes "/" ++ server_name)

  abbrev base_of : Text → gin.Group
  base_of server_name = gin.sub_group (gin.root) (codes "/" ++ server_name) []

  prefix-base : (server_name : Text) → prefix (base_of server_name) ≡ base_path server_name
  prefix-base server_name =
      doc.prefix-sub_group (gin.root) (codes "/" ++ server_name) []
      ∙ ap (λ p. join_paths p (codes "/" ++ server_name)) (doc.prefix-root)

  middleware-base : (server_name : Text) → middleware (base_of server_name) ≡ []
  middleware-base server_name =
      doc.middleware-sub_group (gin.root) (codes "/" ++ server_name) []
      ∙ ap (λ hs. hs ++ []) (doc.middleware-root)

  -- Groups with the same prefix, and handlers that were appended.
  abbrev Extends : gin.Group → gin.Group → List H → Type 0
  Extends g h hs = (prefix h ≡ prefix g) × (middleware h ≡ middleware g ++ hs)

  use-Extends : (g : gin.Group) (hs : List H) → Extends g (gin.use_on g hs) hs
  use-Extends g hs = (doc.prefix-use_on g hs, doc.middleware-use_on g hs)

  Extends-trans :
      (f g h : gin.Group) (xs ys : List H)
      → Extends f g xs
      → Extends g h ys
      → Extends f h (xs ++ ys)
  Extends-trans f g h xs ys (p, m) (q, n) = (q ∙ p, n ∙ simp (list_laws, m))

  use_if-Extends :
      (b : Bool) (g : gin.Group) (x : H)
      → Extends g (if b then gin.use_on g (x ∷ []) else g) (if b then x ∷ [] else [])
  use_if-Extends true g x = use-Extends g (x ∷ [])
  use_if-Extends false g x = (refl, simp list_laws)

  guarded-Extends :
      (opt : EngineOption N M) (g : gin.Group)
      → Extends g (guarded_group gin own opt g) (guards opt)
  guarded-Extends opt g =
      let cors = if opt.enable_cors then gin.use_on g (gin.cors_handler ∷ []) else g in
      let recovering = gin.use_on cors (own.recovery (opt.panic_notify) ∷ []) in
      Extends-trans g cors (guarded_group gin own opt g)
        (if opt.enable_cors then gin.cors_handler ∷ [] else [])
        (own.recovery (opt.panic_notify) ∷ (if opt.enable_rate then own.rate ∷ [] else []))
        (use_if-Extends (opt.enable_cors) g (gin.cors_handler))
        (Extends-trans cors recovering (guarded_group gin own opt g)
          (own.recovery (opt.panic_notify) ∷ []) (if opt.enable_rate then own.rate ∷ [] else [])
          (use-Extends cors (own.recovery (opt.panic_notify) ∷ []))
          (use_if-Extends (opt.enable_rate) recovering (own.rate)))

  final-Extends :
      (server_name : Text) (opt : EngineOption N M)
      → Extends
          (base_of server_name)
          ((engine_of gin own server_name opt).base_group)
          (guards opt ++ own.telemetry_handler (opt.record_metrics) ∷ [])
  final-Extends server_name opt =
      let guarded = guarded_group gin own opt (base_of server_name) in
      Extends-trans (base_of server_name) guarded ((engine_of gin own server_name opt).base_group)
        (guards opt) (own.telemetry_handler (opt.record_metrics) ∷ [])
        (guarded-Extends opt (base_of server_name))
        (use-Extends guarded (own.telemetry_handler (opt.record_metrics) ∷ []))

  -- A route of a new group below a group.
  below :
      (g : gin.Group) (path : Text) (hs : List H) (p m q : Text) (xs : List H)
      → prefix g ≡ path
      → middleware g ≡ hs
      → gin.handle (gin.sub_group g p []) m q xs
        ≡ record { method = m; path = join_paths (join_paths path p) q; handlers = hs ++ xs }
  below g path hs p m q xs e f =
      doc.handle_lem (gin.sub_group g p []) m q xs
      ∙ ap
          (λ a. record {
            method = m;
            path = join_paths a q;
            handlers = middleware (gin.sub_group g p []) ++ xs;
          })
          (doc.prefix-sub_group g p [] ∙ ap (λ a. join_paths a p) e)
      ∙ ap (λ a. record { method = m; path = join_paths (join_paths path p) q; handlers = a ++ xs })
          (doc.middleware-sub_group g p [] ∙ append-nil (middleware g) ∙ f)

  -- Every route of a group of the engine that New gives has, in front of its own handlers, CORS
  -- when it is on, the recovery, the rate limit when it is on, and the telemetry, in this
  -- order, whatever order the options come in; its path is gin's joining of the root, the name
  -- of the server, the path of the group and its own.
  pub route_is_guarded :
      {F : Type 0} (wrap : F → H) (server_name : Text)
      (options : List (EngineOption N M → EngineOption N M)) (relative_path method path : Text)
      (handlers : List F)
      → let opt = apply_options options new_option in
        (e : Engine gin) × (new gin own server_name true options ≡ some e)
        × (route gin wrap (group_of gin e relative_path) method path handlers ≡ record {
          method = method;
          path = join_paths (join_paths (base_path server_name) relative_path) path;
          handlers =
              (guards opt ++ own.telemetry_handler (opt.record_metrics) ∷ []) ++ map wrap handlers;
        })
  unfolding new group_of route
  route_is_guarded wrap server_name options relative_path method path handlers =
      let opt = apply_options options new_option in
      let ext = final-Extends server_name opt in
      let e = engine_of gin own server_name opt in
      (
        e,
        refl,
        below (e.base_group) (base_path server_name)
            (guards opt ++ own.telemetry_handler (opt.record_metrics) ∷ []) relative_path method
            path (map wrap handlers) (ext.0 ∙ prefix-base server_name)
            (ext.1
              ∙ ap (λ hs. hs ++ (guards opt ++ own.telemetry_handler (opt.record_metrics) ∷ []))
                  (middleware-base server_name)),
      )

  -- The routes of Swagger and of Prometheus have none of these handlers.
  abbrev pub bare : Text → Text → H → Route H
  bare server_name path handler = record {
    method = codes "GET";
    path = join_paths (base_path server_name) path;
    handlers = handler ∷ [];
  }

  handle-base :
      (server_name p : Text) (x : H)
      → gin.handle (base_of server_name) (codes "GET") p (x ∷ []) ≡ bare server_name p x
  handle-base server_name p x =
      doc.handle_lem (base_of server_name) (codes "GET") p (x ∷ [])
      ∙ ap
          (λ a. record {
            method = codes "GET";
            path = join_paths a p;
            handlers = middleware (base_of server_name) ++ x ∷ [];
          })
          (prefix-base server_name)
      ∙ ap
          (λ a. record {
            method = codes "GET";
            path = join_paths (base_path server_name) p;
            handlers = a ++ x ∷ [];
          })
          (middleware-base server_name)

  -- New registers the routes of pprof, Swagger and Prometheus unless they are disabled, and the
  -- health check. Those of Swagger and Prometheus run no other handler, so neither the recovery
  -- nor the rate limit; the health check runs behind these two, and not behind the telemetry.
  pub own_routes :
      (server_name : Text) (options : List (EngineOption N M → EngineOption N M))
      → let opt = apply_options options new_option in
        (e : Engine gin) × (new gin own server_name true options ≡ some e)
        × (e.routes
            ≡ ((if opt.disable_pprof
                  then []
                  else gin.register_pprof (gin.sub_group (gin.root) (codes "/" ++ server_name) []))
                ++ (if opt.disable_swagger
                    then []
                    else bare server_name (codes "/swagger/*any") (gin.swagger_handler) ∷ [])
                ++ (if opt.disable_prometheus
                    then []
                    else bare server_name (codes "/metrics") (gin.prometheus_handler) ∷ []))
              ++ record {
                method = codes "GET";
                path =
                    join_paths
                      (join_paths (base_path server_name) (codes "/system"))
                      (codes "/health");
                handlers = guards opt ++ own.health_check ∷ [];
              }
                ∷ [])
  unfolding new
  own_routes server_name options =
      let opt = apply_options options new_option in
      let ext = guarded-Extends opt (base_of server_name) in
      let first = if opt.disable_pprof then [] else gin.register_pprof (base_of server_name) in
      (
        engine_of gin own server_name opt,
        refl,
        rw
            (
              handle-base server_name (codes "/swagger/*any") (gin.swagger_handler),
              handle-base server_name (codes "/metrics") (gin.prometheus_handler),
              below (guarded_group gin own opt (base_of server_name)) (base_path server_name)
                  (guards opt) (codes "/system") (codes "GET") (codes "/health")
                  (own.health_check ∷ []) (ext.0 ∙ prefix-base server_name)
                  (ext.1 ∙ ap (λ hs. hs ++ guards opt) (middleware-base server_name)),
            )
            refl,
      )
