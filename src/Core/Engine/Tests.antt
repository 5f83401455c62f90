-- ===== src/Core/Engine/Tests.antt =====
-- The routes of an engine on a gin that is a pair of a prefix and a list of handlers.
use seckill_pkg.Base.{◌≡◌, refl, true, some, List, [], ◌∷◌, ◌++◌, map, if◌then◌else◌, Text, codes}
use seckill_pkg.Core.Engine.{
  Gin, Documented, EngineOption, new_option, with_enable_rate, with_disable_pprof, apply_options,
  OwnHandlers, Engine, new, group_of, route,
}
use seckill_pkg.Core.Engine.Routes.{guards, base_path, bare, route_is_guarded, own_routes}

-- Handlers are named by texts.
abbrev pairs : Gin Text
pairs = record {
  Group = Text × List Text;
  root = (codes "/", []);
  sub_group = λ (g : Text × List Text) p hs. (g.0 ++ p, g.1 ++ hs);
  use_on = λ (g : Text × List Text) hs. (g.0, g.1 ++ hs);
  handle =
      λ (g : Text × List Text) m p hs. record { method = m; path = g.0 ++ p; handlers = g.1 ++ hs };
  register_any = λ (g : Text × List Text) p hs.
      record { method = codes "GET"; path = g.0 ++ p; handlers = g.1 ++ hs } ∷ [];
  register_pprof = λ (g : Text × List Text).
      record {
        method = codes "GET";
        path = g.0 ++ codes "/debug/pprof/";
        handlers = g.1 ++ codes "pprof" ∷ [];
      }
      ∷ [];
  swagger_handler = codes "swagger";
  prometheus_handler = codes "prometheus";
  cors_handler = codes "cors";
}

abbrev pairs_documented : Documented pairs
pairs_documented = record {
  prefix = λ (g : Text × List Text). g.0;
  middleware = λ (g : Text × List Text). g.1;
  join_paths = λ p q. p ++ q;
  prefix-root = refl;
  middleware-root = refl;
  prefix-sub_group = λ g p hs. refl;
  middleware-sub_group = λ g p hs. refl;
  prefix-use_on = λ g hs. refl;
  middleware-use_on = λ g hs. refl;
  handle_lem = λ g m p hs. refl;
}

abbrev named : OwnHandlers Text Text Text
named = record {
  recovery = λ n. codes "recovery";
  rate = codes "rate";
  health_check = codes "health";
  telemetry_handler = λ m. codes "telemetry";
}

abbrev options : List (EngineOption Text Text → EngineOption Text Text)
options = with_enable_rate ∷ (with_disable_pprof ∷ [])

abbrev same : Text → Text
same t = t

route_is_guarded_example :
    let opt = apply_options options new_option in
    (e : Engine pairs) × (new pairs named (codes "shop") true options ≡ some e)
    × (route pairs same
          (group_of pairs e (codes "/v1"))
          (codes "POST")
          (codes "/orders")
          (codes "order" ∷ [])
        ≡ record {
          method = codes "POST";
          path =
              base_path pairs named pairs_documented (codes "shop")
              ++ codes "/v1"
              ++ codes "/orders";
          handlers =
              (guards pairs named pairs_documented opt ++ codes "telemetry" ∷ [])
              ++ map same (codes "order" ∷ []);
        })
route_is_guarded_example =
    route_is_guarded pairs named pairs_documented same (codes "shop") options (codes "/v1")
      (codes "POST") (codes "/orders") (codes "order" ∷ [])

own_routes_example :
    let opt = apply_options options new_option in
    (e : Engine pairs) × (new pairs named (codes "shop") true options ≡ some e)
    × (e.routes
        ≡ ((if opt.disable_pprof
              then []
              else pairs.register_pprof
                  (pairs.sub_group (pairs.root) (codes "/" ++ codes "shop") []))
            ++ (if opt.disable_swagger
                then []
                else bare pairs named pairs_documented
                    (codes "shop")
                    (codes "/swagger/*any")
                    (codes "swagger")
                  ∷ [])
            ++ (if opt.disable_prometheus
                then []
                else bare pairs named pairs_documented
                    (codes "shop")
                    (codes "/metrics")
                    (codes "prometheus")
                  ∷ []))
          ++ record {
            method = codes "GET";
            path =
                base_path pairs named pairs_documented (codes "shop")
                ++ codes "/system"
                ++ codes "/health";
            handlers = guards pairs named pairs_documented opt ++ codes "health" ∷ [];
          }
            ∷ [])
own_routes_example = own_routes pairs named pairs_documented (codes "shop") options
