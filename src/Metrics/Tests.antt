-- ===== src/Metrics/Tests.antt =====
-- Recording at concrete requests.
use seckill_pkg.Base.{◌≡◌, ◌+◌, List, [], ◌∷◌, some, Text, codes, decimal}
use seckill_pkg.Core.Serve.{Telemetry}
use seckill_pkg.Metrics.{HttpMetrics, no_requests, record_all, with_labels, total_counts}

abbrev order : Telemetry
order = record {
  method = codes "GET";
  path = codes "/orders";
  http_code = 200;
  business_code = 0;
  cost = 5;
}

abbrev recorded : List (Text × Telemetry)
recorded = (codes "t1", order) ∷ ((codes "t2", order) ∷ [])

total_counts_example :
    (r : HttpMetrics) × (record_all decimal (codes "shop") recorded (some no_requests) ≡ some r)
    × ((ls : List Text)
        → r.requests_total ls
          ≡ with_labels decimal (codes "shop") ls recorded + no_requests.requests_total ls)
total_counts_example = total_counts decimal (codes "shop") no_requests recorded
