-- ===== src/Core/Serve.antt =====
-- core/core.go and core/opentelemetry.go: the handlers that New puts in front of every route, on a
-- request that is being served: recovery from a panic, the rate limit, and the telemetry.
pub mod Recovery
pub mod Recorded
pub mod Denied
mod Tests
use seckill_pkg.Base.{
  ℕ, suc, ◌-◌, not, ◌&&◌, Bool, true, false, ◌≡◌, ltb, length, Option, none, some, List, [], ◌∷◌,
  ◌++◌, if◌then◌else◌, eqb, Text,
}
use seckill_pkg.Response.{JsonResponse, new_error_auto_msg, too_many_requests}
use seckill_pkg.Core.{Request, GoError, api_error, abort_with_error, payload, get_disable_log}

-- RequestTelemetry; the cost is a number of nanoseconds.
pub record Telemetry : Type 0 where
  pub method : Text
  pub path : Text
  pub http_code : ℕ
  pub business_code : ℕ
  pub cost : ℕ

pub data SpanStatus : Type 0 where
  unset : SpanStatus
  ok : SpanStatus
  span_error : Text → SpanStatus

-- A span that has ended: its attributes, when they were set, and its status.
pub record Span : Type 0 where
  pub attributes : Option Telemetry
  pub status : SpanStatus

abbrev pub bare_span : Span
bare_span = record { attributes = none; status = unset }

-- A request while it is served, with what its service has put out: the panics that were logged, the
-- calls of panicNotify, the ended spans, the calls of recordMetrics and the lines of the log. `left` is
-- how many handlers of the route are behind the one that gin began last, which is its index.
pub record Served (D : Type 0) : Type 0 where
  pub request : Request D
  pub panics_logged : ℕ
  pub notified : ℕ
  pub spans : List Span
  pub metrics : List Telemetry
  pub info_logs : List Telemetry
  pub left : ℕ

-- A handler returns or panics; what it did to the request before stays done.
pub data Outcome (D : Type 0) : Type 0 where
  returned : Served D → Outcome D
  panicked : Served D → Outcome D

-- What a handler runs when it calls Next.
abbrev pub Next : Type 0 → Type 0
Next D = Served D → Outcome D

-- A gin.HandlerFunc: it is given what Next runs.
abbrev pub Handler : Type 0 → Type 0
Handler D = Next D → Served D → Outcome D

-- What the surroundings of one request are: its method and its unescaped path, the host, the times
-- at which Telemetry starts and ends, and the code that gin's writer holds for a request.
pub record Surroundings (D : Type 0) : Type 0 where
  pub method : Text
  pub uri : Text
  pub start : ℕ
  pub end : ℕ
  pub writer_status : Request D → ℕ

module _ {D : Type 0} where
  abbrev pub set_logger : Served D → Served D
  set_logger w = record w { request = record (w.request) { logger = true } }

  -- The deferred function of the recovery.
  abbrev pub after_panic : Bool → Served D → Served D
  after_panic notify w = record w {
    panics_logged = suc (w.panics_logged);
    notified = if notify then suc (w.notified) else w.notified;
  }

  abbrev pub caught : Bool → Outcome D → Outcome D
  caught notify (returned w) = returned w
  caught notify (panicked w) = returned (after_panic notify w)

  -- The handler "Recover and logger"; `notify` says whether panicNotify is set.
  unfoldable pub recover_and_logger : Bool → Handler D
  recover_and_logger notify next w = caught notify (next (set_logger w))

  -- A call of AbortWithError while a request is served.
  abbrev pub aborted_or_panicked : Served D → Option (Request D) → Outcome D
  aborted_or_panicked w (some c) = returned (record w { request = c })
  aborted_or_panicked w none = panicked w

  unfoldable pub served_abort : Served D → GoError → Outcome D
  served_abort w e = aborted_or_panicked w (abort_with_error (w.request) e)

  -- The handler of WithEnableRate; `allow` is what the limiter says.
  unfoldable pub rate_limited : Bool → Handler D
  rate_limited allow next w =
      if not allow
      then served_abort w (api_error (new_error_auto_msg 429 too_many_requests))
      else next w

  -- The health check answers with a document of the time and the host.
  unfoldable pub health : D → Handler D
  health document next w = returned (record w { request = payload (w.request) (some document) })

  abbrev pub telemetry_of : Surroundings D → Request D → JsonResponse D → Telemetry
  telemetry_of env c resp = record {
    method = env.method;
    path = env.uri;
    http_code = env.writer_status c;
    business_code = resp.code;
    cost = (env.end) - (env.start);
  }

  abbrev pub end_span : Span → Served D → Served D
  end_span s w = record w { spans = w.spans ++ s ∷ [] }

  abbrev pub span_status : Surroundings D → Request D → JsonResponse D → SpanStatus
  span_status env c resp =
      if not (c.aborted) && eqb (env.writer_status c) 200 then ok else span_error (resp.message)

  -- `records` says whether recordMetrics is set.
  abbrev pub reported_as : Bool → Telemetry → SpanStatus → Served D → Served D
  reported_as records t status w =
      let quiet = get_disable_log (w.request) in
      record w {
        spans = w.spans ++ record { attributes = some t; status = status } ∷ [];
        metrics = if records then w.metrics ++ t ∷ [] else w.metrics;
        info_logs = if quiet then w.info_logs else w.info_logs ++ t ∷ [];
      }

  -- After Next, when the code is not 404.
  abbrev pub answered : Bool → Surroundings D → Served D → Option (JsonResponse D) → Served D
  answered records env w none = end_span bare_span w
  answered records env w (some resp) =
      reported_as records (telemetry_of env (w.request) resp) (span_status env (w.request) resp) w

  abbrev pub after_next : Bool → Surroundings D → Outcome D → Outcome D
  after_next records env (panicked w) = panicked (end_span bare_span w)
  after_next records env (returned w) =
      if eqb (env.writer_status (w.request)) 404
      then returned (end_span bare_span w)
      else returned (answered records env w ((w.request).response))

  -- Telemetry. Without a logger it panics, after the span has started.
  unfoldable pub telemetry : Bool → Surroundings D → Handler D
  telemetry records env next w =
      if (w.request).logger
      then after_next records env (next w)
      else panicked (end_span bare_span w)

  -- The last n handlers of a list.
  abbrev pub behind : ℕ → List (Handler D) → List (Handler D)
  behind n [] = []
  behind n (h ∷ hs) = let rest = behind n hs in if ltb (length hs) n then h ∷ hs else rest

  -- What gin's loop does when a handler has returned with the handlers `hs` behind it: it ends when the
  -- chain was aborted, and otherwise goes on behind the handler that began last, so after a
  -- handler that has caught a panic in Next behind the one that panicked.
  abbrev pub settle : (List (Handler D) → Next D) → List (Handler D) → Outcome D → Outcome D
  settle runs hs (panicked v) = panicked v
  settle runs hs (returned v) =
      if (v.request).aborted then returned v else runs (behind (v.left) hs) v

  -- gin's loop, which is what Next runs too, on a request that is not aborted.
  abbrev pub RunsHandlers : (List (Handler D) → Next D) → Type 0
  RunsHandlers runs =
      ((w : Served D) → runs [] w ≡ returned (record w { left = 0 }))
      × ((h : Handler D) (hs : List (Handler D)) (w : Served D)
          → (w.request).aborted ≡ false
          → runs (h ∷ hs) w ≡ settle runs hs (h (runs hs) (record w { left = length hs })))
