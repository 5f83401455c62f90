-- ===== src/Core/Serve/Recorded.antt =====
-- core/opentelemetry.go: what the telemetry puts out for a request.
use seckill_pkg.Base.{
  ◌-◌, arith, ◌≡◌, ◌⊎◌, inl, inr, refl, ap, ◌∙◌, Bool, true, false, not, ◌&&◌, Option, none, some,
  [], ◌∷◌, ◌++◌, if◌then◌else◌, eqb, Bool-cases,
}
use seckill_pkg.Response.{ApiError, JsonResponse}
use seckill_pkg.Core.{api_error, code_or_500, error_response, aborted_with, get_disable_log}
use seckill_pkg.Core.Guards.{reports}
use seckill_pkg.Core.Serve.{
  Telemetry, SpanStatus, ok, Served, returned, panicked, Next, Surroundings, span_error, bare_span,
  end_span, span_status, answered, after_next, telemetry, served_abort, aborted_or_panicked,
}

module _ {D : Type 0} where
  -- Nothing is put out but a span without attributes and status.
  abbrev pub IsUnrecorded : Served D → Served D → Type 0
  IsUnrecorded v r =
      (r.request ≡ v.request)
      × (r.spans ≡ v.spans ++ bare_span ∷ [])
      × (r.metrics ≡ v.metrics)
      × (r.info_logs ≡ v.info_logs)

  -- A span is fine when the chain was not aborted and the code is 200, and otherwise has the message of
  -- the response as its error.
  abbrev pub IsStatusOf : Surroundings D → Served D → JsonResponse D → SpanStatus → Type 0
  IsStatusOf env v resp s =
      (((v.request).aborted ≡ false) × (env.writer_status (v.request) ≡ 200) × (s ≡ ok))
      ⊎ ((((v.request).aborted ≡ true) ⊎ (eqb (env.writer_status (v.request)) 200 ≡ false))
          × (s ≡ span_error (resp.message)))

  -- The response is put out once: as the attributes of one span, to recordMetrics if it is set, and to
  -- the log unless that is disabled.
  abbrev pub IsRecorded : Bool → Surroundings D → Served D → Served D → JsonResponse D → Type 0
  IsRecorded records env v r resp =
      let t : Telemetry = record {
        method = env.method;
        path = env.uri;
        http_code = env.writer_status (v.request);
        business_code = resp.code;
        cost = (env.end) - (env.start);
      } in
      (r.request ≡ v.request)
      × ((s : SpanStatus) × IsStatusOf env v resp s
          × (r.spans ≡ v.spans ++ record { attributes = some t; status = s } ∷ []))
      × (r.metrics ≡ (if records then v.metrics ++ t ∷ [] else v.metrics))
      × (r.info_logs ≡ (if get_disable_log (v.request) then v.info_logs else v.info_logs ++ t ∷ []))

  span_status_lem :
      (env : Surroundings D) (v : Served D) (resp : JsonResponse D)
      → IsStatusOf env v resp (span_status env (v.request) resp)
  span_status_lem env v resp =
      either ((v.request).aborted) (eqb (env.writer_status (v.request)) 200) refl refl
    where
      either :
          (a c : Bool)
          → (v.request).aborted ≡ a
          → eqb (env.writer_status (v.request)) 200 ≡ c
          → IsStatusOf env v resp (if not a && c then ok else span_error (resp.message))
      either true c e f = inr (inl e, refl)
      either false true e f = inl (e, ground (arith, f), refl)
      either false false e f = inr (inr f, refl)

  abbrev Ends : Bool → Surroundings D → Served D → Served D → Type 0
  Ends records env v r =
      (((eqb (env.writer_status (v.request)) 404 ≡ true) ⊎ ((v.request).response ≡ none))
        × IsUnrecorded v r)
      ⊎ ((resp : JsonResponse D) × (eqb (env.writer_status (v.request)) 404 ≡ false)
          × ((v.request).response ≡ some resp)
          × IsRecorded records env v r resp)

  answered-Ends :
      (records : Bool) (env : Surroundings D) (v : Served D) (o : Option (JsonResponse D))
      → eqb (env.writer_status (v.request)) 404 ≡ false
      → (v.request).response ≡ o
      → Ends records env v (answered records env v o)
  answered-Ends records env v none found e = inl (inr e, (refl, refl, refl, refl))
  answered-Ends records env v (some resp) found e = inr (
    resp,
    found,
    e,
    (refl, (span_status env (v.request) resp, span_status_lem env v resp, refl), refl, refl),
  )

  -- On a request with a logger, when the other handlers return, the telemetry leaves the
  -- request as they left it. When the code is 404 or there is no response, it puts out one span
  -- without attributes and status and nothing else. Otherwise it puts out the method, the path,
  -- the code, the response's own code and the time once: on one span, to recordMetrics if it is
  -- set, and to the log unless that is disabled; the span is fine when the chain was not
  -- aborted and the code is 200, and otherwise has the response's message as its error.
  pub telemetry_records :
      (records : Bool) (env : Surroundings D) (rest : Next D) (w v : Served D)
      → (w.request).logger ≡ true
      → rest w ≡ returned v
      → (r : Served D) × (telemetry records env rest w ≡ returned r)
        × ((((eqb (env.writer_status (v.request)) 404 ≡ true) ⊎ ((v.request).response ≡ none))
              × IsUnrecorded v r)
            ⊎ ((resp : JsonResponse D) × (eqb (env.writer_status (v.request)) 404 ≡ false)
                × ((v.request).response ≡ some resp)
                × IsRecorded records env v r resp))
  unfolding telemetry
  telemetry_records records env rest w v log e =
      let run =
        ap (λ b. if b then after_next records env (rest w) else panicked (end_span bare_span w)) log
        ∙ ap (after_next records env) e in
      elim (Bool-cases (eqb (env.writer_status (v.request)) 404)) [
        | inl missing ↦ (
          end_span bare_span v,
          run
              ∙ ap
                  (λ b.
                    if b
                    then returned (end_span bare_span v)
                    else returned (answered records env v ((v.request).response)))
                  missing,
          inl (inl missing, (refl, refl, refl, refl)),
        )
        | inr found ↦ (
          answered records env v ((v.request).response),
          run
              ∙ ap
                  (λ b.
                    if b
                    then returned (end_span bare_span v)
                    else returned (answered records env v ((v.request).response)))
                  found,
          answered-Ends records env v ((v.request).response) found refl,
        )
      ]

  -- When the handler behind the telemetry ends a request that has a logger with an error, and the code
  -- of gin's writer is then that of the error, other than 404, the error's business code is put
  -- out, and the span has the error's message.
  pub abort_recorded :
      (records : Bool) (env : Surroundings D) (rest : Next D) (w v : Served D) (e : ApiError)
      → (w.request).logger ≡ true
      → (v.request).logger ≡ true
      → env.writer_status (aborted_with (v.request) e) ≡ code_or_500 e
      → eqb (code_or_500 e) 404 ≡ false
      → rest w ≡ served_abort v (api_error e)
      → (r : Served D) × (telemetry records env rest w ≡ returned r)
        × (r.request ≡ aborted_with (v.request) e)
        × (r.spans
            ≡ v.spans
              ++ record {
                attributes = some (record {
                  method = env.method;
                  path = env.uri;
                  http_code = env.writer_status (aborted_with (v.request) e);
                  business_code = e.business_code;
                  cost = (env.end) - (env.start);
                });
                status = span_error (e.message);
              }
                ∷ [])
  unfolding telemetry served_abort
  abort_recorded records env rest w v e log logger code other run =
      let a : Served D = record v { request = aborted_with (v.request) e } in
      let found : eqb (env.writer_status (a.request)) 404 ≡ false =
        ap (λ n. eqb n 404) code ∙ other in
      (
        answered records env a (some (error_response e)),
        ap (λ b. if b then after_next records env (rest w) else panicked (end_span bare_span w)) log
            ∙ ap (after_next records env)
                (run ∙ ap (aborted_or_panicked v) (reports (v.request) e logger))
            ∙ ap
                (λ b.
                  if b
                  then returned (end_span bare_span a)
                  else returned (answered records env a (some (error_response e))))
                found,
        refl,
        refl,
      )
