-- ===== src/Core/Serve/Recovery.antt =====
-- core/core.go: what becomes of a panic behind the recovery and the telemetry. How gin runs the
-- handlers of a route is a parameter.
use seckill_pkg.Base.{
  suc, ◌≡◌, refl, ap, ◌∙◌, Bool, false, List, [], ◌∷◌, ◌++◌, if◌then◌else◌, length,
}
use seckill_pkg.Core.Serve.{
  Served, Outcome, returned, panicked, Next, Handler, Surroundings, bare_span, set_logger,
  after_panic, caught, recover_and_logger, end_span, after_next, telemetry, behind, settle,
  RunsHandlers,
}

module _ {D : Type 0} where
  -- What the client sees is what the handler had written when it panicked.
  abbrev pub IsContained : Bool → Served D → Served D → Type 0
  IsContained notify v r =
      (r.request ≡ v.request)
      × (r.panics_logged ≡ suc (v.panics_logged))
      × (r.notified ≡ (if notify then suc (v.notified) else v.notified))
      × (r.spans ≡ v.spans ++ bare_span ∷ [])
      × (r.metrics ≡ v.metrics)
      × (r.info_logs ≡ v.info_logs)
      × (r.left ≡ v.left)

  telemetry_logged :
      (records : Bool) (env : Surroundings D) (rest : Next D) (w : Served D) (o : Outcome D)
      → rest (set_logger w) ≡ o
      → telemetry records env rest (set_logger w) ≡ after_next records env o
  unfolding telemetry
  telemetry_logged records env rest w o e = ap (after_next records env) e

  -- When gin runs handlers by its loop and a handler behind the recovery and the telemetry
  -- panics, on a request that was not aborted before, the request is left as it was at the
  -- panic, with nothing written in answer to it, one panic is logged, panicNotify is called
  -- once if it is set, one span ends without a status, and no metrics and no line of the log
  -- are put out by then; after this gin ends when the chain was aborted before the panic, and
  -- otherwise runs the handlers that are behind the one that panicked.
  pub panic_goes_on :
      (runs : List (Handler D) → Next D) (notify records : Bool) (env : Surroundings D)
      (hs : List (Handler D)) (w v : Served D)
      → RunsHandlers runs
      → (w.request).aborted ≡ false
      → runs hs (record (set_logger w) { left = length hs }) ≡ panicked v
      → (r : Served D) × IsContained notify v r
        × (runs (recover_and_logger notify ∷ (telemetry records env ∷ hs)) w ≡ (
            if (v.request).aborted
            then returned r
            else runs (behind (v.left) (telemetry records env ∷ hs)) r))
  unfolding recover_and_logger
  panic_goes_on runs notify records env hs w v laws running e =
      let t = telemetry records env in
      let u : Served D = record (set_logger w) { left = suc (length hs) } in
      (
        after_panic notify (end_span bare_span v),
        (refl, refl, refl, refl, refl, refl, refl),
        laws.1 (recover_and_logger notify) (t ∷ hs) w running
            ∙ ap (λ (o : Outcome D). settle runs (t ∷ hs) (caught notify o))
                (laws.1 t hs u running
                  ∙ ap (settle runs hs) (
                      telemetry_logged records env (runs hs) (record w { left = length hs })
                        (panicked v) e)),
      )
