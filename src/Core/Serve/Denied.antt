-- ===== src/Core/Serve/Denied.antt =====
-- core/core.go, core/opentelemetry.go and core/middleware/middle_jwt.go together: a request that reaches
-- a route whose first own handler is the guard of Jwt. How gin runs the handlers of a route is a
-- parameter.
use seckill_pkg.Base.{
  ℕ, ◌≡◌, ◌⊎◌, inl, inr, refl, ap, sym, subst, ◌∙◌, Bool, true, false, Option, none, some, List, [],
  ◌∷◌, ◌++◌, map, if◌then◌else◌, eqb, Text, some_inj, arith, suc, ltb, length,
}
use seckill_pkg.Token.{Claims, Jwt}
use seckill_pkg.Response.{ApiError, JsonResponse, authorization_error, token_expired}
use seckill_pkg.Core.{Request, set_user, error_response, next, chain, jwt_auth, wrap_auth_handler}
use seckill_pkg.Core.Guards.{Passes, IsDenied, auth_guards}
use seckill_pkg.Core.Serve.{
  Telemetry, Served, Outcome, returned, panicked, Next, Handler, Surroundings, set_logger, caught,
  recover_and_logger, telemetry_of, after_next, telemetry, bare_span, end_span, behind, settle,
  RunsHandlers,
}
use seckill_pkg.Core.Serve.Recorded.{telemetry_records}

module _ {D : Type 0} where
  abbrev pub after_handler : Served D → Option (Request D) → Outcome D
  after_handler w none = panicked w
  after_handler w (some c) = returned (record w { request = c })

  -- wrapHandlers makes a handler of gin from one of the package; it does not call Next itself.
  unfoldable pub wrap_handler : (Request D → Option (Request D)) → Handler D
  wrap_handler f rest w = after_handler w (f (w.request))

  unfoldable pub wrap_handlers : List (Request D → Option (Request D)) → List (Handler D)
  wrap_handlers fs = map wrap_handler fs

  -- The writer has the code of the document that was written last.
  abbrev pub HasLastCode : Surroundings D → Type 0
  HasLastCode env =
      (c : Request D) (before : List (ℕ × JsonResponse D)) (code : ℕ) (doc : JsonResponse D)
      → c.written ≡ before ++ (code, doc) ∷ []
      → env.writer_status c ≡ code

  chain-one : (f : Request D → Option (Request D)) (c : Request D) → chain (f ∷ []) c ≡ f c
  unfolding chain
  chain-one f c = last (f c)
    where
      last : (o : Option (Request D)) → next (λ (d : Request D). some d) o ≡ o
      last none = refl
      last (some d) = both (d.aborted) d
        where
          both : (b : Bool) (d : Request D) → (if b then some d else some d) ≡ some d
          both true d = refl
          both false d = refl

  abbrev pub with_user : Served D → Claims → Served D
  with_user w k = record w { request = set_user (w.request) (k.user_id) (k.user_name) }

  -- What a refusal gives to recordMetrics if it is set: one more call, with code 401 and one of the two
  -- business codes.
  abbrev pub IsRefusalRecorded : Bool → Served D → Served D → Type 0
  IsRefusalRecorded records w r =
      (t : Telemetry) × (t.http_code ≡ 401)
      × ((t.business_code ≡ authorization_error) ⊎ (t.business_code ≡ token_expired))
      × (r.metrics ≡ (if records then w.metrics ++ t ∷ [] else w.metrics))

  -- What gin, the recovery and the telemetry make of what the handlers behind these two do.
  abbrev pub around :
      (List (Handler D) → Next D)
      → Bool
      → Bool
      → Surroundings D
      → List (Handler D)
      → Outcome D
      → Outcome D
  around runs notify records env hs o =
      settle runs (telemetry records env ∷ hs)
        (caught notify (settle runs hs (after_next records env o)))

  -- What the handlers behind the recovery and the telemetry are run on.
  abbrev pub entered : List (Handler D) → Served D → Served D
  entered hs w = record (set_logger w) { left = length hs }

  begin :
      (runs : List (Handler D) → Next D) (notify records : Bool) (env : Surroundings D)
      (hs : List (Handler D)) (w : Served D)
      → RunsHandlers runs
      → (w.request).aborted ≡ false
      → runs (recover_and_logger notify ∷ (telemetry records env ∷ hs)) w
        ≡ around runs notify records env hs (runs hs (entered hs w))
  unfolding recover_and_logger telemetry
  begin runs notify records env hs w laws running =
      let t = telemetry records env in
      let u : Served D = record (set_logger w) { left = suc (length hs) } in
      laws.1 (recover_and_logger notify) (t ∷ hs) w running
      ∙ ap (λ (o : Outcome D). settle runs (t ∷ hs) (caught notify o)) (laws.1 t hs u running)

  settle-aborted :
      (runs : List (Handler D) → Next D) (hs : List (Handler D)) (v : Served D)
      → (v.request).aborted ≡ true
      → settle runs hs (returned v) ≡ returned v
  settle-aborted runs hs v e = ap (λ b. if b then returned v else runs (behind (v.left) hs) v) e

  behind_all : (hs : List (Handler D)) → behind (length hs) hs ≡ hs
  behind_all [] = refl
  behind_all (h ∷ hs) =
      let all : ltb (length hs) (suc (length hs)) ≡ true = ground arith in
      ap (λ b. if b then h ∷ hs else behind (suc (length hs)) hs) all

  -- A handler of the package that returns without an abort: the handlers behind it run.
  step_on :
      (runs : List (Handler D) → Next D) (f : Request D → Option (Request D))
      (hs : List (Handler D)) (w : Served D) (c : Request D)
      → RunsHandlers runs
      → (w.request).aborted ≡ false
      → f (w.request) ≡ some c
      → c.aborted ≡ false
      → runs (wrap_handler f ∷ hs) w ≡ runs hs (record w { request = c; left = length hs })
  unfolding wrap_handler
  step_on runs f hs w c laws running e going =
      let v : Served D = record w { request = c; left = length hs } in
      laws.1 (wrap_handler f) hs w running
      ∙ ap (λ o. settle runs hs (after_handler (record w { left = length hs }) o)) e
      ∙ ap (λ b. if b then returned v else runs (behind (length hs) hs) v) going
      ∙ ap (λ l. runs l v) (behind_all hs)

  step_end :
      (runs : List (Handler D) → Next D) (f : Request D → Option (Request D))
      (hs : List (Handler D)) (w : Served D) (c : Request D)
      → RunsHandlers runs
      → (w.request).aborted ≡ false
      → f (w.request) ≡ some c
      → c.aborted ≡ true
      → runs (wrap_handler f ∷ hs) w ≡ returned (record w { request = c; left = length hs })
  unfolding wrap_handler
  step_end runs f hs w c laws running e ended =
      laws.1 (wrap_handler f) hs w running
      ∙ ap (λ o. settle runs hs (after_handler (record w { left = length hs }) o)) e
      ∙ settle-aborted runs hs (record w { request = c; left = length hs }) ended

  abbrev Denial :
      (List (Handler D) → Next D)
      → Bool
      → Bool
      → Surroundings D
      → List (Handler D)
      → Served D
      → Served D
      → Type 0
  Denial runs notify records env hs w v =
      (r : Served D) × (around runs notify records env hs (returned v) ≡ returned r)
      × IsDenied (w.request) (r.request)
      × IsRefusalRecorded records w r

  -- The record of a handler that refused a request.
  denial :
      (runs : List (Handler D) → Next D) (notify records : Bool) (env : Surroundings D)
      (hs : List (Handler D)) (w v : Served D)
      → HasLastCode env
      → (w.request).logger ≡ true
      → IsDenied (w.request) (v.request)
      → v.metrics ≡ w.metrics
      → Denial runs notify records env hs w v
  unfolding telemetry
  denial runs notify records env hs w v last log
        (ended, same_user, (e, written, response, business)) same_metrics =
      let d = v.request in
      let code : env.writer_status d ≡ 401 =
        last d ((w.request).written) 401 (error_response e) written in
      let found : eqb (env.writer_status d) 404 ≡ false = ap (λ n. eqb n 404) code in
      let told = telemetry_records records env (λ _. returned v) w v log refl in
      let here : IsDenied (w.request) d = (ended, same_user, (e, written, response, business)) in
      let ends : (told.0).request ≡ d
          → around runs notify records env hs (returned v) ≡ returned (told.0) =
        λ same.
          let over : ((told.0).request).aborted ≡ true =
            ap (λ (c : Request D). c.aborted) same ∙ ended in
          ap
            (λ (o : Outcome D).
              settle runs (telemetry records env ∷ hs) (caught notify (settle runs hs o)))
            (sym (
                ap
                  (λ b.
                    if b
                    then after_next records env (returned v)
                    else panicked (end_span bare_span w))
                  log)
              ∙ told.1)
          ∙ ap (λ (o : Outcome D). settle runs (telemetry records env ∷ hs) (caught notify o))
              (settle-aborted runs hs (told.0) over)
          ∙ settle-aborted runs (telemetry records env ∷ hs) (told.0) over in
      elim (told.2) [
        | inl (nothing, unrecorded) ↦ absurd (impossible e nothing found response)
        | inr (resp, f, is_resp, recorded) ↦
            let same : resp ≡ error_response e = some_inj (sym is_resp ∙ response) in
            let t : Telemetry = telemetry_of env d resp in
            (
              told.0,
              ends (recorded.0),
              subst (λ c. IsDenied (w.request) c) (sym (recorded.0)) here,
              (
                t,
                code,
                subst (λ (b : ℕ). (b ≡ authorization_error) ⊎ (b ≡ token_expired))
                    (sym (ap (λ (x : JsonResponse D). x.code) same)) business,
                recorded.2 ∙ ap (λ m. if records then m ++ t ∷ [] else m) same_metrics,
              ),
            )
      ]
    where
      impossible :
          (e : ApiError)
          → (eqb (env.writer_status (v.request)) 404 ≡ true) ⊎ ((v.request).response ≡ none)
          → eqb (env.writer_status (v.request)) 404 ≡ false
          → (v.request).response ≡ some (error_response e)
          → ⊥
      impossible e (inl at) found there = ground (arith, at, found)
      impossible e (inr gone) found there = ground (arith, gone, there)

  -- When gin runs handlers by its loop, behind the recovery and the telemetry, on a request
  -- that is not aborted, a route whose first own handler is WrapAuthHandler with Jwt either
  -- runs its other handlers next, with exactly the user and the name of the valid token, or
  -- answers with code 401, runs none of them, and gives this code and the business code to
  -- recordMetrics if it is set; gin's writer has the code that was written last.
  pub auth_is_recorded :
      (runs : List (Handler D) → Next D) (notify records : Bool) (env : Surroundings D) (jwt : Jwt)
      (secret auth : Text) (fs : List (Request D → Option (Request D))) (w : Served D)
      → RunsHandlers runs
      → HasLastCode env
      → (w.request).aborted ≡ false
      → let guard = wrap_auth_handler (λ _. jwt_auth jwt secret auth) in
        let hs = wrap_handlers (guard ∷ fs) in
        let served = runs (recover_and_logger notify ∷ (telemetry records env ∷ hs)) w in
        ((k : Claims) × Passes jwt secret auth k
          × (served
              ≡ around runs notify records env hs
                  (runs (wrap_handlers fs) (entered (wrap_handlers fs) (with_user w k)))))
        ⊎ ((r : Served D) × (served ≡ returned r)
            × IsDenied ((set_logger w).request) (r.request)
            × IsRefusalRecorded records w r)
  unfolding wrap_handlers set_user chain
  auth_is_recorded runs notify records env jwt secret auth fs w laws last running =
      let guard : Request D → Option (Request D) =
        wrap_auth_handler (λ _. jwt_auth jwt secret auth) in
      let hs = wrap_handlers (guard ∷ fs) in
      let v = entered hs w in
      let start = begin runs notify records env hs w laws running in
      elim (auth_guards jwt secret auth [] (v.request) refl running) [
        | inl (k, passes, e) ↦ inl (
          k,
          passes,
          start
              ∙ ap (around runs notify records env hs) (
                  step_on runs guard (wrap_handlers fs) v ((with_user v k).request) laws running
                    (sym (chain-one guard (v.request)) ∙ e) running),
        )
        | inr (d, e, denied) ↦
            let refused =
              denial runs notify records env hs v
                (record v { request = d; left = length (wrap_handlers fs) }) last refl denied
                refl in
            inr (
              refused.0,
              start
                  ∙ ap (around runs notify records env hs) (
                      step_end runs guard (wrap_handlers fs) v d laws running
                        (sym (chain-one guard (v.request)) ∙ e) (denied.0))
                  ∙ refused.1,
              refused.2,
              refused.3,
            )
      ]
