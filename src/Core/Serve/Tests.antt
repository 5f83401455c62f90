-- ===== src/Core/Serve/Tests.antt =====
-- Requests that are served behind the recovery and the telemetry, at concrete inputs.
use seckill_pkg.Base.{
  ℕ, suc, ◌≡◌, ◌⊎◌, refl, ap, sym, ◌∙◌, Bool, if◌then◌else◌, ltb, length, arith, true, false,
  Option, none, some, List, [], ◌∷◌, ◌++◌, eqb, codes,
}
use seckill_pkg.Token.{Claims}
use seckill_pkg.Token.Plain.{plain_jwt, ann_token}
use seckill_pkg.Response.{JsonResponse}
use seckill_pkg.Core.{Request, payload, jwt_auth, wrap_auth_handler}
use seckill_pkg.Core.Guards.{Passes, IsDenied}
use seckill_pkg.Core.Serve.{
  Served, returned, panicked, Next, Handler, Surroundings, set_logger, recover_and_logger, Outcome,
  telemetry, behind, settle, RunsHandlers,
}
use seckill_pkg.Core.Serve.Recovery.{IsContained, panic_goes_on}
use seckill_pkg.Core.Serve.Recorded.{IsUnrecorded, IsRecorded, telemetry_records}
use seckill_pkg.Core.Serve.Denied.{
  HasLastCode, wrap_handlers, with_user, around, entered, IsRefusalRecorded, auth_is_recorded,
}

abbrev fresh : Request ℕ
fresh = record {
  logger = true;
  response = none;
  user_id = none;
  user_name = none;
  disable_log = none;
  aborted = false;
  written = [];
  errors_logged = 0;
}

abbrev arrived : Served ℕ
arrived = record {
  request = fresh;
  panics_logged = 0;
  notified = 0;
  spans = [];
  metrics = [];
  info_logs = [];
  left = 0;
}

-- The code of the last document, 200 when there is none.
abbrev last_code : List (ℕ × JsonResponse ℕ) → ℕ
last_code [] = 200
last_code ((code, doc) ∷ []) = code
last_code (a ∷ (b ∷ more)) = last_code (b ∷ more)

abbrev env : Surroundings ℕ
env = record {
  method = codes "GET";
  uri = codes "/shop/orders";
  start = 10;
  end = 35;
  writer_status = λ c. last_code (c.written);
}

last_code-append :
    (before : List (ℕ × JsonResponse ℕ)) (code : ℕ) (doc : JsonResponse ℕ)
    → last_code (before ++ (code, doc) ∷ []) ≡ code
last_code-append [] code doc = refl
last_code-append (a ∷ []) code doc = refl
last_code-append (a ∷ (b ∷ more)) code doc = last_code-append (b ∷ more) code doc

env-HasLastCode : HasLastCode env
env-HasLastCode c before code doc e = ap last_code e ∙ last_code-append before code doc

-- gin's loop from the handler that has a number of handlers behind it.
abbrev go_on : (ℕ → Next ℕ) → Outcome ℕ → Outcome ℕ
go_on from (panicked v) = panicked v
go_on from (returned v) = if (v.request).aborted then returned v else from (v.left) v

abbrev loops : List (Handler ℕ) → ℕ → Next ℕ
loops [] n w = returned (record w { left = 0 })
loops (h ∷ hs) n w =
    let first = go_on (loops hs) (h (loops hs (length hs)) (record w { left = length hs })) in
    let rest = loops hs n w in if ltb (length hs) n then first else rest

abbrev gin_runs : List (Handler ℕ) → Next ℕ
gin_runs hs = loops hs (length hs)

gin_runs-cons :
    (h : Handler ℕ) (hs : List (Handler ℕ)) (w : Served ℕ)
    → gin_runs (h ∷ hs) w ≡ go_on (loops hs) (h (gin_runs hs) (record w { left = length hs }))
gin_runs-cons h hs w =
    let all : ltb (length hs) (suc (length hs)) ≡ true = ground arith in
    ap
      (λ b.
        if b
        then go_on (loops hs) (h (gin_runs hs) (record w { left = length hs }))
        else loops hs (suc (length hs)) w)
      all

loops-behind :
    (hs : List (Handler ℕ)) (n : ℕ) (w : Served ℕ) → loops hs n w ≡ gin_runs (behind n hs) w
loops-behind [] n w = refl
loops-behind (h ∷ hs) n w = by_test (ltb (length hs) n) (loops-behind hs n w)
  where
    by_test :
        (b : Bool)
        → loops hs n w ≡ gin_runs (behind n hs) w
        → (if b
            then go_on (loops hs) (h (gin_runs hs) (record w { left = length hs }))
            else loops hs n w)
          ≡ gin_runs (if b then h ∷ hs else behind n hs) w
    by_test true e = sym (gin_runs-cons h hs w)
    by_test false e = e

go_on-settle : (hs : List (Handler ℕ)) (o : Outcome ℕ) → go_on (loops hs) o ≡ settle gin_runs hs o
go_on-settle hs (panicked v) = refl
go_on-settle hs (returned v) =
    ap (λ o. if (v.request).aborted then returned v else o) (loops-behind hs (v.left) v)

gin_runs-RunsHandlers : RunsHandlers gin_runs
gin_runs-RunsHandlers = (
  λ w. refl,
  λ h hs w running.
      gin_runs-cons h hs w ∙ go_on-settle hs (h (gin_runs hs) (record w { left = length hs })),
)

abbrev answers : Request ℕ → Option (Request ℕ)
answers c = some (payload c (some 3))

abbrev guard : Request ℕ → Option (Request ℕ)
guard = wrap_auth_handler (λ _. jwt_auth plain_jwt (codes "secret") ann_token)

auth_is_recorded_example :
    let hs = wrap_handlers (guard ∷ (answers ∷ [])) in
    let served = gin_runs (recover_and_logger true ∷ (telemetry true env ∷ hs)) arrived in
    ((k : Claims) × Passes plain_jwt (codes "secret") ann_token k
      × (served
          ≡ around gin_runs true true env hs (
              gin_runs
                (wrap_handlers (answers ∷ []))
                (entered (wrap_handlers (answers ∷ [])) (with_user arrived k)))))
    ⊎ ((r : Served ℕ) × (served ≡ returned r)
        × IsDenied ((set_logger arrived).request) (r.request)
        × IsRefusalRecorded true arrived r)
auth_is_recorded_example =
    auth_is_recorded gin_runs true true env plain_jwt (codes "secret") ann_token (answers ∷ [])
      arrived gin_runs-RunsHandlers env-HasLastCode refl

-- A handler that panics, and one behind it that answers.
abbrev panics_first : List (Handler ℕ)
panics_first =
    (λ next w. panicked w)
    ∷ ((λ next w. returned (record w { request = payload (w.request) (some 3) })) ∷ [])

abbrev at_panic : Served ℕ
at_panic = record (set_logger arrived) { left = 1 }

panic_goes_on_example :
    (r : Served ℕ) × IsContained true at_panic r
    × (gin_runs (recover_and_logger true ∷ (telemetry true env ∷ panics_first)) arrived ≡ (
        if (at_panic.request).aborted
        then returned r
        else gin_runs (behind (at_panic.left) (telemetry true env ∷ panics_first)) r))
panic_goes_on_example =
    panic_goes_on gin_runs true true env panics_first arrived at_panic gin_runs-RunsHandlers refl
      refl

abbrev answering : Next ℕ
answering w = returned (record w { request = payload (w.request) (some 3) })

abbrev after_answer : Served ℕ
after_answer = record arrived { request = payload fresh (some 3) }

telemetry_records_example :
    (r : Served ℕ) × (telemetry true env answering arrived ≡ returned r)
    × ((((eqb (env.writer_status (after_answer.request)) 404 ≡ true)
            ⊎ ((after_answer.request).response ≡ none))
          × IsUnrecorded after_answer r)
        ⊎ ((resp : JsonResponse ℕ) × (eqb (env.writer_status (after_answer.request)) 404 ≡ false)
            × ((after_answer.request).response ≡ some resp)
            × IsRecorded true env after_answer r resp))
telemetry_records_example = telemetry_records true env answering arrived after_answer refl refl
