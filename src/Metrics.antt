-- ===== src/Metrics.antt =====
-- pkg/metrics: the metrics of HTTP requests (metrics.go) and InitGrpcMetrics (grpc_metrics.go); and
-- pkg/mysqlerr_helper/err_helper.go. Prometheus, cast, gerror and the driver of MySQL are parameters.
mod Tests
use seckill_pkg.Base.{
  ℕ, suc, ◌+◌, ◌≡◌, ◌↔◌, refl, ap, ◌∙◌, Bool, true, false, not, ◌&&◌, ◌||◌, Option, none, some,
  List, [], ◌∷◌, ◌++◌, arith, if◌then◌else◌, eqb, Text, codes, ◌==◌, has_prefix,
}
use seckill_pkg.Core.Serve.{Telemetry}

-- The registered metrics: the requests by their labels, and the costs that were observed with theirs.
pub record HttpMetrics : Type 0 where
  pub requests_total : List Text → ℕ
  pub requests_cost : List (List Text × ℕ)

abbrev pub no_requests : HttpMetrics
no_requests = record { requests_total = λ _. 0; requests_cost = [] }

-- InitMetrics; registering the names twice panics, which `none` stands for.
unfoldable pub init_metrics : Option HttpMetrics → Option HttpMetrics
init_metrics none = some no_requests
init_metrics (some m) = none

abbrev pub same_labels : List Text → List Text → Bool
same_labels [] [] = true
same_labels [] (t ∷ ts) = false
same_labels (s ∷ ss) [] = false
same_labels (s ∷ ss) (t ∷ ts) = s == t && same_labels ss ts

-- `to_string` is cast.ToString on an int.
module _ (to_string : ℕ → Text) (server_name : Text) where
  abbrev pub total_labels : Telemetry → List Text
  total_labels t =
      server_name
      ∷ (t.method ∷ (t.path ∷ (to_string (t.http_code) ∷ (to_string (t.business_code) ∷ []))))

  abbrev pub observed : Telemetry → HttpMetrics → HttpMetrics
  observed t m = record {
    requests_total = λ ls.
        if same_labels (total_labels t) ls then suc (m.requests_total ls) else m.requests_total ls;
    requests_cost = m.requests_cost ++ (server_name ∷ (t.method ∷ (t.path ∷ [])), t.cost) ∷ [];
  }

  -- RecordMetrics; the trace is not used. Without InitMetrics it panics.
  unfoldable pub record_metrics : Text → Telemetry → Option HttpMetrics → Option HttpMetrics
  record_metrics trace_id t none = none
  record_metrics trace_id t (some m) = some (observed t m)

  -- The calls of a telemetry one after the other, each with its trace.
  unfoldable pub record_all : List (Text × Telemetry) → Option HttpMetrics → Option HttpMetrics
  record_all [] m = m
  record_all ((trace_id, t) ∷ more) m = record_all more (record_metrics trace_id t m)

  -- The requests of a list with given labels.
  abbrev pub with_labels : List Text → List (Text × Telemetry) → ℕ
  with_labels ls [] = 0
  with_labels ls ((trace_id, t) ∷ more) =
      (if same_labels (total_labels t) ls then 1 else 0) + with_labels ls more

  -- After InitMetrics, the counter of any labels is the number of the recorded requests that have these
  -- labels, whatever their traces are; without InitMetrics the first call panics.
  pub total_counts :
      (m : HttpMetrics) (ts : List (Text × Telemetry))
      → (r : HttpMetrics) × (record_all ts (some m) ≡ some r)
        × ((ls : List Text) → r.requests_total ls ≡ with_labels ls ts + m.requests_total ls)
  unfolding record_all record_metrics
  total_counts m [] = (m, refl, λ ls. omega arith)
  total_counts m ((trace_id, t) ∷ more) =
      let rest = total_counts (observed t m) more in
      (rest.0, rest.1, λ ls. ground (arith, rest.2 ls))

-- What Register gives: no error, that the collector is there already, or another error.
pub data Registered : Type 0 where
  registered : Registered
  already_registered : Registered
  other_error : Text → Registered

pub data GrpcInit : Type 0 where
  fine : GrpcInit
  fails : GrpcInit
  panics : GrpcInit

-- strings.Contains
unfoldable pub contains : Text → Text → Bool
contains [] part = has_prefix [] part
contains (c ∷ s) part = let later = contains s part in has_prefix (c ∷ s) part || later

abbrev pub exists_message : Text
exists_message = codes " already exists with the same fully-qualified name and const label values"

-- InitGrpcMetrics: the type assertion on a nil error is false, and nil has no method Error to call.
unfoldable pub init_grpc_metrics : Registered → GrpcInit
init_grpc_metrics registered = panics
init_grpc_metrics already_registered = fine
init_grpc_metrics (other_error message) = if contains message exists_message then fine else fails

not_panics : (b : Bool) → (if b then fine else fails) ≡ panics → ⊥
not_panics true h = ground (arith, h)
not_panics false h = ground (arith, h)

-- InitGrpcMetrics panics exactly when the metrics are registered without an error.
pub grpc_panics_on_success : (r : Registered) → (init_grpc_metrics r ≡ panics) ↔ (r ≡ registered)
unfolding init_grpc_metrics
grpc_panics_on_success registered = (λ _. refl, λ _. refl)
grpc_panics_on_success already_registered =
    (λ h. absurd (ground (arith, h)), λ h. absurd (ground (arith, h)))
grpc_panics_on_success (other_error message) =
    (λ h. absurd (not_panics (contains message exists_message) h), λ h. absurd (ground (arith, h)))

-- IsMysqlDupEntryError: `cause` is gerror.Cause, `number` gives the number of an error of the driver, and
-- 1062 is ER_DUP_ENTRY.
unfoldable pub is_mysql_dup_entry_error : {E : Type 0} → (E → E) → (E → Option ℕ) → E → Bool
is_mysql_dup_entry_error cause number e = elim (number (cause e)) [
  | none ↦ false
  | some n ↦ eqb n 1062
]
