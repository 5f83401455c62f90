-- ===== src/ElasticJob/Counter.antt =====
-- metrics.go and cron.go: the counter of the jobs that AddJob took.
use seckill_pkg.Base.{
  ℕ, suc, ◌+◌, ◌≡◌, ap, ◌∙◌, true, ◌&&◌, Option, none, some, List, [], ◌∷◌, arith, if◌then◌else◌,
  is_empty, Text, codes, ◌==◌, ==_self,
}
use seckill_pkg.ElasticJob.Cron.{AddError}
use seckill_pkg.ElasticJob.Setup.{JobConfig}

-- The label server_name of both metrics.
unfoldable pub server_label : Text → Text
server_label server_name = if is_empty server_name then codes "metrics_job" else server_name

-- The counter of AddJob by its labels.
abbrev pub Counts : Type 0
Counts = Text → Text → ℕ

-- MetricsAddTotal
unfoldable pub metrics_add_total : Text → Text → Counts → Counts
metrics_add_total server_name job_tag counts s t =
    if server_label server_name == s && job_tag == t then suc (counts s t) else counts s t

-- What a call of AddJob on a job with a tag does to the counter, by what it reports.
abbrev pub counted : {C : Type 0} → JobConfig C → Text → Option AddError → Counts → Counts
counted cfg tag (some e) counts = counts
counted cfg tag none counts =
    if cfg.should_metrics then metrics_add_total (cfg.server_name) tag counts else counts

-- The calls of AddJob one after the other, each with the tag of its job and with what it reported.
unfoldable pub count_all :
    {C : Type 0} → JobConfig C → List (Text × Option AddError) → Counts → Counts
count_all cfg [] counts = counts
count_all cfg ((tag, reported) ∷ more) counts = count_all cfg more (counted cfg tag reported counts)

-- How many calls on jobs with a tag reported no error.
abbrev pub accepted : Text → List (Text × Option AddError) → ℕ
accepted t [] = 0
accepted t ((tag, some e) ∷ more) = accepted t more
accepted t ((tag, none) ∷ more) = (if tag == t then 1 else 0) + accepted t more

add_counted :
    (server_name tag t : Text) (counts : Counts)
    → metrics_add_total server_name tag counts (server_label server_name) t
      ≡ (if tag == t then 1 else 0) + counts (server_label server_name) t
unfolding metrics_add_total
add_counted server_name tag t counts = rw (==_self (server_label server_name)) (ground arith)

-- With metrics, the counter of a tag under the label of the server grows by the number of calls of AddJob
-- on jobs with this tag that reported no error, those that the loop of run makes included.
pub counter_of_added :
    {C : Type 0} (cfg : JobConfig C) (calls : List (Text × Option AddError)) (t : Text)
    (counts : Counts)
    → cfg.should_metrics ≡ true
    → count_all cfg calls counts (server_label (cfg.server_name)) t
      ≡ accepted t calls + counts (server_label (cfg.server_name)) t
unfolding count_all
counter_of_added cfg [] t counts on = omega arith
counter_of_added cfg ((tag, some e) ∷ more) t counts on = counter_of_added cfg more t counts on
counter_of_added cfg ((tag, none) ∷ more) t counts on =
    ap
      (λ b.
        count_all cfg more (if b then metrics_add_total (cfg.server_name) tag counts else counts)
          (server_label (cfg.server_name)) t)
      on
    ∙ counter_of_added cfg more t (metrics_add_total (cfg.server_name) tag counts) on
    ∙ ap (λ n. accepted t more + n) (add_counted (cfg.server_name) tag t counts)
    ∙ omega arith
