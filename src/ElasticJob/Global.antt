-- ===== src/ElasticJob/Global.antt =====
-- global.go: the one job system of the process, made by InitGlobalJob under sync.Once and read by Get.
use seckill_pkg.Base.{
  ◌≡◌, refl, ap, ◌∙◌, Bool, true, false, Option, none, some, List, [], ◌∷◌, if◌then◌else◌,
}

-- What New gives: a system or an error, never both.
pub data Made (E : Type 0) : Type 0 where
  made : E → Made E
  new_error : Made E

-- `once` and `ej`.
pub record GlobalJob (E : Type 0) : Type 0 where
  pub done : Bool
  pub ej : Option E

abbrev pub start : {E : Type 0} → GlobalJob E
start = record { done = false; ej = none }

module _ {E : Type 0} where
  -- The first call: the error of New is given back, and `ej` is what New gave, nil with an error.
  abbrev pub first_call : Made E → GlobalJob E × Bool
  first_call (made e) = (record { done = true; ej = some e }, true)
  first_call new_error = (record { done = true; ej = none }, false)

  -- The second component says whether there was no error.
  unfoldable pub init_global_job : GlobalJob E → Made E → GlobalJob E × Bool
  init_global_job g new = if g.done then (g, true) else first_call new

  -- `none` is the panic.
  unfoldable pub get : GlobalJob E → Option E
  get g = g.ej

  -- Calls one after another, and what they reported.
  abbrev pub init_all : GlobalJob E → List (Made E) → GlobalJob E × List Bool
  init_all g [] = (g, [])
  init_all g (new ∷ more) =
      let r = init_global_job g new in let rest = init_all (r.0) more in (rest.0, r.1 ∷ rest.1)

  -- No error for each of the calls.
  abbrev pub all_fine : List (Made E) → List Bool
  all_fine [] = []
  all_fine (new ∷ more) = true ∷ all_fine more

  later_calls :
      (g : GlobalJob E) (more : List (Made E))
      → g.done ≡ true
      → init_all g more ≡ (g, all_fine more)
  unfolding init_global_job
  later_calls g [] h = refl
  later_calls g (new ∷ more) h =
      ap
        (λ b.
          let r = (if b then (g, true) else first_call new) in
          ((init_all (r.0) more).0, r.1 ∷ (init_all (r.0) more).1))
        h
      ∙ ap (λ (x : GlobalJob E × List Bool). (x.0, true ∷ x.1)) (later_calls g more h)

  -- Only the first call of InitGlobalJob counts: what later ones would have made is dropped and
  -- they report no error; after a first call that failed Get panics from then on.
  pub init_once :
      (e : E) (more : List (Made E))
      → (get ((init_all start (made e ∷ more)).0) ≡ some e)
        × ((init_all start (made e ∷ more)).1 ≡ true ∷ all_fine more)
        × (get ((init_all start (new_error ∷ more)).0) ≡ none)
        × ((init_all start (new_error ∷ more)).1 ≡ false ∷ all_fine more)
  unfolding get init_global_job
  init_once e more =
      let good = later_calls (record { done = true; ej = some e }) more refl in
      let bad = later_calls (record { done = true; ej = none }) more refl in
      (
        ap (λ (r : GlobalJob E × List Bool). (r.0).ej) good,
        ap (λ (r : GlobalJob E × List Bool). true ∷ r.1) good,
        ap (λ (r : GlobalJob E × List Bool). (r.0).ej) bad,
        ap (λ (r : GlobalJob E × List Bool). false ∷ r.1) bad,
      )
