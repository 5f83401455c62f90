-- ===== src/Logger/Outputs.antt =====
-- pkg/logger/logger.go: where a line of the log goes.
use seckill_pkg.Base.{
  ◌≡◌, refl, not, Bool, true, false, ◌&&◌, List, [], ◌∷◌, ◌++◌, append-nil, if◌then◌else◌, ℤ,
  lt_int,
}
use seckill_pkg.Logger.{
  Levels, Output, stdout, stderr, write_syncer, LogOption, Core, at_least, default_option,
  apply_options, cores_of, new,
}

module _ {W : Type 0} where
  -- The places that the cores write a line of a level to.
  abbrev pub outputs : List (Core W) → ℤ → List (Output W)
  outputs [] lvl = []
  outputs (c ∷ cs) lvl = (if c.enabled lvl then c.output ∷ [] else []) ++ outputs cs lvl

  -- The place for a line of a level that is high enough.
  abbrev pub place : Levels → LogOption W → ℤ → Output W
  place levels opt lvl =
      if opt.disable_console
      then write_syncer (opt.file)
      else if lt_int lvl (levels.error_level)
      then stdout
      else stderr

  two_cores :
      (high low : Bool)
      → if◌then◌else◌ {A = List (Output W)} (high && low) (stdout ∷ []) []
          ++ ((if high && not low then stderr ∷ [] else []) ++ [])
        ≡ (if high then (if low then stdout else stderr) ∷ [] else [])
  two_cores true true = refl
  two_cores true false = refl
  two_cores false true = refl
  two_cores false false = refl

  outputs-cores_of :
      (levels : Levels) (opt : LogOption W) (lvl : ℤ) (off : Bool)
      → opt.disable_console ≡ off
      → outputs (cores_of levels opt) lvl
        ≡ (if at_least lvl (opt.level) then place levels opt lvl ∷ [] else [])
  outputs-cores_of levels opt lvl true e = rw e (append-nil _)
  outputs-cores_of levels opt lvl false e =
      rw e (two_cores (at_least lvl (opt.level)) (lt_int lvl (levels.error_level)))

  -- A line of a level goes to one place exactly when its level is at least that of the options,
  -- and otherwise to none: with the console, to the standard output below the error level and
  -- to the error output from there on, whether or not there is a file; with the console
  -- disabled, to the file only, or to a writer that is nil when no option has set one.
  pub new_places :
      (levels : Levels) (opts : List (LogOption W → LogOption W)) (lvl : ℤ)
      → let opt = apply_options opts (default_option levels) in
        outputs ((new levels opts).cores) lvl ≡ (
          if at_least lvl (opt.level)
          then (if opt.disable_console
              then write_syncer (opt.file)
              else if lt_int lvl (levels.error_level)
              then stdout
              else stderr)
            ∷ []
          else [])
  unfolding new
  new_places levels opts lvl =
      let opt = apply_options opts (default_option levels) in
      outputs-cores_of levels opt lvl (opt.disable_console) refl
