-- ===== src/Logger/Tests.antt =====
-- A logger at concrete levels, those of zap.
use seckill_pkg.Base.{
  ◌≡◌, refl, none, some, List, [], ◌∷◌, if◌then◌else◌, pos, negsuc, lt_int, Text, codes,
}
use seckill_pkg.Logger.{
  Levels, stdout, stderr, write_syncer, LogOption, at_least, default_option, with_disable_console,
  with_warn_level, apply_options, new, error_field, namespace, any, wrap_meta, meta_fields,
}
use seckill_pkg.Logger.Outputs.{outputs, new_places}

abbrev zap_levels : Levels
zap_levels = record {
  debug_level = negsuc 0;
  info_level = pos 0;
  warn_level = pos 1;
  error_level = pos 2;
}

abbrev quiet : List (LogOption Text → LogOption Text)
quiet = with_warn_level zap_levels ∷ (with_disable_console ∷ [])

new_places_example :
    let opt = apply_options quiet (default_option zap_levels) in
    outputs ((new zap_levels quiet).cores) (pos 2) ≡ (
      if at_least (pos 2) (opt.level)
      then (if opt.disable_console
          then write_syncer (opt.file)
          else if lt_int (pos 2) (zap_levels.error_level)
          then stdout
          else stderr)
        ∷ []
      else [])
new_places_example = new_places zap_levels quiet (pos 2)

-- With the console disabled and no file, a line of the error level goes to a writer that is nil.
nil_writer : outputs ((new zap_levels quiet).cores) (pos 2) ≡ write_syncer none ∷ []
unfolding new apply_options
nil_writer = refl

two_metas :
    wrap_meta (some (codes "broken")) (record { key = codes "a"; value = codes "1" } ∷ [])
    ≡ error_field (codes "broken") ∷ (namespace (codes "meta") ∷ (any (codes "a") (codes "1") ∷ []))
unfolding wrap_meta meta_fields
two_metas = refl
