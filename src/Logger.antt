-- ===== src/Logger.antt =====
-- pkg/logger/logger.go: the options, New, and WrapMeta. The levels of zap are whole numbers whose
-- constants are parameters; a core is the place it writes to with the levels it takes.
pub mod Outputs
mod Tests
use seckill_pkg.Base.{
  ◌≡◌, not, Bool, true, false, ◌&&◌, Option, none, some, List, [], ◌∷◌, ◌++◌, if◌then◌else◌, Text,
  codes, is_empty, ℤ, lt_int,
}
use seckill_pkg.Base.Dict.{Dict, insert}

-- The constants of zapcore.
pub record Levels : Type 0 where
  pub debug_level : ℤ
  pub info_level : ℤ
  pub warn_level : ℤ
  pub error_level : ℤ

-- Where a core writes to. `write_syncer w` is what AddSync makes of the writer, nil when no option
-- has set one.
pub data Output (W : Type 0) : Type 0 where
  stdout : Output W
  stderr : Output W
  write_syncer : Option W → Output W

-- The record `option`.
pub record LogOption (W : Type 0) : Type 0 where
  pub level : ℤ
  pub fields : Dict Text
  pub file : Option W
  pub time_layout : Text
  pub disable_console : Bool
  pub print_json : Bool

pub record Core (W : Type 0) : Type 0 where
  pub json : Bool
  pub output : Output W
  pub enabled : ℤ → Bool

pub record Logger (W : Type 0) : Type 0 where
  pub cores : List (Core W)
  pub time_layout : Text
  pub caller : Bool
  pub error_output : Output W
  pub fields : List (Text × Text)

abbrev pub default_time_layout : Text
default_time_layout = codes "2006-01-02 15:04:05"

abbrev pub at_least : ℤ → ℤ → Bool
at_least lvl bound = not (lt_int lvl bound)

module _ {W : Type 0} (levels : Levels) where
  abbrev pub default_option : LogOption W
  default_option = record {
    level = levels.info_level;
    fields = [];
    file = none;
    time_layout = [];
    disable_console = false;
    print_json = false;
  }

  abbrev pub with_debug_level : LogOption W → LogOption W
  with_debug_level opt = record opt { level = levels.debug_level }

  abbrev pub with_info_level : LogOption W → LogOption W
  with_info_level opt = record opt { level = levels.info_level }

  abbrev pub with_warn_level : LogOption W → LogOption W
  with_warn_level opt = record opt { level = levels.warn_level }

  abbrev pub with_error_level : LogOption W → LogOption W
  with_error_level opt = record opt { level = levels.error_level }

module _ {W : Type 0} where
  abbrev pub with_field : Text → Text → LogOption W → LogOption W
  with_field key value opt = record opt { fields = insert key value (opt.fields) }

  -- WithFileP and WithFileRotationP: the file system makes the folder and opens the file, or it
  -- fails; `none` is the panic, when the option is made.
  unfoldable pub with_file_p : Bool → Option W → Option (LogOption W → LogOption W)
  with_file_p folder none = none
  with_file_p folder (some w) = if folder then some (λ opt. record opt { file = some w }) else none

  -- `rotating` writes to the file, which it opens when it writes.
  unfoldable pub with_file_rotation_p : Bool → W → Option (LogOption W → LogOption W)
  with_file_rotation_p folder rotating =
      if folder then some (λ opt. record opt { file = some rotating }) else none

  abbrev pub with_time_layout : Text → LogOption W → LogOption W
  with_time_layout layout opt = record opt { time_layout = layout }

  abbrev pub with_disable_console : LogOption W → LogOption W
  with_disable_console opt = record opt { disable_console = true }

  abbrev pub with_json_format : LogOption W → LogOption W
  with_json_format opt = record opt { print_json = true }

  unfoldable pub apply_options : List (LogOption W → LogOption W) → LogOption W → LogOption W
  apply_options [] opt = opt
  apply_options (f ∷ fs) opt = apply_options fs (f opt)

module _ {W : Type 0} (levels : Levels) where
  abbrev pub low_priority : LogOption W → ℤ → Bool
  low_priority opt lvl = at_least lvl (opt.level) && lt_int lvl (levels.error_level)

  abbrev pub high_priority : LogOption W → ℤ → Bool
  high_priority opt lvl = at_least lvl (opt.level) && at_least lvl (levels.error_level)

  abbrev pub cores_of : LogOption W → List (Core W)
  cores_of opt =
      if not (opt.disable_console)
      then record { json = opt.print_json; output = stdout; enabled = low_priority opt }
        ∷ (record { json = opt.print_json; output = stderr; enabled = high_priority opt } ∷ [])
      else record {
        json = opt.print_json;
        output = write_syncer (opt.file);
        enabled = λ lvl. at_least lvl (opt.level);
      }
        ∷ []

  -- After the options were applied. The fields come in the order of the map.
  abbrev pub logger_of : LogOption W → Logger W
  logger_of opt = record {
    cores = cores_of opt;
    time_layout = if is_empty (opt.time_layout) then default_time_layout else opt.time_layout;
    caller = true;
    error_output = stderr;
    fields = opt.fields;
  }

  unfoldable pub new : List (LogOption W → LogOption W) → Logger W
  new opts = logger_of (apply_options opts (default_option levels))

-- Meta
pub record Meta (V : Type 0) : Type 0 where
  pub key : Text
  pub value : V

-- A zap.Field: an error, the start of a namespace, or a key with a value.
pub data Field (E V : Type 0) : Type 0 where
  error_field : E → Field E V
  namespace : Text → Field E V
  any : Text → V → Field E V

module _ {E V : Type 0} where
  abbrev pub error_fields : Option E → List (Field E V)
  error_fields none = []
  error_fields (some e) = error_field e ∷ []

  unfoldable pub meta_fields : List (Meta V) → List (Field E V)
  meta_fields [] = []
  meta_fields (m ∷ ms) = any (m.key) (m.value) ∷ meta_fields ms

  unfoldable pub wrap_meta : Option E → List (Meta V) → List (Field E V)
  wrap_meta err metas = error_fields err ++ namespace (codes "meta") ∷ meta_fields metas
