-- ===== src/Database/Plugin.antt =====
-- db/otel_plugin.go: the plugin with its options, the registration of its hooks, and the hook after a
-- statement. gorm and OpenTelemetry are parameters; an attribute is a key with a text or a number.
use seckill_pkg.Base.{
  ◌≡◌, refl, ap, not, Bool, true, false, ◌&&◌, ◌||◌, Option, none, some, List, [], ◌∷◌, ◌++◌,
  if◌then◌else◌, is_empty, Text, codes, ◌==◌, ℤ, pos, negsuc, is_some, eqb,
}

pub data Attribute : Type 0 where
  text_attribute : Text → Text → Attribute
  int_attribute : Text → ℤ → Attribute

-- `provider` is the provider of tracers, `tracer` the name under which it made the tracer.
pub record OtelPlugin (P : Type 0) : Type 0 where
  pub provider : Option P
  pub attrs : List Attribute

module _ {P : Type 0} where
  abbrev pub with_tracer_provider : P → OtelPlugin P → OtelPlugin P
  with_tracer_provider provider p = record p { provider = some provider }

  abbrev pub with_attributes : List Attribute → OtelPlugin P → OtelPlugin P
  with_attributes attrs p = record p { attrs = p.attrs ++ attrs }

  abbrev pub with_db_name : Text → OtelPlugin P → OtelPlugin P
  with_db_name name p = record p { attrs = p.attrs ++ text_attribute (codes "db.name") name ∷ [] }

  unfoldable pub apply_options : List (OtelPlugin P → OtelPlugin P) → OtelPlugin P → OtelPlugin P
  apply_options [] p = p
  apply_options (f ∷ fs) p = apply_options fs (f p)

  abbrev pub provider_or : P → Option P → P
  provider_or default none = default
  provider_or default (some q) = q

  -- NewPlugin: its attributes, and the provider and the name of its tracer. `default` is the provider
  -- of the process.
  unfoldable pub new_plugin :
      P → Text → List (OtelPlugin P → OtelPlugin P) → List Attribute × P × Text
  new_plugin default server_name opts =
      let p = apply_options opts (record { provider = none; attrs = [] }) in
      (p.attrs, provider_or default (p.provider), server_name ++ codes ".DB")

-- The hooks of Initialize, by their names.
abbrev pub hook_names : List Text
hook_names =
    codes "before:create"
    ∷ (codes "after:create"
        ∷ (codes "before:select"
            ∷ (codes "after:select"
                ∷ (codes "before:delete"
                    ∷ (codes "after:delete"
                        ∷ (codes "before:update"
                            ∷ (codes "after:update"
                                ∷ (codes "before:row"
                                    ∷ (codes "after:row"
                                        ∷ (codes "before:raw" ∷ (codes "after:raw" ∷ [])))))))))))

-- The loop: every hook is registered, and the first error is kept.
unfoldable pub register_all : (Text → Bool) → List Text → Option Text → List Text × Option Text
register_all registers [] first_err = ([], first_err)
register_all registers (n ∷ ns) first_err =
    let fails = not (registers (codes "otel:" ++ n)) in
    let rest =
      register_all registers ns (if fails && not (is_some first_err) then some n else first_err) in
    (if fails then rest.0 else (codes "otel:" ++ n) ∷ rest.0, rest.1)

-- Initialize: the names that were registered, and the name of the hook in its error. `registers`
-- says whether gorm registers a name.
unfoldable pub initialize : (Text → Bool) → List Text × Option Text
initialize registers = register_all registers hook_names none

unfoldable pub db_system : Text → Option Attribute
db_system dialect =
    if dialect == codes "mysql"
    then some (text_attribute (codes "db.system") (codes "mysql"))
    else if dialect == codes "postgres" || dialect == codes "postgresql"
    then some (text_attribute (codes "db.system") (codes "postgresql"))
    else if dialect == codes "sqlite"
    then some (text_attribute (codes "db.system") (codes "sqlite"))
    else if dialect == codes "sqlserver"
    then some (text_attribute (codes "db.system") (codes "sqlserver"))
    else if dialect == codes "clickhouse"
    then some (text_attribute (codes "db.system") (codes "clickhouse"))
    else none

-- A statement that gorm has run: the dialect, the explained query, the table, the rows, the error.
pub record Statement : Type 0 where
  pub dialect : Text
  pub query : Text
  pub table : Text
  pub rows_affected : ℤ
  pub error : Option Text

-- The span of a statement: its name, whether it records, its attributes, its error, and whether it has
-- ended.
pub record DbSpan : Type 0 where
  pub name : Text
  pub recording : Bool
  pub attributes : List Attribute
  pub error : Option Text
  pub ended : Bool

-- The hook before a statement starts its span; `records` is what the tracer decides.
unfoldable pub before : Bool → Text → DbSpan
before records span_name = record {
  name = span_name;
  recording = records;
  attributes = [];
  error = none;
  ended = false;
}

abbrev pub some_attribute : Option Attribute → List Attribute
some_attribute none = []
some_attribute (some a) = a ∷ []

abbrev pub rows_attribute : ℤ → List Attribute
rows_attribute (pos n) = int_attribute (codes "db.rows_affected") (pos n) ∷ []
rows_attribute (negsuc n) =
    if eqb n 0 then [] else int_attribute (codes "db.rows_affected") (negsuc n) ∷ []

abbrev pub statement_attributes : List Attribute → Statement → List Attribute
statement_attributes attrs tx =
    attrs
    ++ some_attribute (db_system (tx.dialect))
    ++ text_attribute (codes "db.statement") (tx.query) ∷ []
    ++ (if is_empty (tx.table) then [] else text_attribute (codes "db.sql.table") (tx.table) ∷ [])
    ++ rows_attribute (tx.rows_affected)

-- The hook after a statement.
unfoldable pub after : List Attribute → Statement → DbSpan → DbSpan
after attrs tx span = if not (span.recording) then span else record span {
  attributes = span.attributes ++ statement_attributes attrs tx;
  error = if is_some (tx.error) then tx.error else span.error;
  ended = true;
}

-- The hooks of a list that gorm registers, and the first that it does not.
abbrev pub registered : (Text → Bool) → List Text → List Text
registered registers [] = []
registered registers (n ∷ ns) =
    let rest = registered registers ns in
    if not (registers (codes "otel:" ++ n)) then rest else (codes "otel:" ++ n) ∷ rest

abbrev pub first_failing : (Text → Bool) → List Text → Option Text
first_failing registers [] = none
first_failing registers (n ∷ ns) =
    let rest = first_failing registers ns in
    if not (registers (codes "otel:" ++ n)) then some n else rest

abbrev pub or_else : Option Text → Option Text → Option Text
or_else none o = o
or_else (some n) o = some n

-- One turn of the loop, by whether the registration fails.
step :
    (registers : Text → Bool) (n : Text) (ns : List Text)
    → ((p : Option Text)
        → register_all registers ns p
          ≡ (registered registers ns, or_else p (first_failing registers ns)))
    → (fails : Bool) (o : Option Text)
    → let rest = register_all registers ns (if fails && not (is_some o) then some n else o) in
      ◌≡◌ {A = List Text × Option Text}
        (if fails then rest.0 else (codes "otel:" ++ n) ∷ rest.0, rest.1)
        (
          if fails then registered registers ns else (codes "otel:" ++ n) ∷ registered registers ns,
          or_else o (if fails then some n else first_failing registers ns),
        )
step registers n ns later true none = later (some n)
step registers n ns later true (some m) = later (some m)
step registers n ns later false none =
    ap (λ (r : List Text × Option Text). ((codes "otel:" ++ n) ∷ r.0, r.1)) (later none)
step registers n ns later false (some m) =
    ap (λ (r : List Text × Option Text). ((codes "otel:" ++ n) ∷ r.0, r.1)) (later (some m))

register_all_lem :
    (registers : Text → Bool) (ns : List Text) (o : Option Text)
    → register_all registers ns o
      ≡ (registered registers ns, or_else o (first_failing registers ns))
unfolding register_all
register_all_lem registers [] none = refl
register_all_lem registers [] (some n) = refl
register_all_lem registers (n ∷ ns) o =
    step registers n ns (λ p. register_all_lem registers ns p)
      (not (registers (codes "otel:" ++ n))) o

-- Initialize registers each of its twelve hooks that gorm takes, also after one that gorm refuses, and
-- its error names the first that gorm refuses; it reports none exactly when there is no such hook.
pub initialize_registers :
    (registers : Text → Bool)
    → initialize registers ≡ (registered registers hook_names, first_failing registers hook_names)
unfolding initialize
initialize_registers registers = register_all_lem registers hook_names none
