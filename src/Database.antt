-- ===== src/Database.antt =====
-- db/mysql.go and db/mock.go: the configuration, the data source name, the connection and its end.
-- gorm and the driver are parameters.
pub mod Plugin
mod Tests
use seckill_pkg.Base.{
  ℕ, suc, ◌+◌, ◌≡◌, ◌⊎◌, Bool, true, false, not, ◌&&◌, Option, none, some, [], ◌∷◌, ◌++◌,
  if◌then◌else◌, Text, codes, Bool-cases,
}

-- `conn_max_life_time` is a number of nanoseconds.
pub record DbConfig : Type 0 where
  pub user : Text
  pub pass : Text
  pub addr : Text
  pub name : Text
  pub max_open_conn : ℕ
  pub max_idle_conn : ℕ
  pub conn_max_life_time : ℕ
  pub server_name : Text

unfoldable pub dsn : DbConfig → Text
dsn cfg =
    cfg.user
    ++ codes ":"
    ++ cfg.pass
    ++ codes "@tcp("
    ++ cfg.addr
    ++ codes ")/"
    ++ cfg.name
    ++ codes "?charset=utf8mb4&parseTime=true&loc=Local"

-- A pool of connections: its settings, its data source, and whether it is open.
pub record Pool : Type 0 where
  pub source : Text
  pub singular_table : Bool
  pub max_open : ℕ
  pub max_idle : ℕ
  pub max_life : ℕ
  pub plugins : ℕ
  pub is_open : Bool

-- Why the connection fails.
pub data ConnectError : Type 0 where
  connection_failed : Text → ConnectError
  no_sql_db : ConnectError
  plugin_failed : ConnectError

-- What gorm answers: to Open on a data source, to DB, and to Use of the two plugins.
pub record Gorm : Type 0 where
  pub opens : Text → Bool
  pub has_sql_db : Bool
  pub uses_otel : Bool
  pub uses_prometheus : Bool

abbrev pub opened : DbConfig → Pool
opened cfg = record {
  source = dsn cfg;
  singular_table = true;
  max_open = 0;
  max_idle = 2;
  max_life = 0;
  plugins = 0;
  is_open = true;
}

abbrev pub configured : DbConfig → Pool → Pool
configured cfg p = record p {
  max_open = cfg.max_open_conn;
  max_idle = cfg.max_idle_conn;
  max_life = cfg.conn_max_life_time;
}

abbrev pub plugged : Pool → Pool
plugged p = record p { plugins = suc (p.plugins) }

-- A connection: the pool that was opened, if any, and what is given to the caller.
pub record Connected : Type 0 where
  pub pool : Option Pool
  pub error : Option ConnectError

abbrev pub failing : Pool → ConnectError → Connected
failing p e = record { pool = some p; error = some e }

-- dbConnect after the four answers of gorm.
abbrev pub connected : DbConfig → Bool → Bool → Bool → Bool → Connected
connected cfg opens has_sql_db uses_otel uses_prometheus =
    let p = configured cfg (opened cfg) in
    if not opens
    then record { pool = none; error = some (connection_failed (cfg.name)) }
    else if not has_sql_db
    then failing (opened cfg) no_sql_db
    else if not uses_otel
    then failing p plugin_failed
    else if not uses_prometheus
    then failing (plugged p) plugin_failed
    else record { pool = some (plugged (plugged p)); error = none }

unfoldable pub db_connect : Gorm → DbConfig → Connected
db_connect gorm cfg =
    connected cfg (gorm.opens (dsn cfg)) (gorm.has_sql_db) (gorm.uses_otel) (gorm.uses_prometheus)

-- What the caller of New gets.
abbrev pub repo_of : Option Pool → Option ConnectError → Option Pool
repo_of p none = p
repo_of p (some e) = none

unfoldable pub new : Gorm → DbConfig → Option Pool
new gorm cfg = let c = db_connect gorm cfg in repo_of (c.pool) (c.error)

-- DbClose: the second component says whether there was no error.
unfoldable pub db_close : Bool → Bool → Pool → Pool × Bool
db_close has_sql_db closes p =
    if not has_sql_db then (p, false) else (record p { is_open = not closes }, closes)

-- The repository of db/mock.go: DbClose does nothing.
unfoldable pub mock_db_close : {G : Type 0} → G → G × Bool
mock_db_close g = (g, true)

-- A pool that is open on the data source of a configuration, with its three settings and both plugins.
abbrev pub IsConfigured : DbConfig → Pool → Type 0
IsConfigured cfg p =
    (p.source ≡ dsn cfg)
    × (p.max_open ≡ cfg.max_open_conn)
    × (p.max_idle ≡ cfg.max_idle_conn)
    × (p.max_life ≡ cfg.conn_max_life_time)
    × (p.plugins ≡ 2)
    × (p.is_open ≡ true)

abbrev Connects : DbConfig → Bool → Bool → Bool → Bool → Connected → Type 0
Connects cfg a b c d r =
    ((a && b && c && d ≡ true)
      × ((p : Pool) × (repo_of (r.pool) (r.error) ≡ some p) × IsConfigured cfg p))
    ⊎ ((a && b && c && d ≡ false)
        × (repo_of (r.pool) (r.error) ≡ none)
        × (((a ≡ false) × (r.pool ≡ none))
            ⊎ ((a ≡ true) × ((p : Pool) × (r.pool ≡ some p) × (p.is_open ≡ true)))))
