-- ===== src/Database/Tests.antt =====
-- The connection and the plugin at concrete inputs.
use seckill_pkg.Base.{◌≡◌, refl, true, false, codes}
use seckill_pkg.Database.{DbConfig, dsn, Gorm}

abbrev shop : DbConfig
shop = record {
  user = codes "ann";
  pass = codes "pw";
  addr = codes "db:3306";
  name = codes "shop";
  max_open_conn = 10;
  max_idle_conn = 5;
  conn_max_life_time = 60;
  server_name = codes "orders";
}

dsn-shop : dsn shop ≡ codes "ann:pw@tcp(db:3306)/shop?charset=utf8mb4&parseTime=true&loc=Local"
unfolding dsn
dsn-shop = refl

-- gorm without its plugin for Prometheus.
abbrev half : Gorm
half = record {
  opens = λ source. true;
  has_sql_db = true;
  uses_otel = true;
  uses_prometheus = false;
}
