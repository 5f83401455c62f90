-- ===== src/ElasticJob/Reversion/Tests.antt =====
-- A node over several lives, on a history with two deletions in one response.
use seckill_pkg.Base.{ℕ, true, List, [], ◌∷◌, if◌then◌else◌, ltb, Text, codes}
use seckill_pkg.ElasticJob.Reversion.{WatchEvent, Batch, Etcd}
use seckill_pkg.ElasticJob.Reversion.Resume.{Span}

abbrev expired_at_five : Text → WatchEvent
expired_at_five k = record { is_delete = true; mod_revision = 5; key = k; prev = codes "job" }

abbrev history : List WatchEvent
history = expired_at_five (codes "a") ∷ (expired_at_five (codes "b") ∷ [])

-- Both were deleted at revision 5; the header of their response has 7.
abbrev both : Batch
both = record { revision = 7; events = history }

abbrev watch : ℕ → List Batch
watch r = if ltb r 5 then both ∷ [] else []

abbrev at_three : Etcd
at_three = record { reversion = 3; saved = 3; puts = 0; sent = [] }

abbrev clock : WatchEvent → ℕ
clock ev = 9

abbrev three_lives : List Span
three_lives = (0, 0, 0, 0) ∷ ((1, 1, 0, 0) ∷ ((4, 2, 1, 1) ∷ []))
