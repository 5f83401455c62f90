-- ===== src/Shutdown/Tests.antt =====
-- Close at concrete signals.
use seckill_pkg.Base.{ℕ, ◌≡◌, refl, none, List, [], ◌∷◌}
use seckill_pkg.Shutdown.{ended, arrives, close}

-- SIGUSR1 goes by, SIGTERM ends the wait.
abbrev arrivals : List ℕ
arrivals = 10 ∷ (15 ∷ [])

abbrev steps : List ℕ
steps = 7 ∷ (8 ∷ [])

-- SIGHUP ends the program.
hung_up : close (1 ∷ []) steps (record { notified = 2 ∷ 15 ∷ []; buffer = none }) ≡ ended
unfolding close arrives
hung_up = refl
