-- ===== src/Shutdown.antt =====
-- pkg/shutdown/shutdown.go: the hook, on the signals that the process gets. A signal is its number, and
-- the functions of Close are named by values.
mod Tests
use seckill_pkg.Base.{
  ℕ, Bool, false, ◌||◌, Option, none, some, List, [], ◌∷◌, ◌++◌, if◌then◌else◌, eqb, is_some,
}

-- The channel with its buffer of one signal, and the signals for which it is notified.
pub record Hook : Type 0 where
  pub notified : List ℕ
  pub buffer : Option ℕ

abbrev pub sigint : ℕ
sigint = 2

abbrev pub sigterm : ℕ
sigterm = 15

abbrev pub listed : ℕ → List ℕ → Bool
listed s [] = false
listed s (t ∷ ts) = eqb s t || listed s ts

-- WithSignals
unfoldable pub with_signals : List ℕ → Hook → Hook
with_signals [] h = h
with_signals (s ∷ ss) h = with_signals ss (record h { notified = h.notified ++ s ∷ [] })

-- NewHook
unfoldable pub new_hook : Hook
new_hook = with_signals (sigint ∷ sigterm ∷ []) (record { notified = []; buffer = none })

-- The signals for which Go ends a program that is not notified for them: SIGHUP, SIGINT, SIGTERM, and
-- those that it ends with a dump of the stacks. SIGKILL and the signals that stop a process are
-- not modelled.
abbrev pub fatal : List ℕ
fatal = 1 ∷ 2 ∷ 3 ∷ 4 ∷ 5 ∷ 6 ∷ 7 ∷ 8 ∷ 11 ∷ 15 ∷ 16 ∷ 31 ∷ []

-- A signal of the process: it goes to the channel when it is notified for it, and is dropped when
-- the buffer is full. Otherwise the program ends, `none`, or goes on.
unfoldable pub arrives : ℕ → Hook → Option Hook
arrives s h =
    if listed s (h.notified)
    then some (if is_some (h.buffer) then h else record h { buffer = some s })
    else if listed s fatal
    then none
    else some h

-- What becomes of Close: it still waits, it has run functions, or the program has ended.
pub data Closing (F : Type 0) : Type 0 where
  waiting : Closing F
  ran : List F → Closing F
  ended : Closing F

-- What the first of the signals that is notified or fatal does.
abbrev pub decided : {F : Type 0} → List ℕ → List ℕ → List F → Closing F
decided [] notified funcs = waiting
decided (s ∷ ss) notified funcs =
    let rest = decided ss notified funcs in
    if listed s notified then ran funcs else if listed s fatal then ended else rest

module _ {F : Type 0} where
  abbrev pub run_funcs : List F → List F
  run_funcs [] = []
  run_funcs (f ∷ fs) = f ∷ run_funcs fs

  -- Close on the signals that arrive while it waits, with the functions that it runs in order. A signal
  -- in the buffer ends the wait.
  abbrev pub received : (Hook → Closing F) → List F → Hook → Option ℕ → Closing F
  received wait funcs h none = wait h
  received wait funcs h (some s) = ran (run_funcs funcs)

  abbrev pub alive : (Hook → Closing F) → Option Hook → Closing F
  alive wait none = ended
  alive wait (some h) = wait h

  unfoldable pub close : List ℕ → List F → Hook → Closing F
  close [] funcs h = received (λ _. waiting) funcs h (h.buffer)
  close (s ∷ ss) funcs h =
      received (λ (g : Hook). alive (close ss funcs) (arrives s g)) funcs h (h.buffer)
