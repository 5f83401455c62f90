-- ===== src/ElasticJob/Reversion/History.antt =====
-- storage/etcd.go: the history of deletions that etcd keeps, and what its documentation says of a watch.
use seckill_pkg.Base.{
  ℕ, zero, suc, ap, Bool, true, ◌≤◌, ◌<◌, ◌≡◌, refl, false, List, [], ◌∷◌, ◌++◌, arith,
  if◌then◌else◌, take, ltb, All, Bool-cases, inl, inr,
}
use seckill_pkg.ElasticJob.Reversion.{WatchEvent, Batch}

-- The events of a list that are deletions.
abbrev pub deletes : List WatchEvent → List WatchEvent
deletes [] = []
deletes (ev ∷ more) = let rest = deletes more in if ev.is_delete then ev ∷ rest else rest

abbrev pub all_events : List Batch → List WatchEvent
all_events [] = []
all_events (b ∷ bs) = b.events ++ all_events bs

-- The events of a history with revisions above a bound.
abbrev pub above : ℕ → List WatchEvent → List WatchEvent
above lo [] = []
above lo (ev ∷ more) =
    let rest = above lo more in if ltb lo (ev.mod_revision) then ev ∷ rest else rest

-- A header is at or above a revision, and at or above those of its events.
abbrev pub IsHeader : ℕ → Batch → Type 0
IsHeader r b = (r ≤ b.revision) × All (λ (ev : WatchEvent). ev.mod_revision ≤ b.revision) (b.events)

-- What the documentation of etcd says of a watch from the revision after `r` on: its events come in the
-- order of the history and none of them is left out, as far as it has got; a header has the
-- revision of the store at the time of the response, which does not go down.
pub record Documented (watch : ℕ → List Batch) (history : List WatchEvent) : Type 0 where
  pub in_order :
      (r n : ℕ) → 0 < r → (k : ℕ) × (all_events (take n (watch r)) ≡ take k (above r history))
  pub header : (r n : ℕ) → 0 < r → All (IsHeader r) (take n (watch r))

pub deletes-append : (xs ys : List WatchEvent) → deletes (xs ++ ys) ≡ deletes xs ++ deletes ys
deletes-append [] ys = refl
deletes-append (x ∷ xs) ys = elim (Bool-cases (x.is_delete)) [
  | inl e ↦ ground (arith, deletes-append xs ys)
  | inr e ↦ ground (arith, deletes-append xs ys)
]

-- The deletions of the first events are the first deletions.
pub deletes-take :
    (n : ℕ) (h : List WatchEvent) → (k : ℕ) × (deletes (take n h) ≡ take k (deletes h))
deletes-take zero h = (zero, refl)
deletes-take (suc n) [] = (zero, refl)
deletes-take (suc n) (ev ∷ more) = by_test (ev.is_delete) (deletes-take n more)
  where
    by_test :
        (b : Bool)
        → (k : ℕ) × (deletes (take n more) ≡ take k (deletes more))
        → (k : ℕ) × ((if b then ev ∷ deletes (take n more) else deletes (take n more))
            ≡ take k (if b then ev ∷ deletes more else deletes more))
    by_test true (k, e) = (suc k, ap (λ l. ev ∷ l) e)
    by_test false (k, e) = (k, e)

pub All-deletes :
    (P : WatchEvent → Type 0) (evs : List WatchEvent) → All P evs → All P (deletes evs)
All-deletes P [] all = tt
All-deletes P (ev ∷ more) (first, all) = by_test (ev.is_delete) (All-deletes P more all)
  where
    by_test :
        (b : Bool) → All P (deletes more) → All P (if b then ev ∷ deletes more else deletes more)
    by_test true h = (first, h)
    by_test false h = h

pub All-take :
    (P : WatchEvent → Type 0) (n : ℕ) (evs : List WatchEvent) → All P evs → All P (take n evs)
All-take P zero evs all = tt
All-take P (suc n) [] all = tt
All-take P (suc n) (ev ∷ more) (first, all) = (first, All-take P n more all)

pub All-above :
    (r : ℕ) (h : List WatchEvent) → All (λ (ev : WatchEvent). r < ev.mod_revision) (above r h)
All-above r [] = tt
All-above r (ev ∷ more) = by_test (ltb r (ev.mod_revision)) refl (All-above r more)
  where
    by_test :
        (b : Bool)
        → ltb r (ev.mod_revision) ≡ b
        → All (λ (e : WatchEvent). r < e.mod_revision) (above r more)
        → All
            (λ (e : WatchEvent). r < e.mod_revision)
            (if b then ev ∷ above r more else above r more)
    by_test true e h = (ground (arith, e), h)
    by_test false e h = h
