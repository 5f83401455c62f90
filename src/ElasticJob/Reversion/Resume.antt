-- ===== src/ElasticJob/Reversion/Resume.antt =====
-- storage/etcd.go: what a node sends in one life, and over several.
use seckill_pkg.Base.{
  ℕ, ◌+◌, ◌≤◌, ◌<◌, ◌≡◌, ap, sym, subst, ◌∙◌, Bool, true, false, List, [], ◌∷◌, ◌++◌, arith, map,
  list_laws, if◌then◌else◌, eqb, take, All,
}
use seckill_pkg.ElasticJob.Reversion.{WatchEvent, Batch, Etcd, respond, run_loop, started, life}
use seckill_pkg.ElasticJob.Reversion.History.{
  deletes, all_events, above, IsHeader, Documented, All-deletes, All-take, All-above,
}
use seckill_pkg.ElasticJob.Reversion.Sending.{run_loop-sent, run_loop-IsAtLeast}

-- A life: how many responses come, and how often watchC is received from before Close puts the revision
-- then until the last Put of run, and then until Close cancels the context.
abbrev pub Span : Type 0
Span = ℕ × ℕ × ℕ × ℕ

module _ (now : WatchEvent → ℕ) (watch : ℕ → List Batch) where
  -- One life after the other, each on the responses of a watch from the revision that is saved.
  abbrev pub lives : List Span → Etcd → Etcd
  lives [] e = e
  lives ((n, early, more, late) ∷ spans) e =
      lives spans (life now early more late (take n (watch (e.saved))) e)

  life-sent :
      (early more late : ℕ) (bs : List Batch) (e : Etcd)
      → (life now early more late bs e).sent
        ≡ e.sent ++ map (respond now) (take (early + more + late) (deletes (all_events bs)))
  unfolding life
  life-sent early more late bs e = run_loop-sent now bs (early + more + late) (started e)

  life-saved :
      (early more late : ℕ) (bs : List Batch) (e : Etcd)
      → All (IsHeader (e.saved)) bs
      → e.saved ≤ (life now early more late bs e).saved
  unfolding life
  life-saved early more late bs e up =
      let at_put =
        run_loop-IsAtLeast now (e.saved) bs early (started e) up (omega arith, omega arith) in
      let at_end =
        run_loop-IsAtLeast now (e.saved) bs (early + more) (started e) up
          (omega arith, omega arith) in
      either
        (eqb ((run_loop now bs (early + more) (started e)).puts)
          ((run_loop now bs early (started e)).puts))
        (at_put.0) (at_end.1)
    where
      either : (b : Bool) {r x y : ℕ} → r ≤ x → r ≤ y → r ≤ (if b then x else y)
      either true h k = h
      either false h k = k

  All-weaken :
      (r s : ℕ) (evs : List WatchEvent)
      → r ≤ s
      → All (λ (ev : WatchEvent). s < ev.mod_revision) evs
      → All (λ (ev : WatchEvent). r < ev.mod_revision) evs
  All-weaken r s [] le all = tt
  All-weaken r s (ev ∷ more) le (first, all) =
      (omega (arith, le, first), All-weaken r s more le all)

  All-append :
      (P : WatchEvent → Type 0) (xs ys : List WatchEvent) → All P xs → All P ys → All P (xs ++ ys)
  All-append P [] ys all more = more
  All-append P (x ∷ xs) ys (first, all) more = (first, All-append P xs ys all more)

  -- What is sent in lives from a saved revision on has revisions above it.
  pub lives_above :
      (history : List WatchEvent) (r : ℕ) (spans : List Span) (e : Etcd)
      → Documented watch history
      → 0 < r
      → r ≤ e.saved
      → (evs : List WatchEvent) × ((lives spans e).sent ≡ e.sent ++ map (respond now) evs)
        × All (λ (ev : WatchEvent). r < ev.mod_revision) evs
  lives_above history r [] e doc pos up = ([], simp list_laws, tt)
  lives_above history r ((n, early, more, late) ∷ spans) e doc pos up =
      let P : WatchEvent → Type 0 = λ ev. r < ev.mod_revision in
      let bs = take n (watch (e.saved)) in
      let d = life now early more late bs e in
      let positive : 0 < e.saved = omega (arith, pos, up) in
      let seen = doc.in_order (e.saved) n positive in
      let sent = take (early + more + late) (deletes (all_events bs)) in
      let later : All P (all_events bs) = subst (All P) (sym (seen.1)) (
        All-take P (seen.0) (above (e.saved) history)
          (All-weaken r (e.saved) (above (e.saved) history) up (All-above (e.saved) history))) in
      let grows : e.saved ≤ d.saved =
        life-saved early more late bs e (doc.header (e.saved) n positive) in
      let rest = lives_above history r spans d doc pos (omega (arith, up, grows)) in
      (
        sent ++ rest.0,
        rest.1
            ∙ ap (λ l. l ++ map (respond now) (rest.0)) (life-sent early more late bs e)
            ∙ simp list_laws,
        All-append P sent (rest.0)
            (All-take P (early + more + late) (deletes (all_events bs))
              (All-deletes P (all_events bs) later))
            (rest.2),
      )
