-- ===== src/ElasticJob/Reversion/Sending.antt =====
-- storage/etcd.go: what run sends, and the revision that it keeps meanwhile.
use seckill_pkg.Base.{
  ℕ, zero, suc, ◌+◌, ◌-◌, ◌≤◌, ◌<◌, ◌≡◌, ◌⊎◌, refl, ap, sym, subst, ◌∙◌, Bool, take, ltb, none,
  some, List, [], ◌∷◌, ◌++◌, arith, map, list_laws, if◌then◌else◌, is_empty, length, All,
  Bool-cases, inl, inr,
}
use seckill_pkg.ElasticJob.Storage.{WatchResponse}
use seckill_pkg.ElasticJob.Reversion.{
  WatchEvent, Batch, Etcd, Turned, persist, respond, send, send_events, after_batch, run_loop,
}
use seckill_pkg.ElasticJob.Reversion.History.{deletes, all_events, IsHeader, deletes-append}

module _ (now : WatchEvent → ℕ) where
  abbrev pub all_sent : ℕ → List WatchEvent → Etcd → Etcd
  all_sent revision ds e = record e {
    reversion = if is_empty ds then e.reversion else revision;
    sent = e.sent ++ map (respond now) ds;
  }

  pub all_sent-cons :
      (revision : ℕ) (ev : WatchEvent) (ds : List WatchEvent) (e : Etcd)
      → all_sent revision ds (send now revision ev e) ≡ all_sent revision (ev ∷ ds) e
  all_sent-cons revision ev [] e = simp list_laws
  all_sent-cons revision ev (d ∷ ds) e = simp list_laws

  pub all_sent-nil : (revision : ℕ) (e : Etcd) → e ≡ all_sent revision [] e
  all_sent-nil revision e = simp list_laws

  pub to_deletes :
      (revision k : ℕ) (ev : WatchEvent) (more : List WatchEvent) (e : Etcd) {a b : Bool}
      → a ≡ b
      → ◌≡◌ {A = Turned}
          (all_sent revision (if a then ev ∷ deletes more else deletes more) e, some k)
          (all_sent revision (if b then ev ∷ deletes more else deletes more) e, some k)
  to_deletes revision k ev more e =
      ap (λ b. (all_sent revision (if b then ev ∷ deletes more else deletes more) e, some k))

  -- With room for every deletion all of them are sent.
  pub send_events-room :
      (revision k room : ℕ) (evs : List WatchEvent) (e : Etcd)
      → room ≡ length (deletes evs) + k
      → send_events now room revision evs e ≡ (all_sent revision (deletes evs) e, some k)
  unfolding send_events
  send_events-room revision k room [] e enough =
      let same : room ≡ k = omega (arith, enough) in
      ap (λ (n : ℕ). (e, some n)) same ∙ ap (λ (x : Etcd). (x, some k)) (all_sent-nil revision e)
  send_events-room revision k zero (ev ∷ more) e enough = elim (Bool-cases (ev.is_delete)) [
    | inl d ↦ absurd (ground (arith, enough, d))
    | inr d ↦
        let left : zero ≡ length (deletes more) + k = ground (arith, enough, d) in
        ap (λ b. if b then (e, none) else send_events now zero revision more e) d
        ∙ send_events-room revision k zero more e left
        ∙ to_deletes revision k ev more e (sym d)
  ]
  send_events-room revision k (suc room) (ev ∷ more) e enough =
      let sending = send_events now room revision more (send now revision ev e) in
      let rest = send_events now (suc room) revision more e in
      elim (Bool-cases (ev.is_delete)) [
        | inl d ↦
            let left : room ≡ length (deletes more) + k = ground (arith, enough, d) in
            ap (λ b. if b then sending else rest) d
            ∙ send_events-room revision k room more (send now revision ev e) left
            ∙ ap (λ (x : Etcd). (x, some k)) (all_sent-cons revision ev (deletes more) e)
            ∙ to_deletes revision k ev more e (sym d)
        | inr d ↦
            let left : suc room ≡ length (deletes more) + k = ground (arith, enough, d) in
            ap (λ b. if b then sending else rest) d
            ∙ send_events-room revision k (suc room) more e left
            ∙ to_deletes revision k ev more e (sym d)
      ]

  -- With less room the first deletions are sent, and run returns.
  pub send_events-short :
      (revision room : ℕ) (evs : List WatchEvent) (e : Etcd)
      → room < length (deletes evs)
      → send_events now room revision evs e ≡ (all_sent revision (take room (deletes evs)) e, none)
  unfolding send_events
  send_events-short revision room [] e short = absurd (ground (arith, short))
  send_events-short revision zero (ev ∷ more) e short = elim (Bool-cases (ev.is_delete)) [
    | inl d ↦
        ap (λ b. if b then (e, none) else send_events now zero revision more e) d
        ∙ ap (λ (x : Etcd). (x, none)) (all_sent-nil revision e)
    | inr d ↦
        let left : zero < length (deletes more) = ground (arith, short, d) in
        ap (λ b. if b then (e, none) else send_events now zero revision more e) d
        ∙ send_events-short revision zero more e left
  ]
  send_events-short revision (suc room) (ev ∷ more) e short =
      let sending = send_events now room revision more (send now revision ev e) in
      let rest = send_events now (suc room) revision more e in
      elim (Bool-cases (ev.is_delete)) [
        | inl d ↦
            let left : room < length (deletes more) = ground (arith, short, d) in
            ap (λ b. if b then sending else rest) d
            ∙ send_events-short revision room more (send now revision ev e) left
            ∙ ap (λ (x : Etcd). (x, none)) (all_sent-cons revision ev (take room (deletes more)) e)
            ∙ to_taken revision (suc room) ev more e (sym d)
        | inr d ↦
            let left : suc room < length (deletes more) = ground (arith, short, d) in
            ap (λ b. if b then sending else rest) d
            ∙ send_events-short revision (suc room) more e left
            ∙ to_taken revision (suc room) ev more e (sym d)
      ]
    where
      to_taken :
          (revision room : ℕ) (ev : WatchEvent) (more : List WatchEvent) (e : Etcd) {a b : Bool}
          → a ≡ b
          → ◌≡◌ {A = Turned}
              (
                all_sent revision (take room (if a then ev ∷ deletes more else deletes more)) e,
                none,
              )
              (
                all_sent revision (take room (if b then ev ∷ deletes more else deletes more)) e,
                none,
              )
      to_taken revision room ev more e = ap (λ b.
          (all_sent revision (take room (if b then ev ∷ deletes more else deletes more)) e, none))

  take-fewer : (n : ℕ) (xs ys : List WatchEvent) → n < length xs → take n (xs ++ ys) ≡ take n xs
  take-fewer zero xs ys h = refl
  take-fewer (suc n) [] ys h = absurd (ground (arith, h))
  take-fewer (suc n) (x ∷ xs) ys h = ap (λ l. x ∷ l) (take-fewer n xs ys (ground (arith, h)))

  take-more : (k : ℕ) (xs ys : List WatchEvent) → take (length xs + k) (xs ++ ys) ≡ xs ++ take k ys
  take-more k [] ys = let same : 0 + k ≡ k = omega arith in ap (λ n. take n ys) same
  take-more k (x ∷ xs) ys =
      let same : length (x ∷ xs) + k ≡ suc (length xs + k) = omega arith in
      ap (λ n. take n (x ∷ (xs ++ ys))) same ∙ ap (λ l. x ∷ l) (take-more k xs ys)

  -- Either the room is less than the deletions, or some is left.
  room_cases : (room n : ℕ) → (room < n) ⊎ ((k : ℕ) × (room ≡ n + k))
  room_cases room n = elim (Bool-cases (ltb room n)) [
    | inl h ↦ inl (ground (arith, h))
    | inr h ↦ inr (room - n, ground (arith, h))
  ]

  joined :
      (sent : List WatchResponse) (xs ys : List WatchEvent)
      → (sent ++ map (respond now) xs) ++ map (respond now) ys
        ≡ sent ++ map (respond now) (xs ++ ys)
  joined sent xs ys = simp list_laws

  -- The loop of run sends as many deletions as there is room for.
  pub run_loop-sent :
      (bs : List Batch) (room : ℕ) (e : Etcd)
      → (run_loop now bs room e).sent
        ≡ e.sent ++ map (respond now) (take room (deletes (all_events bs)))
  unfolding run_loop
  run_loop-sent [] zero e = simp list_laws
  run_loop-sent [] (suc room) e = simp list_laws
  run_loop-sent (b ∷ bs) room e =
      let ds = deletes (b.events) in
      let go : Turned → List WatchResponse = λ t. (after_batch now (run_loop now bs) t).sent in
      elim (room_cases room (length ds)) [
        | inl short ↦
            ap go (send_events-short (b.revision) room (b.events) (persist e) short)
            ∙ ap (λ l. e.sent ++ map (respond now) l)
                (sym (
                  ap (take room) (deletes-append (b.events) (all_events bs))
                  ∙ take-fewer room ds (deletes (all_events bs)) short))
        | inr (k, enough) ↦
            ap go (send_events-room (b.revision) k room (b.events) (persist e) enough)
            ∙ run_loop-sent bs k (all_sent (b.revision) ds (persist e))
            ∙ joined (e.sent) ds (take k (deletes (all_events bs)))
            ∙ ap (λ l. e.sent ++ map (respond now) l)
                (sym (
                  ap (take room) (deletes-append (b.events) (all_events bs))
                  ∙ ap (λ n. take n (ds ++ deletes (all_events bs))) enough
                  ∙ take-more k ds (deletes (all_events bs))))
      ]

  -- Both revisions of the node are at or above one.
  abbrev pub IsAtLeast : ℕ → Etcd → Type 0
  IsAtLeast r e = (r ≤ e.reversion) × (r ≤ e.saved)

  all_sent-IsAtLeast :
      (r revision : ℕ) (ds : List WatchEvent) (e : Etcd)
      → r ≤ revision
      → IsAtLeast r e
      → IsAtLeast r (all_sent revision ds (persist e))
  all_sent-IsAtLeast r revision [] e up (now_up, saved_up) = (now_up, now_up)
  all_sent-IsAtLeast r revision (d ∷ ds) e up (now_up, saved_up) = (up, now_up)

  pub run_loop-IsAtLeast :
      (r : ℕ) (bs : List Batch) (room : ℕ) (e : Etcd)
      → All (IsHeader r) bs
      → IsAtLeast r e
      → IsAtLeast r (run_loop now bs room e)
  unfolding run_loop
  run_loop-IsAtLeast r [] room e up at = (at.0, at.0)
  run_loop-IsAtLeast r (b ∷ bs) room e ((up, below), ups) at =
      let ds = deletes (b.events) in
      elim (room_cases room (length ds)) [
        | inl short ↦
            subst (λ (t : Turned). IsAtLeast r (after_batch now (run_loop now bs) t))
              (sym (send_events-short (b.revision) room (b.events) (persist e) short))
              (all_sent-IsAtLeast r (b.revision) (take room ds) e up at)
        | inr (k, enough) ↦
            subst (λ (t : Turned). IsAtLeast r (after_batch now (run_loop now bs) t))
              (sym (send_events-room (b.revision) k room (b.events) (persist e) enough))
              (run_loop-IsAtLeast r bs k (all_sent (b.revision) ds (persist e)) ups
                (all_sent-IsAtLeast r (b.revision) ds e up at))
      ]
