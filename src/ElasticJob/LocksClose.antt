-- ===== src/ElasticJob/LocksClose.antt =====
-- storage/redis.go and storage/etcd.go: Close, which releases the locks of a node.
use seckill_pkg.Base.{
  ℕ, suc, ◌+◌, ◌≡◌, ◌≢◌, refl, ap, sym, ◌∙◌, inl, inr, some_inj, ◌&&◌, Bool, true, false, none,
  some, [], ◌∷◌, arith, if◌then◌else◌, Text, ◌==◌, ==_iff, is_some, eqb, ltb, Bool-cases,
}
use seckill_pkg.Base.Dict.{Dict, lookup, erase, lookup-erase, lookup-erase_self}
use seckill_pkg.ElasticJob.Locks.{Cluster, acquired, try_lock, owned_by, Run, idle}
use seckill_pkg.ElasticJob.LocksSafety.{holds, IsOwned, run-IsOwned, idle-IsOwned}

-- The locks of a lock map are released one after the other: the server's table, and the number of errors.
unfoldable pub release_all : ℕ → Bool → Dict Bool → Dict ℕ → Dict ℕ × ℕ
release_all node reachable [] server = (server, 0)
release_all node reachable ((key, _) ∷ more) server =
    let released = reachable && owned_by node (lookup key server) in
    let rest = release_all node reachable more (if released then erase key server else server) in
    (rest.0, if released then rest.1 else suc (rest.1))

-- Close: the second component says whether it reports an error. `others_fail` is the number of errors
-- of closing the subscription and the client (Redis), or the client and the session (etcd); the lock
-- map is left as it is.
unfoldable pub close : Cluster → ℕ → Bool → ℕ → Cluster × Bool
close c node reachable others_fail =
    let r = release_all node reachable (c.lock_map node) (c.server) in
    (record c { server = r.0 }, ltb 0 (r.1 + others_fail))

-- A key that is free stays free.
release_all-free :
    (node : ℕ) (reachable : Bool) (m : Dict Bool) (server : Dict ℕ) (key : Text)
    → lookup key server ≡ none
    → lookup key ((release_all node reachable m server).0) ≡ none
unfolding release_all
release_all-free node reachable [] server key free = free
release_all-free node reachable ((k, b) ∷ more) server key free =
    release_all-free node reachable more
      (if reachable && owned_by node (lookup k server) then erase k server else server) key
      (still (reachable && owned_by node (lookup k server)))
  where
    still : (released : Bool) → lookup key (if released then erase k server else server) ≡ none
    still true = ground (arith, lookup-erase k key server, free)
    still false = free

release_all-held :
    (node : ℕ) (m : Dict Bool) (server : Dict ℕ) (key : Text)
    → is_some (lookup key m) ≡ true
    → lookup key server ≡ some node
    → lookup key ((release_all node true m server).0) ≡ none
unfolding release_all lookup
release_all-held node [] server key has mine = absurd (ground (arith, has))
release_all-held node ((k, b) ∷ more) server key has mine = elim (Bool-cases (k == key)) [
  | inl e ↦
      let same : k ≡ key = (==_iff k key).0 e in
      let mine_k : lookup k server ≡ some node = ap (λ x. lookup x server) same ∙ mine in
      let self : eqb node node ≡ true = ground arith in
      let owned : owned_by node (lookup k server) ≡ true = ap (owned_by node) mine_k ∙ self in
      release_all-free node true more
        (if owned_by node (lookup k server) then erase k server else server) key
        (ap (λ b. lookup key (if b then erase k server else server)) owned
          ∙ ap (λ x. lookup key (erase x server)) same
          ∙ lookup-erase_self key server)
  | inr e ↦
      release_all-held node more
        (if owned_by node (lookup k server) then erase k server else server) key
        (ap (λ x. is_some (if x then some b else lookup key more)) (sym e) ∙ has)
        (other e (owned_by node (lookup k server)))
]
  where
    other :
        (k == key) ≡ false
        → (released : Bool) → lookup key (if released then erase k server else server) ≡ some node
    other e true = lookup-erase k key server ∙ rw e mine
    other e false = mine

-- What a node's lock map has, no other node's has.
apart :
    (c : Cluster) (a b : ℕ) (key : Text)
    → IsOwned c
    → a ≢ b
    → holds c a key ≡ true
    → holds c b key ≡ false
apart c a b key inv differ mine = elim (Bool-cases (holds c b key)) [
  | inl e ↦ absurd (differ (some_inj (sym (inv a key mine) ∙ inv b key e)))
  | inr e ↦ e
]

-- With locks that do not expire, after any calls by any nodes, when a node that holds a lock is
-- closed and the server answers, another node takes this lock at its next call of TryLock.
pub closed_lock_is_taken :
    (c : Cluster) (a b others_fail : ℕ) (key : Text)
    → Run false idle c
    → holds c a key ≡ true
    → a ≢ b
    → try_lock ((close c a true others_fail).0) b true key
      ≡ (acquired ((close c a true others_fail).0) b key, none)
unfolding try_lock close
closed_lock_is_taken c a b others_fail key run mine differ =
    let inv = run-IsOwned idle c run idle-IsOwned in
    let theirs : is_some (lookup key (c.lock_map b)) ≡ false = apart c a b key inv differ mine in
    let free : lookup key ((release_all a true (c.lock_map a) (c.server)).0) ≡ none =
      release_all-held a (c.lock_map a) (c.server) key mine (inv a key mine) in
    rw (theirs, free) refl
