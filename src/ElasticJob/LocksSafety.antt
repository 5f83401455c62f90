-- ===== src/ElasticJob/LocksSafety.antt =====
-- storage/redis.go and storage/etcd.go: that a lock is held by one node at most.
use seckill_pkg.Base.{
  ℕ, ◌≡◌, ◌≢◌, refl, ap, sym, subst, ◌∙◌, ◌⊎◌, inl, inr, some_inj, ◌&&◌, Bool, true, false, Option,
  none, some, [], arith, if◌then◌else◌, Text, ◌==◌, ==_iff, is_some, eqb, Bool-cases, Option-cases,
}
use seckill_pkg.Base.Dict.{
  Dict, lookup, insert, erase, lookup-insert, lookup-erase, lookup-insert_self, lookup-erase_self,
}
use seckill_pkg.ElasticJob.Locks.{
  Cluster, LockError, acquired, let_go, try_lock, owned_by, un_lock, expired, Step, locking,
  unlocking, expiring, Run, done, next, idle,
}

-- Whether a node's table has a key.
abbrev pub holds : Cluster → ℕ → Text → Bool
holds c node key = is_some (lookup key (c.lock_map node))

-- What a node's table has, the server holds for this node.
abbrev pub IsOwned : Cluster → Type 0
IsOwned c = (node : ℕ) (key : Text) → holds c node key ≡ true → lookup key (c.server) ≡ some node

pub none-some : {A : Type 0} {x : A} → none ≡ some x → ⊥
none-some h = ground (arith, h)

not_key :
    (key k : Text) (m : Dict ℕ) (n : ℕ)
    → lookup key m ≡ none
    → lookup k m ≡ some n
    → (key == k) ≡ false
not_key key k m n free held = elim (Bool-cases (key == k)) [
  | inr e ↦ e
  | inl e ↦ absurd (none-some (sym free ∙ ap (λ x. lookup x m) ((==_iff key k).0 e) ∙ held))
]

acquired-IsOwned :
    (c : Cluster) (node : ℕ) (key : Text)
    → IsOwned c
    → lookup key (c.server) ≡ none
    → IsOwned (acquired c node key)
acquired-IsOwned c node key inv free other k h = elim (Bool-cases (eqb other node)) [
  | inl e ↦
      let same : other ≡ node = ground (arith, e) in
      let mine =
        sym (
          ap
            (λ x.
              is_some
                (lookup k (if x then insert key true (c.lock_map node) else c.lock_map other)))
            e)
        ∙ h in
      subst (λ i. lookup k (insert key node (c.server)) ≡ some i) (sym same)
        (ground (
          arith,
          lookup-insert key k node (c.server),
          lookup-insert key k true (c.lock_map node),
          ==_iff key k,
          inv node k,
          mine,
        ))
  | inr e ↦
      let theirs =
        sym (
          ap
            (λ x.
              is_some
                (lookup k (if x then insert key true (c.lock_map node) else c.lock_map other)))
            e)
        ∙ h in
      let held = inv other k theirs in
      let differ : (key == k) ≡ false = not_key key k (c.server) other free held in
      lookup-insert key k node (c.server) ∙ rw differ held
]

pub try_lock-cases :
    (c : Cluster) (node : ℕ) (reachable : Bool) (key : Text)
    → (((try_lock c node reachable key).0 ≡ c)
        × (is_some ((try_lock c node reachable key).1) ≡ true))
      ⊎ ((lookup key (c.server) ≡ none)
          × (try_lock c node reachable key ≡ (acquired c node key, none)))
unfolding try_lock
try_lock-cases c node reachable key = elim (Bool-cases (is_some (lookup key (c.lock_map node)))) [
  | inl e ↦ inl (rw e refl, rw e refl)
  | inr e ↦ elim (Bool-cases reachable) [
    | inr f ↦ inl (rw (e, f) refl, rw (e, f) refl)
    | inl f ↦ elim (Option-cases (lookup key (c.server))) [
      | inl g ↦ inr (g, rw (e, f, g) refl)
      | inr (n, g) ↦ inl (rw (e, f, g) refl, rw (e, f, g) refl)
    ]
  ]
]

-- A key that a call took is held by the server, and a key that the server holds is not taken.
pub try_lock_takes :
    (c : Cluster) (node : ℕ) (reachable : Bool) (key : Text)
    → is_some ((try_lock c node reachable key).1) ≡ false
    → lookup key (((try_lock c node reachable key).0).server) ≡ some node
try_lock_takes c node reachable key h = elim (try_lock-cases c node reachable key) [
  | inl (same, refused) ↦ absurd (ground (arith, h, refused))
  | inr (free, e) ↦
      ap (λ (r : Cluster × Option LockError). lookup key ((r.0).server)) e
      ∙ lookup-insert_self key node (c.server)
]

pub try_lock_refuses :
    (c : Cluster) (a b : ℕ) (reachable : Bool) (key : Text)
    → lookup key (c.server) ≡ some a
    → is_some ((try_lock c b reachable key).1) ≡ true
unfolding try_lock
try_lock_refuses c a b reachable key h = ground (arith, h)

try_lock-IsOwned :
    (c : Cluster) (node : ℕ) (reachable : Bool) (key : Text)
    → IsOwned c
    → IsOwned ((try_lock c node reachable key).0)
try_lock-IsOwned c node reachable key inv = elim (try_lock-cases c node reachable key) [
  | inl (same, refused) ↦ subst IsOwned (sym same) inv
  | inr (free, e) ↦
      subst IsOwned (sym (ap (λ (r : Cluster × Option LockError). r.0) e))
        (acquired-IsOwned c node key inv free)
]

kept :
    (released : Bool) (key k : Text) (m : Dict ℕ) (n : ℕ)
    → (key == k) ≡ false
    → lookup k m ≡ some n
    → lookup k (if released then erase key m else m) ≡ some n
kept false key k m n differ held = held
kept true key k m n differ held = lookup-erase key k m ∙ rw differ held

apart_keys :
    (key k : Text) (m : Dict ℕ) (a b : ℕ)
    → b ≢ a
    → lookup key m ≡ some a
    → lookup k m ≡ some b
    → (key == k) ≡ false
apart_keys key k m a b differ mine held = elim (Bool-cases (key == k)) [
  | inr e ↦ e
  | inl e ↦
      absurd (differ (some_inj (sym held ∙ ap (λ x. lookup x m) (sym ((==_iff key k).0 e)) ∙ mine)))
]

let_go-IsOwned :
    (c : Cluster) (node : ℕ) (released : Bool) (key : Text)
    → IsOwned c
    → (released ≡ true → lookup key (c.server) ≡ some node)
    → IsOwned (let_go c node released key)
let_go-IsOwned c node released key inv mine other k h = elim (Bool-cases (eqb other node)) [
  | inl e ↦
      let same : other ≡ node = ground (arith, e) in
      let left =
        sym (
          ap (λ x. is_some (lookup k (if x then erase key (c.lock_map node) else c.lock_map other)))
            e)
        ∙ h in
      let gone = lookup-erase key k (c.lock_map node) in
      let differ : (key == k) ≡ false = ground (arith, gone, left) in
      let held = inv node k (ground (arith, gone, left, differ)) in
      kept released key k (c.server) other differ
        (subst (λ i. lookup k (c.server) ≡ some i) (sym same) held)
  | inr e ↦
      let theirs =
        sym (
          ap (λ x. is_some (lookup k (if x then erase key (c.lock_map node) else c.lock_map other)))
            e)
        ∙ h in
      let held = inv other k theirs in
      elim (Bool-cases released) [
        | inr f ↦ rw f held
        | inl f ↦
            let apart : (key == k) ≡ false =
              apart_keys key k (c.server) node other (ground (arith, e)) (mine f) held in
            kept released key k (c.server) other apart held
      ]
]

owner : (node : ℕ) (o : Option ℕ) → owned_by node o ≡ true → o ≡ some node
owner node none h = absurd (ground (arith, h))
owner node (some n) h = ground (arith, h)

pub un_lock-cases :
    (c : Cluster) (node : ℕ) (reachable : Bool) (key : Text)
    → ((un_lock c node reachable key).0 ≡ c)
      ⊎ ((released : Bool) × (released ≡ true → lookup key (c.server) ≡ some node)
          × ((un_lock c node reachable key).0 ≡ let_go c node released key))
unfolding un_lock
un_lock-cases c node reachable key = elim (Bool-cases (is_some (lookup key (c.lock_map node)))) [
  | inr e ↦ inl (rw e refl)
  | inl e ↦ inr (
    reachable && owned_by node (lookup key (c.server)),
    λ h. ground (arith, owner node (lookup key (c.server)), h),
    rw e refl,
  )
]

un_lock-IsOwned :
    (c : Cluster) (node : ℕ) (reachable : Bool) (key : Text)
    → IsOwned c
    → IsOwned ((un_lock c node reachable key).0)
un_lock-IsOwned c node reachable key inv = elim (un_lock-cases c node reachable key) [
  | inl e ↦ subst IsOwned (sym e) inv
  | inr (released, mine, e) ↦ subst IsOwned (sym e) (let_go-IsOwned c node released key inv mine)
]

Step-IsOwned : (c d : Cluster) → Step false c d → IsOwned c → IsOwned d
Step-IsOwned c _ (locking _ node reachable key) inv = try_lock-IsOwned c node reachable key inv
Step-IsOwned c _ (unlocking _ node reachable key) inv = un_lock-IsOwned c node reachable key inv

pub run-IsOwned : (c d : Cluster) → Run false c d → IsOwned c → IsOwned d
run-IsOwned c _ (done _) inv = inv
run-IsOwned c e (next _ d _ r s) inv = Step-IsOwned d e s (run-IsOwned c d r inv)

pub idle-IsOwned : IsOwned idle
unfolding lookup
idle-IsOwned node key h = absurd (ground (arith, h))

-- With locks that do not expire, after any calls of TryLock and UnLock by any nodes in any
-- order, with the server answering or not, two nodes whose lock tables both have a key are the
-- same node.
pub mutual_exclusion :
    (c : Cluster) (a b : ℕ) (key : Text)
    → Run false idle c
    → holds c a key ≡ true
    → holds c b key ≡ true
    → a ≡ b
mutual_exclusion c a b key run h k =
    let inv = run-IsOwned idle c run idle-IsOwned in some_inj (sym (inv a key h) ∙ inv b key k)

pub try_free :
    (c : Cluster) (node : ℕ) (key : Text)
    → is_some (lookup key (c.lock_map node)) ≡ false
    → lookup key (c.server) ≡ none
    → (try_lock c node true key).0 ≡ acquired c node key
unfolding try_lock
try_free c node key e f = rw (e, f) refl

-- With locks that expire, as those of Redis do, any two different nodes can hold any key at the
-- same time: the table of the first keeps the key after the server has dropped it.
pub expiry_breaks_exclusion :
    (a b : ℕ) (key : Text)
    → a ≢ b
    → (c : Cluster) × Run true idle c × (holds c a key ≡ true) × (holds c b key ≡ true)
unfolding lookup try_lock
expiry_breaks_exclusion a b key differ =
    let c1 = acquired idle a key in
    let c2 = expired c1 key in
    let c3 = acquired c2 b key in
    let ba : eqb b a ≡ false = ground (arith, differ) in
    let ab : eqb a b ≡ false = ground (arith, differ) in
    let bb : eqb b b ≡ true = ground arith in
    let aa : eqb a a ≡ true = ground arith in
    let first : (try_lock idle a true key).0 ≡ c1 = refl in
    let free : lookup key (c2.server) ≡ none = lookup-erase_self key (c1.server) in
    let not_mine : is_some (lookup key (c2.lock_map b)) ≡ false = rw ba refl in
    let again : (try_lock c2 b true key).0 ≡ c3 = try_free c2 b key not_mine free in
    (
      c3,
      next idle c2 c3
          (next idle c1 c2
            (next idle idle c1 (done idle) (subst (Step true idle) first (locking idle a true key)))
            (expiring c1 key))
          (subst (Step true c2) again (locking c2 b true key)),
      rw (ab, aa) (ap is_some (lookup-insert_self key true [])),
      ap (λ x. is_some (lookup key (if x then insert key true (c2.lock_map b) else c2.lock_map b)))
            bb
          ∙ ap is_some (lookup-insert_self key true (c2.lock_map b)),
    )
