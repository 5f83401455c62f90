-- ===== src/Cache/Commands.antt =====
-- cache/redis.go: the other commands of Repo, and New. What the client gives for a command is a
-- parameter; `none` is its error.
use seckill_pkg.Base.{
  ℕ, ◌+◌, ◌≡◌, refl, ap, ◌∙◌, Bool, true, false, ◌||◌, Option, none, some, List, [], ◌∷◌, arith,
  if◌then◌else◌, is_empty, is_some, ltb, Text, ℤ, pos, negsuc,
}
use seckill_pkg.Base.Dict.{Dict, lookup, insert, lookup-insert_self}

pub record Commands (S : Type 0) : Type 0 where
  pub exists_keys : S → List Text → Option ℕ
  pub incr_key : S → Text → S × Option ℤ
  pub expire_key : S → Text → ℕ → S × Option Bool
  pub expire_key_at : S → Text → ℕ → S × Option Bool
  pub ttl_of : S → Text → Option ℤ

abbrev pub or_zero : Option ℕ → ℕ
or_zero none = 0
or_zero (some n) = n

abbrev pub or_zero_int : Option ℤ → ℤ
or_zero_int none = pos 0
or_zero_int (some n) = n

abbrev pub or_false : Option Bool → Bool
or_false none = false
or_false (some b) = b

module _ {S : Type 0} (c : Commands S) where
  -- Exists drops the error.
  unfoldable pub exists : S → List Text → Bool
  exists s keys = if is_empty keys then true else ltb 0 (or_zero (c.exists_keys s keys))

  -- Incr gives 0 with an error, which it drops.
  unfoldable pub incr : S → Text → S × ℤ
  incr s key = let r = c.incr_key s key in (r.0, or_zero_int (r.1))

  unfoldable pub expire : S → Text → ℕ → S × Bool
  expire s key ttl = let r = c.expire_key s key ttl in (r.0, or_false (r.1))

  unfoldable pub expire_at : S → Text → ℕ → S × Bool
  expire_at s key at_time = let r = c.expire_key_at s key at_time in (r.0, or_false (r.1))

  -- TTL gives -1 with an error; the second component says whether there was none.
  abbrev pub ttl_result : Option ℤ → ℤ × Bool
  ttl_result none = (negsuc 0, false)
  ttl_result (some t) = (t, true)

  unfoldable pub ttl : S → Text → ℤ × Bool
  ttl s key = ttl_result (c.ttl_of s key)

-- How many of the keys are there, each as often as it is named.
abbrev pub count_keys : (Text → Bool) → List Text → ℕ
count_keys there [] = 0
count_keys there (k ∷ ks) = (if there k then 1 else 0) + count_keys there ks

abbrev pub any_key : (Text → Bool) → List Text → Bool
any_key there [] = false
any_key there (k ∷ ks) = there k || any_key there ks

count-any : (there : Text → Bool) (ks : List Text) → ltb 0 (count_keys there ks) ≡ any_key there ks
count-any there [] = refl
count-any there (k ∷ ks) = ground (arith, count-any there ks)

-- When the server counts the keys that are there, Exists says whether at least one of the keys is
-- there, not whether all of them are, and it says yes for no keys.
pub exists_any :
    {S : Type 0} (c : Commands S) (s : S) (there : Text → Bool) (keys : List Text)
    → c.exists_keys s keys ≡ some (count_keys there keys)
    → exists c s keys ≡ (is_empty keys || any_key there keys)
unfolding exists
exists_any c s there [] answer = refl
exists_any c s there (k ∷ ks) answer =
    ap (λ (o : Option ℕ). ltb 0 (or_zero o)) answer ∙ count-any there (k ∷ ks)

-- The default registry of Prometheus, as far as collectors of New go: the client of a collector, by the
-- name of its server, which is in all its labels.
abbrev pub Registry : Type 0
Registry = Dict ℕ

-- prometheus.Register refuses a collector with the same labels as one that is there; the error is dropped.
abbrev pub registered : Text → ℕ → Registry → Registry
registered server_name client r =
    if is_some (lookup server_name r) then r else insert server_name client r

-- redisConnect, which registers the collector before it knows whether the server answers.
unfoldable pub redis_connect : Text → ℕ → Bool → Registry → Registry × Option ℕ
redis_connect server_name client answers r =
    (registered server_name client r, if answers then some client else none)

-- New; `none` is the error.
unfoldable pub new : Text → ℕ → Bool → Registry → Registry × Option ℕ
new server_name client answers r = redis_connect server_name client answers r

-- When New fails because the server does not answer, and is called again with the same name of
-- the server and succeeds, the pool statistics stay those of the client of the call that
-- failed.
pub collector_of_failed_client :
    (server_name : Text) (first second : ℕ) (r : Registry)
    → lookup server_name r ≡ none
    → let failed = new server_name first false r in
      let again = new server_name second true (failed.0) in
      (failed.1 ≡ none) × (again.1 ≡ some second) × (lookup server_name (again.0) ≡ some first)
unfolding new redis_connect
collector_of_failed_client server_name first second r fresh =
    let one : registered server_name first r ≡ insert server_name first r =
      ap (λ (o : Option ℕ). if is_some o then r else insert server_name first r) fresh in
    let there : lookup server_name (registered server_name first r) ≡ some first =
      ap (lookup server_name) one ∙ lookup-insert_self server_name first r in
    let two : registered server_name second (registered server_name first r)
        ≡ registered server_name first r =
      ap
        (λ (o : Option ℕ).
          if is_some o
          then registered server_name first r
          else insert server_name second (registered server_name first r))
        there in
    (refl, refl, ap (lookup server_name) two ∙ there)
