-- ===== src/Cache/Tests.antt =====
-- The other commands at concrete inputs.
use seckill_pkg.Base.{
  ℕ, ◌≡◌, refl, true, false, ◌||◌, none, some, List, [], ◌∷◌, is_empty, Text, codes, pos, negsuc,
}
use seckill_pkg.Base.Dict.{lookup}
use seckill_pkg.Cache.Commands.{
  Commands, count_keys, any_key, exists, incr, ttl, Registry, new, exists_any,
  collector_of_failed_client,
}

-- A server without keys that answers only to EXISTS.
abbrev empty_server : Commands ℕ
empty_server = record {
  exists_keys = λ s keys. some (count_keys (λ k. false) keys);
  incr_key = λ s key. (s, none);
  expire_key = λ s key t. (s, none);
  expire_key_at = λ s key t. (s, none);
  ttl_of = λ s key. none;
}

abbrev two_keys : List Text
two_keys = codes "a" ∷ (codes "b" ∷ [])

abbrev state : ℕ
state = 0

exists_any_example :
    exists empty_server state two_keys ≡ (is_empty two_keys || any_key (λ k. false) two_keys)
exists_any_example = exists_any empty_server state (λ k. false) two_keys refl

incr_fails : incr empty_server state (codes "a") ≡ (state, pos 0)
unfolding incr
incr_fails = refl

ttl_fails : ttl empty_server state (codes "a") ≡ (negsuc 0, false)
unfolding ttl
ttl_fails = refl

abbrev no_collectors : Registry
no_collectors = []

no_collector : lookup (codes "shop") no_collectors ≡ none
unfolding lookup
no_collector = refl

collector_of_failed_client_example :
    let failed = new (codes "shop") 1 false no_collectors in
    let again = new (codes "shop") 2 true (failed.0) in
    (failed.1 ≡ none) × (again.1 ≡ some 2) × (lookup (codes "shop") (again.0) ≡ some 1)
collector_of_failed_client_example =
    collector_of_failed_client (codes "shop") 1 2 no_collectors no_collector
