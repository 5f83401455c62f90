-- ===== src/Login.antt =====
-- pkg/login/user_login.go and model/user_bean.go: the two systems that give tokens out, refresh them
-- and cancel them. The state is that of the Redis server; JWT, HMAC and JSON are parameters.
pub mod RefreshTokenSystem
pub mod BlackListSystem
mod Tests
use seckill_pkg.Base.{ℕ, ◌≡◌, ap, arith, Text, ℤ, codes, List}
use seckill_pkg.Token.{Jwt}

pub data LoginError : Type 0 where
  refresh_token_expired : LoginError
  login_failed : LoginError

-- A response, or an error.
pub data Answer (A : Type 0) : Type 0 where
  answer : A → Answer A
  fails : LoginError → Answer A

-- The value of an answer.
answer_or : {A : Type 0} → A → Answer A → A
answer_or a (answer b) = b
answer_or a (fails e) = a

pub answer_inj : {A : Type 0} {x y : A} → answer x ≡ answer y → x ≡ y
unfolding answer_or
answer_inj {x = x} e = ap (answer_or x) e

pub fails_answer : {A : Type 0} {x : A} {e : LoginError} → fails e ≡ answer x → ⊥
fails_answer h = ground (arith, h)

-- The configuration of both systems; durations in nanoseconds.
pub record LoginConfig : Type 0 where
  pub secret : Text
  pub expire_duration : ℕ
  pub refresh_duration : ℕ

-- LoginResponseByRefreshToken: the access token and the refresh token.
pub record RefreshResponse : Type 0 where
  pub access_token : Text
  pub refresh_token : Text

abbrev pub redis_refresh_token_key_prefix : Text
redis_refresh_token_key_prefix = codes "sk:refresh:"

abbrev pub redis_black_list_key_prefix : Text
redis_black_list_key_prefix = codes "sk:black_list:"

-- What the systems use beside the cache: golang-jwt, HMAC-MD5 under a secret, and the JSON of the
-- user's claims, whose errors the code ignores.
pub record Libraries : Type 0 where
  pub jwt : Jwt
  pub hmac : Text → Text → List ℕ
  pub marshal : ℤ → Text → Text
  pub unmarshal : Text → ℤ × Text
