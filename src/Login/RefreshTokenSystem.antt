-- ===== src/Login/RefreshTokenSystem.antt =====
-- user_login.go: RefreshTokenSystem, which keeps the user of a refresh token in the cache.
pub mod Laws
use seckill_pkg.Base.{
  ℕ, suc, ◌+◌, ◌≡◌, ◌≢◌, refl, ap, sym, subst, ◌∙◌, inl, inr, Bool, true, false, Option, none, some,
  List, [], ◌∷◌, ◌++◌, arith, if◌then◌else◌, Text, codes, ◌==◌, ==_iff, ==_self, ℤ, decimal_int,
  append_cancel, int_text_injective,
}
use seckill_pkg.Encrypt.Hex.{hex_encode}
use seckill_pkg.Cache.{Got, value, nil, failed, Client, set, get, del, Documented}
use seckill_pkg.Token.{Claims, Jwt, Parsed, parsed, refused, jwt_sign, jwt_parse, jwt_parse_unsafe}
use seckill_pkg.Login.{
  LoginError, refresh_token_expired, login_failed, Answer, answer, fails, LoginConfig,
  RefreshResponse, Libraries, redis_refresh_token_key_prefix, redis_black_list_key_prefix,
}

module _ {S : Type 0} (client : Client S) (lib : Libraries) (cfg : LoginConfig) where
  unfoldable pub generate_refresh_token : ℤ → Text → Text
  generate_refresh_token user_id user_name =
      hex_encode (lib.hmac (cfg.secret) (decimal_int user_id ++ (codes "_" ++ user_name)))

  abbrev pub refresh_key : Text → Text
  refresh_key token = redis_refresh_token_key_prefix ++ token

  -- After Set.
  abbrev pub response_of : Text → Text → S × Bool → S × Answer RefreshResponse
  response_of token refresh (s, true) =
      (s, answer (record { access_token = token; refresh_token = refresh }))
  response_of token refresh (s, false) = (s, fails login_failed)

  -- After JwtSign.
  abbrev pub store_refresh : S → ℤ → Text → Option Text → S × Answer RefreshResponse
  store_refresh s user_id user_name none = (s, fails login_failed)
  store_refresh s user_id user_name (some token) =
      let refresh = generate_refresh_token user_id user_name in
      response_of token refresh
        (set client s (refresh_key refresh) (lib.marshal user_id user_name) (cfg.refresh_duration))

  unfoldable pub generate_token : ℕ → S → ℤ → Text → S × Answer RefreshResponse
  generate_token now s user_id user_name =
      store_refresh s user_id user_name
        (jwt_sign (lib.jwt) (cfg.secret) now user_id user_name (cfg.expire_duration))

  -- It reports no error, whatever Del says.
  unfoldable pub token_cancel : S → Text → S
  token_cancel s token = (del client s (refresh_key token)).0

  unfoldable pub token_cancel_by_id : S → ℤ → Text → S
  token_cancel_by_id s user_id user_name = token_cancel s (generate_refresh_token user_id user_name)

  -- After Get.
  abbrev pub refresh_got : ℕ → S → Text → Got → S × Answer RefreshResponse
  refresh_got now s token nil = (s, fails refresh_token_expired)
  refresh_got now s token failed = (s, fails login_failed)
  refresh_got now s token (value json) =
      let user = lib.unmarshal json in generate_token now (token_cancel s token) (user.0) (user.1)

  unfoldable pub refresh_token : ℕ → S → Text → S × Answer RefreshResponse
  refresh_token now s token = refresh_got now s token (get client s (refresh_key token))
