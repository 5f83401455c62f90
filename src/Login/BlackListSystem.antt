-- ===== src/Login/BlackListSystem.antt =====
-- user_login.go: BlackListSystem, which keeps the users whose tokens are refused in the cache.
pub mod Laws
use seckill_pkg.Base.{
  ℕ, suc, ◌+◌, ◌≡◌, ◌≢◌, refl, ap, sym, subst, ◌∙◌, inl, inr, Bool, true, false, Option, none, some,
  List, [], ◌∷◌, ◌++◌, arith, if◌then◌else◌, Text, codes, ◌==◌, ==_iff, ==_self, ℤ, decimal_int,
  append_cancel, int_text_injective,
}
use seckill_pkg.Encrypt.Hex.{hex_encode}
use seckill_pkg.Cache.{Got, value, nil, failed, Client, set, get, del, Documented}
use seckill_pkg.Token.{Claims, Jwt, Parsed, parsed, refused, jwt_sign, jwt_parse, jwt_parse_unsafe}
use seckill_pkg.Login.{
  LoginError, refresh_token_expired, login_failed, Answer, answer, fails, LoginConfig,
  RefreshResponse, Libraries, redis_refresh_token_key_prefix, redis_black_list_key_prefix,
}

module _ {S : Type 0} (client : Client S) (lib : Libraries) (cfg : LoginConfig) where
  -- After JwtSign.
  abbrev pub signed : Option Text → Answer Text
  signed none = fails login_failed
  signed (some token) = answer token

  unfoldable pub generate_token : ℕ → ℤ → Text → Answer Text
  generate_token now user_id user_name =
      signed (jwt_sign (lib.jwt) (cfg.secret) now user_id user_name (cfg.expire_duration))

  unfoldable pub black_list_key : ℤ → Text → Text
  black_list_key user_id user_name =
      redis_black_list_key_prefix
      ++ (codes "_" ++ (decimal_int user_id ++ (codes "_" ++ user_name)))

  abbrev pub checked : Got → Answer Bool
  checked nil = answer false
  checked failed = fails login_failed
  checked (value a) = answer (a == codes "1")

  -- After JwtParseUnsafe.
  abbrev pub check_claim : S → Option Claims → Answer Bool
  check_claim s none = fails login_failed
  check_claim s (some claim) =
      checked (get client s (black_list_key (claim.user_id) (claim.user_name)))

  unfoldable pub check_black_list : S → Text → Answer Bool
  check_black_list s access_token = check_claim s (jwt_parse_unsafe (lib.jwt) access_token)

  -- The second component says whether there was no error.
  unfoldable pub token_cancel_by_id : S → ℤ → Text → S × Bool
  token_cancel_by_id s user_id user_name =
      set client s (black_list_key user_id user_name) (codes "1") (cfg.expire_duration)

  -- After JwtParse: a token that does not parse is left alone, without an error.
  abbrev pub cancel_parsed : S → Parsed → S × Bool
  cancel_parsed s (refused e) = (s, true)
  cancel_parsed s (parsed claim) =
      set client s (black_list_key (claim.user_id) (claim.user_name)) (codes "1")
        (cfg.expire_duration)

  unfoldable pub token_cancel : S → Text → S × Bool
  token_cancel s access_token = cancel_parsed s (jwt_parse (lib.jwt) (cfg.secret) access_token)

  -- After JwtParseUnsafe.
  abbrev pub refresh_claim : ℕ → Option Claims → Answer Text
  refresh_claim now none = fails login_failed
  refresh_claim now (some claim) = generate_token now (claim.user_id) (claim.user_name)

  unfoldable pub refresh_token : ℕ → Text → Answer Text
  refresh_token now access_token = refresh_claim now (jwt_parse_unsafe (lib.jwt) access_token)
