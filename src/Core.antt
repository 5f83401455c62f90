-- ===== src/Core.antt =====
-- core/context.go, core/core.go and core/middleware: what a handler does to the request, the chain of
-- handlers of gin, and the guards in front of it.
pub mod Engine
pub mod Guards
pub mod Header
pub mod Serve
pub mod Svc
mod Tests
use seckill_pkg.Base.{
  ℕ, suc, not, ◌&&◌, ◌≡◌, Bool, true, false, Option, none, some, List, [], ◌∷◌, ◌++◌, if◌then◌else◌,
  is_some, eqb, ltb, is_empty, Text, ℤ, pos, negsuc, lt_int, ◌>>=◌,
}
use seckill_pkg.Token.{
  Jwt, Parsed, parsed, refused, TokenError, expired_or_not_active, cannot_parse,
  jwt_parse_from_authorization_header,
}
use seckill_pkg.Response.{
  ApiError, JsonResponse, Body, new_response, new_error_auto_msg, with_err, server_error,
  too_many_requests, authorization_error, token_expired,
}

-- A gin.Context: the keys that the package sets, whether the chain was aborted, the JSON documents that
-- were written with their codes, and how many errors were logged. `logger` says whether there is one.
pub record Request (D : Type 0) : Type 0 where
  pub logger : Bool
  pub response : Option (JsonResponse D)
  pub user_id : Option ℤ
  pub user_name : Option Text
  pub disable_log : Option Bool
  pub aborted : Bool
  pub written : List (ℕ × JsonResponse D)
  pub errors_logged : ℕ

-- An `error`: nil, one of package response, or another.
pub data GoError : Type 0 where
  no_error : GoError
  api_error : ApiError → GoError
  other_error : GoError

-- The error that AbortWithError reports.
abbrev pub reported : GoError → Option ApiError
reported no_error = none
reported (api_error e) = some e
reported other_error = some (with_err (new_error_auto_msg 500 server_error))

abbrev pub code_or_500 : ApiError → ℕ
code_or_500 e = if eqb (e.http_code) 0 then 500 else e.http_code

module _ {D : Type 0} where
  unfoldable pub get_user_id : Request D → ℤ
  get_user_id c = elim (c.user_id) [ none ↦ pos 0 | some i ↦ i ]

  unfoldable pub get_user_name : Request D → Text
  get_user_name c = elim (c.user_name) [ none ↦ [] | some n ↦ n ]

  unfoldable pub get_disable_log : Request D → Bool
  get_disable_log c = elim (c.disable_log) [ none ↦ false | some b ↦ b ]

  unfoldable pub set_user : Request D → ℤ → Text → Request D
  set_user c i n = record c { user_id = some i; user_name = some n }

  -- The middleware DisableLog.
  unfoldable pub disable_logs : Request D → Request D
  disable_logs c = record c { disable_log = some true }

  -- Only the first response is written.
  unfoldable pub payload : Request D → Option D → Request D
  payload c d =
      let resp = new_response (d ∷ []) in
      if is_some (c.response)
      then c
      else record c { response = some resp; written = c.written ++ (200, resp) ∷ [] }

  abbrev pub error_response : ApiError → JsonResponse D
  error_response e = record (new_response []) { code = e.business_code; message = e.message }

  abbrev pub aborted_with : Request D → ApiError → Request D
  aborted_with c e = record c {
    response = some (error_response e);
    aborted = true;
    written = c.written ++ (code_or_500 e, error_response e) ∷ [];
    errors_logged = if e.cause then suc (c.errors_logged) else c.errors_logged;
  }

  -- `none` is the panic on a missing logger.
  abbrev pub abort_reported : Request D → Option ApiError → Option (Request D)
  abort_reported c none = some c
  abort_reported c (some e) = if e.cause && not (c.logger) then none else some (aborted_with c e)

  unfoldable pub abort_with_error : Request D → GoError → Option (Request D)
  abort_with_error c err = abort_reported c (reported err)

  -- gin runs a handler after the other while the chain is not aborted.
  abbrev pub next : (Request D → Option (Request D)) → Option (Request D) → Option (Request D)
  next rest none = none
  next rest (some c) = if c.aborted then some c else rest c

  unfoldable pub chain : List (Request D → Option (Request D)) → Request D → Option (Request D)
  chain [] c = some c
  chain (h ∷ hs) c = next (chain hs) (h c)

-- What Jwt gives: a user, or an error.
pub data Auth : Type 0 where
  user : ℤ → Text → Auth
  denied : ApiError → Auth

abbrev pub unauthorized : ℕ
unauthorized = 401

abbrev pub denied_because : ApiError
denied_because = with_err (new_error_auto_msg unauthorized authorization_error)

-- After the token was parsed.
abbrev pub auth_of : Parsed → Auth
auth_of (refused expired_or_not_active) = denied (new_error_auto_msg unauthorized token_expired)
auth_of (refused cannot_parse) = denied denied_because
auth_of (parsed claims) =
    if lt_int (pos 0) (claims.user_id)
    then user (claims.user_id) (claims.user_name)
    else denied denied_because

-- `auth` is the header Authorization, empty when it is missing.
unfoldable pub jwt_auth : Jwt → Text → Text → Auth
jwt_auth jwt secret auth =
    if is_empty auth
    then denied denied_because
    else auth_of (jwt_parse_from_authorization_header jwt secret auth)

module _ {D : Type 0} where
  abbrev pub authorized : Request D → Auth → Option (Request D)
  authorized c (user i n) = some (set_user c i n)
  authorized c (denied e) = abort_with_error c (api_error e)

  -- WrapAuthHandler
  unfoldable pub wrap_auth_handler : (Request D → Auth) → Request D → Option (Request D)
  wrap_auth_handler handler c = authorized c (handler c)

  -- `available` is what TakeAvailable(1) gives; `none` when there is no bucket.
  unfoldable pub request_limit : Option ℕ → Request D → Option (Request D)
  request_limit none c = some c
  request_limit (some available) c =
      if ltb available 1
      then abort_with_error c (api_error (with_err (new_error_auto_msg 403 too_many_requests)))
      else some c
