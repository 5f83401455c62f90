-- ===== src/Response.antt =====
-- pkg/response: the error of a request (errno.go), the JSON that is answered (response.go), and the
-- table of messages (zhText.go).
use seckill_pkg.Base.{
  ℕ, Bool, true, false, Option, none, some, List, [], ◌∷◌, if◌then◌else◌, eqb, Text, codes,
}

-- `cause` says whether `Err` is set.
pub record ApiError : Type 0 where
  pub http_code : ℕ
  pub business_code : ℕ
  pub message : Text
  pub cause : Bool

-- The empty map, or what the handler gave.
pub data Body (D : Type 0) : Type 0 where
  empty_map : Body D
  given : D → Body D

pub record JsonResponse (D : Type 0) : Type 0 where
  pub code : ℕ
  pub message : Text
  pub body : Body D

-- `nil` payloads are `none`.
unfoldable pub new_response : {D : Type 0} → List (Option D) → JsonResponse D
new_response (some d ∷ more) = record { code = 0; message = []; body = given d }
new_response (none ∷ more) = record { code = 0; message = []; body = empty_map }
new_response [] = record { code = 0; message = []; body = empty_map }

abbrev pub server_error : ℕ
server_error = 10001

abbrev pub too_many_requests : ℕ
too_many_requests = 10002

abbrev pub authorization_error : ℕ
authorization_error = 10003

abbrev pub param_bind_error : ℕ
param_bind_error = 10004

abbrev pub token_expired : ℕ
token_expired = 10005

-- The table of messages; a code without an entry has the empty text.
unfoldable pub text : ℕ → Text
text code =
    if eqb code server_error
    then codes "服务器错误"
    else if eqb code too_many_requests
    then codes "请求发送过多"
    else if eqb code authorization_error
    then codes "鉴权失败"
    else if eqb code param_bind_error
    then codes "请检查参数是否在正确"
    else []

unfoldable pub new_error : ℕ → ℕ → Text → ApiError
new_error http_code business_code msg = record {
  http_code = http_code;
  business_code = business_code;
  message = msg;
  cause = false;
}

unfoldable pub new_error_with_status_ok : ℕ → Text → ApiError
new_error_with_status_ok business_code msg = new_error 200 business_code msg

unfoldable pub new_error_auto_msg : ℕ → ℕ → ApiError
new_error_auto_msg http_code business_code = new_error http_code business_code (text business_code)

unfoldable pub new_error_with_status_ok_auto_msg : ℕ → ApiError
new_error_with_status_ok_auto_msg business_code = new_error_auto_msg 200 business_code

-- With an error that is not nil.
unfoldable pub with_err : ApiError → ApiError
with_err e = record e { cause = true }
