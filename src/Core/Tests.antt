-- ===== src/Core/Tests.antt =====
-- Requests behind the guards at concrete inputs.
use seckill_pkg.Base.{
  ℕ, zero, ℤ, pos, In, List, arith, Text, ◌≡◌, ◌⊎◌, refl, true, false, Option, none, some, [], ◌∷◌,
  ◌++◌, codes,
}
use seckill_pkg.Token.{
  Claims, Jwt, validation, jwt_parse, refused, expired_or_not_active,
  jwt_parse_from_authorization_header, strip_bearer_prefix,
}
use seckill_pkg.Token.Plain.{plain_jwt, ann_token}
use seckill_pkg.Response.{
  ApiError, new_response, with_err, new_error_auto_msg, token_expired, too_many_requests,
}
use seckill_pkg.Core.{
  Request, api_error, set_user, payload, code_or_500, error_response, abort_with_error, chain,
  denied, user, jwt_auth, wrap_auth_handler, request_limit,
}
use seckill_pkg.Core.Header.{Store, HttpHeader, header, read_all, write, header_is_copy}
use seckill_pkg.Core.Svc.{
  Value, int64, string, StdContext, elsewhere, Cast, CastDocumented, user_id, user_name,
  svc_context, uri, query_unescape, svc_user_of_auth,
}
use seckill_pkg.Core.Guards.{
  Passes, IsDenied, auth_guards, expired_has_no_message, payload_once, abort_after_payload,
  limit_guards,
}

abbrev fresh : Request ℕ
fresh = record {
  logger = true;
  response = none;
  user_id = none;
  user_name = none;
  disable_log = none;
  aborted = false;
  written = [];
  errors_logged = 0;
}

-- A handler that answers with a number.
abbrev answers : Request ℕ → Option (Request ℕ)
answers c = some (payload c (some 3))

auth_guards_example :
    let guard = wrap_auth_handler (λ _. jwt_auth plain_jwt (codes "secret") ann_token) in
    ((k : Claims) × Passes plain_jwt (codes "secret") ann_token k
      × (chain (guard ∷ answers ∷ []) fresh
          ≡ chain (answers ∷ []) (set_user fresh (k.user_id) (k.user_name))))
    ⊎ ((d : Request ℕ) × (chain (guard ∷ answers ∷ []) fresh ≡ some d) × IsDenied fresh d)
auth_guards_example =
    auth_guards plain_jwt (codes "secret") ann_token (answers ∷ []) fresh refl refl

-- A library for which every token is expired.
abbrev late_jwt : Jwt
late_jwt = record plain_jwt {
  parse_with_claims = λ secret t. (
    some (record { claims = none; valid = false }),
    validation (record { malformed = false; expired = true; not_valid_yet = false }),
  );
}

late :
    jwt_parse_from_authorization_header late_jwt (codes "secret") (codes "x")
    ≡ refused expired_or_not_active
unfolding jwt_parse_from_authorization_header jwt_parse strip_bearer_prefix
late = refl

expired_has_no_message_example :
    (e : ApiError) × (jwt_auth late_jwt (codes "secret") (codes "x") ≡ denied e)
    × (e.business_code ≡ token_expired)
    × (e.message ≡ [])
expired_has_no_message_example =
    expired_has_no_message late_jwt (codes "secret") (codes "x") refl late

payload_once_example : payload (payload fresh (some 3)) (some 4) ≡ payload fresh (some 3)
payload_once_example = payload_once fresh (some 3) (some 4)

abort_after_payload_example :
    let e = new_error_auto_msg 500 too_many_requests in
    (r : Request ℕ) × (abort_with_error (payload fresh (some 3)) (api_error e) ≡ some r)
    × (r.written ≡ (200, new_response (some 3 ∷ [])) ∷ (code_or_500 e, error_response e) ∷ [])
abort_after_payload_example =
    abort_after_payload fresh (some 3) (new_error_auto_msg 500 too_many_requests) refl refl refl

limit_guards_example :
    (chain (request_limit (some 0) ∷ answers ∷ []) fresh ≡ chain (answers ∷ []) fresh)
    ⊎ ((some zero ≡ some 0)
        × ((r : Request ℕ) × (chain (request_limit (some 0) ∷ answers ∷ []) fresh ≡ some r)
            × (r.written
                ≡ fresh.written
                  ++ (403, error_response (with_err (new_error_auto_msg 403 too_many_requests)))
                    ∷ [])))
limit_guards_example = limit_guards (some 0) (answers ∷ []) fresh refl refl

-- A store with one slice, under the address 0, and a header with it.
abbrev one_slice : Store
one_slice = record { next = 1; slice = λ a. codes "gzip" ∷ [] }

abbrev accepts : HttpHeader
accepts = (codes "Accept-Encoding", 0) ∷ []

header_is_copy_example :
    let clone = header one_slice accepts in
    (read_all (clone.0) (clone.1) ≡ read_all one_slice accepts)
    × (read_all (clone.0) accepts ≡ read_all one_slice accepts)
    × ((k : Text) (at : ℕ) (vs : List Text)
        → In (k, at) (clone.1)
        → read_all (write (clone.0) at vs) accepts ≡ read_all one_slice accepts)
header_is_copy_example = header_is_copy one_slice accepts (omega arith, tt)

-- A path that the server has unescaped before is unescaped once more, and one with a percent sign that
-- is left is lost.
twice_unescaped : uri (codes "/a%2Fb+c") ≡ codes "/a/b c"
unfolding uri query_unescape
twice_unescaped = refl

percent_lost : uri (codes "/100%") ≡ []
unfolding uri query_unescape
percent_lost = refl

-- A cast that gives zero values for what is of another type.
abbrev as_int64 : Option Value → ℤ
as_int64 none = pos 0
as_int64 (some (int64 i)) = i
as_int64 (some (string t)) = pos 0

abbrev as_string : Option Value → Text
as_string none = []
as_string (some (int64 i)) = []
as_string (some (string t)) = t

abbrev plain_cast : Cast
plain_cast = record { to_int64 = as_int64; to_string = as_string }

plain-CastDocumented : CastDocumented plain_cast
plain-CastDocumented = record { to_int64_same = λ i. refl; to_string_same = λ t. refl }

abbrev no_values : StdContext
no_values = elsewhere (λ key. none)

svc_user_of_auth_example :
    (d : Request ℕ) × (wrap_auth_handler (λ _. user (pos 7) (codes "ann")) fresh ≡ some d)
    × (user_id plain_cast (svc_context no_values d) ≡ pos 7)
    × (user_name plain_cast (svc_context no_values d) ≡ codes "ann")
svc_user_of_auth_example =
    svc_user_of_auth plain_cast (λ _. user (pos 7) (codes "ann")) no_values fresh (pos 7)
      (codes "ann") plain-CastDocumented refl
