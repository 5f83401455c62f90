-- ===== src/Token.antt =====
-- pkg/token: JwtSign, JwtParseUnsafe, JwtParse and the authorization header (token_jwt.go), UrlSign
-- (token_url.go). The library golang-jwt is a parameter.
pub mod Laws
pub mod Plain
mod Tests
use seckill_pkg.Base.{
  ℕ, ◌+◌, ◌-◌, ◌/◌, ◌≡◌, Bool, true, false, ◌&&◌, ◌||◌, Option, none, some, List, [], ◌∷◌, ◌++◌,
  map, leb, ltb, if◌then◌else◌, length, take, drop, Text, codes, ◌==◌, mem, ℤ, decimal_int,
}

-- The times are seconds.
pub record Claims : Type 0 where
  pub user_id : ℤ
  pub user_name : Text
  pub not_before : ℕ
  pub issued_at : ℕ
  pub expires_at : ℕ

-- Whether the bits of jwt.ValidationError are set that the code reads.
pub record ValidationError : Type 0 where
  pub malformed : Bool
  pub expired : Bool
  pub not_valid_yet : Bool

pub data JwtError : Type 0 where
  no_error : JwtError
  validation : ValidationError → JwtError
  other_error : JwtError

-- A jwt.Token; `claims` is `none` when its claims have another type.
pub record JwtToken : Type 0 where
  pub claims : Option Claims
  pub valid : Bool

-- golang-jwt at one moment. `sign` is NewWithClaims and SignedString; `none` is its error.
pub record Jwt : Type 0 where
  pub sign : Text → Claims → Option Text
  pub parse_unverified : Text → Option JwtToken × JwtError
  pub parse_with_claims : Text → Text → Option JwtToken × JwtError

pub data TokenError : Type 0 where
  cannot_parse : TokenError
  expired_or_not_active : TokenError

pub data Parsed : Type 0 where
  parsed : Claims → Parsed
  refused : TokenError → Parsed

-- Nanoseconds in a second.
abbrev second : ℕ
second = 1000000000

-- `now` and `expire_duration` are nanoseconds.
unfoldable pub jwt_sign : Jwt → Text → ℕ → ℤ → Text → ℕ → Option Text
jwt_sign jwt secret now user_id user_name expire_duration = jwt.sign secret (record {
  user_id = user_id;
  user_name = user_name;
  not_before = now / second;
  issued_at = now / second;
  expires_at = (now + expire_duration) / second;
})

abbrev claims_of : Option JwtToken → Option Claims
claims_of none = none
claims_of (some t) = t.claims

-- Without claims it gives the error of the library.
unfoldable pub jwt_parse_unsafe : Jwt → Text → Option Claims
jwt_parse_unsafe jwt token_string = claims_of ((jwt.parse_unverified token_string).0)

abbrev pub error_of : JwtError → TokenError
error_of no_error = cannot_parse
error_of other_error = cannot_parse
error_of (validation ve) =
    if ve.malformed
    then cannot_parse
    else if ve.expired || ve.not_valid_yet
    then expired_or_not_active
    else cannot_parse

abbrev pub parsed_claims : Option Claims → Bool → JwtError → Parsed
parsed_claims (some c) true e = parsed c
parsed_claims (some c) false e = refused (error_of e)
parsed_claims none v e = refused (error_of e)

abbrev pub parsed_of : Option JwtToken → JwtError → Parsed
parsed_of none e = refused cannot_parse
parsed_of (some t) e = parsed_claims (t.claims) (t.valid) e

unfoldable pub jwt_parse : Jwt → Text → Text → Parsed
jwt_parse jwt secret token_string =
    let r = jwt.parse_with_claims secret token_string in parsed_of (r.0) (r.1)

-- strings.ToUpper and ToLower on ASCII characters.
abbrev pub upper : ℕ → ℕ
upper c = if leb b'a' c && leb c b'z' then c - 32 else c

abbrev pub lower : ℕ → ℕ
lower c = if leb b'A' c && leb c b'Z' then c + 32 else c

abbrev pub to_upper : Text → Text
to_upper s = map upper s

abbrev pub to_lower : Text → Text
to_lower s = map lower s

unfoldable pub strip_bearer_prefix : Text → Text
strip_bearer_prefix tok =
    if ltb 6 (length tok) && to_upper (take 7 tok) == codes "BEARER " then drop 7 tok else tok

unfoldable pub jwt_parse_from_authorization_header : Jwt → Text → Text → Parsed
jwt_parse_from_authorization_header jwt secret token_string =
    jwt_parse jwt secret (strip_bearer_prefix token_string)

abbrev pub methods : List Text
methods =
    codes "get"
    ∷ codes "post"
    ∷ codes "put"
    ∷ codes "path"
    ∷ codes "delete"
    ∷ codes "head"
    ∷ codes "options"
    ∷ []

-- `params` is what url.Values.Encode gives, `digest` the hex text of the MD5 sum; `none` is an error.
unfoldable pub url_sign : (Text → Text) → Text → ℤ → Text → Text → Text → Option Text
url_sign digest secret timestamp path method params =
    let method_name = to_lower method in
    if mem method_name methods
    then some (digest (path ++ (method_name ++ (params ++ (decimal_int timestamp ++ secret)))))
    else none
