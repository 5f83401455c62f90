-- ===== src/Token/Laws.antt =====
-- token_jwt.go and token_url.go: which tokens JwtParse takes and how it names the others, the header's
-- prefix, and what the signature of a URL tells apart.
use seckill_pkg.Base.{
  suc, ◌≡◌, ◌↔◌, refl, ap, sym, ◌∙◌, Bool, true, false, not, ◌&&◌, ◌||◌, Option, none, some, [],
  ◌∷◌, ◌++◌, arith, append_assoc, ltb, if◌then◌else◌, length, length-append, take, drop,
  take_append, drop_append, Text, codes, ◌==◌, ==_self, mem, ℤ, pos, decimal_int, is_some, decimal,
  digits,
}
use seckill_pkg.Token.{
  Claims, JwtError, no_error, validation, other_error, JwtToken, Jwt, expired_or_not_active, parsed,
  refused, error_of, parsed_claims, parsed_of, jwt_parse, to_upper, to_lower, strip_bearer_prefix,
  jwt_parse_from_authorization_header, methods, url_sign,
}

-- The library gives a token whose claims have our type, and finds it valid.
abbrev pub IsValid : Option JwtToken → Claims → Type 0
IsValid t c = t ≡ some (record { claims = some c; valid = true })

-- Whether the error says of a token that it is not malformed, but expired or not active yet.
abbrev pub is_late : JwtError → Bool
is_late no_error = false
is_late other_error = false
is_late (validation ve) = not (ve.malformed) && (ve.expired || ve.not_valid_yet)

-- Whether there is a token that is late and is not one to take.
abbrev pub late_token : Option JwtToken → JwtError → Bool
late_token none e = false
late_token (some t) e = not (is_some (t.claims) && t.valid) && is_late e

claims_iff :
    (o : Option Claims) (v : Bool) (e : JwtError) (c : Claims)
    → (parsed_claims o v e ≡ parsed c) ↔ IsValid (some (record { claims = o; valid = v })) c
claims_iff none v e c = (λ h. absurd (ground (arith, h)), λ h. absurd (ground (arith, h)))
claims_iff (some d) true e c = (λ h. cc, λ h. cc)
claims_iff (some d) false e c = (λ h. absurd (ground (arith, h)), λ h. absurd (ground (arith, h)))

late_iff : (e : JwtError) → (error_of e ≡ expired_or_not_active) ↔ (is_late e ≡ true)
late_iff no_error = ground arith
late_iff other_error = ground arith
late_iff (validation ve) = ground arith

refused_iff :
    (o : Option Claims) (v : Bool) (e : JwtError)
    → (parsed_claims o v e ≡ refused expired_or_not_active)
      ↔ ((not (is_some o && v) && is_late e) ≡ true)
refused_iff none v e = ground (arith, late_iff e)
refused_iff (some d) true e = ground arith
refused_iff (some d) false e = ground (arith, late_iff e)

parsed_of_iff :
    (t : Option JwtToken) (e : JwtError) (c : Claims) → (parsed_of t e ≡ parsed c) ↔ IsValid t c
parsed_of_iff none e c = ground arith
parsed_of_iff (some t) e c = claims_iff (t.claims) (t.valid) e c

refused_of_iff :
    (t : Option JwtToken) (e : JwtError)
    → (parsed_of t e ≡ refused expired_or_not_active) ↔ (late_token t e ≡ true)
refused_of_iff none e = ground arith
refused_of_iff (some t) e = refused_iff (t.claims) (t.valid) e

-- JwtParse gives claims exactly when the library gives a valid token with them, and says that a
-- token is expired or not active exactly when the library's error has one of these two marks
-- and not that of a malformed token, on a token that is not to be taken.
pub jwt_parse_lem :
    (jwt : Jwt) (secret token_string : Text) (c : Claims)
    → let r = jwt.parse_with_claims secret token_string in
      ((jwt_parse jwt secret token_string ≡ parsed c) ↔ IsValid (r.0) c)
      × ((jwt_parse jwt secret token_string ≡ refused expired_or_not_active)
          ↔ (late_token (r.0) (r.1) ≡ true))
unfolding jwt_parse
jwt_parse_lem jwt secret token_string c =
    let r = jwt.parse_with_claims secret token_string in
    (parsed_of_iff (r.0) (r.1) c, refused_of_iff (r.0) (r.1))

length-map : (s : Text) → length (to_upper s) ≡ length s
length-map [] = refl
length-map (c ∷ s) = ap suc (length-map s)

-- A header that starts with `Bearer ` in any mix of cases is read without it, as the token alone.
pub strip_bearer :
    (jwt : Jwt) (secret bearer tok : Text)
    → to_upper bearer ≡ codes "BEARER "
    → jwt_parse_from_authorization_header jwt secret (bearer ++ tok) ≡ jwt_parse jwt secret tok
unfolding jwt_parse_from_authorization_header strip_bearer_prefix
strip_bearer jwt secret bearer tok h =
    let size : length bearer ≡ 7 = sym (length-map bearer) ∙ ap length h in
    let front : take 7 (bearer ++ tok) ≡ bearer =
      ap (λ k. take k (bearer ++ tok)) (sym size) ∙ take_append bearer tok in
    let back : drop 7 (bearer ++ tok) ≡ tok =
      ap (λ k. drop k (bearer ++ tok)) (sym size) ∙ drop_append bearer tok in
    let long : ltb 6 (length (bearer ++ tok)) ≡ true = ground (arith, length-append bearer tok) in
    rw (front, back, long, h, ==_self (codes "BEARER ")) refl

-- No spelling of the method PATCH can be signed by UrlSign.
pub url_sign_refuses_patch :
    (digest : Text → Text) (secret : Text) (timestamp : ℤ) (path method params : Text)
    → to_lower method ≡ codes "patch"
    → url_sign digest secret timestamp path method params ≡ none
unfolding url_sign ◌==◌
url_sign_refuses_patch digest secret timestamp path method params h = rw h refl

-- The parts of what is hashed are joined without a separator: the digit 1 moved from the end of
-- the parameters to the front of the timestamp 2 leaves the result of UrlSign as it was, for
-- every path, method, secret and parameters.
pub url_sign_moves_digit :
    (digest : Text → Text) (secret path method params : Text)
    → url_sign digest secret (pos 2) path method (params ++ codes "1")
      ≡ url_sign digest secret (pos 12) path method params
unfolding url_sign decimal_int decimal digits
url_sign_moves_digit digest secret path method params =
    ap
      (λ x.
        if mem (to_lower method) methods
        then some (digest (path ++ (to_lower method ++ x)))
        else none)
      (append_assoc params (codes "1") (codes "2" ++ secret))
