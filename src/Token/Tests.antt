-- ===== src/Token/Tests.antt =====
-- The token package at concrete inputs, with a library whose tokens are their claims in plain: the
-- numbers stand where the characters do.

use seckill_pkg.Base.{◌≡◌, ◌↔◌, refl, true, none, ◌++◌, codes, pos}
use seckill_pkg.Token.{
  parsed, refused, expired_or_not_active, jwt_parse, jwt_parse_from_authorization_header, url_sign,
}
use seckill_pkg.Token.Laws.{
  IsValid, late_token, jwt_parse_lem, strip_bearer, url_sign_refuses_patch, url_sign_moves_digit,
}
use seckill_pkg.Token.Plain.{plain_jwt, ann, ann_token}

jwt_parse_lem_example :
    let r = plain_jwt.parse_with_claims (codes "secret") ann_token in
    ((jwt_parse plain_jwt (codes "secret") ann_token ≡ parsed ann) ↔ IsValid (r.0) ann)
    × ((jwt_parse plain_jwt (codes "secret") ann_token ≡ refused expired_or_not_active)
        ↔ (late_token (r.0) (r.1) ≡ true))
jwt_parse_lem_example = jwt_parse_lem plain_jwt (codes "secret") ann_token ann

strip_bearer_example :
    jwt_parse_from_authorization_header plain_jwt (codes "secret") (codes "bEArer " ++ ann_token)
    ≡ jwt_parse plain_jwt (codes "secret") ann_token
strip_bearer_example = strip_bearer plain_jwt (codes "secret") (codes "bEArer ") ann_token refl

url_sign_refuses_patch_example :
    url_sign (λ s. s) (codes "secret") (pos 1) (codes "/echo") (codes "PATCH") (codes "a=a1") ≡ none
url_sign_refuses_patch_example =
    url_sign_refuses_patch (λ s. s) (codes "secret") (pos 1) (codes "/echo") (codes "PATCH")
      (codes "a=a1") refl

url_sign_moves_digit_example :
    url_sign
      (λ s. s)
      (codes "secret")
      (pos 2)
      (codes "/echo")
      (codes "post")
      (codes "a=" ++ codes "1")
    ≡ url_sign (λ s. s) (codes "secret") (pos 12) (codes "/echo") (codes "post") (codes "a=")
url_sign_moves_digit_example =
    url_sign_moves_digit (λ s. s) (codes "secret") (codes "/echo") (codes "post") (codes "a=")
