-- ===== src/Token/Plain.antt =====
-- A library for JWT whose tokens are their claims in plain.
use seckill_pkg.Base.{
  ℕ, zero, suc, ◌≡◌, refl, subst, some_inj, true, Option, none, some, ◌∷◌, Text, codes, ℤ, pos,
  negsuc,
}
use seckill_pkg.Token.{Claims, JwtError, no_error, other_error, JwtToken, Jwt, jwt_parse_unsafe}

abbrev pub int_code : ℤ → Text → Text
int_code (pos n) s = 0 ∷ n ∷ s
int_code (negsuc n) s = 1 ∷ n ∷ s

abbrev pub plain_sign : Text → Claims → Option Text
plain_sign secret c =
    some (int_code (c.user_id) (c.not_before ∷ c.issued_at ∷ c.expires_at ∷ c.user_name))

abbrev from_code : ℕ → ℕ → ℤ
from_code zero n = pos n
from_code (suc _) n = negsuc n

abbrev pub plain_read : Text → Option JwtToken × JwtError
plain_read (sign ∷ n ∷ a ∷ b ∷ c ∷ name) = (
  some (record {
    claims = some (record {
      user_id = from_code sign n;
      user_name = name;
      not_before = a;
      issued_at = b;
      expires_at = c;
    });
    valid = true;
  }),
  no_error,
)
plain_read _ = (none, other_error)

abbrev pub plain_jwt : Jwt
plain_jwt = record {
  sign = plain_sign;
  parse_unverified = plain_read;
  parse_with_claims = λ secret t. plain_read t;
}

abbrev pub ann : Claims
ann = record {
  user_id = pos 7;
  user_name = codes "ann";
  not_before = 10;
  issued_at = 10;
  expires_at = 20;
}

abbrev pub ann_token : Text
ann_token = 0 ∷ 7 ∷ 10 ∷ 10 ∷ 20 ∷ codes "ann"

own :
    (i : ℤ) (name : Text) (a b e : ℕ)
    → jwt_parse_unsafe plain_jwt (int_code i (a ∷ b ∷ e ∷ name))
      ≡ some
          (record { user_id = i; user_name = name; not_before = a; issued_at = b; expires_at = e })
unfolding jwt_parse_unsafe
own (pos n) name a b e = refl
own (negsuc n) name a b e = refl

pub plain_reads :
    (secret : Text) (c : Claims) (t : Text)
    → plain_sign secret c ≡ some t
    → jwt_parse_unsafe plain_jwt t ≡ some c
plain_reads secret c t h =
    subst (λ x. jwt_parse_unsafe plain_jwt x ≡ some c) (some_inj h)
      (own (c.user_id) (c.user_name) (c.not_before) (c.issued_at) (c.expires_at))
