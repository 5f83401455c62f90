-- ===== src/Core/Guards.antt =====
-- core: what reaches a handler behind the guards, and what a request answers.
use seckill_pkg.Base.{
  ℕ, zero, suc, not, ◌≡◌, ◌⊎◌, inl, inr, refl, ap, sym, subst, ◌∙◌, Bool, true, false, ◌&&◌, Option,
  none, some, List, [], ◌∷◌, ◌++◌, arith, if◌then◌else◌, is_some, eqb, ltb, is_empty, Text, pos,
  lt_int, Bool-cases,
}
use seckill_pkg.Token.{
  Claims, Jwt, Parsed, parsed, refused, expired_or_not_active, cannot_parse,
  jwt_parse_from_authorization_header,
}
use seckill_pkg.Response.{
  ApiError, new_response, text, new_error, new_error_auto_msg, with_err, too_many_requests,
  authorization_error, token_expired,
}
use seckill_pkg.Core.{
  Request, api_error, set_user, payload, code_or_500, error_response, aborted_with,
  abort_with_error, next, chain, Auth, user, denied, unauthorized, denied_because, auth_of,
  jwt_auth, authorized, wrap_auth_handler, request_limit,
}

-- The claims that let a request pass: the header is there, its token is valid, and its user is above 0.
abbrev pub Passes : Jwt → Text → Text → Claims → Type 0
Passes jwt secret auth c =
    (is_empty auth ≡ false)
    × (jwt_parse_from_authorization_header jwt secret auth ≡ parsed c)
    × (lt_int (pos 0) (c.user_id) ≡ true)

module _ {D : Type 0} where
  -- The request was answered with one more document, its response, of code 401 and one of the two
  -- business codes, no handler changed the user, and the chain ended.
  abbrev pub IsDenied : Request D → Request D → Type 0
  IsDenied before after =
      (after.aborted ≡ true)
      × (after.user_id ≡ before.user_id)
      × ((e : ApiError) × (after.written ≡ before.written ++ (401, error_response e) ∷ [])
          × (after.response ≡ some (error_response e))
          × ((e.business_code ≡ authorization_error) ⊎ (e.business_code ≡ token_expired)))

and_false : (b : Bool) → (b && false) ≡ false
and_false true = refl
and_false false = refl

-- With a logger every error is reported.
pub reports :
    {D : Type 0} (c : Request D) (e : ApiError)
    → c.logger ≡ true
    → abort_with_error c (api_error e) ≡ some (aborted_with c e)
unfolding abort_with_error
reports c e log =
    ap (λ b. if e.cause && not b then none else some (aborted_with c e)) log
    ∙ ap (λ b. if b then none else some (aborted_with c e)) (and_false (e.cause))

-- A refusal is of code 401 and one of two business codes.
abbrev IsRefusal : ApiError → Type 0
IsRefusal e =
    (e.http_code ≡ 401)
    × ((e.business_code ≡ authorization_error) ⊎ (e.business_code ≡ token_expired))

AuthCases : Jwt → Text → Text → Auth → Type 0
AuthCases jwt secret auth a =
    ((k : Claims) × Passes jwt secret auth k × (a ≡ user (k.user_id) (k.user_name)))
    ⊎ ((e : ApiError) × (a ≡ denied e) × IsRefusal e)

refusal : IsRefusal denied_because
unfolding with_err new_error_auto_msg new_error
refusal = (refl, inl refl)

expired-IsRefusal : IsRefusal (new_error_auto_msg unauthorized token_expired)
unfolding new_error_auto_msg new_error
expired-IsRefusal = (refl, inr refl)

denied_case : (jwt : Jwt) (secret auth : Text) → AuthCases jwt secret auth (denied denied_because)
unfolding AuthCases
denied_case jwt secret auth = inr (denied_because, refl, refusal)

parsed_cases :
    (jwt : Jwt) (secret auth : Text) (p : Parsed)
    → is_empty auth ≡ false
    → jwt_parse_from_authorization_header jwt secret auth ≡ p
    → AuthCases jwt secret auth (auth_of p)
unfolding AuthCases
parsed_cases jwt secret auth (refused expired_or_not_active) there e =
    inr (new_error_auto_msg unauthorized token_expired, refl, expired-IsRefusal)
parsed_cases jwt secret auth (refused cannot_parse) there e = inr (denied_because, refl, refusal)
parsed_cases jwt secret auth (parsed k) there e = elim (Bool-cases (lt_int (pos 0) (k.user_id))) [
  | inl above ↦ inl (
    k,
    (there, e, above),
    ap (λ b. if b then user (k.user_id) (k.user_name) else denied denied_because) above,
  )
  | inr below ↦ inr (
    denied_because,
    ap (λ b. if b then user (k.user_id) (k.user_name) else denied denied_because) below,
    refusal,
  )
]

auth_cases : (jwt : Jwt) (secret auth : Text) → AuthCases jwt secret auth (jwt_auth jwt secret auth)
unfolding jwt_auth
auth_cases jwt secret auth =
    let p : Parsed = jwt_parse_from_authorization_header jwt secret auth in
    elim (Bool-cases (is_empty auth)) [
      | inl missing ↦
          subst (λ b. AuthCases jwt secret auth (if b then denied denied_because else auth_of p))
            (sym missing) (denied_case jwt secret auth)
      | inr there ↦
          subst (λ b. AuthCases jwt secret auth (if b then denied denied_because else auth_of p))
            (sym there) (parsed_cases jwt secret auth p there refl)
    ]

-- Behind WrapAuthHandler with Jwt, on a request with a logger that is not aborted, either the
-- header's token is valid with a user above 0 and the other handlers go on with exactly this
-- user and name, or none of them runs and the request is denied with code 401.
pub auth_guards :
    {D : Type 0} (jwt : Jwt) (secret auth : Text) (handlers : List (Request D → Option (Request D)))
    (c : Request D)
    → c.logger ≡ true
    → c.aborted ≡ false
    → ((k : Claims) × Passes jwt secret auth k
        × (chain (wrap_auth_handler (λ _. jwt_auth jwt secret auth) ∷ handlers) c
            ≡ chain handlers (set_user c (k.user_id) (k.user_name))))
      ⊎ ((d : Request D) × (chain (wrap_auth_handler (λ _. jwt_auth jwt secret auth) ∷ handlers) c
            ≡ some d)
          × IsDenied c d)
unfolding chain wrap_auth_handler AuthCases set_user
auth_guards jwt secret auth handlers c log running = elim (auth_cases jwt secret auth) [
  | inl (k, passes, e) ↦ inl (
    k,
    passes,
    ap (λ a. next (chain handlers) (authorized c a)) e
        ∙ ap
            (λ b.
              if b
              then some (set_user c (k.user_id) (k.user_name))
              else chain handlers (set_user c (k.user_id) (k.user_name)))
            running,
  )
  | inr (r, e, (code, business)) ↦ inr (
    aborted_with c r,
    ap (λ a. next (chain handlers) (authorized c a)) e
        ∙ ap (next (chain handlers)) (reports c r log),
    (
      refl,
      refl,
      (
        r,
        ap (λ n. c.written ++ (if eqb n 0 then 500 else n, error_response r) ∷ []) code,
        refl,
        business,
      ),
    ),
  )
]

-- A request whose token is expired is denied with an empty message: the table of messages has no entry
-- for the code of an expired token, as it has for every other code.
pub expired_has_no_message :
    (jwt : Jwt) (secret auth : Text)
    → is_empty auth ≡ false
    → jwt_parse_from_authorization_header jwt secret auth ≡ refused expired_or_not_active
    → (e : ApiError) × (jwt_auth jwt secret auth ≡ denied e)
      × (e.business_code ≡ token_expired)
      × (e.message ≡ [])
unfolding jwt_auth new_error_auto_msg new_error text
expired_has_no_message jwt secret auth there late =
    let p : Parsed = jwt_parse_from_authorization_header jwt secret auth in
    (
      new_error_auto_msg unauthorized token_expired,
      ap (λ b. if b then denied denied_because else auth_of p) there ∙ ap auth_of late,
      refl,
      refl,
    )

-- Of two payloads only the first is written, and it alone stays the response.
pub payload_once :
    {D : Type 0} (c : Request D) (first second : Option D)
    → payload (payload c first) second ≡ payload c first
unfolding payload
payload_once c first second = elim (Bool-cases (is_some (c.response))) [
  | inl e ↦ rw e (rw e refl)
  | inr e ↦ rw e refl
]

-- An error after a payload is written too, on a request with a logger that has answered nothing
-- yet: the body has two documents, the first with code 200.
pub abort_after_payload :
    {D : Type 0} (c : Request D) (d : Option D) (e : ApiError)
    → c.logger ≡ true
    → c.response ≡ none
    → c.written ≡ []
    → (r : Request D) × (abort_with_error (payload c d) (api_error e) ≡ some r)
      × (r.written ≡ (200, new_response (d ∷ [])) ∷ (code_or_500 e, error_response e) ∷ [])
unfolding payload abort_with_error
abort_after_payload c d e log fresh empty =
    let p = record c {
      response = some (new_response (d ∷ []));
      written = c.written ++ (200, new_response (d ∷ [])) ∷ [];
    } in
    let first : payload c d ≡ p = ap (λ o. if is_some o then c else p) fresh in
    (
      aborted_with p e,
      ap (λ x. abort_with_error x (api_error e)) first ∙ reports p e log,
      ap (λ w. (w ++ (200, new_response (d ∷ [])) ∷ []) ++ (code_or_500 e, error_response e) ∷ [])
          empty,
    )

limit_code :
    {D : Type 0} (c : Request D)
    → let e = with_err (new_error_auto_msg 403 too_many_requests) in
      (aborted_with c e).written ≡ c.written ++ (403, error_response e) ∷ []
unfolding with_err new_error_auto_msg new_error
limit_code c = refl

-- With a bucket that is empty, and a logger, no handler behind RequestLimit runs and the request is
-- answered with code 403; with a token left in it, or without a bucket, the handlers run on the request
-- as it is.
pub limit_guards :
    {D : Type 0} (bucket : Option ℕ) (handlers : List (Request D → Option (Request D)))
    (c : Request D)
    → c.logger ≡ true
    → c.aborted ≡ false
    → (chain (request_limit bucket ∷ handlers) c ≡ chain handlers c)
      ⊎ ((bucket ≡ some 0)
          × ((r : Request D) × (chain (request_limit bucket ∷ handlers) c ≡ some r)
              × (r.written
                  ≡ c.written
                    ++ (403, error_response (with_err (new_error_auto_msg 403 too_many_requests)))
                      ∷ [])))
unfolding chain request_limit
limit_guards none handlers c log running =
    inl (ap (λ b. if b then some c else chain handlers c) running)
limit_guards (some zero) handlers c log running =
    let e = with_err (new_error_auto_msg 403 too_many_requests) in
    inr (refl, (aborted_with c e, ap (next (chain handlers)) (reports c e log), limit_code c))
limit_guards (some (suc n)) handlers c log running =
    let left : ltb (suc n) 1 ≡ false = ground arith in
    inl (
      ap
        (λ b. next (chain handlers) (
          if b
          then abort_with_error c (api_error (with_err (new_error_auto_msg 403 too_many_requests)))
          else some c))
        left
      ∙ ap (λ b. if b then some c else chain handlers c) running)
