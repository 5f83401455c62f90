-- ===== src/Login/BlackListSystem/Laws.antt =====
-- user_login.go: whom a cancellation of BlackListSystem refuses.
use seckill_pkg.Base.{
  ℕ, ◌≡◌, ◌≢◌, ◌⊎◌, refl, ap, sym, ◌∙◌, inl, inr, true, Option, none, some, ◌++◌, arith, Bool-cases,
  Text, codes, ◌==◌, ==_iff, ==_self, ℤ, decimal_int, append_cancel, int_text_injective,
}
use seckill_pkg.Cache.{Got, value, Client, set, get, Documented}
use seckill_pkg.Token.{Claims, parsed, jwt_sign, jwt_parse, jwt_parse_unsafe}
use seckill_pkg.Login.{answer, answer_inj, LoginConfig, Libraries, redis_black_list_key_prefix}
use seckill_pkg.Login.BlackListSystem.{
  generate_token, black_list_key, signed, checked, check_claim, check_black_list,
  token_cancel_by_id, cancel_parsed, token_cancel, refresh_claim, refresh_token,
}

abbrev pub SameUser : Claims → ℤ → Text → Type 0
SameUser c user_id user_name = (c.user_id ≡ user_id) × (c.user_name ≡ user_name)

module _ {S : Type 0} (client : Client S) (doc : Documented client) (lib : Libraries)
    (cfg : LoginConfig) where
  key_injective :
      (i j : ℤ) (m n : Text)
      → black_list_key client lib cfg i m ≡ black_list_key client lib cfg j n
      → (i ≡ j) × (m ≡ n)
  unfolding black_list_key
  key_injective i j m n e = int_text_injective i j m n (
      append_cancel (codes "_") (decimal_int i ++ (codes "_" ++ m))
        (decimal_int j ++ (codes "_" ++ n)) (append_cancel redis_black_list_key_prefix _ _ e))

  check_of :
      (s : S) (t : Text) (c : Claims) (g : Got)
      → jwt_parse_unsafe (lib.jwt) t ≡ some c
      → get client s (black_list_key client lib cfg (c.user_id) (c.user_name)) ≡ g
      → check_black_list client lib cfg s t ≡ checked client lib cfg g
  unfolding check_black_list
  check_of s t c g p e = ap (check_claim client lib cfg s) p ∙ ap (checked client lib cfg) e

  -- After a user was put into the black list, its tokens are found there.
  listed :
      (s s1 : S) (user_id : ℤ) (user_name t : Text) (c : Claims)
      → set client s
          (black_list_key client lib cfg user_id user_name)
          (codes "1")
          (cfg.expire_duration)
        ≡ (s1, true)
      → jwt_parse_unsafe (lib.jwt) t ≡ some c
      → SameUser c user_id user_name
      → check_black_list client lib cfg s1 t ≡ answer true
  listed s s1 user_id user_name t c e p (same_id, same_name) =
      check_of s1 t c (value (codes "1")) p (
        ap (λ i. get client s1 (black_list_key client lib cfg i (c.user_name))) same_id
        ∙ ap (λ n. get client s1 (black_list_key client lib cfg user_id n)) same_name
        ∙ doc.get-set s s1 (black_list_key client lib cfg user_id user_name) (codes "1")
            (cfg.expire_duration) e)
      ∙ ap answer (==_self (codes "1"))

  -- With a client that does as Redis documents, when TokenCancelById succeeds, every token
  -- whose claims name this user and name is found in the black list, and for a token of any
  -- other user or name CheckBlackList answers as it did before.
  pub check-token_cancel_by_id :
      (s s1 : S) (user_id : ℤ) (user_name t : Text) (c : Claims)
      → token_cancel_by_id client lib cfg s user_id user_name ≡ (s1, true)
      → jwt_parse_unsafe (lib.jwt) t ≡ some c
      → (SameUser c user_id user_name × (check_black_list client lib cfg s1 t ≡ answer true))
        ⊎ (¬ SameUser c user_id user_name
            × (check_black_list client lib cfg s1 t ≡ check_black_list client lib cfg s t))
  unfolding token_cancel_by_id
  check-token_cancel_by_id s s1 user_id user_name t c e p =
      let mine = black_list_key client lib cfg user_id user_name in
      let theirs = black_list_key client lib cfg (c.user_id) (c.user_name) in
      elim (Bool-cases (mine == theirs)) [
        | inl same ↦
            let (i, n) =
              key_injective user_id (c.user_id) user_name (c.user_name)
                ((==_iff mine theirs).0 same) in
            inl ((sym i, sym n), listed s s1 user_id user_name t c e p (sym i, sym n))
        | inr differ ↦
            let other : mine ≢ theirs = λ q. ground (arith, (==_iff mine theirs).1 q, differ) in
            inr (
              λ (i, n). other (
                  sym (
                    ap (λ x. black_list_key client lib cfg x (c.user_name)) i
                    ∙ ap (black_list_key client lib cfg user_id) n)),
              check_of s1 t c (get client s theirs) p
                    (doc.get-set_other s s1 mine theirs (codes "1") (cfg.expire_duration) e other)
                  ∙ sym (check_of s t c (get client s theirs) p refl),
            )
      ]

  -- When a token that JwtParse takes is cancelled with success, every token with claims of the same user
  -- and name is found in the black list, and not that token alone.
  pub check-token_cancel :
      (s s1 : S) (cancelled t : Text) (c d : Claims)
      → jwt_parse (lib.jwt) (cfg.secret) cancelled ≡ parsed c
      → token_cancel client lib cfg s cancelled ≡ (s1, true)
      → jwt_parse_unsafe (lib.jwt) t ≡ some d
      → d.user_id ≡ c.user_id
      → d.user_name ≡ c.user_name
      → check_black_list client lib cfg s1 t ≡ answer true
  unfolding token_cancel
  check-token_cancel s s1 cancelled t c d j e p i n =
      listed s s1 (c.user_id) (c.user_name) t d (sym (ap (cancel_parsed client lib cfg s) j) ∙ e) p
        (i, n)

  signed_claims :
      (now : ℕ) (user_id : ℤ) (user_name t : Text) (o : Option Text)
      → signed client lib cfg o ≡ answer t
      → o ≡ some t
  signed_claims now user_id user_name t none h = absurd (ground (arith, h))
  signed_claims now user_id user_name t (some x) h = ap some (answer_inj h)

  -- What golang-jwt documents: the claims of a token that it signed read back, without verifying it.
  abbrev pub SignedReads : Type 0
  SignedReads =
      (secret : Text) (c : Claims) (t : Text)
      → (lib.jwt).sign secret c ≡ some t
      → jwt_parse_unsafe (lib.jwt) t ≡ some c

  -- Once a user is cancelled with success, the token that RefreshToken gives for any token with
  -- claims of this user is found in the black list too, when the client does as Redis documents
  -- and the claims of a signed token read back.
  pub check-refresh_token :
      (now : ℕ) (s s1 : S) (t t2 : Text) (c : Claims)
      → SignedReads
      → jwt_parse_unsafe (lib.jwt) t ≡ some c
      → token_cancel_by_id client lib cfg s (c.user_id) (c.user_name) ≡ (s1, true)
      → refresh_token client lib cfg now t ≡ answer t2
      → check_black_list client lib cfg s1 t2 ≡ answer true
  unfolding refresh_token generate_token token_cancel_by_id jwt_sign
  check-refresh_token now s s1 t t2 c reads p e r =
      let again = sym (ap (refresh_claim client lib cfg now) p) ∙ r in
      let sealed = signed_claims now (c.user_id) (c.user_name) t2 _ again in
      listed s s1 (c.user_id) (c.user_name) t2 _ e (reads (cfg.secret) _ t2 sealed) (refl, refl)
