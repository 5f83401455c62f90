-- ===== src/Login/RefreshTokenSystem/Laws.antt =====
-- user_login.go: refreshing and cancelling what RefreshTokenSystem gave out.
use seckill_pkg.Base.{
  ℕ, ◌≡◌, refl, ap, sym, subst, ◌∙◌, Bool, true, false, Option, none, some, Text, ℤ,
}
use seckill_pkg.Cache.{value, nil, Client, set, get, del, Documented}
use seckill_pkg.Login.{
  refresh_token_expired, Answer, answer, fails, answer_inj, fails_answer, LoginConfig,
  RefreshResponse, Libraries,
}
use seckill_pkg.Login.RefreshTokenSystem.{
  generate_refresh_token, refresh_key, response_of, store_refresh, generate_token, token_cancel,
  token_cancel_by_id, refresh_got, refresh_token,
}

module _ {S : Type 0} (client : Client S) (doc : Documented client) (lib : Libraries)
    (cfg : LoginConfig) where
  -- The refresh token in a response is that of the user, under which the cache has the user.
  abbrev Stored : S → ℤ → Text → RefreshResponse → Type 0
  Stored s user_id user_name r =
      (r.refresh_token ≡ generate_refresh_token client lib cfg user_id user_name)
      × (get client s (refresh_key client lib cfg (r.refresh_token))
          ≡ value (lib.marshal user_id user_name))

  Stored-of :
      (s s1 : S) (user_id : ℤ) (user_name token refresh : Text) (r : RefreshResponse) (p : S × Bool)
      → refresh ≡ generate_refresh_token client lib cfg user_id user_name
      → set client s
          (refresh_key client lib cfg refresh)
          (lib.marshal user_id user_name)
          (cfg.refresh_duration)
        ≡ p
      → response_of client lib cfg token refresh p ≡ (s1, answer r)
      → Stored s1 user_id user_name r
  Stored-of s s1 user_id user_name token refresh r (p, true) same e h =
      let at : p ≡ s1 = ap (λ (x : S × Answer RefreshResponse). x.0) h in
      let given : record { access_token = token; refresh_token = refresh } ≡ r =
        answer_inj (ap (λ (x : S × Answer RefreshResponse). x.1) h) in
      let refresh_same : refresh ≡ r.refresh_token =
        ap (λ (x : RefreshResponse). x.refresh_token) given in
      (
        sym refresh_same ∙ same,
        subst
            (λ t.
              get client s1 (refresh_key client lib cfg t) ≡ value (lib.marshal user_id user_name))
            refresh_same
            (subst
              (λ x.
                get client x (refresh_key client lib cfg refresh)
                ≡ value (lib.marshal user_id user_name))
              at
              (doc.get-set s p (refresh_key client lib cfg refresh) (lib.marshal user_id user_name)
                (cfg.refresh_duration) e)),
      )
  Stored-of s s1 user_id user_name token refresh r (p, false) same e h =
      absurd (fails_answer (ap (λ (x : S × Answer RefreshResponse). x.1) h))

  stored :
      (s s1 : S) (user_id : ℤ) (user_name : Text) (r : RefreshResponse) (o : Option Text)
      → store_refresh client lib cfg s user_id user_name o ≡ (s1, answer r)
      → Stored s1 user_id user_name r
  stored s s1 user_id user_name r none h =
      absurd (fails_answer (ap (λ (x : S × Answer RefreshResponse). x.1) h))
  stored s s1 user_id user_name r (some t) h =
      let refresh = generate_refresh_token client lib cfg user_id user_name in
      Stored-of s s1 user_id user_name t refresh r
        (set client s (refresh_key client lib cfg refresh) (lib.marshal user_id user_name)
          (cfg.refresh_duration))
        refl refl h

  got_user :
      (now : ℕ) (s : S) (user_id : ℤ) (user_name token : Text)
      → get client s (refresh_key client lib cfg token) ≡ value (lib.marshal user_id user_name)
      → lib.unmarshal (lib.marshal user_id user_name) ≡ (user_id, user_name)
      → refresh_token client lib cfg now s token
        ≡ generate_token client lib cfg now (token_cancel client lib cfg s token) user_id user_name
  unfolding refresh_token
  got_user now s user_id user_name token e h =
      ap (refresh_got client lib cfg now s token) e
      ∙ ap
          (λ (u : ℤ × Text).
            generate_token client lib cfg now (token_cancel client lib cfg s token) (u.0) (u.1))
          h

  -- With a client that does as Redis documents, refreshing with the token of a response that
  -- GenerateToken gave answers as GenerateToken does for the same user, in the state without
  -- that token, when the user's JSON reads back.
  pub refresh_token-generate_token :
      (now later : ℕ) (s s1 : S) (user_id : ℤ) (user_name : Text) (r : RefreshResponse)
      → generate_token client lib cfg now s user_id user_name ≡ (s1, answer r)
      → lib.unmarshal (lib.marshal user_id user_name) ≡ (user_id, user_name)
      → refresh_token client lib cfg later s1 (r.refresh_token)
        ≡ generate_token client lib cfg later
            (token_cancel client lib cfg s1 (r.refresh_token))
            user_id
            user_name
  unfolding generate_token
  refresh_token-generate_token now later s s1 user_id user_name r g h =
      got_user later s1 user_id user_name (r.refresh_token)
        ((stored s s1 user_id user_name r _ g).1) h

  -- When the user's JSON reads back and the client does as Redis documents, a refresh that
  -- answers, with the token that GenerateToken gave, gives out this token again and leaves it
  -- in the cache: the old token refreshes the same user once more.
  pub refresh_keeps_old_token :
      (now later last : ℕ) (s s1 s2 : S) (user_id : ℤ) (user_name : Text) (r r2 : RefreshResponse)
      → generate_token client lib cfg now s user_id user_name ≡ (s1, answer r)
      → lib.unmarshal (lib.marshal user_id user_name) ≡ (user_id, user_name)
      → refresh_token client lib cfg later s1 (r.refresh_token) ≡ (s2, answer r2)
      → (r2.refresh_token ≡ r.refresh_token)
        × (refresh_token client lib cfg last s2 (r.refresh_token)
            ≡ generate_token client lib cfg last
                (token_cancel client lib cfg s2 (r.refresh_token))
                user_id
                user_name)
  unfolding generate_token
  refresh_keeps_old_token now later last s s1 s2 user_id user_name r r2 g h e =
      let first = stored s s1 user_id user_name r _ g in
      let again = sym (got_user later s1 user_id user_name (r.refresh_token) (first.1) h) ∙ e in
      let second =
        stored (token_cancel client lib cfg s1 (r.refresh_token)) s2 user_id user_name r2 _ again in
      let same : r2.refresh_token ≡ r.refresh_token = second.0 ∙ sym (first.0) in
      (
        same,
        got_user last s2 user_id user_name (r.refresh_token)
            (subst
              (λ t.
                get client s2 (refresh_key client lib cfg t)
                ≡ value (lib.marshal user_id user_name))
              same (second.1))
            h,
      )

  -- When Del removes the key, a token cancelled by itself is refused as expired.
  pub refresh_token-token_cancel :
      (now : ℕ) (s : S) (token : Text)
      → (del client s (refresh_key client lib cfg token)).1 ≡ true
      → refresh_token client lib cfg now (token_cancel client lib cfg s token) token
        ≡ (token_cancel client lib cfg s token, fails refresh_token_expired)
  unfolding refresh_token token_cancel
  refresh_token-token_cancel now s token e =
      let key = refresh_key client lib cfg token in
      let gone : get client ((del client s key).0) key ≡ nil =
        doc.get-del s ((del client s key).0) key (ap (λ (b : Bool). ((del client s key).0, b)) e) in
      ap (refresh_got client lib cfg now ((del client s key).0) token) gone

  -- With a client that does as Redis documents, cancelling a user, when Del removes the key,
  -- makes the refresh token that GenerateToken gave this user refused as expired.
  pub refresh_token-token_cancel_by_id :
      (now later : ℕ) (s s1 : S) (user_id : ℤ) (user_name : Text) (r : RefreshResponse)
      → generate_token client lib cfg now s user_id user_name ≡ (s1, answer r)
      → (del client s1
          (refresh_key client lib cfg (generate_refresh_token client lib cfg user_id user_name))).1
        ≡ true
      → refresh_token client lib cfg later
          (token_cancel_by_id client lib cfg s1 user_id user_name)
          (r.refresh_token)
        ≡ (token_cancel_by_id client lib cfg s1 user_id user_name, fails refresh_token_expired)
  unfolding generate_token token_cancel_by_id
  refresh_token-token_cancel_by_id now later s s1 user_id user_name r g e =
      let first = stored s s1 user_id user_name r _ g in
      let mine = generate_refresh_token client lib cfg user_id user_name in
      subst
        (λ t.
          refresh_token client lib cfg later (token_cancel client lib cfg s1 mine) t
          ≡ (token_cancel client lib cfg s1 mine, fails refresh_token_expired))
        (sym (first.0)) (refresh_token-token_cancel later s1 mine e)
