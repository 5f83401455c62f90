-- ===== src/Encrypt/AesErrors.antt =====
-- aes.go: what Encrypt does with an error, and Decrypt on the object that Encrypt left.
use seckill_pkg.Base.{
  suc, ◌+◌, ◌<◌, ◌≡◌, ◌⊎◌, refl, ap, ◌∙◌, inl, inr, true, false, some, [], ◌++◌, arith, All,
  All-append, length, length-append, is_empty, if◌then◌else◌, ◌>>=◌, Bool-cases, Text,
}
use seckill_pkg.Encrypt.Bytes.{Bytes, IsByte, Encoding, Out, ok, err, xor_bytes}
use seckill_pkg.Encrypt.Padding.{pkcs5_padding, pkcs5_un_padding, un_padding-append}
use seckill_pkg.Encrypt.Blocks.{
  BlockCipher, IsBlock, Lawful, new_cipher, each_block, cbc_decrypt_step, each_block-cons,
  each_block_much_more,
}
use seckill_pkg.Encrypt.Aes.{
  GoAes, ecb_encrypt, cbc_encrypt, cbc_decrypt, ctr_encrypt, with_cipher, or_panic, or_encoding,
  init_config, block_iv_encrypt, block_iv_decrypt, prepend_iv, encoded, or_empty, encrypt_started,
  encrypt_with_iv, decrypt_started, encrypt, decrypt, decrypt_bytes, encrypt_by_model,
  decrypt_decoded,
}
use seckill_pkg.Encrypt.Modes.{padding-All, fills, cbc-Blocks, iv_lem}
use seckill_pkg.Encrypt.AesRoundTrip.{
  Decodes, nonempty, keep_iv, new_iv, switch_ecb, switch_cbc, switch_ctr, model_cases,
}

refuses : (key : Bytes) (r : Out Bytes) → new_cipher key ≡ false → with_cipher key r ≡ err
refuses key r h = rw h refl

has_iv :
    (b : GoAes) (v : Bytes)
    → is_empty (b.iv) ≡ true
    → block_iv_encrypt (some v) b ≡ some (record b { iv = v })
unfolding block_iv_encrypt
has_iv b v h = rw h refl

started_err :
    (b : GoAes) (fresh : Bytes) (mode : GoAes → Out Bytes)
    → ((v : Bytes) → mode (record b { iv = v }) ≡ err)
    → (encrypt_with_iv (some fresh) b mode).1 ≡ err
started_err b fresh mode h = elim (Bool-cases (is_empty (b.iv))) [
  | inl e ↦
      ap (λ o. (encrypt_started b mode o).1) (has_iv b fresh e)
      ∙ ap (prepend_iv (record b { iv = fresh })) (h fresh)
  | inr e ↦
      ap (λ o. (encrypt_started b mode o).1) (keep_iv b (some fresh) e)
      ∙ ap (prepend_iv b) (h (b.iv))
]

by_model_err :
    (c : BlockCipher) (b : GoAes) (fresh s : Bytes)
    → new_cipher (b.key) ≡ false
    → ((b.model ≡ 1) ⊎ ((b.model ≡ 2) ⊎ (b.model ≡ 3)))
    → (encrypt_by_model c (some fresh) b s).1 ≡ err
unfolding ecb_encrypt cbc_encrypt ctr_encrypt
by_model_err c b fresh s illegal (inl m) =
    ap (λ (r : GoAes × Out Bytes). r.1) (switch_ecb (b.model) _ _ _ _ m) ∙ refuses (b.key) _ illegal
by_model_err c b fresh s illegal (inr (inl m)) =
    ap (λ (r : GoAes × Out Bytes). r.1) (switch_cbc (b.model) _ _ _ _ m)
    ∙ started_err b fresh (λ d. cbc_encrypt c d s) (λ v. refuses (b.key) _ illegal)
by_model_err c b fresh s illegal (inr (inr m)) =
    ap (λ (r : GoAes × Out Bytes). r.1) (switch_ctr (b.model) _ _ _ _ m)
    ∙ started_err b fresh (λ d. ctr_encrypt c d s) (λ v. refuses (b.key) _ illegal)

-- With a key that aes.NewCipher refuses, any model of the three or none, and random bytes at
-- hand, Encrypt gives the empty text and no error.
pub encrypt_drops_error :
    (c : BlockCipher) (base64 : Encoding) (fresh : Bytes) (a : GoAes) (plaintext : Bytes)
    → new_cipher (a.key) ≡ false
    → a.model < 4
    → (encrypt c base64 (some fresh) a plaintext).1 ≡ ok []
unfolding encrypt
encrypt_drops_error c base64 fresh a s illegal m =
    ap (encoded (or_encoding base64 (a.encoder)))
      (by_model_err c (init_config base64 a) fresh s illegal (model_cases (a.model) m))

keep_text :
    (b : GoAes) (t : Bytes) → is_empty (b.iv) ≡ false → block_iv_decrypt b t ≡ some (t, b.iv)
unfolding block_iv_decrypt
keep_text b t h = rw h refl

-- cbcDecrypt of a text in front of which its iv was left.
module _ (c : BlockCipher) (b : GoAes) (law : Lawful c (b.key)) (legal : new_cipher (b.key) ≡ true)
    (block : IsBlock (b.iv)) (s : Bytes) (bytes : All IsByte s) where
  iv_left :
      (t : Bytes) × (cbc_encrypt c b s ≡ ok t)
      × All IsByte t
      × (cbc_decrypt c b (b.iv ++ t) ≡ ok (xor_bytes (c.decrypt_block (b.key) (b.iv)) (b.iv) ++ s))
  unfolding cbc_encrypt cbc_decrypt
  iv_left =
      let v : Bytes = b.iv in
      let step = cbc_decrypt_step (c.decrypt_block (b.key)) in
      let (t, e, len, tb, d) =
        cbc-Blocks c (b.key) law v (pkcs5_padding s 16) block (padding-All s bytes) (fills s) in
      let more = each_block_much_more step 15 (length t) v t (pkcs5_padding s 16) d in
      let x : Bytes = xor_bytes (c.decrypt_block (b.key) v) v in
      let size : length (v ++ t) ≡ suc (15 + length t) =
        omega (arith, length-append v t, block.0) in
      (
        t,
        iv_lem c b law legal v (block.0) _ ∙ ap or_panic e,
        tb,
        iv_lem c b law legal v (block.0) _
            ∙ ap (λ n. or_panic (each_block step n v (v ++ t) >>= (λ p. pkcs5_un_padding p))) size
            ∙ ap (λ o. or_panic (o >>= (λ p. pkcs5_un_padding p)))
                (each_block-cons step (15 + length t) v v t (block.0) more)
            ∙ ap or_panic (un_padding-append x s 16 (omega arith) (omega arith)),
      )

-- In CBC without WithIv, with a lawful block cipher, a legal key and an encoding that undoes
-- itself, an object that has encrypted decrypts its own text wrongly: the result starts with
-- one block that is not part of the plaintext.
pub decrypt_after_own_encrypt :
    (c : BlockCipher) (base64 : Encoding) (fresh : Bytes) (a : GoAes) (plaintext : Bytes)
    → Lawful c (a.key)
    → new_cipher (a.key) ≡ true
    → a.model ≡ 2
    → a.set_iv ≡ false
    → a.iv ≡ []
    → IsBlock fresh
    → Decodes (or_encoding base64 (a.encoder))
    → All IsByte plaintext
    → let used = encrypt c base64 (some fresh) a plaintext in
      (text : Text) × (used.1 ≡ ok text)
      × ((decrypt c base64 (used.0) text).1
          ≡ ok (xor_bytes (c.decrypt_block (a.key) fresh) fresh ++ plaintext))
unfolding encrypt decrypt decrypt_bytes cbc_decrypt
decrypt_after_own_encrypt c base64 fresh a s law legal m unset empty block dec bytes =
    let b : GoAes = init_config base64 a in
    let d : GoAes = record b { iv = fresh } in
    let again : GoAes = init_config base64 d in
    let e : Encoding = or_encoding base64 (a.encoder) in
    let still_cbc : again.model ≡ 2 = ground (arith, m) in
    let (t, p, tb, q) = iv_left c d law legal block s bytes in
    let is_cbc : b.model ≡ 2 = ground (arith, m) in
    let done : encrypt_by_model c (some fresh) b s ≡ (d, ok (fresh ++ t)) =
      switch_cbc (b.model) _ _ _ _ is_cbc
      ∙ ap (encrypt_started b (λ x. cbc_encrypt c x s)) (new_iv b fresh empty)
      ∙ ap (λ o. (d, prepend_iv d o)) p
      ∙ ap (λ x. (d, ok (if x then t else fresh ++ t))) unset in
    (
      e.encode_to_string (fresh ++ t),
      ap (λ (r : GoAes × Out Bytes). encoded e (r.1)) done,
      ap (λ (r : GoAes × Out Bytes). (decrypt c base64 (r.0) (e.encode_to_string (fresh ++ t))).1)
            done
          ∙ ap (λ o. (decrypt_decoded c (init_config base64 d) o).1)
              (dec (fresh ++ t) (All-append IsByte fresh t (block.1) tb))
          ∙ ap or_empty (
              ap (λ (r : GoAes × Out Bytes). r.1) (switch_cbc (again.model) _ _ _ _ still_cbc)
              ∙ ap
                  (λ x.
                    (if x
                      then (again, cbc_decrypt c again (fresh ++ t))
                      else decrypt_started again (cbc_decrypt c)
                          (block_iv_decrypt again (fresh ++ t))).1)
                  unset
              ∙ ap (λ o. (decrypt_started again (cbc_decrypt c) o).1)
                  (keep_text again (fresh ++ t) (nonempty fresh (block.0)))
              ∙ q),
    )
