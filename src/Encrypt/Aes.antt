-- ===== src/Encrypt/Aes.antt =====
-- aes.go: GoAES, its setters, Encrypt, Decrypt and DecryptBytes. A method that changes the receiver
-- gives it back with its result. A slice has no capacity past its length here.
use seckill_pkg.Base.{
  ℕ, Bool, true, false, Option, none, some, [], ◌++◌, length, take, drop, is_empty, ltb, eqb,
  if◌then◌else◌, ◌>>=◌, Text,
}
use seckill_pkg.Encrypt.Bytes.{Bytes, Encoding, Out, ok, err, panic, xor_bytes}
use seckill_pkg.Encrypt.Padding.{pkcs5_padding, pkcs5_un_padding, padding_key}
use seckill_pkg.Encrypt.Blocks.{
  BlockCipher, new_cipher, each_block, ecb_step, cbc_encrypt_step, cbc_decrypt_step, key_stream,
}

-- `model` is 0 when it is not set.
pub record GoAes : Type 0 where
  pub key : Bytes
  pub model : ℕ
  pub iv : Bytes
  pub set_iv : Bool
  pub encoder : Option Encoding

abbrev pub ecb : ℕ
ecb = 1

abbrev pub cbc : ℕ
cbc = 2

abbrev pub ctr : ℕ
ctr = 3

abbrev pub block_size : ℕ
block_size = 16

abbrev pub new_go_aes : Bytes → ℕ → GoAes
new_go_aes k aes_len = record {
  key = padding_key k aes_len;
  model = 0;
  iv = [];
  set_iv = false;
  encoder = none;
}

-- `scrypt` is scrypt.Key with the cost of the source; `none` is its error.
abbrev pub new_go_aes_safety :
    (Bytes → Bytes → ℕ → Option Bytes) → Bytes → Bytes → ℕ → Option (GoAes × Bytes)
new_go_aes_safety scrypt k salt aes_len = scrypt k salt aes_len >>= (λ real_key.
    some (record { key = real_key; model = 0; iv = []; set_iv = false; encoder = none }, real_key))

abbrev pub with_model : GoAes → ℕ → GoAes
with_model a m = record a { model = m }

abbrev pub with_encoding : GoAes → Encoding → GoAes
with_encoding a e = record a { encoder = some e }

abbrev pub with_iv : GoAes → Bytes → GoAes
with_iv a v = record a { iv = v; set_iv = true }

abbrev pub or_encoding : Encoding → Option Encoding → Encoding
or_encoding base64 none = base64
or_encoding base64 (some e) = e

-- `base64` is NewBase64Encoding().
abbrev pub init_config : Encoding → GoAes → GoAes
init_config base64 a = record a {
  model = if eqb (a.model) 0 then ecb else a.model;
  encoder = some (or_encoding base64 (a.encoder));
}

abbrev pub or_panic : Option Bytes → Out Bytes
or_panic none = panic
or_panic (some s) = ok s

-- Both modes with an iv panic when it is not one block.
abbrev pub with_cipher : Bytes → Out Bytes → Out Bytes
with_cipher key r = if new_cipher key then r else err

-- `fresh` is what rand.Reader gives; `none` is its error, on which the code panics.
unfoldable pub block_iv_encrypt : Option Bytes → GoAes → Option GoAes
block_iv_encrypt fresh a =
    if is_empty (a.iv) then (fresh >>= (λ v. some (record a { iv = v }))) else some a

-- The text without its first block, and that block as iv, when the receiver has no iv.
unfoldable pub block_iv_decrypt : GoAes → Bytes → Option (Bytes × Bytes)
block_iv_decrypt a text =
    if is_empty (a.iv)
    then (if ltb (length text) block_size
        then none
        else some (drop block_size text, take block_size text))
    else some (text, a.iv)

-- The switch on the model.
abbrev pub switch_model : {A : Type 0} → ℕ → A → A → A → A → A
switch_model m e b s other =
    if eqb m ecb then e else if eqb m cbc then b else if eqb m ctr then s else other

-- `if !a.setIv { ciphertext = append(a.iv, ciphertext...) }`
abbrev pub prepend_iv : GoAes → Out Bytes → Out Bytes
prepend_iv a (ok s) = ok (if a.set_iv then s else a.iv ++ s)
prepend_iv a err = err
prepend_iv a panic = panic

-- `if err != nil { return "", nil }`, and the encoded text else.
abbrev pub encoded : Encoding → Out Bytes → Out Text
encoded e (ok s) = ok (e.encode_to_string s)
encoded e err = ok []
encoded e panic = panic

-- Encrypt in a mode with an iv, after blockIvEncrypt.
abbrev pub encrypt_started : GoAes → (GoAes → Out Bytes) → Option GoAes → GoAes × Out Bytes
encrypt_started a mode none = (a, panic)
encrypt_started a mode (some b) = (b, prepend_iv b (mode b))

abbrev pub encrypt_with_iv : Option Bytes → GoAes → (GoAes → Out Bytes) → GoAes × Out Bytes
encrypt_with_iv fresh a mode = encrypt_started a mode (block_iv_encrypt fresh a)

-- `string(plainBytes)`, and the empty text on an error.
abbrev pub or_empty : Out Bytes → Out Bytes
or_empty (ok s) = ok s
or_empty err = ok []
or_empty panic = panic

-- Decrypt in a mode with an iv, after blockIvDecrypt.
abbrev pub decrypt_started :
    GoAes → (GoAes → Bytes → Out Bytes) → Option (Bytes × Bytes) → GoAes × Out Bytes
decrypt_started a mode none = (a, panic)
decrypt_started a mode (some (text, v)) = (record a { iv = v }, mode (record a { iv = v }) text)

abbrev pub decrypt_with_iv : GoAes → Bytes → (GoAes → Bytes → Out Bytes) → GoAes × Out Bytes
decrypt_with_iv a text mode =
    if a.set_iv then (a, mode a text) else decrypt_started a mode (block_iv_decrypt a text)

module _ (c : BlockCipher) where
  unfoldable pub ecb_encrypt : GoAes → Bytes → Out Bytes
  ecb_encrypt a plaintext =
      let padded = pkcs5_padding plaintext block_size in
      with_cipher (a.key)
        (or_panic (each_block (ecb_step (c.encrypt_block (a.key))) (length padded) [] padded))

  unfoldable pub ecb_decrypt : GoAes → Bytes → Out Bytes
  ecb_decrypt a text = with_cipher (a.key) (
      or_panic (
        each_block (ecb_step (c.decrypt_block (a.key))) (length text) [] text
        >>= (λ plain. pkcs5_un_padding plain)))

  unfoldable pub cbc_encrypt : GoAes → Bytes → Out Bytes
  cbc_encrypt a plaintext =
      let padded = pkcs5_padding plaintext block_size in
      with_cipher (a.key) (
        if eqb (length (a.iv)) block_size
        then or_panic
            (each_block (cbc_encrypt_step (c.encrypt_block (a.key))) (length padded) (a.iv) padded)
        else panic)

  unfoldable pub cbc_decrypt : GoAes → Bytes → Out Bytes
  cbc_decrypt a text = with_cipher (a.key) (
      if eqb (length (a.iv)) block_size
      then or_panic (
          each_block (cbc_decrypt_step (c.decrypt_block (a.key))) (length text) (a.iv) text
          >>= (λ plain. pkcs5_un_padding plain))
      else panic)

  -- ctrEncrypt and ctrDecrypt are the same.
  unfoldable pub ctr_encrypt : GoAes → Bytes → Out Bytes
  ctr_encrypt a text = with_cipher (a.key) (
      if eqb (length (a.iv)) block_size
      then ok (xor_bytes text (key_stream (c.encrypt_block (a.key)) (length text) (a.iv)))
      else panic)

  unfoldable pub ctr_decrypt : GoAes → Bytes → Out Bytes
  ctr_decrypt a text = with_cipher (a.key) (
      if eqb (length (a.iv)) block_size
      then ok (xor_bytes text (key_stream (c.encrypt_block (a.key)) (length text) (a.iv)))
      else panic)

  -- The switch of Encrypt.
  abbrev pub encrypt_by_model : Option Bytes → GoAes → Bytes → GoAes × Out Bytes
  encrypt_by_model fresh a plaintext =
      switch_model (a.model) (a, ecb_encrypt a plaintext)
        (encrypt_with_iv fresh a (λ b. cbc_encrypt b plaintext))
        (encrypt_with_iv fresh a (λ b. ctr_encrypt b plaintext)) (a, ok [])

  unfoldable pub encrypt : Encoding → Option Bytes → GoAes → Bytes → GoAes × Out Text
  encrypt base64 fresh go_aes plaintext =
      let r = encrypt_by_model fresh (init_config base64 go_aes) plaintext in
      (r.0, encoded (or_encoding base64 (go_aes.encoder)) (r.1))

  -- The switch of DecryptBytes.
  abbrev pub decrypt_by_model : GoAes → Bytes → GoAes × Out Bytes
  decrypt_by_model a text =
      switch_model (a.model) (a, ecb_decrypt a text) (decrypt_with_iv a text cbc_decrypt)
        (decrypt_with_iv a text ctr_decrypt) (a, ok [])

  unfoldable pub decrypt_bytes : GoAes → Bytes → GoAes × Out Bytes
  decrypt_bytes a text = let r = decrypt_by_model a text in (r.0, or_empty (r.1))

  -- `none` is the error of DecodeString.
  abbrev pub decrypt_decoded : GoAes → Option Bytes → GoAes × Out Bytes
  decrypt_decoded a none = (a, err)
  decrypt_decoded a (some cipher_bytes) = decrypt_bytes a cipher_bytes

  unfoldable pub decrypt : Encoding → GoAes → Text → GoAes × Out Bytes
  decrypt base64 go_aes text =
      decrypt_decoded (init_config base64 go_aes)
        ((or_encoding base64 (go_aes.encoder)).decode_string text)
