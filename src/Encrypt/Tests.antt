-- ===== src/Encrypt/Tests.antt =====
-- Runs of the encrypt package, and its theorems at concrete inputs. The block cipher exchanges the
-- first two bytes of a block; the RSA of the example writes a message with its length into 16 bytes.
use seckill_pkg.Base.{
  ℕ, ◌+◌, ◌-◌, ◌*◌, ◌%◌, ◌≤◌, ◌<◌, ◌≡◌, refl, ap, inr, true, false, Option, none, some, [], ◌∷◌,
  ◌++◌, arith, All, length, length-append, length-replicate, replicate, take, take_append, ltb,
  if◌then◌else◌, Text, codes, pos,
}
use seckill_pkg.Encrypt.Bytes.{Bytes, IsByte, ok, xor_bytes}
use seckill_pkg.Encrypt.Padding.{
  pkcs5_padding, pkcs5_un_padding, padding_key, un_padding-padding, padding_blocks, padding_key_lem,
}
use seckill_pkg.Encrypt.Blocks.{BlockCipher, IsBlock, Lawful, new_cipher}
use seckill_pkg.Encrypt.Aes.{GoAes, new_go_aes, with_model, encrypt, decrypt}
use seckill_pkg.Encrypt.AesRoundTrip.{Decodes, decrypt-encrypt}
use seckill_pkg.Encrypt.AesErrors.{encrypt_drops_error, decrypt_after_own_encrypt}
use seckill_pkg.Encrypt.Rsa.{public_encrypt, private_decrypt}
use seckill_pkg.Encrypt.RsaRoundTrip.{Pkcs1, private_decrypt-public_encrypt}
use seckill_pkg.Encrypt.Hex.{
  hex_encode, hex_decode, new_hex_encoding, md5, sha, nonce, IsLowerHex, hex_decode-hex_encode,
  nonce_lem, digest_lem,
}

abbrev swap : Bytes → Bytes → Bytes
swap key [] = []
swap key (a ∷ []) = a ∷ []
swap key (a ∷ b ∷ s) = b ∷ a ∷ s

abbrev swap_cipher : BlockCipher
swap_cipher = record { encrypt_block = swap; decrypt_block = swap }

swap_twice : (key b : Bytes) → swap key (swap key b) ≡ b
swap_twice key [] = refl
swap_twice key (a ∷ []) = refl
swap_twice key (a ∷ b ∷ s) = refl

swap-IsBlock : (key b : Bytes) → IsBlock b → IsBlock (swap key b)
swap-IsBlock key [] h = h
swap-IsBlock key (a ∷ []) h = h
swap-IsBlock key (a ∷ b ∷ s) (len, (p, (q, h))) = (len, (q, (p, h)))

swap-Lawful : (key : Bytes) → Lawful swap_cipher key
swap-Lawful key = record {
  encrypt_lem = swap-IsBlock key;
  decrypt_lem = swap-IsBlock key;
  inverse = λ b h. swap_twice key b;
}

hex-Decodes : Decodes new_hex_encoding
unfolding new_hex_encoding
hex-Decodes s h = hex_decode-hex_encode s h

abbrev fresh_iv : Bytes
fresh_iv = 1 ∷ 2 ∷ 3 ∷ 4 ∷ 5 ∷ 6 ∷ 7 ∷ 8 ∷ 9 ∷ 10 ∷ 11 ∷ 12 ∷ 13 ∷ 14 ∷ 15 ∷ 255 ∷ []

fresh_iv-IsBlock : IsBlock fresh_iv
fresh_iv-IsBlock = (refl, ground arith)

-- NewGoAES("low_key", AES128).WithModel(CBC)
abbrev low_key : GoAes
low_key = with_model (new_go_aes (codes "low_key") 16) 2

low_key_legal : new_cipher (low_key.key) ≡ true
unfolding new_cipher padding_key
low_key_legal = refl

-- "hello"
abbrev hello : Bytes
hello = 104 ∷ 101 ∷ 108 ∷ 108 ∷ 111 ∷ []

short_key : new_cipher ((new_go_aes hello 5).key) ≡ false
unfolding new_cipher padding_key
short_key = refl

hello-All : All IsByte hello
hello-All = ground arith

un_padding-padding_example : pkcs5_un_padding (pkcs5_padding hello 16) ≡ some hello
un_padding-padding_example = un_padding-padding hello 16 (omega arith) (omega arith)

padding_blocks_example :
    (length (pkcs5_padding hello 16) % 16 ≡ 0)
    × (length hello < length (pkcs5_padding hello 16))
    × (length (pkcs5_padding hello 16) ≤ length hello + 16)
padding_blocks_example = padding_blocks hello 16 (omega arith)

padding_key_example :
    (length (padding_key hello 16) ≡ 16) × (take 5 (padding_key hello 16) ≡ take 16 hello)
padding_key_example = padding_key_lem hello 16

decrypt-encrypt_example :
    (text : Text) × ((encrypt swap_cipher new_hex_encoding (some fresh_iv) low_key hello).1
      ≡ ok text)
    × ((decrypt swap_cipher new_hex_encoding low_key text).1 ≡ ok hello)
decrypt-encrypt_example =
    decrypt-encrypt swap_cipher new_hex_encoding fresh_iv low_key hello (swap-Lawful (low_key.key))
      low_key_legal (omega arith) (inr (refl, refl)) fresh_iv-IsBlock hex-Decodes hello-All

encrypt_drops_error_example :
    (encrypt swap_cipher new_hex_encoding (some fresh_iv) (new_go_aes hello 5) hello).1 ≡ ok []
encrypt_drops_error_example =
    encrypt_drops_error swap_cipher new_hex_encoding fresh_iv (new_go_aes hello 5) hello short_key
      (omega arith)

decrypt_after_own_encrypt_example :
    let used = encrypt swap_cipher new_hex_encoding (some fresh_iv) low_key hello in
    (text : Text) × (used.1 ≡ ok text)
    × ((decrypt swap_cipher new_hex_encoding (used.0) text).1
        ≡ ok (xor_bytes (swap (low_key.key) fresh_iv) fresh_iv ++ hello))
decrypt_after_own_encrypt_example =
    decrypt_after_own_encrypt swap_cipher new_hex_encoding fresh_iv low_key hello
      (swap-Lawful (low_key.key)) low_key_legal refl refl refl fresh_iv-IsBlock hex-Decodes
      hello-All

-- A message of at most 5 bytes in 16: its length, itself, and zeros.
abbrev toy_encrypt : ℕ → Bytes → Option Bytes
toy_encrypt i m =
    if ltb 5 (length m) then none else some (length m ∷ (m ++ replicate (15 - length m) 0))

abbrev toy_decrypt : Bytes → Option Bytes
toy_decrypt [] = none
toy_decrypt (n ∷ s) = some (take n s)

toy-Pkcs1 : Pkcs1 16 toy_encrypt toy_decrypt
toy-Pkcs1 i m h =
    let fits : ltb 5 (length m) ≡ false = ground arith in
    let zeros : Bytes = replicate (15 - length m) 0 in
    (
      length m ∷ (m ++ zeros),
      rw fits refl,
      omega (arith, length-append m zeros, length-replicate {A = ℕ} (15 - length m) 0, h),
      ap some (take_append m zeros),
    )

-- Seven bytes go out in two chunks.
private_decrypt-public_encrypt_example :
    (c : Bytes) × (public_encrypt toy_encrypt 128 (hello ++ (1 ∷ 2 ∷ [])) ≡ ok c)
    × (private_decrypt toy_decrypt 128 c ≡ ok (hello ++ (1 ∷ 2 ∷ [])))
private_decrypt-public_encrypt_example =
    private_decrypt-public_encrypt toy_encrypt toy_decrypt 128 (hello ++ (1 ∷ 2 ∷ [])) toy-Pkcs1
      refl (omega arith)

hex_decode-hex_encode_example : hex_decode (hex_encode hello) ≡ some hello
hex_decode-hex_encode_example = hex_decode-hex_encode hello hello-All

nonce_lem_example :
    (s : Text) × (nonce (λ n. some (take n fresh_iv)) (pos 5) ≡ some s)
    × (length s ≡ 5)
    × All IsLowerHex s
nonce_lem_example =
    nonce_lem (λ n. some (take n fresh_iv)) 5 (take 5 fresh_iv) refl refl (ground arith)

digest_lem_example :
    let sum = λ (s : Bytes). fresh_iv in
    (length (md5 sum hello) ≡ 2 * 16)
    × All IsLowerHex (md5 sum hello)
    × (sha sum hello ≡ md5 sum hello)
digest_lem_example = digest_lem (λ s. fresh_iv) 16 hello refl (ground arith)
