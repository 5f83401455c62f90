-- ===== src/Encrypt/Rsa.antt =====
-- rsa.go: split, PublicEncrypt and PrivateDecrypt, Sign and Verify, NewGoRSA, GenerateRSAString.
-- crypto/rsa, encoding/pem and crypto/x509 are parameters.
use seckill_pkg.Base.{
  ℕ, zero, suc, ◌-◌, ◌/◌, Bool, false, Option, none, some, List, [], ◌∷◌, ◌++◌, length, take, drop,
  is_empty, ltb, if◌then◌else◌, ◌>>=◌, Text, ℤ, pos, negsuc,
}
use seckill_pkg.Encrypt.Bytes.{Bytes, Encoding, Out, ok, err, panic}

-- The loop of split, on fuel: whole chunks while there are any, then what is left.
unfoldable pub split_loop : ℕ → Bytes → ℕ → List Bytes
split_loop zero buf lim = if is_empty buf then [] else (buf ∷ [])
split_loop (suc n) buf lim =
    let chunks = split_loop n (drop lim buf) lim in
    if ltb (length buf) lim
    then (if is_empty buf then [] else (buf ∷ []))
    else take lim buf ∷ chunks

-- `none` is the panic at a limit of 0, in the division, or below, in `make` or `buf[:lim]`.
unfoldable pub split : Bytes → ℤ → Option (List Bytes)
split buf (negsuc n) = none
split buf (pos zero) = none
split buf (pos (suc n)) = some (split_loop (length buf) buf (suc n))

-- `bit_len/8 - 11`, which may be negative.
unfoldable pub part_len : ℕ → ℤ
part_len bit_len =
    if ltb (bit_len / 8) 11 then negsuc (10 - bit_len / 8) else pos (bit_len / 8 - 11)

-- A chunk after the other, the results joined; the first error ends it. `f i` is the call for chunk i.
unfoldable pub each_chunk : (ℕ → Bytes → Option Bytes) → ℕ → List Bytes → Option Bytes
each_chunk f i [] = some []
each_chunk f i (chunk ∷ chunks) =
    let rest = each_chunk f (suc i) chunks in
    f i chunk >>= (λ b. rest >>= (λ buffer. some (b ++ buffer)))

abbrev pub or_err : Option Bytes → Out Bytes
or_err none = err
or_err (some s) = ok s

abbrev pub over_chunks : (ℕ → Bytes → Option Bytes) → Option (List Bytes) → Out Bytes
over_chunks f none = panic
over_chunks f (some chunks) = or_err (each_chunk f 0 chunks)

-- `encrypt i` is rsa.EncryptPKCS1v15 with the i-th random bytes; `none` is its error.
unfoldable pub public_encrypt : (ℕ → Bytes → Option Bytes) → ℕ → Bytes → Out Bytes
public_encrypt encrypt bit_len plain = over_chunks encrypt (split plain (part_len bit_len))

unfoldable pub private_decrypt : (Bytes → Option Bytes) → ℕ → Bytes → Out Bytes
private_decrypt decrypt bit_len encrypted =
    over_chunks (λ i. decrypt) (split encrypted (pos (bit_len / 8)))

abbrev pub encode_ok : Encoding → Out Bytes → Out Text
encode_ok e (ok p) = ok (e.encode_to_string p)
encode_ok e err = err
encode_ok e panic = panic

unfoldable pub public_encrypt_with_encoding :
    (ℕ → Bytes → Option Bytes) → ℕ → Bytes → Encoding → Out Text
public_encrypt_with_encoding encrypt bit_len plain e =
    encode_ok e (public_encrypt encrypt bit_len plain)

unfoldable pub private_decrypt_with_encoding :
    (Bytes → Option Bytes) → ℕ → Text → Encoding → Out Bytes
private_decrypt_with_encoding decrypt bit_len plain e = elim (e.decode_string plain) [
  | none ↦ err
  | some encrypt_data ↦ private_decrypt decrypt bit_len encrypt_data
]

-- `sign_hashed` is rsa.SignPKCS1v15 on a hash, `verify_hashed` says whether rsa.VerifyPKCS1v15 agrees.
unfoldable pub sign : (Bytes → Bytes) → (Bytes → Option Bytes) → Encoding → Bytes → Option Text
sign hash sign_hashed encoder plain =
    sign_hashed (hash plain) >>= (λ s. some (encoder.encode_to_string s))

unfoldable pub verify : (Bytes → Bytes) → (Bytes → Bytes → Bool) → Encoding → Bytes → Text → Bool
verify hash verify_hashed decoder plain s = elim (decoder.decode_string s) [
  | none ↦ false
  | some decoded_sign ↦ verify_hashed (hash plain) decoded_sign
]

-- What x509 parses: an RSA key, or a key of another kind.
pub data Parsed (K : Type 0) : Type 0 where
  rsa_key : K → Parsed K
  other_key : Parsed K

-- NewGoRSA: the type assertion on the public key panics on a key of another kind, that on the private
-- key gives an error.
module _ {Pub Pri : Type 0} (pem_decode : Bytes → Option Bytes)
    (parse_public : Bytes → Option (Parsed Pub)) (parse_private : Bytes → Option (Parsed Pri)) where
  abbrev with_private : Pub → Option (Parsed Pri) → Out (Pub × Pri)
  with_private p none = err
  with_private p (some other_key) = err
  with_private p (some (rsa_key k)) = ok (p, k)

  abbrev with_public : Bytes → Option (Parsed Pub) → Out (Pub × Pri)
  with_public private_key none = err
  with_public private_key (some other_key) = panic
  with_public private_key (some (rsa_key p)) =
      with_private p (pem_decode private_key >>= (λ block. parse_private block))

  unfoldable pub new_go_rsa : Bytes → Bytes → Out (Pub × Pri)
  new_go_rsa public_key private_key =
      with_public private_key (pem_decode public_key >>= (λ block. parse_public block))

-- GenerateRSAString: the length it uses, and the pair of texts, empty when the generation failed. Its
-- error is nil on both paths.
unfoldable pub generate_rsa_string : (ℕ → Option (Text × Text)) → ℕ → Text × Text
generate_rsa_string write_rsa_key_pair key_length =
    elim (write_rsa_key_pair (if ltb key_length 1024 then 1024 else key_length)) [
      | none ↦ ([], [])
      | some keys ↦ keys
    ]

abbrev pub concat : List Bytes → Bytes
concat [] = []
concat (b ∷ bs) = b ++ concat bs
