-- ===== src/Encrypt/Hex.antt =====
-- encode.go and hash.go: the hex encoding, the digests in text form, Salt and Nonce. The digests are
-- parameters; HexEncoding is encoding/hex's.
use seckill_pkg.Base.{
  ℕ, ◌+◌, ◌-◌, ◌*◌, ◌/◌, ◌%◌, ◌<◌, ◌≡◌, refl, ap, true, ◌&&◌, ◌||◌, Option, none, some, [], ◌∷◌,
  arith, All, All-take, length, length-take, take, ltb, leb, if◌then◌else◌, ◌>>=◌, Text, ℤ, pos,
  negsuc,
}
use seckill_pkg.Encrypt.Bytes.{Bytes, IsByte, Encoding}

-- A digit of "0123456789abcdef".
abbrev pub hex_digit : ℕ → ℕ
hex_digit n = if ltb n 10 then b'0' + n else b'a' + (n - 10)

unfoldable pub hex_encode : Bytes → Text
hex_encode [] = []
hex_encode (b ∷ s) = hex_digit (b / 16) ∷ hex_digit (b % 16) ∷ hex_encode s

-- Both cases of a letter are read; `none` is an error.
abbrev pub from_hex_char : ℕ → Option ℕ
from_hex_char c =
    if leb b'0' c && leb c b'9'
    then some (c - b'0')
    else if leb b'a' c && leb c b'f'
    then some (c - b'a' + 10)
    else if leb b'A' c && leb c b'F'
    then some (c - b'A' + 10)
    else none

-- An odd number of characters is an error.
unfoldable pub hex_decode : Text → Option Bytes
hex_decode [] = some []
hex_decode (c ∷ []) = none
hex_decode (c ∷ d ∷ s) =
    let rest = hex_decode s in
    from_hex_char c
    >>= (λ high. from_hex_char d >>= (λ low. rest >>= (λ bytes. some ((16 * high + low) ∷ bytes))))

unfoldable pub new_hex_encoding : Encoding
new_hex_encoding = record { encode_to_string = hex_encode; decode_string = hex_decode }

-- MD5, and SHA1 and SHA256 with an encoding; `sum` is the digest.
abbrev pub md5 : (Bytes → Bytes) → Bytes → Text
md5 sum s = hex_encode (sum s)

abbrev pub sha_with_encoding : (Bytes → Bytes) → Bytes → Encoding → Text
sha_with_encoding sum s e = e.encode_to_string (sum s)

unfoldable pub sha : (Bytes → Bytes) → Bytes → Text
sha sum s = sha_with_encoding sum s new_hex_encoding

-- `read n` is what rand.Reader gives for n bytes; `none` is its error, on which the code panics.
unfoldable pub salt : (ℕ → Option Bytes) → Encoding → Option Text
salt read e = read 4 >>= (λ nonce. some (e.encode_to_string nonce))

-- A negative length panics in `make`.
unfoldable pub nonce : (ℕ → Option Bytes) → ℤ → Option Text
nonce read (negsuc n) = none
nonce read (pos n) = read n >>= (λ bytes. some (take n (hex_encode bytes)))

hex_char : (n : ℕ) → n < 16 → from_hex_char (hex_digit n) ≡ some n
hex_char n h = ground arith

-- DecodeString of the hex encoding undoes its EncodeToString on bytes.
pub hex_decode-hex_encode : (s : Bytes) → All IsByte s → hex_decode (hex_encode s) ≡ some s
unfolding hex_decode hex_encode
hex_decode-hex_encode [] h = refl
hex_decode-hex_encode (b ∷ s) (h, k) =
    rw (hex_char (b / 16) (omega arith), hex_char (b % 16) (omega arith), hex_decode-hex_encode s k)
      (ap (λ x. some (x ∷ s)) (omega arith))

-- A lower-case letter or a decimal digit.
abbrev pub IsLowerHex : ℕ → Type 0
IsLowerHex c = ((leb b'0' c && leb c b'9') || (leb b'a' c && leb c b'f')) ≡ true

hex_digit_lem : (n : ℕ) → n < 16 → IsLowerHex (hex_digit n)
hex_digit_lem n h = ground arith

length-hex_encode : (s : Bytes) → length (hex_encode s) ≡ 2 * length s
unfolding hex_encode
length-hex_encode [] = omega arith
length-hex_encode (b ∷ s) = omega (arith, length-hex_encode s)

hex_encode-All : (s : Bytes) → All IsByte s → All IsLowerHex (hex_encode s)
unfolding hex_encode
hex_encode-All [] h = tt
hex_encode-All (b ∷ s) (h, k) = (
  hex_digit_lem (b / 16) (omega arith),
  (hex_digit_lem (b % 16) (omega arith), hex_encode-All s k),
)

-- When the reader gives as many bytes as it is asked for, Nonce gives a text of just n
-- characters, each a decimal digit or one of the letters a to f.
pub nonce_lem :
    (read : ℕ → Option Bytes) (n : ℕ) (bytes : Bytes)
    → read n ≡ some bytes
    → length bytes ≡ n
    → All IsByte bytes
    → (s : Text) × (nonce read (pos n) ≡ some s) × (length s ≡ n) × All IsLowerHex s
unfolding nonce
nonce_lem read n bytes e len h = (
  take n (hex_encode bytes),
  rw e refl,
  length-take n (hex_encode bytes) (omega (arith, length-hex_encode bytes)),
  All-take IsLowerHex n (hex_encode bytes) (hex_encode-All bytes h),
)

-- A digest of n bytes has a text of 2n characters, each a decimal digit or one of the letters a to f,
-- in MD5 as in SHA1 and SHA256, which agree with it.
pub digest_lem :
    (sum : Bytes → Bytes) (n : ℕ) (s : Bytes)
    → length (sum s) ≡ n
    → All IsByte (sum s)
    → (length (md5 sum s) ≡ 2 * n) × All IsLowerHex (md5 sum s) × (sha sum s ≡ md5 sum s)
unfolding sha new_hex_encoding
digest_lem sum n s len h =
    (omega (arith, length-hex_encode (sum s), len), hex_encode-All (sum s) h, refl)
