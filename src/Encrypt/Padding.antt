-- ===== src/Encrypt/Padding.antt =====
-- aes.go: pkcs5Padding, pkcs5UnPadding and paddingKey.
use native.Mathlib.Nat.{mod-lt, mod-add-mod, mod_self}
use seckill_pkg.Base.{
  ℕ, zero, suc, ◌+◌, ◌-◌, ◌%◌, ◌≤◌, ◌<◌, ◌≡◌, refl, ap, ◌∙◌, sym, Option, none, some, [], ◌∷◌, ◌++◌,
  append_assoc, arith, length, length-append, length-replicate, length-take, take, take_append,
  replicate, ltb, if◌then◌else◌,
}
use seckill_pkg.Encrypt.Bytes.{Bytes}

-- `blockSize - len%blockSize` copies of that number; `byte(padding)` keeps its low 8 bits.
unfoldable pub pkcs5_padding : Bytes → ℕ → Bytes
pkcs5_padding ciphertext block_size =
    let padding = block_size - length ciphertext % block_size in
    ciphertext ++ replicate padding (padding % 256)

-- The last byte; `none` is the panic on an empty slice.
abbrev pub last_byte : Bytes → Option ℕ
last_byte [] = none
last_byte (b ∷ []) = some b
last_byte (b ∷ c ∷ s) = last_byte (c ∷ s)

-- `none` is a panic: the slice is empty, or its last byte is above its length.
unfoldable pub pkcs5_un_padding : Bytes → Option Bytes
pkcs5_un_padding orig_data = elim (last_byte orig_data) [
  | none ↦ none
  | some unpadding ↦
      if ltb (length orig_data) unpadding
      then none
      else some (take (length orig_data - unpadding) orig_data)
]

-- The key, filled up with the character 0, cut to the size asked for.
unfoldable pub padding_key : Bytes → ℕ → Bytes
padding_key key block_size = take block_size (key ++ replicate (block_size - length key) b'0')

last_byte-append : (s t : Bytes) (b : ℕ) → last_byte t ≡ some b → last_byte (s ++ t) ≡ some b
last_byte-append [] t b h = h
last_byte-append (c ∷ []) [] b h = cc
last_byte-append (c ∷ []) (d ∷ t) b h = h
last_byte-append (c ∷ d ∷ s) t b h = last_byte-append (d ∷ s) t b h

last_byte-replicate : (n b : ℕ) → last_byte (replicate (suc n) b) ≡ some b
last_byte-replicate zero b = refl
last_byte-replicate (suc n) b = last_byte-replicate n b

padding_size : (len n : ℕ) → 0 < n → (0 < n - len % n) × (n - len % n ≤ n)
padding_size len n pos = (omega (arith, mod-lt len pos), omega arith)

take_minus : (s t : Bytes) → take (length (s ++ t) - length t) (s ++ t) ≡ s
take_minus s t =
    let e : length (s ++ t) - length t ≡ length s = omega (arith, length-append s t) in
    ap (λ k. take k (s ++ t)) e ∙ take_append s t

un_padding_of :
    (s : Bytes) (u : ℕ)
    → last_byte s ≡ some u
    → u ≤ length s
    → pkcs5_un_padding s ≡ some (take (length s - u) s)
unfolding pkcs5_un_padding
un_padding_of s u last fits = rw (last, pkcs5_un_padding) (ground arith)

un_pad :
    (s : Bytes) (p : ℕ) → 0 < p → p < 256 → pkcs5_un_padding (s ++ replicate p (p % 256)) ≡ some s
un_pad s zero pos small = absurd (omega arith)
un_pad s (suc p) pos small =
    let t : Bytes = replicate (suc p) (suc p % 256) in
    let byte : suc p % 256 ≡ length t = omega (arith, length-replicate (suc p) (suc p % 256)) in
    let last : last_byte (s ++ t) ≡ some (length t) =
      last_byte-append s t (suc p % 256) (last_byte-replicate p (suc p % 256)) ∙ ap some byte in
    un_padding_of (s ++ t) (length t) last (omega (arith, length-append s t))
    ∙ ap some (take_minus s t)

-- For a block size from 1 to 255, taking the padding off gives back the bytes that were padded.
pub un_padding-padding :
    (s : Bytes) (block_size : ℕ)
    → 0 < block_size
    → block_size < 256
    → pkcs5_un_padding (pkcs5_padding s block_size) ≡ some s
unfolding pkcs5_padding
un_padding-padding s n pos small =
    un_pad s (n - length s % n) ((padding_size (length s) n pos).0)
      (omega (arith, small, (padding_size (length s) n pos).1))

-- The same with bytes before the padded text.
pub un_padding-append :
    (x s : Bytes) (block_size : ℕ)
    → 0 < block_size
    → block_size < 256
    → pkcs5_un_padding (x ++ pkcs5_padding s block_size) ≡ some (x ++ s)
unfolding pkcs5_padding
un_padding-append x s n pos small =
    let p : ℕ = n - length s % n in
    ap pkcs5_un_padding (sym (append_assoc x s (replicate p (p % 256))))
    ∙ un_pad (x ++ s) p ((padding_size (length s) n pos).0)
        (omega (arith, small, (padding_size (length s) n pos).1))

padded_length : (s : Bytes) (n : ℕ) → length (pkcs5_padding s n) ≡ length s + (n - length s % n)
unfolding pkcs5_padding
padded_length s n =
    length-append s (replicate (n - length s % n) ((n - length s % n) % 256))
    ∙ ap (λ k. length s + k) (length-replicate (n - length s % n) ((n - length s % n) % 256))

-- A padded text is longer than the text by 1 to a whole block, and fills its blocks.
pub padding_blocks :
    (s : Bytes) (block_size : ℕ)
    → 0 < block_size
    → (length (pkcs5_padding s block_size) % block_size ≡ 0)
      × (length s < length (pkcs5_padding s block_size))
      × (length (pkcs5_padding s block_size) ≤ length s + block_size)
padding_blocks s n pos =
    let full : (length s % n + (n - length s % n)) ≡ n = omega (arith, mod-lt (length s) pos) in
    let fills : (length s + (n - length s % n)) % n ≡ 0 =
      sym (mod-add-mod (length s) n (n - length s % n)) ∙ ap (λ k. k % n) full ∙ mod_self n in
    let size = padding_size (length s) n pos in
    (
      ap (λ k. k % n) (padded_length s n) ∙ fills,
      omega (arith, padded_length s n, size.0),
      omega (arith, padded_length s n, size.1),
    )

take-take : (s t : Bytes) (n : ℕ) → take (length s) (take n (s ++ t)) ≡ take n s
take-take [] t zero = refl
take-take [] t (suc n) = refl
take-take (a ∷ s) t zero = refl
take-take (a ∷ s) t (suc n) = ap (λ r. a ∷ r) (take-take s t n)

-- A prepared key has the length asked for, and agrees with the given one as far as both go.
pub padding_key_lem :
    (key : Bytes) (n : ℕ)
    → (length (padding_key key n) ≡ n) × (take (length key) (padding_key key n) ≡ take n key)
unfolding padding_key
padding_key_lem key n =
    let zeros : Bytes = replicate (n - length key) b'0' in
    let whole : n ≤ length (key ++ zeros) =
      omega (arith, length-append key zeros, length-replicate {A = ℕ} (n - length key) b'0') in
    (length-take n (key ++ zeros) whole, take-take key zeros n)
