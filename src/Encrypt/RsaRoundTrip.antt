-- ===== src/Encrypt/RsaRoundTrip.antt =====
-- rsa.go: what split does with its chunks, and PrivateDecrypt after PublicEncrypt.
use seckill_pkg.Base.{
  ℕ, zero, suc, ◌+◌, ◌-◌, ◌/◌, ◌%◌, ◌≤◌, ◌<◌, ◌≡◌, refl, ap, sym, subst, ◌∙◌, inl, inr, true, false,
  Option, some, List, [], ◌∷◌, ◌++◌, arith, All, append-nil, length, length-append, length-take,
  length-drop, take, drop, take-append-drop, take_append, drop_append, is_empty, ltb, if◌then◌else◌,
  Bool-cases, pos,
}
use seckill_pkg.Encrypt.Bytes.{Bytes, ok}
use seckill_pkg.Encrypt.Rsa.{
  split_loop, split, part_len, each_chunk, or_err, over_chunks, public_encrypt, private_decrypt,
  concat,
}

abbrev last_chunk : Bytes → List Bytes
last_chunk buf = if is_empty buf then [] else (buf ∷ [])

split_loop-more :
    (n : ℕ) (buf : Bytes) (lim : ℕ)
    → lim ≤ length buf
    → split_loop (suc n) buf lim ≡ take lim buf ∷ split_loop n (drop lim buf) lim
unfolding split_loop
split_loop-more n buf lim h =
    let whole : ltb (length buf) lim ≡ false = ground arith in rw whole refl

split_loop-rest :
    (n : ℕ) (buf : Bytes) (lim : ℕ) → length buf < lim → split_loop (suc n) buf lim ≡ last_chunk buf
unfolding split_loop
split_loop-rest n buf lim h =
    let short : ltb (length buf) lim ≡ true = ground arith in rw short refl

abbrev Chunked : Bytes → ℕ → List Bytes → Type 0
Chunked buf lim chunks = (concat chunks ≡ buf) × All (λ c. length c ≤ lim) chunks

last_chunk_lem : (buf : Bytes) (lim : ℕ) → length buf ≤ lim → Chunked buf lim (last_chunk buf)
last_chunk_lem [] lim h = (refl, tt)
last_chunk_lem (b ∷ buf) lim h = (append-nil (b ∷ buf), (h, tt))

-- The chunks of a text in order are the text, and none is longer than the limit.
split_loop_lem :
    (n : ℕ) (buf : Bytes) (lim : ℕ)
    → 0 < lim
    → length buf ≤ n
    → Chunked buf lim (split_loop n buf lim)
unfolding split_loop
split_loop_lem zero [] lim h fuel = (refl, tt)
split_loop_lem zero (b ∷ buf) lim h fuel = absurd (omega arith)
split_loop_lem (suc n) buf lim h fuel = elim (Bool-cases (ltb (length buf) lim)) [
  | inl e ↦
      subst (Chunked buf lim) (sym (split_loop-rest n buf lim (ground (arith, e))))
        (last_chunk_lem buf lim (ground (arith, e)))
  | inr e ↦
      let whole : lim ≤ length buf = ground (arith, e) in
      let (joined, short) =
        split_loop_lem n (drop lim buf) lim h (omega (arith, length-drop lim buf)) in
      subst (Chunked buf lim) (sym (split_loop-more n buf lim whole)) (
        ap (λ r. take lim buf ++ r) joined ∙ take-append-drop lim buf,
        (omega (arith, length-take lim buf whole), short),
      )
]

-- What crypto/rsa documents of EncryptPKCS1v15 and DecryptPKCS1v15 for a modulus of k bytes: a message
-- of at most k - 11 bytes becomes k bytes, which decrypt to it.
abbrev pub Pkcs1 : ℕ → (ℕ → Bytes → Option Bytes) → (Bytes → Option Bytes) → Type 0
Pkcs1 k encrypt decrypt =
    (i : ℕ) (m : Bytes)
    → length m + 11 ≤ k
    → (c : Bytes) × (encrypt i m ≡ some c) × (length c ≡ k) × (decrypt c ≡ some m)

module _ (k : ℕ) (encrypt : ℕ → Bytes → Option Bytes) (decrypt : Bytes → Option Bytes)
    (law : Pkcs1 k encrypt decrypt) (large : 0 < k) where
  nothing_left : (n : ℕ) → split_loop n [] k ≡ []
  unfolding split_loop
  nothing_left zero = refl
  nothing_left (suc n) = split_loop-rest n [] k large

  abbrev Decrypted : Bytes → Bytes → Type 0
  Decrypted c m = (n j : ℕ) → length c ≤ n → each_chunk (λ _. decrypt) j (split_loop n c k) ≡ some m

  Decrypted-cons :
      (b c m r : Bytes)
      → length b ≡ k
      → decrypt b ≡ some m
      → Decrypted c r
      → Decrypted (b ++ c) (m ++ r)
  unfolding each_chunk
  Decrypted-cons b c m r full e h zero j fuel = absurd (omega (arith, length-append b c, fuel))
  Decrypted-cons b c m r full e h (suc n) j fuel =
      let size = length-append b c in
      let cut : take k (b ++ c) ≡ b = ap (λ i. take i (b ++ c)) (sym full) ∙ take_append b c in
      let left : drop k (b ++ c) ≡ c = ap (λ i. drop i (b ++ c)) (sym full) ∙ drop_append b c in
      let rest = h n (suc j) (omega (arith, size, fuel)) in
      ap (each_chunk (λ _. decrypt) j) (split_loop-more n (b ++ c) k (omega (arith, size)))
      ∙ rw (cut, left, e, rest) refl

  chunks_undone :
      (i : ℕ) (xs : List Bytes)
      → All (λ c. length c + 11 ≤ k) xs
      → (c : Bytes) × (each_chunk encrypt i xs ≡ some c) × Decrypted c (concat xs)
  unfolding each_chunk
  chunks_undone i [] h = ([], refl, λ n j _. ap (each_chunk (λ _. decrypt) j) (nothing_left n))
  chunks_undone i (m ∷ xs) (fits, h) =
      let (b, e, full, d) = law i m fits in
      let (c, es, ds) = chunks_undone (suc i) xs h in
      (b ++ c, rw (e, es) refl, Decrypted-cons b c m (concat xs) full d ds)

split-pos :
    (buf : Bytes) (lim : ℕ) → 0 < lim → split buf (pos lim) ≡ some (split_loop (length buf) buf lim)
unfolding split
split-pos buf zero h = absurd (omega arith)
split-pos buf (suc n) h = refl

part_len_lem : (bit_len : ℕ) → 11 ≤ bit_len / 8 → part_len bit_len ≡ pos (bit_len / 8 - 11)
unfolding part_len
part_len_lem bit_len h = let enough : ltb (bit_len / 8) 11 ≡ false = ground arith in rw enough refl

fits-All :
    (xs : List Bytes) (k : ℕ)
    → 11 ≤ k
    → All (λ c. length c ≤ k - 11) xs
    → All (λ c. length c + 11 ≤ k) xs
fits-All [] k big h = tt
fits-All (x ∷ xs) k big (p, h) = (omega arith, fits-All xs k big h)

-- For a modulus whose length in bits is a multiple of 8 and over 11 bytes, and with PKCS1v15 as
-- documented, PublicEncrypt gives a text for data of any length, and PrivateDecrypt gives the
-- data back.
pub private_decrypt-public_encrypt :
    (encrypt : ℕ → Bytes → Option Bytes) (decrypt : Bytes → Option Bytes) (bit_len : ℕ)
    (plain : Bytes)
    → Pkcs1 ((bit_len + 7) / 8) encrypt decrypt
    → bit_len % 8 ≡ 0
    → 88 < bit_len
    → (c : Bytes) × (public_encrypt encrypt bit_len plain ≡ ok c)
      × (private_decrypt decrypt bit_len c ≡ ok plain)
unfolding public_encrypt private_decrypt
private_decrypt-public_encrypt encrypt decrypt bit_len plain law whole large =
    let k : ℕ = bit_len / 8 in
    let bytes : (bit_len + 7) / 8 ≡ k = omega arith in
    let laws : Pkcs1 k encrypt decrypt = subst (λ i. Pkcs1 i encrypt decrypt) bytes law in
    let lim_pos : 0 < k - 11 = omega arith in
    let (joined, short) = split_loop_lem (length plain) plain (k - 11) lim_pos (omega arith) in
    let chunks = split_loop (length plain) plain (k - 11) in
    let (c, e, d) =
      chunks_undone k encrypt decrypt laws (omega arith) 0 chunks
        (fits-All chunks k (omega arith) short) in
    (
      c,
      ap (λ l. over_chunks encrypt (split plain l)) (part_len_lem bit_len (omega arith))
          ∙ ap (over_chunks encrypt) (split-pos plain (k - 11) lim_pos)
          ∙ ap or_err e,
      ap (over_chunks (λ _. decrypt)) (split-pos c k (omega arith))
          ∙ ap or_err (d (length c) 0 (omega arith) ∙ ap some joined),
    )
