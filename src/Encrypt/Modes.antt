-- ===== src/Encrypt/Modes.antt =====
-- aes.go: that ECB, CBC and CTR each undo themselves under a lawful block cipher.
use seckill_pkg.Base.{
  ℕ, zero, suc, ◌-◌, ◌*◌, ◌/◌, ◌%◌, ◌<◌, ◌≡◌, refl, ap, ◌∙◌, Bool, true, false, Option, some, [],
  ◌∷◌, arith, All, All-append, length, length-append, replicate, eqb, if◌then◌else◌, ◌>>=◌,
}
use seckill_pkg.Encrypt.Bytes.{
  Bytes, IsByte, Out, ok, panic, xor_bytes, xor_bytes-All, xor_bytes_twice, length-xor_bytes,
}
use seckill_pkg.Encrypt.Padding.{
  pkcs5_padding, pkcs5_un_padding, padding_blocks, un_padding-padding,
}
use seckill_pkg.Encrypt.Blocks.{
  BlockCipher, IsBlock, Lawful, new_cipher, each_block, ecb_step, cbc_encrypt_step,
  cbc_decrypt_step, key_stream, increment, carried, each_block-Undone,
}
use seckill_pkg.Encrypt.Aes.{
  GoAes, ecb_encrypt, ecb_decrypt, cbc_encrypt, cbc_decrypt, ctr_encrypt, ctr_decrypt, with_cipher,
  or_panic, block_size,
}

All-replicate : (n b : ℕ) → b < 256 → All IsByte (replicate n b)
All-replicate zero b h = tt
All-replicate (suc n) b h = (h, All-replicate n b h)

pub padding-All : (s : Bytes) → All IsByte s → All IsByte (pkcs5_padding s 16)
unfolding pkcs5_padding
padding-All s h =
    All-append IsByte s (replicate (16 - length s % 16) ((16 - length s % 16) % 256)) h
      (All-replicate (16 - length s % 16) ((16 - length s % 16) % 256) (omega arith))

whole_blocks : (s : Bytes) → length s % 16 ≡ 0 → length s ≡ 16 * (length s / 16)
whole_blocks s h = omega arith

pub fills : (s : Bytes) → length (pkcs5_padding s 16) % 16 ≡ 0
fills s = (padding_blocks s 16 (omega arith)).0

-- A mode that gives a text which it turns back into the plain one.
abbrev pub Undone : Out Bytes → (Bytes → Out Bytes) → Bytes → Type 0
Undone enc dec s = (t : Bytes) × (enc ≡ ok t) × All IsByte t × (dec t ≡ ok s)

undone_padding :
    (enc dec : Bytes → Option Bytes) (s t : Bytes)
    → enc (pkcs5_padding s 16) ≡ some t
    → dec t ≡ some (pkcs5_padding s 16)
    → (or_panic (enc (pkcs5_padding s 16)) ≡ ok t)
      × (or_panic (dec t >>= (λ plain. pkcs5_un_padding plain)) ≡ ok s)
undone_padding enc dec s t e d =
    (ap or_panic e, rw (d, un_padding-padding s 16 (omega arith) (omega arith)) refl)

pub with_cipher_lem : (key : Bytes) (r : Out Bytes) → new_cipher key ≡ true → with_cipher key r ≡ r
with_cipher_lem key r h = rw h refl

-- The loop with `est` gives blocks that the loop with `dst` turns back.
abbrev pub Blocks :
    (Bytes → Bytes → Bytes × Bytes) → (Bytes → Bytes → Bytes × Bytes) → Bytes → Bytes → Type 0
Blocks est dst st s =
    (t : Bytes) × (each_block est (length s) st s ≡ some t)
    × (length t ≡ length s)
    × All IsByte t
    × (each_block dst (length t) st t ≡ some s)

module _ (Good : Bytes → Type 0) (est dst : Bytes → Bytes → Bytes × Bytes)
    (good : (st b : Bytes) → Good st → IsBlock b → Good ((est st b).0) × IsBlock ((est st b).1))
    (undo : (st b : Bytes) → Good st → IsBlock b → dst st ((est st b).1) ≡ ((est st b).0, b)) where
  Blocks-undone : (st s : Bytes) → Good st → All IsByte s → length s % 16 ≡ 0 → Blocks est dst st s
  Blocks-undone st s g bytes whole =
      let (t, e, len, tb, d) =
        each_block-Undone Good est dst good undo (length s / 16) (length s) st s g bytes
          (whole_blocks s whole) (omega arith) in
      (t, e, len, tb, ap (λ n. each_block dst n st t) len ∙ d)

carried_lem :
    (b : ℕ) (r : Bytes × Bool)
    → b < 256
    → All IsByte (r.0)
    → (length ((carried b r).0) ≡ suc (length (r.0))) × All IsByte ((carried b r).0)
carried_lem b (t, true) h k = (refl, (omega arith, k))
carried_lem b (t, false) h k = (refl, (h, k))

increment_lem :
    (s : Bytes)
    → All IsByte s
    → (length ((increment s).0) ≡ length s) × All IsByte ((increment s).0)
increment_lem [] h = (refl, tt)
increment_lem (b ∷ s) (h, k) =
    let (len, bytes) = increment_lem s k in
    let r = carried_lem b (increment s) h bytes in (r.0 ∙ ap suc len, r.1)

module _ (c : BlockCipher) (key : Bytes) (law : Lawful c key) where
  ecb-Blocks :
      (s : Bytes)
      → All IsByte s
      → length s % 16 ≡ 0
      → Blocks (ecb_step (c.encrypt_block key)) (ecb_step (c.decrypt_block key)) [] s
  ecb-Blocks s bytes whole =
      Blocks-undone (λ st. Unit) (ecb_step (c.encrypt_block key)) (ecb_step (c.decrypt_block key))
        (λ st b _ h. (tt, law.encrypt_lem b h)) (λ st b _ h. ap (λ x. (st, x)) (law.inverse b h)) []
        s tt bytes whole

  xor-IsBlock : (b iv : Bytes) → IsBlock b → IsBlock iv → IsBlock (xor_bytes b iv)
  xor-IsBlock b iv (len, bytes) (iv_len, iv_bytes) =
      (length-xor_bytes b iv (omega arith) ∙ len, xor_bytes-All b iv bytes iv_bytes)

  pub cbc-Blocks :
      (iv s : Bytes)
      → IsBlock iv
      → All IsByte s
      → length s % 16 ≡ 0
      → Blocks
          (cbc_encrypt_step (c.encrypt_block key))
          (cbc_decrypt_step (c.decrypt_block key))
          iv
          s
  cbc-Blocks iv s =
      Blocks-undone IsBlock (cbc_encrypt_step (c.encrypt_block key))
        (cbc_decrypt_step (c.decrypt_block key))
        (λ st b g h. let r = law.encrypt_lem (xor_bytes b st) (xor-IsBlock b st h g) in (r, r))
        (λ st b g h.
          ap (λ x. (c.encrypt_block key (xor_bytes b st), x))
            (ap (λ x. xor_bytes x st) (law.inverse (xor_bytes b st) (xor-IsBlock b st h g))
              ∙ xor_bytes_twice b st (h.1) (g.1) (omega (arith, h.0, g.0))))
        iv s

  key_stream_lem :
      (n : ℕ) (v : Bytes)
      → IsBlock v
      → (length (key_stream (c.encrypt_block key) n v) ≡ 16 * n)
        × All IsByte (key_stream (c.encrypt_block key) n v)
  unfolding key_stream
  key_stream_lem zero v h = (omega arith, tt)
  key_stream_lem (suc n) v h =
      let next = increment_lem v (h.1) in
      let (len, bytes) = key_stream_lem n ((increment v).0) (next.0 ∙ h.0, next.1) in
      let first = law.encrypt_lem v h in
      let rest : Bytes = key_stream (c.encrypt_block key) n ((increment v).0) in
      (
        omega (arith, length-append (c.encrypt_block key v) rest, len, first.0),
        All-append IsByte (c.encrypt_block key v) rest (first.1) bytes,
      )

module _ (c : BlockCipher) (a : GoAes) (law : Lawful c (a.key))
    (legal : new_cipher (a.key) ≡ true) where
  pub iv_lem :
      (v : Bytes)
      → length v ≡ 16
      → (r : Out Bytes) → with_cipher (a.key) (if eqb (length v) block_size then r else panic) ≡ r
  iv_lem v h r = with_cipher_lem (a.key) _ legal ∙ rw h refl

  pub ecb-Undone : (s : Bytes) → All IsByte s → Undone (ecb_encrypt c a s) (ecb_decrypt c a) s
  unfolding ecb_encrypt ecb_decrypt
  ecb-Undone s h =
      let (t, e, len, tb, d) =
        ecb-Blocks c (a.key) law (pkcs5_padding s 16) (padding-All s h) (fills s) in
      let r =
        undone_padding (λ p. each_block (ecb_step (c.encrypt_block (a.key))) (length p) [] p)
          (λ p. each_block (ecb_step (c.decrypt_block (a.key))) (length p) [] p) s t e d in
      (t, with_cipher_lem (a.key) _ legal ∙ r.0, tb, with_cipher_lem (a.key) _ legal ∙ r.1)

  pub cbc-Undone :
      (s : Bytes) → IsBlock (a.iv) → All IsByte s → Undone (cbc_encrypt c a s) (cbc_decrypt c a) s
  unfolding cbc_encrypt cbc_decrypt
  cbc-Undone s v h =
      let (t, e, len, tb, d) =
        cbc-Blocks c (a.key) law (a.iv) (pkcs5_padding s 16) v (padding-All s h) (fills s) in
      let r =
        undone_padding
          (λ p. each_block (cbc_encrypt_step (c.encrypt_block (a.key))) (length p) (a.iv) p)
          (λ p. each_block (cbc_decrypt_step (c.decrypt_block (a.key))) (length p) (a.iv) p) s t e
          d in
      (t, iv_lem (a.iv) (v.0) _ ∙ r.0, tb, iv_lem (a.iv) (v.0) _ ∙ r.1)

  pub ctr-Undone :
      (s : Bytes) → IsBlock (a.iv) → All IsByte s → Undone (ctr_encrypt c a s) (ctr_decrypt c a) s
  unfolding ctr_encrypt ctr_decrypt
  ctr-Undone s v h =
      let (len, kb) = key_stream_lem c (a.key) law (length s) (a.iv) v in
      let k : Bytes = key_stream (c.encrypt_block (a.key)) (length s) (a.iv) in
      let same : length (xor_bytes s k) ≡ length s = length-xor_bytes s k (omega arith) in
      (
        xor_bytes s k,
        iv_lem (a.iv) (v.0) _,
        xor_bytes-All s k h kb,
        iv_lem (a.iv) (v.0) _
            ∙ ap
                (λ n.
                  ok (xor_bytes (xor_bytes s k) (key_stream (c.encrypt_block (a.key)) n (a.iv))))
                same
            ∙ ap ok (xor_bytes_twice s k h kb (omega arith)),
      )
