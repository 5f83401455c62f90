-- ===== src/Encrypt/Blocks.antt =====
-- aes.go: the loops over 16-byte blocks of ECB and CBC, and the key stream of CTR.
-- The modes CBC and CTR are crypto/cipher's; the block cipher itself is a parameter.
use seckill_pkg.Base.{
  ℕ, zero, suc, ◌+◌, ◌*◌, ◌%◌, ◌≤◌, ◌≡◌, refl, ap, sym, subst, ◌∙◌, Bool, true, false, ◌||◌, Option,
  none, some, [], ◌∷◌, ◌++◌, arith, All, All-append, All-drop, All-take, length, length-append,
  length-take, length-drop, take, drop, take-append-drop, take_append, drop_append, is_empty, ltb,
  eqb, if◌then◌else◌, ◌>>=◌,
}
use seckill_pkg.Encrypt.Bytes.{Bytes, IsByte, xor_bytes}

-- crypto/cipher.Block: a key and one block.
pub record BlockCipher : Type 0 where
  pub encrypt_block : Bytes → Bytes → Bytes
  pub decrypt_block : Bytes → Bytes → Bytes

abbrev pub IsBlock : Bytes → Type 0
IsBlock b = (length b ≡ 16) × All IsByte b

-- What crypto/aes documents of a cipher under one key: blocks go to blocks, and Decrypt undoes
-- Encrypt.
pub record Lawful (c : BlockCipher) (key : Bytes) : Type 0 where
  pub encrypt_lem : (b : Bytes) → IsBlock b → IsBlock (c.encrypt_block key b)
  pub decrypt_lem : (b : Bytes) → IsBlock b → IsBlock (c.decrypt_block key b)
  pub inverse : (b : Bytes) → IsBlock b → c.decrypt_block key (c.encrypt_block key b) ≡ b

-- aes.NewCipher gives an error unless the key has 16, 24 or 32 bytes.
unfoldable pub new_cipher : Bytes → Bool
new_cipher key = eqb (length key) 16 || eqb (length key) 24 || eqb (length key) 32

-- `for i := 0; i < len(s); i += aes.BlockSize`, on fuel: each block goes through `step`, which also
-- passes a block on to the next turn. `none` is the panic when the last block is not whole.
unfoldable pub each_block : (Bytes → Bytes → Bytes × Bytes) → ℕ → Bytes → Bytes → Option Bytes
each_block step zero st s = if is_empty s then some [] else none
each_block step (suc n) st s =
    let out = step st (take 16 s) in
    let rest = each_block step n (out.0) (drop 16 s) in
    if is_empty s
    then some []
    else if ltb (length s) 16
    then none
    else (rest >>= (λ r. some (out.1 ++ r)))

abbrev pub ecb_step : (Bytes → Bytes) → Bytes → Bytes → Bytes × Bytes
ecb_step f st b = (st, f b)

-- cipher.NewCBCEncrypter and NewCBCDecrypter.
abbrev pub cbc_encrypt_step : (Bytes → Bytes) → Bytes → Bytes → Bytes × Bytes
cbc_encrypt_step f iv b = let c = f (xor_bytes b iv) in (c, c)

abbrev pub cbc_decrypt_step : (Bytes → Bytes) → Bytes → Bytes → Bytes × Bytes
cbc_decrypt_step f iv c = (c, xor_bytes (f c) iv)

-- The counter of cipher.NewCTR, big-endian: its successor, and whether the last byte overflowed.
abbrev pub carried : ℕ → Bytes × Bool → Bytes × Bool
carried b (t, true) = ((b + 1) % 256 ∷ t, eqb b 255)
carried b (t, false) = (b ∷ t, false)

abbrev pub increment : Bytes → Bytes × Bool
increment [] = ([], true)
increment (b ∷ s) = carried b (increment s)

-- The first `n` blocks of the key stream of cipher.NewCTR.
unfoldable pub key_stream : (Bytes → Bytes) → ℕ → Bytes → Bytes
key_stream f zero ctr = []
key_stream f (suc n) ctr = f ctr ++ key_stream f n ((increment ctr).0)

pub take_block : (b s : Bytes) → length b ≡ 16 → take 16 (b ++ s) ≡ b
take_block b s full = ap (λ k. take k (b ++ s)) (sym full) ∙ take_append b s

pub drop_block : (b s : Bytes) → length b ≡ 16 → drop 16 (b ++ s) ≡ s
drop_block b s full = ap (λ k. drop k (b ++ s)) (sym full) ∙ drop_append b s

pub not_empty : (b s : Bytes) → length b ≡ 16 → is_empty (b ++ s) ≡ false
not_empty [] s full = absurd (omega arith)
not_empty (x ∷ b) s full = refl

-- One turn with more fuel in the turns after it.
turn_more :
    (short : Bool) (x y : Option Bytes) (k : Bytes → Option Bytes) {r : Bytes}
    → ((z : Bytes) → x ≡ some z → y ≡ some z)
    → (if short then none else (x >>= k)) ≡ some r
    → (if short then none else (y >>= k)) ≡ some r
turn_more true x y k f h = h
turn_more false none y k f h = absurd (ground (arith, h))
turn_more false (some z) y k f h = rw (f z refl) h

-- One block taken off a text of whole blocks.
module _ (step : Bytes → Bytes → Bytes × Bytes) where
  pub each_block-cons :
      (n : ℕ) (st b s : Bytes) {r : Bytes}
      → length b ≡ 16
      → each_block step n ((step st b).0) s ≡ some r
      → each_block step (suc n) st (b ++ s) ≡ some ((step st b).1 ++ r)
  unfolding each_block
  each_block-cons n st b s full h =
      let whole : ltb (length (b ++ s)) 16 ≡ false = ground (arith, length-append b s) in
      rw (not_empty b s full, whole, take_block b s full, drop_block b s full, h, each_block) refl

  each_block-nil : (n : ℕ) (st : Bytes) → each_block step n st [] ≡ some []
  unfolding each_block
  each_block-nil zero st = refl
  each_block-nil (suc n) st = refl

  -- More fuel changes no result.
  pub each_block_more :
      (n : ℕ) (st s : Bytes) {r : Bytes}
      → each_block step n st s ≡ some r
      → each_block step (suc n) st s ≡ some r
  unfolding each_block
  each_block_more zero st [] h = h
  each_block_more zero st (x ∷ s) h = absurd (ground (arith, h))
  each_block_more (suc n) st [] h = h
  each_block_more (suc n) st (x ∷ s) h =
      let out = step st (take 16 (x ∷ s)) in
      turn_more (ltb (length (x ∷ s)) 16) (each_block step n (out.0) (drop 16 (x ∷ s)))
        (each_block step (suc n) (out.0) (drop 16 (x ∷ s))) (λ r. some (out.1 ++ r))
        (λ z e. each_block_more n (out.0) (drop 16 (x ∷ s)) e) h

  pub each_block_much_more :
      (k n : ℕ) (st s r : Bytes)
      → each_block step n st s ≡ some r
      → each_block step (k + n) st s ≡ some r
  each_block_much_more zero n st s r h =
      subst (λ i. each_block step i st s ≡ some r) (omega arith) h
  each_block_much_more (suc k) n st s r h =
      subst (λ i. each_block step i st s ≡ some r) (omega arith)
        (each_block_more (k + n) st s (each_block_much_more k n st s r h))

-- Decrypting undoes encrypting when each step of one undoes that of the other.
module _ (Good : Bytes → Type 0) (est dst : Bytes → Bytes → Bytes × Bytes)
    (good : (st b : Bytes) → Good st → IsBlock b → Good ((est st b).0) × IsBlock ((est st b).1))
    (undo : (st b : Bytes) → Good st → IsBlock b → dst st ((est st b).1) ≡ ((est st b).0, b)) where
  abbrev Undone : ℕ → Bytes → Bytes → Type 0
  Undone n st s =
      (c : Bytes) × (each_block est n st s ≡ some c)
      × (length c ≡ length s)
      × All IsByte c
      × (each_block dst n st c ≡ some s)

  Undone-cons :
      (n : ℕ) (st b s : Bytes)
      → Good st
      → IsBlock b
      → Undone n ((est st b).0) s
      → Undone (suc n) st (b ++ s)
  Undone-cons n st b s g whole (c, enc, len, bytes, dec) =
      let out = (good st b g whole).1 in
      let same = undo st b g whole in
      (
        (est st b).1 ++ c,
        each_block-cons est n st b s (whole.0) enc,
        omega (arith, length-append ((est st b).1) c, length-append b s, out.0, whole.0, len),
        All-append IsByte ((est st b).1) c (out.1) bytes,
        each_block-cons dst n st ((est st b).1) c (out.0)
              (subst (λ p. each_block dst n (p.0) c ≡ some s) (sym same) dec)
            ∙ ap (λ p. some (p.1 ++ s)) same,
      )

  pub each_block-Undone :
      (m n : ℕ) (st s : Bytes) → Good st → All IsByte s → length s ≡ 16 * m → m ≤ n → Undone n st s
  each_block-Undone m n st [] g bytes size fuel =
      ([], each_block-nil est n st, refl, tt, each_block-nil dst n st)
  each_block-Undone zero n st (x ∷ s) g bytes size fuel = absurd (omega arith)
  each_block-Undone (suc m) zero st (x ∷ s) g bytes size fuel = absurd (omega arith)
  each_block-Undone (suc m) (suc n) st (x ∷ s) g bytes size fuel =
      let b : Bytes = take 16 (x ∷ s) in
      let t : Bytes = drop 16 (x ∷ s) in
      let whole : IsBlock b =
        (length-take 16 (x ∷ s) (omega arith), All-take IsByte 16 (x ∷ s) bytes) in
      let left : length t ≡ 16 * m = omega (arith, length-drop 16 (x ∷ s)) in
      subst (Undone (suc n) st) (take-append-drop 16 (x ∷ s)) (
        Undone-cons n st b t g whole (
          each_block-Undone m n ((est st b).0) t ((good st b g whole).0)
            (All-drop IsByte 16 (x ∷ s) bytes) left (omega arith)))
