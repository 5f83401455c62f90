-- ===== src/Encrypt/AesRoundTrip.antt =====
-- aes.go: Decrypt after Encrypt, on an object configured as it was before Encrypt.
use seckill_pkg.Base.{
  ℕ, ◌<◌, ◌≡◌, ◌⊎◌, refl, ap, ◌∙◌, inl, inr, true, false, Option, some, [], ◌∷◌, ◌++◌, arith, All,
  All-append, length, length-append, is_empty, ltb, eqb, if◌then◌else◌, Text,
}
use seckill_pkg.Encrypt.Bytes.{Bytes, IsByte, Encoding, Out, ok}
use seckill_pkg.Encrypt.Blocks.{BlockCipher, IsBlock, Lawful, new_cipher, take_block, drop_block}
use seckill_pkg.Encrypt.Aes.{
  GoAes, ecb, ecb_encrypt, ecb_decrypt, cbc_encrypt, cbc_decrypt, ctr_encrypt, ctr_decrypt,
  or_encoding, init_config, switch_model, block_iv_encrypt, block_iv_decrypt, prepend_iv, encoded,
  or_empty, encrypt_started, encrypt_with_iv, decrypt_started, decrypt_with_iv, encrypt, decrypt,
  decrypt_bytes, encrypt_by_model, decrypt_by_model, decrypt_decoded,
}
use seckill_pkg.Encrypt.Modes.{Undone, ecb-Undone, cbc-Undone, ctr-Undone}

-- An iv that was set and is one block, or none.
abbrev pub IvReady : GoAes → Type 0
IvReady a = ((a.set_iv ≡ true) × IsBlock (a.iv)) ⊎ ((a.set_iv ≡ false) × (a.iv ≡ []))

-- What encoding/base64, base32 and hex document: DecodeString undoes EncodeToString.
abbrev pub Decodes : Encoding → Type 0
Decodes e = (s : Bytes) → All IsByte s → e.decode_string (e.encode_to_string s) ≡ some s

pub nonempty : (v : Bytes) → length v ≡ 16 → is_empty v ≡ false
nonempty [] h = absurd (omega arith)
nonempty (b ∷ v) h = refl

pub keep_iv :
    (b : GoAes) (fresh : Option Bytes) → is_empty (b.iv) ≡ false → block_iv_encrypt fresh b ≡ some b
unfolding block_iv_encrypt
keep_iv b fresh h = rw h refl

pub new_iv :
    (b : GoAes) (fresh : Bytes)
    → b.iv ≡ []
    → block_iv_encrypt (some fresh) b ≡ some (record b { iv = fresh })
unfolding block_iv_encrypt
new_iv b fresh h = rw h refl

cut_iv :
    (b : GoAes) (fresh t : Bytes)
    → b.iv ≡ []
    → length fresh ≡ 16
    → block_iv_decrypt b (fresh ++ t) ≡ some (t, fresh)
unfolding block_iv_decrypt
cut_iv b fresh t h len =
    let whole : ltb (length (fresh ++ t)) 16 ≡ false = ground (arith, length-append fresh t) in
    rw (h, whole, take_block fresh t len, drop_block fresh t len) refl

-- A mode with an iv that undoes itself for every iv of one block, with the iv of the object or the
-- fresh one.
module _ (b : GoAes) (fresh s : Bytes) (block : IsBlock fresh) (enc dec : GoAes → Bytes → Out Bytes)
    (undone : (v : Bytes)
      → IsBlock v
      → Undone (enc (record b { iv = v }) s) (dec (record b { iv = v })) s) where
  with_iv-Undone :
      IvReady b
      → Undone
          ((encrypt_with_iv (some fresh) b (λ d. enc d s)).1)
          (λ t. (decrypt_with_iv b t dec).1)
          s
  with_iv-Undone (inl (set, v)) =
      let (t, e, tb, d) = undone (b.iv) v in
      (
        t,
        ap (λ o. (encrypt_started b (λ x. enc x s) o).1)
              (keep_iv b (some fresh) (nonempty (b.iv) (v.0)))
            ∙ ap (prepend_iv b) e
            ∙ ap (λ x. ok (if x then t else b.iv ++ t)) set,
        tb,
        ap (λ x. (if x then (b, dec b t) else decrypt_started b dec (block_iv_decrypt b t)).1) set
            ∙ d,
      )
  with_iv-Undone (inr (unset, empty)) =
      let (t, e, tb, d) = undone fresh block in
      (
        fresh ++ t,
        ap (λ o. (encrypt_started b (λ x. enc x s) o).1) (new_iv b fresh empty)
            ∙ ap (prepend_iv (record b { iv = fresh })) e
            ∙ ap (λ x. ok (if x then t else fresh ++ t)) unset,
        All-append IsByte fresh t (block.1) tb,
        ap
              (λ x.
                (if x
                  then (b, dec b (fresh ++ t))
                  else decrypt_started b dec (block_iv_decrypt b (fresh ++ t))).1)
              unset
            ∙ ap (λ o. (decrypt_started b dec o).1) (cut_iv b fresh t empty (block.0))
            ∙ d,
      )

module _ {A : Type 0} (m : ℕ) (e b s other : A) where
  pub switch_ecb : m ≡ 1 → switch_model m e b s other ≡ e
  switch_ecb h = rw h refl

  pub switch_cbc : m ≡ 2 → switch_model m e b s other ≡ b
  switch_cbc h = rw h refl

  pub switch_ctr : m ≡ 3 → switch_model m e b s other ≡ s
  switch_ctr h = rw h refl

transfer :
    (x y : Out Bytes) (f g : Bytes → Out Bytes) (s : Bytes)
    → x ≡ y
    → ((t : Bytes) → f t ≡ g t)
    → Undone y g s
    → Undone x f s
transfer x y f g s e h (t, p, tb, q) = (t, e ∙ p, tb, h t ∙ q)

pub model_cases :
    (m : ℕ) → m < 4 → let k = if eqb m 0 then ecb else m in (k ≡ 1) ⊎ ((k ≡ 2) ⊎ (k ≡ 3))
model_cases m h = ground arith

module _ (c : BlockCipher) (b : GoAes) (fresh s : Bytes) (law : Lawful c (b.key))
    (legal : new_cipher (b.key) ≡ true) (ready : IvReady b) (block : IsBlock fresh)
    (bytes : All IsByte s) where
  by_model-Undone :
      ((b.model ≡ 1) ⊎ ((b.model ≡ 2) ⊎ (b.model ≡ 3)))
      → Undone ((encrypt_by_model c (some fresh) b s).1) (λ t. (decrypt_by_model c b t).1) s
  by_model-Undone (inl m) =
      transfer _ (ecb_encrypt c b s) _ (ecb_decrypt c b) s
        (ap (λ (r : GoAes × Out Bytes). r.1) (switch_ecb (b.model) _ _ _ _ m))
        (λ t. ap (λ (r : GoAes × Out Bytes). r.1) (switch_ecb (b.model) _ _ _ _ m))
        (ecb-Undone c b law legal s bytes)
  by_model-Undone (inr (inl m)) =
      transfer _ _ _ _ s (ap (λ (r : GoAes × Out Bytes). r.1) (switch_cbc (b.model) _ _ _ _ m))
        (λ t. ap (λ (r : GoAes × Out Bytes). r.1) (switch_cbc (b.model) _ _ _ _ m))
        (with_iv-Undone b fresh s block (cbc_encrypt c) (cbc_decrypt c)
          (λ v h. cbc-Undone c (record b { iv = v }) law legal s h bytes) ready)
  by_model-Undone (inr (inr m)) =
      transfer _ _ _ _ s (ap (λ (r : GoAes × Out Bytes). r.1) (switch_ctr (b.model) _ _ _ _ m))
        (λ t. ap (λ (r : GoAes × Out Bytes). r.1) (switch_ctr (b.model) _ _ _ _ m))
        (with_iv-Undone b fresh s block (ctr_encrypt c) (ctr_decrypt c)
          (λ v h. ctr-Undone c (record b { iv = v }) law legal s h bytes) ready)

-- With a key that aes.NewCipher takes, a model of the three or none, an iv of one block that
-- was set or no iv, and an encoding that undoes itself, under a lawful block cipher Encrypt
-- gives a text, and Decrypt on an object configured in the same way gives the plaintext back.
pub decrypt-encrypt :
    (c : BlockCipher) (base64 : Encoding) (fresh : Bytes) (a : GoAes) (plaintext : Bytes)
    → Lawful c (a.key)
    → new_cipher (a.key) ≡ true
    → a.model < 4
    → IvReady a
    → IsBlock fresh
    → Decodes (or_encoding base64 (a.encoder))
    → All IsByte plaintext
    → (text : Text) × ((encrypt c base64 (some fresh) a plaintext).1 ≡ ok text)
      × ((decrypt c base64 a text).1 ≡ ok plaintext)
unfolding encrypt decrypt decrypt_bytes
decrypt-encrypt c base64 fresh a s law legal m ready block dec bytes =
    let e : Encoding = or_encoding base64 (a.encoder) in
    let b : GoAes = init_config base64 a in
    let (t, p, tb, q) =
      by_model-Undone c b fresh s law legal ready block bytes (model_cases (a.model) m) in
    (
      e.encode_to_string t,
      ap (encoded e) p,
      ap (λ o. (decrypt_decoded c b o).1) (dec t tb) ∙ ap or_empty q,
    )
