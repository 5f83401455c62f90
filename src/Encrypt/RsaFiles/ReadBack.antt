-- ===== src/Encrypt/RsaFiles/ReadBack.antt =====
-- rsa.go: a pair of keys that is generated into files is read back.
use seckill_pkg.Base.{
  ℕ, zero, suc, ◌≡◌, ◌≢◌, refl, ap, sym, ◌∙◌, inl, inr, Bool, true, false, not, Option, some, [],
  ◌++◌, append-nil, if◌then◌else◌, ◌>>=◌, eqb, length, drop, Text, codes, ◌==◌, ==_iff, Bool-cases,
}
use seckill_pkg.Base.Dict.{lookup, insert, lookup-insert, lookup-insert_self}
use seckill_pkg.Encrypt.Bytes.{Bytes, ok}
use seckill_pkg.Encrypt.Rsa.{new_go_rsa}
use seckill_pkg.Encrypt.RsaFiles.{
  Keys, KeysDocumented, Files, contents, write_file, default_name, public_written, private_written,
  generated, write_rsa_key_pair, generate_rsa_file, read_rsa_key_pair, from_read,
  new_go_rsa_from_file,
}

module _ {Pub Pri : Type 0} (keys : Keys Pub Pri) where
  -- Writing to a file that was just created.
  lookup-written :
      (name : Text) (b : Bytes) (fs : Files)
      → lookup name fs ≡ some []
      → lookup name (write_file name b fs) ≡ some b
  lookup-written name b fs fresh =
      lookup-insert_self name (b ++ drop (length b) (contents (lookup name fs))) fs
      ∙ ap (λ (o : Option Bytes). some (b ++ drop (length b) (contents o))) fresh
      ∙ ap (λ (x : Bytes). some (b ++ x)) (drop-nil (length b))
      ∙ ap some (append-nil b)
    where
      drop-nil : (n : ℕ) → drop {A = ℕ} n [] ≡ []
      drop-nil zero = refl
      drop-nil (suc n) = refl

  lookup-written_other :
      (name other : Text) (b : Bytes) (fs : Files)
      → name ≢ other
      → lookup other (write_file name b fs) ≡ lookup other fs
  lookup-written_other name other b fs differ =
      lookup-insert name other (b ++ drop (length b) (contents (lookup name fs))) fs
      ∙ ap
          (λ x.
            if x then some (b ++ drop (length b) (contents (lookup name fs))) else lookup other fs)
          (distinct name other differ)
    where
      distinct : (s t : Text) → s ≢ t → (s == t) ≡ false
      distinct s t differ = elim (Bool-cases (s == t)) [
        | inl e ↦ absurd (differ ((==_iff s t).0 e))
        | inr e ↦ e
      ]

  -- The files after both were created.
  abbrev created : Text → Text → Files → Files
  created p q fs = insert q [] (insert p [] fs)

  -- The files after both keys were written.
  abbrev written : Text → Text → Bytes → Bytes → Files → Files
  written p q pub_pem pri_pem fs = write_file p pub_pem (write_file q pri_pem (created p q fs))

  read-written :
      (p q : Text) (pub_pem pri_pem : Bytes) (fs : Files)
      → p ≢ q
      → read_rsa_key_pair p q (written p q pub_pem pri_pem fs) ≡ some (pub_pem, pri_pem)
  unfolding read_rsa_key_pair
  read-written p q pub_pem pri_pem fs differ =
      let other : q ≢ p = λ e. differ (sym e) in
      let made = created p q fs in
      let fresh_p : lookup p (write_file q pri_pem made) ≡ some [] =
        lookup-written_other q p pri_pem made other
        ∙ lookup-created_other p q fs other
        ∙ lookup-insert_self p [] fs in
      let is_p : lookup p (written p q pub_pem pri_pem fs) ≡ some pub_pem =
        lookup-written p pub_pem (write_file q pri_pem made) fresh_p in
      let is_q : lookup q (written p q pub_pem pri_pem fs) ≡ some pri_pem =
        lookup-written_other p q pub_pem (write_file q pri_pem made) differ
        ∙ lookup-written q pri_pem made (lookup-insert_self q [] (insert p [] fs)) in
      ap
        (λ (o : Option Bytes).
          o >>= (λ a. lookup q (written p q pub_pem pri_pem fs) >>= (λ b. some (a, b))))
        is_p
      ∙ ap (λ (o : Option Bytes). o >>= (λ b. some (pub_pem, b))) is_q
    where
      lookup-created_other :
          (p q : Text) (fs : Files)
          → q ≢ p
          → lookup p (insert q [] (insert p [] fs)) ≡ lookup p (insert p [] fs)
      lookup-created_other p q fs differ =
          lookup-insert q p [] (insert p [] fs) ∙ elim (Bool-cases (q == p)) [
            | inl e ↦ absurd (differ ((==_iff q p).0 e))
            | inr e ↦ ap (λ x. if x then some [] else lookup p (insert p [] fs)) e
          ]

  -- When GenerateRSAFile can create both files, under names that differ, and the library makes
  -- and encodes a pair of keys as it documents, NewGoRSAFromFile reads the same pair back from
  -- the two files; empty names stand for id_rsa.pub and id_rsa, and a length of 0 for 1024.
  pub new_go_rsa_from_file-generate_rsa_file :
      (can_create : Text → Bool) (pub_name pri_name : Text) (key_length : ℕ) (fs : Files) (k : Pri)
      (der_pri der_pub : Bytes)
      → KeysDocumented keys
      → default_name (codes "id_rsa.pub") pub_name ≢ default_name (codes "id_rsa") pri_name
      → can_create (default_name (codes "id_rsa.pub") pub_name) ≡ true
      → can_create (default_name (codes "id_rsa") pri_name) ≡ true
      → keys.generate_key (if eqb key_length 0 then 1024 else key_length) ≡ some k
      → keys.marshal_private k ≡ some der_pri
      → keys.marshal_public (keys.public_key k) ≡ some der_pub
      → let p = default_name (codes "id_rsa.pub") pub_name in
        let q = default_name (codes "id_rsa") pri_name in
        let r = generate_rsa_file keys can_create pub_name pri_name key_length fs in
        (r.1 ≡ true) × (new_go_rsa_from_file keys p q (r.0) ≡ ok (keys.public_key k, k))
  unfolding generate_rsa_file write_rsa_key_pair new_go_rsa_from_file new_go_rsa
  new_go_rsa_from_file-generate_rsa_file can_create pub_name pri_name key_length fs k der_pri
        der_pub doc differ make_p make_q make_key is_pri is_pub =
      let p = default_name (codes "id_rsa.pub") pub_name in
      let q = default_name (codes "id_rsa") pri_name in
      let n = if eqb key_length 0 then 1024 else key_length in
      let made = created p q fs in
      let pub_pem = keys.pem_encode (codes "PUBLIC KEY") der_pub in
      let pri_pem = keys.pem_encode (codes "PRIVATE KEY") der_pri in
      let run : generate_rsa_file keys can_create pub_name pri_name key_length fs
          ≡ (written p q pub_pem pri_pem fs, true) =
        ap
          (λ b.
            if not b
            then (fs, false)
            else if not (can_create q)
            then (insert p [] fs, false)
            else generated keys p q made (keys.generate_key n))
          make_p
        ∙ ap
            (λ b.
              if not b
              then (insert p [] fs, false)
              else generated keys p q made (keys.generate_key n))
            make_q
        ∙ ap (generated keys p q made) make_key
        ∙ ap (private_written keys p q made k) is_pri
        ∙ ap (public_written keys p (write_file q pri_pem made)) is_pub in
      (
        ap (λ (r : Files × Bool). r.1) run,
        ap (λ (r : Files × Bool). from_read keys (read_rsa_key_pair p q (r.0))) run
            ∙ ap (from_read keys) (read-written p q pub_pem pri_pem fs differ)
            ∙ rw
                (
                  doc.pem_decode-pem_encode (codes "PUBLIC KEY") der_pub,
                  doc.parse-marshal_public (keys.public_key k) der_pub is_pub,
                  doc.pem_decode-pem_encode (codes "PRIVATE KEY") der_pri,
                  doc.parse-marshal_private k der_pri is_pri,
                )
                refl,
      )
