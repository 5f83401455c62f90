-- ===== src/Encrypt/RsaFiles.antt =====
-- rsa.go: the key files: writeRSAKeyPair, GenerateRSAFile, readRSAKeyPairFromFile, NewGoRSAFromFile. The
-- files are a map from names to contents; that a file cannot be made is a parameter.
pub mod ReadBack
use seckill_pkg.Base.{
  ℕ, zero, suc, ◌≡◌, ◌≢◌, refl, ap, sym, ◌∙◌, inl, inr, Bool, true, false, not, Option, none, some,
  [], ◌++◌, append-nil, if◌then◌else◌, ◌>>=◌, is_empty, eqb, length, drop, Text, codes, ◌==◌,
  ==_iff, Bool-cases,
}
use seckill_pkg.Base.Dict.{Dict, lookup, insert, lookup-insert, lookup-insert_self}
use seckill_pkg.Encrypt.Bytes.{Bytes, Out, ok, err}
use seckill_pkg.Encrypt.Rsa.{Parsed, rsa_key, new_go_rsa}

-- crypto/rsa, crypto/x509 and encoding/pem, as far as key files go.
pub record Keys (Pub Pri : Type 0) : Type 0 where
  pub generate_key : ℕ → Option Pri
  pub public_key : Pri → Pub
  pub marshal_private : Pri → Option Bytes
  pub marshal_public : Pub → Option Bytes
  pub parse_private : Bytes → Option (Parsed Pri)
  pub parse_public : Bytes → Option (Parsed Pub)
  pub pem_encode : Text → Bytes → Bytes
  pub pem_decode : Bytes → Option Bytes

-- What the documentation says: what was marshalled and encoded is decoded and parsed again.
pub record KeysDocumented {Pub Pri : Type 0} (keys : Keys Pub Pri) : Type 0 where
  pub pem_decode-pem_encode :
      (t : Text) (b : Bytes) → keys.pem_decode (keys.pem_encode t b) ≡ some b
  pub parse-marshal_private :
      (k : Pri) (b : Bytes)
      → keys.marshal_private k ≡ some b
      → keys.parse_private b ≡ some (rsa_key k)
  pub parse-marshal_public :
      (k : Pub) (b : Bytes)
      → keys.marshal_public k ≡ some b
      → keys.parse_public b ≡ some (rsa_key k)

-- The files by their names.
abbrev pub Files : Type 0
Files = Dict Bytes

abbrev pub contents : Option Bytes → Bytes
contents none = []
contents (some b) = b

-- A write at the start of an open file.
abbrev pub write_file : Text → Bytes → Files → Files
write_file name b fs = insert name (b ++ drop (length b) (contents (lookup name fs))) fs

abbrev pub default_name : Text → Text → Text
default_name default name = if is_empty name then default else name

-- readRSAKeyPairFromFile
unfoldable pub read_rsa_key_pair : Text → Text → Files → Option (Bytes × Bytes)
read_rsa_key_pair pub_name pri_name fs =
    lookup pub_name fs >>= (λ p. lookup pri_name fs >>= (λ q. some (p, q)))

module _ {Pub Pri : Type 0} (keys : Keys Pub Pri) where
  -- What writeRSAKeyPair writes: the private key first, then the public one. `none` is its error; a
  -- private key that was written stays there.
  abbrev pub public_written : Text → Files → Option Bytes → Files × Bool
  public_written name fs none = (fs, false)
  public_written name fs (some der) =
      (write_file name (keys.pem_encode (codes "PUBLIC KEY") der) fs, true)

  abbrev pub private_written : Text → Text → Files → Pri → Option Bytes → Files × Bool
  private_written pub_name pri_name fs k none = (fs, false)
  private_written pub_name pri_name fs k (some der) =
      public_written pub_name (write_file pri_name (keys.pem_encode (codes "PRIVATE KEY") der) fs)
        (keys.marshal_public (keys.public_key k))

  abbrev pub generated : Text → Text → Files → Option Pri → Files × Bool
  generated pub_name pri_name fs none = (fs, false)
  generated pub_name pri_name fs (some k) =
      private_written pub_name pri_name fs k (keys.marshal_private k)

  -- writeRSAKeyPair into the files of two names; the second component says whether it succeeded.
  unfoldable pub write_rsa_key_pair : Text → Text → ℕ → Files → Files × Bool
  write_rsa_key_pair pub_name pri_name key_length fs =
      generated pub_name pri_name fs (keys.generate_key key_length)

  -- GenerateRSAFile; `can_create` says whether os.Create makes a file of a name, which is empty then.
  unfoldable pub generate_rsa_file : (Text → Bool) → Text → Text → ℕ → Files → Files × Bool
  generate_rsa_file can_create pub_name pri_name key_length fs =
      let p = default_name (codes "id_rsa.pub") pub_name in
      let q = default_name (codes "id_rsa") pri_name in
      let n = if eqb key_length 0 then 1024 else key_length in
      if not (can_create p)
      then (fs, false)
      else if not (can_create q)
      then (insert p [] fs, false)
      else write_rsa_key_pair p q n (insert q [] (insert p [] fs))

  abbrev pub from_read : Option (Bytes × Bytes) → Out (Pub × Pri)
  from_read none = err
  from_read (some (p, q)) =
      new_go_rsa (keys.pem_decode) (keys.parse_public) (keys.parse_private) p q

  -- NewGoRSAFromFile
  unfoldable pub new_go_rsa_from_file : Text → Text → Files → Out (Pub × Pri)
  new_go_rsa_from_file pub_name pri_name fs = from_read (read_rsa_key_pair pub_name pri_name fs)
