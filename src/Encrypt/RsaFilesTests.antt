-- ===== src/Encrypt/RsaFilesTests.antt =====
-- A pair of keys that is written to files and read back; a key is a number, in one byte.
use seckill_pkg.Base.{
  ℕ, ◌≡◌, ◌≢◌, refl, ap, sym, true, Option, none, some, [], ◌∷◌, arith, some_inj, Text, codes,
}
use seckill_pkg.Encrypt.Bytes.{Bytes, ok}
use seckill_pkg.Encrypt.Rsa.{Parsed, rsa_key}
use seckill_pkg.Encrypt.RsaFiles.{
  Keys, KeysDocumented, Files, default_name, generate_rsa_file, new_go_rsa_from_file,
}
use seckill_pkg.Encrypt.RsaFiles.ReadBack.{new_go_rsa_from_file-generate_rsa_file}

abbrev one_byte : Bytes → Option (Parsed ℕ)
one_byte [] = none
one_byte (b ∷ bs) = some (rsa_key b)

abbrev plain_keys : Keys ℕ ℕ
plain_keys = record {
  generate_key = λ n. some n;
  public_key = λ k. k;
  marshal_private = λ k. some (k ∷ []);
  marshal_public = λ k. some (k ∷ []);
  parse_private = one_byte;
  parse_public = one_byte;
  pem_encode = λ t b. b;
  pem_decode = λ b. some b;
}

parsed_again : (k : ℕ) (b : Bytes) → some (k ∷ []) ≡ some b → one_byte b ≡ some (rsa_key k)
parsed_again k b e = ap one_byte (sym (some_inj e))

plain-KeysDocumented : KeysDocumented plain_keys
plain-KeysDocumented = record {
  pem_decode-pem_encode = λ t b. refl;
  parse-marshal_private = parsed_again;
  parse-marshal_public = parsed_again;
}

abbrev no_files : Files
no_files = []

abbrev no_name : Text
no_name = []

names_differ : default_name (codes "id_rsa.pub") no_name ≢ default_name (codes "id_rsa") no_name
names_differ e = ground (arith, e)

new_go_rsa_from_file-generate_rsa_file_example :
    let p = default_name (codes "id_rsa.pub") no_name in
    let q = default_name (codes "id_rsa") no_name in
    let r = generate_rsa_file plain_keys (λ name. true) no_name no_name 0 no_files in
    (r.1 ≡ true) × (new_go_rsa_from_file plain_keys p q (r.0) ≡ ok (1024, 1024))
new_go_rsa_from_file-generate_rsa_file_example =
    new_go_rsa_from_file-generate_rsa_file plain_keys (λ name. true) no_name no_name 0 no_files 1024
      (1024 ∷ []) (1024 ∷ []) plain-KeysDocumented names_differ refl refl refl refl refl
