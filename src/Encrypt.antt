-- ===== src/Encrypt.antt =====
-- pkg/encrypt: AES and RSA with padding, modes and encodings (aes.go, rsa.go, encode.go, hash.go).
-- A []byte is a list of numbers below 256. The block cipher, RSA and the hash functions are
-- parameters of the definitions that use them.
mod Bytes
pub mod Padding
pub mod Blocks
pub mod Modes
pub mod Aes
pub mod AesRoundTrip
pub mod AesErrors
pub mod Rsa
pub mod RsaRoundTrip
pub mod RsaFiles
mod RsaFilesTests
pub mod Hex
mod Tests
pub use Bytes.*
