-- ===== src/Kernel/SigningKey.antt =====
-- kernel/src/entity/signing_key.rs and kernel/src/crypto.rs: the keys that sign requests. The key
-- material and the cipher are crates, and parameters.
use Prim.Native.String.{String}
use emumet.Prelude.{ℕ, Option}
use emumet.Kernel.Error.{Result, ok, ◌>>=◌}
use emumet.Kernel.Event.{OffsetDateTime}
use emumet.Kernel.Account.{AccountId}

pub data SigningAlgorithm : Type 0 where
  rsa2048 ed25519 : SigningAlgorithm

-- `Display for SigningAlgorithm`
unfoldable pub display : SigningAlgorithm → String
display rsa2048 = "rsa2048"
display ed25519 = "ed25519"

pub record EncryptedPrivateKey : Type 0 where
  pub ciphertext : String
  pub nonce : String
  pub salt : String
  pub algorithm : SigningAlgorithm

pub record GeneratedKeyPair : Type 0 where
  pub public_key_pem : String
  pub encrypted_private_key : EncryptedPrivateKey

pub record RawKeyPair : Type 0 where
  pub public_key_pem : String
  pub private_key_pem : String
  pub algorithm : SigningAlgorithm

abbrev pub SigningKeyId : Type 0
SigningKeyId = ℕ

pub record SigningKey : Type 0 where
  pub id : SigningKeyId
  pub account_id : AccountId
  pub algorithm : SigningAlgorithm
  pub encrypted_private_key : EncryptedPrivateKey
  pub public_key_pem : String
  pub key_id_uri : String
  pub created_at : OffsetDateTime
  pub revoked_at : Option OffsetDateTime

-- what the crates answer: `PasswordProvider`, `RawKeyGenerator` and `KeyEncryptor`
pub record Cipher : Type 0 where
  pub get_password : Result String
  pub generate_raw : Result RawKeyPair
  -- the private key, the password and the algorithm
  pub encrypt : String → String → SigningAlgorithm → Result EncryptedPrivateKey
  pub decrypt : EncryptedPrivateKey → String → Result String

-- `SigningKeyGenerator::generate`
unfoldable pub generate : Cipher → String → Result GeneratedKeyPair
generate cipher password = do
  raw ← cipher.generate_raw
  encrypted ← cipher.encrypt raw.private_key_pem password raw.algorithm
  ok (record { public_key_pem = raw.public_key_pem; encrypted_private_key = encrypted })
