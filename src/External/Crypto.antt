-- ===== src/External/Crypto.antt =====
-- crypto/* of the Go library. A key has the type that the code tells apart by a type switch. Seal and
-- Open panic, which is `none`, unless the nonce has the length of the cipher.
use open_kmip_server.Common.{ℕ, String, Bool, ◌≡◌, ◌≢◌, Option, none, some, length}
use open_kmip_server.Common.Int.{ℤ}
use open_kmip_server.Common.Bytes.{Bytes}
use open_kmip_server.Common.Result.{Result, ok}

pub data Curve : Type 0 where
  p256 p384 p521 : Curve

-- What `x509.ParsePKCS8PrivateKey` and `x509.ParsePKIXPublicKey` return as an `any`.
pub data Key (R E : Type 0) : Type 0 where
  rsa_key : R → Key R E
  ecdsa_key : E → Key R E
  other_key : Key R E

pub record Crypto : Type 1 where
  pub Block : Type 0
  pub Aead : Type 0
  pub RsaPrivate : Type 0
  pub EcdsaPrivate : Type 0
  pub RsaPublic : Type 0
  pub EcdsaPublic : Type 0
  pub aes_new_cipher : Bytes → Result Block
  pub new_gcm : Block → Result Aead
  pub nonce_size : Aead → ℕ
  pub seal : Aead → Bytes → Bytes → Option Bytes
  pub unseal : Aead → Bytes → Bytes → Option (Result Bytes)
  pub rsa_generate : ℕ → ℤ → Result RsaPrivate
  pub ecdsa_generate : ℕ → Curve → Result EcdsaPrivate
  pub rsa_public : RsaPrivate → RsaPublic
  pub ecdsa_public : EcdsaPrivate → EcdsaPublic
  pub marshal_pkcs8 : Key RsaPrivate EcdsaPrivate → Result Bytes
  pub marshal_pkix : Key RsaPublic EcdsaPublic → Result Bytes
  pub parse_pkcs8 : Bytes → Result (Key RsaPrivate EcdsaPrivate)
  pub parse_pkix : Bytes → Result (Key RsaPublic EcdsaPublic)
  pub sha256 : Bytes → Bytes
  pub rsa_sign : ℕ → RsaPrivate → Bytes → Result Bytes
  pub ecdsa_sign : ℕ → EcdsaPrivate → Bytes → Result Bytes
  pub rsa_verify : RsaPublic → Bytes → Bytes → Option String
  pub ecdsa_verify : EcdsaPublic → Bytes → Bytes → Bool
  pub hmac_sha256 : Bytes → Bytes → Bytes

-- What crypto/cipher documents of an AEAD: with a nonce of its size neither call panics, and Open undoes
-- Seal.
pub record IsAead (c : Crypto) : Type 0 where
  pub seal_total :
      (a : c.Aead) (nonce plain : Bytes)
      → length nonce ≡ c.nonce_size a
      → c.seal a nonce plain ≢ none
  pub unseal_total :
      (a : c.Aead) (nonce sealed : Bytes)
      → length nonce ≡ c.nonce_size a
      → c.unseal a nonce sealed ≢ none
  pub unseal-seal :
      (a : c.Aead) (nonce plain : Bytes) {sealed : Bytes}
      → c.seal a nonce plain ≡ some sealed
      → c.unseal a nonce sealed ≡ some (ok plain)
