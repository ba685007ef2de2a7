-- ===== src/External/Formats.antt =====
-- The encodings that internal/api/api.go uses, and ChaCha20-Poly1305 of golang.org/x/crypto.
use open_kmip_server.Common.{ℕ, String, ◌≡◌, Option, some}
use open_kmip_server.Common.Int.{ℤ}
use open_kmip_server.Common.Bytes.{Bytes}
use open_kmip_server.Common.Result.{Result}
use open_kmip_server.External.Crypto.{Crypto}

-- What the program reads of an *x509.Certificate.
pub record Certificate : Type 0 where
  pub common_name : String
  pub subject : String
  pub issuer : String
  pub not_after : ℕ

pub record Formats (c : Crypto) : Type 0 where
  -- base64.StdEncoding, encoding/hex
  pub base64_encode : Bytes → String
  pub base64_decode : String → Option Bytes
  pub hex_encode : Bytes → String
  pub hex_decode : String → Option Bytes
  -- strings.ToLower, strings.ToUpper, strconv.Atoi, t.Format(time.RFC3339)
  pub to_lower : String → String
  pub to_upper : String → String
  pub atoi : String → Option ℤ
  pub format_rfc3339 : ℕ → String
  -- how json.Marshal writes a time
  pub json_time : ℕ → String
  -- pem.Decode: the type and the bytes of the first block
  pub pem_decode : Bytes → Option (String × Bytes)
  pub parse_certificate : Bytes → Result Certificate
  pub chacha20poly1305_new : Bytes → Result c.Aead

-- What the encodings document: decoding undoes encoding.
pub record IsFormats {c : Crypto} (f : Formats c) : Type 0 where
  pub base64_decode-base64_encode : (bs : Bytes) → f.base64_decode (f.base64_encode bs) ≡ some bs
  pub hex_decode-hex_encode : (bs : Bytes) → f.hex_decode (f.hex_encode bs) ≡ some bs
