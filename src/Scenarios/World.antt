-- ===== src/Scenarios/World.antt =====
-- A machine, a TTLV library and a cipher that keep the laws assumed of them.
use Prim.Native.String.{len}
use text.Mathlib.TextPositions.{len-append}
use open_kmip_server.Audit.{Logger}
use open_kmip_server.Common.{
  ℕ, zero, suc, String, ◌≡◌, refl, ap, Option, none, some, List, [], ◌∷◌, arith, length, replicate,
  length-replicate, ◌==◌, if◌then◌else◌, true,
}
use open_kmip_server.Common.Int.{ℤ, pos}
use open_kmip_server.Common.Text.{cat}
use open_kmip_server.Common.Result.{Result, ok}
use open_kmip_server.Common.Bytes.{Bytes, Slice}
use open_kmip_server.External.Machine.{Machine, IsSound}
use open_kmip_server.External.Kmiplib.{Kmiplib, Names}
use open_kmip_server.External.Crypto.{Crypto, other_key, IsAead}
use open_kmip_server.External.Libraries.{Libraries}

-- The identifier of moment n is n strokes.
unfoldable pub strokes : ℕ → String
strokes zero = ""
strokes (suc n) = cat "u" (strokes n)

pub len-strokes : (n : ℕ) → len (strokes n) ≡ n
unfolding strokes
len-strokes zero = refl
len-strokes (suc n) = omega (arith, len-append "u" (strokes n), len-strokes n)

abbrev pub machine : Machine
machine = record {
  new_uuid = strokes;
  now = λ n. n;
  rand_bytes = λ n k. replicate k 7;
  rand_error = λ n k. none;
  map_order = λ n ks. ks;
  hkdf = λ secret salt info n. ok (replicate n 9);
}

hkdf_length :
    (n : ℕ) {bs : Bytes} → ◌≡◌ {A = Result Bytes} (ok (replicate n 9)) (ok bs) → length bs ≡ n
hkdf_length n h = ground (arith, length-replicate {A = ℕ} n 9)

pub machine-IsSound : IsSound machine
machine-IsSound = record {
  uuid_unique = λ i j h. omega (arith, len-strokes i, len-strokes j, ap len h);
  length-rand_bytes = λ i n. length-replicate {A = ℕ} n 7;
  mem-map_order = λ i ks k. (λ m. m, λ m. m);
  length-hkdf = λ secret salt info n h. hkdf_length n h;
}

mutual
  pub data Tree : Type 0 where
    number : ℕ → ℤ → Tree
    words : ℕ → String → Tree
    bytes : ℕ → Slice → Tree
    structure : ℕ → Forest → Tree

  pub data Forest : Type 0 where
    leaf : Forest
    branch : Tree → Forest → Forest

abbrev pub tag_of : Tree → ℕ
tag_of (number t n) = t
tag_of (words t s) = t
tag_of (bytes t bs) = t
tag_of (structure t f) = t

abbrev pub forest_of : List Tree → Forest
forest_of [] = leaf
forest_of (x ∷ xs) = branch x (forest_of xs)

abbrev pub all_in : Forest → ℕ → List Tree
all_in leaf t = []
all_in (branch x f) t = let rest = all_in f t in if tag_of x == t then x ∷ rest else rest

abbrev pub children : Tree → ℕ → List Tree
children (structure t f) k = all_in f k
children _ k = []

abbrev pub first : List Tree → Option Tree
first [] = none
first (x ∷ xs) = some x

abbrev pub number_in : Tree → ℤ
number_in (number t n) = n
number_in _ = pos 0

abbrev pub text_in : Tree → String
text_in (words t s) = s
text_in _ = ""

abbrev pub bytes_in : Tree → Slice
bytes_in (bytes t bs) = bs
bytes_in _ = none

abbrev pub names : Names
names = record {
  tag_request_message = 0x420078;
  tag_request_header = 0x420077;
  tag_request_payload = 0x420079;
  tag_response_message = 0x42007B;
  tag_response_header = 0x42007A;
  tag_response_payload = 0x42007C;
  tag_protocol_version = 0x420069;
  tag_protocol_version_major = 0x42006A;
  tag_protocol_version_minor = 0x42006B;
  tag_batch_count = 0x42000D;
  tag_batch_item = 0x42000F;
  tag_operation = 0x42005C;
  tag_result_status = 0x42007F;
  tag_result_reason = 0x42007E;
  tag_result_message = 0x42007D;
  tag_unique_identifier = 0x420094;
  tag_template_attribute = 0x420091;
  tag_attribute = 0x420008;
  tag_attribute_name = 0x42000A;
  tag_attribute_value = 0x42000B;
  tag_name_value = 0x420055;
  tag_name_type = 0x420054;
  tag_object_type = 0x420057;
  tag_symmetric_key = 0x42008F;
  tag_key_block = 0x420040;
  tag_key_format_type = 0x420042;
  tag_key_value = 0x420045;
  tag_key_material = 0x420043;
  tag_cryptographic_algorithm = 0x420028;
  tag_cryptographic_length = 0x42002A;
  tag_derivation_parameters = 0x420032;
  tag_derivation_data = 0x420030;
  tag_lease_time = 0x420049;
  operation_create = 0x1;
  operation_get = 0xA;
  operation_locate = 0x8;
  operation_destroy = 0x14;
  operation_activate = 0x12;
  operation_check = 0x9;
  algorithm_aes = 3;
  algorithm_rsa = 4;
  algorithm_ecdsa = 6;
  object_type_certificate = 1;
  object_type_symmetric_key = 2;
  object_type_public_key = 3;
  object_type_private_key = 4;
  key_format_raw = 1;
  key_format_x509 = 5;
  key_format_pkcs8 = 4;
  name_type_uninterpreted_text_string = 1;
  result_status_success = 0;
  result_status_operation_failed = 1;
  usage_mask_encrypt = 4;
  usage_mask_decrypt = 8;
  usage_mask_sign = 1;
  usage_mask_verify = 2;
}

abbrev pub lib : Kmiplib
lib = record {
  Item = Tree;
  Buffer = Tree;
  names = names;
  decode_ttlv = λ b. ok b;
  tag = tag_of;
  find_child = λ i t. first (children i t);
  find_children = children;
  int_value = number_in;
  string_value = text_in;
  bytes_value = bytes_in;
  encode_enum = number;
  encode_integer = number;
  encode_text_string = words;
  encode_byte_string = bytes;
  encode_date_time = number;
  encode_structure = λ t cs. structure t (forest_of cs);
}

-- A cipher that wants a nonce of 12 bytes.
abbrev pub when_full : {A : Type 0} → Bytes → A → Option A
when_full nonce a = if length nonce == 12 then some a else none

abbrev pub crypto : Crypto
crypto = record {
  Block = Bytes;
  Aead = Bytes;
  RsaPrivate = Unit;
  EcdsaPrivate = Unit;
  RsaPublic = Unit;
  EcdsaPublic = Unit;
  aes_new_cipher = λ key. ok key;
  new_gcm = λ block. ok block;
  nonce_size = λ a. 12;
  seal = λ a nonce plain. when_full nonce plain;
  unseal = λ a nonce sealed. when_full nonce (ok sealed);
  rsa_generate = λ n bits. ok tt;
  ecdsa_generate = λ n c. ok tt;
  rsa_public = λ k. tt;
  ecdsa_public = λ k. tt;
  marshal_pkcs8 = λ k. ok (1 ∷ []);
  marshal_pkix = λ k. ok (2 ∷ []);
  parse_pkcs8 = λ b. ok other_key;
  parse_pkix = λ b. ok other_key;
  sha256 = λ b. replicate 32 5;
  rsa_sign = λ n k h. ok h;
  ecdsa_sign = λ n k h. ok h;
  rsa_verify = λ k h s. none;
  ecdsa_verify = λ k h s. true;
  hmac_sha256 = λ k d. replicate 32 6;
}

pub crypto-IsAead : IsAead crypto
crypto-IsAead = record {
  seal_total = λ a nonce plain h. ground arith;
  unseal_total = λ a nonce sealed h. ground arith;
  unseal-seal = λ a nonce plain h. ground arith;
}

abbrev pub libraries : Libraries
libraries = record { lib = lib; crypto = crypto; machine = machine }

-- An audit log with no entries, and room for them.
abbrev pub empty_logger : Logger
empty_logger = record { channel = []; rows = [] }
