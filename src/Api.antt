-- ===== src/Api.antt =====
-- internal/api/api.go: what the REST handlers share. A handler runs as those of the KMIP side do: it
-- ends with a status and a JSON body, with an error status and its message (writeError), or with a
-- panic, which net/http recovers.
pub mod Limiter
pub mod Keys
pub mod Cryptographic
pub mod Reports
pub mod Inventory
pub mod Routes
pub mod Mux
pub mod Panics
pub mod Serving
pub mod Disclosure
pub mod Refill
pub mod Bounds
pub mod Overrides
use Prim.Native.String.{slice, len}
use open_kmip_server.Common.{
  ℕ, suc, String, Bool, not, ◌||◌, Option, none, some, List, [], ◌∷◌, ltb, str_eq, if◌then◌else◌,
}
use open_kmip_server.Common.Int.{ℤ, pos, negsuc, eq_ℤ}
use open_kmip_server.Common.Text.{cat}
use open_kmip_server.Common.Bytes.{Bytes, Slice, contents}
use open_kmip_server.Common.Result.{Result, ok, err}
use open_kmip_server.External.Libraries.{Libraries}
use open_kmip_server.External.Formats.{Formats}
use open_kmip_server.Audit
use open_kmip_server.Audit.{Logger}
use open_kmip_server.Storage.Types.{
  KeyRecord, KeyState, unset, pre_active, active, deactivated, compromised, destroyed,
  destroyed_compromised, archived,
}
use open_kmip_server.Kmip.Action.{Action, World, done, reject, pure, read, write, ◌>>◌}
use open_kmip_server.Web.Http.{Json, trim_prefix}

-- The store and the audit log, which may be nil.
pub record Backend (S : Type 0) : Type 0 where
  pub store : S
  pub audit : Option Logger

-- What every handler reads of a request.
pub record ApiRequest : Type 0 where
  pub authorization : String
  pub remote_addr : String

abbrev pub Answered : Type 0
Answered = ℕ × Json

abbrev pub Handler : Type 0 → Type 0
Handler S = Action (Backend S) Answered

-- The HTTP statuses that the handlers use.
abbrev pub status_ok : ℕ
status_ok = 200

abbrev pub status_created : ℕ
status_created = 201

abbrev pub status_bad_request : ℕ
status_bad_request = 400

abbrev pub status_not_found : ℕ
status_not_found = 404

abbrev pub status_conflict : ℕ
status_conflict = 409

abbrev pub status_internal_server_error : ℕ
status_internal_server_error = 500

-- stateString
unfoldable pub state_string : KeyState → String
state_string pre_active = "pre-active"
state_string active = "active"
state_string deactivated = "deactivated"
state_string compromised = "compromised"
state_string destroyed = "destroyed"
state_string destroyed_compromised = "destroyed-compromised"
state_string archived = "archived"
state_string unset = "unknown"

module _ {S A : Type 0} where
  -- A call of a method of the store that only reads, and of one that can write.
  unfoldable pub stored : (ℕ → S → A) → Action (Backend S) A
  unfolding read
  stored f = read (λ n b. f n b.store)

  unfoldable pub storing : (ℕ → S → Result A × S) → Action (Backend S) (Result A)
  unfolding write
  storing f = write (λ n b. let result = f n b.store in (result.0, record b { store = result.1 }))

module _ (l : Libraries) (formats : Formats l.crypto) where
  open formats use {to_upper, to_lower, chacha20poly1305_new}

  -- resolveAlgorithm
  unfoldable pub resolve_algorithm : String → ℤ
  resolve_algorithm name =
      let upper = to_upper name in
      if str_eq upper "AES" || str_eq upper ""
      then pos 0x00000003
      else if str_eq upper "RSA"
      then pos 0x00000004
      else if str_eq upper "EC" || str_eq upper "ECDSA"
      then pos 0x00000006
      else if str_eq upper "CHACHA20" || str_eq upper "CHACHA20-POLY1305"
      then pos 0x0000001E
      else if str_eq upper "DES" || (str_eq upper "3DES" || str_eq upper "TRIPLEDES")
      then negsuc 0
      else pos 0x00000003

  -- cipher.NewGCM, after aes.NewCipher
  gcm_of : Result l.Block → Result l.Aead
  gcm_of (ok block) = l.new_gcm block
  gcm_of (err e) = err e

  -- createAEADFromMaterial
  unfoldable pub create_aead_from_material : Slice → ℤ → String → Result l.Aead
  unfolding gcm_of
  create_aead_from_material material algorithm method =
      if str_eq (to_lower method) "chacha20-poly1305" || eq_ℤ algorithm (pos 0x0000001E)
      then chacha20poly1305_new (contents material)
      else gcm_of (l.aes_new_cipher (contents material))

  -- createAEAD
  unfoldable pub create_aead : KeyRecord → Result l.Aead
  unfolding create_aead_from_material
  create_aead rec = create_aead_from_material rec.material rec.algorithm ""

-- token[:8] + "...", where a key is set and the token has eight bytes
client_id : String → ApiRequest → String
client_id api_key r =
    if str_eq api_key ""
    then ""
    else let token = trim_prefix r.authorization "Bearer " in
      if ltb (len token) 8 then "" else cat (slice token 0 8) "..."

module _ (l : Libraries) (api_key : String) where
  -- What logAudit makes of the log.
  entered :
      ℕ → ApiRequest → String → String → String → String → String → Option Logger → Option Logger
  unfolding client_id
  entered n r operation object_uid object_name status message none = none
  entered n r operation object_uid object_name status message (some a) = some (
      Audit.log (l.machine.now n) a (record {
        timestamp = l.machine.now n;
        source = "rest";
        operation = operation;
        client_id = client_id api_key r;
        object_uid = object_uid;
        object_name = object_name;
        status = status;
        message = message;
        remote_addr = r.remote_addr;
      }))

  -- logAudit
  unfoldable pub log_audit :
      {S : Type 0}
      → ApiRequest
      → String
      → String
      → String
      → String
      → String
      → Action (Backend S) (Unit {0})
  unfolding entered
  log_audit r operation object_uid object_name status message w = (
    done tt,
    record w {
      store = record w.store {
        audit = entered w.moment r operation object_uid object_name status message w.store.audit;
      };
      moment = suc w.moment;
    },
  )

-- if err != nil { writeError(status, err.Error()) }, with an entry of the failure in the log
unfoldable pub or_log :
    {S A : Type 0} → Action (Backend S) (Unit {0}) → Result A → ℕ → Action (Backend S) A
or_log entry (ok a) status = pure a
or_log entry (err e) status = entry >> reject status e
