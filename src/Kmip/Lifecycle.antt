-- ===== src/Kmip/Lifecycle.antt =====
-- internal/kmip/handler.go: validateStateTransition.
use open_kmip_server.Common.{ℕ, String, Bool, true, false, ◌||◌, str_eq, if◌then◌else◌}
use open_kmip_server.Common.Int.{pos}
use open_kmip_server.Common.Text.{cat, dec}
use open_kmip_server.Storage.Types.{
  KeyState, pre_active, active, deactivated, compromised, destroyed, destroyed_compromised,
  archived, state_code, is_state,
}
use open_kmip_server.Kmip.Codes.{reason_illegal_operation}

-- The reason, the message and whether the operation is allowed.
abbrev pub Verdict : Type 0
Verdict = ℕ × String × Bool

abbrev allowed : Verdict
allowed = (0, "", true)

abbrev refused : String → Verdict
refused message = (reason_illegal_operation, message, false)

abbrev with_state : String → KeyState → String
with_state message state = cat message (dec (pos (state_code state)))

unfoldable pub validate_state_transition : KeyState → String → Verdict
validate_state_transition state operation =
    if str_eq operation "Get"
    then if is_state state pre_active
        || is_state state active
        || is_state state deactivated
        || is_state state compromised
      then allowed
      else refused (with_state "Get not allowed in state " state)
    else if str_eq operation "Activate"
    then if is_state state pre_active
      then allowed
      else if is_state state active
      then refused "object is already active"
      else refused (with_state "Activate not allowed in state " state)
    else if str_eq operation "Revoke"
    then if is_state state pre_active || is_state state active || is_state state deactivated
      then allowed
      else refused (with_state "Revoke not allowed in state " state)
    else if str_eq operation "Destroy"
    then if is_state state destroyed || is_state state destroyed_compromised
      then refused "object is already destroyed"
      else allowed
    else if str_eq operation "Archive"
    then if is_state state deactivated
      then allowed
      else refused (with_state "Archive only allowed from Deactivated, current: " state)
    else if str_eq operation "Recover"
    then if is_state state archived
      then allowed
      else refused (with_state "Recover only allowed from Archived, current: " state)
    else if str_eq operation "ReKey"
    then if is_state state active
      then allowed
      else refused (with_state "ReKey only allowed from Active, current: " state)
    else if str_eq operation "Encrypt"
        || str_eq operation "Decrypt"
        || str_eq operation "Sign"
        || str_eq operation "SignatureVerify"
        || str_eq operation "MAC"
    then if is_state state active
      then allowed
      else refused (cat operation (with_state " only allowed on Active keys, current: " state))
    else allowed
