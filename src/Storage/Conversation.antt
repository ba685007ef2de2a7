-- ===== src/Storage/Conversation.antt =====
-- A conversation with a store through the interface `Storage` (internal/storage/types.go): calls that
-- write and reads of one object, in order, and what the store answers.
use open_kmip_server.Common.{ℕ, suc, String, Bool, Option, none, some, List, [], ◌∷◌}
use open_kmip_server.Common.Bytes.{contents}
use open_kmip_server.Common.Result.{Result, ok, err, is_ok}
use open_kmip_server.Common.Dict.{Dict}
use open_kmip_server.Storage.Types.{KeyRecord}
use open_kmip_server.Storage.Interface.{Storage}
use open_kmip_server.Storage.Memory.Calls.{
  Call, create_call, activate_call, destroy_call, rekey_call, archive_call, recover_call,
  register_call, revoke_call, derive_call, set_attribute_call, delete_attribute_call,
}

pub data Ask : Type 0 where
  write : Call → Ask
  read_object read_attributes read_custom_attributes : String → Ask

-- What a client is told. The text of an error is left out, and material is told by its bytes.
pub data Answer : Type 0 where
  object : Option KeyRecord → Answer
  finished : Bool → Answer
  attributes : Option (Dict String) → Answer

abbrev pub told : KeyRecord → KeyRecord
told rec = record rec { material = some (contents rec.material) }

abbrev pub told_object : Option KeyRecord → Answer
told_object none = object none
told_object (some rec) = object (some (told rec))

abbrev pub told_result : Result KeyRecord → Answer
told_result (ok rec) = object (some (told rec))
told_result (err e) = object none

abbrev pub told_attributes : Result (Dict String) → Answer
told_attributes (ok attrs) = attributes (some attrs)
told_attributes (err e) = attributes none

module _ (S : Storage) where
  unfoldable pub finish : Result (Unit {0}) × S.State → Answer × S.State
  finish (r, s) = (finished (is_ok r), s)

  unfoldable pub make : Result KeyRecord × S.State → Answer × S.State
  make (r, s) = (told_result r, s)

  unfoldable pub call : ℕ → S.State → Call → Answer × S.State
  unfolding finish make
  call n s (create_call name algorithm bit_length usage_mask owner) =
      make (S.create n s name algorithm bit_length usage_mask owner)
  call n s (activate_call uid) = finish (S.activate n s uid)
  call n s (destroy_call uid) = finish (S.destroy n s uid)
  call n s (rekey_call uid) = make (S.rekey n s uid)
  call n s (archive_call uid) = finish (S.archive n s uid)
  call n s (recover_call uid) = finish (S.recover n s uid)
  call n s (register_call rec) = make (S.register n s rec)
  call n s (revoke_call uid reason) = finish (S.revoke n s uid reason)
  call n s (derive_call uid salt name bit_length) = make (S.derive_key n s uid salt name bit_length)
  call n s (set_attribute_call uid name value) = finish (S.set_custom_attribute n s uid name value)
  call n s (delete_attribute_call uid name) = finish (S.delete_custom_attribute n s uid name)

  unfoldable pub answer : ℕ → S.State → Ask → Answer × S.State
  unfolding call
  answer n s (write c) = call n s c
  answer n s (read_object uid) = (told_object (S.get n s uid), s)
  answer n s (read_attributes uid) = (told_object (S.get_attributes n s uid), s)
  answer n s (read_custom_attributes uid) = (told_attributes (S.get_custom_attributes n s uid), s)

  -- The answers to a sequence of requests, from moment n on.
  unfoldable pub talk : ℕ → S.State → List Ask → List Answer
  unfolding answer
  talk n s [] = []
  talk n s (a ∷ asks) = (answer n s a).0 ∷ talk (suc n) (answer n s a).1 asks
