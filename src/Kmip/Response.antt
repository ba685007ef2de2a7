-- ===== src/Kmip/Response.antt =====
-- internal/kmip/handler.go: the builders of responses.
use open_kmip_server.Common.{ℕ, String, List, [], ◌∷◌, ◌++◌, if◌then◌else◌}
use open_kmip_server.Common.Int.{ℤ, pos, eq_ℤ, to_int32}
use open_kmip_server.External.Kmiplib.{Kmiplib}
use open_kmip_server.Kmip.Action.{Outcome, done, fail, panic, Action}
use open_kmip_server.Kmip.Codes.{supported_major, supported_minor}

module _ (lib : Kmiplib) where
  open lib use {
    Buffer, tag_operation, tag_result_status, tag_result_reason, tag_result_message,
    tag_response_payload, tag_batch_item, tag_response_header, tag_protocol_version,
    tag_protocol_version_major, tag_protocol_version_minor, tag_batch_count, tag_response_message,
    result_status_success, result_status_operation_failed, encode_enum, encode_integer,
    encode_text_string, encode_structure,
  }

  abbrev payload_part : List Buffer → List Buffer
  payload_part [] = []
  payload_part (c ∷ cs) = encode_structure tag_response_payload (c ∷ cs) ∷ []

  unfoldable pub success_children : ℤ → List Buffer → List Buffer
  success_children operation payload_children =
      encode_enum tag_operation operation
      ∷ encode_enum tag_result_status (pos result_status_success)
      ∷ payload_part payload_children

  unfoldable pub build_batch_item_success : ℤ → List Buffer → Buffer
  unfolding success_children
  build_batch_item_success operation payload_children =
      encode_structure tag_batch_item (success_children operation payload_children)

  unfoldable pub error_children : ℤ → ℕ → String → List Buffer
  error_children operation reason message =
      (if eq_ℤ operation (pos 0) then [] else encode_enum tag_operation operation ∷ [])
      ++ (encode_enum tag_result_status (pos result_status_operation_failed)
          ∷ encode_enum tag_result_reason (pos reason)
          ∷ encode_text_string tag_result_message message
          ∷ [])

  unfoldable pub build_batch_item_error : ℤ → ℕ → String → Buffer
  unfolding error_children
  build_batch_item_error operation reason message =
      encode_structure tag_batch_item (error_children operation reason message)

  unfoldable pub build_batch_response : ℕ → List Buffer → Buffer
  build_batch_response batch_count batch_items = encode_structure tag_response_message (
      encode_structure tag_response_header (
        encode_structure tag_protocol_version (
          encode_integer tag_protocol_version_major (to_int32 (pos supported_major))
          ∷ encode_integer tag_protocol_version_minor (to_int32 (pos supported_minor))
          ∷ [])
        ∷ encode_integer tag_batch_count (to_int32 (pos batch_count))
        ∷ [])
      ∷ batch_items)

  unfoldable pub build_error_response : ℤ → ℕ → String → Buffer
  unfolding build_batch_response build_batch_item_error
  build_error_response operation reason message =
      build_batch_response 1 (build_batch_item_error operation reason message ∷ [])

  -- The item that a handler returns: each early return of an error is one of its rejections.
  abbrev pub item_of : ℤ → Outcome (List Buffer) → Outcome Buffer
  item_of op (done children) = done (build_batch_item_success op children)
  item_of op (fail reason message) = done (build_batch_item_error op reason message)
  item_of op panic = panic

  unfoldable pub respond : {S : Type 0} → ℤ → Action S (List Buffer) → Action S Buffer
  respond op m w = (item_of op (m w).0, (m w).1)
