-- ===== src/Kmip/Request.antt =====
-- internal/kmip/handler.go: HandleRequest.
pub mod Versions
use open_kmip_server.Common.{
  ℕ, String, Bool, false, not, ◌&&◌, ◌||◌, Option, none, some, List, [], ◌∷◌, ltb, ◌==◌, length,
  if◌then◌else◌,
}
use open_kmip_server.Common.Int.{ℤ, pos, eq_ℤ, leb_ℤ}
use open_kmip_server.Common.Text.{cat, hex, dec}
use open_kmip_server.Common.Result.{Result, ok, err}
use open_kmip_server.External.Libraries.{Libraries}
use open_kmip_server.Storage.Interface.{Storage}
use open_kmip_server.Kmip.Action.{Outcome, done, fail, panic}
use open_kmip_server.Kmip.Codes.{
  supported_major, supported_minor, reason_invalid_message, reason_feature_not_supported,
  reason_response_too_large,
}
use open_kmip_server.Kmip.Fields.{child_of, int_of}
use open_kmip_server.Kmip.Response.{build_batch_response, build_error_response}
use open_kmip_server.Kmip.Batch.{Server, Client, process_batch_item, log_operation}

abbrev pub max_batch_items : ℕ
max_batch_items = 100

-- reqMajor > supportedMajor || (reqMajor == supportedMajor && reqMinor > supportedMinor)
unfoldable pub is_unsupported : ℤ → ℤ → Bool
is_unsupported major minor =
    not (leb_ℤ major (pos supported_major))
    || (eq_ℤ major (pos supported_major) && not (leb_ℤ minor (pos supported_minor)))

module _ (l : Libraries) (storage : Storage) where
  open l use {
    Item, Buffer, decode_ttlv, tag, find_child, find_children, int_value, tag_request_message,
    tag_request_header, tag_protocol_version, tag_protocol_version_major,
    tag_protocol_version_minor, tag_batch_item,
  }

  -- The major and the minor version of the request, where it states a major version.
  unfoldable pub version_of : Item → Option (ℤ × ℤ)
  unfolding child_of int_of
  version_of msg =
      let pv = child_of l.lib (find_child msg tag_request_header) tag_protocol_version in
      elim (child_of l.lib pv tag_protocol_version_major) [
        | none ↦ none
        | some major ↦
            some
              (int_value major, int_of l.lib (child_of l.lib pv tag_protocol_version_minor) (pos 0))
      ]

  unfoldable pub refused_version : Option (ℤ × ℤ) → Bool
  unfolding is_unsupported
  refused_version none = false
  refused_version (some (major, minor)) = is_unsupported major minor

  version_message : Option (ℤ × ℤ) → String
  version_message none = ""
  version_message (some (major, minor)) = cat "unsupported version " (
      cat (dec major) (
        cat "." (
          cat (dec minor) (
            cat "; server supports "
              (cat (dec (pos supported_major)) (cat "." (dec (pos supported_minor))))))))

  -- One round of the loop over the batch items, before the rounds that follow it.
  unfoldable pub collect :
      Buffer
      → Outcome (List Buffer) × Server storage.State
      → Outcome (List Buffer) × Server storage.State
  collect response (done rest, srv) = (done (response ∷ rest), srv)
  collect response (fail reason message, srv) = (fail reason message, srv)
  collect response (panic, srv) = (panic, srv)

  unfoldable pub round :
      Outcome Buffer × Server storage.State
      → (Server storage.State → Outcome (List Buffer) × Server storage.State)
      → Outcome (List Buffer) × Server storage.State
  unfolding collect
  round (done response, srv) rest = collect response (rest srv)
  round (fail reason message, srv) rest = (fail reason message, srv)
  round (panic, srv) rest = (panic, srv)

  -- for _, bi := range batchItems: a panic in one item ends the request.
  unfoldable pub process_items :
      List Item → Client → Server storage.State → Outcome (List Buffer) × Server storage.State
  process_items [] client srv = (done [], srv)
  process_items (bi ∷ bis) client srv =
      round (process_batch_item l storage bi client srv) (λ srv'. process_items bis client srv')

  unfoldable pub respond_batch :
      Outcome (List Buffer) × Server storage.State → Outcome Buffer × Server storage.State
  respond_batch (done items, srv) = (done (build_batch_response l.lib (length items) items), srv)
  respond_batch (fail reason message, srv) = (fail reason message, srv)
  respond_batch (panic, srv) = (panic, srv)

  -- The early returns of HandleRequest: the reason and the message of the first that applies.
  unfoldable pub refusal : Item → Option (ℕ × String)
  unfolding version_message
  refusal msg =
      if not (tag msg == tag_request_message)
      then some
          (reason_invalid_message, cat "expected RequestMessage, got 0x" (hex 6 (pos (tag msg))))
      else if refused_version (version_of msg)
      then some (reason_feature_not_supported, version_message (version_of msg))
      else if length (find_children msg tag_batch_item) == 0
      then some (reason_invalid_message, "no BatchItem in request")
      else if ltb max_batch_items (length (find_children msg tag_batch_item))
      then some (
        reason_response_too_large,
        cat "batch too large: " (
            cat (dec (pos (length (find_children msg tag_batch_item))))
              (cat " items (max " (cat (dec (pos max_batch_items)) ")"))),
      )
      else none

  -- HandleRequest once the message is decoded.
  unfoldable pub answer :
      Option (ℕ × String)
      → Item
      → Client
      → Server storage.State
      → Outcome Buffer × Server storage.State
  answer (some (reason, message)) msg client srv =
      (done (build_error_response l.lib (pos 0) reason message), srv)
  answer none msg client srv =
      respond_batch (process_items (find_children msg tag_batch_item) client srv)

  unfoldable pub handle_decoded :
      Result Item → Client → Server storage.State → Outcome Buffer × Server storage.State
  handle_decoded (err e) client srv = (
    done (build_error_response l.lib (pos 0) reason_invalid_message (cat "decode failed: " e)),
    log_operation l storage "kmip" "Decode"
        (record { status = "failure"; message = cat "decode failed: " e; object_uid = "" }) client
        srv,
  )
  handle_decoded (ok msg) client srv = answer (refusal msg) msg client srv

  unfoldable pub handle_request :
      Buffer → Client → Server storage.State → Outcome Buffer × Server storage.State
  handle_request request client srv = handle_decoded (decode_ttlv request) client srv
