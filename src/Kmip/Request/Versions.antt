-- ===== src/Kmip/Request/Versions.antt =====
-- The version gate of HandleRequest (internal/kmip/handler.go).
use open_kmip_server.Common.{
  refl, String, some, same_number, ℕ, zero, suc, ◌≡◌, ◌↔◌, ◌<◌, true, arith,
}
use open_kmip_server.Common.Int.{ℤ, pos, negsuc}
use open_kmip_server.Common.Result.{ok}
use open_kmip_server.External.Libraries.{Libraries}
use open_kmip_server.Storage.Interface.{Storage}
use open_kmip_server.Kmip.Action.{done}
use open_kmip_server.Kmip.Batch.{Server, Client}
use open_kmip_server.Kmip.Codes.{reason_feature_not_supported}
use open_kmip_server.Kmip.Response.{build_error_response}
use open_kmip_server.Kmip.Request.{
  is_unsupported, version_of, refused_version, refusal, answer, version_message, handle_decoded,
  handle_request,
}

-- The lexicographic order of versions: strictly above KMIP 1.4.
pub data IsNewer : ℤ → ℤ → Type 0 where
  newer_major : {major : ℕ} {minor : ℤ} → 1 < major → IsNewer (pos major) minor
  newer_minor : {minor : ℕ} → 4 < minor → IsNewer (pos 1) (pos minor)

unsupported-IsNewer : (major minor : ℤ) → is_unsupported major minor ≡ true → IsNewer major minor
unfolding is_unsupported
unsupported-IsNewer (pos zero) minor h = absurd (ground arith)
unsupported-IsNewer (pos (suc zero)) (pos n) h = newer_minor (ground arith)
unsupported-IsNewer (pos (suc zero)) (negsuc n) h = absurd (ground arith)
unsupported-IsNewer (pos (suc (suc k))) minor h = newer_major (omega arith)
unsupported-IsNewer (negsuc k) minor h = absurd (ground arith)

IsNewer-unsupported : (major minor : ℤ) → IsNewer major minor → is_unsupported major minor ≡ true
unfolding is_unsupported
IsNewer-unsupported _ _ (newer_major h) = ground arith
IsNewer-unsupported _ _ (newer_minor h) = ground arith

-- The version gate refuses a version just where it is newer than KMIP 1.4 in the lexicographic order.
is_unsupported-IsNewer :
    (major minor : ℤ) → (is_unsupported major minor ≡ true) ↔ IsNewer major minor
is_unsupported-IsNewer major minor =
    (unsupported-IsNewer major minor, IsNewer-unsupported major minor)

module _ (l : Libraries) (storage : Storage) where
  open l use {Item, Buffer, decode_ttlv, tag, tag_request_message}

  -- On any store: a request that decodes to a request message of a version newer than KMIP 1.4 is
  -- answered with the error for a feature that is not supported, and the server, its store, audit log
  -- and tracker included, is as it was.
  pub handle_request-newer :
      (request : Buffer) (client : Client) (srv : Server storage.State) (msg : Item)
      (major minor : ℤ)
      → decode_ttlv request ≡ ok msg
      → tag msg ≡ tag_request_message
      → version_of l storage msg ≡ some (major, minor)
      → IsNewer major minor
      → (message : String) × (handle_request l storage request client srv
          ≡ (done (build_error_response l.lib (pos 0) reason_feature_not_supported message), srv))
  unfolding handle_request handle_decoded refusal refused_version answer
  handle_request-newer request client srv msg major minor decoded is_request version newer = (
    version_message l storage (some (major, minor)),
    rw (decoded, is_request, same_number, version, IsNewer-unsupported major minor newer) refl,
  )
