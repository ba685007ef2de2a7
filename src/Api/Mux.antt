-- ===== src/Api/Mux.antt =====
-- internal/api/api.go: the mux of Serve, with the routes of internal/dashauth on it and RequireAPIAuth
-- before the routes that stand behind it. The files of the dashboard are not among them.
use open_kmip_server.Common.{ℕ, suc, String, Bool, true, false, Option, none, some}
use open_kmip_server.External.Libraries.{Libraries}
use open_kmip_server.External.Formats.{Formats}
use open_kmip_server.Storage.Interface.{Storage}
use open_kmip_server.Kmip.Action.{World, Outcome, panic}
use open_kmip_server.Kmip.Connections.{ConnectionTracker}
use open_kmip_server.Web.Http.{Response}
use open_kmip_server.Dashauth.{
  DashAuth, AuthRequest, Reply, reply, panicked, require_api_auth, handle_login, handle_logout,
  handle_status,
}
use open_kmip_server.Api.{Backend, ApiRequest, Answered}
use open_kmip_server.Api.Reports.{handle_healthz, handle_metrics}
use open_kmip_server.Api.Inventory.{Inventory}
use open_kmip_server.Api.Routes.{Route, serve_route}

-- What the mux finds for a request.
pub data Endpoint : Type 0 where
  guarded : Route → Endpoint
  healthz metrics login logout auth_status : Endpoint

-- How a request ends: with the answer of a handler, with a text, or with a reply of the dashboard's side.
pub data Served : Type 0 where
  answered : Outcome Answered → Served
  plain : Outcome String → Served
  replied : Reply → Served

-- The state behind the mux.
pub record Front (S : Type 0) : Type 0 where
  pub world : World (Backend S)
  pub dash_auth : DashAuth

abbrev api_request : AuthRequest → ApiRequest
api_request r = record { authorization = r.authorization; remote_addr = r.remote_addr }

abbrev tick : {S : Type 0} → World (Backend S) → World (Backend S)
tick w = record w { moment = suc w.moment }

module _ {S : Type 0} where
  -- The answer of a handler, and of one of the dashboard's side.
  abbrev of_handler : DashAuth → Outcome Answered × World (Backend S) → Served × Front S
  of_handler d (o, w) = (answered o, record { world = w; dash_auth = d })

  abbrev of_text : DashAuth → Outcome String × World (Backend S) → Served × Front S
  of_text d (o, w) = (plain o, record { world = w; dash_auth = d })

  abbrev of_reply : World (Backend S) → Reply × DashAuth → Served × Front S
  of_reply w (r, d) = (replied r, record { world = tick w; dash_auth = d })

  -- next(w, r), or the answer of RequireAPIAuth in its place
  unfoldable pub behind_auth :
      World (Backend S)
      → Option Response × DashAuth
      → (World (Backend S) → Outcome Answered × World (Backend S))
      → Served × Front S
  behind_auth w (none, d) next = of_handler d (next (tick w))
  behind_auth w (some refusal, d) next = of_reply w (reply refusal, d)

module _ (l : Libraries) (formats : Formats l.crypto) (api_key : String) (storage : Storage)
    (start : ℕ) (tracker : Option ConnectionTracker) (listing : Inventory) where
  unfoldable pub serve_mux :
      AuthRequest → Endpoint → Front storage.State → Served × Front storage.State
  unfolding behind_auth serve_route
  serve_mux r (guarded route) f =
      behind_auth f.world (require_api_auth (l.machine.now f.world.moment) f.dash_auth r)
        (serve_route l formats api_key storage start tracker listing (api_request r) route)
  serve_mux r healthz f = of_handler f.dash_auth (handle_healthz l formats storage f.world)
  serve_mux r metrics f = of_text f.dash_auth (handle_metrics l formats storage tracker f.world)
  serve_mux r login f =
      of_reply f.world (handle_login l.machine formats.hex_encode f.world.moment f.dash_auth r)
  serve_mux r logout f =
      let (response, d) = handle_logout f.dash_auth r in of_reply f.world (reply response, d)
  serve_mux r auth_status f =
      let (response, d) = handle_status (l.machine.now f.world.moment) f.dash_auth r in
      of_reply f.world (reply response, d)

-- The handler panicked.
abbrev pub has_panicked : Served → Bool
has_panicked (answered panic) = true
has_panicked (plain panic) = true
has_panicked (replied (panicked e)) = true
has_panicked _ = false
