-- ===== src/Scenarios/Web.antt =====
-- The dashboard's logins, the REST side, the connections and the audit log on concrete inputs.
use native.Mathlib.Nat.{zero-add}
use open_kmip_server.Common.{
  ℕ, zero, suc, ◌+◌, ◌≤◌, String, true, ◌≡◌, ◌⊎◌, ◌↔◌, refl, ◌∙◌, ap, Option, none, some, List, [],
  ◌∷◌, ◌++◌, arith, length, str_eq, if◌then◌else◌,
}
use open_kmip_server.Common.Bytes.{Bytes}
use open_kmip_server.Common.Result.{ok}
use open_kmip_server.External.Formats.{Formats, IsFormats}
use open_kmip_server.Common.Dict
use open_kmip_server.Storage.Memory.{memory_storage}
use open_kmip_server.Audit.{Entry, Logger, query}
use open_kmip_server.Audit.Pages.{query-pages, full_page}
use open_kmip_server.Audit.Selection.{IsRow, IsAsked, Descends}
use mathlib.Core.List.{Memᴰ}
use open_kmip_server.Web.Http.{extract_ip}
use open_kmip_server.Dashauth.{
  AuthRequest, token_at, new, require_api_auth, handle_login, create_session, cleanup, recent,
  bearer_matches,
}
use open_kmip_server.Dashauth.Sessions.{
  Event, login, gate, tick, run, step, IsAdmitted, require_api_auth-IsAdmitted,
}
use open_kmip_server.Dashauth.Logins.{failures, failures-bounded}
use open_kmip_server.Kmip.Framing.{big_endian, read_message, handle_connection}
use open_kmip_server.Kmip.Framing.Messages.{
  IsMessage, stream, answer_all, handle_connection-messages,
}
use open_kmip_server.Kmip.Framing.Connection.{serve_connection, length-serve_connection}
use open_kmip_server.Scenarios.Requests.{client, server, message, create_item}
use open_kmip_server.Scenarios.World.{
  machine, machine-IsSound, crypto, crypto-IsAead, libraries, strokes,
}

-- A text for bytes: each is a row of strokes that ends with a dot.
stroked : ℕ → String → String
stroked zero s = s
stroked (suc n) s = Prim.Native.String.◌∷◌ "u" (stroked n s)

unfoldable pub encode : Bytes → String
unfolding stroked
encode [] = ""
encode (b ∷ bs) = stroked b (Prim.Native.String.◌∷◌ "." (encode bs))

unfoldable pub count_strokes : ℕ → String → Bytes
count_strokes n Prim.Native.String.[] = []
count_strokes n (Prim.Native.String.◌∷◌ c s) =
    let ended = count_strokes 0 s in
    let more = count_strokes (suc n) s in
    if str_eq (Prim.Native.String.◌∷◌ c "") "." then n ∷ ended else more

count_strokes-stroked :
    (n b : ℕ) (s : String) → count_strokes n (stroked b s) ≡ count_strokes (n + b) s
unfolding count_strokes stroked
count_strokes-stroked n zero s = ap (λ k. count_strokes k s) (omega arith)
count_strokes-stroked n (suc b) s =
    count_strokes-stroked (suc n) b s ∙ ap (λ k. count_strokes k s) (omega arith)

count_strokes-encode : (bs : Bytes) → count_strokes 0 (encode bs) ≡ bs
unfolding count_strokes encode
count_strokes-encode [] = refl
count_strokes-encode (b ∷ bs) =
    count_strokes-stroked 0 b (Prim.Native.String.◌∷◌ "." (encode bs))
    ∙ rw zero-add (ap (λ rest. b ∷ rest) (count_strokes-encode bs))

abbrev pub formats : Formats crypto
formats = record {
  base64_encode = encode;
  base64_decode = λ s. some (count_strokes 0 s);
  hex_encode = encode;
  hex_decode = λ s. some (count_strokes 0 s);
  to_lower = λ s. s;
  to_upper = λ s. s;
  atoi = λ s. none;
  format_rfc3339 = strokes;
  json_time = strokes;
  pem_decode = λ bs. none;
  parse_certificate =
      λ bs. ok (record { common_name = "ca"; subject = "ca"; issuer = "ca"; not_after = 0 });
  chacha20poly1305_new = λ key. ok key;
}

pub formats-IsFormats : IsFormats formats
formats-IsFormats = record {
  base64_decode-base64_encode = λ bs. ap some (count_strokes-encode bs);
  hex_decode-hex_encode = λ bs. ap some (count_strokes-encode bs);
}

abbrev token : String
token = token_at machine encode 0

abbrev login_request : Option String → AuthRequest
login_request key = record {
  authorization = "";
  cookie = none;
  remote_addr = "10.0.0.1:4711";
  body_api_key = key;
}

abbrev with_cookie : AuthRequest
with_cookie = record (login_request none) { cookie = some token }

abbrev logins : List Event
logins =
    login (login_request (some "secret"))
    ∷ gate with_cookie
    ∷ login (login_request (some "guess"))
    ∷ tick
    ∷ []

is_passed :
    (require_api_auth 5 (run machine encode 0 (new "secret" true) logins) with_cookie).0 ≡ none
unfolding require_api_auth run step handle_login new create_session cleanup encode stroked Dict.get
    Dict.put Dict.empty Dict.delete Dict.keys extract_ip
is_passed = refl

require_api_auth-IsAdmitted_example :
    (bearer_matches "secret" "" ≡ true) ⊎ IsAdmitted machine encode "secret" logins 5 (some token)
require_api_auth-IsAdmitted_example =
    require_api_auth-IsAdmitted machine encode "secret" true logins 5 with_cookie refl is_passed

failures-bounded_example :
    length (recent 9 (failures machine encode 0 (new "secret" true) logins "10.0.0.1" [])) ≤ 5
failures-bounded_example =
    failures-bounded machine encode (λ i. omega arith) "secret" true logins "10.0.0.1" 9
      (omega arith)

abbrev request : Bytes
request = 66 ∷ 0 ∷ 120 ∷ 1 ∷ 0 ∷ 0 ∷ 0 ∷ 2 ∷ 5 ∷ 6 ∷ []

request-IsMessage : IsMessage request
unfolding big_endian
request-IsMessage = record {
  header = 66 ∷ 0 ∷ 120 ∷ 1 ∷ 0 ∷ 0 ∷ 0 ∷ 2 ∷ [];
  body = 5 ∷ 6 ∷ [];
  parts = refl;
  header_length = refl;
  body_length = refl;
  fits = omega arith;
}

abbrev requests : List Bytes
requests = request ∷ request ∷ []

abbrev cut_off : Bytes
cut_off = 66 ∷ 0 ∷ []

is_cut_off : read_message cut_off ≡ none
unfolding read_message
is_cut_off = refl

-- The handler counts the requests and sends them back.
abbrev echo : Bytes → ℕ → Option Bytes × ℕ
echo bs n = (some bs, suc n)

handle_connection-messages_example :
    handle_connection echo (λ k. true) 22 0 (stream requests cut_off) 0
    ≡ answer_all echo (λ k. true) 0 requests 0
handle_connection-messages_example =
    handle_connection-messages echo (λ k. true) requests cut_off 0 22 0
      (request-IsMessage, (request-IsMessage, tt)) is_cut_off (omega arith)

length-serve_connection_example :
    length
      (serve_connection libraries
        (memory_storage machine)
        (λ bs. message (create_item ∷ []))
        (λ response. [])
        (λ k. true)
        client
        (stream requests cut_off)
        server).0
    ≡ 2
length-serve_connection_example =
    length-serve_connection libraries (memory_storage machine) (λ bs. message (create_item ∷ []))
      (λ response. []) crypto-IsAead machine-IsSound client (λ k. true) (λ k. refl) requests cut_off
      server (request-IsMessage, (request-IsMessage, tt)) is_cut_off

abbrev entry : String → Entry
entry operation = record {
  timestamp = 1;
  source = "rest";
  operation = operation;
  client_id = "";
  object_uid = "k1";
  object_name = "k";
  status = "success";
  message = "";
  remote_addr = "10.0.0.1:4711";
}

abbrev logger : Logger
logger = record { channel = []; rows = entry "Get" ∷ entry "List" ∷ entry "Get" ∷ entry "Get" ∷ [] }

query-pages_example :
    (Memᴰ (3, entry "Get") (full_page logger "Get" "")
      ↔ (IsRow logger.rows 1 (3, entry "Get") × IsAsked "Get" "" (entry "Get")))
    × Descends (1 + length logger.rows) (full_page logger "Get" "")
    × ((query true true logger 1 0 "Get" "").1 ≡ length (full_page logger "Get" ""))
    × (length (query true true logger 1 0 "Get" "").0 ≤ 1)
    × ((query true true logger 1 0 "Get" "").0 ++ (query true true logger 2 (0 + 1) "Get" "").0
        ≡ (query true true logger (1 + 2) 0 "Get" "").0)
query-pages_example = query-pages logger "Get" "" 1 2 0 (3, entry "Get")
