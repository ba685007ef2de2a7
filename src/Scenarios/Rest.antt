-- ===== src/Scenarios/Rest.antt =====
-- The REST handlers on a store with one key.
use native.Mathlib.Nat.{div-mul-le_self}
use open_kmip_server.Common.{
  ℕ, ◌*◌, ◌+◌, ◌-◌, ◌/◌, ◌≤◌, String, ◌≡◌, ◌≢◌, ◌⊎◌, refl, Bool, true, none, some, List, [], ◌∷◌,
  map, arith, length, replicate,
}
use open_kmip_server.Common.Dict
use open_kmip_server.Common.Bytes.{Bytes}
use open_kmip_server.Storage.Types.{KeyState, active, compromised}
use open_kmip_server.Storage.Memory.{
  MemoryStore, memory_storage, get, list, overwrite, new_memory_store,
}
use open_kmip_server.External.Formats.{IsFormats}
use open_kmip_server.Kmip.Action.{World, panic, done}
use open_kmip_server.Web.Http.{words, null, json_map}
use open_kmip_server.Api.{Backend, ApiRequest, create_aead, create_aead_from_material, status_ok}
use open_kmip_server.Api.Keys.{handle_activate_key, handle_list_keys, handle_get_key}
use open_kmip_server.Api.Cryptographic.{handle_encrypt_key, handle_decrypt_key}
use open_kmip_server.Api.Inventory.{Inventory}
use open_kmip_server.Api.Mux.{Endpoint, login, Front, serve_mux, has_panicked}
use open_kmip_server.Api.Serving.{opens, NoToken, serve_mux-panics}
use open_kmip_server.External.Libraries.{Libraries}
use open_kmip_server.External.Machine.{IsSound}
use open_kmip_server.Dashauth.{AuthRequest, new, handle_login, log_in, allow_login}
use open_kmip_server.Scenarios.Databases.{driver}
use open_kmip_server.Scenarios.Assets.{asset_formats}
use open_kmip_server.Api.Panics.{IsCipherKey, handle_decrypt_key-panics}
use open_kmip_server.Api.Disclosure.{
  decrypt_key-encrypt_key, hidden, hidden_object, list_keys-get_key-hidden,
}
use open_kmip_server.External.Float.{Float64, IsFloat64}
use open_kmip_server.Api.Limiter.{new_ip_rate_limiter}
use open_kmip_server.Api.Bounds.{allowed, last_time, token_time, allowed-bounded}
use open_kmip_server.Api.Overrides.{handle_activate_key-overrides}
use open_kmip_server.Scenarios.World.{
  empty_logger, machine, machine-IsSound, crypto-IsAead, libraries,
}
use open_kmip_server.Scenarios.Keys.{key, world, found}
use open_kmip_server.Scenarios.Web.{encode, formats, formats-IsFormats}

abbrev rest_request : ApiRequest
rest_request = record { authorization = "Bearer secret"; remote_addr = "10.0.0.1:4711" }

abbrev backend : KeyState → World (Backend MemoryStore)
backend state = record {
  store = record { store = (world state).store; audit = some empty_logger };
  moment = 9;
}

-- The nonce of the cipher has twelve bytes.
active_key :
    IsCipherKey libraries formats
      (memory_storage machine)
      "k1"
      (backend active)
      (key active)
      (replicate 16 7)
unfolding create_aead create_aead_from_material
active_key = record {
  found = found active (ground arith);
  is_active = refl;
  is_symmetric = refl;
  has_aead = refl;
}

decrypt_key-encrypt_key_example :
    (sealed : Bytes) × ((handle_encrypt_key libraries formats "secret"
        (memory_storage machine)
        rest_request
        "k1"
        (some (encode (1 ∷ 2 ∷ [])))
        (backend active)).0
      ≡ done (
        status_ok,
        json_map
            (("data", words (encode sealed)) ∷ ("nonce", words (encode (replicate 12 7))) ∷ []),
      ))
    × ((handle_decrypt_key libraries formats "secret"
          (memory_storage machine)
          rest_request
          "k1"
          (some (record { data_text = encode sealed; nonce = encode (replicate 12 7) }))
          (backend active)).0
        ≡ done (status_ok, json_map (("data", words (encode (1 ∷ 2 ∷ []))) ∷ [])))
decrypt_key-encrypt_key_example =
    decrypt_key-encrypt_key libraries formats "secret" (memory_storage machine) rest_request "k1"
      crypto-IsAead machine-IsSound formats-IsFormats (backend active) (backend active) (key active)
      (replicate 16 7) (1 ∷ 2 ∷ []) active_key active_key

-- The same libraries without randomness, and a login on them.
abbrev drained : Libraries
drained = record libraries { machine = record machine { rand_error = λ n k. some "no entropy" } }

drained-IsSound : IsSound drained.machine
drained-IsSound = record {
  uuid_unique = machine-IsSound.uuid_unique;
  length-rand_bytes = machine-IsSound.length-rand_bytes;
  mem-map_order = machine-IsSound.mem-map_order;
  length-hkdf = machine-IsSound.length-hkdf;
}

abbrev login_request : AuthRequest
login_request = record {
  authorization = "";
  cookie = none;
  remote_addr = "10.0.0.1:4711";
  body_api_key = some "secret";
}

abbrev front : Front MemoryStore
front = record { world = backend active; dash_auth = new "secret" true }

abbrev listing : Inventory
listing = record {
  driver = driver;
  assets = asset_formats;
  map_json = λ m. null;
  metadata_fields = λ text. ("metadata", words text) ∷ [];
}

abbrev serves_login : Endpoint → Bool
serves_login e =
    has_panicked
      (serve_mux drained formats "secret" (memory_storage machine) 0 none listing login_request e
        front).0

login_panics : serves_login login ≡ true
unfolding serve_mux handle_login log_in allow_login new Dict.get Dict.empty
login_panics = refl

serve_mux-panics_example :
    (opens login ≡ true) ⊎ ((login ≡ login) × NoToken drained.machine front.world.moment)
serve_mux-panics_example =
    serve_mux-panics drained formats "secret" (memory_storage machine) 0 none listing crypto-IsAead
      drained-IsSound login_request login front login_panics

short_nonce : length {A = ℕ} (1 ∷ 2 ∷ []) ≢ 12
short_nonce h = omega (arith, h)

handle_decrypt_key-panics_example :
    (handle_decrypt_key libraries formats "secret"
      (memory_storage machine)
      rest_request
      "k1"
      (some (record { data_text = encode (5 ∷ []); nonce = encode (1 ∷ 2 ∷ []) }))
      (backend active)).0
    ≡ panic
unfolding encode
handle_decrypt_key-panics_example =
    handle_decrypt_key-panics libraries formats "secret" (memory_storage machine)
      (λ a nonce sealed h. ground (arith, h)) rest_request "k1"
      (record { data_text = encode (5 ∷ []); nonce = encode (1 ∷ 2 ∷ []) }) (backend active)
      (key active) (replicate 16 7) (1 ∷ 2 ∷ []) (5 ∷ []) active_key
      (IsFormats.base64_decode-base64_encode formats-IsFormats (5 ∷ []))
      (IsFormats.hex_decode-hex_encode formats-IsFormats (1 ∷ 2 ∷ [])) short_nonce

-- The same key with other material.
abbrev other_material : World (Backend MemoryStore)
other_material = record {
  store = record {
    store = overwrite (world active).store "k1" (record (key active) { material = some (9 ∷ []) });
    audit = none;
  };
  moment = 9;
}

same_list :
    map hidden (list machine 9 (world active).store)
    ≡ map hidden (list machine 9 other_material.store.store)
unfolding list Dict.get Dict.put Dict.empty Dict.keys new_memory_store
same_list = refl

same_get :
    hidden_object (get (world active).store "k1")
    ≡ hidden_object (get other_material.store.store "k1")
unfolding get Dict.get Dict.put Dict.empty new_memory_store
same_get = refl

list_keys-get_key-hidden_example :
    ((handle_list_keys libraries formats "secret"
        (memory_storage machine)
        rest_request
        (backend active)).0
      ≡ (handle_list_keys libraries formats "secret"
          (memory_storage machine)
          rest_request
          other_material).0)
    × ((handle_get_key libraries formats "secret"
          (memory_storage machine)
          rest_request
          "k1"
          (backend active)).0
        ≡ (handle_get_key libraries formats "secret"
            (memory_storage machine)
            rest_request
            "k1"
            other_material).0)
list_keys-get_key-hidden_example =
    list_keys-get_key-hidden libraries formats "secret" (memory_storage machine) rest_request
      (backend active) other_material "k1" same_list same_get

-- Numbers of steps, of which a nanosecond has 6000000000, with exact sums and products that are cut off.
abbrev float : Float64
float = record {
  Float = ℕ;
  seconds = λ d. d * 6000000000;
  constant = λ a b. a * 6000000000000000000 / b;
  mul = λ x y. x * y / 6000000000000000000;
  to_int = λ x. x / 6000000000000000000;
}

float-IsFloat64 : IsFloat64 float
float-IsFloat64 = record {
  steps = λ x. x;
  one = 6000000000000000000;
  one-positive = omega arith;
  steps-seconds = λ d. omega arith;
  steps-constant = λ a b some_b less. omega (arith, div-mul-le_self (a * 6000000000000000000) b);
  steps-mul = λ x y large. omega arith;
  to_int-steps = λ x. omega arith;
}

abbrev visits : List (ℕ × String)
visits = (0, "10.0.0.1") ∷ (5, "10.0.0.2") ∷ (700000000, "10.0.0.1") ∷ []

allowed-bounded_example :
    allowed float "10.0.0.1" new_ip_rate_limiter visits * token_time
    ≤ 100 * token_time + (last_time 0 visits - 0)
allowed-bounded_example =
    allowed-bounded float float-IsFloat64 "10.0.0.1" 0 visits
      (omega arith, (omega arith, (omega arith, tt)))

handle_activate_key-overrides_example :
    ((handle_activate_key libraries formats "secret"
        (memory_storage machine)
        rest_request
        "k1"
        (backend compromised)).0
      ≡ done (status_ok, json_map (("uid", words "k1") ∷ ("state", words "active") ∷ [])))
    × (get
          (handle_activate_key libraries formats "secret"
            (memory_storage machine)
            rest_request
            "k1"
            (backend compromised)).1.store.store
          "k1"
        ≡ some (record (key compromised) { state = active }))
handle_activate_key-overrides_example =
    handle_activate_key-overrides libraries formats "secret" rest_request "k1" (backend compromised)
      (key compromised) (found compromised (ground arith))
