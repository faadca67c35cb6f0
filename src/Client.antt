-- ===== src/Client.antt =====
-- `ATPClient` of atp/core/client.py: its state, the HTTP client that it keeps, and
-- registration. A method is an action on a `World`, the client and the other side of the network.
pub mod Queries
pub mod Challenge
pub mod Signature
pub mod Commits
pub mod Reports
pub mod Laws
pub mod Reuse
use atp_python.Base.{
  ℕ, ◌+◌, String, ◌<>◌, Bool, true, false, Option, none, some, List, [], ◌∷◌, eqb, length,
  if◌then◌else◌, not, ◌&&◌, map,
}
use atp_python.Base.Dict
use atp_python.Base.Dict.{Dict, lookup}
use atp_python.Python.Exceptions.{
  Exception, Result, ok, raised, atp_auth_error, atp_registration_error, atp_commit_error,
}
use atp_python.Python.Exec.{Exec, pure, raise, lift, gets, modify, ◌>>=◌, ◌>>◌}
use atp_python.Python.Json.{
  Json, null, str, int, arr, obj, Fields, end, field, ℤ, pos, to_items, truthy,
}
use atp_python.Python.DateTime.{DateTime}
use atp_python.Models.{
  Metadata, Capability, ProofSketch, SystemRegistration, CommitResponse, default_classification,
}
use atp_python.Hashing.{ProofParts, compute_proof_hash}
use atp_python.Wire.{
  error_detail, Runtime, Request, Response, Method, get, post, json_of, reject, translate, created,
}
use atp_python.Wire.Records.{decode_registration, decode_commit_response}

pub record ClientConfig : Type 0 where
  pub api_key : String
  pub exchange_url : String
  pub proof_ttl_seconds : ℤ

-- An `httpx.AsyncClient`: what it prefixes to paths, and the bearer token that it sends.
pub record HttpClient : Type 0 where
  pub base_url : String
  pub api_key : String

pub record Client : Type 0 where
  pub config : ClientConfig
  pub http_client : Option HttpClient
  pub client_loop : Option ℕ
  pub registered_systems : Dict String
  pub system_uris : Dict String
  pub system_types : Dict String

abbrev pub new_client : ClientConfig → Client
new_client config = record {
  config = config;
  http_client = none;
  client_loop = none;
  registered_systems = [];
  system_uris = [];
  system_types = [];
}

-- `s or t`
abbrev pub or_text : String → String → String
or_text String.[] t = t
or_text s t = s

abbrev open_http : ClientConfig → String → HttpClient
open_http config base = record { base_url = base; api_key = config.api_key }

-- `__aenter__`, which does not record the event loop
unfoldable pub aenter : Client → Client
aenter c = record c { http_client = some (open_http c.config c.config.exchange_url) }

abbrev same_loop : Option ℕ → Option ℕ → Bool
same_loop none none = true
same_loop none (some n) = false
same_loop (some m) none = false
same_loop (some m) (some n) = eqb m n

abbrev ensure_http : Option ℕ → Client → HttpClient × Client
ensure_http loop c = elim c.http_client [
  | some h ↦ (h, c)
  | none ↦
      let h = open_http c.config (or_text c.config.exchange_url "http://localhost:8080") in
      (h, record c { http_client = some h; client_loop = loop })
]

-- `_get_client`, where `loop` is the running event loop: a client of another loop is discarded.
unfoldable pub get_client : Option ℕ → Client → HttpClient × Client
get_client loop c = elim c.http_client [
  | none ↦ ensure_http loop c
  | some h ↦
      if same_loop c.client_loop loop
      then ensure_http loop c
      else ensure_http loop (record c { http_client = none; client_loop = none })
]

-- `__aexit__` leaves the client as it is; `close` forgets it.
unfoldable pub close : Client → Client
close c = record c { http_client = none }

abbrev pub optional_field : String → Option Json → Fields → Fields
optional_field k none fs = fs
optional_field k (some v) fs = field k v fs

abbrev pub system_path : String → String → String
system_path base id = base <> ("/systems/" <> id)

-- What `register_system` takes.
pub record Registration : Type 0 where
  pub name : String
  pub system_type : String
  pub capabilities : Option (List Json)
  pub extensions : Option Fields
  pub url : Option String
  pub proof_ttl_seconds : Option ℤ

module _ (R : Runtime) where
  open R use {Net, send, sha256, dump_sketch}

  pub record World : Type 0 where
    pub client : Client
    pub loop : Option ℕ
    pub net : Net

  abbrev pub Action {ℓ} : Type ℓ → Type ℓ
  Action A = Exec World A

  abbrev pub transmit : Request → Action Response
  transmit request w = let (reply, net) = send request w.net in (reply, record w { net = net })

  abbrev pub http : Action HttpClient
  http w = let (h, c) = get_client w.loop w.client in (ok h, record w { client = c })

  abbrev pub request_of : HttpClient → Method → String → Dict Json → Option Json → Request
  request_of h method path params body = record {
    method = method;
    base_url = h.base_url;
    path = path;
    params = params;
    token = some h.api_key;
    body = body;
  }

  abbrev pub update_client : (Client → Client) → Action (Unit {0})
  update_client f = modify (λ w. record w { client = f w.client })

  -- The body of a response to a POST: 401 is an authentication error, and any status but 200 and
  -- 201 the given one.
  unfoldable pub accept : Exception → Response → Action Json
  unfolding error_detail
  accept refused response =
      if eqb response.status_code 401
      then raise atp_auth_error
      else if not (created response.status_code)
      then reject response refused
      else lift (json_of response)

  -- The registration that is made up for a name that is known.
  abbrev pub cached_registration :
      Registration → ClientConfig → String → DateTime → SystemRegistration
  cached_registration r config system_id now = record {
    system_uri = system_path config.exchange_url system_id;
    system_id = system_id;
    registered_at = now;
    status = "active";
    capabilities_registered = pos (elim r.capabilities [ none ↦ 0 | some l ↦ length l ]);
    url = r.url;
    url_verified = false;
    proof_ttl_seconds = none;
  }

  abbrev non_empty_list : Option (List Json) → Option Json
  non_empty_list none = none
  non_empty_list (some []) = none
  non_empty_list (some (v ∷ vs)) = some (arr (to_items (v ∷ vs)))

  abbrev non_empty_dict : Option Fields → Option Json
  non_empty_dict none = none
  non_empty_dict (some end) = none
  non_empty_dict (some (field k v fs)) = some (obj (field k v fs))

  abbrev optional_text : Option String → Option Json
  optional_text none = none
  optional_text (some s) = some (str s)

  abbrev optional_int : Option ℤ → Option Json
  optional_int none = none
  optional_int (some n) = some (int n)

  abbrev registration_payload : Registration → Json
  registration_payload r = obj (
      field "name" (str r.name) (
        field "type" (str r.system_type) (
          optional_field "capabilities" (non_empty_list r.capabilities) (
            optional_field "extensions" (non_empty_dict r.extensions) (
              optional_field "url" (optional_text r.url)
                (optional_field "proof_ttl_seconds" (optional_int r.proof_ttl_seconds) end))))))

  -- The three dicts are written together, after the response is read.
  unfoldable pub remember : String → String → SystemRegistration → Client → Client
  remember name system_type registration c = record c {
    registered_systems = Dict.insert name registration.system_id c.registered_systems;
    system_uris = Dict.insert registration.system_id registration.system_uri c.system_uris;
    system_types = Dict.insert registration.system_id system_type c.system_types;
  }

  -- What is done with the response: it is read, and remembered.
  unfoldable pub read_registration : Registration → Response → Action SystemRegistration
  unfolding remember
  read_registration r response = do
    data' ← accept atp_registration_error response
    registration ← lift (decode_registration R data')
    update_client (remember r.name r.system_type registration)
    pure registration

  abbrev pub post_registration : HttpClient → Registration → Action Response
  post_registration h r =
      transmit (request_of h post "/api/v1/register" [] (some (registration_payload r)))

  unfoldable pub register_new : Registration → Action SystemRegistration
  unfolding read_registration
  register_new r = do
    h ← http
    translate atp_registration_error
        (do response ← post_registration h r; read_registration r response)

  -- `now` is the naive reading that stands in for the registration time of a known name.
  unfoldable pub register_system : Registration → DateTime → Action SystemRegistration
  unfolding register_new
  register_system r now w = elim (lookup r.name w.client.registered_systems) [
    | some system_id ↦ (ok (cached_registration r w.client.config system_id now), w)
    | none ↦ register_new r w
  ]
