-- ===== src/Vaas/Client.antt =====
-- hook/vaas/client.go: the REST client of the VaaS API. The HTTP client, the encoding of JSON and
-- the parsing of URLs are parameters; the requests made are kept, newest first. An integer of the
-- API is a ℤ.
pub mod Calls
pub mod Deletion
use mesos_executor.Common.{
  ℕ, suc, ℤ, pos, negsuc, Option, none, some, List, [], ◌∷◌, ◌++◌, Str, codes, str_eq, Bool, true,
  false, if◌then◌else◌, ◌||◌, ltb, leb, ◌==◌, Result, ok, err, panic, print_ℕ, print_ℤ,
}
use mesos_executor.Common.Effect.{Step, ◌>>=◌, ◌>>◌, lift}

-- The fields of Backend that the executor reads or sets; `id` is none for a nil pointer.
pub record Dc : Type 0 where
  pub id : ℤ
  pub name : Str
  pub resource_uri : Str
  pub symbol : Str

pub record Director : Type 0 where
  pub id : ℤ
  pub name : Str

pub record Backend : Type 0 where
  pub id : Option ℤ
  pub address : Str
  pub director : Str
  pub dc : Dc
  pub port : ℕ
  pub inherit_time_profile : Bool
  pub weight : Option ℤ
  pub tags : List Str

pub data Method : Type 0 where
  get post delete : Method

-- The Accept and Content-Type headers, which every request has, are left out.
pub record Request : Type 0 where
  pub method : Method
  pub url : Str
  pub query : List (Str × Str)
  pub prefer : Option Str
  pub body : Str

pub data Body : Type 0 where
  read : Str → Body
  broken : Str → Body

pub record Response : Type 0 where
  pub status_code : ℕ
  pub body : Body
  pub location : Str

-- What http.Client.Do returns: a response, or an error, with a response or without.
pub data Answer : Type 0 where
  answered : Response → Answer
  failed : Option Response → Str → Answer

abbrev pub Requests : Type 0
Requests = List Request

-- The client's fields, and what it asks of the libraries.
pub record Api : Type 0 where
  pub host : Str
  pub username : Str
  pub api_key : Str
  pub http : Requests → Request → Answer
  -- the error of http.NewRequest for a URL, and the path of the URL
  pub bad_url : Str → Option Str
  pub url_path : Str → Str
  -- json.Marshal of a backend, and of nil
  pub marshal : Backend → Result Str
  pub marshal_nil : Result Str
  -- json.Unmarshal: the objects of a list, and a backend over what it was before
  pub directors : Str → Result (List Director)
  pub dcs : Str → Result (List Dc)
  pub backend : Str → Backend → Result Backend

abbrev pub backend_path : Str
backend_path = codes "/api/v0.1/backend/"

abbrev pub dc_path : Str
dc_path = codes "/api/v0.1/dc/"

abbrev pub director_path : Str
director_path = codes "/api/v0.1/director/"

abbrev pub prefer_async : Request → Request
prefer_async r = record r { prefer = some (codes "respond-async") }

-- `response != nil && response.StatusCode == http.StatusNotFound`
abbrev pub is_not_found : Option Response → Bool
is_not_found none = false
is_not_found (some r) = r.status_code == 404

unfoldable pub director_named : Str → List Director → Result ℤ
director_named name [] = err (codes "no Director with name " ++ name ++ codes " found")
director_named name (d ∷ ds) = if str_eq d.name name then ok d.id else director_named name ds

unfoldable pub dc_named : Str → List Dc → Result Dc
dc_named name [] = err (codes "no DC with name " ++ name ++ codes " found")
dc_named name (d ∷ ds) = if str_eq d.symbol name then ok d else dc_named name ds

body_message : Body → Str
body_message (read s) = s
body_message (broken e) = codes "Additional error reading raw response: " ++ e

module _ (api : Api) where
  abbrev pub request_to : Method → Str → Str → Request
  request_to method url body = record {
    method = method;
    url = url;
    query = (codes "username", api.username) ∷ (codes "api_key", api.api_key) ∷ [];
    prefer = none;
    body = body;
  }

  with_body : Method → Str → Result Str → Result Request
  with_body method url (ok body) = elim (api.bad_url url) [
    | none ↦ ok (request_to method url body)
    | some e ↦ err e
  ]
  with_body method url (err e) = err e
  with_body method url panic = panic

  -- newRequest
  unfoldable pub new_request : Method → Str → Option Backend → Result Request
  unfolding with_body
  new_request method url none = with_body method url api.marshal_nil
  new_request method url (some b) = with_body method url (api.marshal b)

  status_error : Request → Response → Str
  unfolding body_message
  status_error r response =
      codes "VaaS API error at "
      ++ (api.url_path r.url
          ++ (codes " (HTTP "
              ++ (print_ℕ response.status_code ++ (codes "): " ++ body_message response.body))))

  -- What `do` makes of an answer: a response and an error, either of which may be nil.
  unfoldable pub checked : Request → Answer → Option Response × Option Str
  unfolding status_error
  checked r (failed response e) = (response, some e)
  checked r (answered response) =
      if ltb response.status_code 200 || ltb 299 response.status_code
      then (some response, some (status_error r response))
      else (some response, none)

  unfoldable pub perform : Request → Requests → Requests × (Option Response × Option Str)
  perform r sent = (r ∷ sent, checked r (api.http sent r))

  decode_read : {A : Type 0} → Response → Result A → Result (Response × A)
  decode_read response (ok a) = ok (response, a)
  decode_read response (err e) = err e
  decode_read response panic = panic

  decode_body : {A : Type 0} → (Str → Result A) → Response → Body → Result (Response × A)
  unfolding decode_read
  decode_body decode response (broken e) = err e
  decode_body decode response (read raw) = decode_read response (decode raw)

  -- doRequest from the reading of the body on; `decode` is the decoding into `v`.
  unfoldable pub decoded :
      {A : Type 0} → (Str → Result A) → Option Response × Option Str → Result (Response × A)
  unfolding decode_body
  decoded decode (response, some e) = err e
  decoded decode (none, none) = panic
  decoded decode (some response, none) = decode_body decode response response.body

  unfoldable pub do_request :
      {A : Type 0} → (Str → Result A) → Request → Step Requests (Response × A)
  do_request decode r sent = let (sent', answer) = perform r sent in (sent', decoded decode answer)

  abbrev pub nothing : Str → Result (Unit {0})
  nothing raw = ok tt

  abbrev pub named_query : Str → Request → Request
  named_query name r = record r { query = r.query ++ (codes "name", name) ∷ [] }

  unfoldable pub find_director_id : Str → Step Requests ℤ
  find_director_id name = do
    request ← lift (new_request get (api.host ++ director_path) none)
    answer ← do_request api.directors (named_query name request)
    lift (director_named name answer.1)

  -- AddBackend: the Location header, and the backend as the answer leaves it.
  unfoldable pub add_backend : Backend → Step Requests (Str × Backend)
  add_backend b = do
    request ← lift (new_request post (api.host ++ backend_path) (some b))
    answer ← do_request (λ raw. api.backend raw b) request
    lift (ok (answer.0.location, answer.1))

  -- The request once its body was read: making it again sends none of it.
  abbrev pub consumed : Request → Request
  consumed r = record r { body = [] }

  delete_after : Request → Option Str → Step Requests (Unit {0})
  delete_after r (some m) sent = (sent, err m)
  delete_after r none sent = (do_request nothing (consumed r) >> lift (ok tt)) sent

  -- DeleteBackend, by what its first request came to: the request is made again where that
  -- succeeded.
  delete_again : Request → Option Response × Option Str → Step Requests (Unit {0})
  unfolding delete_after
  delete_again r (response, e) sent =
      if is_not_found response then (sent, ok tt) else delete_after r e sent

  delete_request : Request → Step Requests (Unit {0})
  unfolding delete_again
  delete_request r sent = let (sent', answer) = perform r sent in delete_again r answer sent'

  unfoldable pub delete_url : ℤ → Str
  delete_url id = api.host ++ (backend_path ++ (print_ℤ id ++ codes "/"))

  unfoldable pub delete_backend : ℤ → Step Requests (Unit {0})
  unfolding delete_request
  delete_backend id = do
    request ← lift (new_request delete (delete_url id) none)
    delete_request (prefer_async request)

  unfoldable pub get_dc : Str → Step Requests Dc
  get_dc name = do
    request ← lift (new_request get (api.host ++ dc_path) none)
    answer ← do_request api.dcs request
    lift (dc_named name answer.1)
