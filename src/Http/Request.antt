-- ===== src/Http/Request.antt =====
-- `CurlHttpTransport::send_request_to_server`: one request over libcurl, whose functions, like
-- `util::format` and the report on the error stream, are arguments.
pub mod Laws
pub mod Uses
pub mod Options
pub mod Freed
pub mod Sent
use realm_lua_bootcamp.Prelude.{
  ℕ, ◌%◌, ◌^◌, Bool, true, false, List, [], ◌∷◌, ◌++◌, Option, none, some, String, ◌==◌,
  if◌then◌else◌,
}
use realm_lua_bootcamp.Text.{Bytes, codes, c_string}
use realm_lua_bootcamp.Http.Guard.{Guards, construct, destroy}
use realm_lua_bootcamp.Http.Headers.{Headers, curl_header_cb, curl_write_cb}
use realm_lua_bootcamp.Http.Headers.Line.{Chunk}

pub data HttpMethod : Type 0 where
  get post patch put del : HttpMethod

pub record Request : Type 0 where
  pub method : HttpMethod
  pub url : Bytes
  pub timeout_ms : ℕ
  pub headers : Headers
  pub body : Bytes

pub record Response : Type 0 where
  pub http_status_code : ℕ
  -- True where the binding's code is -1, false where it is 0.
  pub no_handle : Bool
  pub headers : Headers
  pub body : Bytes

-- A time limit is the 64 bits of the `long` that is passed; the list of headers is a pointer. The
-- callbacks and the variables that they write are always the same.
pub data CurlOption : Type 0 where
  curlopt_url curlopt_postfields curlopt_customrequest : Bytes → CurlOption
  curlopt_timeout curlopt_httpheader : ℕ → CurlOption
  curlopt_writefunction curlopt_writedata curlopt_headerfunction curlopt_headerdata : CurlOption

-- A call of `curl_header_cb` or `curl_write_cb`.
pub data Delivery : Type 0 where
  header_line body_part : Chunk → Delivery

-- What `curl_easy_perform` does: its status, and the calls of the callbacks, in their order.
pub record Transfer : Type 0 where
  pub status : ℕ
  pub deliveries : List Delivery

-- Pointers are numbers, and 0 is the null pointer. `get_response_code` is `curl_easy_getinfo` with
-- CURLINFO_RESPONSE_CODE, which may write nothing.
pub record CurlApi (W : Type 0) : Type 0 where
  pub format : Bytes → Bytes → Bytes
  pub easy_init : W → ℕ × W
  pub easy_setopt : ℕ → CurlOption → W → W
  pub slist_append : ℕ → Bytes → W → ℕ × W
  pub easy_perform : ℕ → W → Transfer × W
  pub print_failure : Bytes → Bytes → ℕ → W → W
  pub get_response_code : ℕ → W → Option ℕ × W
  pub easy_cleanup : ℕ → W → W
  pub slist_free_all : ℕ → W → W

abbrev pub set_body : Request → List CurlOption
set_body request = curlopt_postfields (c_string request.body) ∷ []

abbrev pub custom : String → Request → List CurlOption
custom name request = curlopt_customrequest (codes name) ∷ set_body request

-- The second test for PATCH never holds.
unfoldable pub method_options : HttpMethod → Request → List CurlOption
unfolding c_string
method_options post request = set_body request
method_options put request = custom "PUT" request
method_options patch request = custom "PATCH" request
method_options del request = custom "DELETE" request
method_options get request = []

unfoldable pub request_options : Request → List CurlOption
unfolding method_options c_string
request_options request =
    curlopt_url (c_string request.url) ∷ method_options request.method request
    ++ curlopt_timeout (request.timeout_ms % 2 ^ 64) ∷ []

unfoldable pub transfer_options : ℕ → List CurlOption
transfer_options list =
    curlopt_httpheader list
    ∷ curlopt_writefunction
    ∷ curlopt_writedata
    ∷ curlopt_headerfunction
    ∷ curlopt_headerdata
    ∷ []

-- `response_headers` and `response` after the callbacks.
unfoldable pub receive : List Delivery → Headers → Bytes → Headers × Bytes
receive [] hs body = (hs, body)
receive (header_line c ∷ ds) hs body = receive ds (curl_header_cb c.bytes c.size c.nmemb hs).1 body
receive (body_part c ∷ ds) hs body = receive ds hs (curl_write_cb c.bytes c.size c.nmemb body).1

abbrev pub or_zero : Option ℕ → ℕ
or_zero none = 0
or_zero (some code) = code

unfoldable pub received : Transfer → Option ℕ → Response
received t code =
    let (hs, body) = receive t.deliveries [] [] in
    record { http_status_code = or_zero code; no_handle = false; headers = hs; body = body }

abbrev pub no_response : Response
no_response = record { http_status_code = 500; no_handle = true; headers = []; body = [] }

pub record Transport (W : Type 0) : Type 0 where
  pub guards : Guards
  pub world : W

module _ {W : Type 0} ⦃curl : CurlApi W⦄ where
  abbrev pub set_options : ℕ → List CurlOption → W → W
  set_options handle [] w = w
  set_options handle (o ∷ os) w = set_options handle os (curl.easy_setopt handle o w)

  -- The loop over the headers, each as `util::format("%1: %2", …)`.
  unfoldable pub append_headers : Headers → ℕ → W → ℕ × W
  unfolding c_string
  append_headers [] list w = (list, w)
  append_headers ((name, value) ∷ hs) list w =
      let appended = curl.slist_append list (c_string (curl.format name value)) w in
      append_headers hs appended.0 appended.1

  -- Up to the transfer: the list of headers.
  unfoldable pub prepare : ℕ → Request → W → ℕ × W
  prepare handle request w =
      let made =
        append_headers request.headers 0 (set_options handle (request_options request) w) in
      (made.0, set_options handle (transfer_options made.0) made.1)

  -- A failed transfer is reported, and handled as any other.
  unfoldable pub reported : Request → Transfer × W → W
  unfolding c_string
  reported request (t, w) =
      if t.status == 0
      then w
      else curl.print_failure (c_string request.url) (c_string request.body) t.status w

  unfoldable pub perform_request : ℕ → Request → W → Response × W
  perform_request handle request w =
      let performed = curl.easy_perform handle w in
      let code = curl.get_response_code handle (reported request performed) in
      (received performed.0 code.0, code.1)

  -- `curl_cleanup`, when its scope ends.
  unfoldable pub cleaned_up : ℕ → ℕ → Transport W → Transport W
  cleaned_up handle list t = record t {
    world = curl.slist_free_all list (curl.easy_cleanup handle t.world);
  }

  abbrev pub unguarded : Transport W → Transport W
  unguarded t = record t { guards = destroy t.guards }

  -- The completion block runs before the handle and the list are freed, and the guard goes last.
  unfoldable pub send_request_to_server :
      Request → (Response → Transport W → Transport W) → Transport W → Transport W
  send_request_to_server request completion_block t =
      let guards = construct t.guards in
      let made = curl.easy_init t.world in
      if made.0 == 0
      then unguarded (completion_block no_response (record { guards = guards; world = made.1 }))
      else let prepared = prepare made.0 request made.1 in
        let answered = perform_request made.0 request prepared.1 in
        unguarded (
          cleaned_up made.0 prepared.0
            (completion_block answered.0 (record { guards = guards; world = answered.1 })))
