-- ===== src/Http/Request/Options.antt =====
-- What a list of options amounts to: libcurl goes by the last of each kind.
use realm_lua_bootcamp.Prelude.{ℕ, ◌%◌, ◌^◌, ◌≡◌, refl, List, [], ◌∷◌, ◌++◌, Option, none, some}
use realm_lua_bootcamp.Text.{Bytes, codes, c_string}
use realm_lua_bootcamp.Http.Headers.{Headers}
use realm_lua_bootcamp.Http.Request.{
  HttpMethod, get, post, patch, put, del, Request, CurlOption, curlopt_url, curlopt_postfields,
  curlopt_customrequest, curlopt_timeout, curlopt_httpheader, curlopt_writefunction,
  curlopt_writedata, curlopt_headerfunction, curlopt_headerdata, request_options, transfer_options,
}

abbrev later : {A : Type 0} → Option A → Option A → Option A
later (some a) old = some a
later none old = old

-- What an option is set to in the end.
abbrev last_of : {A : Type 0} → (CurlOption → Option A) → List CurlOption → Option A
last_of f [] = none
last_of f (o ∷ os) = later (last_of f os) (f o)

abbrev url_option : CurlOption → Option Bytes
url_option (curlopt_url u) = some u
url_option _ = none

abbrev verb_option : CurlOption → Option Bytes
verb_option (curlopt_customrequest v) = some v
verb_option _ = none

abbrev fields_option : CurlOption → Option Bytes
fields_option (curlopt_postfields b) = some b
fields_option _ = none

abbrev timeout_option : CurlOption → Option ℕ
timeout_option (curlopt_timeout n) = some n
timeout_option _ = none

abbrev header_option : CurlOption → Option ℕ
header_option (curlopt_httpheader l) = some l
header_option _ = none

-- The callback and the variable that it writes.
abbrev write_options : List CurlOption → Option (Unit {0}) × Option (Unit {0})
write_options os = (
  last_of (λ o. elim o [ curlopt_writefunction ↦ some tt | _ ↦ none ]) os,
  last_of (λ o. elim o [ curlopt_writedata ↦ some tt | _ ↦ none ]) os,
)

abbrev header_options : List CurlOption → Option (Unit {0}) × Option (Unit {0})
header_options os = (
  last_of (λ o. elim o [ curlopt_headerfunction ↦ some tt | _ ↦ none ]) os,
  last_of (λ o. elim o [ curlopt_headerdata ↦ some tt | _ ↦ none ]) os,
)

-- A verb other than the one libcurl takes by itself: GET, or POST if there are post fields.
abbrev verb_of : HttpMethod → Option Bytes
verb_of get = none
verb_of post = none
verb_of patch = some (codes "PATCH")
verb_of put = some (codes "PUT")
verb_of del = some (codes "DELETE")

abbrev body_of : HttpMethod → Bytes → Option Bytes
body_of get b = none
body_of _ b = some b

-- The options stand for the request and a list of headers.
pub record Asks (request : Request) (list : ℕ) (os : List CurlOption) : Type 0 where
  pub url : last_of url_option os ≡ some (c_string request.url)
  pub verb : last_of verb_option os ≡ verb_of request.method
  pub fields : last_of fields_option os ≡ body_of request.method (c_string request.body)
  pub timeout : last_of timeout_option os ≡ some (request.timeout_ms % 2 ^ 64)
  pub header_list : last_of header_option os ≡ some list
  pub writes : write_options os ≡ (some tt, some tt)
  pub header_writes : header_options os ≡ (some tt, some tt)

pub options-Asks :
    (m : HttpMethod) (url body : Bytes) (n : ℕ) (hs : Headers) (list : ℕ)
    → let request : Request = record {
      method = m;
      url = url;
      timeout_ms = n;
      headers = hs;
      body = body;
    } in
      Asks request list (request_options request ++ transfer_options list)
unfolding request_options transfer_options
options-Asks get url body n hs list = record {
  url = refl;
  verb = refl;
  fields = refl;
  timeout = refl;
  header_list = refl;
  writes = refl;
  header_writes = refl;
}
options-Asks _ url body n hs list = record {
  url = refl;
  verb = refl;
  fields = refl;
  timeout = refl;
  header_list = refl;
  writes = refl;
  header_writes = refl;
}
