-- ===== src/Http/Request/Sent.antt =====
-- What a request asks of libcurl, and what its completion block is given.
use realm_lua_bootcamp.Prelude.{ℕ, suc, ◌≡◌, refl, ap, inl, inr, false, List, [], ◌∷◌, Option}
use realm_lua_bootcamp.Text.{Bytes}
use realm_lua_bootcamp.Http.Guard.{construct}
use realm_lua_bootcamp.Http.Headers.{Headers, curl_header_cb}
use realm_lua_bootcamp.Http.Headers.Line.{Chunk, deliver}
use realm_lua_bootcamp.Http.Request.{
  Request, Response, CurlOption, CurlApi, Delivery, header_line, body_part, Transfer, Transport,
  receive, or_zero, received, reported, perform_request, cleaned_up, unguarded, no_response,
  send_request_to_server,
}
use realm_lua_bootcamp.Http.Request.Laws.{Resource, Content, CurlLaws}
use realm_lua_bootcamp.Http.Request.Options.{Asks, options-Asks}
use realm_lua_bootcamp.Http.Request.Uses.{Uses, header_texts, easy_init-Uses}
use realm_lua_bootcamp.Http.Request.Freed.{
  prepare-Uses, prepared, send_request-no_handle, send_request-handle, zero_or_suc,
}

abbrev header_lines : List Delivery → List Chunk
header_lines [] = []
header_lines (header_line c ∷ ds) = c ∷ header_lines ds
header_lines (body_part c ∷ ds) = header_lines ds

abbrev body_parts : List Delivery → List Chunk
body_parts [] = []
body_parts (header_line c ∷ ds) = body_parts ds
body_parts (body_part c ∷ ds) = c ∷ body_parts ds

abbrev headers_of : List Chunk → Headers → Headers
headers_of [] hs = hs
headers_of (c ∷ cs) hs = headers_of cs (curl_header_cb c.bytes c.size c.nmemb hs).1

receive_lem :
    (ds : List Delivery) (hs : Headers) (body : Bytes)
    → receive ds hs body ≡ (headers_of (header_lines ds) hs, (deliver (body_parts ds) body).1)
unfolding receive
receive_lem [] hs body = refl
receive_lem (header_line c ∷ ds) hs body = receive_lem ds _ body
receive_lem (body_part c ∷ ds) hs body = receive_lem ds hs _

-- The response of a transfer, and of the status after it, which is 0 if there is none.
pub record IsAnswer (t : Transfer) (code : Option ℕ) (r : Response) : Type 0 where
  pub status : r.http_status_code ≡ or_zero code
  pub handled : r.no_handle ≡ false
  pub headers : r.headers ≡ headers_of (header_lines t.deliveries) []
  pub body : r.body ≡ (deliver (body_parts t.deliveries) []).1

received-IsAnswer : (t : Transfer) (code : Option ℕ) → IsAnswer t code (received t code)
unfolding received
received-IsAnswer t code = record {
  status = refl;
  handled = refl;
  headers = ap (λ p. p.0) (receive_lem t.deliveries [] []);
  body = ap (λ p. p.1) (receive_lem t.deliveries [] []);
}

-- The response's status after a transfer, and its report if it failed.
abbrev pub code_after : {W : Type 0} ⦃curl : CurlApi W⦄ → ℕ → Request → W → Option ℕ × W
code_after ⦃curl⦄ h request w = curl.get_response_code h (reported request (curl.easy_perform h w))

-- The state that a request ends in. Without a handle, the completion block is all that runs under the
-- guard. With one, the transfer runs in a world in which the handle and the list of headers are the
-- request's own and all else is as it was before; the completion block runs once, on the response of
-- that transfer, and the handle and that list are freed after it, the guard last.
pub data IsSent {W : Type 0} ⦃curl : CurlApi W⦄ (held : W → Resource → Option Content)
    (request : Request) (completion_block : Response → Transport W → Transport W) (t : Transport W)
    : Transport W → Type 0 where
  without_handle :
      (curl.easy_init t.world).0 ≡ 0
      → IsSent held request completion_block t (
          unguarded (
            completion_block no_response
              (record { guards = construct t.guards; world = (curl.easy_init t.world).1 })))
  with_handle :
      (h list : ℕ) (w : W) (os : List CurlOption) (r : Response)
      → (curl.easy_init t.world).0 ≡ suc h
      → Uses held t.world w (suc h) list os (header_texts curl.format request.headers)
      → Asks request list os
      → IsAnswer (curl.easy_perform (suc h) w).0 (code_after (suc h) request w).0 r
      → IsSent held request completion_block t (
          unguarded (
            cleaned_up (suc h) list (
              completion_block r (record {
                guards = construct t.guards;
                world = (code_after (suc h) request w).1;
              }))))

pub send_request-IsSent :
    {W : Type 0} ⦃curl : CurlApi W⦄ {held : W → Resource → Option Content}
    (laws : CurlLaws curl held) (request : Request)
    (completion_block : Response → Transport W → Transport W) (t : Transport W)
    → IsSent held request completion_block t (send_request_to_server request completion_block t)
unfolding perform_request
send_request-IsSent ⦃curl⦄ laws request completion_block t =
    elim (zero_or_suc (curl.easy_init t.world).0) [
      | inl none_made ↦
          rw (send_request-no_handle request completion_block t none_made)
            (without_handle none_made)
      | inr (h, made) ↦
          let p = prepared request completion_block t (suc h) in
          let u =
            prepare-Uses laws t.world (curl.easy_init t.world).1 (suc h) request
              (easy_init-Uses laws t.world h made) in
          rw (send_request-handle request completion_block t h made) (
            with_handle h p.0 p.1 _ _ made u
              (options-Asks request.method request.url request.body request.timeout_ms
                request.headers p.0)
              (received-IsAnswer _ _))
    ]
