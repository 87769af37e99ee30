-- ===== src/Tests/HttpRuns.antt =====
-- Runs over requests: a header line, a body in two chunks, two guards, a request.
use realm_lua_bootcamp.Prelude.{
  ℕ, ◌+◌, ◌≡◌, ◌++◌, refl, true, false, List, [], ◌∷◌, some, length, arith, if◌then◌else◌,
}
use realm_lua_bootcamp.Text.{Bytes, codes, text_eq}
use realm_lua_bootcamp.Http.Guard.{
  no_guards, construct, destroy, Reach, enter, leave, IsGuarded, Reach-IsGuarded,
}
use realm_lua_bootcamp.Http.Headers.{
  lookup, curl_header_cb, curl_write_cb, add_header, find, insert, skip_spaces, drop_line_end,
  header_value,
}
use realm_lua_bootcamp.Http.Headers.Line.{
  spaces, IsTrimmed, header_line, or_else, IsLineEnd, done, more, deliver, joined, Chunk,
  curl_header_cb-line, deliver-joined,
}
use realm_lua_bootcamp.Http.Headers.Trim.{IsCut, header_value-IsCut}
use realm_lua_bootcamp.Http.Request.{
  patch, Request, Response, Transport, send_request_to_server, perform_request, received, prepare,
  cleaned_up, append_headers, receive, reported, transfer_options, request_options,
}
use realm_lua_bootcamp.Http.Request.Laws.{slist}
use realm_lua_bootcamp.Http.Request.Sent.{IsSent, send_request-IsSent}
use realm_lua_bootcamp.Http.Request.Freed.{send_request-frees}
use realm_lua_bootcamp.Tests.CurlWorld.{CurlWorld, held, same_held, slow_curl, slow_laws}

Reach-IsGuarded_example : IsGuarded (destroy (construct (construct no_guards))) 1
Reach-IsGuarded_example = Reach-IsGuarded (leave (enter (enter Reach.start)))

abbrev crlf : Bytes
crlf = 13 ∷ 10 ∷ []

crlf-IsLineEnd : IsLineEnd crlf
crlf-IsLineEnd = more (13 ∷ []) 10 (more [] 13 done refl refl) refl refl

curl_header_cb-line_example :
    let (taken, after) =
      curl_header_cb
        (header_line (codes "Age") 1 (codes "7") crlf)
        1
        8
        ((codes "Host", codes "here") ∷ []) in
    (taken ≡ length (header_line (codes "Age") 1 (codes "7") crlf))
    × (lookup (codes "Age") after ≡ (
        if text_eq (codes "Age") (codes "Age")
        then some (or_else (lookup (codes "Age") ((codes "Host", codes "here") ∷ [])) (codes "7"))
        else lookup (codes "Age") ((codes "Host", codes "here") ∷ [])))
curl_header_cb-line_example =
    curl_header_cb-line (codes "Age") (codes "7") crlf 1 1 8 ((codes "Host", codes "here") ∷ [])
      (codes "Age") (ground arith) (ground arith) refl crlf-IsLineEnd (omega arith) (omega arith)

header_value-IsCut_example :
    let s = codes "  7 " ++ crlf in
    IsTrimmed (skip_spaces s)
    × ((n : ℕ) × (s ≡ spaces n (skip_spaces s)))
    × IsCut (skip_spaces s) (header_value s)
    × (drop_line_end (length s + 3) (skip_spaces s) ≡ header_value s)
header_value-IsCut_example = header_value-IsCut (codes "  7 " ++ crlf) 3

abbrev chunks : List Chunk
chunks =
    record { bytes = codes "ab"; size = 1; nmemb = 2 }
    ∷ record { bytes = codes "cde"; size = 3; nmemb = 1 }
    ∷ []

deliver-joined_example : deliver chunks (codes "x") ≡ (true, codes "x" ++ joined chunks)
deliver-joined_example =
    deliver-joined chunks (codes "x") ((omega arith, omega arith), ((omega arith, omega arith), tt))

abbrev change : Request
change = record {
  method = patch;
  url = codes "http://here";
  timeout_ms = 60000;
  headers = (codes "Accept", codes "text") ∷ [];
  body = codes "{}";
}

-- A client that keeps the response.
abbrev keep : Response → Transport CurlWorld → Transport CurlWorld
keep r u = record u { world = record u.world { answers = r ∷ u.world.answers } }

abbrev idle : Transport CurlWorld
idle = record { guards = no_guards; world = record { handles = []; lists = []; answers = [] } }

change_answers :
    (send_request_to_server change keep idle).world.answers
    ≡ record {
      http_status_code = 200;
      no_handle = false;
      headers = (codes "Age", codes "7") ∷ [];
      body = codes "ab";
    }
      ∷ []
unfolding send_request_to_server perform_request received prepare cleaned_up append_headers receive
    reported curl_header_cb curl_write_cb transfer_options add_header request_options find insert
    header_value drop_line_end skip_spaces
change_answers = refl

send_request-IsSent_example : IsSent held change keep idle (send_request_to_server change keep idle)
send_request-IsSent_example = send_request-IsSent slow_laws change keep idle

send_request-frees_example :
    let after = send_request_to_server change keep idle in
    (held after.world (slist 1) ≡ held idle.world (slist 1))
    × (after.guards.m_users ≡ idle.guards.m_users)
send_request-frees_example =
    send_request-frees slow_laws change keep idle (slist 1)
      (λ r u y. same_held u.world (r ∷ u.world.answers) y) (λ r u. refl)
